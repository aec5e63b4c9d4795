-- ===== src/Maps/Assoc.antt =====
-- Association lists are such a map: what is first in the list hides what is behind it.
use softgre.Shared.{
  ◌+◌, ◌≡◌, ◌↔◌, refl, sym, subst, Bool, true, false, List, [], ◌∷◌, Option, none, some,
  if◌then◌else◌, arith, length, Bool-cases, inl, inr,
}
use softgre.Maps.{MapOps, present, is_some, contains, once}

module _ {K : Type 0} (same : K → K → Bool) where
  unfoldable pub without : K → List K → List K
  without k [] = []
  without k (j ∷ ks) = if same k j then without k ks else j ∷ without k ks

module _ {K V : Type 0} (same : K → K → Bool) where
  unfoldable pub first_value : List (K × V) → K → Option V
  first_value [] k = none
  first_value ((j, v) ∷ m) k = if same j k then some v else first_value m k

  unfoldable pub drop_key : List (K × V) → K → List (K × V)
  drop_key [] k = []
  drop_key ((j, v) ∷ m) k = if same k j then drop_key m k else (j, v) ∷ drop_key m k

  unfoldable pub keys_of : List (K × V) → List K
  unfolding without
  keys_of [] = []
  keys_of ((j, v) ∷ m) = j ∷ without same j (keys_of m)

module _ {K : Type 0} (same : K → K → Bool)
    (same_iff : (j k : K) → (same j k ≡ true) ↔ (j ≡ k)) where
  same_refl : (k : K) → same k k ≡ true
  same_refl k = (same_iff k k).1 refl

  contains-without :
      (j : K) (ks : List K) (k : K)
      → contains same (without same j ks) k ≡ (if same j k then false else contains same ks k)
  unfolding contains without
  contains-without j [] k = ground arith
  contains-without j (i ∷ ks) k = elim (Bool-cases (same j i)) [
    | inl e ↦ let q = (same_iff j i).0 e in rw (e, contains-without j ks k, q) (ground arith)
    | inr e ↦
        rw (e, contains-without j ks k)
          (elim (Bool-cases (same i k)) [
            | inl f ↦ let q = (same_iff i k).0 f in rw (f, ← q, e)
            | inr f ↦ rw f
          ])
  ]

  once-without : (j : K) (ks : List K) → once same ks ≡ true → once same (without same j ks) ≡ true
  unfolding once without
  once-without j [] h = refl
  once-without j (i ∷ ks) h = ground (arith, contains-without j ks i, once-without j ks)

  without_again : (j : K) (ks : List K) → without same j (without same j ks) ≡ without same j ks
  unfolding without
  without_again j [] = refl
  without_again j (i ∷ ks) = elim (Bool-cases (same j i)) [
    | inl e ↦ rw e (without_again j ks)
    | inr e ↦ rw (e, e, without_again j ks)
  ]

  without_comm :
      (j k : K) (ks : List K)
      → without same j (without same k ks) ≡ without same k (without same j ks)
  unfolding without
  without_comm j k [] = refl
  without_comm j k (i ∷ ks) = elim (Bool-cases (same j i)) [
    | inl e ↦ elim (Bool-cases (same k i)) [
      | inl f ↦ rw (e, f) (without_comm j k ks)
      | inr f ↦ rw (e, f, e) (without_comm j k ks)
    ]
    | inr e ↦ elim (Bool-cases (same k i)) [
      | inl f ↦ rw (e, f) (without_comm j k ks)
      | inr f ↦ rw (e, f, e, without_comm j k ks)
    ]
  ]

  length-without :
      (k : K) (ks : List K)
      → once same ks ≡ true
      → length (without same k ks) + (if contains same ks k then 1 else 0) ≡ length ks
  unfolding once without contains
  length-without k [] h = refl
  length-without k (j ∷ ks) h = elim (Bool-cases (same k j)) [
    | inl e ↦
        let q = (same_iff k j).0 e in
        let f : contains same ks k ≡ false = rw q (ground arith) in
        let g : same j k ≡ true = rw (← q) (same_refl k) in
        let r = length-without k ks (ground arith) in rw (e, g) (ground arith)
    | inr e ↦
        let r = length-without k ks (ground arith) in
        elim (Bool-cases (same j k)) [
          | inl f ↦ let q = (same_iff j k).0 f in let z = (same_iff k j).1 (sym q) in cc
          | inr f ↦ rw (e, f) (omega (arith, r))
        ]
  ]

  module _ {V : Type 0} where
    pub first_value-drop_key :
        (m : List (K × V)) (j k : K)
        → first_value same (drop_key same m j) k ≡ (if same j k then none else first_value same m k)
    unfolding first_value drop_key
    first_value-drop_key [] j k = ground arith
    first_value-drop_key ((i, v) ∷ m) j k = elim (Bool-cases (same j i)) [
      | inl e ↦ let q = (same_iff j i).0 e in rw (e, first_value-drop_key m j k, q) (ground arith)
      | inr e ↦
          rw (e, first_value-drop_key m j k)
            (elim (Bool-cases (same i k)) [
              | inl f ↦ let q = (same_iff i k).0 f in rw (f, ← q, e)
              | inr f ↦ rw f
            ])
    ]

    pub contains-keys_of :
        (m : List (K × V)) (k : K)
        → contains same (keys_of same m) k ≡ is_some (first_value same m k)
    unfolding contains keys_of first_value
    contains-keys_of [] k = refl
    contains-keys_of ((j, v) ∷ m) k =
        ground (arith, contains-without j (keys_of same m) k, contains-keys_of m k)

    pub once-keys_of : (m : List (K × V)) → once same (keys_of same m) ≡ true
    unfolding once keys_of
    once-keys_of [] = refl
    once-keys_of ((j, v) ∷ m) = ground (
      arith,
      contains-without j (keys_of same m) j,
      same_refl j,
      once-without j (keys_of same m),
      once-keys_of m,
    )

    pub keys_of-drop_key :
        (m : List (K × V)) (k : K)
        → keys_of same (drop_key same m k) ≡ without same k (keys_of same m)
    unfolding keys_of drop_key without
    keys_of-drop_key [] k = refl
    keys_of-drop_key ((j, v) ∷ m) k = elim (Bool-cases (same k j)) [
      | inl e ↦
          let q = (same_iff k j).0 e in
          let ks = keys_of same m in
          let shrunk =
            subst (λ i. without same k ks ≡ without same k (without same i ks)) q
              (sym (without_again k ks)) in
          rw (e, keys_of-drop_key m k) shrunk
      | inr e ↦ rw (e, keys_of-drop_key m k, without_comm j k (keys_of same m))
    ]

    pub size_lem :
        (m : List (K × V)) (k : K)
        → length (without same k (keys_of same m)) + present (first_value same m k)
          ≡ length (keys_of same m)
    size_lem m k =
        ground (arith, length-without k (keys_of same m), once-keys_of m, contains-keys_of m k)

    unfoldable pub assoc_map : MapOps K V (List (K × V))
    unfolding first_value keys_of drop_key without
    assoc_map = record {
      same = same;
      same_iff = same_iff;
      new = [];
      lookup = first_value same;
      insert = λ m k v. (k, v) ∷ m;
      remove = drop_key same;
      size = λ m. length (keys_of same m);
      keys = keys_of same;
      lookup-new = λ k. refl;
      lookup-insert = λ m j k v. refl;
      lookup-remove = first_value-drop_key;
      size-new = refl;
      size-insert = λ m k v. omega (arith, size_lem m k);
      size-remove = λ m k. rw (keys_of-drop_key m k) (size_lem m k);
      contains-keys = contains-keys_of;
      once-keys = once-keys_of;
    }
