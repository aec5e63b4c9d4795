-- ===== src/Compat/Split.antt =====
-- The loops over `str_split_next` of src/compat.c, as the list of the fields that they see.
use softgre.Shared.{
  ℕ, zero, suc, ◌<◌, sym, ◌∙◌, length, length-append, ◌≡◌, ◌≢◌, refl, ap, Bool, true, false, not,
  ◌&&◌, ◌||◌, List, [], ◌∷◌, ◌++◌, Option, none, some, arith, ◌==◌, if◌then◌else◌, Bool-cases,
  Option-cases, inl, inr,
}
use softgre.Compat.{Text, strchr, str_split_next}

-- Whether a byte is in a text.
unfoldable pub has_byte : Text → ℕ → Bool
has_byte [] d = false
has_byte (c ∷ s) d = c == d || has_byte s d

pub strchr-append :
    (a b : Text) (d : ℕ) → has_byte a d ≡ false → strchr (a ++ d ∷ b) d ≡ some (a, b)
unfolding strchr has_byte
strchr-append [] b d h = ground arith
strchr-append (c ∷ a) b d h = ground (arith, strchr-append a b d)

pub strchr-none : (s : Text) (d : ℕ) → has_byte s d ≡ false → strchr s d ≡ none
unfolding strchr has_byte
strchr-none [] d h = refl
strchr-none (c ∷ s) d h = ground (arith, strchr-none s d)

-- What `strchr` finds.
pub strchr-parts :
    (s : Text) (d : ℕ) {a b : Text}
    → strchr s d ≡ some (a, b)
    → (s ≡ a ++ d ∷ b) × (has_byte a d ≡ false)
unfolding strchr has_byte
strchr-parts [] d e = cc
strchr-parts (c ∷ s) d {a} {b} e = elim (Bool-cases (c == d)) [
  | inl h ↦
      let f : some ([], s) ≡ some (a, b) = rw h at e in
      let same : c ≡ d = ground arith in
      let na : [] ≡ a = cc in let nb : s ≡ b = cc in (rw (← na, ← nb, same), rw (← na))
  | inr h ↦ elim (Option-cases (strchr s d)) [
    | inl k ↦ let f : none ≡ some (a, b) = rw (h, k) at e in cc
    | inr ((x, y), k) ↦
        let f : some (c ∷ x, y) ≡ some (a, b) = rw (h, k) at e in
        let na : c ∷ x ≡ a = cc in
        let nb : y ≡ b = cc in
        let (p, q) = strchr-parts s d k in
        (rw (← na, ← nb) (ap (λ z. c ∷ z) p), rw (← na, has_byte, h) q)
  ]
]

abbrev push_first : ℕ → List Text → List Text
push_first c [] = (c ∷ []) ∷ []
push_first c (f ∷ fs) = (c ∷ f) ∷ fs

-- The loop over `str_split_next`, by the rounds left.
unfoldable pub next_fields : ℕ → Option Text → ℕ → List Text
unfolding str_split_next
next_fields zero cursor d = []
next_fields (suc rounds) cursor d = elim (str_split_next cursor d) [
  | none ↦ []
  | some (field, rest) ↦ field ∷ next_fields rounds rest d
]

-- What the loop sees of a text: a round for each delimiter and two more are enough.
unfoldable pub fields : Text → ℕ → List Text
unfolding next_fields
fields s d = next_fields (suc (suc (length s))) (some s) d

-- The texts between the delimiters.
unfoldable pub split : Text → ℕ → List Text
split [] d = [] ∷ []
split (c ∷ s) d = if c == d then [] ∷ split s d else push_first c (split s d)

unfoldable pub join : ℕ → List Text → Text
join d [] = []
join d (f ∷ []) = f
join d (f ∷ g ∷ fs) = f ++ d ∷ join d (g ∷ fs)

split-none : (s : Text) (d : ℕ) → strchr s d ≡ none → split s d ≡ s ∷ []
unfolding strchr split
split-none [] d e = refl
split-none (c ∷ s) d e = elim (Bool-cases (c == d)) [
  | inl h ↦ let f : some ([], s) ≡ none = rw h at e in cc
  | inr h ↦ elim (Option-cases (strchr s d)) [
    | inl k ↦ rw (h, split-none s d k)
    | inr ((x, y), k) ↦ let f : some (c ∷ x, y) ≡ none = rw (h, k) at e in cc
  ]
]

split-some : (s : Text) (d : ℕ) {a b : Text} → strchr s d ≡ some (a, b) → split s d ≡ a ∷ split b d
unfolding strchr split
split-some [] d e = cc
split-some (c ∷ s) d {a} {b} e = elim (Bool-cases (c == d)) [
  | inl h ↦
      let f : some ([], s) ≡ some (a, b) = rw h at e in
      let na : [] ≡ a = cc in let nb : s ≡ b = cc in rw (h, ← na, ← nb)
  | inr h ↦ elim (Option-cases (strchr s d)) [
    | inl k ↦ let f : none ≡ some (a, b) = rw (h, k) at e in cc
    | inr ((x, y), k) ↦
        let f : some (c ∷ x, y) ≡ some (a, b) = rw (h, k) at e in
        let na : c ∷ x ≡ a = cc in let nb : y ≡ b = cc in rw (h, split-some s d k, ← na, ← nb)
  ]
]

next_fields-none : (rounds d : ℕ) → next_fields rounds none d ≡ []
unfolding next_fields str_split_next
next_fields-none zero d = refl
next_fields-none (suc rounds) d = refl

next_fields-split :
    (rounds : ℕ) (s : Text) (d : ℕ) → length s < rounds → next_fields rounds (some s) d ≡ split s d
unfolding next_fields str_split_next
next_fields-split zero s d h = absurd (omega arith)
next_fields-split (suc rounds) s d h = elim (Option-cases (strchr s d)) [
  | inl e ↦ rw (next_fields, e, next_fields-none rounds d) (sym (split-none s d e))
  | inr ((a, b), e) ↦
      let size = ap length (strchr-parts s d e).0 ∙ length-append a (d ∷ b) in
      rw (next_fields, e, next_fields-split rounds b d (omega (arith, h, size)))
        (sym (split-some s d e))
]

-- What such a loop sees is all that is between the delimiters.
pub fields-split : (s : Text) (d : ℕ) → fields s d ≡ split s d
unfolding fields
fields-split s d = next_fields-split (suc (suc (length s))) s d (omega arith)

join-push_first : (c d : ℕ) (fs : List Text) → fs ≢ [] → join d (push_first c fs) ≡ c ∷ join d fs
unfolding join
join-push_first c d [] n = absurd (n refl)
join-push_first c d (f ∷ []) n = refl
join-push_first c d (f ∷ g ∷ fs) n = refl

pub split-ne_nil : (s : Text) (d : ℕ) → split s d ≢ []
unfolding split
split-ne_nil [] d = λ e. cc
split-ne_nil (c ∷ s) d = elim (Bool-cases (c == d)) [
  | inl h ↦ rw h (λ e. cc)
  | inr h ↦ rw h (push_first_ne_nil c (split s d))
]
  where
    push_first_ne_nil : (c : ℕ) (fs : List Text) → push_first c fs ≢ []
    push_first_ne_nil c [] = λ e. cc
    push_first_ne_nil c (f ∷ fs) = λ e. cc

join-nil : (d : ℕ) (fs : List Text) → fs ≢ [] → join d ([] ∷ fs) ≡ d ∷ join d fs
unfolding join
join-nil d [] n = absurd (n refl)
join-nil d (f ∷ fs) n = refl

join-split : (s : Text) (d : ℕ) → join d (split s d) ≡ s
unfolding split join
join-split [] d = refl
join-split (c ∷ s) d = elim (Bool-cases (c == d)) [
  | inl h ↦
      let same : c ≡ d = ground arith in
      rw (h, join-nil d (split s d) (split-ne_nil s d), join-split s d, same)
  | inr h ↦ rw (h, join-push_first c d (split s d) (split-ne_nil s d), join-split s d)
]

abbrev pub free_of : ℕ → List Text → Bool
free_of d [] = true
free_of d (f ∷ fs) = not (has_byte f d) && free_of d fs

free_of-push_first :
    (c d : ℕ) (fs : List Text)
    → c == d ≡ false
    → free_of d fs ≡ true
    → free_of d (push_first c fs) ≡ true
unfolding has_byte
free_of-push_first c d [] h f = ground arith
free_of-push_first c d (g ∷ fs) h f = ground arith

free_of-split : (s : Text) (d : ℕ) → free_of d (split s d) ≡ true
unfolding split has_byte
free_of-split [] d = refl
free_of-split (c ∷ s) d = elim (Bool-cases (c == d)) [
  | inl h ↦ rw h (free_of-split s d)
  | inr h ↦ rw h (free_of-push_first c d (split s d) h (free_of-split s d))
]

pub fields-ne_nil : (s : Text) (d : ℕ) → fields s d ≢ []
fields-ne_nil s d e = split-ne_nil s d (sym (fields-split s d) ∙ e)

-- The fields that the loop over `str_split_next` sees are free of the delimiter, and joined by it they
-- are the text again, so that the loop ends with the text.
pub fields-join : (s : Text) (d : ℕ) → (join d (fields s d) ≡ s) × (free_of d (fields s d) ≡ true)
fields-join s d = rw (fields-split s d) (join-split s d, free_of-split s d)
