-- ===== src/Hashmap/Lifetime.antt =====
-- A map of src/hashmap.c from `hashmap_new` on: histories of calls, and the size of its array.
use softgre.Shared.{
  ℕ, ◌+◌, ◌*◌, ◌≤◌, ◌≡◌, refl, sym, subst, Bool, none, arith, ok, max, replicate, length-replicate,
}
use softgre.Keys.{Key}
use softgre.Hashmap.{
  Slot, slot_empty, Hashmap, hashmap_new, hashmap_insert, hashmap_remove, hashmap_remove_all,
  hashmap_min_cap,
}
use softgre.Hashmap.Slots.{total-replicate, live, used, view, view-replicate}
use softgre.Hashmap.Valid.{IsTable, IsValid, replicate-IsTable}
use softgre.Hashmap.Methods.{Inserted, insert-Inserted, Removed, remove-Removed}

module _ {ℓ} {K V : Type ℓ} ⦃key : Key K⦄ where
  -- Empty, at the smallest size.
  abbrev pub IsFresh : Hashmap K V → Type ℓ
  IsFresh m =
      IsValid m × (m.count ≡ 0) × (m.cap ≡ hashmap_min_cap) × ((q : K) → view m.slots q ≡ none)

  empty_slots :
      (m : Hashmap K V)
      → m.slots ≡ replicate 16 slot_empty
      → m.cap ≡ 16
      → m.count ≡ 0
      → m.occupied ≡ 0
      → IsFresh m
  unfolding live used
  empty_slots m s c n o =
      let none_used : Slot K V = slot_empty in
      (
        record {
          table = subst IsTable (sym s) (replicate-IsTable 4);
          width = rw s (omega (arith, length-replicate 16 none_used));
          roomy = omega arith;
          counted = rw s (omega (arith, total-replicate live 16 none_used refl));
          used_count = rw s (omega (arith, total-replicate used 16 none_used refl));
          load = omega arith;
        },
        n,
        c,
        λ q. rw s (view-replicate q 16),
      )

  -- `hashmap_new` makes an empty, well-formed map.
  pub new-IsFresh : (kf vf : Bool) → IsFresh (hashmap_new kf vf)
  unfolding hashmap_new
  new-IsFresh kf vf = empty_slots _ refl refl refl refl

  -- So does `hashmap_remove_all`, from any map.
  pub remove_all-IsFresh : (m : Hashmap K V) → IsFresh (hashmap_remove_all m)
  unfolding hashmap_remove_all
  remove_all-IsFresh m = empty_slots _ refl refl refl refl

  -- A history of calls in which at most `n` entries are live after each call.
  pub data History : Hashmap K V → ℕ → Type ℓ where
    created : (kf vf : Bool) (n : ℕ) → History (hashmap_new kf vf) n
    inserted :
        {m m' : Hashmap K V} {n : ℕ} (k : K) (v : V)
        → History m n
        → hashmap_insert m k v ≡ ok m'
        → m'.count ≤ n
        → History m' n
    removed :
        {m m' : Hashmap K V} {n : ℕ} (k : K) (b : Bool)
        → History m n
        → hashmap_remove m k ≡ ok (m', b)
        → History m' n
    cleared : {m : Hashmap K V} {n : ℕ} → History m n → History (hashmap_remove_all m) n

  abbrev pub Bounded : Hashmap K V → ℕ → Type ℓ
  Bounded m n = IsValid m × (m.count ≤ n) × (m.cap ≤ max hashmap_min_cap (4 * (n + 1)))

  Inserted-of_run :
      (m m' : Hashmap K V) (k : K) (v : V)
      → IsValid m
      → hashmap_insert m k v ≡ ok m'
      → Inserted m k v m'
  Inserted-of_run m m' k v valid run =
      let (m1, run', r) = insert-Inserted m k v valid in
      let same : m1 ≡ m' = cc in subst (Inserted m k v) same r

  Removed-of_run :
      (m m' : Hashmap K V) (k : K) (b : Bool)
      → IsValid m
      → hashmap_remove m k ≡ ok (m', b)
      → Removed m k m' b
  Removed-of_run m m' k b valid run =
      let (m1, run', r) = remove-Removed m k valid in
      let same : m1 ≡ (m', b) = cc in subst (λ x. Removed m k x.0 x.1) same r

  -- Churn of any number of distinct keys does not grow the array: the bound is on live entries.
  pub History-Bounded : {m : Hashmap K V} {n : ℕ} → History m n → Bounded m n
  History-Bounded (created kf vf n) =
      let f = new-IsFresh kf vf in (f.0, omega (arith, f.1), omega (arith, f.2))
  History-Bounded {n = n} (inserted {m} {m'} k v h run few) =
      let (valid, live, cap) = History-Bounded h in
      let r = Inserted-of_run m m' k v valid run in (r.valid, few, ground (arith, r.size))
  History-Bounded (removed {m} {m'} k b h run) =
      let (valid, live, cap) = History-Bounded h in
      let r = Removed-of_run m m' k b valid run in
      (r.valid, omega (arith, r.count), omega (arith, r.cap))
  History-Bounded (cleared {m} h) =
      let f = remove_all-IsFresh m in (f.0, omega (arith, f.1), omega (arith, f.2))
