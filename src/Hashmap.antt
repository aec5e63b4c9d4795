-- ===== src/Hashmap.antt =====
-- src/hashmap.h and src/hashmap.c: the open-addressing hash map with linear probing and tombstones.
pub mod Slots
pub mod Probe
pub mod Valid
mod Update
mod Rehash
pub mod Methods
pub mod Iter
pub mod Lifetime
use Prim.Native.Nat.{bit_and}
use softgre.Shared.{
  ℕ, zero, suc, ◌+◌, ◌-◌, ◌*◌, Bool, true, false, ◌&&◌, List, [], ◌∷◌, Option, none, some, ltb, leb,
  ◌==◌, if◌then◌else◌, Run, ok, fault, ◌>>=◌, length, get_elem?, set, replicate,
}
use softgre.Keys.{Key}

-- `struct slot` by its state. The key and value of an empty or deleted slot are NULL, and no code
-- reads them or the hash that stays behind in a deleted slot.
pub data Slot {ℓ} (K V : Type ℓ) : Type ℓ where
  slot_empty : Slot K V
  slot_occupied : K → V → ℕ → Slot K V
  slot_deleted : Slot K V

-- A call of `key_free` or `value_free`.
pub data Freed {ℓ} (K V : Type ℓ) : Type ℓ where
  key_freed : K → Freed K V
  value_freed : V → Freed K V

-- `key_free` and `value_free` say whether the pointer is set; `freed` is the log of their calls,
-- latest first. Sizes are unbounded here: `size_t` could wrap only past 2 ^ 60 slots.
pub record Hashmap {ℓ} (K V : Type ℓ) : Type ℓ where
  pub slots : List (Slot K V)
  pub cap : ℕ
  pub count : ℕ
  pub occupied : ℕ
  pub key_free : Bool
  pub value_free : Bool
  pub freed : List (Freed K V)

-- What `find` returns, with `*insert_at`; `none` stands for SIZE_MAX.
pub data Find : Type 0 where
  found : ℕ → Find
  missing : Option ℕ → Find
  out_of_bounds : Find

abbrev pub hashmap_min_cap : ℕ
hashmap_min_cap = 16

-- `reusable != SIZE_MAX ? reusable : i`
abbrev pub first_reusable : Option ℕ → ℕ → Option ℕ
first_reusable (some r) i = some r
first_reusable none i = some i

module _ {ℓ} {K V : Type ℓ} where
  unfoldable pub hashmap_new : Bool → Bool → Hashmap K V
  unfolding replicate
  hashmap_new key_free value_free = record {
    slots = replicate hashmap_min_cap slot_empty;
    cap = hashmap_min_cap;
    count = 0;
    occupied = 0;
    key_free = key_free;
    value_free = value_free;
    freed = [];
  }

  unfoldable pub free_entry : Hashmap K V → K → V → Hashmap K V
  free_entry m k v =
      let log = if m.key_free then key_freed k ∷ m.freed else m.freed in
      record m { freed = if m.value_free then value_freed v ∷ log else log }

  -- The loop that frees every occupied slot.
  unfoldable pub free_slots : List (Slot K V) → Hashmap K V → Hashmap K V
  unfolding free_entry
  free_slots [] m = m
  free_slots (slot_occupied k v h ∷ s) m = free_slots s (free_entry m k v)
  free_slots (_ ∷ s) m = free_slots s m

  -- The calls that `hashmap_destroy` makes before the map is gone.
  unfoldable pub hashmap_destroy : Hashmap K V → List (Freed K V)
  unfolding free_slots
  hashmap_destroy m = (free_slots m.slots m).freed

  -- The loop of `resize` that looks for a slot that is not occupied, and the store. On fuel: with
  -- no such slot the loop does not end.
  unfoldable pub place : ℕ → List (Slot K V) → ℕ → ℕ → Slot K V → Run (List (Slot K V))
  unfolding get_elem? set
  place zero slots mask j s = fault
  place (suc fuel) slots mask j s = elim (get_elem? slots j) [
    | none ↦ fault
    | some (slot_occupied k v h) ↦ place fuel slots mask (bit_and (j + 1) mask) s
    | some t ↦ ok (set slots j s)
  ]

  unfoldable pub rehash : List (Slot K V) → ℕ → List (Slot K V) → Run (List (Slot K V))
  unfolding place
  rehash [] mask slots = ok slots
  rehash (slot_occupied k v h ∷ old) mask slots = do
    slots' ← place (length slots) slots mask (bit_and h mask) (slot_occupied k v h)
    rehash old mask slots'
  rehash (_ ∷ old) mask slots = rehash old mask slots

  unfoldable pub resize : Hashmap K V → ℕ → Run (Hashmap K V)
  unfolding rehash replicate
  resize m new_cap = do
    slots ← rehash m.slots (new_cap - 1) (replicate new_cap slot_empty)
    ok (record m { slots = slots; cap = new_cap; occupied = m.count })

  unfoldable pub hashmap_remove_all : Hashmap K V → Hashmap K V
  unfolding free_slots replicate
  hashmap_remove_all m = record m {
    slots = replicate hashmap_min_cap slot_empty;
    cap = hashmap_min_cap;
    count = 0;
    occupied = 0;
    freed = (free_slots m.slots m).freed;
  }

  unfoldable pub hashmap_size : Hashmap K V → ℕ
  hashmap_size m = m.count

  unfoldable pub hashmap_capacity : Hashmap K V → ℕ
  hashmap_capacity m = m.cap

  -- The first step of `hashmap_insert`: rehash at three quarters of load, doubling only when the
  -- live entries need the room.
  unfoldable pub make_room : Hashmap K V → Run (Hashmap K V)
  unfolding resize
  make_room m =
      if leb (m.cap * 3) ((m.occupied + 1) * 4)
      then resize m (if ltb m.cap ((m.count + 1) * 2) then m.cap * 2 else m.cap)
      else ok m

  -- `map->slots[i].value` at the slot that `find` returned.
  unfoldable pub value_at : List (Slot K V) → ℕ → Run V
  unfolding get_elem?
  value_at slots i = elim (get_elem? slots i) [ some (slot_occupied k v h) ↦ ok v | _ ↦ fault ]

  -- The entry goes into the slot that `find` reported; `occupied` counts the slots that were empty.
  unfoldable pub fill_slot : Hashmap K V → ℕ → Slot K V → Run (Hashmap K V)
  unfolding get_elem? set
  fill_slot m at s = elim (get_elem? m.slots at) [
    | none ↦ fault
    | some slot_empty ↦
        ok (record m { slots = set m.slots at s; occupied = m.occupied + 1; count = m.count + 1 })
    | some t ↦ ok (record m { slots = set m.slots at s; count = m.count + 1 })
  ]

  -- A replace keeps the stored key, frees the new one, and frees the old value.
  unfoldable pub replace_value : Hashmap K V → ℕ → K → V → Run (Hashmap K V)
  unfolding get_elem? set
  replace_value m i k v = elim (get_elem? m.slots i) [
    | some (slot_occupied k' old h) ↦
        let log = if m.key_free then key_freed k ∷ m.freed else m.freed in
        ok (record m {
          slots = set m.slots i (slot_occupied k' v h);
          freed = if m.value_free then value_freed old ∷ log else log;
        })
    | _ ↦ fault
  ]

  -- Free the entry of a slot and leave a tombstone.
  unfoldable pub delete_slot : Hashmap K V → ℕ → Run (Hashmap K V)
  unfolding get_elem? set free_entry
  delete_slot m i = elim (get_elem? m.slots i) [
    | some (slot_occupied k v h) ↦
        ok (record (free_entry m k v) { slots = set m.slots i slot_deleted; count = m.count - 1 })
    | _ ↦ fault
  ]

module _ {ℓ} {K V : Type ℓ} ⦃key : Key K⦄ where
  -- The probing loop of `find`, by the rounds left.
  unfoldable pub find_loop : ℕ → List (Slot K V) → ℕ → K → ℕ → ℕ → Option ℕ → Find
  unfolding get_elem?
  find_loop zero slots mask k hash i reusable = missing reusable
  find_loop (suc rounds) slots mask k hash i reusable =
      let next = find_loop rounds slots mask k hash (bit_and (i + 1) mask) in
      elim (get_elem? slots i) [
        | none ↦ out_of_bounds
        | some slot_empty ↦ missing (first_reusable reusable i)
        | some slot_deleted ↦ next (first_reusable reusable i)
        | some (slot_occupied k' v h) ↦
            let rest = next reusable in if h == hash && key.equal k' k then found i else rest
      ]

  unfoldable pub find : Hashmap K V → K → ℕ → Find
  unfolding find_loop
  find m k hash =
      let mask = m.cap - 1 in find_loop m.cap m.slots mask k hash (bit_and hash mask) none

  -- `none` is NULL.
  unfoldable pub hashmap_lookup : Hashmap K V → K → Run (Option V)
  unfolding find value_at
  hashmap_lookup m k = elim (find m k (key.hash k)) [
    | out_of_bounds ↦ fault
    | missing at ↦ ok none
    | found i ↦ do v ← value_at m.slots i; ok (some v)
  ]

  unfoldable pub hashmap_contains : Hashmap K V → K → Run Bool
  unfolding find
  hashmap_contains m k = elim (find m k (key.hash k)) [
    | out_of_bounds ↦ fault
    | missing at ↦ ok false
    | found i ↦ ok true
  ]

  unfoldable pub hashmap_insert : Hashmap K V → K → V → Run (Hashmap K V)
  unfolding make_room find fill_slot replace_value
  hashmap_insert m k v = do
    m' ← make_room m
    let hash = key.hash k
    elim (find m' k hash) [
      | out_of_bounds ↦ fault
      | found i ↦ replace_value m' i k v
      | missing none ↦ fault
      | missing (some at) ↦ fill_slot m' at (slot_occupied k v hash)
    ]

  unfoldable pub hashmap_remove : Hashmap K V → K → Run (Hashmap K V × Bool)
  unfolding find delete_slot
  hashmap_remove m k = elim (find m k (key.hash k)) [
    | out_of_bounds ↦ fault
    | missing at ↦ ok (m, false)
    | found i ↦ do m' ← delete_slot m i; ok (m', true)
  ]
