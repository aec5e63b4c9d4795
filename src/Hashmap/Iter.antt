-- ===== src/Hashmap/Iter.antt =====
-- src/hashmap.c: the iterator, and the snapshot of the keys.
pub mod Visit
pub mod Drain
use softgre.Shared.{
  ℕ, zero, suc, ◌+◌, ◌-◌, Bool, true, false, List, [], ◌∷◌, ◌++◌, Option, none, some, ltb, ◌==◌,
  if◌then◌else◌, Run, ok, fault, ◌>>=◌, length, get_elem?,
}
use softgre.Keys.{Key}
use softgre.Hashmap.{Slot, slot_empty, slot_occupied, slot_deleted, Hashmap, Freed, delete_slot}

-- `struct hashmap_iter`; its map is an argument of the functions, and `none` is SIZE_MAX.
pub record HashmapIter : Type 0 where
  pub slot : ℕ
  pub current : Option ℕ
  pub valid : Bool

unfoldable pub hashmap_iter_init : HashmapIter
hashmap_iter_init = record { slot = 0; current = none; valid = false }

module _ {ℓ} {K V : Type ℓ} where
  -- The loop of `hashmap_iter_next`, by the slots left.
  unfoldable pub next_loop : ℕ → Hashmap K V → HashmapIter → Run (HashmapIter × Option (K × V))
  unfolding get_elem?
  next_loop zero m it = ok (record it { valid = false }, none)
  next_loop (suc rounds) m it =
      let i = it.slot in
      elim (get_elem? m.slots i) [
        | none ↦ fault
        | some (slot_occupied k v h) ↦
            ok (record { slot = i + 1; current = some i; valid = true }, some (k, v))
        | some t ↦ next_loop rounds m (record it { slot = i + 1 })
      ]

  -- `none` is the result false; both out-parameters are given.
  unfoldable pub hashmap_iter_next : Hashmap K V → HashmapIter → Run (HashmapIter × Option (K × V))
  unfolding next_loop
  hashmap_iter_next m it = next_loop (m.cap - it.slot) m it

  remove_current : Hashmap K V → HashmapIter → Option ℕ → Run (Hashmap K V × HashmapIter)
  unfolding delete_slot
  remove_current m it none = fault
  remove_current m it (some i) = do m' ← delete_slot m i; ok (m', record it { valid = false })

  unfoldable pub hashmap_iter_remove : Hashmap K V → HashmapIter → Run (Hashmap K V × HashmapIter)
  unfolding remove_current
  hashmap_iter_remove m it = if it.valid then remove_current m it it.current else ok (m, it)

  -- `keys[n++] = ...` faults past the `limit` elements that were allocated.
  unfoldable pub keys_loop : List (Slot K V) → ℕ → List K → Run (List K)
  keys_loop [] limit keys = ok keys
  keys_loop (slot_occupied k v h ∷ slots) limit keys =
      if ltb (length keys) limit then keys_loop slots limit (keys ++ k ∷ []) else fault
  keys_loop (_ ∷ slots) limit keys = keys_loop slots limit keys

  -- The array and its count, which is its length.
  unfoldable pub hashmap_keys : Hashmap K V → Run (List K)
  unfolding keys_loop
  hashmap_keys m = keys_loop m.slots (if m.count == 0 then 1 else m.count) []

  -- `while (hashmap_iter_next(&it, &key, &value))` to the end.
  unfoldable pub visit : ℕ → Hashmap K V → HashmapIter → Run (List (K × V))
  unfolding hashmap_iter_next
  visit zero m it = fault
  visit (suc fuel) m it = do
    (it', e) ← hashmap_iter_next m it
    elim e [ none ↦ ok [] | some kv ↦ do rest ← visit fuel m it'; ok (kv ∷ rest) ]

  -- The same loop with `hashmap_iter_remove(&it)` in its body.
  unfoldable pub drain : ℕ → Hashmap K V → HashmapIter → Run (Hashmap K V × List (K × V))
  unfolding hashmap_iter_next hashmap_iter_remove
  drain zero m it = fault
  drain (suc fuel) m it = do
    (it', e) ← hashmap_iter_next m it
    elim e [
      | none ↦ ok (m, [])
      | some kv ↦ do
        (m', it'') ← hashmap_iter_remove m it'
        (m'', rest) ← drain fuel m' it''
        ok (m'', kv ∷ rest)
    ]
