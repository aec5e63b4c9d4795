-- ===== src/Tests/HashmapTests.antt =====
-- src/hashmap.c on small maps.
use softgre.Shared.{
  ℕ, suc, ◌≡◌, refl, Bool, true, false, List, [], ◌∷◌, Option, none, some, arith, Run, ok, ◌>>=◌,
  Returns, length,
}
use softgre.Maps.{MapOps}
use softgre.Maps.Table.{Table, table_map}
use softgre.Keys.{
  eq_of_equal_u32, eq_of_equal_str, u32_key, str_key, hashmap_hash_u32, hashmap_equal_u32,
  hashmap_hash_str,
}
use softgre.Hashmap.{Hashmap, hashmap_new, hashmap_insert, hashmap_remove, hashmap_lookup}
use softgre.Hashmap.Slots.{view}
use softgre.Hashmap.Valid.{IsValid, lookup-view}
use softgre.Hashmap.Methods.{
  Inserted, insert-Inserted, Removed, remove-Removed, lookup-insert, lookup-remove,
}
use softgre.Hashmap.Lifetime.{Bounded, new-IsFresh, created, inserted, History-Bounded}
use softgre.Hashmap.Iter.{hashmap_keys, drain, hashmap_iter_init}
use softgre.Hashmap.Iter.Visit.{keys_of, keys-entries, entries}
use softgre.Hashmap.Iter.Drain.{drain-Drained}

abbrev fresh : Hashmap ℕ ℕ
fresh = hashmap_new false true

abbrev session : Run (Option ℕ × Option ℕ × Bool × ℕ)
session = do
  m1 ← hashmap_insert fresh 7 70
  m2 ← hashmap_insert m1 9 90
  m3 ← hashmap_insert m2 7 71
  (m4, gone) ← hashmap_remove m3 9
  seven ← hashmap_lookup m4 7
  nine ← hashmap_lookup m4 9
  ok (seven, nine, gone, m4.count)

session_runs : session ≡ ok (some 71, none, true, 1)
unfolding hashmap_new hashmap_insert hashmap_remove hashmap_lookup hashmap_hash_u32
    hashmap_equal_u32
session_runs = refl

-- FNV-1a of the text `ab`.
hash_of_text : hashmap_hash_str (b'a' ∷ b'b' ∷ []) ≡ 0x4d2505ca
unfolding hashmap_hash_str
hash_of_text = refl

fresh-IsValid : IsValid fresh
fresh-IsValid = (new-IsFresh false true).0

insert-Inserted_example : Returns (hashmap_insert fresh 7 70) (Inserted fresh 7 70)
insert-Inserted_example = insert-Inserted fresh 7 70 fresh-IsValid

abbrev one_entry : Hashmap ℕ ℕ
one_entry = insert-Inserted_example.0

one_entry-IsValid : IsValid one_entry
one_entry-IsValid = insert-Inserted_example.2.valid

remove-Removed_example : Returns (hashmap_remove one_entry 7) λ r. Removed one_entry 7 r.0 r.1
remove-Removed_example = remove-Removed one_entry 7 one_entry-IsValid

lookup-view_example : hashmap_lookup one_entry 7 ≡ ok (view one_entry.slots 7)
lookup-view_example = lookup-view {m = one_entry} one_entry-IsValid 7

lookup-insert_example :
    hashmap_insert one_entry 9 90 >>= (λ m. hashmap_lookup m 7) ≡ hashmap_lookup one_entry 7
unfolding hashmap_equal_u32
lookup-insert_example = lookup-insert one_entry 9 7 90 one_entry-IsValid

lookup-remove_example : hashmap_remove one_entry 7 >>= (λ r. hashmap_lookup r.0 7) ≡ ok none
unfolding hashmap_equal_u32
lookup-remove_example = lookup-remove one_entry 7 7 one_entry-IsValid

keys-entries_example : hashmap_keys one_entry ≡ ok (keys_of one_entry.slots)
keys-entries_example = keys-entries one_entry one_entry-IsValid

drain-Drained_example :
    Returns (drain (suc (length (entries one_entry.slots))) one_entry hashmap_iter_init) λ r.
      IsValid r.0
      × (r.1 ≡ entries one_entry.slots)
      × (r.0.count ≡ 0)
      × ((q : ℕ) → view r.0.slots q ≡ none)
drain-Drained_example = drain-Drained one_entry one_entry-IsValid

History-Bounded_example : Bounded one_entry 3
unfolding hashmap_new
History-Bounded_example = History-Bounded (
    inserted 7 70 (created false true 3) insert-Inserted_example.1
      (omega (arith, insert-Inserted_example.2.count)))

-- The maps of provisioning, on the program's own hash map.
abbrev own_tunnels : MapOps ℕ ℕ (Table ℕ ℕ)
own_tunnels = table_map eq_of_equal_u32 false true

abbrev own_macs : MapOps (List ℕ) (Unit {0}) (Table (List ℕ) (Unit {0}))
own_macs = table_map eq_of_equal_str true false
