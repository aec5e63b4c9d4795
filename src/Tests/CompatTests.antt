-- ===== src/Tests/CompatTests.antt =====
-- src/compat.c on single texts.
use softgre.Shared.{◌≡◌, refl, true, [], ◌∷◌, ◌++◌}
use softgre.Compat.{codes, isspace, str_trim, str_has_suffix, str_lcpy}
use softgre.Compat.Split.{fields, fields-join, free_of, join}

fields-join_example :
    (join b',' (fields (codes "1@br0,2@br1") b',') ≡ codes "1@br0,2@br1")
    × (free_of b',' (fields (codes "1@br0,2@br1") b',') ≡ true)
fields-join_example = fields-join (codes "1@br0,2@br1") b','

trimmed : str_trim (codes " br 0 ") ≡ codes "br 0"
unfolding str_trim isspace
trimmed = refl

last_field_empty : fields (codes "a,,b,") b',' ≡ codes "a" ∷ [] ∷ codes "b" ∷ [] ∷ []
unfolding fields
last_field_empty = refl

has_suffix : str_has_suffix (codes "sgre3") (codes "re3") ≡ true
unfolding str_has_suffix
has_suffix = refl

copied : str_lcpy (1 ∷ 2 ∷ 3 ∷ 4 ∷ 5 ∷ []) (codes "sgre3") 4 ≡ codes "sgr" ++ 0 ∷ 5 ∷ []
unfolding str_lcpy
copied = refl
