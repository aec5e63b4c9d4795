-- ===== src/Ebtables/Rules.antt =====
-- Counting the commands of src/iface_ebtables.c that succeeded.
use softgre.Shared.{ℕ, ◌+◌, ◌≡◌, refl, Bool, true, false, ◌&&◌, List, [], ◌∷◌, arith, if◌then◌else◌}
use softgre.Compat.{Text, streq}
use softgre.Ebtables.{Log}

unfoldable pub same_args : List Text → List Text → Bool
unfolding streq
same_args [] [] = true
same_args [] (y ∷ ys) = false
same_args (x ∷ xs) [] = false
same_args (x ∷ xs) (y ∷ ys) = streq x y && same_args xs ys

-- How often a command succeeded.
unfoldable pub executed : List Text → Log → ℕ
unfolding same_args
executed args [] = 0
executed args ((cmd, ok) ∷ log) =
    let rest = executed args log in if ok && same_args cmd args then rest + 1 else rest

pub streq_refl : (t : Text) → streq t t ≡ true
unfolding streq
streq_refl [] = refl
streq_refl (c ∷ t) = ground (arith, streq_refl t)

pub same_args_refl : (xs : List Text) → same_args xs xs ≡ true
unfolding same_args
same_args_refl [] = refl
same_args_refl (x ∷ xs) = rw (streq_refl x, same_args_refl xs)
