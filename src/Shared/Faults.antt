-- ===== src/Shared/Faults.antt =====
-- C code that may run into undefined behaviour: an index outside an array, or a loop that does
-- not end.
use mathlib.Core.Bool.{Bool, true, false}
use mathlib.Core.Path.{◌≡◌, refl, ap, ◌∙◌}
use softgre.Shared.Tests.{if◌then◌else◌}

pub data Run {ℓ} (A : Type ℓ) : Type ℓ where
  fault : Run A
  ok : A → Run A

infixl 5 ◌>>=◌
abbrev pub ◌>>=◌ {ℓ κ} : {A : Type ℓ} {B : Type κ} → Run A → (A → Run B) → Run B
fault >>= next = fault
ok x >>= next = next x

-- The code ends normally, and its value has the property `Post`.
abbrev pub Returns {ℓ κ} : {A : Type ℓ} → Run A → (A → Type κ) → Type (ℓ ⊔ κ)
Returns {A} code Post = (x : A) × (code ≡ ok x) × Post x

module _ {ℓ κ} {A : Type ℓ} where
  pub Returns-bind {ι μ} :
      {B : Type ι} {Mid : A → Type κ} {Post : B → Type μ} {code : Run A} {next : A → Run B}
      → Returns code Mid
      → ((x : A) → Mid x → Returns (next x) Post)
      → Returns (code >>= next) Post
  Returns-bind {next = next} (x, e, h) then_post =
      let (y, f, g) = then_post x h in (y, ap (λ c. c >>= next) e ∙ f, g)

  pub Returns-if :
      {Post : A → Type κ} (b : Bool) {yes no : Run A}
      → (b ≡ true → Returns yes Post)
      → (b ≡ false → Returns no Post)
      → Returns (if b then yes else no) Post
  Returns-if true y n = y refl
  Returns-if false y n = n refl
