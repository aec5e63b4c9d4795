-- ===== src/Compat/Trim.antt =====
-- `str_trim` of src/compat.c against a description of trimmed texts.
use softgre.Shared.{
  ℕ, ◌≡◌, refl, ap, ◌∙◌, Bool, true, false, ◌&&◌, [], ◌∷◌, ◌++◌, arith, Bool-cases, ◌⊎◌, inl, inr,
}
use softgre.Compat.{Text, isspace, trim_start, trim_end, cons_unless_blank, str_trim}

unfoldable pub all_blank : Text → Bool
all_blank [] = true
all_blank (c ∷ s) = isspace c && all_blank s

unfoldable pub starts_blank : Text → Bool
starts_blank [] = false
starts_blank (c ∷ s) = isspace c

unfoldable pub ends_blank : Text → Bool
ends_blank [] = false
ends_blank (c ∷ []) = isspace c
ends_blank (c ∷ d ∷ s) = ends_blank (d ∷ s)

-- `t` is `s` without the spaces around it.
pub record Trims (s t : Text) : Type 0 where
  pub before : Text
  pub after : Text
  pub parts : s ≡ before ++ (t ++ after)
  pub before_blank : all_blank before ≡ true
  pub after_blank : all_blank after ≡ true
  pub first : starts_blank t ≡ false
  pub last : ends_blank t ≡ false

trim_end-blank : (b : Text) → all_blank b ≡ true → trim_end b ≡ []
unfolding trim_end all_blank
trim_end-blank [] h = refl
trim_end-blank (c ∷ b) h =
    let blank : isspace c ≡ true = ground arith in rw (trim_end-blank b (ground arith), blank)

pub trim_end-append :
    (t b : Text) → ends_blank t ≡ false → all_blank b ≡ true → trim_end (t ++ b) ≡ t
unfolding trim_end ends_blank
trim_end-append [] b e h = trim_end-blank b h
trim_end-append (c ∷ []) b e h = rw (trim_end-blank b h, e)
trim_end-append (c ∷ d ∷ t) b e h = rw (trim_end-append (d ∷ t) b e h)

pub trim_start-same : (t : Text) → starts_blank t ≡ false → trim_start t ≡ t
unfolding trim_start starts_blank
trim_start-same [] h = refl
trim_start-same (c ∷ t) h = rw h

trim_start-blank : (b : Text) → all_blank b ≡ true → trim_start b ≡ []
unfolding trim_start all_blank
trim_start-blank [] h = refl
trim_start-blank (c ∷ b) h =
    let blank : isspace c ≡ true = ground arith in rw blank (trim_start-blank b (ground arith))

-- A text that is trimmed but for spaces behind it.
pub str_trim-append :
    (t b : Text)
    → starts_blank t ≡ false
    → ends_blank t ≡ false
    → all_blank b ≡ true
    → str_trim (t ++ b) ≡ t
unfolding str_trim starts_blank trim_end
str_trim-append [] b f e h = rw (str_trim, trim_start-blank b h, trim_end)
str_trim-append (c ∷ t) b f e h =
    rw (str_trim, trim_start-same (c ∷ (t ++ b)) f) (trim_end-append (c ∷ t) b e h)

trim_start-parts : (s : Text) → (b : Text) × (s ≡ b ++ trim_start s) × (all_blank b ≡ true)
unfolding trim_start all_blank
trim_start-parts [] = ([], refl, refl)
trim_start-parts (c ∷ s) = elim (Bool-cases (isspace c)) [
  | inl blank ↦
      let (b, e, h) = trim_start-parts s in
      (c ∷ b, rw blank (ap (λ x. c ∷ x) e), rw (all_blank, blank) h)
  | inr f ↦ ([], rw f refl, refl)
]

trim_start-first : (s : Text) → starts_blank (trim_start s) ≡ false
unfolding trim_start starts_blank
trim_start-first [] = refl
trim_start-first (c ∷ s) = elim (Bool-cases (isspace c)) [
  | inl blank ↦ rw blank (trim_start-first s)
  | inr f ↦ rw (f, starts_blank, f)
]

-- What is left of the text behind the first byte, and whether that byte stays.
cons_parts :
    (c : ℕ) (r : Text)
    → ends_blank r ≡ false
    → (ends_blank (cons_unless_blank c r) ≡ false)
      × ((cons_unless_blank c r ≡ c ∷ r)
          ⊎ ((cons_unless_blank c r ≡ []) × (r ≡ []) × (isspace c ≡ true)))
unfolding ends_blank
cons_parts c [] h = ground arith
cons_parts c (d ∷ r) h = (h, inl refl)

trim_end-last : (s : Text) → ends_blank (trim_end s) ≡ false
unfolding trim_end ends_blank
trim_end-last [] = refl
trim_end-last (c ∷ s) = (cons_parts c (trim_end s) (trim_end-last s)).0

trim_end-parts : (s : Text) → (b : Text) × (s ≡ trim_end s ++ b) × (all_blank b ≡ true)
unfolding trim_end all_blank
trim_end-parts [] = ([], refl, refl)
trim_end-parts (c ∷ s) =
    let (b, e, h) = trim_end-parts s in
    elim ((cons_parts c (trim_end s) (trim_end-last s)).1) [
      | inl k ↦ (b, rw k (ap (λ x. c ∷ x) e), h)
      | inr (k, r, blank) ↦
          let same : s ≡ b = rw r at e in (c ∷ b, rw k (ap (λ x. c ∷ x) same), rw blank h)
    ]

trim_end-first : (s : Text) → starts_blank s ≡ false → starts_blank (trim_end s) ≡ false
unfolding trim_end starts_blank
trim_end-first [] h = refl
trim_end-first (c ∷ s) h = elim ((cons_parts c (trim_end s) (trim_end-last s)).1) [
  | inl k ↦ rw k h
  | inr (k, r, blank) ↦ rw k refl
]

-- `str_trim` cuts exactly the spaces around the text: what it returns neither starts nor ends with
-- one, and what it cuts before and behind is spaces only.
pub str_trim-Trims : (s : Text) → Trims s (str_trim s)
unfolding str_trim
str_trim-Trims s =
    let (b, e, h) = trim_start-parts s in
    let (a, f, k) = trim_end-parts (trim_start s) in
    record {
      before = b;
      after = a;
      parts = e ∙ ap (λ x. b ++ x) f;
      before_blank = h;
      after_blank = k;
      first = trim_end-first (trim_start s) (trim_start-first s);
      last = trim_end-last (trim_start s);
    }
