-- ===== src/Netlink/Decode.antt =====
-- Reading attributes back, as the kernel's manual says that a list of them is walked.
use mathlib.Core.List.{append_assoc}
use softgre.Shared.{
  ℕ, suc, ◌+◌, ◌-◌, ◌*◌, ◌/◌, ◌%◌, ◌≤◌, ◌<◌, ◌≡◌, refl, ap, ◌∙◌, false, ◌||◌, List, [], ◌∷◌, ◌++◌,
  Option, none, some, arith, ltb, if◌then◌else◌, length, length-append, length-replicate, take,
  drop,
}
use softgre.Netlink.{align, u16}
use softgre.Netlink.Attributes.{Attr, encode, encode_all, padding}

abbrev cons_attr : Attr → Option (List Attr) → Option (List Attr)
cons_attr a none = none
cons_attr a (some attrs) = some (a ∷ attrs)

-- RTA_OK, RTA_DATA and RTA_NEXT, for at most so many attributes.
unfoldable pub decode : ℕ → List ℕ → Option (List Attr)
decode rounds [] = some []
decode (suc rounds) (l ∷ l' ∷ t ∷ t' ∷ bytes) =
    let size = l + l' * 256 in
    let rest = decode rounds (drop (align size - 4) bytes) in
    if ltb size 4 || ltb (length bytes + 4) size
    then none
    else cons_attr (record { type = t + t' * 256; payload = take (size - 4) bytes }) rest
decode rounds bytes = none

take-append : (xs ys : List ℕ) → take (length xs) (xs ++ ys) ≡ xs
take-append [] ys = refl
take-append (x ∷ xs) ys = ap (λ t. x ∷ t) (take-append xs ys)

drop-append : (xs ys : List ℕ) (n : ℕ) → n ≡ length xs → drop n (xs ++ ys) ≡ ys
drop-append xs ys n e = ap (λ (k : ℕ). drop k (xs ++ ys)) e ∙ whole xs ys
  where
    whole : (xs ys : List ℕ) → drop (length xs) (xs ++ ys) ≡ ys
    whole [] ys = refl
    whole (x ∷ xs) ys = whole xs ys

-- The fields of 16 bits hold the attribute.
abbrev pub AllShort : List Attr → Type 0
AllShort [] = Unit
AllShort (a ∷ attrs) = ((length a.payload < 65532) × (a.type < 65536)) × AllShort attrs

both_false : (a b c d : ℕ) → b ≤ a → d ≤ c → (ltb a b || ltb c d) ≡ false
both_false a b c d h k = ground arith

decoded_none : decode 0 [] ≡ some []
unfolding decode
decoded_none = refl

two_bytes : (n : ℕ) → n < 65536 → n % 256 + n / 256 % 256 * 256 ≡ n
two_bytes n h = omega arith

length-padding : (n : ℕ) → length (padding n) ≡ align n - n
unfolding padding
length-padding n = length-replicate {A = ℕ} (align n - n) 0

decode_next :
    (a : Attr) (rounds : ℕ) (bytes : List ℕ)
    → length a.payload < 65532
    → a.type < 65536
    → decode (suc rounds) (encode a ++ bytes) ≡ cons_attr a (decode rounds bytes)
unfolding decode encode u16
decode_next a rounds bytes h ht =
    let size = two_bytes (4 + length a.payload) (omega (arith, h)) in
    let n = length a.payload in
    let type = two_bytes a.type ht in
    let pad = padding (4 + n) in
    let body = a.payload ++ pad in
    let e1 = length-append a.payload pad in
    let e2 = length-append body bytes in
    let e3 = length-padding (4 + n) in
    let few : 4 + n - 4 ≡ n = omega arith in
    let tests : (ltb (4 + n) 4 || ltb (length (body ++ bytes) + 4) (4 + n)) ≡ false =
      both_false (4 + n) 4 (length (body ++ bytes) + 4) (4 + n) (omega arith)
        (omega (arith, e1, e2)) in
    let taken : take (4 + n - 4) (body ++ bytes) ≡ a.payload =
      ap (λ (k : ℕ). take k (body ++ bytes)) few
      ∙ ap (λ t. take n t) (append_assoc a.payload pad bytes)
      ∙ take-append a.payload (pad ++ bytes) in
    let dropped : drop (align (4 + n) - 4) (body ++ bytes) ≡ bytes =
      drop-append body bytes (align (4 + n) - 4) (omega (arith, e1, e3)) in
    rw (size, type, tests, taken, dropped)

-- A list of attributes whose lengths and types fit in 16 bits is read back from its bytes.
pub decode-encode_all :
    (attrs : List Attr) → AllShort attrs → decode (length attrs) (encode_all attrs) ≡ some attrs
unfolding encode_all
decode-encode_all [] s = decoded_none
decode-encode_all (a ∷ attrs) ((h, ht), s) =
    decode_next a (length attrs) (encode_all attrs) h ht
    ∙ ap (λ r. cons_attr a r) (decode-encode_all attrs s)
