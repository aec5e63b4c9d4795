-- ===== src/Netlink/Attributes.antt =====
-- The attributes of a netlink request, as the kernel's manual defines their layout.
use mathlib.Core.List.{append-nil}
use softgre.Shared.{
  ℕ, suc, ◌+◌, ◌-◌, ◌/◌, ◌%◌, ◌≤◌, ◌≡◌, refl, sym, ap, ◌∙◌, List, [], ◌∷◌, ◌++◌, some, arith,
  length, length-append, replicate, length-replicate, set, ltb-false,
}
use softgre.Netlink.{
  LinkRequest, request_size, align, u16, link_attr, link_nest, link_nest_end, nla_f_nested,
  nlmsg_len, headers_size, ◌>>=◌,
}

pub record Attr : Type 0 where
  pub type : ℕ
  pub payload : List ℕ

-- The zero bytes up to the next multiple of four.
unfoldable pub padding : ℕ → List ℕ
unfolding replicate
padding n = replicate (align n - n) 0

-- Length, type, payload and padding.
unfoldable pub encode : Attr → List ℕ
unfolding u16 padding
encode a =
    u16 (4 + length a.payload) ++ (u16 a.type ++ (a.payload ++ padding (4 + length a.payload)))

unfoldable pub encode_all : List Attr → List ℕ
unfolding encode
encode_all [] = []
encode_all (a ∷ attrs) = encode a ++ encode_all attrs

pub length-encode :
    (a : Attr) → (length (encode a) % 4 ≡ 0) × (length (encode a) ≡ align (4 + length a.payload))
unfolding encode u16 padding
length-encode a =
    let n = align (4 + length a.payload) - (4 + length a.payload) in
    let e = length-append a.payload (replicate n 0) in
    let f = length-replicate {A = ℕ} n 0 in (omega (arith, e, f), omega (arith, e, f))

pub link_attr-encode :
    (req : LinkRequest) (type : ℕ) (payload : List ℕ)
    → length req.bytes % 4 ≡ 0
    → length req.bytes + (length payload + 7) ≤ 1024
    → link_attr req type payload
      ≡ some
          (record req { bytes = req.bytes ++ encode (record { type = type; payload = payload }) })
unfolding link_attr encode padding
link_attr-encode req type payload a h =
    let none_before : align (nlmsg_len req) - nlmsg_len req ≡ 0 = omega (arith, a) in
    let fits =
      ltb-false request_size (align (nlmsg_len req) + align (4 + length payload))
        (omega (arith, a, h)) in
    rw (link_attr, fits, none_before, replicate)

-- A nested attribute is begun with an empty payload.
abbrev pub nest_head : ℕ → List ℕ
nest_head type = u16 4 ++ u16 (type + nla_f_nested)

pub link_nest-nest_head :
    (req : LinkRequest) (type : ℕ)
    → length req.bytes % 4 ≡ 0
    → length req.bytes + 7 ≤ 1024
    → link_nest req type
      ≡ some (record req { bytes = req.bytes ++ nest_head type }, length req.bytes)
unfolding link_nest encode padding replicate u16
link_nest-nest_head req type a h =
    let place : align (nlmsg_len req) - headers_size ≡ length req.bytes = omega (arith, a) in
    rw (link_nest, link_attr-encode req (type + nla_f_nested) [] a (omega (arith, h)), ◌>>=◌, place)
      refl

set-append :
    (before after : List ℕ) (x v : ℕ)
    → set (before ++ (x ∷ after)) (length before) v ≡ before ++ (v ∷ after)
unfolding set
set-append [] after x v = refl
set-append (b ∷ before) after x v = ap (λ t. b ∷ t) (set-append before after x v)

set-append_next :
    (before after : List ℕ) (i w x v : ℕ)
    → i ≡ suc (length before)
    → set (before ++ (w ∷ x ∷ after)) i v ≡ before ++ (w ∷ v ∷ after)
unfolding set
set-append_next [] after i w x v e = ap (λ (n : ℕ). set (w ∷ x ∷ after) n v) e
set-append_next (b ∷ before) after i w x v e =
    ap (λ (n : ℕ). set (b ∷ (before ++ (w ∷ x ∷ after))) n v) e
    ∙ ap (λ t. b ∷ t) (set-append_next before after (suc (length before)) w x v refl)

-- The two bytes of a length.
patched :
    (bytes before rest : List ℕ) (w x v v' : ℕ)
    → bytes ≡ before ++ (w ∷ x ∷ rest)
    → set (set bytes (length before) v) (length before + 1) v' ≡ before ++ (v ∷ v' ∷ rest)
patched bytes before rest w x v v' e =
    ap (λ t. set (set t (length before) v) (length before + 1) v') e
    ∙ ap (λ t. set t (length before + 1) v') (set-append before (x ∷ rest) w v)
    ∙ set-append_next before rest (length before + 1) v x v' (omega arith)

no_padding :
    (payload : List ℕ) → length payload % 4 ≡ 0 → payload ++ padding (4 + length payload) ≡ payload
unfolding padding replicate
no_padding payload a =
    let none_behind : align (4 + length payload) - (4 + length payload) ≡ 0 = omega (arith, a) in
    rw (padding, none_behind, replicate) (append-nil payload)

-- Its end makes of what has been written since the payload.
pub link_nest_end-encode :
    (req : LinkRequest) (before payload : List ℕ) (type : ℕ)
    → req.bytes ≡ before ++ (nest_head type ++ payload)
    → length payload % 4 ≡ 0
    → link_nest_end req (length before) ≡ record req {
      bytes = before ++ encode (record { type = type + nla_f_nested; payload = payload });
    }
unfolding link_nest_end encode padding u16 replicate
link_nest_end-encode req before payload type e a =
    let whole : length req.bytes - length before ≡ 4 + length payload =
      omega (arith, ap length e, length-append before (nest_head type ++ payload)) in
    let rest = u16 (type + nla_f_nested) ++ payload in
    ap (λ t. record req { bytes = t })
      (patched req.bytes before rest 4 0 _ _ e
        ∙ ap (λ (n : ℕ). before ++ (n % 256 ∷ n / 256 % 256 ∷ rest)) whole
        ∙ ap (λ t. before ++ (u16 (4 + length payload) ++ (u16 (type + nla_f_nested) ++ t)))
            (sym (no_padding payload a)))

pub length-encode_all : (attrs : List Attr) → length (encode_all attrs) % 4 ≡ 0
unfolding encode_all
length-encode_all [] = omega arith
length-encode_all (a ∷ attrs) = omega (
  arith,
  length-append (encode a) (encode_all attrs),
  (length-encode a).0,
  length-encode_all attrs,
)
