-- ===== src/Service.antt =====
-- src/service_cmd.c: the MACs that the status service takes as arguments.
pub mod Commands
use softgre.Shared.{
  ℕ, ◌+◌, ◌/◌, ◌%◌, ◌<◌, ◌≡◌, refl, true, not, List, [], ◌∷◌, Option, none, some, arith, length,
  ◌==◌, if◌then◌else◌,
}
use softgre.Compat.{ascii_isxdigit, ascii_tolower}
use softgre.Payload.{Mac}
use softgre.Provision.{hex_digit, hex_byte, mac_text}

abbrev cons_to : ℕ → Option (List ℕ) → Option (List ℕ)
cons_to c none = none
cons_to c (some cs) = some (c ∷ cs)

-- The loop of `valid_mac` from index `i` on; the result is what it writes to `normalized`.
unfoldable pub normalize : ℕ → List ℕ → Option (List ℕ)
normalize i [] = some []
normalize i (c ∷ text) =
    let rest = normalize (i + 1) text in
    if (if i % 3 == 2 then not (c == b':') else not (ascii_isxdigit c))
    then none
    else cons_to (ascii_tolower c) rest

unfoldable pub valid_mac : List ℕ → Option (List ℕ)
unfolding normalize
valid_mac text = if not (length text == 17) then none else normalize 0 text

hex_digit_lem :
    (n : ℕ)
    → n < 16
    → (ascii_isxdigit (hex_digit n) ≡ true) × (ascii_tolower (hex_digit n) ≡ hex_digit n)
unfolding ascii_isxdigit ascii_tolower
hex_digit_lem n h = ground arith

-- Both digits of a byte.
hex_byte_lem :
    (b : ℕ)
    → b < 256
    → (ascii_isxdigit (hex_digit (b / 16)) ≡ true)
      × (ascii_tolower (hex_digit (b / 16)) ≡ hex_digit (b / 16))
      × (ascii_isxdigit (hex_digit (b % 16)) ≡ true)
      × (ascii_tolower (hex_digit (b % 16)) ≡ hex_digit (b % 16))
hex_byte_lem b h =
    let (p, q) = hex_digit_lem (b / 16) (omega arith) in
    let (r, s) = hex_digit_lem (b % 16) (omega arith) in (p, q, r, s)

-- For a MAC of six bytes, `valid_mac` accepts the text under which `provision_packet` learns it,
-- and its normal form is that text.
pub valid_mac-mac_text :
    (m : Mac)
    → m.m0 < 256
    → m.m1 < 256
    → m.m2 < 256
    → m.m3 < 256
    → m.m4 < 256
    → m.m5 < 256
    → valid_mac (mac_text m) ≡ some (mac_text m)
unfolding valid_mac mac_text hex_byte normalize ascii_tolower
valid_mac-mac_text m h0 h1 h2 h3 h4 h5 =
    let (p0, q0, r0, s0) = hex_byte_lem m.m0 h0 in
    let (p1, q1, r1, s1) = hex_byte_lem m.m1 h1 in
    let (p2, q2, r2, s2) = hex_byte_lem m.m2 h2 in
    let (p3, q3, r3, s3) = hex_byte_lem m.m3 h3 in
    let (p4, q4, r4, s4) = hex_byte_lem m.m4 h4 in
    let (p5, q5, r5, s5) = hex_byte_lem m.m5 h5 in
    let colon : ascii_tolower b':' ≡ b':' = refl in
    rw (
      p0, q0, r0, s0, p1, q1, r1, s1, p2, q2, r2, s2, p3, q3, r3, s3, p4, q4, r4, s4, p5, q5, r5,
      s5, colon,
    )
