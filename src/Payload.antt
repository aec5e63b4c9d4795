-- ===== src/Payload.antt =====
-- src/payload.h and src/payload.c: the parser of captured frames. A frame is the list of its bytes,
-- and a read past its end is a fault. The pointers `data` and `out` are never NULL here.
pub mod Safe
pub mod Accepted
pub mod Filter
use softgre.Shared.{
  ℕ, zero, suc, ◌+◌, ◌-◌, ◌*◌, ◌/◌, ◌%◌, Bool, true, false, not, ◌&&◌, ◌||◌, List, Option, none,
  some, ltb, ◌==◌, if◌then◌else◌, Run, ok, fault, ◌>>=◌, length, get_elem?,
}

-- `unsigned char mac[6]`
pub record Mac : Type 0 where
  pub m0 : ℕ
  pub m1 : ℕ
  pub m2 : ℕ
  pub m3 : ℕ
  pub m4 : ℕ
  pub m5 : ℕ

-- An address is the number that `ntohl` gives for its `s_addr`.
pub record PayloadPacket : Type 0 where
  pub remote : ℕ
  pub local : ℕ
  pub mac : Mac
  pub vlan : ℕ

unfoldable pub read8 : List ℕ → ℕ → Run ℕ
unfolding get_elem?
read8 bytes i = elim (get_elem? bytes i) [ none ↦ fault | some b ↦ ok b ]

-- `p[0] << 8 | p[1]`: a byte sets none of the shifted bits.
unfoldable pub read16 : List ℕ → ℕ → Run ℕ
unfolding read8
read16 bytes i = do hi ← read8 bytes i; lo ← read8 bytes (i + 1); ok (hi * 256 + lo)

-- The `memcpy` of an address.
unfoldable pub read32 : List ℕ → ℕ → Run ℕ
unfolding read16
read32 bytes i = do hi ← read16 bytes i; lo ← read16 bytes (i + 2); ok (hi * 65536 + lo)

unfoldable pub read_mac : List ℕ → ℕ → Run Mac
unfolding read8
read_mac bytes i = do
  a ← read8 bytes i
  b ← read8 bytes (i + 1)
  c ← read8 bytes (i + 2)
  d ← read8 bytes (i + 3)
  e ← read8 bytes (i + 4)
  f ← read8 bytes (i + 5)
  ok (record { m0 = a; m1 = b; m2 = c; m3 = d; m4 = e; m5 = f })

-- A VLAN tag's type.
abbrev pub is_tag : ℕ → Bool
is_tag type = type == 0x8100 || type == 0x88a8

-- The loop over the outer tags, by the tags that it may still pass. The result is the offset of
-- the IPv4 header and the last type.
unfoldable pub skip_tags : ℕ → List ℕ → ℕ → ℕ → Run (Option (ℕ × ℕ))
unfolding read16
skip_tags zero bytes offset type = if is_tag type then ok none else ok (some (offset, type))
skip_tags (suc left) bytes offset type =
    let next = read16 bytes (offset + 2) >>= λ type'. skip_tags left bytes (offset + 4) type' in
    if is_tag type
    then if ltb (length bytes - offset) 4 then ok none else next
    else ok (some (offset, type))

-- `nonzero |= ether[6 + i]` leaves 0 only for six zero bytes.
abbrev pub is_zero : Mac → Bool
is_zero m = m.m0 == 0 && m.m1 == 0 && m.m2 == 0 && m.m3 == 0 && m.m4 == 0 && m.m5 == 0

-- From the inner frame at `ether` on, which has `remaining` bytes.
unfoldable pub parse_inner : List ℕ → ℕ → ℕ → ℕ → Run (Option PayloadPacket)
unfolding read8 read16 read32 read_mac
parse_inner bytes ip ether remaining = if ltb remaining 14 then ok none else do
  type ← read16 bytes (ether + 12)
  if not (type == 0x8100) || ltb remaining 18 then ok none else do
    inner_type ← read16 bytes (ether + 16)
    if is_tag inner_type then ok none else do
      tci ← read16 bytes (ether + 14)
      let vlan = tci % 4096
      first ← read8 bytes (ether + 6)
      if ltb vlan 1 || ltb 4094 vlan || first % 2 == 1 then ok none else do
        mac ← read_mac bytes (ether + 6)
        if is_zero mac then ok none else do
          remote ← read32 bytes (ip + 12)
          local ← read32 bytes (ip + 16)
          ok (some (record { remote = remote; local = local; mac = mac; vlan = vlan }))

-- The GRE header.
unfoldable pub parse_gre : List ℕ → ℕ → ℕ → ℕ → Run (Option PayloadPacket)
unfolding read16 parse_inner
parse_gre bytes ip ihl total = do
  flags ← read16 bytes (ip + ihl)
  protocol ← read16 bytes (ip + ihl + 2)
  if not (flags == 0) || not (protocol == 0x6558)
      then ok none
      else parse_inner bytes ip (ip + ihl + 4) (total - ihl - 4)

-- `frag & 0xbfff`: all bits but the one for "do not fragment".
abbrev pub frag_bits : ℕ → ℕ
frag_bits frag = frag / 0x8000 * 0x8000 + frag % 0x4000

-- The test on the fields of the IPv4 header, with the bytes of the frame from the header on.
unfoldable pub bad_header : ℕ → ℕ → ℕ → ℕ → ℕ → Bool
bad_header first total protocol frag available =
    let ihl = first % 16 * 4 in
    not (first / 16 == 4)
    || ltb ihl 20
    || ltb total (ihl + 4)
    || ltb available total
    || not (protocol == 47)
    || not (frag_bits frag == 0)

-- The IPv4 header at `offset`.
unfoldable pub parse_ip : List ℕ → ℕ → ℕ → Run (Option PayloadPacket)
unfolding read8 read16 parse_gre
parse_ip bytes offset type =
    let available = length bytes - offset in
    if not (type == 0x0800) || ltb available 20 then ok none else do
      first ← read8 bytes offset
      total ← read16 bytes (offset + 2)
      protocol ← read8 bytes (offset + 9)
      frag ← read16 bytes (offset + 6)
      if bad_header first total protocol frag available
          then ok none
          else parse_gre bytes offset (first % 16 * 4) total

unfoldable pub payload_parse : List ℕ → Run (Option PayloadPacket)
unfolding read16 skip_tags parse_ip
payload_parse bytes = if ltb (length bytes) 14 then ok none else do
  type ← read16 bytes 12
  at ← skip_tags 2 bytes 14 type
  elim at [ none ↦ ok none | some (offset, last) ↦ parse_ip bytes offset last ]
