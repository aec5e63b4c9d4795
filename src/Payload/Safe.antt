-- ===== src/Payload/Safe.antt =====
-- The parser of src/payload.c against a total function of the bytes.
use softgre.Shared.{
  ℕ, zero, suc, ◌+◌, ◌-◌, ◌*◌, ◌%◌, ◌≤◌, ◌<◌, ◌≡◌, refl, Bool, false, not, ◌&&◌, ◌||◌, List, Option,
  none, some, arith, ltb, leb, ◌==◌, if◌then◌else◌, ok, ◌>>=◌, length, get_or, get_elem?-get_or,
  Bool-cases, inl, inr,
}
use softgre.Payload.{
  Mac, PayloadPacket, read8, read16, read32, read_mac, is_tag, is_zero, skip_tags, parse_inner,
  parse_gre, parse_ip, payload_parse, bad_header,
}

module _ (bytes : List ℕ) where
  -- The byte at an index, and numbers of several bytes.
  unfoldable pub at8 : ℕ → ℕ
  at8 i = get_or bytes i 0

  unfoldable pub at16 : ℕ → ℕ
  unfolding at8
  at16 i = at8 i * 256 + at8 (i + 1)

  unfoldable pub at32 : ℕ → ℕ
  unfolding at16
  at32 i = at16 i * 65536 + at16 (i + 2)

  unfoldable pub at_mac : ℕ → Mac
  unfolding at8
  at_mac i = record {
    m0 = at8 i;
    m1 = at8 (i + 1);
    m2 = at8 (i + 2);
    m3 = at8 (i + 3);
    m4 = at8 (i + 4);
    m5 = at8 (i + 5);
  }

  pub read8-at8 : (i : ℕ) → i < length bytes → read8 bytes i ≡ ok (at8 i)
  unfolding read8 at8
  read8-at8 i lt = rw (get_elem?-get_or bytes i 0 lt, read8)

  pub read16-at16 : (i : ℕ) → i + 1 < length bytes → read16 bytes i ≡ ok (at16 i)
  unfolding read16 at16
  read16-at16 i lt = rw (read8-at8 i (omega arith), ◌>>=◌, read8-at8 (i + 1) lt)

  pub read32-at32 : (i : ℕ) → i + 3 < length bytes → read32 bytes i ≡ ok (at32 i)
  unfolding read32 at32
  read32-at32 i lt = rw (read16-at16 i (omega arith), ◌>>=◌, read16-at16 (i + 2) (omega arith))

  pub read_mac-at_mac : (i : ℕ) → i + 5 < length bytes → read_mac bytes i ≡ ok (at_mac i)
  unfolding read_mac at_mac
  read_mac-at_mac i lt = rw (
    read8-at8 i (omega arith),
    ◌>>=◌,
    read8-at8 (i + 1) (omega arith),
    read8-at8 (i + 2) (omega arith),
    read8-at8 (i + 3) (omega arith),
    read8-at8 (i + 4) (omega arith),
    read8-at8 (i + 5) (omega arith),
  )

  abbrev pub packet_at : ℕ → ℕ → PayloadPacket
  packet_at ip ether = record {
    remote = at32 (ip + 12);
    local = at32 (ip + 16);
    mac = at_mac (ether + 6);
    vlan = at16 (ether + 14) % 4096;
  }

  -- The tests on an inner frame.
  unfoldable pub inner_ok : ℕ → ℕ → Bool
  inner_ok ether remaining =
      at16 (ether + 12) == 0x8100
      && leb 18 remaining
      && not (is_tag (at16 (ether + 16)))
      && leb 1 (at16 (ether + 14) % 4096)
      && leb (at16 (ether + 14) % 4096) 4094
      && not (at8 (ether + 6) % 2 == 1)
      && not (is_zero (at_mac (ether + 6)))

  parse_inner_lem :
      (ip ether remaining : ℕ)
      → ip + 20 ≤ ether
      → ether + remaining ≤ length bytes
      → parse_inner bytes ip ether remaining
        ≡ ok (if inner_ok ether remaining then some (packet_at ip ether) else none)
  unfolding parse_inner inner_ok
  parse_inner_lem ip ether remaining h l = ground (
    arith,
    read16-at16 (ether + 12),
    read16-at16 (ether + 16),
    read16-at16 (ether + 14),
    read8-at8 (ether + 6),
    read_mac-at_mac (ether + 6),
    read32-at32 (ip + 12),
    read32-at32 (ip + 16),
  )

  -- The tests on a GRE header and its inner frame.
  unfoldable pub gre_ok : ℕ → ℕ → ℕ → Bool
  unfolding inner_ok
  gre_ok ip ihl total =
      at16 (ip + ihl) == 0
      && at16 (ip + ihl + 2) == 0x6558
      && inner_ok (ip + ihl + 4) (total - ihl - 4)

  parse_gre_lem :
      (ip ihl total : ℕ)
      → 20 ≤ ihl
      → ihl + 4 ≤ total
      → ip + total ≤ length bytes
      → parse_gre bytes ip ihl total
        ≡ ok (if gre_ok ip ihl total then some (packet_at ip (ip + ihl + 4)) else none)
  unfolding parse_gre gre_ok
  parse_gre_lem ip ihl total a b c = ground (
    arith,
    read16-at16 (ip + ihl),
    read16-at16 (ip + ihl + 2),
    parse_inner_lem ip (ip + ihl + 4) (total - ihl - 4),
  )

  abbrev pub ihl_at : ℕ → ℕ
  ihl_at ip = at8 ip % 16 * 4

  abbrev pub bad_at : ℕ → Bool
  bad_at offset =
      bad_header (at8 offset) (at16 (offset + 2)) (at8 (offset + 9)) (at16 (offset + 6))
        (length bytes - offset)

  -- The tests on an IPv4 header and all behind it.
  unfoldable pub ip_ok : ℕ → ℕ → Bool
  unfolding gre_ok
  ip_ok offset type =
      type == 0x0800
      && leb 20 (length bytes - offset)
      && not (bad_at offset)
      && gre_ok offset (ihl_at offset) (at16 (offset + 2))

  -- A header that passes describes a packet within the frame.
  bad_at_bounds :
      (offset : ℕ)
      → bad_at offset ≡ false
      → (20 ≤ ihl_at offset)
        × (ihl_at offset + 4 ≤ at16 (offset + 2))
        × (at16 (offset + 2) ≤ length bytes - offset)
  unfolding bad_header
  bad_at_bounds offset e = ground arith

  parse_ip_lem :
      (offset type : ℕ)
      → offset ≤ length bytes
      → parse_ip bytes offset type
        ≡ ok (
            if ip_ok offset type
            then some (packet_at offset (offset + ihl_at offset + 4))
            else none)
  unfolding parse_ip ip_ok
  parse_ip_lem offset type h =
      elim (Bool-cases (not (type == 0x0800) || ltb (length bytes - offset) 20)) [
        | inl e ↦ rw e (ground arith)
        | inr e ↦
            let room : offset + 20 ≤ length bytes = ground arith in
            rw
              (
                e,
                read8-at8 offset (omega arith),
                ◌>>=◌,
                read16-at16 (offset + 2) (omega arith),
                read8-at8 (offset + 9) (omega arith),
                read16-at16 (offset + 6) (omega arith),
              )
              (elim (Bool-cases (bad_at offset)) [
                | inl bad ↦ rw bad (ground arith)
                | inr good ↦
                    let (a, b, c) = bad_at_bounds offset good in
                    rw
                      (
                        good,
                        parse_gre_lem offset (ihl_at offset) (at16 (offset + 2)) a b (omega arith),
                      )
                      (ground arith)
              ])
      ]

  -- Where the IPv4 header starts and the type before it, if the outer tags are in order.
  unfoldable pub header_at : ℕ → ℕ → ℕ → Option (ℕ × ℕ)
  header_at zero offset type = if is_tag type then none else some (offset, type)
  header_at (suc left) offset type =
      let next = header_at left (offset + 4) (at16 (offset + 2)) in
      if is_tag type
      then if ltb (length bytes - offset) 4 then none else next
      else some (offset, type)

  skip_tags_lem :
      (left offset type : ℕ)
      → offset ≤ length bytes
      → skip_tags left bytes offset type ≡ ok (header_at left offset type)
  unfolding skip_tags header_at
  skip_tags_lem zero offset type h = ground arith
  skip_tags_lem (suc left) offset type h =
      ground (arith, read16-at16 (offset + 2), skip_tags_lem left (offset + 4) (at16 (offset + 2)))

  header_at-le :
      (left offset type : ℕ) {o t : ℕ}
      → offset ≤ length bytes
      → header_at left offset type ≡ some (o, t)
      → o ≤ length bytes
  unfolding header_at
  header_at-le zero offset type h e = ground arith
  header_at-le (suc left) offset type {o} {t} h e =
      ground (arith, header_at-le left (offset + 4) (at16 (offset + 2)) {o = o} {t = t})

  -- The whole parser as a total function of the bytes in range.
  unfoldable pub accepted : Option (ℕ × ℕ) → Option PayloadPacket
  unfolding ip_ok
  accepted none = none
  accepted (some (offset, type)) =
      if ip_ok offset type then some (packet_at offset (offset + ihl_at offset + 4)) else none

  unfoldable pub reference : Option PayloadPacket
  unfolding accepted header_at
  reference = if ltb (length bytes) 14 then none else accepted (header_at 2 14 (at16 12))

  parse_header_lem :
      (o : Option (ℕ × ℕ))
      → ((a b : ℕ) → o ≡ some (a, b) → a ≤ length bytes)
      → (elim o [ none ↦ ok none | some (offset, last) ↦ parse_ip bytes offset last ])
        ≡ ok (accepted o)
  unfolding accepted
  parse_header_lem none h = refl
  parse_header_lem (some (a, b)) h = parse_ip_lem a b (h a b refl)

-- The parser never reads past the end of a frame, whatever the bytes: it always returns, and what
-- it returns is the total function `reference`.
pub payload_parse-reference : (bytes : List ℕ) → payload_parse bytes ≡ ok (reference bytes)
unfolding payload_parse reference
payload_parse-reference bytes = elim (Bool-cases (ltb (length bytes) 14)) [
  | inl short ↦ rw short
  | inr long ↦
      let room : 14 ≤ length bytes = ground arith in
      rw
        (
          long,
          read16-at16 bytes 12 (omega arith),
          ◌>>=◌,
          skip_tags_lem bytes 2 14 (at16 bytes 12) room,
        )
        (parse_header_lem bytes (header_at bytes 2 14 (at16 bytes 12))
          (λ a b. header_at-le bytes 2 14 (at16 bytes 12) room))
]
