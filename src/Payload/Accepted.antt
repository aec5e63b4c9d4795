-- ===== src/Payload/Accepted.antt =====
-- What provisioning may rely on in a packet that the parser accepts.
use softgre.Shared.{
  ℕ, ◌+◌, ◌/◌, ◌%◌, ◌≤◌, ◌≡◌, ◌≢◌, refl, true, false, List, Option, none, some, arith, ltb, ok,
  length, Bool-cases, inl, inr, sym, ◌∙◌,
}
use softgre.Payload.{PayloadPacket, is_tag, is_zero, payload_parse, bad_header, frag_bits}
use softgre.Payload.Safe.{
  at8, at16, at_mac, packet_at, inner_ok, gre_ok, ip_ok, ihl_at, header_at, accepted, reference,
  payload_parse-reference,
}

-- The bytes between the Ethernet addresses and an IPv4 header at `ip`: none, one or two VLAN tags, and
-- the type of IPv4.
pub data Outer (bytes : List ℕ) : ℕ → Type 0 where
  untagged : at16 bytes 12 ≡ 0x0800 → Outer bytes 14
  one_tag : is_tag (at16 bytes 12) ≡ true → at16 bytes 16 ≡ 0x0800 → Outer bytes 18
  two_tags :
      is_tag (at16 bytes 12) ≡ true
      → is_tag (at16 bytes 16) ≡ true
      → at16 bytes 20 ≡ 0x0800
      → Outer bytes 22

-- The frame carries the packet `p`: an IPv4 header at `ip` behind at most two outer tags and
-- the type of IPv4, that is complete and no fragment, then unkeyed GRE of version 0 with an Ethernet frame under one VLAN
-- tag, from whose bytes and the header's addresses `p` is taken.
pub record Carries (bytes : List ℕ) (p : PayloadPacket) : Type 0 where
  pub ip : ℕ
  pub outer : Outer bytes ip
  pub version : at8 bytes ip / 16 ≡ 4
  pub header_length : 20 ≤ ihl_at bytes ip
  pub protocol : at8 bytes (ip + 9) ≡ 47
  pub whole : frag_bits (at16 bytes (ip + 6)) ≡ 0
  pub fits : ip + at16 bytes (ip + 2) ≤ length bytes
  pub inner_fits : ip + ihl_at bytes ip + 22 ≤ ip + at16 bytes (ip + 2)
  pub flags : at16 bytes (ip + ihl_at bytes ip) ≡ 0
  pub bridging : at16 bytes (ip + ihl_at bytes ip + 2) ≡ 0x6558
  pub tagged : at16 bytes (ip + ihl_at bytes ip + 4 + 12) ≡ 0x8100
  pub single : is_tag (at16 bytes (ip + ihl_at bytes ip + 4 + 16)) ≡ false
  pub fields : p ≡ packet_at bytes ip (ip + ihl_at bytes ip + 4)
  pub vlan_low : 1 ≤ p.vlan
  pub vlan_high : p.vlan ≤ 4094
  pub unicast : p.mac.m0 % 2 ≢ 1
  pub nonzero : is_zero p.mac ≡ false

module _ (bytes : List ℕ) where
  -- A header that follows the tags, if the type behind them is that of IPv4.
  header_at-Outer :
      (o t : ℕ) → header_at bytes 2 14 (at16 bytes 12) ≡ some (o, t) → t ≡ 0x0800 → Outer bytes o
  unfolding header_at
  header_at-Outer o t e v = elim (Bool-cases (is_tag (at16 bytes 12))) [
    | inr a ↦
        let q : some (14, at16 bytes 12) ≡ some (o, t) = rw a at e in
        let at_o : 14 ≡ o = cc in
        let type : at16 bytes 12 ≡ t = cc in rw (← at_o) (untagged (type ∙ v))
    | inl a ↦
        let e1 : header_at bytes 1 18 (at16 bytes 16) ≡ some (o, t) = ground (arith, a, e) in
        elim (Bool-cases (is_tag (at16 bytes 16))) [
          | inr b ↦
              let q : some (18, at16 bytes 16) ≡ some (o, t) = rw b at e1 in
              let at_o : 18 ≡ o = cc in
              let type : at16 bytes 16 ≡ t = cc in rw (← at_o) (one_tag a (type ∙ v))
          | inl b ↦
              let e2 : header_at bytes 0 22 (at16 bytes 20) ≡ some (o, t) = ground (arith, b, e1) in
              elim (Bool-cases (is_tag (at16 bytes 20))) [
                | inl c ↦ let q : none ≡ some (o, t) = rw c at e2 in cc
                | inr c ↦
                    let q : some (22, at16 bytes 20) ≡ some (o, t) = rw c at e2 in
                    let at_o : 22 ≡ o = cc in
                    let type : at16 bytes 20 ≡ t = cc in rw (← at_o) (two_tags a b (type ∙ v))
              ]
        ]
  ]

  ip_ok-Carries :
      (offset type : ℕ)
      → (type ≡ 0x0800 → Outer bytes offset)
      → ip_ok bytes offset type ≡ true
      → Carries bytes (packet_at bytes offset (offset + ihl_at bytes offset + 4))
  unfolding ip_ok gre_ok inner_ok bad_header at_mac
  ip_ok-Carries offset type outer e = record {
    ip = offset;
    outer = outer (ground arith);
    version = ground arith;
    header_length = ground arith;
    protocol = ground arith;
    whole = ground arith;
    fits = ground arith;
    inner_fits = ground arith;
    flags = ground arith;
    bridging = ground arith;
    tagged = ground arith;
    single = ground arith;
    fields = refl;
    vlan_low = ground arith;
    vlan_high = ground arith;
    unicast = ground arith;
    nonzero = ground arith;
  }

  accepted-Carries :
      (o : Option (ℕ × ℕ)) (p : PayloadPacket)
      → header_at bytes 2 14 (at16 bytes 12) ≡ o
      → accepted bytes o ≡ some p
      → Carries bytes p
  unfolding accepted
  accepted-Carries none p h e = cc
  accepted-Carries (some (offset, type)) p h e = elim (Bool-cases (ip_ok bytes offset type)) [
    | inr f ↦ let no_packet : none ≡ some p = rw f at e in cc
    | inl y ↦
        let q : packet_at bytes offset (offset + ihl_at bytes offset + 4) ≡ p = ground arith in
        rw (← q) (ip_ok-Carries offset type (header_at-Outer offset type h) y)
  ]

-- A packet that the parser accepts is carried by the frame: behind at most two outer VLAN tags and the type
-- of IPv4 stands a complete IPv4 header of GRE, of 20 bytes or more, that is no fragment, with the GRE header and the inner Ethernet frame
-- under exactly one VLAN tag within its length and within the frame; the packet's fields are the
-- bytes at their places, its VLAN is from 1 to 4094, and its MAC is unicast and not zero.
pub payload_parse-Carries :
    (bytes : List ℕ) (p : PayloadPacket) → payload_parse bytes ≡ ok (some p) → Carries bytes p
unfolding reference
payload_parse-Carries bytes p e =
    let r : reference bytes ≡ some p = let q = sym (payload_parse-reference bytes) ∙ e in cc in
    elim (Bool-cases (ltb (length bytes) 14)) [
      | inl short ↦ let no_packet : none ≡ some p = rw short at r in cc
      | inr long ↦
          accepted-Carries bytes (header_at bytes 2 14 (at16 bytes 12)) p refl (rw long at r)
    ]
