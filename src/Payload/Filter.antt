-- ===== src/Payload/Filter.antt =====
-- The filter that `payload_loop_init` of src/payload.c gives to the kernel. The kernel that runs it is
-- outside: `Bpf` says what its manual says of the four instructions that the filter uses.
use softgre.Shared.{
  ℕ, ◌+◌, ◌-◌, ◌≤◌, ◌≡◌, refl, sym, ap, ◌∙◌, Bool, true, ◌&&◌, List, [], ◌∷◌, Option, none, some,
  arith, ltb, ◌==◌, if◌then◌else◌, length, get_elem?, get_or_out, ok, Bool-cases, inl, inr,
  none-some_absurd, some-injective,
}
use softgre.Payload.{PayloadPacket, is_tag, payload_parse, bad_header}
use softgre.Payload.Safe.{at8, at16, header_at, ip_ok, accepted, reference, payload_parse-reference}

-- BPF_LD of a half word or a byte, BPF_JEQ with its two jumps, and BPF_RET.
pub data SockFilter : Type 0 where
  ld_h ld_b : ℕ → SockFilter
  jeq : ℕ → ℕ → ℕ → SockFilter
  ret : ℕ → SockFilter

-- `code`
abbrev pub code : List SockFilter
code =
    ld_h 12
    ∷ jeq 0x0800 0 3
    ∷ ld_b 23
    ∷ jeq 47 13 14
    ∷ ret 0
    ∷ jeq 0x8100 1 0
    ∷ jeq 0x88a8 0 11
    ∷ ld_h 16
    ∷ jeq 0x0800 0 2
    ∷ ld_b 27
    ∷ jeq 47 6 7
    ∷ jeq 0x8100 1 0
    ∷ jeq 0x88a8 0 5
    ∷ ld_h 20
    ∷ jeq 0x0800 0 3
    ∷ ld_b 31
    ∷ jeq 47 0 1
    ∷ ret 65535
    ∷ ret 0
    ∷ []

-- The kernel's machine: `run prog frame pc acc` is what the filter returns from instruction `pc` on.
pub record Bpf : Type 0 where
  pub run : List SockFilter → List ℕ → ℕ → ℕ → ℕ
  pub run-ld_h :
      (prog : List SockFilter) (frame : List ℕ) (pc acc k : ℕ)
      → get_elem? prog pc ≡ some (ld_h k)
      → run prog frame pc acc
        ≡ (if ltb (k + 1) (length frame) then run prog frame (pc + 1) (at16 frame k) else 0)
  pub run-ld_b :
      (prog : List SockFilter) (frame : List ℕ) (pc acc k : ℕ)
      → get_elem? prog pc ≡ some (ld_b k)
      → run prog frame pc acc
        ≡ (if ltb k (length frame) then run prog frame (pc + 1) (at8 frame k) else 0)
  pub run-jeq :
      (prog : List SockFilter) (frame : List ℕ) (pc acc k yes_by no_by : ℕ)
      → get_elem? prog pc ≡ some (jeq k yes_by no_by)
      → run prog frame pc acc ≡ run prog frame (pc + 1 + (if acc == k then yes_by else no_by)) acc
  pub run-ret :
      (prog : List SockFilter) (frame : List ℕ) (pc acc k : ℕ)
      → get_elem? prog pc ≡ some (ret k)
      → run prog frame pc acc ≡ k

-- An IPv4 header of GRE behind at most two tags, by the types and the protocol.
unfoldable pub outer_gre : List ℕ → Bool
outer_gre frame =
    if at16 frame 12 == 0x0800
    then at8 frame 23 == 47
    else is_tag (at16 frame 12)
      && (if at16 frame 16 == 0x0800
          then at8 frame 27 == 47
          else is_tag (at16 frame 16) && (at16 frame 20 == 0x0800 && at8 frame 31 == 47))

abbrev verdict : Bool → ℕ
verdict b = if b then 65535 else 0

at8_out : (frame : List ℕ) (k : ℕ) → length frame ≤ k → at8 frame k ≡ 0
unfolding at8
at8_out frame k h = get_or_out frame k 0 h

module _ (m : Bpf) (frame : List ℕ) where
  abbrev r : ℕ → ℕ → ℕ
  r pc acc = m.run code frame pc acc

  run_17 : (acc : ℕ) → r 17 acc ≡ 65535
  unfolding get_elem?
  run_17 acc = m.run-ret code frame 17 acc 65535 refl

  run_18 : (acc : ℕ) → r 18 acc ≡ 0
  unfolding get_elem?
  run_18 acc = m.run-ret code frame 18 acc 0 refl

  goto : {pc pc' : ℕ} (acc : ℕ) → pc ≡ pc' → r pc acc ≡ r pc' acc
  goto acc e = ap (λ (pc : ℕ). r pc acc) e

  jump_test :
      (pc acc k y n to_yes to_no : ℕ)
      → get_elem? code pc ≡ some (jeq k y n)
      → pc + 1 + y ≡ to_yes
      → pc + 1 + n ≡ to_no
      → r pc acc ≡ (if acc == k then r to_yes acc else r to_no acc)
  jump_test pc acc k y n to_yes to_no e hy hn =
      let jump = m.run-jeq code frame pc acc k y n e in
      elim (Bool-cases (acc == k)) [
        | inl h ↦ rw h (jump ∙ goto acc (rw h hy))
        | inr h ↦ rw h (jump ∙ goto acc (rw h hn))
      ]

  -- A test of the protocol at two instructions, whose jumps lead to the returns.
  protocol_test :
      (pc acc k y n : ℕ)
      → get_elem? code pc ≡ some (ld_b k)
      → get_elem? code (pc + 1) ≡ some (jeq 47 y n)
      → pc + 1 + 1 + y ≡ 17
      → pc + 1 + 1 + n ≡ 18
      → r pc acc ≡ verdict (at8 frame k == 47)
  protocol_test pc acc k y n e f hy hn = ground (
    arith,
    m.run-ld_b code frame pc acc k e,
    jump_test (pc + 1) (at8 frame k) 47 y n 17 18 f hy hn,
    run_17 (at8 frame k),
    run_18 (at8 frame k),
    at8_out frame k,
  )

  -- The two tests for a tag.
  tag_test :
      (pc acc y n : ℕ)
      → get_elem? code pc ≡ some (jeq 0x8100 1 0)
      → get_elem? code (pc + 1) ≡ some (jeq 0x88a8 0 n)
      → pc + 1 + 1 + n ≡ 18
      → r pc acc ≡ (if is_tag acc then r (pc + 2) acc else 0)
  tag_test pc acc y n e f hn = ground (
    arith,
    jump_test pc acc 0x8100 1 0 (pc + 2) (pc + 1) e (omega arith) (omega arith),
    jump_test (pc + 1) acc 0x88a8 0 n (pc + 2) 18 f (omega arith) hn,
    run_18 acc,
  )

  third_header : (acc : ℕ) → r 13 acc ≡ verdict (at16 frame 20 == 0x0800 && at8 frame 31 == 47)
  unfolding get_elem?
  third_header acc = ground (
    arith,
    m.run-ld_h code frame 13 acc 20 refl,
    jump_test 14 (at16 frame 20) 0x0800 0 3 15 18 refl refl refl,
    protocol_test 15 (at16 frame 20) 31 0 1 refl refl refl refl,
    run_18 (at16 frame 20),
    at8_out frame 31,
  )

  abbrev second_wanted : Bool
  second_wanted =
      if at16 frame 16 == 0x0800
      then at8 frame 27 == 47
      else is_tag (at16 frame 16) && (at16 frame 20 == 0x0800 && at8 frame 31 == 47)

  second_header : (acc : ℕ) → r 7 acc ≡ verdict second_wanted
  unfolding get_elem?
  second_header acc =
      let type = at16 frame 16 in
      let third = third_header type in
      ground (
        arith,
        m.run-ld_h code frame 7 acc 16 refl,
        jump_test 8 type 0x0800 0 2 9 11 refl refl refl,
        protocol_test 9 type 27 6 7 refl refl refl refl,
        tag_test 11 type 0 5 refl refl refl,
        third,
        at8_out frame 27,
        at8_out frame 31,
      )

  pub code-outer_gre : (acc : ℕ) → r 0 acc ≡ verdict (outer_gre frame)
  unfolding get_elem? outer_gre
  code-outer_gre acc =
      let type = at16 frame 12 in
      ground (
        arith,
        m.run-ld_h code frame 0 acc 12 refl,
        jump_test 1 type 0x0800 0 3 2 5 refl refl refl,
        protocol_test 2 type 23 13 14 refl refl refl refl,
        tag_test 5 type 0 11 refl refl refl,
        second_header type,
        at8_out frame 23,
        at8_out frame 27,
        at8_out frame 31,
      )

-- The IPv4 header that the parser finds.
accepted_header :
    (frame : List ℕ) (o : Option (ℕ × ℕ)) (p : PayloadPacket)
    → accepted frame o ≡ some p
    → (offset : ℕ) × (type : ℕ) × (o ≡ some (offset, type))
      × (type ≡ 0x0800)
      × (at8 frame (offset + 9) ≡ 47)
unfolding accepted ip_ok bad_header
accepted_header frame none p e = absurd (none-some_absurd e)
accepted_header frame (some (offset, type)) p e = elim (Bool-cases (ip_ok frame offset type)) [
  | inl h ↦ (offset, type, refl, ground arith, ground arith)
  | inr h ↦ let no_packet : none ≡ some p = rw h at e in absurd (none-some_absurd no_packet)
]

header_at-outer_gre :
    (frame : List ℕ) (o t : ℕ)
    → header_at frame 2 14 (at16 frame 12) ≡ some (o, t)
    → t ≡ 0x0800
    → at8 frame (o + 9) ≡ 47
    → outer_gre frame ≡ true
unfolding header_at outer_gre
header_at-outer_gre frame o t e h k = elim (Bool-cases (is_tag (at16 frame 12))) [
  | inr a ↦
      let q : some (14, at16 frame 12) ≡ some (o, t) = rw a at e in
      let type : at16 frame 12 ≡ t = ap (λ x. x.1) (some-injective q) in
      let place : 14 ≡ o = ap (λ x. x.0) (some-injective q) in
      let protocol : at8 frame 23 ≡ 47 = ap (λ (x : ℕ). at8 frame (x + 9)) place ∙ k in
      ground (arith, type, protocol)
  | inl a ↦ elim (Bool-cases (ltb (length frame - 14) 4)) [
    | inl b ↦ let q : none ≡ some (o, t) = rw (a, b) at e in absurd (none-some_absurd q)
    | inr b ↦ elim (Bool-cases (is_tag (at16 frame 16))) [
      | inr c ↦
          let q : some (18, at16 frame 16) ≡ some (o, t) = rw (a, b, c) at e in
          let type : at16 frame 16 ≡ t = ap (λ x. x.1) (some-injective q) in
          let place : 18 ≡ o = ap (λ x. x.0) (some-injective q) in
          let protocol : at8 frame 27 ≡ 47 = ap (λ (x : ℕ). at8 frame (x + 9)) place ∙ k in
          ground (arith, type, protocol)
      | inl c ↦ elim (Bool-cases (ltb (length frame - 18) 4)) [
        | inl d ↦ let q : none ≡ some (o, t) = rw (a, b, c, d) at e in absurd (none-some_absurd q)
        | inr d ↦ elim (Bool-cases (is_tag (at16 frame 20))) [
          | inl f ↦
              let q : none ≡ some (o, t) = rw (a, b, c, d, f) at e in absurd (none-some_absurd q)
          | inr f ↦
              let q : some (22, at16 frame 20) ≡ some (o, t) = rw (a, b, c, d, f) at e in
              let type : at16 frame 20 ≡ t = ap (λ x. x.1) (some-injective q) in
              let place : 22 ≡ o = ap (λ x. x.0) (some-injective q) in
              let protocol : at8 frame 31 ≡ 47 = ap (λ (x : ℕ). at8 frame (x + 9)) place ∙ k in
              ground (arith, type, protocol)
        ]
      ]
    ]
  ]
]

-- On a machine that runs filters as the kernel's manual says: the filter lets a frame pass whole
-- exactly if it is an IPv4 packet of GRE behind at most two VLAN tags, by its types and its protocol,
-- and drops it otherwise; and it lets each frame pass whose packet `payload_parse` accepts.
pub code-payload_parse :
    (m : Bpf) (frame : List ℕ) (acc : ℕ)
    → (m.run code frame 0 acc ≡ (if outer_gre frame then 65535 else 0))
      × ((p : PayloadPacket) → payload_parse frame ≡ ok (some p) → m.run code frame 0 acc ≡ 65535)
unfolding reference
code-payload_parse m frame acc = (
  code-outer_gre m frame acc,
  λ p e.
      let run : reference frame ≡ some p = let q = sym (payload_parse-reference frame) ∙ e in cc in
      elim (Bool-cases (ltb (length frame) 14)) [
        | inl short ↦
            let no_packet : none ≡ some p = rw short at run in absurd (none-some_absurd no_packet)
        | inr long ↦
            let (o, t, at, type, protocol) =
              accepted_header frame (header_at frame 2 14 (at16 frame 12)) p (rw long at run) in
            let wanted = header_at-outer_gre frame o t at type protocol in
            code-outer_gre m frame acc ∙ ap verdict wanted
      ],
)
