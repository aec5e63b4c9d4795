-- ===== src/Settings/Allow/Blocks.antt =====
-- The addresses that an allowlist of src/softgred_config.c admits.
use Prim.Native.Nat.{bit_and}
use softgre.Shared.{
  ℕ, ◌-◌, ◌*◌, ◌/◌, ◌^◌, ◌≤◌, ◌<◌, ◌≡◌, ◌≢◌, refl, sym, ap, ◌∙◌, subst, Bool, true, false, ◌||◌,
  List, [], ◌∷◌, ◌++◌, Option, none, some, arith, leb, ◌==◌, if◌then◌else◌, length, map, Bool-cases,
  Option-cases, ◌⊎◌, inl, inr, bit_and-prefix, length-append, leb-false, pow_two_pos,
  some-injective, none-some_absurd,
}
use native.Mathlib.Nat.{mul-div_cancel}
use mathlib.Core.List.{append_assoc, append-nil}
use softgre.Compat.{Text, str_trim, strchr}
use softgre.Compat.Split.{fields, strchr-parts, fields-ne_nil}
use softgre.Settings.{AllowRemote, SoftgredConfig, max_allow, in_allow, config_remote_allowed}
use softgre.Settings.Values.Decimal.{
  in_range, in_range-bounds, decimal, number_between-whole_number,
}
use softgre.Settings.Allow.{prefix_bits, mask_of, parse_entry, parse_entries, parse_allow}

-- A block of addresses: an address, and the length of the prefix that its addresses share with it.
pub record Block : Type 0 where
  pub address : ℕ
  pub bits : ℕ

unfoldable pub in_block : Block → ℕ → Bool
in_block b remote = remote / 2 ^ (32 - b.bits) == b.address / 2 ^ (32 - b.bits)

unfoldable pub in_blocks : List Block → ℕ → Bool
unfolding in_block
in_blocks [] remote = false
in_blocks (b ∷ blocks) remote = in_block b remote || in_blocks blocks remote

abbrev slot_of : Block → AllowRemote
slot_of b = record { network = bit_and b.address (mask_of b.bits); mask = mask_of b.bits }

-- What a mask keeps of an address.
masked :
    (bits a : ℕ)
    → bits ≤ 32
    → a < 2 ^ 32
    → bit_and a (mask_of bits) ≡ a / 2 ^ (32 - bits) * 2 ^ (32 - bits)
unfolding mask_of
masked bits a le lt = elim (Bool-cases (bits == 0)) [
  | inl e ↦ let z : bits ≡ 0 = ground arith in rw z (bit_and-prefix 32 32 a (omega arith) lt)
  | inr e ↦ rw e (bit_and-prefix (32 - bits) 32 a (omega arith) lt)
]

same_multiple : (q x y : ℕ) → 0 < q → (x * q == y * q) ≡ (x == y)
same_multiple q x y h = elim (Bool-cases (x == y)) [
  | inl e ↦ let s : x ≡ y = ground arith in rw s (ground arith)
  | inr e ↦
      let n = λ (f : x * q ≡ y * q).
        sym (mul-div_cancel x h) ∙ ap (λ (z : ℕ). z / q) f ∙ mul-div_cancel y h in
      rw e (ground arith)
]

abbrev AllValid : List Block → Type 0
AllValid [] = Unit
AllValid (b ∷ blocks) = ((b.bits ≤ 32) × (b.address < 2 ^ 32)) × AllValid blocks

-- The masked comparison is the comparison of the prefixes.
slot_of-in_block :
    (b : Block) (remote : ℕ)
    → b.bits ≤ 32
    → b.address < 2 ^ 32
    → remote < 2 ^ 32
    → (bit_and remote (slot_of b).mask == (slot_of b).network) ≡ in_block b remote
unfolding in_block
slot_of-in_block b remote le lt lr =
    rw (masked b.bits remote le lr, masked b.bits b.address le lt)
      (same_multiple (2 ^ (32 - b.bits)) (remote / 2 ^ (32 - b.bits))
        (b.address / 2 ^ (32 - b.bits)) (pow_two_pos (32 - b.bits)))

-- The slots of blocks admit what the blocks contain.
in_allow-in_blocks :
    (blocks : List Block) (remote : ℕ)
    → AllValid blocks
    → remote < 2 ^ 32
    → in_allow (map slot_of blocks) remote ≡ in_blocks blocks remote
unfolding in_allow in_blocks
in_allow-in_blocks [] remote v lr = refl
in_allow-in_blocks (b ∷ blocks) remote ((le, lt), v) lr =
    rw (slot_of-in_block b remote le lt lr, in_allow-in_blocks blocks remote v lr)

module _ (inet_pton : Text → Option ℕ)
    (pton_small : (t : Text) (a : ℕ) → inet_pton t ≡ some a → a < 2 ^ 32) where
  -- A field of the list stands for a block: an address, or an address, a slash and a prefix length in
  -- decimal.
  pub record Describes (field : Text) (b : Block) : Type 0 where
    pub text : Text
    pub address : inet_pton text ≡ some b.address
    pub written :
        ((str_trim field ≡ text) × (b.bits ≡ 32))
        ⊎ ((length_text : Text) × (str_trim field ≡ text ++ b'/' ∷ length_text)
            × (in_range 0 32 length_text ≡ true)
            × (b.bits ≡ decimal length_text))

  abbrev pub DescribesAll : List Text → List Block → Type 0
  DescribesAll [] [] = Unit
  DescribesAll [] (b ∷ blocks) = ⊥
  DescribesAll (f ∷ fs) [] = ⊥
  DescribesAll (f ∷ fs) (b ∷ blocks) = Describes f b × DescribesAll fs blocks

  prefix_bits-written :
      (entry text : Text) (bits : ℕ)
      → prefix_bits entry ≡ some (text, bits)
      → (bits ≤ 32)
        × (((entry ≡ text) × (bits ≡ 32))
            ⊎ ((length_text : Text) × (entry ≡ text ++ b'/' ∷ length_text)
                × (in_range 0 32 length_text ≡ true)
                × (bits ≡ decimal length_text)))
  unfolding prefix_bits
  prefix_bits-written entry text bits e = elim (Option-cases (strchr entry b'/')) [
    | inl k ↦
        let f : some (entry, 32) ≡ some (text, bits) = rw (prefix_bits, k) at e in
        let same : entry ≡ text = cc in
        let all : 32 ≡ bits = cc in (omega arith, inl (same, sym all))
    | inr ((a, after), k) ↦
        let n = number_between-whole_number 0 32 after (omega arith) in
        elim (Bool-cases (in_range 0 32 after)) [
          | inl r ↦
              let f : some (a, decimal after) ≡ some (text, bits) =
                rw (prefix_bits, k, n, r) at e in
              let g = some-injective f in
              let same : a ≡ text = ap (λ x. x.0) g in
              let all : decimal after ≡ bits = ap (λ x. x.1) g in
              let (p, _) = strchr-parts entry b'/' k in
              let le : decimal after ≤ 32 = (in_range-bounds 0 32 after r).1 in
              (omega arith, inr (after, rw (← same) p, r, sym all))
          | inr r ↦
              let f : none ≡ some (text, bits) = rw (prefix_bits, k, n, r) at e in
              absurd (none-some_absurd f)
        ]
  ]

  parse_entry-Describes :
      (field : Text) (slot : AllowRemote)
      → parse_entry inet_pton field ≡ some slot
      → (b : Block) × Describes field b × (b.bits ≤ 32) × (b.address < 2 ^ 32) × (slot ≡ slot_of b)
  unfolding parse_entry
  parse_entry-Describes field slot e = elim (Bool-cases (length (str_trim field) == 0)) [
    | inl z ↦ let f : none ≡ some slot = rw (parse_entry, z) at e in absurd (none-some_absurd f)
    | inr z ↦ elim (Option-cases (prefix_bits (str_trim field))) [
      | inl k ↦
          let f : none ≡ some slot = rw (parse_entry, z, k) at e in absurd (none-some_absurd f)
      | inr ((text, bits), k) ↦ elim (Option-cases (inet_pton text)) [
        | inl g ↦
            let f : none ≡ some slot = rw (parse_entry, z, k, g) at e in absurd (none-some_absurd f)
        | inr (addr, g) ↦
            let b : Block = record { address = addr; bits = bits } in
            let f : some (slot_of b) ≡ some slot = rw (parse_entry, z, k, g) at e in
            let (le, w) = prefix_bits-written (str_trim field) text bits k in
            (b, record { text = text; address = g; written = w }, le, pton_small text addr g, cc)
      ]
    ]
  ]

  -- The loop, from the slots of valid blocks on.
  parse_entries-Describes :
      (before out : List AllowRemote) (fs : List Text)
      → length before ≤ max_allow
      → parse_entries inet_pton before fs ≡ (out, true)
      → (blocks : List Block) × DescribesAll fs blocks
        × AllValid blocks
        × (out ≡ before ++ map slot_of blocks)
        × (length out ≤ max_allow)
  unfolding parse_entries
  parse_entries-Describes before out [] le e =
      let same : before ≡ out = ap (λ x. x.0) e in
      ([], tt, tt, sym same ∙ sym (append-nil before), rw (← same) le)
  parse_entries-Describes before out (field ∷ fs) le e =
      elim (Bool-cases (leb max_allow (length before))) [
        | inl z ↦ let f : (before, false) ≡ (out, true) = rw (parse_entries, z) at e in cc
        | inr z ↦ elim (Option-cases (parse_entry inet_pton field)) [
          | inl k ↦ let f : (before, false) ≡ (out, true) = rw (parse_entries, z, k) at e in cc
          | inr (slot, k) ↦
              let f : parse_entries inet_pton (before ++ (slot ∷ [])) fs ≡ (out, true) =
                rw (parse_entries, z, k) at e in
              let room = leb-false max_allow (length before) z in
              let (blocks, d, v, q, few) =
                parse_entries-Describes (before ++ (slot ∷ [])) out fs
                  (omega (arith, length-append {0} before (slot ∷ []))) f in
              let (b, w, lb, la, same) = parse_entry-Describes field slot k in
              (
                b ∷ blocks,
                (w, d),
                ((lb, la), v),
                q ∙ rw same (append_assoc before (slot_of b ∷ []) (map slot_of blocks)),
                few,
              )
        ]
      ]

  some_slot :
      (fs : List Text) (blocks : List Block) (allow : List AllowRemote)
      → fs ≢ []
      → DescribesAll fs blocks
      → allow ≡ map slot_of blocks
      → (length allow == 0) ≡ false
  some_slot [] blocks allow n d e = absurd (n refl)
  some_slot (f ∷ fs) [] allow n d e = absurd d
  some_slot (f ∷ fs) (b ∷ blocks) allow n d e = rw e (ground arith)

  -- What an accepted list makes of the settings.
  pub record Admits (list : Text) (cfg : SoftgredConfig) : Type 0 where
    pub blocks : List Block
    pub described : DescribesAll (fields list b',') blocks
    pub few : length cfg.allow ≤ max_allow
    pub admits :
        (remote : ℕ) → remote < 2 ^ 32 → config_remote_allowed cfg remote ≡ in_blocks blocks remote

  -- If `parse_allow` accepts a list, then each of its fields stands for a block of addresses, there are
  -- at most `max_allow` of them, and `config_remote_allowed` holds for exactly the addresses in one of
  -- the blocks. `inet_pton` is any function into numbers below 2 ^ 32.
  pub parse_allow-Admits :
      (cfg cfg' : SoftgredConfig) (list : Text)
      → parse_allow inet_pton cfg list ≡ (cfg', true)
      → Admits list cfg'
  unfolding parse_allow config_remote_allowed fields
  parse_allow-Admits cfg cfg' list e =
      let fs = fields list b',' in
      let r = parse_entries inet_pton [] fs in
      let slots : r.0 ≡ cfg'.allow = ap (λ x. x.0.allow) e in
      let accepted : r.1 ≡ true = ap (λ x. x.1) e in
      let whole : r ≡ (cfg'.allow, true) = λ i. (slots i, accepted i) in
      let (blocks, d, v, q, few) = parse_entries-Describes [] cfg'.allow fs (omega arith) whole in
      record {
        blocks = blocks;
        described = d;
        few = few;
        admits = λ remote lr.
            rw (some_slot fs blocks cfg'.allow (fields-ne_nil list b',') d q)
              (ap (λ a. in_allow a remote) q ∙ in_allow-in_blocks blocks remote v lr);
      }

  pub Admits-same :
      (list : Text) (cfg cfg' : SoftgredConfig)
      → cfg'.allow ≡ cfg.allow
      → Admits list cfg
      → Admits list cfg'
  unfolding config_remote_allowed
  Admits-same list cfg cfg' e a = record {
    blocks = a.blocks;
    described = a.described;
    few = subst (λ x. length x ≤ max_allow) (sym e) a.few;
    admits = λ remote lt.
        ap (λ x. if length x == 0 then true else in_allow x remote) e ∙ a.admits remote lt;
  }
