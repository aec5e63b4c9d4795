-- ===== src/Service/Commands/Located.antt =====
-- src/service_cmd.c: `GTMC` finds the tunnel that a MAC is learned at.
use softgre.Shared.{
  ℕ, ◌/◌, ◌%◌, ◌<◌, ◌≡◌, sym, ap, ◌∙◌, subst, true, false, List, [], ◌∷◌, ◌++◌, some, leb, length,
  arith, Option-cases, inl, inr, ◌>>=◌, Returns, Returns-if,
}
use softgre.Maps.{MapOps}
use softgre.Compat.{Text, codes, streq}
use softgre.Compat.StrBuf.{StrBuf, Allocator, strbuf_append}
use softgre.Compat.StrBuf.Holds.{
  Holds, strbuf_append_len-Holds, strbuf_appendf-Holds, strbuf_new-Holds,
}
use softgre.Payload.{Mac}
use softgre.Provision.{Host, State, mac_text, hex_byte, hex_digit, provision_get_tunnel_by_mac}
use softgre.Provision.Heap.{TunnelContext}
use softgre.Provision.Owned.{Owned}
use softgre.Provision.Learning.{Has}
use softgre.Service.{valid_mac-mac_text}
use softgre.Service.Commands.{
  Site, is_separator, service_max_request, tokens, split_words, drop_empty, invalid, body,
  at_tunnel, gtmc, run_command, service_command,
}

-- Six bytes.
pub record IsMac (m : Mac) : Type 0 where
  pub b0 : m.m0 < 256
  pub b1 : m.m1 < 256
  pub b2 : m.m2 < 256
  pub b3 : m.m3 < 256
  pub b4 : m.m4 < 256
  pub b5 : m.m5 < 256

digit_joins : (n : ℕ) → n < 16 → is_separator (hex_digit n) ≡ false
digit_joins n h = ground arith

-- Both digits of a byte.
byte_joins :
    (b : ℕ)
    → b < 256
    → (is_separator (hex_digit (b / 16)) ≡ false) × (is_separator (hex_digit (b % 16)) ≡ false)
byte_joins b h = (digit_joins (b / 16) (omega arith), digit_joins (b % 16) (omega arith))

abbrev pub gtmc_of : Mac → Text
gtmc_of m = codes "GTMC " ++ mac_text m

words_of_gtmc : (m : Mac) → IsMac m → tokens (gtmc_of m) ≡ codes "GTMC" ∷ mac_text m ∷ []
unfolding tokens split_words drop_empty mac_text hex_byte
words_of_gtmc m h =
    let (p0, q0) = byte_joins m.m0 h.b0 in
    let (p1, q1) = byte_joins m.m1 h.b1 in
    let (p2, q2) = byte_joins m.m2 h.b2 in
    let (p3, q3) = byte_joins m.m3 h.b3 in
    let (p4, q4) = byte_joins m.m4 h.b4 in
    let (p5, q5) = byte_joins m.m5 h.b5 in rw (p0, q0, p1, q1, p2, q2, p3, q3, p4, q4, p5, q5)

module _ {T X S W : Type 0} ⦃tun : MapOps ℕ ℕ T⦄ ⦃idx : MapOps (List ℕ) ℕ X⦄
    ⦃set : MapOps (List ℕ) (Unit {0}) S⦄ ⦃host : Host W⦄ (alloc : Allocator) (site : Site) where
  -- The answer to the question for a MAC.
  pub record Located (s : State T X S W) (mac : Text) (out : StrBuf) : Type 0 where
    pub found :
        (ip : ℕ) (h : Has s.tables ip mac)
        → Holds (body (at_tunnel site ip h.tunnel.id ++ (10 ∷ []))) out
    pub unknown : ((ip : ℕ) → Has s.tables ip mac → ⊥) → Holds (codes "RESULT: NOTFOUND\n") out

  answered_tunnel :
      (s : State T X S W)
      → Owned s.tables
      → {mac : Text} {p : ℕ} {t : TunnelContext S} → idx.lookup s.tables.mac_index mac ≡ some p
      → s.tables.heap p ≡ some t
      → {ip : ℕ} (has : Has s.tables ip mac) → (t.ip_remote ≡ ip) × (t.id ≡ has.tunnel.id)
  answered_tunnel s o {mac} {p} {t} f object has =
      let pointer = sym f ∙ o.indexed mac has.at has.member in
      let same : t ≡ has.tunnel = let q = has.at.object in cc in
      (ap (λ x. x.ip_remote) same ∙ o.remote has.at, ap (λ x. x.id) same)

  gtmc-Located :
      (s : State T X S W) (m : Mac) (out : StrBuf)
      → Owned s.tables
      → IsMac m
      → Holds [] out
      → Returns (gtmc alloc site s out (mac_text m)) (Located s (mac_text m))
  unfolding gtmc provision_get_tunnel_by_mac strbuf_append
  gtmc-Located s m out o b h =
      let e = valid_mac-mac_text m b.b0 b.b1 b.b2 b.b3 b.b4 b.b5 in
      elim (Option-cases (idx.lookup s.tables.mac_index (mac_text m))) [
        | inl f ↦
            let (out', g, k) =
              strbuf_append_len-Holds alloc [] (codes "RESULT: NOTFOUND\n") out h in
            (
              out',
              rw (gtmc, e, f) g,
              record {
                found = λ ip has. let i = o.indexed (mac_text m) has.at has.member in cc;
                unknown = λ no. k;
              },
            )
        | inr (p, f) ↦
            let (ip, t, at, mem) = o.owner (mac_text m) p f in
            let (out', g, k) =
              strbuf_appendf-Holds alloc [] (body (at_tunnel site t.ip_remote t.id ++ (10 ∷ [])))
                out h in
            (
              out',
              rw (gtmc, e, f, at.object, ◌>>=◌) g,
              record {
                found = λ ip' has.
                    let (q, r) = answered_tunnel s o f at.object has in
                    subst (λ x. Holds x out')
                      (ap (λ i. body (at_tunnel site i t.id ++ (10 ∷ []))) q
                        ∙ ap (λ i. body (at_tunnel site ip' i ++ (10 ∷ []))) r)
                      k;
                unknown = λ no.
                    absurd (no ip (record { pointer = p; tunnel = t; at = at; member = mem }));
              },
            )
      ]

  -- In a state with the invariant of the shared objects, the command `GTMC` with the text of a MAC of
  -- six bytes is answered: if a tunnel has learned the MAC, with the address of that tunnel's remote
  -- and the name of its interface, and if none has, with `NOTFOUND`.
  pub service_command-Located :
      (s : State T X S W) (m : Mac)
      → Owned s.tables
      → IsMac m
      → Returns (service_command alloc site s (gtmc_of m)) (Located s (mac_text m))
  unfolding service_command run_command streq mac_text hex_byte
  service_command-Located s m o b =
      let (out, e, h) = strbuf_new-Holds alloc in
      rw (e, ◌>>=◌)
        (Returns-if (leb service_max_request (length (gtmc_of m))) {yes = invalid alloc out}
          (λ long. let z : false ≡ true = long in cc)
          (λ _. rw (words_of_gtmc m b) (gtmc-Located s m out o b h)))
