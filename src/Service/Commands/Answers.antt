-- ===== src/Service/Commands/Answers.antt =====
-- src/service_cmd.c: what `service_command` answers.
use softgre.Shared.{
  ℕ, ◌≡◌, refl, sym, ◌∙◌, Bool, true, false, ◌||◌, List, [], ◌∷◌, ◌++◌, leb, ◌==◌, length,
  Option-cases, inl, inr, ◌>>=◌, Returns, Returns-bind, Returns-if,
}
use softgre.Maps.{MapOps, contains, is_some}
use softgre.Compat.{Text, codes, streq}
use softgre.Compat.StrBuf.{StrBuf, Allocator, strbuf_append, strbuf_append_char, strbuf_appendf}
use softgre.Compat.StrBuf.Holds.{
  Holds, strbuf_append_len-Holds, strbuf_appendf-Holds, strbuf_assign-Holds, strbuf_new-Holds,
}
use softgre.Provision.{Host, State, provision_get_tunnel_byip, provision_get_tunnel_by_mac}
use softgre.Provision.Owned.{Owned}
use softgre.Provision.Removal.{deref-Returns}
use softgre.Provision.Emptied.{entry_of-Returns}
use softgre.Service.{valid_mac}
use softgre.Service.Commands.{
  Site, service_max_request, tokens, sort_macs, separator_of, list_macs, invalid, body, at_tunnel,
  help_text, status_text, lmip, gtmc, list_tunnels, stun, plain_command, run_command,
  service_command,
}

or_true : (b : Bool) → b || true ≡ true
or_true true = refl
or_true false = refl

-- A response that may be sent: some text, with its end inside the allocation.
abbrev pub Answered : StrBuf → Type 0
Answered out = (text : Text) × Holds text out

module _ (alloc : Allocator) where
  append-Answered :
      (out : StrBuf) (s : Text) → Answered out → Returns (strbuf_append alloc out s) Answered
  unfolding strbuf_append
  append-Answered out s (text, h) =
      let (b, e, k) = strbuf_append_len-Holds alloc text s out h in (b, e, (text ++ s, k))

  append_char-Answered :
      (out : StrBuf) (c : ℕ) → Answered out → Returns (strbuf_append_char alloc out c) Answered
  unfolding strbuf_append_char
  append_char-Answered out c (text, h) =
      let (b, e, k) = strbuf_append_len-Holds alloc text (c ∷ []) out h in
      (b, e, (text ++ (c ∷ []), k))

  appendf-Answered :
      (out : StrBuf) (s : Text) → Answered out → Returns (strbuf_appendf alloc out s) Answered
  appendf-Answered out s (text, h) =
      let (b, e, k) = strbuf_appendf-Holds alloc text s out h in (b, e, (text ++ s, k))

  invalid-Answered : (out : StrBuf) → Answered out → Returns (invalid alloc out) Answered
  unfolding invalid
  invalid-Answered out (text, h) =
      let (b, e, k) =
        strbuf_assign-Holds alloc text
          (codes "RESULT: INVALID\nBODY: Use HELP for command syntax\n") out h in
      (b, e, (_, k))

  list_macs-Answered :
      (out : StrBuf) (macs : List Text) → Answered out → Returns (list_macs alloc out macs) Answered
  unfolding list_macs
  list_macs-Answered out [] a = (out, refl, a)
  list_macs-Answered out (mac ∷ macs) a =
      Returns-bind (appendf-Answered out (mac ++ separator_of macs) a)
        (λ b k. list_macs-Answered b macs k)

module _ {T X S W : Type 0} ⦃tun : MapOps ℕ ℕ T⦄ ⦃idx : MapOps (List ℕ) ℕ X⦄
    ⦃set : MapOps (List ℕ) (Unit {0}) S⦄ ⦃host : Host W⦄ (alloc : Allocator) (site : Site)
    (s : State T X S W) (o : Owned s.tables) where
  lmip-Answered :
      (out : StrBuf) (arg : Text) → Answered out → Returns (lmip alloc site s out arg) Answered
  unfolding lmip provision_get_tunnel_byip
  lmip-Answered out arg a = elim (Option-cases (site.inet_pton arg)) [
    | inl e ↦ rw (lmip, e) (invalid-Answered alloc out a)
    | inr (addr, e) ↦ elim (Option-cases (tun.lookup s.tables.tunnels addr)) [
      | inl f ↦ rw (lmip, e, f) (append-Answered alloc out (codes "RESULT: NOTFOUND\n") a)
      | inr (p, f) ↦
          rw (lmip, e, f)
            (Returns-bind (deref-Returns s p (o.alive addr p f)) (λ t h.
              Returns-bind (append-Answered alloc out (body []) a) (λ out1 a1.
                Returns-bind (list_macs-Answered alloc out1 (sort_macs (set.keys t.macs)) a1)
                  (λ out2 a2.
                    Returns-if (length (sort_macs (set.keys t.macs)) == 0)
                      (λ _. append_char-Answered alloc out2 10 a2) (λ _. (out2, refl, a2))))))
    ]
  ]

  gtmc-Answered :
      (out : StrBuf) (arg : Text) → Answered out → Returns (gtmc alloc site s out arg) Answered
  unfolding gtmc provision_get_tunnel_by_mac
  gtmc-Answered out arg a = elim (Option-cases (valid_mac arg)) [
    | inl e ↦ rw (gtmc, e) (invalid-Answered alloc out a)
    | inr (mac, e) ↦ elim (Option-cases (idx.lookup s.tables.mac_index mac)) [
      | inl f ↦ rw (gtmc, e, f) (append-Answered alloc out (codes "RESULT: NOTFOUND\n") a)
      | inr (p, f) ↦
          let (ip, t, at, _) = o.owner mac p f in
          rw (gtmc, e, f)
            (Returns-bind (deref-Returns s p (t, at.object)) (λ t' h.
              appendf-Answered alloc out (body (at_tunnel site t'.ip_remote t'.id ++ (10 ∷ []))) a))
    ]
  ]

  list_tunnels-Answered :
      (out : StrBuf) (remotes : List ℕ)
      → ((r : ℕ)
          → contains tun.same remotes r ≡ true
          → is_some (tun.lookup s.tables.tunnels r) ≡ true)
      → Answered out
      → Returns (list_tunnels alloc site s out remotes) Answered
  unfolding list_tunnels contains
  list_tunnels-Answered out [] known a = (out, refl, a)
  list_tunnels-Answered out (remote ∷ remotes) known a =
      let here : tun.same remote remote || contains tun.same remotes remote ≡ true =
        rw ((tun.same_iff remote remote).1 refl) in
      Returns-bind (entry_of-Returns s remote (known remote here)) (λ p e.
        Returns-bind (deref-Returns s p (o.alive remote p e)) (λ t h.
          Returns-bind (appendf-Answered alloc out _ a) (λ out' a'.
            list_tunnels-Answered out' remotes (λ r c. known r (rw c (or_true (tun.same remote r))))
              a')))

  stun-Answered : (out : StrBuf) → Answered out → Returns (stun alloc site s out) Answered
  unfolding stun
  stun-Answered out a =
      Returns-if (tun.size s.tables.tunnels == 0)
        (λ _. append-Answered alloc out (codes "RESULT: NULL\n") a)
        (λ _. Returns-bind (append-Answered alloc out (body []) a) (λ out1 a1.
          Returns-bind
            (list_tunnels-Answered out1 (tun.keys s.tables.tunnels)
              (λ r c. sym (tun.contains-keys s.tables.tunnels r) ∙ c) a1)
            (λ out2 a2. append_char-Answered alloc out2 10 a2)))

  plain_command-Answered :
      (out : StrBuf) (cmd : Text)
      → Answered out
      → Returns (plain_command alloc site s out cmd) Answered
  unfolding plain_command
  plain_command-Answered out cmd a =
      Returns-if (streq cmd (codes "VERS"))
        (λ _. appendf-Answered alloc out (body (site.package_version ++ (10 ∷ []))) a)
        (λ _.
          Returns-if (streq cmd (codes "QUIT")) (λ _. (out, refl, a))
            (λ _.
              Returns-if (streq cmd (codes "HELP")) (λ _. append-Answered alloc out help_text a)
                (λ _.
                  Returns-if (streq cmd (codes "STAT"))
                    (λ _. appendf-Answered alloc out (body (status_text site)) a)
                    (λ _.
                      Returns-if (streq cmd (codes "STUN")) (λ _. stun-Answered out a)
                        (λ _. invalid-Answered alloc out a)))))

  run_command-Answered :
      (out : StrBuf) (words : List Text)
      → Answered out
      → Returns (run_command alloc site s out words) Answered
  unfolding run_command
  run_command-Answered out [] a = invalid-Answered alloc out a
  run_command-Answered out (cmd ∷ []) a =
      Returns-if (streq cmd (codes "LMIP") || streq cmd (codes "GTMC"))
        (λ _. invalid-Answered alloc out a) (λ _. plain_command-Answered out cmd a)
  run_command-Answered out (cmd ∷ arg ∷ []) a =
      Returns-if (streq cmd (codes "LMIP")) (λ _. lmip-Answered out arg a)
        (λ _.
          Returns-if (streq cmd (codes "GTMC")) (λ _. gtmc-Answered out arg a)
            (λ _. invalid-Answered alloc out a))
  run_command-Answered out (cmd ∷ arg ∷ more ∷ words) a = invalid-Answered alloc out a

  -- In a state with the invariant of the shared objects, every command, a malformed one too, is
  -- answered: `service_command` returns, so that it neither follows a dangling pointer nor writes
  -- outside its buffer, and the buffer it returns holds a text.
  pub service_command-Answered :
      (command : Text) → Returns (service_command alloc site s command) Answered
  unfolding service_command
  service_command-Answered command =
      let (out, e, h) = strbuf_new-Holds alloc in
      rw (e, ◌>>=◌)
        (Returns-if (leb service_max_request (length command))
          (λ _. invalid-Answered alloc out ([], h))
          (λ _. run_command-Answered out (tokens command) ([], h)))
