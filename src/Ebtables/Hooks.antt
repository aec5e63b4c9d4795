-- ===== src/Ebtables/Hooks.antt =====
-- The bits of `installed` in src/iface_ebtables.c, against the commands that succeeded.
use softgre.Shared.{
  ℕ, ◌+◌, ◌≡◌, subst, Bool, true, false, ◌&&◌, List, [], ◌∷◌, arith, if◌then◌else◌, Bool-cases, inl,
  inr,
}
use softgre.Compat.{Text, codes, streq}
use softgre.Ebtables.{Log, Hook, jump, helper_exec, rule, add_hooks, del_hooks}
use softgre.Ebtables.Rules.{same_args, executed, streq_refl}

-- Whether two hooks have the same row.
unfoldable pub same_hook : Hook → Hook → Bool
unfolding streq
same_hook h g =
    streq h.table g.table
    && streq h.chain g.chain
    && streq h.direction g.direction
    && streq h.target g.target

-- How many of the bits of a hook are set: each hook has one.
unfoldable pub bits_of : Hook → List Hook → List Bool → ℕ
unfolding same_hook
bits_of g [] bits = 0
bits_of g (h ∷ hs) [] = 0
bits_of g (h ∷ hs) (b ∷ bits) =
    let rest = bits_of g hs bits in if b && same_hook h g then rest + 1 else rest

module _ (binary : Text) where
  same_jump :
      (h g : Hook) (p q : Text)
      → (same_args (jump binary (codes "-I") h p) (jump binary (codes "-I") g q)
          ≡ (streq p q && same_hook h g))
        × (same_args (jump binary (codes "-D") h p) (jump binary (codes "-D") g q)
            ≡ (streq p q && same_hook h g))
        × (same_args (jump binary (codes "-I") h p) (jump binary (codes "-D") g q) ≡ false)
        × (same_args (jump binary (codes "-D") h p) (jump binary (codes "-I") g q) ≡ false)
  unfolding same_args same_hook streq
  same_jump h g p q =
      let b = streq_refl binary in
      (
        rw (same_args, b) (ground arith),
        rw (same_args, b) (ground arith),
        ground arith,
        ground arith,
      )

  -- What one more command of a hook adds to the count of a command.
  executed-insert :
      (h g : Hook) (p q : Text) (ok : Bool) (log : Log)
      → (executed (jump binary (codes "-I") g q) ((jump binary (codes "-I") h p, ok) ∷ log)
          ≡ executed (jump binary (codes "-I") g q) log
            + (if ok && (streq p q && same_hook h g) then 1 else 0))
        × (executed (jump binary (codes "-D") g q) ((jump binary (codes "-I") h p, ok) ∷ log)
            ≡ executed (jump binary (codes "-D") g q) log)
  unfolding executed
  executed-insert h g p q ok log =
      let (ii, dd, id, di) = same_jump h g p q in
      (rw (executed, ii) (ground arith), rw (executed, id) (ground arith))

  executed-delete :
      (h g : Hook) (p q : Text) (ok : Bool) (log : Log)
      → (executed (jump binary (codes "-D") g q) ((jump binary (codes "-D") h p, ok) ∷ log)
          ≡ executed (jump binary (codes "-D") g q) log
            + (if ok && (streq p q && same_hook h g) then 1 else 0))
        × (executed (jump binary (codes "-I") g q) ((jump binary (codes "-D") h p, ok) ∷ log)
            ≡ executed (jump binary (codes "-I") g q) log)
  unfolding executed
  executed-delete h g p q ok log =
      let (ii, dd, id, di) = same_jump h g p q in
      (rw (executed, dd) (ground arith), rw (executed, di) (ground arith))

-- A command for a pattern was inserted `n` times more often than deleted.
unfoldable pub Installed : Text → Text → Hook → ℕ → Log → Type 0
unfolding executed
Installed binary pattern g n log =
    executed (jump binary (codes "-I") g pattern) log
    ≡ executed (jump binary (codes "-D") g pattern) log + n

abbrev pub one_if : Bool → ℕ
one_if b = if b then 1 else 0

-- The bits of a hook that count for the pattern `q` when they are of the pattern `p`.
abbrev pub bits_for : Text → Text → Hook → List Hook → List Bool → ℕ
bits_for p q g hs bits = if streq p q then bits_of g hs bits else 0

bits_for_cons :
    (p q : Text) (g h : Hook) (hs : List Hook) (b : Bool) (bits : List Bool)
    → bits_for p q g (h ∷ hs) (b ∷ bits)
      ≡ one_if (b && (streq p q && same_hook h g)) + bits_for p q g hs bits
unfolding bits_of
bits_for_cons p q g h hs b bits = ground arith

pub Installed-same :
    (binary q : Text) (g : Hook) (log : Log) {n m : ℕ}
    → n ≡ m
    → Installed binary q g n log
    → Installed binary q g m log
Installed-same binary q g log e h = subst (λ (k : ℕ). Installed binary q g k log) e h

module _ (binary : Text) (answer : Log → List Text → Bool) where
  insert-Installed :
      (p q : Text) (h g : Hook) (n : ℕ) (ok : Bool) (log : Log)
      → Installed binary q g n log
      → Installed binary q g
          (n + one_if (ok && (streq p q && same_hook h g)))
          ((jump binary (codes "-I") h p, ok) ∷ log)
  unfolding Installed
  insert-Installed p q h g n ok log i =
      let (a, b) = executed-insert binary h g p q ok log in omega (arith, a, b, i)

  delete-Installed :
      (p q : Text) (h g : Hook) (n : ℕ) (ok : Bool) (log : Log)
      → Installed binary q g (n + one_if (ok && (streq p q && same_hook h g))) log
      → Installed binary q g n ((jump binary (codes "-D") h p, ok) ∷ log)
  unfolding Installed
  delete-Installed p q h g n ok log i =
      let (a, b) = executed-delete binary h g p q ok log in omega (arith, a, b, i)

  -- The loop of `iface_ebtables_add_tunnel` for `p` keeps the count of each pattern.
  pub add_hooks-Installed :
      (p q : Text) (g : Hook) (hs : List Hook) (bits : List Bool) (log : Log) (n : ℕ)
      → Installed binary q g (n + bits_for p q g hs bits) log
      → let r = add_hooks binary answer p hs bits log in
        Installed binary q g (n + bits_for p q g hs r.0.1) r.0.0
  unfolding add_hooks rule helper_exec
  add_hooks-Installed p q g [] bits log n i = i
  add_hooks-Installed p q g (h ∷ hs) [] log n i = i
  add_hooks-Installed p q g (h ∷ hs) (true ∷ bits) log n i =
      let r = add_hooks binary answer p hs bits log in
      let w = one_if (streq p q && same_hook h g) in
      Installed-same binary q g r.0.0 (omega (arith, bits_for_cons p q g h hs true r.0.1)) (
        add_hooks-Installed p q g hs bits log (n + w)
          (Installed-same binary q g log (omega (arith, bits_for_cons p q g h hs true bits)) i))
  add_hooks-Installed p q g (h ∷ hs) (false ∷ bits) log n i =
      let cmd = jump binary (codes "-I") h p in
      let before : Installed binary q g (n + bits_for p q g hs bits) log =
        Installed-same binary q g log (omega (arith, bits_for_cons p q g h hs false bits)) i in
      let j = insert-Installed p q h g (n + bits_for p q g hs bits) in
      elim (Bool-cases (answer log cmd)) [
        | inl e ↦
            let next = (cmd, true) ∷ log in
            let w = one_if (streq p q && same_hook h g) in
            let r = add_hooks binary answer p hs bits next in
            rw e (
              Installed-same binary q g r.0.0 (omega (arith, bits_for_cons p q g h hs true r.0.1)) (
                add_hooks-Installed p q g hs bits next (n + w)
                  (Installed-same binary q g next (omega arith) (j true log before))))
        | inr e ↦
            let next = (cmd, false) ∷ log in
            rw e (
              Installed-same binary q g next (omega (arith, bits_for_cons p q g h hs false bits))
                (j false log before))
      ]

  -- So does the loop of `iface_ebtables_del_tunnel`.
  pub del_hooks-Installed :
      (p q : Text) (g : Hook) (hs : List Hook) (bits : List Bool) (log : Log) (n : ℕ)
      → Installed binary q g (n + bits_for p q g hs bits) log
      → let r = del_hooks binary answer p hs bits log in
        Installed binary q g (n + bits_for p q g hs r.1) r.0
  unfolding del_hooks rule helper_exec
  del_hooks-Installed p q g [] bits log n i = i
  del_hooks-Installed p q g (h ∷ hs) [] log n i = i
  del_hooks-Installed p q g (h ∷ hs) (false ∷ bits) log n i =
      let r = del_hooks binary answer p hs bits log in
      Installed-same binary q g r.0 (omega (arith, bits_for_cons p q g h hs false r.1)) (
        del_hooks-Installed p q g hs bits log n
          (Installed-same binary q g log (omega (arith, bits_for_cons p q g h hs false bits)) i))
  del_hooks-Installed p q g (h ∷ hs) (true ∷ bits) log n i =
      let cmd = jump binary (codes "-D") h p in
      let w = one_if (streq p q && same_hook h g) in
      let before : Installed binary q g (n + bits_for p q g hs bits + w) log =
        Installed-same binary q g log (omega (arith, bits_for_cons p q g h hs true bits)) i in
      let j = delete-Installed p q h g in
      elim (Bool-cases (answer log cmd)) [
        | inl e ↦
            let next = (cmd, true) ∷ log in
            let r = del_hooks binary answer p hs bits next in
            rw e (
              Installed-same binary q g r.0 (omega (arith, bits_for_cons p q g h hs false r.1)) (
                del_hooks-Installed p q g hs bits next n
                  (j (n + bits_for p q g hs bits) true log before)))
        | inr e ↦
            let next = (cmd, false) ∷ log in
            let r = del_hooks binary answer p hs bits next in
            rw e (
              Installed-same binary q g r.0 (omega (arith, bits_for_cons p q g h hs true r.1)) (
                del_hooks-Installed p q g hs bits next (n + w) (
                  Installed-same binary q g next (omega arith) (
                    j (n + bits_for p q g hs bits + w) false log
                      (Installed-same binary q g log (omega arith) before)))))
      ]
