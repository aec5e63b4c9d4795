-- ===== src/Ebtables/Results.antt =====
-- What the results of the functions of src/iface_ebtables.c say, failures included.
use softgre.Shared.{
  ℕ, ◌+◌, ◌≡◌, refl, sym, ap, Bool, true, false, not, ◌&&◌, List, [], ◌∷◌, arith, if◌then◌else◌,
  length, Bool-cases, inl, inr,
}
use softgre.Compat.{Text, codes, streq}
use softgre.Ebtables.{
  Log, Hook, hooks, in_args, out_args, pattern_of, any_installed, helper_exec, rule, jump,
  add_hooks, del_hooks, iface_ebtables_allow, iface_ebtables_add_tunnel, iface_ebtables_del_tunnel,
}
use softgre.Ebtables.Rules.{same_args, executed, same_args_refl}

-- One more command, and the count of the same or of another one.
executed-again :
    (args : List Text) (ok : Bool) (log : Log)
    → executed args ((args, ok) ∷ log) ≡ executed args log + (if ok then 1 else 0)
unfolding executed
executed-again args ok log = rw (executed, same_args_refl args) (ground arith)

executed-other :
    (args cmd : List Text) (ok : Bool) (log : Log)
    → same_args cmd args ≡ false
    → executed args ((cmd, ok) ∷ log) ≡ executed args log
unfolding executed
executed-other args cmd ok log h = rw (executed, h) (ground arith)

module _ (binary : Text) where
  -- The four commands for a MAC are different ones.
  apart :
      (p mac : Text)
      → (same_args (in_args binary (codes "-I") p mac) (in_args binary (codes "-D") p mac) ≡ false)
        × (same_args (in_args binary (codes "-D") p mac) (in_args binary (codes "-I") p mac)
            ≡ false)
        × (same_args (out_args binary (codes "-I") p mac) (in_args binary (codes "-I") p mac)
            ≡ false)
        × (same_args (out_args binary (codes "-I") p mac) (in_args binary (codes "-D") p mac)
            ≡ false)
        × (same_args (in_args binary (codes "-I") p mac) (out_args binary (codes "-I") p mac)
            ≡ false)
        × (same_args (in_args binary (codes "-D") p mac) (out_args binary (codes "-I") p mac)
            ≡ false)
  unfolding same_args streq
  apart p mac = (ground arith, ground arith, ground arith, ground arith, ground arith, ground arith)

  -- The counts of the commands of `iface_ebtables_allow` before and behind it, with its result.
  pub record Allowed (p mac : Text) (log log' : Log) (ok : Bool) : Type 0 where
    -- The rule of the ingress side stays inserted exactly if the result is success.
    pub ingress :
        executed (in_args binary (codes "-I") p mac) log'
          + executed (in_args binary (codes "-D") p mac) log
        ≡ executed (in_args binary (codes "-I") p mac) log
          + executed (in_args binary (codes "-D") p mac) log'
          + (if ok then 1 else 0)
    -- So does the one of the egress side.
    pub egress :
        executed (out_args binary (codes "-I") p mac) log'
        ≡ executed (out_args binary (codes "-I") p mac) log + (if ok then 1 else 0)

  allow_steps :
      (p mac : Text) (log : Log) (a b c : Bool)
      → let log1 = (in_args binary (codes "-I") p mac, a) ∷ log in
        let log2 = (out_args binary (codes "-I") p mac, b) ∷ log1 in
        let log3 = (in_args binary (codes "-D") p mac, c) ∷ log2 in
        (a ≡ false → Allowed p mac log log1 false)
        × (a ≡ true → b ≡ false → c ≡ true → Allowed p mac log log3 false)
        × (a ≡ true → b ≡ true → Allowed p mac log log2 true)
  allow_steps p mac log a b c =
      let i = in_args binary (codes "-I") p mac in
      let d = in_args binary (codes "-D") p mac in
      let o = out_args binary (codes "-I") p mac in
      let log1 = (i, a) ∷ log in
      let log2 = (o, b) ∷ log1 in
      let (id, di, oi, od, io, dout) = apart p mac in
      let i1 = executed-again i a log in
      let i2 = executed-other i o b log1 oi in
      let i3 = executed-other i d c log2 di in
      let d1 = executed-other d i a log id in
      let d2 = executed-other d o b log1 od in
      let d3 = executed-again d c log2 in
      let o1 = executed-other o i a log io in
      let o2 = executed-again o b log1 in
      let o3 = executed-other o d c log2 dout in
      (
        λ ha. record { ingress = ground (arith, i1, d1, ha); egress = ground (arith, o1, ha) },
        λ ha hb hc. record {
          ingress = ground (arith, i1, i2, i3, d1, d2, d3, ha, hb, hc);
          egress = ground (arith, o1, o2, o3, ha, hb, hc);
        },
        λ ha hb. record {
          ingress = ground (arith, i1, i2, d1, d2, ha, hb);
          egress = ground (arith, o1, o2, ha, hb);
        },
      )

unless_cases :
    {A : Type 0} (P : A → Type 0) (c : Bool) (x y : A)
    → (c ≡ false → P x)
    → (c ≡ true → P y)
    → P (if not c then x else y)
unless_cases P true x y f t = t refl
unless_cases P false x y f t = f refl

unfoldable pub all_installed : List Bool → Bool
all_installed [] = true
all_installed (b ∷ bits) = b && all_installed bits

-- Whether no bit is set.
unfoldable pub all_clear : List Bool → Bool
all_clear [] = true
all_clear (b ∷ bits) = not b && all_clear bits

unfoldable pub number_set : List Bool → ℕ
number_set [] = 0
number_set (b ∷ bits) = (if b then 1 else 0) + number_set bits

-- The commands of a log that failed.
unfoldable pub failures : Log → ℕ
failures [] = 0
failures ((args, ok) ∷ log) = (if ok then 0 else 1) + failures log

failed_bit :
    (ok : Bool) (before bits : ℕ) {behind : ℕ}
    → behind ≡ (if ok then 0 else 1) + before + bits
    → behind ≡ before + ((if not ok then 1 else 0) + bits)
failed_bit true before bits e = omega (arith, e)
failed_bit false before bits e = omega (arith, e)

any_installed-all_clear : (bits : List Bool) → not (any_installed bits) ≡ all_clear bits
unfolding any_installed all_clear
any_installed-all_clear [] = refl
any_installed-all_clear (true ∷ bits) = refl
any_installed-all_clear (false ∷ bits) = any_installed-all_clear bits

module _ (binary : Text) (answer : Log → List Text → Bool) where
  -- If the deletion of the ingress rule, which undoes a half-made pair, succeeds, then
  -- `iface_ebtables_allow` makes both rules and returns success, or fails and leaves neither.
  pub allow-Allowed :
      (name mac : Text) (log : Log)
      → ((now : Log) → answer now (in_args binary (codes "-D") (pattern_of name) mac) ≡ true)
      → let r = iface_ebtables_allow binary answer name mac log in
        Allowed binary (pattern_of name) mac log r.0 r.1
  unfolding iface_ebtables_allow helper_exec
  allow-Allowed name mac log undo =
      let p = pattern_of name in
      let i = in_args binary (codes "-I") p mac in
      let o = out_args binary (codes "-I") p mac in
      let d = in_args binary (codes "-D") p mac in
      let a = answer log i in
      let b = answer ((i, a) ∷ log) o in
      let c = answer ((o, b) ∷ (i, a) ∷ log) d in
      let (one, undone, both) = allow_steps binary p mac log a b c in
      let log1 = (i, a) ∷ log in
      let log2 = (o, b) ∷ log1 in
      let log3 = (d, c) ∷ log2 in
      let P = λ (x : Log × Bool). Allowed binary p mac log x.0 x.1 in
      unless_cases P a (log1, false) (if not b then (log3, false) else (log2, true)) one
        (λ ha.
          unless_cases P b (log3, false) (log2, true) (λ hb. undone ha hb (undo log2)) (both ha))

  add_hooks-all_installed :
      (p : Text) (hs : List Hook) (bits : List Bool) (log : Log)
      → length hs ≡ length bits
      → let r = add_hooks binary answer p hs bits log in r.1 ≡ all_installed r.0.1
  unfolding add_hooks all_installed rule helper_exec
  add_hooks-all_installed p [] [] log h = refl
  add_hooks-all_installed p [] (b ∷ bits) log h = absurd (omega (arith, h))
  add_hooks-all_installed p (x ∷ hs) [] log h = absurd (omega (arith, h))
  add_hooks-all_installed p (x ∷ hs) (true ∷ bits) log h =
      add_hooks-all_installed p hs bits log (omega (arith, h))
  add_hooks-all_installed p (x ∷ hs) (false ∷ bits) log h =
      let cmd = jump binary (codes "-I") x p in
      elim (Bool-cases (answer log cmd)) [
        | inl e ↦ rw e (add_hooks-all_installed p hs bits ((cmd, true) ∷ log) (omega (arith, h)))
        | inr e ↦ rw e refl
      ]

  -- The loop over the hooks tries each jump that is installed, and keeps the bits of those that fail.
  del_hooks_counts :
      (p : Text) (hs : List Hook) (bits : List Bool) (log : Log)
      → length hs ≡ length bits
      → let r = del_hooks binary answer p hs bits log in
        (length r.0 ≡ length log + number_set bits) × (failures r.0 ≡ failures log + number_set r.1)
  unfolding del_hooks rule helper_exec number_set failures
  del_hooks_counts p [] [] log h = (omega arith, omega arith)
  del_hooks_counts p [] (b ∷ bits) log h = absurd (omega (arith, h))
  del_hooks_counts p (x ∷ hs) [] log h = absurd (omega (arith, h))
  del_hooks_counts p (x ∷ hs) (false ∷ bits) log h =
      let (a, b) = del_hooks_counts p hs bits log (omega (arith, h)) in
      (omega (arith, a), omega (arith, b))
  del_hooks_counts p (x ∷ hs) (true ∷ bits) log h =
      let cmd = jump binary (codes "-D") x p in
      let (a, b) = del_hooks_counts p hs bits ((cmd, answer log cmd) ∷ log) (omega (arith, h)) in
      (
        omega (arith, a),
        failed_bit (answer log cmd) (failures log)
            (number_set (del_hooks binary answer p hs bits ((cmd, answer log cmd) ∷ log)).1) b,
      )

  -- For the three bits of `installed`: `iface_ebtables_add_tunnel` returns success exactly if all bits
  -- are set behind it. `iface_ebtables_del_tunnel` runs a command for each bit that is set, also behind
  -- one that fails, as many bits are set behind it as commands failed, and it returns success exactly if
  -- none is.
  pub results-all_installed :
      (name : Text) (installed : List Bool) (log : Log)
      → length installed ≡ 3
      → let added = iface_ebtables_add_tunnel binary answer name installed log in
        let deleted = iface_ebtables_del_tunnel binary answer name installed log in
        (added.1 ≡ all_installed added.0.1)
        × (deleted.1 ≡ all_clear deleted.0.1)
        × (length deleted.0.0 ≡ length log + number_set installed)
        × (failures deleted.0.0 ≡ failures log + number_set deleted.0.1)
  unfolding iface_ebtables_add_tunnel iface_ebtables_del_tunnel
  results-all_installed name installed log h =
      let (tried, kept) = del_hooks_counts (pattern_of name) hooks installed log (sym h) in
      (
        add_hooks-all_installed (pattern_of name) hooks installed log (sym h),
        any_installed-all_clear (del_hooks binary answer (pattern_of name) hooks installed log).1,
        tried,
        kept,
      )

  module _ (works : (log : Log) (args : List Text) → answer log args ≡ true) where
    add_hooks_done :
        (p : Text) (hs : List Hook) (bits : List Bool) (log : Log)
        → (add_hooks binary answer p hs bits log).1 ≡ true
    unfolding add_hooks rule helper_exec
    add_hooks_done p [] bits log = refl
    add_hooks_done p (x ∷ hs) [] log = refl
    add_hooks_done p (x ∷ hs) (true ∷ bits) log = add_hooks_done p hs bits log
    add_hooks_done p (x ∷ hs) (false ∷ bits) log =
        let cmd = jump binary (codes "-I") x p in
        rw (works log cmd) (add_hooks_done p hs bits ((cmd, true) ∷ log))

    del_hooks_done :
        (p : Text) (hs : List Hook) (bits : List Bool) (log : Log)
        → length hs ≡ length bits
        → any_installed (del_hooks binary answer p hs bits log).1 ≡ false
    unfolding del_hooks rule helper_exec any_installed
    del_hooks_done p [] [] log h = refl
    del_hooks_done p [] (b ∷ bits) log h = absurd (omega (arith, h))
    del_hooks_done p (x ∷ hs) [] log h = refl
    del_hooks_done p (x ∷ hs) (false ∷ bits) log h = del_hooks_done p hs bits log (omega (arith, h))
    del_hooks_done p (x ∷ hs) (true ∷ bits) log h =
        let cmd = jump binary (codes "-D") x p in
        rw (works log cmd) (del_hooks_done p hs bits ((cmd, true) ∷ log) (omega (arith, h)))

    -- If each command succeeds, then `iface_ebtables_add_tunnel` and `iface_ebtables_del_tunnel` do, from
    -- any three bits of `installed`, such as those of a call that failed half way.
    pub tunnel_calls_done :
        (name : Text) (installed : List Bool) (log : Log)
        → length installed ≡ 3
        → ((iface_ebtables_add_tunnel binary answer name installed log).1 ≡ true)
          × ((iface_ebtables_del_tunnel binary answer name installed log).1 ≡ true)
    unfolding iface_ebtables_add_tunnel iface_ebtables_del_tunnel
    tunnel_calls_done name installed log h = (
      add_hooks_done (pattern_of name) hooks installed log,
      ap not (del_hooks_done (pattern_of name) hooks installed log (sym h)),
    )
