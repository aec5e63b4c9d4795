-- ===== src/Ebtables/Quiet.antt =====
-- The functions of src/iface_ebtables.c whose commands are no jumps of a tunnel, and the patterns of
-- interface names.
use softgre.Shared.{
  ℕ, ◌≤◌, ◌≡◌, refl, ap, Bool, true, false, not, List, [], ◌∷◌, ◌++◌, arith, if◌then◌else◌, length,
  length-append, take-all, Bool-cases, inl, inr,
}
use softgre.Compat.{Text, codes, streq}
use softgre.Ebtables.{
  Log, Hook, jump, chain_args, in_args, out_args, multicast_args, drop_in_args, drop_out_args,
  pattern_of, helper_exec, then_exec, also_exec, chain_cmd, chain_defaults, add_defaults,
  iface_ebtables_init, iface_ebtables_end, iface_ebtables_reset, iface_ebtables_allow,
  iface_ebtables_revoke,
}
use softgre.Ebtables.Rules.{same_args, executed, streq_refl}
use softgre.Ebtables.Hooks.{Installed}

pub streq-same : (a b : Text) → streq a b ≡ true → a ≡ b
unfolding streq
streq-same [] [] h = refl
streq-same [] (d ∷ b) h = cc
streq-same (c ∷ a) [] h = cc
streq-same (c ∷ a) (d ∷ b) h =
    let e : c ≡ d = ground arith in let f = streq-same a b (ground arith) in rw (e, f)

streq-append : (a b t : Text) → streq (a ++ t) (b ++ t) ≡ streq a b
unfolding streq
streq-append [] [] t = streq_refl t
streq-append [] (d ∷ b) t = elim (Bool-cases (streq t (d ∷ (b ++ t)))) [
  | inl h ↦ absurd (omega (arith, ap length (streq-same t (d ∷ (b ++ t)) h), length-append b t))
  | inr h ↦ h
]
streq-append (c ∷ a) [] t = elim (Bool-cases (streq (c ∷ (a ++ t)) t)) [
  | inl h ↦ absurd (omega (arith, ap length (streq-same (c ∷ (a ++ t)) t h), length-append a t))
  | inr h ↦ h
]
streq-append (c ∷ a) (d ∷ b) t = rw (streq-append a b t)

-- An interface name fits in the pattern.
pub streq-pattern_of :
    (a b : Text) → length a ≤ 15 → length b ≤ 15 → streq (pattern_of a) (pattern_of b) ≡ streq a b
streq-pattern_of a b ha hb =
    rw
      (
        take-all 17 (a ++ codes ".+") (omega (arith, length-append a (codes ".+"), ha)),
        take-all 17 (b ++ codes ".+") (omega (arith, length-append b (codes ".+"), hb)),
      )
      (streq-append a b (codes ".+"))

abbrev Quiet : Text → List Text → Type 0
Quiet binary args =
    (g : Hook) (q : Text)
    → (same_args args (jump binary (codes "-I") g q) ≡ false)
      × (same_args args (jump binary (codes "-D") g q) ≡ false)

chain_args-Quiet : (binary table op chain : Text) → Quiet binary (chain_args binary table op chain)
unfolding same_args streq
chain_args-Quiet binary table op chain g q = (ground arith, ground arith)

multicast_args-Quiet : (binary : Text) → Quiet binary (multicast_args binary)
unfolding same_args streq
multicast_args-Quiet binary g q = (ground arith, ground arith)

drop_in_args-Quiet : (binary : Text) → Quiet binary (drop_in_args binary)
unfolding same_args streq
drop_in_args-Quiet binary g q = (ground arith, ground arith)

drop_out_args-Quiet : (binary : Text) → Quiet binary (drop_out_args binary)
unfolding same_args streq
drop_out_args-Quiet binary g q = (ground arith, ground arith)

in_args-Quiet : (binary op pattern mac : Text) → Quiet binary (in_args binary op pattern mac)
unfolding same_args streq
in_args-Quiet binary op pattern mac g q = (ground arith, ground arith)

out_args-Quiet :
    (binary pattern mac : Text)
    → Quiet binary (out_args binary (codes "-I") pattern mac)
      × Quiet binary (out_args binary (codes "-D") pattern mac)
unfolding same_args streq
out_args-Quiet binary pattern mac =
    (λ g q. (ground arith, ground arith), λ g q. (ground arith, ground arith))

-- Whichever branch is taken.
if_both : {A : Type 0} (P : A → Type 0) (c : Bool) (x y : A) → P x → P y → P (if c then x else y)
if_both P true x y p q = p
if_both P false x y p q = q

module _ (binary : Text) (answer : Log → List Text → Bool) where
  -- The functions that insert and delete no jump.
  pub record Keeps (f : Log → Log × Bool) : Type 0 where
    pub keeps :
        (q : Text) (g : Hook) (n : ℕ) (log : Log)
        → Installed binary q g n log
        → Installed binary q g n (f log).0

  helper_exec-Keeps :
      (args : List Text) → Quiet binary args → Keeps (helper_exec binary answer args)
  unfolding helper_exec Installed executed
  helper_exec-Keeps args k = record {
    keeps = λ q g n log i. let (a, b) = k g q in rw (executed, a, b) (ground (arith, i));
  }

  then_exec-Keeps : (f f' : Log → Log × Bool) → Keeps f → Keeps f' → Keeps (then_exec f f')
  unfolding then_exec
  then_exec-Keeps f f' k k' = record {
    keeps = λ q g n log i. elim (Bool-cases ((f log).1)) [
      | inl e ↦ rw e (k'.keeps q g n (f log).0 (k.keeps q g n log i))
      | inr e ↦ rw e (k.keeps q g n log i)
    ];
  }

  also_exec-Keeps : (f f' : Log → Log × Bool) → Keeps f → Keeps f' → Keeps (also_exec f f')
  unfolding also_exec
  also_exec-Keeps f f' k k' = record {
    keeps = λ q g n log i. k'.keeps q g n (f log).0 (k.keeps q g n log i);
  }

  chain_cmd-Keeps : (table op chain : Text) → Keeps (chain_cmd binary answer table op chain)
  unfolding chain_cmd
  chain_cmd-Keeps table op chain = record {
    keeps =
        (helper_exec-Keeps (chain_args binary table op chain)
          (chain_args-Quiet binary table op chain)).keeps;
  }

  chain_defaults-Keeps : Keeps (chain_defaults binary answer)
  unfolding chain_defaults
  chain_defaults-Keeps = record {
    keeps =
        (then_exec-Keeps _ _
          (helper_exec-Keeps (multicast_args binary) (multicast_args-Quiet binary))
          (then_exec-Keeps _ _ (helper_exec-Keeps (drop_in_args binary) (drop_in_args-Quiet binary))
            (helper_exec-Keeps (drop_out_args binary) (drop_out_args-Quiet binary)))).keeps;
  }

  pub reset-Keeps : Keeps (iface_ebtables_reset binary answer)
  unfolding iface_ebtables_reset
  reset-Keeps = record {
    keeps =
        (then_exec-Keeps _ _ (chain_cmd-Keeps (codes "nat") (codes "-F") (codes "SOFTGRE_IN")) (
          then_exec-Keeps _ _ (chain_cmd-Keeps (codes "filter") (codes "-F") (codes "SOFTGRE_OUT"))
            chain_defaults-Keeps)).keeps;
  }

  pub end-Keeps :
      (b : Bool) (q : Text) (g : Hook) (n : ℕ) (log : Log)
      → Installed binary q g n log
      → Installed binary q g n (iface_ebtables_end binary answer (b, log)).0.1
  unfolding iface_ebtables_end
  end-Keeps false q g n log i = i
  end-Keeps true q g n log i =
      (also_exec-Keeps _ _
          (also_exec-Keeps _ _ (chain_cmd-Keeps (codes "nat") (codes "-F") (codes "SOFTGRE_IN"))
            (chain_cmd-Keeps (codes "filter") (codes "-F") (codes "SOFTGRE_OUT")))
          (also_exec-Keeps _ _ (chain_cmd-Keeps (codes "nat") (codes "-X") (codes "SOFTGRE_IN"))
            (chain_cmd-Keeps (codes "filter") (codes "-X") (codes "SOFTGRE_OUT")))).keeps
        q g n log i

  add_defaults-Keeps :
      (q : Text) (g : Hook) (n : ℕ) (log : Log)
      → Installed binary q g n log
      → Installed binary q g n (add_defaults binary answer log).0.1
  unfolding add_defaults
  add_defaults-Keeps q g n log i =
      let d = chain_defaults binary answer log in
      let k = chain_defaults-Keeps.keeps q g n log i in
      elim (Bool-cases d.1) [ inl e ↦ rw e k | inr e ↦ rw e (end-Keeps true q g n d.0 k) ]

  pub init-Keeps :
      (b : Bool) (q : Text) (g : Hook) (n : ℕ) (log : Log)
      → Installed binary q g n log
      → Installed binary q g n (iface_ebtables_init binary answer (b, log)).0.1
  unfolding iface_ebtables_init
  init-Keeps b q g n log i =
      let r1 = chain_cmd binary answer (codes "nat") (codes "-N") (codes "SOFTGRE_IN") log in
      let r2 = chain_cmd binary answer (codes "filter") (codes "-N") (codes "SOFTGRE_OUT") r1.0 in
      let k1 =
        (chain_cmd-Keeps (codes "nat") (codes "-N") (codes "SOFTGRE_IN")).keeps q g n log i in
      let k2 =
        (chain_cmd-Keeps (codes "filter") (codes "-N") (codes "SOFTGRE_OUT")).keeps q g n r1.0 k1 in
      let k3 =
        (chain_cmd-Keeps (codes "nat") (codes "-X") (codes "SOFTGRE_IN")).keeps q g n r2.0 k2 in
      let r3 = chain_cmd binary answer (codes "nat") (codes "-X") (codes "SOFTGRE_IN") r2.0 in
      let d = add_defaults binary answer r2.0 in
      let P = λ (x : (Bool × Log) × Bool). Installed binary q g n x.0.1 in
      if_both P (not r1.1) ((b, r1.0), false) (if not r2.1 then ((b, r3.0), false) else d) k1
        (if_both P (not r2.1) ((b, r3.0), false) d k3 (add_defaults-Keeps q g n r2.0 k2))

  pub allow-Keeps : (name mac : Text) → Keeps (iface_ebtables_allow binary answer name mac)
  unfolding iface_ebtables_allow
  allow-Keeps name mac = record {
    keeps = λ q g n log i.
        let p = pattern_of name in
        let r1 = helper_exec binary answer (in_args binary (codes "-I") p mac) log in
        let r2 = helper_exec binary answer (out_args binary (codes "-I") p mac) r1.0 in
        let k1 =
          (helper_exec-Keeps (in_args binary (codes "-I") p mac)
              (in_args-Quiet binary (codes "-I") p mac)).keeps
            q g n log i in
        let k2 =
          (helper_exec-Keeps (out_args binary (codes "-I") p mac)
              (out_args-Quiet binary p mac).0).keeps
            q g n r1.0 k1 in
        let k3 =
          (helper_exec-Keeps (in_args binary (codes "-D") p mac)
              (in_args-Quiet binary (codes "-D") p mac)).keeps
            q g n r2.0 k2 in
        let r3 = helper_exec binary answer (in_args binary (codes "-D") p mac) r2.0 in
        let P = λ (x : Log × Bool). Installed binary q g n x.0 in
        if_both P (not r1.1) (r1.0, false) (if not r2.1 then (r3.0, false) else (r2.0, true)) k1
          (if_both P (not r2.1) (r3.0, false) (r2.0, true) k3 k2);
  }

  pub revoke-Keeps : (name mac : Text) → Keeps (iface_ebtables_revoke binary answer name mac)
  unfolding iface_ebtables_revoke
  revoke-Keeps name mac = record {
    keeps = λ q g n log i.
        let p = pattern_of name in
        let r1 = helper_exec binary answer (in_args binary (codes "-D") p mac) log in
        (helper_exec-Keeps (out_args binary (codes "-D") p mac)
            (out_args-Quiet binary p mac).1).keeps
          q g n r1.0
          ((helper_exec-Keeps (in_args binary (codes "-D") p mac)
              (in_args-Quiet binary (codes "-D") p mac)).keeps
            q g n log i);
  }
