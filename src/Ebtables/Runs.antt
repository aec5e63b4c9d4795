-- ===== src/Ebtables/Runs.antt =====
-- Sequences of calls of src/iface_ebtables.c.
use softgre.Shared.{
  ℕ, ◌+◌, ◌≤◌, ◌≡◌, refl, ap, ◌∙◌, Bool, true, false, ◌&&◌, List, [], ◌∷◌, arith, leb,
  if◌then◌else◌, length, Bool-cases, inl, inr,
}
use softgre.Compat.{Text, streq}
use softgre.Ebtables.{
  Log, Hook, hooks, add_hooks, del_hooks, pattern_of, iface_ebtables_init, iface_ebtables_end,
  iface_ebtables_reset, iface_ebtables_add_tunnel, iface_ebtables_del_tunnel, iface_ebtables_allow,
  iface_ebtables_revoke,
}
use softgre.Ebtables.Rules.{executed}
use softgre.Ebtables.Quiet.{
  streq-same, streq-pattern_of, init-Keeps, end-Keeps, reset-Keeps, allow-Keeps, revoke-Keeps,
}
use softgre.Ebtables.Hooks.{
  Installed, Installed-same, bits_of, bits_for, add_hooks-Installed, del_hooks-Installed,
}

-- The calls that provisioning makes; those on tunnels have the name of the interface.
pub data Call : Type 0 where
  init end reset : Call
  add_tunnel del_tunnel : Text → Call
  allow revoke : Text → Text → Call

-- `initialized`, the commands so far, and the bits `installed` of each tunnel.
pub record Firewall : Type 0 where
  pub initialized : Bool
  pub log : Log
  pub installed : Text → List Bool

abbrev pub no_bits : List Bool
no_bits = false ∷ false ∷ false ∷ []

abbrev pub start : Firewall
start = record { initialized = false; log = []; installed = λ name. no_bits }

-- The bits with those of one tunnel replaced.
abbrev pub with_bits : (Text → List Bool) → Text → List Bool → Text → List Bool
with_bits installed name bits other = if streq name other then bits else installed other

module _ (binary : Text) (answer : Log → List Text → Bool) where
  unfoldable pub apply : Call → Firewall → Firewall
  unfolding iface_ebtables_init iface_ebtables_end iface_ebtables_reset iface_ebtables_add_tunnel
      iface_ebtables_del_tunnel iface_ebtables_allow iface_ebtables_revoke
  apply init fw =
      let r = iface_ebtables_init binary answer (fw.initialized, fw.log) in
      record fw { initialized = r.0.0; log = r.0.1 }
  apply end fw =
      let r = iface_ebtables_end binary answer (fw.initialized, fw.log) in
      record fw { initialized = r.0.0; log = r.0.1 }
  apply reset fw = record fw { log = (iface_ebtables_reset binary answer fw.log).0 }
  apply (add_tunnel name) fw =
      let r = iface_ebtables_add_tunnel binary answer name (fw.installed name) fw.log in
      record fw { log = r.0.0; installed = with_bits fw.installed name r.0.1 }
  apply (del_tunnel name) fw =
      let r = iface_ebtables_del_tunnel binary answer name (fw.installed name) fw.log in
      record fw { log = r.0.0; installed = with_bits fw.installed name r.0.1 }
  apply (allow name mac) fw = record fw {
    log = (iface_ebtables_allow binary answer name mac fw.log).0;
  }
  apply (revoke name mac) fw = record fw {
    log = (iface_ebtables_revoke binary answer name mac fw.log).0;
  }

  -- From left to right.
  unfoldable pub run : List Call → Firewall → Firewall
  unfolding apply
  run [] fw = fw
  run (c ∷ calls) fw = run calls (apply c fw)

-- Whether the names in a call are names of interfaces, of 15 bytes at most.
abbrev pub call_fits : Call → Bool
call_fits (add_tunnel name) = leb (length name) 15
call_fits (del_tunnel name) = leb (length name) 15
call_fits c = true

abbrev pub all_fit : List Call → Bool
all_fit [] = true
all_fit (c ∷ calls) = call_fits c && all_fit calls

-- Each set bit of `installed` stands for one jump that was inserted and not deleted since.
unfoldable pub Recorded : Text → Firewall → Type 0
unfolding Installed
Recorded binary fw =
    (name : Text) (g : Hook)
    → length name ≤ 15
    → Installed binary (pattern_of name) g (bits_of g hooks (fw.installed name)) fw.log

if_true : (c : Bool) (x y : ℕ) → c ≡ true → (if c then x else y) ≡ x
if_true c x y e = rw e refl

if_false : (c : Bool) (x y : ℕ) → c ≡ false → (if c then x else y) ≡ y
if_false c x y e = rw e refl

-- What the loop over the hooks of one tunnel does to the counts, for the bits of each tunnel.
with_bits-Installed :
    (binary name other : Text) (g : Hook) (installed : Text → List Bool) (bits : List Bool)
    (log log' : Log)
    → length name ≤ 15
    → length other ≤ 15
    → ((n : ℕ)
        → Installed binary
            (pattern_of other)
            g
            (n + bits_for (pattern_of name) (pattern_of other) g hooks (installed name))
            log
        → Installed binary
            (pattern_of other)
            g
            (n + bits_for (pattern_of name) (pattern_of other) g hooks bits)
            log')
    → Installed binary (pattern_of other) g (bits_of g hooks (installed other)) log
    → Installed binary
        (pattern_of other)
        g
        (bits_of g hooks (with_bits installed name bits other))
        log'
with_bits-Installed binary name other g installed bits log log' fit h k i =
    let q = pattern_of other in
    let p = pattern_of name in
    let s = streq-pattern_of name other fit h in
    elim (Bool-cases (streq name other)) [
      | inl e ↦
          let all = λ (b : List Bool). if_true (streq p q) (bits_of g hooks b) 0 (s ∙ e) in
          let own = ap (λ t. bits_of g hooks (installed t)) (streq-same name other e) in
          rw e (
            Installed-same binary q g log' (omega (arith, all bits))
              (k 0 (Installed-same binary q g log (omega (arith, all (installed name), own)) i)))
      | inr e ↦
          let none_of = λ (b : List Bool). if_false (streq p q) (bits_of g hooks b) 0 (s ∙ e) in
          let n = bits_of g hooks (installed other) in
          rw e (
            Installed-same binary q g log' (omega (arith, none_of bits))
              (k n (Installed-same binary q g log (omega (arith, none_of (installed name))) i)))
    ]

module _ (binary : Text) (answer : Log → List Text → Bool) where
  apply-Recorded :
      (c : Call) (fw : Firewall)
      → call_fits c ≡ true
      → Recorded binary fw
      → Recorded binary (apply binary answer c fw)
  unfolding Recorded apply iface_ebtables_add_tunnel iface_ebtables_del_tunnel
  apply-Recorded (add_tunnel name) fw fit i other g h =
      let p = pattern_of name in
      let r = add_hooks binary answer p hooks (fw.installed name) fw.log in
      with_bits-Installed binary name other g fw.installed r.0.1 fw.log r.0.0 (ground (arith, fit))
        h
        (add_hooks-Installed binary answer p (pattern_of other) g hooks (fw.installed name) fw.log)
        (i other g h)
  apply-Recorded (del_tunnel name) fw fit i other g h =
      let p = pattern_of name in
      let r = del_hooks binary answer p hooks (fw.installed name) fw.log in
      with_bits-Installed binary name other g fw.installed r.1 fw.log r.0 (ground (arith, fit)) h
        (del_hooks-Installed binary answer p (pattern_of other) g hooks (fw.installed name) fw.log)
        (i other g h)
  apply-Recorded init fw fit i other g h =
      init-Keeps binary answer fw.initialized (pattern_of other) g _ fw.log (i other g h)
  apply-Recorded end fw fit i other g h =
      end-Keeps binary answer fw.initialized (pattern_of other) g _ fw.log (i other g h)
  apply-Recorded reset fw fit i other g h =
      (reset-Keeps binary answer).keeps (pattern_of other) g _ fw.log (i other g h)
  apply-Recorded (allow name mac) fw fit i other g h =
      (allow-Keeps binary answer name mac).keeps (pattern_of other) g _ fw.log (i other g h)
  apply-Recorded (revoke name mac) fw fit i other g h =
      (revoke-Keeps binary answer name mac).keeps (pattern_of other) g _ fw.log (i other g h)

  run-Recorded_from :
      (calls : List Call) (fw : Firewall)
      → all_fit calls ≡ true
      → Recorded binary fw
      → Recorded binary (run binary answer calls fw)
  unfolding run
  run-Recorded_from [] fw fit i = i
  run-Recorded_from (c ∷ calls) fw fit i =
      run-Recorded_from calls (apply binary answer c fw) (ground (arith, fit))
        (apply-Recorded c fw (ground (arith, fit)) i)

  start-Recorded : Recorded binary start
  unfolding Recorded Installed executed bits_of
  start-Recorded name g h = refl

  -- After any sequence of calls from the start, on interface names of at most 15 bytes, and whatever
  -- the commands answered: for each name, the jump of each hook has been inserted as often as it has
  -- been deleted, and once more exactly if the bit of the hook is set in `installed`.
  pub run-Recorded :
      (calls : List Call) → all_fit calls ≡ true → Recorded binary (run binary answer calls start)
  run-Recorded calls fit = run-Recorded_from calls start fit start-Recorded
