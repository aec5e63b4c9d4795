-- ===== src/Ebtables.antt =====
-- src/iface_ebtables.c. The program that `helper_exec` runs is outside: what it answers is a
-- parameter, any function of the commands so far, and the state is the list of these with their
-- answers, the newest first. The result 0 of a function is `true`.
pub mod Rules
pub mod Hooks
pub mod Quiet
pub mod Runs
pub mod Results
use softgre.Shared.{
  ℕ, ◌+◌, ◌≡◌, Bool, true, false, not, ◌&&◌, List, [], ◌∷◌, ◌++◌, Option, none, some, take,
  if◌then◌else◌,
}
use softgre.Compat.{Text, codes, streq}

abbrev pub Log : Type 0
Log = List (List Text × Bool)

-- A row of `hooks`.
pub record Hook : Type 0 where
  pub table : Text
  pub chain : Text
  pub direction : Text
  pub target : Text

abbrev pub hooks : List Hook
hooks =
    record {
      table = codes "nat";
      chain = codes "PREROUTING";
      direction = codes "-i";
      target = codes "SOFTGRE_IN";
    }
    ∷ record {
      table = codes "filter";
      chain = codes "FORWARD";
      direction = codes "-o";
      target = codes "SOFTGRE_OUT";
    }
    ∷ record {
      table = codes "filter";
      chain = codes "OUTPUT";
      direction = codes "-o";
      target = codes "SOFTGRE_OUT";
    }
    ∷ []

-- `pattern`, a buffer of IFNAMSIZ + 2 bytes.
abbrev pub pattern_of : Text → Text
pattern_of name = take 17 (name ++ codes ".+")

-- The two arguments for a MAC, if there is one.
abbrev pub mac_args : Option (Text × Text) → List Text → List Text
mac_args none rest = rest
mac_args (some (mac_direction, mac)) rest = mac_direction ∷ mac ∷ rest

-- Whether a bit of `installed` is set.
unfoldable pub any_installed : List Bool → Bool
any_installed [] = false
any_installed (true ∷ bits) = true
any_installed (false ∷ bits) = any_installed bits

-- The result of the loop with a bit before it.
abbrev pub with_bit : Bool → (Log × List Bool) × Bool → (Log × List Bool) × Bool
with_bit b ((log, bits), ok) = ((log, b ∷ bits), ok)

-- `a || b` of two results: the second is run if the first returned 0.
unfoldable pub then_exec : (Log → Log × Bool) → (Log → Log × Bool) → Log → Log × Bool
then_exec first second log = let (log', ok) = first log in if ok then second log' else (log', false)

-- `a | b`: both are run. C leaves their order open, and here it is the one in which they stand.
unfoldable pub also_exec : (Log → Log × Bool) → (Log → Log × Bool) → Log → Log × Bool
also_exec first second log =
    let (log1, a) = first log in let (log2, b) = second log1 in (log2, a && b)

module _ (binary : Text) where
  abbrev pub chain_args : Text → Text → Text → List Text
  chain_args table op chain = binary ∷ codes "-t" ∷ table ∷ op ∷ chain ∷ []

  abbrev pub rule_args : Text → Text → Text → Text → Text → Option (Text × Text) → Text → List Text
  rule_args table op chain direction name mac target =
      binary
      ∷ codes "-t"
      ∷ table
      ∷ op
      ∷ chain
      ∷ direction
      ∷ name
      ∷ mac_args mac (codes "-j" ∷ target ∷ [])

  abbrev pub multicast_args : List Text
  multicast_args =
      binary
      ∷ codes "-A"
      ∷ codes "SOFTGRE_OUT"
      ∷ codes "-d"
      ∷ codes "01:00:00:00:00:00/01:00:00:00:00:00"
      ∷ codes "-j"
      ∷ codes "ACCEPT"
      ∷ []

  abbrev pub drop_in_args : List Text
  drop_in_args =
      binary
      ∷ codes "-t"
      ∷ codes "nat"
      ∷ codes "-A"
      ∷ codes "SOFTGRE_IN"
      ∷ codes "-j"
      ∷ codes "DROP"
      ∷ []

  abbrev pub drop_out_args : List Text
  drop_out_args = binary ∷ codes "-A" ∷ codes "SOFTGRE_OUT" ∷ codes "-j" ∷ codes "DROP" ∷ []

  -- The command for a hook and a pattern.
  abbrev pub jump : Text → Hook → Text → List Text
  jump op h pattern = rule_args h.table op h.chain h.direction pattern none h.target

  -- The commands for a MAC on the ingress and the egress side.
  abbrev pub in_args : Text → Text → Text → List Text
  in_args op pattern mac =
      binary
      ∷ codes "-t"
      ∷ codes "nat"
      ∷ op
      ∷ codes "SOFTGRE_IN"
      ∷ codes "-i"
      ∷ pattern
      ∷ codes "-s"
      ∷ mac
      ∷ codes "-j"
      ∷ codes "ACCEPT"
      ∷ []

  abbrev pub out_args : Text → Text → Text → List Text
  out_args op pattern mac =
      binary
      ∷ op
      ∷ codes "SOFTGRE_OUT"
      ∷ codes "-o"
      ∷ pattern
      ∷ codes "-d"
      ∷ mac
      ∷ codes "-j"
      ∷ codes "ACCEPT"
      ∷ []

module _ (binary : Text) (answer : Log → List Text → Bool) where
  unfoldable pub helper_exec : List Text → Log → Log × Bool
  helper_exec args log = ((args, answer log args) ∷ log, answer log args)

  unfoldable pub chain_cmd : Text → Text → Text → Log → Log × Bool
  unfolding helper_exec
  chain_cmd table op chain log = helper_exec (chain_args binary table op chain) log

  unfoldable pub rule :
      Text → Text → Text → Text → Text → Option (Text × Text) → Text → Log → Log × Bool
  unfolding helper_exec
  rule table op chain direction name mac target log =
      helper_exec (rule_args binary table op chain direction name mac target) log

  unfoldable pub chain_defaults : Log → Log × Bool
  unfolding helper_exec then_exec
  chain_defaults log =
      then_exec (helper_exec (multicast_args binary))
        (then_exec (helper_exec (drop_in_args binary)) (helper_exec (drop_out_args binary))) log

  -- With `initialized` and the log.
  unfoldable pub iface_ebtables_end : Bool × Log → (Bool × Log) × Bool
  unfolding chain_cmd also_exec
  iface_ebtables_end (false, log) = ((false, log), true)
  iface_ebtables_end (true, log) =
      let (log', ret) =
        also_exec
          (also_exec (chain_cmd (codes "nat") (codes "-F") (codes "SOFTGRE_IN"))
            (chain_cmd (codes "filter") (codes "-F") (codes "SOFTGRE_OUT")))
          (also_exec (chain_cmd (codes "nat") (codes "-X") (codes "SOFTGRE_IN"))
            (chain_cmd (codes "filter") (codes "-X") (codes "SOFTGRE_OUT")))
          log in
      ((not ret, log'), ret)

  -- `chain_defaults`, and what follows when it fails.
  unfoldable pub add_defaults : Log → (Bool × Log) × Bool
  unfolding chain_defaults iface_ebtables_end
  add_defaults log =
      let (log', ok) = chain_defaults log in
      if ok then ((true, log'), true) else ((iface_ebtables_end (true, log')).0, false)

  unfoldable pub iface_ebtables_init : Bool × Log → (Bool × Log) × Bool
  unfolding chain_cmd add_defaults
  iface_ebtables_init (initialized, log) =
      let (log1, created_in) = chain_cmd (codes "nat") (codes "-N") (codes "SOFTGRE_IN") log in
      let (log2, created_out) =
        chain_cmd (codes "filter") (codes "-N") (codes "SOFTGRE_OUT") log1 in
      let (log3, undone) = chain_cmd (codes "nat") (codes "-X") (codes "SOFTGRE_IN") log2 in
      if not created_in
      then ((initialized, log1), false)
      else if not created_out
      then ((initialized, log3), false)
      else add_defaults log2

  unfoldable pub iface_ebtables_reset : Log → Log × Bool
  unfolding chain_cmd chain_defaults then_exec
  iface_ebtables_reset log =
      then_exec (chain_cmd (codes "nat") (codes "-F") (codes "SOFTGRE_IN"))
        (then_exec (chain_cmd (codes "filter") (codes "-F") (codes "SOFTGRE_OUT")) chain_defaults)
        log

  -- The loop of `iface_ebtables_add_tunnel` over the hooks, with the bits of `installed` for them.
  unfoldable pub add_hooks : Text → List Hook → List Bool → Log → (Log × List Bool) × Bool
  unfolding rule
  add_hooks pattern [] bits log = ((log, bits), true)
  add_hooks pattern (h ∷ hs) [] log = ((log, []), true)
  add_hooks pattern (h ∷ hs) (true ∷ bits) log = with_bit true (add_hooks pattern hs bits log)
  add_hooks pattern (h ∷ hs) (false ∷ bits) log =
      let (log', ok) = rule h.table (codes "-I") h.chain h.direction pattern none h.target log in
      let rest = add_hooks pattern hs bits log' in
      if ok then with_bit true rest else ((log', false ∷ bits), false)

  unfoldable pub iface_ebtables_add_tunnel : Text → List Bool → Log → (Log × List Bool) × Bool
  unfolding add_hooks
  iface_ebtables_add_tunnel name installed log = add_hooks (pattern_of name) hooks installed log

  -- The loop of `iface_ebtables_del_tunnel`.
  unfoldable pub del_hooks : Text → List Hook → List Bool → Log → Log × List Bool
  unfolding rule
  del_hooks pattern [] bits log = (log, bits)
  del_hooks pattern (h ∷ hs) [] log = (log, [])
  del_hooks pattern (h ∷ hs) (false ∷ bits) log =
      let (log', bits') = del_hooks pattern hs bits log in (log', false ∷ bits')
  del_hooks pattern (h ∷ hs) (true ∷ bits) log =
      let (log1, ok) = rule h.table (codes "-D") h.chain h.direction pattern none h.target log in
      let (log2, bits2) = del_hooks pattern hs bits log1 in (log2, not ok ∷ bits2)

  unfoldable pub iface_ebtables_del_tunnel : Text → List Bool → Log → (Log × List Bool) × Bool
  unfolding del_hooks any_installed
  iface_ebtables_del_tunnel name installed log =
      let (log', installed') = del_hooks (pattern_of name) hooks installed log in
      ((log', installed'), not (any_installed installed'))

  unfoldable pub iface_ebtables_allow : Text → Text → Log → Log × Bool
  unfolding helper_exec
  iface_ebtables_allow name mac log =
      let (log1, a) = helper_exec (in_args binary (codes "-I") (pattern_of name) mac) log in
      let (log2, b) = helper_exec (out_args binary (codes "-I") (pattern_of name) mac) log1 in
      let (log3, undone) = helper_exec (in_args binary (codes "-D") (pattern_of name) mac) log2 in
      if not a then (log1, false) else if not b then (log3, false) else (log2, true)

  unfoldable pub iface_ebtables_revoke : Text → Text → Log → Log × Bool
  unfolding helper_exec
  iface_ebtables_revoke name mac log =
      let (log1, a) = helper_exec (in_args binary (codes "-D") (pattern_of name) mac) log in
      let (log2, b) = helper_exec (out_args binary (codes "-D") (pattern_of name) mac) log1 in
      (log2, a && b)
