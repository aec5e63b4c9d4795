-- ===== src/Service/Commands.antt =====
-- src/service_cmd.c: `service_command`, with the tables of src/provision.c that it reads.
pub mod Answers
pub mod Located
use softgre.Shared.{
  ℕ, ◌+◌, ◌≡◌, Bool, true, false, not, ◌&&◌, ◌||◌, List, [], ◌∷◌, ◌++◌, map, Option, none, some,
  leb, ltb, ◌==◌, if◌then◌else◌, length, Run, ok, fault, ◌>>=◌,
}
use softgre.Maps.{MapOps}
use softgre.Compat.{Text, codes, streq}
use softgre.Compat.StrBuf.{
  StrBuf, Allocator, strbuf_new, strbuf_append, strbuf_append_char, strbuf_appendf, strbuf_assign,
}
use softgre.Netlink.Links.{print_u, tunnel_name}
use softgre.Provision.{Host, State, deref, provision_get_tunnel_byip, provision_get_tunnel_by_mac}
use softgre.Provision.Cleanup.{entry_of}
use softgre.Service.{valid_mac}

abbrev pub service_max_request : ℕ
service_max_request = 256

-- The addresses in text of the C library, the settings, and what the system tells of itself; times
-- are not negative.
pub record Site : Type 0 where
  pub inet_pton : Text → Option ℕ
  pub inet_ntop : ℕ → Text
  pub tunnel_prefix : Text
  pub package_version : Text
  pub sysname : Text
  pub release : Text
  pub version : Text
  pub machine : Text
  pub uptime : ℕ
  pub started_time : ℕ

-- `" \t\r\n"`
abbrev pub is_separator : ℕ → Bool
is_separator c = c == 32 || c == 9 || c == 13 || c == 10

abbrev pub cons_first : ℕ → List Text → List Text
cons_first c [] = (c ∷ []) ∷ []
cons_first c (word ∷ words) = (c ∷ word) ∷ words

-- The texts between separators, with empty ones.
unfoldable pub split_words : Text → List Text
split_words [] = [] ∷ []
split_words (c ∷ s) =
    let rest = split_words s in if is_separator c then [] ∷ rest else cons_first c rest

unfoldable pub drop_empty : List Text → List Text
drop_empty [] = []
drop_empty ([] ∷ words) = drop_empty words
drop_empty ((c ∷ word) ∷ words) = (c ∷ word) ∷ drop_empty words

-- What the calls of `strtok_r` return one after the other.
unfoldable pub tokens : Text → List Text
unfolding split_words drop_empty
tokens command = drop_empty (split_words command)

-- `compare_mac` with a result of at most 0.
unfoldable pub compare_mac : Text → Text → Bool
compare_mac [] t = true
compare_mac (a ∷ s) [] = false
compare_mac (a ∷ s) (b ∷ t) = ltb a b || a == b && compare_mac s t

unfoldable pub insert_sorted : Text → List Text → List Text
unfolding compare_mac
insert_sorted mac [] = mac ∷ []
insert_sorted mac (m ∷ macs) =
    let rest = insert_sorted mac macs in if compare_mac mac m then mac ∷ m ∷ macs else m ∷ rest

-- `qsort` with `compare_mac`: no two of the MACs are equal, so that the order is the only one.
unfoldable pub sort_macs : List Text → List Text
unfolding insert_sorted
sort_macs [] = []
sort_macs (mac ∷ macs) = insert_sorted mac (sort_macs macs)

abbrev pub separator_of : List Text → Text
separator_of [] = 10 ∷ []
separator_of (mac ∷ macs) = b';' ∷ []

module _ (alloc : Allocator) where
  -- The loop of `LMIP`.
  unfoldable pub list_macs : StrBuf → List Text → Run StrBuf
  unfolding strbuf_appendf
  list_macs out [] = ok out
  list_macs out (mac ∷ macs) = do
    out' ← strbuf_appendf alloc out (mac ++ separator_of macs)
    list_macs out' macs

  -- `goto invalid`
  unfoldable pub invalid : StrBuf → Run StrBuf
  unfolding strbuf_assign
  invalid out =
      strbuf_assign alloc out (codes "RESULT: INVALID\nBODY: Use HELP for command syntax\n")

  abbrev pub not_found : StrBuf → Run StrBuf
  not_found out = strbuf_append alloc out (codes "RESULT: NOTFOUND\n")

abbrev pub help_text : Text
help_text =
    codes "HELP - command list\nVERS - version\nQUIT - close\n"
    ++ codes "LMIP <IPv4> - list MACs\nGTMC <MAC> - find tunnel\n"
    ++ codes "STUN - list tunnels\nSTAT - system status\n"

abbrev pub body : Text → Text
body text = codes "RESULT: OK\nBODY: " ++ text

module _ (site : Site) where
  abbrev pub at_tunnel : ℕ → ℕ → Text
  at_tunnel remote id = site.inet_ntop remote ++ (b'@' ∷ tunnel_name site.tunnel_prefix id)

  abbrev pub status_text : Text
  status_text =
      site.sysname
      ++ (32 ∷ site.release)
      ++ (b';' ∷ site.version)
      ++ (b';' ∷ site.machine)
      ++ (b';' ∷ print_u 20 site.uptime)
      ++ (b';' ∷ site.package_version)
      ++ (b';' ∷ print_u 20 site.started_time)
      ++ (10 ∷ [])

module _ {T X S W : Type 0} ⦃tun : MapOps ℕ ℕ T⦄ ⦃idx : MapOps (List ℕ) ℕ X⦄
    ⦃set : MapOps (List ℕ) (Unit {0}) S⦄ ⦃host : Host W⦄ (alloc : Allocator) (site : Site) where
  unfoldable pub lmip : State T X S W → StrBuf → Text → Run StrBuf
  unfolding list_macs sort_macs invalid provision_get_tunnel_byip
  lmip s out arg = elim (site.inet_pton arg) [
    | none ↦ invalid alloc out
    | some addr ↦ elim (provision_get_tunnel_byip s addr) [
      | none ↦ not_found alloc out
      | some p ↦ do
        t ← deref s p
        out1 ← strbuf_append alloc out (body [])
        let macs = sort_macs (set.keys t.macs)
        out2 ← list_macs alloc out1 macs
        if length macs == 0 then strbuf_append_char alloc out2 10 else ok out2
    ]
  ]

  unfoldable pub gtmc : State T X S W → StrBuf → Text → Run StrBuf
  unfolding invalid valid_mac provision_get_tunnel_by_mac strbuf_appendf
  gtmc s out arg = elim (valid_mac arg) [
    | none ↦ invalid alloc out
    | some mac ↦ elim (provision_get_tunnel_by_mac s mac) [
      | none ↦ not_found alloc out
      | some p ↦ do
        t ← deref s p
        strbuf_appendf alloc out (body (at_tunnel site t.ip_remote t.id ++ (10 ∷ [])))
    ]
  ]

  -- The loop of `STUN` over the keys of the table.
  unfoldable pub list_tunnels : State T X S W → StrBuf → List ℕ → Run StrBuf
  unfolding strbuf_appendf
  list_tunnels s out [] = ok out
  list_tunnels s out (remote ∷ remotes) = do
    p ← entry_of s remote
    t ← deref s p
    out' ← strbuf_appendf alloc out (at_tunnel site t.ip_remote t.id ++ (b';' ∷ []))
    list_tunnels s out' remotes

  -- `table` is not null between the start of provisioning and its end.
  unfoldable pub stun : State T X S W → StrBuf → Run StrBuf
  unfolding list_tunnels strbuf_append strbuf_append_char
  stun s out =
      if tun.size s.tables.tunnels == 0
      then strbuf_append alloc out (codes "RESULT: NULL\n")
      else do
        out1 ← strbuf_append alloc out (body [])
        out2 ← list_tunnels s out1 (tun.keys s.tables.tunnels)
        strbuf_append_char alloc out2 10

  -- A command without an argument.
  unfoldable pub plain_command : State T X S W → StrBuf → Text → Run StrBuf
  unfolding stun invalid strbuf_append strbuf_appendf streq
  plain_command s out cmd =
      if streq cmd (codes "VERS")
      then strbuf_appendf alloc out (body (site.package_version ++ (10 ∷ [])))
      else if streq cmd (codes "QUIT")
      then ok out
      else if streq cmd (codes "HELP")
      then strbuf_append alloc out help_text
      else if streq cmd (codes "STAT")
      then strbuf_appendf alloc out (body (status_text site))
      else if streq cmd (codes "STUN")
      then stun s out
      else invalid alloc out

  -- From the words of the command on.
  unfoldable pub run_command : State T X S W → StrBuf → List Text → Run StrBuf
  unfolding lmip gtmc plain_command invalid streq
  run_command s out [] = invalid alloc out
  run_command s out (cmd ∷ []) =
      if streq cmd (codes "LMIP") || streq cmd (codes "GTMC")
      then invalid alloc out
      else plain_command s out cmd
  run_command s out (cmd ∷ arg ∷ []) =
      if streq cmd (codes "LMIP")
      then lmip s out arg
      else if streq cmd (codes "GTMC")
      then gtmc s out arg
      else invalid alloc out
  run_command s out (cmd ∷ arg ∷ more ∷ words) = invalid alloc out

  -- The copy of a command that is short enough is the whole of it.
  unfoldable pub service_command : State T X S W → Text → Run StrBuf
  unfolding strbuf_new run_command tokens invalid
  service_command s command = do
    out ← strbuf_new alloc
    if leb service_max_request (length command)
        then invalid alloc out
        else run_command s out (tokens command)
