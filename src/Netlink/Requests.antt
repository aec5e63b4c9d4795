-- ===== src/Netlink/Requests.antt =====
-- The attributes of the requests that src/iface_gre.c and src/iface_bridge.c send.
use mathlib.Core.List.{append_assoc, append-nil}
use softgre.Shared.{
  ℕ, ◌+◌, ◌%◌, ◌≤◌, ◌≡◌, refl, sym, ap, ◌∙◌, List, [], ◌∷◌, ◌++◌, some, arith, length,
  length-append,
}
use softgre.Compat.{Text, codes}
use softgre.Netlink.{
  LinkRequest, u16, u32, s_addr, c_string, link_request_init, link_attr, link_nest, link_nest_end,
  nla_f_nested, ◌>>=◌, rtm_newlink, create_excl, ifla_ifname, ifla_linkinfo, ifla_info_kind,
  ifla_info_data, ifla_gre_link, ifla_gre_local, ifla_gre_remote, ifla_gre_pmtudisc, ifla_link,
  ifla_vlan_id, gre_request, bridge_request, vlan_request,
}
use softgre.Netlink.Attributes.{
  Attr, encode, encode_all, length-encode, length-encode_all, nest_head, link_attr-encode,
  link_nest-nest_head, link_nest_end-encode,
}

abbrev pub attr : ℕ → List ℕ → Attr
attr type payload = record { type = type; payload = payload }

abbrev pub nested : ℕ → List Attr → Attr
nested type attrs = record { type = type + nla_f_nested; payload = encode_all attrs }

-- A request for a new link that is to be up.
abbrev pub new_link : List ℕ → LinkRequest
new_link bytes = record {
  nlmsg_type = rtm_newlink;
  nlmsg_flags = 5 + create_excl;
  ifi_index = 0;
  ifi_flags = 1;
  ifi_change = 1;
  bytes = bytes;
}

-- The bytes so far are whole attributes, and so many at most.
record Filled (bytes : List ℕ) (most : ℕ) : Type 0 where
  whole : length bytes % 4 ≡ 0
  few : length bytes ≤ most

Filled-none : Filled [] 0
Filled-none = record { whole = omega arith; few = omega arith }

Filled-attr :
    (bytes : List ℕ) (most type : ℕ) (payload : List ℕ) (n : ℕ)
    → length payload ≤ n
    → Filled bytes most
    → Filled (bytes ++ encode (attr type payload)) (most + (n + 7))
Filled-attr bytes most type payload n h f =
    let e = length-append bytes (encode (attr type payload)) in
    let (a, b) = length-encode (attr type payload) in
    record { whole = omega (arith, e, a, f.whole); few = omega (arith, e, b, f.few, h) }

Filled-head :
    (bytes : List ℕ) (most type : ℕ)
    → Filled bytes most
    → Filled (bytes ++ nest_head type) (most + 4)
unfolding u16
Filled-head bytes most type f =
    let e = length-append bytes (nest_head type) in
    record { whole = omega (arith, e, f.whole); few = omega (arith, e, f.few) }

module _ (bytes : List ℕ) where
  added :
      (most type : ℕ) (payload : List ℕ) (n : ℕ)
      → length payload ≤ n
      → Filled bytes most
      → most + (n + 7) ≤ 1024
      → link_attr (new_link bytes) type payload
        ≡ some (new_link (bytes ++ encode (attr type payload)))
  added most type payload n h f le =
      link_attr-encode (new_link bytes) type payload f.whole (omega (arith, f.few, h, le))

  begun :
      (most type : ℕ)
      → Filled bytes most
      → most + 7 ≤ 1024
      → link_nest (new_link bytes) type ≡ some (new_link (bytes ++ nest_head type), length bytes)
  begun most type f le =
      link_nest-nest_head (new_link bytes) type f.whole (omega (arith, f.few, le))

encode_all_next :
    (a : Attr) (attrs : List Attr) → encode_all (a ∷ attrs) ≡ encode a ++ encode_all attrs
unfolding encode_all
encode_all_next a attrs = refl

pub encode_all_one : (a : Attr) → encode_all (a ∷ []) ≡ encode a
unfolding encode_all
encode_all_one a = append-nil (encode a)

-- A nested attribute with what has been written behind its head.
ended :
    (bytes before : List ℕ) (type : ℕ) (attrs : List Attr)
    → bytes ≡ before ++ (nest_head type ++ encode_all attrs)
    → link_nest_end (new_link bytes) (length before)
      ≡ new_link (before ++ encode (nested type attrs))
ended bytes before type attrs e =
    link_nest_end-encode (new_link bytes) before (encode_all attrs) type e (length-encode_all attrs)

bridge_request-encode_all :
    (name : Text)
    → length name ≤ 15
    → bridge_request name
      ≡ some (
          new_link (
            encode_all (
              attr ifla_ifname (c_string name)
              ∷ nested ifla_linkinfo (attr ifla_info_kind (c_string (codes "bridge")) ∷ [])
              ∷ [])))
unfolding bridge_request link_request_init
bridge_request-encode_all name h =
    let name_size : length (c_string name) ≤ 16 = omega (arith, length-append name (0 ∷ []), h) in
    let n = attr ifla_ifname (c_string name) in
    let k = attr ifla_info_kind (c_string (codes "bridge")) in
    let b1 = encode n in
    let f1 = Filled-attr [] 0 ifla_ifname (c_string name) 16 name_size Filled-none in
    let b2 = b1 ++ nest_head ifla_linkinfo in
    let f2 = Filled-head b1 23 ifla_linkinfo f1 in
    let written : (b2 ++ encode k) ≡ b1 ++ (nest_head ifla_linkinfo ++ encode_all (k ∷ [])) =
      append_assoc b1 (nest_head ifla_linkinfo) (encode k)
      ∙ ap (λ t. b1 ++ (nest_head ifla_linkinfo ++ t)) (sym (encode_all_one k)) in
    let whole : (b1 ++ encode (nested ifla_linkinfo (k ∷ [])))
        ≡ encode_all (n ∷ nested ifla_linkinfo (k ∷ []) ∷ []) =
      ap (λ t. b1 ++ t) (sym (encode_all_one (nested ifla_linkinfo (k ∷ []))))
      ∙ sym (encode_all_next n (nested ifla_linkinfo (k ∷ []) ∷ [])) in
    rw
      (
        bridge_request,
        added [] 0 ifla_ifname (c_string name) 16 name_size Filled-none (omega arith),
        ◌>>=◌,
        begun b1 23 ifla_linkinfo f1 (omega arith),
        added b2 27 ifla_info_kind (c_string (codes "bridge")) 7 (omega arith) f2 (omega arith),
      )
      (ap some (ended (b2 ++ encode k) b1 ifla_linkinfo (k ∷ []) written ∙ ap new_link whole))

-- Two attributes behind another, as a list.
both_ends : (n a : Attr) → (encode n ++ encode a) ≡ encode_all (n ∷ a ∷ [])
both_ends n a = ap (λ t. encode n ++ t) (sym (encode_all_one a)) ∙ sym (encode_all_next n (a ∷ []))

-- The ends of the inner and of the outer nested attribute.
both_ended :
    (first bytes : List ℕ) (k : Attr) (inner : List Attr)
    → bytes
      ≡ (first ++ nest_head ifla_linkinfo ++ encode k)
        ++ (nest_head ifla_info_data ++ encode_all inner)
    → link_nest_end
        (link_nest_end (new_link bytes) (length (first ++ nest_head ifla_linkinfo ++ encode k)))
        (length first)
      ≡ new_link (first ++ encode (nested ifla_linkinfo (k ∷ nested ifla_info_data inner ∷ [])))
both_ended first bytes k inner e =
    let before = first ++ nest_head ifla_linkinfo ++ encode k in
    let a = nested ifla_info_data inner in
    let outer : (before ++ encode a)
        ≡ first ++ (nest_head ifla_linkinfo ++ encode_all (k ∷ a ∷ [])) =
      append_assoc (first ++ nest_head ifla_linkinfo) (encode k) (encode a)
      ∙ append_assoc first (nest_head ifla_linkinfo) (encode k ++ encode a)
      ∙ ap (λ t. first ++ (nest_head ifla_linkinfo ++ t)) (both_ends k a) in
    ap (λ r. link_nest_end r (length first)) (ended bytes before ifla_info_data inner e)
    ∙ ended (before ++ encode a) first ifla_linkinfo (k ∷ a ∷ []) outer

four_encoded :
    (before : List ℕ) (a b c d : Attr)
    → (before ++ nest_head ifla_info_data ++ encode a ++ encode b ++ encode c ++ encode d)
      ≡ before ++ (nest_head ifla_info_data ++ encode_all (a ∷ b ∷ c ∷ d ∷ []))
four_encoded before a b c d =
    rw (encode_all_next a (b ∷ c ∷ d ∷ []), encode_all_next b (c ∷ d ∷ []), ← both_ends c d)
      (simp append_assoc)

-- The attributes of a tunnel's link.
abbrev pub gre_attrs : Text → Text → ℕ → ℕ → ℕ → List Attr
gre_attrs name kind index local remote =
    attr ifla_ifname (c_string name)
    ∷ nested ifla_linkinfo (
        attr ifla_info_kind (c_string kind)
        ∷ nested ifla_info_data (
            attr ifla_gre_link (u32 index)
            ∷ attr ifla_gre_local (s_addr local)
            ∷ attr ifla_gre_remote (s_addr remote)
            ∷ attr ifla_gre_pmtudisc (0 ∷ [])
            ∷ [])
        ∷ [])
    ∷ []

pub gre_request-encode_all :
    (name kind : Text) (index local remote : ℕ)
    → length name ≤ 15
    → length kind ≤ 15
    → gre_request name kind index local remote
      ≡ some (new_link (encode_all (gre_attrs name kind index local remote)))
unfolding gre_request link_request_init u32 s_addr
gre_request-encode_all name kind index local remote h hk =
    let name_size : length (c_string name) ≤ 16 = omega (arith, length-append name (0 ∷ []), h) in
    let kind_size : length (c_string kind) ≤ 16 = omega (arith, length-append kind (0 ∷ []), hk) in
    let n = attr ifla_ifname (c_string name) in
    let k = attr ifla_info_kind (c_string kind) in
    let l = attr ifla_gre_link (u32 index) in
    let lo = attr ifla_gre_local (s_addr local) in
    let re = attr ifla_gre_remote (s_addr remote) in
    let pm = attr ifla_gre_pmtudisc (0 ∷ []) in
    let inner = l ∷ lo ∷ re ∷ pm ∷ [] in
    let b1 = encode n in
    let f1 = Filled-attr [] 0 ifla_ifname (c_string name) 16 name_size Filled-none in
    let b2 = b1 ++ nest_head ifla_linkinfo in
    let f2 = Filled-head b1 23 ifla_linkinfo f1 in
    let b3 = b2 ++ encode k in
    let f3 = Filled-attr b2 27 ifla_info_kind (c_string kind) 16 kind_size f2 in
    let b4 = b3 ++ nest_head ifla_info_data in
    let f4 = Filled-head b3 50 ifla_info_data f3 in
    let b5 = b4 ++ encode l in
    let f5 = Filled-attr b4 54 ifla_gre_link (u32 index) 4 (omega arith) f4 in
    let b6 = b5 ++ encode lo in
    let f6 = Filled-attr b5 65 ifla_gre_local (s_addr local) 4 (omega arith) f5 in
    let b7 = b6 ++ encode re in
    let f7 = Filled-attr b6 76 ifla_gre_remote (s_addr remote) 4 (omega arith) f6 in
    let b8 = b7 ++ encode pm in
    rw
      (
        gre_request,
        added [] 0 ifla_ifname (c_string name) 16 name_size Filled-none (omega arith),
        ◌>>=◌,
        begun b1 23 ifla_linkinfo f1 (omega arith),
        added b2 27 ifla_info_kind (c_string kind) 16 kind_size f2 (omega arith),
        begun b3 50 ifla_info_data f3 (omega arith),
        added b4 54 ifla_gre_link (u32 index) 4 (omega arith) f4 (omega arith),
        added b5 65 ifla_gre_local (s_addr local) 4 (omega arith) f5 (omega arith),
        added b6 76 ifla_gre_remote (s_addr remote) 4 (omega arith) f6 (omega arith),
        added b7 87 ifla_gre_pmtudisc (0 ∷ []) 1 (omega arith) f7 (omega arith),
      )
      (ap some (
        both_ended b1 b8 k inner (four_encoded b3 l lo re pm)
        ∙ ap new_link (both_ends n (nested ifla_linkinfo (k ∷ nested ifla_info_data inner ∷ [])))))

one_encoded :
    (before : List ℕ) (a : Attr)
    → (before ++ nest_head ifla_info_data ++ encode a)
      ≡ before ++ (nest_head ifla_info_data ++ encode_all (a ∷ []))
one_encoded before a =
    rw (encode_all_one a) (append_assoc before (nest_head ifla_info_data) (encode a))

-- The attributes of a VLAN interface.
abbrev pub vlan_attrs : Text → ℕ → ℕ → List Attr
vlan_attrs name parent vlan =
    attr ifla_ifname (c_string name)
    ∷ attr ifla_link (u32 parent)
    ∷ nested ifla_linkinfo (
        attr ifla_info_kind (c_string (codes "vlan"))
        ∷ nested ifla_info_data (attr ifla_vlan_id (u16 vlan) ∷ [])
        ∷ [])
    ∷ []

vlan_request-encode_all :
    (name : Text) (parent vlan : ℕ)
    → length name ≤ 15
    → vlan_request name parent vlan ≡ some (new_link (encode_all (vlan_attrs name parent vlan)))
unfolding vlan_request link_request_init u32 u16
vlan_request-encode_all name parent vlan h =
    let name_size : length (c_string name) ≤ 16 = omega (arith, length-append name (0 ∷ []), h) in
    let n = attr ifla_ifname (c_string name) in
    let p = attr ifla_link (u32 parent) in
    let k = attr ifla_info_kind (c_string (codes "vlan")) in
    let v = attr ifla_vlan_id (u16 vlan) in
    let a = nested ifla_linkinfo (k ∷ nested ifla_info_data (v ∷ []) ∷ []) in
    let b1 = encode n in
    let f1 = Filled-attr [] 0 ifla_ifname (c_string name) 16 name_size Filled-none in
    let b2 = b1 ++ encode p in
    let f2 = Filled-attr b1 23 ifla_link (u32 parent) 4 (omega arith) f1 in
    let b3 = b2 ++ nest_head ifla_linkinfo in
    let f3 = Filled-head b2 34 ifla_linkinfo f2 in
    let b4 = b3 ++ encode k in
    let f4 = Filled-attr b3 38 ifla_info_kind (c_string (codes "vlan")) 5 (omega arith) f3 in
    let b5 = b4 ++ nest_head ifla_info_data in
    let f5 = Filled-head b4 50 ifla_info_data f4 in
    let whole : (b2 ++ encode a) ≡ encode_all (n ∷ p ∷ a ∷ []) =
      append_assoc b1 (encode p) (encode a)
      ∙ ap (λ t. b1 ++ t) (both_ends p a)
      ∙ sym (encode_all_next n (p ∷ a ∷ [])) in
    rw
      (
        vlan_request,
        added [] 0 ifla_ifname (c_string name) 16 name_size Filled-none (omega arith),
        ◌>>=◌,
        added b1 23 ifla_link (u32 parent) 4 (omega arith) f1 (omega arith),
        begun b2 34 ifla_linkinfo f2 (omega arith),
        added b3 38 ifla_info_kind (c_string (codes "vlan")) 5 (omega arith) f3 (omega arith),
        begun b4 50 ifla_info_data f4 (omega arith),
        added b5 54 ifla_vlan_id (u16 vlan) 2 (omega arith) f5 (omega arith),
      )
      (ap some (both_ended b2 (b5 ++ encode v) k (v ∷ []) (one_encoded b4 v) ∙ ap new_link whole))

-- For names of at most 15 bytes no request is too long, and the bytes of each are the attributes that
-- the kernel's manual asks for: those of a tunnel with its name, kind, link, addresses and no path MTU
-- discovery; of a bridge with its name and kind; and of a VLAN interface with its name, parent and
-- VLAN.
pub requests-encode_all :
    (name kind : Text) (index local remote parent vlan : ℕ)
    → length name ≤ 15
    → length kind ≤ 15
    → (gre_request name kind index local remote
        ≡ some (new_link (encode_all (gre_attrs name kind index local remote))))
      × (bridge_request name
          ≡ some (
              new_link (
                encode_all (
                  attr ifla_ifname (c_string name)
                  ∷ nested ifla_linkinfo (attr ifla_info_kind (c_string (codes "bridge")) ∷ [])
                  ∷ []))))
      × (vlan_request name parent vlan ≡ some (new_link (encode_all (vlan_attrs name parent vlan))))
requests-encode_all name kind index local remote parent vlan h hk = (
  gre_request-encode_all name kind index local remote h hk,
  bridge_request-encode_all name h,
  vlan_request-encode_all name parent vlan h,
)
