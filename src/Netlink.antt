-- ===== src/Netlink.antt =====
-- src/iface_gre.c and src/iface_bridge.c: the requests that go to the kernel by netlink. A request's
-- `bytes` are those behind the two headers up to `nlmsg_len`; the buffer behind them is zero. Numbers
-- are stored as on a little-endian host.
pub mod Attributes
pub mod Requests
pub mod Decode
pub mod RoundTrip
pub mod Links
pub mod Names
pub mod Replies
use softgre.Shared.{
  ℕ, zero, suc, ◌+◌, ◌-◌, ◌*◌, ◌/◌, ◌%◌, Bool, true, false, List, [], ◌∷◌, ◌++◌, Option, none, some,
  ltb, ◌==◌, if◌then◌else◌, length, replicate, set,
}
use softgre.Compat.{Text, codes}

infixl 5 ◌>>=◌
abbrev pub ◌>>=◌ {ℓ κ} : {A : Type ℓ} {B : Type κ} → Option A → (A → Option B) → Option B
none >>= next = none
some a >>= next = next a

-- `struct link_request`: the fields that are set, and the attributes.
pub record LinkRequest : Type 0 where
  pub nlmsg_type : ℕ
  pub nlmsg_flags : ℕ
  pub ifi_index : ℕ
  pub ifi_flags : ℕ
  pub ifi_change : ℕ
  pub bytes : List ℕ

-- The constants of the kernel's interface.
abbrev pub rtm_newlink : ℕ
rtm_newlink = 16

abbrev pub rtm_dellink : ℕ
rtm_dellink = 17

-- NLM_F_REQUEST | NLM_F_ACK
abbrev pub request_ack : ℕ
request_ack = 5

-- NLM_F_CREATE | NLM_F_EXCL
abbrev pub create_excl : ℕ
create_excl = 0x600

abbrev pub nla_f_nested : ℕ
nla_f_nested = 0x8000

abbrev pub ifla_ifname : ℕ
ifla_ifname = 3

abbrev pub ifla_link : ℕ
ifla_link = 5

abbrev pub ifla_master : ℕ
ifla_master = 10

abbrev pub ifla_linkinfo : ℕ
ifla_linkinfo = 18

abbrev pub ifla_info_kind : ℕ
ifla_info_kind = 1

abbrev pub ifla_info_data : ℕ
ifla_info_data = 2

abbrev pub ifla_gre_link : ℕ
ifla_gre_link = 1

abbrev pub ifla_gre_local : ℕ
ifla_gre_local = 6

abbrev pub ifla_gre_remote : ℕ
ifla_gre_remote = 7

abbrev pub ifla_gre_pmtudisc : ℕ
ifla_gre_pmtudisc = 10

abbrev pub ifla_vlan_id : ℕ
ifla_vlan_id = 1

-- `sizeof(struct link_request)`, and its part before the attributes.
abbrev pub request_size : ℕ
request_size = 1056

abbrev pub headers_size : ℕ
headers_size = 32

-- NLMSG_ALIGN and RTA_ALIGN
abbrev pub align : ℕ → ℕ
align n = (n + 3) / 4 * 4

unfoldable pub u16 : ℕ → List ℕ
u16 n = n % 256 ∷ n / 256 % 256 ∷ []

unfoldable pub u32 : ℕ → List ℕ
u32 n = n % 256 ∷ n / 256 % 256 ∷ n / 65536 % 256 ∷ n / 16777216 % 256 ∷ []

-- An address, in network order.
unfoldable pub s_addr : ℕ → List ℕ
s_addr n = n / 16777216 % 256 ∷ n / 65536 % 256 ∷ n / 256 % 256 ∷ n % 256 ∷ []

-- A text with its NUL.
abbrev pub c_string : Text → List ℕ
c_string t = t ++ 0 ∷ []

unfoldable pub link_request_init : ℕ → ℕ → ℕ → LinkRequest
link_request_init type flags index = record {
  nlmsg_type = type;
  nlmsg_flags = request_ack + flags;
  ifi_index = index;
  ifi_flags = 0;
  ifi_change = 0;
  bytes = [];
}

-- `ifi_flags = IFF_UP; ifi_change = IFF_UP;`
abbrev pub set_up : LinkRequest → LinkRequest
set_up req = record req { ifi_flags = 1; ifi_change = 1 }

abbrev pub nlmsg_len : LinkRequest → ℕ
nlmsg_len req = headers_size + length req.bytes

-- `none` is EMSGSIZE.
unfoldable pub link_attr : LinkRequest → ℕ → List ℕ → Option LinkRequest
unfolding u16 replicate
link_attr req type payload =
    let start = align (nlmsg_len req) in
    let size = 4 + length payload in
    if ltb request_size (start + align size)
    then none
    else some (record req {
      bytes =
          req.bytes
          ++ (replicate (start - nlmsg_len req) 0
              ++ (u16 size ++ (u16 type ++ (payload ++ replicate (align size - size) 0))));
    })

-- The result has the place of the attribute in `bytes`.
unfoldable pub link_nest : LinkRequest → ℕ → Option (LinkRequest × ℕ)
unfolding link_attr
link_nest req type = do
  req' ← link_attr req (type + nla_f_nested) []
  some (req', align (nlmsg_len req) - headers_size)

-- `rta_len` of the attribute becomes the distance to the end.
unfoldable pub link_nest_end : LinkRequest → ℕ → LinkRequest
unfolding set
link_nest_end req attr =
    let rta_len = length req.bytes - attr in
    record req { bytes = set (set req.bytes attr (rta_len % 256)) (attr + 1) (rta_len / 256 % 256) }

-- The request of `iface_gre_add`.
unfoldable pub gre_request : Text → Text → ℕ → ℕ → ℕ → Option LinkRequest
unfolding link_request_init link_attr link_nest link_nest_end u32 s_addr
gre_request name kind index local remote = do
  r1 ← link_attr (set_up (link_request_init rtm_newlink create_excl 0)) ifla_ifname (c_string name)
  (r2, info) ← link_nest r1 ifla_linkinfo
  r3 ← link_attr r2 ifla_info_kind (c_string kind)
  (r4, inner) ← link_nest r3 ifla_info_data
  r5 ← link_attr r4 ifla_gre_link (u32 index)
  r6 ← link_attr r5 ifla_gre_local (s_addr local)
  r7 ← link_attr r6 ifla_gre_remote (s_addr remote)
  r8 ← link_attr r7 ifla_gre_pmtudisc (0 ∷ [])
  some (link_nest_end (link_nest_end r8 inner) info)

-- The request of `iface_bridge_prepare` for a new bridge.
unfoldable pub bridge_request : Text → Option LinkRequest
unfolding link_request_init link_attr link_nest link_nest_end
bridge_request name = do
  r1 ← link_attr (set_up (link_request_init rtm_newlink create_excl 0)) ifla_ifname (c_string name)
  (r2, info) ← link_nest r1 ifla_linkinfo
  r3 ← link_attr r2 ifla_info_kind (c_string (codes "bridge"))
  some (link_nest_end r3 info)

-- The request of `iface_bridge_attach` for a VLAN interface.
unfoldable pub vlan_request : Text → ℕ → ℕ → Option LinkRequest
unfolding link_request_init link_attr link_nest link_nest_end u32 u16
vlan_request name parent vlan = do
  r1 ← link_attr (set_up (link_request_init rtm_newlink create_excl 0)) ifla_ifname (c_string name)
  r2 ← link_attr r1 ifla_link (u32 parent)
  (r3, info) ← link_nest r2 ifla_linkinfo
  r4 ← link_attr r3 ifla_info_kind (c_string (codes "vlan"))
  (r5, inner) ← link_nest r4 ifla_info_data
  r6 ← link_attr r5 ifla_vlan_id (u16 vlan)
  some (link_nest_end (link_nest_end r6 inner) info)

-- The request of `set_master`.
unfoldable pub master_request : ℕ → ℕ → Option LinkRequest
unfolding link_request_init link_attr u32
master_request index master =
    link_attr (set_up (link_request_init rtm_newlink 0 index)) ifla_master (u32 master)
