-- ===== src/Netlink/Links.antt =====
-- The functions of src/iface_gre.c and src/iface_bridge.c, over a kernel that is a parameter.
use softgre.Shared.{
  ℕ, zero, suc, ◌+◌, ◌/◌, ◌%◌, Bool, not, ◌||◌, [], ◌∷◌, ◌++◌, Option, none, some, ltb, leb, ◌==◌,
  if◌then◌else◌, length,
}
use softgre.Compat.{Text}
use softgre.Provision.{enodev}
use softgre.Settings.{ifnamsiz}
use softgre.Netlink.{
  LinkRequest, set_up, link_request_init, rtm_newlink, rtm_dellink, gre_request, bridge_request,
  vlan_request, master_request,
}

abbrev pub einval : ℕ
einval = 22

abbrev pub emsgsize : ℕ
emsgsize = 90

-- What these functions use of the kernel. `link_send` gives `none` for success and `errno` otherwise;
-- `is_bridge` is `access` on the directory of a bridge.
pub record Kernel (W : Type 0) : Type 0 where
  pub if_nametoindex : W → Text → ℕ
  pub is_bridge : W → Text → Bool
  pub link_send : W → LinkRequest → W × Option ℕ

-- `%u` of a number below `10 ^ digits`.
unfoldable pub print_u : ℕ → ℕ → Text
print_u zero n = []
print_u (suc digits) n =
    let front = print_u digits (n / 10) in
    if ltb n 10 then (48 + n) ∷ [] else front ++ ((48 + n % 10) ∷ [])

-- `ifgre` of a tunnel.
unfoldable pub tunnel_name : Text → ℕ → Text
unfolding print_u
tunnel_name prefix id = prefix ++ print_u 4 id

-- The name of a VLAN interface; `snprintf` returns its length.
unfoldable pub vlan_name : Text → ℕ → Text
unfolding print_u
vlan_name gre vlan = gre ++ (b'.' ∷ print_u 5 vlan)

module _ {W : Type 0} ⦃kernel : Kernel W⦄ where
  -- `return -1` where an attribute does not fit.
  unfoldable pub send_built : W → Option LinkRequest → W × Option ℕ
  send_built w none = (w, some emsgsize)
  send_built w (some req) = kernel.link_send w req

  unfoldable pub iface_gre_add : W → Text → Text → Text → ℕ → ℕ → W × Option ℕ
  unfolding send_built gre_request
  iface_gre_add w name kind dev local remote =
      let index = kernel.if_nametoindex w dev in
      if index == 0
      then (w, some enodev)
      else send_built w (gre_request name kind index local remote)

  unfoldable pub iface_gre_del : W → Text → W × Option ℕ
  unfolding link_request_init
  iface_gre_del w name =
      let index = kernel.if_nametoindex w name in
      if index == 0
      then (w, some enodev)
      else kernel.link_send w (link_request_init rtm_dellink 0 index)

  unfoldable pub set_master : W → ℕ → ℕ → W × Option ℕ
  unfolding send_built master_request
  set_master w index master = send_built w (master_request index master)

  unfoldable pub iface_bridge_prepare : W → Text → Bool → W × Option ℕ
  unfolding send_built bridge_request link_request_init
  iface_bridge_prepare w name create =
      let index = kernel.if_nametoindex w name in
      if not (index == 0)
      then (if not (kernel.is_bridge w name)
          then (w, some einval)
          else kernel.link_send w (set_up (link_request_init rtm_newlink 0 index)))
      else (if not create then (w, some enodev) else send_built w (bridge_request name))

  -- Behind the creation of the interface.
  unfoldable pub attach_created : W × Option ℕ → Text → ℕ → W × Option ℕ
  unfolding set_master
  attach_created (w, some errno) name master = (w, some errno)
  attach_created (w, none) name master = set_master w (kernel.if_nametoindex w name) master

  unfoldable pub iface_bridge_attach : W → Text → Text → ℕ → W × Option ℕ
  unfolding vlan_name send_built vlan_request attach_created
  iface_bridge_attach w gre bridge vlan =
      let name = vlan_name gre vlan in
      let parent = kernel.if_nametoindex w gre in
      let master = kernel.if_nametoindex w bridge in
      if leb ifnamsiz (length name) || parent == 0 || master == 0
      then (w, some einval)
      else attach_created (send_built w (vlan_request name parent vlan)) name master
