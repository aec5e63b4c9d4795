-- ===== src/Netlink/Names.antt =====
-- The names of the interfaces that the daemon makes.
use native.Mathlib.Nat.{pow-suc}
use softgre.Provision.Heap.{max_slots}
use softgre.Shared.{
  ℕ, zero, suc, ◌+◌, ◌/◌, ◌%◌, ◌^◌, ◌≤◌, ◌<◌, ◌≡◌, refl, sym, ap, ◌∙◌, true, false, ◌||◌, [], ◌∷◌,
  Option, none, some, arith, ltb, leb, ◌==◌, if◌then◌else◌, length, length-append, Bool-cases, inl,
  inr, lt→ltb, leb→le, leb-false_of_lt,
}
use softgre.Compat.{Text}
use softgre.Settings.Load.{short_prefix}
use softgre.Netlink.Links.{
  print_u, tunnel_name, vlan_name, Kernel, set_master, iface_bridge_attach, einval, send_built,
  attach_created,
}
use softgre.Netlink.{
  LinkRequest, link_request_init, set_up, master_request, rtm_newlink, ifla_master, u32,
}
use softgre.Netlink.Requests.{attr, encode_all_one, vlan_attrs, new_link, requests-encode_all}
use softgre.Netlink.Attributes.{encode_all, link_attr-encode}

-- A number has no more digits than its bound.
length-print_u : (digits k n : ℕ) → n < 10 ^ suc k → length (print_u digits n) ≤ suc k
unfolding print_u
length-print_u zero k n h = omega arith
length-print_u (suc digits) zero n h =
    let small : ltb n 10 ≡ true = lt→ltb n 10 (omega (arith, h, pow-suc 10 0)) in
    rw small (omega arith)
length-print_u (suc digits) (suc k) n h = elim (Bool-cases (ltb n 10)) [
  | inl e ↦ rw e (omega arith)
  | inr e ↦ rw e (
      omega (
        arith,
        length-append (print_u digits (n / 10)) ((48 + n % 10) ∷ []),
        length-print_u digits k (n / 10) (omega (arith, h, pow-suc 10 (suc k))),
      ))
]

short_prefix-length : (prefix : Text) → short_prefix (some prefix) ≡ true → length prefix ≤ 6
short_prefix-length prefix h = leb→le (length prefix) 6 h

length-tunnel_name :
    (prefix : Text) (id : ℕ) → length prefix ≤ 6 → id < 4096 → length (tunnel_name prefix id) ≤ 10
unfolding tunnel_name
length-tunnel_name prefix id h lt =
    omega (arith, length-append prefix (print_u 4 id), length-print_u 4 3 id (omega arith), h)

length-vlan_name :
    (gre : Text) (vlan : ℕ) → length gre ≤ 10 → vlan ≤ 4094 → length (vlan_name gre vlan) ≤ 15
unfolding vlan_name
length-vlan_name gre vlan h le =
    omega
      (arith, length-append gre (b'.' ∷ print_u 5 vlan), length-print_u 5 3 vlan (omega arith), h)

-- The request that puts an interface, up, under a bridge.
abbrev pub under_bridge : ℕ → ℕ → LinkRequest
under_bridge index master = record {
  nlmsg_type = rtm_newlink;
  nlmsg_flags = 5;
  ifi_index = index;
  ifi_flags = 1;
  ifi_change = 1;
  bytes = encode_all (attr ifla_master (u32 master) ∷ []);
}

master_request-under_bridge :
    (index master : ℕ) → master_request index master ≡ some (under_bridge index master)
unfolding master_request link_request_init u32
master_request-under_bridge index master =
    let e =
      link_attr-encode (set_up (link_request_init rtm_newlink 0 index)) ifla_master (u32 master)
        (omega arith) (omega arith) in
    e
    ∙ ap (λ t. some (record (under_bridge index master) { bytes = t }))
        (sym (encode_all_one (attr ifla_master (u32 master))))

module _ {W : Type 0} ⦃kernel : Kernel W⦄ where
  attach_created_lem :
      (created : W × Option ℕ) (name : Text) (master : ℕ)
      → attach_created created name master ≡ (elim created.1 [
        | some errno ↦ (created.0, some errno)
        | none ↦
            kernel.link_send created.0 (under_bridge (kernel.if_nametoindex created.0 name) master)
      ])
  unfolding attach_created set_master send_built
  attach_created_lem (w, some errno) name master = refl
  attach_created_lem (w, none) name master =
      ap (send_built w) (master_request-under_bridge (kernel.if_nametoindex w name) master)

  -- With a prefix as short as the settings demand, an id below the number of slots and a VLAN of a
  -- packet: the name of the tunnel has at most 10 bytes and that of its VLAN interface at most 15, so
  -- that `iface_bridge_attach` fails before a request only if an interface is missing. Otherwise it
  -- sends the request for exactly the VLAN interface, with the tunnel as its parent; if that fails, it
  -- fails with its error, and if not, it sends the request that puts the interface of that name under
  -- the bridge, with whose result it returns.
  pub attach_names_fit :
      (w : W) (prefix bridge : Text) (id vlan : ℕ)
      → short_prefix (some prefix) ≡ true
      → id < max_slots
      → vlan ≤ 4094
      → let gre = tunnel_name prefix id in
        let name = vlan_name gre vlan in
        let parent = kernel.if_nametoindex w gre in
        let master = kernel.if_nametoindex w bridge in
        let created = kernel.link_send w (new_link (encode_all (vlan_attrs name parent vlan))) in
        (length gre ≤ 10)
        × (length name ≤ 15)
        × (iface_bridge_attach w gre bridge vlan ≡ (
            if parent == 0 || master == 0 then (w, some einval) else elim created.1 [
              | some errno ↦ (created.0, some errno)
              | none ↦
                  kernel.link_send created.0
                    (under_bridge (kernel.if_nametoindex created.0 name) master)
            ]))
  unfolding iface_bridge_attach send_built
  attach_names_fit w prefix bridge id vlan h lt le =
      let gre = tunnel_name prefix id in
      let name = vlan_name gre vlan in
      let a = length-tunnel_name prefix id (short_prefix-length prefix h) lt in
      let b = length-vlan_name gre vlan a le in
      let fits : leb 16 (length name) ≡ false =
        leb-false_of_lt 16 (length name) (omega (arith, b)) in
      let built =
        (requests-encode_all name [] 0 0 0 (kernel.if_nametoindex w gre) vlan b (omega arith)).2 in
      let created =
        kernel.link_send w
          (new_link (encode_all (vlan_attrs name (kernel.if_nametoindex w gre) vlan))) in
      (
        a,
        b,
        rw (
          fits,
          built,
          send_built,
          attach_created_lem created name (kernel.if_nametoindex w bridge),
        ),
      )
