-- ===== src/Tests/NetlinkTests.antt =====
-- src/iface_gre.c and src/iface_bridge.c with small names.
use softgre.Shared.{
  ℕ, ◌+◌, ◌-◌, ◌^◌, ◌≡◌, ◌≤◌, refl, true, ◌||◌, List, [], ◌∷◌, none, some, arith, ◌==◌,
  if◌then◌else◌, length, replicate, ok,
}
use softgre.Compat.{codes}
use softgre.Netlink.{
  gre_request, bridge_request, vlan_request, c_string, ifla_ifname, ifla_linkinfo, ifla_info_kind,
  LinkRequest,
}
use softgre.Netlink.Attributes.{Attr, encode_all, padding}
use softgre.Netlink.Requests.{attr, nested, new_link, gre_attrs, vlan_attrs, requests-encode_all}
use softgre.Netlink.Decode.{decode, decode-encode_all}
use softgre.Netlink.RoundTrip.{gre_data, gre_info, gre_request_decoded}
use softgre.Netlink.Links.{Kernel, tunnel_name, vlan_name, einval, iface_bridge_attach}
use softgre.Netlink.Names.{under_bridge, attach_names_fit}
use softgre.Netlink.Replies.{
  datagram, interrupted, not_sent, link_send, IsAnswer, le16, le32, link_send_answered,
}
use softgre.Payload.Safe.{at8}
use softgre.Shared.{get_or}

requests-encode_all_example :
    (gre_request (codes "sgre7") (codes "gretap") 3 0x0a000001 0x0a000002
      ≡ some (
          new_link
            (encode_all (gre_attrs (codes "sgre7") (codes "gretap") 3 0x0a000001 0x0a000002))))
    × (bridge_request (codes "sgre7")
        ≡ some (
            new_link (
              encode_all (
                attr ifla_ifname (c_string (codes "sgre7"))
                ∷ nested ifla_linkinfo (attr ifla_info_kind (c_string (codes "bridge")) ∷ [])
                ∷ []))))
    × (vlan_request (codes "sgre7") 9 100
        ≡ some (new_link (encode_all (vlan_attrs (codes "sgre7") 9 100))))
requests-encode_all_example =
    requests-encode_all (codes "sgre7") (codes "gretap") 3 0x0a000001 0x0a000002 9 100 (omega arith)
      (omega arith)

abbrev two_attrs : List Attr
two_attrs = attr 3 (codes "sgre7") ∷ attr 10 (1 ∷ 0 ∷ 0 ∷ 0 ∷ []) ∷ []

two_attrs_read : decode 2 (encode_all two_attrs) ≡ some two_attrs
two_attrs_read =
    decode-encode_all two_attrs ((omega arith, omega arith), ((omega arith, omega arith), tt))

two_attrs_bytes :
    encode_all two_attrs
    ≡ 9 ∷ 0 ∷ 3 ∷ 0 ∷ 115 ∷ 103 ∷ 114 ∷ 101 ∷ 55 ∷ 0 ∷ 0 ∷ 0 ∷ 8 ∷ 0 ∷ 10 ∷ 0 ∷ 1 ∷ 0 ∷ 0 ∷ 0 ∷ []
unfolding encode_all padding replicate
two_attrs_bytes = refl

-- A kernel whose state counts the requests that it accepts.
instance abbrev accepting : Kernel ℕ
accepting = record {
  if_nametoindex = λ w name. 4;
  is_bridge = λ w name. true;
  link_send = λ w req. (w + 1, none);
}

attach_names_fit_example :
    let gre = tunnel_name (codes "sgre") 7 in
    let name = vlan_name gre 100 in
    let parent = accepting.if_nametoindex 0 gre in
    let master = accepting.if_nametoindex 0 (codes "br0") in
    let created = accepting.link_send 0 (new_link (encode_all (vlan_attrs name parent 100))) in
    (length gre ≤ 10)
    × (length name ≤ 15)
    × (iface_bridge_attach 0 gre (codes "br0") 100 ≡ (
        if parent == 0 || master == 0 then (0, some einval) else elim created.1 [
          | some errno ↦ (created.0, some errno)
          | none ↦
              accepting.link_send created.0
                (under_bridge (accepting.if_nametoindex created.0 name) master)
        ]))
attach_names_fit_example =
    attach_names_fit 0 (codes "sgre") (codes "br0") 7 100 refl (omega arith) (omega arith)

vlan_interface : vlan_name (tunnel_name (codes "sgre") 7) 100 ≡ codes "sgre7.100"
unfolding vlan_name tunnel_name
vlan_interface = refl

-- The kernel refuses with the number 17.
abbrev refusal : List ℕ
refusal =
    36
    ∷ 0
    ∷ 0
    ∷ 0
    ∷ 2
    ∷ 0
    ∷ 0
    ∷ 0
    ∷ 1
    ∷ 0
    ∷ 0
    ∷ 0
    ∷ 5
    ∷ 0
    ∷ 0
    ∷ 0
    ∷ 239
    ∷ 255
    ∷ 255
    ∷ 255
    ∷ replicate 16 0

refusal-IsAnswer : IsAnswer refusal (2 ^ 32 - 17)
unfolding le32 le16 at8 get_or replicate
refusal-IsAnswer = record {
  size = omega arith;
  size_max = omega arith;
  nlmsg_len = refl;
  nlmsg_type = refl;
  nlmsg_seq = refl;
  error_field = refl;
}

refused_17 : link_send none none (interrupted ∷ datagram 0 refusal ∷ []) ≡ ok (some (not_sent 17))
refused_17 =
    (link_send_answered none none []).1 (interrupted ∷ []) [] refusal (2 ^ 32 - 17) tt
      refusal-IsAnswer

gre_request_decoded_example :
    (req : LinkRequest) × (gre_request (codes "sgre7") (codes "gretap") 3 0x0a000001 0x0a000002
      ≡ some req)
    × (decode 2 req.bytes
        ≡ some (
            attr ifla_ifname (c_string (codes "sgre7"))
            ∷ nested ifla_linkinfo (gre_info (codes "gretap") 3 0x0a000001 0x0a000002)
            ∷ []))
    × (decode 2 (encode_all (gre_info (codes "gretap") 3 0x0a000001 0x0a000002))
        ≡ some (gre_info (codes "gretap") 3 0x0a000001 0x0a000002))
    × (decode 4 (encode_all (gre_data 3 0x0a000001 0x0a000002))
        ≡ some (gre_data 3 0x0a000001 0x0a000002))
gre_request_decoded_example =
    gre_request_decoded (codes "sgre7") (codes "gretap") 3 0x0a000001 0x0a000002 (omega arith)
      (omega arith)
