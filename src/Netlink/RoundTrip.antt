-- ===== src/Netlink/RoundTrip.antt =====
-- What the kernel reads from the request for a tunnel.
use softgre.Shared.{ℕ, ◌+◌, ◌≤◌, ◌≡◌, refl, List, [], ◌∷◌, some, arith, length, length-append}
use softgre.Compat.{Text}
use softgre.Netlink.{
  LinkRequest, u32, s_addr, c_string, ifla_ifname, ifla_linkinfo, ifla_info_kind, ifla_info_data,
  ifla_gre_link, ifla_gre_local, ifla_gre_remote, ifla_gre_pmtudisc, gre_request,
}
use softgre.Netlink.Attributes.{Attr, encode, encode_all, length-encode}
use softgre.Netlink.Requests.{attr, nested, new_link, gre_attrs, requests-encode_all}
use softgre.Netlink.Decode.{decode, decode-encode_all}

-- The attributes in `IFLA_INFO_DATA`, and those in `IFLA_LINKINFO`.
abbrev pub gre_data : ℕ → ℕ → ℕ → List Attr
gre_data index local remote =
    attr ifla_gre_link (u32 index)
    ∷ attr ifla_gre_local (s_addr local)
    ∷ attr ifla_gre_remote (s_addr remote)
    ∷ attr ifla_gre_pmtudisc (0 ∷ [])
    ∷ []

abbrev pub gre_info : Text → ℕ → ℕ → ℕ → List Attr
gre_info kind index local remote =
    attr ifla_info_kind (c_string kind) ∷ nested ifla_info_data (gre_data index local remote) ∷ []

length-cons :
    (a : Attr) (attrs : List Attr) (n : ℕ)
    → length a.payload ≤ n
    → length (encode_all (a ∷ attrs)) ≤ n + 7 + length (encode_all attrs)
unfolding encode_all
length-cons a attrs n h =
    omega (arith, length-append (encode a) (encode_all attrs), (length-encode a).1, h)

length-none : length (encode_all []) ≡ 0
unfolding encode_all
length-none = refl

length-gre_data : (index local remote : ℕ) → length (encode_all (gre_data index local remote)) ≤ 41
unfolding u32 s_addr
length-gre_data index local remote =
    let l = attr ifla_gre_link (u32 index) in
    let lo = attr ifla_gre_local (s_addr local) in
    let re = attr ifla_gre_remote (s_addr remote) in
    let pm = attr ifla_gre_pmtudisc (0 ∷ []) in
    omega (
      arith,
      length-cons l (lo ∷ re ∷ pm ∷ []) 4 (omega arith),
      length-cons lo (re ∷ pm ∷ []) 4 (omega arith),
      length-cons re (pm ∷ []) 4 (omega arith),
      length-cons pm [] 1 (omega arith),
      length-none,
    )

length-gre_info :
    (kind : Text) (index local remote : ℕ)
    → length kind ≤ 15
    → length (encode_all (gre_info kind index local remote)) ≤ 71
length-gre_info kind index local remote h =
    let k = attr ifla_info_kind (c_string kind) in
    let d = nested ifla_info_data (gre_data index local remote) in
    omega (
      arith,
      length-cons k (d ∷ []) 16 (omega (arith, length-append kind (0 ∷ []), h)),
      length-cons d [] 41 (length-gre_data index local remote),
      length-none,
    )

-- For a name and a kind of at most 15 bytes, the request for a tunnel is built, and the kernel that
-- walks its attributes as its manual says finds, level by level: the name and the link's information;
-- in it the kind and the tunnel's data; and in these the index of the underlying link, the two
-- addresses, and no path MTU discovery.
pub gre_request_decoded :
    (name kind : Text) (index local remote : ℕ)
    → length name ≤ 15
    → length kind ≤ 15
    → (req : LinkRequest) × (gre_request name kind index local remote ≡ some req)
      × (decode 2 req.bytes
          ≡ some (
              attr ifla_ifname (c_string name)
              ∷ nested ifla_linkinfo (gre_info kind index local remote)
              ∷ []))
      × (decode 2 (encode_all (gre_info kind index local remote))
          ≡ some (gre_info kind index local remote))
      × (decode 4 (encode_all (gre_data index local remote)) ≡ some (gre_data index local remote))
unfolding u32 s_addr
gre_request_decoded name kind index local remote h hk =
    let built = (requests-encode_all name kind index local remote 0 0 h hk).0 in
    let info = length-gre_info kind index local remote hk in
    let inner = length-gre_data index local remote in
    let n = length-append name (0 ∷ []) in
    let k = length-append kind (0 ∷ []) in
    (
      new_link (encode_all (gre_attrs name kind index local remote)),
      built,
      decode-encode_all (gre_attrs name kind index local remote)
          ((omega (arith, n, h), omega arith), ((omega (arith, info), omega arith), tt)),
      decode-encode_all (gre_info kind index local remote)
          ((omega (arith, k, hk), omega arith), ((omega (arith, inner), omega arith), tt)),
      decode-encode_all (gre_data index local remote) (
        (omega arith, omega arith),
        (
          (omega arith, omega arith),
          ((omega arith, omega arith), ((omega arith, omega arith), tt)),
        ),
      ),
    )
