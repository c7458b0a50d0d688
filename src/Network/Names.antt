-- ===== src/Network/Names.antt =====
-- The names that a reader of rtnetlink(7) finds in the message of create_veth_pair.
use mathlib.Core.List.{append_assoc}
use clonebox.Prelude.{
  ℕ, ◌+◌, ◌%◌, ◌^◌, ◌<◌, ◌≤◌, ◌≡◌, refl, ap, ◌∙◌, Text, codes, Option, none, some, List, [], ◌∷◌,
  ◌++◌, arith, length, length-append, take, drop,
}
use clonebox.Network.Words.{Endian, to_ne_bytes, from_ne_bytes, length-to_ne_bytes}
use clonebox.Network.Structs.{
  ifinfomsg_builder, ifinfomsg_bytes, rtm_newlink, ifla_ifname, ifla_linkinfo, ifla_info_kind,
  ifla_info_data, veth_info_peer,
}
use clonebox.Network.Attributes.{attribute}
use clonebox.Network.Slices.{drop_of}
use clonebox.Network.Messages.{veth_message}
use clonebox.Network.Encoding.{empty, netlink_message, length-ifinfomsg, c_string}
use clonebox.Network.Veth.{peer_info, link_info, veth_message_lem}
use clonebox.Network.Parsing.{
  find_attribute, find_attribute_first, find_attribute_only, find_attribute_later,
  length-attribute_le, take-netlink_message,
}

module _ (endian : Endian) where
  -- Down a path of attributes, each behind a struct of so many bytes. No level has more than two.
  unfoldable pub find_nested : List (ℕ × ℕ) → List ℕ → Option (List ℕ)
  find_nested [] bytes = some bytes
  find_nested ((skip, type) ∷ path) bytes = elim (find_attribute endian 2 type (drop skip bytes)) [
    | none ↦ none
    | some payload ↦ find_nested path payload
  ]

  drop-netlink_message :
      (type flags : ℕ) (fixed body : List ℕ)
      → length fixed ≡ 16
      → drop 32 (netlink_message endian type flags (fixed ++ body)) ≡ body
  unfolding netlink_message
  drop-netlink_message type flags fixed body h =
      let size = to_ne_bytes endian 4 ((16 + length (fixed ++ body)) % 2 ^ 32) in
      let zeros = to_ne_bytes endian 4 0 in
      let types = to_ne_bytes endian 2 type in
      let front = size ++ (types ++ (to_ne_bytes endian 2 flags ++ (zeros ++ (zeros ++ fixed)))) in
      let regroup : size
            ++ (types ++ (to_ne_bytes endian 2 flags ++ (zeros ++ (zeros ++ (fixed ++ body)))))
          ≡ front ++ body =
        simp append_assoc in
      let long : length front ≡ 32 = omega (
        arith,
        h,
        length-append size (types ++ (to_ne_bytes endian 2 flags ++ (zeros ++ (zeros ++ fixed)))),
        length-append types (to_ne_bytes endian 2 flags ++ (zeros ++ (zeros ++ fixed))),
        length-append (to_ne_bytes endian 2 flags) (zeros ++ (zeros ++ fixed)),
        length-append zeros (zeros ++ fixed),
        length-append zeros fixed,
        length-to_ne_bytes endian 4 ((16 + length (fixed ++ body)) % 2 ^ 32),
        length-to_ne_bytes endian 2 type,
        length-to_ne_bytes endian 2 flags,
        length-to_ne_bytes endian 4 0,
      ) in
      rw regroup (drop_of 32 front body long)

module _ (endian : Endian) (host peer : Text) (short : length host < 2 ^ 15)
    (peer_short : length peer < 2 ^ 15) where
  link_header : List ℕ
  link_header = ifinfomsg_bytes endian (ifinfomsg_builder 0 0 0 0 0)

  length-c_string : (name : Text) → length (c_string endian name) ≡ length name + 1
  length-c_string name =
      omega (arith, length-append name (to_ne_bytes endian 1 0), length-to_ne_bytes endian 1 0)

  length-peer_info : length (peer_info endian host peer) ≤ 2 ^ 15 + 24
  length-peer_info = omega (
    arith,
    length-append (ifinfomsg_bytes endian (ifinfomsg_builder 0 0 0 0 0))
        (attribute endian ifla_ifname (c_string endian peer)),
    length-ifinfomsg endian 0 0 0 0 0,
    length-attribute_le endian ifla_ifname (c_string endian peer),
    length-c_string peer,
    peer_short,
  )

  abbrev peer_data : List ℕ
  peer_data = attribute endian veth_info_peer (peer_info endian host peer)

  length-peer_data : length peer_data ≤ 2 ^ 15 + 32
  length-peer_data = omega (
    arith,
    length-peer_info,
    length-attribute_le endian veth_info_peer (peer_info endian host peer),
  )

  length-link_info : length (link_info endian host peer) ≤ 2 ^ 15 + 52
  length-link_info = omega (
    arith,
    length-append (attribute endian ifla_info_kind (codes "veth"))
        (attribute endian ifla_info_data peer_data),
    length-attribute_le endian ifla_info_kind (codes "veth"),
    length-attribute_le endian ifla_info_data peer_data,
    length-peer_data,
  )

  abbrev message : List ℕ
  message = (veth_message endian host peer empty).buf

  attributes :
      drop 32 message
      ≡ attribute endian ifla_ifname (c_string endian host)
        ++ attribute endian ifla_linkinfo (link_info endian host peer)
  attributes =
      ap (drop 32) (veth_message_lem endian host peer)
      ∙ drop-netlink_message endian rtm_newlink 0x605 _ _ (length-ifinfomsg endian 0 0 0 0 0)

  found_host : find_attribute endian 2 ifla_ifname (drop 32 message) ≡ some (c_string endian host)
  found_host = rw attributes (
      find_attribute_first endian 1 ifla_ifname (c_string endian host) _ (omega arith)
        (omega (arith, length-c_string host, short)))

  found_link_info :
      find_attribute endian 2 ifla_linkinfo (drop 32 message) ≡ some (link_info endian host peer)
  found_link_info = rw attributes (
      find_attribute_later endian 1 ifla_linkinfo ifla_ifname (c_string endian host) _ (omega arith)
        (omega (arith, length-c_string host, short)) refl
      ∙ find_attribute_only endian 0 ifla_linkinfo (link_info endian host peer) (omega arith)
          (omega (arith, length-link_info)))

  found_kind :
      find_attribute endian 2 ifla_info_kind (link_info endian host peer) ≡ some (codes "veth")
  found_kind =
      find_attribute_first endian 1 ifla_info_kind (codes "veth") _ (omega arith) (omega arith)

  found_data : find_attribute endian 2 ifla_info_data (link_info endian host peer) ≡ some peer_data
  found_data =
      find_attribute_later endian 1 ifla_info_data ifla_info_kind (codes "veth") _ (omega arith)
        (omega arith) refl
      ∙ find_attribute_only endian 0 ifla_info_data peer_data (omega arith)
          (omega (arith, length-peer_data))

  found_peer : find_attribute endian 2 veth_info_peer peer_data ≡ some (peer_info endian host peer)
  found_peer =
      find_attribute_only endian 1 veth_info_peer (peer_info endian host peer) (omega arith)
        (omega (arith, length-peer_info))

  found_peer_name :
      find_attribute endian 2 ifla_ifname (drop 16 (peer_info endian host peer))
      ≡ some (c_string endian peer)
  found_peer_name =
      rw
        (drop_of 16 (ifinfomsg_bytes endian (ifinfomsg_builder 0 0 0 0 0))
          (attribute endian ifla_ifname (c_string endian peer)) (length-ifinfomsg endian 0 0 0 0 0))
        (find_attribute_only endian 1 ifla_ifname (c_string endian peer) (omega arith)
          (omega (arith, length-c_string peer, peer_short)))

  size_fits : from_ne_bytes endian (take 4 message) ≡ length message
  size_fits = rw (veth_message_lem endian host peer) (
      take-netlink_message endian rtm_newlink 0x605 _ (
        omega (
          arith,
          length-append (ifinfomsg_bytes endian (ifinfomsg_builder 0 0 0 0 0)) (
              attribute endian ifla_ifname (c_string endian host)
              ++ attribute endian ifla_linkinfo (link_info endian host peer)),
          length-append (attribute endian ifla_ifname (c_string endian host))
              (attribute endian ifla_linkinfo (link_info endian host peer)),
          length-ifinfomsg endian 0 0 0 0 0,
          length-attribute_le endian ifla_ifname (c_string endian host),
          length-attribute_le endian ifla_linkinfo (link_info endian host peer),
          length-c_string host,
          length-link_info,
          short,
        )))

  -- A reader that follows the length fields finds in the message of create_veth_pair, written from an
  -- empty writer for names shorter than 2 ^ 15 bytes, what was asked for: the header counts the whole
  -- message, the host's name and the kind "veth" stand where they belong, and the peer's name stands
  -- four levels down, each name with the zero that ends it.
  pub find_nested-veth_message :
      (from_ne_bytes endian (take 4 message) ≡ length message)
      × (find_nested endian ((32, ifla_ifname) ∷ []) message ≡ some (c_string endian host))
      × (find_nested endian ((32, ifla_linkinfo) ∷ (0, ifla_info_kind) ∷ []) message
          ≡ some (codes "veth"))
      × (find_nested endian
            ((32, ifla_linkinfo)
              ∷ (0, ifla_info_data)
              ∷ (0, veth_info_peer)
              ∷ (16, ifla_ifname)
              ∷ [])
            message
          ≡ some (c_string endian peer))
  unfolding find_nested
  find_nested-veth_message = (
    size_fits,
    rw (find_nested, found_host) refl,
    rw (find_nested, found_link_info, found_kind) refl,
    rw (find_nested, found_link_info, found_data, found_peer, found_peer_name) refl,
  )
