-- ===== src/Network/Expected.antt =====
-- What create_network is to exchange with the kernel, and where, apart from the code that does it.
use clonebox.Prelude.{ℕ, Text, codes, ◌≡◌, refl, List, [], ◌∷◌, ◌++◌}
use clonebox.Network.Words.{Endian}
use clonebox.Network.Messages.{
  veth_message, up_message, addr_message, netns_message, getlink_message, route_message,
}
use clonebox.Network.Requests.{host_address, peer_address}
use clonebox.Network.Words.{to_ne_bytes}
use clonebox.Network.Structs.{
  rtm_newlink, rtm_getlink, rtm_newaddr, rtm_newroute, ifla_ifname, ifla_linkinfo, ifla_net_ns_fd,
  ifla_ext_mask, ifa_address, ifa_local, rta_gateway, iff_up, ifinfomsg_builder, ifinfomsg_bytes,
  ifaddrmsg_builder, ifaddrmsg_bytes, rtmsg_builder, rtmsg_bytes,
}
use clonebox.Network.Attributes.{attribute}
use clonebox.Network.Encoding.{
  netlink_message, c_string, up_message_lem, addr_message_lem, netns_message_lem, route_message_lem,
  getlink_message_lem,
}
use clonebox.Network.Veth.{link_info, veth_message_lem}
use clonebox.Network.Sent.{Wires, out, back, entered, empty, Granted, index_of}
use clonebox.Os.{Fd}

-- What goes over the sockets one after another.
unfoldable pub onto : Wires → Wires → Wires
onto [] before = before
onto (m ∷ ms) before = onto ms (m ∷ before)

-- The replies to the messages on the host's side, and to those in the container's namespace.
pub record HostReplies (e : Endian) : Type 0 where
  pub paired : Granted e
  pub host_link : Granted e
  pub addressed : Granted e
  pub set_up : Granted e
  pub peer_link : Granted e
  pub moved : Granted e

pub record ChildReplies (e : Endian) : Type 0 where
  pub addressed : Granted e
  pub set_up : Granted e
  pub loopback : Granted e
  pub routed : Granted e

module _ (e : Endian) where
  -- The exchanges on the host's side, newest first.
  abbrev pub host_wires : Fd → Fd → HostReplies e → Text → Wires → Wires
  host_wires sk peer_ns r suffix before =
      let i = index_of e r.host_link.0 in
      let j = index_of e r.peer_link.0 in
      back sk r.moved.0
      ∷ out sk (netns_message e j peer_ns empty).buf
      ∷ back sk r.peer_link.0
      ∷ out sk (getlink_message e (suffix ++ codes "_peer") empty).buf
      ∷ back sk r.set_up.0
      ∷ out sk (up_message e i empty).buf
      ∷ back sk r.addressed.0
      ∷ out sk (addr_message e i host_address 24 empty).buf
      ∷ back sk r.host_link.0
      ∷ out sk (getlink_message e suffix empty).buf
      ∷ back sk r.paired.0
      ∷ out sk (veth_message e suffix (suffix ++ codes "_peer") empty).buf
      ∷ before

  -- The exchanges in the container's namespace, where the loopback device is number 1.
  abbrev pub child_wires : Fd → ℕ → ChildReplies e → Wires → Wires
  child_wires sk j r before =
      back sk r.routed.0
      ∷ out sk (route_message e host_address empty).buf
      ∷ back sk r.loopback.0
      ∷ out sk (up_message e 1 empty).buf
      ∷ back sk r.set_up.0
      ∷ out sk (up_message e j empty).buf
      ∷ back sk r.addressed.0
      ∷ out sk (addr_message e j peer_address 24 empty).buf
      ∷ before

  -- The requests of rtnetlink(7).
  abbrev pub pair_request : Text → Text → List ℕ
  pair_request host peer = netlink_message e rtm_newlink 0x605 (
      ifinfomsg_bytes e (ifinfomsg_builder 0 0 0 0 0)
      ++ (attribute e ifla_ifname (c_string e host)
          ++ attribute e ifla_linkinfo (link_info e host peer)))

  abbrev pub index_request : Text → List ℕ
  index_request name = netlink_message e rtm_getlink 1 (
      ifinfomsg_bytes e (ifinfomsg_builder 0 0 0 0 0)
      ++ (attribute e ifla_ext_mask (to_ne_bytes e 4 9)
          ++ attribute e ifla_ifname (c_string e name)))

  abbrev pub address_request : ℕ → List ℕ → List ℕ
  address_request i ip = netlink_message e rtm_newaddr 0x605 (
      ifaddrmsg_bytes e (ifaddrmsg_builder 2 24 0 0 i)
      ++ (attribute e ifa_local ip ++ attribute e ifa_address ip))

  abbrev pub up_request : ℕ → List ℕ
  up_request i =
      netlink_message e rtm_newlink 5 (ifinfomsg_bytes e (ifinfomsg_builder 0 0 i iff_up 1))

  abbrev pub move_request : ℕ → Fd → List ℕ
  move_request i fd = netlink_message e rtm_newlink 5 (
      ifinfomsg_bytes e (ifinfomsg_builder 0 0 i 0 0)
      ++ attribute e ifla_net_ns_fd (to_ne_bytes e 4 fd))

  abbrev pub route_request : List ℕ → List ℕ
  route_request ip =
      netlink_message e rtm_newroute 0x605
        (rtmsg_bytes e (rtmsg_builder 2 0 0 0 254 3 0 1 0) ++ attribute e rta_gateway ip)

  -- All of it, oldest first. The two indices are those of the replies, and the loopback device has the
  -- index 1.
  abbrev pub exchanges : Text → Fd → Fd → Fd → Fd → HostReplies e → ChildReplies e → Wires
  exchanges name host_sk child_sk host_ns peer_ns r c =
      let i = index_of e r.host_link.0 in
      let j = index_of e r.peer_link.0 in
      out host_sk (pair_request name (name ++ codes "_peer"))
      ∷ back host_sk r.paired.0
      ∷ out host_sk (index_request name)
      ∷ back host_sk r.host_link.0
      ∷ out host_sk (address_request i (10 ∷ 0 ∷ 0 ∷ 1 ∷ []))
      ∷ back host_sk r.addressed.0
      ∷ out host_sk (up_request i)
      ∷ back host_sk r.set_up.0
      ∷ out host_sk (index_request (name ++ codes "_peer"))
      ∷ back host_sk r.peer_link.0
      ∷ out host_sk (move_request j peer_ns)
      ∷ back host_sk r.moved.0
      ∷ entered peer_ns
      ∷ out child_sk (address_request j (10 ∷ 0 ∷ 0 ∷ 2 ∷ []))
      ∷ back child_sk c.addressed.0
      ∷ out child_sk (up_request j)
      ∷ back child_sk c.set_up.0
      ∷ out child_sk (up_request 1)
      ∷ back child_sk c.loopback.0
      ∷ out child_sk (route_request (10 ∷ 0 ∷ 0 ∷ 1 ∷ []))
      ∷ back child_sk c.routed.0
      ∷ entered host_ns
      ∷ []

  pub exchanges_lem :
      (name : Text) (host_sk child_sk host_ns peer_ns : Fd) (r : HostReplies e) (c : ChildReplies e)
      (before : Wires)
      → entered host_ns
          ∷ child_wires child_sk
              (index_of e r.peer_link.0)
              c
              (entered peer_ns ∷ host_wires host_sk peer_ns r name before)
        ≡ onto (exchanges name host_sk child_sk host_ns peer_ns r c) before
  unfolding onto
  exchanges_lem name host_sk child_sk host_ns peer_ns r c before =
      let i = index_of e r.host_link.0 in
      let j = index_of e r.peer_link.0 in
      rw
        (
          veth_message_lem e name (name ++ codes "_peer"),
          getlink_message_lem e name,
          getlink_message_lem e (name ++ codes "_peer"),
          addr_message_lem e i 24 host_address refl,
          addr_message_lem e j 24 peer_address refl,
          up_message_lem e i,
          up_message_lem e j,
          up_message_lem e 1,
          netns_message_lem e j peer_ns,
          route_message_lem e host_address refl,
        )
        refl
