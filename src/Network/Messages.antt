-- ===== src/Network/Messages.antt =====
-- The netlink messages of network.rs: what each function writes into its `Writer` before it sends.
use clonebox.Prelude.{ℕ, ◌+◌, ◌*◌, ◌%◌, ◌^◌, Text, codes, List, length}
use clonebox.Network.Words.{Endian, to_ne_bytes}
use clonebox.Network.Writer.{
  Writer, write_bytes, write_u8, write_u32, write_i32, pos, patch, pad_to_align, nest_start,
  nest_end,
}
use clonebox.Network.Structs.{
  nlmsghdr_builder, nlmsghdr_bytes, ifinfomsg_builder, ifinfomsg_bytes, rtattr_builder,
  rtattr_bytes, ifaddrmsg_builder, ifaddrmsg_bytes, rtmsg_builder, rtmsg_bytes, af_unspec, af_inet,
  rtm_newlink, rtm_getlink, rtm_newaddr, rtm_newroute, nlm_f_request, nlm_f_ack, nlm_f_excl,
  nlm_f_create, ifla_ifname, ifla_linkinfo, ifla_info_kind, ifla_info_data, ifla_net_ns_fd,
  ifla_ext_mask, ifa_address, ifa_local, rta_gateway, iff_up, rt_scope_universe, rt_table_main,
  rtprot_boot, rtn_unicast, veth_info_peer, rtext_filter_vf, rtext_filter_skip_stats,
}

-- `w ▹ f` is the call of a method on `w`.
infixl 20 ◌▹◌
abbrev pub ◌▹◌ : {A B : Type 0} → A → (A → B) → B
w ▹ f = f w

-- `n as u16`
abbrev as_u16 : ℕ → ℕ
as_u16 n = n % 2 ^ 16

module _ (endian : Endian) where
  -- w.buf[0..4].copy_from_slice(&(w.pos() as u32).to_ne_bytes())
  unfoldable pub patch_total_len : Writer → Writer
  patch_total_len w = patch 0 (to_ne_bytes endian 4 (pos w % 2 ^ 32)) w

  -- create_veth_pair; the flags are disjoint bits, so their union is their sum
  unfoldable pub veth_message : Text → Text → Writer → Writer
  veth_message host peer w =
      let kind = codes "veth" in
      let w1 =
        w
        ▹ write_bytes (
            nlmsghdr_bytes endian (
              nlmsghdr_builder 0 rtm_newlink (nlm_f_excl + nlm_f_create + nlm_f_request + nlm_f_ack)
                0 0))
        ▹ write_bytes (ifinfomsg_bytes endian (ifinfomsg_builder af_unspec 0 0 0 0))
        ▹ write_bytes
            (rtattr_bytes endian (rtattr_builder (as_u16 (2 * 2 + length host + 1)) ifla_ifname))
        ▹ write_bytes host
        ▹ write_u8 endian 0
        ▹ pad_to_align in
      let (link_info_pos, w2) = nest_start endian ifla_linkinfo w1 in
      let w3 =
        w2
        ▹ write_bytes
            (rtattr_bytes endian (rtattr_builder (as_u16 (2 * 2 + length kind)) ifla_info_kind))
        ▹ write_bytes kind
        ▹ pad_to_align in
      let (info_data_pos, w4) = nest_start endian ifla_info_data w3 in
      let (veth_info_pos, w5) = nest_start endian veth_info_peer w4 in
      w5
      ▹ write_bytes (ifinfomsg_bytes endian (ifinfomsg_builder 0 0 0 0 0))
      ▹ write_bytes
          (rtattr_bytes endian (rtattr_builder (as_u16 (2 * 2 + length peer + 1)) ifla_ifname))
      ▹ write_bytes peer
      ▹ write_u8 endian 0
      ▹ pad_to_align
      ▹ nest_end endian veth_info_pos
      ▹ nest_end endian info_data_pos
      ▹ nest_end endian link_info_pos
      ▹ patch_total_len

  -- set_interface_up
  unfoldable pub up_message : ℕ → Writer → Writer
  up_message iface_id w =
      w
      ▹ write_bytes
          (nlmsghdr_bytes endian (nlmsghdr_builder 0 rtm_newlink (nlm_f_request + nlm_f_ack) 0 0))
      ▹ write_bytes (ifinfomsg_bytes endian (ifinfomsg_builder af_unspec 0 iface_id iff_up 1))
      ▹ patch_total_len

  -- set_ip_addr
  unfoldable pub addr_message : ℕ → List ℕ → ℕ → Writer → Writer
  addr_message iface_id ip_bytes prefix_len w =
      w
      ▹ write_bytes (
          nlmsghdr_bytes endian (
            nlmsghdr_builder 0 rtm_newaddr (nlm_f_request + nlm_f_ack + nlm_f_excl + nlm_f_create) 0
              0))
      ▹ write_bytes (
          ifaddrmsg_bytes endian
            (ifaddrmsg_builder af_inet prefix_len 0 rt_scope_universe iface_id))
      ▹ write_bytes (rtattr_bytes endian (rtattr_builder (as_u16 (2 * 2 + 4)) ifa_local))
      ▹ write_bytes ip_bytes
      ▹ write_bytes (rtattr_bytes endian (rtattr_builder (as_u16 (2 * 2 + 4)) ifa_address))
      ▹ write_bytes ip_bytes
      ▹ patch_total_len

  -- move_to_netns
  unfoldable pub netns_message : ℕ → ℕ → Writer → Writer
  netns_message i_id child_fd w =
      w
      ▹ write_bytes
          (nlmsghdr_bytes endian (nlmsghdr_builder 0 rtm_newlink (nlm_f_request + nlm_f_ack) 0 0))
      ▹ write_bytes (ifinfomsg_bytes endian (ifinfomsg_builder af_unspec 0 i_id 0 0))
      ▹ write_bytes (rtattr_bytes endian (rtattr_builder (as_u16 (2 * 2 + 4)) ifla_net_ns_fd))
      ▹ write_i32 endian child_fd
      ▹ pad_to_align
      ▹ patch_total_len

  -- get_interface_index
  unfoldable pub getlink_message : Text → Writer → Writer
  getlink_message i_name w =
      w
      ▹ write_bytes (nlmsghdr_bytes endian (nlmsghdr_builder 0 rtm_getlink nlm_f_request 0 0))
      ▹ write_bytes (ifinfomsg_bytes endian (ifinfomsg_builder af_unspec 0 0 0 0))
      ▹ write_bytes (rtattr_bytes endian (rtattr_builder (as_u16 (2 * 2 + 4)) ifla_ext_mask))
      ▹ write_u32 endian (rtext_filter_vf + rtext_filter_skip_stats)
      ▹ pad_to_align
      ▹ write_bytes
          (rtattr_bytes endian (rtattr_builder (as_u16 (2 * 2 + length i_name + 1)) ifla_ifname))
      ▹ write_bytes i_name
      ▹ write_u8 endian 0
      ▹ pad_to_align
      ▹ patch_total_len

  -- add_default_route
  unfoldable pub route_message : List ℕ → Writer → Writer
  route_message ip_bytes w =
      w
      ▹ write_bytes (
          nlmsghdr_bytes endian (
            nlmsghdr_builder 0 rtm_newroute (nlm_f_request + nlm_f_ack + nlm_f_excl + nlm_f_create)
              0 0))
      ▹ write_bytes (
          rtmsg_bytes endian
            (rtmsg_builder af_inet 0 0 0 rt_table_main rtprot_boot rt_scope_universe rtn_unicast 0))
      ▹ write_bytes (rtattr_bytes endian (rtattr_builder (as_u16 (2 * 2 + 4)) rta_gateway))
      ▹ write_bytes ip_bytes
      ▹ pad_to_align
      ▹ patch_total_len
