-- ===== src/Network/Structs.antt =====
-- The structs of network.rs with their builders, and the memory images that `write_struct` copies: the
-- layout that `repr(C)` fixes, which has no implicit padding in any of them. The constants of libc are
-- those of the Linux interface (rtnetlink.h, netlink.h, if_link.h).
use clonebox.Prelude.{ℕ, List, ◌++◌}
use clonebox.Network.Words.{Endian, to_ne_bytes}

pub record Nlmsghdr : Type 0 where
  pub nlmsg_len : ℕ
  pub nlmsg_type : ℕ
  pub nlmsg_flags : ℕ
  pub nlmsg_seq : ℕ
  pub nlmsg_pid : ℕ

pub record Ifinfomsg : Type 0 where
  pub ifi_family : ℕ
  pub ifi_type : ℕ
  pub ifi_index : ℕ
  pub ifi_flags : ℕ
  pub ifi_change : ℕ

pub record Rtattr : Type 0 where
  pub rta_len : ℕ
  pub rta_type : ℕ

pub record Ifaddrmsg : Type 0 where
  pub ifa_family : ℕ
  pub ifa_prefixlen : ℕ
  pub ifa_flags : ℕ
  pub ifa_scope : ℕ
  pub ifa_index : ℕ

pub record Rtmsg : Type 0 where
  pub rtm_family : ℕ
  pub rtm_dst_len : ℕ
  pub rtm_src_len : ℕ
  pub rtm_tos : ℕ
  pub rtm_table : ℕ
  pub rtm_protocol : ℕ
  pub rtm_scope : ℕ
  pub rtm_type : ℕ
  pub rtm_flags : ℕ

abbrev pub nlmsghdr_builder : ℕ → ℕ → ℕ → ℕ → ℕ → Nlmsghdr
nlmsghdr_builder len type flags seq pid = record {
  nlmsg_len = len;
  nlmsg_type = type;
  nlmsg_flags = flags;
  nlmsg_seq = seq;
  nlmsg_pid = pid;
}

abbrev pub ifinfomsg_builder : ℕ → ℕ → ℕ → ℕ → ℕ → Ifinfomsg
ifinfomsg_builder family type index flags change = record {
  ifi_family = family;
  ifi_type = type;
  ifi_index = index;
  ifi_flags = flags;
  ifi_change = change;
}

abbrev pub rtattr_builder : ℕ → ℕ → Rtattr
rtattr_builder len type = record { rta_len = len; rta_type = type }

abbrev pub ifaddrmsg_builder : ℕ → ℕ → ℕ → ℕ → ℕ → Ifaddrmsg
ifaddrmsg_builder family prefixlen flags scope index = record {
  ifa_family = family;
  ifa_prefixlen = prefixlen;
  ifa_flags = flags;
  ifa_scope = scope;
  ifa_index = index;
}

abbrev pub rtmsg_builder : ℕ → ℕ → ℕ → ℕ → ℕ → ℕ → ℕ → ℕ → ℕ → Rtmsg
rtmsg_builder family dst_len src_len tos table protocol scope type flags = record {
  rtm_family = family;
  rtm_dst_len = dst_len;
  rtm_src_len = src_len;
  rtm_tos = tos;
  rtm_table = table;
  rtm_protocol = protocol;
  rtm_scope = scope;
  rtm_type = type;
  rtm_flags = flags;
}

module _ (endian : Endian) where
  abbrev u8 : ℕ → List ℕ
  u8 = to_ne_bytes endian 1

  abbrev u16 : ℕ → List ℕ
  u16 = to_ne_bytes endian 2

  abbrev u32 : ℕ → List ℕ
  u32 = to_ne_bytes endian 4

  unfoldable pub nlmsghdr_bytes : Nlmsghdr → List ℕ
  nlmsghdr_bytes m =
      u32 m.nlmsg_len
      ++ (u16 m.nlmsg_type ++ (u16 m.nlmsg_flags ++ (u32 m.nlmsg_seq ++ u32 m.nlmsg_pid)))

  -- The byte after the family is the padding field that the struct declares.
  unfoldable pub ifinfomsg_bytes : Ifinfomsg → List ℕ
  ifinfomsg_bytes m =
      u8 m.ifi_family
      ++ (u8 0 ++ (u16 m.ifi_type ++ (u32 m.ifi_index ++ (u32 m.ifi_flags ++ u32 m.ifi_change))))

  unfoldable pub rtattr_bytes : Rtattr → List ℕ
  rtattr_bytes m = u16 m.rta_len ++ u16 m.rta_type

  unfoldable pub ifaddrmsg_bytes : Ifaddrmsg → List ℕ
  ifaddrmsg_bytes m =
      u8 m.ifa_family
      ++ (u8 m.ifa_prefixlen ++ (u8 m.ifa_flags ++ (u8 m.ifa_scope ++ u32 m.ifa_index)))

  unfoldable pub rtmsg_bytes : Rtmsg → List ℕ
  rtmsg_bytes m =
      u8 m.rtm_family
      ++ (u8 m.rtm_dst_len
          ++ (u8 m.rtm_src_len
              ++ (u8 m.rtm_tos
                  ++ (u8 m.rtm_table
                      ++ (u8 m.rtm_protocol
                          ++ (u8 m.rtm_scope ++ (u8 m.rtm_type ++ u32 m.rtm_flags)))))))

abbrev pub af_unspec : ℕ
af_unspec = 0

abbrev pub af_inet : ℕ
af_inet = 2

abbrev pub rtm_newlink : ℕ
rtm_newlink = 16

abbrev pub rtm_getlink : ℕ
rtm_getlink = 18

abbrev pub rtm_newaddr : ℕ
rtm_newaddr = 20

abbrev pub rtm_newroute : ℕ
rtm_newroute = 24

abbrev pub nlm_f_request : ℕ
nlm_f_request = 0x1

abbrev pub nlm_f_ack : ℕ
nlm_f_ack = 0x4

abbrev pub nlm_f_excl : ℕ
nlm_f_excl = 0x200

abbrev pub nlm_f_create : ℕ
nlm_f_create = 0x400

abbrev pub nlmsg_error : ℕ
nlmsg_error = 2

abbrev pub ifla_ifname : ℕ
ifla_ifname = 3

abbrev pub ifla_linkinfo : ℕ
ifla_linkinfo = 18

abbrev pub ifla_info_kind : ℕ
ifla_info_kind = 1

abbrev pub ifla_info_data : ℕ
ifla_info_data = 2

abbrev pub ifla_net_ns_fd : ℕ
ifla_net_ns_fd = 28

abbrev pub ifla_ext_mask : ℕ
ifla_ext_mask = 29

abbrev pub ifa_address : ℕ
ifa_address = 1

abbrev pub ifa_local : ℕ
ifa_local = 2

abbrev pub rta_gateway : ℕ
rta_gateway = 5

abbrev pub iff_up : ℕ
iff_up = 1

abbrev pub rt_scope_universe : ℕ
rt_scope_universe = 0

abbrev pub rt_table_main : ℕ
rt_table_main = 254

abbrev pub rtprot_boot : ℕ
rtprot_boot = 3

abbrev pub rtn_unicast : ℕ
rtn_unicast = 1

-- The three constants that network.rs declares itself.
abbrev pub veth_info_peer : ℕ
veth_info_peer = 1

abbrev pub rtext_filter_vf : ℕ
rtext_filter_vf = 1

abbrev pub rtext_filter_skip_stats : ℕ
rtext_filter_skip_stats = 8
