-- ===== src/Network/Veth.antt =====
-- create_veth_pair: the message with three levels of attributes, written with back-patching.
use mathlib.Core.List.{append_assoc}
use clonebox.Prelude.{
  ℕ, ◌+◌, ◌*◌, ◌%◌, ◌^◌, ◌≡◌, refl, ap, ◌∙◌, Text, codes, List, ◌++◌, arith, length, length-append,
}
use clonebox.Network.Words.{Endian}
use clonebox.Network.Writer.{Writer, write_bytes, write_u8, pad_to_align, nest_start, nest_end}
use clonebox.Network.Structs.{
  ifinfomsg_builder, ifinfomsg_bytes, rtattr_builder, rtattr_bytes, rtm_newlink, ifla_ifname,
  ifla_linkinfo, ifla_info_kind, ifla_info_data, veth_info_peer,
}
use clonebox.Network.Attributes.{attribute}
use clonebox.Network.Nesting.{buf-nest, buf-leaf, length-attribute, length-nest_start}
use clonebox.Network.Messages.{veth_message}
use clonebox.Network.Encoding.{
  empty, netlink_message, header, aligned, buf-request, length-ifinfomsg, c_string, named,
}

module _ (endian : Endian) (host peer : Text) where
  -- The peer has a link header and a name of its own.
  abbrev pub peer_info : List ℕ
  peer_info =
      ifinfomsg_bytes endian (ifinfomsg_builder 0 0 0 0 0)
      ++ attribute endian ifla_ifname (c_string endian peer)

  -- The kind, and the data that only this kind of link has.
  abbrev pub link_info : List ℕ
  link_info =
      attribute endian ifla_info_kind (codes "veth")
      ++ attribute endian ifla_info_data (attribute endian veth_info_peer peer_info)

  abbrev front : List ℕ
  front = header endian rtm_newlink 0x605 ++ ifinfomsg_bytes endian (ifinfomsg_builder 0 0 0 0 0)

  abbrev name : List ℕ
  name = attribute endian ifla_ifname (c_string endian host)

  front_aligned : length front % 4 ≡ 0
  front_aligned =
      aligned endian rtm_newlink 0x605 (ifinfomsg_bytes endian (ifinfomsg_builder 0 0 0 0 0))
        (omega (arith, length-ifinfomsg endian 0 0 0 0 0))

  -- The writer after each step of the function.
  named_host : Writer
  named_host = pad_to_align (
      write_u8 endian 0 (
        write_bytes host (
          write_bytes
            (rtattr_bytes endian (rtattr_builder ((2 * 2 + length host + 1) % 2 ^ 16) ifla_ifname))
            (record { buf = front }))))

  buf-named_host : named_host.buf ≡ front ++ name
  unfolding named_host write_bytes write_u8
  buf-named_host =
      buf-leaf endian ifla_ifname _ (c_string endian host) front _ front_aligned (named endian host)
        (append_assoc _ host _)

  kind_written : Writer
  kind_written = pad_to_align (
      write_bytes (codes "veth") (
        write_bytes (rtattr_bytes endian (rtattr_builder 8 ifla_info_kind))
          (nest_start endian ifla_linkinfo named_host).1))

  started : List ℕ
  started = (nest_start endian ifla_linkinfo named_host).1.buf

  named_host_aligned : length named_host.buf % 4 ≡ 0
  named_host_aligned = omega (
    arith,
    ap length buf-named_host,
    length-append front name,
    front_aligned,
    length-attribute endian ifla_ifname (c_string endian host),
  )

  started_aligned : length started % 4 ≡ 0
  unfolding started
  started_aligned =
      omega (arith, length-nest_start endian ifla_linkinfo named_host, named_host_aligned)

  buf-kind_written : kind_written.buf ≡ started ++ attribute endian ifla_info_kind (codes "veth")
  unfolding kind_written started write_bytes
  buf-kind_written =
      buf-leaf endian ifla_info_kind 8 (codes "veth") _ _ (unfold started in started_aligned) refl
        refl

  data_started : Writer
  data_started = (nest_start endian ifla_info_data kind_written).1

  peer_started : Writer
  peer_started = (nest_start endian veth_info_peer data_started).1

  kind_written_aligned : length kind_written.buf % 4 ≡ 0
  kind_written_aligned = omega (
    arith,
    ap length buf-kind_written,
    length-append started (attribute endian ifla_info_kind (codes "veth")),
    started_aligned,
    length-attribute endian ifla_info_kind (codes "veth"),
  )

  data_started_aligned : length data_started.buf % 4 ≡ 0
  unfolding data_started
  data_started_aligned =
      omega (arith, length-nest_start endian ifla_info_data kind_written, kind_written_aligned)

  peer_started_aligned : length peer_started.buf % 4 ≡ 0
  unfolding peer_started
  peer_started_aligned =
      omega (arith, length-nest_start endian veth_info_peer data_started, data_started_aligned)

  peer_written : Writer
  peer_written = pad_to_align (
      write_u8 endian 0 (
        write_bytes peer (
          write_bytes
            (rtattr_bytes endian (rtattr_builder ((2 * 2 + length peer + 1) % 2 ^ 16) ifla_ifname))
            (write_bytes (ifinfomsg_bytes endian (ifinfomsg_builder 0 0 0 0 0)) peer_started))))

  buf-peer_written : peer_written.buf ≡ peer_started.buf ++ peer_info
  unfolding peer_written write_bytes write_u8
  buf-peer_written =
      let info = ifinfomsg_bytes endian (ifinfomsg_builder 0 0 0 0 0) in
      buf-leaf endian ifla_ifname _ (c_string endian peer) (peer_started.buf ++ info) _
        (omega (
          arith,
          length-append peer_started.buf info,
          peer_started_aligned,
          length-ifinfomsg endian 0 0 0 0 0,
        ))
        (named endian peer) (append_assoc _ peer _)
      ∙ append_assoc peer_started.buf info _

  peer_ended : Writer
  peer_ended = nest_end endian (nest_start endian veth_info_peer data_started).0 peer_written

  buf-peer_ended : peer_ended.buf ≡ data_started.buf ++ attribute endian veth_info_peer peer_info
  unfolding peer_ended peer_started
  buf-peer_ended =
      buf-nest endian veth_info_peer peer_info data_started peer_written data_started_aligned
        (unfold peer_started in buf-peer_written)

  data_ended : Writer
  data_ended = nest_end endian (nest_start endian ifla_info_data kind_written).0 peer_ended

  buf-data_ended : data_ended.buf ≡ started ++ link_info
  unfolding data_ended data_started
  buf-data_ended =
      buf-nest endian ifla_info_data _ kind_written peer_ended kind_written_aligned
        (unfold data_started in buf-peer_ended)
      ∙ rw buf-kind_written (append_assoc started _ _)

  link_ended : Writer
  link_ended = nest_end endian (nest_start endian ifla_linkinfo named_host).0 data_ended

  buf-link_ended : link_ended.buf ≡ (front ++ name) ++ attribute endian ifla_linkinfo link_info
  unfolding link_ended started
  buf-link_ended =
      buf-nest endian ifla_linkinfo link_info named_host data_ended named_host_aligned
        (unfold started in buf-data_ended)
      ∙ rw buf-named_host refl

  -- From an empty writer, the message of create_veth_pair is one RTM_NEWLINK request whose header counts
  -- all of it, with the host's name and, nested, the kind and the peer with its name: every length that
  -- was patched in afterwards is that of the attribute it stands in.
  pub veth_message_lem :
      (veth_message endian host peer empty).buf
      ≡ netlink_message endian rtm_newlink 0x605 (
          ifinfomsg_bytes endian (ifinfomsg_builder 0 0 0 0 0)
          ++ (name ++ attribute endian ifla_linkinfo link_info))
  unfolding veth_message link_ended data_ended peer_ended peer_written peer_started data_started
      kind_written named_host write_bytes
  veth_message_lem =
      buf-request endian rtm_newlink 0x605 (ifinfomsg_bytes endian (ifinfomsg_builder 0 0 0 0 0))
        (name ++ attribute endian ifla_linkinfo link_info) link_ended
        (buf-link_ended ∙ append_assoc front name _)
