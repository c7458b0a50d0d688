-- ===== src/Network/Encoding.antt =====
-- The messages of network.rs against their description: one header that counts the whole message, one
-- fixed struct, and a tree of attributes.
use mathlib.Core.List.{append_assoc, append-nil}
use mathlib.Core.Path.{subst}
use clonebox.Prelude.{
  ℕ, ◌+◌, ◌*◌, ◌%◌, ◌^◌, ◌≡◌, refl, sym, ◌∙◌, Text, List, [], ◌++◌, arith, length, length-append,
}
use clonebox.Network.Words.{Endian, to_ne_bytes, length-to_ne_bytes}
use clonebox.Network.Writer.{Writer, write_bytes, write_u8, write_u32, write_i32, pos, patch}
use clonebox.Network.Structs.{
  nlmsghdr_builder, nlmsghdr_bytes, ifinfomsg_builder, ifinfomsg_bytes, rtattr_builder,
  rtattr_bytes, ifaddrmsg_builder, ifaddrmsg_bytes, rtmsg_builder, rtmsg_bytes, rtm_newlink,
  rtm_getlink, rtm_newaddr, rtm_newroute, ifla_ifname, ifla_net_ns_fd, ifla_ext_mask, ifa_address,
  ifa_local, rta_gateway, iff_up,
}
use clonebox.Network.Attributes.{attribute}
use clonebox.Network.Nesting.{buf-patch, buf-leaf, length-attribute}
use clonebox.Network.Messages.{
  patch_total_len, up_message, addr_message, netns_message, getlink_message, route_message,
}

abbrev pub empty : Writer
empty = record { buf = [] }

module _ (endian : Endian) where
  -- A request whose header counts itself and the body.
  unfoldable pub netlink_message : ℕ → ℕ → List ℕ → List ℕ
  netlink_message type flags body =
      to_ne_bytes endian 4 ((16 + length body) % 2 ^ 32)
      ++ (to_ne_bytes endian 2 type
          ++ (to_ne_bytes endian 2 flags
              ++ (to_ne_bytes endian 4 0 ++ (to_ne_bytes endian 4 0 ++ body))))

  abbrev pub header : ℕ → ℕ → List ℕ
  header type flags = nlmsghdr_bytes endian (nlmsghdr_builder 0 type flags 0 0)

  length-header : (type flags : ℕ) → length (header type flags) ≡ 16
  unfolding nlmsghdr_bytes
  length-header type flags = ground (
    arith,
    length-append (to_ne_bytes endian 4 0) (
        to_ne_bytes endian 2 type
        ++ (to_ne_bytes endian 2 flags ++ (to_ne_bytes endian 4 0 ++ to_ne_bytes endian 4 0))),
    length-append (to_ne_bytes endian 2 type)
        (to_ne_bytes endian 2 flags ++ (to_ne_bytes endian 4 0 ++ to_ne_bytes endian 4 0)),
    length-append (to_ne_bytes endian 2 flags) (to_ne_bytes endian 4 0 ++ to_ne_bytes endian 4 0),
    length-append (to_ne_bytes endian 4 0) (to_ne_bytes endian 4 0),
    length-to_ne_bytes endian 4 0,
    length-to_ne_bytes endian 2 type,
    length-to_ne_bytes endian 2 flags,
  )

  -- The last step of each function fills in the length.
  buf-patch_total_len :
      (type flags : ℕ) (body : List ℕ) (w : Writer)
      → w.buf ≡ header type flags ++ body
      → (patch_total_len endian w).buf ≡ netlink_message type flags body
  unfolding patch_total_len pos nlmsghdr_bytes netlink_message
  buf-patch_total_len type flags body w e =
      subst
        (λ (b : List ℕ).
          (patch 0 (to_ne_bytes endian 4 (length b % 2 ^ 32)) (record { buf = b })).buf
          ≡ netlink_message type flags body)
        (sym e)
        (rw (total, append_assoc)
          (buf-patch [] (to_ne_bytes endian 4 0) _ _
              (length-to_ne_bytes endian 4 0 ∙ sym (length-to_ne_bytes endian 4 _))
            ∙ simp append_assoc))
    where
      total : length (header type flags ++ body) ≡ 16 + length body
      total = omega (arith, length-append (header type flags) body, length-header type flags)

  pub buf-request :
      (type flags : ℕ) (fixed attributes : List ℕ) (w : Writer)
      → w.buf ≡ (header type flags ++ fixed) ++ attributes
      → (patch_total_len endian w).buf ≡ netlink_message type flags (fixed ++ attributes)
  buf-request type flags fixed attributes w e =
      buf-patch_total_len type flags (fixed ++ attributes) w
        (e ∙ append_assoc (header type flags) fixed attributes)

  pub length-ifinfomsg :
      (family type index flags change : ℕ)
      → length (ifinfomsg_bytes endian (ifinfomsg_builder family type index flags change)) ≡ 16
  unfolding ifinfomsg_bytes
  length-ifinfomsg family type index flags change = grind (arith, length-append, length-to_ne_bytes)

  length-rtmsg :
      (family dst src tos table protocol scope type flags : ℕ)
      → length
          (rtmsg_bytes endian (rtmsg_builder family dst src tos table protocol scope type flags))
        ≡ 12
  unfolding rtmsg_bytes
  length-rtmsg family dst src tos table protocol scope type flags =
      grind (arith, length-append, length-to_ne_bytes)

  -- What stands before the attributes keeps them aligned.
  pub aligned :
      (type flags : ℕ) (fixed : List ℕ)
      → length fixed % 4 ≡ 0
      → length (header type flags ++ fixed) % 4 ≡ 0
  aligned type flags fixed h =
      omega (arith, length-append (header type flags) fixed, length-header type flags)

  eight : (payload : List ℕ) → length payload ≡ 4 → 8 ≡ (4 + length payload) % 2 ^ 16
  eight payload h = rw h

  attribute_of_four :
      (type : ℕ) (payload : List ℕ)
      → length payload ≡ 4
      → attribute endian type payload ≡ rtattr_bytes endian (rtattr_builder 8 type) ++ payload
  unfolding attribute rtattr_bytes
  attribute_of_four type payload h = rw (h, append-nil) (simp append_assoc)

  -- From an empty writer, the message of set_interface_up is one RTM_NEWLINK request whose header counts
  -- all of it, with the index of the interface, IFF_UP as its flags and as the mask of what changes, and no
  -- attribute.
  pub up_message_lem :
      (iface_id : ℕ)
      → (up_message endian iface_id empty).buf
        ≡ netlink_message rtm_newlink 5
            (ifinfomsg_bytes endian (ifinfomsg_builder 0 0 iface_id iff_up 1))
  unfolding up_message write_bytes
  up_message_lem iface_id = buf-patch_total_len rtm_newlink 5 _ _ refl

  -- From an empty writer, the message of set_ip_addr is one RTM_NEWADDR request whose header counts
  -- all of it, with the prefix length, the index of the interface, and the address, which has to have
  -- four bytes, as the local address and as the address.
  pub addr_message_lem :
      (iface_id prefix_len : ℕ) (ip : List ℕ)
      → length ip ≡ 4
      → (addr_message endian iface_id ip prefix_len empty).buf
        ≡ netlink_message rtm_newaddr 0x605 (
            ifaddrmsg_bytes endian (ifaddrmsg_builder 2 prefix_len 0 0 iface_id)
            ++ (attribute endian ifa_local ip ++ attribute endian ifa_address ip))
  unfolding addr_message write_bytes
  addr_message_lem iface_id prefix_len ip h = buf-patch_total_len rtm_newaddr 0x605 _ _ (
      rw (attribute_of_four ifa_local ip h, attribute_of_four ifa_address ip h) (simp append_assoc))

  -- From an empty writer, the message of move_to_netns is one RTM_NEWLINK request whose header counts
  -- all of it, with the index of the interface and the descriptor of the namespace.
  pub netns_message_lem :
      (i_id fd : ℕ)
      → (netns_message endian i_id fd empty).buf
        ≡ netlink_message rtm_newlink 5 (
            ifinfomsg_bytes endian (ifinfomsg_builder 0 0 i_id 0 0)
            ++ attribute endian ifla_net_ns_fd (to_ne_bytes endian 4 fd))
  unfolding netns_message write_bytes write_i32
  netns_message_lem i_id fd = buf-request rtm_newlink 5 _ _ _ (
      buf-leaf endian ifla_net_ns_fd 8 (to_ne_bytes endian 4 fd) _ _
        (aligned rtm_newlink 5 _ (omega (arith, length-ifinfomsg 0 0 i_id 0 0)))
        (eight _ (length-to_ne_bytes endian 4 fd)) refl)

  -- From an empty writer, the message of add_default_route is one RTM_NEWROUTE request whose header counts
  -- all of it, with the main table, a destination of no bits, and the gateway, which has to have four
  -- bytes.
  pub route_message_lem :
      (ip : List ℕ)
      → length ip ≡ 4
      → (route_message endian ip empty).buf
        ≡ netlink_message rtm_newroute 0x605 (
            rtmsg_bytes endian (rtmsg_builder 2 0 0 0 254 3 0 1 0)
            ++ attribute endian rta_gateway ip)
  unfolding route_message write_bytes
  route_message_lem ip h = buf-request rtm_newroute 0x605 _ _ _ (
      buf-leaf endian rta_gateway 8 ip _ _
        (aligned rtm_newroute 0x605 _ (omega (arith, length-rtmsg 2 0 0 0 254 3 0 1 0)))
        (eight ip h) refl)

  abbrev pub c_string : Text → List ℕ
  c_string name = name ++ to_ne_bytes endian 1 0

  pub named :
      (name : Text) → (2 * 2 + length name + 1) % 2 ^ 16 ≡ (4 + length (c_string name)) % 2 ^ 16
  named name =
      omega (arith, length-append name (to_ne_bytes endian 1 0), length-to_ne_bytes endian 1 0)

  -- From an empty writer, the message of get_interface_index is one RTM_GETLINK request whose header counts
  -- all of it, with the mask of what to leave out and the name of the interface, ended by a zero.
  pub getlink_message_lem :
      (name : Text)
      → (getlink_message endian name empty).buf
        ≡ netlink_message rtm_getlink 1 (
            ifinfomsg_bytes endian (ifinfomsg_builder 0 0 0 0 0)
            ++ (attribute endian ifla_ext_mask (to_ne_bytes endian 4 9)
                ++ attribute endian ifla_ifname (c_string name)))
  unfolding getlink_message write_bytes write_u8 write_u32
  getlink_message_lem name = buf-request rtm_getlink 1 _ _ _ (
      buf-leaf endian ifla_ifname _ (c_string name) (front ++ mask) _
        (omega (
          arith,
          length-append front mask,
          front_aligned,
          length-attribute endian ifla_ext_mask (to_ne_bytes endian 4 9),
        ))
        (named name)
        (rw
          (buf-leaf endian ifla_ext_mask 8 (to_ne_bytes endian 4 9) front _ front_aligned
            (eight _ (length-to_ne_bytes endian 4 9)) refl)
          (append_assoc _ name _))
      ∙ append_assoc front mask _)
    where
      front : List ℕ
      front = header rtm_getlink 1 ++ ifinfomsg_bytes endian (ifinfomsg_builder 0 0 0 0 0)

      mask : List ℕ
      mask = attribute endian ifla_ext_mask (to_ne_bytes endian 4 9)

      front_aligned : length front % 4 ≡ 0
      front_aligned = aligned rtm_getlink 1 _ (omega (arith, length-ifinfomsg 0 0 0 0 0))
