-- ===== src/Tests/Messages.antt =====
-- Network.antt on small messages and buffers.
use clonebox.Prelude.{ℕ, codes, ◌≡◌, List, [], ◌∷◌, ◌++◌, arith, length, take, some, ◌<◌, ◌%◌}
use clonebox.Errors.{from_network, read_out_of_range}
use clonebox.Os.{success, failure}
use clonebox.Network.Words.{from_ne_bytes, little, to_ne_bytes}
use clonebox.Network.Writer.{Writer, pad_to_align, pad_to_align_lem, zeros}
use clonebox.Network.Reader.{read_u32, read_u32-to_ne_bytes, read_u32_last}
use clonebox.Network.Structs.{
  rtm_newlink, ifla_ifname, ifla_linkinfo, ifla_info_kind, ifla_info_data, veth_info_peer,
  ifinfomsg_builder, ifinfomsg_bytes,
}
use clonebox.Network.Attributes.{attribute}
use clonebox.Network.Messages.{veth_message}
use clonebox.Network.Encoding.{empty, netlink_message, c_string}
use clonebox.Network.Names.{find_nested, find_nested-veth_message}
use clonebox.Network.Veth.{link_info, veth_message_lem}

abbrev host : List ℕ
host = codes "cbox0h"

veth_message_lem_example :
    (veth_message little host (codes "eth0") empty).buf
    ≡ netlink_message little rtm_newlink 0x605 (
        ifinfomsg_bytes little (ifinfomsg_builder 0 0 0 0 0)
        ++ (attribute little ifla_ifname (c_string little host)
            ++ attribute little ifla_linkinfo (link_info little host (codes "eth0"))))
veth_message_lem_example = veth_message_lem little host (codes "eth0")

abbrev ip : List ℕ
ip = 10 ∷ 0 ∷ 0 ∷ 2 ∷ []

abbrev five : Writer
five = record { buf = 1 ∷ 2 ∷ 3 ∷ 4 ∷ 5 ∷ [] }

pad_to_align_lem_example :
    (n : ℕ) × (n < 4)
    × ((pad_to_align five).buf ≡ five.buf ++ zeros n)
    × (length (pad_to_align five).buf % 4 ≡ 0)
pad_to_align_lem_example = pad_to_align_lem five

read_u32-to_ne_bytes_example :
    read_u32 little (record { buf = 1 ∷ (to_ne_bytes little 4 258 ++ (9 ∷ [])); cursor = 1 })
    ≡ success (258, record { buf = 1 ∷ (to_ne_bytes little 4 258 ++ (9 ∷ [])); cursor = 5 })
read_u32-to_ne_bytes_example =
    read_u32-to_ne_bytes little 258 (1 ∷ []) (9 ∷ []) (omega arith) (λ p. ground arith)

read_u32_last_example :
    read_u32 little (record { buf = 1 ∷ to_ne_bytes little 4 258; cursor = 1 })
    ≡ failure (from_network read_out_of_range)
read_u32_last_example = read_u32_last little 258 (1 ∷ [])

abbrev pair : List ℕ
pair = (veth_message little host (codes "eth0") empty).buf

find_nested-veth_message_example :
    (from_ne_bytes little (take 4 pair) ≡ length pair)
    × (find_nested little ((32, ifla_ifname) ∷ []) pair ≡ some (c_string little host))
    × (find_nested little ((32, ifla_linkinfo) ∷ (0, ifla_info_kind) ∷ []) pair
        ≡ some (codes "veth"))
    × (find_nested little
          ((32, ifla_linkinfo) ∷ (0, ifla_info_data) ∷ (0, veth_info_peer) ∷ (16, ifla_ifname) ∷ [])
          pair
        ≡ some (c_string little (codes "eth0")))
find_nested-veth_message_example =
    find_nested-veth_message little host (codes "eth0") (omega arith) (omega arith)
