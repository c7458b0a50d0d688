-- ===== src/Network/Connected.antt =====
-- The whole of create_network: its requests and their replies, in their order, and the namespaces that
-- it enters.
use clonebox.Prelude.{ℕ, Text, ◌≡◌, some}
use clonebox.Network.Words.{Endian}
use clonebox.Network.Writer.{Writer}
use clonebox.Network.Requests.{name_suffix}
use clonebox.Network.Sent.{Wires, empty, index_of}
use clonebox.Os.{Os, Fd}
use clonebox.Network.Expected.{onto, HostReplies, ChildReplies, host_wires, child_wires, exchanges}

module _ (e : Endian) where
  module _ ⦃os : Os⦄ where
    abbrev HostDone : Text → Fd → Wires → ℕ × Writer → Wires → Type 0
    HostDone suffix peer_ns before made after =
        (sk : Fd) × (r : HostReplies e) × (made ≡ (index_of e r.peer_link.0, empty))
        × (after ≡ host_wires e sk peer_ns r suffix before)

    abbrev ChildDone : ℕ → Wires → Writer → Wires → Type 0
    ChildDone j before w after =
        (sk : Fd) × (r : ChildReplies e) × (after ≡ child_wires e sk j r before)

    -- The name is cut from the id, and the sockets and the replies are the same wherever they are used.
    abbrev pub Connected : Text → Fd → Fd → Wires → Wires → Type 0
    Connected id host_ns peer_ns before after =
        (suffix : Text) × (host_sk : Fd) × (child_sk : Fd) × (r : HostReplies e) × (c : ChildReplies
          e)
        × (name_suffix id ≡ some suffix)
        × (after ≡ onto (exchanges e suffix host_sk child_sk host_ns peer_ns r c) before)
