-- ===== src/Network/Requests.antt =====
-- The requests of network.rs: what is sent, what comes back, and create_network, which makes them.
use clonebox.Prelude.{
  ℕ, ◌+◌, ◌-◌, ◌^◌, ◌==◌, ltb, leb, ◌&&◌, not, Bool, false, Text, codes, Option, none, some, List,
  [], ◌∷◌, ◌++◌, take, drop, ℤ, pos, negsuc, if◌then◌else◌,
}
use clonebox.Errors.{
  NetworkError, send_failure, recv_failure, netlink_failure, command_failure,
  failed_to_enter_namespace, from_network, from_namespace,
}
use clonebox.Os.{
  Os, Sys, Fd, panicked, pure, throw, halt, ◌>>=◌, ◌>>◌, attempt, fs_write, ask, open_file,
  open_netlink, bind_netlink, send, recv, setns, command_status,
}
use clonebox.Network.Words.{Endian, from_ne_bytes}
use clonebox.Network.Writer.{Writer, flush}
use clonebox.Network.Structs.{nlmsg_error}
use clonebox.Network.Messages.{
  veth_message, up_message, addr_message, netns_message, getlink_message, route_message,
}

-- sched.h
abbrev pub clone_newnet : ℕ
clone_newnet = 0x40000000

-- `as i32` of four bytes
abbrev pub as_i32 : ℕ → ℤ
as_i32 n = if ltb n (2 ^ 31) then pos n else negsuc (2 ^ 32 - n - 1)

abbrev neg : ℤ → ℤ
neg (pos n) = if n == 0 then pos 0 else negsuc (n - 1)
neg (negsuc n) = pos (n + 1)

-- The buffer that `recv` fills starts as zeros. No more than its first 24 bytes are looked at.
abbrev pub received : List ℕ → List ℕ
received bytes = take 24 (
    bytes
    ++ (0 ∷ 0 ∷ 0 ∷ 0 ∷ 0 ∷ 0 ∷ 0 ∷ 0 ∷ 0 ∷ 0 ∷ 0 ∷ 0 ∷ 0 ∷ 0 ∷ 0 ∷ 0 ∷ 0 ∷ 0 ∷ 0 ∷ 0 ∷ 0 ∷ 0 ∷ 0
        ∷ 0 ∷ []))

-- &container_id[..container_id.len().min(9)], or `none` where the slice ends inside a character
abbrev pub is_continuation : List ℕ → Bool
is_continuation [] = false
is_continuation (b ∷ bs) = leb 0x80 b && ltb b 0xC0

unfoldable pub name_suffix : Text → Option Text
name_suffix container_id =
    if is_continuation (drop 9 container_id) then none else some (take 9 container_id)

abbrev pub host_address : List ℕ
host_address = 10 ∷ 0 ∷ 0 ∷ 1 ∷ []

abbrev pub peer_address : List ℕ
peer_address = 10 ∷ 0 ∷ 0 ∷ 2 ∷ []

module _ (endian : Endian) where
  word : ℕ → ℕ → List ℕ → ℕ
  word at size bytes = from_ne_bytes endian (take size (drop at bytes))

  -- nlmsg_type of the header, error of nlmsgerr, and ifi_index of ifinfomsg behind the header
  abbrev pub reply_type : List ℕ → ℕ
  unfolding word
  reply_type bytes = word 4 2 (received bytes)

  abbrev pub reply_error : List ℕ → ℕ
  unfolding word
  reply_error bytes = word 16 4 (received bytes)

  unfoldable pub reply_index : List ℕ → ℕ
  unfolding word
  reply_index bytes = word 20 4 (received bytes)

  -- Whether a reply is an error with a code other than 0.
  unfoldable pub refuses : List ℕ → Bool
  unfolding reply_type reply_error
  refuses bytes = reply_type bytes == nlmsg_error && not (reply_error bytes == 0)

  module _ ⦃os : Os⦄ where
    netlink_text : List ℕ → Text
    unfolding reply_error
    netlink_text bytes =
        codes "netlink error: " ++ os.os_error_display (neg (as_i32 (reply_error bytes)))

    unfoldable pub recv_ack : Fd → Sys (Unit {0})
    unfolding ask refuses netlink_text
    recv_ack socket = do
      bytes ← attempt (λ e. from_network (recv_failure e)) (ask (recv socket))
      if refuses bytes then throw (from_network (netlink_failure (netlink_text bytes))) else pure tt

    unfoldable pub create_netlink_socket : Sys Fd
    unfolding ask
    create_netlink_socket = do
      socket ← attempt (λ e. from_network (NetworkError.create_socket_failure e)) (ask open_netlink)
      attempt (λ e. from_network (NetworkError.bind_failure e)) (ask (bind_netlink socket))
      pure socket

    -- What follows a message in the writer: `send`, and `flush`.
    unfoldable pub send_message : Fd → Writer → Sys Writer
    unfolding ask flush
    send_message socket w = do
      _ ← attempt (λ e. from_network (send_failure e)) (ask (send socket w.buf))
      pure (flush w)

    unfoldable pub transact : Fd → Writer → Sys Writer
    transact socket w = do w' ← send_message socket w; recv_ack socket; pure w'

    unfoldable pub create_veth_pair : Fd → Text → Text → Writer → Sys Writer
    unfolding transact
    create_veth_pair socket host peer w = transact socket (veth_message endian host peer w)

    unfoldable pub set_interface_up : Fd → ℕ → Writer → Sys Writer
    unfolding transact
    set_interface_up socket iface_id w = transact socket (up_message endian iface_id w)

    unfoldable pub set_ip_addr : Fd → ℕ → List ℕ → ℕ → Writer → Sys Writer
    unfolding transact
    set_ip_addr socket iface_id ip prefix_len w =
        transact socket (addr_message endian iface_id ip prefix_len w)

    unfoldable pub move_to_netns : Fd → ℕ → Fd → Writer → Sys Writer
    unfolding transact
    move_to_netns socket i_id child_fd w = transact socket (netns_message endian i_id child_fd w)

    unfoldable pub add_default_route : Fd → List ℕ → Writer → Sys Writer
    unfolding transact
    add_default_route socket ip w = transact socket (route_message endian ip w)

    unfoldable pub get_interface_index : Fd → Text → Writer → Sys (ℕ × Writer)
    unfolding ask refuses netlink_text
    get_interface_index socket i_name w = do
      w' ← send_message socket (getlink_message endian i_name w)
      bytes ← attempt (λ e. from_network (recv_failure e)) (ask (recv socket))
      if refuses bytes
          then throw (from_network (netlink_failure (netlink_text bytes)))
          else pure (reply_index bytes, w')

    -- setns, whose error is dropped
    unfoldable pub enter_net : Fd → Text → Sys (Unit {0})
    unfolding ask
    enter_net fd name =
        attempt (λ e. from_namespace (failed_to_enter_namespace name)) (ask (setns fd clone_newnet))

    unfoldable pub open_net : Text → Sys Fd
    unfolding ask
    open_net path = attempt (λ e. from_network (NetworkError.open_failure e)) (ask (open_file path))

    -- On the host's side: the pair, the host's address, and the peer's end into the other namespace.
    unfoldable pub configure_host : Text → Text → Fd → Writer → Sys (ℕ × Writer)
    configure_host host peer peer_ns_fd w = do
      host_sk ← create_netlink_socket
      w1 ← create_veth_pair host_sk host peer w
      (host_i_id, w2) ← get_interface_index host_sk host w1
      w3 ← set_ip_addr host_sk host_i_id host_address 24 w2
      w4 ← set_interface_up host_sk host_i_id w3
      (child_i_id, w5) ← get_interface_index host_sk peer w4
      w6 ← move_to_netns host_sk child_i_id peer_ns_fd w5
      pure (child_i_id, w6)

    -- In the container's namespace.
    unfoldable pub configure_child : ℕ → Writer → Sys Writer
    configure_child child_i_id w = do
      child_sk ← create_netlink_socket
      w1 ← set_ip_addr child_sk child_i_id peer_address 24 w
      w2 ← set_interface_up child_sk child_i_id w1
      w3 ← set_interface_up child_sk 1 w2
      add_default_route child_sk host_address w3

    -- Masquerading, by the file and the command that do it.
    unfoldable pub enable_forwarding : Sys (Unit {0})
    unfolding ask fs_write
    enable_forwarding = do
      attempt (λ e. from_network (NetworkError.write_failure e))
          (fs_write (codes "/proc/sys/net/ipv4/ip_forward") (codes "1"))
      _ ←
          attempt (λ e. from_network (command_failure e))
            (ask (
              command_status (codes "iptables") (
                codes "-t"
                ∷ codes "nat"
                ∷ codes "-A"
                ∷ codes "POSTROUTING"
                ∷ codes "-s"
                ∷ codes "10.0.0.0/24"
                ∷ codes "-o"
                ∷ codes "ens2"
                ∷ codes "-j"
                ∷ codes "MASQUERADE"
                ∷ [])))
      pure tt

    unfoldable pub connect_named : Fd → Fd → Option Text → Sys (Unit {0})
    connect_named host_ns_fd peer_ns_fd none = halt panicked
    connect_named host_ns_fd peer_ns_fd (some suffix) = do
      (child_i_id, w) ←
          configure_host suffix (suffix ++ codes "_peer") peer_ns_fd (record { buf = [] })
      enter_net peer_ns_fd (codes "peer_ns_fd")
      _ ← configure_child child_i_id w
      enter_net host_ns_fd (codes "host_ns_fd")
      enable_forwarding

    unfoldable pub create_network : Text → ℤ → Sys (Unit {0})
    create_network container_id child_pid = do
      host_ns_fd ← open_net (codes "/proc/self/ns/net")
      peer_ns_fd ← open_net (codes "/proc/" ++ (os.decimal child_pid ++ codes "/ns/net"))
      connect_named host_ns_fd peer_ns_fd (name_suffix container_id)
