-- ===== src/Container/Create/Quiet.antt =====
-- The steps of `create` that neither touch the state files nor tell the daemon anything.
use clonebox.Prelude.{ℕ, Text, refl, Option, none, some, List, [], ◌∷◌, ℤ, arith, starts_with}
use clonebox.Errors.{JsonError}
use clonebox.Config.{Config, load}
use clonebox.Clone3.{Clone3, build}
use clonebox.Cgroup.{
  create_cgroup, init_resources, enable_controller, set_cgroup, cgroup_file, get_root_cgroup_path,
  get_app_cgroup_path, get_child_cgroup_path,
}
use clonebox.Runtime.{Runtime, parent_child_pipe, unfreeze_child, parent_proc_socket}
use clonebox.Logger.{open_log_file}
use clonebox.Network.Words.{Endian}
use clonebox.Network.Writer.{Writer}
use clonebox.Network.Messages.{getlink_message}
use clonebox.Network.Requests.{
  create_network, create_netlink_socket, send_message, recv_ack, create_veth_pair, set_interface_up,
  set_ip_addr, move_to_netns, add_default_route, get_interface_index, configure_host,
  configure_child, enter_net, open_net, enable_forwarding, connect_named,
}
use clonebox.Container.Create.{make_bundle_dir, create_process}
use clonebox.Os.{Os, Reply, Fd}
use clonebox.Os.Loud.{loud, IsQuiet}

module _ ⦃os : Os⦄ where
  parent_child_pipe-IsQuiet : (r : Runtime) → IsQuiet (parent_child_pipe r)
  unfolding parent_child_pipe loud
  parent_child_pipe-IsQuiet r h = ground arith

  pub unfreeze_child-IsQuiet : (r : Runtime) → IsQuiet (unfreeze_child r)
  unfolding unfreeze_child loud
  unfreeze_child-IsQuiet r h = ground arith

  pub parent_proc_socket-IsQuiet : (id : Text) (r : Runtime) → IsQuiet (parent_proc_socket id r)
  unfolding parent_proc_socket loud
  parent_proc_socket-IsQuiet id r h = ground arith

  pub load-IsQuiet :
      (from_json : Text → Reply JsonError Config) (p : Text) → IsQuiet (load from_json p)
  unfolding load loud
  load-IsQuiet from_json p h = ground arith

  pub open_log_file-IsQuiet : (p : Text) → IsQuiet (open_log_file p)
  unfolding open_log_file loud
  open_log_file-IsQuiet p h = ground arith

  pub make_bundle_dir-IsQuiet : (p : Text) → IsQuiet (make_bundle_dir p)
  unfolding make_bundle_dir loud
  make_bundle_dir-IsQuiet p h = ground arith

  build-IsQuiet : (sp tp : ℕ) (c : Clone3) → IsQuiet (build sp tp c)
  unfolding build loud
  build-IsQuiet sp tp c h = ground arith

  create_cgroup-IsQuiet : (name : Text) → IsQuiet (create_cgroup name)
  unfolding create_cgroup loud
  create_cgroup-IsQuiet name h = ground arith

  pub set_cgroup-IsQuiet :
      (id key value suffix : Text)
      → IsQuiet (set_cgroup (get_child_cgroup_path id) key value suffix)
  unfolding set_cgroup loud get_child_cgroup_path cgroup_file starts_with
  set_cgroup-IsQuiet id key value suffix h = ground arith

  enable_root-IsQuiet : (r : Text) → IsQuiet (enable_controller get_root_cgroup_path r)
  unfolding enable_controller loud get_root_cgroup_path starts_with
  enable_root-IsQuiet r h = ground arith

  enable_app-IsQuiet : (r : Text) → IsQuiet (enable_controller get_app_cgroup_path r)
  unfolding enable_controller loud get_app_cgroup_path starts_with
  enable_app-IsQuiet r h = ground arith

  init_resources-IsQuiet :
      (path : Text)
      → ((r : Text) → IsQuiet (enable_controller path r))
      → (rs : List Text) → IsQuiet (init_resources path rs)
  unfolding init_resources
  init_resources-IsQuiet path quiet [] h = refl
  init_resources-IsQuiet path quiet (r ∷ rs) h =
      let rest = init_resources-IsQuiet path quiet rs (enable_controller path r h).1 in
      ground (arith, quiet r h, rest)

  pub create_process-IsQuiet : (id : Text) → IsQuiet (create_process id)
  unfolding create_process
  create_process-IsQuiet id h = grind (
    arith,
    create_cgroup-IsQuiet,
    init_resources-IsQuiet get_root_cgroup_path enable_root-IsQuiet,
    init_resources-IsQuiet get_app_cgroup_path enable_app-IsQuiet,
    parent_child_pipe-IsQuiet,
    build-IsQuiet,
  )

  module _ (e : Endian) where
    recv_ack-IsQuiet : (fd : Fd) → IsQuiet (recv_ack e fd)
    unfolding recv_ack loud
    recv_ack-IsQuiet fd h = ground arith

    create_netlink_socket-IsQuiet : IsQuiet (create_netlink_socket e)
    unfolding create_netlink_socket loud
    create_netlink_socket-IsQuiet h = ground arith

    send_message-IsQuiet : (fd : Fd) (w : Writer) → IsQuiet (send_message e fd w)
    unfolding send_message loud
    send_message-IsQuiet fd w h = ground arith

    create_veth_pair-IsQuiet :
        (fd : Fd) (host peer : Text) (w : Writer) → IsQuiet (create_veth_pair e fd host peer w)
    unfolding create_veth_pair
    create_veth_pair-IsQuiet fd host peer w h =
        grind (arith, send_message-IsQuiet, recv_ack-IsQuiet)

    set_interface_up-IsQuiet : (fd : Fd) (i : ℕ) (w : Writer) → IsQuiet (set_interface_up e fd i w)
    unfolding set_interface_up
    set_interface_up-IsQuiet fd i w h = grind (arith, send_message-IsQuiet, recv_ack-IsQuiet)

    set_ip_addr-IsQuiet :
        (fd : Fd) (i : ℕ) (ip : List ℕ) (n : ℕ) (w : Writer) → IsQuiet (set_ip_addr e fd i ip n w)
    unfolding set_ip_addr
    set_ip_addr-IsQuiet fd i ip n w h = grind (arith, send_message-IsQuiet, recv_ack-IsQuiet)

    move_to_netns-IsQuiet :
        (fd : Fd) (i : ℕ) (ns : Fd) (w : Writer) → IsQuiet (move_to_netns e fd i ns w)
    unfolding move_to_netns
    move_to_netns-IsQuiet fd i ns w h = grind (arith, send_message-IsQuiet, recv_ack-IsQuiet)

    add_default_route-IsQuiet :
        (fd : Fd) (ip : List ℕ) (w : Writer) → IsQuiet (add_default_route e fd ip w)
    unfolding add_default_route
    add_default_route-IsQuiet fd ip w h = grind (arith, send_message-IsQuiet, recv_ack-IsQuiet)

    get_interface_index-IsQuiet :
        (fd : Fd) (name : Text) (w : Writer) → IsQuiet (get_interface_index e fd name w)
    unfolding get_interface_index loud
    get_interface_index-IsQuiet fd name w h =
        ground (arith, send_message-IsQuiet fd (getlink_message e name w) h)

    configure_host-IsQuiet :
        (host peer : Text) (ns : Fd) (w : Writer) → IsQuiet (configure_host e host peer ns w)
    unfolding configure_host
    configure_host-IsQuiet host peer ns w h = grind (
      arith, create_netlink_socket-IsQuiet, create_veth_pair-IsQuiet, get_interface_index-IsQuiet,
      set_ip_addr-IsQuiet, set_interface_up-IsQuiet, move_to_netns-IsQuiet,
    )

    configure_child-IsQuiet : (i : ℕ) (w : Writer) → IsQuiet (configure_child e i w)
    unfolding configure_child
    configure_child-IsQuiet i w h = grind (
      arith, create_netlink_socket-IsQuiet, set_ip_addr-IsQuiet, set_interface_up-IsQuiet,
      add_default_route-IsQuiet,
    )

    enter_net-IsQuiet : (fd : Fd) (name : Text) → IsQuiet (enter_net e fd name)
    unfolding enter_net loud
    enter_net-IsQuiet fd name h = ground arith

    open_net-IsQuiet : (p : Text) → IsQuiet (open_net e p)
    unfolding open_net loud
    open_net-IsQuiet p h = ground arith

    enable_forwarding-IsQuiet : IsQuiet (enable_forwarding e)
    unfolding enable_forwarding loud starts_with
    enable_forwarding-IsQuiet h = ground arith

    connect_named-IsQuiet :
        (host_ns peer_ns : Fd) (suffix : Option Text)
        → IsQuiet (connect_named e host_ns peer_ns suffix)
    unfolding connect_named
    connect_named-IsQuiet host_ns peer_ns none h = refl
    connect_named-IsQuiet host_ns peer_ns (some suffix) h = grind (
      arith, configure_host-IsQuiet, configure_child-IsQuiet, enter_net-IsQuiet,
      enable_forwarding-IsQuiet,
    )

    pub create_network-IsQuiet : (id : Text) (pid : ℤ) → IsQuiet (create_network e id pid)
    unfolding create_network
    create_network-IsQuiet id pid h = grind (arith, open_net-IsQuiet, connect_named-IsQuiet)
