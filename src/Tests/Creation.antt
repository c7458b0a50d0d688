-- ===== src/Tests/Creation.antt =====
-- A whole `create`, on a machine where every call works: the child has the number 42, and exits with 7.
use clonebox.Prelude.{
  Text, codes, ◌≡◌, refl, ap, true, none, some, [], ◌∷◌, pos, if◌then◌else◌, text_eq, starts_with,
  contains,
}
use clonebox.Errors.{JsonError}
use clonebox.State.File.{write_state_file, read_state_file, update_state}
use clonebox.Logger.{open_log_file, write_log_file}
use clonebox.Event.{Event}
use clonebox.Event.Sending.{send_event}
use clonebox.Cgroup.{
  create_cgroup, init_resources, enable_controller, set_cgroup, cgroup_file, get_child_cgroup_path,
  get_root_cgroup_path, get_app_cgroup_path,
}
use clonebox.Clone3.{build, missing, clone_args, cgroup, flags}
use clonebox.Os.Disk.{content}
use clonebox.State.{set_created, set_stopped, creating, get_bundle_path, get_state_path}
use clonebox.Config.{
  Config, load, get_root_path, get_process_args, get_process_env, get_process_cwd,
}
use clonebox.Runtime.{new, freeze_child, parent_child_pipe, unfreeze_child, parent_proc_socket}
use clonebox.Lifecycle.{kills, next}
use clonebox.Network.Words.{little, from_ne_bytes}
use clonebox.Network.Connected.{Connected}
use clonebox.Network.Requests.{
  create_network, connect_named, name_suffix, configure_host, configure_child,
  create_netlink_socket, create_veth_pair, set_ip_addr, set_interface_up, move_to_netns,
  add_default_route, get_interface_index, transact, recv_ack, enter_net, open_net, refuses,
  enable_forwarding, send_message,
}
use clonebox.Namespace.{
  make_child_private, set_child_hostname, mount_child, bind_first, mount_overlay, pre_pivot_mount,
  do_pivot_root, post_pivot_mount, do_default_mounts, child_try,
}
use clonebox.Container.Exec.{container_exec}
use clonebox.Container.Create.{
  create, create_child, create_bundle, create_process, set_up_child, first_state, fill_bundle,
  run_child, make_bundle_dir, notify,
}
use clonebox.Container.Create.Phases.{recorded_first, SetUp, create-SetUp}
use clonebox.Container.Create.Cloned.{Clones, create_process-Clones}
use clonebox.Container.Exec.Trace.{trace}
use clonebox.Container.Create.Isolated.{Isolated, create_child-Isolated}
use clonebox.Daemon.{Daemon, ContainerEntry}
use clonebox.Os.Disk.{Disk, stored}
use clonebox.Os.{path_exists, Os, Reply, success, History, ok, gone, replaced}
use clonebox.Tests.World.{machine_on, machine_on-IsFaithful}

abbrev id : Text
id = codes "box"

abbrev sp : Text
sp = codes "/run/clonebox/event.sk"

-- No state file, and the same text in all other files.
abbrev disk : Disk
disk = record {
  files = λ path.
      if text_eq path (codes "/run/clonebox/box/state.json")
      then none
      else some (codes "cpu memory");
  torn = λ n path. none;
  lost = λ n path. true;
}

abbrev config : Config
config = record {
  oci_version = codes "1.0.1";
  process = some (record { env = none; args = some (codes "/bin/sh" ∷ []); cwd = codes "/" });
  root = some (record { path = codes "/root"; readonly = none });
  mounts = none;
  hostname = none;
}

abbrev from_json : Text → Reply JsonError Config
from_json t = success config

instance abbrev world : Os
world = machine_on disk

child_runs : (create_child (codes "/b") config (new (some 7) (some 8) none) 5 []).0 ≡ gone replaced
unfolding create_child make_child_private set_child_hostname mount_child bind_first mount_overlay
    pre_pivot_mount do_pivot_root post_pivot_mount do_default_mounts freeze_child container_exec
    get_root_path get_process_args get_process_env get_process_cwd child_try
child_runs = refl

-- The same with a state file that always reads the same.
abbrev plain : Os
plain = record world {
  state_to_json = λ s. success [];
  state_from_json = λ t. success (first_state id config);
}

abbrev bundled_at : History
bundled_at = (create_bundle from_json id (codes "/c") (some sp) []).1

bundled : create_bundle from_json id (codes "/c") (some sp) [] ≡ (ok (config, 5), bundled_at)
unfolding create create_bundle fill_bundle create_process set_up_child run_child make_bundle_dir
    notify load open_log_file write_log_file send_event write_state_file read_state_file
    update_state create_cgroup init_resources enable_controller set_cgroup parent_child_pipe
    unfreeze_child parent_proc_socket build missing clone_args get_root_path get_process_args
    path_exists content get_state_path get_bundle_path cgroup_file get_child_cgroup_path
    get_root_cgroup_path get_app_cgroup_path create_network connect_named name_suffix configure_host
    configure_child create_netlink_socket create_veth_pair set_ip_addr set_interface_up
    move_to_netns add_default_route get_interface_index transact recv_ack enter_net open_net refuses
    enable_forwarding send_message from_ne_bytes text_eq starts_with set_created set_stopped
    contains cgroup flags
bundled = refl

abbrev cloned_at : History
cloned_at = (create_process id bundled_at).1

cloned : create_process id bundled_at ≡ (ok (new (some 7) (some 8) none, pos 42), cloned_at)
unfolding create create_bundle fill_bundle create_process set_up_child run_child make_bundle_dir
    notify load open_log_file write_log_file send_event write_state_file read_state_file
    update_state create_cgroup init_resources enable_controller set_cgroup parent_child_pipe
    unfreeze_child parent_proc_socket build missing clone_args get_root_path get_process_args
    path_exists content get_state_path get_bundle_path cgroup_file get_child_cgroup_path
    get_root_cgroup_path get_app_cgroup_path create_network connect_named name_suffix configure_host
    configure_child create_netlink_socket create_veth_pair set_ip_addr set_interface_up
    move_to_netns add_default_route get_interface_index transact recv_ack enter_net open_net refuses
    enable_forwarding send_message from_ne_bytes text_eq starts_with set_created set_stopped
    contains cgroup flags
cloned = refl

create-SetUp_example :
    let first = recorded_first id config in
    let (r, h3) = set_up_child little id (some sp) (pos 42) cloned_at in
    (stored world disk bundled_at id ≡ some first)
    × (stored world disk cloned_at id ≡ some first)
    × (next kills first ≡ none)
    × SetUp id config (pos 42) r h3 (stored world disk h3 id)
create-SetUp_example =
    create-SetUp (machine_on-IsFaithful disk) id little from_json (codes "/c") (some sp) config 5
      (new (some 7) (some 8) none) (pos 42) kills [] bundled_at cloned_at bundled cloned

create_child-Isolated_example :
    Isolated 7 [] (create_child (codes "/b") config (new (some 7) (some 8) none) 5 []).1
create_child-Isolated_example =
    create_child-Isolated (codes "/b") config (new (some 7) (some 8) none) 5 7 refl [] child_runs

-- The daemon has the container, and one request waits for its exit.
abbrev entry : ContainerEntry
entry = record { state = creating; created_waiter = some 0; exit_waiter = 1 ∷ [] }

abbrev daemon : Daemon
daemon = record { containers = (id, entry) ∷ []; notices = []; next_sender = 2 }

-- The directory of the container is there.
abbrev taken : Os
taken = record plain { exists = λ h p. true }

create_process-Clones_example :
    Clones id
      (new (some 7) (some 8) none)
      (pos 42)
      (trace bundled_at)
      (trace (create_process id bundled_at).1)
create_process-Clones_example =
    create_process-Clones id (new (some 7) (some 8) none, pos 42) bundled_at (ap (λ o. o.0) cloned)
