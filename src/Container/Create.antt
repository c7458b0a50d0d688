-- ===== src/Container/Create.antt =====
-- clonebox-core/src/container.rs: `create`, in the process that calls it and in its child. The child is
-- a copy, so it runs on the history of the parent up to the clone.
pub mod Reports
pub mod Quiet
pub mod Phases
pub mod Waited
pub mod Story
pub mod Unheard
pub mod Isolated
pub mod Cloned
use clonebox.Prelude.{
  ℕ, zero, ◌+◌, Text, codes, ◌++◌, Bool, true, false, Option, none, some, List, [], ◌∷◌, unwrap_or,
  ℤ, pos, if◌then◌else◌,
}
use clonebox.Errors.{
  JsonError, SystemError, system_error, wait, container_already_exists, from_clone,
}
use clonebox.State.{State, creating, created, stopped, set_created, set_stopped, get_bundle_path}
use clonebox.State.File.{write_state_file, update_state}
use clonebox.Event
use clonebox.Event.{Event, update_exit_code}
use clonebox.Event.Sending.{send_event}
use clonebox.Config.{
  Config, Mount, load, get_root_path, get_process_args, get_process_env, get_process_cwd,
}
use clonebox.Logger.{open_log_file, write_log_file}
use clonebox.Runtime
use clonebox.Runtime.{Runtime, parent_child_pipe, freeze_child, unfreeze_child, parent_proc_socket}
use clonebox.Cgroup.{
  create_cgroup, init_resources, set_cgroup, get_root_cgroup_path, get_app_cgroup_path,
  get_child_cgroup_path,
}
use clonebox.Clone3
use clonebox.Clone3.{Clone3, flags, cgroup, build}
use clonebox.Namespace.{
  make_child_private, set_child_hostname, pre_pivot_mount, do_pivot_root, post_pivot_mount,
  do_default_mounts,
}
use clonebox.Network.Words.{Endian}
use clonebox.Network.Requests.{create_network, clone_newnet}
use clonebox.Container.Exec.{container_exec, clone_newns, clone_newuts, clone_newpid}
use clonebox.Os.{
  Os, Reply, success, failure, sigchld, Fd, WaitStatus, exited_with, Sys, pure, throw, ◌>>=◌, ◌>>◌,
  attempt, path_exists, ask, create_dir_all, set_permissions, waitpid,
}

abbrev pub is_zero : ℤ → Bool
is_zero (pos zero) = true
is_zero _ = false

-- The state that is written first.
abbrev pub first_state : Text → Config → State
first_state container_id config = record {
  oci_version = config.oci_version;
  id = container_id;
  status = creating;
  pid = none;
  bundle = get_bundle_path container_id;
  annotations = none;
}

abbrev pub first_event : Text → Event
first_event container_id = record { id = container_id; state = creating; exit_code = some (pos 0) }

abbrev pub created_event : Text → Event
created_event container_id = Event.update_state created (first_event container_id)

-- `if let WaitStatus::Exited(_, i)`: the code stays 0 for a child that was killed.
abbrev pub with_exit : WaitStatus → Event → Event
with_exit (exited_with pid i) e = update_exit_code i e
with_exit _ e = e

abbrev pub last_event : Text → WaitStatus → Event
last_event container_id child_return =
    Event.update_state stopped (with_exit child_return (created_event container_id))

abbrev pub clone_flags : ℕ
clone_flags = clone_newpid + clone_newuts + clone_newns + clone_newnet

module _ ⦃os : Os⦄ where
  -- `if let Some(sp) = socket_path`
  unfoldable pub notify : Option Text → Event → Sys (Unit {0})
  notify none event = pure tt
  notify (some path) event = send_event path event

  -- The child: it ends as the program, or without it.
  unfoldable pub create_child : Text → Config → Runtime → Fd → Sys (Unit {0})
  create_child bundle_path config runtime log_fd = do
    make_child_private
    set_child_hostname (unwrap_or config.hostname (codes "none"))
    new_root ← pre_pivot_mount bundle_path (get_root_path config) (unwrap_or config.mounts [])
    do_pivot_root new_root
    post_pivot_mount (unwrap_or config.mounts [])
    do_default_mounts
    freeze_child runtime
    container_exec (get_process_args config) (get_process_env config)
        (some (get_process_cwd config)) log_fd

  unfoldable pub make_bundle_dir : Text → Sys (Unit {0})
  unfolding ask
  make_bundle_dir bundle_path = do
    attempt (λ e. system_error (SystemError.io e bundle_path)) (ask (create_dir_all bundle_path))
    attempt (λ e. system_error (SystemError.io e bundle_path))
        (ask (set_permissions bundle_path 448))

  -- From the configuration to the first state file.
  unfoldable pub fill_bundle :
      (Text → Reply JsonError Config) → Text → Text → Option Text → Sys (Config × Fd)
  fill_bundle from_json container_id config_path socket_path = do
    config ← load from_json config_path
    make_bundle_dir (get_bundle_path container_id)
    log_fd ← open_log_file (get_bundle_path container_id)
    notify socket_path (first_event container_id)
    write_state_file container_id (first_state container_id config)
    pure (config, log_fd)

  unfoldable pub create_bundle :
      (Text → Reply JsonError Config) → Text → Text → Option Text → Sys (Config × Fd)
  unfolding path_exists
  create_bundle from_json container_id config_path socket_path = do
    taken ← path_exists (get_bundle_path container_id)
    if taken
        then throw (container_already_exists container_id)
        else fill_bundle from_json container_id config_path socket_path

  -- From the cgroup to the clone: its result is the child's pid, and 0 in the child.
  unfoldable pub create_process : Text → Sys (Runtime × ℤ)
  create_process container_id = do
    (_, child_cgroup_fd) ← create_cgroup container_id
    init_resources get_root_cgroup_path (codes "cpu" ∷ codes "memory" ∷ [])
    init_resources get_app_cgroup_path (codes "cpu" ∷ codes "memory" ∷ [])
    runtime ← parent_child_pipe (Runtime.new none none none)
    child_pid ←
        attempt from_clone
          (build 0 0 (cgroup (pos child_cgroup_fd) (flags clone_flags (Clone3.new (some sigchld)))))
    pure (runtime, child_pid)

  -- From there on, to the end of the child.
  unfoldable pub run_child : Text → Option Text → Runtime → ℤ → Fd → Sys (Unit {0})
  unfolding ask
  run_child container_id socket_path runtime child_pid log_fd = do
    runtime' ← parent_proc_socket container_id runtime
    unfreeze_child runtime'
    child_return ← attempt (λ e. system_error (wait e)) (ask (waitpid child_pid))
    notify socket_path (last_event container_id child_return)
    _ ← update_state container_id set_stopped
    write_log_file log_fd (os.debug_status child_return ++ (b'\n' ∷ []))

  module _ (endian : Endian) where
    -- The parent, until its child is created: network, limits, event and state.
    unfoldable pub set_up_child : Text → Option Text → ℤ → Sys (Unit {0})
    set_up_child container_id socket_path child_pid = do
      create_network endian container_id child_pid
      set_cgroup (get_child_cgroup_path container_id) (codes "cpu") (codes "max")
          (codes "100000 100000")
      set_cgroup (get_child_cgroup_path container_id) (codes "memory") (codes "max") (codes "256M")
      notify socket_path (created_event container_id)
      _ ← update_state container_id (set_created child_pid)
      pure tt

    unfoldable pub create :
        (Text → Reply JsonError Config) → Text → Text → Option Text → Sys (Unit {0})
    create from_json container_id config_path socket_path = do
      (config, log_fd) ← create_bundle from_json container_id config_path socket_path
      (runtime, child_pid) ← create_process container_id
      if is_zero child_pid
          then create_child (get_bundle_path container_id) config runtime log_fd
          else do
            set_up_child container_id socket_path child_pid
            run_child container_id socket_path runtime child_pid log_fd
