-- ===== src/Errors/Display.antt =====
-- clonebox-core/src/error.rs: the text of each error, from its `#[error(...)]` attribute. The texts of
-- std's, anyhow's and tokio's own errors are arguments.
use clonebox.Prelude.{Text, codes, ◌++◌}
use clonebox.Errors.{
  IoError, AnyError, ConfigError, missing_root_path, missing_process_args, StateError, RuntimeError,
  accept4_failure, backlog_failure, listen_failure, pipe2_failure, to_unix_addr_failure, CloneError,
  no_pid_fd, no_child_tid, no_parent_tid, no_tls, no_cgroup, clone3_failure, NetworkError,
  read_out_of_range, read_failure, send_failure, recv_failure, netlink_failure, command_failure,
  CgroupError, create_cgroup_dir_failure, read_to_string_failure, resource_not_available,
  NamespaceError, failed_to_enter_namespace, LogError, EventError, SystemError, runtime_error,
  clone_error, network_error, cgroup_error, namespace_error, log_error, event_error, wait,
}

pub record ErrorTexts : Type 0 where
  pub io_text : IoError → Text
  pub any_error_text : AnyError → Text
  -- tokio's oneshot::error::RecvError
  pub recv_error_text : Text

unfoldable pub display_config : ConfigError → Text
display_config missing_root_path = codes "config.json: root.path is required"
display_config missing_process_args = codes "config.json: process.args is required"
display_config (ConfigError.io e) = codes "io error"
display_config (ConfigError.json e) = codes "json error"

unfoldable pub display_state_error : StateError → Text
display_state_error (StateError.io e) = codes "io error"
display_state_error (StateError.json e) = codes "json error"

display_runtime : RuntimeError → Text
display_runtime (accept4_failure e) = codes "failed to accept"
display_runtime (backlog_failure e) = codes "failed to create backlog"
display_runtime (RuntimeError.bind_failure e) = codes "failed to bind"
display_runtime (RuntimeError.create_socket_failure e) = codes "failed to create socket"
display_runtime (RuntimeError.connect_failure e) = codes "failed to connect"
display_runtime (listen_failure e) = codes "failed to listen"
display_runtime (pipe2_failure e) = codes "failed to pipe"
display_runtime (to_unix_addr_failure e) = codes "failed to create UnixAddr"
display_runtime (RuntimeError.io e) = codes "io error"
display_runtime (RuntimeError.read e) = codes "pipe read failed"
display_runtime (RuntimeError.write e) = codes "pipe write failed"

display_clone : CloneError → Text
display_clone no_pid_fd = codes "CLONE_PIDFD set but no pid_fd provided"
display_clone no_child_tid = codes "CLONE_CHILD_SETTID set but no child_tid provided"
display_clone no_parent_tid = codes "CLONE_PARENT_SETTID set but no parent_tid provided"
display_clone no_tls = codes "CLONE_SETTLS set but no tls provided"
display_clone no_cgroup = codes "CLONE_INTO_CGROUP set but no cgroup fd provided"
display_clone (clone3_failure e) = codes "clone3 failed"

display_network : ErrorTexts → NetworkError → Text
display_network t (NetworkError.create_socket_failure e) = codes "failed to create socket"
display_network t (NetworkError.bind_failure e) = codes "failed to bind"
display_network t read_out_of_range = codes "read out of range"
display_network t (read_failure s) = codes "failed to read " ++ s
display_network t (send_failure e) = codes "fail to send bytes"
display_network t (recv_failure e) = codes "failed to receive bytes"
display_network t (netlink_failure s) = codes "netlink: " ++ s
display_network t (NetworkError.open_failure e) = codes "failed to open"
display_network t (NetworkError.write_failure e) = codes "failed to write"
display_network t (command_failure e) = codes "command failed wth " ++ t.io_text e

display_cgroup : CgroupError → Text
display_cgroup (create_cgroup_dir_failure e s) = codes "failed to create " ++ (s ++ codes " cgroup")
display_cgroup (CgroupError.open_failure e s) = codes "failed to open " ++ (s ++ codes " cgroup")
display_cgroup (read_to_string_failure e s r) = codes "failed to read " ++ (s ++ (codes ": " ++ r))
display_cgroup (resource_not_available s r) =
    s ++ (codes ": " ++ (r ++ codes " not available on this system"))
display_cgroup (CgroupError.write_failure e s) =
    codes "failed to write into " ++ (s ++ codes " cgroup")

display_namespace : NamespaceError → Text
display_namespace (failed_to_enter_namespace s) =
    codes "failed to enter " ++ (s ++ codes " namespace")

display_log : LogError → Text
display_log (LogError.io e) = codes "io error"

display_event : EventError → Text
display_event (EventError.write_failure e) = codes "failed to send status message"
display_event (EventError.connect_failure e s) = codes "failed to connect to socket " ++ s
display_event (EventError.json e) = codes "json error"

unfoldable pub display_system : ErrorTexts → SystemError → Text
unfolding display_runtime display_clone display_network display_cgroup display_namespace display_log
    display_event
display_system t (runtime_error e) = display_runtime e
display_system t (clone_error e) = display_clone e
display_system t (network_error e) = display_network t e
display_system t (cgroup_error e) = display_cgroup e
display_system t (namespace_error e) = display_namespace e
display_system t (log_error e) = display_log e
display_system t (event_error e) = display_event e
display_system t (wait e) = codes "waitpid failed"
display_system t (SystemError.io e s) = codes "io error: " ++ s
