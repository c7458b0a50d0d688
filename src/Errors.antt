-- ===== src/Errors.antt =====
-- clonebox-core/src/error.rs: the error types, and the `From` conversions that `?` applies.
-- What comes from outside is kept by its number: an `Errno`, and the position of a serde error.
pub mod Display
use clonebox.Prelude.{ℕ, Text}

abbrev pub Errno : Type 0
Errno = ℕ

-- std::io::Error, of which the code only asks whether its kind is `NotFound`.
pub data IoError : Type 0 where
  not_found : IoError
  other_io : Errno → IoError

abbrev pub JsonError : Type 0
JsonError = ℕ

-- anyhow::Error, by what the code puts into it.
pub data AnyError : Type 0 where
  any_errno : Errno → AnyError
  any_text : Text → AnyError
  any_io : IoError → AnyError
  any_context : Text → AnyError → AnyError

pub data ConfigError : Type 0 where
  missing_root_path missing_process_args : ConfigError
  io : IoError → ConfigError
  json : JsonError → ConfigError

pub data StateError : Type 0 where
  io : IoError → StateError
  json : JsonError → StateError

pub data RuntimeError : Type 0 where
  accept4_failure backlog_failure bind_failure create_socket_failure : Errno → RuntimeError
  connect_failure listen_failure pipe2_failure to_unix_addr_failure : Errno → RuntimeError
  io : IoError → RuntimeError
  read write : Errno → RuntimeError

pub data CloneError : Type 0 where
  no_pid_fd no_child_tid no_parent_tid no_tls no_cgroup : CloneError
  clone3_failure : IoError → CloneError

pub data NetworkError : Type 0 where
  create_socket_failure bind_failure : Errno → NetworkError
  read_out_of_range : NetworkError
  read_failure : Text → NetworkError
  send_failure recv_failure : Errno → NetworkError
  netlink_failure : Text → NetworkError
  open_failure write_failure command_failure : IoError → NetworkError

pub data CgroupError : Type 0 where
  create_cgroup_dir_failure open_failure : IoError → Text → CgroupError
  read_to_string_failure : IoError → Text → Text → CgroupError
  resource_not_available : Text → Text → CgroupError
  write_failure : IoError → Text → CgroupError

pub data NamespaceError : Type 0 where
  failed_to_enter_namespace : Text → NamespaceError

pub data LogError : Type 0 where
  io : IoError → LogError

pub data EventError : Type 0 where
  write_failure : IoError → EventError
  connect_failure : IoError → Text → EventError
  json : JsonError → EventError

pub data SystemError : Type 0 where
  runtime_error : RuntimeError → SystemError
  clone_error : CloneError → SystemError
  network_error : NetworkError → SystemError
  cgroup_error : CgroupError → SystemError
  namespace_error : NamespaceError → SystemError
  log_error : LogError → SystemError
  event_error : EventError → SystemError
  wait : Errno → SystemError
  io : IoError → Text → SystemError

pub data CoreError : Type 0 where
  container_already_exists container_already_stopped container_not_found : Text → CoreError
  container_not_created container_not_running container_not_paused : Text → CoreError
  container_not_stopped : Text → CoreError
  cleanup_failure : IoError → Text → CoreError
  config_error : ConfigError → CoreError
  state_error : StateError → CoreError
  system_error : SystemError → CoreError
  other : AnyError → CoreError

-- impl From<RuntimeError> for CoreError, and its siblings.
abbrev pub from_runtime : RuntimeError → CoreError
from_runtime e = system_error (runtime_error e)

abbrev pub from_clone : CloneError → CoreError
from_clone e = system_error (clone_error e)

abbrev pub from_network : NetworkError → CoreError
from_network e = system_error (network_error e)

abbrev pub from_cgroup : CgroupError → CoreError
from_cgroup e = system_error (cgroup_error e)

abbrev pub from_namespace : NamespaceError → CoreError
from_namespace e = system_error (namespace_error e)

abbrev pub from_log : LogError → CoreError
from_log e = system_error (log_error e)

abbrev pub from_event : EventError → CoreError
from_event e = system_error (event_error e)
