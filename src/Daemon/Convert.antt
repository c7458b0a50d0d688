-- ===== src/Daemon/Convert.antt =====
-- cloneboxd/src/convert.rs: errors as gRPC statuses, and the state as its message.
use clonebox.Prelude.{ℕ, Text, codes, Option, List, ◌++◌, ℤ, [], unwrap_or}
use clonebox.Errors.{
  CoreError, container_already_exists, container_already_stopped, container_not_found,
  container_not_created, container_not_running, container_not_paused, container_not_stopped,
  cleanup_failure, config_error, state_error, system_error, other,
}
use clonebox.Errors.Display.{ErrorTexts, display_config, display_state_error, display_system}
use clonebox.State.{ContainerState, creating, created, running, stopped, paused, State}

-- The codes of tonic::Status that the daemon uses.
pub data Code : Type 0 where
  already_exists failed_precondition not_found internal unknown unimplemented : Code

pub record Status : Type 0 where
  pub code : Code
  pub message : Text

unfoldable pub to_status : ErrorTexts → CoreError → Status
to_status t (container_already_exists id) = record {
  code = already_exists;
  message = id ++ codes " already exists";
}
to_status t (container_already_stopped id) = record {
  code = failed_precondition;
  message = id ++ codes " already stopped";
}
to_status t (container_not_found id) = record {
  code = not_found;
  message = id ++ codes " not found";
}
to_status t (container_not_created id) = record {
  code = failed_precondition;
  message = id ++ codes " not created";
}
to_status t (container_not_running id) = record {
  code = failed_precondition;
  message = id ++ codes " not running";
}
to_status t (container_not_paused id) = record {
  code = failed_precondition;
  message = id ++ codes " not paused";
}
to_status t (container_not_stopped id) = record {
  code = failed_precondition;
  message = id ++ codes " not stopped";
}
to_status t (cleanup_failure e id) = record {
  code = internal;
  message = codes "failed to clean " ++ (id ++ (codes " up: " ++ t.io_text e));
}
to_status t (config_error e) = record {
  code = internal;
  message = codes "config error: " ++ display_config e;
}
to_status t (state_error e) = record {
  code = internal;
  message = codes "state error: " ++ display_state_error e;
}
to_status t (system_error e) = record {
  code = internal;
  message = codes "system error: " ++ display_system t e;
}
to_status t (other e) = record { code = unknown; message = codes "Other: " ++ t.any_error_text e }

-- The message `State` of the proto file. `status` is the number of an enum value there.
pub record ProtoState : Type 0 where
  pub oci_version : Text
  pub id : Text
  pub status : ℕ
  pub pid : Option ℤ
  pub bundle : Text
  pub annotations : List (Text × Text)

-- The enum ContainerState of proto/clonebox_tasks.proto.
unfoldable pub proto_status : ContainerState → ℕ
proto_status creating = 1
proto_status created = 2
proto_status running = 3
proto_status stopped = 4
proto_status paused = 5

unfoldable pub to_proto : State → ProtoState
unfolding proto_status
to_proto s = record {
  oci_version = s.oci_version;
  id = s.id;
  status = proto_status s.status;
  pid = s.pid;
  bundle = s.bundle;
  annotations = unwrap_or s.annotations [];
}
