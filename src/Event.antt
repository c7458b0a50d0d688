-- ===== src/Event.antt =====
-- clonebox-core/src/event.rs: the message that a shim sends when its container changes.
pub mod Sending
use clonebox.Prelude.{Text, Option, some, ℤ}
use clonebox.State.{ContainerState}

pub record Event : Type 0 where
  pub id : Text
  pub state : ContainerState
  pub exit_code : Option ℤ

unfoldable pub update_state : ContainerState → Event → Event
update_state state e = record e { state = state }

unfoldable pub update_exit_code : ℤ → Event → Event
update_exit_code exit_code e = record e { exit_code = some exit_code }
