-- ===== src/Shim.antt =====
-- clonebox-shim/src/main.rs and clonebox-exec/src/main.rs: the programs that the daemon and the command
-- line start. Their arguments come after the name of the program.
pub mod Failures
use clonebox.Prelude.{Text, codes, Option, none, some, List, [], ◌∷◌, pos, negsuc, if◌then◌else◌}
use clonebox.Errors.{JsonError, CoreError, other, any_text}
use clonebox.State.{stopped}
use clonebox.Event.{Event}
use clonebox.Event.Sending.{send_event}
use clonebox.Config.{Config}
use clonebox.Network.Words.{Endian}
use clonebox.Container.Create.{create}
use clonebox.Container.Exec.{exec}
use clonebox.Os.{
  Os, Reply, Outcome, ok, err, gone, panicked, History, Sys, pure, throw, halt, ◌>>=◌, ◌>>◌,
}

abbrev failed_event : Text → Event
failed_event container_id = record {
  id = container_id;
  state = stopped;
  exit_code = some (negsuc 0);
}

module _ ⦃os : Os⦄ where
  -- `.unwrap()` on a result
  abbrev unwrapped : Outcome (Unit {0}) → Outcome (Unit {0})
  unwrapped (err e) = gone panicked
  unwrapped r = r

  abbrev unwrap : Sys (Unit {0}) → Sys (Unit {0})
  unwrap m h = (unwrapped (m h).0, (m h).1)

  -- The match on the result of create.
  after_create : Text → Text → Outcome (Unit {0}) → Sys (Unit {0})
  after_create container_id event_socket (ok u) = pure tt
  after_create container_id event_socket (gone x) = halt x
  after_create container_id event_socket (err e) = do
    unwrap (send_event event_socket (failed_event container_id))
    throw e

  -- A failure of main is the text of its error, or the error of create.
  abbrev bad_args : Text → Sys (Unit {0})
  bad_args message = throw (other (any_text message))

  unfoldable pub shim_main : Endian → (Text → Reply JsonError Config) → List Text → Sys (Unit {0})
  unfolding after_create
  shim_main endian from_json (container_id ∷ config_path ∷ event_socket ∷ []) h =
      let (r, h1) = create endian from_json container_id config_path (some event_socket) h in
      after_create container_id event_socket r h1
  shim_main endian from_json _ h = bad_args (codes "shim args number") h

  unfoldable pub exec_main : List Text → Sys (Unit {0})
  exec_main [] = bad_args (codes "missing container id")
  exec_main (id ∷ cmd) = exec id cmd
