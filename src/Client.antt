-- ===== src/Client.antt =====
-- clonebox/src/main.rs: the command line, a client of the daemon's gRPC service. What tonic and the
-- system do for it is a `Host`, an argument, and so is what the process's environment holds. How clap
-- reads the arguments is not modelled: `main` starts from what it read.
pub mod Served
use clonebox.Prelude.{Text, codes, Bool, Option, none, some, List, ◌∷◌, ◌++◌, ℤ, pos, unwrap_or}
use clonebox.Errors.{IoError}
use clonebox.Os.{Reply, success, failure}
use clonebox.Daemon.Convert.{Status, ProtoState}

-- The subcommands.
pub data Commands : Type 0 where
  create : Text → Text → Commands
  start state kill : Text → Commands
  delete : Text → Bool → Commands
  pause resume : Text → Commands
  exec : Text → List Text → Commands
  list : Commands
  wait : Text → Commands

-- The requests of the service, with the fields of their messages. `main` never sends exec_request.
pub data Rpc : Type 0 where
  create_request : Text → Text → Rpc
  start_request state_request kill_request : Text → Rpc
  delete_request : Text → Bool → Rpc
  pause_request resume_request : Text → Rpc
  exec_request : Text → List Text → Rpc
  wait_request : Text → Rpc
  list_request : Rpc

-- What the response to each holds.
abbrev pub ResponseTo : Rpc → Type 0
ResponseTo (state_request id) = Option ProtoState
ResponseTo (wait_request id) = ℤ
ResponseTo list_request = List ProtoState
ResponseTo _ = Unit {0}

-- What main calls, on the state of everything else: tonic's client, and the start of a process that
-- main waits for, which replies with its exit code if it has one. `of_status` is how a status that the
-- service answers with looks among the failures of the client.
pub record Host (Fault S : Type 0) : Type 0 where
  pub connects : Text → S → Reply Fault (Unit {0}) × S
  pub calls : (q : Rpc) → S → Reply Fault (ResponseTo q) × S
  pub runs : Text → List Text → S → Reply IoError (Option ℤ) × S
  pub of_status : Status → Fault

-- How main ends, with what it printed.
pub data Ending (Fault : Type 0) : Type 0 where
  printed : (q : Rpc) → ResponseTo q → Ending Fault
  failed : Fault → Ending Fault
  not_run : IoError → Ending Fault
  exits : ℤ → Ending Fault
  panics : Ending Fault

-- The exit code of the process: 1 for an error that main returns, 101 for a panic.
unfoldable pub exit_code : {Fault : Type 0} → Ending Fault → ℤ
exit_code (printed q a) = pos 0
exit_code (failed x) = pos 1
exit_code (not_run e) = pos 1
exit_code (exits n) = n
exit_code panics = pos 101

-- The environment variable, or a path beside the running program.
unfoldable pub exec_path : Option Text → Reply IoError Text → Reply IoError Text
exec_path (some p) exe_dir = success p
exec_path none (success dir) = success (dir ++ codes "/clonebox-exec")
exec_path none (failure e) = failure e

abbrev pub daemon_uri : Text
daemon_uri = codes "unix:///run/clonebox/clonebox.sk"

module _ {Fault S : Type 0} (host : Host Fault S) where
  -- `println!("{:?}", client.call(request).await?)`
  show_answer : (q : Rpc) → Reply Fault (ResponseTo q) × S → Ending Fault × S
  show_answer q (success a, s) = (printed q a, s)
  show_answer q (failure x, s) = (failed x, s)

  unfoldable pub request : Rpc → S → Ending Fault × S
  unfolding show_answer
  request q s = show_answer q (host.calls q s)

  exec_status : Reply IoError (Option ℤ) × S → Ending Fault × S
  exec_status (success code, s) = (exits (unwrap_or code (pos 1)), s)
  exec_status (failure e, s) = (not_run e, s)

  unfoldable pub exec_command : Reply IoError Text → Text → List Text → S → Ending Fault × S
  unfolding exec_status
  exec_command (failure e) container_id cmd s = (panics, s)
  exec_command (success path) container_id cmd s =
      exec_status (host.runs path (container_id ∷ cmd) s)

  -- The match on the subcommand.
  unfoldable pub run_command : Option Text → Reply IoError Text → Commands → S → Ending Fault × S
  run_command variable exe_dir (create id config) = request (create_request id config)
  run_command variable exe_dir (start id) = request (start_request id)
  run_command variable exe_dir (state id) = request (state_request id)
  run_command variable exe_dir (kill id) = request (kill_request id)
  run_command variable exe_dir (delete id force) = request (delete_request id force)
  run_command variable exe_dir (pause id) = request (pause_request id)
  run_command variable exe_dir (resume id) = request (resume_request id)
  run_command variable exe_dir (exec id cmd) = exec_command (exec_path variable exe_dir) id cmd
  run_command variable exe_dir list = request list_request
  run_command variable exe_dir (wait id) = request (wait_request id)

  after_connect :
      Option Text → Reply IoError Text → Commands → Reply Fault (Unit {0}) × S → Ending Fault × S
  after_connect variable exe_dir cmd (failure x, s) = (failed x, s)
  after_connect variable exe_dir cmd (success _, s) = run_command variable exe_dir cmd s

  unfoldable pub main : Option Text → Reply IoError Text → Commands → S → Ending Fault × S
  unfolding after_connect
  main variable exe_dir cmd s = after_connect variable exe_dir cmd (host.connects daemon_uri s)
