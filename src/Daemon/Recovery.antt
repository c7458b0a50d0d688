-- ===== src/Daemon/Recovery.antt =====
-- cloneboxd/src/recovery.rs: the map is rebuilt from the state files when the daemon starts.
use clonebox.Prelude.{
  Text, codes, Bool, true, not, Option, none, some, List, [], ◌∷◌, ◌++◌, ℤ, if◌then◌else◌,
}
use clonebox.Errors.{IoError, JsonError}
use clonebox.State.{running, stopped, state_eq, State, set_state}
use clonebox.Os.{
  Os, Reply, success, failure, DirEntry, Sys, pure, ◌>>=◌, read_to_string, read_dir, path_exists,
}
use clonebox.Daemon.{Daemon, register_recovered}

module _ ⦃os : Os⦄ where
  -- The state after the check of its process.
  check_liveness : State → Option ℤ → Sys State
  unfolding path_exists
  check_liveness state (some pid) = do
    alive ← path_exists (codes "/proc/" ++ os.decimal pid)
    pure (if not alive then set_state stopped state else state)
  check_liveness state none =
      pure (if state_eq state.status running then set_state stopped state else state)

  recover_state : Text → Reply JsonError State → Daemon → Sys Daemon
  recover_state file_name (failure _) d = pure d
  recover_state file_name (success parsed) d = do
    state ← check_liveness parsed parsed.pid
    pure (register_recovered file_name state.status d)

  recover_file : Text → Reply IoError Text → Daemon → Sys Daemon
  recover_file file_name (failure _) d = pure d
  recover_file file_name (success buf) d = recover_state file_name (os.state_from_json buf) d

  recover_named : Text → Option Text → Daemon → Sys Daemon
  unfolding read_to_string
  recover_named app_data none d = pure d
  recover_named app_data (some file_name) d = do
    reply ← read_to_string (app_data ++ (codes "/" ++ (file_name ++ codes "/state.json")))
    recover_file file_name reply d

  recover_typed : Text → Reply IoError Bool → Option Text → Daemon → Sys Daemon
  recover_typed app_data (success true) file_name d = recover_named app_data file_name d
  recover_typed app_data _ file_name d = pure d

  -- The body of the loop. Every `continue` leaves the map alone.
  unfoldable pub recover_entry : Text → Reply IoError DirEntry → Daemon → Sys Daemon
  unfolding check_liveness recover_state recover_file recover_named recover_typed
  recover_entry app_data (failure _) d = pure d
  recover_entry app_data (success entry) d = recover_typed app_data entry.is_dir entry.file_name d

  unfoldable pub recover_entries : Text → List (Reply IoError DirEntry) → Daemon → Sys Daemon
  recover_entries app_data [] d = pure d
  recover_entries app_data (entry ∷ rest) d = do
    d' ← recover_entry app_data entry d
    recover_entries app_data rest d'

  -- The result of `read_dir(app_data)?`, an io error, is the only failure.
  recover_dir :
      Text → Reply IoError (List (Reply IoError DirEntry)) → Daemon → Sys (Reply IoError Daemon)
  recover_dir app_data (failure e) d = pure (failure e)
  recover_dir app_data (success dir_content) d = do
    d' ← recover_entries app_data dir_content d
    pure (success d')

  unfoldable pub recover : Text → Daemon → Sys (Reply IoError Daemon)
  unfolding read_dir recover_dir
  recover app_data d = do reply ← read_dir app_data; recover_dir app_data reply d
