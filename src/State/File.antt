-- ===== src/State/File.antt =====
-- clonebox-core/src/state.rs: reading, writing and updating state.json.
use clonebox.Prelude.{Text}
use clonebox.Errors.{IoError, not_found, other_io, StateError, container_not_found, state_error}
use clonebox.State.{State, get_state_path}
use clonebox.Os.{
  Os, Reply, success, failure, Sys, pure, throw, ◌>>=◌, ◌>>◌, raise, attempt, read_to_string,
  fs_write,
}

module _ ⦃os : Os⦄ where
  unfoldable pub write_state_file : Text → State → Sys (Unit {0})
  unfolding fs_write
  write_state_file container_id state = do
    ser_json ← raise (λ e. state_error (StateError.json e)) (os.state_to_json state)
    attempt (λ e. state_error (StateError.io e)) (fs_write (get_state_path container_id) ser_json)

  -- The three arms of the match on the reply.
  parse_state : Text → Reply IoError Text → Sys State
  parse_state container_id (success buf) =
      raise (λ e. state_error (StateError.json e)) (os.state_from_json buf)
  parse_state container_id (failure not_found) = throw (container_not_found container_id)
  parse_state container_id (failure (other_io e)) = throw (state_error (StateError.io (other_io e)))

  unfoldable pub read_state_file : Text → Sys State
  unfolding read_to_string parse_state
  read_state_file container_id = do
    reply ← read_to_string (get_state_path container_id)
    parse_state container_id reply

  unfoldable pub update_state : Text → (State → State) → Sys State
  update_state container_id f = do
    state ← read_state_file container_id
    write_state_file container_id (f state)
    pure (f state)
