-- ===== src/Container.antt =====
-- clonebox-core/src/container.rs: the operations on a container that exists.
pub mod Commands
pub mod Exec
pub mod Create
pub mod Refinement
pub mod Refusal
pub mod Progress
pub mod Isolation
pub mod Signals
pub mod Histories
pub mod Deletion
pub mod Races
use clonebox.Prelude.{
  Text, codes, Bool, true, false, Option, some, ◌++◌, ℤ, not, ◌==◌, if◌then◌else◌,
}
use clonebox.Errors.{
  Errno, any_errno, any_text, CoreError, container_already_stopped, container_not_created,
  container_not_running, container_not_paused, container_not_stopped, cleanup_failure, other,
}
use clonebox.State.{
  ContainerState, creating, created, running, stopped, paused, state_eq, State, set_running,
  set_stopped, set_paused, get_bundle_path,
}
use clonebox.State.File.{read_state_file, write_state_file, update_state}
use clonebox.Os.{
  Os, Reply, success, failure, sigkill, Sys, pure, throw, ◌>>=◌, ◌>>◌, attempt, remove_dir,
  remove_dir_all, send_signal,
}
use clonebox.Runtime.{connect_create_process}
use clonebox.Cgroup.{set_cgroup}

unfoldable pub cgroup_path : Text → Text
cgroup_path container_id = codes "/sys/fs/cgroup/clonebox/" ++ container_id

-- errno.h on Linux
abbrev pub esrch : Errno
esrch = 3

pub kill_message : Text → Text
kill_message container_id = codes "cannot kill " ++ (container_id ++ codes " in current state")

module _ ⦃os : Os⦄ where
  -- With `force` both results are dropped.
  unfoldable pub cleanup : Text → Bool → Sys (Unit {0})
  unfolding remove_dir remove_dir_all
  cleanup container_id true = do
    _ ← remove_dir (cgroup_path container_id)
    _ ← remove_dir_all (get_bundle_path container_id)
    pure tt
  cleanup container_id false = do
    attempt (λ e. cleanup_failure e (codes "cgroup")) (remove_dir (cgroup_path container_id))
    attempt (λ e. cleanup_failure e (codes "bundle"))
        (remove_dir_all (get_bundle_path container_id))
    pure tt

  unfoldable pub start : Text → Sys (Unit {0})
  start container_id = do
    state ← read_state_file container_id
    if not (state_eq state.status created) then throw (container_not_created container_id) else do
      connect_create_process container_id
      _ ← update_state container_id set_running
      pure tt

  unfoldable pub state : Text → Sys State
  state container_id = read_state_file container_id

  -- A process that is gone already counts as killed.
  accept_kill : Reply Errno (Unit {0}) → Sys (Unit {0})
  accept_kill (success _) = pure tt
  accept_kill (failure e) = if e == esrch then pure tt else throw (other (any_errno e))

  -- The match on the status and the pid.
  pub kill_process : Text → ContainerState → Option ℤ → Sys (Unit {0})
  unfolding accept_kill send_signal
  kill_process container_id stopped _ = throw (container_already_stopped container_id)
  kill_process container_id running (some pid) = do r ← send_signal pid sigkill; accept_kill r
  kill_process container_id created (some pid) = do r ← send_signal pid sigkill; accept_kill r
  kill_process container_id _ _ = throw (other (any_text (kill_message container_id)))

  unfoldable pub kill : Text → Sys (Unit {0})
  unfolding kill_process
  kill container_id = do
    state ← read_state_file container_id
    kill_process container_id state.status state.pid
    write_state_file container_id (set_stopped state)
    pure tt

  unfoldable pub delete : Text → Bool → Sys (Unit {0})
  delete container_id true = do cleanup container_id true; pure tt
  delete container_id false = do
    state ← read_state_file container_id
    if not (state_eq state.status stopped)
        then throw (container_not_stopped container_id)
        else do cleanup container_id false; pure tt

  unfoldable pub pause : Text → Sys (Unit {0})
  pause container_id = do
    state ← read_state_file container_id
    if not (state_eq state.status running) then throw (container_not_running container_id) else do
      set_cgroup (cgroup_path container_id) (codes "cgroup") (codes "freeze") (codes "1")
      _ ← update_state container_id set_paused
      pure tt

  unfoldable pub resume : Text → Sys (Unit {0})
  resume container_id = do
    state ← read_state_file container_id
    if not (state_eq state.status paused) then throw (container_not_paused container_id) else do
      set_cgroup (cgroup_path container_id) (codes "cgroup") (codes "freeze") (codes "0")
      _ ← update_state container_id set_running
      pure tt
