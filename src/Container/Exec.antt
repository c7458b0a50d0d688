-- ===== src/Container/Exec.antt =====
-- clonebox-core/src/container.rs: how a process becomes the program of a container, in the child of
-- `create` and in `exec`.
pub mod Trace
pub mod Visits
use clonebox.Prelude.{
  ℕ, Text, codes, ◌++◌, ◌==◌, ◌||◌, not, Bool, false, Option, none, some, List, [], ◌∷◌, unwrap_or,
  ℤ, if◌then◌else◌,
}
use clonebox.Errors.{
  Errno, SystemError, system_error, wait, container_not_running, failed_to_enter_namespace,
  from_namespace,
}
use clonebox.State.{running, state_eq, get_bundle_path}
use clonebox.State.File.{read_state_file}
use clonebox.Logger.{open_log_file, write_log_file}
use clonebox.Os.{
  Os, Reply, success, failure, Fd, exited, replaced, panicked, ForkResult, parent, child, Sys, pure,
  throw, halt, ignore, ◌>>=◌, ◌>>◌, attempt, ask, open_file, write_fd, waitpid, fork, execve,
  getpid, setns, chdir,
}
use clonebox.Network.Requests.{clone_newnet}

-- sched.h
abbrev pub clone_newns : ℕ
clone_newns = 0x20000

abbrev pub clone_newuts : ℕ
clone_newuts = 0x4000000

abbrev pub clone_newpid : ℕ
clone_newpid = 0x20000000

-- What CString::new refuses.
abbrev pub has_nul : Text → Bool
has_nul [] = false
has_nul (b ∷ bs) = b == 0 || has_nul bs

-- Whether to_cstring_vec panics.
abbrev pub any_nul : List Text → Bool
any_nul [] = false
any_nul (t ∷ ts) = has_nul t || any_nul ts

module _ ⦃os : Os⦄ where
  -- A message on stderr, and _exit(1).
  complain : Text → Sys (Unit {0})
  unfolding ask
  complain message = do _ ← ask (write_fd 2 message); halt (exited 1)

  -- libc::chdir, with its result dropped
  change_dir : Option Text → Sys (Unit {0})
  unfolding ask complain
  change_dir none = pure tt
  change_dir (some cwd) =
      if has_nul cwd
      then complain (codes "invalid cwd" ++ (b'\n' ∷ []))
      else do _ ← ask (chdir cwd); pure tt

  -- What follows a call of execve.
  after_execve : Fd → Option Errno → Sys (Unit {0})
  after_execve log_fd none = halt replaced
  after_execve log_fd (some e) = do
    ignore
        (write_log_file log_fd (codes "Execve failure: " ++ (os.errno_display e ++ (b'\n' ∷ []))))
    halt (exited 1)

  exec_args : List Text → List Text → Option Text → Fd → Sys (Unit {0})
  unfolding ask complain change_dir after_execve
  exec_args [] env cwd log_fd = complain (codes "no args provided" ++ (b'\n' ∷ []))
  exec_args (path ∷ args) env cwd log_fd =
      if has_nul path
      then complain (codes "invalid path" ++ (b'\n' ∷ []))
      else if any_nul (path ∷ args) || any_nul env
      then halt panicked
      else do change_dir cwd; r ← ask (execve path (path ∷ args) env); after_execve log_fd r

  -- It never returns.
  unfoldable pub container_exec :
      Option (List Text) → Option (List Text) → Option Text → Fd → Sys (Unit {0})
  unfolding exec_args
  container_exec args env cwd log_fd = exec_args (unwrap_or args []) (unwrap_or env []) cwd log_fd

  pub enter_message : Text → ℤ → Errno → Text
  enter_message ns pid e =
      codes "enter "
      ++ (ns ++ (codes " for " ++ (os.decimal pid ++ (codes " failed: " ++ os.errno_display e))))

  abbrev pub ns_path : ℤ → Text → Text
  ns_path pid ns = codes "/proc/" ++ (os.decimal pid ++ (codes "/ns/" ++ ns))

  unfoldable pub enter_namespace : ℤ → Text → ℕ → Sys (Unit {0})
  unfolding ask enter_message
  enter_namespace pid ns flag = do
    fd ←
        attempt (λ e. system_error (SystemError.io e (ns_path pid ns)))
          (ask (open_file (ns_path pid ns)))
    attempt (λ e. from_namespace (failed_to_enter_namespace (enter_message ns pid e)))
        (ask (setns fd flag))

  -- The match on the result of fork.
  pub after_fork : List Text → Fd → Reply Errno ForkResult → Sys (Unit {0})
  unfolding ask
  after_fork cmd log_fd (success (parent pid)) = do
    _ ← attempt (λ e. system_error (wait e)) (ask (waitpid pid))
    pure tt
  after_fork cmd log_fd (success child) = container_exec (some cmd) none none log_fd
  after_fork cmd log_fd (failure e) = throw (system_error (wait e))

  -- The mount namespace of the caller, by the descriptor that was opened before.
  pub return_to_mnt : Fd → ℤ → Fd → Sys (Unit {0})
  unfolding ask
  return_to_mnt mnt_fd parent_pid log_fd = do r ← ask (setns mnt_fd clone_newns); settle r
    where
      settle : Reply Errno (Unit {0}) → Sys (Unit {0})
      settle (success _) = pure tt
      settle (failure e) = do
        ignore (write_log_file log_fd (enter_message (codes "mnt") parent_pid e))
        throw
            (from_namespace (failed_to_enter_namespace (enter_message (codes "mnt") parent_pid e)))

  exec_in : Text → List Text → Fd → Option ℤ → Sys (Unit {0})
  unfolding ask after_fork return_to_mnt
  exec_in container_id cmd log_fd none = throw (container_not_running container_id)
  exec_in container_id cmd log_fd (some child_pid) = do
    parent_pid ← ask getpid
    mnt_fd ←
        attempt (λ e. system_error (SystemError.io e (ns_path parent_pid (codes "mnt"))))
          (ask (open_file (ns_path parent_pid (codes "mnt"))))
    enter_namespace child_pid (codes "uts") clone_newuts
    enter_namespace child_pid (codes "pid") clone_newpid
    enter_namespace child_pid (codes "net") clone_newnet
    enter_namespace child_pid (codes "mnt") clone_newns
    r ← ask fork
    after_fork cmd log_fd r
    return_to_mnt mnt_fd parent_pid log_fd
    enter_namespace parent_pid (codes "uts") clone_newuts
    enter_namespace parent_pid (codes "pid") clone_newpid
    enter_namespace parent_pid (codes "net") clone_newnet

  unfoldable pub exec : Text → List Text → Sys (Unit {0})
  unfolding exec_in enter_message
  exec container_id cmd = do
    state ← read_state_file container_id
    if not (state_eq state.status running) then throw (container_not_running container_id) else do
      log_fd ← open_log_file (get_bundle_path container_id)
      exec_in container_id cmd log_fd state.pid
