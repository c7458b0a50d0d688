-- ===== src/Os/Asks.antt =====
-- The calls of the system that the code makes apart from those on the state file, each with the type
-- of its reply. A reply of `none` to `execve` is that it did not return.
use clonebox.Prelude.{ℕ, Text, Bool, List, Option, ℤ}
use clonebox.Errors.{Errno, IoError}

-- A Rust `Result` as a library returns it.
pub data Reply (E A : Type 0) : Type 0 where
  success : A → Reply E A
  failure : E → Reply E A

-- A file descriptor.
abbrev pub Fd : Type 0
Fd = ℕ

-- nix's WaitStatus; a signal is its number.
pub data WaitStatus : Type 0 where
  exited_with : ℤ → ℤ → WaitStatus
  signaled : ℤ → ℕ → Bool → WaitStatus
  stopped_by : ℤ → ℕ → WaitStatus
  ptrace_event : ℤ → ℕ → ℤ → WaitStatus
  ptrace_syscall continued : ℤ → WaitStatus
  still_alive : WaitStatus

-- nix's ForkResult
pub data ForkResult : Type 0 where
  parent : ℤ → ForkResult
  child : ForkResult

-- struct clone_args of the kernel
pub record CloneArgs : Type 0 where
  pub flags : ℕ
  pub pidfd : ℕ
  pub child_tid : ℕ
  pub parent_tid : ℕ
  pub exit_signal : ℕ
  pub stack : ℕ
  pub stack_size : ℕ
  pub tls : ℕ
  pub set_tid : ℕ
  pub set_tid_size : ℕ
  pub cgroup : ℕ

pub data Request : Type 0 where
  -- std
  create_dir_all : Text → Request
  set_permissions : Text → ℕ → Request
  open_file : Text → Request
  open_append : Text → Request
  write_all : Fd → Text → Request
  remove_file : Text → Request
  connect_stream : Text → Request
  command_status : Text → List Text → Request
  -- tokio
  bind_listener : Text → Request
  -- nix, with what libc takes besides
  pipe2 : Request
  read_byte : Fd → Request
  write_fd : Fd → Text → Request
  bind_unix : Fd → Text → Request
  listen : Fd → ℕ → Request
  accept4 : Fd → Request
  waitpid : ℤ → Request
  fork : Request
  execve : Text → List Text → List Text → Request
  getpid : Request
  setns : Fd → ℕ → Request
  mount : Option Text → Text → Option Text → ℕ → Option Text → Request
  sethostname : Text → Request
  chdir : Text → Request
  pivot_root : Text → Text → Request
  umount2 : Text → ℕ → Request
  clone3 : CloneArgs → Request
  open_netlink : Request
  bind_netlink : Fd → Request
  send : Fd → List ℕ → Request
  recv : Fd → Request

abbrev pub ReplyTo : Request → Type 0
ReplyTo (create_dir_all p) = Reply IoError (Unit {0})
ReplyTo (set_permissions p mode) = Reply IoError (Unit {0})
ReplyTo (open_file p) = Reply IoError Fd
ReplyTo (open_append p) = Reply IoError Fd
ReplyTo (write_all fd t) = Reply IoError (Unit {0})
ReplyTo (remove_file p) = Reply IoError (Unit {0})
ReplyTo (connect_stream p) = Reply IoError Fd
ReplyTo (command_status p args) = Reply IoError (Option ℤ)
ReplyTo (bind_listener p) = Reply IoError Fd
ReplyTo pipe2 = Reply Errno (Fd × Fd)
ReplyTo (read_byte fd) = Reply Errno ℕ
ReplyTo (write_fd fd t) = Reply Errno ℕ
ReplyTo (bind_unix fd p) = Reply Errno (Unit {0})
ReplyTo (listen fd n) = Reply Errno (Unit {0})
ReplyTo (accept4 fd) = Reply Errno Fd
ReplyTo (waitpid pid) = Reply Errno WaitStatus
ReplyTo fork = Reply Errno ForkResult
ReplyTo (execve p args env) = Option Errno
ReplyTo getpid = ℤ
ReplyTo (setns fd flag) = Reply Errno (Unit {0})
ReplyTo (mount source target type flags text) = Reply Errno (Unit {0})
ReplyTo (sethostname name) = Reply Errno (Unit {0})
ReplyTo (chdir p) = Reply Errno (Unit {0})
ReplyTo (pivot_root new_root put_old) = Reply Errno (Unit {0})
ReplyTo (umount2 p flags) = Reply Errno (Unit {0})
ReplyTo (clone3 args) = Reply IoError ℤ
ReplyTo open_netlink = Reply Errno Fd
ReplyTo (bind_netlink fd) = Reply Errno (Unit {0})
ReplyTo (send fd bytes) = Reply Errno ℕ
ReplyTo (recv fd) = Reply Errno (List ℕ)
