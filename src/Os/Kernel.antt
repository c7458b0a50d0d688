-- ===== src/Os/Kernel.antt =====
-- The interface to what is not in the repository: the kernel behind std, nix and libc, and serde_json.
-- A reply may depend on all that happened before, so an `Os` is any environment, other processes
-- included. The history of calls and replies, newest first, is the state that the code runs on.
use clonebox.Prelude.{ℕ, Text, Bool, Option, List, ℤ}
use clonebox.Errors.{Errno, IoError, JsonError, CoreError}
use clonebox.State.{State}
use clonebox.Event.{Event}
use clonebox.Os.Asks.{Reply, Fd, WaitStatus, Request, ReplyTo}

pub data Signal : Type 0 where
  sigkill sigchld : Signal

-- An entry of a directory: whether it is a directory itself, if that is known, and its name, if that is
-- valid UTF-8.
pub record DirEntry : Type 0 where
  pub is_dir : Reply IoError Bool
  pub file_name : Option Text

-- One call with its reply.
pub data Call : Type 0 where
  did_read : Text → Reply IoError Text → Call
  did_write : Text → Text → Reply IoError (Unit {0}) → Call
  did_remove_dir did_remove_dir_all : Text → Reply IoError (Unit {0}) → Call
  did_kill : ℤ → Signal → Reply Errno (Unit {0}) → Call
  did_socket : Reply Errno Fd → Call
  did_connect : Fd → Text → Reply Errno (Unit {0}) → Call
  did_read_dir : Text → Reply IoError (List (Reply IoError DirEntry)) → Call
  did_check_exists : Text → Bool → Call
  did_spawn : Text → List Text → Reply IoError (Unit {0}) → Call
  did : (q : Request) → ReplyTo q → Call

abbrev pub History : Type 0
History = List Call

pub record Os : Type 0 where
  -- std::fs
  pub reads : History → Text → Reply IoError Text
  pub writes : History → Text → Text → Reply IoError (Unit {0})
  pub removes_dir : History → Text → Reply IoError (Unit {0})
  pub removes_dir_all : History → Text → Reply IoError (Unit {0})
  pub reads_dir : History → Text → Reply IoError (List (Reply IoError DirEntry))
  pub exists : History → Text → Bool
  -- std::process
  pub spawns : History → Text → List Text → Reply IoError (Unit {0})
  -- nix::sys
  pub kills : History → ℤ → Signal → Reply Errno (Unit {0})
  pub opens_socket : History → Reply Errno Fd
  pub connects : History → Fd → Text → Reply Errno (Unit {0})
  pub unix_addr : Text → Reply Errno Text
  pub backlog : ℕ → Reply Errno ℕ
  -- all other calls
  pub answers : History → (q : Request) → ReplyTo q
  -- Display of an i32 and of errors, and Debug of a WaitStatus
  pub decimal : ℤ → Text
  pub io_display : IoError → Text
  pub errno_display : Errno → Text
  -- Display of std::io::Error::from_raw_os_error
  pub os_error_display : ℤ → Text
  pub debug_status : WaitStatus → Text
  -- serde_json
  pub state_to_json : State → Reply JsonError Text
  pub state_from_json : Text → Reply JsonError State
  pub event_to_json : Event → Reply JsonError Text
  pub event_from_json : Text → Reply JsonError Event

-- How a process may end other than by returning.
pub data End : Type 0 where
  exited : ℕ → End
  replaced panicked : End

pub data Outcome (A : Type 0) : Type 0 where
  ok : A → Outcome A
  err : CoreError → Outcome A
  gone : End → Outcome A
