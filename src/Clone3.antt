-- ===== src/Clone3.antt =====
-- clonebox-core/src/clone3.rs: the arguments of the system call clone3, put together step by step. Flags
-- are a u64, and the addresses that `as_ptr` gives are arguments of `build`.
pub mod Bits
pub mod Setters
use clonebox.Prelude.{
  ℕ, suc, ◌-◌, ◌^◌, ◌==◌, Bool, true, false, not, ◌&&◌, Option, none, some, List, length, ℤ, pos,
  negsuc, if◌then◌else◌, unwrap_or,
}
use Prim.Native.Nat.{bit_and, bit_or}
use clonebox.Errors.{
  IoError, CloneError, no_pid_fd, no_child_tid, no_parent_tid, no_tls, no_cgroup, clone3_failure,
}
use clonebox.Os.{
  Os, Reply, success, failure, Signal, sigkill, sigchld, CloneArgs, Sys, pure, ◌>>=◌, ask, clone3,
}

abbrev pub clone_pidfd : ℕ
clone_pidfd = 0x00001000

abbrev pub clone_parent_settid : ℕ
clone_parent_settid = 0x00100000

abbrev pub clone_child_settid : ℕ
clone_child_settid = 0x01000000

abbrev pub clone_settls : ℕ
clone_settls = 0x00080000

abbrev pub clone_into_cgroup : ℕ
clone_into_cgroup = 0x200000000

pub record Clone3 : Type 0 where
  pub flags_set : ℕ
  pub pid_fd : Option ℤ
  pub child_id : Option ℤ
  pub parent_id : Option ℤ
  pub exit_signal : Option Signal
  pub stack_bytes : Option ℕ
  pub tls_value : Option ℕ
  pub tids : Option (List ℤ)
  pub cgroup_fd : Option ℤ

abbrev pub new : Option Signal → Clone3
new exit_signal = record {
  flags_set = 0;
  pid_fd = none;
  child_id = none;
  parent_id = none;
  exit_signal = exit_signal;
  stack_bytes = none;
  tls_value = none;
  tids = none;
  cgroup_fd = none;
}

-- self.flags |= flags
unfoldable pub flags : ℕ → Clone3 → Clone3
flags more c = record c { flags_set = bit_or c.flags_set more }

-- A stack is a vector of zeros, of which only the length is kept here.
unfoldable pub stack : ℕ → Clone3 → Clone3
stack size c = record c { stack_bytes = some size }

unfoldable pub pidfd : ℤ → Clone3 → Clone3
pidfd fd c = record c { flags_set = bit_or c.flags_set clone_pidfd; pid_fd = some fd }

unfoldable pub child_tid : ℤ → Clone3 → Clone3
child_tid id c = record c { flags_set = bit_or c.flags_set clone_child_settid; child_id = some id }

unfoldable pub parent_tid : ℤ → Clone3 → Clone3
parent_tid id c = record c {
  flags_set = bit_or c.flags_set clone_parent_settid;
  parent_id = some id;
}

unfoldable pub tls : ℕ → Clone3 → Clone3
tls value c = record c { flags_set = bit_or c.flags_set clone_settls; tls_value = some value }

unfoldable pub set_tid : Option (List ℤ) → Clone3 → Clone3
set_tid ids c = record c { tids = ids }

unfoldable pub cgroup : ℤ → Clone3 → Clone3
cgroup fd c = record c { flags_set = bit_or c.flags_set clone_into_cgroup; cgroup_fd = some fd }

-- `as u64` of an i32
abbrev pub as_u64 : ℤ → ℕ
as_u64 (pos n) = n
as_u64 (negsuc n) = 2 ^ 64 - suc n

abbrev pub signal_number : Signal → ℕ
signal_number sigkill = 9
signal_number sigchld = 17

abbrev is_none : {A : Type 0} → Option A → Bool
is_none none = true
is_none (some a) = false

-- A flag that is set without its argument.
abbrev pub lacks : {A : Type 0} → ℕ → ℕ → Option A → Bool
lacks flags bit o = not (bit_and flags bit == 0) && is_none o

-- The checks at the start of `build`, in their order.
unfoldable pub missing : Clone3 → Option CloneError
missing c =
    if lacks c.flags_set clone_pidfd c.pid_fd
    then some no_pid_fd
    else if lacks c.flags_set clone_child_settid c.child_id
    then some no_child_tid
    else if lacks c.flags_set clone_parent_settid c.parent_id
    then some no_parent_tid
    else if lacks c.flags_set clone_settls c.tls_value
    then some no_tls
    else if lacks c.flags_set clone_into_cgroup c.cgroup_fd
    then some no_cgroup
    else none

abbrev or_zero : {A : Type 0} → (A → ℕ) → Option A → ℕ
or_zero f none = 0
or_zero f (some a) = f a

-- The value of `clone_args`.
unfoldable pub clone_args : ℕ → ℕ → Clone3 → CloneArgs
clone_args stack_ptr set_tid_ptr c = record {
  flags = c.flags_set;
  pidfd = or_zero as_u64 c.pid_fd;
  child_tid = or_zero as_u64 c.child_id;
  parent_tid = or_zero as_u64 c.parent_id;
  exit_signal = or_zero signal_number c.exit_signal;
  stack = or_zero (λ size. stack_ptr) c.stack_bytes;
  stack_size = or_zero (λ size. size) c.stack_bytes;
  tls = unwrap_or c.tls_value 0;
  set_tid = or_zero (λ ids. set_tid_ptr) c.tids;
  set_tid_size = or_zero length c.tids;
  cgroup = or_zero as_u64 c.cgroup_fd;
}

-- The result of the system call, which is negative exactly when `last_os_error` is set.
abbrev pub clone_result : Reply IoError ℤ → Reply CloneError ℤ
clone_result (success pid) = success pid
clone_result (failure e) = failure (clone3_failure e)

module _ ⦃os : Os⦄ where
  unfoldable pub build : ℕ → ℕ → Clone3 → Sys (Reply CloneError ℤ)
  unfolding ask
  build stack_ptr set_tid_ptr c = elim (missing c) [
    | some e ↦ pure (failure e)
    | none ↦ do r ← ask (clone3 (clone_args stack_ptr set_tid_ptr c)); pure (clone_result r)
  ]
