-- ===== src/Handshake.antt =====
-- clonebox-core/src/container.rs and runtime.rs: how `create`, the process that it clones, and `start`
-- meet, as a step relation on the processes side by side. Each step is one call, or one write of the
-- state file, of the functions named in its comment. What the kernel does is the documented behaviour of
-- pipes and of listening sockets: a connection needs a socket that listens, accept4 takes one
-- connection, a read of an empty pipe blocks while a descriptor for writing to it is open, and the
-- process that reads holds one itself, so its read ends only with a byte.
pub mod Release
pub mod Stuck
pub mod Marks
pub mod Calls
use clonebox.Prelude.{ℕ, zero, suc, ◌≡◌, ◌≢◌, Bool, true, false, Option, none, some}
use clonebox.State.{ContainerState, creating, created, running, stopped}

-- Where the process that called `create` is.
pub data ParentAt : Type 0 where
  setting_up binding accepting unfreezing waiting reporting finished failed : ParentAt

-- Where the process that it cloned is: `frozen` is the read in freeze_child, `executing` all after it.
pub data ChildAt : Type 0 where
  mounting frozen executing dead : ChildAt

-- Who takes a step: the other two are the system, as it ends a process, and the other commands.
pub data Actor : Type 0 where
  parent child starter killer commander : Actor

-- The status in state.json, `none` once the file is gone, the socket with the connections that wait to be accepted, the bytes in the
-- pipe, and the calls of `start` on their way: those that have read `created`, and those that have
-- connected. `connections` counts the latter ever since.
pub record World : Type 0 where
  pub status : Option ContainerState
  pub listening : Bool
  pub pending : ℕ
  pub bytes : ℕ
  pub parent : ParentAt
  pub child : ChildAt
  pub connecting : ℕ
  pub setting : ℕ
  pub connections : ℕ

pub data Step (w : World) : Actor → World → Type 0 where
  -- create: update_state with set_created
  sets_created :
      w.parent ≡ setting_up
      → w.status ≢ none
      → Step w parent (record w { status = some created; parent = binding })
  -- parent_proc_socket: bind and listen
  listens : w.parent ≡ binding → Step w parent (record w { listening = true; parent = accepting })
  -- parent_proc_socket: accept4
  accepts :
      (n : ℕ)
      → w.parent ≡ accepting
      → w.pending ≡ suc n
      → Step w parent (record w { pending = n; parent = unfreezing })
  -- unfreeze_child
  unfreezes :
      w.parent ≡ unfreezing → Step w parent (record w { bytes = suc w.bytes; parent = waiting })
  -- create: waitpid
  reaps : w.parent ≡ waiting → w.child ≡ dead → Step w parent (record w { parent = reporting })
  -- create: update_state with set_stopped, after the event; then the process ends, and its socket with it
  sets_stopped :
      w.parent ≡ reporting
      → w.status ≢ none
      → Step w parent
          (record w { status = some stopped; listening = false; pending = 0; parent = finished })
  -- create: an error of any call, which `?` returns; the process ends, and its socket with it
  gives_up :
      w.parent ≢ finished
      → Step w parent (record w { listening = false; pending = 0; parent = failed })
  -- create: the call of freeze_child
  freezes : w.child ≡ mounting → Step w child (record w { child = frozen })
  -- freeze_child: the read
  wakes :
      (n : ℕ)
      → w.child ≡ frozen
      → w.bytes ≡ suc n
      → Step w child (record w { bytes = n; child = executing })
  -- child_try!, or the end of the program
  exits : w.child ≢ frozen → Step w child (record w { child = dead })
  -- a signal that ends the process
  dies : Step w killer (record w { child = dead })
  -- start: read_state_file, and the test of the state
  reads_created :
      w.status ≡ some created → Step w starter (record w { connecting = suc w.connecting })
  -- start: connect_create_process
  connects :
      (n : ℕ)
      → w.connecting ≡ suc n
      → w.listening ≡ true
      → Step w starter (record w {
        connecting = n;
        pending = suc w.pending;
        setting = suc w.setting;
        connections = suc w.connections;
      })
  -- start: an error of connect_create_process, or the end of the process
  turns_back : (n : ℕ) → w.connecting ≡ suc n → Step w starter (record w { connecting = n })
  -- start: update_state with set_running
  sets_running :
      (n : ℕ)
      → w.setting ≡ suc n
      → w.status ≢ none
      → Step w starter (record w { status = some running; setting = n })
  -- start: an error of update_state, or the end of the process
  leaves : (n : ℕ) → w.setting ≡ suc n → Step w starter (record w { setting = n })
  -- kill, pause, resume and delete, none of which writes `created`
  changes_status :
      (s : Option ContainerState) → s ≢ some created → Step w commander (record w { status = s })

-- When clone3 has returned in both processes.
abbrev pub cloned : World
cloned = record {
  status = some creating;
  listening = false;
  pending = 0;
  bytes = 0;
  parent = setting_up;
  child = mounting;
  connecting = 0;
  setting = 0;
  connections = 0;
}

-- Any number of steps of actors with a property.
pub data Steps (P : Actor → Type 0) (w : World) : World → Type 0 where
  here : Steps P w w
  further : {a : Actor} {v x : World} → Steps P w v → P a → Step v a x → Steps P w x

abbrev pub Anyone : Actor → Type 0
Anyone a = Unit {0}

pub Steps_keep :
    {P : Actor → Type 0} {w x : World} (I : World → Type 0)
    → ((a : Actor) (v y : World) → P a → Step v a y → I v → I y)
    → Steps P w x
    → I w
    → I x
Steps_keep I keeps here kept = kept
Steps_keep I keeps (further before p step) kept =
    keeps _ _ _ p step (Steps_keep I keeps before kept)
