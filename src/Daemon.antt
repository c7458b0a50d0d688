-- ===== src/Daemon.antt =====
-- cloneboxd/src/entry.rs and the critical sections of daemon.rs, event.rs and recovery.rs: the map of
-- containers that the daemon keeps in memory, and the oneshot channels on which its requests wait.
-- A channel is the number of its sender. What a receiver gets is a notice: the value that was sent,
-- or that the sender was dropped.
pub mod Convert
pub mod Handlers
pub mod Recovery
pub mod Events
pub mod Hears
pub mod Waiters
pub mod Waking
pub mod Waits
pub mod Mirror
pub mod Forgetting
pub mod Recovered
pub mod Start
pub mod Started
use clonebox.Prelude.{
  ℕ, suc, Text, ◌==◌, Bool, true, false, not, ◌&&◌, Option, none, some, List, [], ◌∷◌, ◌++◌, map, ℤ,
  pos, unwrap_or, if◌then◌else◌,
}
use clonebox.State.{ContainerState, creating, created, running, stopped, paused, state_eq}
use clonebox.Event.{Event}
use clonebox.Table.{Table, lookup, modify, remove, or_insert}

abbrev pub Sender : Type 0
Sender = ℕ

pub record ContainerEntry : Type 0 where
  pub state : ContainerState
  pub created_waiter : Option Sender
  pub exit_waiter : List Sender

pub data Notice : Type 0 where
  created_sent : Sender → Notice
  exit_sent : Sender → ℤ → Notice
  sender_dropped : Sender → Notice

pub record Daemon : Type 0 where
  pub containers : Table ContainerEntry
  pub notices : List Notice
  pub next_sender : Sender

-- Cloneboxd::new
abbrev pub init : Daemon
init = record { containers = []; notices = []; next_sender = 0 }

abbrev pub entry_senders : ContainerEntry → List Sender
entry_senders e = elim e.created_waiter [ none ↦ e.exit_waiter | some tx ↦ tx ∷ e.exit_waiter ]

-- What is dropped with an entry.
abbrev pub drop_entry : Option ContainerEntry → List Notice
drop_entry none = []
drop_entry (some e) = map sender_dropped (entry_senders e)

-- The first critical section of `create`. If the key is taken, `or_insert` drops the new entry.
unfoldable pub register_create : Text → Daemon → Sender × Daemon
register_create container_id d = (
  d.next_sender,
  record {
    containers = or_insert container_id new_entry d.containers;
    notices = elim (lookup container_id d.containers) [
      | none ↦ d.notices
      | some _ ↦ drop_entry (some new_entry) ++ d.notices
    ];
    next_sender = suc d.next_sender;
  },
)
  where
    new_entry : ContainerEntry
    new_entry = record { state = creating; created_waiter = some d.next_sender; exit_waiter = [] }

-- The critical section of `start`, `kill`, `pause` and `resume`.
unfoldable pub set_entry_state : Text → ContainerState → Daemon → Daemon
set_entry_state container_id state d = record d {
  containers = modify container_id (λ e. record e { state = state }) d.containers;
}

-- The critical section of `delete`.
unfoldable pub forget_stopped : Text → Daemon → Daemon
forget_stopped container_id d = elim (lookup container_id d.containers) [
  | none ↦ d
  | some e ↦
      if state_eq e.state stopped
      then record d {
        containers = remove container_id d.containers;
        notices = drop_entry (some e) ++ d.notices;
      }
      else d
]

-- entry.exit_waiter.push(exit_tx)
abbrev pub push_exit : Sender → ContainerEntry → ContainerEntry
push_exit tx e = record e { exit_waiter = e.exit_waiter ++ (tx ∷ []) }

-- The critical section of `wait`: the sender, if the container is known.
unfoldable pub register_wait : Text → Daemon → Option Sender × Daemon
register_wait container_id d = elim (lookup container_id d.containers) [
  | none ↦ (
    none,
    record d {
      notices = sender_dropped d.next_sender ∷ d.notices;
      next_sender = suc d.next_sender;
    },
  )
  | some _ ↦ (
    some d.next_sender,
    record d {
      containers = modify container_id (push_exit d.next_sender) d.containers;
      next_sender = suc d.next_sender;
    },
  )
]

-- `if entry.state != Creating && let Some(tx) = entry.created_waiter.take()`
wake_created : ContainerEntry → ContainerEntry × List Notice
wake_created e =
    if not (state_eq e.state creating)
    then elim e.created_waiter [
      | none ↦ (e, [])
      | some tx ↦ (record e { created_waiter = none }, created_sent tx ∷ [])
    ]
    else (e, [])

-- `if entry.state == Stopped { for tx in take(exit_waiter) ... }`
wake_exit : ℤ → ContainerEntry → ContainerEntry × List Notice
wake_exit code e =
    if state_eq e.state stopped
    then (record e { exit_waiter = [] }, map (λ tx. exit_sent tx code) e.exit_waiter)
    else (e, [])

-- The body of `if let Some(entry)` in update_status of event.rs.
unfoldable pub update_entry : Event → ContainerEntry → ContainerEntry × List Notice
unfolding wake_created wake_exit
update_entry event entry =
    let (e1, sent) = wake_created (record entry { state = event.state }) in
    let (e2, exits) = wake_exit (unwrap_or event.exit_code (pos 0)) e1 in (e2, sent ++ exits)

unfoldable pub update_status : Event → Daemon → Daemon
update_status event d = elim (lookup event.id d.containers) [
  | none ↦ d
  | some e ↦ record d {
    containers = modify event.id (λ e. (update_entry event e).0) d.containers;
    notices = (update_entry event e).1 ++ d.notices;
  }
]

-- The critical section of `recover`.
unfoldable pub register_recovered : Text → ContainerState → Daemon → Daemon
register_recovered file_name state d = record d {
  containers = or_insert file_name recovered d.containers;
}
  where
    recovered : ContainerEntry
    recovered = record { state = state; created_waiter = none; exit_waiter = [] }

-- The map changes in these critical sections only. Requests, events and recovery interleave as a
-- sequence of them.
pub data Change : Type 0 where
  creates waits forgets : Text → Change
  marks recovers : Text → ContainerState → Change
  receives : Event → Change

unfoldable pub apply_change : Change → Daemon → Daemon
apply_change (creates id) d = (register_create id d).1
apply_change (waits id) d = (register_wait id d).1
apply_change (forgets id) d = forget_stopped id d
apply_change (marks id state) d = set_entry_state id state d
apply_change (recovers id state) d = register_recovered id state d
apply_change (receives event) d = update_status event d

unfoldable pub apply_changes : List Change → Daemon → Daemon
apply_changes [] d = d
apply_changes (c ∷ cs) d = apply_changes cs (apply_change c d)
