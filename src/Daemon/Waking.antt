-- ===== src/Daemon/Waking.antt =====
-- Which requests an event answers, and what `create` does on an id that is taken.
use clonebox.Prelude.{
  Text, ◌≡◌, ◌≢◌, ap, ◌∙◌, Option, none, some, List, [], ◌∷◌, ◌++◌, map, arith, ℤ, pos, negsuc,
  unwrap_or, if◌then◌else◌, text_eq_refl, text_eq_iff, ◌==◌,
}
use clonebox.State.{creating, stopped, state_eq}
use clonebox.Event.{Event}
use clonebox.Table.{lookup, lookup-modify, lookup-or_insert}
use clonebox.Daemon.{
  Sender, ContainerEntry, Notice, created_sent, exit_sent, sender_dropped, Daemon, register_create,
  update_entry, update_status,
}

-- The entry that an event leaves.
abbrev pub entry_after : Event → ContainerEntry → ContainerEntry
entry_after event e = record {
  state = event.state;
  created_waiter = if state_eq event.state creating then e.created_waiter else none;
  exit_waiter = if state_eq event.state stopped then [] else e.exit_waiter;
}

abbrev sent_to : Option Sender → List Notice
sent_to none = []
sent_to (some tx) = created_sent tx ∷ []

-- The notices that an event sends.
abbrev pub sent_by : Event → ContainerEntry → List Notice
sent_by event e =
    (if state_eq event.state creating then [] else sent_to e.created_waiter)
    ++ (if state_eq event.state stopped
        then map (λ tx. exit_sent tx (unwrap_or event.exit_code (pos 0))) e.exit_waiter
        else [])

update_entry_lem :
    (event : Event) (e : ContainerEntry)
    → update_entry event e ≡ (entry_after event e, sent_by event e)
unfolding update_entry
update_entry_lem event e = ground arith

-- An event about a known container sets its state; unless that is `creating` it answers the create
-- request that waits, and if it is `stopped` it sends the exit code, 0 if there is none, to every wait
-- request. Those and no others stop waiting.
pub update_status_known :
    (event : Event) (d : Daemon) (e : ContainerEntry)
    → lookup event.id d.containers ≡ some e
    → (lookup event.id (update_status event d).containers ≡ some (entry_after event e))
      × ((update_status event d).notices ≡ sent_by event e ++ d.notices)
unfolding update_status
update_status_known event d e h = (
  ground (
    arith,
    text_eq_refl event.id,
    update_entry_lem event e,
    lookup-modify event.id event.id (λ x. (update_entry event x).0) d.containers,
  ),
  ground (arith, update_entry_lem event e),
)

-- An event changes no entry but the one of the container that it is about.
lookup-update_status_ne :
    (event : Event) (d : Daemon) (j : Text)
    → event.id ≢ j
    → lookup j (update_status event d).containers ≡ lookup j d.containers
unfolding update_status
lookup-update_status_ne event d j ne = ground (
  arith,
  text_eq_iff event.id j,
  lookup-modify event.id j (λ x. (update_entry event x).0) d.containers,
)

-- What the request that holds a sender's receiver gets, if anything yet.
pub data Wakeup : Type 0 where
  value : Wakeup
  code : ℤ → Wakeup
  closed : Wakeup

unfoldable pub wakeup : Sender → List Notice → Option Wakeup
wakeup tx [] = none
wakeup tx (created_sent x ∷ ns) = if x == tx then some value else wakeup tx ns
wakeup tx (exit_sent x c ∷ ns) = if x == tx then some (code c) else wakeup tx ns
wakeup tx (sender_dropped x ∷ ns) = if x == tx then some closed else wakeup tx ns

abbrev fresh_entry : Sender → ContainerEntry
fresh_entry tx = record { state = creating; created_waiter = some tx; exit_waiter = [] }

notices-register_create_taken :
    (id : Text) (d : Daemon) (e : ContainerEntry)
    → lookup id d.containers ≡ some e
    → (register_create id d).1.notices ≡ sender_dropped d.next_sender ∷ d.notices
unfolding register_create
notices-register_create_taken id d e h = ground arith

-- A create request for an id that is in the map already changes no entry, and its channel is closed at
-- once.
register_create_taken :
    (id j : Text) (d : Daemon) (e : ContainerEntry)
    → lookup id d.containers ≡ some e
    → let (tx, d') = register_create id d in
      (lookup j d'.containers ≡ lookup j d.containers) × (wakeup tx d'.notices ≡ some closed)
unfolding register_create wakeup
register_create_taken id j d e h = (
  ground (arith, text_eq_iff id j, lookup-or_insert id j (fresh_entry d.next_sender) d.containers),
  ground arith,
)

-- The event that a shim sends when `create` fails.
abbrev pub failure_event : Text → Event
failure_event id = record { id = id; state = stopped; exit_code = some (negsuc 0) }

-- A second create for an id that is in the map, whose shim fails as it does when the bundle exists:
-- the event of that shim marks the first container as stopped, whatever its state is, and tells every
-- request that waits for it that it exited with -1.
create_taken_stops_first :
    (id : Text) (d : Daemon) (e : ContainerEntry)
    → lookup id d.containers ≡ some e
    → let d' = update_status (failure_event id) (register_create id d).1 in
      (lookup id d'.containers
        ≡ some (record { state = stopped; created_waiter = none; exit_waiter = [] }))
      × (d'.notices ≡ sent_by (failure_event id) e ++ (sender_dropped d.next_sender ∷ d.notices))
create_taken_stops_first id d e h =
    let d1 = (register_create id d).1 in
    let (kept, _) = register_create_taken id id d e h in
    let (entry, sent) = update_status_known (failure_event id) d1 e (kept ∙ h) in
    (
      entry,
      sent ∙ ap (λ ns. sent_by (failure_event id) e ++ ns) (notices-register_create_taken id d e h),
    )

-- A create for a new id whose shim fails is answered as if it had succeeded: the event that reports
-- the failure sends on the channel that the request takes for success.
pub create_failure_answers_success :
    (id : Text) (d : Daemon)
    → lookup id d.containers ≡ none
    → let (tx, d1) = register_create id d in
      wakeup tx (update_status (failure_event id) d1).notices ≡ some value
unfolding register_create update_status update_entry wakeup
create_failure_answers_success id d h =
    ground (arith, text_eq_refl id, lookup-or_insert id id (fresh_entry d.next_sender) d.containers)
