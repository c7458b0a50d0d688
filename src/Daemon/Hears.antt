-- ===== src/Daemon/Hears.antt =====
-- What the daemon makes of the connections that `create` and the shim open.
use clonebox.Prelude.{Text, ◌≡◌, Option, none, some, List, [], ◌∷◌, ◌++◌, map, arith}
use clonebox.State.{stopped}
use clonebox.Event.{Event}
use clonebox.Config.{Config}
use clonebox.Table.{lookup}
use clonebox.Daemon.{Sender, ContainerEntry, Notice, created_sent, exit_sent, Daemon, update_status}
use clonebox.Daemon.Events.{event_loop, read_lines}
use clonebox.Container.Create.Reports.{told, line, reported_code}
use clonebox.Container.Create.Waited.{Awaited}
use clonebox.Os.{Os, success, WaitStatus, History}

-- What serde_json and tokio document: an event can be printed, the text reads as that event again, and
-- a connection that carries the text and a newline has that text as its one line.
pub record IsWire (os : Os) (lines_of : Text → List Text) : Type 0 where
  pub prints : (e : Event) → (t : Text) × (os.event_to_json e ≡ success t)
  pub from_json-to_json :
      (e : Event) (t : Text) → os.event_to_json e ≡ success t → os.event_from_json t ≡ success e
  pub one_line :
      (e : Event) (t : Text)
      → os.event_to_json e ≡ success t
      → lines_of (t ++ (b'\n' ∷ [])) ≡ t ∷ []

abbrev pub created_for : Option Sender → List Notice
created_for none = []
created_for (some tx) = created_sent tx ∷ []

module _ ⦃os : Os⦄ {lines_of : Text → List Text} (wire : IsWire os lines_of) where
  pub event_loop-line :
      (e : Event) (connections : List Text) (d : Daemon)
      → event_loop lines_of (line e ∷ connections) d
        ≡ event_loop lines_of connections (update_status e d)
  unfolding event_loop read_lines
  event_loop-line e connections d =
      let (t, printed) = wire.prints e in
      ground (arith, printed, wire.from_json-to_json e t printed, wire.one_line e t printed)

  -- An entry with what has been sent.
  abbrev Left : Text → Daemon → ContainerEntry → List Notice → Type 0
  Left id d x sent = (lookup id d.containers ≡ some x) × (d.notices ≡ sent)

  -- What the daemon holds once it has read what create sent.
  abbrev pub Heard : Text → Text → Daemon → ContainerEntry → List Text → History → Type 0
  Heard id sp d x before h =
      (w : WaitStatus) × Awaited w h
      × (a : Text) × (b : Text) × (c : Text) × (told sp h ≡ c ∷ (b ∷ (a ∷ before)))
      × Left id (event_loop lines_of (a ∷ b ∷ c ∷ []) d)
          (record { state = stopped; created_waiter = none; exit_waiter = [] })
          (map (λ tx. exit_sent tx (reported_code w)) x.exit_waiter
            ++ (created_for x.created_waiter ++ d.notices))
