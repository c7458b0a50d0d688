-- ===== src/Shim/Failures.antt =====
-- What the shim tells the daemon, if `create` fails too.
use clonebox.Prelude.{Text, ◌≡◌, ◌⊎◌, none, some, List, [], ◌∷◌, ◌++◌, map, negsuc}
use clonebox.State.{stopped}
use clonebox.Config.{Config}
use clonebox.Table.{lookup}
use clonebox.Container.Create.Reports.{told, line, news}
use clonebox.Container.Create.Story.{Reported}
use clonebox.Daemon.{ContainerEntry, exit_sent, Daemon}
use clonebox.Daemon.Events.{event_loop}
use clonebox.Daemon.Hears.{created_for}
use clonebox.Os.{Os, Outcome, ok, err, gone, panicked, History}

module _ ⦃os : Os⦄ (id sp : Text) where
  -- By how the shim ends, and how create did.
  abbrev pub ShimTold :
      Outcome (Unit {0}) → Outcome (Unit {0}) → List Text → List Text → History → Type 0
  ShimTold (ok _) made before between after = (made ≡ ok tt) × Reported id sp before after
  ShimTold (err x) made before between after =
      (made ≡ err x) × (told sp after ≡ line (news id stopped (negsuc 0)) ∷ between)
  ShimTold (gone x) made before between after = (made ≡ gone x) ⊎ (x ≡ panicked)

  -- The entry once that event is read.
  abbrev pub Stops : (Text → List Text) → Daemon → ContainerEntry → List Text → List Text → Type 0
  Stops lines_of d x before after =
      (t : Text) × (after ≡ t ∷ before)
      × (lookup id (event_loop lines_of (t ∷ []) d).containers
          ≡ some (record { state = stopped; created_waiter = none; exit_waiter = [] }))
      × ((event_loop lines_of (t ∷ []) d).notices
          ≡ created_for x.created_waiter
            ++ (map (λ tx. exit_sent tx (negsuc 0)) x.exit_waiter ++ d.notices))
