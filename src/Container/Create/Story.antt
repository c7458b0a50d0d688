-- ===== src/Container/Create/Story.antt =====
-- What the daemon hears of a whole `create`, phase by phase.
use clonebox.Prelude.{Text, ◌≡◌, List, ◌∷◌, pos}
use clonebox.State.{creating, created, stopped}
use clonebox.Config.{Config}
use clonebox.Runtime.{Runtime}
use clonebox.Container.Create.{created_event, last_event}
use clonebox.Container.Create.Reports.{told, line, news, reported_code}
use clonebox.Event
use clonebox.Os.{Os, WaitStatus, History}
use clonebox.Os.Returns.{Returns}
use clonebox.Container.Create.Waited.{Awaited}

module _ ⦃os : Os⦄ (id sp : Text) where
  -- The child's side does not return.
  Never : List Text → List Text → Type 0
  Never before after = ⊥

  -- Three lines, the last with what waitpid reported in the end.
  abbrev pub Reported : List Text → History → Type 0
  Reported before h =
      (w : WaitStatus) × Awaited w h
      × (told sp h
          ≡ line (news id stopped (reported_code w))
            ∷ (line (news id created (pos 0)) ∷ (line (news id creating (pos 0)) ∷ before)))

  abbrev Follow : List Text → History → Type 0
  Follow before h =
      (w : WaitStatus) × Awaited w h
      × (told sp h ≡ line (last_event id w) ∷ (line (created_event id) ∷ before))
