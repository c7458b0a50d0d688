-- ===== src/Container/Create/Unheard.antt =====
-- The end of a container that nobody listens to.
use clonebox.Prelude.{Text, ◌≡◌, ◌≢◌, ℤ}
use clonebox.Errors.{EventError, from_event, system_error, wait}
use clonebox.Event.{Event}
use clonebox.Os.{Os, WaitStatus, waitpid, err, History, Sys, attempt, ask}
use clonebox.Os.Disk.{Disk, stored}
use clonebox.Runtime.{Runtime}
use clonebox.Container.Create.Waited.{Awaited}

module _ ⦃os : Os⦄ where
  abbrev NoEvent : {A : Type 0} → Sys A → Type 0
  NoEvent m = (h : History) (x : EventError) → (m h).0 ≢ err (from_event x)

  abbrev waiting : ℤ → Sys WaitStatus
  waiting pid = attempt (λ e. system_error (wait e)) (ask (waitpid pid))

  module _ (d : Disk) (id sp : Text) where
    -- The process has ended, and the files are as they were.
    abbrev pub Missed : History → History → Type 0
    Missed before after =
        (w : WaitStatus) × Awaited w after
        × ((j : Text) → stored os d after j ≡ stored os d before j)
