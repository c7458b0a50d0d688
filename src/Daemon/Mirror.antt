-- ===== src/Daemon/Mirror.antt =====
-- The map of the daemon beside the state files: what a handler leaves in both.
use clonebox.Prelude.{Text, ◌≡◌, refl, Option, none, some, arith, text_eq_refl}
use clonebox.Errors.Display.{ErrorTexts}
use clonebox.State.{State, ContainerState, running, stopped, paused}
use clonebox.Os.{Os, Outcome, ok, err, gone, History}
use clonebox.Os.Disk.{Disk, IsFaithful, stored}
use clonebox.Container.Commands.{execute}
use clonebox.Container.Refinement.{Follows, execute-Follows}
use clonebox.State.Stored.{Spared}
use clonebox.Lifecycle.{Command, starts, kills, pauses, resumes, next}
use clonebox.Table.{lookup, lookup-modify}
use clonebox.Daemon.{ContainerEntry, Daemon, set_entry_state}
use clonebox.Daemon.Handlers.{
  Answer, response, Handler, complete, handle_start, handle_kill, handle_pause, handle_resume,
}

-- The handlers of the four commands under one name.
unfoldable pub handle : ⦃os : Os⦄ → ErrorTexts → Command → Text → Handler (Answer (Unit {0}))
handle texts starts = handle_start texts
handle texts kills = handle_kill texts
handle texts pauses = handle_pause texts
handle texts resumes = handle_resume texts

-- Where both have the container, they have it in the same state.
abbrev pub InStep : Option ContainerEntry → Option State → Type 0
InStep none _ = Unit {0}
InStep (some e) none = ⊥
InStep (some e) (some s) = e.state ≡ s.status

-- How a handler leaves the map and the stored state, by its answer.
abbrev pub Answered :
    Text
    → History
    → Answer (Unit {0})
    → Option ContainerEntry
    → Option State
    → Daemon × Daemon
    → Option State × Option State
    → Type 0
Answered id h (response _) entry now (before, after) files = InStep entry now
Answered id h _ entry now (before, after) (old, new) = (after ≡ before) × Spared id h old new

abbrev pub target : Command → ContainerState
target starts = running
target kills = stopped
target pauses = paused
target resumes = running

pub handle_lem :
    ⦃os : Os⦄
    → (texts : ErrorTexts) (c : Command) (id : Text) (d : Daemon) (h : History)
    → handle texts c id d h
      ≡ complete texts (execute c id h) (λ u. u) (set_entry_state id (target c) d) d
unfolding handle execute handle_start handle_kill handle_pause handle_resume
handle_lem texts starts id d h = refl
handle_lem texts kills id d h = refl
handle_lem texts pauses id d h = refl
handle_lem texts resumes id d h = refl

next-target : (c : Command) (s t : State) → next c s ≡ some t → t.status ≡ target c
unfolding next
next-target starts s t e = ground arith
next-target kills s t e = ground arith
next-target pauses s t e = ground arith
next-target resumes s t e = ground arith

module _ ⦃os : Os⦄ {disk : Disk} (faithful : IsFaithful os disk) (texts : ErrorTexts) where
  pub set_entry_state-InStep :
      (c : Command) (id : Text) (h : History) (d : Daemon) (before after : Option State)
      → Follows c id (ok tt) h before after
      → InStep (lookup id (set_entry_state id (target c) d).containers) after
  unfolding set_entry_state
  set_entry_state-InStep c id h d (some s) (some t) (found, e) = ground (
    arith,
    next-target c s t e,
    text_eq_refl id,
    lookup-modify id id (λ (x : ContainerEntry). record x { state = target c }) d.containers,
  )
  set_entry_state-InStep c id h d (some s) none (found, e) = absurd (found refl)
  set_entry_state-InStep c id h d none after f = absurd f

  complete-Answered :
      (c : Command) (id : Text) (d : Daemon) (before : Option State) (r : Outcome (Unit {0}))
      (h : History)
      → Follows c id r h before (stored os disk h id)
      → let (a, d', h') = complete texts (r, h) (λ u. u) (set_entry_state id (target c) d) d in
        Answered id h' a
          (lookup id d'.containers)
          (stored os disk h' id)
          (d, d')
          (before, stored os disk h' id)
  complete-Answered c id d before (ok u) h f =
      set_entry_state-InStep c id h d before (stored os disk h id) f
  complete-Answered c id d before (err e) h f = (refl, f)
  complete-Answered c id d before (gone x) h f = (refl, f)

  -- Where reads see what was written, a handler of start, kill, pause or resume that answers with a
  -- response leaves the entry of the container, if there is one, in the state that its state file has;
  -- one that does not leaves the map as it was, and the stored state, unless the last call was a write of
  -- the state file that failed: what such a write leaves stored is open.
  pub handle-Answered :
      (c : Command) (id : Text) (d : Daemon) (h : History)
      → let (a, d', h') = handle texts c id d h in
        Answered id h' a
          (lookup id d'.containers)
          (stored os disk h' id)
          (d, d')
          (stored os disk h id, stored os disk h' id)
  handle-Answered c id d h = rw (handle_lem texts c id d h) (
      complete-Answered c id d (stored os disk h id) (execute c id h).0 (execute c id h).1
        (execute-Follows faithful c id h))
