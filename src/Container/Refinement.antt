-- ===== src/Container/Refinement.antt =====
-- The operations of container.rs against the state machine of Lifecycle.antt, on state.json.
use clonebox.Prelude.{Text, codes, ◌≡◌, ◌≢◌, Option, none, some, arith}
use clonebox.State.{State, set_running, set_stopped, set_paused}
use clonebox.State.File.{read_state_file}
use clonebox.State.Stored.{
  Spared, read_state_file-Agrees, write_state_file-Wrote, stored-read_state_file,
  update_state-Updated,
}
use clonebox.Os.{Os, History, Outcome, ok}
use clonebox.Os.Disk.{Disk, IsFaithful, stored}
use clonebox.Runtime.{connect_create_process}
use clonebox.Container.{start, kill, pause, resume, kill_process}
use clonebox.Container.Commands.{
  execute, freeze, stored-connect, stored-set_cgroup, stored-kill_process,
}
use clonebox.Lifecycle.{Command, starts, kills, pauses, resumes, next}

-- A command that returns has made the step of the contract; any other has left the state alone, unless
-- its last call was a write of the state file, and failed.
abbrev pub Follows :
    Command → Text → Outcome (Unit {0}) → History → Option State → Option State → Type 0
Follows c id (ok _) h none after = ⊥
Follows c id (ok _) h (some s) after = (after ≢ none) × (next c s ≡ after)
Follows c id _ h before after = Spared id h before after

module _ ⦃os : Os⦄ {d : Disk} (faithful : IsFaithful os d) where
  start-Follows :
      (id : Text) (h : History)
      → Follows starts id
          (start id h).0
          (start id h).1
          (stored os d h id)
          (stored os d (start id h).1 id)
  unfolding start next set_running
  start-Follows id h = grind (
    arith,
    read_state_file-Agrees faithful id h,
    stored-read_state_file d id id h,
    stored-connect d id id (read_state_file id h).1,
    update_state-Updated faithful id set_running
        (connect_create_process id (read_state_file id h).1).1,
  )

  kill-Follows :
      (id : Text) (h : History)
      → Follows kills id
          (kill id h).0
          (kill id h).1
          (stored os d h id)
          (stored os d (kill id h).1 id)
  unfolding kill next set_stopped
  kill-Follows id h =
      let h1 = (read_state_file id h).1 in
      grind (
        arith,
        read_state_file-Agrees faithful id h,
        stored-read_state_file d id id h,
        λ (s : State). stored-kill_process d id id s h1,
        λ (s : State).
            write_state_file-Wrote faithful id (set_stopped s)
              (kill_process id s.status s.pid h1).1,
      )

  pause-Follows :
      (id : Text) (h : History)
      → Follows pauses id
          (pause id h).0
          (pause id h).1
          (stored os d h id)
          (stored os d (pause id h).1 id)
  unfolding pause next set_paused
  pause-Follows id h =
      let h1 = (read_state_file id h).1 in
      grind (
        arith,
        read_state_file-Agrees faithful id h,
        stored-read_state_file d id id h,
        stored-set_cgroup d id (codes "cgroup") (codes "freeze") (codes "1") id h1,
        update_state-Updated faithful id set_paused (freeze id (codes "1") h1).1,
      )

  resume-Follows :
      (id : Text) (h : History)
      → Follows resumes id
          (resume id h).0
          (resume id h).1
          (stored os d h id)
          (stored os d (resume id h).1 id)
  unfolding resume next set_running
  resume-Follows id h =
      let h1 = (read_state_file id h).1 in
      grind (
        arith,
        read_state_file-Agrees faithful id h,
        stored-read_state_file d id id h,
        stored-set_cgroup d id (codes "cgroup") (codes "freeze") (codes "0") id h1,
        update_state-Updated faithful id set_running (freeze id (codes "0") h1).1,
      )

  -- Where reads see what was written, every command, with any failures of its calls, either returns and
  -- has made the step of the state machine on the stored state, or does not return and has left the
  -- stored state as it was, unless its last call was a write of the state file that failed: what such a
  -- write leaves stored is open.
  pub execute-Follows :
      (c : Command) (id : Text) (h : History)
      → Follows c id
          (execute c id h).0
          (execute c id h).1
          (stored os d h id)
          (stored os d (execute c id h).1 id)
  unfolding execute
  execute-Follows starts id h = start-Follows id h
  execute-Follows kills id h = kill-Follows id h
  execute-Follows pauses id h = pause-Follows id h
  execute-Follows resumes id h = resume-Follows id h
