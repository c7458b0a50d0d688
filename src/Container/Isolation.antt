-- ===== src/Container/Isolation.antt =====
-- What a command on one container does to the stored state of another.
use clonebox.Prelude.{Text, codes, ◌≡◌, ◌≢◌, arith}
use clonebox.State.{State, set_running, set_stopped, set_paused}
use clonebox.State.File.{read_state_file, update_state}
use clonebox.State.Stored.{stored-read_state_file, stored-write_state_file_ne}
use clonebox.Os.{Os, History}
use clonebox.Os.Disk.{Disk, stored}
use clonebox.Runtime.{connect_create_process}
use clonebox.Container.{start, kill, pause, resume, kill_process}
use clonebox.Container.Commands.{
  execute, freeze, stored-connect, stored-set_cgroup, stored-kill_process,
}
use clonebox.Lifecycle.{Command, starts, kills, pauses, resumes}

module _ ⦃os : Os⦄ (d : Disk) (id j : Text) (ne : id ≢ j) where
  stored-update_state_ne :
      (f : State → State) (h : History) → stored os d (update_state id f h).1 j ≡ stored os d h j
  unfolding update_state
  stored-update_state_ne f h = grind (
    arith,
    stored-read_state_file d id j h,
    λ (s : State). stored-write_state_file_ne d id j (f s) (read_state_file id h).1 ne,
  )

  stored-start_ne : (h : History) → stored os d (start id h).1 j ≡ stored os d h j
  unfolding start
  stored-start_ne h =
      let h1 = (read_state_file id h).1 in
      ground (
        arith,
        stored-read_state_file d id j h,
        stored-connect d id j h1,
        stored-update_state_ne set_running (connect_create_process id h1).1,
      )

  stored-kill_ne : (h : History) → stored os d (kill id h).1 j ≡ stored os d h j
  unfolding kill
  stored-kill_ne h =
      let h1 = (read_state_file id h).1 in
      grind (
        arith,
        stored-read_state_file d id j h,
        λ (s : State). stored-kill_process d id j s h1,
        λ (s : State).
            stored-write_state_file_ne d id j (set_stopped s) (kill_process id s.status s.pid h1).1
              ne,
      )

  stored-pause_ne : (h : History) → stored os d (pause id h).1 j ≡ stored os d h j
  unfolding pause
  stored-pause_ne h =
      let h1 = (read_state_file id h).1 in
      ground (
        arith,
        stored-read_state_file d id j h,
        stored-set_cgroup d id (codes "cgroup") (codes "freeze") (codes "1") j h1,
        stored-update_state_ne set_paused (freeze id (codes "1") h1).1,
      )

  stored-resume_ne : (h : History) → stored os d (resume id h).1 j ≡ stored os d h j
  unfolding resume
  stored-resume_ne h =
      let h1 = (read_state_file id h).1 in
      ground (
        arith,
        stored-read_state_file d id j h,
        stored-set_cgroup d id (codes "cgroup") (codes "freeze") (codes "0") j h1,
        stored-update_state_ne set_running (freeze id (codes "0") h1).1,
      )

  -- A command on one container, however it ends, leaves the stored state of any other as it was.
  pub stored-execute_ne :
      (c : Command) (h : History) → stored os d (execute c id h).1 j ≡ stored os d h j
  unfolding execute
  stored-execute_ne starts h = stored-start_ne h
  stored-execute_ne kills h = stored-kill_ne h
  stored-execute_ne pauses h = stored-pause_ne h
  stored-execute_ne resumes h = stored-resume_ne h
