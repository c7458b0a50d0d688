-- ===== src/Container/Progress.antt =====
-- The commands on a system that carries out what it is asked.
use clonebox.Prelude.{Text, codes, ◌≡◌, some, arith, ℤ}
use clonebox.State.{State, set_running, set_stopped, set_paused}
use clonebox.State.File.{read_state_file, write_state_file, update_state}
use clonebox.State.Stored.{stored-read_state_file}
use clonebox.Os.{Os, Reply, success, failure, Signal, History, Fd, ok}
use clonebox.Os.Disk.{Disk, IsFaithful, content, stored}
use clonebox.Runtime.{connect_create_process}
use clonebox.Cgroup.{set_cgroup}
use clonebox.Container.{start, kill, pause, resume, kill_process}
use clonebox.Container.Commands.{execute, freeze, stored-connect, stored-set_cgroup}
use clonebox.Container.Refinement.{execute-Follows}
use clonebox.Lifecycle.{Command, starts, kills, pauses, resumes, next}

abbrev Succeeds : {E A : Type 0} → Reply E A → Type 0
Succeeds (success a) = Unit {0}
Succeeds (failure e) = ⊥

-- A system that carries out every call, and whose reads find what is there.
pub record IsCooperative (os : Os) (d : Disk) : Type 0 where
  pub reads_content : (h : History) (p t : Text) → content d h p ≡ some t → os.reads h p ≡ success t
  pub writes_succeed : (h : History) (p t : Text) → Succeeds (os.writes h p t)
  pub json_succeeds : (s : State) → Succeeds (os.state_to_json s)
  pub kills_succeed : (h : History) (pid : ℤ) (sig : Signal) → Succeeds (os.kills h pid sig)
  pub sockets_open : (h : History) → Succeeds (os.opens_socket h)
  pub addresses_fit : (p : Text) → Succeeds (os.unix_addr p)
  pub connects_succeed : (h : History) (fd : Fd) (p : Text) → Succeeds (os.connects h fd p)

module _ ⦃os : Os⦄ {d : Disk} (good : IsCooperative os d) where
  read_state_file_succeeds :
      (id : Text) (h : History) (s : State)
      → stored os d h id ≡ some s
      → (read_state_file id h).0 ≡ ok s
  unfolding read_state_file stored
  read_state_file_succeeds id h s e = grind (arith, good.reads_content)

  write_state_file_succeeds :
      (id : Text) (s : State) (h : History) → (write_state_file id s h).0 ≡ ok tt
  unfolding write_state_file
  write_state_file_succeeds id s h = grind (arith, good.json_succeeds, good.writes_succeed)

  pub update_state_succeeds :
      (id : Text) (f : State → State) (h : History) (s : State)
      → stored os d h id ≡ some s
      → (update_state id f h).0 ≡ ok (f s)
  unfolding update_state
  update_state_succeeds id f h s e = grind (
    arith,
    read_state_file_succeeds id h s,
    write_state_file_succeeds id (f s) (read_state_file id h).1,
  )

  connect_succeeds : (id : Text) (h : History) → (connect_create_process id h).0 ≡ ok tt
  unfolding connect_create_process
  connect_succeeds id h =
      grind (arith, good.sockets_open, good.addresses_fit, good.connects_succeed)

  freeze_succeeds : (id value : Text) (h : History) → (freeze id value h).0 ≡ ok tt
  unfolding set_cgroup
  freeze_succeeds id value h = grind (arith, good.writes_succeed)

  start_succeeds :
      (id : Text) (h : History) (s t : State)
      → stored os d h id ≡ some s
      → next starts s ≡ some t
      → (start id h).0 ≡ ok tt
  unfolding start next
  start_succeeds id h s t e n =
      let h1 = (read_state_file id h).1 in
      grind (
        arith,
        read_state_file_succeeds id h s,
        stored-read_state_file d id id h,
        connect_succeeds id h1,
        stored-connect d id id h1,
        update_state_succeeds id set_running (connect_create_process id h1).1 s,
      )

  kill_succeeds :
      (id : Text) (h : History) (s t : State)
      → stored os d h id ≡ some s
      → next kills s ≡ some t
      → (kill id h).0 ≡ ok tt
  unfolding kill next
  kill_succeeds id h s t e n =
      let h1 = (read_state_file id h).1 in
      grind (
        arith,
        read_state_file_succeeds id h s,
        good.kills_succeed,
        write_state_file_succeeds id (set_stopped s) (kill_process id s.status s.pid h1).1,
      )

  pause_succeeds :
      (id : Text) (h : History) (s t : State)
      → stored os d h id ≡ some s
      → next pauses s ≡ some t
      → (pause id h).0 ≡ ok tt
  unfolding pause next
  pause_succeeds id h s t e n =
      let h1 = (read_state_file id h).1 in
      grind (
        arith,
        read_state_file_succeeds id h s,
        stored-read_state_file d id id h,
        freeze_succeeds id (codes "1") h1,
        stored-set_cgroup d id (codes "cgroup") (codes "freeze") (codes "1") id h1,
        update_state_succeeds id set_paused (freeze id (codes "1") h1).1 s,
      )

  resume_succeeds :
      (id : Text) (h : History) (s t : State)
      → stored os d h id ≡ some s
      → next resumes s ≡ some t
      → (resume id h).0 ≡ ok tt
  unfolding resume next
  resume_succeeds id h s t e n =
      let h1 = (read_state_file id h).1 in
      grind (
        arith,
        read_state_file_succeeds id h s,
        stored-read_state_file d id id h,
        freeze_succeeds id (codes "0") h1,
        stored-set_cgroup d id (codes "cgroup") (codes "freeze") (codes "0") id h1,
        update_state_succeeds id set_running (freeze id (codes "0") h1).1 s,
      )

  execute_succeeds :
      (c : Command) (id : Text) (h : History) (s t : State)
      → stored os d h id ≡ some s
      → next c s ≡ some t
      → (execute c id h).0 ≡ ok tt
  unfolding execute
  execute_succeeds starts id h s t e n = start_succeeds id h s t e n
  execute_succeeds kills id h s t e n = kill_succeeds id h s t e n
  execute_succeeds pauses id h s t e n = pause_succeeds id h s t e n
  execute_succeeds resumes id h s t e n = resume_succeeds id h s t e n

  -- Where reads see what was written, and find it, and the system carries out every call, a command that
  -- the state machine allows in the stored state returns, and the stored state is then the next one.
  pub execute_allowed :
      (faithful : IsFaithful os d) (c : Command) (id : Text) (h : History) (s t : State)
      → stored os d h id ≡ some s
      → next c s ≡ some t
      → ((execute c id h).0 ≡ ok tt) × (stored os d (execute c id h).1 id ≡ some t)
  execute_allowed faithful c id h s t e n =
      let done = execute_succeeds c id h s t e n in
      (done, ground (arith, done, execute-Follows faithful c id h))
