-- ===== src/Container/Signals.antt =====
-- Which signals the commands send.
use clonebox.Prelude.{Text, ◌≡◌, none, some, List, [], ◌∷◌, ℤ, arith, if◌then◌else◌}
use clonebox.State.{State}
use clonebox.State.File.{read_state_file, update_state, write_state_file}
use clonebox.Os.{Os, Signal, sigkill, did_kill, History, Outcome, ok}
use clonebox.Runtime.{connect_create_process}
use clonebox.Cgroup.{set_cgroup}
use clonebox.Container.{start, kill, pause, resume, kill_process}
use clonebox.Container.Commands.{execute}
use clonebox.Lifecycle.{Command, kills, killable}

-- The signals of a history with their processes, newest first.
unfoldable pub signals : History → List (ℤ × Signal)
signals [] = []
signals (did_kill pid sig r ∷ h) = (pid, sig) ∷ signals h
signals (_ ∷ h) = signals h

-- What `kill` adds to the signals, by the recorded status and pid.
abbrev pub with_kill : State → List (ℤ × Signal) → List (ℤ × Signal)
with_kill s before = elim s.pid [
  | none ↦ before
  | some pid ↦ if killable s.status (some pid) then (pid, sigkill) ∷ before else before
]

-- What a command adds, by how its first read ended.
abbrev pub Sent : Command → Outcome State → List (ℤ × Signal) → List (ℤ × Signal) → Type 0
Sent kills (ok s) before after = after ≡ with_kill s before
Sent _ _ before after = after ≡ before

module _ ⦃os : Os⦄ where
  signals-read_state_file : (id : Text) (h : History) → signals (read_state_file id h).1 ≡ signals h
  unfolding read_state_file signals
  signals-read_state_file id h = ground arith

  signals-write_state_file :
      (id : Text) (s : State) (h : History) → signals (write_state_file id s h).1 ≡ signals h
  unfolding write_state_file signals
  signals-write_state_file id s h = ground arith

  signals-update_state :
      (id : Text) (f : State → State) (h : History) → signals (update_state id f h).1 ≡ signals h
  unfolding update_state
  signals-update_state id f h = grind (
    arith,
    signals-read_state_file id h,
    λ (s : State). signals-write_state_file id (f s) (read_state_file id h).1,
  )

  signals-connect : (id : Text) (h : History) → signals (connect_create_process id h).1 ≡ signals h
  unfolding connect_create_process signals
  signals-connect id h = ground arith

  signals-set_cgroup :
      (path resource key value : Text) (h : History)
      → signals (set_cgroup path resource key value h).1 ≡ signals h
  unfolding set_cgroup signals
  signals-set_cgroup path resource key value h = ground arith

  signals-kill_process :
      (id : Text) (s : State) (h : History)
      → signals (kill_process id s.status s.pid h).1 ≡ with_kill s (signals h)
  unfolding kill_process signals
  signals-kill_process id s h = ground arith

  -- Whatever the replies, the only signal that a command sends is one SIGKILL, sent by `kill` to the
  -- recorded pid of a container that is created or running.
  pub execute-Sent :
      (c : Command) (id : Text) (h : History)
      → Sent c (read_state_file id h).0 (signals h) (signals (execute c id h).1)
  unfolding execute start kill pause resume
  execute-Sent kills id h = grind (
    arith,
    signals-read_state_file id h,
    λ (s : State). signals-kill_process id s (read_state_file id h).1,
    signals-write_state_file,
  )
  execute-Sent _ id h =
      grind
        (arith, signals-read_state_file, signals-connect, signals-set_cgroup, signals-update_state)
