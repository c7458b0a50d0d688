-- ===== src/Container/Refusal.antt =====
-- What container.rs does where the state machine refuses a command.
use clonebox.Prelude.{Text, ◌≡◌, none, arith}
use clonebox.Errors.{
  CoreError, container_already_stopped, container_not_created, container_not_running,
  container_not_paused, other, any_text,
}
use clonebox.State.{State, ContainerState, stopped}
use clonebox.State.File.{read_state_file}
use clonebox.Os.{Os, History, ok, err}
use clonebox.Container.{start, kill, pause, resume, kill_message}
use clonebox.Container.Commands.{execute}
use clonebox.Lifecycle.{Command, starts, kills, pauses, resumes, next}

-- The error that each command has for a state that it refuses.
abbrev pub refusal : Command → Text → ContainerState → CoreError
refusal starts id status = container_not_created id
refusal kills id stopped = container_already_stopped id
refusal kills id _ = other (any_text (kill_message id))
refusal pauses id status = container_not_running id
refusal resumes id status = container_not_paused id

module _ ⦃os : Os⦄ where
  -- A command that the state machine refuses in the state that was read returns the error of that
  -- command, and makes no system call after the read.
  pub execute_refused :
      (c : Command) (id : Text) (h h1 : History) (s : State)
      → read_state_file id h ≡ (ok s, h1)
      → next c s ≡ none
      → execute c id h ≡ (err (refusal c id s.status), h1)
  unfolding execute next
  execute_refused starts id h h1 s e n = unfold start in ground arith
  execute_refused kills id h h1 s e n = unfold kill in ground arith
  execute_refused pauses id h h1 s e n = unfold pause in ground arith
  execute_refused resumes id h h1 s e n = unfold resume in ground arith
