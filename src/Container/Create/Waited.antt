-- ===== src/Container/Create/Waited.antt =====
-- The end of `create`: from the reply of waitpid on.
use mathlib.Core.Path.{subst}
use clonebox.Prelude.{Text, ◌≡◌, ap, ◌∙◌, some, List, [], ◌∷◌, ◌++◌, ℤ, arith, starts_with}
use clonebox.Errors.{system_error, wait}
use clonebox.State.{set_stopped, get_state_path}
use clonebox.State.File.{write_state_file, update_state, read_state_file}
use clonebox.Logger.{write_log_file}
use clonebox.Runtime.{Runtime, unfreeze_child, parent_proc_socket}
use clonebox.Container.Create.{notify, run_child, last_event}
use clonebox.Container.Create.Quiet.{parent_proc_socket-IsQuiet, unfreeze_child-IsQuiet}
use clonebox.Container.Create.Reports.{
  told, told_loudly, line, Tells, Says, SaysNothing, quiet_last, told-IsQuiet, notify-Tells,
}
use clonebox.Os.{Os, success, did, Fd, WaitStatus, Sys, History, ok, ◌>>=◌, ask, attempt, waitpid}
use clonebox.Os.Loud.{loud, IsQuiet}
use clonebox.Os.Returns.{Returns, >>=-Returns, value_then}
use clonebox.Container.Exec.Trace.{trace}
use clonebox.Event.Sending.{send_event}

-- The last process that was awaited, and what was learnt of it.
abbrev pub Awaited : WaitStatus → History → Type 0
Awaited w h = (pid : ℤ) × (t : History) × (trace h ≡ did (waitpid pid) (success w) ∷ t)

module _ ⦃os : Os⦄ (id sp : Text) where
  pub quiet_before :
      {A B : Type 0} (R : List Text → History → Type 0) (m : Sys A) (k : A → Sys B)
      → IsQuiet m
      → ((a : A) → Returns (λ h h1. R (told sp h) h1) (k a))
      → Returns (λ h h1. R (told sp h) h1) (m >>= k)
  quiet_before R m k quiet =
      >>=-Returns {P = λ h h1. told sp h1 ≡ told sp h} {Q = λ h h1. R (told sp h) h1}
        {R = λ h h1. R (told sp h) h1} (λ h h1 h2 p q. subst (λ l. R l h2) p q) m k
        (λ h a done. told-IsQuiet sp m quiet h)

  pub wait-IsQuiet : (pid : ℤ) → IsQuiet (attempt (λ e. system_error (wait e)) (ask (waitpid pid)))
  unfolding ask loud
  wait-IsQuiet pid h = ground arith

  unfoldable pub log_line : Fd → WaitStatus → Sys (Unit {0})
  log_line log_fd w = write_log_file log_fd (os.debug_status w ++ (b'\n' ∷ []))

  last_words :
      (log_fd : Fd) (w : WaitStatus)
      → Tells sp SaysNothing (update_state id set_stopped >>= λ _. log_line log_fd w)
  unfolding update_state read_state_file write_state_file write_log_file told told_loudly loud
      get_state_path starts_with log_line
  last_words log_fd w h a done = ground (arith)

  abbrev pub Ends : List Text → History → Type 0
  Ends before h = (w : WaitStatus) × Awaited w h × (told sp h ≡ line (last_event id w) ∷ before)

  -- From the reply of waitpid on, there is the last event, and no move.
  unfoldable pub after_wait : Fd → WaitStatus → Sys (Unit {0})
  after_wait log_fd w = notify (some sp) (last_event id w) >>= λ _.
      update_state id set_stopped >>= λ _. log_line log_fd w

  pub after_wait_still :
      (log_fd : Fd) (w : WaitStatus) (h : History) → trace (after_wait log_fd w h).1 ≡ trace h
  unfolding after_wait notify send_event update_state read_state_file write_state_file
      write_log_file trace log_line
  after_wait_still log_fd w h = ground arith

  after_wait-Tells :
      (log_fd : Fd) (w : WaitStatus)
      → Tells sp (Says (line (last_event id w))) (after_wait log_fd w)
  unfolding after_wait
  after_wait-Tells log_fd w =
      quiet_last sp (Says (line (last_event id w))) (notify (some sp) (last_event id w)) _
        (notify-Tells sp (last_event id w)) (λ _. last_words log_fd w)

  pub wait_moves :
      (pid : ℤ) (h : History) (w : WaitStatus)
      → (attempt (λ e. system_error (wait e)) (ask (waitpid pid)) h).0 ≡ ok w
      → trace (attempt (λ e. system_error (wait e)) (ask (waitpid pid)) h).1
        ≡ did (waitpid pid) (success w) ∷ trace h
  unfolding ask trace
  wait_moves pid h w done = ground (arith, done)

  pub run_child-Ends :
      (r : Runtime) (pid : ℤ) (log_fd : Fd)
      → Returns (λ h h1. Ends (told sp h) h1) (run_child id (some sp) r pid log_fd)
  unfolding run_child log_line after_wait
  run_child-Ends r pid log_fd =
      quiet_before Ends (parent_proc_socket id r) _ (parent_proc_socket-IsQuiet id r) (λ r'.
        quiet_before Ends (unfreeze_child r') _ (unfreeze_child-IsQuiet r') (λ _ h a done.
          value_then (Ends (told sp h)) a waiting (after_wait log_fd) h
            (λ w p rest. (
              w,
              (pid, trace h, after_wait_still log_fd w (waiting h).1 ∙ wait_moves pid h w p),
              after_wait-Tells log_fd w (waiting h).1 a rest
                  ∙ ap (λ l. line (last_event id w) ∷ l)
                      (told-IsQuiet sp waiting (wait-IsQuiet pid) h),
            ))
            done))
    where
      waiting : Sys WaitStatus
      waiting = attempt (λ e. system_error (wait e)) (ask (waitpid pid))
