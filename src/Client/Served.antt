-- ===== src/Client/Served.antt =====
-- The command line in front of the handlers of the daemon: one command, from what was typed to the exit
-- code, the map of the daemon and the state file.
use clonebox.Prelude.{Text, ◌≡◌, refl, sym, Option, none, some, ℤ, pos, ◌⊎◌, inl, inr, arith}
use mathlib.Core.Path.{subst}
use clonebox.Errors.{IoError}
use clonebox.Errors.Display.{ErrorTexts}
use clonebox.State.{State}
use clonebox.State.File.{read_state_file}
use clonebox.State.Stored.{Spared}
use clonebox.Os.{Os, Reply, success, failure, Outcome, ok, err, gone, History}
use clonebox.Os.Disk.{Disk, IsFaithful, stored}
use clonebox.Container.Commands.{execute}
use clonebox.Container.Progress.{IsCooperative, execute_allowed}
use clonebox.Container.Refinement.{Follows, execute-Follows}
use clonebox.Container.Refusal.{refusal, execute_refused}
use clonebox.Lifecycle.{Command, starts, kills, pauses, resumes, next}
use clonebox.Table.{lookup}
use clonebox.Daemon.{ContainerEntry, Daemon, set_entry_state}
use clonebox.Daemon.Convert.{Status, to_status}
use clonebox.Daemon.Handlers.{
  Answer, response, refused, ended, complete, handle_start, handle_kill, handle_pause,
  handle_resume,
}
use clonebox.Daemon.Mirror.{handle, handle_lem, target, InStep, set_entry_state-InStep}
use clonebox.Client.{
  Host, Rpc, ResponseTo, start_request, kill_request, pause_request, resume_request, Commands,
  start, kill, pause, resume, Ending, failed, exit_code, main, request, run_command, daemon_uri,
}

-- The machine on which the daemon and the command line run.
abbrev pub Machine : Type 0
Machine = Daemon × History

-- tonic hands the answer of a handler to the client; a handler that does not return makes the call
-- fail in some way.
abbrev pub Hands :
    {Fault A : Type 0} → (Status → Fault) → Answer A → Machine → Reply Fault A × Machine → Type 0
Hands of_status (response a) m o = o ≡ (success a, m)
Hands of_status (refused x) m o = o ≡ (failure (of_status x), m)
Hands {Fault} of_status (ended x) m o = (f : Fault) × (o ≡ (failure f, m))

-- The service that the host's client calls is the daemon's.
pub record IsServed {Fault : Type 0} (host : Host Fault Machine) ⦃os : Os⦄ (texts : ErrorTexts)
    : Type 0 where
  pub start_handled :
      (id : Text) (d : Daemon) (h : History)
      → let (a, d', h') = handle_start texts id d h in
        Hands host.of_status a (d', h') (host.calls (start_request id) (d, h))
  pub kill_handled :
      (id : Text) (d : Daemon) (h : History)
      → let (a, d', h') = handle_kill texts id d h in
        Hands host.of_status a (d', h') (host.calls (kill_request id) (d, h))
  pub pause_handled :
      (id : Text) (d : Daemon) (h : History)
      → let (a, d', h') = handle_pause texts id d h in
        Hands host.of_status a (d', h') (host.calls (pause_request id) (d, h))
  pub resume_handled :
      (id : Text) (d : Daemon) (h : History)
      → let (a, d', h') = handle_resume texts id d h in
        Hands host.of_status a (d', h') (host.calls (resume_request id) (d, h))

-- What is typed for a command of the state machine.
abbrev pub typed : Command → Text → Commands
typed starts id = start id
typed kills id = kill id
typed pauses id = pause id
typed resumes id = resume id

-- What the process does with an answer.
abbrev Shows :
    {Fault A : Type 0} → (Status → Fault) → Answer A → Machine → Ending Fault × Machine → Type 0
Shows of_status (response a) m o = (exit_code o.0 ≡ pos 0) × (o.1 ≡ m)
Shows of_status (refused x) m o = o ≡ (failed (of_status x), m)
Shows of_status (ended x) m o = (exit_code o.0 ≡ pos 1) × (o.1 ≡ m)

-- A command has taken its step and the process says so, or the process fails and nothing has changed,
-- but for a last write of the state file that failed.
abbrev pub Done :
    Command
    → Text
    → ℤ
    → Option ContainerEntry
    → Option State × Option State
    → Daemon
    → Machine
    → Type 0
Done c id code entry (old, new) before (after, h) =
    ((code ≡ pos 0) × Follows c id (ok tt) h old new × InStep entry new)
    ⊎ ((code ≡ pos 1) × (after ≡ before) × Spared id h old new)

request-Shows :
    {Fault : Type 0} (host : Host Fault Machine) (q : Rpc) (a : Answer (ResponseTo q))
    (m s : Machine)
    → Hands host.of_status a m (host.calls q s)
    → Shows host.of_status a m (request host q s)
unfolding request exit_code
request-Shows host q (response x) m s hands = rw hands (refl, refl)
request-Shows host q (refused x) m s hands = rw hands refl
request-Shows host q (ended x) m s (f, hands) = rw hands (refl, refl)

module _ ⦃os : Os⦄ {Fault : Type 0} {host : Host Fault Machine} {texts : ErrorTexts}
    (served : IsServed host texts) (variable : Option Text) (exe_dir : Reply IoError Text) where
  run_command-Shows :
      (c : Command) (id : Text) (d : Daemon) (h : History)
      → let (a, d', h') = handle texts c id d h in
        Shows host.of_status a (d', h') (run_command host variable exe_dir (typed c id) (d, h))
  unfolding run_command handle
  run_command-Shows starts id d h =
      request-Shows host (start_request id) _ _ (d, h) (served.start_handled id d h)
  run_command-Shows kills id d h =
      request-Shows host (kill_request id) _ _ (d, h) (served.kill_handled id d h)
  run_command-Shows pauses id d h =
      request-Shows host (pause_request id) _ _ (d, h) (served.pause_handled id d h)
  run_command-Shows resumes id d h =
      request-Shows host (resume_request id) _ _ (d, h) (served.resume_handled id d h)

  main_connected :
      (c : Commands) (s m : Machine)
      → host.connects daemon_uri s ≡ (success tt, m)
      → main host variable exe_dir c s ≡ run_command host variable exe_dir c m
  unfolding main
  main_connected c s m e = rw e refl

  main-Shows :
      (c : Command) (id : Text) (d : Daemon) (h : History) (s : Machine)
      → host.connects daemon_uri s ≡ (success tt, (d, h))
      → let (a, d', h') =
          complete texts (execute c id h) (λ u. u) (set_entry_state id (target c) d) d in
        Shows host.of_status a (d', h') (main host variable exe_dir (typed c id) s)
  main-Shows c id d h s e = rw (main_connected (typed c id) s (d, h) e) (
      subst
        (λ (o : Answer (Unit {0}) × Daemon × History).
          Shows host.of_status o.0 (o.1, o.2)
            (run_command host variable exe_dir (typed c id) (d, h)))
        (handle_lem texts c id d h) (run_command-Shows c id d h))

  module _ {disk : Disk} (faithful : IsFaithful os disk) where
    -- What is left to be shown of the machine after the process has ended with `code`.
    abbrev DoneOn : Command → Text → Daemon → Option State → ℤ → Machine → Type 0
    DoneOn c id d old code m =
        Done c id code (lookup id m.0.containers) (old, stored os disk m.1 id) d m

    complete-Done :
        (c : Command) (id : Text) (d : Daemon) (old : Option State) (r : Outcome (Unit {0}))
        (h : History) (o : Ending Fault × Machine)
        → Follows c id r h old (stored os disk h id)
        → (let (a, d', h') = complete texts (r, h) (λ u. u) (set_entry_state id (target c) d) d in
            Shows host.of_status a (d', h') o)
        → DoneOn c id d old (exit_code o.0) o.1
    unfolding exit_code
    complete-Done c id d old (ok u) h o f (zero, m) =
        subst (DoneOn c id d old (exit_code o.0)) (sym m) (
          inl (zero, f, set_entry_state-InStep faithful texts c id h d old (stored os disk h id) f))
    complete-Done c id d old (err x) h o f shown =
        subst (λ (p : Ending Fault × Machine). DoneOn c id d old (exit_code p.0) p.1) (sym shown)
          (inr (refl, refl, f))
    complete-Done c id d old (gone x) h o f (one, m) =
        subst (DoneOn c id d old (exit_code o.0)) (sym m) (inr (one, refl, f))

    -- Where the client reaches the daemon, the daemon's handlers answer it, and reads see what was
    -- written: start, kill, pause and resume at the command line, with any failures of the calls of the
    -- daemon, either exit with 0, and then the stored state has made the step of the state machine and
    -- the entry of the daemon, if there is one, has the new state; or they exit with 1, and the map of
    -- the daemon has not changed, and neither has the stored state, unless the last call of the daemon
    -- was a write of the state file that failed.
    pub main-Done :
        (c : Command) (id : Text) (d : Daemon) (h : History) (s : Machine)
        → host.connects daemon_uri s ≡ (success tt, (d, h))
        → let (ending, (d', h')) = main host variable exe_dir (typed c id) s in
          Done c id
            (exit_code ending)
            (lookup id d'.containers)
            (stored os disk h id, stored os disk h' id)
            d
            (d', h')
    main-Done c id d h s e =
        complete-Done c id d (stored os disk h id) (execute c id h).0 (execute c id h).1
          (main host variable exe_dir (typed c id) s) (execute-Follows faithful c id h)
          (main-Shows c id d h s e)

    -- Where the client reaches the daemon, the daemon's handlers answer it, reads find what was written
    -- and the system carries out every call: a command that the state machine allows in the stored state
    -- exits with 0 at the command line, the stored state is then the next one, and the entry of the
    -- daemon, if there is one, has its status.
    pub main_allowed :
        (good : IsCooperative os disk) (c : Command) (id : Text) (d : Daemon) (h : History)
        (s : Machine) (old new : State)
        → host.connects daemon_uri s ≡ (success tt, (d, h))
        → stored os disk h id ≡ some old
        → next c old ≡ some new
        → let (ending, (d', h')) = main host variable exe_dir (typed c id) s in
          (exit_code ending ≡ pos 0)
          × (stored os disk h' id ≡ some new)
          × InStep (lookup id d'.containers) (some new)
    main_allowed good c id d h s old new e held step =
        let (file, entry) = subst Stepped (sym shown.1) (all.1, in_step) in (shown.0, file, entry)
      where
        all : ((execute c id h).0 ≡ ok tt) × (stored os disk (execute c id h).1 id ≡ some new)
        all = execute_allowed good faithful c id h old new held step

        Stepped : Machine → Type 0
        Stepped m =
            (stored os disk m.1 id ≡ some new) × InStep (lookup id m.0.containers) (some new)

        in_step : InStep (lookup id (set_entry_state id (target c) d).containers) (some new)
        in_step =
            set_entry_state-InStep faithful texts c id (execute c id h).1 d (some old) (some new)
              (λ p. ground (arith, p), step)

        shown :
            (exit_code (main host variable exe_dir (typed c id) s).0 ≡ pos 0)
            × ((main host variable exe_dir (typed c id) s).1
                ≡ (set_entry_state id (target c) d, (execute c id h).1))
        shown =
            subst
              (λ (r : Outcome (Unit {0})).
                let (a, d', h') =
                  complete texts (r, (execute c id h).1) (λ u. u) (set_entry_state id (target c) d)
                    d in
                Shows host.of_status a (d', h') (main host variable exe_dir (typed c id) s))
              all.0 (main-Shows c id d h s e)

  -- Where the client reaches the daemon and its handlers answer it: start, kill, pause or resume of a
  -- container whose state file is read, in a state in which the state machine refuses it, fails at the
  -- command line with the status of the refusal, and the daemon has its map as it was.
  pub main_refused :
      (c : Command) (id : Text) (d : Daemon) (h h1 : History) (s : Machine) (old : State)
      → host.connects daemon_uri s ≡ (success tt, (d, h))
      → read_state_file id h ≡ (ok old, h1)
      → next c old ≡ none
      → main host variable exe_dir (typed c id) s
        ≡ (failed (host.of_status (to_status texts (refusal c id old.status))), (d, h1))
  main_refused c id d h h1 s old e read stuck =
      subst
        (λ (p : Outcome (Unit {0}) × History).
          let (a, d', h') = complete texts p (λ u. u) (set_entry_state id (target c) d) d in
          Shows host.of_status a (d', h') (main host variable exe_dir (typed c id) s))
        (execute_refused c id h h1 old read stuck) (main-Shows c id d h s e)
