-- ===== src/Tests/Daemons.antt =====
-- Daemon.antt on one container.
use clonebox.Prelude.{
  Text, codes, ◌≡◌, refl, sym, none, some, [], ◌∷◌, arith, pos, true, false, text_eq,
}
use clonebox.Errors.{IoError, AnyError}
use clonebox.Errors.Display.{ErrorTexts}
use clonebox.State.{State, created, running, stopped, paused, get_state_path}
use clonebox.Event.{Event}
use clonebox.Table.{lookup}
use clonebox.Os.{Os, DirEntry, success, Reply, Fd, Sys, pure}
use clonebox.Os.Disk.{stored}
use clonebox.Lifecycle.{starts}
use clonebox.Daemon.{
  ContainerEntry, Daemon, init, created_sent, register_create, update_status, apply_changes,
  creates, waits, receives, forgets, register_wait, marks,
}
use clonebox.Daemon.Waiters.{waiting, IsAccounted, apply_changes-IsAccounted}
use clonebox.Daemon.Waking.{wakeup, code, value, failure_event, create_failure_answers_success}
use clonebox.Daemon.Waits.{wait_answered}
use clonebox.Daemon.Mirror.{handle, Answered, InStep, handle-Answered}
use clonebox.Daemon.Forgetting.{Forgets, handle_delete-Forgets}
use clonebox.Daemon.Handlers.{handle_delete}
use clonebox.Tests.Codec.{decode-encode}
use mathlib.Core.Path.{subst}
use clonebox.Daemon.Recovery.{recover, recover_entries, recover_entry}
use clonebox.Daemon.Recovered.{Recovered, recover_entry-Recovered}
use clonebox.Daemon.Start.{get_listen_sk, daemon_main}
use clonebox.Daemon.Events.{graceful_shutdown}
use clonebox.Daemon.Started.{Serves, daemon_main-Serves}
use clonebox.Tests.World.{box, with_box, machine, machine-IsFaithful}

abbrev fresh : State
fresh = box created (some (pos 42))

instance abbrev world : Os
world = machine fresh

abbrev id : Text
id = codes "box"

-- The container runs, and two requests wait for its exit.
abbrev busy : ContainerEntry
busy = record { state = running; created_waiter = none; exit_waiter = 1 ∷ 2 ∷ [] }

abbrev one_busy : Daemon
one_busy = record { containers = (id, busy) ∷ []; notices = created_sent 0 ∷ []; next_sender = 3 }

abbrev exit_event : Event
exit_event = record { id = id; state = stopped; exit_code = some (pos 7) }

busy_found : lookup id one_busy.containers ≡ some busy
unfolding lookup text_eq
busy_found = refl

one_busy-IsAccounted : IsAccounted one_busy
unfolding waiting
one_busy-IsAccounted = record { once = λ a. ground arith }

init-IsAccounted : IsAccounted init
unfolding waiting
init-IsAccounted = record { once = λ a. ground arith }

apply_changes-IsAccounted_example :
    IsAccounted (apply_changes (creates id ∷ waits id ∷ receives exit_event ∷ forgets id ∷ []) init)
apply_changes-IsAccounted_example =
    apply_changes-IsAccounted (creates id ∷ waits id ∷ receives exit_event ∷ forgets id ∷ []) init
      init-IsAccounted

create_failure_answers_success_example :
    wakeup
      (register_create id init).0
      (update_status (failure_event id) (register_create id init).1).notices
    ≡ some value
create_failure_answers_success_example =
    create_failure_answers_success id init (unfold lookup in refl)

abbrev texts : ErrorTexts
texts = record {
  io_text = λ e. codes "io error";
  any_error_text = λ e. codes "error";
  recv_error_text = codes "channel closed";
}

handle-Answered_example :
    Answered id
      (handle texts starts id one_busy []).2
      (handle texts starts id one_busy []).0
      (lookup id (handle texts starts id one_busy []).1.containers)
      (stored world (with_box fresh) (handle texts starts id one_busy []).2 id)
      (one_busy, (handle texts starts id one_busy []).1)
      (
        stored world (with_box fresh) [] id,
        stored world (with_box fresh) (handle texts starts id one_busy []).2 id,
      )
handle-Answered_example = handle-Answered (machine-IsFaithful fresh) texts starts id one_busy []

abbrev a_dir : Reply IoError DirEntry
a_dir = success (record { is_dir = success true; file_name = some id })

recover_entry-Recovered_example :
    Recovered id
      (codes "/run/clonebox")
      a_dir
      init
      []
      (recover_entry (codes "/run/clonebox") a_dir init []).0
      (recover_entry (codes "/run/clonebox") a_dir init []).1
recover_entry-Recovered_example = recover_entry-Recovered (codes "/run/clonebox") a_dir init [] id

wait_answered_example :
    ((register_wait id one_busy).0 ≡ some 3)
    × (wakeup 3
          (update_status exit_event (
            apply_changes
              (marks id paused ∷ waits id ∷ creates (codes "tin") ∷ [])
              (register_wait id one_busy).1)).notices
        ≡ some (code (pos 7)))
wait_answered_example =
    wait_answered id (marks id paused ∷ waits id ∷ creates (codes "tin") ∷ []) exit_event one_busy
      busy one_busy-IsAccounted busy_found refl refl refl

-- A server that is shut down at once.
abbrev idle_server : Fd → Fd → Daemon → Sys (Reply AnyError (Unit {0}))
idle_server uds listener d = pure (success tt)

daemon_main-Serves_example : Serves idle_server (daemon_main idle_server []).1
unfolding get_listen_sk recover recover_entries graceful_shutdown
daemon_main-Serves_example = daemon_main-Serves idle_server [] (unfold daemon_main in refl)

-- A container that has stopped, of which the daemon knows.
abbrev halted : State
halted = box stopped none

abbrev halted_world : Os
halted_world = machine halted

abbrev one_halted : Daemon
one_halted = record {
  containers = (id, record { state = stopped; created_waiter = some 0; exit_waiter = [] }) ∷ [];
  notices = [];
  next_sender = 1;
}

halted_file : stored halted_world (with_box halted) [] id ≡ some halted
unfolding stored text_eq get_state_path
halted_file = rw (decode-encode halted) refl

halted-InStep :
    InStep (lookup id one_halted.containers) (stored halted_world (with_box halted) [] id)
unfolding lookup text_eq
halted-InStep = subst (λ file. InStep (lookup id one_halted.containers) file) (sym halted_file) refl

handle_delete-Forgets_example :
    Forgets id
      (handle_delete ⦃os = halted_world⦄ texts id false one_halted []).0
      one_halted
      (handle_delete ⦃os = halted_world⦄ texts id false one_halted []).1
      (stored halted_world (with_box halted) [] id)
      (stored halted_world
        (with_box halted)
        (handle_delete ⦃os = halted_world⦄ texts id false one_halted []).2
        id)
handle_delete-Forgets_example =
    handle_delete-Forgets ⦃os = halted_world⦄ (machine-IsFaithful halted) texts id one_halted []
      (unfold lookup in (refl, tt)) halted-InStep
