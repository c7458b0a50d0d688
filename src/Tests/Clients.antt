-- ===== src/Tests/Clients.antt =====
-- Client.antt: a container that was created, and a client whose requests reach the handlers.
use clonebox.Prelude.{text_eq, Text, codes, ◌≡◌, refl, Option, none, some, [], ◌∷◌, pos}
use clonebox.Errors.{IoError}
use clonebox.Errors.Display.{ErrorTexts}
use clonebox.State.{State, created, running, get_state_path}
use clonebox.Os.{Os, Reply, success, failure, History, ok, did_read}
use clonebox.Os.Disk.{stored, content}
use clonebox.State.File.{read_state_file}
use clonebox.Container.Refusal.{refusal}
use clonebox.Lifecycle.{starts, kills, pauses, next}
use clonebox.Table.{lookup}
use clonebox.Daemon.{ContainerEntry, Daemon}
use clonebox.Daemon.Convert.{Status, to_status}
use clonebox.Daemon.Handlers.{
  Answer, response, refused, ended, handle_start, handle_kill, handle_pause, handle_resume,
  handle_state, handle_delete, handle_list, handle_exec,
}
use clonebox.Daemon.Mirror.{InStep}
use clonebox.Client.{
  Host, Rpc, ResponseTo, create_request, start_request, state_request, kill_request, delete_request,
  pause_request, resume_request, exec_request, wait_request, list_request, main, Ending, exit_code,
  failed,
}
use clonebox.Client.Served.{
  Machine, Hands, IsServed, typed, Done, main-Done, main_allowed, main_refused,
}
use clonebox.Tests.Codec.{encode, decode-encode}
use clonebox.Tests.World.{box, with_box, machine, machine-IsFaithful, machine-IsCooperative}

abbrev fresh : State
fresh = box created (some (pos 42))

instance abbrev world : Os
world = machine fresh

abbrev id : Text
id = codes "box"

abbrev texts : ErrorTexts
texts = record {
  io_text = λ e. codes "io error";
  any_error_text = λ e. codes "error";
  recv_error_text = codes "channel closed";
}

abbrev hand : {A : Type 0} → Answer A × Daemon × History → Reply (Option Status) A × Machine
hand (response a, d, h) = (success a, (d, h))
hand (refused x, d, h) = (failure (some x), (d, h))
hand (ended x, d, h) = (failure none, (d, h))

abbrev wrapped : {F A : Type 0} → Reply F A × Machine → Reply F (Option A) × Machine
wrapped (success a, m) = (success (some a), m)
wrapped (failure x, m) = (failure x, m)

-- The requests that wait for an event get no answer here.
abbrev served : (q : Rpc) → Machine → Reply (Option Status) (ResponseTo q) × Machine
served (create_request i c) m = (failure none, m)
served (start_request i) m = hand (handle_start texts i m.0 m.1)
served (state_request i) m = wrapped (hand (handle_state texts i m.0 m.1))
served (kill_request i) m = hand (handle_kill texts i m.0 m.1)
served (delete_request i force) m = hand (handle_delete texts i force m.0 m.1)
served (pause_request i) m = hand (handle_pause texts i m.0 m.1)
served (resume_request i) m = hand (handle_resume texts i m.0 m.1)
served (exec_request i cmd) m = hand (handle_exec texts m.0 m.1)
served (wait_request i) m = (failure none, m)
served list_request m = hand (handle_list texts m.0 m.1)

abbrev host : Host (Option Status) Machine
host = record {
  connects = λ p m. (success tt, m);
  calls = served;
  runs = λ p args m. (success (some (pos 7)), m);
  of_status = some;
}

hand-Hands :
    {A : Type 0} (a : Answer A) (d : Daemon) (h : History)
    → Hands {Fault = Option Status} some a (d, h) (hand (a, d, h))
hand-Hands (response a) d h = refl
hand-Hands (refused x) d h = refl
hand-Hands (ended x) d h = (none, refl)

host-IsServed : IsServed host texts
host-IsServed = record {
  start_handled = λ i d h. let (a, d', h') = handle_start texts i d h in hand-Hands a d' h';
  kill_handled = λ i d h. let (a, d', h') = handle_kill texts i d h in hand-Hands a d' h';
  pause_handled = λ i d h. let (a, d', h') = handle_pause texts i d h in hand-Hands a d' h';
  resume_handled = λ i d h. let (a, d', h') = handle_resume texts i d h in hand-Hands a d' h';
}

fresh_file : stored world (with_box fresh) [] id ≡ some fresh
unfolding stored text_eq get_state_path
fresh_file = rw (decode-encode fresh) refl

abbrev entry : ContainerEntry
entry = record { state = created; created_waiter = none; exit_waiter = [] }

abbrev daemon : Daemon
daemon = record { containers = (id, entry) ∷ []; notices = []; next_sender = 0 }

abbrev exe_dir : Reply IoError Text
exe_dir = success (codes "/usr/bin")

abbrev kill_end : Ending (Option Status) × Machine
kill_end = main host none exe_dir (typed kills id) (daemon, [])

main-Done_example :
    Done kills id
      (exit_code kill_end.0)
      (lookup id kill_end.1.0.containers)
      (stored world (with_box fresh) [] id, stored world (with_box fresh) kill_end.1.1 id)
      daemon
      kill_end.1
main-Done_example =
    main-Done host-IsServed none exe_dir (machine-IsFaithful fresh) kills id daemon [] (daemon, [])
      refl

abbrev start_end : Ending (Option Status) × Machine
start_end = main host none exe_dir (typed starts id) (daemon, [])

main_allowed_example :
    (exit_code start_end.0 ≡ pos 0)
    × (stored world (with_box fresh) start_end.1.1 id ≡ some (box running (some (pos 42))))
    × InStep (lookup id start_end.1.0.containers) (some (box running (some (pos 42))))
main_allowed_example =
    main_allowed host-IsServed none exe_dir (machine-IsFaithful fresh) (machine-IsCooperative fresh)
      starts id daemon [] (daemon, []) fresh (box running (some (pos 42))) refl fresh_file
      (unfold next in refl)

abbrev after_read : History
after_read = did_read (get_state_path id) (success (encode fresh)) ∷ []

read_fresh : read_state_file id [] ≡ (ok fresh, after_read)
unfolding read_state_file content text_eq get_state_path
read_fresh = rw (decode-encode fresh) refl

main_refused_example :
    main host none exe_dir (typed pauses id) (daemon, [])
    ≡ (failed (some (to_status texts (refusal pauses id created))), (daemon, after_read))
main_refused_example =
    main_refused host-IsServed none exe_dir pauses id daemon [] after_read (daemon, []) fresh refl
      read_fresh (unfold next in refl)
