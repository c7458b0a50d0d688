-- ===== src/Daemon/Handlers.antt =====
-- cloneboxd/src/daemon.rs: the handlers of the gRPC service. One that awaits a channel is split there:
-- the part before it, and the answer by what came over the channel.
use clonebox.Prelude.{Text, codes, Bool, Option, none, some, List, [], ◌∷◌, ◌++◌, ℤ}
use clonebox.Errors.{IoError}
use clonebox.Errors.Display.{ErrorTexts}
use clonebox.State.{State, running, stopped, paused}
use clonebox.Os.{Os, Reply, success, failure, End, Outcome, ok, err, gone, History, spawn}
use clonebox.Container.{start, state, kill, delete, pause, resume}
use clonebox.Table.{keys}
use clonebox.Daemon.{
  Sender, Daemon, register_create, set_entry_state, forget_stopped, register_wait,
}
use clonebox.Daemon.Waking.{Wakeup, value, code}
use clonebox.Daemon.Convert.{Status, internal, unimplemented, to_status, ProtoState, to_proto}

pub data Answer (A : Type 0) : Type 0 where
  response : A → Answer A
  refused : Status → Answer A
  ended : End → Answer A

-- What a handler has reached before its `await`.
pub data Pending (A : Type 0) : Type 0 where
  answered : Answer A → Pending A
  awaits : Sender → Pending A

abbrev pub Handler : Type 0 → Type 0
Handler A = Daemon → History → A × Daemon × History

-- `.map_err(to_status)?`, and then the critical section.
abbrev pub complete :
    {A B : Type 0}
    → ErrorTexts
    → Outcome A × History
    → (A → B)
    → Daemon
    → Daemon
    → Answer B × Daemon × History
complete texts (ok a, h) f after before = (response (f a), after, h)
complete texts (err e, h) f after before = (refused (to_status texts e), before, h)
complete texts (gone x, h) f after before = (ended x, before, h)

-- get_event_socket_path of event.rs
unfoldable pub get_event_socket_path : Text
get_event_socket_path = codes "/run/clonebox/event.sk"

-- Cloneboxd::shim_path of entry.rs: the environment variable, or a path beside the running program.
unfoldable pub shim_path : Option Text → Reply IoError Text → Reply IoError Text
shim_path (some p) exe_dir = success p
shim_path none (success dir) = success (dir ++ codes "/clonebox-shim")
shim_path none (failure e) = failure e

abbrev pub creation_failed : Text
creation_failed = codes "container creation failed"

module _ ⦃os : Os⦄ (texts : ErrorTexts) where
  internal_io : IoError → Answer (Unit {0})
  internal_io e = refused (record { code = internal; message = texts.io_text e })

  -- After the map was changed: the shim is started, and the handler waits for its event.
  create_spawn :
      Sender
      → Daemon
      → Outcome (Reply IoError (Unit {0})) × History
      → Pending (Unit {0}) × Daemon × History
  create_spawn tx d (ok (success _), h) = (awaits tx, d, h)
  create_spawn tx d (ok (failure e), h) = (answered (internal_io e), d, h)
  create_spawn tx d (err e, h) = (answered (refused (to_status texts e)), d, h)
  create_spawn tx d (gone x, h) = (answered (ended x), d, h)

  create_at : Reply IoError Text → Text → Text → Handler (Pending (Unit {0}))
  create_at (failure e) container_id config_path d h = (answered (internal_io e), d, h)
  create_at (success path) container_id config_path d h =
      let (tx, d1) = register_create container_id d in
      create_spawn tx d1 (spawn path (container_id ∷ config_path ∷ get_event_socket_path ∷ []) h)

  unfoldable pub handle_create :
      Option Text → Reply IoError Text → Text → Text → Handler (Pending (Unit {0}))
  unfolding internal_io create_spawn create_at
  handle_create variable exe_dir = create_at (shim_path variable exe_dir)

  unfoldable pub answer_create : Wakeup → Answer (Unit {0})
  answer_create value = response tt
  answer_create _ = refused (record { code = internal; message = creation_failed })

  unfoldable pub handle_start : Text → Handler (Answer (Unit {0}))
  handle_start container_id d h =
      complete texts (start container_id h) (λ u. u) (set_entry_state container_id running d) d

  unfoldable pub handle_state : Text → Handler (Answer ProtoState)
  handle_state container_id d h = complete texts (state container_id h) to_proto d d

  unfoldable pub handle_kill : Text → Handler (Answer (Unit {0}))
  handle_kill container_id d h =
      complete texts (kill container_id h) (λ u. u) (set_entry_state container_id stopped d) d

  unfoldable pub handle_delete : Text → Bool → Handler (Answer (Unit {0}))
  handle_delete container_id force d h =
      complete texts (delete container_id force h) (λ u. u) (forget_stopped container_id d) d

  unfoldable pub handle_pause : Text → Handler (Answer (Unit {0}))
  handle_pause container_id d h =
      complete texts (pause container_id h) (λ u. u) (set_entry_state container_id paused d) d

  unfoldable pub handle_resume : Text → Handler (Answer (Unit {0}))
  handle_resume container_id d h =
      complete texts (resume container_id h) (λ u. u) (set_entry_state container_id running d) d

  unfoldable pub handle_exec : Handler (Answer (Unit {0}))
  handle_exec d h = (
    refused (record {
      code = unimplemented;
      message = codes "exec over gRPC is not implemented in v1; use the clonebox CLI directly";
    }),
    d,
    h,
  )

  wait_on : Option Sender × Daemon → History → Pending ℤ × Daemon × History
  wait_on (some tx, d) h = (awaits tx, d, h)
  wait_on (none, d) h =
      (answered (refused (record { code = internal; message = codes "not found" })), d, h)

  unfoldable pub handle_wait : Text → Handler (Pending ℤ)
  unfolding wait_on
  handle_wait container_id d h = wait_on (register_wait container_id d) h

  unfoldable pub answer_wait : Wakeup → Answer ℤ
  answer_wait (code exit) = response exit
  answer_wait _ = refused (record { code = internal; message = texts.recv_error_text })

  -- `if let Ok(s) = state(&i) { push }`
  abbrev listed : Outcome State × History → List ProtoState × History → List ProtoState × History
  listed (ok s, _) (rest, h) = (to_proto s ∷ rest, h)
  listed (_, _) (rest, h) = (rest, h)

  unfoldable pub list_states : List Text → History → List ProtoState × History
  list_states [] h = ([], h)
  list_states (i ∷ ids) h = listed (state i h) (list_states ids (state i h).1)

  unfoldable pub handle_list : Handler (Answer (List ProtoState))
  handle_list d h = let (states, h') = list_states (keys d.containers) h in (response states, d, h')
