-- ===== src/Event/Sending.antt =====
-- clonebox-core/src/event.rs: an event as one line on the socket of the daemon.
use clonebox.Prelude.{Text, ◌++◌, [], ◌∷◌}
use clonebox.Errors.{EventError, from_event}
use clonebox.Event.{Event}
use clonebox.Os.{Os, Sys, ◌>>=◌, raise, attempt, Fd, ask, connect_stream, write_all}

module _ ⦃os : Os⦄ where
  unfoldable pub get_stream_sk : Text → Sys Fd
  unfolding ask
  get_stream_sk path =
      attempt (λ e. from_event (EventError.connect_failure e path)) (ask (connect_stream path))

  unfoldable pub send_event : Text → Event → Sys (Unit {0})
  unfolding get_stream_sk ask
  send_event path event = do
    sk ← get_stream_sk path
    json ← raise (λ e. from_event (EventError.json e)) (os.event_to_json event)
    attempt (λ e. from_event (EventError.write_failure e))
        (ask (write_all sk (json ++ (b'\n' ∷ []))))
