-- ===== src/Daemon/Events.antt =====
-- cloneboxd/src/event.rs: the socket on which the events arrive. A connection is read line by line; how
-- tokio finds the lines in the bytes is an argument.
use clonebox.Prelude.{Text, List, [], ◌∷◌}
use clonebox.Errors.{JsonError}
use clonebox.Event.{Event}
use clonebox.Os.{Os, Reply, success, failure, Sys, ◌>>◌, ask, ignore, remove_file}
use clonebox.Daemon.{Daemon, update_status}

module _ ⦃os : Os⦄ where
  -- A line that is no event goes to stderr, and changes nothing.
  abbrev receive : Reply JsonError Event → Daemon → Daemon
  receive (success e) d = update_status e d
  receive (failure x) d = d

  -- `while let Ok(Some(line))`: the lines up to the end of the connection or a failed read
  unfoldable pub read_lines : List Text → Daemon → Daemon
  read_lines [] d = d
  read_lines (line ∷ lines) d = read_lines lines (receive (os.event_from_json line) d)

  -- The connections in the order in which their lines come, if they come one after another. The map is
  -- behind one lock, so lines of several connections interleave as `Change` says.
  unfoldable pub event_loop : (Text → List Text) → List Text → Daemon → Daemon
  event_loop lines_of [] d = d
  event_loop lines_of (bytes ∷ connections) d =
      event_loop lines_of connections (read_lines (lines_of bytes) d)

  -- graceful_shutdown of daemon.rs
  unfoldable pub graceful_shutdown : Text → Text → Sys (Unit {0})
  unfolding ask
  graceful_shutdown client_sock event_sock = do
    ignore (ask (remove_file client_sock))
    ignore (ask (remove_file event_sock))
