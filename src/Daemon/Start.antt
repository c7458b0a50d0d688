-- ===== src/Daemon/Start.antt =====
-- cloneboxd/src/main.rs, and get_listen_sk of event.rs. The server of tonic, with the task of the event
-- loop beside it, is an argument: what it does on the system from the two sockets and the map until it
-- is shut down. The log is left out.
use clonebox.Prelude.{Text, codes}
use clonebox.Errors.{IoError, AnyError, any_io, any_context, CoreError, other}
use clonebox.Os.{
  Os, Reply, success, failure, Fd, create_dir_all, set_permissions, remove_file, bind_listener,
  panicked, Sys, pure, halt, ignore, attempt, ◌>>=◌, ◌>>◌, ask,
}
use clonebox.Daemon.{Daemon, init}
use clonebox.Daemon.Recovery.{recover}
use clonebox.Daemon.Handlers.{get_event_socket_path}
use clonebox.Daemon.Events.{graceful_shutdown}

abbrev pub app_data_path : Text
app_data_path = codes "/run/clonebox"

abbrev pub client_socket : Text
client_socket = codes "/run/clonebox/clonebox.sk"

-- `?` in a function that returns anyhow's Result.
abbrev pub io_error : IoError → CoreError
io_error e = other (any_io e)

abbrev pub chmod_error : IoError → CoreError
chmod_error e = other (any_context (codes "failed to chmod clonebox dir") (any_io e))

module _ ⦃os : Os⦄ where
  -- `.unwrap()`
  bound : Reply IoError Fd → Sys Fd
  bound (success fd) = pure fd
  bound (failure e) = halt panicked

  unfoldable pub get_listen_sk : Text → Sys Fd
  unfolding ask bound
  get_listen_sk path = do ignore (ask (remove_file path)); r ← ask (bind_listener path); bound r

  unfoldable pub daemon_main : (Fd → Fd → Daemon → Sys (Reply AnyError (Unit {0}))) → Sys (Unit {0})
  unfolding ask
  daemon_main serve = do
    attempt io_error (ask (create_dir_all app_data_path))
    attempt chmod_error (ask (set_permissions app_data_path 448))
    uds ← get_listen_sk client_socket
    cloneboxd ← attempt io_error (recover app_data_path init)
    listener ← get_listen_sk get_event_socket_path
    attempt other (serve uds listener cloneboxd)
    graceful_shutdown client_socket get_event_socket_path
