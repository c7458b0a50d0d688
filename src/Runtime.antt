-- ===== src/Runtime.antt =====
-- clonebox-core/src/runtime.rs: the pipe that holds the child of `create` back, and the unix socket of a
-- container, on which `start` meets `create`.
use clonebox.Prelude.{Text, codes, ◌++◌, Option, none, some, [], ◌∷◌}
use clonebox.Errors.{
  to_unix_addr_failure, from_runtime, RuntimeError, accept4_failure, backlog_failure,
  listen_failure, pipe2_failure,
}
use clonebox.State.{get_bundle_path}
use clonebox.Os.{
  Os, Sys, pure, ◌>>=◌, ◌>>◌, raise, attempt, socket, connect, Fd, ask, pipe2, read_byte, write_fd,
  bind_unix, set_permissions, listen, accept4,
}

pub record Runtime : Type 0 where
  pub child_end : Option Fd
  pub parent_end : Option Fd
  pub unix_sock : Option Fd

abbrev pub new : Option Fd → Option Fd → Option Fd → Runtime
new child_end parent_end unix_sock = record {
  child_end = child_end;
  parent_end = parent_end;
  unix_sock = unix_sock;
}

unfoldable pub get_socket_path : Text → Text
unfolding get_bundle_path
get_socket_path container_id = get_bundle_path container_id ++ codes "/start.sk"

module _ ⦃os : Os⦄ where
  unfoldable pub get_socket_fd : Sys Fd
  unfolding socket
  get_socket_fd = attempt (λ e. from_runtime (RuntimeError.create_socket_failure e)) socket

  unfoldable pub connect_create_process : Text → Sys (Unit {0})
  unfolding get_socket_fd connect
  connect_create_process container_id = do
    fd ← get_socket_fd
    addr ←
        raise (λ e. from_runtime (to_unix_addr_failure e))
          (os.unix_addr (get_socket_path container_id))
    attempt (λ e. from_runtime (RuntimeError.connect_failure e)) (connect fd addr)

  unfoldable pub parent_child_pipe : Runtime → Sys Runtime
  unfolding ask
  parent_child_pipe runtime = do
    (child_end, parent_end) ← attempt (λ e. from_runtime (pipe2_failure e)) (ask pipe2)
    pure (record runtime { parent_end = some parent_end; child_end = some child_end })

  abbrev read_end : Option Fd → Sys (Unit {0})
  read_end none = pure tt
  read_end (some child_end) = do
    _ ← attempt (λ e. from_runtime (RuntimeError.read e)) (ask (read_byte child_end))
    pure tt

  unfoldable pub freeze_child : Runtime → Sys (Unit {0})
  unfolding ask
  freeze_child runtime = read_end runtime.child_end

  abbrev write_end : Option Fd → Sys (Unit {0})
  write_end none = pure tt
  write_end (some parent_end) = do
    _ ← attempt (λ e. from_runtime (RuntimeError.write e)) (ask (write_fd parent_end (0 ∷ [])))
    pure tt

  unfoldable pub unfreeze_child : Runtime → Sys (Unit {0})
  unfolding ask
  unfreeze_child runtime = write_end runtime.parent_end

  -- The socket file is for its owner only: mode 0o600.
  unfoldable pub parent_proc_socket : Text → Runtime → Sys Runtime
  unfolding get_socket_fd ask
  parent_proc_socket container_id runtime = do
    unix_sock ← get_socket_fd
    addr ←
        raise (λ e. from_runtime (to_unix_addr_failure e))
          (os.unix_addr (get_socket_path container_id))
    attempt (λ e. from_runtime (RuntimeError.bind_failure e)) (ask (bind_unix unix_sock addr))
    attempt (λ e. from_runtime (RuntimeError.io e))
        (ask (set_permissions (get_socket_path container_id) 384))
    backlog ← raise (λ e. from_runtime (backlog_failure e)) (os.backlog 1)
    attempt (λ e. from_runtime (listen_failure e)) (ask (listen unix_sock backlog))
    _ ← attempt (λ e. from_runtime (accept4_failure e)) (ask (accept4 unix_sock))
    pure (record runtime { unix_sock = some unix_sock })
