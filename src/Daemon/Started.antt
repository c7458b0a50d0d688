-- ===== src/Daemon/Started.antt =====
-- What the server of the daemon starts from.
use clonebox.Prelude.{Text, ◌≡◌, refl, Option, none, some, List, [], ◌∷◌, arith}
use mathlib.Core.Path.{subst}
use clonebox.Errors.{IoError, AnyError, CoreError, other}
use clonebox.Os.{
  Os, Reply, success, Fd, create_dir_all, set_permissions, remove_file, bind_listener, DirEntry, ok,
  did, History, Sys, attempt, ◌>>◌, ask,
}
use clonebox.Os.Returns.{value_then}
use clonebox.Table.{lookup, lookup-or_insert}
use clonebox.Daemon.{ContainerEntry, Daemon, init, register_recovered}
use clonebox.Daemon.Recovery.{recover, recover_entries, recover_entry}
use clonebox.Daemon.Recovered.{Gives, Gives-proceed}
use clonebox.Daemon.Handlers.{get_event_socket_path}
use clonebox.Daemon.Events.{graceful_shutdown}
use clonebox.Daemon.Start.{
  app_data_path, client_socket, chmod_error, io_error, get_listen_sk, daemon_main,
}

-- No request waits on the entry.
abbrev Idle : Option ContainerEntry → Type 0
Idle none = Unit {0}
Idle (some e) = (e.created_waiter ≡ none) × (e.exit_waiter ≡ [])

abbrev pub IsIdle : Daemon → Type 0
IsIdle d = (id : Text) → Idle (lookup id d.containers)

module _ ⦃os : Os⦄ where
  recover_entry-IsIdle :
      (app_data : Text) (entry : Reply IoError DirEntry) (d : Daemon) (h : History) (id : Text)
      → Idle (lookup id d.containers)
      → Gives (λ d'. Idle (lookup id d'.containers)) (recover_entry app_data entry d h).0
  unfolding recover_entry register_recovered
  recover_entry-IsIdle app_data entry d h id idle = grind (arith, lookup-or_insert)

  recover_entries-IsIdle :
      (app_data : Text) (entries : List (Reply IoError DirEntry)) (d : Daemon) (h : History)
      (id : Text)
      → Idle (lookup id d.containers)
      → Gives (λ d'. Idle (lookup id d'.containers)) (recover_entries app_data entries d h).0
  unfolding recover_entries
  recover_entries-IsIdle app_data [] d h id idle = idle
  recover_entries-IsIdle app_data (entry ∷ rest) d h id idle =
      Gives-proceed (λ d'. Idle (lookup id d'.containers)) _ _ (recover_entries app_data rest)
        (recover_entry-IsIdle app_data entry d h id idle)
        (λ d' h' k. recover_entries-IsIdle app_data rest d' h' id k)

  recover-IsIdle :
      (app_data : Text) (h : History) (d : Daemon)
      → (recover app_data init h).0 ≡ ok (success d)
      → IsIdle d
  unfolding recover lookup
  recover-IsIdle app_data h d done id = grind (
    arith,
    λ (entries : List (Reply IoError DirEntry)) (h1 : History).
        recover_entries-IsIdle app_data entries init h1 id tt,
  )

  attempt_ok :
      {E A : Type 0} (f : E → CoreError) (m : Sys (Reply E A)) (h : History) (a : A)
      → (attempt f m h).0 ≡ ok a
      → ((m h).0 ≡ ok (success a)) × ((attempt f m h).1 ≡ (m h).1)
  attempt_ok f m h a done = ground (arith, done)

  -- `h1` is `h` after a socket was bound to `p`, from which a file left there was removed.
  abbrev Bound : Text → Fd → History → History → Type 0
  Bound p fd h h1 =
      (r : Reply IoError (Unit {0})) × (h1
        ≡ did (bind_listener p) (success fd) ∷ (did (remove_file p) r ∷ h))

  get_listen_sk-Bound :
      (p : Text) (h h0 : History) (fd : Fd)
      → h ≡ h0
      → (get_listen_sk p h).0 ≡ ok fd
      → Bound p fd h0 (get_listen_sk p h).1
  unfolding get_listen_sk
  get_listen_sk-Bound p h h0 fd same done =
      subst (λ x. Bound p fd x (get_listen_sk p h).1) same
        (os.answers h (remove_file p), ground (arith, done))

  -- The end of a daemon that was served: the map is what recovery made, with the client socket bound
  -- before and the event socket after, and both are removed after the server.
  abbrev pub Serves : (Fd → Fd → Daemon → Sys (Reply AnyError (Unit {0}))) → History → Type 0
  Serves serve after =
      (d : Daemon) × (uds listener : Fd) × (h h1 h2 : History) × (r r' : Reply IoError (Unit {0}))
      × Bound client_socket uds h h1
      × ((recover app_data_path init h1).0 ≡ ok (success d))
      × IsIdle d
      × Bound get_event_socket_path listener (recover app_data_path init h1).1 h2
      × ((serve uds listener d h2).0 ≡ ok (success tt))
      × (after
          ≡ did (remove_file get_event_socket_path) r'
            ∷ (did (remove_file client_socket) r ∷ (serve uds listener d h2).1))

  served_then :
      (serve : Fd → Fd → Daemon → Sys (Reply AnyError (Unit {0}))) (d : Daemon) (uds listener : Fd)
      (h h1 h2 : History)
      → Bound client_socket uds h h1
      → (recover app_data_path init h1).0 ≡ ok (success d)
      → Bound get_event_socket_path listener (recover app_data_path init h1).1 h2
      → ((attempt other (serve uds listener d)
            >> graceful_shutdown client_socket get_event_socket_path)
          h2).0
        ≡ ok tt
      → Serves serve
          ((attempt other (serve uds listener d)
              >> graceful_shutdown client_socket get_event_socket_path)
            h2).1
  unfolding graceful_shutdown
  served_then serve d uds listener h h1 h2 first made second =
      value_then (Serves serve) tt (attempt other (serve uds listener d))
        (λ _. graceful_shutdown client_socket get_event_socket_path) h2
        (λ u answered done.
          let (result, same) = attempt_ok other (serve uds listener d) h2 u answered in
          (
            d,
            uds,
            listener,
            h,
            h1,
            h2,
            r,
            os.answers (did (remove_file client_socket) r ∷ h3) (remove_file get_event_socket_path),
            first,
            made,
            recover-IsIdle app_data_path h1 d made,
            second,
            result,
            ground (arith, same),
          ))
    where
      h3 : History
      h3 = (serve uds listener d h2).1

      r : Reply IoError (Unit {0})
      r = os.answers h3 (remove_file client_socket)

  -- A daemon whose main returns without an error has served once, whatever its server does, from a map
  -- that recovery made of the state files, on which no request waits; it had bound the socket of its
  -- clients before recovery and that of the events after it, each in place of a file left there, and its
  -- last two calls were to remove both sockets, after the server had returned.
  pub daemon_main-Serves :
      (serve : Fd → Fd → Daemon → Sys (Reply AnyError (Unit {0}))) (h : History)
      → (daemon_main serve h).0 ≡ ok tt
      → Serves serve (daemon_main serve h).1
  unfolding daemon_main
  daemon_main-Serves serve h =
      value_then G tt (attempt io_error (ask (create_dir_all app_data_path))) _ h (λ u e.
        value_then G tt (attempt chmod_error (ask (set_permissions app_data_path 448))) _ _ (λ u e.
          value_then G tt (get_listen_sk client_socket) _ _ (λ uds bound_first.
            value_then G tt (attempt io_error (recover app_data_path init)) _ _ (λ d made.
              value_then G tt (get_listen_sk get_event_socket_path) _ _ (λ listener bound_second.
                let (recovered, same) = attempt_ok io_error (recover app_data_path init) _ d made in
                served_then serve d uds listener _ _ _
                  (get_listen_sk-Bound client_socket _ _ uds refl bound_first) recovered
                  (get_listen_sk-Bound get_event_socket_path _ _ listener same bound_second))))))
    where
      G : History → Type 0
      G = Serves serve
