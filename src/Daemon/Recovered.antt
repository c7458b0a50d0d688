-- ===== src/Daemon/Recovered.antt =====
-- What recovery puts into the map.
use clonebox.Prelude.{
  codes, ◌++◌, Text, ◌≡◌, Bool, true, Option, none, some, List, [], ◌∷◌, arith, ℤ, text_eq,
  if◌then◌else◌,
}
use clonebox.Errors.{IoError, JsonError}
use clonebox.State.{State, ContainerState, creating, created, running, paused, stopped, set_state}
use clonebox.Os.{
  Os, Reply, success, failure, DirEntry, Outcome, ok, err, gone, History, Sys, proceed, did_read,
  did_check_exists,
}
use clonebox.Table.{lookup, or_value, lookup-or_insert}
use clonebox.Daemon.{ContainerEntry, Daemon, register_recovered}
use clonebox.Daemon.Recovery.{recover_entry, recover_entries}

-- A step of recovery returns, and returns a map with a property.
abbrev pub Gives : (Daemon → Type 0) → Outcome Daemon → Type 0
Gives P (ok d) = P d
Gives P _ = ⊥

abbrev Keeps : Text → ContainerEntry → Outcome Daemon → Type 0
Keeps id e = Gives (λ d. lookup id d.containers ≡ some e)

pub Gives-proceed :
    (P : Daemon → Type 0) (r : Outcome Daemon) (h : History) (f : Daemon → Sys Daemon)
    → Gives P r
    → ((d : Daemon) (h : History) → P d → Gives P (f d h).0)
    → Gives P (proceed r f h).0
Gives-proceed P (ok d) h f k rest = rest d h k
Gives-proceed P (err x) h f k rest = k
Gives-proceed P (gone x) h f k rest = k

-- The name of a directory, where the entry is one and its name is UTF-8.
abbrev name_if_dir : Reply IoError Bool → Option Text → Option Text
name_if_dir (success true) name = name
name_if_dir _ name = none

abbrev dir_name : Reply IoError DirEntry → Option Text
dir_name (success entry) = name_if_dir entry.is_dir entry.file_name
dir_name (failure e) = none

-- What is recorded of a container without a process.
abbrev without_process : ContainerState → ContainerState
without_process creating = creating
without_process created = created
without_process running = stopped
without_process paused = paused
without_process stopped = stopped

-- The map has a container under `name` now, with the state if it did not have one before, and is as it
-- was at every other name.
abbrev Added : Text → Text → ContainerState → Daemon → Daemon → Type 0
Added id name state d d' = lookup id d'.containers ≡ (
    if text_eq name id
    then or_value (lookup id d.containers)
        (record { state = state; created_waiter = none; exit_waiter = [] })
    else lookup id d.containers)

register_recovered-Added :
    (id name : Text) (state : ContainerState) (d : Daemon)
    → Added id name state d (register_recovered name state d)
unfolding register_recovered
register_recovered-Added id name state d = lookup-or_insert name id _ d.containers

module _ ⦃os : Os⦄ where
  recover_entry-Keeps :
      (app_data : Text) (entry : Reply IoError DirEntry) (d : Daemon) (h : History) (id : Text)
      (e : ContainerEntry)
      → lookup id d.containers ≡ some e
      → Keeps id e (recover_entry app_data entry d h).0
  unfolding recover_entry register_recovered
  recover_entry-Keeps app_data entry d h id e known = grind (arith, lookup-or_insert)

  -- Recovery always returns a map, and never changes an entry that the map had, whatever the directory
  -- and the files hold.
  recover_entries-Keeps :
      (app_data : Text) (entries : List (Reply IoError DirEntry)) (d : Daemon) (h : History)
      (id : Text) (e : ContainerEntry)
      → lookup id d.containers ≡ some e
      → Keeps id e (recover_entries app_data entries d h).0
  unfolding recover_entries
  recover_entries-Keeps app_data [] d h id e known = known
  recover_entries-Keeps app_data (entry ∷ rest) d h id e known =
      Gives-proceed (λ d'. lookup id d'.containers ≡ some e) _ _ (recover_entries app_data rest)
        (recover_entry-Keeps app_data entry d h id e known)
        (λ d' h' k. recover_entries-Keeps app_data rest d' h' id e k)

  -- By the recorded pid: the state is the recorded one if /proc/<pid> exists now.
  abbrev Judged : Text → Text → State → Option ℤ → Daemon → History → Daemon → History → Type 0
  Judged id name s none d h d' after = (after ≡ h) × Added id name (without_process s.status) d d'
  Judged id name s (some pid) d h d' after =
      let path = codes "/proc/" ++ os.decimal pid in
      (after ≡ did_check_exists path (os.exists h path) ∷ h)
      × Added id name (if os.exists h path then s.status else stopped) d d'

  abbrev Parsed : Text → Text → Reply JsonError State → Daemon → History → Daemon → History → Type 0
  Parsed id name (success s) d h d' after = Judged id name s s.pid d h d' after
  Parsed id name (failure x) d h d' after = (after ≡ h) × (d' ≡ d)

  abbrev Read : Text → Text → Reply IoError Text → Daemon → History → Daemon → History → Type 0
  Read id name (success t) d h d' after = Parsed id name (os.state_from_json t) d h d' after
  Read id name (failure x) d h d' after = (after ≡ h) × (d' ≡ d)

  -- What becomes of an entry of the directory, by its name and by the state file that is read.
  abbrev Named : Text → Text → Option Text → Daemon → History → Daemon → History → Type 0
  Named id app_data none d h d' after = (after ≡ h) × (d' ≡ d)
  Named id app_data (some name) d h d' after =
      let path = app_data ++ (codes "/" ++ (name ++ codes "/state.json")) in
      let reply = os.reads h path in Read id name reply d (did_read path reply ∷ h) d' after

  abbrev pub Recovered :
      Text → Text → Reply IoError DirEntry → Daemon → History → Outcome Daemon → History → Type 0
  Recovered id app_data entry d h (ok d') after = Named id app_data (dir_name entry) d h d' after
  Recovered id app_data entry d h _ after = ⊥

  -- The recovery of an entry of the directory always returns a map. An entry that is a directory whose
  -- state.json is read and parsed adds a container under its name, if the map has none: as recorded if
  -- a pid is recorded and /proc/<pid>, of that very pid, is found just then, as stopped if it is not
  -- found, and if no pid is recorded as stopped in place of running and as recorded otherwise; without
  -- any request that waits on it. The map is as it was at every other name, and after any other entry;
  -- and nothing is done but that read and that look.
  pub recover_entry-Recovered :
      (app_data : Text) (entry : Reply IoError DirEntry) (d : Daemon) (h : History) (id : Text)
      → Recovered id app_data entry d h
          (recover_entry app_data entry d h).0
          (recover_entry app_data entry d h).1
  unfolding recover_entry set_state
  recover_entry-Recovered app_data entry d h id = grind (arith, register_recovered-Added)
