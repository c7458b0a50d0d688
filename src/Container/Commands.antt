-- ===== src/Container/Commands.antt =====
-- The four commands on a container under one name, and what they leave alone on the disk.
use clonebox.Prelude.{Text, codes, ◌≡◌, arith, text_eq}
use clonebox.State.{State, get_state_path}
use clonebox.Os.{Os, History, Sys}
use clonebox.Os.Disk.{Disk, stored}
use clonebox.Runtime.{connect_create_process}
use clonebox.Cgroup.{set_cgroup, cgroup_file}
use clonebox.Container.{start, kill, pause, resume, kill_process, cgroup_path}
use clonebox.Lifecycle.{Command, starts, kills, pauses, resumes}

unfoldable pub execute : ⦃os : Os⦄ → Command → Text → Sys (Unit {0})
execute starts id = start id
execute kills id = kill id
execute pauses id = pause id
execute resumes id = resume id

abbrev pub freeze : ⦃os : Os⦄ → Text → Text → Sys (Unit {0})
freeze id value = set_cgroup (cgroup_path id) (codes "cgroup") (codes "freeze") value

module _ ⦃os : Os⦄ (d : Disk) where
  pub stored-connect :
      (id j : Text) (h : History) → stored os d (connect_create_process id h).1 j ≡ stored os d h j
  unfolding connect_create_process stored
  stored-connect id j h = ground arith

  pub stored-set_cgroup :
      (id key value suffix j : Text) (h : History)
      → stored os d (set_cgroup (cgroup_path id) key value suffix h).1 j ≡ stored os d h j
  unfolding set_cgroup stored cgroup_path cgroup_file get_state_path text_eq
  stored-set_cgroup id key value suffix j h = ground arith

  pub stored-kill_process :
      (id j : Text) (s : State) (h : History)
      → stored os d (kill_process id s.status s.pid h).1 j ≡ stored os d h j
  unfolding kill_process stored
  stored-kill_process id j s h = ground arith
