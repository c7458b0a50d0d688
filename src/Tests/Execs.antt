-- ===== src/Tests/Execs.antt =====
-- An `exec` in a container that runs, on a machine where every call works.
use clonebox.Prelude.{Text, codes, ◌≡◌, refl, some, [], ◌∷◌, pos, text_eq}
use clonebox.State.{running, get_state_path, get_bundle_path}
use clonebox.State.File.{read_state_file}
use clonebox.Logger.{open_log_file}
use clonebox.Container.Exec.{exec, enter_namespace, container_exec}
use clonebox.Container.Exec.Visits.{Visits, exec-Visits}
use clonebox.Os.{Os, success, ok}
use clonebox.Os.Disk.{content}
use clonebox.Tests.World.{box, machine}

-- The state file always reads the same.
instance abbrev world : Os
world = record (machine (box running (some (pos 42)))) {
  state_from_json = λ t. success (box running (some (pos 42)));
}

abbrev id : Text
id = codes "box"

returned : (exec id (codes "/bin/ls" ∷ []) []).0 ≡ ok tt
unfolding exec read_state_file open_log_file enter_namespace container_exec content get_state_path
    get_bundle_path text_eq
returned = refl

exec-Visits_example : Visits id [] (exec id (codes "/bin/ls" ∷ []) []).1
exec-Visits_example = exec-Visits id (codes "/bin/ls" ∷ []) [] returned
