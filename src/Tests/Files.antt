-- ===== src/Tests/Files.antt =====
-- Cgroup.antt and Config.antt on a machine where every file holds the same text.
use clonebox.Prelude.{Text, codes, ◌≡◌, refl, none, some, List, [], ◌∷◌, All, contains}
use clonebox.Errors.{JsonError}
use clonebox.State.{created}
use clonebox.Os.{Os, Reply, success, did_read, ok, History}
use clonebox.Cgroup.{init_resources, enable_controller}
use clonebox.Cgroup.Controllers.{Shown, init_resources_ok}
use clonebox.Config.{Config, load}
use clonebox.Config.Loading.{Loads, load-Loads}
use clonebox.Tests.World.{box, machine}

instance abbrev world : Os
world = record (machine (box created none)) { reads = λ h path. success (codes "cpuset memory") }

abbrev root_cgroup : Text
root_cgroup = codes "/sys/fs/cgroup"

abbrev resources : List Text
resources = codes "memory" ∷ codes "cpu" ∷ []

abbrev enabled : History
enabled = (init_resources root_cgroup resources []).1

-- The controller cpu is taken to be there, and to be on, for the name of cpuset.
resources_found : (init_resources root_cgroup resources []).0 ≡ ok tt
unfolding init_resources enable_controller contains
resources_found = refl

init_resources_ok_example : All (λ resource. Shown root_cgroup resource enabled) resources
init_resources_ok_example = init_resources_ok root_cgroup resources [] resources_found

abbrev no_process : Config
no_process = record {
  oci_version = codes "1.0.1";
  process = none;
  root = some (record { path = codes "/rootfs"; readonly = none });
  mounts = none;
  hostname = none;
}

abbrev from_json : Text → Reply JsonError Config
from_json t = success no_process

load-Loads_example :
    Loads from_json (success (codes "cpuset memory")) (load from_json (codes "/bundle") []).0
    × ((load from_json (codes "/bundle") []).1
        ≡ did_read (codes "/bundle/config.json") (success (codes "cpuset memory")) ∷ [])
load-Loads_example = load-Loads from_json (codes "/bundle") []
