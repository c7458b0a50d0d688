-- ===== src/State.antt =====
-- clonebox-core/src/state.rs: the record that state.json holds, its setters and its paths.
-- The file operations stand in State/File.antt, after the interface to the system.
pub mod File
pub mod Stored
pub mod Paths
pub mod Shown
use clonebox.Prelude.{Text, codes, Bool, true, false, Option, none, some, List, ◌++◌, ℤ}

pub data ContainerState : Type 0 where
  creating created running stopped paused : ContainerState

-- derive(PartialEq)
abbrev pub state_eq : ContainerState → ContainerState → Bool
state_eq creating creating = true
state_eq created created = true
state_eq running running = true
state_eq stopped stopped = true
state_eq paused paused = true
state_eq _ _ = false

-- Display
pub display_state : ContainerState → Text
display_state creating = codes "creating"
display_state created = codes "created"
display_state running = codes "running"
display_state stopped = codes "stopped"
display_state paused = codes "paused"

-- A `HashMap<String, String>` is the list of its entries.
pub record State : Type 0 where
  pub oci_version : Text
  pub id : Text
  pub status : ContainerState
  pub pid : Option ℤ
  pub bundle : Text
  pub annotations : Option (List (Text × Text))

unfoldable pub set_pid : ℤ → State → State
set_pid pid s = record s { pid = some pid }

unfoldable pub set_state : ContainerState → State → State
set_state status s = record s { status = status }

unfoldable pub set_running : State → State
set_running s = record s { status = running }

unfoldable pub set_created : ℤ → State → State
set_created pid s = record s { status = created; pid = some pid }

unfoldable pub set_stopped : State → State
set_stopped s = record s { status = stopped; pid = none }

unfoldable pub set_paused : State → State
set_paused s = record s { status = paused }

unfoldable pub get_bundle_path : Text → Text
get_bundle_path container_id = codes "/run/clonebox/" ++ container_id

unfoldable pub get_state_path : Text → Text
unfolding get_bundle_path
get_state_path container_id = get_bundle_path container_id ++ codes "/state.json"
