-- ===== src/State/Paths.antt =====
-- The paths of different containers.
use mathlib.Core.List.{append_cancel_right}
use clonebox.Prelude.{Text, codes, ◌≡◌}
use clonebox.State.{get_bundle_path, get_state_path}

pub get_bundle_path-injective : (i j : Text) → get_bundle_path i ≡ get_bundle_path j → i ≡ j
unfolding get_bundle_path
get_bundle_path-injective i j e = cc

pub get_state_path-injective : (i j : Text) → get_state_path i ≡ get_state_path j → i ≡ j
unfolding get_state_path
get_state_path-injective i j e = append_cancel_right i j (codes "/state.json") (cc)
