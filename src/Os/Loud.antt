-- ===== src/Os/Loud.antt =====
-- The calls that bear on the state files and on what the daemon is told. The others can be dropped from
-- a history.
use clonebox.Prelude.{
  Text, codes, ◌≡◌, refl, Bool, true, false, [], ◌∷◌, arith, if◌then◌else◌, text_eq_iff,
  starts_with,
}
use clonebox.State.{get_state_path, get_bundle_path}
use clonebox.Os.{
  Os, Call, did_write, did_remove_dir_all, did_kill, did, connect_stream, write_all, History, Sys,
}
use clonebox.Os.Disk.{Disk, failures, content, stored}

abbrev pub app_data : Text
app_data = codes "/run/clonebox/"

unfoldable pub is_loud : Call → Bool
unfolding starts_with
is_loud (did_write p t r) = starts_with app_data p
is_loud (did_remove_dir_all p r) = true
is_loud (did_kill pid sig r) = true
is_loud (did (connect_stream p) r) = true
is_loud (did (write_all fd t) r) = true
is_loud _ = false

unfoldable pub loud : History → History
unfolding is_loud
loud [] = []
loud (c ∷ h) = if is_loud c then c ∷ loud h else loud h

-- What leaves the loud calls as they are.
abbrev pub IsQuiet : {A : Type 0} → Sys A → Type 0
IsQuiet m = (h : History) → loud (m h).1 ≡ loud h

state_path_prefix : (id : Text) → starts_with app_data (get_state_path id) ≡ true
unfolding starts_with get_state_path get_bundle_path
state_path_prefix id = refl

abbrev written : Call → Text
written (did_write p t r) = p
written _ = []

failures-loud :
    (id : Text) (h : History)
    → failures (loud h) (get_state_path id) ≡ failures h (get_state_path id)
unfolding failures loud
failures-loud id [] = refl
failures-loud id (c ∷ h) =
    ground
      (arith, failures-loud id h, state_path_prefix id, text_eq_iff (written c) (get_state_path id))

content-loud :
    (d : Disk) (id : Text) (h : History)
    → content d (loud h) (get_state_path id) ≡ content d h (get_state_path id)
unfolding content loud
content-loud d id [] = refl
content-loud d id (c ∷ h) = ground (
  arith,
  content-loud d id h,
  failures-loud id h,
  state_path_prefix id,
  text_eq_iff (written c) (get_state_path id),
)

pub stored-loud :
    (os : Os) (d : Disk) (id : Text) (h : History) → stored os d (loud h) id ≡ stored os d h id
unfolding stored
stored-loud os d id h = rw (content-loud d id h)
