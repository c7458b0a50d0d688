-- ===== src/Os/Disk.antt =====
-- What a history says of the files, for an environment in which reads see what was written. It is
-- documented behaviour of the file system, and is asked for state files only: a write that succeeds sets
-- the file's contents, and the removal of a directory takes what is below it. What a write or a removal
-- that fails leaves behind is open.
use clonebox.Prelude.{
  ℕ, suc, Text, codes, ◌≡◌, Bool, Option, none, some, [], ◌∷◌, ◌++◌, text_eq, starts_with,
  if◌then◌else◌,
}
use clonebox.Errors.{not_found}
use clonebox.State.{State, get_state_path}
use clonebox.Os.{Os, Reply, success, failure, did_write, did_remove_dir_all, History}

-- The files before the history, and what the calls that failed on a path left of it, the first call, the
-- second and so on: std truncates a file before it writes, so a write that fails leaves anything, and it
-- removes a directory entry by entry, so a removal that fails may have taken a file or not.
pub record Disk : Type 0 where
  pub files : Text → Option Text
  pub torn : ℕ → Text → Option Text
  pub lost : ℕ → Text → Bool

-- How many calls failed that may have changed a file.
unfoldable pub failures : History → Text → ℕ
failures [] p = 0
failures (did_write q t (failure e) ∷ h) p =
    if text_eq q p then suc (failures h p) else failures h p
failures (did_remove_dir_all q (failure e) ∷ h) p =
    if starts_with (q ++ codes "/") p then suc (failures h p) else failures h p
failures (_ ∷ h) p = failures h p

unfoldable pub content : Disk → History → Text → Option Text
unfolding failures
content d [] p = d.files p
content d (did_write q t (success _) ∷ h) p = if text_eq q p then some t else content d h p
content d (did_write q t (failure e) ∷ h) p =
    if text_eq q p then d.torn (failures h p) p else content d h p
content d (did_remove_dir_all q (success _) ∷ h) p =
    if starts_with (q ++ codes "/") p then none else content d h p
content d (did_remove_dir_all q (failure e) ∷ h) p =
    let rest = content d h p in
    if starts_with (q ++ codes "/") p then if d.lost (failures h p) p then none else rest else rest
content d (_ ∷ h) p = content d h p

-- Whether the last call was a write of the state file of a container, and failed.
abbrev pub Torn : Text → History → Type 0
Torn id (did_write q t (failure e) ∷ h) = q ≡ get_state_path id
Torn id _ = ⊥

module _ (os : Os) (d : Disk) where
  pub record IsFaithful : Type 0 where
    pub read_some :
        (h : History) (id t : Text)
        → os.reads h (get_state_path id) ≡ success t
        → content d h (get_state_path id) ≡ some t
    pub read_none :
        (h : History) (id : Text)
        → os.reads h (get_state_path id) ≡ failure not_found
        → content d h (get_state_path id) ≡ none
    pub from_json-to_json :
        (s : State) (t : Text) → os.state_to_json s ≡ success t → os.state_from_json t ≡ success s

abbrev parsed : {E : Type 0} → Reply E State → Option State
parsed (success s) = some s
parsed (failure e) = none

abbrev parse_content : Os → Option Text → Option State
parse_content os none = none
parse_content os (some t) = parsed (os.state_from_json t)

-- The state that state.json of a container holds, if there is one that can be read.
unfoldable pub stored : Os → Disk → History → Text → Option State
unfolding content
stored os d h container_id = parse_content os (content d h (get_state_path container_id))
