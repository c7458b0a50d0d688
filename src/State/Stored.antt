-- ===== src/State/Stored.antt =====
-- What the operations of state.rs do to the stored state.
use clonebox.Prelude.{Text, ◌≡◌, ◌≢◌, ◌⊎◌, Option, none, some, arith, text_eq_refl, text_eq_iff}
use clonebox.State.{State, get_state_path}
use clonebox.State.File.{read_state_file, write_state_file, update_state}
use clonebox.State.Paths.{get_state_path-injective}
use clonebox.Os.{Os, History, Outcome, ok}
use clonebox.Os.Disk.{Disk, IsFaithful, stored, Torn}

-- What a read returns agrees with the stored state.
abbrev pub Agrees : Outcome State → Option State → Type 0
Agrees (ok s) o = o ≡ some s
Agrees _ o = Unit {0}

-- What is stored after a step that stores nothing: the same, unless its last call was a write of the
-- state file, and failed.
abbrev pub Spared : Text → History → Option State → Option State → Type 0
Spared id h before after = (after ≡ before) ⊎ Torn id h

-- A write that succeeds stores its state.
abbrev pub Wrote :
    {A : Type 0} → Text → State → Outcome A → History → Option State → Option State → Type 0
Wrote id s (ok _) h before after = after ≡ some s
Wrote id s _ h before after = Spared id h before after

-- An update that succeeds found a state and stores its image.
abbrev pub Updated :
    {A : Type 0}
    → Text
    → (State → State)
    → Outcome A
    → History
    → Option State
    → Option State
    → Type 0
Updated id f (ok _) h none after = ⊥
Updated id f (ok _) h (some s) after = after ≡ some (f s)
Updated id f _ h before after = Spared id h before after

module _ ⦃os : Os⦄ (d : Disk) where
  pub stored-read_state_file :
      (id j : Text) (h : History) → stored os d (read_state_file id h).1 j ≡ stored os d h j
  unfolding read_state_file stored
  stored-read_state_file id j h = ground arith

  pub stored-write_state_file_ne :
      (id j : Text) (s : State) (h : History)
      → id ≢ j
      → stored os d (write_state_file id s h).1 j ≡ stored os d h j
  unfolding write_state_file stored
  stored-write_state_file_ne id j s h ne =
      ground
        (arith, text_eq_iff (get_state_path id) (get_state_path j), get_state_path-injective id j)

module _ ⦃os : Os⦄ {d : Disk} (faithful : IsFaithful os d) where
  pub read_state_file-Agrees :
      (id : Text) (h : History) → Agrees (read_state_file id h).0 (stored os d h id)
  unfolding read_state_file stored
  read_state_file-Agrees id h = grind (arith, faithful.read_some, faithful.read_none)

  pub write_state_file-Wrote :
      (id : Text) (s : State) (h : History)
      → Wrote id s
          (write_state_file id s h).0
          (write_state_file id s h).1
          (stored os d h id)
          (stored os d (write_state_file id s h).1 id)
  unfolding write_state_file stored
  write_state_file-Wrote id s h = grind (arith, text_eq_refl, faithful.from_json-to_json)

  pub update_state-Updated :
      (id : Text) (f : State → State) (h : History)
      → Updated id f
          (update_state id f h).0
          (update_state id f h).1
          (stored os d h id)
          (stored os d (update_state id f h).1 id)
  unfolding update_state
  update_state-Updated id f h = grind (
    arith,
    read_state_file-Agrees id h,
    stored-read_state_file d id id h,
    λ (s : State). write_state_file-Wrote id (f s) (read_state_file id h).1,
  )
