-- ===== src/Container/Deletion.antt =====
-- `delete` and `cleanup`: what goes, what stays, and when.
use clonebox.Prelude.{
  ℕ, Text, codes, ◌≡◌, ◌≢◌, ◌⊎◌, refl, Bool, true, false, Option, none, some, [], ◌∷◌, ◌++◌, arith,
  All, starts_with,
}
use clonebox.State.{State, stopped, get_bundle_path, get_state_path}
use clonebox.State.File.{read_state_file}
use clonebox.State.Stored.{read_state_file-Agrees, stored-read_state_file}
use clonebox.Os.{Os, History, Outcome, ok}
use clonebox.Os.Disk.{Disk, IsFaithful, stored}
use clonebox.Container.{cleanup, delete}
use clonebox.Container.Signals.{signals}

-- An id that names one directory: it has no slash.
abbrev pub IsName : Text → Type 0
IsName = All (λ (c : ℕ). c ≢ b'/')

-- What lies below the directory of a container.
below_self : (p : Text) → starts_with (p ++ codes "/") (p ++ codes "/state.json") ≡ true
unfolding starts_with
below_self [] = refl
below_self (x ∷ p) = ground (arith, below_self p)

below_other :
    (i j : Text)
    → IsName i
    → IsName j
    → starts_with (i ++ codes "/") (j ++ codes "/state.json") ≡ true
    → i ≡ j
unfolding starts_with
below_other [] [] a b e = refl
below_other [] (y ∷ j) a b e = ground arith
below_other (x ∷ i) [] a b e = ground arith
below_other (x ∷ i) (y ∷ j) a b e = ground (arith, below_other i j a.1 b.1)

-- A plain `delete` that returns found a stopped container and leaves no state file; one that fails
-- has left the stored state alone, or none.
abbrev pub Deletes : Outcome (Unit {0}) → Option State → Option State → Type 0
Deletes (ok _) none after = ⊥
Deletes (ok _) (some s) after = (s.status ≡ stopped) × (after ≡ none)
Deletes _ before after = (after ≡ before) ⊎ (after ≡ none)

module _ ⦃os : Os⦄ (d : Disk) where
  -- A `cleanup` without force returns only once the state file is gone.
  abbrev Cleaned : Outcome (Unit {0}) → Option State → Option State → Type 0
  Cleaned (ok _) before after = after ≡ none
  Cleaned _ before after = (after ≡ before) ⊎ (after ≡ none)

  cleanup-Cleaned :
      (id : Text) (h : History)
      → Cleaned (cleanup id false h).0 (stored os d h id) (stored os d (cleanup id false h).1 id)
  unfolding cleanup stored get_state_path
  cleanup-Cleaned id h = ground (arith, below_self (get_bundle_path id))

  stored-cleanup_ne :
      (id j : Text) (force : Bool) (h : History)
      → IsName id
      → IsName j
      → id ≢ j
      → stored os d (cleanup id force h).1 j ≡ stored os d h j
  unfolding cleanup stored get_state_path get_bundle_path starts_with
  stored-cleanup_ne id j true h a b ne = ground (arith, below_other id j a b)
  stored-cleanup_ne id j false h a b ne = ground (arith, below_other id j a b)

  -- `delete` on one container, forced or not, leaves the stored state of any other as it was, where
  -- neither id has a slash.
  stored-delete_ne :
      (id j : Text) (force : Bool) (h : History)
      → IsName id
      → IsName j
      → id ≢ j
      → stored os d (delete id force h).1 j ≡ stored os d h j
  unfolding delete
  stored-delete_ne id j true h a b ne = ground (arith, stored-cleanup_ne id j true h a b ne)
  stored-delete_ne id j false h a b ne = ground (
    arith,
    stored-read_state_file d id j h,
    stored-cleanup_ne id j false (read_state_file id h).1 a b ne,
  )

-- A forced `delete` returns whatever the system replies and whatever state the container is in,
-- and sends no signal.
delete_forced :
    ⦃os : Os⦄
    → (id : Text) (h : History)
    → ((delete id true h).0 ≡ ok tt) × (signals (delete id true h).1 ≡ signals h)
unfolding delete cleanup signals
delete_forced id h = (refl, refl)

module _ ⦃os : Os⦄ {d : Disk} (faithful : IsFaithful os d) where
  -- Where reads see what was written, a plain `delete` that returns found a stopped container and leaves
  -- no state file, and one that does not return has left the stored state as it was, or no state file.
  pub delete-Deletes :
      (id : Text) (h : History)
      → Deletes (delete id false h).0 (stored os d h id) (stored os d (delete id false h).1 id)
  unfolding delete
  delete-Deletes id h = grind (
    arith,
    read_state_file-Agrees faithful id h,
    stored-read_state_file d id id h,
    cleanup-Cleaned d id (read_state_file id h).1,
  )
