-- ===== src/Container/Races.antt =====
-- `start` in one process and the end of `create` in another write the same state file. The container
-- may exit between the connection that `start` makes and its last step, so the two last steps may come
-- in either order.
use clonebox.Prelude.{Text, ◌≡◌, ◌≢◌, refl, false, ◌⊎◌, inl, inr, Option, none, some, List, arith}
use clonebox.State.{State, running, paused}
use clonebox.Os.{Os, History, Outcome, ok, err, gone}
use clonebox.Os.Disk.{Disk, IsFaithful, stored, Torn}
use clonebox.Container.{delete}
use clonebox.Container.Refinement.{Follows, execute-Follows}
use clonebox.Container.Histories.{run_commands, run_commands_keep, TornIn}
use clonebox.Container.Deletion.{Deletes, delete-Deletes}
use clonebox.Lifecycle.{Command, starts, kills, pauses, resumes, next}

-- A state that says that the container lives, and has no process to signal.
pub record IsWedged (s : State) : Type 0 where
  pub no_pid : s.pid ≡ none
  pub lives : (s.status ≡ running) ⊎ (s.status ≡ paused)

next-IsWedged : (c : Command) (s t : State) → IsWedged s → next c s ≡ some t → IsWedged t
unfolding next
next-IsWedged starts s t w e = ground arith
next-IsWedged kills s t w e = ground arith
next-IsWedged pauses s t w e = ground arith
next-IsWedged resumes s t w e = ground arith

abbrev pub StoresWedged : Option State → Type 0
StoresWedged none = ⊥
StoresWedged (some s) = IsWedged s

Follows-StoresWedged :
    (c : Command) (id : Text) (r : Outcome (Unit {0})) (h : History) (before after : Option State)
    → Follows c id r h before after
    → StoresWedged before
    → StoresWedged after ⊎ Torn id h
Follows-StoresWedged c id (ok _) h (some s) (some t) (found, e) w = inl (next-IsWedged c s t w e)
Follows-StoresWedged c id (ok _) h (some s) none (found, e) w = absurd (found refl)
Follows-StoresWedged c id (ok _) h none after f w = absurd f
Follows-StoresWedged c id (err e) h before after (inl f) w = inl (rw f w)
Follows-StoresWedged c id (err e) h before after (inr torn) w = inr torn
Follows-StoresWedged c id (gone x) h before after (inl f) w = inl (rw f w)
Follows-StoresWedged c id (gone x) h before after (inr torn) w = inr torn

Deletes-wedged :
    (r : Outcome (Unit {0})) (before after : Option State)
    → Deletes r before after
    → StoresWedged before
    → r ≢ ok tt
Deletes-wedged (ok _) (some s) after (is_stopped, _) w = ground (arith, w.lives)
Deletes-wedged (ok _) none after d w = absurd d
Deletes-wedged (err e) before after d w = λ p. cc
Deletes-wedged (gone x) before after d w = λ p. cc

module _ ⦃os : Os⦄ {d : Disk} (faithful : IsFaithful os d) (id : Text) where
  -- Where reads see what was written, a stored state that says running or paused and has no pid stays
  -- one that does under any sequence of start, kill, pause and resume, and a plain `delete` after them
  -- does not return; unless one of the commands ends in a write of the state file that fails.
  pub wedged_forever :
      (commands : List (Command × Text)) (h : History)
      → StoresWedged (stored os d h id)
      → (StoresWedged (stored os d (run_commands commands h) id)
          × ((delete id false (run_commands commands h)).0 ≢ ok tt))
        ⊎ TornIn id commands h
  wedged_forever commands h w =
      elim (run_commands_keep id d StoresWedged
        (λ c h1 w1. Follows-StoresWedged c id _ _ _ _ (execute-Follows faithful c id h1) w1)
        commands h w) [
          | inl kept ↦ inl (
            kept,
            Deletes-wedged _ _ _ (delete-Deletes faithful id (run_commands commands h)) kept,
          )
          | inr torn ↦ inr torn
        ]
