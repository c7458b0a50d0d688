-- ===== src/Daemon/Forgetting.antt =====
-- The handler of delete: the map of the daemon beside the state file.
use clonebox.Prelude.{Text, ◌≡◌, ◌⊎◌, refl, false, Option, none, some, ◌++◌, arith, text_eq_refl}
use clonebox.Errors.Display.{ErrorTexts}
use clonebox.State.{State, stopped}
use clonebox.Os.{Os, Outcome, ok, err, gone, History}
use clonebox.Os.Disk.{Disk, IsFaithful, stored}
use clonebox.Container.{delete}
use clonebox.Container.Deletion.{Deletes, delete-Deletes}
use clonebox.Table.{lookup, HasUniqueKeys, lookup-remove}
use clonebox.Daemon.{ContainerEntry, Daemon, forget_stopped, drop_entry}
use clonebox.Daemon.Handlers.{Answer, response, complete, handle_delete}
use clonebox.Daemon.Mirror.{InStep}

-- How a plain delete leaves the map and the stored state, by its answer.
abbrev pub Forgets :
    Text → Answer (Unit {0}) → Daemon → Daemon → Option State → Option State → Type 0
Forgets id (response _) before after none new = ⊥
Forgets id (response _) before after (some s) new =
    (s.status ≡ stopped)
    × (new ≡ none)
    × (lookup id after.containers ≡ none)
    × (after.notices ≡ drop_entry (lookup id before.containers) ++ before.notices)
Forgets id _ before after old new = (after ≡ before) × ((new ≡ old) ⊎ (new ≡ none))

-- An entry that is in step with a stopped container is removed, and its senders are dropped with it.
forget_stopped-InStep :
    (id : Text) (d : Daemon) (s : State) (entry : Option ContainerEntry)
    → HasUniqueKeys d.containers
    → lookup id d.containers ≡ entry
    → InStep entry (some s)
    → s.status ≡ stopped
    → (lookup id (forget_stopped id d).containers ≡ none)
      × ((forget_stopped id d).notices ≡ drop_entry (lookup id d.containers) ++ d.notices)
unfolding forget_stopped
forget_stopped-InStep id d s none unique found in_step is_stopped = ground (arith, found)
forget_stopped-InStep id d s (some e) unique found in_step is_stopped =
    ground
      (arith, found, in_step, is_stopped, text_eq_refl id, lookup-remove id id d.containers unique)

complete-Forgets :
    (os : Os) (disk : Disk) (texts : ErrorTexts) (id : Text) (d : Daemon) (r : Outcome (Unit {0}))
    (h : History) (old : Option State)
    → HasUniqueKeys d.containers
    → InStep (lookup id d.containers) old
    → Deletes r old (stored os disk h id)
    → let (a, d', h') = complete texts (r, h) (λ u. u) (forget_stopped id d) d in
      Forgets id a d d' old (stored os disk h' id)
complete-Forgets os disk texts id d (ok u) h none unique in_step deletes = deletes
complete-Forgets os disk texts id d (ok u) h (some s) unique in_step (is_stopped, removed) =
    let (entry, notices) =
      forget_stopped-InStep id d s (lookup id d.containers) unique refl in_step is_stopped in
    (is_stopped, removed, entry, notices)
complete-Forgets os disk texts id d (err e) h old unique in_step deletes = (refl, deletes)
complete-Forgets os disk texts id d (gone x) h old unique in_step deletes = (refl, deletes)

-- Where reads see what was written, and the entry of the daemon, if there is one, has the state that
-- the state file has: a plain delete that is answered with a response found the container stopped, and
-- has removed its state file and its entry, with every request that waited on the entry told that its
-- sender is gone; one that is not has left the map as it was, and the stored state as it was or none.
pub handle_delete-Forgets :
    ⦃os : Os⦄
    → {disk : Disk} (faithful : IsFaithful os disk) (texts : ErrorTexts) (id : Text) (d : Daemon)
      (h : History)
    → HasUniqueKeys d.containers
    → InStep (lookup id d.containers) (stored os disk h id)
    → let (a, d', h') = handle_delete texts id false d h in
      Forgets id a d d' (stored os disk h id) (stored os disk h' id)
unfolding handle_delete
handle_delete-Forgets ⦃os⦄ {disk} faithful texts id d h unique in_step =
    complete-Forgets os disk texts id d (delete id false h).0 (delete id false h).1
      (stored os disk h id) unique in_step (delete-Deletes faithful id h)
