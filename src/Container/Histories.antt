-- ===== src/Container/Histories.antt =====
-- Sequences of commands, on any containers and with any replies.
use clonebox.Prelude.{
  Text, ◌≡◌, refl, sym, ◌∙◌, ◌⊎◌, inl, inr, true, false, Option, none, some, List, [], ◌∷◌,
  Bool-cases, text_eq, text_eq_iff,
}
use mathlib.Core.Path.{subst}
use clonebox.State.{State}
use clonebox.Os.{Os, History, Outcome, ok, err, gone}
use clonebox.Os.Disk.{Disk, IsFaithful, stored, Torn}
use clonebox.Container.Commands.{execute}
use clonebox.Container.Refinement.{Follows, execute-Follows}
use clonebox.Container.Isolation.{stored-execute_ne}
use clonebox.Lifecycle.{
  Command, next, next-Arrow, next-PidFits, next_keeps, Route, here, along, PidFits,
}

-- A command that fails ends only itself.
unfoldable pub run_commands : ⦃os : Os⦄ → List (Command × Text) → History → History
run_commands [] h = h
run_commands ((c, id) ∷ rest) h = run_commands rest (execute c id h).1

-- How the state of a container may differ from an earlier one.
pub record Evolves (s t : State) : Type 0 where
  pub route : Route s.status t.status
  pub pid_fits : PidFits t.status t.pid
  pub same_id : t.id ≡ s.id
  pub same_bundle : t.bundle ≡ s.bundle
  pub same_version : t.oci_version ≡ s.oci_version
  pub same_annotations : t.annotations ≡ s.annotations

next-Evolves : (c : Command) (s t u : State) → Evolves s t → next c t ≡ some u → Evolves s u
next-Evolves c s t u v e =
    let (i, b, o, a) = next_keeps c t u e in
    record {
      route = along v.route (next-Arrow c t u e);
      pid_fits = next-PidFits c t u e v.pid_fits;
      same_id = i ∙ v.same_id;
      same_bundle = b ∙ v.same_bundle;
      same_version = o ∙ v.same_version;
      same_annotations = a ∙ v.same_annotations;
    }

-- There is a stored state, and it has evolved from `s`.
abbrev pub StoredFrom : State → Option State → Type 0
StoredFrom s o = (t : State) × (o ≡ some t) × Evolves s t

Follows-StoredFrom :
    (c : Command) (id : Text) (s t : State) (r : Outcome (Unit {0})) (h : History)
    (after : Option State)
    → Evolves s t
    → Follows c id r h (some t) after
    → StoredFrom s after ⊎ Torn id h
Follows-StoredFrom c id s t (ok _) h none v (found, e) = absurd (found refl)
Follows-StoredFrom c id s t (ok _) h (some u) v (found, e) = inl (u, refl, next-Evolves c s t u v e)
Follows-StoredFrom c id s t (err x) h after v (inl e) = inl (t, e, v)
Follows-StoredFrom c id s t (err x) h after v (inr torn) = inr torn
Follows-StoredFrom c id s t (gone x) h after v (inl e) = inl (t, e, v)
Follows-StoredFrom c id s t (gone x) h after v (inr torn) = inr torn

-- One of the commands ended in a write of the state file of a container that failed.
abbrev pub TornIn : ⦃os : Os⦄ → Text → List (Command × Text) → History → Type 0
TornIn id [] h = ⊥
TornIn id ((c, j) ∷ rest) h = Torn id (execute c j h).1 ⊎ TornIn id rest (execute c j h).1

-- What every command keeps of the stored state, unless its write fails, a sequence of them keeps.
pub run_commands_keep :
    ⦃os : Os⦄
    → (id : Text) (d : Disk) (I : Option State → Type 0)
      (keeps : (c : Command) (h : History)
        → I (stored os d h id)
        → I (stored os d (execute c id h).1 id) ⊎ Torn id (execute c id h).1)
      (commands : List (Command × Text)) (h : History)
    → I (stored os d h id)
    → I (stored os d (run_commands commands h) id) ⊎ TornIn id commands h
unfolding run_commands
run_commands_keep id d I keeps [] h v = inl v
run_commands_keep ⦃os⦄ id d I keeps ((c, j) ∷ rest) h v = elim (step (Bool-cases (text_eq j id))) [
  | inl kept ↦ elim (run_commands_keep id d I keeps rest (execute c j h).1 kept) [
    | inl all ↦ inl all
    | inr torn ↦ inr (inr torn)
  ]
  | inr torn ↦ inr (inl torn)
]
  where
    step :
        (text_eq j id ≡ true) ⊎ (text_eq j id ≡ false)
        → I (stored os d (execute c j h).1 id) ⊎ Torn id (execute c j h).1
    step (inl same) = rw ((text_eq_iff j id).0 same) (keeps c h v)
    step (inr other) =
        inl
          (subst I (sym (stored-execute_ne d j id (λ p. cc (other, (text_eq_iff j id).1 p)) c h)) v)

module _ ⦃os : Os⦄ {d : Disk} (faithful : IsFaithful os d) (id : Text) (s : State) where
  execute-StoredFrom :
      (c : Command) (h : History)
      → StoredFrom s (stored os d h id)
      → StoredFrom s (stored os d (execute c id h).1 id) ⊎ Torn id (execute c id h).1
  execute-StoredFrom c h (t, e, v) =
      Follows-StoredFrom c id s t _ _ _ v (rw e at (execute-Follows faithful c id h))

  -- Where reads see what was written, after any sequence of start, kill, pause and resume on any
  -- containers, with any failures of their calls, a container whose state was stored, with a pid that
  -- fitted its status, has a stored state that is reached along the arrows of the state machine, has a
  -- pid exactly while it is created, running or paused, and has its id, bundle, version and
  -- annotations unchanged; or one of the commands ended in a write of its state file that failed.
  pub run_commands-StoredFrom :
      (commands : List (Command × Text)) (h : History)
      → stored os d h id ≡ some s
      → PidFits s.status s.pid
      → StoredFrom s (stored os d (run_commands commands h) id) ⊎ TornIn id commands h
  run_commands-StoredFrom commands h e fits =
      run_commands_keep id d (StoredFrom s) execute-StoredFrom commands h (
        s,
        e,
        record {
          route = here;
          pid_fits = fits;
          same_id = refl;
          same_bundle = refl;
          same_version = refl;
          same_annotations = refl;
        },
      )
