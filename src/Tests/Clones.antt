-- ===== src/Tests/Clones.antt =====
-- Clone3.antt: the builder that `create` uses, and a few setters more.
use clonebox.Prelude.{◌≡◌, refl, none, some, [], ◌∷◌, pos}
use clonebox.Os.{sigchld}
use clonebox.Clone3.{new, missing}
use clonebox.Clone3.Setters.{
  sets_flags, sets_cgroup, sets_tls, sets_stack, apply_setters, IsPaired, setters_complete,
}
use clonebox.Container.Create.{clone_flags}

setters_complete_example :
    IsPaired (
      apply_setters
        (sets_flags clone_flags ∷ sets_cgroup (pos 5) ∷ sets_tls 0 ∷ sets_stack 4096 ∷ [])
        (new (some sigchld)))
    × (missing (
          apply_setters
            (sets_flags clone_flags ∷ sets_cgroup (pos 5) ∷ sets_tls 0 ∷ sets_stack 4096 ∷ [])
            (new (some sigchld)))
        ≡ none)
setters_complete_example =
    setters_complete (some sigchld)
      (sets_flags clone_flags ∷ sets_cgroup (pos 5) ∷ sets_tls 0 ∷ sets_stack 4096 ∷ [])
      ((refl, refl, refl, refl, refl), (tt, (tt, (tt, tt))))
