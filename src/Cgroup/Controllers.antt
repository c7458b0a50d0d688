-- ===== src/Cgroup/Controllers.antt =====
-- Which controllers are asked for once init_resources has returned.
use mathlib.Core.Path.{subst}
use clonebox.Prelude.{
  Text, codes, ◌≡◌, sym, ap, ◌∙◌, ◌⊎◌, true, List, [], ◌∷◌, ◌++◌, All, arith, contains,
}
use clonebox.Os.{Os, success, Call, did_read, did_write, History, ok}
use clonebox.Cgroup.{enable_controller, init_resources}

-- The call that shows that a controller is passed on to the children of a cgroup: it was in the list
-- of those that are, or it was added to it.
abbrev pub Shows : Text → Text → Call → Type 0
Shows path resource (did_read p (success t)) =
    (p ≡ path ++ codes "/cgroup.subtree_control") × (contains resource t ≡ true)
Shows path resource (did_write p t (success _)) =
    (p ≡ path ++ codes "/cgroup.subtree_control") × (t ≡ codes "+" ++ resource)
Shows path resource _ = ⊥

abbrev pub Shown : Text → Text → History → Type 0
Shown path resource [] = ⊥
Shown path resource (call ∷ h) = Shows path resource call ⊎ Shown path resource h

module _ ⦃os : Os⦄ (path : Text) where
  -- Nothing that was shown is lost by later calls.
  enable_controller-Shown :
      (resource other : Text) (h : History)
      → Shown path other h
      → Shown path other (enable_controller path resource h).1
  unfolding enable_controller
  enable_controller-Shown resource other h s = ground arith

  init_resources-Shown :
      (resources : List Text) (other : Text) (h : History)
      → Shown path other h
      → Shown path other (init_resources path resources h).1
  unfolding init_resources
  init_resources-Shown [] other h s = s
  init_resources-Shown (resource ∷ resources) other h s = ground (
    arith,
    enable_controller-Shown resource other h s,
    init_resources-Shown resources other (enable_controller path resource h).1,
  )

  enable_controller_ok :
      (resource : Text) (h : History)
      → (enable_controller path resource h).0 ≡ ok tt
      → Shown path resource (enable_controller path resource h).1
  unfolding enable_controller
  enable_controller_ok resource h e = ground arith

  init_resources_step :
      (resource : Text) (resources : List Text) (h : History)
      → (init_resources path (resource ∷ resources) h).0 ≡ ok tt
      → ((enable_controller path resource h).0 ≡ ok tt)
        × (init_resources path (resource ∷ resources) h
            ≡ init_resources path resources (enable_controller path resource h).1)
  unfolding init_resources
  init_resources_step resource resources h e = ground (arith, e)

  -- Whatever the system replies, an init_resources that returns has seen each of its resources in
  -- cgroup.subtree_control, by the text of its name, or has written it there with success.
  pub init_resources_ok :
      (resources : List Text) (h : History)
      → (init_resources path resources h).0 ≡ ok tt
      → All (λ resource. Shown path resource (init_resources path resources h).1) resources
  unfolding init_resources
  init_resources_ok [] h e = tt
  init_resources_ok (resource ∷ resources) h e =
      let (enabled, rest) = init_resources_step resource resources h e in
      let h1 = (enable_controller path resource h).1 in
      subst (λ (h' : History). All (λ r. Shown path r h') (resource ∷ resources))
        (sym (ap (λ r. r.1) rest))
        (
          init_resources-Shown resources resource h1 (enable_controller_ok resource h enabled),
          init_resources_ok resources h1 (sym (ap (λ r. r.0) rest) ∙ e),
        )
