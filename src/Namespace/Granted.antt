-- ===== src/Namespace/Granted.antt =====
-- What the child of `create` has behind it when a step of its own returns: calls that were all granted.
use mathlib.Core.List.{append_assoc}
use clonebox.Prelude.{
  ℕ, ◌+◌, Text, codes, ◌≡◌, ◌≢◌, refl, sym, ap, ◌∙◌, Bool, true, false, Option, none, some, List,
  [], ◌∷◌, ◌++◌, All, arith, if◌then◌else◌,
}
use clonebox.Config.{Mount}
use clonebox.Namespace.{
  ms_private, ms_rec, ms_bind, mnt_detach, child_try, make_child_private, set_child_hostname,
  mount_child, make_dir, bind_first, mount_overlay, pre_pivot_mount, do_pivot_root,
  post_pivot_mount, do_default_mounts, is_bind, is_tmpfs, joined,
}
use clonebox.Os.{
  Os, Reply, success, failure, did, did_remove_dir, Call, History, Sys, Outcome, ok, err, gone,
  proceed, replaced, pure, ◌>>=◌, ask, remove_dir, mount, sethostname, create_dir_all, pivot_root,
  chdir, umount2,
}
use clonebox.Os.Returns.{Relation, Returns, >>=-Returns}

abbrev pub Granted : Call → Type 0
Granted (did_remove_dir p (success _)) = Unit {0}
Granted (did (create_dir_all p) (success _)) = Unit {0}
Granted (did (mount source target type flags text) (success _)) = Unit {0}
Granted (did (sethostname name) (success _)) = Unit {0}
Granted (did (pivot_root new_root put_old) (success _)) = Unit {0}
Granted (did (chdir p) (success _)) = Unit {0}
Granted (did (umount2 p flags) (success _)) = Unit {0}
Granted _ = ⊥

-- Every call in between was granted.
abbrev pub AllGranted : Relation
AllGranted h h1 = (calls : History) × (h1 ≡ calls ++ h) × All Granted calls

All-append : (a b : History) → All Granted a → All Granted b → All Granted (a ++ b)
All-append [] b p q = q
All-append (c ∷ a) b (p, ps) q = (p, All-append a b ps q)

pub AllGranted_trans : (h h1 h2 : History) → AllGranted h h1 → AllGranted h1 h2 → AllGranted h h2
AllGranted_trans h h1 h2 (a, p, all_a) (b, q, all_b) =
    (b ++ a, q ∙ ap (λ l. b ++ l) p ∙ sym (append_assoc b a h), All-append b a all_b all_a)

-- The calls of do_pivot_root, newest first.
abbrev pub pivoted : Text → History
pivoted new_root =
    did_remove_dir (codes "/put_old") (success tt)
    ∷ did (umount2 (codes "/put_old") mnt_detach) (success tt)
    ∷ did (chdir (codes "/")) (success tt)
    ∷ did (pivot_root new_root (new_root ++ codes "/put_old")) (success tt)
    ∷ did (create_dir_all (new_root ++ codes "/put_old")) (success tt)
    ∷ []

module _ ⦃os : Os⦄ where
  -- A step of the child: what it returns after, and that it is no step into the program.
  pub record IsStep {A : Type 0} (m : Sys A) : Type 0 where
    pub grants : Returns AllGranted m
    pub stays : (h : History) → (m h).0 ≢ gone replaced

  >>=-IsStep :
      {A B : Type 0} (m : Sys A) (k : A → Sys B)
      → IsStep m
      → ((a : A) → IsStep (k a))
      → IsStep (m >>= k)
  >>=-IsStep m k first rest = record {
    grants = >>=-Returns AllGranted_trans m k first.grants (λ a. (rest a).grants);
    stays = λ h p. stays_after (m h).0 k (m h).1 (first.stays h) (λ a. (rest a).stays (m h).1) p;
  }
    where
      stays_after :
          {A B : Type 0} (r : Outcome A) (k : A → Sys B) (h1 : History)
          → r ≢ gone replaced
          → ((a : A) → (k a h1).0 ≢ gone replaced)
          → (proceed r k h1).0 ≢ gone replaced
      stays_after (ok a) k h1 first rest = rest a
      stays_after (err e) k h1 first rest = λ p. ground (arith, p)
      stays_after (gone x) k h1 first rest = λ p. ground (arith, first, p)

  pure-IsStep : {A : Type 0} (a : A) → IsStep (pure a)
  pure-IsStep a = record { grants = λ h b done. ([], refl, tt); stays = λ h p. ground (arith, p) }

  -- The macro child_try! on the reply to a call that has just been made.
  module _ {E : Type 0} (display : E → Text) (msg : Text) (c : Reply E (Unit {0}) → Call)
      (granted : (u : Unit {0}) → Granted (c (success u))) where
    child_try-AllGranted :
        (r : Reply E (Unit {0})) (h : History) (a : Unit {0})
        → (child_try display msg 1 r (c r ∷ h)).0 ≡ ok a
        → AllGranted h (child_try display msg 1 r (c r ∷ h)).1
    unfolding child_try
    child_try-AllGranted (success u) h a done = (c (success u) ∷ [], refl, (granted u, tt))
    child_try-AllGranted (failure e) h a done = absurd (ground (arith, done))

    child_try_stays :
        (r : Reply E (Unit {0})) (h : History) → (child_try display msg 1 r h).0 ≢ gone replaced
    unfolding child_try
    child_try_stays (success u) h p = ground (arith, p)
    child_try_stays (failure e) h p = ground (arith, p)

    -- A call whose reply it is.
    tried-IsStep :
        (answer : History → Reply E (Unit {0}))
        → IsStep (λ h. child_try display msg 1 (answer h) (c (answer h) ∷ h))
    tried-IsStep answer = record {
      grants = λ h. child_try-AllGranted (answer h) h;
      stays = λ h. child_try_stays (answer h) (c (answer h) ∷ h);
    }

  pub mount_child-IsStep :
      (src : Option Text) (dest : Text) (kind : Option Text) (flags : ℕ) (text : Option Text)
      (msg : Text)
      → IsStep (mount_child src dest kind flags text msg)
  unfolding mount_child ask
  mount_child-IsStep src dest kind flags text msg =
      tried-IsStep os.errno_display msg (did (mount src dest kind flags text)) (λ u. u)
        (λ h. os.answers h (mount src dest kind flags text))

  pub make_child_private-IsStep : IsStep make_child_private
  unfolding make_child_private ask
  make_child_private-IsStep =
      tried-IsStep os.errno_display (codes "private mount")
        (did (mount none (codes "/") none (ms_private + ms_rec) none)) (λ u. u)
        (λ h. os.answers h (mount none (codes "/") none (ms_private + ms_rec) none))

  pub set_child_hostname-IsStep : (name : Text) → IsStep (set_child_hostname name)
  unfolding set_child_hostname ask
  set_child_hostname-IsStep name =
      tried-IsStep os.errno_display (codes "sethostname") (did (sethostname name)) (λ u. u)
        (λ h. os.answers h (sethostname name))

  make_dir-IsStep : (path msg : Text) → IsStep (make_dir path msg)
  unfolding make_dir ask
  make_dir-IsStep path msg =
      tried-IsStep os.io_display msg (did (create_dir_all path)) (λ u. u)
        (λ h. os.answers h (create_dir_all path))

  bind_first-IsStep : (new_root : Text) (mounts : List Mount) → IsStep (bind_first new_root mounts)
  unfolding bind_first
  bind_first-IsStep new_root [] = pure-IsStep false
  bind_first-IsStep new_root (m ∷ mounts) =
      choose (is_bind m.options) (bind_first-IsStep new_root mounts)
    where
      bind : Sys Bool
      bind =
          mount_child m.source (new_root ++ m.destination) m.mount_type ms_bind (joined m.options)
            (codes "bind")
          >>= λ _. pure true

      choose :
          (b : Bool)
          → IsStep (bind_first new_root mounts)
          → IsStep (if b then bind else bind_first new_root mounts)
      choose true rest =
          >>=-IsStep _ _
            (mount_child-IsStep m.source (new_root ++ m.destination) m.mount_type ms_bind
              (joined m.options) (codes "bind"))
            (λ _. pure-IsStep true)
      choose false rest = rest

  mount_overlay-IsStep : (bundle new_root : Text) → IsStep (mount_overlay bundle new_root)
  unfolding mount_overlay
  mount_overlay-IsStep bundle new_root =
      >>=-IsStep _ _
        (make_dir-IsStep (bundle ++ codes "/upper") (codes "pre_pivot: create_dir_all: upper_dir"))
        (λ _.
          >>=-IsStep _ _
            (make_dir-IsStep (bundle ++ codes "/work")
              (codes "pre_pivot: create_dir_all: work_dir"))
            (λ _.
              >>=-IsStep _ _ (make_dir-IsStep (bundle ++ codes "/merged") (codes "create_dir_all"))
                (λ _.
                  >>=-IsStep _ _
                    (mount_child-IsStep (some (codes "overlay")) (bundle ++ codes "/merged")
                      (some (codes "overlay")) 0
                      (some (
                        codes "lowerdir="
                        ++ (new_root
                            ++ (codes ",upperdir="
                                ++ ((bundle ++ codes "/upper")
                                    ++ (codes ",workdir=" ++ (bundle ++ codes "/work")))))))
                      (codes "overlayfs"))
                    (λ _. pure-IsStep (bundle ++ codes "/merged")))))

  pub pre_pivot_mount-IsStep :
      (bundle new_root : Text) (mounts : List Mount)
      → IsStep (pre_pivot_mount bundle new_root mounts)
  unfolding pre_pivot_mount
  pre_pivot_mount-IsStep bundle new_root mounts =
      >>=-IsStep _ _
        (mount_child-IsStep (some new_root) new_root none ms_bind none (codes "bind mount"))
        (λ _. >>=-IsStep _ _ (bind_first-IsStep new_root mounts) choose)
    where
      choose :
          (bound : Bool) → IsStep (if bound then pure new_root else mount_overlay bundle new_root)
      choose true = pure-IsStep new_root
      choose false = mount_overlay-IsStep bundle new_root

  pub post_pivot_mount-IsStep : (mounts : List Mount) → IsStep (post_pivot_mount mounts)
  unfolding post_pivot_mount
  post_pivot_mount-IsStep [] = pure-IsStep tt
  post_pivot_mount-IsStep (m ∷ mounts) =
      >>=-IsStep _ _ (choose (is_tmpfs m.mount_type)) (λ _. post_pivot_mount-IsStep mounts)
    where
      tmpfs : Sys (Unit {0})
      tmpfs = mount_child m.source m.destination m.mount_type 0 (joined m.options) (codes "tmpfs")

      choose : (b : Bool) → IsStep (if b then tmpfs else pure tt)
      choose true =
          mount_child-IsStep m.source m.destination m.mount_type 0 (joined m.options)
            (codes "tmpfs")
      choose false = pure-IsStep tt

  pub do_default_mounts-IsStep : IsStep do_default_mounts
  unfolding do_default_mounts
  do_default_mounts-IsStep =
      >>=-IsStep _ _
        (mount_child-IsStep (some (codes "proc")) (codes "/proc") (some (codes "proc")) 0 none
          (codes "proc"))
        (λ _.
          >>=-IsStep _ _
            (mount_child-IsStep (some (codes "sysfs")) (codes "/sys") (some (codes "sysfs")) 0 none
              (codes "sysfs"))
            (λ _.
              mount_child-IsStep (some (codes "devtmpfs")) (codes "/dev") (some (codes "devtmpfs"))
                0 none (codes "devtmpfs")))

  pub do_pivot_root-Returns :
      (new_root : Text) → Returns (λ h h1. h1 ≡ pivoted new_root ++ h) (do_pivot_root new_root)
  unfolding do_pivot_root make_dir child_try ask remove_dir
  do_pivot_root-Returns new_root h a done = ground (arith, done)

  pub do_pivot_root_stays :
      (new_root : Text) (h : History) → (do_pivot_root new_root h).0 ≢ gone replaced
  unfolding do_pivot_root make_dir child_try ask remove_dir
  do_pivot_root_stays new_root h p = ground (arith, p)
