-- ===== src/Container/Create/Isolated.antt =====
-- What lies behind the child of `create` when it becomes the program.
use mathlib.Core.Path.{subst}
use clonebox.Prelude.{
  ℕ, Text, codes, ◌≡◌, ◌≢◌, refl, Option, none, some, List, [], ◌∷◌, ◌++◌, unwrap_or, arith,
}
use clonebox.Config.{
  Config, Mount, get_root_path, get_process_args, get_process_env, get_process_cwd,
}
use clonebox.Errors.{Errno}
use clonebox.Namespace.{
  make_child_private, set_child_hostname, pre_pivot_mount, do_pivot_root, post_pivot_mount,
  do_default_mounts,
}
use clonebox.Namespace.Granted.{
  AllGranted, AllGranted_trans, IsStep, make_child_private-IsStep, set_child_hostname-IsStep,
  pre_pivot_mount-IsStep, post_pivot_mount-IsStep, do_default_mounts-IsStep, pivoted,
  do_pivot_root-Returns, do_pivot_root_stays,
}
use clonebox.Logger.{write_log_file}
use clonebox.Runtime.{Runtime, freeze_child}
use clonebox.Container.Exec.{container_exec}
use clonebox.Container.Create.{create_child}
use clonebox.Os.{
  Os, Reply, success, failure, Fd, Sys, History, gone, replaced, ◌>>=◌, did, read_byte, execve,
  chdir,
}
use clonebox.Os.Returns.{Relation, Returns, Ends, >>=-Ends}

-- The program replaced the child, after the change to its directory, whatever that gave.
abbrev pub Executed : Relation
Executed h h1 =
    (path : Text) × (argv : List Text) × (env : List Text) × (cwd : Text) × (r : Reply Errno
      (Unit {0}))
    × (h1 ≡ did (execve path argv env) none ∷ (did (chdir cwd) r ∷ h))

-- Before that, a byte was awaited.
abbrev pub Released : Fd → Relation
Released fd h h1 = (n : ℕ) × Executed (did (read_byte fd) (success n) ∷ h) h1

-- Before that, calls that were granted; before them, the change of the root; and before that, calls
-- that were granted again.
abbrev pub Mounted : Fd → Relation
Mounted fd h h1 = (h0 : History) × AllGranted h h0 × Released fd h0 h1

abbrev pub Rooted : Fd → Relation
Rooted fd h h1 = (new_root : Text) × Mounted fd (pivoted new_root ++ h) h1

abbrev pub Isolated : Fd → Relation
Isolated fd h h1 = (h0 : History) × AllGranted h h0 × Rooted fd h0 h1

module _ ⦃os : Os⦄ where
  container_exec-Ends :
      (args env : Option (List Text)) (cwd : Text) (log_fd : Fd)
      → Ends replaced Executed (container_exec args env (some cwd) log_fd)
  unfolding container_exec write_log_file
  container_exec-Ends none env cwd log_fd h done = absurd (ground (arith, done))
  container_exec-Ends (some []) env cwd log_fd h done = absurd (ground (arith, done))
  container_exec-Ends (some (path ∷ args)) env cwd log_fd h done =
      (path, path ∷ args, unwrap_or env [], cwd, os.answers h (chdir cwd), ground (arith, done))

  freeze_child-Returns :
      (r : Runtime) (fd : Fd)
      → r.child_end ≡ some fd
      → Returns (λ h h1. (n : ℕ) × (h1 ≡ did (read_byte fd) (success n) ∷ h)) (freeze_child r)
  unfolding freeze_child
  freeze_child-Returns r fd e h a done = by_reply (os.answers h (read_byte fd)) refl
    where
      by_reply :
          (reply : Reply Errno ℕ)
          → os.answers h (read_byte fd) ≡ reply
          → (n : ℕ) × ((freeze_child r h).1 ≡ did (read_byte fd) (success n) ∷ h)
      by_reply (success n) p = (n, ground (arith, p, e))
      by_reply (failure x) p = absurd (ground (arith, p, e, done))

  freeze_child_stays : (r : Runtime) (h : History) → (freeze_child r h).0 ≢ gone replaced
  unfolding freeze_child
  freeze_child_stays r h p = ground (arith, p)

  more_early :
      (fd : Fd) (h h1 h2 : History) → AllGranted h h1 → Isolated fd h1 h2 → Isolated fd h h2
  more_early fd h h1 h2 p (h0, q, rest) = (h0, AllGranted_trans h h1 h0 p q, rest)

  more_late : (fd : Fd) (h h1 h2 : History) → AllGranted h h1 → Mounted fd h1 h2 → Mounted fd h h2
  more_late fd h h1 h2 p (h0, q, rest) = (h0, AllGranted_trans h h1 h0 p q, rest)

  -- A step of the child in front of what ends in the program.
  step :
      {A : Type 0} (Q R : Relation)
      (joins : (h h1 h2 : History) → AllGranted h h1 → Q h1 h2 → R h h2) (m : Sys A)
      → IsStep m
      → {k : A → Sys (Unit {0})} → ((a : A) → Ends replaced Q (k a))
      → Ends replaced R (m >>= k)
  step Q R joins m s {k} =
      >>=-Ends {P = AllGranted} {Q = Q} {R = R} joins replaced m k s.stays s.grants

  -- If the child of create becomes the program, then its last calls are the change to the program's
  -- directory and the execve; before them a read of the pipe returned; before that stand calls that were
  -- all granted, and among them in one piece those that change the root, from the directory that is made
  -- for the old root to its removal after it was detached.
  pub create_child-Isolated :
      (path : Text) (config : Config) (r : Runtime) (log_fd fd : Fd)
      → r.child_end ≡ some fd
      → (h : History) → (create_child path config r log_fd h).0 ≡ gone replaced
      → Isolated fd h (create_child path config r log_fd h).1
  unfolding create_child
  create_child-Isolated path config r log_fd fd e =
      step (Isolated fd) (Isolated fd) (more_early fd) make_child_private make_child_private-IsStep
        (λ _.
          step (Isolated fd) (Isolated fd) (more_early fd) (set_child_hostname hostname)
            (set_child_hostname-IsStep hostname)
            (λ _.
              step (Rooted fd) (Isolated fd) (λ h h1 h2 p q. (h1, p, q))
                (pre_pivot_mount path (get_root_path config) mounts)
                (pre_pivot_mount-IsStep path (get_root_path config) mounts)
                (λ new_root.
                  >>=-Ends {P = λ h h1. h1 ≡ pivoted new_root ++ h} {Q = Mounted fd} {R = Rooted fd}
                    (λ h h1 h2 p q. (new_root, subst (λ l. Mounted fd l h2) p q)) replaced
                    (do_pivot_root new_root) _ (do_pivot_root_stays new_root)
                    (do_pivot_root-Returns new_root)
                    (λ _.
                      step (Mounted fd) (Mounted fd) (more_late fd) (post_pivot_mount mounts)
                        (post_pivot_mount-IsStep mounts)
                        (λ _.
                          step (Released fd) (Mounted fd) (λ h h1 h2 p q. (h1, p, q))
                            do_default_mounts do_default_mounts-IsStep
                            (λ _.
                              >>=-Ends
                                {P = λ h h1. (n : ℕ) × (h1 ≡ did (read_byte fd) (success n) ∷ h)}
                                {Q = Executed} {R = Released fd}
                                (λ h h1 h2 p q. (p.0, subst (λ l. Executed l h2) p.1 q)) replaced
                                (freeze_child r) _ (freeze_child_stays r)
                                (freeze_child-Returns r fd e)
                                (λ _.
                                  container_exec-Ends (get_process_args config)
                                    (get_process_env config) (get_process_cwd config) log_fd)))))))
    where
      hostname : Text
      hostname = unwrap_or config.hostname (codes "none")

      mounts : List Mount
      mounts = unwrap_or config.mounts []
