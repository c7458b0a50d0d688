-- ===== src/Container/Create/Cloned.antt =====
-- How `create` makes the child.
use mathlib.Core.Path.{subst}
use clonebox.Prelude.{
  Text, codes, ◌≡◌, refl, ap, ◌∙◌, none, some, List, [], ◌∷◌, ◌+◌, arith, ℤ, pos,
}
use clonebox.Runtime.{Runtime, new, parent_child_pipe}
use clonebox.Errors.{Errno, from_clone}
use clonebox.Clone3
use clonebox.Clone3.{Clone3, build, missing, clone_args, cgroup, flags}
use clonebox.Cgroup.{
  create_cgroup, init_resources, enable_controller, get_root_cgroup_path, get_app_cgroup_path,
  get_child_cgroup_path,
}
use clonebox.Container.Exec.Trace.{trace}
use clonebox.Os.Returns.{value_then}
use clonebox.Container.Create.{create_process, clone_flags}
use clonebox.Os.{
  Os, Reply, success, failure, sigchld, Fd, CloneArgs, Call, did, open_file, pipe2, clone3, Sys,
  History, Outcome, ok, attempt,
}

-- CLONE_NEWPID, CLONE_NEWUTS, CLONE_NEWNS, CLONE_NEWNET and CLONE_INTO_CGROUP, and SIGCHLD at the end.
abbrev pub child_args : Fd → CloneArgs
child_args cgroup_fd = record {
  flags = 0x20000000 + 0x4000000 + 0x20000 + 0x40000000 + 0x200000000;
  pidfd = 0;
  child_tid = 0;
  parent_tid = 0;
  exit_signal = 17;
  stack = 0;
  stack_size = 0;
  tls = 0;
  set_tid = 0;
  set_tid_size = 0;
  cgroup = cgroup_fd;
}

module _ ⦃os : Os⦄ where
  create_cgroup_opens :
      (id : Text) (h : History) (a : Text × Fd)
      → (create_cgroup id h).0 ≡ ok a
      → trace (create_cgroup id h).1
        ≡ did (open_file (get_child_cgroup_path id)) (success a.1) ∷ trace h
  unfolding create_cgroup trace
  create_cgroup_opens id h a done = ground (arith, done)

  enable_controller_still :
      (path r : Text) (h : History) → trace (enable_controller path r h).1 ≡ trace h
  unfolding enable_controller trace
  enable_controller_still path r h = ground arith

  init_resources_still :
      (path : Text) (rs : List Text) (h : History) → trace (init_resources path rs h).1 ≡ trace h
  unfolding init_resources
  init_resources_still path [] h = refl
  init_resources_still path (r ∷ rs) h =
      let rest = init_resources_still path rs (enable_controller path r h).1 in
      ground (arith, enable_controller_still path r h, rest)

  pipe_opens :
      (h : History) (r : Runtime)
      → (parent_child_pipe (new none none none) h).0 ≡ ok r
      → (ends : Fd × Fd) × (r ≡ new (some ends.0) (some ends.1) none)
        × (trace (parent_child_pipe (new none none none) h).1 ≡ did pipe2 (success ends) ∷ trace h)
  unfolding parent_child_pipe trace
  pipe_opens h r done = by_reply (os.answers h pipe2) refl
    where
      by_reply :
          (reply : Reply Errno (Fd × Fd))
          → os.answers h pipe2 ≡ reply
          → (ends : Fd × Fd) × (r ≡ new (some ends.0) (some ends.1) none)
            × (trace (parent_child_pipe (new none none none) h).1
                ≡ did pipe2 (success ends) ∷ trace h)
      by_reply (success ends) p = (ends, ground (arith, p, done), ground (arith, p, done))
      by_reply (failure e) p = absurd (ground (arith, p, done))

  build_clones :
      (fd : Fd) (h : History) (pid : ℤ)
      → let m =
          attempt from_clone
            (build 0 0 (cgroup (pos fd) (flags clone_flags (Clone3.new (some sigchld))))) in
        (m h).0 ≡ ok pid → trace (m h).1 ≡ did (clone3 (child_args fd)) (success pid) ∷ trace h
  unfolding build missing clone_args cgroup flags trace
  build_clones fd h pid done = ground (arith, done)

  -- The last moves, newest first: a descriptor of the cgroup, a pipe whose ends the runtime keeps, and
  -- the clone.
  abbrev pub Clones : Text → Runtime → ℤ → List Call → List Call → Type 0
  Clones id r pid before after =
      (fd : Fd) × (ends : Fd × Fd) × (r ≡ new (some ends.0) (some ends.1) none)
      × (after
          ≡ did (clone3 (child_args fd)) (success pid)
            ∷ did pipe2 (success ends)
            ∷ did (open_file (get_child_cgroup_path id)) (success fd)
            ∷ before)

  -- A create_process that returns a runtime and a pid made one process, by one clone3 that returned this
  -- pid: into new pid, uts, mount and network namespaces and into the cgroup of the container, whose
  -- directory it had opened, with SIGCHLD at its end and no other option. Before that it made one pipe,
  -- whose ends the runtime has, the first for the child and the second for the parent.
  pub create_process-Clones :
      (id : Text) (made : Runtime × ℤ) (h : History)
      → (create_process id h).0 ≡ ok made
      → Clones id made.0 made.1 (trace h) (trace (create_process id h).1)
  unfolding create_process
  create_process-Clones id made h = value_then G made (create_cgroup id) _ h (λ opened p0.
      value_then G made (init_resources get_root_cgroup_path controllers) _ (create_cgroup id h).1
        (λ u p1.
          value_then G made (init_resources get_app_cgroup_path controllers) _ (root opened).1
            (λ v p2.
              value_then G made (parent_child_pipe (new none none none)) _ (app opened).1 (λ r p3.
                value_then G made (clone opened.1) _ (piped opened).1 (λ pid p4 done.
                  let (ends, kept, pipe) = pipe_opens (app opened).1 r p3 in
                  let same : (r, pid) ≡ made = ground (arith, done) in
                  subst
                    (λ x. Clones id x.0 x.1 (trace h) (trace (clone opened.1 (piped opened).1).1))
                    same
                    (
                      opened.1,
                      ends,
                      kept,
                      build_clones opened.1 (piped opened).1 pid p4
                          ∙ ap (λ t. did (clone3 (child_args opened.1)) (success pid) ∷ t)
                              (pipe
                                ∙ ap (λ t. did pipe2 (success ends) ∷ t)
                                    (init_resources_still get_app_cgroup_path controllers
                                        (root opened).1
                                      ∙ init_resources_still get_root_cgroup_path controllers
                                          (create_cgroup id h).1
                                      ∙ create_cgroup_opens id h opened p0)),
                    ))))))
    where
      G : History → Type 0
      G h1 = Clones id made.0 made.1 (trace h) (trace h1)

      controllers : List Text
      controllers = codes "cpu" ∷ codes "memory" ∷ []

      root : Text × Fd → Outcome (Unit {0}) × History
      root opened = init_resources get_root_cgroup_path controllers (create_cgroup id h).1

      app : Text × Fd → Outcome (Unit {0}) × History
      app opened = init_resources get_app_cgroup_path controllers (root opened).1

      piped : Text × Fd → Outcome Runtime × History
      piped opened = parent_child_pipe (new none none none) (app opened).1

      clone : Fd → Sys ℤ
      clone fd =
          attempt from_clone
            (build 0 0 (cgroup (pos fd) (flags clone_flags (Clone3.new (some sigchld)))))
