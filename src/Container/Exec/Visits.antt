-- ===== src/Container/Exec/Visits.antt =====
-- The namespaces that `exec` goes through.
use mathlib.Core.Path.{subst}
use clonebox.Prelude.{
  Text, codes, ◌≡◌, refl, sym, ap, ◌∙◌, Bool, true, false, Option, none, some, List, [], ◌∷◌, arith,
  ℤ,
}
use clonebox.Errors.{SystemError, system_error}
use clonebox.State.{ContainerState, get_bundle_path, State, running, state_eq}
use clonebox.State.File.{read_state_file}
use clonebox.Logger.{open_log_file}
use clonebox.Network.Requests.{clone_newnet}
use clonebox.Container.Exec.{
  exec, exec_in, return_to_mnt, ns_path, clone_newns, clone_newuts, clone_newpid,
}
use clonebox.Os.{Os, Fd, did, History, Sys, Outcome, ok, err, gone, ◌>>=◌, ask, getpid}
use clonebox.Os.Returns.{Relation}
use clonebox.Container.Exec.Trace.{
  trace, Traces, Stages, Enters, Runs, Opens, Joins, open_then, fork_then, enter_then, enter_last,
  stage_then, still_then, return_to_mnt-Traces,
}

module _ ⦃os : Os⦄ where
  -- The stages of an exec, in their order: into the namespaces of the container, the mounts last, then
  -- the process, then back by the descriptor of the own mounts.
  abbrev pub stages : ℤ → ℤ → Fd → List Relation
  stages pid own mnt_fd =
      Opens (ns_path own (codes "mnt")) mnt_fd
      ∷ Enters pid (codes "uts") clone_newuts
      ∷ Enters pid (codes "pid") clone_newpid
      ∷ Enters pid (codes "net") clone_newnet
      ∷ Enters pid (codes "mnt") clone_newns
      ∷ Runs
      ∷ Joins mnt_fd clone_newns
      ∷ Enters own (codes "uts") clone_newuts
      ∷ Enters own (codes "pid") clone_newpid
      ∷ Enters own (codes "net") clone_newnet
      ∷ []

  -- The tails of the stages.
  abbrev from_own_pid : ℤ → List Relation
  from_own_pid own =
      Enters own (codes "pid") clone_newpid ∷ (Enters own (codes "net") clone_newnet ∷ [])

  abbrev from_own_uts : ℤ → List Relation
  from_own_uts own = Enters own (codes "uts") clone_newuts ∷ from_own_pid own

  abbrev from_back : ℤ → Fd → List Relation
  from_back own fd = Joins fd clone_newns ∷ from_own_uts own

  abbrev from_mnt : ℤ → ℤ → Fd → List Relation
  from_mnt pid own fd = Enters pid (codes "mnt") clone_newns ∷ (Runs ∷ from_back own fd)

  abbrev from_net : ℤ → ℤ → Fd → List Relation
  from_net pid own fd = Enters pid (codes "net") clone_newnet ∷ from_mnt pid own fd

  abbrev from_pid : ℤ → ℤ → Fd → List Relation
  from_pid pid own fd = Enters pid (codes "pid") clone_newpid ∷ from_net pid own fd

  abbrev from_uts : ℤ → ℤ → Fd → List Relation
  from_uts pid own fd = Enters pid (codes "uts") clone_newuts ∷ from_pid pid own fd

  -- After the state was read.
  exec_in-Traces :
      (id : Text) (cmd : List Text) (log_fd : Fd) (pid : ℤ)
      → Traces
          (λ before after. (own : ℤ) × (mnt_fd : Fd) × Stages (stages pid own mnt_fd) before after)
          (exec_in id cmd log_fd (some pid))
  unfolding exec_in trace ask
  exec_in-Traces id cmd log_fd pid h a done =
      let opened : (fd : Fd) × Stages (stages pid own fd) (trace h)
            (trace (exec_in id cmd log_fd (some pid) h).1) =
        open_then (λ e. system_error (SystemError.io e (ns_path own (codes "mnt"))))
          (ns_path own (codes "mnt")) (from_uts pid own) _
          (λ fd. enter_then pid (codes "uts") clone_newuts (from_pid pid own fd) _ (λ _.
            enter_then pid (codes "pid") clone_newpid (from_net pid own fd) _ (λ _.
              enter_then pid (codes "net") clone_newnet (from_mnt pid own fd) _ (λ _.
                enter_then pid (codes "mnt") clone_newns (Runs ∷ from_back own fd) _ (λ _.
                  fork_then (from_back own fd) cmd log_fd _ (λ _.
                    stage_then (Joins fd clone_newns) (from_own_uts own)
                      (return_to_mnt fd own log_fd) _ (return_to_mnt-Traces fd own log_fd)
                      (λ _. enter_then own (codes "uts") clone_newuts (from_own_pid own) _ (λ _.
                        enter_then own (codes "pid") clone_newpid
                          (Enters own (codes "net") clone_newnet ∷ []) _
                          (λ _. enter_last own (codes "net") clone_newnet)))))))))
          (did getpid own ∷ h) a done in
      (own, opened.0, opened.1)
    where
      own : ℤ
      own = os.answers h getpid

  read_state_file_still : (id : Text) (h : History) → trace (read_state_file id h).1 ≡ trace h
  unfolding read_state_file trace
  read_state_file_still id h = ground arith

  open_log_file_still : (p : Text) → Traces (λ before after. after ≡ before) (open_log_file p)
  unfolding open_log_file trace
  open_log_file_still p h a done = ground arith

  is_running : (s : ContainerState) → state_eq s running ≡ true → s ≡ running
  is_running s r = ground (arith, r)

  -- What exec went through, by the state that it read.
  abbrev pub Visits : Text → History → History → Type 0
  Visits id h h1 =
      (s : State) × (pid : ℤ) × (own : ℤ) × (mnt_fd : Fd) × ((read_state_file id h).0 ≡ ok s)
      × (s.status ≡ running)
      × (s.pid ≡ some pid)
      × Stages (stages pid own mnt_fd) (trace h) (trace h1)

  -- An exec that returns without an error read a state of a running container with a pid. It opened its
  -- own mount namespace, joined the uts, pid, net and mount namespaces of that process in this order,
  -- made one process and waited for its end, and then went back: to the mounts by what it had opened,
  -- and to the uts, pid and net namespaces of its own pid. It joined no other namespace and made
  -- no other process.
  pub exec-Visits :
      (id : Text) (cmd : List Text) (h : History)
      → (exec id cmd h).0 ≡ ok tt
      → Visits id h (exec id cmd h).1
  unfolding exec exec_in open_log_file
  exec-Visits id cmd h done = by_read (read_state_file id h).0 refl
    where
      h1 : History
      h1 = (read_state_file id h).1

      logged : ℤ → Sys (Unit {0})
      logged pid = open_log_file (get_bundle_path id) >>= λ log_fd. exec_in id cmd log_fd (some pid)

      logged-Traces :
          (pid : ℤ)
          → Traces
              (λ before after.
                (own : ℤ) × (mnt_fd : Fd) × Stages (stages pid own mnt_fd) before after)
              (logged pid)
      logged-Traces pid =
          still_then
            (λ before after.
              (own : ℤ) × (mnt_fd : Fd) × Stages (stages pid own mnt_fd) before after)
            (open_log_file (get_bundle_path id)) _ (open_log_file_still (get_bundle_path id))
            (λ log_fd. exec_in-Traces id cmd log_fd pid)

      visits :
          (s : State)
          → (read_state_file id h).0 ≡ ok s
          → (o : Option ℤ) → s.pid ≡ o
          → (b : Bool) → state_eq s.status running ≡ b
          → Visits id h (exec id cmd h).1
      visits s p o q false r = absurd (ground (arith, p, q, r, done))
      visits s p none q true r = absurd (ground (arith, p, q, r, done))
      visits s p (some pid) q true r =
          let steps : exec id cmd h ≡ logged pid h1 = ground (arith, p, q, r) in
          let (own, mnt_fd, went) =
            logged-Traces pid h1 tt
              (ap (λ (o : Outcome (Unit {0}) × History). o.0) (sym steps) ∙ done) in
          (
            s,
            pid,
            own,
            mnt_fd,
            p,
            is_running s.status r,
            q,
            subst
                (λ (o : Outcome (Unit {0}) × History).
                  Stages (stages pid own mnt_fd) (trace h) (trace o.1))
                (sym steps)
                (subst (λ t. Stages (stages pid own mnt_fd) t (trace (logged pid h1).1))
                  (read_state_file_still id h) went),
          )

      by_read : (r : Outcome State) → (read_state_file id h).0 ≡ r → Visits id h (exec id cmd h).1
      by_read (ok s) p = visits s p s.pid refl (state_eq s.status running) refl
      by_read (err e) p = absurd (ground (arith, p, done))
      by_read (gone x) p = absurd (ground (arith, p, done))
