-- ===== src/Container/Exec/Trace.antt =====
-- The calls by which code moves between namespaces and makes processes, as stages.
use mathlib.Core.Path.{subst}
use clonebox.Prelude.{ℕ, Text, ◌≡◌, refl, Bool, true, false, List, [], ◌∷◌, arith, ℤ, if◌then◌else◌}
use clonebox.Errors.{IoError, CoreError, Errno}
use clonebox.Container.Exec.{
  enter_namespace, after_fork, return_to_mnt, container_exec, ns_path, clone_newns,
}
use clonebox.Os.{
  Os, Reply, success, failure, Fd, WaitStatus, ForkResult, parent, child, Call, did, open_file,
  clone3, pipe2, setns, fork, waitpid, History, Sys, Outcome, ok, ◌>>=◌, ask, attempt, raise,
  proceed,
}
use clonebox.Os.Returns.{Relation, Returns, >>=-Returns}

-- The calls that open a file or a pipe, change a namespace, or make and await a process.
abbrev moves : Call → Bool
moves (did (open_file p) r) = true
moves (did (setns fd flag) r) = true
moves (did fork r) = true
moves (did (waitpid pid) r) = true
moves (did (clone3 args) r) = true
moves (did pipe2 r) = true
moves _ = false

unfoldable pub trace : History → History
trace [] = []
trace (c ∷ h) = if moves c then c ∷ trace h else trace h

-- One stage after another.
abbrev pub Stages : List Relation → Relation
Stages [] before after = after ≡ before
Stages (stage ∷ stages) before after =
    (between : History) × stage before between × Stages stages between after

-- The namespace of a process is opened, and joined.
abbrev pub Enters : ℤ → Text → ℕ → ⦃os : Os⦄ → Relation
Enters pid ns flag before after =
    (fd : Fd) × (after
      ≡ did (setns fd flag) (success tt) ∷ (did (open_file (ns_path pid ns)) (success fd) ∷ before))

-- A process is made, and its end awaited.
abbrev pub Runs : Relation
Runs before after =
    (pid : ℤ) × (w : WaitStatus) × (after
      ≡ did (waitpid pid) (success w) ∷ (did fork (success (parent pid)) ∷ before))

abbrev pub Opens : Text → Fd → Relation
Opens path fd before after = after ≡ did (open_file path) (success fd) ∷ before

abbrev pub Joins : Fd → ℕ → Relation
Joins fd flag before after = after ≡ did (setns fd flag) (success tt) ∷ before

-- A relation between traces, of code that returns.
abbrev pub Traces : Relation → {A : Type 0} → Sys A → Type 0
Traces R m = Returns (λ h h1. R (trace h) (trace h1)) m

module _ ⦃os : Os⦄ where
  enter_namespace-Traces :
      (pid : ℤ) (ns : Text) (flag : ℕ) → Traces (Enters pid ns flag) (enter_namespace pid ns flag)
  unfolding enter_namespace trace
  enter_namespace-Traces pid ns flag h a done =
      by_reply (os.answers h (open_file (ns_path pid ns))) refl
    where
      by_reply :
          (r : Reply IoError Fd)
          → os.answers h (open_file (ns_path pid ns)) ≡ r
          → Enters pid ns flag (trace h) (trace (enter_namespace pid ns flag h).1)
      by_reply (success fd) p = (fd, ground (arith, p, done))
      by_reply (failure e) p = absurd (ground (arith, p, done))

  pub return_to_mnt-Traces :
      (fd : Fd) (pid : ℤ) (log_fd : Fd)
      → Traces (Joins fd clone_newns) (return_to_mnt fd pid log_fd)
  unfolding return_to_mnt trace
  return_to_mnt-Traces fd pid log_fd h a done = ground (arith, done)

  pub stage_then :
      {A B : Type 0} (R : Relation) (stages : List Relation) (m : Sys A) (k : A → Sys B)
      → Traces R m
      → ((a : A) → Traces (Stages stages) (k a))
      → Traces (Stages (R ∷ stages)) (m >>= k)
  stage_then R stages m k =
      >>=-Returns {P = λ h h1. R (trace h) (trace h1)}
        {Q = λ h h1. Stages stages (trace h) (trace h1)}
        {R = λ h h1. Stages (R ∷ stages) (trace h) (trace h1)} (λ h h1 h2 p q. (trace h1, p, q)) m k

  -- Code whose calls are no moves, in front.
  pub still_then :
      {A B : Type 0} (R : Relation) (m : Sys A) (k : A → Sys B)
      → Traces (λ before after. after ≡ before) m
      → ((a : A) → Traces R (k a))
      → Traces R (m >>= k)
  still_then R m k =
      >>=-Returns {P = λ h h1. trace h1 ≡ trace h} {Q = λ h h1. R (trace h) (trace h1)}
        {R = λ h h1. R (trace h) (trace h1)} (λ h h1 h2 p q. subst (λ t. R t (trace h2)) p q) m k

  after_fork-Traces :
      (cmd : List Text) (log_fd : Fd) → Traces Runs (ask fork >>= after_fork cmd log_fd)
  unfolding after_fork container_exec trace ask
  after_fork-Traces cmd log_fd h a done = by_reply (os.answers h fork) refl
    where
      all : Sys (Unit {0})
      all = ask fork >>= after_fork cmd log_fd

      by_wait :
          (pid : ℤ) (r : Reply Errno WaitStatus)
          → os.answers h fork ≡ success (parent pid)
          → os.answers (did fork (success (parent pid)) ∷ h) (waitpid pid) ≡ r
          → Runs (trace h) (trace (all h).1)
      by_wait pid (success w) p q = (pid, w, ground (arith, p, q, done))
      by_wait pid (failure e) p q = absurd (ground (arith, p, q, done))

      by_reply :
          (r : Reply Errno ForkResult) → os.answers h fork ≡ r → Runs (trace h) (trace (all h).1)
      by_reply (success (parent pid)) p =
          by_wait pid (os.answers (did fork (success (parent pid)) ∷ h) (waitpid pid)) p refl
      by_reply (success child) p = absurd (ground (arith, p, done))
      by_reply (failure e) p = absurd (ground (arith, p, done))

  pub open_then :
      {B : Type 0} (f : IoError → CoreError) (path : Text) (rest : Fd → List Relation)
      (k : Fd → Sys B)
      → ((fd : Fd) → Traces (Stages (rest fd)) (k fd))
      → Traces
          (λ before after. (fd : Fd) × Stages (Opens path fd ∷ rest fd) before after)
          (attempt f (ask (open_file path)) >>= k)
  unfolding trace ask
  open_then {B} f path rest k each h b = by_reply (os.answers h (open_file path))
    where
      at : Reply IoError Fd → Outcome Fd × History
      at r = raise f r (did (open_file path) r ∷ h)

      by_reply :
          (r : Reply IoError Fd)
          → (proceed (at r).0 k (at r).1).0 ≡ ok b
          → (fd : Fd) × Stages
              (Opens path fd ∷ rest fd)
              (trace h)
              (trace (proceed (at r).0 k (at r).1).1)
      by_reply (success fd) done = (
        fd,
        (did (open_file path) (success fd) ∷ trace h, refl, each fd (at (success fd)).1 b done),
      )
      by_reply (failure e) done = absurd (ground (arith, done))

  -- `ask fork` and the match on its reply, as one step.
  pub fork_then :
      (rest : List Relation) (cmd : List Text) (log_fd : Fd) (k : Unit {0} → Sys (Unit {0}))
      → ((u : Unit {0}) → Traces (Stages rest) (k u))
      → Traces (Stages (Runs ∷ rest)) (ask fork >>= λ r. after_fork cmd log_fd r >>= k)
  unfolding ask
  fork_then rest cmd log_fd k =
      stage_then Runs rest (ask fork >>= after_fork cmd log_fd) k (after_fork-Traces cmd log_fd)

  pub enter_then :
      (pid : ℤ) (ns : Text) (flag : ℕ) {B : Type 0} (rest : List Relation) (k : Unit {0} → Sys B)
      → ((u : Unit {0}) → Traces (Stages rest) (k u))
      → Traces (Stages (Enters pid ns flag ∷ rest)) (enter_namespace pid ns flag >>= k)
  enter_then pid ns flag rest k =
      stage_then (Enters pid ns flag) rest (enter_namespace pid ns flag) k
        (enter_namespace-Traces pid ns flag)

  pub enter_last :
      (pid : ℤ) (ns : Text) (flag : ℕ)
      → Traces (Stages (Enters pid ns flag ∷ [])) (enter_namespace pid ns flag)
  enter_last pid ns flag h a done = (_, enter_namespace-Traces pid ns flag h a done, refl)
