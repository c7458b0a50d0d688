-- ===== src/Os/Monad.antt =====
-- Code that calls the system: it runs on the history, and returns, fails or ends its process.
use clonebox.Prelude.{Text, Bool, List, ◌∷◌, ℤ}
use clonebox.Errors.{Errno, IoError, CoreError}
use clonebox.Os.Asks.{Reply, success, failure, Fd, Request, ReplyTo}
use clonebox.Os.Kernel.{
  Signal, did, did_read, did_write, did_remove_dir, did_remove_dir_all, did_kill, did_socket,
  did_connect, did_read_dir, did_check_exists, did_spawn, DirEntry, History, Os, Outcome, ok, err,
  gone, End,
}

abbrev pub Sys : Type 0 → Type 0
Sys A = History → Outcome A × History

abbrev pub pure : {A : Type 0} → A → Sys A
pure a h = (ok a, h)

abbrev pub throw : {A : Type 0} → CoreError → Sys A
throw e h = (err e, h)

-- The process ends.
abbrev pub halt : {A : Type 0} → End → Sys A
halt x h = (gone x, h)

-- `let _ = ...` on a result
abbrev pub unless_gone : {A : Type 0} → Outcome A → Outcome (Unit {0})
unless_gone (gone x) = gone x
unless_gone _ = ok tt

abbrev pub ignore : {A : Type 0} → Sys A → Sys (Unit {0})
ignore m h = (unless_gone (m h).0, (m h).1)

-- What follows a call, by how the call ended.
abbrev pub proceed : {A B : Type 0} → Outcome A → (A → Sys B) → Sys B
proceed (ok a) f h = f a h
proceed (err e) f h = (err e, h)
proceed (gone x) f h = (gone x, h)

infixl 5 ◌>>=◌ ◌>>◌
abbrev pub ◌>>=◌ : {A B : Type 0} → Sys A → (A → Sys B) → Sys B
◌>>=◌ m f h = proceed (m h).0 f (m h).1

abbrev pub ◌>>◌ : {B : Type 0} → Sys (Unit {0}) → Sys B → Sys B
m >> k = m >>= λ _. k

-- `.map_err(f)?`
abbrev pub raise : {E A : Type 0} → (E → CoreError) → Reply E A → Sys A
raise f (success a) h = (ok a, h)
raise f (failure e) h = (err (f e), h)

abbrev pub attempt : {E A : Type 0} → (E → CoreError) → Sys (Reply E A) → Sys A
attempt f m = m >>= raise f

module _ ⦃os : Os⦄ where
  unfoldable pub read_to_string : Text → Sys (Reply IoError Text)
  read_to_string p h = let r = os.reads h p in (ok r, did_read p r ∷ h)

  unfoldable pub fs_write : Text → Text → Sys (Reply IoError (Unit {0}))
  fs_write p t h = let r = os.writes h p t in (ok r, did_write p t r ∷ h)

  unfoldable pub remove_dir : Text → Sys (Reply IoError (Unit {0}))
  remove_dir p h = let r = os.removes_dir h p in (ok r, did_remove_dir p r ∷ h)

  unfoldable pub remove_dir_all : Text → Sys (Reply IoError (Unit {0}))
  remove_dir_all p h = let r = os.removes_dir_all h p in (ok r, did_remove_dir_all p r ∷ h)

  unfoldable pub send_signal : ℤ → Signal → Sys (Reply Errno (Unit {0}))
  send_signal pid sig h = let r = os.kills h pid sig in (ok r, did_kill pid sig r ∷ h)

  unfoldable pub socket : Sys (Reply Errno Fd)
  socket h = let r = os.opens_socket h in (ok r, did_socket r ∷ h)

  unfoldable pub connect : Fd → Text → Sys (Reply Errno (Unit {0}))
  connect fd addr h = let r = os.connects h fd addr in (ok r, did_connect fd addr r ∷ h)

  unfoldable pub read_dir : Text → Sys (Reply IoError (List (Reply IoError DirEntry)))
  read_dir p h = let r = os.reads_dir h p in (ok r, did_read_dir p r ∷ h)

  -- Path::exists
  unfoldable pub path_exists : Text → Sys Bool
  path_exists p h = let r = os.exists h p in (ok r, did_check_exists p r ∷ h)

  unfoldable pub spawn : Text → List Text → Sys (Reply IoError (Unit {0}))
  spawn path args h = let r = os.spawns h path args in (ok r, did_spawn path args r ∷ h)

  unfoldable pub ask : (q : Request) → Sys (ReplyTo q)
  ask q h = let r = os.answers h q in (ok r, did q r ∷ h)
