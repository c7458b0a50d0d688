-- ===== src/Container/Create/Reports.antt =====
-- What `create` tells the daemon.
use clonebox.Prelude.{
  Text, ◌≡◌, sym, ap, ◌==◌, Bool, false, some, List, [], ◌∷◌, ◌++◌, arith, if◌then◌else◌, text_eq,
  text_eq_refl, ℤ, pos,
}
use mathlib.Core.Path.{subst}
use clonebox.Container.Create.{notify}
use clonebox.State.{State, ContainerState}
use clonebox.State.File.{write_state_file, update_state, read_state_file}
use clonebox.Event.{Event}
use clonebox.Event.Sending.{send_event}
use clonebox.Os.{
  Os, success, failure, Fd, Sys, History, ok, ◌>>=◌, did, write_all, connect_stream, WaitStatus,
  exited_with,
}
use clonebox.Os.Returns.{Returns, >>=-Returns}
use clonebox.Os.Loud.{loud, IsQuiet}

-- Whether the last call opened this stream, to this socket.
abbrev pub opened : Text → Fd → History → Bool
opened sp fd (did (connect_stream p) (success sk) ∷ h) = if text_eq p sp then sk == fd else false
opened sp fd _ = false

-- The texts that were written to a stream just opened to a socket, newest first, among loud calls.
unfoldable pub told_loudly : Text → History → List Text
told_loudly sp [] = []
told_loudly sp (did (write_all fd t) (success _) ∷ h) =
    if opened sp fd h then t ∷ told_loudly sp h else told_loudly sp h
told_loudly sp (_ ∷ h) = told_loudly sp h

-- What the daemon was told that listens on a socket.
unfoldable pub told : Text → History → List Text
unfolding told_loudly
told sp h = told_loudly sp (loud h)

-- The line of an event.
abbrev pub line : ⦃os : Os⦄ → Event → Text
line ⦃os⦄ e = elim (os.event_to_json e) [ success json ↦ json ++ (b'\n' ∷ []) | failure x ↦ [] ]

-- What a daemon is to hear: the state of a container, and a code.
abbrev pub news : Text → ContainerState → ℤ → Event
news id state code = record { id = id; state = state; exit_code = some code }

-- The code that waitpid reported: 0 for a child that did not exit by itself.
abbrev pub reported_code : WaitStatus → ℤ
reported_code (exited_with pid i) = i
reported_code _ = pos 0

abbrev pub Says : Text → List Text → List Text → Type 0
Says t before after = after ≡ t ∷ before

abbrev pub SaysNothing : List Text → List Text → Type 0
SaysNothing before after = after ≡ before

module _ ⦃os : Os⦄ (sp : Text) where
  pub told-IsQuiet :
      {A : Type 0} (m : Sys A) → IsQuiet m → (h : History) → told sp (m h).1 ≡ told sp h
  unfolding told
  told-IsQuiet m quiet h = ap (told_loudly sp) (quiet h)

  pub send_event-Tells :
      (e : Event) (h : History)
      → (send_event sp e h).0 ≡ ok tt
      → told sp (send_event sp e h).1 ≡ line e ∷ told sp h
  unfolding send_event told loud told_loudly
  send_event-Tells e h done = ground (arith, text_eq_refl sp)

  pub told-write_state_file :
      (id : Text) (s : State) (h : History) → told sp (write_state_file id s h).1 ≡ told sp h
  unfolding write_state_file told loud told_loudly
  told-write_state_file id s h = ground arith

  told-read_state_file : (id : Text) (h : History) → told sp (read_state_file id h).1 ≡ told sp h
  unfolding read_state_file told loud told_loudly
  told-read_state_file id h = ground arith

  pub told-update_state :
      (id : Text) (f : State → State) (h : History) → told sp (update_state id f h).1 ≡ told sp h
  unfolding update_state
  told-update_state id f h = grind (arith, told-read_state_file, told-write_state_file)

  -- What a step says if it returns, as a relation between what was told sp before and after.
  abbrev pub Tells : (List Text → List Text → Type 0) → {A : Type 0} → Sys A → Type 0
  Tells P m = Returns (λ h h1. P (told sp h) (told sp h1)) m

  pub >>=-Tells :
      {A B : Type 0} (P Q R : List Text → List Text → Type 0)
      (joins : (x y z : List Text) → P x y → Q y z → R x z) (m : Sys A) (k : A → Sys B)
      → Tells P m
      → ((a : A) → Tells Q (k a))
      → Tells R (m >>= k)
  >>=-Tells P Q R joins =
      >>=-Returns {P = λ h h1. P (told sp h) (told sp h1)} {Q = λ h h1. Q (told sp h) (told sp h1)}
        {R = λ h h1. R (told sp h) (told sp h1)}
        (λ h h1 h2. joins (told sp h) (told sp h1) (told sp h2))

  module _ {A B : Type 0} (P : List Text → List Text → Type 0) where
    -- A quiet step may stand in front.
    pub quiet_first :
        (m : Sys A) (k : A → Sys B) → IsQuiet m → ((a : A) → Tells P (k a)) → Tells P (m >>= k)
    quiet_first m k quiet =
        >>=-Tells SaysNothing P P (λ x y z p q. subst (λ l. P l z) p q) m k
          (λ h a done. told-IsQuiet m quiet h)

    -- A step that says nothing may stand behind.
    pub quiet_last :
        (m : Sys A) (k : A → Sys B)
        → Tells P m
        → ((a : A) → Tells SaysNothing (k a))
        → Tells P (m >>= k)
    quiet_last = >>=-Tells P SaysNothing P (λ x y z p q. subst (λ l. P x l) (sym q) p)

  pub notify-Tells : (e : Event) → Tells (Says (line e)) (notify (some sp) e)
  unfolding notify
  notify-Tells e h tt done = send_event-Tells e h done
