-- ===== src/Daemon/Waiters.antt =====
-- The account of the senders: where each that was handed out is.
use mathlib.Core.List.{map-append}
use clonebox.Prelude.{
  ℕ, suc, ◌+◌, Text, ◌==◌, ◌≡◌, refl, none, some, List, [], ◌∷◌, ◌++◌, map, arith, ℤ, if◌then◌else◌,
  ltb, inl, inr, ap, Bool-cases, Option-cases,
}
use clonebox.State.{ContainerState, stopped, state_eq}
use clonebox.Event.{Event}
use clonebox.Table.{Table, lookup, modify, remove, or_insert}
use clonebox.Daemon.{
  Sender, ContainerEntry, Notice, created_sent, exit_sent, sender_dropped, Daemon, entry_senders,
  drop_entry, register_create, set_entry_state, forget_stopped, register_wait, push_exit,
  register_recovered, update_entry, update_status, Change, creates, waits, forgets, marks, recovers,
  receives, apply_change, apply_changes,
}

-- How often a sender stands in a list of them.
abbrev pub times : Sender → List Sender → ℕ
times tx [] = 0
times tx (sender ∷ senders) = times tx senders + (if sender == tx then 1 else 0)

pub times-append :
    (tx : Sender) (waiters more : List Sender)
    → times tx (waiters ++ more) ≡ times tx more + times tx waiters
times-append tx [] more = omega arith
times-append tx (sender ∷ waiters) more = omega (arith, times-append tx waiters more)

unfoldable pub waiting : Table ContainerEntry → List Sender
waiting [] = []
waiting ((j, e) ∷ m) = entry_senders e ++ waiting m

abbrev pub notice_sender : Notice → Sender
notice_sender (created_sent tx) = tx
notice_sender (exit_sent tx code) = tx
notice_sender (sender_dropped tx) = tx

abbrev pub notified : List Notice → List Sender
notified = map notice_sender

-- The senders of an entry that is there times beside those of the others.
times-modify :
    (a : ℕ) (k : Text) (f : ContainerEntry → ContainerEntry) (m : Table ContainerEntry)
    (e : ContainerEntry)
    → lookup k m ≡ some e
    → times a (waiting (modify k f m)) + times a (entry_senders e)
      ≡ times a (waiting m) + times a (entry_senders (f e))
unfolding lookup modify waiting
times-modify a k f [] e h = cc
times-modify a k f ((j, v) ∷ m) e h = grind (arith, times-append, times-modify a k f m e)

modify-absent :
    (k : Text) (f : ContainerEntry → ContainerEntry) (m : Table ContainerEntry)
    → lookup k m ≡ none
    → modify k f m ≡ m
unfolding lookup modify
modify-absent k f [] h = refl
modify-absent k f ((j, v) ∷ m) h = ground (arith, modify-absent k f m)

times-remove :
    (a : ℕ) (k : Text) (m : Table ContainerEntry) (e : ContainerEntry)
    → lookup k m ≡ some e
    → times a (waiting (remove k m)) + times a (entry_senders e) ≡ times a (waiting m)
unfolding lookup remove waiting
times-remove a k [] e h = cc
times-remove a k ((j, v) ∷ m) e h = grind (arith, times-append, times-remove a k m e)

times-or_insert_absent :
    (a : ℕ) (k : Text) (e : ContainerEntry) (m : Table ContainerEntry)
    → lookup k m ≡ none
    → times a (waiting (or_insert k e m)) ≡ times a (waiting m) + times a (entry_senders e)
unfolding lookup or_insert waiting
times-or_insert_absent a k e [] h = omega (arith, times-append a (entry_senders e) [])
times-or_insert_absent a k e ((j, v) ∷ m) h =
    grind (arith, times-append, times-or_insert_absent a k e m)

or_insert-present :
    (k : Text) (e v : ContainerEntry) (m : Table ContainerEntry)
    → lookup k m ≡ some e
    → or_insert k v m ≡ m
unfolding lookup or_insert
or_insert-present k e v [] h = cc
or_insert-present k e v ((j, w) ∷ m) h = ground (arith, or_insert-present k e v m)

notified-append : (xs ys : List Notice) → notified (xs ++ ys) ≡ notified xs ++ notified ys
notified-append xs ys = map-append notice_sender xs ys

notified-drop : (txs : List Sender) → notified (map sender_dropped txs) ≡ txs
notified-drop [] = refl
notified-drop (tx ∷ txs) = ap (◌∷◌ tx) (notified-drop txs)

notified-exit : (txs : List Sender) (code : ℤ) → notified (map (λ tx. exit_sent tx code) txs) ≡ txs
notified-exit [] code = refl
notified-exit (tx ∷ txs) code = ap (◌∷◌ tx) (notified-exit txs code)

-- How often a sender is in the daemon, waiting or used up.
abbrev pub uses : ℕ → Daemon → ℕ
uses a d = times a (waiting d.containers) + times a (notified d.notices)

-- Each sender that was handed out is in one place, and no other number is anywhere.
pub record IsAccounted (d : Daemon) : Type 0 where
  pub once : (a : ℕ) → uses a d ≡ (if ltb a d.next_sender then 1 else 0)

pub update_entry-times :
    (a : ℕ) (event : Event) (e : ContainerEntry)
    → times a (entry_senders (update_entry event e).0) + times a (notified (update_entry event e).1)
      ≡ times a (entry_senders e)
unfolding update_entry
update_entry-times a event e = grind (arith, notified-exit, times-append, notified-append)

uses-update_status :
    (a : ℕ) (event : Event) (d : Daemon) → uses a (update_status event d) ≡ uses a d
unfolding update_status
uses-update_status a event d = elim (Option-cases (lookup event.id d.containers)) [
  | inl e ↦ rw (e, update_status)
  | inr (entry, e) ↦
      rw (e, update_status)
        (omega (
          arith,
          times-modify a event.id (λ x. (update_entry event x).0) d.containers entry e,
          update_entry-times a event entry,
          ap (times a) (notified-append (update_entry event entry).1 d.notices),
          times-append a (notified (update_entry event entry).1) (notified d.notices),
        ))
]

uses-register_create :
    (a : ℕ) (id : Text) (d : Daemon)
    → uses a (register_create id d).1 ≡ uses a d + (if d.next_sender == a then 1 else 0)
unfolding register_create
uses-register_create a id d = elim (Option-cases (lookup id d.containers)) [
  | inl e ↦ rw (e, register_create) (omega (arith, times-or_insert_absent a id _ d.containers e))
  | inr (entry, e) ↦
      rw (e, register_create) (rw (or_insert-present id entry _ d.containers e) (omega arith))
]

times-push_exit :
    (a : ℕ) (tx : Sender) (e : ContainerEntry)
    → times a (entry_senders (push_exit tx e))
      ≡ times a (entry_senders e) + (if tx == a then 1 else 0)
times-push_exit a tx e = grind (arith, times-append)

uses-register_wait :
    (a : ℕ) (id : Text) (d : Daemon)
    → uses a (register_wait id d).1 ≡ uses a d + (if d.next_sender == a then 1 else 0)
unfolding register_wait
uses-register_wait a id d = elim (Option-cases (lookup id d.containers)) [
  | inl e ↦ rw (e, register_wait) (omega arith)
  | inr (entry, e) ↦
      rw (e, register_wait)
        (omega (
          arith,
          times-modify a id (push_exit d.next_sender) d.containers entry e,
          times-push_exit a d.next_sender entry,
        ))
]

uses-forget_stopped : (a : ℕ) (id : Text) (d : Daemon) → uses a (forget_stopped id d) ≡ uses a d
unfolding forget_stopped
uses-forget_stopped a id d = elim (Option-cases (lookup id d.containers)) [
  | inl e ↦ rw (e, forget_stopped)
  | inr (entry, e) ↦
      rw (e, forget_stopped)
        (elim (Bool-cases (state_eq entry.state stopped)) [
          | inl gone ↦ rw gone (
              omega (
                arith,
                times-remove a id d.containers entry e,
                ap (times a) (notified-append (drop_entry (some entry)) d.notices),
                ap (times a) (notified-drop (entry_senders entry)),
                times-append a (notified (drop_entry (some entry))) (notified d.notices),
              ))
          | inr stays ↦ rw stays
        ])
]

uses-set_entry_state :
    (a : ℕ) (id : Text) (state : ContainerState) (d : Daemon)
    → uses a (set_entry_state id state d) ≡ uses a d
unfolding set_entry_state
uses-set_entry_state a id state d = elim (Option-cases (lookup id d.containers)) [
  | inl e ↦ rw (modify-absent id _ d.containers e)
  | inr (entry, e) ↦
      omega (arith, times-modify a id (λ x. record x { state = state }) d.containers entry e)
]

uses-register_recovered :
    (a : ℕ) (id : Text) (state : ContainerState) (d : Daemon)
    → uses a (register_recovered id state d) ≡ uses a d
unfolding register_recovered
uses-register_recovered a id state d = elim (Option-cases (lookup id d.containers)) [
  | inl e ↦ omega (arith, times-or_insert_absent a id _ d.containers e)
  | inr (entry, e) ↦ rw (or_insert-present id entry _ d.containers e)
]

next_sender-register_create :
    (id : Text) (d : Daemon) → (register_create id d).1.next_sender ≡ suc d.next_sender
unfolding register_create
next_sender-register_create id d = refl

next_sender-register_wait :
    (id : Text) (d : Daemon) → (register_wait id d).1.next_sender ≡ suc d.next_sender
unfolding register_wait
next_sender-register_wait id d = ground arith

next_sender-forget_stopped :
    (id : Text) (d : Daemon) → (forget_stopped id d).next_sender ≡ d.next_sender
unfolding forget_stopped
next_sender-forget_stopped id d = ground arith

next_sender-update_status :
    (event : Event) (d : Daemon) → (update_status event d).next_sender ≡ d.next_sender
unfolding update_status
next_sender-update_status event d = ground arith

-- Every sequence of changes to the map, events and recovery included, keeps the account: if it holds at
-- first, then each sender that was handed out is waiting in exactly one place, or has given its
-- receiver exactly one notice, and no other sender is anywhere.
pub apply_changes-IsAccounted :
    (cs : List Change) (d : Daemon) → IsAccounted d → IsAccounted (apply_changes cs d)
unfolding apply_changes apply_change
apply_changes-IsAccounted [] d v = v
apply_changes-IsAccounted (c ∷ cs) d v = apply_changes-IsAccounted cs (apply_change c d) (step c)
  where
    step : (c : Change) → IsAccounted (apply_change c d)
    step (creates id) = record {
      once = λ a.
          ground (arith, uses-register_create a id d, next_sender-register_create id d, v.once a);
    }
    step (waits id) = record {
      once =
          λ a. ground (arith, uses-register_wait a id d, next_sender-register_wait id d, v.once a);
    }
    step (forgets id) = record {
      once = λ a.
          ground (arith, uses-forget_stopped a id d, next_sender-forget_stopped id d, v.once a);
    }
    step (marks id state) = record {
      once = λ a.
          unfold set_entry_state in ground (arith, uses-set_entry_state a id state d, v.once a);
    }
    step (recovers id state) = record {
      once = λ a.
          unfold register_recovered in
          ground (arith, uses-register_recovered a id state d, v.once a);
    }
    step (receives event) = record {
      once = λ a.
          ground (arith, uses-update_status a event d, next_sender-update_status event d, v.once a);
    }
