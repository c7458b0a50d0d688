-- ===== src/Daemon/Waits.antt =====
-- A request that waits for the exit of a container, from its registration to its answer.
use clonebox.Prelude.{
  ◌≤◌, Text, ◌==◌, ◌≡◌, refl, Bool, true, false, not, ◌&&◌, ◌||◌, Option, none, some, List, [], ◌∷◌,
  ◌++◌, map, arith, ℤ, pos, unwrap_or, text_eq, text_eq_iff, text_eq_refl, Option-cases, inl, inr,
}
use clonebox.State.{stopped, state_eq}
use clonebox.Event.{Event}
use clonebox.Table.{Table, lookup, remove, lookup-modify, lookup-or_insert}
use clonebox.Daemon.{
  Sender, ContainerEntry, Notice, exit_sent, Daemon, entry_senders, register_create,
  set_entry_state, forget_stopped, register_wait, push_exit, register_recovered, update_entry,
  update_status, Change, creates, waits, forgets, marks, recovers, receives, apply_change,
  apply_changes,
}
use clonebox.Daemon.Waiters.{
  times, times-append, waiting, uses, IsAccounted, apply_changes-IsAccounted,
}
use clonebox.Daemon.Waking.{update_status_known, code, wakeup}

-- What neither removes a container nor reports that it stopped.
abbrev pub spares : Text → Change → Bool
spares id (forgets j) = not (text_eq j id)
spares id (receives event) = not (text_eq event.id id && state_eq event.state stopped)
spares id _ = true

abbrev pub spared : Text → List Change → Bool
spared id [] = true
spared id (c ∷ cs) = spares id c && spared id cs

abbrev has : Sender → List Sender → Bool
has tx [] = false
has tx (x ∷ xs) = (x == tx) || has tx xs

has-append : (tx : Sender) (xs ys : List Sender) → has tx (xs ++ ys) ≡ (has tx xs || has tx ys)
has-append tx [] ys = refl
has-append tx (x ∷ xs) ys = ground (arith, has-append tx xs ys)

times-has : (tx : Sender) (xs : List Sender) → has tx xs ≡ true → 1 ≤ times tx xs
times-has tx [] h = cc
times-has tx (x ∷ xs) h = ground (arith, times-has tx xs)

abbrev in_line : Sender → Option ContainerEntry → Bool
in_line tx none = false
in_line tx (some e) = has tx e.exit_waiter

lookup-remove_ne :
    (k j : Text) (m : Table ContainerEntry)
    → text_eq k j ≡ false
    → lookup j (remove k m) ≡ lookup j m
unfolding lookup remove
lookup-remove_ne k j [] h = refl
lookup-remove_ne k j ((i, v) ∷ m) h =
    ground (arith, lookup-remove_ne k j m h, text_eq_iff i k, text_eq_iff i j, text_eq_iff k j)

times-lookup :
    (tx : Sender) (id : Text) (m : Table ContainerEntry) (e : ContainerEntry)
    → lookup id m ≡ some e
    → times tx (entry_senders e) ≤ times tx (waiting m)
unfolding lookup waiting
times-lookup tx id [] e h = cc
times-lookup tx id ((j, v) ∷ m) e h = grind (arith, times-append, times-lookup tx id m e)

-- A sender stays in line.
apply_change-in_line :
    (tx : Sender) (id : Text) (c : Change) (d : Daemon)
    → spares id c ≡ true
    → in_line tx (lookup id d.containers) ≡ true
    → in_line tx (lookup id (apply_change c d).containers) ≡ true
unfolding apply_change
apply_change-in_line tx id (creates j) d s h =
    unfold register_create in grind (arith, lookup-or_insert)
apply_change-in_line tx id (waits j) d s h =
    unfold register_wait in grind (arith, lookup-modify, has-append)
apply_change-in_line tx id (forgets j) d s h =
    unfold forget_stopped in ground (arith, lookup-remove_ne j id d.containers)
apply_change-in_line tx id (marks j state) d s h =
    unfold set_entry_state in grind (arith, lookup-modify)
apply_change-in_line tx id (recovers j state) d s h =
    unfold register_recovered in grind (arith, lookup-or_insert)
apply_change-in_line tx id (receives event) d s h =
    unfold update_status update_entry in grind (arith, lookup-modify, text_eq_iff event.id id)

apply_changes-in_line :
    (tx : Sender) (id : Text) (cs : List Change) (d : Daemon)
    → spared id cs ≡ true
    → in_line tx (lookup id d.containers) ≡ true
    → in_line tx (lookup id (apply_changes cs d).containers) ≡ true
unfolding apply_changes
apply_changes-in_line tx id [] d s h = h
apply_changes-in_line tx id (c ∷ cs) d s h =
    apply_changes-in_line tx id cs (apply_change c d) (ground (arith, s))
      (apply_change-in_line tx id c d (ground (arith, s)) h)

wakeup-exits :
    (tx : Sender) (c : ℤ) (xs : List Sender) (ns : List Notice)
    → has tx xs ≡ true
    → wakeup tx (map (λ x. exit_sent x c) xs ++ ns) ≡ some (code c)
unfolding wakeup
wakeup-exits tx c [] ns h = cc
wakeup-exits tx c (x ∷ xs) ns h = ground (arith, wakeup-exits tx c xs ns)

register_wait-in_line :
    (id : Text) (d : Daemon) (e : ContainerEntry)
    → lookup id d.containers ≡ some e
    → in_line d.next_sender (lookup id (register_wait id d).1.containers) ≡ true
unfolding register_wait
register_wait-in_line id d e h = ground (
  arith,
  text_eq_refl id,
  lookup-modify id id (push_exit d.next_sender) d.containers,
  has-append d.next_sender e.exit_waiter (d.next_sender ∷ []),
)

-- The event that answers: a sender in line, that is nowhere else, gets the code.
stopped_answers :
    (tx : Sender) (event : Event) (d : Daemon) (e : ContainerEntry)
    → uses tx d ≤ 1
    → event.state ≡ stopped
    → lookup event.id d.containers ≡ some e
    → has tx e.exit_waiter ≡ true
    → wakeup tx (update_status event d).notices ≡ some (code (unwrap_or event.exit_code (pos 0)))
stopped_answers tx event d e once stops known line =
    let (_, sent) = update_status_known event d e known in
    let least = times-has tx e.exit_waiter line in
    let below = times-lookup tx event.id d.containers e known in
    let answer = wakeup-exits tx (unwrap_or event.exit_code (pos 0)) e.exit_waiter d.notices line in
    rw sent (unfold wakeup in ground (arith, once, stops, least, below, answer))

used_once :
    (id : Text) (cs : List Change) (d : Daemon)
    → IsAccounted d
    → uses d.next_sender (apply_changes cs (register_wait id d).1) ≤ 1
used_once id cs d v =
    let v' = apply_changes-IsAccounted (waits id ∷ cs) d v in
    unfold apply_changes apply_change in ground (arith, v'.once d.next_sender)

-- A request to wait for a known container gets the exit code of the first event that reports the
-- container as stopped, 0 if that has none, whatever other changes come in between, as long as none of
-- them deletes the container; every sender has to be accounted for at first.
pub wait_answered :
    (id : Text) (cs : List Change) (event : Event) (d : Daemon) (e : ContainerEntry)
    → IsAccounted d
    → lookup id d.containers ≡ some e
    → spared id cs ≡ true
    → event.id ≡ id
    → event.state ≡ stopped
    → ((register_wait id d).0 ≡ some d.next_sender)
      × (wakeup d.next_sender
            (update_status event (apply_changes cs (register_wait id d).1)).notices
          ≡ some (code (unwrap_or event.exit_code (pos 0))))
wait_answered id cs event d e v known s same stops =
    let tx = d.next_sender in
    let d1 = (register_wait id d).1 in
    let line = apply_changes-in_line tx id cs d1 s (register_wait-in_line id d e known) in
    (
      unfold register_wait in ground (arith, known),
      elim (Option-cases (lookup id (apply_changes cs d1).containers)) [
        | inl gone ↦ absurd (ground (arith, line, gone))
        | inr (e2, found) ↦
            stopped_answers tx event (apply_changes cs d1) e2 (used_once id cs d v) stops
              (rw same found) (ground (arith, line, found))
      ],
    )
