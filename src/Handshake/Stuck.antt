-- ===== src/Handshake/Stuck.antt =====
-- What stays as it is between create, its child and start.
use clonebox.Prelude.{◌≡◌, ◌≢◌, ◌⊎◌, some, arith}
use clonebox.State.{created}
use clonebox.Handshake.{
  accepting, failed, frozen, executing, Actor, killer, World, Step, sets_created, listens, accepts,
  unfreezes, reaps, sets_stopped, gives_up, freezes, wakes, exits, dies, reads_created, connects,
  turns_back, sets_running, leaves, changes_status, Steps, Steps_keep, Anyone,
}

-- create has returned an error and no byte is in the pipe.
abbrev pub IsAbandoned : World → Type 0
IsAbandoned w = (w.parent ≡ failed) × (w.bytes ≡ 0)

-- And its child has not gone on.
IsHeld : World → Type 0
IsHeld w = IsAbandoned w × (w.child ≢ executing)

IsAsleep : World → Type 0
IsAsleep w = IsAbandoned w × (w.child ≡ frozen)

Step-IsHeld : {a : Actor} {w x : World} → Step w a x → IsHeld w → IsHeld x
unfolding IsHeld
Step-IsHeld (sets_created p q) ((f, e), idle) = ((ground arith, ground arith), ground arith)
Step-IsHeld (listens p) ((f, e), idle) = ((ground arith, ground arith), ground arith)
Step-IsHeld (accepts n p q) ((f, e), idle) = ((ground arith, ground arith), ground arith)
Step-IsHeld (unfreezes p) ((f, e), idle) = ((ground arith, ground arith), ground arith)
Step-IsHeld (reaps p q) ((f, e), idle) = ((ground arith, ground arith), ground arith)
Step-IsHeld (sets_stopped p q) ((f, e), idle) = ((ground arith, ground arith), ground arith)
Step-IsHeld (gives_up p) ((f, e), idle) = ((ground arith, ground arith), ground arith)
Step-IsHeld (freezes p) ((f, e), idle) = ((ground arith, ground arith), ground arith)
Step-IsHeld (wakes n p q) ((f, e), idle) = ((ground arith, ground arith), ground arith)
Step-IsHeld (exits p) ((f, e), idle) = ((ground arith, ground arith), ground arith)
Step-IsHeld dies ((f, e), idle) = ((ground arith, ground arith), ground arith)
Step-IsHeld (reads_created p) ((f, e), idle) = ((ground arith, ground arith), ground arith)
Step-IsHeld (connects n p q) ((f, e), idle) = ((ground arith, ground arith), ground arith)
Step-IsHeld (turns_back n p) ((f, e), idle) = ((ground arith, ground arith), ground arith)
Step-IsHeld (sets_running n p q) ((f, e), idle) = ((ground arith, ground arith), ground arith)
Step-IsHeld (leaves n p) ((f, e), idle) = ((ground arith, ground arith), ground arith)
Step-IsHeld (changes_status t p) ((f, e), idle) = ((ground arith, ground arith), ground arith)

-- Anyone but the sender of a signal.
abbrev pub Unkilled : Actor → Type 0
Unkilled killer = ⊥
Unkilled _ = Unit {0}

Step-IsAsleep : {a : Actor} {w x : World} → Unkilled a → Step w a x → IsAsleep w → IsAsleep x
unfolding IsAsleep
Step-IsAsleep u (sets_created p q) ((f, e), is) = ((ground arith, ground arith), ground arith)
Step-IsAsleep u (listens p) ((f, e), is) = ((ground arith, ground arith), ground arith)
Step-IsAsleep u (accepts n p q) ((f, e), is) = ((ground arith, ground arith), ground arith)
Step-IsAsleep u (unfreezes p) ((f, e), is) = ((ground arith, ground arith), ground arith)
Step-IsAsleep u (reaps p q) ((f, e), is) = ((ground arith, ground arith), ground arith)
Step-IsAsleep u (sets_stopped p q) ((f, e), is) = ((ground arith, ground arith), ground arith)
Step-IsAsleep u (gives_up p) ((f, e), is) = ((ground arith, ground arith), ground arith)
Step-IsAsleep u (freezes p) ((f, e), is) = ((ground arith, ground arith), ground arith)
Step-IsAsleep u (wakes n p q) ((f, e), is) = ((ground arith, ground arith), ground arith)
Step-IsAsleep u (exits p) ((f, e), is) = ((ground arith, ground arith), ground arith)
Step-IsAsleep u dies ((f, e), is) = absurd u
Step-IsAsleep u (reads_created p) ((f, e), is) = ((ground arith, ground arith), ground arith)
Step-IsAsleep u (connects n p q) ((f, e), is) = ((ground arith, ground arith), ground arith)
Step-IsAsleep u (turns_back n p) ((f, e), is) = ((ground arith, ground arith), ground arith)
Step-IsAsleep u (sets_running n p q) ((f, e), is) = ((ground arith, ground arith), ground arith)
Step-IsAsleep u (leaves n p) ((f, e), is) = ((ground arith, ground arith), ground arith)
Step-IsAsleep u (changes_status t p) ((f, e), is) = ((ground arith, ground arith), ground arith)

-- `create` has got as far as accept4, or failed there, and no start is on its way.
abbrev pub IsUnattended : World → Type 0
IsUnattended w =
    ((w.parent ≡ accepting) ⊎ (w.parent ≡ failed))
    × (w.status ≢ some created)
    × (w.connecting ≡ 0)
    × (w.pending ≡ 0)

Step-IsUnattended : {a : Actor} {w x : World} → Step w a x → IsUnattended w → IsUnattended x
Step-IsUnattended (sets_created p q) (at, not_created, c, d) = ground arith
Step-IsUnattended (listens p) (at, not_created, c, d) = ground arith
Step-IsUnattended (accepts n p q) (at, not_created, c, d) = ground arith
Step-IsUnattended (unfreezes p) (at, not_created, c, d) = ground arith
Step-IsUnattended (reaps p q) (at, not_created, c, d) = ground arith
Step-IsUnattended (sets_stopped p q) (at, not_created, c, d) = ground arith
Step-IsUnattended (gives_up p) (at, not_created, c, d) = ground arith
Step-IsUnattended (freezes p) (at, not_created, c, d) = ground arith
Step-IsUnattended (wakes n p q) (at, not_created, c, d) = ground arith
Step-IsUnattended (exits p) (at, not_created, c, d) = ground arith
Step-IsUnattended dies (at, not_created, c, d) = ground arith
Step-IsUnattended (reads_created p) (at, not_created, c, d) = ground arith
Step-IsUnattended (connects n p q) (at, not_created, c, d) = ground arith
Step-IsUnattended (turns_back n p) (at, not_created, c, d) = ground arith
Step-IsUnattended (sets_running n p q) (at, not_created, c, d) = ground arith
Step-IsUnattended (leaves n p) (at, not_created, c, d) = ground arith
Step-IsUnattended (changes_status t p) (at, not_created, c, d) = ground arith

-- Where create has returned an error before it wrote to the pipe, the program of the container never
-- runs, whatever the child, calls of start, signals and the other commands do after.
pub abandoned :
    (w : World)
    → IsAbandoned w
    → w.child ≢ executing
    → (x : World) → Steps Anyone w x
    → x.child ≢ executing
unfolding IsHeld
abandoned w left idle x steps =
    (Steps_keep IsHeld (λ a v y p step kept. Step-IsHeld step kept) steps (left, idle)).1

-- And a child that waits in freeze_child waits there for good, unless a signal ends it.
abandoned_asleep :
    (w : World)
    → IsAbandoned w
    → w.child ≡ frozen
    → (x : World) → Steps Unkilled w x
    → x.child ≡ frozen
unfolding IsAsleep
abandoned_asleep w left asleep x steps =
    (Steps_keep IsAsleep (λ a v y p step kept. Step-IsAsleep p step kept) steps (left, asleep)).1

-- Where create waits in accept4 for a start, no start is on its way and the state is no longer
-- `created`, as after a kill: whatever the child, later calls of start and the other commands do,
-- create stays in accept4 or fails there, so it never comes to waitpid, to its last event and to the
-- state `stopped`.
pub unattended :
    (w : World)
    → IsUnattended w
    → (x : World) → Steps Anyone w x
    → (x.parent ≡ accepting) ⊎ (x.parent ≡ failed)
unattended w alone x steps =
    (Steps_keep IsUnattended (λ a v y p step kept. Step-IsUnattended step kept) steps alone).0
