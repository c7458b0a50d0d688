-- ===== src/Lifecycle.antt =====
-- The contract of the container operations, apart from files and processes: the state machine that
-- README.md draws, as a partial function on the state for each command, and as a step relation.
use clonebox.Prelude.{◌≡◌, ◌≢◌, ◌⊎◌, arith, Bool, true, false, Option, none, some, ℤ, if◌then◌else◌}
use clonebox.State.{ContainerState, creating, created, running, stopped, paused, state_eq, State}

pub data Command : Type 0 where
  starts kills pauses resumes : Command

-- A live container, one that `kill` may signal, has its pid on record.
abbrev pub killable : ContainerState → Option ℤ → Bool
killable created (some _) = true
killable running (some _) = true
killable _ _ = false

-- The next state, or `none` where the command is refused.
unfoldable pub next : Command → State → Option State
next starts s = if state_eq s.status created then some (record s { status = running }) else none
next kills s =
    if killable s.status s.pid then some (record s { status = stopped; pid = none }) else none
next pauses s = if state_eq s.status running then some (record s { status = paused }) else none
next resumes s = if state_eq s.status paused then some (record s { status = running }) else none

-- The arrows of the diagram that the commands follow.
pub data Arrow (a b : ContainerState) : Type 0 where
  starting : a ≡ created → b ≡ running → Arrow a b
  stopping : (a ≡ created) ⊎ (a ≡ running) → b ≡ stopped → Arrow a b
  pausing : a ≡ running → b ≡ paused → Arrow a b
  resuming : a ≡ paused → b ≡ running → Arrow a b

-- A sequence of arrows.
pub data Route : ContainerState → ContainerState → Type 0 where
  here : {a : ContainerState} → Route a a
  along : {a b c : ContainerState} → Route a b → Arrow b c → Route a c

-- A pid is on record exactly while there is a process to signal.
abbrev pub PidFits : ContainerState → Option ℤ → Type 0
PidFits creating pid = pid ≡ none
PidFits stopped pid = pid ≡ none
PidFits _ pid = pid ≢ none

pub next-Arrow : (c : Command) (s t : State) → next c s ≡ some t → Arrow s.status t.status
unfolding next
next-Arrow starts s t e = starting (ground arith) (ground arith)
next-Arrow kills s t e = stopping (ground arith) (ground arith)
next-Arrow pauses s t e = pausing (ground arith) (ground arith)
next-Arrow resumes s t e = resuming (ground arith) (ground arith)

pub next-PidFits :
    (c : Command) (s t : State)
    → next c s ≡ some t
    → PidFits s.status s.pid
    → PidFits t.status t.pid
unfolding next
next-PidFits starts s t e f = ground arith
next-PidFits kills s t e f = ground arith
next-PidFits pauses s t e f = ground arith
next-PidFits resumes s t e f = ground arith

-- What no command changes.
pub next_keeps :
    (c : Command) (s t : State)
    → next c s ≡ some t
    → (t.id ≡ s.id)
      × (t.bundle ≡ s.bundle)
      × (t.oci_version ≡ s.oci_version)
      × (t.annotations ≡ s.annotations)
unfolding next
next_keeps starts s t e = ground arith
next_keeps kills s t e = ground arith
next_keeps pauses s t e = ground arith
next_keeps resumes s t e = ground arith
