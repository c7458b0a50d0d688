-- ===== src/Handshake/Release.antt =====
-- A container's program runs only after a start.
use clonebox.Prelude.{ℕ, ◌≤◌, ◌+◌, ◌≡◌, ◌⊎◌, true, refl, arith}
use clonebox.Handshake.{
  ParentAt, setting_up, binding, unfreezing, reporting, finished, ChildAt, executing, dead, Actor,
  starter, World, Step, sets_created, listens, accepts, unfreezes, reaps, sets_stopped, gives_up,
  freezes, wakes, exits, dies, reads_created, connects, turns_back, sets_running, leaves,
  changes_status, cloned, Steps, Steps_keep, Anyone,
}

-- Connections that were accepted and not yet answered with a byte.
abbrev accepted : ParentAt → ℕ
accepted unfreezing = 1
accepted _ = 0

-- Programs that run.
abbrev pub executed : ChildAt → ℕ
executed executing = 1
executed _ = 0

-- Whether the socket may listen.
abbrev MayListen : ParentAt → Type 0
MayListen setting_up = ⊥
MayListen binding = ⊥
MayListen _ = Unit {0}

-- Whether waitpid has returned.
abbrev pub HasReaped : ParentAt → Type 0
HasReaped reporting = Unit {0}
HasReaped finished = Unit {0}
HasReaped _ = ⊥

-- A connection waits, is accepted, is a byte in the pipe, or runs a program; each of these is another.
abbrev IsSound : World → Type 0
IsSound w =
    (w.pending + (accepted w.parent + (w.bytes + executed w.child)) ≤ w.connections)
    × (w.listening ≡ true → MayListen w.parent)
    × (HasReaped w.parent → w.child ≡ dead)

Step-IsSound : {a : Actor} {w x : World} → Step w a x → IsSound w → IsSound x
Step-IsSound (sets_created p q) (few, late, over) = (ground arith, ground arith, ground arith)
Step-IsSound (listens p) (few, late, over) = (ground arith, ground arith, ground arith)
Step-IsSound (accepts n p q) (few, late, over) = (ground arith, ground arith, ground arith)
Step-IsSound (unfreezes p) (few, late, over) = (ground arith, ground arith, ground arith)
Step-IsSound (reaps p q) (few, late, over) = (ground arith, ground arith, ground arith)
Step-IsSound (sets_stopped p q) (few, late, over) = (ground arith, ground arith, ground arith)
Step-IsSound (gives_up p) (few, late, over) = (ground arith, ground arith, ground arith)
Step-IsSound (freezes p) (few, late, over) = (ground arith, ground arith, ground arith)
Step-IsSound (wakes n p q) (few, late, over) = (ground arith, ground arith, ground arith)
Step-IsSound (exits p) (few, late, over) = (ground arith, ground arith, ground arith)
Step-IsSound dies (few, late, over) = (ground arith, ground arith, ground arith)
Step-IsSound (reads_created p) (few, late, over) = (ground arith, ground arith, ground arith)
Step-IsSound (connects n p q) (few, late, over) = (ground arith, ground arith, ground arith)
Step-IsSound (turns_back n p) (few, late, over) = (ground arith, ground arith, ground arith)
Step-IsSound (sets_running n p q) (few, late, over) = (ground arith, ground arith, ground arith)
Step-IsSound (leaves n p) (few, late, over) = (ground arith, ground arith, ground arith)
Step-IsSound (changes_status t p) (few, late, over) = (ground arith, ground arith, ground arith)

cloned-IsSound : IsSound cloned
cloned-IsSound = ground arith

-- The socket of create does not listen yet.
abbrev pub IsEarly : World → Type 0
IsEarly w = (w.parent ≡ setting_up) ⊎ (w.parent ≡ binding)

refused_early :
    {w x : World} → IsSound w → IsEarly w → Step w starter x → x.connections ≡ w.connections
refused_early sound early (reads_created p) = refl
refused_early (few, late, over) early (connects n p on) = absurd (ground (arith, late on, early))
refused_early sound early (turns_back n p) = refl
refused_early sound early (sets_running n p q) = refl
refused_early sound early (leaves n p) = refl

reached-IsSound : {w : World} → Steps Anyone cloned w → IsSound w
reached-IsSound steps =
    Steps_keep IsSound (λ a v y p step kept. Step-IsSound step kept) steps cloned-IsSound

-- However create, its child, calls of start and the other commands interleave from the clone on: the
-- program of the container runs only once a start that had read the state `created` has connected.
pub release : (w : World) → Steps Anyone cloned w → executed w.child ≤ w.connections
release w steps = ground (arith, reached-IsSound steps)

-- However they interleave: until create has come to its socket, which includes a time at which the state
-- is `created` already, no start connects.
pub too_early :
    (w : World)
    → Steps Anyone cloned w
    → IsEarly w
    → (x : World) → Step w starter x
    → x.connections ≡ w.connections
too_early w steps early x step = refused_early (reached-IsSound steps) early step

-- However they interleave: once create is past waitpid, the process of the container has ended.
reaped-dead : (w : World) → Steps Anyone cloned w → HasReaped w.parent → w.child ≡ dead
reaped-dead w steps over = (reached-IsSound steps).2 over
