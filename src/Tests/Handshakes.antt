-- ===== src/Tests/Handshakes.antt =====
-- Handshake.antt: a start that releases its container, one that comes too early, a kill before any
-- start, and a failed create.
use clonebox.Prelude.{
  Text, codes, ◌≡◌, ◌≢◌, ◌≤◌, ◌⊎◌, refl, inl, inr, true, some, none, [], ◌∷◌, pos, arith,
}
use clonebox.Errors.{EventError, other_io}
use clonebox.State.{created, creating, stopped, set_created}
use clonebox.State.File.{update_state}
use clonebox.Os.{Os, Request, ReplyTo, connect_stream, failure, Sys, ◌>>=◌}
use clonebox.Runtime.{Runtime}
use clonebox.Container.Create.{run_child}
use clonebox.Handshake.{
  World, accepting, waiting, failed, frozen, executing, dead, sets_created, listens, accepts,
  turns_back, binding, unfreezes, freezes, wakes, reads_created, connects, changes_status, cloned,
  Steps, here, further, Anyone,
}
use clonebox.Handshake.Release.{executed, release, too_early}
use clonebox.Handshake.Stuck.{abandoned, unattended}
use clonebox.Handshake.Marks.{
  Goes, writes_state, binds, listens_on, accepts_one, writes_byte, reaps_child,
}
use clonebox.Handshake.Calls.{run_child-Goes}
use clonebox.Tests.World.{box, machine, granted}

-- A start has connected, and create waits in accept4.
abbrev met : World
met = record cloned {
  status = some created;
  listening = true;
  pending = 1;
  parent = accepting;
  child = frozen;
  setting = 1;
  connections = 1;
}

to_met : Steps Anyone cloned met
to_met =
    further
      (further
        (further
          (further (further here tt (freezes refl)) tt (sets_created refl (λ p. ground (arith, p))))
          tt (listens refl))
        tt (reads_created refl))
      tt (connects 0 refl refl)

abbrev released : World
released = record met { pending = 0; parent = waiting; child = executing }

to_released : Steps Anyone cloned released
to_released =
    further (further (further to_met tt (accepts 0 refl refl)) tt (unfreezes refl)) tt
      (wakes 0 refl refl)

release_example : executed executing ≤ 1
release_example = release released to_released

-- A start has read the state before create has its socket.
abbrev hasty : World
hasty = record cloned { status = some created; parent = binding; child = frozen; connecting = 1 }

to_hasty : Steps Anyone cloned hasty
to_hasty =
    further
      (further (further here tt (freezes refl)) tt (sets_created refl (λ p. ground (arith, p)))) tt
      (reads_created refl)

too_early_example : 0 ≡ hasty.connections
too_early_example =
    too_early hasty to_hasty (inr refl) (record hasty { connecting = 0 }) (turns_back 0 refl)

-- create has failed while its child waits.
abbrev left_over : World
left_over = record cloned { parent = failed; child = frozen }

abandoned_example : frozen ≢ executing
abandoned_example =
    abandoned left_over (refl, refl) (λ p. ground (arith, p))
      (record left_over { status = some stopped })
      (further here tt (changes_status (some stopped) (λ p. ground (arith, p))))

-- A container that was killed before any start.
abbrev killed : World
killed = record cloned { status = some stopped; listening = true; parent = accepting; child = dead }

unattended_example : (accepting ≡ accepting) ⊎ (accepting ≡ failed)
unattended_example =
    unattended killed (inl refl, (λ p. ground (arith, p)), refl, refl)
      (record killed { status = none })
      (further here tt (changes_status none (λ p. ground (arith, p))))

instance abbrev world : Os
world = machine (box creating none)

abbrev runtime : Runtime
runtime = record { child_end = some 7; parent_end = some 8; unix_sock = none }

abbrev id : Text
id = codes "box"

abbrev sp : Text
sp = codes "/run/clonebox/event.sk"

abbrev tail : Sys (Unit {0})
tail = update_state id (set_created (pos 42)) >>= λ _. run_child id (some sp) runtime (pos 42) 5

run_child-Goes_example :
    Goes id
      (writes_state ∷ binds ∷ listens_on ∷ accepts_one ∷ writes_byte ∷ reaps_child ∷ writes_state
        ∷ [])
      (tail []).0
      []
      (tail []).1
run_child-Goes_example = run_child-Goes id sp runtime (pos 42) 8 5 [] refl

-- A machine on which no daemon listens.
abbrev unanswered : (q : Request) → ReplyTo q
unanswered (connect_stream p) = failure (other_io 111)
unanswered q = granted q

abbrev lonely : Os
lonely = record world { answers = λ h q. unanswered q }

abbrev lost : EventError
lost = EventError.connect_failure (other_io 111) sp
