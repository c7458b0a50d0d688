-- ===== src/Tests/Containers.antt =====
-- Container.antt on one container, on a machine where every call works.
use clonebox.Prelude.{
  Text, codes, ◌≡◌, ◌≢◌, ◌⊎◌, inl, refl, false, none, some, List, [], ◌∷◌, arith, pos, sym, text_eq,
}
use mathlib.Core.Path.{subst}
use clonebox.State.{State, created, running, get_state_path}
use clonebox.State.File.{read_state_file}
use clonebox.Os.{Os, did_read, success, ok, err}
use clonebox.Os.Disk.{Disk, stored, content}
use clonebox.Container.{delete}
use clonebox.Container.Commands.{execute}
use clonebox.Container.Refinement.{Follows, execute-Follows}
use clonebox.Container.Refusal.{refusal, execute_refused}
use clonebox.Container.Progress.{execute_allowed}
use clonebox.Container.Isolation.{stored-execute_ne}
use clonebox.Container.Signals.{Sent, signals, execute-Sent}
use clonebox.Container.Histories.{run_commands, StoredFrom, TornIn, run_commands-StoredFrom}
use clonebox.Container.Deletion.{IsName}
use clonebox.Container.Races.{StoresWedged, wedged_forever}
use clonebox.Lifecycle.{Command, starts, kills, pauses, resumes, next}
use clonebox.Tests.Codec.{encode, decode-encode}
use clonebox.Tests.World.{box, with_box, machine, machine-IsFaithful, machine-IsCooperative}

abbrev fresh : State
fresh = box created (some (pos 42))

instance abbrev world : Os
world = machine fresh

abbrev disk : Disk
disk = with_box fresh

abbrev id : Text
id = codes "box"

abbrev other_id : Text
other_id = codes "tin"

stored_box : stored world disk [] id ≡ some fresh
unfolding stored text_eq get_state_path
stored_box = rw (decode-encode fresh) refl

ids_differ : id ≢ other_id
ids_differ p = ground arith

id-IsName : IsName id
id-IsName = ground arith

other_id-IsName : IsName other_id
other_id-IsName = ground arith

read_fresh :
    read_state_file id [] ≡ (ok fresh, did_read (get_state_path id) (success (encode fresh)) ∷ [])
unfolding read_state_file content text_eq get_state_path
read_fresh = rw (decode-encode fresh) refl

execute-Follows_example :
    Follows starts id
      (execute starts id []).0
      (execute starts id []).1
      (stored world disk [] id)
      (stored world disk (execute starts id []).1 id)
execute-Follows_example = execute-Follows (machine-IsFaithful fresh) starts id []

execute_allowed_example :
    ((execute starts id []).0 ≡ ok tt)
    × (stored world disk (execute starts id []).1 id ≡ some (box running (some (pos 42))))
execute_allowed_example =
    execute_allowed (machine-IsCooperative fresh) (machine-IsFaithful fresh) starts id [] fresh
      (box running (some (pos 42))) stored_box (unfold next in refl)

execute_refused_example :
    execute pauses id []
    ≡ (err (refusal pauses id created), did_read (get_state_path id) (success (encode fresh)) ∷ [])
execute_refused_example =
    execute_refused pauses id [] (did_read (get_state_path id) (success (encode fresh)) ∷ []) fresh
      read_fresh (unfold next in refl)

stored-execute_ne_example :
    stored world disk (execute kills other_id []).1 id ≡ stored world disk [] id
stored-execute_ne_example = stored-execute_ne disk other_id id (λ p. ids_differ (sym p)) kills []

execute-Sent_example :
    Sent kills (read_state_file id []).0 (signals []) (signals (execute kills id []).1)
execute-Sent_example = execute-Sent kills id []

abbrev session : List (Command × Text)
session = (starts, id) ∷ (pauses, id) ∷ (kills, other_id) ∷ (resumes, id) ∷ (kills, id) ∷ []

run_commands-StoredFrom_example :
    StoredFrom fresh (stored world disk (run_commands session []) id) ⊎ TornIn id session []
run_commands-StoredFrom_example =
    run_commands-StoredFrom (machine-IsFaithful fresh) id fresh session [] stored_box
      (λ p. ground arith)

-- On record as running, with no pid.
abbrev lost : State
lost = box running none

abbrev lost_world : Os
lost_world = machine lost

lost_stored : stored lost_world (with_box lost) [] id ≡ some lost
unfolding stored text_eq get_state_path
lost_stored = rw (decode-encode lost) refl

wedged_forever_example :
    (StoresWedged (stored lost_world (with_box lost) (run_commands ⦃os = lost_world⦄ session []) id)
      × ((delete ⦃os = lost_world⦄ id false (run_commands ⦃os = lost_world⦄ session [])).0 ≢ ok tt))
    ⊎ TornIn ⦃os = lost_world⦄ id session []
wedged_forever_example =
    wedged_forever ⦃os = lost_world⦄ (machine-IsFaithful lost) id session []
      (subst StoresWedged (sym lost_stored) (record { no_pid = refl; lives = inl refl }))
