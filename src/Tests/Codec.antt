-- ===== src/Tests/Codec.antt =====
-- A text for each state, and back: what serde_json is used for, in a form that is easy to read back.
use clonebox.Prelude.{
  ℕ, zero, suc, ◌≤◌, ◌≡◌, refl, Text, Option, none, some, List, [], ◌∷◌, ◌++◌, arith, ℤ, pos,
  negsuc, length, length-append, take, drop,
}
use clonebox.State.{ContainerState, creating, created, running, stopped, paused, State}
use clonebox.Errors.{JsonError}
use clonebox.Os.{Reply, success, failure}
use clonebox.Network.Slices.{take_of, drop_of}

infixl 5 ◌>>=◌
abbrev ◌>>=◌ : {A B : Type 0} → Option A → (A → Option B) → Option B
none >>= f = none
some a >>= f = f a

abbrev put_text : Text → Text → Text
put_text t rest = length t ∷ (t ++ rest)

get_text : Text → Option (Text × Text)
get_text [] = none
get_text (n ∷ rest) = some (take n rest, drop n rest)

get-put_text : (t rest : Text) → get_text (put_text t rest) ≡ some (t, rest)
unfolding get_text
get-put_text t rest = rw (take_of (length t) t rest refl, drop_of (length t) t rest refl)

put_status : ContainerState → ℕ
put_status creating = 0
put_status created = 1
put_status running = 2
put_status stopped = 3
put_status paused = 4

get_status : ℕ → ContainerState
get_status zero = creating
get_status (suc zero) = created
get_status (suc (suc zero)) = running
get_status (suc (suc (suc zero))) = stopped
get_status (suc (suc (suc (suc n)))) = paused

abbrev put_pid : Option ℤ → Text → Text
put_pid none rest = 0 ∷ rest
put_pid (some (pos n)) rest = 1 ∷ n ∷ rest
put_pid (some (negsuc n)) rest = 2 ∷ n ∷ rest

get_pid : Text → Option (Option ℤ × Text)
get_pid (zero ∷ rest) = some (none, rest)
get_pid (suc zero ∷ n ∷ rest) = some (some (pos n), rest)
get_pid (suc (suc zero) ∷ n ∷ rest) = some (some (negsuc n), rest)
get_pid _ = none

put_pairs : List (Text × Text) → Text
put_pairs [] = []
put_pairs ((k, v) ∷ m) = put_text k (put_text v (put_pairs m))

get_pairs : ℕ → Text → Option (List (Text × Text))
get_pairs fuel [] = some []
get_pairs zero (n ∷ rest) = none
get_pairs (suc fuel) (n ∷ rest) = do
  (k, r) ← get_text (n ∷ rest)
  (v, r') ← get_text r
  m ← get_pairs fuel r'
  some ((k, v) ∷ m)

length-put_pairs : (m : List (Text × Text)) → length m ≤ length (put_pairs m)
unfolding put_pairs
length-put_pairs [] = omega arith
length-put_pairs ((k, v) ∷ m) = omega (
  arith,
  length-put_pairs m,
  length-append k (put_text v (put_pairs m)),
  length-append v (put_pairs m),
)

get-put_pairs :
    (fuel : ℕ) (m : List (Text × Text)) → length m ≤ fuel → get_pairs fuel (put_pairs m) ≡ some m
unfolding get_pairs put_pairs
get-put_pairs zero [] h = refl
get-put_pairs (suc fuel) [] h = refl
get-put_pairs zero ((k, v) ∷ m) h = absurd (omega arith)
get-put_pairs (suc fuel) ((k, v) ∷ m) h = rw (
  get-put_text k (put_text v (put_pairs m)),
  get-put_text v (put_pairs m),
  get-put_pairs fuel m (omega arith),
)

abbrev put_annotations : Option (List (Text × Text)) → Text
put_annotations none = 0 ∷ []
put_annotations (some m) = 1 ∷ put_pairs m

get_annotations : Text → Option (Option (List (Text × Text)))
get_annotations (suc zero ∷ rest) = do m ← get_pairs (length rest) rest; some (some m)
get_annotations _ = some none

pub encode : State → Text
encode s =
    put_status s.status
    ∷ put_text s.oci_version
        (put_text s.id (put_text s.bundle (put_pid s.pid (put_annotations s.annotations))))

decode_state : Text → Option State
decode_state [] = none
decode_state (status ∷ r0) = do
  (oci_version, r1) ← get_text r0
  (id, r2) ← get_text r1
  (bundle, r3) ← get_text r2
  (pid, r4) ← get_pid r3
  annotations ← get_annotations r4
  some (record {
    oci_version = oci_version;
    id = id;
    status = get_status status;
    pid = pid;
    bundle = bundle;
    annotations = annotations;
  })

or_error : Option State → Reply JsonError State
or_error none = failure 0
or_error (some s) = success s

unfoldable pub decode : Text → Reply JsonError State
unfolding decode_state or_error get_text get_pid get_annotations get_pairs get_status
decode t = or_error (decode_state t)

get-put_status : (a : ContainerState) → get_status (put_status a) ≡ a
unfolding get_status put_status
get-put_status creating = refl
get-put_status created = refl
get-put_status running = refl
get-put_status stopped = refl
get-put_status paused = refl

get-put_pid : (p : Option ℤ) (rest : Text) → get_pid (put_pid p rest) ≡ some (p, rest)
unfolding get_pid
get-put_pid none rest = refl
get-put_pid (some (pos n)) rest = refl
get-put_pid (some (negsuc n)) rest = refl

get-put_annotations :
    (a : Option (List (Text × Text))) → get_annotations (put_annotations a) ≡ some a
unfolding get_annotations
get-put_annotations none = refl
get-put_annotations (some m) = rw (get-put_pairs (length (put_pairs m)) m (length-put_pairs m))

decode_state-encode : (s : State) → decode_state (encode s) ≡ some s
unfolding encode decode_state
decode_state-encode s = simp (get-put_text, get-put_pid, get-put_annotations, get-put_status)

pub decode-encode : (s : State) → decode (encode s) ≡ success s
unfolding decode
decode-encode s = rw decode_state-encode
