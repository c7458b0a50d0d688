-- ===== src/Config/Loading.antt =====
-- What `load` accepts, and which error it has for the rest.
use clonebox.Prelude.{
  Text, codes, ◌≡◌, ◌≢◌, refl, ◌⊎◌, inl, inr, Bool-cases, if◌then◌else◌, true, false, Option, none,
  some, List, [], ◌∷◌, ◌++◌, arith,
}
use clonebox.Errors.{
  IoError, JsonError, ConfigError, missing_root_path, missing_process_args, config_error,
}
use clonebox.Os.{Os, Reply, success, failure, did_read, History, Outcome, ok, err, gone}
use clonebox.Config.{Config, get_root_path, get_process_args, is_empty, no_args, load}

-- A configuration that a container can be made from: a root and a program.
pub record IsUsable (c : Config) : Type 0 where
  pub root_given : get_root_path c ≢ []
  pub program_given : (args : List Text) × (get_process_args c ≡ some args) × (args ≢ [])

-- What `load` makes of the reply to its one read.
abbrev pub Loads : (Text → Reply JsonError Config) → Reply IoError Text → Outcome Config → Type 0
Loads from_json (success t) (ok c) = (from_json t ≡ success c) × IsUsable c
Loads from_json (failure e) (ok c) = ⊥
Loads from_json (failure e) (err x) = x ≡ config_error (ConfigError.io e)
Loads from_json (success t) (err x) =
    ((e : JsonError) × (from_json t ≡ failure e) × (x ≡ config_error (ConfigError.json e)))
    ⊎ ((c : Config) × (from_json t ≡ success c)
        × (((get_root_path c ≡ []) × (x ≡ config_error missing_root_path))
            ⊎ ((no_args (get_process_args c) ≡ true) × (x ≡ config_error missing_process_args))))
Loads from_json _ (gone x) = ⊥

abbrev config_file : Text → Text
config_file config_path = config_path ++ codes "/config.json"

usable :
    (c : Config)
    → is_empty (get_root_path c) ≡ false
    → no_args (get_process_args c) ≡ false
    → IsUsable c
usable c r a = record {
  root_given = ground (arith, r);
  program_given = given (get_process_args c) refl a;
}
  where
    given :
        (o : Option (List Text))
        → get_process_args c ≡ o
        → no_args o ≡ false
        → (args : List Text) × (get_process_args c ≡ some args) × (args ≢ [])
    given none e a = absurd (ground (arith, a))
    given (some []) e a = absurd (ground (arith, a))
    given (some (x ∷ xs)) e a = (x ∷ xs, e, λ p. ground (arith, p))

Reply-cases :
    {E A : Type 0} → (r : Reply E A) → ((a : A) × (r ≡ success a)) ⊎ ((e : E) × (r ≡ failure e))
Reply-cases (success a) = inl (a, refl)
Reply-cases (failure e) = inr (e, refl)

module _ ⦃os : Os⦄ (from_json : Text → Reply JsonError Config) (config_path : Text)
    (h : History) where
  abbrev reply : Reply IoError Text
  reply = os.reads h (config_file config_path)

  load_unread :
      (e : IoError)
      → reply ≡ failure e
      → (load from_json config_path h).0 ≡ err (config_error (ConfigError.io e))
  unfolding load
  load_unread e r = ground (arith, r)

  load_unparsed :
      (t : Text) (e : JsonError)
      → reply ≡ success t
      → from_json t ≡ failure e
      → (load from_json config_path h).0 ≡ err (config_error (ConfigError.json e))
  unfolding load
  load_unparsed t e r f = ground (arith, r, f)

  -- The outcome for a configuration that was parsed.
  abbrev judged : Config → Outcome Config
  judged c =
      if is_empty (get_root_path c)
      then err (config_error missing_root_path)
      else if no_args (get_process_args c)
      then err (config_error missing_process_args)
      else ok c

  load_parsed :
      (t : Text) (c : Config)
      → reply ≡ success t
      → from_json t ≡ success c
      → (load from_json config_path h).0 ≡ judged c
  unfolding load
  load_parsed t c r f = ground (arith, r, f)

  judged-Loads :
      (t : Text) (c : Config) → from_json t ≡ success c → Loads from_json (success t) (judged c)
  judged-Loads t c f = elim (Bool-cases (is_empty (get_root_path c))) [
    | inl e ↦ rw e (inr (c, f, inl (ground (arith, e), refl)))
    | inr n ↦ elim (Bool-cases (no_args (get_process_args c))) [
      | inl e ↦ rw (n, e) (inr (c, f, inr (e, refl)))
      | inr a ↦ rw (n, a) (f, usable c n a)
    ]
  ]

  loaded : Loads from_json reply (load from_json config_path h).0
  loaded = elim (Reply-cases reply) [
    | inl (t, r) ↦ elim (Reply-cases (from_json t)) [
      | inl (c, f) ↦ rw (r, load_parsed t c r f) (judged-Loads t c f)
      | inr (e, f) ↦ rw (r, load_unparsed t e r f) (inl (e, f, refl))
    ]
    | inr (e, r) ↦ rw (r, load_unread e r) refl
  ]

  reads_once : (load from_json config_path h).1 ≡ did_read (config_file config_path) reply ∷ h
  unfolding load
  reads_once = ground arith

  -- `load` makes one call, the read of config.json. It returns what serde makes of the text, and only if
  -- a root path and at least one argument are given; every failure has its own error.
  pub load-Loads :
      Loads from_json reply (load from_json config_path h).0
      × ((load from_json config_path h).1 ≡ did_read (config_file config_path) reply ∷ h)
  load-Loads = (loaded, reads_once)
