-- ===== src/Config.antt =====
-- clonebox-core/src/config.rs: the parts of config.json that are used. What serde makes of the text, with
-- its derived Deserialize, is an argument.
pub mod Loading
use clonebox.Prelude.{
  Text, codes, ◌≡◌, ◌≢◌, refl, ◌⊎◌, inl, inr, Bool, true, false, Option, none, some, List, [], ◌∷◌,
  ◌++◌, arith, if◌then◌else◌,
}
use clonebox.Errors.{
  IoError, JsonError, ConfigError, missing_root_path, missing_process_args, CoreError, config_error,
}
use clonebox.Os.{
  Os, Reply, success, failure, did_read, History, Outcome, ok, err, gone, Sys, pure, throw, ◌>>=◌,
  attempt, raise, read_to_string,
}

pub record Root : Type 0 where
  pub path : Text
  pub readonly : Option Bool

pub record Process : Type 0 where
  pub env : Option (List Text)
  pub args : Option (List Text)
  pub cwd : Text

pub record Mount : Type 0 where
  pub destination : Text
  pub mount_type : Option Text
  pub source : Option Text
  pub options : Option (List Text)

pub record Config : Type 0 where
  pub oci_version : Text
  pub process : Option Process
  pub root : Option Root
  pub mounts : Option (List Mount)
  pub hostname : Option Text

unfoldable pub get_process_env : Config → Option (List Text)
get_process_env c = elim c.process [ none ↦ none | some p ↦ p.env ]

unfoldable pub get_process_args : Config → Option (List Text)
get_process_args c = elim c.process [ none ↦ none | some p ↦ p.args ]

unfoldable pub get_process_cwd : Config → Text
get_process_cwd c = elim c.process [ none ↦ codes "/" | some p ↦ p.cwd ]

unfoldable pub get_root_path : Config → Text
get_root_path c = elim c.root [ none ↦ [] | some r ↦ r.path ]

unfoldable pub get_root_readonly : Config → Option Bool
get_root_readonly c = elim c.root [ none ↦ none | some r ↦ r.readonly ]

abbrev pub is_empty : {A : Type 0} → List A → Bool
is_empty [] = true
is_empty (x ∷ xs) = false

-- `.map(|a| a.is_empty()).unwrap_or(true)`
abbrev pub no_args : Option (List Text) → Bool
no_args none = true
no_args (some args) = is_empty args

unfoldable pub load : ⦃os : Os⦄ → (Text → Reply JsonError Config) → Text → Sys Config
unfolding read_to_string get_root_path get_process_args
load from_json config_path = do
  raw_conf ← attempt (λ e. config_error (ConfigError.io e)) (read_to_string config_file)
  config ← raise (λ e. config_error (ConfigError.json e)) (from_json raw_conf)
  if is_empty (get_root_path config)
      then throw (config_error missing_root_path)
      else if no_args (get_process_args config)
      then throw (config_error missing_process_args)
      else pure config
  where
    config_file : Text
    config_file = config_path ++ codes "/config.json"
