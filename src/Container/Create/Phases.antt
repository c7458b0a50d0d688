-- ===== src/Container/Create/Phases.antt =====
-- What each part of `create` does to the stored state.
use mathlib.Core.Path.{subst}
use clonebox.Prelude.{
  Text, codes, ◌≡◌, refl, sym, ap, ◌∙◌, Option, none, some, ◌∷◌, ◌++◌, ℤ, arith, inl,
}
use clonebox.Errors.{CoreError, JsonError}
use clonebox.State.{State, creating, created, set_created, get_bundle_path}
use clonebox.State.File.{write_state_file}
use clonebox.State.Stored.{Spared, write_state_file-Wrote, Updated, update_state-Updated}
use clonebox.Event.{Event}
use clonebox.Event.Sending.{send_event}
use clonebox.Config.{Config, load}
use clonebox.Lifecycle.{Command, starts, kills, pauses, resumes, next}
use clonebox.Runtime.{Runtime}
use clonebox.Logger.{open_log_file}
use clonebox.Cgroup.{set_cgroup, get_child_cgroup_path}
use clonebox.Network.Words.{Endian}
use clonebox.Network.Requests.{create_network}
use clonebox.Container.Create.{
  notify, make_bundle_dir, fill_bundle, create_bundle, create_process, set_up_child, first_state,
  first_event, created_event,
}
use clonebox.Container.Create.Quiet.{
  load-IsQuiet, make_bundle_dir-IsQuiet, open_log_file-IsQuiet, set_cgroup-IsQuiet,
  create_process-IsQuiet, create_network-IsQuiet,
}
use clonebox.Os.{
  Os, Reply, Fd, Sys, History, Outcome, ok, err, gone, End, proceed, ◌>>=◌, did_check_exists,
}
use clonebox.Os.Disk.{Disk, IsFaithful, stored}
use clonebox.Os.Loud.{IsQuiet, stored-loud}

module _ ⦃os : Os⦄ (d : Disk) (id : Text) where
  stored-IsQuiet :
      {A : Type 0} (m : Sys A)
      → IsQuiet m
      → (h : History) → stored os d (m h).1 id ≡ stored os d h id
  stored-IsQuiet m quiet h =
      sym (stored-loud os d id (m h).1)
      ∙ ap (λ (l : History). stored os d l id) (quiet h)
      ∙ stored-loud os d id h

  stored-notify :
      (path : Option Text) (e : Event) (h : History)
      → stored os d (notify path e h).1 id ≡ stored os d h id
  unfolding notify send_event stored
  stored-notify none e h = refl
  stored-notify (some p) e h = ground arith

-- The bundle's state is the first one if the phase is over; if it fails, the old one is spared.
abbrev pub Bundles : Text → Outcome (Config × Fd) → History → Option State → Option State → Type 0
Bundles id (ok (config, _)) h before after = after ≡ some (first_state id config)
Bundles id _ h before after = Spared id h before after

-- A step that leaves the stored state alone may stand in front of a phase.
module _ ⦃os : Os⦄ (d : Disk) (id : Text) {B : Type 0}
    (P : Outcome B → History → Option State → Option State → Type 0)
    (on_err : (e : CoreError) (h : History) (s : Option State) → P (err e) h s s)
    (on_gone : (x : End) (h : History) (s : Option State) → P (gone x) h s s) where
  -- What a phase does from every history.
  abbrev Does : Sys B → Type 0
  Does m = (h : History) → P (m h).0 (m h).1 (stored os d h id) (stored os d (m h).1 id)

  abbrev Spares : {A : Type 0} → Sys A → Type 0
  Spares m = (h : History) → stored os d (m h).1 id ≡ stored os d h id

  proceed-Does :
      {A : Type 0} (r : Outcome A) (h1 : History) (before : Option State) (k : A → Sys B)
      → stored os d h1 id ≡ before
      → ((a : A) → Does (k a))
      → P (proceed r k h1).0 (proceed r k h1).1 before (stored os d (proceed r k h1).1 id)
  proceed-Does (ok a) h1 before k e does =
      subst (λ o. P (k a h1).0 (k a h1).1 o (stored os d (k a h1).1 id)) e (does a h1)
  proceed-Does (err x) h1 before k e does = rw e (on_err x h1 before)
  proceed-Does (gone x) h1 before k e does = rw e (on_gone x h1 before)

  >>=-Does :
      {A : Type 0} (m : Sys A) (k : A → Sys B) → Spares m → ((a : A) → Does (k a)) → Does (m >>= k)
  >>=-Does m k spares does h = proceed-Does (m h).0 (m h).1 (stored os d h id) k (spares h) does

module _ ⦃os : Os⦄ {d : Disk} (faithful : IsFaithful os d) (id : Text) where
  -- From the last step on.
  abbrev last_step : Config → Fd → Sys (Config × Fd)
  last_step config log_fd =
      write_state_file id (first_state id config) >>= λ _ h. (ok (config, log_fd), h)

  first_write :
      (config : Config) (log_fd : Fd) (h : History)
      → Bundles id
          (last_step config log_fd h).0
          (last_step config log_fd h).1
          (stored os d h id)
          (stored os d (last_step config log_fd h).1 id)
  first_write config log_fd h =
      ground (arith, write_state_file-Wrote faithful id (first_state id config) h)

  abbrev BundlesFrom : Sys (Config × Fd) → Type 0
  BundlesFrom m =
      (h : History) → Bundles id (m h).0 (m h).1 (stored os d h id) (stored os d (m h).1 id)

  quiet_then :
      {A : Type 0} (m : Sys A) (k : A → Sys (Config × Fd))
      → IsQuiet m
      → ((a : A) → BundlesFrom (k a))
      → BundlesFrom (m >>= k)
  quiet_then m k quiet =
      >>=-Does d id (Bundles id) (λ x h s. inl refl) (λ x h s. inl refl) m k
        (stored-IsQuiet d id m quiet)

  fill_bundle-Bundles :
      (from_json : Text → Reply JsonError Config) (p : Text) (sp : Option Text)
      → BundlesFrom (fill_bundle from_json id p sp)
  unfolding fill_bundle
  fill_bundle-Bundles from_json p sp =
      quiet_then (load from_json p) _ (load-IsQuiet from_json p) (λ config.
        quiet_then (make_bundle_dir (get_bundle_path id)) _
          (make_bundle_dir-IsQuiet (get_bundle_path id))
          (λ _.
            quiet_then (open_log_file (get_bundle_path id)) _
              (open_log_file-IsQuiet (get_bundle_path id))
              (λ log_fd.
                >>=-Does d id (Bundles id) (λ x h s. inl refl) (λ x h s. inl refl)
                  (notify sp (first_event id)) _ (stored-notify d id sp (first_event id))
                  (λ _. first_write config log_fd))))

  pub create_bundle-Bundles :
      (from_json : Text → Reply JsonError Config) (p : Text) (sp : Option Text)
      → BundlesFrom (create_bundle from_json id p sp)
  unfolding create_bundle stored
  create_bundle-Bundles from_json p sp h =
      let path = get_bundle_path id in
      ground
        (arith, fill_bundle-Bundles from_json p sp (did_check_exists path (os.exists h path) ∷ h))

  create_process-stored : (h : History) → stored os d (create_process id h).1 id ≡ stored os d h id
  create_process-stored h = stored-IsQuiet d id (create_process id) (create_process-IsQuiet id) h

  pub set_up_child-Updated :
      (e : Endian) (sp : Option Text) (pid : ℤ) (h : History)
      → Updated id
          (set_created pid)
          (set_up_child e id sp pid h).0
          (set_up_child e id sp pid h).1
          (stored os d h id)
          (stored os d (set_up_child e id sp pid h).1 id)
  unfolding set_up_child
  set_up_child-Updated e sp pid =
      spare (create_network e id pid) _
        (stored-IsQuiet d id (create_network e id pid) (create_network-IsQuiet e id pid))
        (λ _.
          spare (limit (codes "cpu") (codes "100000 100000")) _
            (spares (codes "cpu") (codes "100000 100000"))
            (λ _.
              spare (limit (codes "memory") (codes "256M")) _
                (spares (codes "memory") (codes "256M"))
                (λ _.
                  spare (notify sp (created_event id)) _ (stored-notify d id sp (created_event id))
                    (λ _ h1.
                      ground (arith, update_state-Updated faithful id (set_created pid) h1)))))
    where
      limit : Text → Text → Sys (Unit {0})
      limit key value = set_cgroup (get_child_cgroup_path id) key (codes "max") value

      spares :
          (key value : Text) (h1 : History)
          → stored os d (limit key value h1).1 id ≡ stored os d h1 id
      spares key value =
          stored-IsQuiet d id (limit key value) (set_cgroup-IsQuiet id key (codes "max") value)

      spare :
          {A : Type 0} (m : Sys A) (k : A → Sys (Unit {0}))
          → ((h1 : History) → stored os d (m h1).1 id ≡ stored os d h1 id)
          → ((a : A)
              → Does d id
                  (Updated id (set_created pid))
                  (λ x h s. inl refl)
                  (λ x h s. inl refl)
                  (k a))
          → Does d id
              (Updated id (set_created pid))
              (λ x h s. inl refl)
              (λ x h s. inl refl)
              (m >>= k)
      spare = >>=-Does d id (Updated id (set_created pid)) (λ x h s. inl refl) (λ x h s. inl refl)

-- What is recorded of a container before its child is set up, and then.
abbrev pub recorded_first : Text → Config → State
recorded_first id config = record {
  oci_version = config.oci_version;
  id = id;
  status = creating;
  pid = none;
  bundle = codes "/run/clonebox/" ++ id;
  annotations = none;
}

abbrev pub recorded_created : Text → Config → ℤ → State
recorded_created id config pid = record {
  oci_version = config.oci_version;
  id = id;
  status = created;
  pid = some pid;
  bundle = codes "/run/clonebox/" ++ id;
  annotations = none;
}

first_state_lem : (id : Text) (config : Config) → first_state id config ≡ recorded_first id config
unfolding get_bundle_path
first_state_lem id config = refl

set_created_lem :
    (id : Text) (config : Config) (pid : ℤ)
    → set_created pid (recorded_first id config) ≡ recorded_created id config pid
unfolding set_created
set_created_lem id config pid = refl

-- The stored state once the child is set up, or not.
abbrev pub SetUp : Text → Config → ℤ → Outcome (Unit {0}) → History → Option State → Type 0
SetUp id config pid (ok _) h after = after ≡ some (recorded_created id config pid)
SetUp id config pid _ h after = Spared id h (some (recorded_first id config)) after

module _ ⦃os : Os⦄ {d : Disk} (faithful : IsFaithful os d) (id : Text) where
  -- Where reads see what was written, a create that has made its bundle and its process has stored the
  -- state with the version that its configuration names, its id, `creating`, no pid, the bundle
  -- /run/clonebox/<id> and no annotations, which start, kill, pause and resume refuse. That is the stored
  -- state until the child is set up, and then it is the same as `created` with the child's pid; if the
  -- set-up does not return, it is the first state still, unless the last call was a write of the state
  -- file that failed: what such a write leaves stored is open.
  pub create-SetUp :
      (e : Endian) (from_json : Text → Reply JsonError Config) (p : Text) (sp : Option Text)
      (config : Config) (log_fd : Fd) (runtime : Runtime) (pid : ℤ) (c : Command)
      (h h1 h2 : History)
      → create_bundle from_json id p sp h ≡ (ok (config, log_fd), h1)
      → create_process id h1 ≡ (ok (runtime, pid), h2)
      → let (r, h3) = set_up_child e id sp pid h2 in
        (stored os d h1 id ≡ some (recorded_first id config))
        × (stored os d h2 id ≡ some (recorded_first id config))
        × (next c (recorded_first id config) ≡ none)
        × SetUp id config pid r h3 (stored os d h3 id)
  create-SetUp e from_json p sp config log_fd runtime pid c h h1 h2 bundled cloned =
      let first : stored os d h1 id ≡ some (recorded_first id config) = ground (
        arith,
        bundled,
        create_bundle-Bundles faithful id from_json p sp h,
        first_state_lem id config,
      ) in
      let second : stored os d h2 id ≡ some (recorded_first id config) =
        ground (arith, cloned, first, create_process-stored faithful id h1) in
      (
        first,
        second,
        refused c,
        ground (
          arith,
          second,
          set_up_child-Updated faithful id e sp pid h2,
          set_created_lem id config pid,
        ),
      )
    where
      refused : (c : Command) → next c (recorded_first id config) ≡ none
      refused starts = unfold next in refl
      refused kills = unfold next in refl
      refused pauses = unfold next in refl
      refused resumes = unfold next in refl
