-- ===== src/Cgroup.antt =====
-- clonebox-core/src/cgroup.rs: the control files of a container's cgroup.
pub mod Controllers
use clonebox.Prelude.{Text, codes, ◌++◌, contains, not, if◌then◌else◌, List, [], ◌∷◌}
use clonebox.Errors.{
  IoError, CoreError, CgroupError, create_cgroup_dir_failure, read_to_string_failure,
  resource_not_available, from_cgroup,
}
use clonebox.Os.{
  Fd, ask, create_dir_all, open_file, Os, Sys, pure, throw, ◌>>=◌, ◌>>◌, attempt, read_to_string,
  fs_write,
}

unfoldable pub get_root_cgroup_path : Text
get_root_cgroup_path = codes "/sys/fs/cgroup"

unfoldable pub get_app_cgroup_path : Text
get_app_cgroup_path = codes "/sys/fs/cgroup/clonebox"

unfoldable pub get_child_cgroup_path : Text → Text
get_child_cgroup_path name = codes "/sys/fs/cgroup/clonebox/" ++ name

unfoldable pub cgroup_file : Text → Text → Text → Text
cgroup_file instance_path resource key =
    instance_path ++ (codes "/" ++ (resource ++ (codes "." ++ key)))

pub set_cgroup_message : Text → Text → Text → Text → Text
set_cgroup_message instance_path resource key value =
    codes "failed to change "
    ++ (resource
        ++ (codes "."
            ++ (key ++ (codes " cgroup value:" ++ (value ++ (codes " for " ++ instance_path))))))

module _ ⦃os : Os⦄ where
  unfoldable pub set_cgroup : Text → Text → Text → Text → Sys (Unit {0})
  unfolding fs_write
  set_cgroup instance_path resource key value =
      attempt
        (λ e.
          from_cgroup
            (CgroupError.write_failure e (set_cgroup_message instance_path resource key value)))
        (fs_write (cgroup_file instance_path resource key) value)

  -- The `?` after the inner `Err` returns it.
  unfoldable pub enable_controller : Text → Text → Sys (Unit {0})
  unfolding read_to_string fs_write
  enable_controller path resource = do
    available ← attempt (unreadable controllers_path) (read_to_string controllers_path)
    if not (contains resource available)
        then throw (from_cgroup (resource_not_available controllers_path resource))
        else do
          enabled ← attempt (unreadable subtree_path) (read_to_string subtree_path)
          if not (contains resource enabled)
              then attempt (λ e. from_cgroup (CgroupError.write_failure e resource))
                  (fs_write subtree_path (codes "+" ++ resource))
              else pure tt
    where
      controllers_path : Text
      controllers_path = path ++ codes "/cgroup.controllers"

      subtree_path : Text
      subtree_path = path ++ codes "/cgroup.subtree_control"

      unreadable : Text → IoError → CoreError
      unreadable p e = from_cgroup (read_to_string_failure e p resource)

  unfoldable pub init_resources : Text → List Text → Sys (Unit {0})
  init_resources instance_path [] = pure tt
  init_resources instance_path (resource ∷ resources) = do
    enable_controller instance_path resource
    init_resources instance_path resources

  unfoldable pub create_cgroup : Text → Sys (Text × Fd)
  unfolding ask
  create_cgroup name = do
    attempt (λ e. from_cgroup (create_cgroup_dir_failure e (codes "clonebox app")))
        (ask (create_dir_all get_app_cgroup_path))
    attempt (λ e. from_cgroup (create_cgroup_dir_failure e (codes "child")))
        (ask (create_dir_all (get_child_cgroup_path name)))
    fd ←
        attempt (λ e. from_cgroup (CgroupError.open_failure e (codes "child")))
          (ask (open_file (get_child_cgroup_path name)))
    pure (get_child_cgroup_path name, fd)
