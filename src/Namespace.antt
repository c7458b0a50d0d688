-- ===== src/Namespace.antt =====
-- clonebox-core/src/namespace.rs: what the child of `create` does to its mounts before it waits. Each
-- step that fails ends the child.
pub mod Granted
use clonebox.Prelude.{
  ℕ, ◌+◌, Text, codes, ◌++◌, Bool, true, false, Option, none, some, List, [], ◌∷◌, text_eq,
  if◌then◌else◌, unwrap_or, ◌||◌,
}
use clonebox.Errors.{Errno, IoError}
use clonebox.Config.{Mount}
use clonebox.Os.{
  Os, Reply, success, failure, exited, Sys, pure, halt, ◌>>=◌, ◌>>◌, remove_dir, ask, mount,
  sethostname, create_dir_all, pivot_root, chdir, umount2, write_fd,
}

-- MsFlags and MntFlags on Linux
abbrev pub ms_bind : ℕ
ms_bind = 0x1000

abbrev pub ms_rec : ℕ
ms_rec = 0x4000

abbrev pub ms_private : ℕ
ms_private = 0x40000

abbrev pub mnt_detach : ℕ
mnt_detach = 2

abbrev stderr : ℕ
stderr = 2

-- [String]::join
unfoldable pub join : Text → List Text → Text
join between [] = []
join between (t ∷ []) = t
join between (t ∷ (u ∷ ts)) = t ++ (between ++ join between (u ∷ ts))

-- Vec::contains
unfoldable pub has_text : Text → List Text → Bool
unfolding text_eq
has_text t [] = false
has_text t (u ∷ us) = text_eq u t || has_text t us

-- `mount.options.as_ref().map(|o| o.contains("bind")).unwrap_or(false)`
abbrev pub is_bind : Option (List Text) → Bool
is_bind none = false
is_bind (some o) = has_text (codes "bind") o

abbrev pub joined : Option (List Text) → Option Text
joined none = none
joined (some o) = some (join (codes ",") o)

abbrev is_tmpfs : Option Text → Bool
is_tmpfs none = false
is_tmpfs (some t) = text_eq t (codes "tmpfs")

module _ ⦃os : Os⦄ where
  -- The macro child_try! on a result: `eval` is the exit code.
  unfoldable pub child_try :
      {E : Type 0} → (E → Text) → Text → ℕ → Reply E (Unit {0}) → Sys (Unit {0})
  unfolding ask
  child_try display msg eval (success _) = pure tt
  child_try display msg eval (failure e) = do
    _ ← ask (write_fd stderr (msg ++ (codes ": " ++ (display e ++ (b'\n' ∷ [])))))
    halt (exited eval)

  unfoldable pub mount_child :
      Option Text → Text → Option Text → ℕ → Option Text → Text → Sys (Unit {0})
  unfolding ask child_try
  mount_child src dest mount_type flags text msg = do
    r ← ask (mount src dest mount_type flags text)
    child_try os.errno_display msg 1 r

  unfoldable pub make_child_private : Sys (Unit {0})
  unfolding ask child_try
  make_child_private = do
    r ← ask (mount none (codes "/") none (ms_private + ms_rec) none)
    child_try os.errno_display (codes "private mount") 1 r

  unfoldable pub set_child_hostname : Text → Sys (Unit {0})
  unfolding ask child_try
  set_child_hostname name = do
    r ← ask (sethostname name)
    child_try os.errno_display (codes "sethostname") 1 r

  make_dir : Text → Text → Sys (Unit {0})
  unfolding ask child_try
  make_dir path msg = do r ← ask (create_dir_all path); child_try os.io_display msg 1 r

  -- The `for` loop: whether it returned.
  unfoldable pub bind_first : Text → List Mount → Sys Bool
  bind_first new_root [] = pure false
  bind_first new_root (m ∷ mounts) =
      let rest = bind_first new_root mounts in
      if is_bind m.options
      then mount_child m.source (new_root ++ m.destination) m.mount_type ms_bind (joined m.options)
          (codes "bind")
        >> pure true
      else rest

  -- After the loop.
  unfoldable pub mount_overlay : Text → Text → Sys Text
  unfolding make_dir
  mount_overlay bundle_path new_root = do
    let upper_dir = bundle_path ++ codes "/upper"
    let work_dir = bundle_path ++ codes "/work"
    let merged = bundle_path ++ codes "/merged"
    make_dir upper_dir (codes "pre_pivot: create_dir_all: upper_dir")
    make_dir work_dir (codes "pre_pivot: create_dir_all: work_dir")
    make_dir merged (codes "create_dir_all")
    mount_child (some (codes "overlay")) merged (some (codes "overlay")) 0
        (some (
          codes "lowerdir="
          ++ (new_root ++ (codes ",upperdir=" ++ (upper_dir ++ (codes ",workdir=" ++ work_dir))))))
        (codes "overlayfs")
    pure merged

  unfoldable pub pre_pivot_mount : Text → Text → List Mount → Sys Text
  pre_pivot_mount bundle_path new_root mounts = do
    mount_child (some new_root) new_root none ms_bind none (codes "bind mount")
    bound ← bind_first new_root mounts
    if bound then pure new_root else mount_overlay bundle_path new_root

  unfoldable pub do_pivot_root : Text → Sys (Unit {0})
  unfolding ask make_dir child_try remove_dir
  do_pivot_root new_root = do
    let put_old = codes "/put_old"
    let child_old_path = new_root ++ codes "/put_old"
    make_dir child_old_path (codes "create_dir_all")
    r1 ← ask (pivot_root new_root child_old_path)
    child_try os.errno_display (codes "pivot_root") 1 r1
    r2 ← ask (chdir (codes "/"))
    child_try os.errno_display (codes "chdir") 1 r2
    r3 ← ask (umount2 put_old mnt_detach)
    child_try os.errno_display (codes "unmount2") 1 r3
    r4 ← remove_dir put_old
    child_try os.io_display (codes "remove_dir") 1 r4

  unfoldable pub post_pivot_mount : List Mount → Sys (Unit {0})
  post_pivot_mount [] = pure tt
  post_pivot_mount (m ∷ mounts) = do
    if is_tmpfs m.mount_type
        then mount_child m.source m.destination m.mount_type 0 (joined m.options) (codes "tmpfs")
        else pure tt
    post_pivot_mount mounts

  unfoldable pub do_default_mounts : Sys (Unit {0})
  do_default_mounts = do
    mount_child (some (codes "proc")) (codes "/proc") (some (codes "proc")) 0 none (codes "proc")
    mount_child (some (codes "sysfs")) (codes "/sys") (some (codes "sysfs")) 0 none (codes "sysfs")
    mount_child (some (codes "devtmpfs")) (codes "/dev") (some (codes "devtmpfs")) 0 none
        (codes "devtmpfs")
