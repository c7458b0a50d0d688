-- ===== src/Tests/World.antt =====
-- A machine on which every call works, that finds what was written, and on which one container is there.
use clonebox.Prelude.{
  pos, Text, codes, ◌≡◌, refl, true, false, Option, none, some, List, [], ◌∷◌, arith, ℤ, pos,
  if◌then◌else◌, text_eq,
}
use clonebox.Errors.{IoError, JsonError, not_found}
use clonebox.Event.{Event}
use clonebox.State.{ContainerState, State, get_state_path}
use clonebox.Os.{
  Request, ReplyTo, create_dir_all, set_permissions, open_file, open_append, write_all, remove_file,
  connect_stream, command_status, bind_listener, pipe2, read_byte, write_fd, bind_unix, listen,
  accept4, waitpid, exited_with, fork, parent, execve, getpid, setns, mount, sethostname, chdir,
  pivot_root, umount2, clone3, open_netlink, bind_netlink, send, recv, Os, Reply, success, failure,
}
use clonebox.Os.Disk.{Disk, content, IsFaithful}
use clonebox.Container.Progress.{IsCooperative}
use clonebox.Tests.Codec.{encode, decode, decode-encode}

abbrev pub box : ContainerState → Option ℤ → State
box status pid = record {
  oci_version = codes "1.0.1";
  id = codes "box";
  status = status;
  pid = pid;
  bundle = codes "/run/clonebox/box";
  annotations = none;
}

-- The container `box` is there from the start, in a given state.
abbrev pub with_box : State → Disk
with_box s = record {
  files =
      λ path. if text_eq path (codes "/run/clonebox/box/state.json") then some (encode s) else none;
  torn = λ n path. none;
  lost = λ n path. true;
}

abbrev found : Option Text → Reply IoError Text
found none = failure not_found
found (some t) = success t

-- Every request is granted: a child is number 42, and exits with 7.
abbrev pub granted : (q : Request) → ReplyTo q
granted (create_dir_all p) = success tt
granted (set_permissions p mode) = success tt
granted (open_file p) = success 4
granted (open_append p) = success 5
granted (write_all fd t) = success tt
granted (remove_file p) = success tt
granted (connect_stream p) = success 6
granted (command_status p args) = success (some (pos 0))
granted (bind_listener p) = success 11
granted pipe2 = success (7, 8)
granted (read_byte fd) = success 1
granted (write_fd fd t) = success 1
granted (bind_unix fd p) = success tt
granted (listen fd n) = success tt
granted (accept4 fd) = success 9
granted (waitpid pid) = success (exited_with pid (pos 7))
granted fork = success (parent (pos 42))
granted (execve p args env) = none
granted getpid = pos 1
granted (setns fd flag) = success tt
granted (mount source target type flags text) = success tt
granted (sethostname name) = success tt
granted (chdir p) = success tt
granted (pivot_root new_root put_old) = success tt
granted (umount2 p flags) = success tt
granted (clone3 args) = success (pos 42)
granted open_netlink = success 10
granted (bind_netlink fd) = success tt
granted (send fd bytes) = success 0
granted (recv fd) = success []

-- An event as a text, by way of a state.
abbrev pub event_state : Event → State
event_state e = record {
  oci_version = [];
  id = e.id;
  status = e.state;
  pid = e.exit_code;
  bundle = [];
  annotations = none;
}

abbrev pub event_text : Event → Text
event_text e = encode (event_state e)

abbrev pub text_event : Reply JsonError State → Reply JsonError Event
text_event (success s) = success (record { id = s.id; state = s.status; exit_code = s.pid })
text_event (failure e) = failure e

abbrev pub machine_on : Disk → Os
machine_on disk = record {
  reads = λ h path. found (content disk h path);
  writes = λ h path t. success tt;
  removes_dir = λ h path. success tt;
  removes_dir_all = λ h path. success tt;
  reads_dir = λ h path. success [];
  exists = λ h path. false;
  spawns = λ h path args. success tt;
  kills = λ h pid sig. success tt;
  opens_socket = λ h. success 3;
  connects = λ h fd path. success tt;
  unix_addr = λ path. success path;
  backlog = λ n. success n;
  answers = λ h q. granted q;
  decimal = λ n. codes "42";
  io_display = λ e. codes "io error";
  errno_display = λ e. codes "error";
  os_error_display = λ n. codes "os error";
  debug_status = λ w. codes "status";
  state_to_json = λ t. success (encode t);
  state_from_json = decode;
  event_to_json = λ e. success (event_text e);
  event_from_json = λ t. text_event (decode t);
}

abbrev pub machine : State → Os
machine s = machine_on (with_box s)

abbrev pub drop_last : Text → Text
drop_last [] = []
drop_last (b ∷ []) = []
drop_last (b ∷ (c ∷ bs)) = b ∷ drop_last (c ∷ bs)

-- A connection with one line.
abbrev pub one_line : Text → List Text
one_line t = drop_last t ∷ []

found-some : (o : Option Text) (t : Text) → found o ≡ success t → o ≡ some t
found-some none t e = absurd (ground (arith))
found-some (some u) t e = ground (arith)

found-none : (o : Option Text) → found o ≡ failure not_found → o ≡ none
found-none none e = refl
found-none (some u) e = absurd (ground (arith))

json_back :
    (d : Disk) (t : State) (x : Text)
    → (machine_on d).state_to_json t ≡ success x
    → decode x ≡ success t
json_back d t x e = ground (arith, decode-encode t)

pub machine_on-IsFaithful : (d : Disk) → IsFaithful (machine_on d) d
machine_on-IsFaithful d = record {
  read_some = λ h id t e. found-some (content d h (get_state_path id)) t e;
  read_none = λ h id e. found-none (content d h (get_state_path id)) e;
  from_json-to_json = λ t x e. json_back d t x e;
}

pub machine-IsFaithful : (s : State) → IsFaithful (machine s) (with_box s)
machine-IsFaithful s = machine_on-IsFaithful (with_box s)

pub machine-IsCooperative : (s : State) → IsCooperative (machine s) (with_box s)
machine-IsCooperative s = record {
  reads_content = λ h p t e. rw e;
  writes_succeed = λ h p t. tt;
  json_succeeds = λ t. tt;
  kills_succeed = λ h pid sig. tt;
  sockets_open = λ h. tt;
  addresses_fit = λ p. tt;
  connects_succeed = λ h fd p. tt;
}
