-- ===== src/Clone3/Setters.antt =====
-- The checks of `build` against the setters, which set a flag together with its argument.
use clonebox.Prelude.{ℕ, ◌≡◌, ◌≢◌, refl, false, Option, none, some, List, [], ◌∷◌, ℤ, arith}
use Prim.Native.Nat.{bit_and, bit_or}
use clonebox.Os.{Signal}
use clonebox.Clone3.{
  Clone3, new, flags, stack, pidfd, child_tid, parent_tid, tls, set_tid, cgroup, lacks, missing,
  clone_pidfd, clone_child_settid, clone_parent_settid, clone_settls, clone_into_cgroup,
}
use clonebox.Clone3.Bits.{bit_and-bit_or_apart, bit_and-bit_or_same}

-- One call of a setter.
pub data Setter : Type 0 where
  sets_flags sets_stack sets_tls : ℕ → Setter
  sets_pidfd sets_child_tid sets_parent_tid sets_cgroup : ℤ → Setter
  sets_tids : Option (List ℤ) → Setter

unfoldable pub apply_setter : Setter → Clone3 → Clone3
apply_setter (sets_flags more) = flags more
apply_setter (sets_stack size) = stack size
apply_setter (sets_tls value) = tls value
apply_setter (sets_pidfd fd) = pidfd fd
apply_setter (sets_child_tid id) = child_tid id
apply_setter (sets_parent_tid id) = parent_tid id
apply_setter (sets_cgroup fd) = cgroup fd
apply_setter (sets_tids ids) = set_tid ids

unfoldable pub apply_setters : List Setter → Clone3 → Clone3
apply_setters [] c = c
apply_setters (s ∷ ss) c = apply_setters ss (apply_setter s c)

-- Flags that want no argument.
abbrev pub IsPlain : ℕ → Type 0
IsPlain n =
    (bit_and n clone_pidfd ≡ 0)
    × (bit_and n clone_child_settid ≡ 0)
    × (bit_and n clone_parent_settid ≡ 0)
    × (bit_and n clone_settls ≡ 0)
    × (bit_and n clone_into_cgroup ≡ 0)

abbrev pub PlainSetter : Setter → Type 0
PlainSetter (sets_flags more) = IsPlain more
PlainSetter _ = Unit {0}

abbrev pub AllPlain : List Setter → Type 0
AllPlain [] = Unit {0}
AllPlain (s ∷ ss) = PlainSetter s × AllPlain ss

-- A flag is set exactly with its argument.
abbrev pub Pairs : {A : Type 0} → ℕ → ℕ → Option A → Type 0
Pairs flags bit none = bit_and flags bit ≡ 0
Pairs flags bit (some a) = bit_and flags bit ≢ 0

pub record IsPaired (c : Clone3) : Type 0 where
  pub pid_fd_pairs : Pairs c.flags_set clone_pidfd c.pid_fd
  pub child_id_pairs : Pairs c.flags_set clone_child_settid c.child_id
  pub parent_id_pairs : Pairs c.flags_set clone_parent_settid c.parent_id
  pub tls_value_pairs : Pairs c.flags_set clone_settls c.tls_value
  pub cgroup_fd_pairs : Pairs c.flags_set clone_into_cgroup c.cgroup_fd

-- Flags that are added elsewhere leave a pair alone.
Pairs-bit_or_apart :
    {A : Type 0} (x more bit : ℕ) (o : Option A)
    → bit_and more bit ≡ 0
    → Pairs x bit o
    → Pairs (bit_or x more) bit o
Pairs-bit_or_apart x more bit none apart p = rw (bit_and-bit_or_apart x more bit apart) p
Pairs-bit_or_apart x more bit (some a) apart p = rw (bit_and-bit_or_apart x more bit apart) p

Pairs-bit_or : {A : Type 0} (x bit : ℕ) (a : A) → bit ≢ 0 → Pairs (bit_or x bit) bit (some a)
Pairs-bit_or x bit a some_bit p = ground (arith, bit_and-bit_or_same x bit, some_bit, p)

setter-IsPaired :
    (s : Setter) (c : Clone3) → PlainSetter s → IsPaired c → IsPaired (apply_setter s c)
unfolding apply_setter flags stack set_tid pidfd child_tid parent_tid tls cgroup
setter-IsPaired (sets_stack size) c plain v = record {
  pid_fd_pairs = v.pid_fd_pairs;
  child_id_pairs = v.child_id_pairs;
  parent_id_pairs = v.parent_id_pairs;
  tls_value_pairs = v.tls_value_pairs;
  cgroup_fd_pairs = v.cgroup_fd_pairs;
}
setter-IsPaired (sets_tids ids) c plain v = record {
  pid_fd_pairs = v.pid_fd_pairs;
  child_id_pairs = v.child_id_pairs;
  parent_id_pairs = v.parent_id_pairs;
  tls_value_pairs = v.tls_value_pairs;
  cgroup_fd_pairs = v.cgroup_fd_pairs;
}
setter-IsPaired (sets_flags more) c (a0, a1, a2, a3, a4) v = record {
  pid_fd_pairs = Pairs-bit_or_apart c.flags_set more clone_pidfd c.pid_fd a0 v.pid_fd_pairs;
  child_id_pairs =
      Pairs-bit_or_apart c.flags_set more clone_child_settid c.child_id a1 v.child_id_pairs;
  parent_id_pairs =
      Pairs-bit_or_apart c.flags_set more clone_parent_settid c.parent_id a2 v.parent_id_pairs;
  tls_value_pairs =
      Pairs-bit_or_apart c.flags_set more clone_settls c.tls_value a3 v.tls_value_pairs;
  cgroup_fd_pairs =
      Pairs-bit_or_apart c.flags_set more clone_into_cgroup c.cgroup_fd a4 v.cgroup_fd_pairs;
}
setter-IsPaired (sets_pidfd fd) c plain v = record {
  pid_fd_pairs = Pairs-bit_or c.flags_set clone_pidfd fd (λ p. ground (arith, p));
  child_id_pairs =
      Pairs-bit_or_apart c.flags_set clone_pidfd clone_child_settid c.child_id refl
        v.child_id_pairs;
  parent_id_pairs =
      Pairs-bit_or_apart c.flags_set clone_pidfd clone_parent_settid c.parent_id refl
        v.parent_id_pairs;
  tls_value_pairs =
      Pairs-bit_or_apart c.flags_set clone_pidfd clone_settls c.tls_value refl v.tls_value_pairs;
  cgroup_fd_pairs =
      Pairs-bit_or_apart c.flags_set clone_pidfd clone_into_cgroup c.cgroup_fd refl
        v.cgroup_fd_pairs;
}
setter-IsPaired (sets_child_tid id) c plain v = record {
  pid_fd_pairs =
      Pairs-bit_or_apart c.flags_set clone_child_settid clone_pidfd c.pid_fd refl v.pid_fd_pairs;
  child_id_pairs = Pairs-bit_or c.flags_set clone_child_settid id (λ p. ground (arith, p));
  parent_id_pairs =
      Pairs-bit_or_apart c.flags_set clone_child_settid clone_parent_settid c.parent_id refl
        v.parent_id_pairs;
  tls_value_pairs =
      Pairs-bit_or_apart c.flags_set clone_child_settid clone_settls c.tls_value refl
        v.tls_value_pairs;
  cgroup_fd_pairs =
      Pairs-bit_or_apart c.flags_set clone_child_settid clone_into_cgroup c.cgroup_fd refl
        v.cgroup_fd_pairs;
}
setter-IsPaired (sets_parent_tid id) c plain v = record {
  pid_fd_pairs =
      Pairs-bit_or_apart c.flags_set clone_parent_settid clone_pidfd c.pid_fd refl v.pid_fd_pairs;
  child_id_pairs =
      Pairs-bit_or_apart c.flags_set clone_parent_settid clone_child_settid c.child_id refl
        v.child_id_pairs;
  parent_id_pairs = Pairs-bit_or c.flags_set clone_parent_settid id (λ p. ground (arith, p));
  tls_value_pairs =
      Pairs-bit_or_apart c.flags_set clone_parent_settid clone_settls c.tls_value refl
        v.tls_value_pairs;
  cgroup_fd_pairs =
      Pairs-bit_or_apart c.flags_set clone_parent_settid clone_into_cgroup c.cgroup_fd refl
        v.cgroup_fd_pairs;
}
setter-IsPaired (sets_tls value) c plain v = record {
  pid_fd_pairs =
      Pairs-bit_or_apart c.flags_set clone_settls clone_pidfd c.pid_fd refl v.pid_fd_pairs;
  child_id_pairs =
      Pairs-bit_or_apart c.flags_set clone_settls clone_child_settid c.child_id refl
        v.child_id_pairs;
  parent_id_pairs =
      Pairs-bit_or_apart c.flags_set clone_settls clone_parent_settid c.parent_id refl
        v.parent_id_pairs;
  tls_value_pairs = Pairs-bit_or c.flags_set clone_settls value (λ p. ground (arith, p));
  cgroup_fd_pairs =
      Pairs-bit_or_apart c.flags_set clone_settls clone_into_cgroup c.cgroup_fd refl
        v.cgroup_fd_pairs;
}
setter-IsPaired (sets_cgroup fd) c plain v = record {
  pid_fd_pairs =
      Pairs-bit_or_apart c.flags_set clone_into_cgroup clone_pidfd c.pid_fd refl v.pid_fd_pairs;
  child_id_pairs =
      Pairs-bit_or_apart c.flags_set clone_into_cgroup clone_child_settid c.child_id refl
        v.child_id_pairs;
  parent_id_pairs =
      Pairs-bit_or_apart c.flags_set clone_into_cgroup clone_parent_settid c.parent_id refl
        v.parent_id_pairs;
  tls_value_pairs =
      Pairs-bit_or_apart c.flags_set clone_into_cgroup clone_settls c.tls_value refl
        v.tls_value_pairs;
  cgroup_fd_pairs = Pairs-bit_or c.flags_set clone_into_cgroup fd (λ p. ground (arith, p));
}

setters-IsPaired :
    (ss : List Setter) (c : Clone3) → AllPlain ss → IsPaired c → IsPaired (apply_setters ss c)
unfolding apply_setters
setters-IsPaired [] c plain v = v
setters-IsPaired (s ∷ ss) c (one, rest) v =
    setters-IsPaired ss (apply_setter s c) rest (setter-IsPaired s c one v)

Pairs-lacks : {A : Type 0} (x bit : ℕ) (o : Option A) → Pairs x bit o → lacks x bit o ≡ false
Pairs-lacks x bit none p = ground (arith, p)
Pairs-lacks x bit (some a) p = ground arith

missing-none : (c : Clone3) → IsPaired c → missing c ≡ none
unfolding missing
missing-none c v = ground (
  arith,
  Pairs-lacks c.flags_set clone_pidfd c.pid_fd v.pid_fd_pairs,
  Pairs-lacks c.flags_set clone_child_settid c.child_id v.child_id_pairs,
  Pairs-lacks c.flags_set clone_parent_settid c.parent_id v.parent_id_pairs,
  Pairs-lacks c.flags_set clone_settls c.tls_value v.tls_value_pairs,
  Pairs-lacks c.flags_set clone_into_cgroup c.cgroup_fd v.cgroup_fd_pairs,
)

new-IsPaired : (signal : Option Signal) → IsPaired (new signal)
new-IsPaired signal = record {
  pid_fd_pairs = refl;
  child_id_pairs = refl;
  parent_id_pairs = refl;
  tls_value_pairs = refl;
  cgroup_fd_pairs = refl;
}

-- Whatever setters are called on a new builder, in whatever order and how often, as long as `flags` is
-- given none of the five flags that want an argument: each of the five is set exactly if its argument
-- is, and none of the checks of `build` refuses the builder.
pub setters_complete :
    (signal : Option Signal) (ss : List Setter)
    → AllPlain ss
    → IsPaired (apply_setters ss (new signal)) × (missing (apply_setters ss (new signal)) ≡ none)
setters_complete signal ss plain = (paired, missing-none (apply_setters ss (new signal)) paired)
  where
    paired : IsPaired (apply_setters ss (new signal))
    paired = setters-IsPaired ss (new signal) plain (new-IsPaired signal)
