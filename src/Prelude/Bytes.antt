-- ===== src/Prelude/Bytes.antt =====
-- Texts: a Rust `String` is its list of bytes. A literal is written `codes "..."`.
use Prim.Native.Nat.{ℕ}
use Prim.Native.Char.{code}
use Prim.Native.String.{String}
use mathlib.Core.Path.{◌≡◌, refl}
use mathlib.Core.Logic.{◌↔◌}
use mathlib.Core.Bool.{Bool, true, false, ◌&&◌, ◌||◌}
use mathlib.Core.List.{List, [], ◌∷◌, ◌++◌}
use native.Mathlib.Omega.{arith}
use clonebox.Prelude.Tests.{◌==◌}

abbrev pub Text : Type 0
Text = List ℕ

-- The code points of a literal, which are its bytes, since the literals are ASCII.
abbrev pub codes : String → Text
codes String.[] = []
codes (String.◌∷◌ c s) = code c ∷ codes s

unfoldable pub text_eq : Text → Text → Bool
text_eq [] [] = true
text_eq [] (y ∷ ys) = false
text_eq (x ∷ xs) [] = false
text_eq (x ∷ xs) (y ∷ ys) = x == y && text_eq xs ys

-- str::starts_with, the prefix first
unfoldable pub starts_with : Text → Text → Bool
starts_with [] t = true
starts_with (x ∷ xs) [] = false
starts_with (x ∷ xs) (y ∷ ys) = x == y && starts_with xs ys

-- str::contains, the part first
unfoldable pub contains : Text → Text → Bool
unfolding starts_with
contains part [] = starts_with part []
contains part (y ∷ ys) = starts_with part (y ∷ ys) || contains part ys

pub text_eq_refl : (s : Text) → text_eq s s ≡ true
unfolding text_eq
text_eq_refl [] = refl
text_eq_refl (x ∷ xs) = ground (arith, text_eq_refl xs)

pub eq_of_text_eq : (s t : Text) → text_eq s t ≡ true → s ≡ t
unfolding text_eq
eq_of_text_eq [] [] h = refl
eq_of_text_eq [] (y ∷ ys) h = cc
eq_of_text_eq (x ∷ xs) [] h = cc
eq_of_text_eq (x ∷ xs) (y ∷ ys) h = ground (arith, eq_of_text_eq xs ys)

pub text_eq_iff : (s t : Text) → (text_eq s t ≡ true) ↔ (s ≡ t)
text_eq_iff s t = (eq_of_text_eq s t, λ e. rw e (text_eq_refl t))

-- What follows a common front can be compared alone.
pub text_eq-append_left : (p s t : Text) → text_eq (p ++ s) (p ++ t) ≡ text_eq s t
unfolding text_eq
text_eq-append_left [] s t = refl
text_eq-append_left (x ∷ p) s t = ground (arith, text_eq-append_left p s t)
