-- ===== src/Network/Words.antt =====
-- `to_ne_bytes` and `from_ne_bytes` of std, for either byte order of the machine. A word is its bit
-- pattern, also where the source has an `i32`.
use mathlib.Core.List.{reverse, reverse-reverse, reverse-cons}
use clonebox.Prelude.{
  ℕ, zero, suc, ◌+◌, ◌*◌, ◌/◌, ◌%◌, ◌^◌, ◌<◌, ◌≡◌, refl, List, [], ◌∷◌, arith, length,
  length-append,
}

pub data Endian : Type 0 where
  little big : Endian

le_bytes : ℕ → ℕ → List ℕ
le_bytes zero n = []
le_bytes (suc k) n = (n % 256) ∷ le_bytes k (n / 256)

of_le : List ℕ → ℕ
of_le [] = 0
of_le (b ∷ bs) = b + 256 * of_le bs

-- n.to_ne_bytes() for a word of `size` bytes
unfoldable pub to_ne_bytes : Endian → ℕ → ℕ → List ℕ
unfolding le_bytes
to_ne_bytes little size n = le_bytes size n
to_ne_bytes big size n = reverse (le_bytes size n)

unfoldable pub from_ne_bytes : Endian → List ℕ → ℕ
unfolding of_le
from_ne_bytes little bs = of_le bs
from_ne_bytes big bs = of_le (reverse bs)

length-le_bytes : (k n : ℕ) → length (le_bytes k n) ≡ k
unfolding le_bytes
length-le_bytes zero n = refl
length-le_bytes (suc k) n = omega (arith, length-le_bytes k (n / 256))

length-reverse : (xs : List ℕ) → length (reverse xs) ≡ length xs
length-reverse [] = refl
length-reverse (x ∷ xs) =
    rw (reverse-cons x xs) (omega (arith, length-append (reverse xs) (x ∷ []), length-reverse xs))

pub length-to_ne_bytes : (e : Endian) (k n : ℕ) → length (to_ne_bytes e k n) ≡ k
unfolding to_ne_bytes
length-to_ne_bytes little k n = length-le_bytes k n
length-to_ne_bytes big k n = rw (length-reverse (le_bytes k n)) (length-le_bytes k n)

of_le-le_bytes : (k n : ℕ) → n < 256 ^ k → of_le (le_bytes k n) ≡ n
unfolding le_bytes of_le
of_le-le_bytes zero n h = grind arith
of_le-le_bytes (suc k) n h = grind (arith, of_le-le_bytes k (n / 256))

pub from_ne_bytes-to_ne_bytes :
    (e : Endian) (k n : ℕ) → n < 256 ^ k → from_ne_bytes e (to_ne_bytes e k n) ≡ n
unfolding to_ne_bytes from_ne_bytes
from_ne_bytes-to_ne_bytes little k n h = of_le-le_bytes k n h
from_ne_bytes-to_ne_bytes big k n h = rw (reverse-reverse (le_bytes k n)) (of_le-le_bytes k n h)
