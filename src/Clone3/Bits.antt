-- ===== src/Clone3/Bits.antt =====
-- Laws of the native `bit_and` and `bit_or` that the flags need. Both run through the binary digits of
-- their arguments, lowest first, on a count that the first argument gives.
use Prim.Native.Nat.{min, max, bit_and, bit_or, digits, bit_and-bitwise, bit_or-bitwise}
use clonebox.Prelude.{ℕ, zero, suc, ◌+◌, ◌*◌, ◌/◌, ◌%◌, ◌≤◌, ◌≡◌, refl, ap, arith}

-- Any two counts that are large enough give the same.
counts_agree :
    (z : ℕ → ℕ) (f : ℕ → ℕ → ℕ) (i j x y : ℕ) → x ≤ i → x ≤ j → digits z f i x y ≡ digits z f j x y
counts_agree z f zero zero x y p q = refl
counts_agree z f (suc i) zero zero y p q = refl
counts_agree z f zero (suc j) zero y p q = refl
counts_agree z f (suc i) (suc j) zero y p q = refl
counts_agree z f zero (suc j) (suc x) y p q = absurd (omega (arith, p))
counts_agree z f (suc i) zero (suc x) y p q = absurd (omega (arith, q))
counts_agree z f (suc i) (suc j) (suc x) y p q =
    ap (λ d. d * 2 + f (suc x % 2) (y % 2))
      (counts_agree z f i j (suc x / 2) (y / 2) (omega (arith, p)) (omega (arith, q)))

and_digit : (x y : ℕ) → bit_and x y ≡ bit_and (x / 2) (y / 2) * 2 + min (x % 2) (y % 2)
and_digit zero y = ground (arith, bit_and-bitwise 0 y, bit_and-bitwise 0 (y / 2))
and_digit (suc x) y = omega (
  arith,
  bit_and-bitwise (suc x) y,
  bit_and-bitwise (suc x / 2) (y / 2),
  counts_agree (λ b. 0) min x (suc x / 2) (suc x / 2) (y / 2) (omega arith) (omega arith),
)

or_digit : (x y : ℕ) → bit_or x y ≡ bit_or (x / 2) (y / 2) * 2 + max (x % 2) (y % 2)
or_digit zero y = omega (arith, bit_or-bitwise 0 y, bit_or-bitwise 0 (y / 2))
or_digit (suc x) y = omega (
  arith,
  bit_or-bitwise (suc x) y,
  bit_or-bitwise (suc x / 2) (y / 2),
  counts_agree (λ b. b) max x (suc x / 2) (suc x / 2) (y / 2) (omega arith) (omega arith),
)

or_half : (x y : ℕ) → bit_or x y / 2 ≡ bit_or (x / 2) (y / 2)
or_half x y = omega (arith, or_digit x y)

-- A mask that shares no digit with the flags that are added reads the same before and after.
unread_within :
    (n x more mask : ℕ)
    → x ≤ n
    → more ≤ n
    → bit_and more mask ≡ 0
    → bit_and (bit_or x more) mask ≡ bit_and x mask
unread_within zero x more mask p q apart = ground (arith, p, q)
unread_within (suc n) x more mask p q apart = omega (
  arith,
  and_digit (bit_or x more) mask,
  and_digit x mask,
  and_digit more mask,
  or_digit x more,
  ap (λ v. bit_and v (mask / 2)) (or_half x more),
  apart,
  unread_within n (x / 2) (more / 2) (mask / 2) (omega (arith, p)) (omega (arith, q))
      (omega (arith, and_digit more mask, apart)),
)

pub bit_and-bit_or_apart :
    (x more mask : ℕ) → bit_and more mask ≡ 0 → bit_and (bit_or x more) mask ≡ bit_and x mask
bit_and-bit_or_apart x more mask = unread_within (x + more) x more mask (omega arith) (omega arith)

kept_within : (n x more : ℕ) → x ≤ n → more ≤ n → bit_and (bit_or x more) more ≡ more
kept_within zero x more p q = ground (arith, p, q)
kept_within (suc n) x more p q = omega (
  arith,
  and_digit (bit_or x more) more,
  or_digit x more,
  ap (λ v. bit_and v (more / 2)) (or_half x more),
  kept_within n (x / 2) (more / 2) (omega (arith, p)) (omega (arith, q)),
)

-- Flags that were added are there.
pub bit_and-bit_or_same : (x more : ℕ) → bit_and (bit_or x more) more ≡ more
bit_and-bit_or_same x more = kept_within (x + more) x more (omega arith) (omega arith)
