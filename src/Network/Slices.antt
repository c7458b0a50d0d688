-- ===== src/Network/Slices.antt =====
-- Slices of bytes at the end of a known front.
use clonebox.Prelude.{
  ℕ, zero, suc, ◌+◌, ◌≤◌, ◌≡◌, refl, ap, List, [], ◌∷◌, ◌++◌, arith, length, take, drop,
}

pub take_front : (xs ys : List ℕ) → take (length xs) (xs ++ ys) ≡ xs
take_front [] ys = refl
take_front (x ∷ xs) ys = ap (◌∷◌ x) (take_front xs ys)

pub drop_front : (xs ys : List ℕ) → drop (length xs) (xs ++ ys) ≡ ys
drop_front [] ys = refl
drop_front (x ∷ xs) ys = drop_front xs ys

pub drop_front_more : (xs ys : List ℕ) (n : ℕ) → drop (length xs + n) (xs ++ ys) ≡ drop n ys
drop_front_more [] ys n = let e : 0 + n ≡ n = omega arith in rw e
drop_front_more (x ∷ xs) ys n =
    let e : suc (length xs) + n ≡ suc (length xs + n) = omega arith in
    rw e (drop_front_more xs ys n)

pub take_of : (n : ℕ) (xs ys : List ℕ) → length xs ≡ n → take n (xs ++ ys) ≡ xs
take_of n xs ys h = rw (← h) (take_front xs ys)

pub drop_of : (n : ℕ) (xs ys : List ℕ) → length xs ≡ n → drop n (xs ++ ys) ≡ ys
drop_of n xs ys h = rw (← h) (drop_front xs ys)

pub take-append_le : (n : ℕ) (xs ys : List ℕ) → n ≤ length xs → take n (xs ++ ys) ≡ take n xs
take-append_le zero xs ys h = refl
take-append_le (suc n) [] ys h = absurd (omega arith)
take-append_le (suc n) (x ∷ xs) ys h = ap (◌∷◌ x) (take-append_le n xs ys (omega arith))
