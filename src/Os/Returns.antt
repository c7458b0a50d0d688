-- ===== src/Os/Returns.antt =====
-- What holds of the histories before and after a piece of code that returns, put together step by step.
use clonebox.Prelude.{◌≡◌, ◌≢◌, refl, arith}
use clonebox.Os.Kernel.{History, Outcome, ok, err, gone, End}
use clonebox.Os.Monad.{Sys, proceed, ◌>>=◌}

abbrev pub Relation : Type 1
Relation = History → History → Type 0

abbrev pub Returns : Relation → {A : Type 0} → Sys A → Type 0
Returns P {A} m = (h : History) (a : A) → (m h).0 ≡ ok a → P h (m h).1

-- The same of code whose process ends in a given way.
abbrev pub Ends : End → Relation → {A : Type 0} → Sys A → Type 0
Ends x P m = (h : History) → (m h).0 ≡ gone x → P h (m h).1

module _ {A B : Type 0} {P Q R : Relation}
    (joins : (h h1 h2 : History) → P h h1 → Q h1 h2 → R h h2) where
  proceed-Returns :
      (r : Outcome A) (k : A → Sys B) (h h1 : History) (b : B)
      → ((a : A) → r ≡ ok a → P h h1)
      → ((a : A) → Returns Q (k a))
      → (proceed r k h1).0 ≡ ok b
      → R h (proceed r k h1).1
  proceed-Returns (ok a) k h h1 b first rest done =
      joins h h1 (k a h1).1 (first a refl) (rest a h1 b done)
  proceed-Returns (err e) k h h1 b first rest done = absurd (ground (arith, done))
  proceed-Returns (gone e) k h h1 b first rest done = absurd (ground (arith, done))

  pub >>=-Returns :
      (m : Sys A) (k : A → Sys B) → Returns P m → ((a : A) → Returns Q (k a)) → Returns R (m >>= k)
  >>=-Returns m k first rest h b done = proceed-Returns (m h).0 k h (m h).1 b (first h) rest done

  proceed-Ends :
      (x : End) (r : Outcome A) (k : A → Sys B) (h h1 : History)
      → r ≢ gone x
      → ((a : A) → r ≡ ok a → P h h1)
      → ((a : A) → Ends x Q (k a))
      → (proceed r k h1).0 ≡ gone x
      → R h (proceed r k h1).1
  proceed-Ends x (ok a) k h h1 stays first rest done =
      joins h h1 (k a h1).1 (first a refl) (rest a h1 done)
  proceed-Ends x (err e) k h h1 stays first rest done = absurd (ground (arith, done))
  proceed-Ends x (gone e) k h h1 stays first rest done = absurd (ground (arith, stays, done))

  pub >>=-Ends :
      (x : End) (m : Sys A) (k : A → Sys B)
      → ((h : History) → (m h).0 ≢ gone x)
      → Returns P m
      → ((a : A) → Ends x Q (k a))
      → Ends x R (m >>= k)
  >>=-Ends x m k stays first rest h done =
      proceed-Ends x (m h).0 k h (m h).1 (stays h) (first h) rest done

-- What follows from the result of a first step.
module _ {A B : Type 0} (G : History → Type 0) (b : B) where
  proceed_then :
      (r : Outcome A) (k : A → Sys B) (h1 : History)
      → ((a : A) → r ≡ ok a → (k a h1).0 ≡ ok b → G (k a h1).1)
      → (proceed r k h1).0 ≡ ok b
      → G (proceed r k h1).1
  proceed_then (ok a) k h1 rest done = rest a refl done
  proceed_then (err x) k h1 rest done = absurd (ground (arith, done))
  proceed_then (gone x) k h1 rest done = absurd (ground (arith, done))

  pub value_then :
      (m : Sys A) (k : A → Sys B) (h : History)
      → ((a : A) → (m h).0 ≡ ok a → (k a (m h).1).0 ≡ ok b → G (k a (m h).1).1)
      → ((m >>= k) h).0 ≡ ok b
      → G ((m >>= k) h).1
  value_then m k h = proceed_then (m h).0 k (m h).1
