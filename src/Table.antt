-- ===== src/Table.antt =====
-- std's `HashMap<String, V>` as the code uses it: the list of its entries. Its order shows only in
-- `keys`, and `HasUniqueKeys` is what std keeps.
use clonebox.Prelude.{
  Text, ◌≡◌, refl, Option, none, some, List, [], ◌∷◌, arith, text_eq, text_eq_iff, if◌then◌else◌,
}

abbrev pub Table {ℓ} : Type ℓ → Type ℓ
Table V = List (Text × V)

module _ {ℓ} {V : Type ℓ} where
  -- get, get_mut
  unfoldable pub lookup : Text → Table V → Option V
  lookup k [] = none
  lookup k ((j, v) ∷ m) = if text_eq j k then some v else lookup k m

  -- A write through the reference of `get_mut`.
  unfoldable pub modify : Text → (V → V) → Table V → Table V
  modify k f [] = []
  modify k f ((j, v) ∷ m) = if text_eq j k then (j, f v) ∷ m else (j, v) ∷ modify k f m

  -- remove_entry
  unfoldable pub remove : Text → Table V → Table V
  remove k [] = []
  remove k ((j, v) ∷ m) = if text_eq j k then m else (j, v) ∷ remove k m

  -- entry(k).or_insert(v)
  unfoldable pub or_insert : Text → V → Table V → Table V
  or_insert k v [] = (k, v) ∷ []
  or_insert k v ((j, w) ∷ m) = if text_eq j k then (j, w) ∷ m else (j, w) ∷ or_insert k v m

  unfoldable pub keys : Table V → List Text
  keys [] = []
  keys ((j, v) ∷ m) = j ∷ keys m

  abbrev pub HasUniqueKeys : Table V → Type ℓ
  HasUniqueKeys [] = Unit {ℓ}
  HasUniqueKeys ((j, v) ∷ m) = (lookup j m ≡ none) × HasUniqueKeys m

  abbrev mapped : (V → V) → Option V → Option V
  mapped f none = none
  mapped f (some v) = some (f v)

  abbrev pub or_value : Option V → V → Option V
  or_value none v = some v
  or_value (some w) v = some w

  pub lookup-modify :
      (k j : Text) (f : V → V) (m : Table V)
      → lookup j (modify k f m) ≡ (if text_eq k j then mapped f (lookup j m) else lookup j m)
  unfolding lookup modify
  lookup-modify k j f [] = ground arith
  lookup-modify k j f ((i, v) ∷ m) =
      ground (arith, lookup-modify k j f m, text_eq_iff i k, text_eq_iff i j, text_eq_iff k j)

  pub lookup-or_insert :
      (k j : Text) (v : V) (m : Table V)
      → lookup j (or_insert k v m) ≡ (if text_eq k j then or_value (lookup j m) v else lookup j m)
  unfolding lookup or_insert
  lookup-or_insert k j v [] = ground arith
  lookup-or_insert k j v ((i, w) ∷ m) =
      ground (arith, lookup-or_insert k j v m, text_eq_iff i k, text_eq_iff i j, text_eq_iff k j)

  pub lookup-remove :
      (k j : Text) (m : Table V)
      → HasUniqueKeys m
      → lookup j (remove k m) ≡ (if text_eq k j then none else lookup j m)
  unfolding lookup remove
  lookup-remove k j [] u = ground arith
  lookup-remove k j ((i, v) ∷ m) u =
      ground (arith, lookup-remove k j m u.1, text_eq_iff i k, text_eq_iff i j, text_eq_iff k j)

  pub modify-HasUniqueKeys :
      (k : Text) (f : V → V) (m : Table V) → HasUniqueKeys m → HasUniqueKeys (modify k f m)
  unfolding modify
  modify-HasUniqueKeys k f [] u = tt
  modify-HasUniqueKeys k f ((i, v) ∷ m) u = ground (
    arith,
    modify-HasUniqueKeys k f m u.1,
    lookup-modify k i f m,
    text_eq_iff k i,
    text_eq_iff i k,
  )

  pub or_insert-HasUniqueKeys :
      (k : Text) (v : V) (m : Table V) → HasUniqueKeys m → HasUniqueKeys (or_insert k v m)
  unfolding or_insert lookup
  or_insert-HasUniqueKeys k v [] u = (refl, tt)
  or_insert-HasUniqueKeys k v ((i, w) ∷ m) u = ground (
    arith,
    or_insert-HasUniqueKeys k v m u.1,
    lookup-or_insert k i v m,
    text_eq_iff k i,
    text_eq_iff i k,
  )

  pub remove-HasUniqueKeys : (k : Text) (m : Table V) → HasUniqueKeys m → HasUniqueKeys (remove k m)
  unfolding remove
  remove-HasUniqueKeys k [] u = tt
  remove-HasUniqueKeys k ((i, v) ∷ m) u = ground (
    arith,
    remove-HasUniqueKeys k m u.1,
    lookup-remove k i m u.1,
    text_eq_iff k i,
    text_eq_iff i k,
  )
