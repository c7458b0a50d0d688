-- ===== src/Handshake/Marks.antt =====
-- The calls of `create` that are steps of the parent in Handshake.antt, and paths through them.
use clonebox.Prelude.{
  Text, ◌≡◌, refl, sym, ap, ◌∙◌, Option, none, some, List, [], ◌∷◌, ◌++◌, arith, text_eq,
  if◌then◌else◌,
}
use mathlib.Core.List.{append_assoc, append-nil}
use clonebox.State.{get_state_path}
use clonebox.Os.{
  success, Call, did, did_write, bind_unix, listen, accept4, write_fd, waitpid, Outcome, ok, err,
  gone, History, Sys, proceed,
}

-- The calls that are steps of the parent.
pub data Mark : Type 0 where
  writes_state binds listens_on accepts_one writes_byte reaps_child : Mark

abbrev pub marked : Option Mark → List Mark → List Mark
marked none l = l
marked (some x) l = x ∷ l

unfoldable pub mark : Text → Call → Option Mark
mark id (did_write p t (success _)) =
    if text_eq p (get_state_path id) then some writes_state else none
mark id (did (bind_unix fd p) (success _)) = some binds
mark id (did (listen fd n) (success _)) = some listens_on
mark id (did (accept4 fd) (success _)) = some accepts_one
mark id (did (write_fd fd t) (success _)) = some writes_byte
mark id (did (waitpid pid) (success _)) = some reaps_child
mark id _ = none

-- The marks of a history, newest first.
unfoldable pub marks : Text → History → List Mark
unfolding mark
marks id [] = []
marks id (c ∷ h) = marked (mark id c) (marks id h)

-- The first list, in its order, on top of the second.
abbrev pub onto : List Mark → List Mark → List Mark
onto [] l = l
onto (x ∷ xs) l = onto xs (x ∷ l)

abbrev pub NoneLeft : {A : Type 0} → Outcome A → List Mark → Type 0
NoneLeft (ok a) rest = rest ≡ []
NoneLeft _ rest = Unit {0}

-- The marks that the code adds are a first part of a list, and all of it if the code returns.
abbrev pub Goes : Text → List Mark → {A : Type 0} → Outcome A → History → History → Type 0
Goes id path {A} r before after =
    (done rest : List Mark) × (path ≡ done ++ rest)
    × (marks id after ≡ onto done (marks id before))
    × NoneLeft r rest

onto-++ : (xs ys l : List Mark) → onto (xs ++ ys) l ≡ onto ys (onto xs l)
onto-++ [] ys l = refl
onto-++ (x ∷ xs) ys l = onto-++ xs ys (x ∷ l)

pub proceed-Goes :
    {A B : Type 0} (id : Text) (path more : List Mark) (r : Outcome A) (k : A → Sys B)
    (h h1 : History)
    → Goes id path r h h1
    → ((a : A) → r ≡ ok a → Goes id more (k a h1).0 h1 (k a h1).1)
    → Goes id (path ++ more) (proceed r k h1).0 h (proceed r k h1).1
proceed-Goes id path more (ok a) k h h1 (done, rest, whole, now, all) next =
    let (done', rest', whole', now', all') = next a refl in
    (
      done ++ done',
      rest',
      grind (arith, whole, whole', all, append-nil, append_assoc),
      now' ∙ (ap (onto done') now ∙ sym (onto-++ done done' (marks id h))),
      all',
    )
proceed-Goes id path more (err e) k h h1 (done, rest, whole, now, all) next =
    (done, rest ++ more, grind (arith, whole, append_assoc), now, tt)
proceed-Goes id path more (gone x) k h h1 (done, rest, whole, now, all) next =
    (done, rest ++ more, grind (arith, whole, append_assoc), now, tt)

-- What a step adds that makes one mark, if it returns.
abbrev pub after_step : {A : Type 0} → Outcome A → Mark → List Mark → List Mark
after_step (ok a) x l = x ∷ l
after_step _ x l = l

pub one-Goes :
    {A : Type 0} (id : Text) (x : Mark) (r : Outcome A) (h h1 : History)
    → marks id h1 ≡ after_step r x (marks id h)
    → Goes id (x ∷ []) r h h1
one-Goes id x (ok a) h h1 p = (x ∷ [], [], refl, p, refl)
one-Goes id x (err e) h h1 p = ([], x ∷ [], refl, p, tt)
one-Goes id x (gone e) h h1 p = ([], x ∷ [], refl, p, tt)

pub none-Goes :
    {A : Type 0} (id : Text) (r : Outcome A) (h h1 : History)
    → marks id h1 ≡ marks id h
    → Goes id [] r h h1
none-Goes id (ok a) h h1 p = ([], [], refl, p, refl)
none-Goes id (err e) h h1 p = ([], [], refl, p, tt)
none-Goes id (gone x) h h1 p = ([], [], refl, p, tt)
