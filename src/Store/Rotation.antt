-- ===== src/Store/Rotation.antt =====
-- Rotate (internal/store/memory.go) hands the keys of a list out in turn.
use mathlib.Core.List.{reverse, reverse-reverse, reverse-cons, append_assoc, append-nil}
use gpt_load_fix.Prelude.{
  ℕ, zero, suc, ◌≡◌, refl, ap, ◌∙◌, sym, some, List, [], ◌∷◌, ◌++◌, arith, length, length-reverse,
}
use gpt_load_fix.Prelude.Text.{Text}
use gpt_load_fix.Exec.{Result, ok, err}
use gpt_load_fix.Store.{list, Store, lookup, write, write-write, write_same, lookup-write_self}
use gpt_load_fix.Store.Lists.{rotate, split_last}

abbrev collect : Result Text → List Text → List Text
collect (ok x) xs = x ∷ xs
collect (err e) xs = xs

-- `n` calls of Rotate: the keys they return, and the store they leave.
unfoldable pub rotations : ℕ → Text → Store → List Text × Store
rotations zero key s = ([], s)
rotations (suc n) key s =
    let (r, s') = rotate key s in let (xs, s'') = rotations n key s' in (collect r xs, s'')

split_last-snoc :
    (y : Text) (ys xs : List Text) (x : Text) → y ∷ ys ≡ xs ++ x ∷ [] → split_last y ys ≡ (xs, x)
unfolding split_last
split_last-snoc y [] [] x h = ground (arith, h)
split_last-snoc y [] (x' ∷ []) x h = cc
split_last-snoc y [] (x' ∷ x'' ∷ xs) x h = cc
split_last-snoc y (y' ∷ ys) [] x h = cc
split_last-snoc y (y' ∷ ys) (x' ∷ xs) x h = ground (arith, h, split_last-snoc y' ys xs x)

pub rotate_list :
    (key : Text) (s : Store) (xs : List Text) (x : Text) (l : List Text)
    → l ≡ xs ++ x ∷ []
    → lookup s key ≡ some (list l)
    → rotate key s ≡ (ok x, write s key (list (x ∷ xs)))
unfolding rotate
rotate_list key s [] x [] e h = cc
rotate_list key s (x' ∷ xs) x [] e h = cc
rotate_list key s xs x (y ∷ ys) e h = rw (h, rotate, split_last-snoc y ys xs x e)

rotations-step :
    (n : ℕ) (key : Text) (s s' : Store) (x : Text)
    → rotate key s ≡ (ok x, s')
    → rotations (suc n) key s ≡ (x ∷ (rotations n key s').0, (rotations n key s').1)
unfolding rotations
rotations-step n key s s' x h =
    λ i. (collect (h i).0 (rotations n key (h i).1).0, (rotations n key (h i).1).1)

rotations_list :
    (key : Text) (s : Store) (zs ys l : List Text)
    → l ≡ ys ++ reverse zs
    → lookup s key ≡ some (list l)
    → rotations (length zs) key s ≡ (zs, write s key (list (reverse zs ++ ys)))
unfolding rotations
rotations_list key s [] ys l e h =
    ap (λ (s' : Store). ([], s'))
      (sym (write_same s key (list ys) (h ∙ ap (λ l'. some (list l')) (e ∙ append-nil ys))))
rotations_list key s (z ∷ zs) ys l e h =
    rotations-step (length zs) key s (write s key (list (z ∷ (ys ++ reverse zs)))) z
      (rotate_list key s (ys ++ reverse zs) z l (e ∙ grouped) h)
    ∙ ap (λ (r : List Text × Store). (z ∷ r.0, r.1))
        (rotations_list key (write s key (list (z ∷ (ys ++ reverse zs)))) zs (z ∷ ys)
          (z ∷ (ys ++ reverse zs)) refl (lookup-write_self s key _))
    ∙ ap (λ (s' : Store). (z ∷ zs, s'))
        (write-write s key _ _ ∙ ap (λ l'. write s key (list l')) regrouped)
  where
    grouped : ys ++ reverse (z ∷ zs) ≡ (ys ++ reverse zs) ++ z ∷ []
    grouped = rw (reverse-cons z zs) (sym (append_assoc ys (reverse zs) (z ∷ [])))

    regrouped : reverse zs ++ z ∷ ys ≡ reverse (z ∷ zs) ++ ys
    regrouped = rw (reverse-cons z zs) (sym (append_assoc (reverse zs) (z ∷ []) ys))

-- As many calls of Rotate as a list has entries return each entry once, from the last to the first,
-- and leave the store as it was. (This includes the empty list, with no call.)
pub round_robin :
    (key : Text) (s : Store) (xs : List Text)
    → lookup s key ≡ some (list xs)
    → rotations (length xs) key s ≡ (reverse xs, s)
round_robin key s xs h = rw (← length-reverse xs) (
    rotations_list key s (reverse xs) [] xs (sym (reverse-reverse xs)) h
    ∙ ap (λ (s' : Store). (reverse xs, s'))
        (write_same s key _
          (h ∙ ap (λ l. some (list l)) (sym (append-nil _ ∙ reverse-reverse xs)))))
