-- ===== src/Prelude/Lists.antt =====
-- Lists measured by native numbers, under the library's names.
use Prim.Native.Nat.{ℕ, suc, ◌+◌, ◌≤◌}
use mathlib.Core.Path.{◌≡◌, refl, ap}
use mathlib.Core.List.{List, [], ◌∷◌, ◌++◌, reverse, reverse-cons}
use native.Mathlib.Omega.{arith}
use gpt_load_fix.Prelude.Tests.{Eq, ◌=?◌, =?_iff, if◌then◌else◌}

module _ {ℓ} {A : Type ℓ} where
  abbrev pub length : List A → ℕ
  length [] = 0
  length (x ∷ xs) = suc (length xs)

  pub length-append : (xs ys : List A) → length (xs ++ ys) ≡ length xs + length ys
  length-append [] ys = omega arith
  length-append (x ∷ xs) ys = omega (arith, length-append xs ys)

  pub length-reverse : (xs : List A) → length (reverse xs) ≡ length xs
  length-reverse [] = refl
  length-reverse (x ∷ xs) =
      omega (
        arith,
        ap length (reverse-cons x xs),
        length-append (reverse xs) (x ∷ []),
        length-reverse xs,
      )

  abbrev pub All {κ} : (A → Type κ) → List A → Type κ
  All P [] = Unit
  All P (x ∷ xs) = P x × All P xs

  pub All-append {κ} : (P : A → Type κ) (xs ys : List A) → All P xs → All P ys → All P (xs ++ ys)
  All-append P [] ys hx hy = hy
  All-append P (x ∷ xs) ys hx hy = (hx.0, All-append P xs ys hx.1 hy)

  pub All-map {κ} : (P Q : A → Type κ) (xs : List A) → ((x : A) → P x → Q x) → All P xs → All Q xs
  All-map P Q [] f h = h
  All-map P Q (x ∷ xs) f h = (f x h.0, All-map P Q xs f h.1)

-- How often an item stands in a list, and a list without an item.
module _ {ℓ} {A : Type ℓ} ⦃e : Eq A⦄ where
  abbrev pub count : A → List A → ℕ
  count a [] = 0
  count a (x ∷ xs) = (if x =? a then 1 else 0) + count a xs

  abbrev pub without : A → List A → List A
  without a [] = []
  without a (x ∷ xs) = let rest = without a xs in if x =? a then rest else x ∷ rest

  pub count-append : (a : A) (xs ys : List A) → count a (xs ++ ys) ≡ count a xs + count a ys
  count-append a [] ys = omega arith
  count-append a (x ∷ xs) ys = ground (arith, count-append a xs ys)

  pub count-without :
      (a b : A) (xs : List A) → count b (without a xs) ≡ (if a =? b then 0 else count b xs)
  count-without a b [] = ground arith
  count-without a b (x ∷ xs) =
      ground (arith, count-without a b xs, =?_iff a b, =?_iff x a, =?_iff x b)

  pub length-without-le : (a : A) (xs : List A) → length (without a xs) ≤ length xs
  length-without-le a [] = omega arith
  length-without-le a (x ∷ xs) = ground (arith, length-without-le a xs)

  pub without_idem : (a : A) (xs : List A) → without a (without a xs) ≡ without a xs
  without_idem a [] = refl
  without_idem a (x ∷ xs) = ground (arith, without_idem a xs)
