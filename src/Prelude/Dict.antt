-- ===== src/Prelude/Dict.antt =====
-- A Go map, as an association list. The order of iteration, which Go leaves open, is the list's.
use mathlib.Core.Path.{◌≡◌, refl, ap}
use mathlib.Core.Logic.{inl, inr}
use mathlib.Core.Bool.{Bool, true, false}
use mathlib.Core.Option.{Option, none, some}
use mathlib.Core.List.{List, [], ◌∷◌}
use native.Mathlib.Omega.{arith}
use Prim.Native.Nat.{suc}
use gpt_load_fix.Prelude.Lists.{length}
use gpt_load_fix.Prelude.Tests.{Eq, ◌=?◌, =?_iff, =?_refl, if◌then◌else◌, Bool-cases}

abbrev pub Dict {ℓ κ} : Type ℓ → Type κ → Type (ℓ ⊔ κ)
Dict K V = List (K × V)

abbrev pub has {ℓ} : {A : Type ℓ} → Option A → Bool
has none = false
has (some _) = true

module _ {ℓ κ} {K : Type ℓ} {V : Type κ} ⦃e : Eq K⦄ where
  unfoldable pub get : Dict K V → K → Option V
  get [] k = none
  get ((j, v) ∷ d) k = if j =? k then some v else get d k

  -- delete(d, k)
  unfoldable pub remove : Dict K V → K → Dict K V
  remove [] k = []
  remove ((j, v) ∷ d) k = let rest = remove d k in if j =? k then rest else (j, v) ∷ rest

  -- d[k] = v
  unfoldable pub put : Dict K V → K → V → Dict K V
  put [] k v = (k, v) ∷ []
  put ((j, w) ∷ d) k v = if j =? k then (k, v) ∷ d else (j, w) ∷ put d k v

  unfoldable pub keys : Dict K V → List K
  keys [] = []
  keys ((k, v) ∷ d) = k ∷ keys d

  pub get-remove :
      (d : Dict K V) (k j : K) → get (remove d k) j ≡ (if k =? j then none else get d j)
  unfolding get remove
  get-remove [] k j = ground arith
  get-remove ((i, v) ∷ d) k j = ground (arith, get-remove d k j, =?_iff i k, =?_iff i j, =?_iff k j)

  pub get-put :
      (d : Dict K V) (k j : K) (v : V) → get (put d k v) j ≡ (if k =? j then some v else get d j)
  unfolding get put
  get-put [] k j v = refl
  get-put ((i, w) ∷ d) k j v = ground (arith, get-put d k j v, =?_iff i k, =?_iff i j, =?_iff k j)

  pub put-put : (d : Dict K V) (k : K) (v w : V) → put (put d k v) k w ≡ put d k w
  unfolding put
  put-put [] k v w = ground (arith, =?_refl k)
  put-put ((i, u) ∷ d) k v w = ground (arith, put-put d k v w, =?_refl k)

  pub put_same : (d : Dict K V) (k : K) (v : V) → get d k ≡ some v → put d k v ≡ d
  unfolding get put
  put_same [] k v h = cc
  put_same ((i, u) ∷ d) k v h = ground (arith, put_same d k v, =?_iff i k)

  -- No key twice: what a Go map holds by construction.
  abbrev pub Distinct : Dict K V → Type κ
  Distinct [] = Unit
  Distinct ((k, v) ∷ d) = (get d k ≡ none) × Distinct d

  pub Distinct-put : (d : Dict K V) (k : K) (v : V) → Distinct d → Distinct (put d k v)
  unfolding get put
  Distinct-put [] k v h = (refl, tt)
  Distinct-put ((j, w) ∷ d) k v h =
      ground (arith, h.0, h.1, Distinct-put d k v h.1, get-put d k j v, =?_iff j k, =?_iff k j)

  pub Distinct-remove : (d : Dict K V) (k : K) → Distinct d → Distinct (remove d k)
  unfolding get remove
  Distinct-remove [] k h = tt
  Distinct-remove ((j, w) ∷ d) k h =
      ground (arith, h.0, h.1, Distinct-remove d k h.1, get-remove d k j, =?_iff k j)

  pub remove_absent : (d : Dict K V) (k : K) → get d k ≡ none → remove d k ≡ d
  unfolding get remove
  remove_absent [] k h = refl
  remove_absent ((j, v) ∷ d) k h = ground (arith, remove_absent d k)

  pub length-remove :
      (d : Dict K V) (k : K) {v : V}
      → Distinct d
      → get d k ≡ some v
      → suc (length (remove d k)) ≡ length d
  unfolding get remove
  length-remove [] k dis h = cc
  length-remove ((j, w) ∷ d) k dis h = elim (Bool-cases (j =? k)) [
    | inl here ↦
        let gone : get d k ≡ none = rw (← (=?_iff j k).0 here) dis.0 in
        rw (here, remove_absent d k gone) refl
    | inr there ↦ rw there (ap suc (length-remove d k dis.1 (rw there at h)))
  ]

  pub length-put_new :
      (d : Dict K V) (k : K) (v : V) → get d k ≡ none → length (put d k v) ≡ suc (length d)
  unfolding get put
  length-put_new [] k v h = refl
  length-put_new ((j, w) ∷ d) k v h = ground (arith, length-put_new d k v)
