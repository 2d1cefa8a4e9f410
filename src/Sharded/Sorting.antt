-- ===== src/Sharded/Sorting.antt =====
-- internal/keypool/sharded_memory.go: the loops of ensureSorted, which sort by exchange.
use gpt_load_fix.Prelude.{
  ℕ, zero, suc, ◌≤◌, ◌≡◌, refl, List, [], ◌∷◌, arith, ltb, if◌then◌else◌, length, All, ap,
  Bool-cases, inl, inr, subst,
}
use mathlib.Core.List.{Perm}
use mathlib.Core.List.Perm
use gpt_load_fix.Prelude.Text.{Text}

-- The inner loop: what ends at index i, and the entries after it.
unfoldable pub sweep : Text × ℕ → List (Text × ℕ) → (Text × ℕ) × List (Text × ℕ)
sweep x [] = (x, [])
sweep x (y ∷ ys) =
    let later = ltb y.1 x.1 in
    let (m, rest) = sweep (if later then y else x) ys in (m, (if later then x else y) ∷ rest)

-- The outer loop, with the entries left.
unfoldable pub exchange_sort : ℕ → List (Text × ℕ) → List (Text × ℕ)
unfolding sweep
exchange_sort zero xs = xs
exchange_sort (suc n) [] = []
exchange_sort (suc n) (x ∷ xs) = let (m, rest) = sweep x xs in m ∷ exchange_sort n rest

-- x is at most each of the scores.
abbrev pub AtMost : ℕ → List (Text × ℕ) → Type 0
AtMost x = All (λ y. x ≤ y.1)

abbrev pub IsSorted : List (Text × ℕ) → Type 0
IsSorted [] = Unit
IsSorted (x ∷ xs) = AtMost x.1 xs × IsSorted xs

length-sweep : (x : Text × ℕ) (ys : List (Text × ℕ)) → length (sweep x ys).1 ≡ length ys
unfolding sweep
length-sweep x [] = refl
length-sweep x (y ∷ ys) = ap suc (length-sweep (if ltb y.1 x.1 then y else x) ys)

swapped {ℓ} : {A : Type ℓ} (x y : A) (l : List A) → Perm (x ∷ y ∷ l) (y ∷ x ∷ l)
swapped x y l = Perm.swap y x l

sweep-perm : (x : Text × ℕ) (ys : List (Text × ℕ)) → Perm ((sweep x ys).0 ∷ (sweep x ys).1) (x ∷ ys)
unfolding sweep
sweep-perm x [] = Perm.refl (x ∷ [])
sweep-perm x (y ∷ ys) = elim (Bool-cases (ltb y.1 x.1)) [
  | inl later ↦
      rw later
        (Perm.trans (swapped (sweep y ys).0 x (sweep y ys).1) (Perm.cons x (sweep-perm y ys)))
  | inr kept ↦ rw kept (
      Perm.trans (swapped (sweep x ys).0 y (sweep x ys).1)
        (Perm.trans (Perm.cons y (sweep-perm x ys)) (swapped y x ys)))
]

-- An entry that comes before x, and before all that is left.
abbrev IsLeast : Text × ℕ → (Text × ℕ) × List (Text × ℕ) → Type 0
IsLeast x (m, rest) = (m.1 ≤ x.1) × AtMost m.1 rest

sweep-IsLeast : (x : Text × ℕ) (ys : List (Text × ℕ)) → IsLeast x (sweep x ys)
unfolding sweep
sweep-IsLeast x [] = (omega arith, tt)
sweep-IsLeast x (y ∷ ys) = elim (Bool-cases (ltb y.1 x.1)) [
  | inl later ↦
      let (least, rest) = sweep-IsLeast y ys in
      let turn : ((sweep y ys).0, x ∷ (sweep y ys).1) ≡ sweep x (y ∷ ys) = rw later refl in
      subst (IsLeast x) turn (ground (arith, least), (ground (arith, least), rest))
  | inr kept ↦
      let (least, rest) = sweep-IsLeast x ys in
      let stay : ((sweep x ys).0, y ∷ (sweep x ys).1) ≡ sweep x (y ∷ ys) = rw kept refl in
      subst (IsLeast x) stay (least, (ground (arith, least), rest))
]

AtMost-sweep :
    (b : ℕ) (x : Text × ℕ) (ys : List (Text × ℕ))
    → AtMost b (x ∷ ys)
    → AtMost b ((sweep x ys).0 ∷ (sweep x ys).1)
unfolding sweep
AtMost-sweep b x [] h = h
AtMost-sweep b x (y ∷ ys) (hx, (hy, h)) = elim (Bool-cases (ltb y.1 x.1)) [
  | inl later ↦ let (least, rest) = AtMost-sweep b y ys (hy, h) in rw later (least, (hx, rest))
  | inr kept ↦ let (least, rest) = AtMost-sweep b x ys (hx, h) in rw kept (least, (hy, rest))
]

AtMost-exchange_sort :
    (b n : ℕ) (xs : List (Text × ℕ)) → AtMost b xs → AtMost b (exchange_sort n xs)
unfolding exchange_sort
AtMost-exchange_sort b zero xs h = h
AtMost-exchange_sort b (suc n) [] h = tt
AtMost-exchange_sort b (suc n) (x ∷ xs) h =
    let (least, rest) = AtMost-sweep b x xs h in
    (least, AtMost-exchange_sort b n (sweep x xs).1 rest)

-- The loops of ensureSorted, on any entries, end with the same entries in the order of their scores.
pub exchange_sort-IsSorted :
    (n : ℕ) (xs : List (Text × ℕ))
    → length xs ≤ n
    → Perm (exchange_sort n xs) xs × IsSorted (exchange_sort n xs)
unfolding exchange_sort
exchange_sort-IsSorted zero [] h = (Perm.refl [], tt)
exchange_sort-IsSorted zero (x ∷ xs) h = absurd (omega arith)
exchange_sort-IsSorted (suc n) [] h = (Perm.refl [], tt)
exchange_sort-IsSorted (suc n) (x ∷ xs) h =
    let (m, rest) = sweep x xs in
    let (perm, sorted) = exchange_sort-IsSorted n rest (omega (arith, length-sweep x xs)) in
    (
      Perm.trans (Perm.cons m perm) (sweep-perm x xs),
      (AtMost-exchange_sort m.1 n rest (sweep-IsLeast x xs).1, sorted),
    )
