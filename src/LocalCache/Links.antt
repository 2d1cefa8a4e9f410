-- ===== src/LocalCache/Links.antt =====
-- Chains of entries: what the pointers of an LRUList say, and how a change of them moves an entry.
use gpt_load_fix.Prelude.{
  ℕ, ◌≡◌, ◌≢◌, none, some, List, [], ◌∷◌, All, arith, ◌==◌, if◌then◌else◌, nat_eq, Bool-cases, inl,
  inr, sym,
}
use gpt_load_fix.Prelude.Dict
use gpt_load_fix.Prelude.Dict.{Dict}
use gpt_load_fix.LocalCache.{CacheEntry}

abbrev pub addresses : Dict ℕ ℕ → List ℕ
addresses [] = []
addresses ((id, a) ∷ d) = a ∷ addresses d

-- From `p` along `xs` to `q`, next and prev agree.
abbrev pub Linked : (ℕ → CacheEntry) → ℕ → List ℕ → ℕ → Type 0
Linked m p [] q = ((m p).next ≡ some q) × ((m q).prev ≡ some p)
Linked m p (a ∷ xs) q = ((m p).next ≡ some a) × ((m a).prev ≡ some p) × Linked m a xs q

-- A chain of entries with the property P stays one, if the links between such entries stay.
pub keep_Linked :
    (m m' : ℕ → CacheEntry) (P : ℕ → Type 0)
    → ((x y : ℕ) → P x → P y → (m x).next ≡ some y → (m' x).next ≡ some y)
    → ((x y : ℕ) → P x → P y → (m y).prev ≡ some x → (m' y).prev ≡ some x)
    → (p : ℕ) (xs : List ℕ) (q : ℕ) → P p
    → All P xs
    → P q
    → Linked m p xs q
    → Linked m' p xs q
keep_Linked m m' P f b p [] q hp ha hq h = (f p q hp hq h.0, b p q hp hq h.1)
keep_Linked m m' P f b p (a ∷ xs) q hp ha hq h =
    (f p a hp ha.0 h.0, b p a hp ha.0 h.1, keep_Linked m m' P f b a xs q ha.0 ha.1 hq h.2)

-- The entry before the end, and the one after the start.
abbrev pub last_of : ℕ → List ℕ → ℕ
last_of p [] = p
last_of p (a ∷ xs) = last_of a xs

abbrev pub first_of : List ℕ → ℕ → ℕ
first_of [] q = q
first_of (a ∷ xs) q = a

pub prev_last :
    (m : ℕ → CacheEntry) (p : ℕ) (xs : List ℕ) (q : ℕ)
    → Linked m p xs q
    → (m q).prev ≡ some (last_of p xs)
prev_last m p [] q h = h.1
prev_last m p (a ∷ xs) q h = prev_last m a xs q h.2

pub next_first :
    (m : ℕ → CacheEntry) (p : ℕ) (xs : List ℕ) (q : ℕ)
    → Linked m p xs q
    → (m p).next ≡ some (first_of xs q)
next_first m p [] q h = h.0
next_first m p (a ∷ xs) q h = h.0

-- Where only the entry of `id` has the address `a`.
abbrev pub Only : ℕ → ℕ → Dict ℕ ℕ → Type 0
Only id a [] = Unit
Only id a ((j, b) ∷ d) = (b ≡ a → j ≡ id) × Only id a d

-- The entry before an entry of the chain points at it, and so does the entry after it.
pub before :
    (m : ℕ → CacheEntry) (id a p : ℕ) (d : Dict ℕ ℕ) (q : ℕ)
    → p ≢ a
    → Only id a d
    → Dict.get d id ≡ some a
    → Linked m p (addresses d) q
    → (u : ℕ) × ((m a).prev ≡ some u) × ((m u).next ≡ some a) × (a ≢ u)
unfolding Dict.get
before m id a p [] q hp o g h = cc
before m id a p ((j, b) ∷ d) q hp o g h = elim (Bool-cases (j == id)) [
  | inl here ↦
      let e : b ≡ a = ground arith in (p, rw (← e) (h.1), rw (← e) (h.0), λ same. hp (sym same))
  | inr there ↦ before m id a b d q (λ e. ground (arith, o.0 e)) o.1 (ground arith) h.2
]

pub after :
    (m : ℕ → CacheEntry) (id a p : ℕ) (d : Dict ℕ ℕ) (q : ℕ)
    → Dict.get d id ≡ some a
    → Linked m p (addresses d) q
    → (v : ℕ) × ((m a).next ≡ some v) × ((m v).prev ≡ some a)
unfolding Dict.get
after m id a p [] q g h = cc
after m id a p ((j, b) ∷ []) q g h = (q, ground arith, ground arith)
after m id a p ((j, b) ∷ (k, c) ∷ d) q g h = elim (Bool-cases (j == id)) [
  | inl here ↦ (c, ground arith, ground arith)
  | inr there ↦ after m id a b ((k, c) ∷ d) q (ground arith) h.2
]

-- Under `Only` a chain without the entry avoids its address.
pub avoids :
    (d : Dict ℕ ℕ) (id a : ℕ) → Dict.get d id ≡ none → Only id a d → All (λ b. b ≢ a) (addresses d)
unfolding Dict.get
avoids [] id a g o = tt
avoids ((j, b) ∷ d) id a g o = (λ e. ground (arith, o.0 e), avoids d id a (ground arith) o.1)

-- Taking the entry of `id` out of a chain: its neighbours are joined, and all else stays.
module _ (m m' : ℕ → CacheEntry) (a u v : ℕ) (prev_a : (m a).prev ≡ some u)
    (next_a : (m a).next ≡ some v) (next_u : (m u).next ≡ some a) (prev_v : (m v).prev ≡ some a)
    (next' : (x : ℕ) → x ≢ a → (m' x).next ≡ (if x == u then some v else (m x).next))
    (prev' : (x : ℕ) → x ≢ a → (m' x).prev ≡ (if x == v then some u else (m x).prev)) where
  away :
      (p : ℕ) (xs : List ℕ) (q : ℕ)
      → p ≢ a
      → All (λ b. b ≢ a) xs
      → q ≢ a
      → Linked m p xs q
      → Linked m' p xs q
  away =
      keep_Linked m m' (λ x. x ≢ a) (λ x y hx hy e. ground (arith, next' x hx))
        (λ x y hx hy e. ground (arith, prev' y hy))

  pub unlink_Linked :
      (p : ℕ) (d : Dict ℕ ℕ) (id q : ℕ)
      → p ≢ a
      → q ≢ a
      → Dict.Distinct d
      → Only id a d
      → Dict.get d id ≡ some a
      → Linked m p (addresses d) q
      → Linked m' p (addresses (Dict.remove d id)) q
  unfolding Dict.get Dict.remove
  unlink_Linked p [] id q hp hq dis o g h = cc
  unlink_Linked p ((j, b) ∷ []) id q hp hq dis o g h = elim (Bool-cases (j == id)) [
    | inl here ↦ rw here (ground (arith, next' p hp, prev' q hq))
    | inr there ↦ absurd (ground arith)
  ]
  unlink_Linked p ((j, b) ∷ (k, c) ∷ d) id q hp hq dis o g h = elim (Bool-cases (j == id)) [
    | inl here ↦
        let j_is : j ≡ id = ground arith in
        let gone : Dict.get ((k, c) ∷ d) id ≡ none = rw (← j_is) (dis.0) in
        let clear = avoids ((k, c) ∷ d) id a gone o.1 in
        let e : b ≡ a = ground arith in
        rw (here, Dict.remove_absent ((k, c) ∷ d) id gone)
          (
            ground (arith, next' p hp),
            ground (arith, prev' c (clear.0)),
            away c (addresses d) q (clear.0) (clear.1) hq (h.2.2),
          )
    | inr there ↦
        let b_ne : b ≢ a = λ e. ground (arith, o.0 e) in
        rw there (
          ground (arith, next' p hp),
          ground (arith, prev' b b_ne),
          unlink_Linked b ((k, c) ∷ d) id q b_ne hq (dis.1) (o.1) (ground arith) (h.2),
        )
  ]

-- Putting an entry that is not in the chain behind its start.
pub add_Linked :
    (m m' : ℕ → CacheEntry) (h a : ℕ) (xs : List ℕ) (q : ℕ)
    → h ≢ a
    → q ≢ h
    → q ≢ a
    → All (λ x. (x ≢ a) × (x ≢ h)) xs
    → ((m' h).next ≡ some a)
    → ((m' a).prev ≡ some h)
    → ((m' a).next ≡ some (first_of xs q))
    → ((m' (first_of xs q)).prev ≡ some a)
    → ((x : ℕ) → x ≢ a → x ≢ h → (m' x).next ≡ (m x).next)
    → ((x : ℕ) → x ≢ a → x ≢ h → x ≢ first_of xs q → (m' x).prev ≡ (m x).prev)
    → Linked m h xs q
    → Linked m' h (a ∷ xs) q
add_Linked m m' h a [] q ha qh qa out e1 e2 e3 e4 n p l = (e1, e2, (e3, e4))
add_Linked m m' h a (b ∷ xs) q ha qh qa out e1 e2 e3 e4 n p l = (
  e1,
  e2,
  (
    e3,
    e4,
    keep_Linked m m' (λ x. (x ≢ a) × (x ≢ h)) (λ x y hx hy e. ground (arith, n x hx.0 hx.1))
        (λ x y hx hy e. ground (arith, p y (hy.0) (hy.1) (λ y_is. ground arith))) b xs q (out.0)
        (out.1) (qa, qh) (l.2),
  ),
)
