-- ===== src/Store/Ranges.antt =====
-- Sorted sets (internal/store/memory.go): the cache of the sorted order, and what a range is.
use gpt_load_fix.Prelude.{
  ℕ, ◌+◌, ◌≤◌, ◌≡◌, refl, ◌∙◌, false, Option, none, some, List, [], ◌∷◌, arith, All, count,
  if◌then◌else◌, leb, ◌=?◌, =?_refl, =?_iff, inl, inr, Bool-cases,
}
use gpt_load_fix.Prelude.Dict
use gpt_load_fix.Prelude.Dict.{Dict}
use gpt_load_fix.Prelude.Text.{Text, text_eq}
use gpt_load_fix.Exec.{ok}
use gpt_load_fix.Store.{Zset, zset, Store, lookup}
use gpt_load_fix.Store.Zsets.{
  insert_by_score, sort_by_score, ensure_sorted, within, select_scores, z_range_by_score,
}

-- A set that is not dirty has its members sorted.
pub record IsFresh (zs : Zset) : Type 0 where
  pub distinct : Dict.Distinct zs.members
  pub fresh : zs.dirty ≡ false → zs.sorted ≡ sort_by_score zs.members

pub ensure_sorted-IsFresh : (zs : Zset) → IsFresh zs → IsFresh (ensure_sorted zs)
unfolding ensure_sorted
ensure_sorted-IsFresh zs f = ground (arith, f.distinct, f.fresh)

ensure_sorted_lem : (zs : Zset) → IsFresh zs → (ensure_sorted zs).sorted ≡ sort_by_score zs.members
unfolding ensure_sorted
ensure_sorted_lem zs f = ground (arith, f.fresh)

-- The order of a list of entries, and of the scores of members.
abbrev Least : ℕ → List (Text × ℕ) → Type 0
Least x [] = Unit
Least x ((m, y) ∷ l) = (x ≤ y) × Least x l

abbrev Sorted : List (Text × ℕ) → Type 0
Sorted [] = Unit
Sorted ((m, x) ∷ l) = Least x l × Sorted l

Least-insert :
    (z : ℕ) (m : Text) (x : ℕ) (l : List (Text × ℕ))
    → z ≤ x
    → Least z l
    → Least z (insert_by_score (m, x) l)
unfolding insert_by_score
Least-insert z m x [] h hl = (h, tt)
Least-insert z m x ((n, y) ∷ l) h hl = ground (arith, h, hl.0, hl.1, Least-insert z m x l h hl.1)

Least-mono : (x y : ℕ) (l : List (Text × ℕ)) → x ≤ y → Least y l → Least x l
Least-mono x y [] h hl = tt
Least-mono x y ((m, z) ∷ l) h hl = (omega (arith, hl.0), Least-mono x y l h hl.1)

Sorted-insert :
    (m : Text) (x : ℕ) (l : List (Text × ℕ)) → Sorted l → Sorted (insert_by_score (m, x) l)
unfolding insert_by_score
Sorted-insert m x [] h = (tt, tt)
Sorted-insert m x ((n, y) ∷ l) h =
    ground (arith, h.0, h.1, Sorted-insert m x l h.1, Least-mono x y l, Least-insert y m x l)

sort-Sorted : (l : List (Text × ℕ)) → Sorted (sort_by_score l)
unfolding sort_by_score
sort-Sorted [] = tt
sort-Sorted ((m, x) ∷ l) = Sorted-insert m x (sort_by_score l) (sort-Sorted l)

abbrev hit : ℕ → ℕ → Text → Text × ℕ → ℕ
hit a b k (m, x) = if within a b x then (if m =? k then 1 else 0) else 0

count-select-cons :
    (a b : ℕ) (k m : Text) (x : ℕ) (l : List (Text × ℕ))
    → count k (select_scores a b ((m, x) ∷ l)) ≡ hit a b k (m, x) + count k (select_scores a b l)
unfolding select_scores
count-select-cons a b k m x l = ground arith

-- Sorting keeps what a range selects, as often.
count-select-insert :
    (a b : ℕ) (k m : Text) (x : ℕ) (l : List (Text × ℕ))
    → count k (select_scores a b (insert_by_score (m, x) l))
      ≡ hit a b k (m, x) + count k (select_scores a b l)
unfolding insert_by_score
count-select-insert a b k m x [] = count-select-cons a b k m x []
count-select-insert a b k m x ((n, y) ∷ l) = elim (Bool-cases (leb x y)) [
  | inl h ↦ rw h (count-select-cons a b k m x ((n, y) ∷ l))
  | inr h ↦ rw h (
      omega (
        arith,
        count-select-cons a b k n y (insert_by_score (m, x) l),
        count-select-cons a b k n y l,
        count-select-insert a b k m x l,
      ))
]

count-select-sort :
    (a b : ℕ) (k : Text) (l : List (Text × ℕ))
    → count k (select_scores a b (sort_by_score l)) ≡ count k (select_scores a b l)
unfolding sort_by_score
count-select-sort a b k [] = refl
count-select-sort a b k ((m, x) ∷ l) = omega (
  arith,
  count-select-insert a b k m x (sort_by_score l),
  count-select-cons a b k m x l,
  count-select-sort a b k l,
)

select-none :
    (a b : ℕ) (k : Text) (l : Dict Text ℕ) → Dict.get l k ≡ none → count k (select_scores a b l) ≡ 0
unfolding select_scores Dict.get
select-none a b k [] h = refl
select-none a b k ((m, x) ∷ l) h = ground (arith, h, select-none a b k l)

-- Whether a member's score lies in the range.
abbrev pub in_range : ℕ → ℕ → Option ℕ → ℕ
in_range a b none = 0
in_range a b (some x) = if within a b x then 1 else 0

select-members :
    (a b : ℕ) (k : Text) (l : Dict Text ℕ)
    → Dict.Distinct l
    → count k (select_scores a b l) ≡ in_range a b (Dict.get l k)
unfolding select_scores Dict.get
select-members a b k [] d = refl
select-members a b k ((m, x) ∷ l) d =
    ground (arith, d.0, d.1, select-members a b k l d.1, select-none a b k l, =?_iff m k)

-- Each entry has the score that the members give it.
abbrev Scored : Dict Text ℕ → List (Text × ℕ) → Type 0
Scored d = All (λ e. Dict.get d e.0 ≡ some e.1)

Scored-cons :
    (m : Text) (x : ℕ) (d : Dict Text ℕ) (l : List (Text × ℕ))
    → Dict.get d m ≡ none
    → Scored d l
    → Scored ((m, x) ∷ d) l
unfolding Dict.get
Scored-cons m x d [] h s = tt
Scored-cons m x d ((n, y) ∷ l) h s = (ground (arith, h, s.0, =?_iff m n), Scored-cons m x d l h s.1)

members-Scored : (d : Dict Text ℕ) → Dict.Distinct d → Scored d d
unfolding Dict.get
members-Scored [] h = tt
members-Scored ((m, x) ∷ d) h =
    (ground (arith, =?_refl m), Scored-cons m x d d h.0 (members-Scored d h.1))

Scored-insert :
    (d : Dict Text ℕ) (m : Text) (x : ℕ) (l : List (Text × ℕ))
    → Dict.get d m ≡ some x
    → Scored d l
    → Scored d (insert_by_score (m, x) l)
unfolding insert_by_score
Scored-insert d m x [] h s = (h, tt)
Scored-insert d m x ((n, y) ∷ l) h s = ground (arith, h, s.0, s.1, Scored-insert d m x l h s.1)

Scored-sort : (d : Dict Text ℕ) (l : List (Text × ℕ)) → Scored d l → Scored d (sort_by_score l)
unfolding sort_by_score
Scored-sort d [] s = tt
Scored-sort d ((m, x) ∷ l) s = Scored-insert d m x (sort_by_score l) s.0 (Scored-sort d l s.1)

-- The scores of members do not fall along a list.
abbrev score_of : Dict Text ℕ → Text → ℕ
score_of d m = elim (Dict.get d m) [ none ↦ 0 | some x ↦ x ]

abbrev pub NoLess : Dict Text ℕ → ℕ → List Text → Type 0
NoLess d x [] = Unit
NoLess d x (m ∷ ms) = (x ≤ score_of d m) × NoLess d x ms

abbrev pub Ascending : Dict Text ℕ → List Text → Type 0
Ascending d [] = Unit
Ascending d (m ∷ ms) = NoLess d (score_of d m) ms × Ascending d ms

select-NoLess :
    (a b : ℕ) (d : Dict Text ℕ) (x : ℕ) (l : List (Text × ℕ))
    → Scored d l
    → Least x l
    → NoLess d x (select_scores a b l)
unfolding select_scores
select-NoLess a b d x [] s h = tt
select-NoLess a b d x ((m, y) ∷ l) s h = ground (arith, s.0, h.0, select-NoLess a b d x l s.1 h.1)

select-Ascending :
    (a b : ℕ) (d : Dict Text ℕ) (l : List (Text × ℕ))
    → Scored d l
    → Sorted l
    → Ascending d (select_scores a b l)
unfolding select_scores
select-Ascending a b d [] s h = tt
select-Ascending a b d ((m, y) ∷ l) s h =
    ground (arith, s.0, select-NoLess a b d y l s.1 h.0, select-Ascending a b d l s.1 h.1)

-- ZRangeByScore returns each member whose score lies between the bounds once, no other member, and
-- the scores do not fall along the result. It is assumed that the set is well kept.
pub range_exact :
    (key : Text) (a b : ℕ) (s : Store) (zs : Zset)
    → lookup s key ≡ some (zset zs)
    → IsFresh zs
    → (ms : List Text) × ((z_range_by_score key a b s).0 ≡ ok ms)
      × ((k : Text) → count k ms ≡ in_range a b (Dict.get zs.members k))
      × Ascending zs.members ms
unfolding z_range_by_score
range_exact key a b s zs h f = (
  select_scores a b (sort_by_score zs.members),
  ground (arith, h, ensure_sorted_lem zs f),
  λ k. count-select-sort a b k zs.members ∙ select-members a b k zs.members f.distinct,
  select-Ascending a b zs.members (sort_by_score zs.members)
      (Scored-sort zs.members zs.members (members-Scored zs.members f.distinct))
      (sort-Sorted zs.members),
)
