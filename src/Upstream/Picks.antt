-- ===== src/Upstream/Picks.antt =====
-- The books of a run of picks of getUpstreamURL (base_channel.go), by the index picked.
use gpt_load_fix.Prelude.{
  ℕ, zero, suc, ◌+◌, ◌*◌, ◌≤◌, ◌<◌, ◌≡◌, refl, sym, ap, subst, ◌∙◌, Option, none, some, List, [],
  ◌∷◌, arith, length, count, ◌==◌, if◌then◌else◌, nat_eq,
}
use gpt_load_fix.Prelude.Text.{Text}
use gpt_load_fix.Prelude.Int.{max_int64}
use gpt_load_fix.Upstream.{UpstreamInfo, choose, choices}
use gpt_load_fix.Upstream.Ledger.{bump, Entry, Ledger}
use gpt_load_fix.Upstream.Run.{Run, IsMany, shape, choose-Run}

pub tally : List ℕ → List ℕ → List ℕ
tally ns [] = ns
tally ns (j ∷ js) = tally (bump j ns) js

pub IsMany-shape : (ups vps : List UpstreamInfo) → shape ups ≡ shape vps → IsMany ups → IsMany vps
IsMany-shape [] vps h m = absurd m
IsMany-shape (u ∷ []) vps h m = absurd m
IsMany-shape (u ∷ u' ∷ ups) [] h m = cc
IsMany-shape (u ∷ u' ∷ ups) (v ∷ []) h m = cc
IsMany-shape (u ∷ u' ∷ ups) (v ∷ v' ∷ vps) h m = tt

choices-step :
    (n d : ℕ) (ups ups' : List UpstreamInfo)
    → choose ups ≡ (some d, ups')
    → choices (suc n) ups ≡ (d ∷ (choices n ups').0, (choices n ups').1)
unfolding choices
choices-step n d ups ups' h = λ i. (
  elim (h i).0 [ none ↦ (choices n (h i).1).0 | some j ↦ j ∷ (choices n (h i).1).0 ],
  (choices n (h i).1).1,
)

pub choices-Run :
    (start : List (Text × ℕ)) (total n k e : ℕ) (ns : List ℕ) (ups : List UpstreamInfo)
    → IsMany ups
    → Run start total k ns ups
    → 0 < total
    → k + n ≡ e
    → e ≤ total
    → total * total ≤ max_int64
    → Run start total e (tally ns (choices n ups).0) (choices n ups).1
unfolding tally
choices-Run start total zero k e ns ups m r p q h fits =
    unfold choices in subst (λ j. Run start total j ns ups) (omega (arith, q)) r
choices-Run start total (suc n) k e ns ups m r p q h fits =
    let (d, ups', chosen, r') = choose-Run start total k ns ups m r p (omega (arith, q, h)) fits in
    let many = IsMany-shape ups ups' (r.same ∙ sym r'.same) m in
    let rest =
      choices-Run start total n (suc k) e (bump d ns) ups' many r' p (omega (arith, q)) h fits in
    subst (λ (c : List ℕ × List UpstreamInfo). Run start total e (tally ns c.0) c.1)
      (sym (choices-step n d ups ups' chosen)) rest

abbrev pub nth : List ℕ → ℕ → ℕ
nth [] i = 0
nth (n ∷ ns) zero = n
nth (n ∷ ns) (suc i) = nth ns i

nth-bump :
    (i j : ℕ) (ns : List ℕ)
    → i < length ns
    → nth (bump j ns) i ≡ (if j == i then 1 else 0) + nth ns i
nth-bump i j [] h = elim h [ ]
nth-bump zero zero (n ∷ ns) h = omega arith
nth-bump zero (suc j) (n ∷ ns) h = ground arith
nth-bump (suc i) zero (n ∷ ns) h = ground arith
nth-bump (suc i) (suc j) (n ∷ ns) h = ground (arith, nth-bump i j ns (omega arith))

length-bump : (j : ℕ) (ns : List ℕ) → length (bump j ns) ≡ length ns
length-bump j [] = refl
length-bump zero (n ∷ ns) = refl
length-bump (suc j) (n ∷ ns) = ap suc (length-bump j ns)

pub nth-tally :
    (i : ℕ) (js ns : List ℕ) → i < length ns → nth (tally ns js) i ≡ count i js + nth ns i
unfolding tally
nth-tally i [] ns h = omega arith
nth-tally i (j ∷ js) ns h =
    ground (arith, nth-tally i js (bump j ns), length-bump j ns, nth-bump i j ns h)

abbrev pub get_elem? {ℓ} : {A : Type ℓ} → List A → ℕ → Option A
get_elem? [] i = none
get_elem? (x ∷ xs) zero = some x
get_elem? (x ∷ xs) (suc i) = get_elem? xs i

pub Ledger-at :
    (k total : ℕ) (ns : List ℕ) (ups : List UpstreamInfo) (i : ℕ) (up : UpstreamInfo)
    → Ledger k total ns ups
    → get_elem? ups i ≡ some up
    → Entry k total (nth ns i) up × (i < length ns)
Ledger-at k total [] [] i up l h = cc
Ledger-at k total [] (u ∷ ups) i up l h = absurd l
Ledger-at k total (n ∷ ns) [] i up l h = absurd l
Ledger-at k total (n ∷ ns) (u ∷ ups) zero up l h = (ground (arith, l.0, h), omega arith)
Ledger-at k total (n ∷ ns) (u ∷ ups) (suc i) up l h =
    let (e, inside) = Ledger-at k total ns ups i up l.1 h in (e, omega (arith, inside))
