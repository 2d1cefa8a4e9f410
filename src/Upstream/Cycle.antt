-- ===== src/Upstream/Cycle.antt =====
-- The books of getUpstreamURL (base_channel.go) at the two ends of a cycle, which is as many
-- picks as the weights add up to.
use native.Mathlib.Decide.{dec_lt}
use gpt_load_fix.Prelude.{
  ℕ, zero, suc, ◌*◌, ◌≤◌, ◌<◌, ◌≡◌, refl, ap, some, List, [], ◌∷◌, map, arith, All, nat_eq,
}
use gpt_load_fix.Prelude.Text.{Text}
use gpt_load_fix.Prelude.Int.{ℤ, pos, eq_of_parts}
use gpt_load_fix.Upstream.{UpstreamInfo, make_upstreams}
use gpt_load_fix.Upstream.Ledger.{sum_weights, sum, Entry, Ledger, one_part, mul_mono}
use gpt_load_fix.Upstream.Picks.{nth, get_elem?}
use gpt_load_fix.Upstream.Run.{Run, shape}

abbrev pub IsIdle : List UpstreamInfo → Type 0
IsIdle = All (λ up. up.current_weight ≡ pos 0)

pub make_upstreams-IsIdle : (defs : List (Text × ℤ)) → IsIdle (make_upstreams defs)
unfolding make_upstreams
make_upstreams-IsIdle [] = tt
make_upstreams-IsIdle (d ∷ defs) = (refl, make_upstreams-IsIdle defs)

abbrev pub zeros : List UpstreamInfo → List ℕ
zeros = map (λ up. zero)

pub sum-zeros : (ups : List UpstreamInfo) → sum (zeros ups) ≡ 0
sum-zeros [] = refl
sum-zeros (up ∷ ups) = omega (arith, sum-zeros ups)

start-Ledger :
    (total : ℕ) (ups : List UpstreamInfo)
    → IsIdle ups
    → 0 < total
    → sum_weights ups ≤ total
    → Ledger 0 total (zeros ups) ups
start-Ledger total [] idle p h = tt
start-Ledger total (up ∷ ups) idle p h = (
  record { balance = rw (idle.0) (omega arith); above = rw (idle.0) p; light = omega arith },
  start-Ledger total ups idle.1 p (omega arith),
)

pub start-Run :
    (ups : List UpstreamInfo)
    → IsIdle ups
    → 0 < sum_weights ups
    → Run (shape ups) (sum_weights ups) 0 (zeros ups) ups
start-Run ups idle p = record {
  ledger = start-Ledger (sum_weights ups) ups idle p (omega arith);
  picks = sum-zeros ups;
  weights = refl;
  same = refl;
}

pub nth-zeros : (i : ℕ) (ups : List UpstreamInfo) → nth (zeros ups) i ≡ 0
nth-zeros i [] = refl
nth-zeros zero (up ∷ ups) = refl
nth-zeros (suc i) (up ∷ ups) = nth-zeros i ups

-- At the end of a cycle nobody is ahead.
entry_end : (total n : ℕ) (up : UpstreamInfo) → Entry total total n up → n ≤ up.weight
entry_end total n up e = elim (dec_lt up.weight n) [
  | yes h ↦
      absurd
        (omega (arith, e.balance, e.above, mul_mono total total (suc up.weight) n (omega arith) h))
  | no h ↦ omega arith
]

picks-le :
    (total : ℕ) (ns : List ℕ) (ups : List UpstreamInfo)
    → Ledger total total ns ups
    → sum ns ≤ sum_weights ups
picks-le total [] [] l = omega arith
picks-le total [] (up ∷ ups) l = absurd l
picks-le total (n ∷ ns) [] l = absurd l
picks-le total (n ∷ ns) (up ∷ ups) l =
    omega (arith, picks-le total ns ups l.1, entry_end total n up l.0)

abbrev pub Cleared : List ℕ → List UpstreamInfo → Type 0
Cleared [] [] = Unit
Cleared [] (up ∷ ups) = ⊥
Cleared (n ∷ ns) [] = ⊥
Cleared (n ∷ ns) (up ∷ ups) = (n ≡ up.weight) × (up.current_weight ≡ pos 0) × Cleared ns ups

entry_zero :
    (total n : ℕ) (up : UpstreamInfo)
    → Entry total total n up
    → n ≡ up.weight
    → up.current_weight ≡ pos 0
entry_zero total n up e h =
    eq_of_parts up.current_weight (pos 0)
      (omega (arith, e.balance, ap (λ (t : ℕ). total * t) h, one_part up.current_weight))

pub Ledger-Cleared :
    (total : ℕ) (ns : List ℕ) (ups : List UpstreamInfo)
    → Ledger total total ns ups
    → sum ns ≡ sum_weights ups
    → Cleared ns ups
Ledger-Cleared total [] [] l h = tt
Ledger-Cleared total [] (up ∷ ups) l h = absurd l
Ledger-Cleared total (n ∷ ns) [] l h = absurd l
Ledger-Cleared total (n ∷ ns) (up ∷ ups) l h =
    let e : n ≡ up.weight = omega (arith, picks-le total ns ups l.1, entry_end total n up l.0, h) in
    (e, entry_zero total n up l.0 e, Ledger-Cleared total ns ups l.1 (omega (arith, h, e)))

pub Cleared-IsIdle : (ns : List ℕ) (ups : List UpstreamInfo) → Cleared ns ups → IsIdle ups
Cleared-IsIdle [] [] c = tt
Cleared-IsIdle [] (up ∷ ups) c = absurd c
Cleared-IsIdle (n ∷ ns) [] c = absurd c
Cleared-IsIdle (n ∷ ns) (up ∷ ups) c = (c.1, Cleared-IsIdle ns ups c.2)

pub eq_of_shape :
    (ups vps : List UpstreamInfo) → shape ups ≡ shape vps → IsIdle ups → IsIdle vps → ups ≡ vps
eq_of_shape [] [] h i j = refl
eq_of_shape [] (v ∷ vps) h i j = cc
eq_of_shape (u ∷ ups) [] h i j = cc
eq_of_shape (u ∷ ups) (v ∷ vps) h i j = ground (arith, eq_of_shape ups vps, h, i.0, j.0, i.1, j.1)

pub Cleared-at :
    (ns : List ℕ) (ups : List UpstreamInfo) (i : ℕ) (up : UpstreamInfo)
    → Cleared ns ups
    → get_elem? ups i ≡ some up
    → nth ns i ≡ up.weight
Cleared-at [] [] i up c h = cc
Cleared-at [] (u ∷ ups) i up c h = absurd c
Cleared-at (n ∷ ns) [] i up c h = cc
Cleared-at (n ∷ ns) (u ∷ ups) zero up c h = ground (arith, c.0, h)
Cleared-at (n ∷ ns) (u ∷ ups) (suc i) up c h = Cleared-at ns ups i up c.2 h
