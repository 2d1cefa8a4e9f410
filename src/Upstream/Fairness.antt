-- ===== src/Upstream/Fairness.antt =====
-- How often a channel picks each of its upstreams (getUpstreamURL in base_channel.go).
use gpt_load_fix.Prelude.{
  ℕ, zero, suc, ◌+◌, ◌*◌, ◌≤◌, ◌<◌, ◌≡◌, refl, sym, ap, subst, ◌∙◌, Option, none, some, List, [],
  ◌∷◌, arith, length, count, nat_eq,
}
use gpt_load_fix.Prelude.Text.{Text}
use gpt_load_fix.Prelude.Int.{ℤ, pos, negsuc, max_int64}
use gpt_load_fix.Upstream.{UpstreamInfo, choose, choices, make_upstreams}
use gpt_load_fix.Upstream.Ledger.{sum_weights}
use gpt_load_fix.Upstream.Picks.{tally, nth, nth-tally, Ledger-at, choices-Run, get_elem?}
use gpt_load_fix.Upstream.Cycle.{
  IsIdle, make_upstreams-IsIdle, zeros, nth-zeros, start-Run, Cleared, Ledger-Cleared,
  Cleared-IsIdle, eq_of_shape, Cleared-at,
}
use gpt_load_fix.Upstream.Run.{Run, IsMany, shape}

get_elem?-lt {ℓ} :
    {A : Type ℓ} (xs : List A) (i : ℕ) (x : A) → get_elem? xs i ≡ some x → i < length xs
get_elem?-lt [] i x h = cc
get_elem?-lt (y ∷ xs) zero x h = omega arith
get_elem?-lt (y ∷ xs) (suc i) x h = omega (arith, get_elem?-lt xs i x h)

length-zeros : (ups : List UpstreamInfo) → length (zeros ups) ≡ length ups
length-zeros [] = refl
length-zeros (up ∷ ups) = ap suc (length-zeros ups)

-- With one upstream there is nothing to count.
choices_one :
    (n : ℕ) (up : UpstreamInfo)
    → ((choices n (up ∷ [])).1 ≡ up ∷ []) × (count 0 (choices n (up ∷ [])).0 ≡ n)
unfolding choices choose
choices_one zero up = (refl, refl)
choices_one (suc n) up = let (e, c) = choices_one n up in (e, omega (arith, c))

shape_at :
    (ups vps : List UpstreamInfo) (i : ℕ) (up : UpstreamInfo)
    → shape vps ≡ shape ups
    → get_elem? ups i ≡ some up
    → (vp : UpstreamInfo) × (get_elem? vps i ≡ some vp) × (vp.weight ≡ up.weight)
shape_at [] vps i up h at = cc
shape_at (u ∷ ups) [] i up h at = cc
shape_at (u ∷ ups) (v ∷ vps) zero up h at = (v, refl, ground (arith, h, at))
shape_at (u ∷ ups) (v ∷ vps) (suc i) up h at = shape_at ups vps i up (ground (arith, h)) at

module _ (ups : List UpstreamInfo) (idle : IsIdle ups) (many : IsMany ups) (p : 0 < sum_weights ups)
    (fits : sum_weights ups * sum_weights ups ≤ max_int64) where
  after_picks :
      (n : ℕ)
      → n ≤ sum_weights ups
      → Run (shape ups) (sum_weights ups) n (tally (zeros ups) (choices n ups).0) (choices n ups).1
  after_picks n h =
      choices-Run (shape ups) (sum_weights ups) n 0 n (zeros ups) ups many (start-Run ups idle p) p
        (omega arith) h fits

  picked :
      (n i : ℕ) (up : UpstreamInfo)
      → get_elem? ups i ≡ some up
      → nth (tally (zeros ups) (choices n ups).0) i ≡ count i (choices n ups).0
  picked n i up at = omega (
    arith,
    nth-tally i (choices n ups).0 (zeros ups)
        (omega (arith, length-zeros ups, get_elem?-lt ups i up at)),
    nth-zeros i ups,
  )

  cycle_Cleared :
      Cleared
        (tally (zeros ups) (choices (sum_weights ups) ups).0)
        (choices (sum_weights ups) ups).1
  cycle_Cleared =
      let r = after_picks (sum_weights ups) (omega arith) in
      Ledger-Cleared (sum_weights ups) _ _ r.ledger (r.picks ∙ sym r.weights)

  cycle_returns : (choices (sum_weights ups) ups).1 ≡ ups
  cycle_returns =
      eq_of_shape _ ups (after_picks (sum_weights ups) (omega arith)).same
        (Cleared-IsIdle _ _ cycle_Cleared) idle

  cycle_counts :
      (i : ℕ) (up : UpstreamInfo)
      → get_elem? ups i ≡ some up
      → count i (choices (sum_weights ups) ups).0 ≡ up.weight
  cycle_counts i up at =
      sym (picked (sum_weights ups) i up at)
      ∙ Cleared-at _ ups i up
          (subst (Cleared (tally (zeros ups) (choices (sum_weights ups) ups).0)) cycle_returns
            cycle_Cleared)
          at

  prefix_counts :
      (n i : ℕ) (up : UpstreamInfo)
      → n ≤ sum_weights ups
      → get_elem? ups i ≡ some up
      → sum_weights ups * count i (choices n ups).0 < n * up.weight + sum_weights ups
  prefix_counts n i up h at =
      let r = after_picks n h in
      let (vp, at', w) = shape_at ups (choices n ups).1 i up r.same at in
      let (e, inside) = Ledger-at n (sum_weights ups) _ _ i vp r.ledger at' in
      omega (
        arith,
        ap (λ (t : ℕ). sum_weights ups * t) (picked n i up at),
        ap (λ (t : ℕ). n * t) w,
        e.balance,
        e.above,
      )

abbrev weight_of : Option UpstreamInfo → ℕ
weight_of none = 0
weight_of (some up) = up.weight

made-IsMany : (d d' : Text × ℤ) (defs : List (Text × ℤ)) → IsMany (make_upstreams (d ∷ d' ∷ defs))
unfolding make_upstreams
made-IsMany d d' defs = tt

one_cycle :
    (up : UpstreamInfo)
    → ((choices (sum_weights (up ∷ [])) (up ∷ [])).1 ≡ up ∷ [])
      × ((i : ℕ) (v : UpstreamInfo)
          → get_elem? (up ∷ []) i ≡ some v
          → count i (choices (sum_weights (up ∷ [])) (up ∷ [])).0 ≡ v.weight)
one_cycle up = ((choices_one (sum_weights (up ∷ [])) up).0, counts)
  where
    counts :
        (i : ℕ) (v : UpstreamInfo)
        → get_elem? (up ∷ []) i ≡ some v
        → count i (choices (sum_weights (up ∷ [])) (up ∷ [])).0 ≡ v.weight
    counts zero v at = omega (arith, (choices_one (sum_weights (up ∷ [])) up).1, ap weight_of at)
    counts (suc i) v at = cc

one_prefix :
    (n : ℕ) (up v : UpstreamInfo)
    → 0 < sum_weights (up ∷ [])
    → get_elem? (up ∷ []) 0 ≡ some v
    → sum_weights (up ∷ []) * count 0 (choices n (up ∷ [])).0 < n * v.weight + sum_weights (up ∷ [])
one_prefix n up v p at = omega (
  arith,
  ap (λ (t : ℕ). up.weight * t) (choices_one n up).1,
  ap (λ (o : Option UpstreamInfo). n * weight_of o) at,
)

made_positive :
    (d : Text × ℤ) (defs : List (Text × ℤ)) → 0 < sum_weights (make_upstreams (d ∷ defs))
unfolding make_upstreams
made_positive (url, pos n) defs = ground arith
made_positive (url, negsuc n) defs = ground arith

-- Whatever the definitions, in a cycle of as many picks as the weights add up to, each upstream of
-- the channel made from them is picked as often as its weight says, and afterwards the channel is
-- as it was made. The square of the total weight is assumed to fit an int64.
pub fair_cycle :
    (defs : List (Text × ℤ)) (i : ℕ) (up : UpstreamInfo)
    → sum_weights (make_upstreams defs) * sum_weights (make_upstreams defs) ≤ max_int64
    → get_elem? (make_upstreams defs) i ≡ some up
    → let ups = make_upstreams defs in
      ((choices (sum_weights ups) ups).1 ≡ ups)
      × (count i (choices (sum_weights ups) ups).0 ≡ up.weight)
unfolding make_upstreams
fair_cycle [] i up fits at = absurd (cc)
fair_cycle (d ∷ []) i up fits at = ((one_cycle _).0, (one_cycle _).1 i up at)
fair_cycle (d ∷ d' ∷ defs) i up fits at = (
  cycle_returns (make_upstreams (d ∷ d' ∷ defs)) (make_upstreams-IsIdle (d ∷ d' ∷ defs))
      (made-IsMany d d' defs) (made_positive d (d' ∷ defs)) fits,
  cycle_counts (make_upstreams (d ∷ d' ∷ defs)) (make_upstreams-IsIdle (d ∷ d' ∷ defs))
      (made-IsMany d d' defs) (made_positive d (d' ∷ defs)) fits i up at,
)

-- Nor does an upstream of that channel get ahead during a cycle: after n picks it was picked
-- less than once more often than n times its share of the total weight.
pub never_ahead :
    (defs : List (Text × ℤ)) (n i : ℕ) (up : UpstreamInfo)
    → sum_weights (make_upstreams defs) * sum_weights (make_upstreams defs) ≤ max_int64
    → n ≤ sum_weights (make_upstreams defs)
    → get_elem? (make_upstreams defs) i ≡ some up
    → sum_weights (make_upstreams defs) * count i (choices n (make_upstreams defs)).0
      < n * up.weight + sum_weights (make_upstreams defs)
unfolding make_upstreams
never_ahead [] n i up fits h at = cc
never_ahead (d ∷ []) n zero up fits h at = one_prefix n _ up (made_positive d []) at
never_ahead (d ∷ []) n (suc i) up fits h at = cc
never_ahead (d ∷ d' ∷ defs) n i up fits h at =
    prefix_counts (make_upstreams (d ∷ d' ∷ defs)) (make_upstreams-IsIdle (d ∷ d' ∷ defs))
      (made-IsMany d d' defs) (made_positive d (d' ∷ defs)) fits n i up h at
