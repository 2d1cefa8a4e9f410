-- ===== src/Upstream/Tests.antt =====
-- Runs of getUpstreamURL (base_channel.go) on two upstreams.
use gpt_load_fix.Prelude.{◌+◌, ◌*◌, ◌<◌, ◌≡◌, refl, List, [], ◌∷◌, arith, count, nat_eq}
use gpt_load_fix.Prelude.Text.{Text}
use gpt_load_fix.Prelude.Int.{ℤ, pos}
use gpt_load_fix.Upstream.{choices, make_upstreams}
use gpt_load_fix.Upstream.Ledger.{sum_weights}
use gpt_load_fix.Upstream.Fairness.{fair_cycle, never_ahead}

abbrev two_weights : List (Text × ℤ)
two_weights = ([], pos 3) ∷ ([], pos 2) ∷ []

fair_cycle_example :
    let ups = make_upstreams two_weights in
    ((choices (sum_weights ups) ups).1 ≡ ups) × (count 1 (choices (sum_weights ups) ups).0 ≡ 2)
unfolding make_upstreams
fair_cycle_example =
    fair_cycle two_weights 1 (record { url = []; weight = 2; current_weight = pos 0 }) (omega arith)
      refl

never_ahead_example :
    sum_weights (make_upstreams two_weights) * count 0 (choices 4 (make_upstreams two_weights)).0
    < 4 * 3 + sum_weights (make_upstreams two_weights)
unfolding make_upstreams
never_ahead_example =
    never_ahead two_weights 4 0 (record { url = []; weight = 3; current_weight = pos 0 })
      (omega arith) (omega arith) refl
