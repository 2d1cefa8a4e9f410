-- ===== src/Upstream.antt =====
-- internal/channel/base_channel.go and factory.go: the upstreams of a channel and the smooth
-- weighted round-robin that picks one. A pick runs under the lock, so it is one step.
pub mod Scan
pub mod Ledger
pub mod Run
pub mod Picks
pub mod Cycle
pub mod Fairness
mod Tests
use gpt_load_fix.Prelude.{
  ℕ, zero, suc, ◌+◌, ◌≡◌, refl, Bool, true, false, Option, none, some, List, [], ◌∷◌, if◌then◌else◌,
}
use gpt_load_fix.Prelude.Int.{ℤ, pos, negsuc, pos_part, neg_part, leb_ℤ, ltb_ℤ, add64, sub64}
use gpt_load_fix.Prelude.Text.{Text}

pub record UpstreamInfo : Type 0 where
  pub url : Text
  pub weight : ℕ
  pub current_weight : ℤ

-- The loop over the definitions in newBaseChannel; the URLs are parsed already.
unfoldable pub make_upstreams : List (Text × ℤ) → List UpstreamInfo
make_upstreams [] = []
make_upstreams ((url, weight) ∷ defs) =
    record {
      url = url;
      weight = if leb_ℤ weight (pos 0) then 1 else pos_part weight;
      current_weight = pos 0;
    }
    ∷ make_upstreams defs

-- The upstream that the pointer `best` leads to: its index and its current weight.
abbrev pub Best : Type 0
Best = Option (ℕ × ℤ)

abbrev pub better : ℕ → ℤ → Best → Best
better i w none = some (i, w)
better i w (some (j, best)) = if ltb_ℤ best w then some (i, w) else some (j, best)

abbrev pub raise_weight : UpstreamInfo → UpstreamInfo
raise_weight up = record up { current_weight = add64 up.current_weight (pos up.weight) }

-- The loop of getUpstreamURL, from index `i` on: the list it leaves, `best` and `totalWeight`.
unfoldable pub scan : ℕ → Best → ℤ → List UpstreamInfo → List UpstreamInfo × Best × ℤ
scan i best total [] = ([], best, total)
scan i best total (up ∷ ups) =
    let up' = raise_weight up in
    let (ups', best', total') =
      scan (suc i) (better i up'.current_weight best) (add64 total (pos up.weight)) ups in
    (up' ∷ ups', best', total')

-- best.CurrentWeight -= totalWeight
unfoldable pub charge : ℕ → ℤ → List UpstreamInfo → List UpstreamInfo
charge i total [] = []
charge zero total (up ∷ ups) = record up { current_weight = sub64 up.current_weight total } ∷ ups
charge (suc i) total (up ∷ ups) = up ∷ charge i total ups

unfoldable pub url_at : List UpstreamInfo → ℕ → Option Text
url_at [] i = none
url_at (up ∷ ups) zero = some up.url
url_at (up ∷ ups) (suc i) = url_at ups i

settle : List UpstreamInfo × Best × ℤ → Option ℕ × List UpstreamInfo
unfolding charge
settle (ups, none, total) = (some 0, ups)
settle (ups, some (i, w), total) = (some i, charge i total ups)

-- The body of getUpstreamURL: the index of the upstream that it returns, and the list it leaves.
unfoldable pub choose : List UpstreamInfo → Option ℕ × List UpstreamInfo
unfolding scan settle
choose [] = (none, [])
choose (up ∷ []) = (some 0, up ∷ [])
choose (up ∷ up' ∷ ups) = settle (scan 0 none (pos 0) (up ∷ up' ∷ ups))

unfoldable pub get_upstream_url : List UpstreamInfo → Option Text × List UpstreamInfo
unfolding choose url_at
get_upstream_url ups =
    let (i, ups') = choose ups in (elim i [ none ↦ none | some j ↦ url_at ups j ], ups')

-- The upstreams of weights 5, 1 and 1 are picked in this order.
abbrev pub three : List UpstreamInfo
three = make_upstreams (([], pos 5) ∷ ([], negsuc 3) ∷ ([], pos 1) ∷ [])

unfoldable pub choices : ℕ → List UpstreamInfo → List ℕ × List UpstreamInfo
choices zero ups = ([], ups)
choices (suc n) ups =
    let (i, ups') = choose ups in
    let (js, ups'') = choices n ups' in (elim i [ none ↦ js | some j ↦ j ∷ js ], ups'')

smooth : (choices 7 three).0 ≡ 0 ∷ 0 ∷ 1 ∷ 0 ∷ 2 ∷ 0 ∷ 0 ∷ []
unfolding choices choose make_upstreams add64 sub64
smooth = refl
