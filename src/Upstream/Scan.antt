-- ===== src/Upstream/Scan.antt =====
-- What the loop of getUpstreamURL (base_channel.go) finds: the first of the largest raised weights.
use gpt_load_fix.Prelude.{
  ℕ, zero, suc, ◌+◌, ◌≤◌, ◌≡◌, refl, ap, ◌⊎◌, inl, inr, none, some, List, [], ◌∷◌, map, arith, All,
  Bool-cases, nat_eq,
}
use gpt_load_fix.Prelude.Int.{ℤ, pos, ltb_ℤ, ◌≤ℤ◌, add64, max_int64}
use gpt_load_fix.Upstream.{UpstreamInfo, Best, better, raise_weight, scan}
use gpt_load_fix.Upstream.Ledger.{sum_weights, weight_at}

unfoldable pub best_of : ℕ → Best → List UpstreamInfo → Best
best_of i best [] = best
best_of i best (up ∷ ups) = best_of (suc i) (better i up.current_weight best) ups

add64_pos : (a b : ℕ) → a + b ≤ max_int64 → add64 (pos a) (pos b) ≡ pos (a + b)
unfolding add64
add64_pos a b h = ground arith

pub scan-eq :
    (i : ℕ) (best : Best) (t : ℕ) (ups : List UpstreamInfo)
    → t + sum_weights ups ≤ max_int64
    → scan i best (pos t) ups
      ≡ (map raise_weight ups, best_of i best (map raise_weight ups), pos (t + sum_weights ups))
unfolding scan best_of
scan-eq i best t [] h = ground arith
scan-eq i best t (up ∷ ups) h = ground (
  arith,
  add64_pos t up.weight,
  scan-eq (suc i) (better i (raise_weight up).current_weight best) (t + up.weight) ups,
)

-- With something found already, the loop ends with something.
pub best_of-some :
    (i j : ℕ) (b : ℤ) (ups : List UpstreamInfo)
    → (m : ℕ) × (w : ℤ) × (best_of i (some (j, b)) ups ≡ some (m, w))
unfolding best_of
best_of-some i j b [] = (j, b, refl)
best_of-some i j b (up ∷ ups) = elim (Bool-cases (ltb_ℤ b up.current_weight)) [
  | inl h ↦ rw h (best_of-some (suc i) i up.current_weight ups)
  | inr h ↦ rw h (best_of-some (suc i) j b ups)
]

-- Where the result comes from.
better_source :
    (i : ℕ) (x : ℤ) (best : Best) (m : ℕ) (w : ℤ)
    → better i x best ≡ some (m, w)
    → (best ≡ some (m, w)) ⊎ ((m ≡ i) × (x ≡ w))
better_source i x none m w h = inr (ground (arith, h))
better_source i x (some (j, b)) m w h = ground (arith, h)

pub best_of_source :
    (i : ℕ) (best : Best) (ups : List UpstreamInfo) (m : ℕ) (w : ℤ)
    → best_of i best ups ≡ some (m, w)
    → (best ≡ some (m, w)) ⊎ ((d : ℕ) × (m ≡ i + d) × (weight_at ups d ≡ some w))
unfolding best_of
best_of_source i best [] m w h = inl h
best_of_source i best (up ∷ ups) m w h =
    elim (best_of_source (suc i) (better i up.current_weight best) ups m w h) [
      | inl e ↦ elim (better_source i up.current_weight best m w e) [
        | inl e' ↦ inl e'
        | inr (e', e'') ↦ inr (zero, omega (arith, e'), ap some e'')
      ]
      | inr (d, e, e') ↦ inr (suc d, omega (arith, e), e')
    ]

abbrev pub AtMost : ℤ → Best → Type 0
AtMost w none = Unit
AtMost w (some (j, b)) = b ≤ℤ w

better-AtMost :
    (i : ℕ) (x : ℤ) (best : Best) (w : ℤ) → AtMost w (better i x best) → AtMost w best × (x ≤ℤ w)
better-AtMost i x none w h = (tt, h)
better-AtMost i x (some (j, b)) w h = ground (arith, h)

-- No raised weight passes the result's.
pub best_of_max :
    (i : ℕ) (best : Best) (ups : List UpstreamInfo) (m : ℕ) (w : ℤ)
    → best_of i best ups ≡ some (m, w)
    → AtMost w best × All (λ up. up.current_weight ≤ℤ w) ups
unfolding best_of
best_of_max i best [] m w h = rw h (omega arith, tt)
best_of_max i best (up ∷ ups) m w h =
    let (b, a) = best_of_max (suc i) (better i up.current_weight best) ups m w h in
    let (b', x) = better-AtMost i up.current_weight best w b in (b', (x, a))
