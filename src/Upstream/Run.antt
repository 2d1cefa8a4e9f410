-- ===== src/Upstream/Run.antt =====
-- A run of picks of getUpstreamURL (base_channel.go) and its books.
use native.Mathlib.Decide.{dec_lt}
use native.Mathlib.Nat.{zero-add}
use gpt_load_fix.Prelude.{
  ℕ, zero, suc, ◌+◌, ◌*◌, ◌≤◌, ◌<◌, ◌≡◌, refl, ap, ◌∙◌, inl, inr, none, some, List, [], ◌∷◌, map,
  arith, All, length, nat_eq,
}
use gpt_load_fix.Prelude.Int.{ℤ, pos, pos_part, ◌≤ℤ◌, max_int64}
use gpt_load_fix.Prelude.Text.{Text}
use gpt_load_fix.Upstream.{UpstreamInfo, Best, raise_weight, charge, settle, choose}
use gpt_load_fix.Upstream.Scan.{best_of, scan-eq, best_of-some, best_of_source, best_of_max}
use gpt_load_fix.Upstream.Ledger.{
  sum_weights, sum, weight_at, bump, Ledger, raise-Ledger, charge-Ledger, weights_spent, one_part,
  total_fits,
}

-- What a pick leaves alone.
abbrev pub shape : List UpstreamInfo → List (Text × ℕ)
shape = map (λ up. (up.url, up.weight))

shape-raise : (ups : List UpstreamInfo) → shape (map raise_weight ups) ≡ shape ups
shape-raise [] = refl
shape-raise (up ∷ ups) = ap (λ r. (up.url, up.weight) ∷ r) (shape-raise ups)

shape-charge :
    (i : ℕ) (total : ℤ) (ups : List UpstreamInfo) → shape (charge i total ups) ≡ shape ups
unfolding charge
shape-charge i total [] = refl
shape-charge zero total (up ∷ ups) = refl
shape-charge (suc i) total (up ∷ ups) = ap (λ r. (up.url, up.weight) ∷ r) (shape-charge i total ups)

sum_weights-shape :
    (ups vps : List UpstreamInfo) → shape ups ≡ shape vps → sum_weights ups ≡ sum_weights vps
sum_weights-shape [] [] h = refl
sum_weights-shape [] (v ∷ vps) h = cc
sum_weights-shape (u ∷ ups) [] h = cc
sum_weights-shape (u ∷ ups) (v ∷ vps) h = ground (arith, sum_weights-shape ups vps, h)

none_positive :
    (w : ℤ) (ups : List UpstreamInfo)
    → pos_part w ≡ 0
    → All (λ up. up.current_weight ≤ℤ w) ups
    → All (λ up. pos_part up.current_weight ≡ 0) ups
none_positive w [] p a = tt
none_positive w (up ∷ ups) p a =
    (omega (arith, one_part up.current_weight, a.0, p), none_positive w ups p a.1)

sum-bump : (d : ℕ) (ns : List ℕ) → d < length ns → sum (bump d ns) ≡ suc (sum ns)
sum-bump d [] h = elim h [ ]
sum-bump zero (n ∷ ns) h = omega arith
sum-bump (suc d) (n ∷ ns) h = omega (arith, sum-bump d ns (omega arith))

weight_at-lt : (ups : List UpstreamInfo) (d : ℕ) (w : ℤ) → weight_at ups d ≡ some w → d < length ups
weight_at-lt [] d w h = cc
weight_at-lt (up ∷ ups) zero w h = omega arith
weight_at-lt (up ∷ ups) (suc d) w h = omega (arith, weight_at-lt ups d w h)

length-Ledger :
    (k total : ℕ) (ns : List ℕ) (ups : List UpstreamInfo)
    → Ledger k total ns ups
    → length ns ≡ length ups
length-Ledger k total [] [] l = refl
length-Ledger k total [] (up ∷ ups) l = absurd l
length-Ledger k total (n ∷ ns) [] l = absurd l
length-Ledger k total (n ∷ ns) (up ∷ ups) l = ap suc (length-Ledger k total ns ups l.1)

-- A run: the books after `k` picks, and the weights still those of the beginning.
pub record Run (start : List (Text × ℕ)) (total k : ℕ) (ns : List ℕ) (ups : List UpstreamInfo)
    : Type 0 where
  pub ledger : Ledger k total ns ups
  pub picks : sum ns ≡ k
  pub weights : sum_weights ups ≡ total
  pub same : shape ups ≡ start

-- The raised weights cannot all be spent, so the best is positive.
best_positive :
    (start : List (Text × ℕ)) (total k : ℕ) (ns : List ℕ) (ups : List UpstreamInfo) (w : ℤ)
    → Run start total k ns ups
    → 0 < total
    → Ledger (suc k) total ns (map raise_weight ups)
    → All (λ up. up.current_weight ≤ℤ w) (map raise_weight ups)
    → 0 < pos_part w
best_positive start total k ns ups w r p l a = elim (dec_lt 0 (pos_part w)) [
  | yes h ↦ h
  | no h ↦ absurd (
      spent (
        weights_spent (suc k) total ns (map raise_weight ups) l
          (none_positive w (map raise_weight ups) (omega arith) a)))
]
  where
    weight : sum_weights (map raise_weight ups) ≡ total
    weight = sum_weights-shape (map raise_weight ups) ups (shape-raise ups) ∙ r.weights

    spent : suc k * sum_weights (map raise_weight ups) ≤ total * sum ns → ⊥
    spent = rw (weight, r.picks) (λ h. omega arith)

module _ (start : List (Text × ℕ)) (total k : ℕ) (ns : List ℕ) (ups : List UpstreamInfo)
    (r : Run start total k ns ups) (p : 0 < total) (h : suc k ≤ total)
    (fits : total * total ≤ max_int64) where
  raised : Ledger (suc k) total ns (map raise_weight ups)
  raised = raise-Ledger k total ns ups r.ledger h fits

  found_Run :
      (d : ℕ) (w : ℤ)
      → weight_at (map raise_weight ups) d ≡ some w
      → 0 < pos_part w
      → Run start total (suc k) (bump d ns) (charge d (pos total) (map raise_weight ups))
  found_Run d w at high = record {
    ledger = charge-Ledger (suc k) total d ns (map raise_weight ups) w raised h fits at high;
    picks = sum-bump d ns inside ∙ ap suc r.picks;
    weights = sum_weights-shape _ ups kept ∙ r.weights;
    same = kept ∙ r.same;
  }
    where
      kept : shape (charge d (pos total) (map raise_weight ups)) ≡ shape ups
      kept = shape-charge d (pos total) (map raise_weight ups) ∙ shape-raise ups

      inside : d < length ns
      inside = omega (
        arith,
        length-Ledger (suc k) total ns (map raise_weight ups) raised,
        weight_at-lt (map raise_weight ups) d w at,
      )

  best_Run :
      (m : ℕ) (w : ℤ)
      → best_of 0 none (map raise_weight ups) ≡ some (m, w)
      → Run start total (suc k) (bump m ns) (charge m (pos total) (map raise_weight ups))
  best_Run m w e = elim (best_of_source 0 none (map raise_weight ups) m w e) [
    | inl no_best ↦ cc
    | inr (d, e', at) ↦ rw (e' ∙ zero-add d) (
        found_Run d w at (
          best_positive start total k ns ups w r p raised
            (best_of_max 0 none (map raise_weight ups) m w e).1))
  ]

-- Where there is a choice to make.
abbrev pub IsMany : List UpstreamInfo → Type 0
IsMany [] = ⊥
IsMany (up ∷ []) = ⊥
IsMany (up ∷ up' ∷ ups) = Unit

choose_best :
    (start : List (Text × ℕ)) (total k : ℕ) (ns : List ℕ) (up up' : UpstreamInfo)
    (ups : List UpstreamInfo) (m : ℕ) (w : ℤ)
    → Run start total k ns (up ∷ up' ∷ ups)
    → 0 < total
    → total * total ≤ max_int64
    → best_of 0 none (map raise_weight (up ∷ up' ∷ ups)) ≡ some (m, w)
    → choose (up ∷ up' ∷ ups) ≡ (some m, charge m (pos total) (map raise_weight (up ∷ up' ∷ ups)))
unfolding choose
choose_best start total k ns up up' ups m w r p fits e =
    ap settle (
      scan-eq 0 none 0 (up ∷ up' ∷ ups) (omega (arith, r.weights, total_fits total p fits))
      ∙ closed)
  where
    closed :
        ◌≡◌ {A = List UpstreamInfo × Best × ℤ}
          (
            map raise_weight (up ∷ up' ∷ ups),
            best_of 0 none (map raise_weight (up ∷ up' ∷ ups)),
            pos (0 + sum_weights (up ∷ up' ∷ ups)),
          )
          (map raise_weight (up ∷ up' ∷ ups), some (m, w), pos total)
    closed = rw (e, r.weights, zero-add)

pub choose-Run :
    (start : List (Text × ℕ)) (total k : ℕ) (ns : List ℕ) (ups : List UpstreamInfo)
    → IsMany ups
    → Run start total k ns ups
    → 0 < total
    → suc k ≤ total
    → total * total ≤ max_int64
    → (m : ℕ) × (ups' : List UpstreamInfo) × (choose ups ≡ (some m, ups'))
      × Run start total (suc k) (bump m ns) ups'
unfolding best_of
choose-Run start total k ns [] many r p h fits = absurd many
choose-Run start total k ns (up ∷ []) many r p h fits = absurd many
choose-Run start total k ns (up ∷ up' ∷ ups) many r p h fits =
    let (m, w, e) =
      best_of-some 1 0 (raise_weight up).current_weight (map raise_weight (up' ∷ ups)) in
    (
      m,
      charge m (pos total) (map raise_weight (up ∷ up' ∷ ups)),
      choose_best start total k ns up up' ups m w r p fits e,
      best_Run start total k ns (up ∷ up' ∷ ups) r p h fits m w e,
    )
