-- ===== src/Upstream/Ledger.antt =====
-- What the current weights of a channel (base_channel.go) stand for: after `k` picks of a run in
-- which upstream i was picked n_i times, they are k * weight_i - total * n_i.
use gpt_load_fix.Prelude.{
  ℕ, zero, suc, ◌+◌, ◌*◌, ◌≤◌, ◌<◌, ◌≡◌, refl, ◌⊎◌, inl, inr, Option, none, some, List, [], ◌∷◌,
  map, arith, All,
}
use gpt_load_fix.Prelude.Int.{
  ℤ, pos, negsuc, pos_part, neg_part, ◌+ℤ◌, ◌-ℤ◌, add64, sub64, add64_exact, sub64_exact, +ℤ_parts,
  -ℤ_parts, max_int64,
}
use gpt_load_fix.Upstream.{UpstreamInfo, raise_weight, charge}

abbrev pub sum_weights : List UpstreamInfo → ℕ
sum_weights [] = 0
sum_weights (up ∷ ups) = up.weight + sum_weights ups

abbrev pub sum : List ℕ → ℕ
sum [] = 0
sum (n ∷ ns) = n + sum ns

abbrev pub weight_at : List UpstreamInfo → ℕ → Option ℤ
weight_at [] i = none
weight_at (up ∷ ups) zero = some up.current_weight
weight_at (up ∷ ups) (suc i) = weight_at ups i

-- One more pick of upstream i.
abbrev pub bump : ℕ → List ℕ → List ℕ
bump i [] = []
bump zero (n ∷ ns) = suc n ∷ ns
bump (suc i) (n ∷ ns) = n ∷ bump i ns

pub record Entry (k total n : ℕ) (up : UpstreamInfo) : Type 0 where
  pub balance : pos_part up.current_weight + total * n ≡ k * up.weight + neg_part up.current_weight
  pub above : neg_part up.current_weight < total
  pub light : up.weight ≤ total

abbrev pub Ledger : ℕ → ℕ → List ℕ → List UpstreamInfo → Type 0
Ledger k total [] [] = Unit
Ledger k total [] (up ∷ ups) = ⊥
Ledger k total (n ∷ ns) [] = ⊥
Ledger k total (n ∷ ns) (up ∷ ups) = Entry k total n up × Ledger k total ns ups

pub mul_mono : (a b c d : ℕ) → a ≤ b → c ≤ d → a * c ≤ b * d
mul_mono a b c d h h' = grind arith

pub one_part : (z : ℤ) → (pos_part z ≡ 0) ⊎ (neg_part z ≡ 0)
one_part (pos n) = inr refl
one_part (negsuc n) = inl refl

-- Within a cycle no weight leaves the range of Go's `int`.
Entry_bound :
    (k total n : ℕ) (up : UpstreamInfo)
    → Entry k total n up
    → k ≤ total
    → pos_part up.current_weight ≤ total * total
Entry_bound k total n up e h =
    omega (arith, e.balance, one_part up.current_weight, mul_mono k total up.weight total h e.light)

-- A total is in range where its square is.
pub total_fits : (total : ℕ) → 0 < total → total * total ≤ max_int64 → total ≤ max_int64
total_fits total h fits = omega (arith, mul_mono 1 total total total h (omega arith))

module _ (k total n : ℕ) (up : UpstreamInfo) (e : Entry k total n up) (h : suc k ≤ total)
    (fits : total * total ≤ max_int64) where
  raised_balance :
      pos_part (up.current_weight +ℤ pos up.weight) + total * n
      ≡ suc k * up.weight + neg_part (up.current_weight +ℤ pos up.weight)
  raised_balance = omega (arith, e.balance, +ℤ_parts up.current_weight (pos up.weight))

  raised_above : neg_part (up.current_weight +ℤ pos up.weight) ≤ neg_part up.current_weight
  raised_above = omega (
    arith,
    +ℤ_parts up.current_weight (pos up.weight),
    one_part (up.current_weight +ℤ pos up.weight),
  )

  raised_exact : add64 up.current_weight (pos up.weight) ≡ up.current_weight +ℤ pos up.weight
  raised_exact = add64_exact up.current_weight (pos up.weight) (
    omega (
      arith,
      raised_balance,
      one_part (up.current_weight +ℤ pos up.weight),
      mul_mono (suc k) total up.weight total h e.light,
    ),
    omega (arith, raised_above, e.above, total_fits total (omega (arith, h)) fits),
  )

  raise-Entry : Entry (suc k) total n (raise_weight up)
  raise-Entry = record {
    balance = rw raised_exact raised_balance;
    above = rw raised_exact (omega (arith, raised_above, e.above));
    light = e.light;
  }

-- Raising every weight is the work of one more round.
pub raise-Ledger :
    (k total : ℕ) (ns : List ℕ) (ups : List UpstreamInfo)
    → Ledger k total ns ups
    → suc k ≤ total
    → total * total ≤ max_int64
    → Ledger (suc k) total ns (map raise_weight ups)
raise-Ledger k total [] [] l h fits = tt
raise-Ledger k total [] (up ∷ ups) l h fits = absurd l
raise-Ledger k total (n ∷ ns) [] l h fits = absurd l
raise-Ledger k total (n ∷ ns) (up ∷ ups) l h fits =
    (raise-Entry k total n up l.0 h fits, raise-Ledger k total ns ups l.1 h fits)

module _ (k total n : ℕ) (up : UpstreamInfo) (e : Entry k total n up) (h : k ≤ total)
    (fits : total * total ≤ max_int64) (high : 0 < pos_part up.current_weight) where
  charged_exact : sub64 up.current_weight (pos total) ≡ up.current_weight -ℤ pos total
  charged_exact = sub64_exact up.current_weight (pos total) (
    omega (
      arith,
      -ℤ_parts up.current_weight (pos total),
      one_part (up.current_weight -ℤ pos total),
      Entry_bound k total n up e h,
    ),
    omega (
      arith,
      -ℤ_parts up.current_weight (pos total),
      one_part (up.current_weight -ℤ pos total),
      one_part up.current_weight,
      total_fits total (omega (arith, e.above)) fits,
    ),
  )

  charge-Entry :
      Entry k total (suc n) (record up { current_weight = sub64 up.current_weight (pos total) })
  charge-Entry = record {
    balance = rw charged_exact (omega (arith, e.balance, -ℤ_parts up.current_weight (pos total)));
    above = rw charged_exact (
        omega (
          arith,
          -ℤ_parts up.current_weight (pos total),
          one_part (up.current_weight -ℤ pos total),
          one_part up.current_weight,
        ));
    light = e.light;
  }

-- Charging an upstream whose weight is positive enters its pick.
pub charge-Ledger :
    (k total d : ℕ) (ns : List ℕ) (ups : List UpstreamInfo) (w : ℤ)
    → Ledger k total ns ups
    → k ≤ total
    → total * total ≤ max_int64
    → weight_at ups d ≡ some w
    → 0 < pos_part w
    → Ledger k total (bump d ns) (charge d (pos total) ups)
unfolding charge
charge-Ledger k total d [] [] w l h fits e p = tt
charge-Ledger k total d [] (up ∷ ups) w l h fits e p = absurd l
charge-Ledger k total d (n ∷ ns) [] w l h fits e p = absurd l
charge-Ledger k total zero (n ∷ ns) (up ∷ ups) w l h fits e p =
    (charge-Entry k total n up l.0 h fits (ground (arith, e, p)), l.1)
charge-Ledger k total (suc d) (n ∷ ns) (up ∷ ups) w l h fits e p =
    (l.0, charge-Ledger k total d ns ups w l.1 h fits e p)

-- If no weight is positive, the picks made outweigh the rounds.
pub weights_spent :
    (k total : ℕ) (ns : List ℕ) (ups : List UpstreamInfo)
    → Ledger k total ns ups
    → All (λ up. pos_part up.current_weight ≡ 0) ups
    → k * sum_weights ups ≤ total * sum ns
weights_spent k total [] [] l a = omega arith
weights_spent k total [] (up ∷ ups) l a = absurd l
weights_spent k total (n ∷ ns) [] l a = absurd l
weights_spent k total (n ∷ ns) (up ∷ ups) l a =
    omega (arith, weights_spent k total ns ups l.1 a.1, l.0.balance, a.0)
