-- ===== src/MemoryPool/Names.antt =====
-- The names of the pools and of the details (internal/keypool/memory_pool.go) do not clash.
use mathlib.Core.List.{append_cancel_left}
use gpt_load_fix.Prelude.{ℕ, ◌≡◌, ◌≢◌, [], ◌∷◌, ◌++◌, ap, arith}
use gpt_load_fix.Prelude.Text.{Text, bytes}
use gpt_load_fix.Prelude.Text.Decimal.{format_uint}
use gpt_load_fix.MemoryPool.{
  PoolType, validation, ready, active, cooling, pool_name, get_redis_key, get_key_details_key,
}

abbrev first : Text → ℕ
first [] = 0
first (c ∷ t) = c

same_pool :
    (g : ℕ) (p q : PoolType) → get_redis_key g p ≡ get_redis_key g q → pool_name p ≡ pool_name q
unfolding get_redis_key
same_pool g p q h =
    append_cancel_left (format_uint g ++ bytes ":") (pool_name p) (pool_name q)
      (append_cancel_left (bytes "group:") _ _ (append_cancel_left (bytes "memory_pool:") _ _ h))

pub ready-ne-active : (g : ℕ) → get_redis_key g ready ≢ get_redis_key g active
ready-ne-active g h = absurd (omega (arith, ap first (same_pool g ready active h)))

pub active-ne-ready : (g : ℕ) → get_redis_key g active ≢ get_redis_key g ready
active-ne-ready g h = absurd (omega (arith, ap first (same_pool g active ready h)))

pub active-ne-cooling : (g : ℕ) → get_redis_key g active ≢ get_redis_key g cooling
active-ne-cooling g h = absurd (omega (arith, ap first (same_pool g active cooling h)))

pub cooling-ne-active : (g : ℕ) → get_redis_key g cooling ≢ get_redis_key g active
cooling-ne-active g h = absurd (omega (arith, ap first (same_pool g cooling active h)))

pub cooling-ne-ready : (g : ℕ) → get_redis_key g cooling ≢ get_redis_key g ready
cooling-ne-ready g h = absurd (omega (arith, ap first (same_pool g cooling ready h)))

pub details-ne-pool : (id g : ℕ) (p : PoolType) → get_key_details_key id ≢ get_redis_key g p
unfolding get_redis_key get_key_details_key
details-ne-pool id g p h =
    absurd (omega (arith, ap first (append_cancel_left (bytes "memory_pool:") _ _ h)))

pub pool-ne-details : (id g : ℕ) (p : PoolType) → get_redis_key g p ≢ get_key_details_key id
unfolding get_redis_key get_key_details_key
pool-ne-details id g p h =
    absurd (omega (arith, ap first (append_cancel_left (bytes "memory_pool:") _ _ h)))

pub validation-ne-active : (g : ℕ) → get_redis_key g validation ≢ get_redis_key g active
validation-ne-active g h = absurd (omega (arith, ap first (same_pool g validation active h)))

pub validation-ne-ready : (g : ℕ) → get_redis_key g validation ≢ get_redis_key g ready
validation-ne-ready g h = absurd (omega (arith, ap first (same_pool g validation ready h)))

pub cooling-ne-validation : (g : ℕ) → get_redis_key g cooling ≢ get_redis_key g validation
cooling-ne-validation g h = absurd (omega (arith, ap first (same_pool g cooling validation h)))

pub active-ne-validation : (g : ℕ) → get_redis_key g active ≢ get_redis_key g validation
active-ne-validation g h = absurd (omega (arith, ap first (same_pool g active validation h)))

pub ready-ne-validation : (g : ℕ) → get_redis_key g ready ≢ get_redis_key g validation
ready-ne-validation g h = absurd (omega (arith, ap first (same_pool g ready validation h)))
