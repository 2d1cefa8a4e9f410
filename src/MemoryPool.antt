-- ===== src/MemoryPool.antt =====
-- internal/keypool/memory_pool.go: MemoryLayeredPool. Its store is the sharded one, of which each call
-- is what it is on one store; here it is one. What the database answers is given.
pub mod Details
pub mod Pools
pub mod Moves
pub mod Handlers
pub mod Listing
pub mod Names
pub mod Refill
pub mod Selected
pub mod Cooling
pub mod Returned
pub mod Added
pub mod Removed
pub mod Emptied
pub mod Gone
mod Tests
use gpt_load_fix.Prelude.{ℕ, ◌++◌, List, Option}
use gpt_load_fix.Prelude.Int.{ℤ}
use gpt_load_fix.Prelude.Text.{Text, bytes}
use gpt_load_fix.Prelude.Text.Decimal.{format_uint}
use gpt_load_fix.Exec.{Result}
use gpt_load_fix.Models.{ApiKey, Group}

pub data PoolType : Type 0 where
  validation ready active cooling : PoolType

abbrev pub pool_name : PoolType → Text
pool_name validation = bytes "validation"
pool_name ready = bytes "ready"
pool_name active = bytes "active"
pool_name cooling = bytes "cooling"

-- getRedisKey
unfoldable pub get_redis_key : ℕ → PoolType → Text
get_redis_key group_id p =
    bytes "memory_pool:" ++ bytes "group:" ++ format_uint group_id ++ bytes ":" ++ pool_name p

-- getKeyDetailsKey
unfoldable pub get_key_details_key : ℕ → Text
get_key_details_key key_id = bytes "memory_pool:" ++ bytes "key:" ++ format_uint key_id

-- PoolConfig, as far as RefillPools reads it.
pub record PoolConfig : Type 0 where
  pub min_active_keys : ℤ
  pub refill_batch_size : ℤ

-- RateLimitError; times are seconds since 1970.
pub record RateLimit : Type 0 where
  pub retry_after : ℕ
  pub reset_at : Option ℕ

-- The answers of the database to the pool's queries.
pub record Rows : Type 0 where
  -- db.First(&group, id) and db.First(&key, id)
  pub first_group : ℕ → Result Group
  pub first_key : ℕ → Result ApiKey
  -- db.Where("id IN ? AND group_id = ?", ids, group).Find(&keys)
  pub find_keys : List ℕ → ℕ → Result (List ApiKey)
  -- CreatedAt and UpdatedAt of a row, as fmt.Sprint prints them
  pub times : ℕ → Text × Text
