-- ===== src/MemoryPool/Listing.antt =====
-- internal/keypool/memory_pool.go: the keys of a pool, its size, and the status of a key.
use gpt_load_fix.Prelude.{
  ℕ, ◌==◌, Bool, false, ◌||◌, none, some, List, [], ◌∷◌, if◌then◌else◌, length,
}
use gpt_load_fix.Prelude.Dict
use gpt_load_fix.Prelude.Dict.{Dict}
use gpt_load_fix.Prelude.Int.{pos, negsuc}
use gpt_load_fix.Prelude.Text.{Text, bytes, text_eq}
use gpt_load_fix.Exec.{Result, ok, err, Exec, pure, ◌>>=◌}
use gpt_load_fix.Models.{invalid, rate_limited}
use gpt_load_fix.Models
use gpt_load_fix.Store.{Store}
use gpt_load_fix.Store.Sets.{s_members}
use gpt_load_fix.Store.Zsets.{z_card}
use gpt_load_fix.Sharded.Values.{l_len, l_range, z_range}
use gpt_load_fix.MemoryPool.{PoolType, validation, ready, active, cooling, get_redis_key}
use gpt_load_fix.MemoryPool.Details.{get_key_details, group_of}
use gpt_load_fix.MemoryPool.Moves.{ids_of}

-- getPoolSize
unfoldable pub get_pool_size : ℕ → PoolType → Exec Store ℕ
get_pool_size group_id validation =
    s_members (get_redis_key group_id validation) >>= λ members. pure (length members)
get_pool_size group_id ready = l_len (get_redis_key group_id ready)
get_pool_size group_id active = l_len (get_redis_key group_id active)
get_pool_size group_id cooling = z_card (get_redis_key group_id cooling)

abbrev texts_of : ℕ → PoolType → Exec Store (List Text)
texts_of group_id validation = s_members (get_redis_key group_id validation)
texts_of group_id ready = l_range (get_redis_key group_id ready) (pos 0) (negsuc 0)
texts_of group_id active = l_range (get_redis_key group_id active) (pos 0) (negsuc 0)
texts_of group_id cooling = z_range (get_redis_key group_id cooling) (pos 0) (negsuc 0)

-- ListKeys
unfoldable pub list_keys : ℕ → PoolType → Exec Store (List ℕ)
list_keys group_id p = texts_of group_id p >>= λ texts. pure (ids_of texts)

abbrev one_of : ℕ → List ℕ → Bool
one_of id [] = false
one_of id (x ∷ xs) = x == id || one_of id xs

abbrev status_of : PoolType → Text
status_of cooling = rate_limited
status_of _ = Models.active

-- A pool of the loop of GetKeyStatus: what ListKeys returned for it, and the pools after it.
abbrev looked : ℕ → PoolType → Exec Store Text → Result (List ℕ) × Store → Result Text × Store
looked key_id p next (ok ids, s) = if one_of key_id ids then (ok (status_of p), s) else next s
looked key_id p next (err e, s) = next s

unfoldable pub find_pool : ℕ → ℕ → List PoolType → Exec Store Text
find_pool group_id key_id [] s = (ok invalid, s)
find_pool group_id key_id (p ∷ ps) s =
    looked key_id p (λ s'. find_pool group_id key_id ps s') (list_keys group_id p s)

-- GetKeyStatus
unfoldable pub get_key_status : ℕ → Exec Store Text
get_key_status key_id = get_key_details key_id >>= λ d. elim (Dict.get d (bytes "status")) [
  | some status ↦ pure status
  | none ↦ group_of d >>= λ group_id.
      find_pool group_id key_id (validation ∷ ready ∷ active ∷ cooling ∷ [])
]
