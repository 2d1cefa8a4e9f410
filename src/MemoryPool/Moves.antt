-- ===== src/MemoryPool/Moves.antt =====
-- internal/keypool/memory_pool.go: SelectKey, and the moves of keys between pools.
use gpt_load_fix.Prelude.{ℕ, zero, suc, Bool, true, false, none, some, List, [], ◌∷◌, if◌then◌else◌}
use gpt_load_fix.Prelude.Int.{pos, pos_part, sub64, leb_ℤ, ltb_ℤ}
use gpt_load_fix.Prelude.Text.{Text, bytes}
use gpt_load_fix.Prelude.Text.Decimal.{parse_uint}
use gpt_load_fix.Exec.{
  not_found, pool, Result, ok, err, Exec, uint, nil, text, pure, raise, ◌>>=◌, ◌>>◌,
}
use gpt_load_fix.Models.{ApiKey}
use gpt_load_fix.Models
use gpt_load_fix.Store.{Store}
use gpt_load_fix.Store.Lists.{l_push, rotate}
use gpt_load_fix.Sharded.Values.{l_len, z_range_by_score}
use gpt_load_fix.MemoryPool.{
  PoolType, validation, ready, active, cooling, get_redis_key, PoolConfig, Rows,
}
use gpt_load_fix.MemoryPool.Details.{
  parsed, get_key_details, set_key_details, group_of, build_api_key_from_details,
}
use gpt_load_fix.MemoryPool.Pools.{remove_keys_from_pool, add_keys_to_pool, add_to_list}

-- One round of the loop of moveToActivePool, on what Rotate returned, and the rounds after it.
abbrev pub moved : ℕ → Exec Store (List ℕ) → Result Text × Store → Result (List ℕ) × Store
moved group_id again (ok t, s) = elim (parse_uint t) [
  | none ↦ again s
  | some id ↦
      (l_push (get_redis_key group_id active) (uint id ∷ []) >> again >>= λ ids. pure (id ∷ ids)) s
]
moved group_id again (err not_found, s) = (ok [], s)
moved group_id again (err e, s) = (err e, s)

-- moveToActivePool
unfoldable pub move_to_active_pool : ℕ → ℕ → Exec Store (List ℕ)
move_to_active_pool group_id zero s = (ok [], s)
move_to_active_pool group_id (suc n) s =
    moved group_id (λ s'. move_to_active_pool group_id n s')
      (rotate (get_redis_key group_id ready) s)

-- How many keys RefillPools moves, by the size of the active pool.
unfoldable pub need_refill : PoolConfig → ℕ → ℕ
need_refill config active_count =
    let need = sub64 config.min_active_keys (pos active_count) in
    pos_part (if ltb_ℤ config.refill_batch_size need then config.refill_batch_size else need)

-- RefillPools
unfoldable pub refill_pools : PoolConfig → ℕ → Exec Store (Unit {0})
refill_pools config group_id = l_len (get_redis_key group_id active) >>= λ active_count.
    if leb_ℤ (sub64 config.min_active_keys (pos active_count)) (pos 0)
    then pure tt
    else (move_to_active_pool group_id (need_refill config active_count) >>= λ _. pure tt)

abbrev pub or_empty : Result Text × Store → Result Text × Store
or_empty (ok t, s) = (ok t, s)
or_empty (err not_found, s) = (err (pool (bytes "POOL_EMPTY")), s)
or_empty (err e, s) = (err e, s)

abbrev pub or_refill : PoolConfig → ℕ → Result Text × Store → Result Text × Store
or_refill config group_id (ok t, s) = (ok t, s)
or_refill config group_id (err not_found, s) =
    (refill_pools config group_id >> λ s'. or_empty (rotate (get_redis_key group_id active) s')) s
or_refill config group_id (err e, s) = (err e, s)

-- SelectKey. The local cache never answers it (getCachedKey).
unfoldable pub select_key : PoolConfig → ℕ → Exec Store ApiKey
select_key config group_id =
    (λ s. or_refill config group_id (rotate (get_redis_key group_id active) s)) >>= λ key_id_str.
    parsed key_id_str (parse_uint key_id_str) >>= λ key_id.
    get_key_details key_id >>= λ d. build_api_key_from_details key_id group_id d

unfoldable pub is_same_pool : PoolType → PoolType → Bool
is_same_pool validation validation = true
is_same_pool ready ready = true
is_same_pool active active = true
is_same_pool cooling cooling = true
is_same_pool _ _ = false

abbrev back : Exec Store (Unit {0}) → Result (Unit {0}) × Store → Result (Unit {0}) × Store
back rollback (ok u, s) = (ok u, s)
back rollback (err e, s) = (err e, (rollback s).1)

-- executeAtomicMove
unfoldable pub execute_atomic_move : Rows → ℕ → ℕ → PoolType → PoolType → Exec Store (Unit {0})
execute_atomic_move rows key_id group_id from to =
    remove_keys_from_pool group_id (key_id ∷ []) from >> λ s.
    back (add_keys_to_pool rows group_id (key_id ∷ []) from)
      (add_keys_to_pool rows group_id (key_id ∷ []) to s)

-- MoveKey
unfoldable pub move_key : Rows → ℕ → PoolType → PoolType → Exec Store (Unit {0})
move_key rows key_id from to = get_key_details key_id >>= λ d. group_of d >>= λ group_id.
    if is_same_pool from to
    then raise (pool (bytes "SAME_POOL"))
    else execute_atomic_move rows key_id group_id from to

abbrev pub ids_of : List Text → List ℕ
ids_of [] = []
ids_of (t ∷ ts) = let rest = ids_of ts in elim (parse_uint t) [ none ↦ rest | some id ↦ id ∷ rest ]

-- getExpiredFromCoolingPool
unfoldable pub get_expired_from_cooling_pool : ℕ → ℕ → Exec Store (List ℕ)
get_expired_from_cooling_pool now group_id =
    z_range_by_score (get_redis_key group_id cooling) 0 now >>= λ members. pure (ids_of members)

-- recoverSingleCooledKey
unfoldable pub recover_single_cooled_key : Rows → ℕ → ℕ → Exec Store (Unit {0})
recover_single_cooled_key rows group_id key_id =
    remove_keys_from_pool group_id (key_id ∷ []) cooling
    >> set_key_details key_id
        ((bytes "status", text Models.active) ∷ (bytes "rate_limit_reset_at", nil) ∷ [])
    >> add_to_list rows group_id (key_id ∷ []) ready

abbrev counted : Result (Unit {0}) × Store → ℕ × Store → ℕ × Store
counted (ok u, s) (n, s') = (suc n, s')
counted (err e, s) (n, s') = (n, s')

-- The loop of RecoverCooledKeys: how many keys it recovers.
unfoldable pub recover_each : Rows → ℕ → List ℕ → Store → ℕ × Store
recover_each rows group_id [] s = (0, s)
recover_each rows group_id (id ∷ ids) s =
    let r = recover_single_cooled_key rows group_id id s in
    counted r (recover_each rows group_id ids r.1)

-- RecoverCooledKeys
unfoldable pub recover_cooled_keys : Rows → ℕ → ℕ → Exec Store ℕ
recover_cooled_keys rows now group_id = get_expired_from_cooling_pool now group_id >>= λ ids s.
    let (n, s') = recover_each rows group_id ids s in (ok n, s')
