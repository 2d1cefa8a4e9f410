-- ===== src/MemoryPool/Handlers.antt =====
-- internal/keypool/memory_pool.go: what comes of a key that was used.
use gpt_load_fix.Prelude.{ℕ, ◌+◌, ◌&&◌, Bool, true, none, some, List, [], ◌∷◌, if◌then◌else◌}
use gpt_load_fix.Prelude.Dict.{Dict}
use gpt_load_fix.Prelude.Int.{ℤ, pos, add64, leb_ℤ, ltb_ℤ}
use gpt_load_fix.Prelude.Text.{Text, bytes, text_eq}
use gpt_load_fix.Exec.{Result, ok, err, Exec, Any, text, int, uint, raise, ◌>>=◌, ◌>>◌}
use gpt_load_fix.Models.{Group, invalid, rate_limited}
use gpt_load_fix.Store.{Store}
use gpt_load_fix.Store.Lists.{l_push, l_rem}
use gpt_load_fix.Store.Hashes.{number_of}
use gpt_load_fix.MemoryPool.{active, get_redis_key, RateLimit, Rows}
use gpt_load_fix.MemoryPool.Details.{
  ignore, get_key_details, set_key_details, group_of, update_key_stats,
}
use gpt_load_fix.MemoryPool.Pools.{add_to_cooling_pool}

unfoldable pub is_blacklisted : ℤ → ℤ → Bool
is_blacklisted threshold failures = ltb_ℤ (pos 0) threshold && leb_ℤ threshold failures

abbrev failed : ℕ → ℕ → ℤ → Result Group → Exec Store Unit
failed key_id group_id failures (err e) = raise e
failed key_id group_id failures (ok group) =
    let list_key = get_redis_key group_id active in
    if is_blacklisted group.blacklist_threshold failures
    then (ignore (l_rem list_key 0 (uint key_id))
        >> set_key_details key_id
            ((bytes "failure_count", int failures) ∷ (bytes "status", text invalid) ∷ []))
    else (l_push list_key (uint key_id ∷ [])
        >> set_key_details key_id ((bytes "failure_count", int failures) ∷ []))

-- handleKeyFailure
unfoldable pub handle_key_failure : Rows → ℕ → ℕ → Exec Store Unit
handle_key_failure rows key_id group_id = get_key_details key_id >>= λ d.
    failed key_id group_id (add64 (number_of d (bytes "failure_count")) (pos 1))
      (rows.first_group group_id)

-- ReturnKey
unfoldable pub return_key : Rows → ℕ → ℕ → Bool → Exec Store Unit
return_key rows now key_id success = get_key_details key_id >>= λ d. group_of d >>= λ group_id.
    if success
    then (l_push (get_redis_key group_id active) (uint key_id ∷ [])
        >> update_key_stats now key_id true)
    else handle_key_failure rows key_id group_id

abbrev pub reset_time : ℕ → RateLimit → ℕ
reset_time now r = elim r.reset_at [ none ↦ now + r.retry_after | some t ↦ t ]

abbrev pub limit_fields : ℕ → ℕ → Dict Text Text → List (Text × Any)
limit_fields now reset_at d =
    (bytes "status", text rate_limited)
    ∷ (bytes "rate_limit_count", int (add64 (number_of d (bytes "rate_limit_count")) (pos 1)))
    ∷ (bytes "last_429_at", uint now)
    ∷ (bytes "rate_limit_reset_at", uint reset_at)
    ∷ []

-- HandleRateLimit
unfoldable pub handle_rate_limit : ℕ → RateLimit → ℕ → Exec Store Unit
handle_rate_limit now r key_id = get_key_details key_id >>= λ d. group_of d >>= λ group_id.
    ignore (l_rem (get_redis_key group_id active) 0 (uint key_id))
    >> add_to_cooling_pool group_id key_id (reset_time now r)
    >> set_key_details key_id (limit_fields now (reset_time now r) d)
