-- ===== src/MemoryPool/Tests.antt =====
-- The theorems of the layered pool at concrete inputs.
use gpt_load_fix.Prelude.{All, ◌≡◌, refl, true, inr, none, some, [], ◌∷◌, arith}
use gpt_load_fix.Prelude.Dict
use gpt_load_fix.Prelude.Dict.{Dict}
use gpt_load_fix.Prelude.Int.{pos, sub64}
use gpt_load_fix.Prelude.Text.{Text, bytes, text_eq}
use gpt_load_fix.Prelude.Text.Decimal.{format_uint, parse_uint}
use gpt_load_fix.Exec.{ok, err, pool, not_found, ◌>>=◌}
use gpt_load_fix.Models.{ApiKey, Group}
use gpt_load_fix.Models
use gpt_load_fix.Store.{list, hash, Store, lookup, empty, write}
use gpt_load_fix.Store.Hashes
use gpt_load_fix.Store.Hashes.{h_get_all}
use gpt_load_fix.Store.Lists
use gpt_load_fix.Store.Zsets
use gpt_load_fix.MemoryPool.Details
use gpt_load_fix.MemoryPool.Pools
use gpt_load_fix.MemoryPool.{
  ready, active, get_redis_key, get_key_details_key, PoolConfig, RateLimit, Rows,
}
use gpt_load_fix.MemoryPool.Details.{get_key_details, group_of, built}
use gpt_load_fix.MemoryPool.Pools.{add_keys, remove_keys}
use gpt_load_fix.MemoryPool.Moves.{need_refill, select_key}
use gpt_load_fix.MemoryPool.Handlers.{handle_rate_limit, return_key, reset_time}
use gpt_load_fix.MemoryPool.Refill.{names}
use gpt_load_fix.MemoryPool.Selected.{select_key-refills}
use gpt_load_fix.MemoryPool.Returned.{return_key-duplicates}
use gpt_load_fix.MemoryPool.Cooling.{IsCooled, handle_rate_limit-IsCooled}
use gpt_load_fix.MemoryPool.Gone.{IsGone, remove_keys-IsGone}
use gpt_load_fix.MemoryPool.Added.{add_keys-unserved}

abbrev config : PoolConfig
config = record { min_active_keys = pos 2; refill_batch_size = pos 10 }

abbrev details : Dict Text Text
details =
    (bytes "key_value", bytes "sk-9")
    ∷ (bytes "group_id", bytes "1")
    ∷ (bytes "status", Models.rate_limited)
    ∷ []

-- Group 1 with the keys 8 and 9 in one pool, and the details of 9.
abbrev with_details : Store
with_details = write empty (get_key_details_key 9) (hash details)

abbrev ready_store : Store
ready_store = write with_details (get_redis_key 1 ready) (list (names (8 ∷ 9 ∷ [])))

abbrev active_store : Store
active_store = write with_details (get_redis_key 1 active) (list (names (8 ∷ 9 ∷ [])))

abbrev rows : Rows
rows = record {
  first_group = λ id. err not_found;
  first_key = λ id. err not_found;
  find_keys = λ ids g. ok (built 9 1 details (bytes "sk-9") ∷ []);
  times = λ id. (bytes "now", bytes "now");
}

needs_two : need_refill config 0 ≡ 2
unfolding need_refill sub64
needs_two = refl

ready_is : lookup ready_store (get_redis_key 1 ready) ≡ some (list (names (8 ∷ 9 ∷ [])))
unfolding lookup write get_redis_key get_key_details_key Dict.get Dict.put format_uint
ready_is = refl

ready_detailed : get_key_details 9 ready_store ≡ (ok details, ready_store)
unfolding get_key_details h_get_all lookup write get_redis_key get_key_details_key Dict.get Dict.put
    format_uint
ready_detailed = refl

active_is : lookup active_store (get_redis_key 1 active) ≡ some (list (names (8 ∷ 9 ∷ [])))
unfolding lookup write get_redis_key get_key_details_key Dict.get Dict.put format_uint
active_is = refl

no_active : lookup ready_store (get_redis_key 1 active) ≡ none
unfolding lookup write get_redis_key get_key_details_key Dict.get Dict.put format_uint
no_active = refl

active_detailed : get_key_details 9 active_store ≡ (ok details, active_store)
unfolding get_key_details h_get_all lookup write get_redis_key get_key_details_key Dict.get Dict.put
    format_uint
active_detailed = refl

value_named : Dict.get details (bytes "key_value") ≡ some (bytes "sk-9")
unfolding Dict.get
value_named = refl

group_named : Dict.get details (bytes "group_id") ≡ some (bytes "1")
unfolding Dict.get
group_named = refl

one_parsed : parse_uint (bytes "1") ≡ some 1
unfolding parse_uint
one_parsed = refl

nothing_in : (key : Text) → lookup empty key ≡ none
unfolding lookup Dict.get
nothing_in key = refl

group_one : (s : Store) → group_of details s ≡ (ok 1, s)
unfolding group_of Dict.get parse_uint
group_one s = refl

limit : RateLimit
limit = record { retry_after = 60; reset_at = none }

cooled_store : Store
cooled_store = (handle_rate_limit 100 limit 9 active_store).1

cools : handle_rate_limit 100 limit 9 active_store ≡ (ok tt, cooled_store)
unfolding cooled_store limit handle_rate_limit Details.get_key_details Details.set_key_details
    Details.group_of Pools.add_to_cooling_pool Lists.l_rem Zsets.z_add Hashes.h_set h_get_all lookup
    write get_redis_key get_key_details_key Dict.get Dict.put format_uint parse_uint
cools = refl

select_key-refills_example :
    (s' : Store) × (select_key config 1 ready_store ≡ (ok (built 9 1 details (bytes "sk-9")), s'))
    × (lookup s' (get_redis_key 1 active) ≡ some (list (names (9 ∷ 8 ∷ []))))
    × (lookup s' (get_redis_key 1 ready) ≡ some (list (names (8 ∷ 9 ∷ []))))
select_key-refills_example =
    select_key-refills config 1 9 (8 ∷ []) [] details (bytes "sk-9") ready_store needs_two
      (omega arith, (omega arith, tt)) ready_is (inr (no_active, refl))
      (omega arith, ready_detailed, value_named)

return_key-duplicates_example :
    (s' : Store) × ((select_key config 1 >>= λ key. return_key rows 5 key.id true) active_store
      ≡ (ok tt, s'))
    × (lookup s' (get_redis_key 1 active) ≡ some (list (names (9 ∷ 9 ∷ 8 ∷ []))))
return_key-duplicates_example =
    return_key-duplicates config rows 5 1 9 (8 ∷ []) details (bytes "sk-9") (bytes "1") active_store
      active_is (omega arith, active_detailed, value_named) group_named one_parsed

handle_rate_limit-IsCooled_example : IsCooled 1 9 (reset_time 100 limit) active_store cooled_store
handle_rate_limit-IsCooled_example =
    handle_rate_limit-IsCooled 100 9 1 limit active_store cooled_store details active_detailed
      (group_one active_store) cools

add_keys-unserved_example :
    select_key config 1 (add_keys rows 1 (9 ∷ []) empty).1
    ≡ (err (pool (bytes "POOL_EMPTY")), (add_keys rows 1 (9 ∷ []) empty).1)
add_keys-unserved_example =
    add_keys-unserved rows config 1 (9 ∷ []) empty (inr (nothing_in _, refl))
      (inr (nothing_in _, refl))

remove_keys-IsGone_example : All (IsGone 1 (remove_keys 1 (9 ∷ 8 ∷ []) active_store).1) (9 ∷ 8 ∷ [])
remove_keys-IsGone_example = remove_keys-IsGone 1 (9 ∷ 8 ∷ []) active_store
