-- ===== src/LocalCache/Tests.antt =====
-- Runs of the local cache, and its theorems at concrete inputs.
use gpt_load_fix.Prelude.{
  ℕ, ◌≡◌, refl, Bool, Option, none, some, [], ◌∷◌, ◌++◌, List, nat_eq, arith, ap, length, sym,
  subst, ◌≤◌,
}
use gpt_load_fix.Prelude.Int.{ℤ, pos, ◌+ℤ◌, ◌-ℤ◌, sub64, add64, ltb_ℤ, leb_ℤ}
use gpt_load_fix.Prelude.Text.{bytes}
use gpt_load_fix.Prelude.Dict
use gpt_load_fix.Prelude.Dict.{Dict}
use gpt_load_fix.Models.{ApiKey, active}
use gpt_load_fix.LocalCache.{
  LocalKeyCache, new_local_key_cache, write, unlink, add_to_front, move_to_front,
}
use gpt_load_fix.LocalCache.Ops
use gpt_load_fix.LocalCache.Ops.{Instants}
use gpt_load_fix.LocalCache.View.{Shows}
use gpt_load_fix.LocalCache.Refines.{view}
use gpt_load_fix.LocalCache.Client.{Call, get, set, call, run, answers, empty, cache_refines}
use gpt_load_fix.LocalCache.Bounds.{cache_bounded}
use gpt_load_fix.LocalCache.Lookup.{last_answer, get_after_set}
use gpt_load_fix.LocalCache.Adapt.{AdaptiveCacheConfig, adapt_size, adapt_size-Keeps, Keeps}

abbrev at : ℕ → Instants
at n = record { checked = pos n; accessed = pos n; updated = pos n }

abbrev key : ℕ → Option ApiKey
key n = some (record {
  id = n;
  key_value = bytes "sk";
  group_id = 1;
  status = active;
  request_count = pos 0;
  failure_count = pos 0;
  rate_limit_count = pos 0;
  last_429_at = none;
  rate_limit_reset_at = none;
  created_at = pos 0;
})

ids : Option (List (Option ApiKey) × LocalKeyCache) → List ℕ
unfolding Dict.keys
ids none = []
ids (some (_, c)) = Dict.keys c.cache

abbrev three : List Call
three = set (pos 1) 5 (key 5) ∷ set (pos 2) 6 (key 6) ∷ get (at 3) 5 ∷ set (pos 4) 7 (key 7) ∷ []

-- Two fit; 6 was used longest ago.
three_runs : ids (run three (new_local_key_cache (pos 2) (pos 100))) ≡ 5 ∷ 7 ∷ []
unfolding ids run call Ops.set Ops.set_found Ops.insert Ops.store_new Ops.renew Ops.get
    Ops.get_found Ops.hit Ops.miss Ops.evict_lru Ops.evict_id Ops.key_of Ops.is_zero
    Ops.remove_entry Ops.remove_found new_local_key_cache unlink add_to_front move_to_front write
    Dict.put Dict.remove Dict.get ◌+ℤ◌ ◌-ℤ◌
three_runs = refl

cache_bounded_example :
    (c : LocalKeyCache) × (run three (new_local_key_cache (pos 2) (pos 100))
      ≡ some ((answers three (empty (pos 2) (pos 100))).0, c))
    × (length c.cache ≤ 2)
cache_bounded_example = cache_bounded three 2 (pos 100) (omega arith) (omega arith)

cache_refines_example :
    (c : LocalKeyCache) × (xs : Dict ℕ ℕ) × (run three (new_local_key_cache (pos 2) (pos 100))
      ≡ some ((answers three (empty (pos 2) (pos 100))).0, c))
    × Shows c xs
    × (view c xs ≡ (answers three (empty (pos 2) (pos 100))).1)
cache_refines_example = cache_refines three (pos 2) (pos 100)

abbrev between : List Call
between = set (pos 6) 8 (key 8) ∷ get (at 7) 7 ∷ []

get_after_set_example :
    (rs : List (Option ApiKey)) × (c : LocalKeyCache) × (run
        ((three ++ set (pos 5) 9 (key 9) ∷ between) ++ get (at 8) 9 ∷ [])
        (new_local_key_cache (pos 3) (pos 100))
      ≡ some (rs, c))
    × (last_answer rs ≡ key 9)
unfolding ◌+ℤ◌
get_after_set_example =
    get_after_set 3 (pos 100) three between (pos 5) 9 (key 9) (at 8) (omega arith) (omega arith)
      (omega arith) (omega arith) (omega arith) (omega arith)

state : Option (List (Option ApiKey) × LocalKeyCache) → LocalKeyCache
state none = new_local_key_cache (pos 2) (pos 100)
state (some (_, c)) = c

cached : LocalKeyCache
unfolding state
cached = state (run three (new_local_key_cache (pos 2) (pos 100)))

order : Dict ℕ ℕ
order = (cache_refines three (pos 2) (pos 100)).1

shown : Shows cached order
unfolding cached order
shown =
    let (c, xs, r, s, v) = cache_refines three (pos 2) (pos 100) in
    subst (λ d. Shows d order) (sym (ap state r)) s

-- Every lookup so far has hit, which is above the target that these comparisons stand for.
below : ℤ × ℤ → Bool
below r = ltb_ℤ r.0 r.1

above : ℤ × ℤ → Bool
above r = leb_ℤ r.1 r.0

abbrev config : AdaptiveCacheConfig
config = record { min_size = pos 1; max_size = pos 4; size_adjust_step = pos 1 }

adapt_size-Keeps_example : Keeps (adapt_size config below above 3) 1 cached order
unfolding cached below above run call Ops.set Ops.set_found Ops.insert Ops.store_new Ops.renew
    Ops.get Ops.get_found Ops.hit Ops.miss Ops.evict_lru Ops.evict_id Ops.key_of Ops.is_zero
    Ops.remove_entry Ops.remove_found new_local_key_cache unlink add_to_front move_to_front write
    Dict.put Dict.remove Dict.get ◌+ℤ◌ ◌-ℤ◌ sub64 add64 Ops.update_stats Ops.count_hit
adapt_size-Keeps_example =
    adapt_size-Keeps config below above 1 2 cached order shown refl refl refl refl refl
      (omega arith)
