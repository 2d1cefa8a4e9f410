-- ===== src/MemoryPool/Pools.antt =====
-- internal/keypool/memory_pool.go: how keys come to a pool and leave it.
use gpt_load_fix.Prelude.{ℕ, ◌||◌, ◌=?◌, List, [], ◌∷◌, if◌then◌else◌, map}
use gpt_load_fix.Prelude.Text.{Text, bytes, text_eq}
use gpt_load_fix.Exec.{pool, Result, ok, err, Exec, uint, pure, raise, ◌>>◌}
use gpt_load_fix.Models.{ApiKey, rate_limited}
use gpt_load_fix.Models
use gpt_load_fix.Store.{Store}
use gpt_load_fix.Store.Items.{delete}
use gpt_load_fix.Store.Lists.{l_push, l_rem}
use gpt_load_fix.Store.Sets.{s_add, s_rem}
use gpt_load_fix.Store.Zsets.{z_add, z_rem}
use gpt_load_fix.MemoryPool.{
  PoolType, validation, ready, active, cooling, get_redis_key, get_key_details_key, Rows,
}
use gpt_load_fix.MemoryPool.Details.{ignore, sync_key_details_to_redis}

-- The loop of removeFromReadyPool and removeFromActivePool.
unfoldable pub remove_from_list : Text → List ℕ → Exec Store Unit
remove_from_list key [] = pure tt
remove_from_list key (id ∷ ids) = l_rem key 0 (uint id) >> remove_from_list key ids

unfoldable pub remove_keys_from_pool : ℕ → List ℕ → PoolType → Exec Store Unit
remove_keys_from_pool group_id ids validation =
    s_rem (get_redis_key group_id validation) (map uint ids)
remove_keys_from_pool group_id ids ready = remove_from_list (get_redis_key group_id ready) ids
remove_keys_from_pool group_id ids active = remove_from_list (get_redis_key group_id active) ids
remove_keys_from_pool group_id ids cooling = z_rem (get_redis_key group_id cooling) (map uint ids)

-- The last loop of RemoveKeys.
unfoldable pub delete_details : List ℕ → Exec Store Unit
delete_details [] = pure tt
delete_details (id ∷ ids) = ignore (delete (get_key_details_key id)) >> delete_details ids

-- RemoveKeys
unfoldable pub remove_keys : ℕ → List ℕ → Exec Store Unit
remove_keys group_id [] = pure tt
remove_keys group_id (id ∷ ids) =
    ignore (remove_keys_from_pool group_id (id ∷ ids) validation)
    >> ignore (remove_keys_from_pool group_id (id ∷ ids) ready)
    >> ignore (remove_keys_from_pool group_id (id ∷ ids) active)
    >> ignore (remove_keys_from_pool group_id (id ∷ ids) cooling)
    >> delete_details (id ∷ ids)

-- The two loops of addToReadyPool and addToActivePool.
unfoldable pub push_each : Text → List ℕ → Exec Store Unit
push_each key [] = pure tt
push_each key (id ∷ ids) = l_push key (uint id ∷ []) >> push_each key ids

unfoldable pub sync_each : Rows → List ℕ → Exec Store Unit
sync_each rows [] = pure tt
sync_each rows (id ∷ ids) = ignore (sync_key_details_to_redis rows id) >> sync_each rows ids

-- addToReadyPool and addToActivePool
unfoldable pub add_to_list : Rows → ℕ → List ℕ → PoolType → Exec Store Unit
add_to_list rows group_id ids p = push_each (get_redis_key group_id p) ids >> sync_each rows ids

-- The switch of addKeysToPool, on the ids that are left.
unfoldable pub add_valid : Rows → ℕ → PoolType → List ℕ → Exec Store Unit
add_valid rows group_id p [] = raise (pool (bytes "NO_VALID_KEYS"))
add_valid rows group_id validation (id ∷ ids) =
    s_add (get_redis_key group_id validation) (map uint (id ∷ ids))
add_valid rows group_id ready (id ∷ ids) = add_to_list rows group_id (id ∷ ids) ready
add_valid rows group_id active (id ∷ ids) = add_to_list rows group_id (id ∷ ids) active
add_valid rows group_id cooling (id ∷ ids) = raise (pool (bytes "INVALID_POOL_TYPE"))

abbrev pub valid_ids : List ApiKey → List ℕ
valid_ids [] = []
valid_ids (key ∷ keys) =
    let rest = valid_ids keys in
    if key.status =? Models.active || key.status =? rate_limited then key.id ∷ rest else rest

abbrev pub add_found : Rows → ℕ → PoolType → Result (List ApiKey) → Exec Store Unit
add_found rows group_id p (err e) = raise e
add_found rows group_id p (ok []) = raise (pool (bytes "NO_KEYS_FOUND"))
add_found rows group_id p (ok (key ∷ keys)) = add_valid rows group_id p (valid_ids (key ∷ keys))

-- addKeysToPool
unfoldable pub add_keys_to_pool : Rows → ℕ → List ℕ → PoolType → Exec Store Unit
add_keys_to_pool rows group_id [] p = pure tt
add_keys_to_pool rows group_id (id ∷ ids) p =
    add_found rows group_id p (rows.find_keys (id ∷ ids) group_id)

-- AddKeys
unfoldable pub add_keys : Rows → ℕ → List ℕ → Exec Store Unit
add_keys rows group_id ids = add_keys_to_pool rows group_id ids validation

-- addToCoolingPool
unfoldable pub add_to_cooling_pool : ℕ → ℕ → ℕ → Exec Store Unit
add_to_cooling_pool group_id key_id reset_at =
    z_add (get_redis_key group_id cooling) ((uint key_id, reset_at) ∷ [])
