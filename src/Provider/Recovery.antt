-- ===== src/Provider/Recovery.antt =====
-- The start and the recovery of the pool (internal/keypool/provider.go): LoadKeysFromDB over the
-- in-memory store, RecoverRateLimitedKeys and recoverSingleKey.
use gpt_load_fix.Prelude.{
  ℕ, Bool, true, ◌&&◌, Option, none, some, List, [], ◌∷◌, ◌++◌, map, if◌then◌else◌, ◌=?◌, nat_eq,
}
use gpt_load_fix.Prelude.Dict
use gpt_load_fix.Prelude.Dict.{Dict}
use gpt_load_fix.Prelude.Int.{ℤ, leb_ℤ}
use gpt_load_fix.Prelude.Text.{text_eq, bytes}
use gpt_load_fix.Exec.{Result, ok, err, Exec, text, uint, pure, ◌>>=◌, ◌>>◌}
use gpt_load_fix.Models.{ApiKey, active, rate_limited}
use gpt_load_fix.Database.{Gorm, Change}
use gpt_load_fix.Store.{Store}
use gpt_load_fix.Store.Items.{set, delete, exists}
use gpt_load_fix.Store.Lists.{l_push}
use gpt_load_fix.Store.Hashes.{h_set}
use gpt_load_fix.Provider.Names.{key_hash_key, active_keys_key, initialization_flag}
use gpt_load_fix.Provider.Records.{api_key_to_map}
use gpt_load_fix.Provider.Transaction.{
  World, on_store, on_db, read_clock, execute_transaction_with_retry,
}

-- HSet of each key of a batch; a failure is only logged.
unfoldable pub load_details : List ApiKey → Store → Store
load_details [] s = s
load_details (key ∷ keys) s =
    load_details keys (h_set (key_hash_key key.id) (api_key_to_map key) s).1

abbrev pub ids_of : Option (List ℕ) → List ℕ
ids_of none = []
ids_of (some ids) = ids

-- allActiveKeyIDs: for each group, the ids of its active keys in the order of loading.
unfoldable pub collect_active : Dict ℕ (List ℕ) → List ApiKey → Dict ℕ (List ℕ)
collect_active groups [] = groups
collect_active groups (key ∷ keys) =
    collect_active
      (if key.status =? active
        then Dict.put groups key.group_id (ids_of (Dict.get groups key.group_id) ++ key.id ∷ [])
        else groups)
      keys

unfoldable pub load_batches : List (List ApiKey) → Dict ℕ (List ℕ) → Store → Dict ℕ (List ℕ) × Store
unfolding load_details collect_active
load_batches [] groups s = (groups, s)
load_batches (keys ∷ batches) groups s =
    load_batches batches (collect_active groups keys) (load_details keys s)

unfoldable pub load_list : ℕ → List ℕ → Store → Store
load_list group_id [] s = s
load_list group_id (id ∷ ids) s =
    (l_push (active_keys_key group_id) (map uint (id ∷ ids))
      (delete (active_keys_key group_id) s).1).1

unfoldable pub load_lists : Dict ℕ (List ℕ) → Store → Store
unfolding load_list
load_lists [] s = s
load_lists ((group_id, ids) ∷ groups) s = load_lists groups (load_list group_id ids s)

-- What follows a FindInBatches without an error, at the time `now`.
unfoldable pub finish_load : ℕ → Dict ℕ (List ℕ) → Store → Store
unfolding load_lists
finish_load now groups s = (set now initialization_flag (bytes "1") 0 (load_lists groups s)).1

abbrev pub loaded : Result (Unit {0}) → ℕ → Dict ℕ (List ℕ) × Store → Result (Unit {0}) × Store
loaded (err e) now (groups, s) = (err e, s)
loaded (ok _) now (groups, s) = (ok tt, finish_load now groups s)

module _ (g : Gorm) where
  abbrev pub load_found :
      ℕ → World g → List (List ApiKey) × Result (Unit {0}) × g.Db → Result (Unit {0}) × World g
  load_found now w (batches, r, d) =
      let (r', s) = loaded r now (load_batches batches [] w.store) in
      (r', record w { store = s; db = d })

  -- `now` is the store's time, in nanoseconds.
  unfoldable pub load_keys_from_db : ℕ → Exec (World g) (Unit {0})
  unfolding load_batches
  load_keys_from_db now = on_store g (exists now initialization_flag) >>= λ found.
      if found then pure tt else λ w. load_found now w (g.find_in_batches 1000 w.db)

  -- The transaction of recoverSingleKey.
  unfoldable pub recover_operation : ApiKey → Exec (World g) (Unit {0})
  recover_operation key =
      on_db g (g.updates key.id (Change.status active ∷ Change.rate_limit_reset_at none ∷ []))
      >> on_store g (h_set (key_hash_key key.id) ((bytes "status", text active) ∷ []))
      >> on_store g (l_push (active_keys_key key.group_id) (uint key.id ∷ []))

  unfoldable pub recover_single_key : ApiKey → Exec (World g) (Unit {0})
  recover_single_key key = execute_transaction_with_retry g (recover_operation key)

  unfoldable pub recover_each : List ApiKey → Exec (World g) (Unit {0})
  recover_each [] w = (ok tt, w)
  recover_each (key ∷ keys) w = recover_each keys (recover_single_key key w).1

  abbrev passed : ℤ → Option ℤ → Bool
  passed now none = true
  passed now (some t) = leb_ℤ t now

  unfoldable pub recover_rate_limited_keys : Exec (World g) (Unit {0})
  recover_rate_limited_keys = read_clock g >>= λ now.
      on_db g (g.find (λ key. (key.status =? rate_limited) && passed now key.rate_limit_reset_at))
      >>= recover_each
