-- ===== src/Provider/Tests.antt =====
-- Runs of the provider (internal/keypool/provider.go), some of them with commits that fail.
mod Memory
use gpt_load_fix.Prelude.{
  ◌↔◌, ℕ, zero, suc, ◌+◌, ◌-◌, ◌≡◌, refl, ap, sym, Bool, true, false, ◌&&◌, Option, none, some,
  List, [], ◌∷◌, map, ◌==◌, if◌then◌else◌, length, arith,
}
use gpt_load_fix.Prelude.Dict.{Dict}
use gpt_load_fix.Prelude.Int.{◌≤ℤ◌, pos, add64}
use gpt_load_fix.Prelude.Text.{Text, bytes, contains}
use gpt_load_fix.Prelude.Text.Decimal.{format_uint, format_int, parse_int}
use gpt_load_fix.Exec.{not_found, database, Result, ok, err, Exec, sprint}
use gpt_load_fix.Models.{ApiKey, Group, active, invalid}
use gpt_load_fix.Database.{Gorm, Laws, Change, changes, update_row}
use gpt_load_fix.Store.{list, Store, empty}
use gpt_load_fix.Store
use gpt_load_fix.Store.Items
use gpt_load_fix.Store.Lists
use gpt_load_fix.Store.Hashes
use gpt_load_fix.Store.Hashes.{number_of, h_get_all}
use gpt_load_fix.Prelude.Dict
use gpt_load_fix.Provider.Names.{initialization_flag, key_hash_key, active_keys_key}
use gpt_load_fix.Provider.Pool.{
  add_key_to_store, remove_keys_by_status, for_each, remove_key_from_store,
}
use gpt_load_fix.Provider.Records.{api_key_to_map, key_of, select_key}
use gpt_load_fix.Provider.RoundTrip.{Fits, without_requests, select-add}
use gpt_load_fix.Provider.Turns.{selections, select_in_turn}
use gpt_load_fix.Provider.Drift.{rolled_back, recovered_twice, failure_counted_twice}
use gpt_load_fix.Provider.Transaction.{
  World, execute_transaction_with_retry, attempts, transaction, is_locked,
}
use gpt_load_fix.Provider.Views.{details, served}
use gpt_load_fix.Provider.Handlers.{
  handle_failure, failure_operation, blacklist, is_invalid, should_blacklist, handle_rate_limit,
  rate_limit_operation, handle_success, success_operation, restore_to_list, is_active, is_zero,
}
use gpt_load_fix.Provider.Recovery.{load_keys_from_db, recover_single_key, recover_operation}
use gpt_load_fix.Provider.Recovered.{IsRestored, handle_success_restores}
use gpt_load_fix.Provider.Revived.{IsRevived, recover_single_key_revives}
use gpt_load_fix.Provider.Removed.{AreRemoved, chosen, remove_keys_by_status_removes}
use gpt_load_fix.Provider.Punished.{IsPunished, handle_failure_punishes}
use gpt_load_fix.Store.Items.{exists}
use gpt_load_fix.Provider.Loaded.{list_or, all_active_ids, load_keys_from_db_lists}
use gpt_load_fix.Provider.Tests.Memory.{Rows, memory, memory-Laws}

abbrev a_key : ApiKey
a_key = record {
  id = 3;
  key_value = bytes "sk-1";
  group_id = 1;
  status = active;
  request_count = pos 0;
  failure_count = pos 2;
  rate_limit_count = pos 0;
  last_429_at = none;
  rate_limit_reset_at = some (pos 50);
  created_at = pos 10;
}

abbrev a_group : Group
a_group = record { id = 1; blacklist_threshold = pos 3; max_retries = 2 }

-- A world with a key in it, whose first `locks` commits fail.
abbrev world_with : ApiKey → ℕ → World memory
world_with key locks = record {
  store = (add_key_to_store key empty).1;
  db = record { rows = λ id. if id == key.id then some key else none; locks = locks };
  clock = λ n. pos (100 + n);
}

abbrev hash_key : Text
hash_key = key_hash_key 3

abbrev list_key : Text
list_key = active_keys_key 1

abbrev after : Exec (World memory) (Unit {0}) → World memory → World memory
after m w = (m w).1

abbrev a_bad_key : ApiKey
a_bad_key = record a_key { status = invalid }

abbrev failure : Exec (World memory) (Unit {0})
failure = handle_failure memory a_key a_group hash_key list_key

abbrev rate_limit : Exec (World memory) (Unit {0})
rate_limit = handle_rate_limit memory a_key (record { reset_at = none }) hash_key list_key

abbrev success : Exec (World memory) (Unit {0})
success = handle_success memory 3 hash_key list_key

abbrev revival : Exec (World memory) (Unit {0})
revival = recover_single_key memory a_bad_key

abbrev removal : Result ℕ × World memory
removal = remove_keys_by_status memory 1 (active ∷ []) (world_with a_key 0)

-- A failure below the threshold, and one attempt of each kind that cannot be committed.
abbrev small_failure : Exec (World memory) (Unit {0})
small_failure = failure_operation memory 3 (pos 9) hash_key list_key (pos 3)

abbrev Locked : Exec (World memory) (Unit {0}) → World memory → Type 0
Locked op w =
    (op w ≡ (ok tt, after op w))
    × (memory.commit (after op w).db
        ≡ (err (database (bytes "database is locked")), (memory.commit (after op w).db).1))
    × (is_locked (database (bytes "database is locked")) ≡ true)
    × (transaction memory op (rolled_back memory w (after op w))
        ≡ (ok tt, after (transaction memory op) (rolled_back memory w (after op w))))

a_key-Fits : Fits a_key
a_key-Fits = record {
  id = omega arith;
  failure_count = omega arith;
  rate_limit_count = omega arith;
  created_at = omega arith;
  last_429_at = tt;
  rate_limit_reset_at = omega arith;
}

abbrev a_store : Store
a_store = (world_with a_key 0).store

abbrev two_keys : Store
two_keys = (add_key_to_store (record a_key { id = 7 }) a_store).1

abbrev hash_of : ℕ → Dict Text Text
hash_of id = details two_keys (key_hash_key id)

-- What the runs below come to, some of them after failed commits.
runs :
    (failure (world_with a_key 1) ≡ (ok tt, after failure (world_with a_key 1)))
    × (rate_limit (world_with a_key 1) ≡ (ok tt, after rate_limit (world_with a_key 1)))
    × (success (world_with a_bad_key 2) ≡ (ok tt, after success (world_with a_bad_key 2)))
    × (revival (world_with a_bad_key 1) ≡ (ok tt, after revival (world_with a_bad_key 1)))
    × (removal ≡ (ok 1, removal.1))
    × Locked (recover_operation memory a_bad_key) (world_with a_bad_key 1)
    × Locked small_failure (world_with a_key 1)
    × (should_blacklist (pos 9) (pos 3) ≡ false)
    × (add_key_to_store a_key empty ≡ (ok tt, a_store))
    × (Store.lookup two_keys list_key ≡ some (list (map format_uint (7 ∷ 3 ∷ []))))
    × (h_get_all (key_hash_key 7) two_keys ≡ (ok (hash_of 7), two_keys))
    × (h_get_all (key_hash_key 3) two_keys ≡ (ok (hash_of 3), two_keys))
    × (details empty (key_hash_key 3) ≡ [])
    × (served empty list_key ≡ [])
unfolding handle_failure failure_operation blacklist is_invalid should_blacklist handle_rate_limit
    rate_limit_operation handle_success success_operation restore_to_list is_active
    recover_single_key recover_operation remove_keys_by_status for_each remove_key_from_store
    add_key_to_store api_key_to_map execute_transaction_with_retry attempts transaction is_locked
    key_hash_key active_keys_key Store.lookup Store.write Store.drop Hashes.h_set Hashes.h_get_all
    Hashes.h_incr_by Hashes.fill Hashes.field_of Hashes.number_of Hashes.increment Lists.l_push
    Lists.l_rem Items.delete Dict.get Dict.put Dict.remove add64 contains format_uint format_int
    parse_int sprint details served
runs = (
  refl,
  refl,
  refl,
  refl,
  refl,
  (refl, refl, refl, refl),
  (refl, refl, refl, refl),
  refl,
  refl,
  refl,
  refl,
  refl,
  refl,
  refl,
)

handle_failure_punishes_example :
    let w = world_with a_key 1 in
    let w' = after failure w in
    let d = details w.store hash_key in
    let n = add64 (number_of d (bytes "failure_count")) (pos 1) in
    if is_invalid d
    then w' ≡ w
    else (black : Bool) × ((black ≡ true) ↔ ((pos 1 ≤ℤ pos 3) × (pos 3 ≤ℤ n)))
      × IsPunished memory 3 (pos 3) hash_key list_key n black w w'
handle_failure_punishes_example =
    handle_failure_punishes memory memory-Laws a_key a_group (world_with a_key 1) _ runs.0

handle_success_restores_example :
    let w = world_with a_bad_key 2 in
    let w' = after (handle_success memory 3 hash_key list_key) w in
    let d = details w.store hash_key in
    if is_zero (number_of d (bytes "failure_count")) && is_active d
    then w' ≡ w
    else IsRestored memory 3 hash_key list_key (is_active d) w w'
handle_success_restores_example =
    handle_success_restores memory memory-Laws 3 1 (world_with a_bad_key 2) _ runs.2

recover_single_key_revives_example :
    IsRevived memory a_bad_key
      (world_with a_bad_key 1)
      (after (recover_single_key memory a_bad_key) (world_with a_bad_key 1))
recover_single_key_revives_example =
    recover_single_key_revives memory memory-Laws a_bad_key (world_with a_bad_key 1) _ runs.3

remove_keys_by_status_removes_example :
    (keys : List ApiKey) × (d : Rows) × (memory.find
        (chosen memory 1 (active ∷ []))
        (world_with a_key 0).db
      ≡ (ok keys, d))
    × AreRemoved memory keys (world_with a_key 0) removal.1
remove_keys_by_status_removes_example =
    remove_keys_by_status_removes memory 1 (active ∷ []) (world_with a_key 0) removal.1 1 runs.4

recovered_twice_example :
    let w = world_with a_bad_key 1 in
    let op = recover_operation memory a_bad_key in
    let w3 = after (transaction memory op) (rolled_back memory w (after op w)) in
    (recover_single_key memory a_bad_key w ≡ (ok tt, w3))
    × (served w3.store list_key ≡ format_uint 3 ∷ format_uint 3 ∷ served w.store list_key)
recovered_twice_example =
    recovered_twice memory a_bad_key (world_with a_bad_key 1) _ _
      (database (bytes "database is locked")) runs.5.0 runs.5.1 runs.5.2 runs.5.3

failure_counted_twice_example :
    let w = world_with a_key 1 in
    let w3 =
      after (transaction memory small_failure) (rolled_back memory w (after small_failure w)) in
    (execute_transaction_with_retry memory small_failure w ≡ (ok tt, w3))
    × (number_of (details w3.store hash_key) (bytes "failure_count")
        ≡ add64
            (add64 (number_of (details w.store hash_key) (bytes "failure_count")) (pos 1))
            (pos 1))
failure_counted_twice_example =
    failure_counted_twice memory 3 (pos 9) (pos 3) hash_key list_key (world_with a_key 1) _ _
      (database (bytes "database is locked")) runs.7 runs.6.0 runs.6.1 runs.6.2 runs.6.3

select-add_example : select_key 1 a_store ≡ (ok (without_requests a_key), a_store)
select-add_example = select-add a_key empty a_store a_key-Fits refl runs.12 runs.13 runs.8

select_in_turn_example :
    selections 2 1 two_keys ≡ (key_of 3 1 (hash_of 3) ∷ key_of 7 1 (hash_of 7) ∷ [], two_keys)
select_in_turn_example =
    select_in_turn 1 hash_of two_keys (7 ∷ 3 ∷ [])
      ((omega arith, runs.10), ((omega arith, runs.11), tt)) runs.9

-- A start with nothing in the store.
abbrev new_world : World memory
new_world = record (world_with a_key 0) { store = empty }

not_loaded : (exists 9 initialization_flag new_world.store).0 ≡ ok false
unfolding exists Store.lookup Dict.get
not_loaded = refl

load_keys_from_db_lists_example :
    ((load_keys_from_db memory 9 new_world).0 ≡ ok tt)
    × (served (load_keys_from_db memory 9 new_world).1.store list_key
        ≡ list_or (all_active_ids 1 ((a_key ∷ []) ∷ [])) (served empty list_key))
load_keys_from_db_lists_example =
    load_keys_from_db_lists memory 9 new_world ((a_key ∷ []) ∷ []) new_world.db 1 not_loaded refl
