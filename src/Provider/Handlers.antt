-- ===== src/Provider/Handlers.antt =====
-- What a request's outcome does to its key: handleSuccess, handleFailure and handleRateLimit
-- (internal/keypool/provider.go), and UpdateStatus, which calls them.
use gpt_load_fix.Prelude.{
  ℕ, Bool, true, false, ◌&&◌, Option, none, some, List, [], ◌∷◌, if◌then◌else◌, ◌=?◌, ◌==◌,
}
use gpt_load_fix.Prelude.Dict.{Dict}
use gpt_load_fix.Prelude.Int.{ℤ, pos, negsuc, add64, ltb_ℤ, leb_ℤ}
use gpt_load_fix.Prelude.Text.{Text, text_eq, bytes}
use gpt_load_fix.Exec.{Exec, Any, text, int, uint, pure, ◌>>=◌, ◌>>◌}
use gpt_load_fix.Models.{ApiKey, Group, RateLimitError, active, invalid, rate_limited}
use gpt_load_fix.Database.{Gorm, Change, changes}
use gpt_load_fix.Store.Lists.{l_push, l_rem}
use gpt_load_fix.Store.Hashes.{h_set, h_get_all, h_incr_by, field_of, number_of}
use gpt_load_fix.Provider.Names.{key_hash_key, active_keys_key}
use gpt_load_fix.Provider.Transaction.{
  World, on_store, on_db, read_clock, ignore, execute_transaction_with_retry,
}

abbrev pub is_zero : ℤ → Bool
is_zero (pos n) = n == 0
is_zero (negsuc n) = false

unfoldable pub is_active : Dict Text Text → Bool
is_active details = field_of details (bytes "status") =? active

unfoldable pub is_invalid : Dict Text Text → Bool
is_invalid details = field_of details (bytes "status") =? invalid

unfoldable pub should_blacklist : ℤ → ℤ → Bool
should_blacklist threshold count = ltb_ℤ (pos 0) threshold && leb_ℤ threshold count

abbrev pub success_changes : Bool → List Change
success_changes true = Change.failure_count (pos 0) ∷ []
success_changes false = Change.failure_count (pos 0) ∷ Change.status active ∷ []

abbrev pub success_fields : Bool → List (Text × Any)
success_fields true = (bytes "failure_count", int (pos 0)) ∷ []
success_fields false = (bytes "failure_count", int (pos 0)) ∷ (bytes "status", text active) ∷ []

abbrev pub failure_changes : Bool → ℤ → List Change
failure_changes true count = Change.failure_count count ∷ Change.status invalid ∷ []
failure_changes false count = Change.failure_count count ∷ []

abbrev reset_changes : Option ℤ → List Change
reset_changes none = []
reset_changes (some t) = Change.rate_limit_reset_at (some t) ∷ []

abbrev reset_fields : Option ℤ → List (Text × Any)
reset_fields none = []
reset_fields (some t) = (bytes "rate_limit_reset_at", int t) ∷ []

abbrev pub rate_limit_changes : ℤ → ℤ → Option ℤ → List Change
rate_limit_changes count now reset_at =
    Change.rate_limit_count count
    ∷ Change.last_429_at now
    ∷ Change.status rate_limited
    ∷ reset_changes reset_at

abbrev pub rate_limit_fields : ℤ → ℤ → Option ℤ → List (Text × Any)
rate_limit_fields count now reset_at =
    (bytes "status", text rate_limited)
    ∷ (bytes "rate_limit_count", int count)
    ∷ (bytes "last_429_at", int now)
    ∷ reset_fields reset_at

-- `key` after tx.Model(&key).Updates(updates) in handleRateLimit
abbrev pub limited : ApiKey → ℤ → Option ℤ → ApiKey
limited key now reset_at =
    changes (rate_limit_changes (add64 key.rate_limit_count (pos 1)) now reset_at) key

module _ (g : Gorm) where
  unfoldable pub restore_to_list : ℕ → Text → Exec (World g) (Unit {0})
  restore_to_list key_id list_key =
      on_store g (l_rem list_key 0 (uint key_id)) >> on_store g (l_push list_key (uint key_id ∷ []))

  -- The transaction of handleSuccess.
  unfoldable pub success_operation : ℕ → Text → Text → Bool → Exec (World g) (Unit {0})
  success_operation key_id hash_key list_key is_active =
      on_db g (g.first key_id)
      >> on_db g (g.updates key_id (success_changes is_active))
      >> on_store g (h_set hash_key (success_fields is_active))
      >> (if is_active then pure tt else restore_to_list key_id list_key)

  unfoldable pub handle_success : ℕ → Text → Text → Exec (World g) (Unit {0})
  handle_success key_id hash_key list_key = on_store g (h_get_all hash_key) >>= λ details.
      if is_zero (number_of details (bytes "failure_count")) && is_active details
      then pure tt
      else execute_transaction_with_retry g
          (success_operation key_id hash_key list_key (is_active details))

  unfoldable pub blacklist : ℕ → Text → Text → Exec (World g) (Unit {0})
  blacklist key_id hash_key list_key =
      on_store g (l_rem list_key 0 (uint key_id))
      >> on_store g (h_set hash_key ((bytes "status", text invalid) ∷ []))

  -- The transaction of handleFailure; `count` is newFailureCount.
  unfoldable pub failure_operation : ℕ → ℤ → Text → Text → ℤ → Exec (World g) (Unit {0})
  failure_operation key_id threshold hash_key list_key count =
      on_db g (g.first key_id)
      >> on_db g (g.updates key_id (failure_changes (should_blacklist threshold count) count))
      >> on_store g (h_incr_by hash_key (bytes "failure_count") (pos 1))
      >> (if should_blacklist threshold count then blacklist key_id hash_key list_key else pure tt)

  unfoldable pub handle_failure : ApiKey → Group → Text → Text → Exec (World g) (Unit {0})
  handle_failure api_key group hash_key list_key = on_store g (h_get_all hash_key) >>= λ details.
      if is_invalid details
      then pure tt
      else execute_transaction_with_retry g (
          failure_operation api_key.id group.blacklist_threshold hash_key list_key
            (add64 (number_of details (bytes "failure_count")) (pos 1)))

  -- The transaction of handleRateLimit. Updates of Model(&key) has written the new values to `key`
  -- too, so that the count that HSet is given is one more than the row's.
  unfoldable pub rate_limit_operation : ℕ → Option ℤ → Text → Text → Exec (World g) (Unit {0})
  rate_limit_operation key_id reset_at hash_key list_key = on_db g (g.first key_id) >>= λ key.
      read_clock g >>= λ now.
      on_db g
        (g.updates key_id (rate_limit_changes (add64 key.rate_limit_count (pos 1)) now reset_at))
      >> on_store g (
          h_set hash_key (
            rate_limit_fields (add64 (limited key now reset_at).rate_limit_count (pos 1)) now
              reset_at))
      >> ignore g (on_store g (l_rem list_key 0 (uint key_id)))

  unfoldable pub handle_rate_limit :
      ApiKey → RateLimitError → Text → Text → Exec (World g) (Unit {0})
  handle_rate_limit api_key rate_limit_err hash_key list_key =
      on_store g (h_get_all hash_key) >>= λ details.
      if is_invalid details
      then pure tt
      else execute_transaction_with_retry g
          (rate_limit_operation api_key.id rate_limit_err.reset_at hash_key list_key)

  -- What the goroutine of UpdateStatus does; an error is only logged.
  unfoldable pub update_status : ApiKey → Group → Bool → Exec (World g) (Unit {0})
  update_status api_key group is_success =
      if is_success
      then ignore g (handle_success api_key.id (key_hash_key api_key.id) (active_keys_key group.id))
      else ignore g
          (handle_failure api_key group (key_hash_key api_key.id) (active_keys_key group.id))

  unfoldable pub update_status_with_rate_limit :
      ApiKey → Group → RateLimitError → Exec (World g) (Unit {0})
  update_status_with_rate_limit api_key group rate_limit_err = ignore g (
      handle_rate_limit api_key rate_limit_err (key_hash_key api_key.id) (active_keys_key group.id))
