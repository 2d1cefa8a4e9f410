-- ===== src/MemoryPool/Details.antt =====
-- internal/keypool/memory_pool.go: the hash with the details of a key.
use gpt_load_fix.Prelude.{ℕ, Bool, Option, none, some, List, [], ◌∷◌, if◌then◌else◌}
use gpt_load_fix.Prelude.Dict
use gpt_load_fix.Prelude.Dict.{Dict}
use gpt_load_fix.Prelude.Int.{pos, add64}
use gpt_load_fix.Prelude.Text.{Text, bytes, text_eq}
use gpt_load_fix.Prelude.Text.Decimal.{parse_uint}
use gpt_load_fix.Exec.{bad_number, pool, ok, err, Exec, Any, text, int, uint, pure, raise, ◌>>=◌}
use gpt_load_fix.Models.{ApiKey}
use gpt_load_fix.Models
use gpt_load_fix.Store.{Store}
use gpt_load_fix.Store.Hashes.{h_get_all, h_set, field_of, number_of}
use gpt_load_fix.Provider.Records.{time_of}
use gpt_load_fix.MemoryPool.{Rows, get_key_details_key}

-- getKeyDetails and setKeyDetails
unfoldable pub get_key_details : ℕ → Exec Store (Dict Text Text)
get_key_details key_id = h_get_all (get_key_details_key key_id)

unfoldable pub set_key_details : ℕ → List (Text × Any) → Exec Store Unit
set_key_details key_id fields = h_set (get_key_details_key key_id) fields

abbrev pub parsed : Text → Option ℕ → Exec Store ℕ
parsed t none = raise (bad_number t)
parsed t (some n) = pure n

-- The group of a key by its details, as ReturnKey, HandleRateLimit and MoveKey read it.
unfoldable pub group_of : Dict Text Text → Exec Store ℕ
group_of d = elim (Dict.get d (bytes "group_id")) [
  | none ↦ raise (pool (bytes "MISSING_GROUP_ID"))
  | some t ↦ parsed t (parse_uint t)
]

abbrev or_active : Text → Text
or_active [] = Models.active
or_active (c ∷ t) = c ∷ t

abbrev pub built : ℕ → ℕ → Dict Text Text → Text → ApiKey
built key_id group_id d key_value = record {
  id = key_id;
  key_value = key_value;
  group_id = group_id;
  status = or_active (field_of d (bytes "status"));
  request_count = number_of d (bytes "request_count");
  failure_count = number_of d (bytes "failure_count");
  rate_limit_count = number_of d (bytes "rate_limit_count");
  last_429_at = time_of (field_of d (bytes "last_429_at"));
  rate_limit_reset_at = time_of (field_of d (bytes "rate_limit_reset_at"));
  created_at = number_of d (bytes "created_at");
}

-- buildAPIKeyFromDetails, without LastUsedAt
unfoldable pub build_api_key_from_details : ℕ → ℕ → Dict Text Text → Exec Store ApiKey
build_api_key_from_details key_id group_id d = elim (Dict.get d (bytes "key_value")) [
  | none ↦ raise (pool (bytes "MISSING_KEY_VALUE"))
  | some key_value ↦ pure (built key_id group_id d key_value)
]

abbrev stats_fields : ℕ → Bool → Dict Text Text → List (Text × Any)
stats_fields now success d =
    (bytes "request_count", int (add64 (number_of d (bytes "request_count")) (pos 1)))
    ∷ (bytes "last_used_at", uint now)
    ∷ (if success then (bytes "failure_count", int (pos 0)) ∷ [] else [])

-- A call whose error is logged or dropped.
abbrev pub ignore : {A : Type 0} → Exec Store A → Exec Store Unit
ignore m s = (ok tt, (m s).1)

-- updateKeyStats
unfoldable pub update_key_stats : ℕ → ℕ → Bool → Exec Store Unit
update_key_stats now key_id success =
    ignore (get_key_details key_id >>= λ d. set_key_details key_id (stats_fields now success d))

-- syncKeyDetailsToRedis
unfoldable pub sync_key_details_to_redis : Rows → ℕ → Exec Store Unit
sync_key_details_to_redis rows key_id s = elim (rows.first_key key_id) [
  | err e ↦ (err e, s)
  | ok key ↦
      set_key_details key_id
        ((bytes "id", uint key.id)
          ∷ (bytes "group_id", uint key.group_id)
          ∷ (bytes "key_value", text key.key_value)
          ∷ (bytes "status", text key.status)
          ∷ (bytes "created_at", text (rows.times key_id).0)
          ∷ (bytes "updated_at", text (rows.times key_id).1)
          ∷ [])
        s
]
