-- ===== src/Provider/Records.antt =====
-- A key as the store holds it: apiKeyToMap, and the reading of the map in SelectKey
-- (internal/keypool/provider.go).
use gpt_load_fix.Prelude.{ℕ, Bool, Option, none, some, List, [], ◌∷◌, ◌++◌, if◌then◌else◌}
use gpt_load_fix.Prelude.Dict.{Dict}
use gpt_load_fix.Prelude.Int.{ℤ, pos}
use gpt_load_fix.Prelude.Text.{Text, bytes}
use gpt_load_fix.Prelude.Text.Decimal.{format_uint, parse_int, parse_uint}
use gpt_load_fix.Exec.{
  not_found, no_active_keys, bad_number, Result, ok, err, Exec, Any, text, int, uint, pure, raise,
  ◌>>=◌,
}
use gpt_load_fix.Models.{ApiKey}
use gpt_load_fix.Store.{Store}
use gpt_load_fix.Store.Lists.{rotate}
use gpt_load_fix.Store.Hashes.{h_get_all, field_of, number_of}
use gpt_load_fix.Provider.Names.{key_hash_key, active_keys_key}

abbrev optional : Text → Option ℤ → List (Text × Any)
optional field none = []
optional field (some t) = (field, int t) ∷ []

unfoldable pub api_key_to_map : ApiKey → List (Text × Any)
api_key_to_map key =
    (bytes "id", text (format_uint key.id))
    ∷ (bytes "key_string", text key.key_value)
    ∷ (bytes "status", text key.status)
    ∷ (bytes "failure_count", int key.failure_count)
    ∷ (bytes "rate_limit_count", int key.rate_limit_count)
    ∷ (bytes "group_id", uint key.group_id)
    ∷ (bytes "created_at", int key.created_at)
    ∷ (optional (bytes "last_429_at") key.last_429_at
        ++ optional (bytes "rate_limit_reset_at") key.rate_limit_reset_at)

abbrev sound : ℤ × Bool → Option ℤ
sound (n, fine) = if fine then some n else none

abbrev pub time_of : Text → Option ℤ
time_of [] = none
time_of (c ∷ s) = sound (parse_int (c ∷ s))

unfoldable pub key_of : ℕ → ℕ → Dict Text Text → ApiKey
key_of key_id group_id details = record {
  id = key_id;
  key_value = field_of details (bytes "key_string");
  group_id = group_id;
  status = field_of details (bytes "status");
  request_count = pos 0;
  failure_count = number_of details (bytes "failure_count");
  rate_limit_count = number_of details (bytes "rate_limit_count");
  last_429_at = time_of (field_of details (bytes "last_429_at"));
  rate_limit_reset_at = time_of (field_of details (bytes "rate_limit_reset_at"));
  created_at = number_of details (bytes "created_at");
}

-- errors.Is(err, store.ErrNotFound)
abbrev no_keys : Result Text × Store → Result Text × Store
no_keys (ok t, s) = (ok t, s)
no_keys (err not_found, s) = (err no_active_keys, s)
no_keys (err e, s) = (err e, s)

abbrev parsed : Text → Option ℕ → Exec Store ℕ
parsed t none = raise (bad_number t)
parsed t (some n) = pure n

unfoldable pub select_key : ℕ → Exec Store ApiKey
select_key group_id = (λ s. no_keys (rotate (active_keys_key group_id) s)) >>= λ key_id_str.
    parsed key_id_str (parse_uint key_id_str) >>= λ key_id.
    h_get_all (key_hash_key key_id) >>= λ details. pure (key_of key_id group_id details)
