-- ===== src/Models.antt =====
-- internal/models/types.go: the API key and what the pool reads of its group.
use gpt_load_fix.Prelude.{ℕ, Option}
use gpt_load_fix.Prelude.Int.{ℤ}
use gpt_load_fix.Prelude.Text.{Text, bytes}

abbrev pub active : Text
active = bytes "active"

abbrev pub invalid : Text
invalid = bytes "invalid"

abbrev pub rate_limited : Text
rate_limited = bytes "rate_limited"

-- APIKey. Times are whole seconds since 1970, as the store keeps them.
pub record ApiKey : Type 0 where
  pub id : ℕ
  pub key_value : Text
  pub group_id : ℕ
  pub status : Text
  pub request_count : ℤ
  pub failure_count : ℤ
  pub rate_limit_count : ℤ
  pub last_429_at : Option ℤ
  pub rate_limit_reset_at : Option ℤ
  pub created_at : ℤ

-- Group, with the settings that apply to it.
pub record Group : Type 0 where
  pub id : ℕ
  pub blacklist_threshold : ℤ
  pub max_retries : ℕ

-- RateLimitError, as far as the pool reads it.
pub record RateLimitError : Type 0 where
  pub reset_at : Option ℤ
