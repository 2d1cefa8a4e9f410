-- ===== src/Provider/RateLimited.antt =====
-- A key that was answered with 429 (handleRateLimit in internal/keypool/provider.go).
use gpt_load_fix.Prelude.{none, ℕ, ◌≡◌, ◌≢◌, Option, without, some}
use gpt_load_fix.Prelude.Dict.{Dict}
use gpt_load_fix.Prelude.Int.{ℤ, pos, add64}
use gpt_load_fix.Prelude.Text.{Text, text_eq, bytes}
use gpt_load_fix.Prelude.Text.Decimal.{format_uint, format_int}
use gpt_load_fix.Exec.{Result}
use gpt_load_fix.Models.{ApiKey, rate_limited}
use gpt_load_fix.Database.{Gorm, Laws}
use gpt_load_fix.Store.{Store}
use gpt_load_fix.Store.Hashes.{h_set, field_of}
use gpt_load_fix.Provider.Transaction.{World}
use gpt_load_fix.Provider.Handlers.{rate_limit_fields, limited}
use gpt_load_fix.Provider.Views.{details, served}

-- A reset that is not known leaves the former one.
abbrev reset_or : Option ℤ → Option ℤ → Option ℤ
reset_or none former = former
reset_or (some t) former = some t

abbrev slowed_row : Option ℤ → ApiKey → ℤ → ApiKey
slowed_row reset_at k now = record k {
  status = rate_limited;
  rate_limit_count = add64 k.rate_limit_count (pos 1);
  last_429_at = some now;
  rate_limit_reset_at = reset_or reset_at k.rate_limit_reset_at;
}

module _ (g : Gorm) (id : ℕ) (reset_at : Option ℤ) (hash_key list_key : Text) where
  abbrev marked : World g → ApiKey → Result (Unit {0}) × Store
  marked w key =
      h_set hash_key
        (rate_limit_fields (add64 (limited key (w.clock 0) reset_at).rate_limit_count (pos 1))
          (w.clock 0) reset_at)
        w.store

  -- What is to be true of the world after the call, from the one before it.
  abbrev pub IsRateLimited : World g → World g → Type 0
  IsRateLimited w w' =
      (field_of (details w'.store hash_key) (bytes "status") ≡ rate_limited)
      × (served w'.store list_key ≡ without (format_uint id) (served w.store list_key))
      × (k : ApiKey) × (now : ℤ) × (g.row w.db id ≡ some k)
      × (field_of (details w'.store hash_key) (bytes "rate_limit_count")
          ≡ format_int (add64 (add64 k.rate_limit_count (pos 1)) (pos 1)))
      × (g.row w'.db id ≡ some (slowed_row reset_at k now))

  module _ (laws : Laws g) (ne : hash_key ≢ list_key) (ne' : list_key ≢ hash_key) where
    -- What failed attempts leave as it was.
    abbrev Kept : World g → World g → Type 0
    Kept w w1 =
        (without (format_uint id) (served w1.store list_key)
          ≡ without (format_uint id) (served w.store list_key))
        × ((j : ℕ) → g.row w1.db j ≡ g.row w.db j)
