-- ===== src/Errors/Keywords.antt =====
-- internal/errors/rate_limit.go: the table of parseRetryAfterFromMessage.
use gpt_load_fix.Prelude.{ℕ, ◌*◌, Option, none, some, List, [], ◌∷◌, ◌++◌, if◌then◌else◌}
use gpt_load_fix.Prelude.Text.{Text, bytes}
use gpt_load_fix.Errors.{contains_one}

-- A second in nanoseconds.
abbrev pub second : ℕ
second = 1000000000

-- An entry of the table of parseRetryAfterFromMessage, which is in four parts here.
abbrev pub Keywords : Type 0
Keywords = List Text × ℕ

abbrev pub up_to_five_minutes : List Keywords
up_to_five_minutes =
    (
      bytes "try again in 30 seconds"
          ∷ bytes "wait 30 seconds"
          ∷ bytes "30 seconds"
          ∷ bytes "30s"
          ∷ [],
      30 * second,
    )
    ∷ (
      bytes "try again in 60 seconds"
          ∷ bytes "wait 60 seconds"
          ∷ bytes "60 seconds"
          ∷ bytes "60s"
          ∷ [],
      60 * second,
    )
    ∷ (
      bytes "try again in 1 minute" ∷ bytes "wait 1 minute" ∷ bytes "1 minute" ∷ bytes "1m" ∷ [],
      60 * second,
    )
    ∷ (
      bytes "try again in 2 minutes" ∷ bytes "wait 2 minutes" ∷ bytes "2 minutes" ∷ bytes "2m" ∷ [],
      120 * second,
    )
    ∷ (
      bytes "try again in 3 minutes" ∷ bytes "wait 3 minutes" ∷ bytes "3 minutes" ∷ bytes "3m" ∷ [],
      180 * second,
    )
    ∷ (
      bytes "try again in 5 minutes" ∷ bytes "wait 5 minutes" ∷ bytes "5 minutes" ∷ bytes "5m" ∷ [],
      300 * second,
    )
    ∷ []

abbrev pub ten_minutes : List Keywords
ten_minutes =
    (
      bytes "try again in 10 minutes"
          ∷ bytes "wait 10 minutes"
          ∷ bytes "10 minutes"
          ∷ bytes "10m"
          ∷ [],
      600 * second,
    )
    ∷ []

abbrev pub fifteen_minutes : List Keywords
fifteen_minutes =
    (
      bytes "try again in 15 minutes"
          ∷ bytes "wait 15 minutes"
          ∷ bytes "15 minutes"
          ∷ bytes "15m"
          ∷ [],
      900 * second,
    )
    ∷ []

abbrev pub twenty_minutes_and_more : List Keywords
twenty_minutes_and_more =
    (
      bytes "try again in 20 minutes"
          ∷ bytes "wait 20 minutes"
          ∷ bytes "20 minutes"
          ∷ bytes "20m"
          ∷ [],
      1200 * second,
    )
    ∷ (
      bytes "try again in 30 minutes"
          ∷ bytes "wait 30 minutes"
          ∷ bytes "30 minutes"
          ∷ bytes "30m"
          ∷ [],
      1800 * second,
    )
    ∷ (
      bytes "try again in 1 hour" ∷ bytes "wait 1 hour" ∷ bytes "1 hour" ∷ bytes "1h" ∷ [],
      3600 * second,
    )
    ∷ (
      bytes "try again in 2 hours" ∷ bytes "wait 2 hours" ∷ bytes "2 hours" ∷ bytes "2h" ∷ [],
      7200 * second,
    )
    ∷ (
      bytes "try again in 3 hours" ∷ bytes "wait 3 hours" ∷ bytes "3 hours" ∷ bytes "3h" ∷ [],
      10800 * second,
    )
    ∷ (
      bytes "try again in 6 hours" ∷ bytes "wait 6 hours" ∷ bytes "6 hours" ∷ bytes "6h" ∷ [],
      21600 * second,
    )
    ∷ (
      bytes "try again in 12 hours" ∷ bytes "wait 12 hours" ∷ bytes "12 hours" ∷ bytes "12h" ∷ [],
      43200 * second,
    )
    ∷ (
      bytes "daily limit"
          ∷ bytes "24 hours"
          ∷ bytes "tomorrow"
          ∷ bytes "next day"
          ∷ bytes "1 day"
          ∷ bytes "24h"
          ∷ [],
      86400 * second,
    )
    ∷ (
      bytes "try again tomorrow" ∷ bytes "wait until tomorrow" ∷ bytes "reset tomorrow" ∷ [],
      86400 * second,
    )
    ∷ (bytes "monthly limit" ∷ bytes "next month" ∷ bytes "30 days" ∷ [], 2592000 * second)
    ∷ (bytes "openai rate limit" ∷ bytes "please try again later" ∷ [], 60 * second)
    ∷ (bytes "anthropic rate limit" ∷ [], 60 * second)
    ∷ (bytes "google quota exceeded" ∷ [], 3600 * second)
    ∷ (bytes "azure throttling" ∷ [], 60 * second)
    ∷ (
      (232 ∷ 175 ∷ 183 ∷ 231 ∷ 168 ∷ 141 ∷ 229 ∷ 144 ∷ 142 ∷ 233 ∷ 135 ∷ 141 ∷ 232 ∷ 175 ∷ 149 ∷ [])
          ∷ (232 ∷ 175 ∷ 183 ∷ 231 ∷ 173 ∷ 137 ∷ 229 ∷ 190 ∷ 133 ∷ 49 ∷ 229 ∷ 136 ∷ 134 ∷ 233 ∷ 146
              ∷ 159 ∷ [])
          ∷ (49 ∷ 229 ∷ 136 ∷ 134 ∷ 233 ∷ 146 ∷ 159 ∷ 229 ∷ 144 ∷ 142 ∷ 233 ∷ 135 ∷ 141 ∷ 232 ∷ 175
              ∷ 149 ∷ [])
          ∷ [],
      60 * second,
    )
    ∷ (
      (232 ∷ 175 ∷ 183 ∷ 231 ∷ 173 ∷ 137 ∷ 229 ∷ 190 ∷ 133 ∷ 53 ∷ 229 ∷ 136 ∷ 134 ∷ 233 ∷ 146 ∷ 159
            ∷ [])
          ∷ (53 ∷ 229 ∷ 136 ∷ 134 ∷ 233 ∷ 146 ∷ 159 ∷ 229 ∷ 144 ∷ 142 ∷ 233 ∷ 135 ∷ 141 ∷ 232 ∷ 175
              ∷ 149 ∷ [])
          ∷ [],
      300 * second,
    )
    ∷ (
      (232 ∷ 175 ∷ 183 ∷ 231 ∷ 173 ∷ 137 ∷ 229 ∷ 190 ∷ 133 ∷ 49 ∷ 229 ∷ 176 ∷ 143 ∷ 230 ∷ 151 ∷ 182
            ∷ [])
          ∷ (49 ∷ 229 ∷ 176 ∷ 143 ∷ 230 ∷ 151 ∷ 182 ∷ 229 ∷ 144 ∷ 142 ∷ 233 ∷ 135 ∷ 141 ∷ 232 ∷ 175
              ∷ 149 ∷ [])
          ∷ [],
      3600 * second,
    )
    ∷ (
      (230 ∷ 152 ∷ 142 ∷ 229 ∷ 164 ∷ 169 ∷ 233 ∷ 135 ∷ 141 ∷ 232 ∷ 175 ∷ 149 ∷ [])
          ∷ (50 ∷ 52 ∷ 229 ∷ 176 ∷ 143 ∷ 230 ∷ 151 ∷ 182 ∷ 229 ∷ 144 ∷ 142 ∷ 233 ∷ 135 ∷ 141 ∷ 232
              ∷ 175 ∷ 149 ∷ [])
          ∷ [],
      86400 * second,
    )
    ∷ []

-- The loop over the table.
unfoldable pub look_up : Text → List Keywords → Option ℕ
unfolding contains_one
look_up s [] = none
look_up s ((keywords, d) ∷ table) =
    let rest = look_up s table in if contains_one s keywords then some d else rest

abbrev pub table : List Keywords
table = up_to_five_minutes ++ ten_minutes ++ fifteen_minutes ++ twenty_minutes_and_more
