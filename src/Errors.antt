-- ===== src/Errors.antt =====
-- internal/errors: which messages of an upstream mean a client that went away (ignorable_errors.go)
-- and which a rate limit (rate_limit.go).
pub mod Keywords
pub mod Patterns
pub mod RetryAfter
pub mod Waits
mod Tests
use mathlib.Core.List.{append_assoc, map-append}
use gpt_load_fix.Prelude.{
  zero, suc, Option, none, some, sym, ℕ, ◌+◌, ◌≡◌, refl, ap, ◌∙◌, Bool, true, false, ◌&&◌, ◌||◌,
  List, [], ◌∷◌, ◌++◌, map, if◌then◌else◌, leb, ◌==◌, arith,
}
use gpt_load_fix.Prelude.Text.{Text, bytes, contains, contains-append}

-- strings.ToLower, for texts whose bytes over 127 are left as they are by it: those of scripts
-- without upper case, such as the Chinese ones that the program looks for.
abbrev lower : ℕ → ℕ
lower c = if leb b'A' c && leb c b'Z' then c + 32 else c

unfoldable pub to_lower : Text → Text
to_lower s = map lower s

-- The loops that look for one of several texts.
unfoldable pub contains_one : Text → List Text → Bool
contains_one s [] = false
contains_one s (sub ∷ subs) = contains s sub || contains_one s subs

abbrev ignorable_error_substrings : List Text
ignorable_error_substrings =
    bytes "context canceled"
    ∷ bytes "connection reset by peer"
    ∷ bytes "broken pipe"
    ∷ bytes "use of closed network connection"
    ∷ bytes "request canceled"
    ∷ []

unfoldable pub is_ignorable_error : Text → Bool
unfolding contains_one
is_ignorable_error message = contains_one message ignorable_error_substrings

-- The Chinese keywords, in UTF-8.
abbrev chinese_keywords : List Text
chinese_keywords =
    (232 ∷ 175 ∷ 183 ∷ 230 ∷ 177 ∷ 130 ∷ 232 ∷ 191 ∷ 135 ∷ 228 ∷ 186 ∷ 142 ∷ 233 ∷ 162 ∷ 145 ∷ 231
      ∷ 185 ∷ 129 ∷ [])
    ∷ (232 ∷ 174 ∷ 191 ∷ 233 ∷ 151 ∷ 174 ∷ 233 ∷ 162 ∷ 145 ∷ 231 ∷ 142 ∷ 135 ∷ 233 ∷ 153 ∷ 144 ∷ 229
        ∷ 136 ∷ 182 ∷ [])
    ∷ (233 ∷ 133 ∷ 141 ∷ 233 ∷ 162 ∷ 157 ∷ 229 ∷ 183 ∷ 178 ∷ 231 ∷ 148 ∷ 168 ∷ 229 ∷ 174 ∷ 140 ∷ [])
    ∷ (232 ∷ 175 ∷ 183 ∷ 230 ∷ 177 ∷ 130 ∷ 230 ∷ 172 ∷ 161 ∷ 230 ∷ 149 ∷ 176 ∷ 232 ∷ 182 ∷ 133 ∷ 233
        ∷ 153 ∷ 144 ∷ [])
    ∷ (230 ∷ 181 ∷ 129 ∷ 233 ∷ 135 ∷ 143 ∷ 233 ∷ 153 ∷ 144 ∷ 229 ∷ 136 ∷ 182 ∷ [])
    ∷ (233 ∷ 162 ∷ 145 ∷ 231 ∷ 142 ∷ 135 ∷ 233 ∷ 153 ∷ 144 ∷ 229 ∷ 136 ∷ 182 ∷ [])
    ∷ []

abbrev rate_limit_keywords : List Text
rate_limit_keywords =
    bytes "rate limit"
    ∷ bytes "rate_limit"
    ∷ bytes "rate-limit"
    ∷ bytes "ratelimit"
    ∷ bytes "too many requests"
    ∷ bytes "quota exceeded"
    ∷ bytes "quota_exceeded"
    ∷ bytes "quota-exceeded"
    ∷ bytes "quotaexceeded"
    ∷ bytes "requests per minute"
    ∷ bytes "requests per day"
    ∷ bytes "requests per hour"
    ∷ bytes "requests per second"
    ∷ bytes "rpm exceeded"
    ∷ bytes "rph exceeded"
    ∷ bytes "rpd exceeded"
    ∷ bytes "rps exceeded"
    ∷ bytes "daily limit"
    ∷ bytes "monthly limit"
    ∷ bytes "hourly limit"
    ∷ bytes "usage limit"
    ∷ bytes "api limit"
    ∷ bytes "throttled"
    ∷ bytes "throttling"
    ∷ bytes "rate limiting"
    ∷ bytes "rate-limiting"
    ∷ bytes "ratelimiting"
    ∷ bytes "limited"
    ∷ bytes "exceeded"
    ∷ bytes "overload"
    ∷ bytes "busy"
    ∷ bytes "openai rate limit"
    ∷ bytes "anthropic rate limit"
    ∷ bytes "google quota"
    ∷ bytes "azure rate limit"
    ∷ bytes "aws throttling"
    ∷ bytes "cloudflare rate limit"
    ∷ bytes "error_code_429"
    ∷ bytes "error_429"
    ∷ bytes "http_429"
    ∷ bytes "status_429"
    ∷ chinese_keywords

abbrev json_keywords : List Text
json_keywords =
    bytes "\"error_code\":\"429\""
    ∷ bytes "\"error_code\":429"
    ∷ bytes "\"status_code\":\"429\""
    ∷ bytes "\"status_code\":429"
    ∷ bytes "\"error\":\"rate_limit\""
    ∷ bytes "\"error\":\"rate limit\""
    ∷ bytes "\"error\":\"too_many_requests\""
    ∷ bytes "\"error\":\"quota_exceeded\""
    ∷ bytes "\"type\":\"rate_limit_error\""
    ∷ bytes "\"code\":\"rate_limit\""
    ∷ bytes "\"code\":\"429\""
    ∷ bytes "\"message\":\"rate limit\""
    ∷ bytes "\"message\":\"too many requests\""
    ∷ bytes "\"message\":\"quota exceeded\""
    ∷ []

unfoldable pub is_json_rate_limit_error : Text → Bool
unfolding contains_one to_lower
is_json_rate_limit_error message = contains_one (to_lower message) json_keywords

unfoldable pub is_rate_limit_error : ℕ → Text → Bool
unfolding contains_one to_lower is_json_rate_limit_error
is_rate_limit_error status_code message =
    (status_code == 429)
    || contains_one (to_lower message) rate_limit_keywords
    || is_json_rate_limit_error message

at : ℕ → List Text → Option Text
at i [] = none
at zero (sub ∷ subs) = some sub
at (suc i) (sub ∷ subs) = at i subs

contains_one-at :
    (s sub : Text) (i : ℕ) (subs : List Text)
    → at i subs ≡ some sub
    → contains s sub ≡ true
    → contains_one s subs ≡ true
unfolding contains_one at
contains_one-at s sub i [] e h = absurd (nothing e)
  where
    nothing : none ≡ some sub → ⊥
    nothing q = cc
contains_one-at s sub zero (t ∷ ts) e h = ground (arith, e, h)
contains_one-at s sub (suc i) (t ∷ ts) e h = ground (arith, contains_one-at s sub i ts e h)

exceeded_at : at 28 rate_limit_keywords ≡ some (bytes "exceeded")
unfolding at
exceeded_at = refl

-- Whatever else a message says and whatever the status, the words `context deadline exceeded`, by
-- which Go's HTTP client reports that its time ran out, make it a rate limit.
pub timeout_is_rate_limit :
    (status_code : ℕ) (pre post : Text)
    → is_rate_limit_error status_code (pre ++ bytes "context deadline exceeded" ++ post) ≡ true
unfolding is_rate_limit_error to_lower
timeout_is_rate_limit status_code pre post = ground (
  arith,
  contains_one-at (to_lower (pre ++ bytes "context deadline exceeded" ++ post)) (bytes "exceeded")
      28 rate_limit_keywords exceeded_at found,
)
  where
    lowered :
        to_lower (pre ++ bytes "context deadline exceeded" ++ post)
        ≡ (map lower pre ++ bytes "context deadline ") ++ bytes "exceeded" ++ map lower post
    lowered =
        map-append lower (pre ++ bytes "context deadline exceeded") post
        ∙ ap (λ s. s ++ map lower post)
            (map-append lower pre (bytes "context deadline exceeded")
              ∙ sym (append_assoc (map lower pre) (bytes "context deadline ") (bytes "exceeded")))

    found :
        contains (to_lower (pre ++ bytes "context deadline exceeded" ++ post)) (bytes "exceeded")
        ≡ true
    found =
        ap (λ s. contains s (bytes "exceeded")) lowered
        ∙ contains-append (map lower pre ++ bytes "context deadline ") (bytes "exceeded")
            (map lower post)
