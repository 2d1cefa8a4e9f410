-- ===== src/Errors/Tests.antt =====
-- The message of a request that ran out of time, as Go's HTTP client gives it; and messages that say
-- how long to wait.
use gpt_load_fix.Prelude.{◌≡◌, refl, true, ◌++◌, ◌*◌, none, some, []}
use gpt_load_fix.Prelude.Text.{Text, bytes}
use gpt_load_fix.Prelude.Int.{ℤ, pos, negsuc, ltb_ℤ, leb_ℤ}
use gpt_load_fix.Errors.{is_rate_limit_error, timeout_is_rate_limit}
use gpt_load_fix.Errors.Keywords.{
  second, look_up, table, up_to_five_minutes, ten_minutes, twenty_minutes_and_more,
}
use gpt_load_fix.Errors.RetryAfter.{
  parse_retry_after, parse_retry_after_from_message, parse_time_from_message, parse_time,
  parse_retry_after_header, trim_space, header_number,
}
use gpt_load_fix.Errors.Patterns.{is_space}
use gpt_load_fix.Prelude.Text.{contains}
use gpt_load_fix.Prelude.Text.Decimal.{parse_int}
use gpt_load_fix.Errors.Waits.{thirty_days, parse_retry_after_lem, fifteen_minutes_unused}

abbrev before : Text
before = bytes "Post \"https://api.example.com/v1\": "

abbrev after : Text
after = bytes " (Client.Timeout exceeded while awaiting headers)"

timeout_is_rate_limit_example :
    is_rate_limit_error 500 (before ++ bytes "context deadline exceeded" ++ after) ≡ true
timeout_is_rate_limit_example = timeout_is_rate_limit 500 before after

abbrev fifteen : Text
fifteen = bytes "rate limited, retry in 15 minutes"

parse_retry_after_lem_example :
    (ltb_ℤ (pos 0) (parse_retry_after (λ date. none) (bytes "30") fifteen) ≡ true)
    × (leb_ℤ (parse_retry_after (λ date. none) (bytes "") fifteen) (pos thirty_days) ≡ true)
parse_retry_after_lem_example = parse_retry_after_lem (λ date. none) (bytes "30") fifteen

fifteen_minutes_unused_example :
    look_up fifteen table
    ≡ look_up fifteen (up_to_five_minutes ++ ten_minutes ++ twenty_minutes_and_more)
fifteen_minutes_unused_example = fifteen_minutes_unused fifteen

-- Where no time is found, in a message, in a header that is not one or in a date that has passed,
-- the wait is a minute.
abbrev minute : ℤ
minute = pos (60 * second)

no_time : parse_retry_after (λ date. none) [] (bytes "Rate limit exceeded") ≡ minute
unfolding parse_retry_after parse_retry_after_from_message contains parse_time_from_message
    parse_time
no_time = refl

invalid_header : parse_retry_after (λ date. none) (bytes "invalid") [] ≡ minute
unfolding parse_retry_after parse_retry_after_header trim_space is_space header_number parse_int
    parse_retry_after_from_message
invalid_header = refl

past_date :
    parse_retry_after (λ date. some (negsuc 0)) (bytes "Wed, 21 Oct 2015 07:28:00 GMT") [] ≡ minute
unfolding parse_retry_after parse_retry_after_header trim_space is_space header_number parse_int
    parse_retry_after_from_message
past_date = refl
