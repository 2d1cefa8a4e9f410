-- ===== src/Errors/RetryAfter.antt =====
-- internal/errors/rate_limit.go: ParseRetryAfter. Durations are nanoseconds, in an int64. How long it is
-- until an HTTP date (http.ParseTime, time.Until) is an argument.
use gpt_load_fix.Prelude.{ℕ, ◌*◌, ◌%◌, ◌^◌, Option, none, some, List, [], ◌∷◌, if◌then◌else◌}
use gpt_load_fix.Prelude.Int.{ℤ, pos, negsuc, wrap64, ltb_ℤ}
use gpt_load_fix.Prelude.Text.{Text}
use gpt_load_fix.Prelude.Text.Decimal.{parse_int}
use mathlib.Core.List.{reverse}
use gpt_load_fix.Errors.{to_lower}
use gpt_load_fix.Errors.Keywords.{second, table, look_up}
use gpt_load_fix.Errors.Patterns.{is_space, skip, sound, Pattern, patterns, find_match, atoi}

-- strings.TrimSpace
unfoldable pub trim_space : Text → Text
trim_space s = reverse (skip is_space (reverse (skip is_space s)))

abbrev positive : Option ℤ → ℤ
positive none = pos 0
positive (some d) = if ltb_ℤ (pos 0) d then d else pos 0

abbrev times_second : ℤ → ℤ
times_second (pos n) = wrap64 (pos (n * second % 2 ^ 64))
times_second (negsuc n) = pos 0

-- The rest of parseRetryAfterHeader, from what strconv.Atoi returned.
unfoldable pub header_number : (Text → Option ℤ) → Text → Option ℤ → ℤ
header_number until header none = positive (until header)
header_number until header (some n) =
    if ltb_ℤ (pos 0) n then times_second n else positive (until header)

-- parseRetryAfterHeader
unfoldable pub parse_retry_after_header : (Text → Option ℤ) → Text → ℤ
parse_retry_after_header until header = elim (trim_space header) [
  | [] ↦ pos 0
  | c ∷ s ↦ header_number until (c ∷ s) (sound (parse_int (c ∷ s)))
]

abbrev pub seven_days : ℤ
seven_days = pos (604800 * second)

abbrev capped : ℤ → ℤ
capped d = if ltb_ℤ seven_days d then seven_days else d

abbrev pub found : Pattern → ℤ → Option ℤ → ℤ
found p later none = later
found p later (some (pos n)) = capped (wrap64 (pos (n * p.unit % 2 ^ 64)))
found p later (some (negsuc n)) = later

-- parseTimeFromMessage
unfoldable pub parse_time : Text → List Pattern → ℤ
unfolding find_match
parse_time s [] = pos 0
parse_time s (p ∷ ps) = found p (parse_time s ps) (atoi (find_match p s))

unfoldable pub parse_time_from_message : Text → ℤ
parse_time_from_message s = parse_time s patterns

abbrev pub or_time : Option ℕ → ℤ → ℤ
or_time (some d) later = pos d
or_time none later = if ltb_ℤ (pos 0) later then later else pos 0

-- parseRetryAfterFromMessage
unfoldable pub parse_retry_after_from_message : Text → ℤ
unfolding look_up to_lower
parse_retry_after_from_message [] = pos 0
parse_retry_after_from_message (c ∷ s) =
    or_time (look_up (to_lower (c ∷ s)) table) (parse_time_from_message (to_lower (c ∷ s)))

abbrev pub or_default : ℤ → ℤ
or_default d = if ltb_ℤ (pos 0) d then d else pos (60 * second)

abbrev pub header_or : ℤ → ℤ → ℤ
header_or d later = if ltb_ℤ (pos 0) d then d else later

-- ParseRetryAfter
unfoldable pub parse_retry_after : (Text → Option ℤ) → Text → Text → ℤ
parse_retry_after until [] message = or_default (parse_retry_after_from_message message)
parse_retry_after until (c ∷ header) message =
    header_or (parse_retry_after_header until (c ∷ header))
      (or_default (parse_retry_after_from_message message))
