-- ===== src/Errors/Patterns.antt =====
-- internal/errors/rate_limit.go: the regular expressions of parseTimeFromMessage, and how they are
-- matched.
use gpt_load_fix.Prelude.{
  ℕ, ◌*◌, Bool, true, false, ◌&&◌, ◌||◌, not, Option, none, some, List, [], ◌∷◌, if◌then◌else◌, leb,
  ◌==◌,
}
use gpt_load_fix.Prelude.Int.{ℤ}
use gpt_load_fix.Prelude.Text.{Text, bytes}
use gpt_load_fix.Prelude.Text.Decimal.{parse_int}
use gpt_load_fix.Errors.Keywords.{second}

-- unicode.IsSpace, for the bytes below 128, and \s of a pattern
unfoldable pub is_space : ℕ → Bool
is_space c = leb 9 c && leb c 13 || c == 32

unfoldable pub is_blank : ℕ → Bool
is_blank c = leb 9 c && leb c 10 || leb 12 c && leb c 13 || c == 32

abbrev pub skip : (ℕ → Bool) → Text → Text
skip f [] = []
skip f (c ∷ s) = let rest = skip f s in if f c then rest else c ∷ s

-- The value where there was no error.
abbrev pub sound : ℤ × Bool → Option ℤ
sound (n, fine) = if fine then some n else none

-- A pattern of parseTimeFromMessage: words with spaces after them, a number, spaces, a unit, and \b.
pub record Pattern : Type 0 where
  pub words : List Text
  pub units : List Text
  pub bounded : Bool
  pub unit : ℕ

abbrev pub patterns : List Pattern
patterns =
    record {
      words = [];
      units = bytes "seconds" ∷ bytes "second" ∷ bytes "secs" ∷ bytes "sec" ∷ bytes "s" ∷ [];
      bounded = true;
      unit = 1 * second;
    }
    ∷ record {
      words = [];
      units = bytes "minutes" ∷ bytes "minute" ∷ bytes "mins" ∷ bytes "min" ∷ bytes "m" ∷ [];
      bounded = true;
      unit = 60 * second;
    }
    ∷ record {
      words = [];
      units = bytes "hours" ∷ bytes "hour" ∷ bytes "hrs" ∷ bytes "hr" ∷ bytes "h" ∷ [];
      bounded = true;
      unit = 3600 * second;
    }
    ∷ record {
      words = [];
      units = bytes "days" ∷ bytes "day" ∷ bytes "d" ∷ [];
      bounded = true;
      unit = 86400 * second;
    }
    ∷ record {
      words = [];
      units = bytes "weeks" ∷ bytes "week" ∷ bytes "w" ∷ [];
      bounded = true;
      unit = 604800 * second;
    }
    ∷ record {
      words = bytes "wait" ∷ [];
      units = bytes "seconds" ∷ bytes "second" ∷ bytes "secs" ∷ bytes "sec" ∷ bytes "s" ∷ [];
      bounded = true;
      unit = 1 * second;
    }
    ∷ record {
      words = bytes "wait" ∷ [];
      units = bytes "minutes" ∷ bytes "minute" ∷ bytes "mins" ∷ bytes "min" ∷ bytes "m" ∷ [];
      bounded = true;
      unit = 60 * second;
    }
    ∷ record {
      words = bytes "wait" ∷ [];
      units = bytes "hours" ∷ bytes "hour" ∷ bytes "hrs" ∷ bytes "hr" ∷ bytes "h" ∷ [];
      bounded = true;
      unit = 3600 * second;
    }
    ∷ record {
      words = bytes "try" ∷ bytes "again" ∷ bytes "in" ∷ [];
      units = bytes "seconds" ∷ bytes "second" ∷ bytes "secs" ∷ bytes "sec" ∷ bytes "s" ∷ [];
      bounded = true;
      unit = 1 * second;
    }
    ∷ record {
      words = bytes "try" ∷ bytes "again" ∷ bytes "in" ∷ [];
      units = bytes "minutes" ∷ bytes "minute" ∷ bytes "mins" ∷ bytes "min" ∷ bytes "m" ∷ [];
      bounded = true;
      unit = 60 * second;
    }
    ∷ record {
      words = bytes "try" ∷ bytes "again" ∷ bytes "in" ∷ [];
      units = bytes "hours" ∷ bytes "hour" ∷ bytes "hrs" ∷ bytes "hr" ∷ bytes "h" ∷ [];
      bounded = true;
      unit = 3600 * second;
    }
    ∷ record {
      words = bytes "retry" ∷ bytes "after" ∷ [];
      units = bytes "seconds" ∷ bytes "second" ∷ bytes "secs" ∷ bytes "sec" ∷ bytes "s" ∷ [];
      bounded = true;
      unit = 1 * second;
    }
    ∷ record {
      words = bytes "retry" ∷ bytes "after" ∷ [];
      units = bytes "minutes" ∷ bytes "minute" ∷ bytes "mins" ∷ bytes "min" ∷ bytes "m" ∷ [];
      bounded = true;
      unit = 60 * second;
    }
    ∷ record {
      words = bytes "retry" ∷ bytes "after" ∷ [];
      units = bytes "hours" ∷ bytes "hour" ∷ bytes "hrs" ∷ bytes "hr" ∷ bytes "h" ∷ [];
      bounded = true;
      unit = 3600 * second;
    }
    ∷ record { words = []; units = (231 ∷ 167 ∷ 146 ∷ []) ∷ []; bounded = false; unit = 1 * second }
    ∷ record {
      words = [];
      units = (229 ∷ 136 ∷ 134 ∷ 233 ∷ 146 ∷ 159 ∷ []) ∷ [];
      bounded = false;
      unit = 60 * second;
    }
    ∷ record {
      words = [];
      units = (229 ∷ 176 ∷ 143 ∷ 230 ∷ 151 ∷ 182 ∷ []) ∷ [];
      bounded = false;
      unit = 3600 * second;
    }
    ∷ record {
      words = [];
      units = (229 ∷ 164 ∷ 169 ∷ []) ∷ [];
      bounded = false;
      unit = 86400 * second;
    }
    ∷ []

abbrev is_digit : ℕ → Bool
is_digit c = leb 48 c && leb c 57

-- \b after a letter
abbrev ends_word : Text → Bool
ends_word [] = true
ends_word (c ∷ s) = not (is_digit c || leb 65 c && leb c 90 || leb 97 c && leb c 122 || c == 95)

abbrev span_digits : Text → Text × Text
span_digits [] = ([], [])
span_digits (c ∷ s) =
    let (d, rest) = span_digits s in if is_digit c then (c ∷ d, rest) else ([], c ∷ s)

unfoldable pub strip_prefix : Text → Text → Option Text
strip_prefix s [] = some s
strip_prefix [] (p ∷ ps) = none
strip_prefix (c ∷ s) (p ∷ ps) = let rest = strip_prefix s ps in if c == p then rest else none

abbrev ends_after : Bool → Option Text → Bool
ends_after bounded none = false
ends_after bounded (some rest) = not bounded || ends_word rest

unfoldable pub unit_at : Bool → List Text → Text → Bool
unfolding strip_prefix
unit_at bounded [] s = false
unit_at bounded (u ∷ us) s = ends_after bounded (strip_prefix s u) || unit_at bounded us s

abbrev after_space : (Text → Option Text) → Option Text → Option Text
after_space next none = none
after_space next (some []) = none
after_space next (some (c ∷ s)) = if is_blank c then next (skip is_blank s) else none

unfoldable pub words_at : List Text → Text → Option Text
unfolding strip_prefix
words_at [] s = some s
words_at (w ∷ ws) s = after_space (λ t. words_at ws t) (strip_prefix s w)

abbrev number_at : Pattern → Text × Text → Option Text
number_at p ([], rest) = none
number_at p (c ∷ d, rest) =
    if unit_at p.bounded p.units (skip is_blank rest) then some (c ∷ d) else none

abbrev match_at : Pattern → Option Text → Option Text
match_at p none = none
match_at p (some s) = number_at p (span_digits s)

abbrev or_later : Option Text → Option Text → Option Text
or_later none later = later
or_later (some d) later = some d

-- FindStringSubmatch: the digits of the first match.
unfoldable pub find_match : Pattern → Text → Option Text
unfolding words_at unit_at
find_match p [] = match_at p (words_at p.words [])
find_match p (c ∷ s) = or_later (match_at p (words_at p.words (c ∷ s))) (find_match p s)

-- strconv.Atoi of the digits.
abbrev pub atoi : Option Text → Option ℤ
atoi none = none
atoi (some d) = sound (parse_int d)
