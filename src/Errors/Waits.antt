-- ===== src/Errors/Waits.antt =====
-- ParseRetryAfter (internal/errors/rate_limit.go): how long a rate limit may last.
use gpt_load_fix.Prelude.{
  ℕ, zero, suc, ◌*◌, ◌≡◌, refl, ap, ◌∙◌, sym, Bool, true, ◌&&◌, ◌||◌, Option, none, some, List, [],
  ◌∷◌, ◌++◌, leb, arith, Option-cases, inl, inr,
}
use gpt_load_fix.Prelude.Int.{ℤ, pos, negsuc, ltb_ℤ, leb_ℤ}
use gpt_load_fix.Prelude.Text.{Text, bytes, contains, contains_end}
use gpt_load_fix.Errors.{to_lower, contains_one}
use gpt_load_fix.Errors.Keywords.{
  second, Keywords, look_up, table, up_to_five_minutes, ten_minutes, fifteen_minutes,
  twenty_minutes_and_more,
}
use gpt_load_fix.Errors.Patterns.{Pattern, atoi, find_match, patterns}
use gpt_load_fix.Errors.RetryAfter.{
  found, parse_time, parse_time_from_message, seven_days, or_time, or_default, header_or,
  parse_retry_after_from_message, parse_retry_after, parse_retry_after_header,
}

abbrev pub thirty_days : ℕ
thirty_days = 2592000 * second

within : List Keywords → Bool
within [] = true
within ((keywords, d) ∷ t) = leb d thirty_days && within t

look_up-within :
    (s : Text) (t : List Keywords) (d : ℕ)
    → within t ≡ true
    → look_up s t ≡ some d
    → leb d thirty_days ≡ true
unfolding look_up within
look_up-within s [] d w h = absurd (cc)
look_up-within s ((keywords, e) ∷ t) d w h = ground (arith, w, h, look_up-within s t d)

table-within : within table ≡ true
unfolding within
table-within = refl

found_at_most :
    (p : Pattern) (later : ℤ) (n : Option ℤ)
    → leb_ℤ later seven_days ≡ true
    → leb_ℤ (found p later n) seven_days ≡ true
found_at_most p later none h = h
found_at_most p later (some (pos n)) h = ground arith
found_at_most p later (some (negsuc n)) h = h

parse_time_at_most : (s : Text) (ps : List Pattern) → leb_ℤ (parse_time s ps) seven_days ≡ true
unfolding parse_time
parse_time_at_most s [] = refl
parse_time_at_most s (p ∷ ps) =
    found_at_most p (parse_time s ps) (atoi (find_match p s)) (parse_time_at_most s ps)

or_time_at_most :
    (o : Option ℕ) (later : ℤ)
    → ((d : ℕ) → o ≡ some d → leb d thirty_days ≡ true)
    → leb_ℤ later seven_days ≡ true
    → leb_ℤ (or_time o later) (pos thirty_days) ≡ true
or_time_at_most (some d) later h k = ground (arith, h d refl)
or_time_at_most none (pos n) h k = ground (arith, k)
or_time_at_most none (negsuc n) h k = ground (arith, k)

from_message_at_most :
    (message : Text) → leb_ℤ (parse_retry_after_from_message message) (pos thirty_days) ≡ true
unfolding parse_retry_after_from_message parse_time_from_message
from_message_at_most [] = refl
from_message_at_most (c ∷ s) =
    or_time_at_most (look_up (to_lower (c ∷ s)) table) (parse_time (to_lower (c ∷ s)) patterns)
      (λ d. look_up-within (to_lower (c ∷ s)) table d table-within)
      (parse_time_at_most (to_lower (c ∷ s)) patterns)

or_default_pos : (d : ℤ) → ltb_ℤ (pos 0) (or_default d) ≡ true
or_default_pos (pos zero) = refl
or_default_pos (pos (suc n)) = ground arith
or_default_pos (negsuc n) = ground arith

or_default_at_most :
    (d : ℤ) → leb_ℤ d (pos thirty_days) ≡ true → leb_ℤ (or_default d) (pos thirty_days) ≡ true
or_default_at_most (pos zero) h = refl
or_default_at_most (pos (suc n)) h = ground (arith, h)
or_default_at_most (negsuc n) h = ground arith

header_or_pos :
    (d later : ℤ) → ltb_ℤ (pos 0) later ≡ true → ltb_ℤ (pos 0) (header_or d later) ≡ true
header_or_pos (pos zero) later h = h
header_or_pos (pos (suc n)) later h = ground arith
header_or_pos (negsuc n) later h = ground (arith, h)

positive_wait :
    (until : Text → Option ℤ) (header message : Text)
    → ltb_ℤ (pos 0) (parse_retry_after until header message) ≡ true
unfolding parse_retry_after
positive_wait until [] message = or_default_pos (parse_retry_after_from_message message)
positive_wait until (c ∷ header) message =
    header_or_pos (parse_retry_after_header until (c ∷ header)) _
      (or_default_pos (parse_retry_after_from_message message))

-- ParseRetryAfter never says zero or less, whatever it is given and however its products overflow;
-- and without a Retry-After header it never says more than thirty days.
pub parse_retry_after_lem :
    (until : Text → Option ℤ) (header message : Text)
    → (ltb_ℤ (pos 0) (parse_retry_after until header message) ≡ true)
      × (leb_ℤ (parse_retry_after until [] message) (pos thirty_days) ≡ true)
unfolding parse_retry_after
parse_retry_after_lem until header message = (
  positive_wait until header message,
  or_default_at_most (parse_retry_after_from_message message) (from_message_at_most message),
)

abbrev first : Option ℕ → Option ℕ → Option ℕ
first none o = o
first (some d) o = some d

look_up-append :
    (s : Text) (a b : List Keywords) → look_up s (a ++ b) ≡ first (look_up s a) (look_up s b)
unfolding look_up
look_up-append s [] b = refl
look_up-append s ((keywords, d) ∷ a) b = ground (arith, look_up-append s a b)

-- What matches an entry for fifteen minutes matches the one for five, which comes first.
five_found :
    (s : Text)
    → (contains s (bytes "5 minutes") || contains s (bytes "5m")) ≡ true
    → (d : ℕ) × (look_up s up_to_five_minutes ≡ some d)
unfolding look_up contains_one
five_found s h = elim (Option-cases (look_up s up_to_five_minutes)) [
  | inl n ↦ absurd (ground (arith, n, h))
  | inr some_d ↦ some_d
]

fifteen_is_five :
    (s : Text) (d : ℕ)
    → look_up s fifteen_minutes ≡ some d
    → (contains s (bytes "5 minutes") || contains s (bytes "5m")) ≡ true
unfolding look_up contains_one
fifteen_is_five s d h = ground (
  arith,
  h,
  contains_end s (bytes "try again in 1") (bytes "5 minutes"),
  contains_end s (bytes "wait 1") (bytes "5 minutes"),
  contains_end s (bytes "1") (bytes "5 minutes"),
  contains_end s (bytes "1") (bytes "5m"),
)

-- The entry for fifteen minutes is never used: without it the table says the same of every message.
pub fifteen_minutes_unused :
    (s : Text)
    → look_up s table ≡ look_up s (up_to_five_minutes ++ ten_minutes ++ twenty_minutes_and_more)
fifteen_minutes_unused s =
    let a =
      look_up-append s up_to_five_minutes
        (ten_minutes ++ fifteen_minutes ++ twenty_minutes_and_more) in
    let b = look_up-append s up_to_five_minutes (ten_minutes ++ twenty_minutes_and_more) in
    elim (Option-cases (look_up s fifteen_minutes)) [
      | inl n ↦ a ∙ ap (first (look_up s up_to_five_minutes)) (without_it n) ∙ sym b
      | inr (d, e) ↦
          let (d', e') = five_found s (fifteen_is_five s d e) in
          a
          ∙ ap
              (λ o. first o (look_up s (ten_minutes ++ fifteen_minutes ++ twenty_minutes_and_more)))
              e'
          ∙ sym (b ∙ ap (λ o. first o (look_up s (ten_minutes ++ twenty_minutes_and_more))) e')
    ]
  where
    without_it :
        look_up s fifteen_minutes ≡ none
        → look_up s (ten_minutes ++ fifteen_minutes ++ twenty_minutes_and_more)
          ≡ look_up s (ten_minutes ++ twenty_minutes_and_more)
    without_it n =
        look_up-append s ten_minutes (fifteen_minutes ++ twenty_minutes_and_more)
        ∙ ap (first (look_up s ten_minutes)) (
            look_up-append s fifteen_minutes twenty_minutes_and_more
            ∙ ap (λ o. first o (look_up s twenty_minutes_and_more)) n)
        ∙ sym (look_up-append s ten_minutes twenty_minutes_and_more)
