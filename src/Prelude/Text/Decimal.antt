-- ===== src/Prelude/Text/Decimal.antt =====
-- Decimal numbers as `fmt` prints them and `strconv` parses them, in 64 bits.
use Prim.Native.Nat.{ℕ, zero, suc, ◌+◌, ◌-◌, ◌*◌, ◌/◌, ◌%◌, ◌^◌, ◌≤◌, ◌<◌}
use mathlib.Core.Path.{◌≡◌, refl, ap}
use mathlib.Core.Bool.{Bool, true, false, ◌&&◌}
use mathlib.Core.Option.{Option, none, some}
use mathlib.Core.List.{List, [], ◌∷◌, ◌++◌}
use native.Mathlib.Omega.{arith}
use gpt_load_fix.Prelude.Tests.{leb, ltb, ◌==◌, if◌then◌else◌}
use gpt_load_fix.Prelude.Int.{ℤ, pos, negsuc, sub_ℕ, max_int64, InInt64}

-- With more fuel than the number the loop ends by its test.
digits : ℕ → ℕ → List ℕ
digits zero n = []
digits (suc f) n =
    let rest = digits f (n / 10) in if ltb n 10 then (48 + n) ∷ [] else rest ++ (48 + n % 10) ∷ []

-- fmt.Sprint and %d of an unsigned integer
unfoldable pub format_uint : ℕ → List ℕ
unfolding digits
format_uint n = digits (suc n) n

-- fmt.Sprint of an int64, strconv.FormatInt
unfoldable pub format_int : ℤ → List ℕ
unfolding format_uint
format_int (pos n) = format_uint n
format_int (negsuc n) = b'-' ∷ format_uint (suc n)

is_digit : ℕ → Bool
is_digit c = leb b'0' c && leb c b'9'

parse_digits : ℕ → List ℕ → Option ℕ
unfolding is_digit
parse_digits acc [] = some acc
parse_digits acc (c ∷ s) =
    let rest = parse_digits (acc * 10 + (c - 48)) s in if is_digit c then rest else none

-- What stands behind the sign, with no bound.
parse_nat : List ℕ → Option ℕ
unfolding parse_digits
parse_nat [] = none
parse_nat (c ∷ s) = parse_digits 0 (c ∷ s)

-- The loop of strconv.ParseUint, which stops at the digit that passes 64 bits, so that a range error
-- hides what stands behind it; it is a value of 2 ^ 64 or more here.
parse_64 : ℕ → List ℕ → Option ℕ
unfolding is_digit
parse_64 acc [] = some acc
parse_64 acc (c ∷ s) =
    let acc' = acc * 10 + (c - 48) in
    let rest = parse_64 acc' s in
    if is_digit c then (if ltb acc' (2 ^ 64) then rest else some acc') else none

parse_uint_64 : List ℕ → Option ℕ
unfolding parse_64
parse_uint_64 [] = none
parse_uint_64 (c ∷ s) = parse_64 0 (c ∷ s)

abbrev in_range : ℕ → Option ℕ → Option ℕ
in_range bound none = none
in_range bound (some n) = if ltb n bound then some n else none

-- strconv.ParseUint(s, 10, 64); `none` is an error.
unfoldable pub parse_uint : List ℕ → Option ℕ
unfolding parse_uint_64
parse_uint s = in_range (2 ^ 64) (parse_uint_64 s)

abbrev positive : Option ℕ → ℤ × Bool
positive none = (pos 0, false)
positive (some n) = if leb n max_int64 then (pos n, true) else (pos max_int64, false)

abbrev negative : Option ℕ → ℤ × Bool
negative none = (pos 0, false)
negative (some n) = if leb n (2 ^ 63) then (sub_ℕ 0 n, true) else (negsuc max_int64, false)

-- strconv.ParseInt(s, 10, 64): the value, and whether there was no error. Beside a syntax error
-- the value is 0, and beside a range error the bound that was passed.
unfoldable pub parse_int : List ℕ → ℤ × Bool
unfolding parse_uint_64
parse_int [] = (pos 0, false)
parse_int (c ∷ s) =
    if c == b'-'
    then negative (parse_uint_64 s)
    else if c == b'+'
    then positive (parse_uint_64 s)
    else positive (parse_uint_64 (c ∷ s))

abbrev step : Option ℕ → ℕ → Option ℕ
step none c = none
step (some n) c = if is_digit c then some (n * 10 + (c - 48)) else none

parse_digits-snoc :
    (acc : ℕ) (s : List ℕ) (c : ℕ) → parse_digits acc (s ++ c ∷ []) ≡ step (parse_digits acc s) c
unfolding parse_digits
parse_digits-snoc acc [] c = refl
parse_digits-snoc acc (x ∷ s) c = ground (arith, parse_digits-snoc (acc * 10 + (x - 48)) s c)

parse_digits-digits : (f n : ℕ) → n < f → parse_digits 0 (digits f n) ≡ some n
unfolding digits parse_digits
parse_digits-digits zero n h = elim h [ ]
parse_digits-digits (suc f) n h =
    ground
      (arith, parse_digits-digits f (n / 10), parse_digits-snoc 0 (digits f (n / 10)) (48 + n % 10))

-- The first byte of a printed number is a digit.
abbrev StartsWithDigit : List ℕ → Type 0
StartsWithDigit [] = ⊥
StartsWithDigit (c ∷ s) = (48 ≤ c) × (c ≤ 57)

StartsWithDigit-append : (s t : List ℕ) → StartsWithDigit s → StartsWithDigit (s ++ t)
StartsWithDigit-append [] t h = absurd h
StartsWithDigit-append (c ∷ s) t h = h

digits-StartsWithDigit : (f n : ℕ) → n < f → StartsWithDigit (digits f n)
unfolding digits
digits-StartsWithDigit zero n h = elim h [ ]
digits-StartsWithDigit (suc f) n h = ground (
  arith,
  StartsWithDigit-append (digits f (n / 10)) ((48 + n % 10) ∷ []),
  digits-StartsWithDigit f (n / 10),
)

parse_nat-eq : (s : List ℕ) → StartsWithDigit s → parse_nat s ≡ parse_digits 0 s
unfolding parse_nat
parse_nat-eq [] h = absurd h
parse_nat-eq (c ∷ s) h = refl

parse_nat-format_uint : (n : ℕ) → parse_nat (format_uint n) ≡ some n
unfolding format_uint
parse_nat-format_uint n = ground (
  arith,
  parse_nat-eq (digits (suc n) n) (digits-StartsWithDigit (suc n) n (omega arith)),
  parse_digits-digits (suc n) n (omega arith),
)

parse_digits-grows : (acc : ℕ) (s : List ℕ) (n : ℕ) → parse_digits acc s ≡ some n → acc ≤ n
unfolding parse_digits
parse_digits-grows acc [] n h = ground (arith, h)
parse_digits-grows acc (c ∷ s) n h = ground (arith, h, parse_digits-grows (acc * 10 + (c - 48)) s n)

-- In 64 bits the loop does not stop early.
parse_64-eq :
    (acc : ℕ) (s : List ℕ) (n : ℕ)
    → parse_digits acc s ≡ some n
    → n < 2 ^ 64
    → parse_64 acc s ≡ some n
unfolding parse_digits parse_64
parse_64-eq acc [] n h b = h
parse_64-eq acc (c ∷ s) n h b =
    ground (
      arith,
      h,
      parse_64-eq (acc * 10 + (c - 48)) s n,
      parse_digits-grows (acc * 10 + (c - 48)) s n,
    )

parse_uint_64-eq :
    (s : List ℕ) (n : ℕ) → parse_nat s ≡ some n → n < 2 ^ 64 → parse_uint_64 s ≡ some n
unfolding parse_nat parse_uint_64
parse_uint_64-eq [] n h b = h
parse_uint_64-eq (c ∷ s) n h b = parse_64-eq 0 (c ∷ s) n h b

parse_uint_64-format_uint : (n : ℕ) → n < 2 ^ 64 → parse_uint_64 (format_uint n) ≡ some n
parse_uint_64-format_uint n b = parse_uint_64-eq (format_uint n) n (parse_nat-format_uint n) b

-- Different numbers are printed differently.
pub format_uint-injective : (n m : ℕ) → format_uint n ≡ format_uint m → n ≡ m
format_uint-injective n m h = cc (parse_nat-format_uint n, parse_nat-format_uint m, ap parse_nat h)

-- A printed 64-bit number is read back.
pub parse_uint-format_uint : (n : ℕ) → n < 2 ^ 64 → parse_uint (format_uint n) ≡ some n
unfolding parse_uint
parse_uint-format_uint n h = ground (arith, parse_uint_64-format_uint n)

unsigned-parse_int : (s : List ℕ) → StartsWithDigit s → parse_int s ≡ positive (parse_uint_64 s)
unfolding parse_int
unsigned-parse_int [] h = absurd h
unsigned-parse_int (c ∷ s) h = ground arith

pub parse_int-format_int : (z : ℤ) → InInt64 z → parse_int (format_int z) ≡ (z, true)
unfolding format_int
parse_int-format_int (pos n) h = ground (
  arith,
  unsigned-parse_int (format_uint n) (digits-StartsWithDigit (suc n) n (omega arith)),
  parse_uint_64-format_uint n,
)
parse_int-format_int (negsuc n) h =
    unfold parse_int in ground (arith, parse_uint_64-format_uint (suc n))

positive-InInt64 : (o : Option ℕ) → InInt64 (positive o).0
positive-InInt64 none = omega arith
positive-InInt64 (some n) = ground arith

negative-InInt64 : (o : Option ℕ) → InInt64 (negative o).0
negative-InInt64 none = omega arith
negative-InInt64 (some n) = ground arith

-- What is read is in range, also beside an error.
pub parse_int-InInt64 : (s : List ℕ) → InInt64 (parse_int s).0
unfolding parse_int
parse_int-InInt64 [] = omega arith
parse_int-InInt64 (c ∷ s) = ground (
  arith,
  positive-InInt64 (parse_uint_64 s),
  negative-InInt64 (parse_uint_64 s),
  positive-InInt64 (parse_uint_64 (c ∷ s)),
)

format_example :
    (format_uint 1024 ≡ 49 ∷ 48 ∷ 50 ∷ 52 ∷ []) × (parse_uint (49 ∷ 48 ∷ 50 ∷ 52 ∷ []) ≡ some 1024)
unfolding format_uint parse_uint
format_example = (refl, refl)

-- So many nines, and an `x` behind them.
nines : ℕ → List ℕ
nines zero = 120 ∷ []
nines (suc n) = 57 ∷ nines n

-- The range error of the digits hides the `x` behind them.
range_example : parse_int (nines 20) ≡ (pos max_int64, false)
unfolding parse_int nines
range_example = refl
