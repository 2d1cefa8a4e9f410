-- ===== src/Exec.antt =====
-- Go functions that change state and return `(value, error)`. What was written before an error
-- stays written, so the state comes back beside the error too.
use gpt_load_fix.Prelude.{◌≡◌, refl, ℕ, ◌⊎◌, inl, inr}
use gpt_load_fix.Prelude.Text.{Text, bytes}
use gpt_load_fix.Prelude.Text.Decimal.{format_uint, format_int}
use gpt_load_fix.Prelude.Int.{ℤ}

-- The error values. Wrapping by %w is not modelled: `errors.Is` and the text that the program
-- looks for both see through it.
pub data Error : Type 0 where
  not_found count_unsupported no_active_keys : Error
  -- a PoolError with its code
  pool : Text → Error
  type_mismatch : Text → Error
  bad_number : Text → Error
  -- what the database returns, with its message
  database : Text → Error

pub data Result {ℓ} (A : Type ℓ) : Type ℓ where
  ok : A → Result A
  err : Error → Result A

-- To split on the outcome of a call and keep the equation.
pub Result-cases {ℓ} :
    {S : Type ℓ} (x : Result (Unit {ℓ}) × S)
    → (x ≡ (ok tt, x.1)) ⊎ ((e : Error) × (x ≡ (err e, x.1)))
Result-cases (ok a, s) = inl refl
Result-cases (err e, s) = inr (e, refl)

abbrev pub Exec {ℓ} : Type ℓ → Type ℓ → Type ℓ
Exec S A = S → Result A × S

module _ {ℓ} {S A : Type ℓ} where
  abbrev pub pure : A → Exec S A
  pure a s = (ok a, s)

  abbrev pub raise : Error → Exec S A
  raise e s = (err e, s)

module _ {ℓ} {S A B : Type ℓ} where
  abbrev pub continue : Result A × S → (A → Exec S B) → Result B × S
  continue (ok a, s) f = f a s
  continue (err e, s) f = (err e, s)

  infixl 5 ◌>>=◌ ◌>>◌
  abbrev pub ◌>>=◌ : Exec S A → (A → Exec S B) → Exec S B
  ◌>>=◌ m f s = continue (m s) f

  abbrev pub ◌>>◌ : Exec S A → Exec S B → Exec S B
  m >> n = m >>= λ _. n

-- `any`, as far as the program stores it, and fmt.Sprint of it.
pub data Any : Type 0 where
  text : Text → Any
  int : ℤ → Any
  uint : ℕ → Any
  nil : Any

unfoldable pub sprint : Any → Text
sprint (text t) = t
sprint (int z) = format_int z
sprint (uint n) = format_uint n
sprint nil = bytes "<nil>"
