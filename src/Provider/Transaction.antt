-- ===== src/Provider/Transaction.antt =====
-- Transactions and their retry (executeTransactionWithRetry in internal/keypool/provider.go). A
-- transaction that fails is rolled back in the database; what it did to the store stays done.
use gpt_load_fix.Prelude.{ℕ, zero, suc, Bool, false, if◌then◌else◌}
use gpt_load_fix.Prelude.Int.{ℤ}
use gpt_load_fix.Prelude.Text.{bytes, contains}
use gpt_load_fix.Exec.{Error, database, Result, ok, err, Exec}
use gpt_load_fix.Store.{Store}
use gpt_load_fix.Database.{Gorm}

-- What the provider works on. `clock` are the times that time.Now() will return, call by call.
pub record World (g : Gorm) : Type 0 where
  pub store : Store
  pub db : g.Db
  pub clock : ℕ → ℤ

-- strings.Contains(err.Error(), "database is locked")
unfoldable pub is_locked : Error → Bool
is_locked (database message) = contains message (bytes "database is locked")
is_locked _ = false

module _ (g : Gorm) where
  abbrev pub on_store : {A : Type 0} → Exec Store A → Exec (World g) A
  on_store m w = let (r, s) = m w.store in (r, record w { store = s })

  abbrev pub on_db : {A : Type 0} → Exec g.Db A → Exec (World g) A
  on_db m w = let (r, d) = m w.db in (r, record w { db = d })

  abbrev pub read_clock : Exec (World g) ℤ
  read_clock w = (ok (w.clock 0), record w { clock = λ n. w.clock (suc n) })

  abbrev pub committed :
      {A : Type 0} → A → World g → World g → Result (Unit {0}) × g.Db → Result A × World g
  committed a begin w (ok _, d) = (ok a, record w { db = d })
  committed a begin w (err e, d) = (err e, record w { db = g.rollback begin.db d })

  abbrev pub finish : {A : Type 0} → World g → Result A × World g → Result A × World g
  finish begin (ok a, w) = committed a begin w (g.commit w.db)
  finish begin (err e, w) = (err e, record w { db = g.rollback begin.db w.db })

  -- db.Transaction(op)
  unfoldable pub transaction : {A : Type 0} → Exec (World g) A → Exec (World g) A
  transaction op w = finish w (op w)

  abbrev pub after_attempt :
      Result (Unit {0}) × World g
      → (Error → World g → Result (Unit {0}) × World g)
      → Result (Unit {0}) × World g
  after_attempt (ok a, w) again = (ok a, w)
  after_attempt (err e, w) again = if is_locked e then again e w else (err e, w)

  -- The loop, with the rounds left and the value of `err`.
  unfoldable pub attempts :
      ℕ → Exec (World g) (Unit {0}) → Result (Unit {0}) → Exec (World g) (Unit {0})
  attempts zero op last w = (last, w)
  attempts (suc n) op last w = after_attempt (transaction op w) (λ e w'. attempts n op (err e) w')

  unfoldable pub execute_transaction_with_retry :
      Exec (World g) (Unit {0}) → Exec (World g) (Unit {0})
  execute_transaction_with_retry op = attempts 3 op (ok tt)

  -- A result that the code only logs, or drops.
  abbrev pub ignore : {A : Type 0} → Exec (World g) A → Exec (World g) (Unit {0})
  ignore m w = (ok tt, (m w).1)
