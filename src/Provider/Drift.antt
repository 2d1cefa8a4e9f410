-- ===== src/Provider/Drift.antt =====
-- What a retried transaction does twice (executeTransactionWithRetry in
-- internal/keypool/provider.go): the database takes the first attempt back, the store does not.
use gpt_load_fix.Prelude.{ℕ, ◌≡◌, ap, ◌∙◌, true, false, ◌∷◌, arith}
use gpt_load_fix.Prelude.Int.{ℤ, pos, add64}
use gpt_load_fix.Prelude.Text.{Text, text_eq, bytes}
use gpt_load_fix.Prelude.Text.Decimal.{format_uint}
use gpt_load_fix.Exec.{Error, ok, err, Exec}
use gpt_load_fix.Models.{ApiKey}
use gpt_load_fix.Database.{Gorm}
use gpt_load_fix.Store.Hashes.{number_of}
use gpt_load_fix.Provider.Transaction.{
  World, transaction, attempts, execute_transaction_with_retry, is_locked,
}
use gpt_load_fix.Provider.Handlers.{failure_operation, should_blacklist}
use gpt_load_fix.Provider.Recovery.{recover_operation, recover_single_key}
use gpt_load_fix.Provider.Names.{active_keys_key}
use gpt_load_fix.Provider.Views.{details, served}
use gpt_load_fix.Provider.Revived.{store_after}
use gpt_load_fix.Provider.Punished.{counted_once}
use gpt_load_fix.Provider.Retry.{transaction-ok}

-- The world after a first attempt that ran from `w` to `w1` and could not be committed.
abbrev pub rolled_back : (g : Gorm) → World g → World g → World g
rolled_back g w w1 = record w1 { db = g.rollback w.db (g.commit w1.db).1 }

module _ (g : Gorm) (op : Exec (World g) (Unit {0})) (w w1 w3 : World g) (e : Error) where
  first_attempt :
      op w ≡ (ok tt, w1)
      → g.commit w1.db ≡ (err e, (g.commit w1.db).1)
      → transaction g op w ≡ (err e, rolled_back g w w1)
  unfolding transaction
  first_attempt ran failed = ground (arith, ran, failed)

  second_attempt :
      op w ≡ (ok tt, w1)
      → g.commit w1.db ≡ (err e, (g.commit w1.db).1)
      → is_locked e ≡ true
      → transaction g op (rolled_back g w w1) ≡ (ok tt, w3)
      → execute_transaction_with_retry g op w ≡ (ok tt, w3)
  unfolding execute_transaction_with_retry attempts
  second_attempt ran failed locked again = ground (arith, first_attempt ran failed, locked, again)

-- If the first attempt to recover a key runs and its commit fails because the database is locked,
-- and the second attempt succeeds, the key stands twice more on the list of its group.
pub recovered_twice :
    (g : Gorm) (key : ApiKey) (w w1 w3 : World g) (e : Error)
    → recover_operation g key w ≡ (ok tt, w1)
    → g.commit w1.db ≡ (err e, (g.commit w1.db).1)
    → is_locked e ≡ true
    → transaction g (recover_operation g key) (rolled_back g w w1) ≡ (ok tt, w3)
    → (recover_single_key g key w ≡ (ok tt, w3))
      × (served w3.store (active_keys_key key.group_id)
          ≡ format_uint key.id ∷ format_uint key.id ∷ served w.store (active_keys_key key.group_id))
unfolding recover_single_key
recovered_twice g key w w1 w3 e ran failed locked again =
    let op = recover_operation g key in
    let (w2, ran', kept, same) = transaction-ok g op (rolled_back g w w1) w3 tt again in
    (
      second_attempt g op w w1 w3 e ran failed locked again,
      ap (λ s. served s (active_keys_key key.group_id)) same
          ∙ (store_after g key (rolled_back g w w1) w2 ran').1
          ∙ ap (λ xs. format_uint key.id ∷ xs) (store_after g key w w1 ran).1,
    )

-- If the first attempt to record a failure below the threshold runs and its commit fails because
-- the database is locked, and the second attempt succeeds, the hash has counted two failures.
pub failure_counted_twice :
    (g : Gorm) (id : ℕ) (threshold n : ℤ) (hash_key list_key : Text) (w w1 w3 : World g) (e : Error)
    → should_blacklist threshold n ≡ false
    → failure_operation g id threshold hash_key list_key n w ≡ (ok tt, w1)
    → g.commit w1.db ≡ (err e, (g.commit w1.db).1)
    → is_locked e ≡ true
    → transaction g (failure_operation g id threshold hash_key list_key n) (rolled_back g w w1)
      ≡ (ok tt, w3)
    → (execute_transaction_with_retry g (failure_operation g id threshold hash_key list_key n) w
        ≡ (ok tt, w3))
      × (number_of (details w3.store hash_key) (bytes "failure_count")
          ≡ add64
              (add64 (number_of (details w.store hash_key) (bytes "failure_count")) (pos 1))
              (pos 1))
failure_counted_twice g id threshold n hash_key list_key w w1 w3 e b ran failed locked again =
    let op = failure_operation g id threshold hash_key list_key n in
    let (w2, ran', kept, same) = transaction-ok g op (rolled_back g w w1) w3 tt again in
    (
      second_attempt g op w w1 w3 e ran failed locked again,
      ap (λ s. number_of (details s hash_key) (bytes "failure_count")) same
          ∙ counted_once g id threshold hash_key list_key n (rolled_back g w w1) w2 b ran'
          ∙ ap (λ c. add64 c (pos 1)) (counted_once g id threshold hash_key list_key n w w1 b ran),
    )
