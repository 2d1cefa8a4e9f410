-- ===== src/Provider/Retry.antt =====
-- What holds after a transaction that may be tried up to three times (transaction and
-- executeTransactionWithRetry in internal/keypool/provider.go).
use gpt_load_fix.Prelude.{
  zero, suc, ◌≡◌, refl, ap, ◌∙◌, ◌⊎◌, Bool-cases, inl, inr, arith, subst, sym,
}
use gpt_load_fix.Exec.{Error, Result, ok, err, Exec}
use gpt_load_fix.Prelude.{ℕ, some, List}
use gpt_load_fix.Models.{ApiKey}
use gpt_load_fix.Database.{Gorm, Laws, Change, changes}
use gpt_load_fix.Provider.Transaction.{
  World, transaction, attempts, execute_transaction_with_retry, is_locked, after_attempt,
}

module _ (g : Gorm) where
  -- A transaction leaves in the store what its operation left there, and the clock too.
  pub transaction-store :
      {A : Type 0} (op : Exec (World g) A) (w : World g)
      → ((transaction g op w).1.store ≡ (op w).1.store)
  unfolding transaction
  transaction-store op w = ground arith

  -- One that succeeds ran its operation and committed.
  pub transaction-ok :
      {A : Type 0} (op : Exec (World g) A) (w w' : World g) (a : A)
      → transaction g op w ≡ (ok a, w')
      → (w1 : World g) × (op w ≡ (ok a, w1))
        × (g.commit w1.db ≡ (ok tt, w'.db))
        × (w'.store ≡ w1.store)
  unfolding transaction
  transaction-ok op w w' a h = ((op w).1, ground arith, ground arith, ground arith)

  abbrev undone : {A : Type 0} → Result A × World g → g.Db
  undone (ok a, w) = (g.commit w.db).1
  undone (err e, w) = w.db

  -- One that fails was rolled back.
  transaction-err :
      {A : Type 0} (op : Exec (World g) A) (w w' : World g) (e : Error)
      → transaction g op w ≡ (err e, w')
      → w'.db ≡ g.rollback w.db (undone (op w))
  unfolding transaction
  transaction-err op w w' e h = ground arith

  pub transaction-rows :
      (laws : Laws g) {A : Type 0} (op : Exec (World g) A) (w w' : World g) (e : Error)
      → transaction g op w ≡ (err e, w')
      → (j : ℕ) → g.row w'.db j ≡ g.row w.db j
  transaction-rows laws op w w' e h j =
      ap (λ d. g.row d j) (transaction-err op w w' e h)
      ∙ laws.rollback_restores w.db (undone (op w)) j

  -- What a row that was locked and changed is after the commit.
  pub row_updated :
      (laws : Laws g) (id : ℕ) (cs : List Change) (d d1 d2 d3 : g.Db) (k : ApiKey)
      → g.first id d ≡ (ok k, d1)
      → g.updates id cs d1 ≡ (ok tt, d2)
      → g.commit d2 ≡ (ok tt, d3)
      → g.row d3 id ≡ some (changes cs k)
  row_updated laws id cs d d1 d2 d3 k found updated kept = ground (
    arith,
    laws.commit_keeps d2 d3 kept id,
    laws.updates-row id cs d1 d2 updated id,
    laws.first_keeps id d d1 k found id,
    laws.first-row id d d1 k found,
  )

  -- One attempt: it succeeds, or it fails and may be followed by others.
  attempts-suc :
      (n : ℕ) (op : Exec (World g) (Unit {0})) (last : Result (Unit {0})) (w w' : World g)
      → attempts g (suc n) op last w ≡ (ok tt, w')
      → (transaction g op w ≡ (ok tt, w'))
        ⊎ ((e : Error) × (transaction g op w ≡ (err e, (transaction g op w).1))
            × (attempts g n op (err e) (transaction g op w).1 ≡ (ok tt, w')))
  unfolding attempts
  attempts-suc n op last w w' h = after (transaction g op w) refl h
    where
      after :
          (r : Result (Unit {0}) × World g)
          → transaction g op w ≡ r
          → after_attempt g r (λ e w1. attempts g n op (err e) w1) ≡ (ok tt, w')
          → (transaction g op w ≡ (ok tt, w'))
            ⊎ ((e : Error) × (transaction g op w ≡ (err e, (transaction g op w).1))
                × (attempts g n op (err e) (transaction g op w).1 ≡ (ok tt, w')))
      after (ok a, w1) q p = inl (cc)
      after (err e, w1) q p = elim (Bool-cases (is_locked e)) [
        | inl locked ↦ inr (
          e,
          cc,
          subst (λ w2. attempts g n op (err e) w2 ≡ (ok tt, w')) (ap (λ x. x.1) (sym q))
              (rw locked at p),
        )
        | inr fatal ↦ absurd (cc)
      ]

  module _ {ℓ κ} (op : Exec (World g) (Unit {0})) (I : World g → Type ℓ) (Q : World g → Type κ)
      (keep : (w w' : World g) (e : Error) → I w → transaction g op w ≡ (err e, w') → I w')
      (finish : (w w' : World g) → I w → transaction g op w ≡ (ok tt, w') → Q w') where
    attempts_rule :
        (n : ℕ) (e : Error) (w w' : World g) → I w → attempts g n op (err e) w ≡ (ok tt, w') → Q w'
    unfolding attempts
    attempts_rule zero e w w' i h = absurd (cc)
    attempts_rule (suc n) e w w' i h = elim (attempts-suc n op (err e) w w' h) [
      | inl done ↦ finish w w' i done
      | inr (e', failed, rest) ↦
          attempts_rule n e' (transaction g op w).1 w' (keep w _ e' i failed) rest
    ]

    -- An invariant of the failures gives the result of the success.
    pub retry_rule :
        (w w' : World g) → I w → execute_transaction_with_retry g op w ≡ (ok tt, w') → Q w'
    unfolding execute_transaction_with_retry
    retry_rule w w' i h = elim (attempts-suc 2 op (ok tt) w w' h) [
      | inl done ↦ finish w w' i done
      | inr (e', failed, rest) ↦
          attempts_rule 2 e' (transaction g op w).1 w' (keep w _ e' i failed) rest
    ]
