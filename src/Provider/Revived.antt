-- ===== src/Provider/Revived.antt =====
-- A rate-limited key whose time is over (recoverSingleKey in internal/keypool/provider.go).
use mathlib.Core.Option
use gpt_load_fix.Prelude.{
  some, Option, ℕ, zero, suc, ◌+◌, ◌≡◌, refl, ap, ◌∙◌, sym, none, List, [], ◌∷◌, arith, inl, inr,
}
use gpt_load_fix.Prelude.Dict.{Dict}
use gpt_load_fix.Prelude.Text.{Text, text_eq, bytes}
use gpt_load_fix.Prelude.Text.Decimal.{format_uint}
use gpt_load_fix.Exec.{Error, Result, ok, err, Any, text, uint, sprint, Result-cases}
use gpt_load_fix.Models.{ApiKey, active}
use gpt_load_fix.Database.{Gorm, Laws, Change, update_row}
use gpt_load_fix.Store.{Store}
use gpt_load_fix.Store.Lists.{l_push}
use gpt_load_fix.Store.Hashes.{h_set, fill, field_of, field_of-put}
use gpt_load_fix.Provider.Transaction.{World, transaction}
use gpt_load_fix.Provider.Retry.{transaction-ok, transaction-store, transaction-rows, retry_rule}
use gpt_load_fix.Provider.Recovery.{recover_operation, recover_single_key}
use gpt_load_fix.Provider.Names.{key_hash_key, active_keys_key, key_hash_key-ne-active_keys_key}
use gpt_load_fix.Provider.Views.{
  details, served, served-h_set, served-l_push, l_push_fails, details-h_set, details-l_push,
}

-- `n` more entries in front.
abbrev pub repeated : ℕ → Text → List Text → List Text
repeated zero x xs = xs
repeated (suc n) x xs = x ∷ repeated n x xs

repeated-repeated :
    (m n : ℕ) (x : Text) (xs : List Text) → repeated m x (repeated n x xs) ≡ repeated (m + n) x xs
repeated-repeated zero n x xs = ap (λ k. repeated k x xs) (omega arith)
repeated-repeated (suc m) n x xs =
    ap (λ l. x ∷ l) (repeated-repeated m n x xs)
    ∙ ap (λ k. repeated k x xs) {x = suc (m + n)} {y = suc m + n} (omega arith)

module _ (g : Gorm) (key : ApiKey) where
  abbrev hash_key : Text
  hash_key = key_hash_key key.id

  abbrev list_key : Text
  list_key = active_keys_key key.group_id

  abbrev active_status : List (Text × Any)
  active_status = (bytes "status", text active) ∷ []

  abbrev pub recover_changes : List Change
  recover_changes = Change.status active ∷ Change.rate_limit_reset_at none ∷ []

  abbrev revived_row : ApiKey → ApiKey
  revived_row k = record k { status = active; rate_limit_reset_at = none }

  revived : (o : Option ApiKey) → update_row recover_changes o ≡ Option.map revived_row o
  revived none = refl
  revived (some k) = refl

  abbrev stored : World g → Result (Unit {0}) × Store
  stored w = h_set hash_key active_status w.store

  pub operation_parts :
      (w w' : World g)
      → recover_operation g key w ≡ (ok tt, w')
      → (g.updates key.id recover_changes w.db ≡ (ok tt, w'.db))
        × (stored w ≡ (ok tt, (stored w).1))
        × (l_push list_key (uint key.id ∷ []) (stored w).1 ≡ (ok tt, w'.store))
  unfolding recover_operation
  operation_parts w w' h = (ground (arith, h), ground (arith, h), ground (arith, h))

  put_active : (d : Dict Text Text) → field_of (fill d active_status) (bytes "status") ≡ active
  unfolding fill sprint
  put_active d = field_of-put d (bytes "status") (bytes "status") active

  pub store_after :
      (w w' : World g)
      → recover_operation g key w ≡ (ok tt, w')
      → (field_of (details w'.store hash_key) (bytes "status") ≡ active)
        × (served w'.store list_key ≡ format_uint key.id ∷ served w.store list_key)
  unfolding sprint
  store_after w w' h =
      let (updated, set, pushed) = operation_parts w w' h in
      let ne = key_hash_key-ne-active_keys_key key.id key.group_id in
      (
        ap (λ (x : Result (Unit {0}) × Store). field_of (details x.1 hash_key) (bytes "status"))
              (sym pushed)
            ∙ ap (λ d. field_of d (bytes "status"))
                (details-l_push (stored w).1 list_key hash_key (λ q. ne (sym q)) (uint key.id ∷ [])
                  ∙ details-h_set w.store hash_key active_status _ set)
            ∙ put_active (details w.store hash_key),
        served-l_push (stored w).1 list_key (uint key.id ∷ []) w'.store pushed
            ∙ ap (λ xs. format_uint key.id ∷ xs)
                (served-h_set w.store hash_key list_key ne active_status),
      )

  abbrev Grown : List Text → List Text → Type 0
  Grown xs ys = (m : ℕ) × (ys ≡ repeated m (format_uint key.id) xs)

  pushed_some :
      (s : Store)
      → Grown (served s list_key) (served (l_push list_key (uint key.id ∷ []) s).1 list_key)
  unfolding sprint
  pushed_some s = elim (Result-cases (l_push list_key (uint key.id ∷ []) s)) [
    | inl done ↦ (1, served-l_push s list_key (uint key.id ∷ []) _ done)
    | inr (e, failed) ↦
        (0, ap (λ t. served t list_key) (l_push_fails s list_key (uint key.id ∷ []) _ e failed))
  ]

  operation_grows :
      (w : World g) (r : Result (Unit {0}) × g.Db)
      → g.updates key.id recover_changes w.db ≡ r
      → Grown (served w.store list_key) (served (recover_operation g key w).1.store list_key)
  unfolding recover_operation
  operation_grows w (err x, d) e = (0, ground (arith, e))
  operation_grows w (ok u, d) e =
      let kept =
        served-h_set w.store hash_key list_key (key_hash_key-ne-active_keys_key key.id key.group_id)
          active_status in
      elim (Result-cases (stored w)) [
        | inl set ↦
            let (m, p) = pushed_some (stored w).1 in
            (m, ground (arith, e, set) ∙ p ∙ ap (repeated m (format_uint key.id)) kept)
        | inr (x, failed) ↦ (0, ground (arith, e, failed, kept))
      ]

  -- What is to be true of the world after the call, from the one before it.
  abbrev pub IsRevived : World g → World g → Type 0
  IsRevived w w' =
      (field_of (details w'.store hash_key) (bytes "status") ≡ active)
      × ((m : ℕ) × (served w'.store list_key
            ≡ repeated (suc m) (format_uint key.id) (served w.store list_key)))
      × (g.row w'.db key.id ≡ Option.map revived_row (g.row w.db key.id))

  abbrev Kept : World g → World g → Type 0
  Kept w w1 =
      Grown (served w.store list_key) (served w1.store list_key)
      × ((j : ℕ) → g.row w1.db j ≡ g.row w.db j)

  module _ (laws : Laws g) where
    committed_once :
        (w w1 w' : World g)
        → Kept w w1
        → transaction g (recover_operation g key) w1 ≡ (ok tt, w')
        → IsRevived w w'
    committed_once w w1 w' ((m, grown), rows) h =
        let (w2, ran, kept, same) = transaction-ok g (recover_operation g key) w1 w' tt h in
        let (status, list) = store_after w1 w2 ran in
        (
          ap (λ s. field_of (details s hash_key) (bytes "status")) same ∙ status,
          (m, ap (λ s. served s list_key) same ∙ list ∙ ap (λ xs. format_uint key.id ∷ xs) grown),
          ground (
            arith,
            laws.commit_keeps w2.db w'.db kept key.id,
            laws.updates-row key.id _ w1.db w2.db (operation_parts w1 w2 ran).0 key.id,
            rows key.id,
            revived (g.row w.db key.id),
          ),
        )

    Kept-again :
        (w w1 w2 : World g) (e : Error)
        → Kept w w1
        → transaction g (recover_operation g key) w1 ≡ (err e, w2)
        → Kept w w2
    Kept-again w w1 w2 e ((m, grown), rows) h =
        let (n, more) = operation_grows w1 (g.updates key.id recover_changes w1.db) refl in
        let same : w2.store ≡ (recover_operation g key w1).1.store =
          ap (λ (x : Result (Unit {0}) × World g). x.1.store) (sym h)
          ∙ transaction-store g (recover_operation g key) w1 in
        (
          (
            n + m,
            ap (λ s. served s list_key) same
                ∙ more
                ∙ ap (repeated n (format_uint key.id)) grown
                ∙ repeated-repeated n m (format_uint key.id) (served w.store list_key),
          ),
          λ j. transaction-rows g laws _ w1 w2 e h j ∙ rows j,
        )

-- A recovery that ended without an error, on whichever of the three attempts: the hash of the key
-- has the status `active`; its row, if there is one, has that status and no time of a reset; and the
-- list of its group has the key in front, at least once, with all its former entries after it.
pub recover_single_key_revives :
    (g : Gorm) (laws : Laws g) (key : ApiKey) (w w' : World g)
    → recover_single_key g key w ≡ (ok tt, w')
    → IsRevived g key w w'
unfolding recover_single_key
recover_single_key_revives g laws key w w' h =
    retry_rule g (recover_operation g key) (Kept g key w) (IsRevived g key w)
      (λ w1 w2 e k r. Kept-again g key laws w w1 w2 e k r)
      (λ w1 w2 k r. committed_once g key laws w w1 w2 k r) w w' ((0, refl), λ j. refl) h
