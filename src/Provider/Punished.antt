-- ===== src/Provider/Punished.antt =====
-- A key that failed (handleFailure in internal/keypool/provider.go).
use gpt_load_fix.Prelude.{
  ◌↔◌, ℕ, ◌≡◌, ◌≢◌, refl, ap, ◌∙◌, sym, Bool, true, false, some, List, [], ◌∷◌, if◌then◌else◌,
  arith, Bool-cases, inl, inr, without, without_idem,
}
use gpt_load_fix.Prelude.Dict.{Dict}
use gpt_load_fix.Prelude.Int.{◌≤ℤ◌, ℤ, pos, add64}
use gpt_load_fix.Prelude.Text.{Text, text_eq, bytes}
use gpt_load_fix.Prelude.Text.Decimal.{format_uint}
use gpt_load_fix.Exec.{Error, Result, ok, err, Exec, Any, text, uint, sprint}
use gpt_load_fix.Models.{ApiKey, Group, invalid}
use gpt_load_fix.Database.{Gorm, Laws, changes}
use gpt_load_fix.Store.{Store}
use gpt_load_fix.Store.Lists.{l_rem}
use gpt_load_fix.Store.Hashes.{h_set, h_incr_by, fill, field_of, number_of, field_of-put}
use gpt_load_fix.Store.Counters.{number_of-increment}
use gpt_load_fix.Provider.Transaction.{World, transaction, execute_transaction_with_retry}
use gpt_load_fix.Provider.Retry.{
  transaction-ok, transaction-store, transaction-rows, row_updated, retry_rule,
}
use gpt_load_fix.Provider.Handlers.{
  failure_operation, blacklist, failure_changes, handle_failure, is_invalid, should_blacklist,
}
use gpt_load_fix.Provider.Names.{key_hash_key, active_keys_key, key_hash_key-ne-active_keys_key}
use gpt_load_fix.Provider.Views.{
  details, served, served-h_set, served-l_rem, served-h_incr_by, field-h_incr_by, details-h_incr_by,
  details-h_set,
}
use gpt_load_fix.Provider.Steps.{read-stop, read-go}

module _ (g : Gorm) (id : ℕ) (threshold : ℤ) (hash_key list_key : Text) (n : ℤ) where
  abbrev counted : World g → Result ℤ × Store
  counted w = h_incr_by hash_key (bytes "failure_count") (pos 1) w.store

  abbrev invalid_status : List (Text × Any)
  invalid_status = (bytes "status", text invalid) ∷ []

  abbrev number_in : Result ℤ → ℤ
  number_in (ok c) = c
  number_in (err e) = pos 0

  -- The list, but for this key if it is blacklisted.
  abbrev others : Bool → List Text → List Text
  others true xs = without (format_uint id) xs
  others false xs = xs

  abbrev Unlisted : Bool → Store → Store → Type 0
  Unlisted true s s' =
      (h_set hash_key invalid_status (l_rem list_key 0 (uint id) s).1 ≡ (ok tt, s'))
  Unlisted false s s' = s' ≡ s

  operation : Exec (World g) (Unit {0})
  operation = failure_operation g id threshold hash_key list_key n

  parts_from :
      (black : Bool) (w w' : World g) (r : Result ApiKey × g.Db)
      → should_blacklist threshold n ≡ black
      → g.first id w.db ≡ r
      → operation w ≡ (ok tt, w')
      → (key : ApiKey) × (d : g.Db) × (g.first id w.db ≡ (ok key, d))
        × (g.updates id (failure_changes black n) d ≡ (ok tt, w'.db))
        × (counted w ≡ (ok (number_in (counted w).0), (counted w).1))
        × Unlisted black (counted w).1 w'.store
  unfolding operation failure_operation blacklist
  parts_from true w w' (ok key, d) b e h =
      (key, d, e, ground (arith, b, e, h), ground (arith, b, e, h), ground (arith, b, e, h))
  parts_from false w w' (ok key, d) b e h =
      (key, d, e, ground (arith, b, e, h), ground (arith, b, e, h), ground (arith, b, e, h))
  parts_from black w w' (err x, d) b e h = absurd (ground (arith, e, h))

  -- An attempt below the threshold counts one failure in the hash.
  pub counted_once :
      (w w' : World g)
      → should_blacklist threshold n ≡ false
      → failure_operation g id threshold hash_key list_key n w ≡ (ok tt, w')
      → number_of (details w'.store hash_key) (bytes "failure_count")
        ≡ add64 (number_of (details w.store hash_key) (bytes "failure_count")) (pos 1)
  unfolding operation
  counted_once w w' b h =
      let (key, d, found, updated, counts, left) =
        parts_from false w w' (g.first id w.db) b refl h in
      ap (λ s. number_of (details s hash_key) (bytes "failure_count")) left
      ∙ ap (λ d. number_of d (bytes "failure_count"))
          (details-h_incr_by w.store hash_key (bytes "failure_count") (pos 1) _ _ counts)
      ∙ number_of-increment (details w.store hash_key) (bytes "failure_count") (pos 1) (omega arith)

  -- What is to be true of the world after the call, from the one before it.
  abbrev punished_row : Bool → ApiKey → ApiKey
  punished_row black k = record k {
    failure_count = n;
    status = if black then invalid else k.status;
  }

  punished :
      (black : Bool) (k : ApiKey) → changes (failure_changes black n) k ≡ punished_row black k
  punished true k = refl
  punished false k = refl

  abbrev pub IsPunished : Bool → World g → World g → Type 0
  IsPunished black w w' =
      (field_of (details w'.store hash_key) (bytes "status")
        ≡ (if black then invalid else field_of (details w.store hash_key) (bytes "status")))
      × (served w'.store list_key ≡ others black (served w.store list_key))
      × (k : ApiKey) × (g.row w.db id ≡ some k)
      × (g.row w'.db id ≡ some (punished_row black k))

  module _ (ne : hash_key ≢ list_key) (ne' : list_key ≢ hash_key) where
    operation_from :
        (black : Bool) (w : World g) (r : Result ApiKey × g.Db)
        → should_blacklist threshold n ≡ black
        → g.first id w.db ≡ r
        → others black (served (operation w).1.store list_key)
          ≡ others black (served w.store list_key)
    unfolding operation failure_operation blacklist sprint
    operation_from true w r b e = ground (
      arith,
      b,
      e,
      served-h_incr_by w.store hash_key list_key ne (bytes "failure_count") (pos 1),
      served-l_rem (counted w).1 list_key (uint id),
      served-h_set (l_rem list_key 0 (uint id) (counted w).1).1 hash_key list_key ne invalid_status,
      without_idem (format_uint id) (served w.store list_key),
    )
    operation_from false w r b e =
        ground (
          arith,
          b,
          e,
          served-h_incr_by w.store hash_key list_key ne (bytes "failure_count") (pos 1),
        )

    abbrev status_of : Store → Text
    status_of s = field_of (details s hash_key) (bytes "status")

    counted-status : (w : World g) → status_of (counted w).1 ≡ status_of w.store
    counted-status w =
        field-h_incr_by w.store hash_key (bytes "failure_count") (bytes "status") (pos 1)
          (λ q. absurd (omega (arith, ap head q)))
      where
        head : Text → ℕ
        head [] = 0
        head (c ∷ t) = c

    status_from :
        (w : World g)
        → should_blacklist threshold n ≡ false
        → status_of (operation w).1.store ≡ status_of w.store
    unfolding operation failure_operation
    status_from w b = ground (arith, b, counted-status w)

    abbrev StatusKept : Bool → Store → Store → Type 0
    StatusKept true s s1 = Unit
    StatusKept false s s1 = status_of s1 ≡ status_of s

    abbrev Kept : Bool → World g → World g → Type 0
    Kept black w w1 =
        (others black (served w1.store list_key) ≡ others black (served w.store list_key))
        × StatusKept black w.store w1.store
        × ((j : ℕ) → g.row w1.db j ≡ g.row w.db j)

    put_invalid : (d : Dict Text Text) → field_of (fill d invalid_status) (bytes "status") ≡ invalid
    unfolding fill sprint
    put_invalid d = field_of-put d (bytes "status") (bytes "status") invalid

    store_after :
        (black : Bool) (w : World g) (s : Store)
        → Unlisted black (counted w).1 s
        → (status_of s ≡ (if black then invalid else status_of w.store))
          × (served s list_key ≡ others black (served w.store list_key))
    unfolding sprint
    store_after true w s e =
        let s1 = (counted w).1 in
        let s2 = (l_rem list_key 0 (uint id) s1).1 in
        (
          ap (λ d. field_of d (bytes "status")) (details-h_set s2 hash_key invalid_status s e)
              ∙ put_invalid (details s2 hash_key),
          ap (λ (x : Result (Unit {0}) × Store). served x.1 list_key) (sym e)
              ∙ served-h_set s2 hash_key list_key ne invalid_status
              ∙ served-l_rem s1 list_key (uint id)
              ∙ ap (without (format_uint id))
                  (served-h_incr_by w.store hash_key list_key ne (bytes "failure_count") (pos 1)),
        )
    store_after false w s e = (
      ap status_of e ∙ counted-status w,
      ap (λ t. served t list_key) e
          ∙ served-h_incr_by w.store hash_key list_key ne (bytes "failure_count") (pos 1),
    )

    module _ (laws : Laws g) (black : Bool) (b : should_blacklist threshold n ≡ black) where
      committed_once :
          (w w' : World g) → transaction g operation w ≡ (ok tt, w') → IsPunished black w w'
      committed_once w w' h =
          let (w1, ran, kept, same) = transaction-ok g operation w w' tt h in
          let (key, d, found, updated, set, left) =
            parts_from black w w1 (g.first id w.db) b refl ran in
          let (status, list) = store_after black w w1.store left in
          (
            ap status_of same ∙ status,
            ap (λ s. served s list_key) same ∙ list,
            key,
            laws.first-row id w.db d key found,
            row_updated g laws id _ w.db d w1.db w'.db key found updated kept
                ∙ ap some (punished black key),
          )

      status_again :
          (x : Bool) (w w1 w2 : World g)
          → should_blacklist threshold n ≡ x
          → w2.store ≡ (operation w1).1.store
          → StatusKept x w.store w1.store
          → StatusKept x w.store w2.store
      status_again true w w1 w2 e same k = tt
      status_again false w w1 w2 e same k = ap status_of same ∙ status_from w1 e ∙ k

      Kept-again :
          (w w1 w2 : World g) (e : Error)
          → Kept black w w1
          → transaction g operation w1 ≡ (err e, w2)
          → Kept black w w2
      Kept-again w w1 w2 e k h =
          let same : w2.store ≡ (operation w1).1.store =
            ap (λ (x : Result (Unit {0}) × World g). x.1.store) (sym h)
            ∙ transaction-store g operation w1 in
          (
            ap (λ s. others black (served s list_key)) same
                ∙ operation_from black w1 (g.first id w1.db) b refl
                ∙ k.0,
            status_again black w w1 w2 b same k.1,
            λ j. transaction-rows g laws operation w1 w2 e h j ∙ k.2 j,
          )

      start : (x : Bool) (s : Store) → StatusKept x s s
      start true s = tt
      start false s = refl

      expected :
          (x : Bool) (w w1 : World g)
          → StatusKept x w.store w1.store
          → (if x then invalid else status_of w1.store) ≡ (if x then invalid else status_of w.store)
      expected true w w1 k = refl
      expected false w w1 k = k

      retried :
          (w w' : World g)
          → execute_transaction_with_retry g operation w ≡ (ok tt, w')
          → IsPunished black w w'
      retried w w' h =
          retry_rule g operation (Kept black w) (IsPunished black w)
            (λ w1 w2 e k r. Kept-again w w1 w2 e k r)
            (λ w1 w2 k r. from_first w w1 w2 k (committed_once w1 w2 r)) w w'
            (refl, start black w.store, λ j. refl) h
        where
          from_first :
              (w w1 w2 : World g) → Kept black w w1 → IsPunished black w1 w2 → IsPunished black w w2
          from_first w w1 w2 k (status, list, key, before, after) =
              (status ∙ expected black w w1 k.1, list ∙ k.0, key, sym (k.2 id) ∙ before, after)

reached :
    (threshold n : ℤ)
    → (should_blacklist threshold n ≡ true) ↔ ((pos 1 ≤ℤ threshold) × (threshold ≤ℤ n))
unfolding should_blacklist
reached threshold n = ground arith

-- A failure that was recorded without an error, on whichever of the three attempts: a key that is
-- invalid is left alone, with all the rest. For any other, its row has the failures that the hash
-- counted, and one more. If the threshold is positive and that number has reached it, the row and
-- the hash have the status `invalid` and the key is gone from the list of its group, whose other
-- entries stand as they did; if not, both have the status that they had and the list is unchanged.
pub handle_failure_punishes :
    (g : Gorm) (laws : Laws g) (api_key : ApiKey) (group : Group) (w w' : World g)
    → handle_failure g api_key group (key_hash_key api_key.id) (active_keys_key group.id) w
      ≡ (ok tt, w')
    → let d = details w.store (key_hash_key api_key.id) in
      let n = add64 (number_of d (bytes "failure_count")) (pos 1) in
      if is_invalid d
      then w' ≡ w
      else (black : Bool) × ((black ≡ true)
          ↔ ((pos 1 ≤ℤ group.blacklist_threshold) × (group.blacklist_threshold ≤ℤ n)))
        × IsPunished g api_key.id group.blacklist_threshold
            (key_hash_key api_key.id)
            (active_keys_key group.id)
            n
            black
            w
            w'
unfolding handle_failure
handle_failure_punishes g laws api_key group w w' h =
    let hk = key_hash_key api_key.id in
    let lk = active_keys_key group.id in
    let next = λ (d : Dict Text Text). add64 (number_of d (bytes "failure_count")) (pos 1) in
    let m = λ (d : Dict Text Text).
      execute_transaction_with_retry g
        (failure_operation g api_key.id group.blacklist_threshold hk lk (next d)) in
    let ne = key_hash_key-ne-active_keys_key api_key.id group.id in
    elim (Bool-cases (is_invalid (details w.store hk))) [
      | inl bad ↦ rw bad (read-stop g hk is_invalid m w w' h bad)
      | inr fine ↦ rw fine (
        should_blacklist group.blacklist_threshold (next (details w.store hk)),
        reached group.blacklist_threshold (next (details w.store hk)),
        retried g api_key.id group.blacklist_threshold hk lk (next (details w.store hk)) ne
            (λ q. ne (sym q)) laws
            (should_blacklist group.blacklist_threshold (next (details w.store hk))) refl w w'
            (unfold operation in read-go g hk is_invalid m w w' h fine),
      )
    ]
