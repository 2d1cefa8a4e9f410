-- ===== src/Provider/Recovered.antt =====
-- A key that was answered well (handleSuccess in internal/keypool/provider.go).
use gpt_load_fix.Prelude.{
  ℕ, ◌≡◌, ◌≢◌, refl, ap, ◌∙◌, sym, Bool, true, false, ◌&&◌, some, List, [], ◌∷◌, ◌=?◌, =?_iff,
  =?_refl, if◌then◌else◌, arith, Bool-cases, inl, inr, without, without_idem,
}
use gpt_load_fix.Prelude.Dict
use gpt_load_fix.Prelude.Dict.{Dict}
use gpt_load_fix.Prelude.Int.{pos}
use gpt_load_fix.Prelude.Text.{Text, text_eq, bytes}
use gpt_load_fix.Prelude.Text.Decimal.{format_uint, parse_int, format_int}
use gpt_load_fix.Exec.{Error, Result, ok, err, text, int, uint, sprint, Result-cases}
use gpt_load_fix.Models.{ApiKey, active}
use gpt_load_fix.Database.{Gorm, Laws, changes}
use gpt_load_fix.Store.{Store}
use gpt_load_fix.Store.Lists.{l_rem, l_push}
use gpt_load_fix.Store.Hashes.{h_set, fill, field_of, number_of, field_of-put}
use gpt_load_fix.Provider.Transaction.{World, transaction, execute_transaction_with_retry}
use gpt_load_fix.Provider.Retry.{
  transaction-ok, transaction-store, transaction-rows, row_updated, retry_rule,
}
use gpt_load_fix.Provider.Handlers.{
  success_operation, restore_to_list, success_changes, success_fields, handle_success, is_active,
  is_zero,
}
use gpt_load_fix.Provider.Names.{key_hash_key, active_keys_key, key_hash_key-ne-active_keys_key}
use gpt_load_fix.Provider.Views.{
  details, served, served-h_set, served-l_rem, served-l_push, l_push_fails, h_set_fails,
  details-h_set, details-l_rem, details-l_push,
}
use gpt_load_fix.Provider.Steps.{read-stop, read-go}

module _ (g : Gorm) (id : ℕ) (hash_key list_key : Text) where
  abbrev recorded : Bool → World g → Result (Unit {0}) × Store
  recorded act w = h_set hash_key (success_fields act) w.store

  -- The list without this key, where the call brings the key back.
  abbrev others : Bool → List Text → List Text
  others true xs = xs
  others false xs = without (format_uint id) xs

  abbrev list_after : Bool → List Text → List Text
  list_after true xs = xs
  list_after false xs = format_uint id ∷ without (format_uint id) xs

  abbrev Relisted : Bool → Store → Store → Type 0
  Relisted true s s' = s' ≡ s
  Relisted false s s' =
      l_push list_key (uint id ∷ []) (l_rem list_key 0 (uint id) s).1 ≡ (ok tt, s')

  parts_from :
      (act : Bool) (w w' : World g) (r : Result ApiKey × g.Db)
      → g.first id w.db ≡ r
      → success_operation g id hash_key list_key act w ≡ (ok tt, w')
      → (key : ApiKey) × (d : g.Db) × (g.first id w.db ≡ (ok key, d))
        × (g.updates id (success_changes act) d ≡ (ok tt, w'.db))
        × (recorded act w ≡ (ok tt, (recorded act w).1))
        × Relisted act (recorded act w).1 w'.store
  unfolding success_operation restore_to_list
  parts_from true w w' (ok key, d) e h =
      (key, d, e, ground (arith, e, h), ground (arith, e, h), ground (arith, e, h))
  parts_from false w w' (ok key, d) e h =
      (key, d, e, ground (arith, e, h), ground (arith, e, h), ground (arith, e, h))
  parts_from true w w' (err x, d) e h = absurd (ground (arith, e, h))
  parts_from false w w' (err x, d) e h = absurd (ground (arith, e, h))

  l_push_others :
      (s : Store)
      → without (format_uint id) (served (l_push list_key (uint id ∷ []) s).1 list_key)
        ≡ without (format_uint id) (served s list_key)
  unfolding sprint
  l_push_others s = elim (Result-cases (l_push list_key (uint id ∷ []) s)) [
    | inl done ↦
        ground (arith, served-l_push s list_key (uint id ∷ []) _ done, =?_refl (format_uint id))
    | inr (e, failed) ↦ ground (arith, l_push_fails s list_key (uint id ∷ []) _ e failed)
  ]

  abbrev healed_row : Bool → ApiKey → ApiKey
  healed_row act k = record k { failure_count = pos 0; status = if act then k.status else active }

  healed : (act : Bool) (k : ApiKey) → changes (success_changes act) k ≡ healed_row act k
  healed true k = refl
  healed false k = refl

  -- What is to be true of the world after the call, from the one before it.
  abbrev pub IsRestored : Bool → World g → World g → Type 0
  IsRestored act w w' =
      (field_of (details w'.store hash_key) (bytes "status") ≡ active)
      × (number_of (details w'.store hash_key) (bytes "failure_count") ≡ pos 0)
      × (served w'.store list_key ≡ list_after act (served w.store list_key))
      × (k : ApiKey) × (g.row w.db id ≡ some k)
      × (g.row w'.db id ≡ some (healed_row act k))

  module _ (ne : hash_key ≢ list_key) (ne' : list_key ≢ hash_key) where
    operation_from :
        (act : Bool) (w : World g) (r : Result ApiKey × g.Db)
        → g.first id w.db ≡ r
        → others act (served (success_operation g id hash_key list_key act w).1.store list_key)
          ≡ others act (served w.store list_key)
    unfolding success_operation restore_to_list sprint
    operation_from true w r e =
        ground (arith, e, served-h_set w.store hash_key list_key ne (success_fields true))
    operation_from false w r e = ground (
      arith,
      e,
      served-h_set w.store hash_key list_key ne (success_fields false),
      served-l_rem (recorded false w).1 list_key (uint id),
      l_push_others (l_rem list_key 0 (uint id) (recorded false w).1).1,
      without_idem (format_uint id) (served w.store list_key),
    )

    abbrev status_of : Store → Text
    status_of s = field_of (details s hash_key) (bytes "status")

    -- HSet of the failure count alone keeps the status.
    h_set-status : (s : Store) → status_of (h_set hash_key (success_fields true) s).1 ≡ status_of s
    unfolding fill
    h_set-status s = elim (Result-cases (h_set hash_key (success_fields true) s)) [
      | inl done ↦
          ap (λ d. field_of d (bytes "status"))
            (details-h_set s hash_key (success_fields true) _ done)
          ∙ field_of-put (details s hash_key) (bytes "failure_count") (bytes "status")
              (sprint (int (pos 0)))
      | inr (e, failed) ↦
          ap (λ t. field_of (details t hash_key) (bytes "status"))
            (h_set_fails s hash_key (success_fields true) _ e failed)
    ]

    status_from :
        (w : World g) (r : Result ApiKey × g.Db)
        → g.first id w.db ≡ r
        → status_of (success_operation g id hash_key list_key true w).1.store ≡ status_of w.store
    unfolding success_operation
    status_from w r e = ground (arith, e, h_set-status w.store)

    zero_read : (parse_int (sprint (int (pos 0)))).0 ≡ pos 0
    unfolding parse_int sprint format_int
    zero_read = refl

    put_zero :
        (d : Dict Text Text)
        → number_of
            (Dict.put d (bytes "failure_count") (sprint (int (pos 0))))
            (bytes "failure_count")
          ≡ pos 0
    unfolding number_of
    put_zero d =
        ap (λ t. (parse_int t).0)
          (field_of-put d (bytes "failure_count") (bytes "failure_count") (sprint (int (pos 0))))
        ∙ zero_read

    text_read : sprint (text active) ≡ active
    unfolding sprint
    text_read = refl

    fields_after :
        (act : Bool) (d : Dict Text Text)
        → (if act then field_of d (bytes "status") ≡ active else Unit {0})
        → (field_of (fill d (success_fields act)) (bytes "status") ≡ active)
          × (number_of (fill d (success_fields act)) (bytes "failure_count") ≡ pos 0)
    unfolding fill number_of
    fields_after true d h = (
      field_of-put d (bytes "failure_count") (bytes "status") (sprint (int (pos 0))) ∙ h,
      put_zero d,
    )
    fields_after false d h =
        let d' = Dict.put d (bytes "failure_count") (sprint (int (pos 0))) in
        (
          field_of-put d' (bytes "status") (bytes "status") (sprint (text active)) ∙ text_read,
          ap (λ t. (parse_int t).0)
                (field_of-put d' (bytes "status") (bytes "failure_count") (sprint (text active)))
              ∙ put_zero d,
        )

    abbrev StatusKept : Bool → Store → Type 0
    StatusKept act s =
        if act then field_of (details s hash_key) (bytes "status") ≡ active else Unit {0}

    abbrev Kept : Bool → World g → World g → Type 0
    Kept act w w1 =
        (others act (served w1.store list_key) ≡ others act (served w.store list_key))
        × StatusKept act w1.store
        × ((j : ℕ) → g.row w1.db j ≡ g.row w.db j)

    store_after :
        (act : Bool) (w : World g) (s : Store)
        → StatusKept act w.store
        → recorded act w ≡ (ok tt, (recorded act w).1)
        → Relisted act (recorded act w).1 s
        → (details s hash_key ≡ fill (details w.store hash_key) (success_fields act))
          × (served s list_key ≡ list_after act (served w.store list_key))
    unfolding sprint
    store_after true w s k set e = (
      ap (λ t. details t hash_key) e ∙ details-h_set w.store hash_key _ _ set,
      ap (λ t. served t list_key) e ∙ served-h_set w.store hash_key list_key ne _,
    )
    store_after false w s k set e =
        let s1 = (recorded false w).1 in
        let s2 = (l_rem list_key 0 (uint id) s1).1 in
        (
          ap (λ (x : Result (Unit {0}) × Store). details x.1 hash_key) (sym e)
              ∙ details-l_push s2 list_key hash_key ne' (uint id ∷ [])
              ∙ details-l_rem s1 list_key hash_key ne' (uint id)
              ∙ details-h_set w.store hash_key _ _ set,
          served-l_push s2 list_key (uint id ∷ []) s e
              ∙ ap (λ xs. format_uint id ∷ xs)
                  (served-l_rem s1 list_key (uint id)
                    ∙ ap (without (format_uint id)) (served-h_set w.store hash_key list_key ne _)),
        )

    committed_once :
        (laws : Laws g) (act : Bool) (w w' : World g)
        → StatusKept act w.store
        → transaction g (success_operation g id hash_key list_key act) w ≡ (ok tt, w')
        → IsRestored act w w'
    committed_once laws act w w' k h =
        let (w1, ran, kept, same) =
          transaction-ok g (success_operation g id hash_key list_key act) w w' tt h in
        let (key, d, found, updated, set, left) = parts_from act w w1 (g.first id w.db) refl ran in
        let (hash_left, list_left) = store_after act w w1.store k set left in
        let (status, zero) = fields_after act (details w.store hash_key) k in
        let hash_same = ap (λ s. details s hash_key) same ∙ hash_left in
        (
          ap (λ d. field_of d (bytes "status")) hash_same ∙ status,
          ap (λ d. number_of d (bytes "failure_count")) hash_same ∙ zero,
          ap (λ s. served s list_key) same ∙ list_left,
          key,
          laws.first-row id w.db d key found,
          row_updated g laws id _ w.db d w1.db w'.db key found updated kept
              ∙ ap some (healed act key),
        )

    Kept-again :
        (laws : Laws g) (act : Bool) (w w1 w2 : World g) (e : Error)
        → Kept act w w1
        → transaction g (success_operation g id hash_key list_key act) w1 ≡ (err e, w2)
        → Kept act w w2
    Kept-again laws act w w1 w2 e k h =
        let op = success_operation g id hash_key list_key act in
        let same : w2.store ≡ (op w1).1.store =
          ap (λ (x : Result (Unit {0}) × World g). x.1.store) (sym h) ∙ transaction-store g op w1 in
        (
          ap (λ s. others act (served s list_key)) same
              ∙ operation_from act w1 (g.first id w1.db) refl
              ∙ k.0,
          status_again act w1 w2 same k.1,
          λ j. transaction-rows g laws op w1 w2 e h j ∙ k.2 j,
        )
      where
        status_again :
            (act : Bool) (w1 w2 : World g)
            → w2.store ≡ (success_operation g id hash_key list_key act w1).1.store
            → StatusKept act w1.store
            → StatusKept act w2.store
        status_again true w1 w2 same k =
            ap (λ s. field_of (details s hash_key) (bytes "status")) same
            ∙ status_from w1 (g.first id w1.db) refl
            ∙ k
        status_again false w1 w2 same k = tt

    list_again :
        (act : Bool) (xs ys : List Text)
        → others act xs ≡ others act ys
        → list_after act xs ≡ list_after act ys
    list_again true xs ys h = h
    list_again false xs ys h = ap (λ l. format_uint id ∷ l) h

    retried :
        (laws : Laws g) (act : Bool) (w w' : World g)
        → StatusKept act w.store
        → execute_transaction_with_retry g (success_operation g id hash_key list_key act) w
          ≡ (ok tt, w')
        → IsRestored act w w'
    retried laws act w w' k h =
        retry_rule g (success_operation g id hash_key list_key act) (Kept act w) (IsRestored act w)
          (λ w1 w2 e k1 r. Kept-again laws act w w1 w2 e k1 r)
          (λ w1 w2 k1 r. from_first act w w1 w2 k1 (committed_once laws act w1 w2 k1.1 r)) w w'
          (refl, k, λ j. refl) h
      where
        from_first :
            (act : Bool) (w w1 w2 : World g)
            → Kept act w w1
            → IsRestored act w1 w2
            → IsRestored act w w2
        from_first act w w1 w2 k1 (status, zero, list, key, before, after) = (
          status,
          zero,
          list ∙ list_again act (served w1.store list_key) (served w.store list_key) k1.0,
          key,
          sym (k1.2 id) ∙ before,
          after,
        )

status_read :
    (d : Dict Text Text) → if is_active d then field_of d (bytes "status") ≡ active else Unit {0}
unfolding is_active
status_read d = elim (Bool-cases (field_of d (bytes "status") =? active)) [
  | inl h ↦ rw h ((=?_iff (field_of d (bytes "status")) active).0 h)
  | inr h ↦ rw h tt
]

-- A success that was recorded without an error, on whichever of the three attempts: a key that is
-- active and has no failures is left alone, with all the rest; any other has the status `active` and
-- no failures in its hash, and its row has no failures and, if it was not active, the status too; a
-- key that was not active stands once, in front, on the list of its group, whose other entries stand
-- as they did, and for one that was active the list is what it was.
pub handle_success_restores :
    (g : Gorm) (laws : Laws g) (id group_id : ℕ) (w w' : World g)
    → handle_success g id (key_hash_key id) (active_keys_key group_id) w ≡ (ok tt, w')
    → let d = details w.store (key_hash_key id) in
      if is_zero (number_of d (bytes "failure_count")) && is_active d
      then w' ≡ w
      else IsRestored g id (key_hash_key id) (active_keys_key group_id) (is_active d) w w'
unfolding handle_success
handle_success_restores g laws id group_id w w' h =
    let hk = key_hash_key id in
    let lk = active_keys_key group_id in
    let idle =
      λ (d : Dict Text Text). is_zero (number_of d (bytes "failure_count")) && is_active d in
    let m = λ (d : Dict Text Text).
      execute_transaction_with_retry g (success_operation g id hk lk (is_active d)) in
    let ne = key_hash_key-ne-active_keys_key id group_id in
    elim (Bool-cases (idle (details w.store hk))) [
      | inl rest ↦ rw rest (read-stop g hk idle m w w' h rest)
      | inr busy ↦ rw busy (
          retried g id hk lk ne (λ q. ne (sym q)) laws (is_active (details w.store hk)) w w'
            (status_read (details w.store hk)) (read-go g hk idle m w w' h busy))
    ]
