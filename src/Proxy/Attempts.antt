-- ===== src/Proxy/Attempts.antt =====
-- What executeRequestWithRetry (internal/proxy/server.go) does over all its attempts: it ends, and
-- it accounts for every key that it used.
use gpt_load_fix.Prelude.{
  ℕ, zero, suc, ◌+◌, ◌≤◌, ◌<◌, ◌≡◌, refl, ap, ◌∙◌, sym, lt→ltb, ge→ltb, not, ◌&&◌, ◌⊎◌, inl, inr,
  Option, some, subst, ◌≢◌, false, true, List, [], ◌∷◌, ◌++◌, length, leb, ◌==◌, Bool-cases, arith,
}
use gpt_load_fix.Prelude.Text.{Text}
use gpt_load_fix.Exec.{Error, Result, ok, err}
use gpt_load_fix.Models.{ApiKey, Group}
use gpt_load_fix.Errors.{is_ignorable_error}
use gpt_load_fix.Proxy.{
  Outside, Reply, broken, answered, Attempt, RetryError, Event, sent, failed, limited, respond,
  Answer, upstream, Again, prefixed, give_up, report, aborted, succeeded, handle_reply, with_url,
  with_key, execute_request_with_retry,
}

-- The keys that are sent with, in their order, and those whose failure is reported.
pub sends : List Event → List ApiKey
sends [] = []
sends (sent key url ∷ events) = key ∷ sends events
sends (_ ∷ events) = sends events

pub reports : List Event → List ApiKey
reports [] = []
reports (failed key ∷ events) = key ∷ reports events
reports (limited key status message retry_after ∷ events) = key ∷ reports events
reports (_ ∷ events) = reports events

-- What the client is answered.
pub answers : List Event → List Answer
answers [] = []
answers (respond a ∷ events) = a ∷ answers events
answers (_ ∷ events) = answers events

-- A reply that is a failure of its key.
abbrev pub IsFailed : Reply → Type 0
IsFailed (broken message) = is_ignorable_error message ≡ false
IsFailed (answered status body retry_after) = (400 ≤ status) × (status ≢ 404)

-- A reply that is none, with what the client is answered after it: nothing if it has gone, and
-- else what the upstream has answered.
abbrev pub IsDone : Reply → List Answer → Type 0
IsDone (broken message) l = (is_ignorable_error message ≡ true) × (l ≡ [])
IsDone (answered status body retry_after) l =
    ((status < 400) ⊎ (status ≡ 404)) × (l ≡ upstream status body ∷ [])

-- An attempt that comes to no request: no key, no URL, or no request of them.
abbrev pub IsUnsent : Attempt → Type 0
IsUnsent a =
    ((e : Error) × (a.selected ≡ err e))
    ⊎ ((e : Error) × (a.upstream_url ≡ err e))
    ⊎ (a.request_made ≡ false)

-- How the attempts `f` ended, at the one after those that were reported: with no try left of `n` or
-- with no request, and an answer; or with a request that was not a failure, for which the key is not
-- reported.
abbrev pub HasEnded : ℕ → (ℕ → Attempt) → List Event → Type 0
HasEnded n f events =
    ((sends events ≡ reports events)
      × ((length (reports events) ≡ n) ⊎ IsUnsent (f (length (reports events))))
      × (a : Answer) × (answers events ≡ a ∷ []))
    ⊎ ((key : ApiKey) × (sends events ≡ reports events ++ key ∷ [])
        × IsDone (f (length (reports events))).reply (answers events))

-- Each key that is reported has failed, and the end is as it should be.
abbrev pub IsAccounted : ℕ → (ℕ → Attempt) → List Event → Type 0
IsAccounted n f events =
    ((i : ℕ) → i < length (reports events) → IsFailed (f i).reply) × HasEnded n f events

-- A call of again ends, with at most `n` tries, and accounts for them.
abbrev Ends : ℕ → (ℕ → Attempt) → Option (List Event) → Type 0
Ends n f r =
    (events : List Event) × (r ≡ some events) × (length (sends events) ≤ n) × IsAccounted n f events

reports-report :
    (key : ApiKey) (status : ℕ) (message retry_after : Text) (events : List Event)
    → (sends (report key status message retry_after ∷ events) ≡ sends events)
      × (reports (report key status message retry_after ∷ events) ≡ key ∷ reports events)
      × (answers (report key status message retry_after ∷ events) ≡ answers events)
unfolding report sends reports answers
reports-report key status message retry_after events = (ground arith, ground arith, ground arith)

module _ (n : ℕ) (f : ℕ → Attempt) (key : ApiKey) (url : Text) (status : ℕ)
    (message retry_after : Text) where
  -- One failed try before the rest.
  abbrev longer : List Event → List Event
  longer events = sent key url ∷ report key status message retry_after ∷ events

  all-IsFailed :
      (events : List Event)
      → IsFailed (f 0).reply
      → ((i : ℕ) → i < length (reports events) → IsFailed (f (suc i)).reply)
      → (i : ℕ) → i < length (reports (longer events))
      → IsFailed (f i).reply
  unfolding reports
  all-IsFailed events now later zero lt = now
  all-IsFailed events now later (suc i) lt =
      let (s, t, u) = reports-report key status message retry_after events in
      later i (omega (arith, ap length t, lt))

  one_later : (k : ℕ) → (k ≡ n) ⊎ IsUnsent (f (suc k)) → (suc k ≡ suc n) ⊎ IsUnsent (f (suc k))
  one_later k (inl used) = inl (ap suc used)
  one_later k (inr none_sent) = inr none_sent

  still_ended :
      (events : List Event)
      → HasEnded n (λ i. f (suc i)) events
      → HasEnded (suc n) f (longer events)
  unfolding sends reports answers
  still_ended events (inl (same, end, a, once)) =
      let (s, t, u) = reports-report key status message retry_after events in
      inl (
        ap (λ l. key ∷ l) (s ∙ same) ∙ sym t,
        subst (λ l. (length l ≡ suc n) ⊎ IsUnsent (f (length l))) (sym t)
            (one_later (length (reports events)) end),
        a,
        u ∙ once,
      )
  still_ended events (inr (last, rest, done)) =
      let (s, t, u) = reports-report key status message retry_after events in
      inr (
        last,
        ap (λ l. key ∷ l) (s ∙ rest) ∙ ap (λ l. l ++ last ∷ []) (sym t),
        subst (λ l. IsDone (f (length (reports (longer events)))).reply l) (sym u)
            (subst (λ l. IsDone (f (length l)).reply (answers events)) (sym t) done),
      )

  one_more :
      (r : Option (List Event))
      → IsFailed (f 0).reply
      → Ends n (λ i. f (suc i)) r
      → Ends (suc n) f (prefixed (sent key url ∷ report key status message retry_after ∷ []) r)
  unfolding sends reports answers
  one_more r now (events, e, b, (later, end)) =
      let (s, t, u) = reports-report key status message retry_after events in
      (
        longer events,
        ap (prefixed (sent key url ∷ report key status message retry_after ∷ [])) e,
        omega (arith, ap length s, b),
        (all-IsFailed events now later, still_ended events end),
      )

nothing-IsFailed : (f : ℕ → Attempt) (i : ℕ) → i < 0 → IsFailed (f i).reply
nothing-IsFailed f i lt = absurd (omega (arith, lt))

module _ (o : Outside) where
  give_up-Ends :
      (f : ℕ → Attempt) (c : ℕ) (errors : List RetryError) → Ends zero f (some (give_up o c errors))
  unfolding give_up sends reports answers
  give_up-Ends f c [] = (_, refl, omega arith, (nothing-IsFailed f, inl (refl, inl refl, _, refl)))
  give_up-Ends f c (e ∷ es) =
      (_, refl, omega arith, (nothing-IsFailed f, inl (refl, inl refl, _, refl)))

  module _ (n : ℕ) (f : ℕ → Attempt) (again : Again)
      (next : (errors : List RetryError) → Ends n (λ i. f (suc i)) (again errors)) (c : ℕ)
      (errors : List RetryError) where
    handle_reply-Ends :
        (key : ApiKey) (url : Text) (reply : Reply)
        → (f 0).reply ≡ reply
        → Ends (suc n) f (handle_reply o again c errors key url reply)
    unfolding handle_reply aborted succeeded sends reports answers
    handle_reply-Ends key url (broken message) q = elim (Bool-cases (is_ignorable_error message)) [
      | inl gone ↦ rw gone (
        _,
        refl,
        omega arith,
        (nothing-IsFailed f, inr (key, refl, subst (λ x. IsDone x []) (sym q) (gone, refl))),
      )
      | inr here ↦
          rw here (one_more n f key url 500 message [] _ (subst IsFailed (sym q) here) (next _))
    ]
    handle_reply-Ends key url (answered status body retry_after) q =
        elim (Bool-cases (leb 400 status && not (status == 404))) [
          | inl bad ↦ rw bad (
              one_more n f key url status body retry_after _
                (subst IsFailed (sym q) (ground (arith, bad), λ e. ground (arith, bad))) (next _))
          | inr good ↦ rw good (
            _,
            refl,
            omega arith,
            (
              nothing-IsFailed f,
              inr (
                key,
                refl,
                subst (λ x. IsDone x (upstream status body ∷ [])) (sym q) (below status good, refl),
              ),
            ),
          )
        ]
      where
        below :
            (status : ℕ)
            → (leb 400 status && not (status == 404)) ≡ false
            → (status < 400) ⊎ (status ≡ 404)
        below status h = elim (Bool-cases (status == 404)) [
          | inl same ↦ inr (ground (arith, same))
          | inr other ↦ inl (ground (arith, h, other))
        ]

    -- An attempt that sends nothing.
    unsent :
        (a : Answer) (events : List Event)
        → (sends events ≡ []) × (reports events ≡ []) × (answers events ≡ a ∷ [])
        → IsUnsent (f 0)
        → Ends (suc n) f (some events)
    unsent a events (s, r, w) u = (
      events,
      refl,
      omega (arith, ap length s),
      (
        λ i lt. absurd (omega (arith, lt, ap length r)),
        inl (s ∙ sym r, inr (subst (λ l. IsUnsent (f (length l))) (sym r) u), a, w),
      ),
    )

    with_key-Ends :
        (a : Attempt) → f 0 ≡ a → Ends (suc n) f (with_key o again c errors a a.selected)
    unfolding with_key with_url sends reports answers
    with_key-Ends a q = key_Ends a.selected refl
      where
        url_Ends :
            (key : ApiKey) (url : Result Text)
            → a.upstream_url ≡ url
            → Ends (suc n) f (with_url o again c errors a key url)
        url_Ends key (err e) u =
            unsent _ _ (refl, refl, refl) (inr (inl (e, ap (λ x. x.upstream_url) q ∙ u)))
        url_Ends key (ok url) u = elim (Bool-cases a.request_made) [
          | inl made ↦ rw made (handle_reply-Ends key url a.reply (ap (λ x. x.reply) q))
          | inr unmade ↦
              rw unmade
                (unsent _ _ (refl, refl, refl) (inr (inr (ap (λ x. x.request_made) q ∙ unmade))))
        ]

        key_Ends :
            (selected : Result ApiKey)
            → a.selected ≡ selected
            → Ends (suc n) f (with_key o again c errors a selected)
        key_Ends (err e) k = unsent _ _ (refl, refl, refl) (inl (e, ap (λ x. x.selected) q ∙ k))
        key_Ends (ok key) k = url_Ends key a.upstream_url refl

  -- `n` tries are left of those that the group allows, and `f` is what they meet.
  execute-Ends :
      (group : Group) (n fuel c : ℕ) (f : ℕ → Attempt) (errors : List RetryError)
      → ((i : ℕ) → f i ≡ o.attempt (i + c))
      → n + c ≡ group.max_retries + 1
      → n < fuel
      → Ends n f (execute_request_with_retry o group fuel c errors)
  unfolding execute_request_with_retry
  execute-Ends group n zero c f errors q e h = elim h [ ]
  execute-Ends group zero (suc fuel) c f errors q e h =
      rw (lt→ltb group.max_retries c (omega (arith, e))) (give_up-Ends f c errors)
  execute-Ends group (suc n) (suc fuel) c f errors q e h =
      let shift : (i : ℕ) → suc i + c ≡ i + suc c = λ i. omega arith in
      rw (ge→ltb group.max_retries c (omega (arith, e))) (
        with_key-Ends n f (λ es. execute_request_with_retry o group fuel (suc c) es)
          (λ es.
            execute-Ends group n fuel (suc c) (λ i. f (suc i)) es
              (λ i. q (suc i) ∙ ap o.attempt (shift i)) (omega (arith, e)) (omega arith))
          c errors (o.attempt c) (q 0 ∙ ap o.attempt (omega arith)))

-- With fuel for one call more than the tries that the group allows, the recursion ends. It sends at
-- most that many times, once more than there are retries, and reports the keys that it sent with, in
-- order, as failed, but perhaps the last. The reply to each of those was a failure: an error that is
-- not the client's doing, or a status of 400 or more but 404. If all are reported, the tries are used
-- up or the next attempt came to no request, and the client is answered once. If the last is not,
-- the reply to it was no failure: either the client has gone and is not answered, or it is answered
-- once, with that reply.
pub execute_accounts :
    (o : Outside) (group : Group) (fuel : ℕ)
    → group.max_retries + 1 < fuel
    → (events : List Event) × (execute_request_with_retry o group fuel 0 [] ≡ some events)
      × (length (sends events) ≤ group.max_retries + 1)
      × IsAccounted (group.max_retries + 1) o.attempt events
execute_accounts o group fuel h =
    execute-Ends o group (group.max_retries + 1) fuel 0 o.attempt []
      (λ i. ap o.attempt (omega arith)) (omega arith) h
