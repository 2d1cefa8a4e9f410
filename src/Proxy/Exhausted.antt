-- ===== src/Proxy/Exhausted.antt =====
-- What executeRequestWithRetry (internal/proxy/server.go) does when every try fails.
use mathlib.Core.List.{append_assoc, append-nil}
use gpt_load_fix.Prelude.{
  ℕ, zero, suc, ◌+◌, ◌≤◌, ◌<◌, ◌≡◌, ◌≢◌, refl, ap, ◌∙◌, sym, lt→ltb, ge→ltb, true, false, not, ◌&&◌,
  some, List, [], ◌∷◌, ◌++◌, leb, ◌==◌, arith,
}
use gpt_load_fix.Prelude.Text.{Text}
use gpt_load_fix.Exec.{ok}
use gpt_load_fix.Models.{ApiKey, Group}
use gpt_load_fix.Errors.{is_ignorable_error}
use gpt_load_fix.Proxy.{
  Outside, Reply, broken, answered, Attempt, RetryError, Event, sent, respond, log, Again, prefixed,
  give_up, report, retry_error, last_error, last_answer, last_entry, handle_reply, with_url,
  with_key, execute_request_with_retry,
}

-- A try that failed: the key and the URL, and the status, message and Retry-After header.
pub record Failure : Type 0 where
  pub key : ApiKey
  pub url : Text
  pub status : ℕ
  pub message : Text
  pub parsed : Text
  pub retry_after : Text

module _ (o : Outside) where
  -- The request broke off, and not because the client went away; or it was answered with a status
  -- of 400 and up other than 404.
  abbrev pub Fails : Reply → Failure → Type 0
  Fails (broken message) f =
      (is_ignorable_error message ≡ false)
      × (f.status ≡ 500)
      × (f.message ≡ message)
      × (f.parsed ≡ [])
      × (f.retry_after ≡ [])
  Fails (answered status body retry_after) f =
      (400 ≤ status)
      × (status ≢ 404)
      × (f.status ≡ status)
      × (f.message ≡ body)
      × (f.parsed ≡ o.parse_upstream_error body)
      × (f.retry_after ≡ retry_after)

  pub record IsFailure (a : Attempt) (f : Failure) : Type 0 where
    pub selected : a.selected ≡ ok f.key
    pub upstream_url : a.upstream_url ≡ ok f.url
    pub request_made : a.request_made ≡ true
    pub reply : Fails a.reply f

  module _ (f : ℕ → Failure) where
    -- The events of `n` failed tries from number `c` on, and the errors that are kept of them.
    abbrev pub tries : ℕ → ℕ → List Event
    tries zero c = []
    tries (suc n) c =
        sent (f c).key (f c).url
        ∷ report (f c).key (f c).status (f c).message (f c).retry_after
        ∷ tries n (suc c)

    abbrev pub error_of : ℕ → RetryError
    error_of c = retry_error c (f c).key (f c).url (f c).status (f c).message (f c).parsed

    abbrev errors_of : ℕ → ℕ → List RetryError
    errors_of zero c = []
    errors_of (suc n) c = error_of c ∷ errors_of n (suc c)

    handle_reply-fails :
        (again : Again) (c : ℕ) (errors : List RetryError) (reply : Reply)
        → Fails reply (f c)
        → handle_reply o again c errors (f c).key (f c).url reply
          ≡ prefixed (tries 1 c) (again (errors ++ error_of c ∷ []))
    unfolding handle_reply
    handle_reply-fails again c errors (broken message) (here, s, m, p, r) =
        rw (here, s, m, p, r) refl
    handle_reply-fails again c errors (answered status body retry_after) (b, n, s, m, p, r) =
        rw (bad status b n, s, m, p, r) refl
      where
        bad :
            (status : ℕ)
            → 400 ≤ status
            → status ≢ 404
            → (leb 400 status && not (status == 404)) ≡ true
        bad status b n = ground arith

    with_key-fails :
        (again : Again) (c : ℕ) (errors : List RetryError) (a : Attempt)
        → IsFailure a (f c)
        → with_key o again c errors a a.selected
          ≡ prefixed (tries 1 c) (again (errors ++ error_of c ∷ []))
    unfolding with_key with_url
    with_key-fails again c errors a h =
        rw (h.selected, h.upstream_url, h.request_made)
          (handle_reply-fails again c errors a.reply h.reply)

    module _ (group : Group)
        (all : (c : ℕ) → c ≤ group.max_retries → IsFailure (o.attempt c) (f c)) where
      execute-fails :
          (n fuel c : ℕ) (errors : List RetryError)
          → n + c ≡ group.max_retries + 1
          → n < fuel
          → execute_request_with_retry o group fuel c errors
            ≡ some (tries n c ++ give_up o (n + c) (errors ++ errors_of n c))
      unfolding execute_request_with_retry
      execute-fails n zero c errors e h = elim h [ ]
      execute-fails zero (suc fuel) c errors e h =
          rw (lt→ltb group.max_retries c (omega (arith, e))) (
            ap (λ es. some (give_up o c es)) (sym (append-nil errors))
            ∙ ap (λ k. some (give_up o k (errors ++ []))) {x = c} {y = 0 + c} (omega arith))
      execute-fails (suc n) (suc fuel) c errors e h =
          rw (ge→ltb group.max_retries c (omega (arith, e))) (
            with_key-fails (λ es. execute_request_with_retry o group fuel (suc c) es) c errors
              (o.attempt c) (all c (omega (arith, e)))
            ∙ ap (prefixed (tries 1 c)) (
                execute-fails n fuel (suc c) (errors ++ error_of c ∷ []) (omega (arith, e))
                  (omega arith)
                ∙ ap (λ es. some (tries n (suc c) ++ give_up o (n + suc c) es))
                    (append_assoc errors (error_of c ∷ []) (errors_of n (suc c))))
            ∙ ap (λ k. some (tries (suc n) c ++ give_up o k (errors ++ errors_of (suc n) c)))
                {x = n + suc c} {y = suc n + c} (omega arith))

      last-errors_of : (n c : ℕ) → last_error (error_of c) (errors_of n (suc c)) ≡ error_of (n + c)
      last-errors_of zero c = ap error_of {x = c} {y = 0 + c} (omega arith)
      last-errors_of (suc n) c =
          last-errors_of n (suc c) ∙ ap error_of {x = n + suc c} {y = suc n + c} (omega arith)

      give_up-last :
          (n : ℕ)
          → give_up o (suc n) (errors_of (suc n) 0)
            ≡ respond (last_answer o (error_of n)) ∷ log (last_entry o (suc n) (error_of n)) ∷ []
      unfolding give_up
      give_up-last n =
          ap (λ e. respond (last_answer o e) ∷ log (last_entry o (suc n) e) ∷ [])
            (last-errors_of n 0 ∙ ap error_of {x = n + 0} {y = n} (omega arith))

-- If every try that the group allows fails, then they are all made, each with its own key, which is
-- reported at once; and after the last the client gets the error of the last, which is logged with
-- its key: with the upstream's status, as the JSON object that it is or else as an error of the
-- program's own form.
pub execute_exhausts :
    (o : Outside) (f : ℕ → Failure) (group : Group) (fuel : ℕ)
    → ((c : ℕ) → c ≤ group.max_retries → IsFailure o (o.attempt c) (f c))
    → group.max_retries + 1 < fuel
    → execute_request_with_retry o group fuel 0 []
      ≡ some (
          tries o f (suc group.max_retries) 0
          ++ respond (last_answer o (error_of o f group.max_retries))
            ∷ log (last_entry o (suc group.max_retries) (error_of o f group.max_retries))
            ∷ [])
execute_exhausts o f group fuel all h =
    execute-fails o f group all (suc group.max_retries) fuel 0 [] (omega arith) (omega arith)
    ∙ ap
        (λ k. some (
          tries o f (suc group.max_retries) 0
          ++ give_up o k (errors_of o f (suc group.max_retries) 0)))
        {x = suc group.max_retries + 0} {y = suc group.max_retries} (omega arith)
    ∙ ap (λ es. some (tries o f (suc group.max_retries) 0 ++ es))
        (give_up-last o f group all group.max_retries)
