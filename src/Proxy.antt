-- ===== src/Proxy.antt =====
-- internal/proxy/server.go: executeRequestWithRetry, which tries a request with one key after
-- another. What happens outside in each attempt is an argument; what the code does is a list of
-- events in their order.
pub mod Attempts
pub mod Exhausted
mod Tests
use gpt_load_fix.Prelude.{
  ℕ, zero, suc, ◌+◌, Bool, true, false, not, ◌&&◌, ◌||◌, Option, none, some, List, [], ◌∷◌, ◌++◌,
  ltb, leb, ◌==◌, if◌then◌else◌,
}
use gpt_load_fix.Prelude.Text.{Text, bytes}
use gpt_load_fix.Exec.{Error, Result, ok, err}
use gpt_load_fix.Models.{ApiKey, Group}
use gpt_load_fix.Errors.{is_ignorable_error, is_rate_limit_error}

-- What client.Do gives: an error with its message; or a response with its status, its body as it
-- is read and decompressed, and its Retry-After header.
pub data Reply : Type 0 where
  broken : Text → Reply
  answered : ℕ → Text → Text → Reply

-- What an attempt meets: the key that SelectKey gives, the upstream's URL or why it
-- cannot be built, whether http.NewRequestWithContext succeeds, and the reply.
pub record Attempt : Type 0 where
  pub selected : Result ApiKey
  pub upstream_url : Result Text
  pub request_made : Bool
  pub reply : Reply

-- types.RetryError
pub record RetryError : Type 0 where
  pub status_code : ℕ
  pub error_message : Text
  pub parsed_error_message : Text
  pub key_value : Text
  pub attempt : ℕ
  pub upstream_addr : Text

-- What the client is sent: a JSON object as it came, an error with its code, or the response.
pub data Answer : Type 0 where
  json : ℕ → Text → Answer
  api_error : ℕ → Text → Text → Answer
  upstream : ℕ → Text → Answer

-- The arguments of logRequest: the key's value if there is a key, the status, the number of tries,
-- the message of the final error if there is one, and the upstream's address.
pub record Entry : Type 0 where
  pub key_value : Option Text
  pub status_code : ℕ
  pub retries : ℕ
  pub final_error : Option Text
  pub upstream_addr : Text

pub data Event : Type 0 where
  -- client.Do with this key, to this URL
  sent : ApiKey → Text → Event
  -- UpdateStatus(apiKey, group, false)
  failed : ApiKey → Event
  -- RecordRateLimitError and UpdateStatusWithRateLimit, for a CreateRateLimitError of this message
  -- and this Retry-After header
  limited : ApiKey → ℕ → Text → Text → Event
  respond : Answer → Event
  log : Entry → Event

-- What executeRequestWithRetry reaches outside of this model: parseUpstreamError and the test that a
-- text is a JSON object, over encoding/json; the message of an error of SelectKey or
-- BuildUpstreamURL; and what the attempt with each number meets.
pub record Outside : Type 0 where
  pub parse_upstream_error : Text → Text
  pub is_json_object : Text → Bool
  pub error_text : Error → Text
  pub attempt : ℕ → Attempt

abbrev pub last_error : RetryError → List RetryError → RetryError
last_error e [] = e
last_error e (e' ∷ es) = last_error e' es

abbrev is_empty : Text → Bool
is_empty [] = true
is_empty (c ∷ t) = false

-- The key is told of its failure.
unfoldable pub report : ApiKey → ℕ → Text → Text → Event
report key status_code message retry_after =
    if is_rate_limit_error status_code message
    then limited key status_code message retry_after
    else failed key

unfoldable pub aborted : ℕ → ApiKey → Text → Text → Event
aborted retry_count key url message = log (record {
  key_value = some key.key_value;
  status_code = 499;
  retries = retry_count + 1;
  final_error = some message;
  upstream_addr = url;
})

unfoldable pub succeeded : ℕ → ApiKey → Text → ℕ → Event
succeeded retry_count key url status_code = log (record {
  key_value = some key.key_value;
  status_code = status_code;
  retries = retry_count + 1;
  final_error = none;
  upstream_addr = url;
})

unfoldable pub retry_error : ℕ → ApiKey → Text → ℕ → Text → Text → RetryError
retry_error retry_count key url status_code message parsed = record {
  status_code = status_code;
  error_message = message;
  parsed_error_message = parsed;
  key_value = key.key_value;
  attempt = retry_count + 1;
  upstream_addr = url;
}

-- The rest of a call, given what comes of calling it again with one more retry error.
abbrev pub Again : Type 0
Again = List RetryError → Option (List Event)

abbrev pub prefixed : List Event → Option (List Event) → Option (List Event)
prefixed events none = none
prefixed events (some rest) = some (events ++ rest)

module _ (o : Outside) where
  open o use {parse_upstream_error, is_json_object, error_text, attempt}

  abbrev pub last_answer : RetryError → Answer
  last_answer e =
      if is_json_object e.error_message
      then json e.status_code e.error_message
      else api_error e.status_code (bytes "UPSTREAM_ERROR") e.error_message

  abbrev pub last_entry : ℕ → RetryError → Entry
  last_entry retry_count e = record {
    key_value = some e.key_value;
    status_code = e.status_code;
    retries = retry_count;
    final_error =
        some (if is_empty e.parsed_error_message then e.error_message else e.parsed_error_message);
    upstream_addr = e.upstream_addr;
  }

  -- The branch of retryCount > cfg.MaxRetries.
  unfoldable pub give_up : ℕ → List RetryError → List Event
  give_up retry_count [] =
      respond (
        api_error 502 (bytes "MAX_RETRIES_EXCEEDED") (bytes "Request failed after maximum retries"))
      ∷ log (record {
        key_value = none;
        status_code = 503;
        retries = retry_count;
        final_error = some (bytes "Request failed after maximum retries");
        upstream_addr = [];
      })
      ∷ []
  give_up retry_count (e ∷ es) =
      respond (last_answer (last_error e es)) ∷ log (last_entry retry_count (last_error e es)) ∷ []

  abbrev pub no_key : ℕ → Error → List Event
  no_key retry_count e =
      respond (api_error 503 (bytes "NO_KEYS_AVAILABLE") (error_text e))
      ∷ log (record {
        key_value = none;
        status_code = 503;
        retries = retry_count;
        final_error = some (error_text e);
        upstream_addr = [];
      })
      ∷ []

  abbrev pub internal_error : Text → List Event
  internal_error message = respond (api_error 500 (bytes "INTERNAL_SERVER_ERROR") message) ∷ []

  unfoldable pub handle_reply :
      Again → ℕ → List RetryError → ApiKey → Text → Reply → Option (List Event)
  handle_reply again retry_count errors key url (broken message) =
      if is_ignorable_error message
      then some (sent key url ∷ aborted retry_count key url message ∷ [])
      else prefixed (sent key url ∷ report key 500 message [] ∷ [])
          (again (errors ++ retry_error retry_count key url 500 message [] ∷ []))
  handle_reply again retry_count errors key url (answered status_code body retry_after) =
      if leb 400 status_code && not (status_code == 404)
      then prefixed (sent key url ∷ report key status_code body retry_after ∷ []) (
          again (
            errors
            ++ retry_error retry_count key url status_code body (parse_upstream_error body) ∷ []))
      else some (
          sent key url
          ∷ succeeded retry_count key url status_code
          ∷ respond (upstream status_code body)
          ∷ [])

  unfoldable pub with_url :
      Again → ℕ → List RetryError → Attempt → ApiKey → Result Text → Option (List Event)
  with_url again retry_count errors a key (err e) =
      some (internal_error (bytes "Failed to build upstream URL: " ++ error_text e))
  with_url again retry_count errors a key (ok url) =
      if a.request_made
      then handle_reply again retry_count errors key url a.reply
      else some (internal_error (bytes "An unexpected error occurred"))

  unfoldable pub with_key :
      Again → ℕ → List RetryError → Attempt → Result ApiKey → Option (List Event)
  with_key again retry_count errors a (err e) = some (no_key retry_count e)
  with_key again retry_count errors a (ok key) =
      with_url again retry_count errors a key a.upstream_url

  -- `none`: the fuel ran out.
  unfoldable pub execute_request_with_retry : Group → ℕ → ℕ → List RetryError → Option (List Event)
  execute_request_with_retry group zero retry_count errors = none
  execute_request_with_retry group (suc fuel) retry_count errors =
      if ltb group.max_retries retry_count
      then some (give_up retry_count errors)
      else with_key (λ es. execute_request_with_retry group fuel (suc retry_count) es) retry_count
          errors (attempt retry_count) (attempt retry_count).selected
