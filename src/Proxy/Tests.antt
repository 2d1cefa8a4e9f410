-- ===== src/Proxy/Tests.antt =====
-- Runs of executeRequestWithRetry (internal/proxy/server.go).
use gpt_load_fix.Prelude.{
  ℕ, ◌+◌, ◌≤◌, ◌≡◌, refl, true, false, none, some, List, [], ◌∷◌, ◌++◌, length, arith,
}
use gpt_load_fix.Prelude.Int.{pos}
use gpt_load_fix.Prelude.Text.{bytes}
use gpt_load_fix.Exec.{ok}
use gpt_load_fix.Models.{ApiKey, Group, active}
use gpt_load_fix.Proxy.{
  Outside, answered, Event, respond, log, last_answer, last_entry, execute_request_with_retry,
}
use gpt_load_fix.Proxy.Attempts.{sends, IsAccounted, execute_accounts}
use gpt_load_fix.Proxy.Exhausted.{Failure, IsFailure, tries, error_of, execute_exhausts}

abbrev key_number : ℕ → ApiKey
key_number n = record {
  id = n;
  key_value = bytes "sk";
  group_id = 1;
  status = active;
  request_count = pos 0;
  failure_count = pos 0;
  rate_limit_count = pos 0;
  last_429_at = none;
  rate_limit_reset_at = none;
  created_at = pos 0;
}

-- Every key is answered with this status.
abbrev answering : ℕ → Outside
answering status = record {
  parse_upstream_error = λ body. body;
  is_json_object = λ body. false;
  error_text = λ e. [];
  attempt = λ n. record {
    selected = ok (key_number n);
    upstream_url = ok (bytes "https://api.example.com");
    request_made = true;
    reply = answered status (bytes "no") [];
  };
}

abbrev a_group : Group
a_group = record { id = 1; blacklist_threshold = pos 3; max_retries = 2 }

execute_accounts_example :
    (events : List Event) × (execute_request_with_retry (answering 500) a_group 4 0 []
      ≡ some events)
    × (length (sends events) ≤ 2 + 1)
    × IsAccounted (2 + 1) (answering 500).attempt events
execute_accounts_example = execute_accounts (answering 500) a_group 4 (omega arith)

abbrev failure : ℕ → Failure
failure n = record {
  key = key_number n;
  url = bytes "https://api.example.com";
  status = 500;
  message = bytes "no";
  parsed = bytes "no";
  retry_after = [];
}

all_fail : (c : ℕ) → c ≤ 2 → IsFailure (answering 500) ((answering 500).attempt c) (failure c)
all_fail c h = record {
  selected = refl;
  upstream_url = refl;
  request_made = refl;
  reply = (omega arith, λ q. absurd (omega arith), refl, refl, refl, refl);
}

execute_exhausts_example :
    execute_request_with_retry (answering 500) a_group 4 0 []
    ≡ some (
        tries (answering 500) failure 3 0
        ++ respond (last_answer (answering 500) (error_of (answering 500) failure 2))
          ∷ log (last_entry (answering 500) 3 (error_of (answering 500) failure 2))
          ∷ [])
execute_exhausts_example = execute_exhausts (answering 500) failure a_group 4 all_fail (omega arith)
