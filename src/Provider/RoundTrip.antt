-- ===== src/Provider/RoundTrip.antt =====
-- A key that is put into the store is read back: apiKeyToMap, addKeyToStore and SelectKey
-- (internal/keypool/provider.go).
use gpt_load_fix.Prelude.{
  ℕ, ◌≡◌, ◌<◌, ◌^◌, refl, ap, ◌∙◌, sym, true, Option, none, some, [], ◌∷◌, ◌=?◌, if◌then◌else◌,
  arith, without,
}
use gpt_load_fix.Prelude.Dict
use gpt_load_fix.Prelude.Dict.{Dict}
use gpt_load_fix.Prelude.Int.{ℤ, pos, InInt64}
use gpt_load_fix.Prelude.Text.{Text, text_eq}
use gpt_load_fix.Prelude.Text.Decimal.{
  format_uint, format_int, parse_int, parse_int-format_int, parse_uint-format_uint,
}
use gpt_load_fix.Exec.{Result, ok, uint, sprint}
use gpt_load_fix.Models.{ApiKey, active}
use gpt_load_fix.Store.{hash, list, Store, lookup, write_same}
use gpt_load_fix.Store.Lists.{l_rem, rotate}
use gpt_load_fix.Store.Hashes.{h_set, h_get_all, fill, field_of, number_of}
use gpt_load_fix.Provider.Names.{key_hash_key, active_keys_key, key_hash_key-ne-active_keys_key}
use gpt_load_fix.Provider.Records.{api_key_to_map, key_of, select_key, time_of}
use gpt_load_fix.Provider.Pool.{add_key_to_store}
use gpt_load_fix.Provider.Views.{
  lookup-h_set, lookup-l_rem_ne, lookup-l_push_ne, details, served, served-h_set, served-l_rem,
  served-l_push,
}

abbrev InRange : Option ℤ → Type 0
InRange none = Unit
InRange (some t) = InInt64 t

-- The numbers of a key fit Go's types.
pub record Fits (key : ApiKey) : Type 0 where
  pub id : key.id < 2 ^ 64
  pub failure_count : InInt64 key.failure_count
  pub rate_limit_count : InInt64 key.rate_limit_count
  pub created_at : InInt64 key.created_at
  pub last_429_at : InRange key.last_429_at
  pub rate_limit_reset_at : InRange key.rate_limit_reset_at

-- The key as SelectKey gives it: the store does not hold the count of requests.
abbrev pub without_requests : ApiKey → ApiKey
without_requests key = record key { request_count = pos 0 }

abbrev printed : Option ℤ → Text
printed none = []
printed (some t) = format_int t

time_of-printed : (t : Option ℤ) → InRange t → time_of (printed t) ≡ t
unfolding parse_int
time_of-printed none h = refl
time_of-printed (some t) h = by_text (format_int t) (parse_int-format_int t h)
  where
    false_true : parse_int [] ≡ (t, true) → ⊥
    false_true e = cc

    by_text : (s : Text) → parse_int s ≡ (t, true) → time_of s ≡ some t
    by_text [] e = absurd (false_true e)
    by_text (c ∷ s) e = ground (arith, e)

abbrev with_times : ApiKey → Option ℤ → Option ℤ → ApiKey
with_times key a b = record key { last_429_at = a; rate_limit_reset_at = b }

read_back :
    (key : ApiKey) (a b : Option ℤ)
    → key_of key.id key.group_id (fill [] (api_key_to_map (with_times key a b))) ≡ record key {
      request_count = pos 0;
      failure_count = (parse_int (format_int key.failure_count)).0;
      rate_limit_count = (parse_int (format_int key.rate_limit_count)).0;
      created_at = (parse_int (format_int key.created_at)).0;
      last_429_at = time_of (printed a);
      rate_limit_reset_at = time_of (printed b);
    }
unfolding key_of fill api_key_to_map field_of number_of sprint Dict.get Dict.put
read_back key none none = refl
read_back key none (some b) = refl
read_back key (some a) none = refl
read_back key (some a) (some b) = refl

key_of-api_key_to_map :
    (key : ApiKey)
    → Fits key
    → key_of key.id key.group_id (fill [] (api_key_to_map key)) ≡ without_requests key
key_of-api_key_to_map key f = read_back key key.last_429_at key.rate_limit_reset_at ∙ λ i.
    record key {
      request_count = pos 0;
      failure_count = (parse_int-format_int key.failure_count f.failure_count i).0;
      rate_limit_count = (parse_int-format_int key.rate_limit_count f.rate_limit_count i).0;
      created_at = (parse_int-format_int key.created_at f.created_at i).0;
      last_429_at = time_of-printed key.last_429_at f.last_429_at i;
      rate_limit_reset_at = time_of-printed key.rate_limit_reset_at f.rate_limit_reset_at i;
    }

-- What addKeyToStore leaves.
module _ (key : ApiKey) (s s' : Store) (h : add_key_to_store key s ≡ (ok tt, s')) where
  abbrev hash_key : Text
  hash_key = key_hash_key key.id

  abbrev list_key : Text
  list_key = active_keys_key key.group_id

  abbrev filled : Result (Unit {0}) × Store
  filled = h_set hash_key (api_key_to_map key) s

  abbrev unlisted : Store
  unlisted = (l_rem list_key 0 (uint key.id) filled.1).1

  filled-ok : filled ≡ (ok tt, filled.1)
  unfolding add_key_to_store
  filled-ok = ground (arith, h)

  pub added_list : served s' list_key ≡ (
      if key.status =? active
      then format_uint key.id ∷ without (format_uint key.id) (served s list_key)
      else served s list_key)
  unfolding add_key_to_store sprint
  added_list = ground (
    arith,
    h,
    served-h_set s hash_key list_key (key_hash_key-ne-active_keys_key key.id key.group_id)
        (api_key_to_map key),
    served-l_rem filled.1 list_key (uint key.id),
    served-l_push unlisted list_key (uint key.id ∷ []) s',
  )

  pub added_hash : lookup s' hash_key ≡ some (hash (fill (details s hash_key) (api_key_to_map key)))
  unfolding add_key_to_store
  added_hash = ground (
    arith,
    h,
    lookup-h_set s hash_key (api_key_to_map key) filled.1 filled-ok,
    lookup-l_rem_ne filled.1 list_key hash_key
        (λ q. key_hash_key-ne-active_keys_key key.id key.group_id (sym q)) (uint key.id),
    lookup-l_push_ne unlisted list_key hash_key
        (λ q. key_hash_key-ne-active_keys_key key.id key.group_id (sym q)) (uint key.id ∷ []),
  )

select_from :
    (group_id id : ℕ) (s : Store) (d : Dict Text Text)
    → id < 2 ^ 64
    → served s (active_keys_key group_id) ≡ format_uint id ∷ []
    → lookup s (key_hash_key id) ≡ some (hash d)
    → select_key group_id s ≡ (ok (key_of id group_id d), s)
unfolding select_key rotate h_get_all served
select_from group_id id s d b l h = ground (
  arith,
  l,
  h,
  parse_uint-format_uint id b,
  write_same s (active_keys_key group_id) (list (format_uint id ∷ [])),
)

-- An active key that is added to a group without others, and that the store does not know, is what
-- SelectKey then returns, field by field but for the count of requests, which the store does not
-- hold; and the store stays as it is. Its numbers are assumed to fit Go's types.
pub select-add :
    (key : ApiKey) (s s' : Store)
    → Fits key
    → key.status ≡ active
    → details s (key_hash_key key.id) ≡ []
    → served s (active_keys_key key.group_id) ≡ []
    → add_key_to_store key s ≡ (ok tt, s')
    → select_key key.group_id s' ≡ (ok (without_requests key), s')
select-add key s s' f a e l h =
    select_from key.group_id key.id s' (fill [] (api_key_to_map key)) f.id
      (added_list key s s' h ∙ rw (a, l) refl)
      (added_hash key s s' h ∙ ap (λ d. some (hash (fill d (api_key_to_map key)))) e)
    ∙ ap (λ k. (ok k, s')) (key_of-api_key_to_map key f)
