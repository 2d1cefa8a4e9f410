-- ===== src/MemoryPool/Cooling.antt =====
-- HandleRateLimit (internal/keypool/memory_pool.go).
use gpt_load_fix.Prelude.{
  ℕ, ◌≡◌, ◌≢◌, refl, ap, ◌∙◌, sym, Option, none, some, List, [], ◌∷◌, arith, without, =?_refl,
}
use gpt_load_fix.Prelude.Dict
use gpt_load_fix.Prelude.Dict.{Dict}
use gpt_load_fix.Prelude.Text.{Text, bytes, text_eq}
use gpt_load_fix.Prelude.Text.Decimal.{format_uint}
use gpt_load_fix.Exec.{Result, ok, err, Exec, Any, uint, sprint, continue}
use gpt_load_fix.Models.{rate_limited}
use gpt_load_fix.Store.{Value, Zset, zset, Store, lookup, lookup-write_self, lookup-write_ne}
use gpt_load_fix.Store.Lists.{l_rem}
use gpt_load_fix.Store.Hashes.{h_set, fill, field_of, field_of-put}
use gpt_load_fix.Store.Zsets.{z_add, add_scores, empty_zset}
use gpt_load_fix.Provider.Views.{as_list, served, details, served-l_rem, details-h_set}
use gpt_load_fix.MemoryPool.{active, ready, cooling, get_redis_key, get_key_details_key, RateLimit}
use gpt_load_fix.MemoryPool.Details.{get_key_details, set_key_details, group_of}
use gpt_load_fix.MemoryPool.Pools.{add_to_cooling_pool}
use gpt_load_fix.MemoryPool.Handlers.{handle_rate_limit, limit_fields, reset_time}
use gpt_load_fix.MemoryPool.Names.{
  details-ne-pool, cooling-ne-active, active-ne-ready, cooling-ne-ready,
}

-- The score of a member of a sorted set.
abbrev pub score_of : Option Value → Text → Option ℕ
score_of (some (zset z)) member = Dict.get z.members member
score_of _ member = none

unfoldable pub score : Store → Text → Text → Option ℕ
score s key member = score_of (lookup s key) member

get-put_self : (d : Dict Text ℕ) (m : Text) (x : ℕ) → Dict.get (Dict.put d m x) m ≡ some x
get-put_self d m x = ground (arith, Dict.get-put d m m x, =?_refl m)

get-add_scores :
    (z : Zset) (id x : ℕ)
    → Dict.get (add_scores z ((uint id, x) ∷ [])).members (format_uint id) ≡ some x
unfolding add_scores sprint
get-add_scores z id x = get-put_self z.members (format_uint id) x

lookup-z_add :
    (s s' : Store) (key : Text) (l : List (Any × ℕ)) (o : Option Value)
    → lookup s key ≡ o
    → z_add key l s ≡ (ok tt, s')
    → (z : Zset) × (lookup s' key ≡ some (zset (add_scores z l)))
unfolding z_add
lookup-z_add s s' key l none e h =
    (empty_zset, ground (arith, e, h, lookup-write_self s key (zset (add_scores empty_zset l))))
lookup-z_add s s' key l (some (zset z)) e h =
    (z, ground (arith, e, h, lookup-write_self s key (zset (add_scores z l))))
lookup-z_add s s' key l (some v) e h = absurd (ground (arith, e, h))

score-z_add :
    (s s' : Store) (key : Text) (id x : ℕ)
    → z_add key ((uint id, x) ∷ []) s ≡ (ok tt, s')
    → score s' key (format_uint id) ≡ some x
unfolding score
score-z_add s s' key id x h =
    let (z, there) = lookup-z_add s s' key ((uint id, x) ∷ []) (lookup s key) refl h in
    ap (λ v. score_of v (format_uint id)) there ∙ get-add_scores z id x

z_add_frame :
    (s : Store) (key k : Text) (l : List (Any × ℕ))
    → key ≢ k
    → lookup (z_add key l s).1 k ≡ lookup s k
unfolding z_add
z_add_frame s key k l ne = grind (arith, lookup-write_ne)

h_set_frame :
    (s : Store) (key k : Text) (l : List (Text × Any))
    → key ≢ k
    → lookup (h_set key l s).1 k ≡ lookup s k
unfolding h_set
h_set_frame s key k l ne = grind (arith, lookup-write_ne)

pub l_rem_frame :
    (s : Store) (key k : Text) (n : ℕ) (v : Any)
    → key ≢ k
    → lookup (l_rem key n v s).1 k ≡ lookup s k
unfolding l_rem
l_rem_frame s key k n v ne = grind (arith, lookup-write_ne)

status_limited :
    (d d' : Dict Text Text) (now reset_at : ℕ)
    → field_of (fill d' (limit_fields now reset_at d)) (bytes "status") ≡ rate_limited
unfolding fill sprint
status_limited d d' now reset_at = grind (arith, field_of-put)

-- What is true of the store after the call, from the one before it.
pub record IsCooled (g id reset_at : ℕ) (s s' : Store) : Type 0 where
  pub status_is : field_of (details s' (get_key_details_key id)) (bytes "status") ≡ rate_limited
  pub active_is :
      served s' (get_redis_key g active)
      ≡ without (format_uint id) (served s (get_redis_key g active))
  pub score_is : score s' (get_redis_key g cooling) (format_uint id) ≡ some reset_at
  pub ready_is : lookup s' (get_redis_key g ready) ≡ lookup s (get_redis_key g ready)

both_ok :
    (p : Result (Unit {0}) × Store) (m : Exec Store (Unit {0})) (s' : Store)
    → continue p (λ _. m) ≡ (ok tt, s')
    → (p ≡ (ok tt, p.1)) × (m p.1 ≡ (ok tt, s'))
both_ok (ok a, s) m s' h = (refl, h)
both_ok (err e, s) m s' h = absurd (cc)

module _ (now id g : ℕ) (r : RateLimit) (s s' : Store) (d : Dict Text Text) where
  abbrev removed : Store
  removed = (l_rem (get_redis_key g active) 0 (uint id) s).1

  abbrev cooled : Result (Unit {0}) × Store
  cooled = z_add (get_redis_key g cooling) ((uint id, reset_time now r) ∷ []) removed

  abbrev marked : Result (Unit {0}) × Store
  marked = h_set (get_key_details_key id) (limit_fields now (reset_time now r) d) cooled.1

  run_is :
      get_key_details id s ≡ (ok d, s)
      → group_of d s ≡ (ok g, s)
      → handle_rate_limit now r id s ≡ (ok tt, s')
      → (cooled ≡ (ok tt, cooled.1)) × (marked ≡ (ok tt, s'))
  unfolding handle_rate_limit add_to_cooling_pool set_key_details
  run_is e grp h =
      both_ok cooled (h_set (get_key_details_key id) (limit_fields now (reset_time now r) d)) s'
        (rw (e, grp) at h)

  parts : cooled ≡ (ok tt, cooled.1) → marked ≡ (ok tt, s') → IsCooled g id (reset_time now r) s s'
  unfolding served details score sprint
  parts c m =
      let moved : (k : Text) → get_key_details_key id ≢ k → lookup s' k ≡ lookup cooled.1 k =
        λ k ne.
          sym (ap (λ x. lookup x.1 k) m) ∙ h_set_frame cooled.1 (get_key_details_key id) k _ ne in
      record {
        status_is =
            ap (λ f. field_of f (bytes "status"))
              (details-h_set cooled.1 (get_key_details_key id) _ s' m)
            ∙ status_limited d (details cooled.1 (get_key_details_key id)) now (reset_time now r);
        active_is =
            ap as_list (
              moved (get_redis_key g active) (details-ne-pool id g active)
              ∙ z_add_frame removed (get_redis_key g cooling) (get_redis_key g active) _
                  (cooling-ne-active g))
            ∙ served-l_rem s (get_redis_key g active) (uint id);
        score_is =
            ap (λ v. score_of v (format_uint id))
              (moved (get_redis_key g cooling) (details-ne-pool id g cooling))
            ∙ score-z_add removed cooled.1 (get_redis_key g cooling) id (reset_time now r) c;
        ready_is =
            moved (get_redis_key g ready) (details-ne-pool id g ready)
            ∙ z_add_frame removed (get_redis_key g cooling) (get_redis_key g ready) _
                (cooling-ne-ready g)
            ∙ l_rem_frame s (get_redis_key g active) (get_redis_key g ready) 0 (uint id)
                (active-ne-ready g);
      }

  -- HandleRateLimit of a key whose details name its group: if it succeeds, the key is not in the
  -- active pool any more and the other keys of the pool are there in their order, it is in the
  -- cooling pool until its reset, its status is rate limited; and the ready pool has not changed,
  -- so a key that stood there too still does.
  pub handle_rate_limit-IsCooled :
      get_key_details id s ≡ (ok d, s)
      → group_of d s ≡ (ok g, s)
      → handle_rate_limit now r id s ≡ (ok tt, s')
      → IsCooled g id (reset_time now r) s s'
  handle_rate_limit-IsCooled e grp h = let (c, m) = run_is e grp h in parts c m
