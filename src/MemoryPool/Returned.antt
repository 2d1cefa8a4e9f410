-- ===== src/MemoryPool/Returned.antt =====
-- ReturnKey after SelectKey (internal/keypool/memory_pool.go).
use gpt_load_fix.Prelude.{ℕ, ◌≡◌, ◌≢◌, refl, ap, ◌∙◌, Bool, true, some, List, [], ◌∷◌, ◌++◌, arith}
use gpt_load_fix.Prelude.Dict
use gpt_load_fix.Prelude.Dict.{Dict}
use gpt_load_fix.Prelude.Text.{Text, bytes, text_eq}
use gpt_load_fix.Prelude.Text.Decimal.{format_uint, parse_uint}
use gpt_load_fix.Exec.{ok, uint, sprint, ◌>>=◌, continue}
use gpt_load_fix.Store.{list, Store, lookup, write, lookup-write_self, lookup-write_ne}
use gpt_load_fix.Store.Lists.{l_push}
use gpt_load_fix.Store.Hashes.{h_get_all, h_set}
use gpt_load_fix.MemoryPool.{active, get_redis_key, get_key_details_key, PoolConfig, Rows}
use gpt_load_fix.MemoryPool.Details.{get_key_details, set_key_details, group_of, update_key_stats}
use gpt_load_fix.MemoryPool.Handlers.{return_key}
use gpt_load_fix.MemoryPool.Moves.{select_key}
use gpt_load_fix.MemoryPool.Names.{details-ne-pool, pool-ne-details}
use gpt_load_fix.MemoryPool.Refill.{names}
use gpt_load_fix.MemoryPool.Selected.{Detailed, details_stay, select_key-turns}

-- updateKeyStats changes nothing but the details of the key.
stats_frame :
    (now id : ℕ) (b : Bool) (s : Store) (k : Text)
    → get_key_details_key id ≢ k
    → lookup (update_key_stats now id b s).1 k ≡ lookup s k
unfolding update_key_stats get_key_details set_key_details h_get_all h_set
stats_frame now id b s k ne = grind (arith, lookup-write_ne)

stats_ok :
    (now id : ℕ) (b : Bool) (s : Store)
    → update_key_stats now id b s ≡ (ok tt, (update_key_stats now id b s).1)
unfolding update_key_stats
stats_ok now id b s = refl

push_some :
    (s : Store) (key : Text) (xs : List Text) (id : ℕ)
    → lookup s key ≡ some (list xs)
    → l_push key (uint id ∷ []) s ≡ (ok tt, write s key (list (format_uint id ∷ xs)))
unfolding l_push sprint
push_some s key xs id h = rw (h, l_push) refl

group_known :
    (d : Dict Text Text) (t : Text) (g : ℕ) (s : Store)
    → Dict.get d (bytes "group_id") ≡ some t
    → parse_uint t ≡ some g
    → group_of d s ≡ (ok g, s)
unfolding group_of
group_known d t g s e p = rw (e, group_of, p) refl

module _ (config : PoolConfig) (rows : Rows) (now g : ℕ) where
  abbrev active_key : Text
  active_key = get_redis_key g active

  returned :
      (z : ℕ) (xs : List Text) (d : Dict Text Text) (s : Store)
      → lookup s active_key ≡ some (list xs)
      → get_key_details z s ≡ (ok d, s)
      → group_of d s ≡ (ok g, s)
      → (s' : Store) × (return_key rows now z true s ≡ (ok tt, s'))
        × (lookup s' active_key ≡ some (list (format_uint z ∷ xs)))
  unfolding return_key
  returned z xs d s h e grp =
      let s1 = write s active_key (list (format_uint z ∷ xs)) in
      (
        (update_key_stats now z true s1).1,
        rw (e, grp, push_some s active_key xs z h) (stats_ok now z true s1),
        stats_frame now z true s1 active_key (details-ne-pool z g active)
            ∙ lookup-write_self s active_key _,
      )

  -- A key that SelectKey gives out and ReturnKey takes back as a success stands in the active pool
  -- once more than before: SelectKey has left it there, and ReturnKey pushes it.
  pub return_key-duplicates :
      (z : ℕ) (rest : List ℕ) (d : Dict Text Text) (v t : Text) (s : Store)
      → lookup s active_key ≡ some (list (names (rest ++ z ∷ [])))
      → Detailed s z d v
      → Dict.get d (bytes "group_id") ≡ some t
      → parse_uint t ≡ some g
      → (s' : Store) × ((select_key config g >>= λ key. return_key rows now key.id true) s
          ≡ (ok tt, s'))
        × (lookup s' active_key ≡ some (list (names (z ∷ z ∷ rest))))
  return_key-duplicates z rest d v t s h (small, e, k) grp p =
      let s1 = write s active_key (list (names (z ∷ rest))) in
      let stay =
        details_stay z d s s1
          (lookup-write_ne s active_key (get_key_details_key z) _ (pool-ne-details z g active)) e in
      let (s', run, there) =
        returned z (names (z ∷ rest)) d s1 (lookup-write_self s active_key _) stay
          (group_known d t g s1 grp p) in
      (
        s',
        ap (λ r. continue r (λ key. return_key rows now key.id true))
              (select_key-turns config g z rest d v s h (small, e, k))
            ∙ run,
        there,
      )
