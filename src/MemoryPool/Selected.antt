-- ===== src/MemoryPool/Selected.antt =====
-- SelectKey (internal/keypool/memory_pool.go) where the active pool is empty and where it is not.
use mathlib.Core.List.{reverse, reverse-cons, append-nil, map-append}
use gpt_load_fix.Prelude.{
  ℕ, suc, ◌<◌, ◌^◌, ◌≡◌, refl, ap, ◌∙◌, sym, some, List, [], ◌∷◌, ◌++◌, arith, length,
  length-append, All, inl, inr,
}
use gpt_load_fix.Prelude.Dict
use gpt_load_fix.Prelude.Dict.{Dict}
use gpt_load_fix.Prelude.Text.{Text, bytes, text_eq}
use gpt_load_fix.Prelude.Text.Decimal.{format_uint, parse_uint-format_uint}
use gpt_load_fix.Exec.{ok}
use gpt_load_fix.Store.{list, Store, lookup, write, lookup-write_self, lookup-write_ne}
use gpt_load_fix.Store.Lists.{rotate}
use gpt_load_fix.Store.Hashes.{h_get_all}
use gpt_load_fix.Store.Rotation.{rotate_list}
use gpt_load_fix.MemoryPool.{ready, active, get_redis_key, get_key_details_key, PoolConfig}
use gpt_load_fix.MemoryPool.Details.{get_key_details, build_api_key_from_details, built}
use gpt_load_fix.MemoryPool.Moves.{
  move_to_active_pool, need_refill, refill_pools, select_key, or_refill, or_empty,
}
use gpt_load_fix.MemoryPool.Names.{active-ne-ready, pool-ne-details}
use gpt_load_fix.MemoryPool.Refill.{names, Holds, Holds-empty, move_to_active_pool_lem, needs}

-- The details of a key, which name its secret.
abbrev pub Detailed : Store → ℕ → Dict Text Text → Text → Type 0
Detailed s id d v =
    (id < 2 ^ 64) × (get_key_details id s ≡ (ok d, s)) × (Dict.get d (bytes "key_value") ≡ some v)

pub details_stay :
    (id : ℕ) (d : Dict Text Text) (s s' : Store)
    → lookup s' (get_key_details_key id) ≡ lookup s (get_key_details_key id)
    → get_key_details id s ≡ (ok d, s)
    → get_key_details id s' ≡ (ok d, s')
unfolding get_key_details h_get_all
details_stay id d s s' e h = ground (arith, e, h)

module _ (config : PoolConfig) (g : ℕ) where
  abbrev ready_key : Text
  ready_key = get_redis_key g ready

  abbrev active_key : Text
  active_key = get_redis_key g active

  built-ok :
      (z : ℕ) (d : Dict Text Text) (v : Text) (s : Store)
      → Dict.get d (bytes "key_value") ≡ some v
      → build_api_key_from_details z g d s ≡ (ok (built z g d v), s)
  unfolding build_api_key_from_details
  built-ok z d v s e = rw (e, build_api_key_from_details) refl

  chosen :
      (z : ℕ) (d : Dict Text Text) (v : Text) (s s' : Store)
      → or_refill config g (rotate active_key s) ≡ (ok (format_uint z), s')
      → Detailed s' z d v
      → select_key config g s ≡ (ok (built z g d v), s')
  unfolding select_key
  chosen z d v s s' turn (b, h, e) = rw (turn, parse_uint-format_uint z b, h) (built-ok z d v s' e)

  -- SelectKey on an active pool that is not empty turns it.
  pub select_key-turns :
      (z : ℕ) (rest : List ℕ) (d : Dict Text Text) (v : Text) (s : Store)
      → lookup s active_key ≡ some (list (names (rest ++ z ∷ [])))
      → Detailed s z d v
      → select_key config g s ≡ (ok (built z g d v), write s active_key (list (names (z ∷ rest))))
  select_key-turns z rest d v s h (b, e, k) =
      chosen z d v s (write s active_key (list (names (z ∷ rest))))
        (ap (or_refill config g) (
          rotate_list active_key s (names rest) (format_uint z) (names (rest ++ z ∷ []))
            (map-append format_uint rest (z ∷ [])) h))
        (
          b,
          details_stay z d s _
              (lookup-write_ne s active_key (get_key_details_key z) _ (pool-ne-details z g active))
              e,
          k,
        )

  refilled :
      (n : ℕ) (ids : List ℕ) (s s' : Store)
      → need_refill config 0 ≡ suc n
      → Holds s active_key []
      → move_to_active_pool g (suc n) s ≡ (ok ids, s')
      → refill_pools config g s ≡ (ok tt, s')
  unfolding refill_pools
  refilled n ids s s' h a run = rw ((Holds-empty g s a).1, needs config n h, h, run) refl

  or_refilled :
      (s s' : Store)
      → Holds s active_key []
      → refill_pools config g s ≡ (ok tt, s')
      → or_refill config g (rotate active_key s) ≡ or_empty (rotate active_key s')
  or_refilled s s' a run = ap (or_refill config g) (Holds-empty g s a).0 ∙ rw run refl

  -- SelectKey on an empty active pool, where RefillPools moves the last keys of the ready pool, one
  -- or more: it returns the last of them, whatever its status is, and all of them stay in the ready
  -- pool too.
  pub select_key-refills :
      (z : ℕ) (zs ys : List ℕ) (d : Dict Text Text) (v : Text) (s : Store)
      → need_refill config 0 ≡ suc (length zs)
      → All (λ id. id < 2 ^ 64) (z ∷ zs)
      → lookup s ready_key ≡ some (list (names (ys ++ reverse (z ∷ zs))))
      → Holds s active_key []
      → Detailed s z d v
      → (s' : Store) × (select_key config g s ≡ (ok (built z g d v), s'))
        × (lookup s' active_key ≡ some (list (names (z ∷ reverse zs))))
        × (lookup s' ready_key ≡ some (list (names (reverse (z ∷ zs) ++ ys))))
  select_key-refills z zs ys d v s n b h a (small, e, k) =
      let (s1, run, m) = move_to_active_pool_lem g (z ∷ zs) ys [] s b h a in
      let s2 = write s1 active_key (list (names (z ∷ reverse zs))) in
      let filled = refilled (length zs) (z ∷ zs) s s1 n a run in
      (
        s2,
        chosen z d v s s2
            (or_refilled s s1 a filled
              ∙ ap or_empty (
                  rotate_list active_key s1 (names (reverse zs)) (format_uint z)
                    (names (reverse (z ∷ zs))) (last_one z zs) (stored s1 m.active_is)))
            (
              small,
              details_stay z d s s2
                  (lookup-write_ne s1 active_key (get_key_details_key z) _
                      (pool-ne-details z g active)
                    ∙ m.others (get_key_details_key z) (pool-ne-details z g ready)
                        (pool-ne-details z g active))
                  e,
              k,
            ),
        lookup-write_self s1 active_key _,
        lookup-write_ne s1 active_key ready_key _ (active-ne-ready g) ∙ m.ready_is,
      )
    where
      last_one :
          (z : ℕ) (zs : List ℕ)
          → names (reverse (z ∷ zs)) ≡ names (reverse zs) ++ format_uint z ∷ []
      last_one z zs = ap names (reverse-cons z zs) ∙ map-append format_uint (reverse zs) (z ∷ [])

      stored :
          (s1 : Store)
          → Holds s1 active_key (names (reverse (z ∷ zs)) ++ [])
          → lookup s1 active_key ≡ some (list (names (reverse (z ∷ zs))))
      stored s1 (inl h') = h' ∙ ap (λ l. some (list l)) (append-nil (names (reverse (z ∷ zs))))
      stored s1 (inr (h', e)) =
          let none_left = sym (append-nil _ ∙ last_one z zs) ∙ e in
          absurd (
            omega
              (arith, ap length none_left, length-append (names (reverse zs)) (format_uint z ∷ [])))
