-- ===== src/MemoryPool/Added.antt =====
-- AddKeys, and what SelectKey makes of the keys (internal/keypool/memory_pool.go).
use gpt_load_fix.Prelude.{
  ℕ, zero, suc, ◌≡◌, ◌≢◌, refl, ap, ◌∙◌, inl, inr, Bool-cases, List, [], ◌∷◌, arith,
}
use gpt_load_fix.Prelude.Int.{pos, sub64, leb_ℤ}
use gpt_load_fix.Prelude.Text.{Text, bytes, text_eq}
use gpt_load_fix.Exec.{Result, ok, err, Any, not_found, pool}
use gpt_load_fix.Models.{ApiKey}
use gpt_load_fix.Store.{Store, lookup, lookup-write_ne}
use gpt_load_fix.Store.Lists.{rotate}
use gpt_load_fix.Store.Sets.{s_add}
use gpt_load_fix.MemoryPool.{validation, ready, active, get_redis_key, PoolConfig, Rows}
use gpt_load_fix.MemoryPool.Pools.{add_keys, add_keys_to_pool, add_found, add_valid, valid_ids}
use gpt_load_fix.MemoryPool.Moves.{
  move_to_active_pool, need_refill, refill_pools, select_key, moved,
}
use gpt_load_fix.MemoryPool.Names.{validation-ne-active, validation-ne-ready}
use gpt_load_fix.MemoryPool.Refill.{Holds, Holds-empty}

s_add_frame :
    (s : Store) (key k : Text) (l : List Any) → key ≢ k → lookup (s_add key l s).1 k ≡ lookup s k
unfolding s_add
s_add_frame s key k l ne = grind (arith, lookup-write_ne)

module _ (rows : Rows) (g : ℕ) where
  add_valid_frame :
      (ids : List ℕ) (s : Store) (k : Text)
      → get_redis_key g validation ≢ k
      → lookup (add_valid rows g validation ids s).1 k ≡ lookup s k
  unfolding add_valid
  add_valid_frame [] s k ne = refl
  add_valid_frame (id ∷ ids) s k ne = s_add_frame s (get_redis_key g validation) k _ ne

  add_found_frame :
      (r : Result (List ApiKey)) (s : Store) (k : Text)
      → get_redis_key g validation ≢ k
      → lookup (add_found rows g validation r s).1 k ≡ lookup s k
  add_found_frame (err e) s k ne = refl
  add_found_frame (ok []) s k ne = refl
  add_found_frame (ok (key ∷ keys)) s k ne = add_valid_frame (valid_ids (key ∷ keys)) s k ne

  -- AddKeys changes the validation pool only.
  add_keys_frame :
      (ids : List ℕ) (s : Store) (k : Text)
      → get_redis_key g validation ≢ k
      → lookup (add_keys rows g ids s).1 k ≡ lookup s k
  unfolding add_keys add_keys_to_pool
  add_keys_frame [] s k ne = refl
  add_keys_frame (id ∷ ids) s k ne = add_found_frame (rows.find_keys (id ∷ ids) g) s k ne

Holds-frame :
    (s s' : Store) (key : Text) (xs : List Text)
    → lookup s' key ≡ lookup s key
    → Holds s key xs
    → Holds s' key xs
Holds-frame s s' key xs e (inl h) = inl (e ∙ h)
Holds-frame s s' key xs e (inr (h, n)) = inr (e ∙ h, n)

rotate_empty : (s : Store) (key : Text) → Holds s key [] → rotate key s ≡ (err not_found, s)
unfolding rotate
rotate_empty s key (inl h) = rw (h, rotate) refl
rotate_empty s key (inr (h, e)) = rw (h, rotate) refl

module _ (config : PoolConfig) (g : ℕ) (s : Store) where
  moves_none : (n : ℕ) → Holds s (get_redis_key g ready) [] → move_to_active_pool g n s ≡ (ok [], s)
  unfolding move_to_active_pool
  moves_none zero h = refl
  moves_none (suc n) h =
      ap (moved g (λ w. move_to_active_pool g n w)) (rotate_empty s (get_redis_key g ready) h)

  refills_none :
      Holds s (get_redis_key g ready) []
      → Holds s (get_redis_key g active) []
      → refill_pools config g s ≡ (ok tt, s)
  unfolding refill_pools
  refills_none r a = elim (Bool-cases (leb_ℤ (sub64 config.min_active_keys (pos 0)) (pos 0))) [
    | inl enough ↦ rw ((Holds-empty g s a).1, enough) refl
    | inr needed ↦ rw ((Holds-empty g s a).1, needed, moves_none (need_refill config 0) r) refl
  ]

  selects_none :
      Holds s (get_redis_key g ready) []
      → Holds s (get_redis_key g active) []
      → select_key config g s ≡ (err (pool (bytes "POOL_EMPTY")), s)
  unfolding select_key
  selects_none r a =
      let empty = rotate_empty s (get_redis_key g active) a in
      rw (empty, refills_none r a, empty) refl

-- Whatever keys AddKeys takes in: where the ready and the active pool are empty, SelectKey finds
-- none of them, for they are in the validation pool and the refill looks at the ready pool only.
pub add_keys-unserved :
    (rows : Rows) (config : PoolConfig) (g : ℕ) (ids : List ℕ) (s : Store)
    → Holds s (get_redis_key g ready) []
    → Holds s (get_redis_key g active) []
    → select_key config g (add_keys rows g ids s).1
      ≡ (err (pool (bytes "POOL_EMPTY")), (add_keys rows g ids s).1)
add_keys-unserved rows config g ids s r a =
    let s' = (add_keys rows g ids s).1 in
    selects_none config g s'
      (Holds-frame s s' _ [] (add_keys_frame rows g ids s _ (validation-ne-ready g)) r)
      (Holds-frame s s' _ [] (add_keys_frame rows g ids s _ (validation-ne-active g)) a)
