-- ===== src/MemoryPool/Gone.antt =====
-- After RemoveKeys (internal/keypool/memory_pool.go) no pool has the keys.
use gpt_load_fix.Prelude.{ℕ, ◌≡◌, ap, ◌∙◌, sym, none, List, [], ◌∷◌, map, All, count, nat_eq, subst}
use gpt_load_fix.Prelude.Dict
use gpt_load_fix.Prelude.Dict.{Dict, has}
use gpt_load_fix.Prelude.Text.{text_eq}
use gpt_load_fix.Prelude.Text.Decimal.{format_uint}
use gpt_load_fix.Exec.{uint}
use gpt_load_fix.Store.{Store, lookup}
use gpt_load_fix.Store.Sets.{s_rem}
use gpt_load_fix.Store.Zsets.{z_rem}
use gpt_load_fix.Provider.Views.{as_list, served}
use gpt_load_fix.MemoryPool.{validation, active, ready, cooling, get_redis_key, get_key_details_key}
use gpt_load_fix.MemoryPool.Pools.{
  remove_keys_from_pool, remove_from_list, delete_details, remove_keys,
}
use gpt_load_fix.MemoryPool.Names.{
  details-ne-pool, active-ne-ready, cooling-ne-active, cooling-ne-ready, cooling-ne-validation,
  active-ne-validation, ready-ne-validation,
}
use gpt_load_fix.MemoryPool.Cooling.{score, score_of}
use gpt_load_fix.MemoryPool.Removed.{
  times, gone-remove_from_list, remove_from_list_frame, z_rem_frame, delete_details_frame,
  gone-delete_details,
}
use gpt_load_fix.MemoryPool.Emptied.{
  member, as_set, lookup-z_rem, lookup-s_rem, gone-rem_scores, gone-rem_members,
}

-- Nothing is left of a key.
pub record IsGone (g : ℕ) (s : Store) (id : ℕ) : Type 0 where
  pub not_validated : member s (get_redis_key g validation) (format_uint id) ≡ none
  pub not_ready : times s (get_redis_key g ready) id ≡ 0
  pub not_active : times s (get_redis_key g active) id ≡ 0
  pub not_cooling : score s (get_redis_key g cooling) (format_uint id) ≡ none
  pub no_details : lookup s (get_key_details_key id) ≡ none

module _ (g : ℕ) (ids : List ℕ) (s : Store) where
  s1 : Store
  s1 = (s_rem (get_redis_key g validation) (map uint ids) s).1

  s2 : Store
  s2 = (remove_from_list (get_redis_key g ready) ids s1).1

  s3 : Store
  s3 = (remove_from_list (get_redis_key g active) ids s2).1

  s4 : Store
  s4 = (z_rem (get_redis_key g cooling) (map uint ids) s3).1

  s5 : Store
  s5 = (delete_details ids s4).1

  from_s1 : lookup s5 (get_redis_key g validation) ≡ lookup s1 (get_redis_key g validation)
  unfolding s2 s3 s4 s5
  from_s1 =
      delete_details_frame ids s4 _ (λ id. details-ne-pool id g validation)
      ∙ z_rem_frame s3 _ _ _ (cooling-ne-validation g)
      ∙ remove_from_list_frame _ ids s2 _ (active-ne-validation g)
      ∙ remove_from_list_frame _ ids s1 _ (ready-ne-validation g)

  from_s2 : lookup s5 (get_redis_key g ready) ≡ lookup s2 (get_redis_key g ready)
  unfolding s3 s4 s5
  from_s2 =
      delete_details_frame ids s4 _ (λ id. details-ne-pool id g ready)
      ∙ z_rem_frame s3 _ _ _ (cooling-ne-ready g)
      ∙ remove_from_list_frame _ ids s2 _ (active-ne-ready g)

  from_s3 : lookup s5 (get_redis_key g active) ≡ lookup s3 (get_redis_key g active)
  unfolding s4 s5
  from_s3 =
      delete_details_frame ids s4 _ (λ id. details-ne-pool id g active)
      ∙ z_rem_frame s3 _ _ _ (cooling-ne-active g)

  from_s4 : lookup s5 (get_redis_key g cooling) ≡ lookup s4 (get_redis_key g cooling)
  unfolding s5
  from_s4 = delete_details_frame ids s4 _ (λ id. details-ne-pool id g cooling)

  together :
      (js : List ℕ)
      → All
          (λ j. Dict.get (as_set (lookup s1 (get_redis_key g validation))) (format_uint j) ≡ none)
          js
      → All (λ j. times s2 (get_redis_key g ready) j ≡ 0) js
      → All (λ j. times s3 (get_redis_key g active) j ≡ 0) js
      → All (λ j. score_of (lookup s4 (get_redis_key g cooling)) (format_uint j) ≡ none) js
      → All (λ j. lookup s5 (get_key_details_key j) ≡ none) js
      → All (IsGone g s5) js
  unfolding served score
  together [] a b c d e = tt
  together (j ∷ js) a b c d e = (
    record {
      not_validated = ap (λ o. Dict.get (as_set o) (format_uint j)) from_s1 ∙ a.0;
      not_ready = ap (λ o. count (format_uint j) (as_list o)) from_s2 ∙ b.0;
      not_active = ap (λ o. count (format_uint j) (as_list o)) from_s3 ∙ c.0;
      not_cooling = ap (λ o. score_of o (format_uint j)) from_s4 ∙ d.0;
      no_details = e.0;
    },
    together js a.1 b.1 c.1 d.1 e.1,
  )

  All-IsGone : All (IsGone g s5) ids
  unfolding s1 s2 s3 s4 s5
  All-IsGone =
      together ids
        (subst (λ o. All (λ j. Dict.get (as_set o) (format_uint j) ≡ none) ids)
          (sym (lookup-s_rem (map uint ids) s (get_redis_key g validation)))
          (gone-rem_members ids (lookup s (get_redis_key g validation))))
        (gone-remove_from_list (get_redis_key g ready) ids s1)
        (gone-remove_from_list (get_redis_key g active) ids s2)
        (subst (λ o. All (λ j. score_of o (format_uint j) ≡ none) ids)
          (sym (lookup-z_rem (map uint ids) s3 (get_redis_key g cooling)))
          (gone-rem_scores ids (lookup s3 (get_redis_key g cooling))))
        (gone-delete_details ids s4)

-- After RemoveKeys none of the keys is in any of the four pools, however often it was there, and
-- their details are gone.
pub remove_keys-IsGone :
    (g : ℕ) (ids : List ℕ) (s : Store) → All (IsGone g (remove_keys g ids s).1) ids
unfolding remove_keys remove_keys_from_pool s1 s2 s3 s4 s5
remove_keys-IsGone g [] s = tt
remove_keys-IsGone g (id ∷ ids) s = All-IsGone g (id ∷ ids) s
