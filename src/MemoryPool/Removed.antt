-- ===== src/MemoryPool/Removed.antt =====
-- RemoveKeys (internal/keypool/memory_pool.go) leaves nothing of the keys.
use gpt_load_fix.Prelude.{
  ℕ, ◌≡◌, ◌≢◌, ◌≤◌, refl, ◌∙◌, none, List, [], ◌∷◌, arith, All, count, count-without, ◌=?◌, =?_refl,
  =?_iff, inl, inr, Bool-cases, subst, nat_eq,
}
use gpt_load_fix.Prelude.Text.{Text, text_eq}
use gpt_load_fix.Prelude.Text.Decimal.{format_uint}
use gpt_load_fix.Exec.{Result, ok, err, Any, uint, sprint, continue}
use gpt_load_fix.Store.{Store, lookup, lookup-write_ne, lookup-drop_self, lookup-drop_ne}
use gpt_load_fix.Store.Items.{delete}
use gpt_load_fix.Store.Lists.{l_rem}
use gpt_load_fix.Store.Sets.{s_rem}
use gpt_load_fix.Store.Zsets.{z_rem}
use gpt_load_fix.Provider.Views.{served, served-l_rem}
use gpt_load_fix.MemoryPool.{get_key_details_key}
use gpt_load_fix.MemoryPool.Pools.{remove_from_list, delete_details}
use gpt_load_fix.MemoryPool.Cooling.{l_rem_frame}

abbrev pub times : Store → Text → ℕ → ℕ
times s key id = count (format_uint id) (served s key)

-- The first LRem of the loop.
times-l_rem :
    (s : Store) (key : Text) (id j : ℕ) → times (l_rem key 0 (uint id) s).1 key j ≤ times s key j
unfolding sprint
times-l_rem s key id j = ground (
  arith,
  served-l_rem s key (uint id),
  count-without (format_uint id) (format_uint j) (served s key),
)

times-l_rem_self : (s : Store) (key : Text) (id : ℕ) → times (l_rem key 0 (uint id) s).1 key id ≡ 0
unfolding sprint
times-l_rem_self s key id = ground (
  arith,
  served-l_rem s key (uint id),
  count-without (format_uint id) (format_uint id) (served s key),
  =?_refl (format_uint id),
)

-- An LRem that fails finds no list.
l_rem-fails :
    (s s' : Store) (key : Text) (id j : ℕ) {e : _}
    → l_rem key 0 (uint id) s ≡ (err e, s')
    → times s' key j ≡ 0
unfolding l_rem served
l_rem-fails s s' key id j h = ground (arith, h)

module _ (key : Text) where
  after : Result (Unit {0}) × Store → List ℕ → Store
  after r ids = (continue r (λ _. remove_from_list key ids)).1

  kept_less :
      (id : ℕ) (ids : List ℕ) (s : Store) (r : Result (Unit {0}) × Store) (j : ℕ)
      → l_rem key 0 (uint id) s ≡ r
      → ((s1 : Store) → times (remove_from_list key ids s1).1 key j ≤ times s1 key j)
      → times (after r ids) key j ≤ times r.1 key j
  unfolding after
  kept_less id ids s (ok u, s1) j e ih = ih s1
  kept_less id ids s (err x, s1) j e ih = omega arith

  times-remove_from_list :
      (ids : List ℕ) (s : Store) (j : ℕ)
      → times (remove_from_list key ids s).1 key j ≤ times s key j
  unfolding remove_from_list after
  times-remove_from_list [] s j = omega arith
  times-remove_from_list (id ∷ ids) s j = omega (
    arith,
    kept_less id ids s (l_rem key 0 (uint id) s) j refl (λ s1. times-remove_from_list ids s1 j),
    times-l_rem s key id j,
  )

  none_left :
      (ids : List ℕ) (s : Store) → ((j : ℕ) → times s key j ≡ 0) → All (λ j. times s key j ≡ 0) ids
  none_left [] s h = tt
  none_left (id ∷ ids) s h = (h id, none_left ids s h)

  gone_after :
      (id : ℕ) (ids : List ℕ) (s : Store) (r : Result (Unit {0}) × Store)
      → l_rem key 0 (uint id) s ≡ r
      → ((s1 : Store) → All (λ j. times (remove_from_list key ids s1).1 key j ≡ 0) ids)
      → All (λ j. times (after r ids) key j ≡ 0) ids
  unfolding after
  gone_after id ids s (ok u, s1) e ih = ih s1
  gone_after id ids s (err x, s1) e ih = none_left ids s1 (λ j. l_rem-fails s s1 key id j e)

  pub gone-remove_from_list :
      (ids : List ℕ) (s : Store) → All (λ j. times (remove_from_list key ids s).1 key j ≡ 0) ids
  unfolding remove_from_list after
  gone-remove_from_list [] s = tt
  gone-remove_from_list (id ∷ ids) s = (
    omega (
      arith,
      kept_less id ids s (l_rem key 0 (uint id) s) id refl (λ s1. times-remove_from_list ids s1 id),
      times-l_rem_self s key id,
    ),
    gone_after id ids s (l_rem key 0 (uint id) s) refl (λ s1. gone-remove_from_list ids s1),
  )

  frame_after :
      (ids : List ℕ) (k : Text) (r : Result (Unit {0}) × Store)
      → ((s1 : Store) → lookup (remove_from_list key ids s1).1 k ≡ lookup s1 k)
      → lookup (after r ids) k ≡ lookup r.1 k
  unfolding after
  frame_after ids k (ok u, s1) ih = ih s1
  frame_after ids k (err x, s1) ih = refl

  pub remove_from_list_frame :
      (ids : List ℕ) (s : Store) (k : Text)
      → key ≢ k
      → lookup (remove_from_list key ids s).1 k ≡ lookup s k
  unfolding remove_from_list after
  remove_from_list_frame [] s k ne = refl
  remove_from_list_frame (id ∷ ids) s k ne =
      frame_after ids k (l_rem key 0 (uint id) s) (λ s1. remove_from_list_frame ids s1 k ne)
      ∙ l_rem_frame s key k 0 (uint id) ne

pub z_rem_frame :
    (s : Store) (key k : Text) (l : List Any) → key ≢ k → lookup (z_rem key l s).1 k ≡ lookup s k
unfolding z_rem
z_rem_frame s key k l ne = grind (arith, lookup-write_ne)

pub s_rem_frame :
    (s : Store) (key k : Text) (l : List Any) → key ≢ k → lookup (s_rem key l s).1 k ≡ lookup s k
unfolding s_rem
s_rem_frame s key k l ne = grind (arith, lookup-write_ne)

-- The details.
pub delete_details_frame :
    (ids : List ℕ) (s : Store) (k : Text)
    → ((id : ℕ) → get_key_details_key id ≢ k)
    → lookup (delete_details ids s).1 k ≡ lookup s k
unfolding delete_details delete
delete_details_frame [] s k ne = refl
delete_details_frame (id ∷ ids) s k ne =
    delete_details_frame ids (delete (get_key_details_key id) s).1 k ne
    ∙ lookup-drop_ne s (get_key_details_key id) k (ne id)

stays_absent :
    (ids : List ℕ) (s : Store) (k : Text)
    → lookup s k ≡ none
    → lookup (delete_details ids s).1 k ≡ none
unfolding delete_details delete
stays_absent [] s k h = h
stays_absent (id ∷ ids) s k h =
    stays_absent ids (delete (get_key_details_key id) s).1 k
      (elim (Bool-cases (get_key_details_key id =? k)) [
        | inl same ↦
            subst (λ k'. lookup (delete (get_key_details_key id) s).1 k' ≡ none)
              ((=?_iff (get_key_details_key id) k).0 same)
              (lookup-drop_self s (get_key_details_key id))
        | inr other ↦
            lookup-drop_ne s (get_key_details_key id) k
              (λ e. ground (arith, =?_iff (get_key_details_key id) k))
            ∙ h
      ])

pub gone-delete_details :
    (ids : List ℕ) (s : Store)
    → All (λ j. lookup (delete_details ids s).1 (get_key_details_key j) ≡ none) ids
unfolding delete_details delete
gone-delete_details [] s = tt
gone-delete_details (id ∷ ids) s =
    let s1 = (delete (get_key_details_key id) s).1 in
    (
      stays_absent ids s1 (get_key_details_key id) (lookup-drop_self s (get_key_details_key id)),
      gone-delete_details ids s1,
    )
