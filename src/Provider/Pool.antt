-- ===== src/Provider/Pool.antt =====
-- Keys that enter and leave the pool (internal/keypool/provider.go): addKeyToStore,
-- removeKeyFromStore, AddKeys, RemoveKeys, RestoreKeys, RestoreMultipleKeys, removeKeysByStatus
-- and RemoveKeysFromStore. The count of rows that Go returns beside an error is dropped: the callers
-- look at the error first.
use gpt_load_fix.Prelude.{
  ℕ, Bool, true, false, ◌&&◌, ◌||◌, List, [], ◌∷◌, ◌==◌, if◌then◌else◌, ◌=?◌,
}
use gpt_load_fix.Prelude.Int.{pos}
use gpt_load_fix.Prelude.Text.{Text, text_eq}
use gpt_load_fix.Exec.{ok, Exec, uint, pure, continue, ◌>>=◌, ◌>>◌}
use gpt_load_fix.Models.{ApiKey, active, invalid}
use gpt_load_fix.Database.{Gorm, Change}
use gpt_load_fix.Store.{Store}
use gpt_load_fix.Store.Items.{delete}
use gpt_load_fix.Store.Lists.{l_push, l_rem}
use gpt_load_fix.Store.Hashes.{h_set}
use gpt_load_fix.Provider.Names.{key_hash_key, active_keys_key}
use gpt_load_fix.Provider.Records.{api_key_to_map}
use gpt_load_fix.Provider.Transaction.{World, on_store, on_db, transaction}

unfoldable pub add_key_to_store : ApiKey → Exec Store (Unit {0})
add_key_to_store key =
    h_set (key_hash_key key.id) (api_key_to_map key)
    >> (if key.status =? active
        then l_rem (active_keys_key key.group_id) 0 (uint key.id)
          >> l_push (active_keys_key key.group_id) (uint key.id ∷ [])
        else pure tt)

abbrev pub ignore_in_store : {A : Type 0} → Exec Store A → Exec Store (Unit {0})
ignore_in_store m s = (ok tt, (m s).1)

unfoldable pub remove_key_from_store : ℕ → ℕ → Exec Store (Unit {0})
remove_key_from_store key_id group_id =
    ignore_in_store (l_rem (active_keys_key group_id) 0 (uint key_id))
    >> delete (key_hash_key key_id)

-- The loop over the keys of a transaction: it ends with the first error.
unfoldable pub for_each {ℓ} :
    {A : Type ℓ} → (A → Exec Store (Unit {0})) → List A → Exec Store (Unit {0})
for_each f [] s = (ok tt, s)
for_each f (k ∷ ks) s = continue (f k s) (λ _ s'. for_each f ks s')

abbrev pub pluck_ids : List ApiKey → List ℕ
pluck_ids [] = []
pluck_ids (k ∷ ks) = k.id ∷ pluck_ids ks

-- x IN xs
abbrev pub one_of_ids : List ℕ → ℕ → Bool
one_of_ids [] x = false
one_of_ids (y ∷ ys) x = (x == y) || one_of_ids ys x

abbrev pub one_of_texts : List Text → Text → Bool
one_of_texts [] x = false
one_of_texts (y ∷ ys) x = (x =? y) || one_of_texts ys x

abbrev pub restored : ApiKey → ApiKey
restored key = record key { status = active; failure_count = pos 0 }

abbrev restore_changes : List Change
restore_changes = Change.status active ∷ Change.failure_count (pos 0) ∷ []

abbrev pub with_status : List Text → ApiKey → Bool
with_status [] key = true
with_status (t ∷ ts) key = one_of_texts (t ∷ ts) key.status

module _ (g : Gorm) where
  unfoldable pub add_keys : ℕ → List ApiKey → Exec (World g) (Unit {0})
  add_keys group_id [] = pure tt
  add_keys group_id (k ∷ ks) =
      transaction g
        (on_db g (g.create (k ∷ ks)) >>= λ keys. on_store g (for_each add_key_to_store keys))

  abbrev pub delete_found : List ApiKey → Exec (World g) ℕ
  delete_found [] = pure 0
  delete_found (k ∷ ks) =
      on_db g (g.delete_where (λ key. one_of_ids (pluck_ids (k ∷ ks)) key.id)) >>= λ n.
      on_store g (for_each (λ (key : ApiKey). remove_key_from_store key.id key.group_id) (k ∷ ks))
      >> pure n

  unfoldable pub remove_keys : ℕ → List Text → Exec (World g) ℕ
  remove_keys group_id [] = pure 0
  remove_keys group_id (v ∷ vs) = transaction g (
      on_db g (g.find (λ key. (key.group_id == group_id) && one_of_texts (v ∷ vs) key.key_value))
      >>= delete_found)

  unfoldable pub remove_keys_by_status : ℕ → List Text → Exec (World g) ℕ
  remove_keys_by_status group_id statuses = transaction g (
      on_db g (g.find (λ key. (key.group_id == group_id) && with_status statuses key))
      >>= delete_found)

  unfoldable pub remove_invalid_keys : ℕ → Exec (World g) ℕ
  remove_invalid_keys group_id = remove_keys_by_status group_id (invalid ∷ [])

  unfoldable pub remove_all_keys : ℕ → Exec (World g) ℕ
  remove_all_keys group_id = remove_keys_by_status group_id []

  abbrev restore_found : (ApiKey → Bool) → List ApiKey → Exec (World g) ℕ
  restore_found chosen [] = pure 0
  restore_found chosen (k ∷ ks) = on_db g (g.updates_where chosen restore_changes) >>= λ n.
      on_store g (for_each (λ key. add_key_to_store (restored key)) (k ∷ ks)) >> pure n

  abbrev is_invalid_in : ℕ → ApiKey → Bool
  is_invalid_in group_id key = (key.group_id == group_id) && (key.status =? invalid)

  unfoldable pub restore_keys : ℕ → Exec (World g) ℕ
  restore_keys group_id =
      transaction g
        (on_db g (g.find (is_invalid_in group_id)) >>= restore_found (is_invalid_in group_id))

  unfoldable pub restore_multiple_keys : ℕ → List Text → Exec (World g) ℕ
  restore_multiple_keys group_id [] = pure 0
  restore_multiple_keys group_id (v ∷ vs) = transaction g (
      on_db g (g.find (λ key. is_invalid_in group_id key && one_of_texts (v ∷ vs) key.key_value))
      >>= λ keys. restore_found (λ key. one_of_ids (pluck_ids keys) key.id) keys)

delete_hashes : List ℕ → Store → Store
delete_hashes [] s = s
delete_hashes (key_id ∷ key_ids) s = delete_hashes key_ids (delete (key_hash_key key_id) s).1

unfoldable pub remove_keys_from_store : ℕ → List ℕ → Exec Store (Unit {0})
unfolding delete_hashes
remove_keys_from_store group_id [] = pure tt
remove_keys_from_store group_id (k ∷ ks) =
    delete (active_keys_key group_id) >> λ s. (ok tt, delete_hashes (k ∷ ks) s)
