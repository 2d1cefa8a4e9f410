-- ===== src/Provider/Removed.antt =====
-- Keys that leave the pool: removeKeyFromStore, RemoveKeys and removeKeysByStatus
-- (internal/keypool/provider.go).
use gpt_load_fix.Prelude.{
  ℕ, ◌≡◌, ◌≢◌, refl, ap, ◌∙◌, sym, Bool, false, ◌&&◌, none, List, [], ◌∷◌, ◌==◌, =?_refl, =?_ne,
  ==_iff, if◌then◌else◌, arith, Bool-cases, inl, inr, without,
}
use gpt_load_fix.Prelude.Text.{Text, text_eq}
use gpt_load_fix.Prelude.Text.Decimal.{format_uint}
use gpt_load_fix.Exec.{ok, Exec, uint, sprint, ◌>>=◌}
use gpt_load_fix.Models.{ApiKey}
use gpt_load_fix.Database.{Gorm}
use gpt_load_fix.Store.{Store, lookup, lookup-drop}
use gpt_load_fix.Store.Items.{delete}
use gpt_load_fix.Store.Lists.{l_rem}
use gpt_load_fix.Provider.Transaction.{World, on_db}
use gpt_load_fix.Provider.Steps.{on_db-then}
use gpt_load_fix.Provider.Retry.{transaction-ok}
use gpt_load_fix.Provider.Pool.{
  remove_key_from_store, for_each, pluck_ids, one_of_ids, with_status, remove_keys_by_status,
  delete_found,
}
use gpt_load_fix.Provider.Names.{
  key_hash_key, active_keys_key, key_hash_key-ne-active_keys_key, key_hash_key-injective,
  active_keys_key-injective,
}
use gpt_load_fix.Provider.Views.{
  served, served-l_rem, served-l_rem_ne, served-delete_ne, lookup-l_rem_ne,
}

abbrev pub remove_one : ApiKey → Exec Store (Unit {0})
remove_one key = remove_key_from_store key.id key.group_id

-- The list of a group without the ids of those of the keys that are in the group.
abbrev pub without_keys : ℕ → List ApiKey → List Text → List Text
without_keys group_id [] xs = xs
without_keys group_id (key ∷ keys) xs =
    without_keys group_id keys
      (if key.group_id == group_id then without (format_uint key.id) xs else xs)

module _ (key : ApiKey) (s : Store) where
  remove_one-ok : remove_one key s ≡ (ok tt, (remove_one key s).1)
  unfolding remove_key_from_store delete
  remove_one-ok = refl

  remove_one-list :
      (group_id : ℕ)
      → served (remove_one key s).1 (active_keys_key group_id) ≡ (
          if key.group_id == group_id
          then without (format_uint key.id) (served s (active_keys_key group_id))
          else served s (active_keys_key group_id))
  unfolding remove_key_from_store sprint
  remove_one-list group_id =
      served-delete_ne _ (key_hash_key key.id) (active_keys_key group_id)
        (key_hash_key-ne-active_keys_key key.id group_id)
      ∙ elim (Bool-cases (key.group_id == group_id)) [
        | inl same ↦ rw same (listed ((==_iff key.group_id group_id).0 same))
        | inr other ↦ rw other (unlisted (λ q. absurd (ground (arith, q, other))))
      ]
    where
      listed :
          key.group_id ≡ group_id
          → served
              (l_rem (active_keys_key key.group_id) 0 (uint key.id) s).1
              (active_keys_key group_id)
            ≡ without (format_uint key.id) (served s (active_keys_key group_id))
      listed q =
          ap
            (λ n. served (l_rem (active_keys_key n) 0 (uint key.id) s).1 (active_keys_key group_id))
            q
          ∙ served-l_rem s (active_keys_key group_id) (uint key.id)

      unlisted :
          key.group_id ≢ group_id
          → served
              (l_rem (active_keys_key key.group_id) 0 (uint key.id) s).1
              (active_keys_key group_id)
            ≡ served s (active_keys_key group_id)
      unlisted q =
          served-l_rem_ne s (active_keys_key key.group_id) (active_keys_key group_id)
            (λ e. q (active_keys_key-injective key.group_id group_id e)) (uint key.id)

  remove_one-hash :
      (id : ℕ)
      → lookup (remove_one key s).1 (key_hash_key id)
        ≡ (if key.id == id then none else lookup s (key_hash_key id))
  unfolding remove_key_from_store delete
  remove_one-hash id =
      lookup-drop (l_rem (active_keys_key key.group_id) 0 (uint key.id) s).1 (key_hash_key key.id)
        (key_hash_key id)
      ∙ elim (Bool-cases (key.id == id)) [
        | inl same ↦ rw same (rw ((==_iff key.id id).0 same) (rw (=?_refl (key_hash_key id)) refl))
        | inr other ↦ rw other (
            rw
              (=?_ne (key_hash_key key.id) (key_hash_key id)
                (λ q. different other (key_hash_key-injective key.id id q)))
              (lookup-l_rem_ne s (active_keys_key key.group_id) (key_hash_key id)
                (λ q. key_hash_key-ne-active_keys_key id key.group_id (sym q)) (uint key.id)))
      ]
    where
      different : (key.id == id) ≡ false → key.id ≡ id → ⊥
      different e q = ground arith

-- What removing several keys leaves: no call of it fails; each list is without the keys of its
-- group, and the hashes of the keys are gone, and only those.
for_each-remove_one :
    (keys : List ApiKey) (s : Store)
    → (for_each remove_one keys s ≡ (ok tt, (for_each remove_one keys s).1))
      × ((group_id : ℕ)
          → served (for_each remove_one keys s).1 (active_keys_key group_id)
            ≡ without_keys group_id keys (served s (active_keys_key group_id)))
      × ((id : ℕ)
          → lookup (for_each remove_one keys s).1 (key_hash_key id)
            ≡ (if one_of_ids (pluck_ids keys) id then none else lookup s (key_hash_key id)))
unfolding for_each remove_key_from_store delete
for_each-remove_one [] s = (refl, λ group_id. refl, λ id. refl)
for_each-remove_one (key ∷ keys) s =
    let (done, lists, hashes) = for_each-remove_one keys (remove_one key s).1 in
    (
      done,
      λ group_id. lists group_id ∙ ap (without_keys group_id keys) (remove_one-list key s group_id),
      λ id. ground (arith, hashes id, remove_one-hash key s id),
    )

module _ (g : Gorm) where
  abbrev pub chosen : ℕ → List Text → ApiKey → Bool
  chosen group_id statuses key = (key.group_id == group_id) && with_status statuses key

  -- What is to be true of the store after the call, for the keys that were found.
  abbrev pub AreRemoved : List ApiKey → World g → World g → Type 0
  AreRemoved keys w w' =
      ((group_id : ℕ)
        → served w'.store (active_keys_key group_id)
          ≡ without_keys group_id keys (served w.store (active_keys_key group_id)))
      × ((id : ℕ)
          → lookup w'.store (key_hash_key id)
            ≡ (if one_of_ids (pluck_ids keys) id then none else lookup w.store (key_hash_key id)))

  delete_found-store :
      (keys : List ApiKey) (w w' : World g) (n : ℕ)
      → delete_found g keys w ≡ (ok n, w')
      → w'.store ≡ (for_each remove_one keys w.store).1
  unfolding for_each
  delete_found-store [] w w' n h = ground (arith, h)
  delete_found-store (k ∷ ks) w w' n h = ground (arith, h)

-- Removing the keys of a group that have one of the given statuses (all of them, if none is given):
-- if it ends without an error, then for the keys that the database found, the hash of each is gone
-- from the store and no other hash is; and every list of active keys is what it was without those
-- of these keys that belong to its group.
pub remove_keys_by_status_removes :
    (g : Gorm) (group_id : ℕ) (statuses : List Text) (w w' : World g) (n : ℕ)
    → remove_keys_by_status g group_id statuses w ≡ (ok n, w')
    → (keys : List ApiKey) × (d : g.Db) × (g.find (chosen g group_id statuses) w.db ≡ (ok keys, d))
      × AreRemoved g keys w w'
unfolding remove_keys_by_status
remove_keys_by_status_removes g group_id statuses w w' n h =
    let find = g.find (chosen g group_id statuses) in
    let (w1, ran, kept, same) = transaction-ok g (on_db g find >>= delete_found g) w w' n h in
    let (keys, d, found, rest) = on_db-then g find (delete_found g) w w1 n ran in
    let stored = same ∙ delete_found-store g keys (record w { db = d }) w1 n rest in
    let (done, lists, hashes) = for_each-remove_one keys w.store in
    (
      keys,
      d,
      found,
      (
        λ j. ap (λ s. served s (active_keys_key j)) stored ∙ lists j,
        λ id. ap (λ s. lookup s (key_hash_key id)) stored ∙ hashes id,
      ),
    )
