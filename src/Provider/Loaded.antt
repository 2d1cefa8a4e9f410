-- ===== src/Provider/Loaded.antt =====
-- The lists of active keys that LoadKeysFromDB (internal/keypool/provider.go) builds.
use mathlib.Core.List.{append_assoc, append-nil, map-map}
use gpt_load_fix.Prelude.{
  ℕ, ◌≡◌, ◌≢◌, refl, ap, ◌∙◌, sym, false, none, some, List, [], ◌∷◌, ◌++◌, map, ◌=?◌, nat_eq,
  if◌then◌else◌, arith, Bool-cases, inl, inr, ==_iff,
}
use gpt_load_fix.Prelude.Dict
use gpt_load_fix.Prelude.Dict.{Dict}
use gpt_load_fix.Prelude.Text.{Text, text_eq}
use gpt_load_fix.Prelude.Text.Decimal.{format_uint}
use gpt_load_fix.Exec.{Result, ok, uint, sprint}
use gpt_load_fix.Models.{ApiKey, active}
use gpt_load_fix.Database.{Gorm}
use gpt_load_fix.Store.{
  list, Store, lookup, write, drop, lookup-write_self, lookup-write_ne, lookup-drop_self,
  lookup-drop_ne,
}
use gpt_load_fix.Store.Items.{set, delete, exists}
use gpt_load_fix.Store.Lists.{l_push}
use gpt_load_fix.Provider.Names.{
  key_hash_key, key_hash_key-ne-active_keys_key, initialization_flag-ne-active_keys_key,
  active_keys_key, active_keys_key-injective, initialization_flag,
}
use gpt_load_fix.Provider.Recovery.{
  load_keys_from_db, collect_active, ids_of, load_details, load_batches, load_list, load_lists,
  finish_load,
}
use gpt_load_fix.Provider.Views.{as_list, served, served-h_set}
use gpt_load_fix.Provider.Transaction.{World}
use gpt_load_fix.Provider.Records.{api_key_to_map}
use gpt_load_fix.Store.Hashes.{h_set}

-- The ids of the active keys of a group, in their order.
abbrev pub active_ids : ℕ → List ApiKey → List ℕ
active_ids group_id [] = []
active_ids group_id (key ∷ keys) =
    (if key.status =? active then if key.group_id =? group_id then key.id ∷ [] else [] else [])
    ++ active_ids group_id keys

abbrev pub all_active_ids : ℕ → List (List ApiKey) → List ℕ
all_active_ids group_id [] = []
all_active_ids group_id (keys ∷ batches) =
    active_ids group_id keys ++ all_active_ids group_id batches

abbrev grown : Dict ℕ (List ℕ) → ApiKey → Dict ℕ (List ℕ)
grown groups key =
    Dict.put groups key.group_id (ids_of (Dict.get groups key.group_id) ++ key.id ∷ [])

added :
    (groups : Dict ℕ (List ℕ)) (key : ApiKey) (group_id : ℕ)
    → ids_of (
        Dict.get
          (Dict.put groups key.group_id (ids_of (Dict.get groups key.group_id) ++ key.id ∷ []))
          group_id)
      ≡ ids_of (Dict.get groups group_id) ++ (if key.group_id =? group_id then key.id ∷ [] else [])
added groups key group_id = ground (
  arith,
  Dict.get-put groups key.group_id group_id (ids_of (Dict.get groups key.group_id) ++ key.id ∷ []),
  append-nil (ids_of (Dict.get groups group_id)),
)

collect_active-ids :
    (keys : List ApiKey) (groups : Dict ℕ (List ℕ)) (group_id : ℕ)
    → ids_of (Dict.get (collect_active groups keys) group_id)
      ≡ ids_of (Dict.get groups group_id) ++ active_ids group_id keys
unfolding collect_active
collect_active-ids [] groups group_id = sym (append-nil (ids_of (Dict.get groups group_id)))
collect_active-ids (key ∷ keys) groups group_id = elim (Bool-cases (key.status =? active)) [
  | inl on ↦ rw on (
      collect_active-ids keys (grown groups key) group_id
      ∙ ap (λ ids. ids ++ active_ids group_id keys) (added groups key group_id)
      ∙ append_assoc (ids_of (Dict.get groups group_id)) _ (active_ids group_id keys))
  | inr off ↦ rw off (collect_active-ids keys groups group_id)
]

load_batches-ids :
    (batches : List (List ApiKey)) (groups : Dict ℕ (List ℕ)) (s : Store) (group_id : ℕ)
    → ids_of (Dict.get (load_batches batches groups s).0 group_id)
      ≡ ids_of (Dict.get groups group_id) ++ all_active_ids group_id batches
unfolding load_batches
load_batches-ids [] groups s group_id = sym (append-nil (ids_of (Dict.get groups group_id)))
load_batches-ids (keys ∷ batches) groups s group_id =
    load_batches-ids batches (collect_active groups keys) (load_details keys s) group_id
    ∙ ap (λ ids. ids ++ all_active_ids group_id batches) (collect_active-ids keys groups group_id)
    ∙ append_assoc (ids_of (Dict.get groups group_id)) _ (all_active_ids group_id batches)

-- No group twice, as in any map of Go.
collect_active-Distinct :
    (keys : List ApiKey) (groups : Dict ℕ (List ℕ))
    → Dict.Distinct groups
    → Dict.Distinct (collect_active groups keys)
unfolding collect_active
collect_active-Distinct [] groups h = h
collect_active-Distinct (key ∷ keys) groups h = elim (Bool-cases (key.status =? active)) [
  | inl on ↦
      rw on (
        collect_active-Distinct keys (grown groups key) (Dict.Distinct-put groups key.group_id _ h))
  | inr off ↦ rw off (collect_active-Distinct keys groups h)
]

load_batches-Distinct :
    (batches : List (List ApiKey)) (groups : Dict ℕ (List ℕ)) (s : Store)
    → Dict.Distinct groups
    → Dict.Distinct (load_batches batches groups s).0
unfolding load_batches
load_batches-Distinct [] groups s h = h
load_batches-Distinct (keys ∷ batches) groups s h =
    load_batches-Distinct batches (collect_active groups keys) (load_details keys s)
      (collect_active-Distinct keys groups h)

-- What one group's list becomes, and every other list stays.
abbrev pub list_or : List ℕ → List Text → List Text
list_or [] former = former
list_or (id ∷ ids) former = map format_uint (id ∷ ids)

pushed :
    (key : Text) (ids : List ℕ) (s : Store)
    → l_push key (map uint ids) (delete key s).1
      ≡ (ok tt, write (drop s key) key (list (map format_uint ids)))
unfolding l_push delete sprint
pushed key ids s = ground (arith, lookup-drop_self s key, map-map sprint uint ids)

load_list_self :
    (group_id : ℕ) (ids : List ℕ) (s : Store)
    → served (load_list group_id ids s) (active_keys_key group_id)
      ≡ list_or ids (served s (active_keys_key group_id))
unfolding load_list served
load_list_self group_id [] s = refl
load_list_self group_id (id ∷ ids) s =
    ap (λ (x : Result (Unit {0}) × Store). as_list (lookup x.1 (active_keys_key group_id)))
      (pushed (active_keys_key group_id) (id ∷ ids) s)
    ∙ ap as_list
        (lookup-write_self (drop s (active_keys_key group_id)) (active_keys_key group_id) _)

load_list-other :
    (group_id j : ℕ) (ids : List ℕ) (s : Store)
    → group_id ≢ j
    → served (load_list group_id ids s) (active_keys_key j) ≡ served s (active_keys_key j)
unfolding load_list served
load_list-other group_id j [] s ne = refl
load_list-other group_id j (id ∷ ids) s ne =
    let apart = λ (q : active_keys_key group_id ≡ active_keys_key j).
      ne (active_keys_key-injective group_id j q) in
    ap (λ (x : Result (Unit {0}) × Store). as_list (lookup x.1 (active_keys_key j)))
      (pushed (active_keys_key group_id) (id ∷ ids) s)
    ∙ ap as_list (
        lookup-write_ne (drop s (active_keys_key group_id)) (active_keys_key group_id)
          (active_keys_key j) _ apart
        ∙ lookup-drop_ne s (active_keys_key group_id) (active_keys_key j) apart)

-- All the lists of a map without a group twice.
load_lists-absent :
    (groups : Dict ℕ (List ℕ)) (s : Store) (j : ℕ)
    → Dict.get groups j ≡ none
    → served (load_lists groups s) (active_keys_key j) ≡ served s (active_keys_key j)
unfolding load_lists Dict.get
load_lists-absent [] s j h = refl
load_lists-absent ((i, ids) ∷ groups) s j h = elim (Bool-cases (i =? j)) [
  | inl same ↦ absurd (nothing (rw same at h))
  | inr other ↦
      load_lists-absent groups (load_list i ids s) j (rw other at h)
      ∙ load_list-other i j ids s (λ q. absurd (ground (arith, q, other)))
]
  where
    nothing : some ids ≡ none → ⊥
    nothing q = cc

load_lists-served :
    (groups : Dict ℕ (List ℕ)) (s : Store) (j : ℕ)
    → Dict.Distinct groups
    → served (load_lists groups s) (active_keys_key j)
      ≡ list_or (ids_of (Dict.get groups j)) (served s (active_keys_key j))
unfolding load_lists Dict.get
load_lists-served [] s j h = refl
load_lists-served ((i, ids) ∷ groups) s j (new, h) = elim (Bool-cases (i =? j)) [
  | inl same ↦ rw same (found ((==_iff i j).0 same))
  | inr other ↦ rw other (
      load_lists-served groups (load_list i ids s) j h
      ∙ ap (list_or (ids_of (Dict.get groups j)))
          (load_list-other i j ids s (λ q. absurd (ground (arith, q, other)))))
]
  where
    found :
        i ≡ j
        → served (load_lists groups (load_list i ids s)) (active_keys_key j)
          ≡ list_or ids (served s (active_keys_key j))
    found q =
        ap (λ k. served (load_lists groups (load_list i ids s)) (active_keys_key k)) (sym q)
        ∙ load_lists-absent groups (load_list i ids s) i new
        ∙ load_list_self i ids s
        ∙ ap (λ k. list_or ids (served s (active_keys_key k))) q

-- The hashes are written beside the lists.
load_details-served :
    (keys : List ApiKey) (s : Store) (j : ℕ)
    → served (load_details keys s) (active_keys_key j) ≡ served s (active_keys_key j)
unfolding load_details
load_details-served [] s j = refl
load_details-served (key ∷ keys) s j =
    load_details-served keys (h_set (key_hash_key key.id) (api_key_to_map key) s).1 j
    ∙ served-h_set s (key_hash_key key.id) (active_keys_key j)
        (key_hash_key-ne-active_keys_key key.id j) (api_key_to_map key)

load_batches-served :
    (batches : List (List ApiKey)) (groups : Dict ℕ (List ℕ)) (s : Store) (j : ℕ)
    → served (load_batches batches groups s).1 (active_keys_key j) ≡ served s (active_keys_key j)
unfolding load_batches
load_batches-served [] groups s j = refl
load_batches-served (keys ∷ batches) groups s j =
    load_batches-served batches (collect_active groups keys) (load_details keys s) j
    ∙ load_details-served keys s j

finish_load-served :
    (now : ℕ) (groups : Dict ℕ (List ℕ)) (s : Store) (j : ℕ)
    → served (finish_load now groups s) (active_keys_key j)
      ≡ served (load_lists groups s) (active_keys_key j)
unfolding finish_load set served
finish_load-served now groups s j = ap as_list (
    lookup-write_ne (load_lists groups s) initialization_flag (active_keys_key j) _
      (initialization_flag-ne-active_keys_key j))

exists-served :
    (now : ℕ) (s : Store) (j : ℕ)
    → served (exists now initialization_flag s).1 (active_keys_key j) ≡ served s (active_keys_key j)
unfolding exists served
exists-served now s j = ground (
  arith,
  lookup-drop_ne s initialization_flag (active_keys_key j)
      (initialization_flag-ne-active_keys_key j),
)

-- If the keys have not been loaded yet and the database hands all of them over, in batches, then
-- loading ends without an error, and the list of each group that has active keys holds the ids of
-- just these keys, in the order in which they came; the lists of other groups stay as they were.
pub load_keys_from_db_lists :
    (g : Gorm) (now : ℕ) (w : World g) (batches : List (List ApiKey)) (d : g.Db) (group_id : ℕ)
    → (exists now initialization_flag w.store).0 ≡ ok false
    → g.find_in_batches 1000 w.db ≡ (batches, ok tt, d)
    → ((load_keys_from_db g now w).0 ≡ ok tt)
      × (served (load_keys_from_db g now w).1.store (active_keys_key group_id)
          ≡ list_or (all_active_ids group_id batches) (served w.store (active_keys_key group_id)))
unfolding load_keys_from_db Dict.get
load_keys_from_db_lists g now w batches d group_id absent found =
    let s = (exists now initialization_flag w.store).1 in
    (
      ground (arith, absent, found),
      ground (arith, absent, found)
          ∙ finish_load-served now (load_batches batches [] s).0 (load_batches batches [] s).1
              group_id
          ∙ load_lists-served (load_batches batches [] s).0 (load_batches batches [] s).1 group_id
              (load_batches-Distinct batches [] s tt)
          ∙ ap (list_or (ids_of (Dict.get (load_batches batches [] s).0 group_id)))
              (load_batches-served batches [] s group_id ∙ exists-served now w.store group_id)
          ∙ ap (λ ids. list_or ids (served w.store (active_keys_key group_id)))
              (load_batches-ids batches [] s group_id),
    )
