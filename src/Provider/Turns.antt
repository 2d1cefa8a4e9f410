-- ===== src/Provider/Turns.antt =====
-- SelectKey (internal/keypool/provider.go) gives the keys of a group out in turn.
use mathlib.Core.List.{reverse, reverse-reverse, reverse-cons, append_assoc, append-nil, map-append}
use gpt_load_fix.Prelude.{
  ℕ, zero, suc, ◌<◌, ◌^◌, ◌≡◌, refl, ap, ◌∙◌, sym, subst, some, List, [], ◌∷◌, ◌++◌, map, arith,
  length, length-reverse, All, All-append,
}
use gpt_load_fix.Prelude.Dict.{Dict}
use gpt_load_fix.Prelude.Text.{Text}
use gpt_load_fix.Prelude.Text.Decimal.{format_uint, parse_uint-format_uint}
use gpt_load_fix.Exec.{Result, ok, err}
use gpt_load_fix.Models.{ApiKey}
use gpt_load_fix.Store.{
  Value, list, Store, lookup, write, write-write, write_same, lookup-write_self, lookup-write_ne,
}
use gpt_load_fix.Store.Hashes.{h_get_all}
use gpt_load_fix.Store.Rotation.{rotate_list}
use gpt_load_fix.Provider.Names.{key_hash_key, active_keys_key, key_hash_key-ne-active_keys_key}
use gpt_load_fix.Provider.Records.{key_of, select_key}

abbrev collect : Result ApiKey → List ApiKey → List ApiKey
collect (ok key) keys = key ∷ keys
collect (err e) keys = keys

-- `n` calls of SelectKey: the keys they return, and the store they leave.
unfoldable pub selections : ℕ → ℕ → Store → List ApiKey × Store
selections zero group_id s = ([], s)
selections (suc n) group_id s =
    let (r, s') = select_key group_id s in
    let (keys, s'') = selections n group_id s' in (collect r keys, s'')

module _ (group_id : ℕ) (d : ℕ → Dict Text Text) where
  abbrev list_key : Text
  list_key = active_keys_key group_id

  abbrev names : List ℕ → List Text
  names ids = map format_uint ids

  abbrev key_at : ℕ → ApiKey
  key_at id = key_of id group_id (d id)

  -- An id that is a number of Go's, and whose hash reads as given.
  abbrev pub Known : Store → ℕ → Type 0
  Known s id = (id < 2 ^ 64) × (h_get_all (key_hash_key id) s ≡ (ok (d id), s))

  Known-write : (s : Store) (v : Value) (id : ℕ) → Known s id → Known (write s list_key v) id
  unfolding h_get_all
  Known-write s v id (b, h) = (
    b,
    ground (
      arith,
      h,
      lookup-write_ne s list_key (key_hash_key id) v
          (λ q. key_hash_key-ne-active_keys_key id group_id (sym q)),
    ),
  )

  All-Known-write :
      (s : Store) (v : Value) (ids : List ℕ)
      → All (Known s) ids
      → All (Known (write s list_key v)) ids
  All-Known-write s v [] h = tt
  All-Known-write s v (id ∷ ids) (k, h) = (Known-write s v id k, All-Known-write s v ids h)

  select_list :
      (s : Store) (xs l : List Text) (id : ℕ)
      → Known s id
      → l ≡ xs ++ format_uint id ∷ []
      → lookup s list_key ≡ some (list l)
      → select_key group_id s ≡ (ok (key_at id), write s list_key (list (format_uint id ∷ xs)))
  unfolding select_key
  select_list s xs l id k e h = ground (
    arith,
    rotate_list list_key s xs (format_uint id) l e h,
    parse_uint-format_uint id k.0,
    (Known-write s (list (format_uint id ∷ xs)) id k).1,
  )

  selections-step :
      (n : ℕ) (s s' : Store) (key : ApiKey)
      → select_key group_id s ≡ (ok key, s')
      → selections (suc n) group_id s
        ≡ (key ∷ (selections n group_id s').0, (selections n group_id s').1)
  unfolding selections
  selections-step n s s' key h =
      λ i. (collect (h i).0 (selections n group_id (h i).1).0, (selections n group_id (h i).1).1)

  selections_list :
      (s : Store) (zs : List ℕ) (ys l : List Text)
      → All (Known s) zs
      → l ≡ ys ++ names (reverse zs)
      → lookup s list_key ≡ some (list l)
      → selections (length zs) group_id s
        ≡ (map key_at zs, write s list_key (list (names (reverse zs) ++ ys)))
  unfolding selections
  selections_list s [] ys l k e h =
      ap (λ (s' : Store). ([], s'))
        (sym (write_same s list_key (list ys) (h ∙ ap (λ l'. some (list l')) (e ∙ append-nil ys))))
  selections_list s (z ∷ zs) ys l (k, ks) e h =
      selections-step (length zs) s
        (write s list_key (list (format_uint z ∷ (ys ++ names (reverse zs))))) (key_at z)
        (select_list s (ys ++ names (reverse zs)) l z k (e ∙ grouped) h)
      ∙ ap (λ (r : List ApiKey × Store). (key_at z ∷ r.0, r.1))
          (selections_list (write s list_key (list (format_uint z ∷ (ys ++ names (reverse zs))))) zs
            (format_uint z ∷ ys) (format_uint z ∷ (ys ++ names (reverse zs)))
            (All-Known-write s _ zs ks) refl (lookup-write_self s list_key _))
      ∙ ap (λ (s' : Store). (key_at z ∷ map key_at zs, s'))
          (write-write s list_key _ _ ∙ ap (λ l'. write s list_key (list l')) regrouped)
    where
      last_name : names (reverse (z ∷ zs)) ≡ names (reverse zs) ++ format_uint z ∷ []
      last_name = ap names (reverse-cons z zs) ∙ map-append format_uint (reverse zs) (z ∷ [])

      grouped : ys ++ names (reverse (z ∷ zs)) ≡ (ys ++ names (reverse zs)) ++ format_uint z ∷ []
      grouped = rw last_name (sym (append_assoc ys (names (reverse zs)) (format_uint z ∷ [])))

      regrouped : names (reverse zs) ++ format_uint z ∷ ys ≡ names (reverse (z ∷ zs)) ++ ys
      regrouped = rw last_name (sym (append_assoc (names (reverse zs)) (format_uint z ∷ []) ys))

All-reverse {ℓ κ} : {A : Type ℓ} (P : A → Type κ) (xs : List A) → All P xs → All P (reverse xs)
All-reverse P [] h = tt
All-reverse P (x ∷ xs) (h, hs) =
    subst (All P) (sym (reverse-cons x xs))
      (All-append P (reverse xs) (x ∷ []) (All-reverse P xs hs) (h, tt))

-- As many calls of SelectKey as the list of a group has keys return each of them once, from the last
-- to the first, with what their hashes say, and leave the store as it was. The list is assumed to
-- hold numbers of 64 bits, and the hashes to be hashes or absent.
pub select_in_turn :
    (group_id : ℕ) (d : ℕ → Dict Text Text) (s : Store) (ids : List ℕ)
    → All (Known group_id d s) ids
    → lookup s (active_keys_key group_id) ≡ some (list (map format_uint ids))
    → selections (length ids) group_id s ≡ (map (λ id. key_of id group_id (d id)) (reverse ids), s)
select_in_turn group_id d s ids k h = rw (← length-reverse ids) (
    selections_list group_id d s (reverse ids) [] (map format_uint ids)
      (All-reverse (Known group_id d s) ids k) (ap (map format_uint) (sym (reverse-reverse ids))) h
    ∙ ap (λ (s' : Store). (map (key_at group_id d) (reverse ids), s'))
        (write_same s (active_keys_key group_id) _ (
          h
          ∙ ap (λ l. some (list l))
              (sym (append-nil _ ∙ ap (map format_uint) (reverse-reverse ids))))))
