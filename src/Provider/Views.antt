-- ===== src/Provider/Views.antt =====
-- What the store holds for the provider: the hash of a key and the list of a group, and what the
-- calls of internal/store/memory.go do to them.
use mathlib.Core.List.{append-nil}
use gpt_load_fix.Prelude.{◌≡◌, ap, ◌≢◌, Option, some, List, [], ◌++◌, map, arith, without, =?_ne}
use gpt_load_fix.Prelude.Dict.{Dict}
use gpt_load_fix.Prelude.Int.{ℤ, add64}
use gpt_load_fix.Prelude.Text.{Text, text_eq}
use gpt_load_fix.Exec.{Error, ok, err, Any, sprint}
use gpt_load_fix.Store.{
  Value, hash, list, Store, lookup, lookup-write_self, lookup-write_ne, lookup-drop_self,
  lookup-drop_ne,
}
use gpt_load_fix.Store.Items.{delete}
use gpt_load_fix.Store.Lists.{l_push, l_rem}
use gpt_load_fix.Store.Hashes.{
  h_set, h_incr_by, h_get_all, fill, increment, field_of, field_of-put, number_of,
}
use gpt_load_fix.Prelude.Text.Decimal.{format_int}

abbrev as_hash : Option Value → Dict Text Text
as_hash (some (hash h)) = h
as_hash _ = []

abbrev pub as_list : Option Value → List Text
as_list (some (list xs)) = xs
as_list _ = []

-- The fields of a hash, and the entries of a list; what is not there is empty.
unfoldable pub details : Store → Text → Dict Text Text
details s key = as_hash (lookup s key)

unfoldable pub served : Store → Text → List Text
served s key = as_list (lookup s key)

module _ (s : Store) where
  pub h_get_all-details :
      (key : Text) (s' : Store) (d : Dict Text Text)
      → h_get_all key s ≡ (ok d, s')
      → (d ≡ details s key) × (s' ≡ s)
  unfolding h_get_all details
  h_get_all-details key s' d h = ground arith

  pub details-h_set :
      (key : Text) (values : List (Text × Any)) (s' : Store)
      → h_set key values s ≡ (ok tt, s')
      → details s' key ≡ fill (details s key) values
  unfolding h_set details
  details-h_set key values s' h =
      ground (arith, lookup-write_self s key (hash (fill (as_hash (lookup s key)) values)))

  pub lookup-h_set :
      (key : Text) (values : List (Text × Any)) (s' : Store)
      → h_set key values s ≡ (ok tt, s')
      → lookup s' key ≡ some (hash (fill (details s key) values))
  unfolding h_set details
  lookup-h_set key values s' h =
      ground (arith, lookup-write_self s key (hash (fill (as_hash (lookup s key)) values)))

  pub details-h_incr_by :
      (key field : Text) (n r : ℤ) (s' : Store)
      → h_incr_by key field n s ≡ (ok r, s')
      → details s' key ≡ increment (details s key) field n
  unfolding h_incr_by details
  details-h_incr_by key field n r s' h =
      ground (arith, lookup-write_self s key (hash (increment (as_hash (lookup s key)) field n)))

  pub field-h_incr_by :
      (key field f : Text) (n : ℤ)
      → field ≢ f
      → field_of (details (h_incr_by key field n s).1 key) f ≡ field_of (details s key) f
  unfolding h_incr_by details increment
  field-h_incr_by key field f n ne = ground (
    arith,
    lookup-write_self s key (hash (increment (as_hash (lookup s key)) field n)),
    field_of-put (as_hash (lookup s key)) field f
        (format_int (add64 (number_of (as_hash (lookup s key)) field) n)),
    =?_ne field f ne,
  )

  pub served-l_rem :
      (key : Text) (v : Any) → served (l_rem key 0 v s).1 key ≡ without (sprint v) (served s key)
  unfolding l_rem served
  served-l_rem key v =
      ground (arith, lookup-write_self s key (list (without (sprint v) (as_list (lookup s key)))))

  pub served-l_push :
      (key : Text) (values : List Any) (s' : Store)
      → l_push key values s ≡ (ok tt, s')
      → served s' key ≡ map sprint values ++ served s key
  unfolding l_push served
  served-l_push key values s' h = ground (
    arith,
    append-nil (map sprint values),
    lookup-write_self s key (list (map sprint values)),
    lookup-write_self s key (list (map sprint values ++ as_list (lookup s key))),
  )

  pub served-delete : (key : Text) → served (delete key s).1 key ≡ []
  unfolding delete served
  served-delete key = ground (arith, lookup-drop_self s key)

  pub details-delete : (key : Text) → details (delete key s).1 key ≡ []
  unfolding delete details
  details-delete key = ground (arith, lookup-drop_self s key)

  -- A call that fails changes nothing.
  pub h_set_fails :
      (key : Text) (values : List (Text × Any)) (s' : Store) (e : Error)
      → h_set key values s ≡ (err e, s')
      → s' ≡ s
  unfolding h_set
  h_set_fails key values s' e h = ground arith

  pub l_push_fails :
      (key : Text) (values : List Any) (s' : Store) (e : Error)
      → l_push key values s ≡ (err e, s')
      → s' ≡ s
  unfolding l_push
  l_push_fails key values s' e h = ground arith

  -- The key of the hash and that of the list differ, so a call on one leaves the other.
  module _ (key other : Text) (ne : key ≢ other) where
    pub served-h_set :
        (values : List (Text × Any)) → served (h_set key values s).1 other ≡ served s other
    unfolding h_set served
    served-h_set values = grind (arith, lookup-write_ne)

    pub served-h_incr_by :
        (field : Text) (n : ℤ) → served (h_incr_by key field n s).1 other ≡ served s other
    unfolding h_incr_by served
    served-h_incr_by field n = grind (arith, lookup-write_ne)

    pub lookup-l_rem_ne : (v : Any) → lookup (l_rem key 0 v s).1 other ≡ lookup s other
    unfolding l_rem
    lookup-l_rem_ne v = grind (arith, lookup-write_ne)

    pub served-l_rem_ne : (v : Any) → served (l_rem key 0 v s).1 other ≡ served s other
    unfolding served
    served-l_rem_ne v = ap as_list (lookup-l_rem_ne v)

    pub lookup-l_push_ne :
        (values : List Any) → lookup (l_push key values s).1 other ≡ lookup s other
    unfolding l_push
    lookup-l_push_ne values = grind (arith, lookup-write_ne)

    pub details-l_rem : (v : Any) → details (l_rem key 0 v s).1 other ≡ details s other
    unfolding l_rem details
    details-l_rem v = grind (arith, lookup-write_ne)

    pub details-l_push :
        (values : List Any) → details (l_push key values s).1 other ≡ details s other
    unfolding l_push details
    details-l_push values = grind (arith, lookup-write_ne)

    pub served-delete_ne : served (delete key s).1 other ≡ served s other
    unfolding delete served
    served-delete_ne = grind (arith, lookup-drop_ne)
