-- ===== src/Store/Hashes.antt =====
-- Hashes: HSet, HGetAll, HIncrBy.
use gpt_load_fix.Prelude.{◌≡◌, none, some, List, [], ◌∷◌, ◌=?◌, if◌then◌else◌, arith}
use gpt_load_fix.Prelude.Dict
use gpt_load_fix.Prelude.Dict.{Dict}
use gpt_load_fix.Prelude.Int.{ℤ, add64}
use gpt_load_fix.Prelude.Text.{Text, text_eq}
use gpt_load_fix.Prelude.Text.Decimal.{parse_int, format_int}
use gpt_load_fix.Exec.{type_mismatch, ok, err, Exec, Any, sprint}
use gpt_load_fix.Store.{hash, Store, lookup, write}

-- for field, value := range values { hash[field] = fmt.Sprint(value) }
unfoldable pub fill : Dict Text Text → List (Text × Any) → Dict Text Text
unfolding sprint
fill h [] = h
fill h ((field, value) ∷ values) = fill (Dict.put h field (sprint value)) values

unfoldable pub h_set : Text → List (Text × Any) → Exec Store Unit
unfolding fill
h_set key values s = elim (lookup s key) [
  | none ↦ (ok tt, write s key (hash (fill [] values)))
  | some (hash h) ↦ (ok tt, write s key (hash (fill h values)))
  | some _ ↦ (err (type_mismatch key), s)
]

unfoldable pub h_get_all : Text → Exec Store (Dict Text Text)
h_get_all key s = elim (lookup s key) [
  | none ↦ (ok [], s)
  | some (hash h) ↦ (ok h, s)
  | some _ ↦ (err (type_mismatch key), s)
]

-- hash[field], which is the empty text where the field is missing
unfoldable pub field_of : Dict Text Text → Text → Text
field_of h field = elim (Dict.get h field) [ none ↦ [] | some t ↦ t ]

pub field_of-put :
    (h : Dict Text Text) (f g : Text) (t : Text)
    → field_of (Dict.put h f t) g ≡ (if f =? g then t else field_of h g)
unfolding field_of
field_of-put h f g t = ground (arith, Dict.get-put h f g t)

unfoldable pub number_of : Dict Text Text → Text → ℤ
number_of h field = (parse_int (field_of h field)).0

unfoldable pub increment : Dict Text Text → Text → ℤ → Dict Text Text
increment h field incr = Dict.put h field (format_int (add64 (number_of h field) incr))

unfoldable pub h_incr_by : Text → Text → ℤ → Exec Store ℤ
h_incr_by key field incr s = elim (lookup s key) [
  | none ↦ (ok (add64 (number_of [] field) incr), write s key (hash (increment [] field incr)))
  | some (hash h) ↦
      (ok (add64 (number_of h field) incr), write s key (hash (increment h field incr)))
  | some _ ↦ (err (type_mismatch key), s)
]
