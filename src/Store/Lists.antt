-- ===== src/Store/Lists.antt =====
-- Lists: LPush, LRem, Rotate.
use gpt_load_fix.Prelude.{ℕ, ◌==◌, none, some, List, [], ◌∷◌, ◌++◌, map, if◌then◌else◌, without}
use gpt_load_fix.Prelude.Text.{Text, text_eq}
use gpt_load_fix.Exec.{not_found, count_unsupported, type_mismatch, ok, err, Exec, Any, sprint}
use gpt_load_fix.Store.{list, Store, lookup, write}

unfoldable pub l_push : Text → List Any → Exec Store Unit
unfolding sprint
l_push key values s = elim (lookup s key) [
  | none ↦ (ok tt, write s key (list (map sprint values)))
  | some (list xs) ↦ (ok tt, write s key (list (map sprint values ++ xs)))
  | some _ ↦ (err (type_mismatch key), s)
]

unfoldable pub l_rem : Text → ℕ → Any → Exec Store Unit
unfolding sprint
l_rem key count value s = elim (lookup s key) [
  | none ↦ (ok tt, s)
  | some (list xs) ↦
      if count == 0
      then (ok tt, write s key (list (without (sprint value) xs)))
      else (err count_unsupported, s)
  | some _ ↦ (err (type_mismatch key), s)
]

-- list[:lastIndex] and list[lastIndex]
unfoldable pub split_last : Text → List Text → List Text × Text
split_last x [] = ([], x)
split_last x (y ∷ ys) = let (init, last) = split_last y ys in (x ∷ init, last)

unfoldable pub rotate : Text → Exec Store Text
unfolding split_last
rotate key s = elim (lookup s key) [
  | none ↦ (err not_found, s)
  | some (list []) ↦ (err not_found, s)
  | some (list (x ∷ xs)) ↦
      let (init, last) = split_last x xs in (ok last, write s key (list (last ∷ init)))
  | some _ ↦ (err (type_mismatch key), s)
]
