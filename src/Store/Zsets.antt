-- ===== src/Store/Zsets.antt =====
-- Sorted sets: ZAdd, ZRem, ZRangeByScore, ZRemRangeByScore, ZCard.
use gpt_load_fix.Prelude.{
  ℕ, ◌-◌, ◌==◌, ltb, leb, Bool, true, false, not, ◌&&◌, ◌||◌, Option, none, some, List, [], ◌∷◌,
  if◌then◌else◌, length,
}
use gpt_load_fix.Prelude.Dict
use gpt_load_fix.Prelude.Dict.{Dict}
use gpt_load_fix.Prelude.Text.{Text, text_eq}
use gpt_load_fix.Exec.{type_mismatch, ok, err, Exec, Any, sprint}
use gpt_load_fix.Store.{Zset, zset, Store, lookup, write}

abbrev pub empty_zset : Zset
empty_zset = record { members = []; sorted = []; dirty = false }

unfoldable pub same_score : Option ℕ → ℕ → Bool
same_score none score = false
same_score (some old) score = old == score

unfoldable pub add_scores : Zset → List (Any × ℕ) → Zset
unfolding same_score sprint
add_scores zs [] = zs
add_scores zs ((member, score) ∷ rest) =
    add_scores
      (record zs {
        members = Dict.put zs.members (sprint member) score;
        dirty = not (same_score (Dict.get zs.members (sprint member)) score) || zs.dirty;
      })
      rest

unfoldable pub z_add : Text → List (Any × ℕ) → Exec Store Unit
unfolding add_scores
z_add key members s = elim (lookup s key) [
  | none ↦ (ok tt, write s key (zset (add_scores empty_zset members)))
  | some (zset zs) ↦ (ok tt, write s key (zset (add_scores zs members)))
  | some _ ↦ (err (type_mismatch key), s)
]

unfoldable pub remove_scores : Zset → List Any → Zset
unfolding sprint
remove_scores zs [] = zs
remove_scores zs (member ∷ rest) =
    remove_scores
      (if Dict.has (Dict.get zs.members (sprint member))
        then record zs { members = Dict.remove zs.members (sprint member); dirty = true }
        else zs)
      rest

unfoldable pub z_rem : Text → List Any → Exec Store Unit
unfolding remove_scores
z_rem key members s = elim (lookup s key) [
  | none ↦ (ok tt, s)
  | some (zset zs) ↦ (ok tt, write s key (zset (remove_scores zs members)))
  | some _ ↦ (err (type_mismatch key), s)
]

-- sort.Slice by score. It leaves the order of equal scores open; here the later of the list's
-- entries comes last.
unfoldable pub insert_by_score : Text × ℕ → List (Text × ℕ) → List (Text × ℕ)
insert_by_score (m, x) [] = (m, x) ∷ []
insert_by_score (m, x) ((n, y) ∷ rest) =
    if leb x y then (m, x) ∷ (n, y) ∷ rest else (n, y) ∷ insert_by_score (m, x) rest

unfoldable pub sort_by_score : List (Text × ℕ) → List (Text × ℕ)
unfolding insert_by_score
sort_by_score [] = []
sort_by_score (entry ∷ rest) = insert_by_score entry (sort_by_score rest)

unfoldable pub ensure_sorted : Zset → Zset
unfolding sort_by_score
ensure_sorted zs =
    if zs.dirty then record zs { sorted = sort_by_score zs.members; dirty = false } else zs

abbrev pub within : ℕ → ℕ → ℕ → Bool
within min max score = leb min score && leb score max

unfoldable pub select_scores : ℕ → ℕ → List (Text × ℕ) → List Text
select_scores min max [] = []
select_scores min max ((m, score) ∷ rest) =
    let more = select_scores min max rest in if within min max score then m ∷ more else more

unfoldable pub z_range_by_score : Text → ℕ → ℕ → Exec Store (List Text)
unfolding ensure_sorted select_scores
z_range_by_score key min max s = elim (lookup s key) [
  | none ↦ (ok [], s)
  | some (zset zs) ↦
      let zs' = ensure_sorted zs in (ok (select_scores min max zs'.sorted), write s key (zset zs'))
  | some _ ↦ (err (type_mismatch key), s)
]

unfoldable pub outside_scores : ℕ → ℕ → Dict Text ℕ → Dict Text ℕ
outside_scores min max [] = []
outside_scores min max ((m, score) ∷ rest) =
    let more = outside_scores min max rest in
    if within min max score then more else (m, score) ∷ more

unfoldable pub remove_range : ℕ → ℕ → Zset → Zset × ℕ
unfolding outside_scores
remove_range min max zs =
    let left = outside_scores min max zs.members in
    let removed = length zs.members - length left in
    (record zs { members = left; dirty = ltb 0 removed || zs.dirty }, removed)

unfoldable pub z_rem_range_by_score : Text → ℕ → ℕ → Exec Store ℕ
unfolding remove_range
z_rem_range_by_score key min max s = elim (lookup s key) [
  | none ↦ (ok 0, s)
  | some (zset zs) ↦
      let (zs', removed) = remove_range min max zs in (ok removed, write s key (zset zs'))
  | some _ ↦ (err (type_mismatch key), s)
]

unfoldable pub z_card : Text → Exec Store ℕ
z_card key s = elim (lookup s key) [
  | none ↦ (ok 0, s)
  | some (zset zs) ↦ (ok (length zs.members), s)
  | some _ ↦ (err (type_mismatch key), s)
]
