-- ===== src/Sharded/Values.antt =====
-- internal/keypool/sharded_memory.go: what the methods do to the data of one shard, where
-- internal/store/memory.go does not do the same.
use gpt_load_fix.Prelude.{
  ℕ, zero, suc, ◌+◌, ◌-◌, ◌*◌, ◌%◌, ◌^◌, false, ◌&&◌, ◌||◌, Option, none, some, List, [], ◌∷◌, ◌==◌,
  leb, ltb, if◌then◌else◌, length,
}
use mathlib.Core.Option
use gpt_load_fix.Prelude.Dict
use gpt_load_fix.Prelude.Dict.{Dict}
use gpt_load_fix.Prelude.Int.{ℤ, pos, pos_part, sub_ℕ, ◌+ℤ◌, ◌-ℤ◌, add64, ltb_ℤ, leb_ℤ}
use gpt_load_fix.Prelude.Text.{Text, text_eq}
use gpt_load_fix.Prelude.Text.Decimal.{format_int}
use gpt_load_fix.Exec.{bad_number, type_mismatch, ok, err, Exec}
use gpt_load_fix.Store.{Zset, hash, list, zset, Store, lookup, write}
use gpt_load_fix.Store.Zsets.{select_scores}
use gpt_load_fix.Store.Hashes.{field_of}
use gpt_load_fix.Sharded.Sorting.{exchange_sort}

-- The loop of parseInt64, on the bits of `result`, which wrap around.
unfoldable pub digits : ℕ → Text → Option ℕ
digits result [] = some result
digits result (c ∷ t) =
    let rest = digits ((result * 10 + (c - 48)) % 2 ^ 64) t in
    if leb 48 c && leb c 57 then rest else none

-- An int64 by its bits.
unfoldable pub signed : ℕ → ℤ
signed n = if ltb n (2 ^ 63) then pos n else sub_ℕ n (2 ^ 64)

-- parseInt64
unfoldable pub parse_int_64 : Text → Option ℤ
unfolding digits signed
parse_int_64 [] = none
parse_int_64 (c ∷ t) =
    if c == 45
    then Option.map (λ n. signed ((2 ^ 64 - n) % 2 ^ 64)) (digits 0 t)
    else if c == 43
    then Option.map signed (digits 0 t)
    else Option.map signed (digits 0 (c ∷ t))

-- The value of a field, 0 where it is missing.
unfoldable pub field_number : Option Text → Option ℤ
unfolding parse_int_64
field_number none = some (pos 0)
field_number (some t) = parse_int_64 t

unfoldable pub incremented : Text → Dict Text Text → Text → ℤ → Option ℤ → Exec Store ℤ
incremented key h field incr none s = (err (bad_number (field_of h field)), write s key (hash h))
incremented key h field incr (some n) s =
    (ok (add64 n incr), write s key (hash (Dict.put h field (format_int (add64 n incr)))))

-- HIncrBy. A hash that it creates stays there when the field is no number.
unfoldable pub h_incr_by : Text → Text → ℤ → Exec Store ℤ
unfolding field_number incremented
h_incr_by key field incr s = elim (lookup s key) [
  | none ↦ incremented key [] field incr (field_number (Dict.get [] field)) s
  | some (hash h) ↦ incremented key h field incr (field_number (Dict.get h field)) s
  | some _ ↦ (err (type_mismatch key), s)
]

module _ {A : Type 0} where
  abbrev pub take : ℕ → List A → List A
  take zero xs = []
  take (suc n) [] = []
  take (suc n) (x ∷ xs) = x ∷ take n xs

  abbrev pub drop : ℕ → List A → List A
  drop zero xs = xs
  drop (suc n) [] = []
  drop (suc n) (x ∷ xs) = drop n xs

  -- The part of a list that LRange and ZRange copy: negative indices count from the end.
  unfoldable pub part : ℤ → ℤ → List A → List A
  part start stop xs =
      let len = pos (length xs) in
      let start1 = if ltb_ℤ start (pos 0) then len +ℤ start else start in
      let stop1 = if ltb_ℤ stop (pos 0) then len +ℤ stop else stop in
      let start2 = if ltb_ℤ start1 (pos 0) then pos 0 else start1 in
      let stop2 = if leb_ℤ len stop1 then len -ℤ pos 1 else stop1 in
      if length xs == 0 || ltb_ℤ stop2 start2
      then []
      else take (pos_part (stop2 -ℤ start2 +ℤ pos 1)) (drop (pos_part start2) xs)

-- LRange
unfoldable pub l_range : Text → ℤ → ℤ → Exec Store (List Text)
unfolding part
l_range key start stop s = elim (lookup s key) [
  | none ↦ (ok [], s)
  | some (list xs) ↦ (ok (part start stop xs), s)
  | some _ ↦ (err (type_mismatch key), s)
]

-- LLen
unfoldable pub l_len : Text → Exec Store ℕ
l_len key s = elim (lookup s key) [
  | none ↦ (ok 0, s)
  | some (list xs) ↦ (ok (length xs), s)
  | some _ ↦ (err (type_mismatch key), s)
]

-- ensureSorted
unfoldable pub ensure_sorted : Zset → Zset
ensure_sorted zs =
    if zs.dirty
    then record zs { sorted = exchange_sort (length zs.members) zs.members; dirty = false }
    else zs

abbrev pub names : List (Text × ℕ) → List Text
names [] = []
names ((m, x) ∷ xs) = m ∷ names xs

-- ZRange
unfoldable pub z_range : Text → ℤ → ℤ → Exec Store (List Text)
unfolding ensure_sorted part
z_range key start stop s = elim (lookup s key) [
  | none ↦ (ok [], s)
  | some (zset zs) ↦
      let zs' = ensure_sorted zs in
      (ok (names (part start stop zs'.sorted)), write s key (zset zs'))
  | some _ ↦ (err (type_mismatch key), s)
]

-- ZRangeByScore
unfoldable pub z_range_by_score : Text → ℕ → ℕ → Exec Store (List Text)
unfolding ensure_sorted select_scores
z_range_by_score key min max s = elim (lookup s key) [
  | none ↦ (ok [], s)
  | some (zset zs) ↦
      let zs' = ensure_sorted zs in (ok (select_scores min max zs'.sorted), write s key (zset zs'))
  | some _ ↦ (err (type_mismatch key), s)
]
