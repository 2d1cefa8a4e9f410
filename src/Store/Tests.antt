-- ===== src/Store/Tests.antt =====
-- Runs of the in-memory store (internal/store/memory.go).
use gpt_load_fix.Prelude.{
  ℕ, ◌+◌, ◌≡◌, ◌↔◌, refl, ap, true, false, ◌||◌, none, some, List, [], ◌∷◌, ◌++◌, length, ltb, leb,
  ◌==◌, ◌=?◌, ◌&&◌, ◌^◌, if◌then◌else◌, count, arith,
}
use Prim.Native.Nat.{min}
use gpt_load_fix.Prelude.Dict
use gpt_load_fix.Prelude.Dict.{Dict}
use gpt_load_fix.Prelude.Int.{ℤ, pos, add64, wrap64, ◌+ℤ◌}
use gpt_load_fix.Prelude.Text.{Text, text_eq, bytes}
use gpt_load_fix.Exec.{not_found, type_mismatch, Result, ok, err, text, sprint}
use gpt_load_fix.Store.{Item, Zset, item, hash, list, set, zset, Store, empty, lookup, write, drop}
use gpt_load_fix.Store.Items
use gpt_load_fix.Store.Hashes
use gpt_load_fix.Store.Sets
use gpt_load_fix.Store.Zsets
use gpt_load_fix.Store.Rotation.{rotations, round_robin}
use gpt_load_fix.Store.Expiry.{get-set, set_nx_exclusive, expiry_disagrees, get_loses_set}
use gpt_load_fix.Store.Ops
use gpt_load_fix.Store.Ops.{run, refuses, FailsCleanly, run_frame, run_errors}
use gpt_load_fix.Store.Counters.{incr_lem, hash_or_empty}
use gpt_load_fix.Store.Batches.{pop_splits}
use gpt_load_fix.Store.Ranges.{in_range, Ascending}
use gpt_load_fix.Store.Freshness
use gpt_load_fix.Prelude.Text.Decimal.{parse_int, format_int}
use gpt_load_fix.Store.Freshness.{Call, add, remove, range, history, history_range}

abbrev k : Text
k = bytes "k"

abbrev a_list : Store
a_list = write empty k (list (bytes "1" ∷ bytes "2" ∷ bytes "3" ∷ []))

has_list : lookup a_list k ≡ some (list (bytes "1" ∷ bytes "2" ∷ bytes "3" ∷ []))
unfolding lookup write Dict.get Dict.put
has_list = refl

round_robin_example : rotations 3 k a_list ≡ (bytes "3" ∷ bytes "2" ∷ bytes "1" ∷ [], a_list)
round_robin_example = round_robin k a_list (bytes "1" ∷ bytes "2" ∷ bytes "3" ∷ []) has_list

run_frame_example : lookup (run 9 (bytes "j") Ops.delete a_list).1 k ≡ lookup a_list k
run_frame_example =
    run_frame 9 (bytes "j") Ops.delete a_list k (λ q. absurd (omega (arith, ap head q)))
  where
    head : Text → ℕ
    head [] = 0
    head (c ∷ t) = c

run_errors_example :
    (((run 9 k Ops.s_members a_list).0 ≡ err (type_mismatch k))
      ↔ (refuses Ops.s_members (lookup a_list k) ≡ true))
    × FailsCleanly k a_list (run 9 k Ops.s_members a_list)
run_errors_example = run_errors 9 k Ops.s_members a_list

get-set_example :
    let s' = (Items.set 5 k (bytes "v") 10 a_list).1 in
    Items.get 15 k s'
    ≡ (if (10 == 0) || leb 15 (5 + 10) then (ok (bytes "v"), s') else (err not_found, drop s' k))
get-set_example = get-set 5 15 10 k (bytes "v") a_list (omega arith) (omega arith)

abbrev locked : Store
locked = (Items.set_nx 5 5 k (bytes "v") 10 empty).1

locks : Items.set_nx 5 5 k (bytes "v") 10 empty ≡ (ok true, locked)
unfolding Items.set_nx Items.expiry Items.holds lookup write Dict.get Dict.put
locks = refl

set_nx_exclusive_example : Items.set_nx 14 14 k (bytes "w") 10 locked ≡ (
    if ltb 14 (5 + 10) && ltb (5 + 10) (2 ^ 63)
    then (ok false, locked)
    else (ok true, (Items.set 14 k (bytes "w") 10 locked).1))
set_nx_exclusive_example =
    set_nx_exclusive 5 5 14 14 10 10 k (bytes "v") (bytes "w") empty locked (omega arith)
      (omega arith) locks

expiry_disagrees_example :
    let s' = (Items.set 5 k (bytes "v") 10 empty).1 in
    ((Items.get (5 + 10) k s').0 ≡ ok (bytes "v"))
    × ((Items.set_nx (5 + 10) 16 k (bytes "w") 10 s').0 ≡ ok true)
expiry_disagrees_example =
    expiry_disagrees 5 16 10 10 k (bytes "v") (bytes "w") empty (omega arith) (omega arith)

-- The lock for the longest time to live is free at once.
longest_lock :
    (Items.set_nx 6 6 k
      (bytes "w")
      10
      (Items.set_nx 5 5 k (bytes "v") 9223372036854775807 empty).1).0
    ≡ ok true
unfolding Items.set_nx Items.expiry Items.holds Items.is_zero lookup write Dict.get Dict.put add64
    wrap64 ◌+ℤ◌
longest_lock = refl

abbrev old : Item
old = record { value = bytes "v"; expires_at = pos 4 }

abbrev with_old : Store
with_old = write empty k (item old)

has_old : lookup with_old k ≡ some (item old)
unfolding lookup write Dict.get Dict.put
has_old = refl

is_old : Items.expired 5 old ≡ true
unfolding Items.expired
is_old = refl

get_loses_set_example :
    let s' =
      (Items.finish_get 5 k
        (Items.read_item with_old k)
        (Items.set 5 k (bytes "w") 10 with_old).1).1 in
    (Items.get 6 k s').0 ≡ err not_found
get_loses_set_example = get_loses_set 5 5 6 10 k (bytes "w") with_old old has_old is_old

abbrev a_hash : Store
a_hash = write empty k (hash ((bytes "n", bytes "41") ∷ []))

abbrev counted : Result ℤ × Store
counted = Hashes.h_incr_by k (bytes "n") (pos 1) a_hash

counts : counted ≡ (ok (pos 42), counted.1)
unfolding Hashes.h_incr_by Hashes.number_of Hashes.field_of lookup write Dict.get Dict.put parse_int
    add64
counts = refl

incr_lem_example :
    (pos 42 ≡ add64 (Hashes.number_of (hash_or_empty (lookup a_hash k)) (bytes "n")) (pos 1))
    × (Hashes.number_of (hash_or_empty (lookup counted.1 k)) (bytes "n") ≡ pos 42)
    × ((g : Text)
        → Hashes.field_of (hash_or_empty (lookup counted.1 k)) g ≡ (
            if bytes "n" =? g
            then format_int (pos 42)
            else Hashes.field_of (hash_or_empty (lookup a_hash k)) g))
incr_lem_example = incr_lem k (bytes "n") (pos 1) a_hash counted.1 (pos 42) (omega arith) counts

abbrev members : Dict Text (Unit {0})
members = (bytes "a", tt) ∷ (bytes "b", tt) ∷ (bytes "c", tt) ∷ []

abbrev a_set : Store
a_set = write empty k (set members)

has_set : lookup a_set k ≡ some (set members)
unfolding lookup write Dict.get Dict.put
has_set = refl

pop_splits_example :
    (popped left : List Text) × (Sets.s_pop_n k 2 a_set ≡ (ok popped, (Sets.s_pop_n k 2 a_set).1))
    × (Sets.s_members k (Sets.s_pop_n k 2 a_set).1 ≡ (ok left, (Sets.s_pop_n k 2 a_set).1))
    × (Dict.keys members ≡ popped ++ left)
    × (length popped ≡ min 2 (length members))
pop_splits_example = pop_splits k 2 a_set members has_set

abbrev calls : List Call
calls =
    add ((text (bytes "a"), 9) ∷ (text (bytes "b"), 4) ∷ [])
    ∷ range 0 9
    ∷ add ((text (bytes "c"), 6) ∷ [])
    ∷ []

abbrev a_zset : Zset
a_zset = record {
  members = (bytes "a", 9) ∷ (bytes "b", 4) ∷ (bytes "c", 6) ∷ [];
  sorted = (bytes "b", 4) ∷ (bytes "a", 9) ∷ [];
  dirty = true;
}

has_zset : lookup (history k calls empty) k ≡ some (zset a_zset)
unfolding history Freshness.step Zsets.z_add Zsets.z_range_by_score lookup write Dict.get Dict.put
    sprint
has_zset = refl

nothing : lookup empty k ≡ none
unfolding lookup Dict.get
nothing = refl

history_range_example :
    (ms : List Text) × ((Zsets.z_range_by_score k 5 9 (history k calls empty)).0 ≡ ok ms)
    × ((j : Text) → count j ms ≡ in_range 5 9 (Dict.get a_zset.members j))
    × Ascending a_zset.members ms
history_range_example = history_range k calls empty 5 9 a_zset nothing has_zset
