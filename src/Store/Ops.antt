-- ===== src/Store/Ops.antt =====
-- The interface Store of internal/store/store.go as calls, and what holds of every call of
-- internal/store/memory.go.
use gpt_load_fix.Prelude.{
  ℕ, ◌≡◌, refl, ◌≢◌, ◌↔◌, Bool, true, false, not, Option, none, some, List, ◌⊎◌, arith,
}
use gpt_load_fix.Prelude.Int.{ℤ}
use gpt_load_fix.Prelude.Dict.{Dict}
use gpt_load_fix.Prelude.Text.{Text, text_eq}
use gpt_load_fix.Exec.{Error, not_found, type_mismatch, Result, ok, err, Exec, Any}
use gpt_load_fix.Store.{
  Value, item, hash, list, zset, Store, lookup, drop, lookup-write_ne, lookup-drop_ne,
}
use gpt_load_fix.Store.Items
use gpt_load_fix.Store.Hashes
use gpt_load_fix.Store.Lists
use gpt_load_fix.Store.Sets
use gpt_load_fix.Store.Zsets

-- The calls that name one key.
pub data Op : Type 0 where
  set : Text → ℕ → Op
  -- the second reading of the clock, the value, the time to live
  set_nx : ℕ → Text → ℕ → Op
  get delete exists : Op
  h_set : List (Text × Any) → Op
  h_get_all : Op
  h_incr_by : Text → ℤ → Op
  l_push : List Any → Op
  l_rem : ℕ → Any → Op
  rotate : Op
  s_add s_rem : List Any → Op
  s_members : Op
  s_pop_n : ℕ → Op
  z_add : List (Any × ℕ) → Op
  z_rem : List Any → Op
  z_range_by_score z_rem_range_by_score : ℕ → ℕ → Op
  z_card : Op

pub data Reply : Type 0 where
  done : Reply
  text : Text → Reply
  bool : Bool → Reply
  texts : List Text → Reply
  number : ℕ → Reply
  int : ℤ → Reply
  fields : Dict Text Text → Reply

abbrev reply {ℓ} : {A : Type ℓ} → (A → Reply) → Result A × Store → Result Reply × Store
reply f (ok a, s) = (ok (f a), s)
reply f (err e, s) = (err e, s)

unfoldable pub run : ℕ → Text → Op → Exec Store Reply
run now key (set v ttl) s = reply (λ _. done) (Items.set now key v ttl s)
run now key (set_nx later v ttl) s = reply bool (Items.set_nx now later key v ttl s)
run now key get s = reply text (Items.get now key s)
run now key delete s = reply (λ _. done) (Items.delete key s)
run now key exists s = reply bool (Items.exists now key s)
run now key (h_set values) s = reply (λ _. done) (Hashes.h_set key values s)
run now key h_get_all s = reply fields (Hashes.h_get_all key s)
run now key (h_incr_by f n) s = reply int (Hashes.h_incr_by key f n s)
run now key (l_push values) s = reply (λ _. done) (Lists.l_push key values s)
run now key (l_rem n v) s = reply (λ _. done) (Lists.l_rem key n v s)
run now key rotate s = reply text (Lists.rotate key s)
run now key (s_add members) s = reply (λ _. done) (Sets.s_add key members s)
run now key (s_rem members) s = reply (λ _. done) (Sets.s_rem key members s)
run now key s_members s = reply texts (Sets.s_members key s)
run now key (s_pop_n n) s = reply texts (Sets.s_pop_n key n s)
run now key (z_add members) s = reply (λ _. done) (Zsets.z_add key members s)
run now key (z_rem members) s = reply (λ _. done) (Zsets.z_rem key members s)
run now key (z_range_by_score a b) s = reply texts (Zsets.z_range_by_score key a b s)
run now key (z_rem_range_by_score a b) s = reply number (Zsets.z_rem_range_by_score key a b s)
run now key z_card s = reply number (Zsets.z_card key s)

ruleset frame_laws = (lookup-write_ne, lookup-drop_ne)

-- A call leaves every other key alone.
pub run_frame :
    (now : ℕ) (key : Text) (op : Op) (s : Store) (j : Text)
    → key ≢ j
    → lookup (run now key op s).1 j ≡ lookup s j
unfolding run Items.set Items.set_nx Items.get Items.delete Items.exists Hashes.h_set
    Hashes.h_get_all Hashes.h_incr_by Lists.l_push Lists.l_rem Lists.rotate Sets.s_add Sets.s_rem
    Sets.s_members Sets.s_pop_n Zsets.z_add Zsets.z_rem Zsets.z_range_by_score
    Zsets.z_rem_range_by_score Zsets.z_card
run_frame now key (set v ttl) s j h = grind (arith, frame_laws)
run_frame now key op s j h = grind (arith, frame_laws)

-- Whether a call takes a value of this type.
pub fits : Op → Value → Bool
fits (set v ttl) x = true
fits (set_nx later v ttl) x = true
fits delete x = true
fits exists x = true
fits get (item i) = true
fits (h_set values) (hash h) = true
fits h_get_all (hash h) = true
fits (h_incr_by f n) (hash h) = true
fits (l_push values) (list xs) = true
fits (l_rem n v) (list xs) = true
fits rotate (list xs) = true
fits (s_add members) (Value.set m) = true
fits (s_rem members) (Value.set m) = true
fits s_members (Value.set m) = true
fits (s_pop_n n) (Value.set m) = true
fits (z_add members) (zset z) = true
fits (z_rem members) (zset z) = true
fits (z_range_by_score a b) (zset z) = true
fits (z_rem_range_by_score a b) (zset z) = true
fits z_card (zset z) = true
fits _ _ = false

abbrev pub refuses : Op → Option Value → Bool
refuses op none = false
refuses op (some v) = not (fits op v)

-- A call that fails changed nothing, or dropped the item that it did not find.
abbrev pub FailsCleanly : Text → Store → Result Reply × Store → Type 0
FailsCleanly key s (ok a, s') = Unit
FailsCleanly key s (err e, s') = (s' ≡ s) ⊎ ((e ≡ not_found) × (s' ≡ drop s key))

fails_cleanly :
    (key : Text) (s : Store) (x : Result Reply × Store)
    → ((e : Error) → x.0 ≡ err e → (x.1 ≡ s) ⊎ ((e ≡ not_found) × (x.1 ≡ drop s key)))
    → FailsCleanly key s x
fails_cleanly key s (ok a, s') h = tt
fails_cleanly key s (err e, s') h = h e refl

-- A call fails with a type mismatch exactly when its key holds a value of another type; and a call
-- that fails leaves the store as it was, but for a read that drops the expired item.
pub run_errors :
    (now : ℕ) (key : Text) (op : Op) (s : Store)
    → (((run now key op s).0 ≡ err (type_mismatch key)) ↔ (refuses op (lookup s key) ≡ true))
      × FailsCleanly key s (run now key op s)
unfolding run Items.set Items.set_nx Items.get Items.delete Items.exists Hashes.h_set
    Hashes.h_get_all Hashes.h_incr_by Lists.l_push Lists.l_rem Lists.rotate Sets.s_add Sets.s_rem
    Sets.s_members Sets.s_pop_n Zsets.z_add Zsets.z_rem Zsets.z_range_by_score
    Zsets.z_rem_range_by_score Zsets.z_card fits
run_errors now key (set v ttl) s =
    (ground arith, fails_cleanly key s (run now key (set v ttl) s) (λ e h. ground arith))
run_errors now key op s =
    (ground arith, fails_cleanly key s (run now key op s) (λ e h. ground arith))
