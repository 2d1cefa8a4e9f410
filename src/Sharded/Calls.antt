-- ===== src/Sharded/Calls.antt =====
-- The methods of ShardedMemoryStore (internal/keypool/sharded_memory.go) as calls, on the shards
-- and on one store.
use gpt_load_fix.Prelude.{ℕ, ◌≡◌, refl, ◌≢◌, Bool, Option, none, some, List, arith, ◌∙◌, sym}
use gpt_load_fix.Prelude.Int.{ℤ}
use gpt_load_fix.Prelude.Dict.{Dict}
use gpt_load_fix.Prelude.Text.{Text, text_eq}
use gpt_load_fix.Exec.{Result, ok, err, Exec, Any}
use gpt_load_fix.Store.{
  Store, lookup, lookup-write_ne, lookup-drop_ne, lookup-write_self, lookup-drop_self,
}
use gpt_load_fix.Store.Items
use gpt_load_fix.Store.Hashes
use gpt_load_fix.Store.Lists
use gpt_load_fix.Store.Sets
use gpt_load_fix.Store.Zsets
use gpt_load_fix.Sharded.{ShardedStore}
use gpt_load_fix.Sharded.Values
use gpt_load_fix.Sharded.Methods

pub data Call : Type 0 where
  set : Text → ℕ → Call
  -- the second reading of the clock, the value, the time to live
  set_nx : ℕ → Text → ℕ → Call
  get delete exists : Call
  h_set : List (Text × Any) → Call
  h_get_all : Call
  h_incr_by : Text → ℤ → Call
  l_push : List Any → Call
  l_rem : ℕ → Any → Call
  rotate l_len : Call
  l_range z_range : ℤ → ℤ → Call
  s_add s_rem : List Any → Call
  s_members : Call
  s_pop_n : ℕ → Call
  z_add : List (Any × ℕ) → Call
  z_rem : List Any → Call
  z_range_by_score z_rem_range_by_score : ℕ → ℕ → Call
  z_card : Call

pub data Reply : Type 0 where
  done : Reply
  text : Text → Reply
  bool : Bool → Reply
  texts : List Text → Reply
  number : ℕ → Reply
  int : ℤ → Reply
  fields : Dict Text Text → Reply

abbrev pub reply : {A S : Type 0} → (A → Reply) → Result A × S → Result Reply × S
reply f (ok a, s) = (ok (f a), s)
reply f (err e, s) = (err e, s)

-- On the shards.
unfoldable pub run : ℕ → Text → Call → Exec ShardedStore Reply
run now key (set v ttl) s = reply (λ _. done) (Methods.set now key v ttl s)
run now key (set_nx later v ttl) s = reply bool (Methods.set_nx now later key v ttl s)
run now key get s = reply text (Methods.get now key s)
run now key delete s = reply (λ _. done) (Methods.delete key s)
run now key exists s = reply bool (Methods.exists now key s)
run now key (h_set values) s = reply (λ _. done) (Methods.h_set key values s)
run now key h_get_all s = reply fields (Methods.h_get_all key s)
run now key (h_incr_by f n) s = reply int (Methods.h_incr_by key f n s)
run now key (l_push values) s = reply (λ _. done) (Methods.l_push key values s)
run now key (l_rem n v) s = reply (λ _. done) (Methods.l_rem key n v s)
run now key rotate s = reply text (Methods.rotate key s)
run now key l_len s = reply number (Methods.l_len key s)
run now key (l_range a b) s = reply texts (Methods.l_range key a b s)
run now key (z_range a b) s = reply texts (Methods.z_range key a b s)
run now key (s_add members) s = reply (λ _. done) (Methods.s_add key members s)
run now key (s_rem members) s = reply (λ _. done) (Methods.s_rem key members s)
run now key s_members s = reply texts (Methods.s_members key s)
run now key (s_pop_n n) s = reply texts (Methods.s_pop_n key n s)
run now key (z_add members) s = reply (λ _. done) (Methods.z_add key members s)
run now key (z_rem members) s = reply (λ _. done) (Methods.z_rem key members s)
run now key (z_range_by_score a b) s = reply texts (Methods.z_range_by_score key a b s)
run now key (z_rem_range_by_score a b) s = reply number (Methods.z_rem_range_by_score key a b s)
run now key z_card s = reply number (Methods.z_card key s)

-- On one store.
unfoldable pub run_flat : ℕ → Text → Call → Exec Store Reply
run_flat now key (set v ttl) s = reply (λ _. done) (Items.set now key v ttl s)
run_flat now key (set_nx later v ttl) s = reply bool (Items.set_nx now later key v ttl s)
run_flat now key get s = reply text (Items.get now key s)
run_flat now key delete s = reply (λ _. done) (Items.delete key s)
run_flat now key exists s = reply bool (Items.exists now key s)
run_flat now key (h_set values) s = reply (λ _. done) (Hashes.h_set key values s)
run_flat now key h_get_all s = reply fields (Hashes.h_get_all key s)
run_flat now key (h_incr_by f n) s = reply int (Values.h_incr_by key f n s)
run_flat now key (l_push values) s = reply (λ _. done) (Lists.l_push key values s)
run_flat now key (l_rem n v) s = reply (λ _. done) (Lists.l_rem key n v s)
run_flat now key rotate s = reply text (Lists.rotate key s)
run_flat now key l_len s = reply number (Values.l_len key s)
run_flat now key (l_range a b) s = reply texts (Values.l_range key a b s)
run_flat now key (z_range a b) s = reply texts (Values.z_range key a b s)
run_flat now key (s_add members) s = reply (λ _. done) (Sets.s_add key members s)
run_flat now key (s_rem members) s = reply (λ _. done) (Sets.s_rem key members s)
run_flat now key s_members s = reply texts (Sets.s_members key s)
run_flat now key (s_pop_n n) s = reply texts (Sets.s_pop_n key n s)
run_flat now key (z_add members) s = reply (λ _. done) (Zsets.z_add key members s)
run_flat now key (z_rem members) s = reply (λ _. done) (Zsets.z_rem key members s)
run_flat now key (z_range_by_score a b) s = reply texts (Values.z_range_by_score key a b s)
run_flat now key (z_rem_range_by_score a b) s = reply number (Zsets.z_rem_range_by_score key a b s)
run_flat now key z_card s = reply number (Zsets.z_card key s)

ruleset write_laws = (lookup-write_ne, lookup-drop_ne, lookup-write_self, lookup-drop_self)

incremented-frame :
    (key : Text) (h : Dict Text Text) (f : Text) (n : ℤ) (o : Option ℤ) (s : Store) (j : Text)
    → key ≢ j
    → lookup (reply int (Values.incremented key h f n o s)).1 j ≡ lookup s j
unfolding Values.incremented
incremented-frame key h f n none s j ne = lookup-write_ne s key j _ ne
incremented-frame key h f n (some x) s j ne = lookup-write_ne s key j _ ne

incremented-local :
    (key : Text) (h : Dict Text Text) (f : Text) (n : ℤ) (o : Option ℤ) (s t : Store)
    → ((reply int (Values.incremented key h f n o s)).0
        ≡ (reply int (Values.incremented key h f n o t)).0)
      × (lookup (reply int (Values.incremented key h f n o s)).1 key
          ≡ lookup (reply int (Values.incremented key h f n o t)).1 key)
unfolding Values.incremented
incremented-local key h f n none s t =
    (refl, lookup-write_self s key _ ∙ sym (lookup-write_self t key _))
incremented-local key h f n (some x) s t =
    (refl, lookup-write_self s key _ ∙ sym (lookup-write_self t key _))

-- A call sees and changes what stands under its key, and nothing else.
pub run_flat-frame :
    (now : ℕ) (key : Text) (x : Call) (s : Store) (j : Text)
    → key ≢ j
    → lookup (run_flat now key x s).1 j ≡ lookup s j
unfolding run_flat Items.set Items.set_nx Items.get Items.delete Items.exists Hashes.h_set
    Hashes.h_get_all Values.h_incr_by Lists.l_push Lists.l_rem Lists.rotate Values.l_len
    Values.l_range Values.z_range Sets.s_add Sets.s_rem Sets.s_members Sets.s_pop_n Zsets.z_add
    Zsets.z_rem Values.z_range_by_score Zsets.z_rem_range_by_score Zsets.z_card
run_flat-frame now key (h_incr_by f n) s j h = grind (arith, incremented-frame)
run_flat-frame now key x s j h = grind (arith, write_laws)

pub run_flat-local :
    (now : ℕ) (key : Text) (x : Call) (s t : Store)
    → lookup s key ≡ lookup t key
    → ((run_flat now key x s).0 ≡ (run_flat now key x t).0)
      × (lookup (run_flat now key x s).1 key ≡ lookup (run_flat now key x t).1 key)
unfolding run_flat Items.set Items.set_nx Items.get Items.delete Items.exists Hashes.h_set
    Hashes.h_get_all Values.h_incr_by Lists.l_push Lists.l_rem Lists.rotate Values.l_len
    Values.l_range Values.z_range Sets.s_add Sets.s_rem Sets.s_members Sets.s_pop_n Zsets.z_add
    Zsets.z_rem Values.z_range_by_score Zsets.z_rem_range_by_score Zsets.z_card
run_flat-local now key (h_incr_by f n) s t h = grind (arith, h, incremented-local)
run_flat-local now key x s t h = grind (arith, write_laws)
