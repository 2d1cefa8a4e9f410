-- ===== src/Sharded/Homes.antt =====
-- Every store that can be reached keeps its keys in their shards.
use gpt_load_fix.Prelude.{
  ℕ, ◌-◌, ◌<◌, ◌≡◌, ◌≢◌, true, Option, none, some, List, [], ◌∷◌, arith, ◌∙◌, sym, ap, subst, ◌==◌,
  ◌=?◌, if◌then◌else◌, Bool-cases, inl, inr, =?_iff, nat_eq, ==_iff,
}
use gpt_load_fix.Prelude.Dict
use gpt_load_fix.Prelude.Dict.{Dict}
use gpt_load_fix.Prelude.Int.{ℤ, pos, negsuc}
use gpt_load_fix.Prelude.Text.{Text, text_eq}
use gpt_load_fix.Store.{Value, Store, lookup, write, drop}
use gpt_load_fix.Store.Items
use gpt_load_fix.Store.Hashes
use gpt_load_fix.Store.Lists
use gpt_load_fix.Store.Sets
use gpt_load_fix.Store.Zsets
use gpt_load_fix.Sharded.{
  ShardedStore, ShardedStoreConfig, home, magnitude, is_power_of_2, new_sharded_memory_store,
  new_shard,
}
use gpt_load_fix.Sharded.Values
use gpt_load_fix.Sharded.Calls.{Call, h_incr_by, reply, int, run, run_flat, run_flat-frame}
use gpt_load_fix.Sharded.Refines.{run-Lands, runs}
use gpt_load_fix.Sharded.Resharding.{IsHomed}

abbrev IsMap : Store → Type 0
IsMap s = Dict.Distinct s.entries

write-IsMap : (s : Store) (k : Text) (v : Value) → IsMap s → IsMap (write s k v)
unfolding write
write-IsMap s k v h = Dict.Distinct-put s.entries k v h

drop-IsMap : (s : Store) (k : Text) → IsMap s → IsMap (drop s k)
unfolding drop
drop-IsMap s k h = Dict.Distinct-remove s.entries k h

incremented-IsMap :
    (key : Text) (h : Dict Text Text) (f : Text) (n : ℤ) (o : Option ℤ) (s : Store)
    → IsMap s
    → IsMap (reply int (Values.incremented key h f n o s)).1
unfolding Values.incremented
incremented-IsMap key h f n none s m = write-IsMap s key _ m
incremented-IsMap key h f n (some x) s m = write-IsMap s key _ m

ruleset map_laws = (write-IsMap, drop-IsMap, incremented-IsMap)

run_flat-IsMap :
    (now : ℕ) (key : Text) (x : Call) (s : Store) → IsMap s → IsMap (run_flat now key x s).1
unfolding run_flat Items.set Items.set_nx Items.get Items.delete Items.exists Hashes.h_set
    Hashes.h_get_all Values.h_incr_by Lists.l_push Lists.l_rem Lists.rotate Values.l_len
    Values.l_range Values.z_range Sets.s_add Sets.s_rem Sets.s_members Sets.s_pop_n Zsets.z_add
    Zsets.z_rem Values.z_range_by_score Zsets.z_rem_range_by_score Zsets.z_card
run_flat-IsMap now key (h_incr_by f n) s h = grind (arith, map_laws)
run_flat-IsMap now key x s h = grind (arith, map_laws)

run-IsHomed :
    (now : ℕ) (key : Text) (x : Call) (s : ShardedStore) → IsHomed s → IsHomed (run now key x s).1
run-IsHomed now key x s h =
    let own = (s.shards (home s.mask key)).entries in
    let w = run-Lands now key x s in
    record {
      homed =
          λ i k v lt e. rw w.mask_is (at_home i k v (rw w.count_is at lt) (rw (w.data_of i) at e));
      distinct = λ i. rw (w.data_of i) (elim (Bool-cases (home s.mask key == i)) [
        | inl same ↦ rw same (run_flat-IsMap now key x own (h.distinct (home s.mask key)))
        | inr other ↦ rw other (h.distinct i)
      ]);
      sized = rw (w.mask_is, w.count_is) h.sized;
    }
  where
    at_home :
        (i : ℕ) (k : Text) (v : Value)
        → i < s.count
        → lookup
            (if home s.mask key == i
              then (run_flat now key x (s.shards (home s.mask key)).entries).1
              else (s.shards i).entries)
            k
          ≡ some v
        → i ≡ home s.mask k
    at_home i k v lt e = elim (Bool-cases (home s.mask key == i)) [
      | inr other ↦ h.homed i k v lt (rw other at e)
      | inl same ↦
          let here : home s.mask key ≡ i = (==_iff (home s.mask key) i).0 same in
          elim (Bool-cases (key =? k)) [
            | inl self ↦ sym here ∙ ap (home s.mask) ((=?_iff key k).0 self)
            | inr apart ↦
                let ne : key ≢ k = λ e'. ground (arith, =?_iff key k) in
                let frame = run_flat-frame now key x (s.shards (home s.mask key)).entries k ne in
                sym here
                ∙ h.homed (home s.mask key) k v (omega (arith, here)) (sym frame ∙ rw same at e)
          ]
    ]

-- Any calls keep each key in its shard, where every lookup of it looks, and in no other. A
-- call names one key; Del is a call of Delete for each of its keys.
pub runs-IsHomed :
    (calls : List (ℕ × Text × Call)) (s : ShardedStore) → IsHomed s → IsHomed (runs calls s).1
unfolding runs
runs-IsHomed [] s h = h
runs-IsHomed ((now, key, x) ∷ calls) s h =
    runs-IsHomed calls (run now key x s).1 (run-IsHomed now key x s h)

power_pos : (z : ℤ) → is_power_of_2 z ≡ true → 0 < magnitude z
unfolding is_power_of_2
power_pos (pos n) h = ground arith
power_pos (negsuc n) h = cc

blank : ℕ → ℕ → ShardedStoreConfig → ShardedStore
blank now n config = record {
  shards = λ _. new_shard now;
  count = n;
  mask = n - 1;
  config = config;
}

blank-IsHomed : (now n : ℕ) (config : ShardedStoreConfig) → 0 < n → IsHomed (blank now n config)
unfolding blank lookup Dict.get
blank-IsHomed now n config h = record {
  homed = λ i k v lt e. cc;
  distinct = λ i. tt;
  sized = omega arith;
}

made :
    (now : ℕ) (config : ShardedStoreConfig) (s : ShardedStore)
    → new_sharded_memory_store now config ≡ some s
    → (is_power_of_2 config.shard_count ≡ true)
      × (blank now (magnitude config.shard_count) config ≡ s)
unfolding new_sharded_memory_store blank
made now config s h = ground (arith, h)

pub new-IsHomed :
    (now : ℕ) (config : ShardedStoreConfig) (s : ShardedStore)
    → new_sharded_memory_store now config ≡ some s
    → IsHomed s
new-IsHomed now config s h =
    let (power, e) = made now config s h in
    subst IsHomed e
      (blank-IsHomed now (magnitude config.shard_count) config (power_pos config.shard_count power))
