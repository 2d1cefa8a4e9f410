-- ===== src/Sharded/Refines.antt =====
-- A call on the shards (internal/keypool/sharded_memory.go) does what it does on one store.
use gpt_load_fix.Prelude.{
  ℕ, ◌≡◌, refl, ◌≢◌, Bool, true, false, some, List, [], ◌∷◌, arith, ◌∙◌, sym, ◌==◌, ◌=?◌,
  if◌then◌else◌, Bool-cases, inl, inr, =?_iff, nat_eq, ==_iff, subst,
}
use gpt_load_fix.Prelude.Text.{Text, text_eq}
use gpt_load_fix.Exec.{Result, ok, err, Exec}
use gpt_load_fix.Store.{Store, lookup, empty}
use gpt_load_fix.Store.Items
use gpt_load_fix.Store.Hashes
use gpt_load_fix.Store.Lists
use gpt_load_fix.Store.Sets
use gpt_load_fix.Store.Zsets
use gpt_load_fix.Sharded.{
  Shard, ShardedStore, ShardedStoreConfig, Tally, nothing, one_read, one_write, on_shard, home,
  tally, place, new_sharded_memory_store,
}
use gpt_load_fix.Sharded.Values
use gpt_load_fix.Sharded.Methods
use gpt_load_fix.Sharded.Methods.{counted, if_there, if_some, uncounted}
use gpt_load_fix.Sharded.Calls.{
  Call, set, set_nx, get, delete, exists, h_set, h_get_all, h_incr_by, l_push, l_rem, rotate, l_len,
  l_range, z_range, s_add, s_rem, s_members, s_pop_n, z_add, z_rem, z_range_by_score,
  z_rem_range_by_score, z_card, Reply, done, text, bool, texts, number, int, fields, reply, run,
  run_flat, run_flat-frame, run_flat-local,
}

-- The data of the shards after a run that has changed one of them.
pub record Lands (s : ShardedStore) (key : Text) (o : Result Reply × ShardedStore)
    (p : Result Reply × Store) : Type 0 where
  pub answer : o.0 ≡ p.0
  pub data_of :
      (j : ℕ)
      → (o.1.shards j).entries ≡ (if home s.mask key == j then p.1 else (s.shards j).entries)
  pub mask_is : o.1.mask ≡ s.mask
  pub count_is : o.1.count ≡ s.count

pub tally_keeps : (b : Bool) (c : Tally) (x : Shard) → (tally b c x).entries ≡ x.entries
unfolding tally
tally_keeps true nothing x = refl
tally_keeps true one_read x = refl
tally_keeps true one_write x = refl
tally_keeps false nothing x = refl
tally_keeps false one_read x = refl
tally_keeps false one_write x = refl

placed :
    (s : ShardedStore) (key : Text) (j : ℕ) (x : Shard) (d : Store)
    → x.entries ≡ d
    → (place s.shards (home s.mask key) x j).entries
      ≡ (if home s.mask key == j then d else (s.shards j).entries)
placed s key j x d h = ground (arith, h)

lands :
    {A : Type 0} (s : ShardedStore) (key : Text) (counts : Store → Result A → Tally)
    (m : Exec Store A) (f : A → Reply) (r : Result A × Store)
    → m (s.shards (home s.mask key)).entries ≡ r
    → Lands s key (reply f (on_shard key counts m s)) (reply f r)
unfolding on_shard
lands s key counts m f (ok a, d) e = rw e (record {
  answer = refl;
  data_of = λ j.
      placed s key j
        (tally s.config.enable_metrics (counts (s.shards (home s.mask key)).entries (ok a))
          (record (s.shards (home s.mask key)) { entries = d }))
        d (tally_keeps _ _ _);
  mask_is = refl;
  count_is = refl;
})
lands s key counts m f (err x, d) e = rw e (record {
  answer = refl;
  data_of = λ j.
      placed s key j
        (tally s.config.enable_metrics (counts (s.shards (home s.mask key)).entries (err x))
          (record (s.shards (home s.mask key)) { entries = d }))
        d (tally_keeps _ _ _);
  mask_is = refl;
  count_is = refl;
})

Lands-self :
    {A : Type 0} (s : ShardedStore) (key : Text) (counts : Store → Result A → Tally)
    (m : Exec Store A) (f : A → Reply)
    → Lands s key
        (reply f (on_shard key counts m s))
        (reply f (m (s.shards (home s.mask key)).entries))
Lands-self s key counts m f = lands s key counts m f _ refl

pub run-Lands :
    (now : ℕ) (key : Text) (x : Call) (s : ShardedStore)
    → Lands s key (run now key x s) (run_flat now key x (s.shards (home s.mask key)).entries)
unfolding run run_flat Methods.set Methods.set_nx Methods.get Methods.delete Methods.exists
    Methods.h_set Methods.h_get_all Methods.h_incr_by Methods.l_push Methods.l_rem Methods.rotate
    Methods.l_len Methods.l_range Methods.z_range Methods.s_add Methods.s_rem Methods.s_members
    Methods.s_pop_n Methods.z_add Methods.z_rem Methods.z_range_by_score
    Methods.z_rem_range_by_score Methods.z_card Methods.finish_get Methods.finish_exists Items.get
    Items.exists
run-Lands now key (set v ttl) s =
    Lands-self s key (counted one_write) (Items.set now key v ttl) (λ _. done)
run-Lands now key (set_nx later v ttl) s =
    Lands-self s key uncounted (Items.set_nx now later key v ttl) bool
run-Lands now key get s =
    lands s key (counted one_read)
      (Items.finish_get now key (Items.read_item (s.shards (home s.mask key)).entries key)) text _
      refl
run-Lands now key delete s = Lands-self s key uncounted (Items.delete key) (λ _. done)
run-Lands now key exists s =
    lands s key uncounted
      (Items.finish_exists now key (lookup (s.shards (home s.mask key)).entries key)) bool _ refl
run-Lands now key (h_set values) s =
    Lands-self s key (counted one_write) (Hashes.h_set key values) (λ _. done)
run-Lands now key h_get_all s =
    Lands-self s key (if_there key one_read) (Hashes.h_get_all key) fields
run-Lands now key (h_incr_by f n) s =
    Lands-self s key (counted one_write) (Values.h_incr_by key f n) int
run-Lands now key (l_push values) s =
    Lands-self s key (counted one_write) (Lists.l_push key values) (λ _. done)
run-Lands now key (l_rem n v) s =
    Lands-self s key (if_there key one_write) (Lists.l_rem key n v) (λ _. done)
run-Lands now key rotate s = Lands-self s key (counted one_write) (Lists.rotate key) text
run-Lands now key l_len s = Lands-self s key (if_there key one_read) (Values.l_len key) number
run-Lands now key (l_range a b) s =
    Lands-self s key (if_some one_read) (Values.l_range key a b) texts
run-Lands now key (z_range a b) s =
    Lands-self s key (if_some one_read) (Values.z_range key a b) texts
run-Lands now key (s_add members) s =
    Lands-self s key (counted one_write) (Sets.s_add key members) (λ _. done)
run-Lands now key (s_rem members) s =
    Lands-self s key (if_there key one_write) (Sets.s_rem key members) (λ _. done)
run-Lands now key s_members s = Lands-self s key (if_there key one_read) (Sets.s_members key) texts
run-Lands now key (s_pop_n n) s =
    Lands-self s key (if_there key one_write) (Sets.s_pop_n key n) texts
run-Lands now key (z_add members) s =
    Lands-self s key (counted one_write) (Zsets.z_add key members) (λ _. done)
run-Lands now key (z_rem members) s =
    Lands-self s key (if_there key one_write) (Zsets.z_rem key members) (λ _. done)
run-Lands now key (z_range_by_score a b) s =
    Lands-self s key (if_there key one_read) (Values.z_range_by_score key a b) texts
run-Lands now key (z_rem_range_by_score a b) s =
    Lands-self s key (if_there key one_write) (Zsets.z_rem_range_by_score key a b) number
run-Lands now key z_card s = Lands-self s key (if_there key one_read) (Zsets.z_card key) number

-- The shards hold under each key what one store holds.
abbrev pub Agrees : ShardedStore → Store → Type 0
Agrees s t = (k : Text) → lookup (s.shards (home s.mask k)).entries k ≡ lookup t k

step_refines :
    (now : ℕ) (key : Text) (x : Call) (s : ShardedStore) (t : Store)
    → Agrees s t
    → ((run now key x s).0 ≡ (run_flat now key x t).0)
      × Agrees (run now key x s).1 (run_flat now key x t).1
step_refines now key x s t a =
    let own = (s.shards (home s.mask key)).entries in
    let w = run-Lands now key x s in
    let (same, there) = run_flat-local now key x own t (a key) in
    (w.answer ∙ same, λ k. rw (w.mask_is, w.data_of (home s.mask k)) (agree k w there))
  where
    agree :
        (k : Text)
        → Lands s key (run now key x s) (run_flat now key x (s.shards (home s.mask key)).entries)
        → lookup (run_flat now key x (s.shards (home s.mask key)).entries).1 key
          ≡ lookup (run_flat now key x t).1 key
        → lookup
            (if home s.mask key == home s.mask k
              then (run_flat now key x (s.shards (home s.mask key)).entries).1
              else (s.shards (home s.mask k)).entries)
            k
          ≡ lookup (run_flat now key x t).1 k
    agree k w there = elim (Bool-cases (key =? k)) [
      | inl same ↦
          let e : key ≡ k = (=?_iff key k).0 same in
          subst
            (λ k'.
              lookup
                (if home s.mask key == home s.mask k'
                  then (run_flat now key x (s.shards (home s.mask key)).entries).1
                  else (s.shards (home s.mask k')).entries)
                k'
              ≡ lookup (run_flat now key x t).1 k')
            e (rw ((==_iff (home s.mask key) (home s.mask key)).1 refl) there)
      | inr other ↦
          let ne : key ≢ k = λ e. ground (arith, =?_iff key k) in
          let flat = run_flat-frame now key x t k ne in
          elim (Bool-cases (home s.mask key == home s.mask k)) [
            | inl together ↦
                rw
                  (
                    together,
                    run_flat-frame now key x (s.shards (home s.mask key)).entries k ne,
                    flat,
                  )
                  (subst (λ i. lookup (s.shards i).entries k ≡ lookup t k)
                    (sym ((==_iff (home s.mask key) (home s.mask k)).0 together)) (a k))
            | inr apart ↦ rw (apart, flat) (a k)
          ]
    ]

-- Calls in order, each at its instant and on its key, and what they answer.
unfoldable pub runs : List (ℕ × Text × Call) → ShardedStore → List (Result Reply) × ShardedStore
runs [] s = ([], s)
runs ((now, key, x) ∷ calls) s =
    let (r, s') = run now key x s in let (rs, s'') = runs calls s' in (r ∷ rs, s'')

-- The goroutines of Del, in one order: a Delete of each of its keys.
abbrev deletes : ℕ → List Text → List (ℕ × Text × Call)
deletes now [] = []
deletes now (key ∷ keys) = (now, key, delete) ∷ deletes now keys

-- Del does not fail, and does what calls of Delete do that name its keys one after the other.
pub del-runs :
    (now : ℕ) (keys : List Text) (s : ShardedStore)
    → Methods.del keys s ≡ (ok tt, (runs (deletes now keys) s).1)
unfolding runs run Methods.del Methods.delete on_shard Items.delete
del-runs now [] s = refl
del-runs now (key ∷ keys) s = del-runs now keys (run now key delete s).1

unfoldable pub runs_flat : List (ℕ × Text × Call) → Store → List (Result Reply) × Store
runs_flat [] t = ([], t)
runs_flat ((now, key, x) ∷ calls) t =
    let (r, t') = run_flat now key x t in let (rs, t'') = runs_flat calls t' in (r ∷ rs, t'')

pub runs_agree :
    (calls : List (ℕ × Text × Call)) (s : ShardedStore) (t : Store)
    → Agrees s t
    → ((runs calls s).0 ≡ (runs_flat calls t).0) × Agrees (runs calls s).1 (runs_flat calls t).1
unfolding runs runs_flat
runs_agree [] s t a = (refl, a)
runs_agree ((now, key, x) ∷ calls) s t a =
    let (same, a') = step_refines now key x s t a in
    let (rest, a'') = runs_agree calls (run now key x s).1 (run_flat now key x t).1 a' in
    (ground (arith, same, rest), a'')

Agrees-new :
    (now : ℕ) (config : ShardedStoreConfig) (s : ShardedStore)
    → new_sharded_memory_store now config ≡ some s
    → Agrees s empty
unfolding new_sharded_memory_store
Agrees-new now config s h k = ground arith

-- Whatever the number of shards: any calls on a new store answer what they answer on one store
-- that is empty at first, and then each key holds, in its shard, what it holds there. A call names
-- one key; Del is a call of Delete for each of its keys.
pub sharded_refines :
    (calls : List (ℕ × Text × Call)) (now : ℕ) (config : ShardedStoreConfig) (s : ShardedStore)
    → new_sharded_memory_store now config ≡ some s
    → ((runs calls s).0 ≡ (runs_flat calls empty).0)
      × Agrees (runs calls s).1 (runs_flat calls empty).1
sharded_refines calls now config s h = runs_agree calls s empty (Agrees-new now config s h)
