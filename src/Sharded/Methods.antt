-- ===== src/Sharded/Methods.antt =====
-- internal/keypool/sharded_memory.go: the methods of ShardedMemoryStore that name one key.
use gpt_load_fix.Prelude.{ℕ, Bool, Option, List, [], ◌∷◌, if◌then◌else◌}
use gpt_load_fix.Prelude.Dict.{Dict, has}
use gpt_load_fix.Prelude.Int.{ℤ}
use gpt_load_fix.Prelude.Text.{Text, text_eq}
use gpt_load_fix.Exec.{Result, ok, err, Exec, Any, pure, ◌>>=◌}
use gpt_load_fix.Store.{Item, Value, Store, lookup}
use gpt_load_fix.Store.Items
use gpt_load_fix.Store.Hashes
use gpt_load_fix.Store.Lists
use gpt_load_fix.Store.Sets
use gpt_load_fix.Store.Zsets
use gpt_load_fix.Sharded.{ShardedStore, Tally, nothing, one_read, one_write, on_shard, home}
use gpt_load_fix.Sharded.Values

-- The tallies: by a success, by a success on a key that is there, and none.
abbrev pub counted : {A : Type 0} → Tally → Store → Result A → Tally
counted c s (ok a) = c
counted c s (err e) = nothing

abbrev pub if_there : {A : Type 0} → Text → Tally → Store → Result A → Tally
if_there key c s (ok a) = if has (lookup s key) then c else nothing
if_there key c s (err e) = nothing

abbrev pub if_some : Tally → Store → Result (List Text) → Tally
if_some c s (ok []) = nothing
if_some c s (ok (x ∷ xs)) = c
if_some c s (err e) = nothing

abbrev pub uncounted : {A : Type 0} → Store → Result A → Tally
uncounted s r = nothing

abbrev Method : Type 0 → Type 0
Method A = Exec ShardedStore A

-- What the shard of a key holds.
abbrev pub data_of : Text → ShardedStore → Store
data_of key s = (s.shards (home s.mask key)).entries

unfoldable pub set : ℕ → Text → Text → ℕ → Method Unit
set now key value ttl = on_shard key (counted one_write) (Items.set now key value ttl)

-- Get and Exists read under the read lock, and may delete later under the write lock: these are
-- what follows on what was read.
unfoldable pub finish_get : ℕ → Text → Result Item → Method Text
finish_get now key found = on_shard key (counted one_read) (Items.finish_get now key found)

unfoldable pub finish_exists : ℕ → Text → Option Value → Method Bool
finish_exists now key found = on_shard key uncounted (Items.finish_exists now key found)

-- With nothing between the two.
unfoldable pub get : ℕ → Text → Method Text
unfolding finish_get
get now key s = finish_get now key (Items.read_item (data_of key s) key) s

unfoldable pub delete : Text → Method Unit
delete key = on_shard key uncounted (Items.delete key)

-- Del: the goroutines of the shards, key after key.
unfoldable pub del : List Text → Method Unit
unfolding delete
del [] = pure tt
del (key ∷ keys) = delete key >>= λ _. del keys

unfoldable pub exists : ℕ → Text → Method Bool
unfolding finish_exists
exists now key s = finish_exists now key (lookup (data_of key s) key) s

unfoldable pub set_nx : ℕ → ℕ → Text → Text → ℕ → Method Bool
set_nx now later key value ttl = on_shard key uncounted (Items.set_nx now later key value ttl)

unfoldable pub h_set : Text → List (Text × Any) → Method Unit
h_set key values = on_shard key (counted one_write) (Hashes.h_set key values)

unfoldable pub h_get_all : Text → Method (Dict Text Text)
h_get_all key = on_shard key (if_there key one_read) (Hashes.h_get_all key)

unfoldable pub h_incr_by : Text → Text → ℤ → Method ℤ
h_incr_by key field incr = on_shard key (counted one_write) (Values.h_incr_by key field incr)

unfoldable pub l_push : Text → List Any → Method Unit
l_push key values = on_shard key (counted one_write) (Lists.l_push key values)

unfoldable pub l_rem : Text → ℕ → Any → Method Unit
l_rem key count value = on_shard key (if_there key one_write) (Lists.l_rem key count value)

unfoldable pub rotate : Text → Method Text
rotate key = on_shard key (counted one_write) (Lists.rotate key)

unfoldable pub l_range : Text → ℤ → ℤ → Method (List Text)
l_range key start stop = on_shard key (if_some one_read) (Values.l_range key start stop)

unfoldable pub l_len : Text → Method ℕ
l_len key = on_shard key (if_there key one_read) (Values.l_len key)

unfoldable pub s_add : Text → List Any → Method Unit
s_add key members = on_shard key (counted one_write) (Sets.s_add key members)

unfoldable pub s_rem : Text → List Any → Method Unit
s_rem key members = on_shard key (if_there key one_write) (Sets.s_rem key members)

unfoldable pub s_members : Text → Method (List Text)
s_members key = on_shard key (if_there key one_read) (Sets.s_members key)

unfoldable pub s_pop_n : Text → ℕ → Method (List Text)
s_pop_n key count = on_shard key (if_there key one_write) (Sets.s_pop_n key count)

unfoldable pub z_add : Text → List (Any × ℕ) → Method Unit
z_add key members = on_shard key (counted one_write) (Zsets.z_add key members)

unfoldable pub z_rem : Text → List Any → Method Unit
z_rem key members = on_shard key (if_there key one_write) (Zsets.z_rem key members)

unfoldable pub z_range : Text → ℤ → ℤ → Method (List Text)
z_range key start stop = on_shard key (if_some one_read) (Values.z_range key start stop)

unfoldable pub z_range_by_score : Text → ℕ → ℕ → Method (List Text)
z_range_by_score key min max =
    on_shard key (if_there key one_read) (Values.z_range_by_score key min max)

unfoldable pub z_rem_range_by_score : Text → ℕ → ℕ → Method ℕ
z_rem_range_by_score key min max =
    on_shard key (if_there key one_write) (Zsets.z_rem_range_by_score key min max)

unfoldable pub z_card : Text → Method ℕ
z_card key = on_shard key (if_there key one_read) (Zsets.z_card key)
