-- ===== src/Sharded.antt =====
-- internal/keypool/sharded_memory.go: ShardedMemoryStore. Each shard has its own lock; a method
-- runs under the lock of one shard, so it is one step, but for Get and Exists, which let go of the
-- lock between reading a key and deleting it; see Methods.
pub mod Sorting
pub mod Values
pub mod Methods
pub mod Calls
pub mod Refines
pub mod Resharding
pub mod Homes
pub mod Halves
mod Tests
use Prim.Native.Nat.{bit_xor, bit_and}
use gpt_load_fix.Prelude.{
  ℕ, zero, suc, ◌+◌, ◌-◌, ◌*◌, ◌%◌, ◌^◌, Bool, true, false, ◌&&◌, ◌||◌, not, Option, none, some,
  List, [], ◌∷◌, ◌==◌, ltb, leb, if◌then◌else◌,
}
use gpt_load_fix.Prelude.Dict
use gpt_load_fix.Prelude.Dict.{Dict}
use gpt_load_fix.Prelude.Int.{ℤ, pos, add64, leb_ℤ, ltb_ℤ, sub64}
use gpt_load_fix.Prelude.Text.{Text, bytes, text_eq}
use gpt_load_fix.Exec.{Result, ok, err, Exec}
use gpt_load_fix.Store.{Value, item, Store, empty, write}
use gpt_load_fix.Store.Items.{expired}

-- hash/fnv: New32a, Write and Sum32
unfoldable pub fnv_32a_from : ℕ → Text → ℕ
fnv_32a_from h [] = h
fnv_32a_from h (c ∷ t) = fnv_32a_from (bit_xor h c * 16777619 % 2 ^ 32) t

unfoldable pub fnv_32a : Text → ℕ
unfolding fnv_32a_from
fnv_32a = fnv_32a_from 2166136261

-- ShardedStoreConfig, as far as the store reads it.
pub record ShardedStoreConfig : Type 0 where
  pub shard_count : ℤ
  pub gc_interval : ℕ
  pub max_memory_usage : ℤ
  pub enable_metrics : Bool
  pub cache_size : ℤ

-- memoryShard, with shardMetrics. Instants are nanoseconds.
pub record Shard : Type 0 where
  pub entries : Store
  pub read_count : ℤ
  pub write_count : ℤ
  pub memory_usage : ℤ
  pub last_gc : ℕ

-- The shards stand at the indices below `count`.
pub record ShardedStore : Type 0 where
  pub shards : ℕ → Shard
  pub count : ℕ
  pub mask : ℕ
  pub config : ShardedStoreConfig

abbrev pub new_shard : ℕ → Shard
new_shard now = record {
  entries = empty;
  read_count = pos 0;
  write_count = pos 0;
  memory_usage = pos 0;
  last_gc = now;
}

-- n > 0 and n & (n - 1) == 0
unfoldable pub is_power_of_2 : ℤ → Bool
is_power_of_2 (pos zero) = false
is_power_of_2 (pos (suc n)) = bit_and (suc n) n == 0
is_power_of_2 _ = false

abbrev pub magnitude : ℤ → ℕ
magnitude (pos n) = n
magnitude _ = 0

-- NewShardedMemoryStore; `none` is its error.
unfoldable pub new_sharded_memory_store : ℕ → ShardedStoreConfig → Option ShardedStore
unfolding is_power_of_2
new_sharded_memory_store now config =
    let n = magnitude config.shard_count in
    if is_power_of_2 config.shard_count
    then some (record { shards = λ _. new_shard now; count = n; mask = n - 1; config = config })
    else none

-- getShard: the index of the shard. For a mask of 2 ^ k - 1 the bits that it leaves are those of
-- the remainder by 2 ^ k.
unfoldable pub home : ℕ → Text → ℕ
home mask key = fnv_32a key % (mask + 1)

-- What a method counts.
pub data Tally : Type 0 where
  nothing one_read one_write : Tally

unfoldable pub tally : Bool → Tally → Shard → Shard
tally enabled nothing shard = shard
tally enabled one_read shard =
    if enabled then record shard { read_count = add64 shard.read_count (pos 1) } else shard
tally enabled one_write shard =
    if enabled then record shard { write_count = add64 shard.write_count (pos 1) } else shard

abbrev pub place : (ℕ → Shard) → ℕ → Shard → ℕ → Shard
place shards i shard j = if i == j then shard else shards j

-- A method runs on the shard of its key, and counts by what it found and by its outcome.
unfoldable pub on_shard :
    {A : Type 0} → Text → (Store → Result A → Tally) → Exec Store A → Exec ShardedStore A
on_shard key counts m s =
    let i = home s.mask key in
    let shard = s.shards i in
    let (r, d) = m shard.entries in
    let shard' =
      tally s.config.enable_metrics (counts shard.entries r) (record shard { entries = d }) in
    (r, record s { shards = place s.shards i shard' })

-- performGC: the goroutines of the shards, in order.
unfoldable pub collect : ℕ → Dict Text Value → Dict Text Value
unfolding expired
collect now [] = []
collect now ((key, item i) ∷ d) =
    let rest = collect now d in if expired now i then rest else (key, item i) ∷ rest
collect now ((key, v) ∷ d) = (key, v) ∷ collect now d

unfoldable pub gc_shard : ℕ → ℕ → Shard → Shard
unfolding collect
gc_shard now interval shard = if ltb (now - shard.last_gc) interval then shard else record shard {
  entries = record { entries = collect now shard.entries.entries };
  last_gc = now;
}

unfoldable pub perform_gc : ℕ → ShardedStore → ShardedStore
unfolding gc_shard
perform_gc now s = record s { shards = λ i. gc_shard now s.config.gc_interval (s.shards i) }

-- validateConfig, true if there is no error.
unfoldable pub validate_config : ShardedStoreConfig → Bool
unfolding is_power_of_2
validate_config c =
    ltb_ℤ (pos 0) c.shard_count
    && leb_ℤ c.shard_count (pos 1024)
    && ltb_ℤ (pos 0) c.cache_size
    && ltb_ℤ (pos 0) c.max_memory_usage
    && is_power_of_2 c.shard_count

-- The first loop of reshardData: what the shards hold, shard by shard.
unfoldable pub put_all : Dict Text Value → Dict Text Value → Dict Text Value
put_all all [] = all
put_all all ((key, v) ∷ d) = put_all (Dict.put all key v) d

unfoldable pub gather : ℕ → ℕ → (ℕ → Shard) → Dict Text Value → Dict Text Value
unfolding put_all
gather i zero shards all = all
gather i (suc n) shards all = gather (suc i) n shards (put_all all (shards i).entries.entries)

-- The last loop of reshardData.
unfoldable pub spread : ℕ → Dict Text Value → (ℕ → Shard) → ℕ → Shard
unfolding home
spread mask [] shards = shards
spread mask ((key, v) ∷ d) shards =
    let i = home mask key in
    let shard = shards i in
    spread mask d (place shards i (record shard { entries = write shard.entries key v }))

unfoldable pub reshard_data : ℕ → ℕ → ShardedStore → ShardedStore
unfolding gather spread
reshard_data now n s =
    let all = gather 0 s.count s.shards [] in
    record s { shards = spread (n - 1) all (λ _. new_shard now); count = n }

-- Reconfigure; false is its error.
unfoldable pub reconfigure : ℕ → ShardedStoreConfig → ShardedStore → Bool × ShardedStore
unfolding validate_config
reconfigure now c s =
    let n = magnitude c.shard_count in
    let s' = if n == s.count then s else reshard_data now n s in
    if validate_config c then (true, record s' { config = c; mask = n - 1 }) else (false, s)
