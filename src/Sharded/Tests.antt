-- ===== src/Sharded/Tests.antt =====
-- Runs of the sharded store, and its theorems at concrete inputs.
use gpt_load_fix.Prelude.{ℕ, ◌≡◌, refl, true, some, List, [], ◌∷◌, arith}
use mathlib.Core.List.{Perm}
use gpt_load_fix.Prelude.Int.{ℤ, pos}
use gpt_load_fix.Prelude.Text.{Text, bytes}
use gpt_load_fix.Exec.{text}
use gpt_load_fix.Store.{empty}
use gpt_load_fix.Sharded.{
  ShardedStore, ShardedStoreConfig, new_sharded_memory_store, is_power_of_2, new_shard, reconfigure,
}
use gpt_load_fix.Sharded.Sorting.{exchange_sort, exchange_sort-IsSorted, IsSorted}
use gpt_load_fix.Sharded.Calls.{Call, l_push, rotate, get, set}
use gpt_load_fix.Sharded.Refines.{runs, runs_flat, Agrees, sharded_refines}
use gpt_load_fix.Sharded.Resharding.{IsHomed, Reconfigured, reconfigure_keeps}
use gpt_load_fix.Sharded.Homes.{runs-IsHomed, new-IsHomed}

abbrev config_of : ℤ → ShardedStoreConfig
config_of n = record {
  shard_count = n;
  gc_interval = 600;
  max_memory_usage = pos 1000;
  enable_metrics = true;
  cache_size = pos 10;
}

abbrev four : ShardedStore
four = record { shards = λ _. new_shard 0; count = 4; mask = 3; config = config_of (pos 4) }

abbrev calls : List (ℕ × Text × Call)
calls =
    (1, bytes "active", l_push (text (bytes "7") ∷ text (bytes "8") ∷ []))
    ∷ (2, bytes "name", set (bytes "pool") 5)
    ∷ (3, bytes "active", rotate)
    ∷ (9, bytes "name", get)
    ∷ []

four_is_new : new_sharded_memory_store 0 (config_of (pos 4)) ≡ some four
unfolding new_sharded_memory_store is_power_of_2
four_is_new = refl

sharded_refines_example :
    ((runs calls four).0 ≡ (runs_flat calls empty).0)
    × Agrees (runs calls four).1 (runs_flat calls empty).1
sharded_refines_example = sharded_refines calls 0 (config_of (pos 4)) four four_is_new

reconfigure_keeps_example :
    Reconfigured (runs calls four).1 (reconfigure 10 (config_of (pos 8)) (runs calls four).1)
reconfigure_keeps_example =
    reconfigure_keeps 10 (config_of (pos 8)) (runs calls four).1
      (runs-IsHomed calls four (new-IsHomed 0 (config_of (pos 4)) four four_is_new))

abbrev scores : List (Text × ℕ)
scores = (bytes "c", 3) ∷ (bytes "a", 1) ∷ (bytes "b", 2) ∷ []

exchange_sort-IsSorted_example :
    Perm (exchange_sort 3 scores) scores × IsSorted (exchange_sort 3 scores)
exchange_sort-IsSorted_example = exchange_sort-IsSorted 3 scores (omega arith)

runs-IsHomed_example : IsHomed (runs calls four).1
runs-IsHomed_example = runs-IsHomed calls four (new-IsHomed 0 (config_of (pos 4)) four four_is_new)
