-- ===== src/Sharded/Halves.antt =====
-- Get of ShardedMemoryStore (internal/keypool/sharded_memory.go) in its two halves, with another
-- method between them.
use gpt_load_fix.Prelude.{ℕ, ◌≡◌, true, some, arith, refl, nat_eq, ==_iff}
use gpt_load_fix.Prelude.Text.{Text, text_eq}
use gpt_load_fix.Exec.{err, not_found}
use gpt_load_fix.Store.{Item, lookup, item, write, lookup-drop_self}
use gpt_load_fix.Store.Items
use gpt_load_fix.Store.Items.{expiry, expired, read_item}
use gpt_load_fix.Sharded.{ShardedStore, on_shard, home, tally}
use gpt_load_fix.Sharded.Methods.{set, get, finish_get, data_of}

-- A Set of an expired key that falls between the two halves of a Get is lost, in the shards as in
-- the one store.
pub get-loses-set :
    (now t now' ttl : ℕ) (key value : Text) (s : ShardedStore) (i : Item)
    → lookup (data_of key s) key ≡ some (item i)
    → expired now i ≡ true
    → let s' = (finish_get now key (read_item (data_of key s) key) (set t key value ttl s).1).1 in
      (get now' key s').0 ≡ err not_found
unfolding get finish_get set on_shard Items.set Items.finish_get read_item tally
get-loses-set now t now' ttl key value s i h e = ground (
  arith,
  h,
  e,
  (==_iff (home s.mask key) (home s.mask key)).1 refl,
  lookup-drop_self
      (write (data_of key s) key (item (record { value = value; expires_at = expiry t ttl }))) key,
)
