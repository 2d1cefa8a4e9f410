-- ===== src/LocalCache/Ops.antt =====
-- internal/keypool/local_cache.go: the methods of LocalKeyCache. Each runs under the cache's lock.
use gpt_load_fix.Prelude.{
  ℕ, ◌+◌, Bool, false, ◌&&◌, ◌||◌, Option, none, some, List, [], ◌∷◌, ◌==◌, if◌then◌else◌, length,
  nat_eq,
}
use gpt_load_fix.Prelude.Int.{ℤ, pos, ◌+ℤ◌, ltb_ℤ, leb_ℤ, add64}
use gpt_load_fix.Prelude.Dict
use gpt_load_fix.Prelude.Dict.{Dict}
use gpt_load_fix.Models.{ApiKey}
use gpt_load_fix.LocalCache.{
  CacheEntry, CacheStats, Run, ◌>>=◌, ◌>>◌, pure, Done, modify, read, store, load, add_to_front,
  unlink, move_to_front,
}

-- updateStats, at the instant that its clock shows.
unfoldable pub update_stats : ℤ → CacheStats → CacheStats
update_stats now s =
    let total = add64 s.hits s.misses in
    record s {
      hit_rate = if ltb_ℤ (pos 0) total then (s.hits, total) else s.hit_rate;
      last_updated = now;
    }

-- removeEntry, with the outcome of the lookup.
unfoldable pub remove_found : ℕ → Option ℕ → Done
remove_found id none = pure tt
remove_found id (some a) = do
  modify (λ c. record c { cache = Dict.remove c.cache id })
  unlink a
  modify (λ c. record c { stats = record (c.stats) { size = length (c.cache) } })

unfoldable pub remove_entry : ℕ → Done
unfolding Dict.get
remove_entry id = do found ← read (λ c. Dict.get (c.cache) id); remove_found id found

-- The key under which an entry is cached, and 0 if there is none.
unfoldable pub key_of : Dict ℕ ℕ → Option ℕ → ℕ
key_of [] p = 0
key_of ((id, a) ∷ d) none = key_of d none
key_of ((id, a) ∷ d) (some b) = if a == b then id else key_of d (some b)

abbrev pub points_at : Option ℕ → ℕ → Bool
points_at none a = false
points_at (some b) a = b == a

unfoldable pub is_zero : ℤ → Bool
is_zero z = leb_ℤ z (pos 0) && leb_ℤ (pos 0) z

-- evictLRU: id 0 stands for an entry that was not found.
unfoldable pub evict_id : ℕ → Done
evict_id id = if id == 0 then pure tt else do
  remove_entry id
  modify
      (λ c. record c { stats = record (c.stats) { evictions = add64 (c.stats.evictions) (pos 1) } })

unfoldable pub evict_lru : Done
evict_lru c =
    let last = (c.cell c.lru.tail).prev in
    if is_zero c.lru.size || points_at last c.lru.head
    then some (tt, c)
    else evict_id (key_of c.cache last) c

unfoldable pub count_hit : CacheStats → CacheStats
count_hit s = record s { hits = add64 s.hits (pos 1) }

unfoldable pub count_miss : CacheStats → CacheStats
count_miss s = record s { misses = add64 s.misses (pos 1) }

abbrev pub on_stats : (CacheStats → CacheStats) → Done
on_stats f = modify (λ c. record c { stats = f (c.stats) })

-- The three instants that Get reads from the clock.
pub record Instants : Type 0 where
  pub checked : ℤ
  pub accessed : ℤ
  pub updated : ℤ

unfoldable pub miss : ℤ → Run (Option ApiKey)
miss updated = do on_stats count_miss; on_stats (update_stats updated); pure none

-- Get on an entry that is there and has not expired.
unfoldable pub hit : Instants → ℕ → Run (Option ApiKey)
hit t a = do
  e ← load (some a)
  store a (record e { access_at = t.accessed; hit_count = add64 (e.hit_count) (pos 1) })
  on_stats count_hit
  move_to_front a
  on_stats (update_stats (t.updated))
  e' ← load (some a)
  pure (e'.key)

unfoldable pub get_found : Instants → ℕ → Option ℕ → Run (Option ApiKey)
get_found t id none = miss t.updated
get_found t id (some a) = do
  e ← load (some a)
  if ltb_ℤ (e.expires_at) (t.checked) then (do remove_entry id; miss (t.updated)) else hit t a

-- Get
unfoldable pub get : Instants → ℕ → Run (Option ApiKey)
unfolding Dict.get
get t id = do found ← read (λ c. Dict.get (c.cache) id); get_found t id found

-- Set on a key that is cached.
unfoldable pub renew : ℤ → ℕ → Option ApiKey → Done
renew now a key = do
  e ← load (some a)
  c ← read (λ c. c)
  store a (record e { key = key; expires_at = now +ℤ c.ttl; access_at = now })
  move_to_front a

-- Set on a key that is not: the new entry, once there is room for it.
unfoldable pub store_new : ℤ → ℕ → Option ApiKey → Done
store_new now id key = do
  c ← read (λ c. c)
  let a = c.fresh
  modify (λ c. record c { fresh = c.fresh + 1 })
  store a (record {
    key = key;
    expires_at = now +ℤ c.ttl;
    access_at = now;
    hit_count = pos 0;
    prev = none;
    next = none;
  })
  modify (λ c. record c { cache = Dict.put (c.cache) id a })
  add_to_front a
  modify (λ c. record c { stats = record (c.stats) { size = length (c.cache) } })

unfoldable pub insert : ℤ → ℕ → Option ApiKey → Done
insert now id key c =
    let full = leb_ℤ c.max_size (pos (length c.cache)) in
    if full then (evict_lru >> store_new now id key) c else store_new now id key c

unfoldable pub set_found : ℤ → ℕ → Option ApiKey → Option ℕ → Done
set_found now id key none = insert now id key
set_found now id key (some a) = renew now a key

-- Set
unfoldable pub set : ℤ → ℕ → Option ApiKey → Done
unfolding Dict.get
set now id key = do found ← read (λ c. Dict.get (c.cache) id); set_found now id key found

-- cleanupExpired: the keys whose entries have expired, and their removal.
unfoldable pub expired_keys : ℤ → (ℕ → CacheEntry) → Dict ℕ ℕ → List ℕ
expired_keys now cell [] = []
expired_keys now cell ((id, a) ∷ d) =
    let rest = expired_keys now cell d in if ltb_ℤ (cell a).expires_at now then id ∷ rest else rest

unfoldable pub remove_all : List ℕ → Done
remove_all [] = pure tt
remove_all (id ∷ ids) = do remove_entry id; remove_all ids

unfoldable pub cleanup_expired : ℤ → Done
cleanup_expired now = do c ← read (λ c. c); remove_all (expired_keys now (c.cell) (c.cache))
