-- ===== src/LocalCache.antt =====
-- internal/keypool/local_cache.go: LocalKeyCache, its doubly linked LRUList and the adaptive size.
-- Entries live in a heap of cells: a pointer is an optional address, and a step through nil stops
-- the run with `none`.
pub mod Ops
pub mod Links
pub mod Moves
pub mod View
pub mod Spec
pub mod Refines
pub mod Reads
pub mod Writes
pub mod Cleanup
pub mod Branches
pub mod Counted
pub mod Client
pub mod Bounds
pub mod Survival
pub mod Lookup
pub mod Adapt
mod Tests
use gpt_load_fix.Prelude.{
  ℕ, zero, suc, ◌+◌, Bool, true, false, Option, none, some, List, [], ◌∷◌, ◌==◌, if◌then◌else◌,
  length,
}
use gpt_load_fix.Prelude.Int.{ℤ, pos, ◌+ℤ◌, ◌-ℤ◌}
use gpt_load_fix.Prelude.Dict.{Dict}
use gpt_load_fix.Models.{ApiKey}

-- CacheEntry. Instants are nanoseconds.
pub record CacheEntry : Type 0 where
  pub key : Option ApiKey
  pub expires_at : ℤ
  pub access_at : ℤ
  pub hit_count : ℤ
  pub prev : Option ℕ
  pub next : Option ℕ

-- LRUList: the addresses of its two sentinels.
pub record LruList : Type 0 where
  pub head : ℕ
  pub tail : ℕ
  pub size : ℤ

-- CacheStats. HitRate is kept as the two operands of its division, since there are no floats.
pub record CacheStats : Type 0 where
  pub hits : ℤ
  pub misses : ℤ
  pub evictions : ℤ
  pub size : ℕ
  pub hit_rate : ℤ × ℤ
  pub last_updated : ℤ

-- LocalKeyCache, with the heap that its entries stand in and the next address that is free.
pub record LocalKeyCache : Type 0 where
  pub cell : ℕ → CacheEntry
  pub fresh : ℕ
  pub cache : Dict ℕ ℕ
  pub lru : LruList
  pub max_size : ℤ
  pub ttl : ℤ
  pub stats : CacheStats

abbrev pub Run {ℓ} : Type ℓ → Type ℓ
Run A = LocalKeyCache → Option (A × LocalKeyCache)

module _ {ℓ} {A B : Type ℓ} where
  abbrev pub continue : Option (A × LocalKeyCache) → (A → Run B) → Option (B × LocalKeyCache)
  continue none f = none
  continue (some (a, c)) f = f a c

  infixl 5 ◌>>=◌ ◌>>◌
  abbrev pub ◌>>=◌ : Run A → (A → Run B) → Run B
  ◌>>=◌ m f c = continue (m c) f

  abbrev pub ◌>>◌ : Run A → Run B → Run B
  m >> n = m >>= λ _. n

abbrev pub pure {ℓ} : {A : Type ℓ} → A → Run A
pure a c = some (a, c)

abbrev pub Done : Type 0
Done = Run (Unit {0})

-- Apply a change to the cache.
abbrev pub modify : (LocalKeyCache → LocalKeyCache) → Done
modify f c = some (tt, f c)

abbrev pub read {ℓ} : {A : Type ℓ} → (LocalKeyCache → A) → Run A
read f c = some (f c, c)

-- Access to the fields of an entry through a pointer, which may be nil.
unfoldable pub write : (ℕ → CacheEntry) → ℕ → CacheEntry → ℕ → CacheEntry
write cell a e x = if x == a then e else cell x

abbrev pub store : ℕ → CacheEntry → Done
store a e = modify (λ c. record c { cell = write c.cell a e })

abbrev pub load : Option ℕ → Run CacheEntry
load none c = none
load (some a) c = some (c.cell a, c)

abbrev pub set_prev : Option ℕ → Option ℕ → Done
set_prev none p c = none
set_prev (some a) p c = store a (record (c.cell a) { prev = p }) c

abbrev pub set_next : Option ℕ → Option ℕ → Done
set_next none p c = none
set_next (some a) p c = store a (record (c.cell a) { next = p }) c

abbrev pub resize : (ℤ → ℤ) → Done
resize f = modify (λ c. record c { lru = record (c.lru) { size = f (c.lru.size) } })

abbrev pub empty_entry : CacheEntry
empty_entry = record {
  key = none;
  expires_at = pos 0;
  access_at = pos 0;
  hit_count = pos 0;
  prev = none;
  next = none;
}

-- LRUList.AddToFront
unfoldable pub add_to_front : ℕ → Done
add_to_front a = do
  head ← read (λ c. c.lru.head)
  set_prev (some a) (some head)
  h ← load (some head)
  set_next (some a) (h.next)
  h' ← load (some head)
  set_prev (h'.next) (some a)
  set_next (some head) (some a)
  resize (λ n. n +ℤ pos 1)

-- if p != nil { ... }
abbrev pub if_not_nil : Option ℕ → Done → Done
if_not_nil none m = pure tt
if_not_nil (some a) m = m

-- LRUList.Remove
unfoldable pub unlink : ℕ → Done
unlink a = do
  e ← load (some a)
  if_not_nil (e.prev) (set_next (e.prev) (e.next))
  e' ← load (some a)
  if_not_nil (e'.next) (set_prev (e'.next) (e'.prev))
  set_prev (some a) none
  set_next (some a) none
  resize (λ n. n -ℤ pos 1)

-- LRUList.MoveToFront
unfoldable pub move_to_front : ℕ → Done
move_to_front a = do unlink a; add_to_front a

-- NewLRUList: two sentinels, which point at each other.
unfoldable pub new_lru_list : LocalKeyCache → LocalKeyCache
new_lru_list c =
    let head = c.fresh in
    let tail = c.fresh + 1 in
    record c {
      cell =
          write (write c.cell head (record empty_entry { next = some tail })) tail
            (record empty_entry { prev = some head });
      fresh = c.fresh + 2;
      lru = record { head = head; tail = tail; size = pos 0 };
    }

abbrev pub no_stats : CacheStats
no_stats = record {
  hits = pos 0;
  misses = pos 0;
  evictions = pos 0;
  size = 0;
  hit_rate = (pos 0, pos 1);
  last_updated = pos 0;
}

abbrev pub unlinked : ℤ → ℤ → LocalKeyCache
unlinked max_size ttl = record {
  cell = λ _. empty_entry;
  fresh = 0;
  cache = [];
  lru = record { head = 0; tail = 0; size = pos 0 };
  max_size = max_size;
  ttl = ttl;
  stats = no_stats;
}

-- NewLocalKeyCache, less the goroutine of the cleanup, whose rounds are `cleanup_expired`.
unfoldable pub new_local_key_cache : ℤ → ℤ → LocalKeyCache
unfolding new_lru_list
new_local_key_cache max_size ttl = new_lru_list (unlinked max_size ttl)

-- Clear
unfoldable pub clear : LocalKeyCache → LocalKeyCache
unfolding new_lru_list
clear c = record (new_lru_list (record c { cache = [] })) { stats = no_stats }
