-- ===== src/LocalCache/Moves.antt =====
-- LRUList.Remove and AddToFront as changes of the heap.
use gpt_load_fix.Prelude.{ℕ, ◌≡◌, ◌≢◌, refl, Option, none, some, arith, ◌==◌, if◌then◌else◌, nat_eq}
use gpt_load_fix.Prelude.Int.{ℤ, pos, ◌+ℤ◌, ◌-ℤ◌}
use gpt_load_fix.Models.{ApiKey}
use gpt_load_fix.LocalCache.{CacheEntry, LocalKeyCache, write, unlink, add_to_front}

-- What an entry holds besides its links.
pub record Item : Type 0 where
  pub key : Option ApiKey
  pub expires_at : ℤ
  pub access_at : ℤ
  pub hit_count : ℤ

abbrev pub item : CacheEntry → Item
item e = record {
  key = e.key;
  expires_at = e.expires_at;
  access_at = e.access_at;
  hit_count = e.hit_count;
}

-- The heap when `a`, which stands between `u` and `v`, is taken out.
pub cut : ℕ → ℕ → ℕ → (ℕ → CacheEntry) → ℕ → CacheEntry
cut a u v m =
    let m1 = write m u (record (m u) { next = some v }) in
    let m2 = write m1 v (record (m1 v) { prev = some u }) in
    let m3 = write m2 a (record (m2 a) { prev = none }) in
    write m3 a (record (m3 a) { next = none })

-- The heap when `a` is put between the head `h` and its successor `f`.
pub paste : ℕ → ℕ → ℕ → (ℕ → CacheEntry) → ℕ → CacheEntry
paste a h f m =
    let m1 = write m a (record (m a) { prev = some h }) in
    let m2 = write m1 a (record (m1 a) { next = some f }) in
    let m3 = write m2 f (record (m2 f) { prev = some a }) in
    write m3 h (record (m3 h) { next = some a })

pub write_other : (m : ℕ → CacheEntry) (x a : ℕ) (e : CacheEntry) → x ≢ a → write m a e x ≡ m x
unfolding write
write_other m x a e h = ground arith

pub unlink_lem :
    (a u v : ℕ) (c : LocalKeyCache)
    → a ≢ u
    → (c.cell a).prev ≡ some u
    → (c.cell a).next ≡ some v
    → unlink a c
      ≡ some (
        tt,
        record c { cell = cut a u v c.cell; lru = record (c.lru) { size = c.lru.size -ℤ pos 1 } },
      )
unfolding unlink cut
unlink_lem a u v c au p n =
    rw (p, n, write_other c.cell a u (record (c.cell u) { next = some v }) au, p, n) refl

pub add_to_front_lem :
    (a f : ℕ) (c : LocalKeyCache)
    → a ≢ c.lru.head
    → (c.cell c.lru.head).next ≡ some f
    → add_to_front a c
      ≡ some (
        tt,
        record c {
          cell = paste a c.lru.head f c.cell;
          lru = record (c.lru) { size = c.lru.size +ℤ pos 1 };
        },
      )
unfolding add_to_front paste write
add_to_front_lem a f c ah n = ground arith

module _ (a u v : ℕ) (m : ℕ → CacheEntry) where
  pub cut_next : (x : ℕ) → x ≢ a → (cut a u v m x).next ≡ (if x == u then some v else (m x).next)
  unfolding cut write
  cut_next x h = ground arith

  pub cut_prev : (x : ℕ) → x ≢ a → (cut a u v m x).prev ≡ (if x == v then some u else (m x).prev)
  unfolding cut write
  cut_prev x h = ground arith

  pub cut_item : (x : ℕ) → item (cut a u v m x) ≡ item (m x)
  unfolding cut write
  cut_item x = ground arith

module _ (a h f : ℕ) (m : ℕ → CacheEntry) where
  pub paste_next :
      (x : ℕ)
      → a ≢ h
      → (paste a h f m x).next ≡ (if x == h then some a else if x == a then some f else (m x).next)
  unfolding paste write
  paste_next x ne = ground arith

  pub paste_prev :
      (x : ℕ)
      → f ≢ a
      → (paste a h f m x).prev ≡ (if x == f then some a else if x == a then some h else (m x).prev)
  unfolding paste write
  paste_prev x ne = ground arith

  pub paste_item : (x : ℕ) → item (paste a h f m x) ≡ item (m x)
  unfolding paste write
  paste_item x = ground arith
