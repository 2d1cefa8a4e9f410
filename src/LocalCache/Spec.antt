-- ===== src/LocalCache/Spec.antt =====
-- What a local cache promises: a bounded list of items, the latest used first, with no pointers.
use gpt_load_fix.Prelude.{ℕ, ◌≡◌, Option, none, some, [], ◌∷◌, ◌==◌, if◌then◌else◌, length, nat_eq}
use gpt_load_fix.Prelude.Int.{ℤ, pos, ◌+ℤ◌, ltb_ℤ, leb_ℤ, add64}
use gpt_load_fix.Prelude.Dict
use gpt_load_fix.Prelude.Dict.{Dict}
use gpt_load_fix.Models.{ApiKey}
use gpt_load_fix.LocalCache.{CacheStats}
use gpt_load_fix.LocalCache.Ops.{Instants, count_hit, count_miss, update_stats}
use gpt_load_fix.LocalCache.Moves.{Item}

pub record Lru : Type 0 where
  pub entries : Dict ℕ Item
  pub max_size : ℤ
  pub ttl : ℤ
  pub stats : CacheStats

abbrev pub resized : Dict ℕ Item → CacheStats → CacheStats
resized d s = record s { size = length d }

-- A key that is not there is left out in silence.
unfoldable pub forget : ℕ → Lru → Lru
unfolding Dict.get Dict.remove
forget id l = elim (Dict.get l.entries id) [
  | none ↦ l
  | some _ ↦ record l {
    entries = Dict.remove l.entries id;
    stats = resized (Dict.remove l.entries id) l.stats;
  }
]

-- The id of the entry that was used longest ago, 0 if there is none.
unfoldable pub oldest {ℓ} : {V : Type ℓ} → Dict ℕ V → ℕ
oldest [] = 0
oldest ((id, i) ∷ []) = id
oldest ((id, i) ∷ x ∷ d) = oldest (x ∷ d)

abbrev pub evicted : Lru → Lru
evicted l = record l { stats = record (l.stats) { evictions = add64 (l.stats.evictions) (pos 1) } }

unfoldable pub evict_id : ℕ → Lru → Lru
evict_id id l = if id == 0 then l else evicted (forget id l)

-- The oldest entry goes, unless its id is 0.
unfoldable pub evict : Lru → Lru
evict l = evict_id (oldest l.entries) l

abbrev pub missed : Instants → Lru → Lru
missed t l = record l { stats = update_stats t.updated (count_miss l.stats) }

abbrev pub used : Instants → ℕ → Item → Lru → Lru
used t id i l = record l {
  entries =
      (id, record i { access_at = t.accessed; hit_count = add64 i.hit_count (pos 1) })
      ∷ Dict.remove l.entries id;
  stats = update_stats t.updated (count_hit l.stats);
}

unfoldable pub get : Instants → ℕ → Lru → Option ApiKey × Lru
unfolding Dict.get
get t id l = elim (Dict.get l.entries id) [
  | none ↦ (none, missed t l)
  | some i ↦
      if ltb_ℤ i.expires_at t.checked
      then (none, missed t (forget id l))
      else (i.key, used t id i l)
]

abbrev pub stored : ℕ → Item → Lru → Lru
stored id i l = let d = (id, i) ∷ l.entries in record l { entries = d; stats = resized d l.stats }

abbrev pub new_item : ℤ → ℤ → Option ApiKey → Item
new_item now ttl key = record {
  key = key;
  expires_at = now +ℤ ttl;
  access_at = now;
  hit_count = pos 0;
}

-- A new key: the oldest entry goes if the cache is full.
unfoldable pub insert : ℤ → ℕ → Option ApiKey → Lru → Unit {0} × Lru
insert now id key l =
    let full = leb_ℤ l.max_size (pos (length l.entries)) in
    let l' = evict l in
    if full
    then (tt, stored id (new_item now l'.ttl key) l')
    else (tt, stored id (new_item now l.ttl key) l)

abbrev pub renewed : ℤ → ℕ → Option ApiKey → Item → Lru → Lru
renewed now id key i l = record l {
  entries =
      (id, record i { key = key; expires_at = now +ℤ l.ttl; access_at = now })
      ∷ Dict.remove l.entries id;
}

unfoldable pub set : ℤ → ℕ → Option ApiKey → Lru → Unit {0} × Lru
unfolding Dict.get
set now id key l = elim (Dict.get l.entries id) [
  | none ↦ insert now id key l
  | some i ↦ (tt, renewed now id key i l)
]

-- The entries that have not expired.
unfoldable pub kept : ℤ → Dict ℕ Item → Dict ℕ Item
kept now [] = []
kept now ((id, i) ∷ d) =
    let rest = kept now d in if ltb_ℤ i.expires_at now then rest else (id, i) ∷ rest

abbrev pub cleaned : ℤ → Lru → Lru
cleaned now l = let d = kept now l.entries in record l { entries = d; stats = resized d l.stats }

-- The size that the statistics report is that of the cache.
abbrev pub IsCounted : Lru → Type 0
IsCounted l = l.stats.size ≡ length l.entries
