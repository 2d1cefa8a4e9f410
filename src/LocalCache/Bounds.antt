-- ===== src/LocalCache/Bounds.antt =====
-- The bound on the entries of a local cache.
use gpt_load_fix.Prelude.{
  ℕ, suc, ◌≤◌, ◌<◌, ◌≡◌, ◌≢◌, refl, Option, none, some, List, [], ◌∷◌, arith, nat_eq, length,
  Bool-cases, Option-cases, inl, inr, ap, All, subst,
}
use gpt_load_fix.Prelude.Int.{ℤ, pos, ltb_ℤ, leb_ℤ}
use gpt_load_fix.Prelude.Dict
use gpt_load_fix.Prelude.Dict.{Dict}
use gpt_load_fix.Models.{ApiKey}
use gpt_load_fix.LocalCache.{CacheStats, LocalKeyCache, new_local_key_cache}
use gpt_load_fix.LocalCache.Moves.{Item}
use gpt_load_fix.LocalCache.View.{length-items}
use gpt_load_fix.LocalCache.Spec
use gpt_load_fix.LocalCache.Spec.{Lru, IsCounted}
use gpt_load_fix.LocalCache.Branches.{
  get_absent, get_expired, get_valid, set_full, set_room, set_there, forget_skips, forget_takes,
  evict_takes,
}
use gpt_load_fix.LocalCache.Writes.{evict_absent}
use gpt_load_fix.LocalCache.Client.{
  Call, get, set, remove, cleanup, clear_all, run, answer, answers, empty, cache_refines,
}

-- A call that caches nothing under the id 0.
abbrev pub NoZero : Call → Type 0
NoZero (set now id key) = id ≢ 0
NoZero _ = Unit

pub record Fits (m : ℕ) (l : Lru) : Type 0 where
  pub distinct : Dict.Distinct l.entries
  pub nonzero : Dict.get l.entries 0 ≡ none
  pub bounded : length l.entries ≤ m
  pub sized : l.max_size ≡ pos m

pub oldest_there {ℓ} :
    {V : Type ℓ} (d : Dict ℕ V) (x : ℕ × V)
    → Dict.Distinct (x ∷ d)
    → (v : V) × (Dict.get (x ∷ d) (Spec.oldest (x ∷ d)) ≡ some v)
unfolding Spec.oldest Dict.get
oldest_there [] (j, v) dis = (v, ground arith)
oldest_there ((k, w) ∷ d) (j, v) dis =
    let (u, h) = oldest_there d (k, w) dis.1 in (u, ground (arith, dis.0))

pub oldest_held {ℓ} :
    {V : Type ℓ} (d : Dict ℕ V)
    → 0 < length d
    → Dict.Distinct d
    → (v : V) × (Dict.get d (Spec.oldest d) ≡ some v)
oldest_held [] h dis = absurd (omega arith)
oldest_held (x ∷ d) h dis = oldest_there d x dis

module _ (m : ℕ) (l : Lru) (f : Fits m l) where
  pub forget-Fits : (id : ℕ) → Fits m (Spec.forget id l)
  forget-Fits id = elim (Option-cases (Dict.get l.entries id)) [
    | inl absent ↦ rw (forget_skips id l absent) f
    | inr (i, there) ↦ rw (forget_takes id l there) (record {
      distinct = Dict.Distinct-remove l.entries id f.distinct;
      nonzero = ground (arith, Dict.get-remove l.entries id 0, f.nonzero);
      bounded = omega (arith, Dict.length-remove l.entries id f.distinct there, f.bounded);
      sized = f.sized;
    })
  ]

  -- With an entry of its own id moved to the front.
  pub front-Fits :
      (id : ℕ) (i i' : Item) (st : CacheStats)
      → Dict.get l.entries id ≡ some i
      → Fits m (record l { entries = (id, i') ∷ Dict.remove l.entries id; stats = st })
  unfolding Dict.get
  front-Fits id i i' st there = record {
    distinct = (
      ground (arith, Dict.get-remove l.entries id id),
      Dict.Distinct-remove l.entries id f.distinct,
    );
    nonzero = ground (arith, Dict.get-remove l.entries id 0, f.nonzero);
    bounded = omega (arith, Dict.length-remove l.entries id f.distinct there, f.bounded);
    sized = f.sized;
  }

  -- Eviction makes room.
  pub evict-Fits :
      0 < length l.entries
      → Fits m (Spec.evict l) × (suc (length (Spec.evict l).entries) ≡ length l.entries)
  evict-Fits h =
      let id = Spec.oldest l.entries in
      let (i, there) = oldest_held l.entries h f.distinct in
      let ne : id ≢ 0 =
        λ e. ground (arith, f.nonzero, subst (λ k. Dict.get l.entries k ≡ some i) e there) in
      rw (evict_takes id l refl ne) (
        record {
          distinct = (forget-Fits id).distinct;
          nonzero = (forget-Fits id).nonzero;
          bounded = (forget-Fits id).bounded;
          sized = (forget-Fits id).sized;
        },
        rw (forget_takes id l there) (Dict.length-remove l.entries id f.distinct there),
      )

  pub stored-Fits :
      (id : ℕ) (i : Item)
      → id ≢ 0
      → Dict.get l.entries id ≡ none
      → length l.entries < m
      → Fits m (Spec.stored id i l)
  unfolding Dict.get
  stored-Fits id i h new room = record {
    distinct = (new, f.distinct);
    nonzero = ground (arith, f.nonzero);
    bounded = room;
    sized = f.sized;
  }

kept-le : (now : ℤ) (d : Dict ℕ Item) → length (Spec.kept now d) ≤ length d
unfolding Spec.kept
kept-le now [] = omega arith
kept-le now ((j, i) ∷ d) = ground (arith, kept-le now d)

kept_absent :
    (now : ℤ) (d : Dict ℕ Item) (id : ℕ)
    → Dict.get d id ≡ none
    → Dict.get (Spec.kept now d) id ≡ none
unfolding Spec.kept Dict.get
kept_absent now [] id h = refl
kept_absent now ((j, i) ∷ d) id h = ground (arith, kept_absent now d id)

Distinct-kept : (now : ℤ) (d : Dict ℕ Item) → Dict.Distinct d → Dict.Distinct (Spec.kept now d)
unfolding Spec.kept
Distinct-kept now [] h = tt
Distinct-kept now ((j, i) ∷ d) h = elim (Bool-cases (ltb_ℤ i.expires_at now)) [
  | inl old ↦ rw old (Distinct-kept now d h.1)
  | inr young ↦ rw young (kept_absent now d j h.0, Distinct-kept now d h.1)
]

same_entries : (m : ℕ) (l : Lru) (st : CacheStats) → Fits m l → Fits m (record l { stats = st })
same_entries m l st f = record {
  distinct = f.distinct;
  nonzero = f.nonzero;
  bounded = f.bounded;
  sized = f.sized;
}

set-Fits :
    (m : ℕ) (now : ℤ) (id : ℕ) (key : Option ApiKey) (l : Lru)
    → 0 < m
    → id ≢ 0
    → Fits m l
    → Fits m (Spec.set now id key l).1
set-Fits m now id key l hm nz f = elim (Option-cases (Dict.get l.entries id)) [
  | inl absent ↦ elim (Bool-cases (leb_ℤ l.max_size (pos (length l.entries)))) [
    | inl full ↦
        let (f', size) = evict-Fits m l f (ground (arith, f.sized)) in
        rw (set_full now id key l absent full) (
          stored-Fits m (Spec.evict l) f' id _ nz (evict_absent id l absent)
            (omega (arith, f.bounded)))
    | inr room ↦
        rw (set_room now id key l absent room)
          (stored-Fits m l f id _ nz absent (ground (arith, f.sized)))
  ]
  | inr (i, there) ↦ rw (set_there now id key l there) (front-Fits m l f id i _ l.stats there)
]

pub answer-Fits : (m : ℕ) (x : Call) (l : Lru) → 0 < m → NoZero x → Fits m l → Fits m (answer x l).1
unfolding answer
answer-Fits m (get t id) l hm nz f = elim (Option-cases (Dict.get l.entries id)) [
  | inl absent ↦ rw (get_absent t id l absent) (same_entries m l _ f)
  | inr (i, there) ↦ elim (Bool-cases (ltb_ℤ i.expires_at t.checked)) [
    | inl old ↦
        rw (get_expired t id l there old)
          (same_entries m (Spec.forget id l) _ (forget-Fits m l f id))
    | inr young ↦ rw (get_valid t id l there young) (front-Fits m l f id i _ _ there)
  ]
]
answer-Fits m (set now id key) l hm nz f = set-Fits m now id key l hm nz f
answer-Fits m (remove id) l hm nz f = forget-Fits m l f id
answer-Fits m (cleanup now) l hm nz f = record {
  distinct = Distinct-kept now l.entries f.distinct;
  nonzero = kept_absent now l.entries 0 f.nonzero;
  bounded = omega (arith, kept-le now l.entries, f.bounded);
  sized = f.sized;
}
answer-Fits m clear_all l hm nz f = record {
  distinct = tt;
  nonzero = unfold Dict.get in refl;
  bounded = omega arith;
  sized = f.sized;
}

pub answers-Fits :
    (m : ℕ) (calls : List Call) (l : Lru)
    → 0 < m
    → All NoZero calls
    → Fits m l
    → Fits m (answers calls l).1
unfolding answers
answers-Fits m [] l hm nz f = f
answers-Fits m (x ∷ calls) l hm nz f =
    answers-Fits m calls (answer x l).1 hm nz.1 (answer-Fits m x l hm nz.0 f)

pub empty-Fits : (m : ℕ) (ttl : ℤ) → Fits m (empty (pos m) ttl)
unfolding Dict.get
empty-Fits m ttl = record { distinct = tt; nonzero = refl; bounded = omega arith; sized = refl }

-- A cache with room for `m` entries, `m` at least 1, under which no call caches the id 0, runs any
-- sequence of calls and then holds at most `m` entries.
pub cache_bounded :
    (calls : List Call) (m : ℕ) (ttl : ℤ)
    → 0 < m
    → All NoZero calls
    → (c : LocalKeyCache) × (run calls (new_local_key_cache (pos m) ttl)
        ≡ some ((answers calls (empty (pos m) ttl)).0, c))
      × (length c.cache ≤ m)
cache_bounded calls m ttl hm nz =
    let (c, xs, runs, s, v) = cache_refines calls (pos m) ttl in
    let f = answers-Fits m calls (empty (pos m) ttl) hm nz (empty-Fits m ttl) in
    (
      c,
      runs,
      omega (
        arith,
        s.counted,
        length-items c.cell xs,
        ap (λ (l : Lru). length l.entries) v,
        f.bounded,
      ),
    )
