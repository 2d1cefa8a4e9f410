-- ===== src/LocalCache/Writes.antt =====
-- Set and evictLRU, on the pointers and in the specification.
use gpt_load_fix.Prelude.{
  ℕ, suc, ◌+◌, ◌<◌, ◌≡◌, refl, Option, none, some, List, [], ◌∷◌, All, arith, ◌==◌, nat_eq, length,
  Bool-cases, inl, inr, ap, sym, ◌∙◌, Option-cases, =?_ne, false,
}
use gpt_load_fix.Prelude.Int.{ℤ, pos, ◌+ℤ◌, leb_ℤ, add64}
use gpt_load_fix.Prelude.Dict
use gpt_load_fix.Prelude.Dict.{Dict}
use gpt_load_fix.Models.{ApiKey}
use gpt_load_fix.LocalCache.{CacheEntry, LruList, LocalKeyCache, write, ◌>>◌, modify}
use gpt_load_fix.LocalCache.Ops
use gpt_load_fix.LocalCache.Ops.{
  Instants, remove_entry, remove_found, count_miss, count_hit, update_stats, key_of, evict_id,
  evict_lru, is_zero, insert, set_found, store_new, renew,
}
use gpt_load_fix.LocalCache.Moves.{item, write_other}
use gpt_load_fix.LocalCache.View.{Held, Shows, items}
use gpt_load_fix.LocalCache.Spec
use gpt_load_fix.LocalCache.Spec.{Lru, new_item}
use gpt_load_fix.LocalCache.Refines.{
  view, Refines, Refines-by, Refines-bind, get-items, get-items-none, remove_entry-Refines, touched,
  write_same, Shows-touched, Shows-stats,
}
use gpt_load_fix.LocalCache.Links.{addresses, last_of, prev_last, keep_Linked}
use gpt_load_fix.LocalCache.View.{All-found, items_same, attach, length-items}

-- The entry at the tail is that of the oldest id.
oldest-found :
    (d : Dict ℕ ℕ) (j b p : ℕ)
    → Dict.Distinct ((j, b) ∷ d)
    → Dict.get ((j, b) ∷ d) (Spec.oldest ((j, b) ∷ d)) ≡ some (last_of p (addresses ((j, b) ∷ d)))
unfolding Dict.get Spec.oldest
oldest-found [] j b p dis = ground arith
oldest-found ((k, x) ∷ d) j b p dis = ground (arith, oldest-found d k x b dis.1, dis.0)

oldest-items : (m : ℕ → CacheEntry) (d : Dict ℕ ℕ) → Spec.oldest (items m d) ≡ Spec.oldest d
unfolding Spec.oldest
oldest-items m [] = refl
oldest-items m (x ∷ []) = refl
oldest-items m (x ∷ y ∷ d) = oldest-items m (y ∷ d)

-- The search of the map for an entry finds its id.
key_of_found :
    (d : Dict ℕ ℕ) (id a : ℕ)
    → Dict.Distinct d
    → Dict.get d id ≡ some a
    → ((j : ℕ) → Dict.get d j ≡ some a → j ≡ id)
    → key_of d (some a) ≡ id
unfolding Dict.get key_of
key_of_found [] id a dis g only = cc
key_of_found ((j, b) ∷ d) id a dis g only = elim (Bool-cases (b == a)) [
  | inl same ↦ rw same (only j (ground arith))
  | inr other ↦
      rw other (key_of_found d id a dis.1 (ground arith) (λ k h. only k (ground (arith, dis.0))))
]

evict_id-Refines :
    (id : ℕ) (c : LocalKeyCache) (xs : Dict ℕ ℕ)
    → Shows c xs
    → Refines (evict_id id) (λ l. (tt, Spec.evict_id id l)) c xs
unfolding evict_id Spec.evict_id
evict_id-Refines id c xs s = elim (Bool-cases (id == 0)) [
  | inl zero ↦ (c, xs, rw zero refl, s, rw (Spec.evict_id, zero) refl)
  | inr other ↦
      Refines-by (evict_id id) (remove_entry id >> modify evicted) (λ l. (tt, Spec.evict_id id l))
        (λ l. (tt, Spec.evicted (Spec.forget id l))) c xs (rw other refl)
        (rw (Spec.evict_id, other) refl)
        (Refines-bind (remove_entry id) (λ l. (tt, Spec.forget id l)) (λ _. modify evicted)
          (λ _ l. (tt, Spec.evicted l)) c xs (remove_entry-Refines c xs id s)
          (λ d ys s' _. (evicted d, ys, refl, Shows-stats d ys _ s', refl)))
]
  where
    evicted : LocalKeyCache → LocalKeyCache
    evicted d = record d {
      stats = record (d.stats) { evictions = add64 (d.stats.evictions) (pos 1) };
    }

last_in : (p : ℕ) (P : ℕ → Type 0) (xs : List ℕ) (a : ℕ) → All P (a ∷ xs) → P (last_of p (a ∷ xs))
last_in p P [] a h = h.0
last_in p P (b ∷ xs) a h = last_in a P xs b h.1

evict_empty : (c : LocalKeyCache) → Shows c [] → Refines evict_lru (λ l. (tt, Spec.evict l)) c []
unfolding evict_lru Spec.evict Spec.oldest Spec.evict_id is_zero
evict_empty c s = (c, [], rw (s.held.sized) refl, s, refl)

nonzero : {z : ℤ} {n : ℕ} → z ≡ pos (suc n) → is_zero z ≡ false
unfolding is_zero
nonzero h = ground arith

-- evictLRU
pub evict-Refines :
    (c : LocalKeyCache) (xs : Dict ℕ ℕ)
    → Shows c xs
    → Refines evict_lru (λ l. (tt, Spec.evict l)) c xs
evict-Refines c [] s = evict_empty c s
evict-Refines c ((j, b) ∷ d) s =
    let xs = (j, b) ∷ d in
    let last = last_of c.lru.head (addresses xs) in
    let at = oldest-found d j b c.lru.head s.held.distinct in
    let id = Spec.oldest xs in
    let is : key_of c.cache (some last) ≡ id =
      key_of_found c.cache id last s.own (s.found id ∙ at)
        (λ k h. s.held.injective k id last (sym (s.found k) ∙ h) at) in
    let away : (last == c.lru.head) ≡ false = =?_ne last c.lru.head (s.held.placed id last at).0 in
    Refines-by evict_lru (evict_id id) (λ l. (tt, Spec.evict l)) (λ l. (tt, Spec.evict_id id l)) c
      xs
      (unfold evict_lru in
        rw (prev_last c.cell c.lru.head (addresses xs) c.lru.tail s.held.linked)
          (rw (nonzero s.held.sized, away) (rw is refl)))
      (unfold Spec.evict in rw (oldest-items c.cell xs) refl) (evict_id-Refines id c xs s)

-- A write to the first free address disturbs no entry of the list.
Held-fresh :
    (m : ℕ → CacheEntry) (l : LruList) (fresh : ℕ) (e : CacheEntry) (xs : Dict ℕ ℕ)
    → Held m l fresh xs
    → Held (write m fresh e) l (fresh + 1) xs
unfolding write
Held-fresh m l fresh e xs s = record {
  linked =
      keep_Linked m (write m fresh e) (λ x. x < fresh) (λ x y hx hy h. ground arith)
        (λ x y hx hy h. ground arith) l.head (addresses xs) l.tail (s.ends.1)
        (All-found _ xs s.distinct (λ i a h. (s.placed i a h).2)) (s.ends.2) s.linked;
  sized = s.sized;
  distinct = s.distinct;
  injective = s.injective;
  placed = λ i a h. ground (arith, s.placed i a);
  ends = ground (arith, s.ends);
}

-- The second half of Set on a new key.
store-Refines :
    (now : ℤ) (id : ℕ) (key : Option ApiKey) (c : LocalKeyCache) (xs : Dict ℕ ℕ)
    → Shows c xs
    → Dict.get xs id ≡ none
    → Refines (store_new now id key) (λ l. (tt, Spec.stored id (new_item now l.ttl key) l)) c xs
unfolding store_new Dict.get
store-Refines now id key c xs s new =
    let e : CacheEntry = record {
      key = key;
      expires_at = now +ℤ c.ttl;
      access_at = now;
      hit_count = pos 0;
      prev = none;
      next = none;
    } in
    let a = c.fresh in
    let d = Dict.put c.cache id a in
    let c1 = record c { fresh = a + 1; cell = write c.cell a e; cache = d } in
    let held = Held-fresh c.cell c.lru a e xs s.held in
    let (m, l, runs, held', same) =
      attach c1 xs id a held (ground (arith, s.held.ends)) new
        (λ i h. ground (arith, s.held.placed i a h)) in
    let absent = s.found id ∙ new in
    let at_a : item (m a) ≡ new_item now c.ttl key = same a ∙ ap item (write_same c.cell a e) in
    let others : items m xs ≡ items c.cell xs = items_same c.cell m xs (
      All-found (λ b. item (m b) ≡ item (c.cell b)) xs s.held.distinct
        (λ i b h.
          same b ∙ ap item (write_other c.cell b a e (ground (arith, s.held.placed i b h))))) in
    let count = Dict.length-put_new c.cache id a absent in
    (
      record c1 { cell = m; lru = l; stats = record (c.stats) { size = length d } },
      (id, a) ∷ xs,
      rw runs refl,
      record {
        held = held';
        found = λ j. ground (arith, Dict.get-put c.cache id j a, s.found j);
        counted = count ∙ ap suc s.counted;
        own = Dict.Distinct-put c.cache id a s.own;
      },
      rw (at_a, others) (rw (count ∙ ap suc (s.counted ∙ sym (length-items c.cell xs))) refl),
    )

forget_absent :
    (id j : ℕ) (l : Lru)
    → Dict.get l.entries id ≡ none
    → Dict.get (Spec.forget j l).entries id ≡ none
unfolding Spec.forget
forget_absent id j l h = ground (arith, Dict.get-remove l.entries j id)

pub evict_absent :
    (id : ℕ) (l : Lru) → Dict.get l.entries id ≡ none → Dict.get (Spec.evict l).entries id ≡ none
unfolding Spec.evict Spec.evict_id
evict_absent id l h = ground (arith, forget_absent id (Spec.oldest l.entries) l)

pub absent-items :
    (m : ℕ → CacheEntry) (d : Dict ℕ ℕ) (id : ℕ)
    → Dict.get (items m d) id ≡ none
    → Dict.get d id ≡ none
absent-items m d id h = elim (Option-cases (Dict.get d id)) [
  | inl absent ↦ absent
  | inr (a, there) ↦ absurd (ground (arith, get-items m d id a there))
]

insert-Refines :
    (now : ℤ) (id : ℕ) (key : Option ApiKey) (c : LocalKeyCache) (xs : Dict ℕ ℕ)
    → Shows c xs
    → Dict.get xs id ≡ none
    → Refines (insert now id key) (Spec.insert now id key) c xs
unfolding insert Spec.insert
insert-Refines now id key c xs s new = elim (Bool-cases (leb_ℤ c.max_size (pos (length c.cache)))) [
  | inl full ↦
      Refines-by (insert now id key) (evict_lru >> store_new now id key) (Spec.insert now id key)
        (λ l. (tt, Spec.stored id (new_item now (Spec.evict l).ttl key) (Spec.evict l))) c xs
        (rw full refl) (rw (length-items c.cell xs, ← s.counted) (rw full refl))
        (Refines-bind evict_lru (λ l. (tt, Spec.evict l)) (λ _. store_new now id key)
          (λ _ l. (tt, Spec.stored id (new_item now l.ttl key) l)) c xs (evict-Refines c xs s)
          (λ d ys s' v. store-Refines now id key d ys s' (still_absent d ys v)))
  | inr room ↦
      Refines-by (insert now id key) (store_new now id key) (Spec.insert now id key)
        (λ l. (tt, Spec.stored id (new_item now l.ttl key) l)) c xs (rw room refl)
        (rw (length-items c.cell xs, ← s.counted) (rw room refl))
        (store-Refines now id key c xs s new)
]
  where
    still_absent :
        (d : LocalKeyCache) (ys : Dict ℕ ℕ)
        → view d ys ≡ Spec.evict (view c xs)
        → Dict.get ys id ≡ none
    still_absent d ys v = absent-items d.cell ys id (
        ap (λ (l : Lru). Dict.get l.entries id) v
        ∙ evict_absent id (view c xs) (get-items-none c.cell xs id new))

renew-Refines :
    (now : ℤ) (id a : ℕ) (key : Option ApiKey) (c : LocalKeyCache) (xs : Dict ℕ ℕ)
    → Shows c xs
    → Dict.get xs id ≡ some a
    → Refines (renew now a key) (λ l. (tt, Spec.renewed now id key (item (c.cell a)) l)) c xs
unfolding renew
renew-Refines now id a key c xs s g =
    let e = record (c.cell a) { key = key; expires_at = now +ℤ c.ttl; access_at = now } in
    let (m, l, runs, held, at_a, others) = touched c xs id a e s.held g refl refl in
    (
      record c { cell = m; lru = l },
      (id, a) ∷ Dict.remove xs id,
      runs,
      Shows-touched c xs id a m l c.stats s g held,
      rw (at_a, others) refl,
    )

-- Set
pub set-Refines :
    (now : ℤ) (id : ℕ) (key : Option ApiKey) (c : LocalKeyCache) (xs : Dict ℕ ℕ)
    → Shows c xs
    → Refines (Ops.set now id key) (Spec.set now id key) c xs
unfolding Ops.set set_found Spec.set
set-Refines now id key c xs s = elim (Option-cases (Dict.get xs id)) [
  | inl absent ↦
      Refines-by (Ops.set now id key) (insert now id key) (Spec.set now id key)
        (Spec.insert now id key) c xs (rw (s.found id, absent) refl)
        (rw (Spec.set, get-items-none c.cell xs id absent) refl)
        (insert-Refines now id key c xs s absent)
  | inr (a, there) ↦
      Refines-by (Ops.set now id key) (renew now a key) (Spec.set now id key)
        (λ l. (tt, Spec.renewed now id key (item (c.cell a)) l)) c xs (rw (s.found id, there) refl)
        (rw (Spec.set, get-items c.cell xs id a there) refl)
        (renew-Refines now id a key c xs s there)
]
