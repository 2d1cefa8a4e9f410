-- ===== src/LocalCache/Refines.antt =====
-- The pointer structure does what the list of `Spec` does: one theorem for each method.
use gpt_load_fix.Prelude.{
  ℕ, ◌≡◌, ◌≢◌, refl, none, some, List, [], ◌∷◌, arith, nat_eq, length, inl, inr, ap, sym, ◌∙◌,
  Option-cases,
}
use gpt_load_fix.Prelude.Dict
use gpt_load_fix.Prelude.Dict.{Dict}
use gpt_load_fix.LocalCache.{
  CacheEntry, CacheStats, LruList, LocalKeyCache, Run, ◌>>=◌, continue, move_to_front, write,
}
use gpt_load_fix.LocalCache.Ops.{remove_entry, remove_found}
use gpt_load_fix.LocalCache.Links.{addresses, Linked}
use gpt_load_fix.LocalCache.Moves.{item, write_other}
use gpt_load_fix.LocalCache.View.{
  Held, Shows, All-found, items, items_same, items-remove, length-items, Runs, SameItems, detach,
  attach,
}
use gpt_load_fix.LocalCache.Spec
use gpt_load_fix.LocalCache.Spec.{Lru}

abbrev pub view : LocalKeyCache → Dict ℕ ℕ → Lru
view c xs = record {
  entries = items c.cell xs;
  max_size = c.max_size;
  ttl = c.ttl;
  stats = c.stats;
}

-- The run ends, with the result of the specification, in a cache that shows its state.
abbrev pub Refines {ℓ} : {A : Type ℓ} → Run A → (Lru → A × Lru) → LocalKeyCache → Dict ℕ ℕ → Type ℓ
Refines f g c xs =
    (c' : LocalKeyCache) × (xs' : Dict ℕ ℕ) × (f c ≡ some ((g (view c xs)).0, c'))
    × Shows c' xs'
    × (view c' xs' ≡ (g (view c xs)).1)

-- A run and its specification may be replaced by equals.
pub Refines-by {ℓ} :
    {A : Type ℓ} (f f' : Run A) (g g' : Lru → A × Lru) (c : LocalKeyCache) (xs : Dict ℕ ℕ)
    → f c ≡ f' c
    → g (view c xs) ≡ g' (view c xs)
    → Refines f' g' c xs
    → Refines f g c xs
Refines-by f f' g g' c xs e e' (d, ys, r, s, v) =
    (d, ys, e ∙ r ∙ ap (λ p. some (p.0, d)) (sym e'), s, v ∙ ap (λ p. p.1) (sym e'))

-- One method after another.
pub Refines-bind {ℓ} :
    {A B : Type ℓ} (f : Run A) (g : Lru → A × Lru) (k : A → Run B) (h : A → Lru → B × Lru)
    (c : LocalKeyCache) (xs : Dict ℕ ℕ)
    → Refines f g c xs
    → ((d : LocalKeyCache) (ys : Dict ℕ ℕ)
        → Shows d ys
        → (view d ys ≡ (g (view c xs)).1)
        → Refines (k (g (view c xs)).0) (h (g (view c xs)).0) d ys)
    → Refines (f >>= k) (λ l. h (g l).0 (g l).1) c xs
Refines-bind f g k h c xs (d, ys, r, s, v) next =
    let (d', ys', r', s', v') = next d ys s v in
    let out = (g (view c xs)).0 in
    (
      d',
      ys',
      ap (λ o. continue o k) r ∙ r' ∙ ap (λ l. some ((h out l).0, d')) v,
      s',
      v' ∙ ap (λ l. (h out l).1) v,
    )

pub get-items :
    (m : ℕ → CacheEntry) (d : Dict ℕ ℕ) (id a : ℕ)
    → Dict.get d id ≡ some a
    → Dict.get (items m d) id ≡ some (item (m a))
unfolding Dict.get
get-items m [] id a h = cc
get-items m ((j, b) ∷ d) id a h = ground (arith, get-items m d id a)

pub get-items-none :
    (m : ℕ → CacheEntry) (d : Dict ℕ ℕ) (id : ℕ)
    → Dict.get d id ≡ none
    → Dict.get (items m d) id ≡ none
unfolding Dict.get
get-items-none m [] id h = refl
get-items-none m ((j, b) ∷ d) id h = ground (arith, get-items-none m d id)

-- removeEntry
pub remove_entry-Refines :
    (c : LocalKeyCache) (xs : Dict ℕ ℕ) (id : ℕ)
    → Shows c xs
    → Refines (remove_entry id) (λ l. (tt, Spec.forget id l)) c xs
unfolding remove_entry remove_found Spec.forget
remove_entry-Refines c xs id s = elim (Option-cases (Dict.get xs id)) [
  | inl absent ↦ (
    c,
    xs,
    rw (s.found id, absent) refl,
    s,
    rw (Spec.forget, get-items-none c.cell xs id absent) refl,
  )
  | inr (a, there) ↦
      let c1 = record c { cache = Dict.remove c.cache id } in
      let (m, l, runs, held, _, _, same) = detach c1 xs id a s.held there in
      let d = Dict.remove c.cache id in
      let xs' = Dict.remove xs id in
      let count : length d ≡ length xs' = omega (
        arith,
        Dict.length-remove c.cache id s.own (s.found id ∙ there),
        Dict.length-remove xs id s.held.distinct there,
        s.counted,
      ) in
      let same_items : items m xs' ≡ Dict.remove (items c.cell xs) id =
        items_same c.cell m xs' (All-found _ xs' held.distinct (λ i b h. same b))
        ∙ items-remove c.cell xs id in
      (
        record c { cache = d; cell = m; lru = l; stats = record (c.stats) { size = length d } },
        xs',
        rw (s.found id, there, runs) refl,
        record {
          held = held;
          found =
              λ j. ground (arith, Dict.get-remove c.cache id j, Dict.get-remove xs id j, s.found j);
          counted = count;
          own = Dict.Distinct-remove c.cache id s.own;
        },
        rw (Spec.forget, get-items c.cell xs id a there, same_items)
            (rw (count ∙ sym (length-items m xs') ∙ ap length same_items) refl),
      )
]

-- MoveToFront on the entry of a cached key.
pub move :
    (c : LocalKeyCache) (xs : Dict ℕ ℕ) (id a : ℕ)
    → Held c.cell c.lru c.fresh xs
    → Dict.get xs id ≡ some a
    → (m : ℕ → CacheEntry) × (l : LruList) × Runs (move_to_front a) c m l
      × Held m l c.fresh ((id, a) ∷ Dict.remove xs id)
      × SameItems c.cell m
unfolding move_to_front
move c xs id a s g =
    let (m, l, runs, held, head, tail, same) = detach c xs id a s g in
    let c1 = record c { cell = m; lru = l } in
    let (m', l', runs', held', same') =
      attach c1 (Dict.remove xs id) id a held (rw (head, tail) (s.placed id a g))
        (ground (arith, Dict.get-remove xs id id))
        (λ i h. ground (arith, Dict.get-remove xs id i, s.injective i id a)) in
    (m', l', rw (runs, runs') refl, held', λ x. same' x ∙ same x)

pub write_same : (m : ℕ → CacheEntry) (a : ℕ) (e : CacheEntry) → write m a e a ≡ e
unfolding write
write_same m a e = ground arith

-- A write to an entry that keeps its links.
Linked-write :
    (m : ℕ → CacheEntry) (a : ℕ) (e : CacheEntry)
    → e.prev ≡ (m a).prev
    → e.next ≡ (m a).next
    → (p : ℕ) (xs : List ℕ) (q : ℕ) → Linked m p xs q
    → Linked (write m a e) p xs q
unfolding write
Linked-write m a e hp hn p [] q h = ground arith
Linked-write m a e hp hn p (x ∷ xs) q h =
    (ground arith, ground arith, Linked-write m a e hp hn x xs q h.2)

pub Held-write :
    (m : ℕ → CacheEntry) (a : ℕ) (e : CacheEntry) (l : LruList) (fresh : ℕ) (xs : Dict ℕ ℕ)
    → e.prev ≡ (m a).prev
    → e.next ≡ (m a).next
    → Held m l fresh xs
    → Held (write m a e) l fresh xs
Held-write m a e l fresh xs hp hn s = record {
  linked = Linked-write m a e hp hn l.head (addresses xs) l.tail s.linked;
  sized = s.sized;
  distinct = s.distinct;
  injective = s.injective;
  placed = s.placed;
  ends = s.ends;
}

-- An entry changed and moved to the front.
pub touched :
    (c : LocalKeyCache) (xs : Dict ℕ ℕ) (id a : ℕ) (e : CacheEntry)
    → Held c.cell c.lru c.fresh xs
    → Dict.get xs id ≡ some a
    → e.prev ≡ (c.cell a).prev
    → e.next ≡ (c.cell a).next
    → (m : ℕ → CacheEntry) × (l : LruList) × Runs
        (move_to_front a)
        (record c { cell = write c.cell a e })
        m
        l
      × Held m l c.fresh ((id, a) ∷ Dict.remove xs id)
      × (item (m a) ≡ item e)
      × (items m (Dict.remove xs id) ≡ Dict.remove (items c.cell xs) id)
touched c xs id a e s g hp hn =
    let c1 = record c { cell = write c.cell a e } in
    let (m, l, runs, held, same) =
      move c1 xs id a (Held-write c.cell a e c.lru c.fresh xs hp hn s) g in
    (
      m,
      l,
      runs,
      held,
      same a ∙ ap item (write_same c.cell a e),
      items_same c.cell m (Dict.remove xs id) (
            All-found (λ b. item (m b) ≡ item (c.cell b)) (Dict.remove xs id) (held.distinct.1)
              (λ i b h. same b ∙ ap item (write_other c.cell b a e (other i b h))))
          ∙ items-remove c.cell xs id,
    )
  where
    other : (i b : ℕ) → Dict.get (Dict.remove xs id) i ≡ some b → b ≢ a
    other i b h = ground (arith, Dict.get-remove xs id i, s.injective i id a)

pub Shows-touched :
    (c : LocalKeyCache) (xs : Dict ℕ ℕ) (id a : ℕ) (m : ℕ → CacheEntry) (l : LruList)
    (st : CacheStats)
    → Shows c xs
    → Dict.get xs id ≡ some a
    → Held m l c.fresh ((id, a) ∷ Dict.remove xs id)
    → Shows (record c { cell = m; lru = l; stats = st }) ((id, a) ∷ Dict.remove xs id)
unfolding Dict.get
Shows-touched c xs id a m l st s g held = record {
  held = held;
  found = λ j. ground (arith, s.found j, Dict.get-remove xs id j);
  counted = s.counted ∙ sym (Dict.length-remove xs id s.held.distinct g);
  own = s.own;
}

pub Shows-stats :
    (c : LocalKeyCache) (xs : Dict ℕ ℕ) (st : CacheStats)
    → Shows c xs
    → Shows (record c { stats = st }) xs
Shows-stats c xs st s = record { held = s.held; found = s.found; counted = s.counted; own = s.own }
