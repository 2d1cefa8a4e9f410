-- ===== src/LocalCache/Adapt.antt =====
-- internal/keypool/local_cache.go: adaptSize of AdaptiveCache, in one goroutine.
use gpt_load_fix.Prelude.{
  ℕ, zero, suc, ◌+◌, ◌≤◌, ◌<◌, ◌≡◌, ◌≢◌, refl, Bool, true, false, none, some, [], ◌∷◌, arith,
  if◌then◌else◌, nat_eq, =?_ne, ◌&&◌, length, Bool-cases, inl, inr, ap, sym, ◌∙◌,
}
use gpt_load_fix.Prelude.Int.{ℤ, pos, ltb_ℤ, leb_ℤ, add64, sub64}
use gpt_load_fix.Prelude.Dict
use gpt_load_fix.Prelude.Dict.{Dict}
use gpt_load_fix.LocalCache.{LocalKeyCache, Run, ◌>>◌, continue}
use gpt_load_fix.LocalCache.Ops.{evict_lru}
use gpt_load_fix.LocalCache.Moves.{Item}
use gpt_load_fix.LocalCache.View.{Shows, length-items}
use gpt_load_fix.LocalCache.Spec
use gpt_load_fix.LocalCache.Spec.{Lru}
use gpt_load_fix.LocalCache.Branches.{forget_takes, evict_takes}
use gpt_load_fix.LocalCache.Refines.{view, get-items-none}
use gpt_load_fix.LocalCache.Client.{Distinct-items}
use gpt_load_fix.LocalCache.Writes.{evict-Refines, evict_absent, absent-items}
use gpt_load_fix.LocalCache.Bounds.{oldest_held}

-- AdaptiveCacheConfig, less the interval of the ticker. The target of the hit rate is a float: the
-- two comparisons with it are arguments of `adapt_size`.
pub record AdaptiveCacheConfig : Type 0 where
  pub min_size : ℤ
  pub max_size : ℤ
  pub size_adjust_step : ℤ

-- for len(a.cache) > a.maxSize { a.evictLRU() }: false if the fuel runs out first.
unfoldable pub shrink : ℕ → Run Bool
shrink zero c = some (false, c)
shrink (suc n) c =
    let rest = (evict_lru >> shrink n) c in
    if ltb_ℤ c.max_size (pos (length c.cache)) then rest else some (true, c)

abbrev pub limited : ℤ → LocalKeyCache → LocalKeyCache
limited n c = record c { max_size = n }

-- adaptSize, with the comparisons of the hit rate with its target and with the target plus 0.1.
unfoldable pub adapt_size : AdaptiveCacheConfig → (ℤ × ℤ → Bool) → (ℤ × ℤ → Bool) → ℕ → Run Bool
adapt_size cfg below above fuel c =
    let grown = add64 c.max_size cfg.size_adjust_step in
    let less = sub64 c.max_size cfg.size_adjust_step in
    let shrunk = shrink fuel (limited less c) in
    if below c.stats.hit_rate
    then some (true, if leb_ℤ grown cfg.max_size then limited grown c else c)
    else if above c.stats.hit_rate && leb_ℤ cfg.min_size less
    then shrunk
    else some (true, c)

-- The entries that were used last.
abbrev pub take : ℕ → Dict ℕ Item → Dict ℕ Item
take n [] = []
take zero (x ∷ d) = []
take (suc n) (x ∷ d) = x ∷ take n d

take-zero : (d : Dict ℕ Item) → take zero d ≡ []
take-zero [] = refl
take-zero (x ∷ d) = refl

take_all : (m : ℕ) (d : Dict ℕ Item) → length d ≤ m → take m d ≡ d
take_all m [] h = refl
take_all zero (x ∷ d) h = absurd (omega arith)
take_all (suc m) (x ∷ d) h = ap (λ r. x ∷ r) (take_all m d (omega arith))

-- The oldest of more than one entry is not the first.
remove_later :
    (x y : ℕ × Item) (d : Dict ℕ Item)
    → x.0 ≢ Spec.oldest (y ∷ d)
    → Dict.remove (x ∷ y ∷ d) (Spec.oldest (x ∷ y ∷ d))
      ≡ x ∷ Dict.remove (y ∷ d) (Spec.oldest (y ∷ d))
unfolding Spec.oldest Dict.remove
remove_later x y d h = let e = =?_ne x.0 (Spec.oldest (y ∷ d)) h in rw (Dict.remove, e) refl

take-remove-oldest :
    (m : ℕ) (d : Dict ℕ Item) (x : ℕ × Item)
    → m < length (x ∷ d)
    → Dict.Distinct (x ∷ d)
    → take m (Dict.remove (x ∷ d) (Spec.oldest (x ∷ d))) ≡ take m (x ∷ d)
take-remove-oldest zero d x h dis = take-zero _
take-remove-oldest (suc m) [] x h dis = absurd (omega arith)
take-remove-oldest (suc m) (y ∷ d) x h dis =
    let (i, there) = oldest_held (y ∷ d) (omega arith) dis.1 in
    let away : x.0 ≢ Spec.oldest (y ∷ d) =
      λ e. ground (arith, dis.0, ap (Dict.get (y ∷ d)) e ∙ there) in
    ap (take (suc m)) (remove_later x y d away)
    ∙ ap (λ r. x ∷ r) (take-remove-oldest m d y (omega arith) dis.1)

take_dropped :
    (m : ℕ) (d : Dict ℕ Item)
    → m < length d
    → Dict.Distinct d
    → take m (Dict.remove d (Spec.oldest d)) ≡ take m d
take_dropped m [] h dis = absurd (omega arith)
take_dropped m (x ∷ d) h dis = take-remove-oldest m d x h dis

module _ (l : Lru) (some_left : 0 < length l.entries) (dis : Dict.Distinct l.entries)
    (nz : Dict.get l.entries 0 ≡ none) where
  evict_entries :
      ((Spec.evict l).entries ≡ Dict.remove l.entries (Spec.oldest l.entries))
      × ((Spec.evict l).max_size ≡ l.max_size)
      × (suc (length (Spec.evict l).entries) ≡ length l.entries)
  evict_entries =
      let old = Spec.oldest l.entries in
      let (i, there) = oldest_held l.entries some_left dis in
      let ne : old ≢ 0 = λ e. ground (arith, nz, sym there ∙ ap (Dict.get l.entries) e) in
      rw (evict_takes old l refl ne, forget_takes old l there)
        (refl, refl, Dict.length-remove l.entries old dis there)

  take_evicted : (m : ℕ) → m < length l.entries → take m (Spec.evict l).entries ≡ take m l.entries
  take_evicted m h = ap (take m) evict_entries.0 ∙ take_dropped m l.entries h dis

shrink_over :
    (n : ℕ) (c : LocalKeyCache)
    → ltb_ℤ c.max_size (pos (length c.cache)) ≡ true
    → shrink (suc n) c ≡ (evict_lru >> shrink n) c
unfolding shrink
shrink_over n c over = rw over refl

abbrev Shrunk : ℕ → ℕ → LocalKeyCache → Dict ℕ ℕ → Type 0
Shrunk m fuel c xs =
    (c' : LocalKeyCache) × (xs' : Dict ℕ ℕ) × (shrink (suc fuel) c ≡ some (true, c'))
    × Shows c' xs'
    × ((view c' xs').entries ≡ take m (view c xs).entries)
    × (c'.max_size ≡ c.max_size)

shrunk :
    (m fuel : ℕ) (c : LocalKeyCache) (xs : Dict ℕ ℕ)
    → Shows c xs
    → c.max_size ≡ pos m
    → ltb_ℤ c.max_size (pos (length c.cache)) ≡ false
    → Shrunk m fuel c xs
unfolding shrink
shrunk m fuel c xs s size fits = (
  c,
  xs,
  rw fits refl,
  s,
  sym (take_all m (view c xs).entries (ground (arith, s.counted, length-items c.cell xs))),
  refl,
)

-- The loop of the shrinking ends, if no entry has the id 0.
pub shrink_takes :
    (m fuel : ℕ) (c : LocalKeyCache) (xs : Dict ℕ ℕ)
    → Shows c xs
    → Dict.get xs 0 ≡ none
    → c.max_size ≡ pos m
    → length xs ≤ m + fuel
    → Shrunk m fuel c xs
shrink_takes m zero c xs s nz size h =
    let fits : ltb_ℤ c.max_size (pos (length c.cache)) ≡ false = ground (arith, s.counted, size) in
    shrunk m zero c xs s size fits
shrink_takes m (suc n) c xs s nz size h =
    elim (Bool-cases (ltb_ℤ c.max_size (pos (length c.cache)))) [
      | inr fits ↦ shrunk m (suc n) c xs s size fits
      | inl over ↦
          let l = view c xs in
          let len = length-items c.cell xs in
          let big : m < length l.entries = ground (arith, s.counted, size) in
          let left : 0 < length l.entries = omega arith in
          let dis = Distinct-items c.cell xs s.held.distinct in
          let nz' = get-items-none c.cell xs 0 nz in
          let (e1, e2, e3) = evict_entries l left dis nz' in
          let (d, ys, runs, s', v) = evict-Refines c xs s in
          let ve = ap (λ (r : Lru). r.entries) v in
          let nz'' = absent-items d.cell ys 0 (ap (λ r. Dict.get r 0) ve ∙ evict_absent 0 l nz') in
          let smaller : length ys ≤ m + n =
            omega (arith, e3, ap length ve, length-items d.cell ys) in
          let ms = ap (λ (r : Lru). r.max_size) v ∙ e2 in
          let (c', xs', r, shows, taken, kept_size) =
            shrink_takes m n d ys s' nz'' (ms ∙ size) smaller in
          (
            c',
            xs',
            shrink_over (suc n) c over ∙ ap (λ o. continue o (λ _. shrink (suc n))) runs ∙ r,
            shows,
            taken ∙ ap (take m) ve ∙ take_evicted l left dis nz' m big,
            kept_size ∙ ms,
          )
    ]

-- The run ends by itself, in a cache of size `m` with the `m` entries that were used last.
abbrev pub Keeps : Run Bool → ℕ → LocalKeyCache → Dict ℕ ℕ → Type 0
Keeps f m c xs =
    (c' : LocalKeyCache) × (xs' : Dict ℕ ℕ) × (f c ≡ some (true, c'))
    × Shows c' xs'
    × ((view c' xs').entries ≡ take m (view c xs).entries)
    × (c'.max_size ≡ pos m)

-- In a cache that holds nothing under the id 0: where adaptSize shrinks the cache to a size of `m`,
-- its loop ends, within as many rounds as there are entries and one more, and of the entries
-- exactly the `m` that were used last are left, in their order, or all if there are fewer.
pub adapt_size-Keeps :
    (cfg : AdaptiveCacheConfig) (below above : ℤ × ℤ → Bool) (m fuel : ℕ) (c : LocalKeyCache)
    (xs : Dict ℕ ℕ)
    → Shows c xs
    → Dict.get c.cache 0 ≡ none
    → below c.stats.hit_rate ≡ false
    → above c.stats.hit_rate ≡ true
    → sub64 c.max_size cfg.size_adjust_step ≡ pos m
    → leb_ℤ cfg.min_size (pos m) ≡ true
    → length c.cache ≤ fuel
    → Keeps (adapt_size cfg below above (suc fuel)) m c xs
unfolding adapt_size
adapt_size-Keeps cfg below above m fuel c xs s nz lo hi less min h =
    let s' : Shows (limited (pos m) c) xs = record {
      held = s.held;
      found = s.found;
      counted = s.counted;
      own = s.own;
    } in
    let (c', xs', r, shows, taken, size) =
      shrink_takes m fuel (limited (pos m) c) xs s' (sym (s.found 0) ∙ nz) refl
        (omega (arith, s.counted)) in
    (c', xs', rw (lo, hi, less, min) r, shows, taken, size)
