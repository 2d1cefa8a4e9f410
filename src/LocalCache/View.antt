-- ===== src/LocalCache/View.antt =====
-- What a local cache holds, as a list of ids and entries in the order of their use: the
-- representation invariant, and the moves of an entry under it.
use gpt_load_fix.Prelude.{
  ℕ, suc, ◌<◌, ◌≡◌, ◌≢◌, refl, Option, none, some, List, [], ◌∷◌, All, All-map, arith, nat_eq,
  length, ap, sym, ◌∙◌,
}
use gpt_load_fix.Prelude.Int.{ℤ, pos, ◌+ℤ◌, ◌-ℤ◌}
use gpt_load_fix.Prelude.Dict
use gpt_load_fix.Prelude.Dict.{Dict}
use gpt_load_fix.LocalCache.{CacheEntry, LruList, LocalKeyCache, unlink, add_to_front}
use gpt_load_fix.LocalCache.Links.{
  addresses, Linked, Only, first_of, next_first, before, after, unlink_Linked, add_Linked,
}
use gpt_load_fix.LocalCache.Moves.{
  Item, item, cut, paste, unlink_lem, add_to_front_lem, cut_next, cut_prev, cut_item, paste_next,
  paste_prev, paste_item,
}

-- A list whose chain holds the entries of `xs`, which give an id and an address each.
pub record Held (m : ℕ → CacheEntry) (l : LruList) (fresh : ℕ) (xs : Dict ℕ ℕ) : Type 0 where
  pub linked : Linked m l.head (addresses xs) l.tail
  pub sized : l.size ≡ pos (length xs)
  pub distinct : Dict.Distinct xs
  pub injective : (i j a : ℕ) → Dict.get xs i ≡ some a → Dict.get xs j ≡ some a → i ≡ j
  pub placed : (i a : ℕ) → Dict.get xs i ≡ some a → (a ≢ l.head) × (a ≢ l.tail) × (a < fresh)
  pub ends : (l.head ≢ l.tail) × (l.head < fresh) × (l.tail < fresh)

-- `xs` lists the cached ids with the addresses of their entries, the latest used first.
pub record Shows (c : LocalKeyCache) (xs : Dict ℕ ℕ) : Type 0 where
  pub held : Held c.cell c.lru c.fresh xs
  pub found : (id : ℕ) → Dict.get c.cache id ≡ Dict.get xs id
  pub counted : length c.cache ≡ length xs
  pub own : Dict.Distinct c.cache

-- What holds of every entry that can be found holds of the whole list.
pub All-found :
    (P : ℕ → Type 0) (d : Dict ℕ ℕ)
    → Dict.Distinct d
    → ((i a : ℕ) → Dict.get d i ≡ some a → P a)
    → All P (addresses d)
unfolding Dict.get
All-found P [] dis h = tt
All-found P ((j, b) ∷ d) dis h =
    (h j b (ground arith), All-found P d dis.1 (λ i a g. h i a (ground (arith, dis.0))))

pub Only-found :
    (id a : ℕ) (d : Dict ℕ ℕ)
    → Dict.Distinct d
    → ((j : ℕ) → Dict.get d j ≡ some a → j ≡ id)
    → Only id a d
unfolding Dict.get
Only-found id a [] dis h = tt
Only-found id a ((j, b) ∷ d) dis h =
    (λ e. h j (ground arith), Only-found id a d dis.1 (λ i g. h i (ground (arith, dis.0))))

abbrev pub items : (ℕ → CacheEntry) → Dict ℕ ℕ → Dict ℕ Item
items m [] = []
items m ((id, a) ∷ d) = (id, item (m a)) ∷ items m d

pub items_same :
    (m m' : ℕ → CacheEntry) (d : Dict ℕ ℕ)
    → All (λ a. item (m' a) ≡ item (m a)) (addresses d)
    → items m' d ≡ items m d
items_same m m' [] h = refl
items_same m m' ((id, a) ∷ d) h = ground (arith, items_same m m' d h.1, h.0)

pub items-remove :
    (m : ℕ → CacheEntry) (d : Dict ℕ ℕ) (id : ℕ)
    → items m (Dict.remove d id) ≡ Dict.remove (items m d) id
unfolding Dict.remove
items-remove m [] id = refl
items-remove m ((j, a) ∷ d) id = ground (arith, items-remove m d id)

pub length-addresses : (d : Dict ℕ ℕ) → length (addresses d) ≡ length d
length-addresses [] = refl
length-addresses ((j, a) ∷ d) = ap suc (length-addresses d)

pub length-items : (m : ℕ → CacheEntry) (d : Dict ℕ ℕ) → length (items m d) ≡ length d
length-items m [] = refl
length-items m ((j, a) ∷ d) = ap suc (length-items m d)

size_lem : {z : ℤ} {n k : ℕ} → z ≡ pos n → suc k ≡ n → z -ℤ pos 1 ≡ pos k
unfolding ◌-ℤ◌
size_lem h e = ground arith

grown : {z : ℤ} {n : ℕ} → z ≡ pos n → z +ℤ pos 1 ≡ pos (suc n)
unfolding ◌+ℤ◌
grown h = ground arith

first_out :
    (xs : List ℕ) (q a h : ℕ)
    → a ≢ q
    → h ≢ q
    → All (λ x. (x ≢ a) × (x ≢ h) × (x ≢ q)) xs
    → (first_of xs q ≢ a) × (first_of xs q ≢ h)
first_out [] q a h aq hq out = (λ e. aq (sym e), λ e. hq (sym e))
first_out (x ∷ xs) q a h aq hq out = (out.0.0, out.0.1)

-- The state after a change of the heap and of the list.
abbrev pub Runs :
    (LocalKeyCache → Option (Unit {0} × LocalKeyCache))
    → LocalKeyCache
    → (ℕ → CacheEntry)
    → LruList
    → Type 0
Runs f c m l = f c ≡ some (tt, record c { cell = m; lru = l })

abbrev pub SameItems : (ℕ → CacheEntry) → (ℕ → CacheEntry) → Type 0
SameItems m m' = (x : ℕ) → item (m' x) ≡ item (m x)

-- Remove on the entry of a cached key takes the key out of the list and touches no item.
pub detach :
    (c : LocalKeyCache) (xs : Dict ℕ ℕ) (id a : ℕ)
    → Held c.cell c.lru c.fresh xs
    → Dict.get xs id ≡ some a
    → (m : ℕ → CacheEntry) × (l : LruList) × Runs (unlink a) c m l
      × Held m l c.fresh (Dict.remove xs id)
      × (l.head ≡ c.lru.head)
      × (l.tail ≡ c.lru.tail)
      × SameItems c.cell m
detach c xs id a s g =
    let only = Only-found id a xs s.distinct (λ j e. s.injective j id a e g) in
    let (ah, at, _) = s.placed id a g in
    let hp : c.lru.head ≢ a = λ e. ah (sym e) in
    let hq : c.lru.tail ≢ a = λ e. at (sym e) in
    let (u, pa, nu, au) = before c.cell id a c.lru.head xs c.lru.tail hp only g s.linked in
    let (v, na, pv) = after c.cell id a c.lru.head xs c.lru.tail g s.linked in
    (
      cut a u v c.cell,
      record (c.lru) { size = c.lru.size -ℤ pos 1 },
      unlink_lem a u v c au pa na,
      record {
        linked =
            unlink_Linked c.cell (cut a u v c.cell) a u v pa na nu pv (cut_next a u v c.cell)
              (cut_prev a u v c.cell) c.lru.head xs id c.lru.tail hp hq s.distinct only g s.linked;
        sized = size_lem (s.sized) (Dict.length-remove xs id s.distinct g);
        distinct = Dict.Distinct-remove xs id s.distinct;
        injective = λ i j b hi hj. s.injective i j b (kept i b hi) (kept j b hj);
        placed = λ i b hi. s.placed i b (kept i b hi);
        ends = s.ends;
      },
      refl,
      refl,
      cut_item a u v c.cell,
    )
  where
    kept : (i b : ℕ) → Dict.get (Dict.remove xs id) i ≡ some b → Dict.get xs i ≡ some b
    kept i b h = ground (arith, Dict.get-remove xs id i)

-- AddToFront puts an entry that stands nowhere in the list at its front.
pub attach :
    (c : LocalKeyCache) (ys : Dict ℕ ℕ) (id a : ℕ)
    → Held c.cell c.lru c.fresh ys
    → (a ≢ c.lru.head) × (a ≢ c.lru.tail) × (a < c.fresh)
    → Dict.get ys id ≡ none
    → ((i : ℕ) → Dict.get ys i ≢ some a)
    → (m : ℕ → CacheEntry) × (l : LruList) × Runs (add_to_front a) c m l
      × Held m l c.fresh ((id, a) ∷ ys)
      × SameItems c.cell m
unfolding Dict.get
attach c ys id a k (ah, at, af) new out =
    let ht = k.ends.0 in
    let f = first_of (addresses ys) c.lru.tail in
    let n = next_first c.cell c.lru.head (addresses ys) c.lru.tail k.linked in
    let nexts = paste_next a c.lru.head f c.cell in
    let prevs = paste_prev a c.lru.head f c.cell in
    let apart =
      All-found (λ x. (x ≢ a) × (x ≢ c.lru.head) × (x ≢ c.lru.tail)) ys k.distinct
        (λ i x h. (λ e. out i (h ∙ ap some e), (k.placed i x h).0, (k.placed i x h).1)) in
    let (fa, fh) = first_out (addresses ys) (c.lru.tail) a (c.lru.head) at ht apart in
    (
      paste a c.lru.head f c.cell,
      record (c.lru) { size = c.lru.size +ℤ pos 1 },
      add_to_front_lem a f c ah n,
      record {
        linked =
            add_Linked c.cell (paste a c.lru.head f c.cell) c.lru.head a (addresses ys) c.lru.tail
              (λ e. ah (sym e)) (λ e. ht (sym e)) (λ e. at (sym e))
              (All-map _ _ (addresses ys) (λ x h. (h.0, h.1)) apart)
              (ground (arith, nexts c.lru.head ah)) (ground (arith, prevs a fa))
              (ground (arith, nexts a ah)) (ground (arith, prevs f fa))
              (λ x xa xh. ground (arith, nexts x ah)) (λ x xa xh xf. ground (arith, prevs x fa))
              k.linked;
        sized = grown k.sized;
        distinct = (new, k.distinct);
        injective = λ i j b hi hj. ground (arith, k.injective i j b, out i, out j);
        placed = λ i b hi. ground (arith, k.placed i b);
        ends = k.ends;
      },
      paste_item a c.lru.head f c.cell,
    )
