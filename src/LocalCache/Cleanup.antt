-- ===== src/LocalCache/Cleanup.antt =====
-- cleanupExpired, on the pointers and in the specification.
use gpt_load_fix.Prelude.{
  ℕ, ◌≡◌, refl, Bool, false, ◌||◌, none, some, List, [], ◌∷◌, arith, ◌==◌, if◌then◌else◌, nat_eq,
  Bool-cases, inl, inr, ◌∙◌,
}
use gpt_load_fix.Prelude.Int.{ℤ, ltb_ℤ}
use gpt_load_fix.Prelude.Dict
use gpt_load_fix.Prelude.Dict.{Dict}
use gpt_load_fix.LocalCache.{CacheEntry, LocalKeyCache}
use gpt_load_fix.LocalCache.Ops.{remove_entry, remove_all, expired_keys, cleanup_expired}
use gpt_load_fix.LocalCache.Moves.{Item, item}
use gpt_load_fix.LocalCache.View.{Shows, items}
use gpt_load_fix.LocalCache.Spec
use gpt_load_fix.LocalCache.Spec.{Lru, IsCounted}
use gpt_load_fix.LocalCache.Refines.{view, Refines, Refines-by, Refines-bind, remove_entry-Refines}

forget_all : List ℕ → Lru → Lru
forget_all [] l = l
forget_all (id ∷ ids) l = forget_all ids (Spec.forget id l)

remove_many : List ℕ → Dict ℕ Item → Dict ℕ Item
remove_many [] d = d
remove_many (id ∷ ids) d = remove_many ids (Dict.remove d id)

mem : ℕ → List ℕ → Bool
mem j [] = false
mem j (i ∷ is) = i == j || mem j is

remove_all-Refines :
    (ids : List ℕ) (c : LocalKeyCache) (xs : Dict ℕ ℕ)
    → Shows c xs
    → Refines (remove_all ids) (λ l. (tt, forget_all ids l)) c xs
unfolding remove_all forget_all
remove_all-Refines [] c xs s = (c, xs, refl, s, refl)
remove_all-Refines (id ∷ ids) c xs s =
    Refines-bind (remove_entry id) (λ l. (tt, Spec.forget id l)) (λ _. remove_all ids)
      (λ _ l. (tt, forget_all ids l)) c xs (remove_entry-Refines c xs id s)
      (λ d ys s' _. remove_all-Refines ids d ys s')

forget_counted :
    (id : ℕ) (l : Lru)
    → IsCounted l
    → Spec.forget id l ≡ record l {
      entries = Dict.remove l.entries id;
      stats = Spec.resized (Dict.remove l.entries id) l.stats;
    }
unfolding Spec.forget
forget_counted id l h = ground (arith, Dict.remove_absent l.entries id)

forget_all_counted :
    (ids : List ℕ) (l : Lru)
    → IsCounted l
    → forget_all ids l ≡ record l {
      entries = remove_many ids l.entries;
      stats = Spec.resized (remove_many ids l.entries) l.stats;
    }
unfolding forget_all remove_many
forget_all_counted [] l h = ground arith
forget_all_counted (id ∷ ids) l h = rw (forget_counted id l h) (forget_all_counted ids _ refl)

remove_many_cons :
    (ids : List ℕ) (j : ℕ) (i : Item) (d : Dict ℕ Item)
    → remove_many ids ((j, i) ∷ d)
      ≡ (if mem j ids then remove_many ids d else (j, i) ∷ remove_many ids d)
unfolding remove_many mem Dict.remove
remove_many_cons [] j i d = refl
remove_many_cons (k ∷ ids) j i d = ground (arith, remove_many_cons ids j i (Dict.remove d k))

remove_many_nil : (ids : List ℕ) → remove_many ids [] ≡ []
unfolding remove_many Dict.remove
remove_many_nil [] = refl
remove_many_nil (i ∷ ids) = remove_many_nil ids

remove_many-kept :
    (ids : List ℕ) (now : ℤ) (m : ℕ → CacheEntry) (xs : Dict ℕ ℕ)
    → Dict.Distinct xs
    → ((i a : ℕ) → Dict.get xs i ≡ some a → mem i ids ≡ ltb_ℤ (m a).expires_at now)
    → remove_many ids (items m xs) ≡ Spec.kept now (items m xs)
unfolding Spec.kept Dict.get
remove_many-kept ids now m [] dis h = remove_many_nil ids
remove_many-kept ids now m ((j, b) ∷ xs) dis h = ground (
  arith,
  remove_many_cons ids j (item (m b)) (items m xs),
  h j b,
  remove_many-kept ids now m xs dis.1 (λ i a g. h i a (ground (arith, dis.0))),
)

-- The expired keys are those of the expired entries.
mem-absent :
    (now : ℤ) (m : ℕ → CacheEntry) (d : Dict ℕ ℕ) (id : ℕ)
    → Dict.get d id ≡ none
    → mem id (expired_keys now m d) ≡ false
unfolding Dict.get expired_keys mem
mem-absent now m [] id g = refl
mem-absent now m ((j, b) ∷ d) id g = elim (Bool-cases (ltb_ℤ (m b).expires_at now)) [
  | inl old ↦ rw old (ground (arith, mem-absent now m d id))
  | inr young ↦ rw young (ground (arith, mem-absent now m d id))
]

mem-expired_keys :
    (now : ℤ) (m : ℕ → CacheEntry) (d : Dict ℕ ℕ) (id a : ℕ)
    → Dict.Distinct d
    → Dict.get d id ≡ some a
    → mem id (expired_keys now m d) ≡ ltb_ℤ (m a).expires_at now
unfolding Dict.get expired_keys mem
mem-expired_keys now m [] id a dis g = cc
mem-expired_keys now m ((j, b) ∷ d) id a dis g = elim (Bool-cases (j == id)) [
  | inl here ↦
      let same : b ≡ a = ground arith in
      let gone = mem-absent now m d id (ground (arith, dis.0)) in
      rw (← same) (elim (Bool-cases (ltb_ℤ (m b).expires_at now)) [
        | inl old ↦ rw old (rw (mem, here) refl)
        | inr young ↦ rw young gone
      ])
  | inr there ↦
      let rest = mem-expired_keys now m d id a dis.1 (ground arith) in
      elim (Bool-cases (ltb_ℤ (m b).expires_at now)) [
        | inl old ↦ rw old (rw (mem, there) rest)
        | inr young ↦ rw young rest
      ]
]

-- cleanupExpired
pub cleanup-Refines :
    (now : ℤ) (c : LocalKeyCache) (xs : Dict ℕ ℕ)
    → Shows c xs
    → IsCounted (view c xs)
    → Refines (cleanup_expired now) (λ l. (tt, Spec.cleaned now l)) c xs
unfolding cleanup_expired
cleanup-Refines now c xs s n =
    let ids = expired_keys now c.cell c.cache in
    let same =
      remove_many-kept ids now c.cell xs s.held.distinct
        (λ i a g. mem-expired_keys now c.cell c.cache i a s.own (s.found i ∙ g)) in
    Refines-by (cleanup_expired now) (remove_all ids) (λ l. (tt, Spec.cleaned now l))
      (λ l. (tt, forget_all ids l)) c xs refl
      (rw (forget_all_counted ids (view c xs) n) (rw same refl)) (remove_all-Refines ids c xs s)
