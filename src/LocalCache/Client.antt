-- ===== src/LocalCache/Client.antt =====
-- What a client of the local cache observes over any sequence of calls.
use gpt_load_fix.Prelude.{ℕ, ◌≡◌, refl, Option, none, some, List, [], ◌∷◌, arith, nat_eq}
use gpt_load_fix.Prelude.Int.{ℤ}
use gpt_load_fix.Prelude.Dict
use gpt_load_fix.Prelude.Dict.{Dict}
use gpt_load_fix.Models.{ApiKey}
use gpt_load_fix.LocalCache.{
  CacheEntry, LocalKeyCache, Run, ◌>>=◌, ◌>>◌, pure, modify, new_lru_list, new_local_key_cache,
  clear, no_stats, write, unlinked,
}
use gpt_load_fix.LocalCache.Ops
use gpt_load_fix.LocalCache.Ops.{Instants, remove_entry, cleanup_expired}
use gpt_load_fix.LocalCache.View.{Shows, items}
use gpt_load_fix.LocalCache.Counted.{forget-IsCounted, get-IsCounted, set-IsCounted}
use gpt_load_fix.LocalCache.Spec
use gpt_load_fix.LocalCache.Spec.{Lru, IsCounted}
use gpt_load_fix.LocalCache.Refines.{
  view, Refines, Refines-bind, remove_entry-Refines, Shows-stats, get-items-none,
}
use gpt_load_fix.LocalCache.Reads.{get-Refines}
use gpt_load_fix.LocalCache.Writes.{set-Refines}
use gpt_load_fix.LocalCache.Cleanup.{cleanup-Refines}

-- The calls of the cache's methods, with the instants that their clocks show.
pub data Call : Type 0 where
  get : Instants → ℕ → Call
  set : ℤ → ℕ → Option ApiKey → Call
  remove : ℕ → Call
  cleanup : ℤ → Call
  clear_all : Call

-- What a call answers: nil where the method returns nothing.
unfoldable pub call : Call → Run (Option ApiKey)
call (get t id) = Ops.get t id
call (set now id key) = do Ops.set now id key; pure none
call (remove id) = do remove_entry id; pure none
call (cleanup now) = do cleanup_expired now; pure none
call clear_all = do modify clear; pure none

unfoldable pub run : List Call → Run (List (Option ApiKey))
run [] = pure []
run (x ∷ xs) = do r ← call x; rs ← run xs; pure (r ∷ rs)

abbrev pub cleared : Lru → Lru
cleared l = record l { entries = []; stats = no_stats }

-- The same calls in the specification.
unfoldable pub answer : Call → Lru → Option ApiKey × Lru
answer (get t id) l = Spec.get t id l
answer (set now id key) l = (none, (Spec.set now id key l).1)
answer (remove id) l = (none, Spec.forget id l)
answer (cleanup now) l = (none, Spec.cleaned now l)
answer clear_all l = (none, cleared l)

unfoldable pub answers : List Call → Lru → List (Option ApiKey) × Lru
answers [] l = ([], l)
answers (x ∷ xs) l = let (r, l') = answer x l in let (rs, l'') = answers xs l' in (r ∷ rs, l'')

abbrev pub empty : ℤ → ℤ → Lru
empty max_size ttl = record { entries = []; max_size = max_size; ttl = ttl; stats = no_stats }

-- A fresh pair of sentinels is an empty list.
Shows-new_lru_list : (c : LocalKeyCache) → c.cache ≡ [] → Shows (new_lru_list c) []
unfolding new_lru_list write Dict.get
Shows-new_lru_list c h = record {
  held = record {
    linked = (ground arith, ground arith);
    sized = refl;
    distinct = tt;
    injective = λ i j a hi hj. cc;
    placed = λ i a hi. cc;
    ends = ground arith;
  };
  found = λ id. rw h refl;
  counted = rw h refl;
  own = rw h tt;
}

Shows-clear : (c : LocalKeyCache) → Shows (clear c) []
unfolding clear
Shows-clear c =
    Shows-stats (new_lru_list (record c { cache = [] })) [] no_stats
      (Shows-new_lru_list (record c { cache = [] }) refl)

IsCounted-by : {l l' : Lru} → l ≡ l' → IsCounted l' → IsCounted l
IsCounted-by e h = rw e h

pub Distinct-items :
    (m : ℕ → CacheEntry) (d : Dict ℕ ℕ) → Dict.Distinct d → Dict.Distinct (items m d)
Distinct-items m [] h = tt
Distinct-items m ((j, b) ∷ d) h = (get-items-none m d j h.0, Distinct-items m d h.1)

silent :
    (f : Run (Unit {0})) (g : Lru → Lru) (c : LocalKeyCache) (xs : Dict ℕ ℕ)
    → Refines f (λ l. (tt, g l)) c xs
    → Refines {A = Option ApiKey} (f >> pure none) (λ l. (none, g l)) c xs
silent f g c xs r =
    Refines-bind f (λ l. (tt, g l)) (λ _. pure none) (λ _ l. (none, l)) c xs r
      (λ d ys s _. (d, ys, refl, s, refl))

call-Refines :
    (x : Call) (c : LocalKeyCache) (xs : Dict ℕ ℕ)
    → Shows c xs
    → IsCounted (view c xs)
    → Refines (call x) (answer x) c xs
unfolding call answer
call-Refines (get t id) c xs s n = get-Refines t id c xs s
call-Refines (set now id key) c xs s n =
    silent (Ops.set now id key) (λ l. (Spec.set now id key l).1) c xs
      (set-Refines now id key c xs s)
call-Refines (remove id) c xs s n =
    silent (remove_entry id) (Spec.forget id) c xs (remove_entry-Refines c xs id s)
call-Refines (cleanup now) c xs s n =
    silent (cleanup_expired now) (Spec.cleaned now) c xs (cleanup-Refines now c xs s n)
call-Refines clear_all c xs s n =
    let c' = record c { cache = [] } in (clear c, [], refl, Shows-clear c, unfold clear in refl)

-- What the specification keeps: the count, and no id twice.
answer_keeps :
    (x : Call) (c : LocalKeyCache) (xs : Dict ℕ ℕ)
    → Shows c xs
    → IsCounted (view c xs)
    → IsCounted (answer x (view c xs)).1
unfolding answer
answer_keeps (get t id) c xs s h =
    get-IsCounted t id (view c xs) (Distinct-items c.cell xs s.held.distinct) h
answer_keeps (set now id key) c xs s h =
    set-IsCounted now id key (view c xs) (Distinct-items c.cell xs s.held.distinct) h
answer_keeps (remove id) c xs s h = forget-IsCounted id (view c xs) h
answer_keeps (cleanup now) c xs s h = refl
answer_keeps clear_all c xs s h = refl

pub run-Refines :
    (calls : List Call) (c : LocalKeyCache) (xs : Dict ℕ ℕ)
    → Shows c xs
    → IsCounted (view c xs)
    → Refines (run calls) (answers calls) c xs
unfolding run answers
run-Refines [] c xs s n = (c, xs, refl, s, refl)
run-Refines (x ∷ calls) c xs s n =
    Refines-bind (call x) (answer x) (λ r. do rs ← run calls; pure (r ∷ rs))
      (λ r l. (r ∷ (answers calls l).0, (answers calls l).1)) c xs (call-Refines x c xs s n)
      (λ d ys s' v.
        Refines-bind (run calls) (answers calls) (λ rs. pure ((answer x (view c xs)).0 ∷ rs))
          (λ rs l. ((answer x (view c xs)).0 ∷ rs, l)) d ys
          (run-Refines calls d ys s' (IsCounted-by v (answer_keeps x c xs s n)))
          (λ d' ys' s'' _. (d', ys', refl, s'', refl)))

-- Any sequence of calls on a new cache runs without a step through nil, and answers what the
-- bounded list of the specification answers.
pub cache_refines :
    (calls : List Call) (max_size ttl : ℤ)
    → (c : LocalKeyCache) × (xs : Dict ℕ ℕ) × (run calls (new_local_key_cache max_size ttl)
        ≡ some ((answers calls (empty max_size ttl)).0, c))
      × Shows c xs
      × (view c xs ≡ (answers calls (empty max_size ttl)).1)
unfolding new_local_key_cache
cache_refines calls max_size ttl =
    let c = unlinked max_size ttl in
    run-Refines calls (new_lru_list c) [] (Shows-new_lru_list c refl) refl
