-- ===== src/LocalCache/Lookup.antt =====
-- Get after Set, with other calls before and between.
use gpt_load_fix.Prelude.{
  ℕ, ◌<◌, ◌≡◌, ◌≢◌, refl, Option, none, some, List, [], ◌∷◌, ◌++◌, arith, nat_eq, length,
  Bool-cases, Option-cases, inl, inr, ap, ◌∙◌, All, subst,
}
use gpt_load_fix.Prelude.Int.{ℤ, pos, leb_ℤ, ◌≤ℤ◌, ◌+ℤ◌}
use gpt_load_fix.Prelude.Dict
use gpt_load_fix.Prelude.Dict.{Dict}
use gpt_load_fix.Models.{ApiKey}
use gpt_load_fix.LocalCache.{LocalKeyCache, new_local_key_cache}
use gpt_load_fix.LocalCache.Ops.{Instants}
use gpt_load_fix.LocalCache.Spec
use gpt_load_fix.LocalCache.Spec.{Lru, new_item}
use gpt_load_fix.LocalCache.Branches.{get_valid, set_full, set_room, set_there}
use gpt_load_fix.LocalCache.Client.{
  Call, get, set, remove, cleanup, clear_all, run, answer, answers, empty, cache_refines,
}
use gpt_load_fix.LocalCache.Bounds.{NoZero, Fits, answer-Fits, answers-Fits, empty-Fits}
use gpt_load_fix.LocalCache.Survival.{Quiet, Stays, pushed, answers-Stays}

forget-ttl : (id : ℕ) (l : Lru) → (Spec.forget id l).ttl ≡ l.ttl
unfolding Spec.forget
forget-ttl id l = ground arith

evict-ttl : (l : Lru) → (Spec.evict l).ttl ≡ l.ttl
unfolding Spec.evict Spec.evict_id
evict-ttl l = ground (arith, forget-ttl (Spec.oldest l.entries) l)

answer-ttl : (x : Call) (l : Lru) → (answer x l).1.ttl ≡ l.ttl
unfolding answer Spec.get Spec.set Spec.insert
answer-ttl (get t id) l = ground (arith, forget-ttl id l)
answer-ttl (set now id key) l = ground (arith, evict-ttl l)
answer-ttl (remove id) l = forget-ttl id l
answer-ttl (cleanup now) l = refl
answer-ttl clear_all l = refl

answers-ttl : (calls : List Call) (l : Lru) → (answers calls l).1.ttl ≡ l.ttl
unfolding answers
answers-ttl [] l = refl
answers-ttl (x ∷ calls) l = answers-ttl calls (answer x l).1 ∙ answer-ttl x l

answers-append :
    (xs ys : List Call) (l : Lru) → (answers (xs ++ ys) l).1 ≡ (answers ys (answers xs l).1).1
unfolding answers
answers-append [] ys l = refl
answers-append (x ∷ xs) ys l = answers-append xs ys (answer x l).1

abbrev pub last_answer : List (Option ApiKey) → Option ApiKey
last_answer [] = none
last_answer (r ∷ []) = r
last_answer (r ∷ s ∷ rs) = last_answer (s ∷ rs)

last_answer-answers :
    (xs : List Call) (x : Call) (l : Lru)
    → last_answer (answers (xs ++ x ∷ []) l).0 ≡ (answer x (answers xs l).1).0
unfolding answers
last_answer-answers [] x l = refl
last_answer-answers (y ∷ []) x l = refl
last_answer-answers (y ∷ z ∷ xs) x l = last_answer-answers (z ∷ xs) x (answer y l).1

set-Stays_self :
    (now : ℤ) (id : ℕ) (key : Option ApiKey) (l : Lru)
    → Stays id key (now +ℤ l.ttl) 0 (Spec.set now id key l).1.entries
set-Stays_self now id key l = elim (Option-cases (Dict.get l.entries id)) [
  | inl absent ↦ elim (Bool-cases (leb_ℤ l.max_size (pos (length l.entries)))) [
    | inl full ↦ rw (set_full now id key l absent full) (
        pushed id key (now +ℤ l.ttl) 0 (new_item now (Spec.evict l).ttl key) (Spec.evict l).entries
          refl (rw (evict-ttl l) refl))
    | inr room ↦
        rw (set_room now id key l absent room)
          (pushed id key (now +ℤ l.ttl) 0 (new_item now l.ttl key) l.entries refl refl)
  ]
  | inr (i, there) ↦
      rw (set_there now id key l there)
        (pushed id key (now +ℤ l.ttl) 0 _ (Dict.remove l.entries id) refl refl)
]

-- In a cache with room for `m` entries, under which no call caches the id 0: Get returns the key
-- that a Set has stored, if less than `m` calls stand between the two, if none of these clears the
-- cache or sets or removes that id, and if no clock that is read for the entry has passed its end.
pub get_after_set :
    (m : ℕ) (ttl : ℤ) (earlier between : List Call) (now : ℤ) (id : ℕ) (key : Option ApiKey)
    (t : Instants)
    → length between < m
    → id ≢ 0
    → All NoZero earlier
    → All NoZero between
    → All (Quiet id (now +ℤ ttl)) between
    → t.checked ≤ℤ now +ℤ ttl
    → (rs : List (Option ApiKey)) × (c : LocalKeyCache) × (run
          ((earlier ++ set now id key ∷ between) ++ get t id ∷ [])
          (new_local_key_cache (pos m) ttl)
        ≡ some (rs, c))
      × (last_answer rs ≡ key)
unfolding answers answer
get_after_set m ttl earlier between now id key t room nz nz1 nz2 q ht =
    let calls = earlier ++ set now id key ∷ between in
    let e = empty (pos m) ttl in
    let l1 = (answers earlier e).1 in
    let l2 = (Spec.set now id key l1).1 in
    let f1 = answers-Fits m earlier e (omega arith) nz1 (empty-Fits m ttl) in
    let f2 : Fits m l2 = answer-Fits m (set now id key) l1 (omega arith) nz f1 in
    let s2 : Stays id key (now +ℤ ttl) 0 l2.entries =
      subst (λ v. Stays id key (now +ℤ v) 0 l2.entries) (answers-ttl earlier e)
        (set-Stays_self now id key l1) in
    let s3 =
      answers-Stays m id key (now +ℤ ttl) between 0 l2 (omega arith) f2 (omega arith) nz2 q s2 in
    let (c, xs, runs, _, _) = cache_refines (calls ++ get t id ∷ []) (pos m) ttl in
    (
      (answers (calls ++ get t id ∷ []) e).0,
      c,
      runs,
      last_answer-answers calls (get t id) e
          ∙ ap (λ l. (Spec.get t id l).0) (answers-append earlier (set now id key ∷ between) e)
          ∙ ap (λ (r : Option ApiKey × Lru). r.0)
              (get_valid t id (answers between l2).1 s3.there (ground (arith, s3.until_is)))
          ∙ s3.key_is,
    )
