-- ===== src/LocalCache/Reads.antt =====
-- Get, on the pointers and in the specification.
use gpt_load_fix.Prelude.{
  ℕ, ◌≡◌, refl, none, some, ◌∷◌, nat_eq, Bool-cases, inl, inr, ap, Option-cases,
}
use gpt_load_fix.Prelude.Int.{pos, ltb_ℤ, add64}
use gpt_load_fix.Prelude.Dict
use gpt_load_fix.Prelude.Dict.{Dict}
use gpt_load_fix.LocalCache.{LocalKeyCache, ◌>>◌}
use gpt_load_fix.LocalCache.Ops
use gpt_load_fix.LocalCache.Ops.{
  Instants, remove_entry, remove_found, count_miss, count_hit, update_stats, miss, get_found,
}
use gpt_load_fix.LocalCache.Moves.{Item, item}
use gpt_load_fix.LocalCache.View.{Shows}
use gpt_load_fix.LocalCache.Spec
use gpt_load_fix.LocalCache.Spec.{Lru}
use gpt_load_fix.LocalCache.Refines.{
  Refines, Refines-by, Refines-bind, get-items, get-items-none, remove_entry-Refines, touched,
  Shows-touched, Shows-stats,
}

hit-Refines :
    (t : Instants) (c : LocalKeyCache) (xs : Dict ℕ ℕ) (id a : ℕ)
    → Shows c xs
    → Dict.get xs id ≡ some a
    → Refines (Ops.hit t a) (λ l. ((c.cell a).key, Spec.used t id (item (c.cell a)) l)) c xs
unfolding Ops.hit
hit-Refines t c xs id a s g =
    let c1 = record c { stats = count_hit c.stats } in
    let e = record (c.cell a) {
      access_at = t.accessed;
      hit_count = add64 (c.cell a).hit_count (pos 1);
    } in
    let (m, l, runs, held, at_a, others) = touched c1 xs id a e s.held g refl refl in
    let st = update_stats t.updated (count_hit c.stats) in
    (
      record c { cell = m; lru = l; stats = st },
      (id, a) ∷ Dict.remove xs id,
      rw runs (ap (λ (i : Item). some (i.key, record c { cell = m; lru = l; stats = st })) at_a),
      Shows-touched c xs id a m l st s g held,
      rw (at_a, others) refl,
    )

miss-Refines :
    (t : Instants) (c : LocalKeyCache) (xs : Dict ℕ ℕ)
    → Shows c xs
    → Refines (miss t.updated) (λ l. (none, Spec.missed t l)) c xs
unfolding miss
miss-Refines t c xs s =
    let st = update_stats t.updated (count_miss c.stats) in
    (record c { stats = st }, xs, refl, Shows-stats c xs st s, refl)

-- Get
pub get-Refines :
    (t : Instants) (id : ℕ) (c : LocalKeyCache) (xs : Dict ℕ ℕ)
    → Shows c xs
    → Refines (Ops.get t id) (Spec.get t id) c xs
unfolding Ops.get get_found Spec.get update_stats
get-Refines t id c xs s = elim (Option-cases (Dict.get xs id)) [
  | inl absent ↦
      Refines-by (Ops.get t id) (miss t.updated) (Spec.get t id) (λ l. (none, Spec.missed t l)) c xs
        (rw (s.found id, absent) refl) (rw (Spec.get, get-items-none c.cell xs id absent) refl)
        (miss-Refines t c xs s)
  | inr (a, there) ↦ elim (Bool-cases (ltb_ℤ (c.cell a).expires_at t.checked)) [
    | inl expired ↦
        Refines-by (Ops.get t id) (remove_entry id >> miss t.updated) (Spec.get t id)
          (λ l. (none, Spec.missed t (Spec.forget id l))) c xs
          (rw (s.found id, there) (rw expired refl))
          (rw (Spec.get, get-items c.cell xs id a there) (rw expired refl))
          (Refines-bind (remove_entry id) (λ l. (tt, Spec.forget id l)) (λ _. miss t.updated)
            (λ _ l. (none, Spec.missed t l)) c xs (remove_entry-Refines c xs id s)
            (λ d ys s' _. miss-Refines t d ys s'))
    | inr valid ↦
        Refines-by (Ops.get t id) (Ops.hit t a) (Spec.get t id)
          (λ l. ((c.cell a).key, Spec.used t id (item (c.cell a)) l)) c xs
          (rw (s.found id, there) (rw valid refl))
          (rw (Spec.get, get-items c.cell xs id a there) (rw valid refl))
          (hit-Refines t c xs id a s there)
  ]
]
