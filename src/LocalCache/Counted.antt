-- ===== src/LocalCache/Counted.antt =====
-- The size in the statistics of a local cache is the number of its entries.
use gpt_load_fix.Prelude.{
  ℕ, refl, Option, arith, nat_eq, length, Bool-cases, Option-cases, inl, inr, sym, ◌∙◌,
}
use gpt_load_fix.Prelude.Int.{ℤ, pos, ltb_ℤ, leb_ℤ}
use gpt_load_fix.Prelude.Dict
use gpt_load_fix.Prelude.Dict.{Dict}
use gpt_load_fix.Models.{ApiKey}
use gpt_load_fix.LocalCache.Ops.{Instants, count_hit, count_miss, update_stats}
use gpt_load_fix.LocalCache.Spec
use gpt_load_fix.LocalCache.Spec.{Lru, IsCounted}
use gpt_load_fix.LocalCache.Branches.{
  get_absent, get_expired, get_valid, set_full, set_room, set_there,
}

pub forget-IsCounted : (id : ℕ) (l : Lru) → IsCounted l → IsCounted (Spec.forget id l)
unfolding Spec.forget
forget-IsCounted id l h = ground arith

pub evict-IsCounted : (l : Lru) → IsCounted l → IsCounted (Spec.evict l)
unfolding Spec.evict Spec.evict_id
evict-IsCounted l h = ground (arith, forget-IsCounted (Spec.oldest l.entries) l h)

pub get-IsCounted :
    (t : Instants) (id : ℕ) (l : Lru)
    → Dict.Distinct l.entries
    → IsCounted l
    → IsCounted (Spec.get t id l).1
unfolding update_stats count_hit count_miss
get-IsCounted t id l dis h = elim (Option-cases (Dict.get l.entries id)) [
  | inl absent ↦ rw (get_absent t id l absent) h
  | inr (i, there) ↦ elim (Bool-cases (ltb_ℤ i.expires_at t.checked)) [
    | inl old ↦ rw (get_expired t id l there old) (forget-IsCounted id l h)
    | inr young ↦
        rw (get_valid t id l there young) (h ∙ sym (Dict.length-remove l.entries id dis there))
  ]
]

pub set-IsCounted :
    (now : ℤ) (id : ℕ) (key : Option ApiKey) (l : Lru)
    → Dict.Distinct l.entries
    → IsCounted l
    → IsCounted (Spec.set now id key l).1
set-IsCounted now id key l dis h = elim (Option-cases (Dict.get l.entries id)) [
  | inl absent ↦ elim (Bool-cases (leb_ℤ l.max_size (pos (length l.entries)))) [
    | inl full ↦ rw (set_full now id key l absent full) refl
    | inr room ↦ rw (set_room now id key l absent room) refl
  ]
  | inr (i, there) ↦
      rw (set_there now id key l there) (h ∙ sym (Dict.length-remove l.entries id dis there))
]
