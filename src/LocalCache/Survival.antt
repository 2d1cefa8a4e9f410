-- ===== src/LocalCache/Survival.antt =====
-- How long an entry stays in a local cache.
use gpt_load_fix.Prelude.{
  ℕ, suc, ◌+◌, ◌≤◌, ◌<◌, ◌≡◌, ◌≢◌, refl, true, false, Option, some, List, [], ◌∷◌, arith, ◌==◌,
  if◌then◌else◌, nat_eq, length, Bool-cases, Option-cases, inl, inr, ap, sym, ◌∙◌, All,
}
use gpt_load_fix.Prelude.Int.{ℤ, pos, ltb_ℤ, leb_ℤ, ◌≤ℤ◌}
use gpt_load_fix.Prelude.Dict
use gpt_load_fix.Prelude.Dict.{Dict}
use gpt_load_fix.Models.{ApiKey}
use gpt_load_fix.LocalCache.Ops.{Instants}
use gpt_load_fix.LocalCache.Moves.{Item}
use gpt_load_fix.LocalCache.Spec
use gpt_load_fix.LocalCache.Spec.{Lru, new_item}
use gpt_load_fix.LocalCache.Branches.{
  get_absent, get_expired, get_valid, set_full, set_room, set_there, forget_skips, forget_takes,
  evict_takes,
}
use gpt_load_fix.LocalCache.Client.{Call, get, set, remove, cleanup, clear_all, answer, answers}
use gpt_load_fix.LocalCache.Bounds.{NoZero, Fits, oldest_held, answer-Fits}

-- How many entries stand before that of an id.
pub rank : ℕ → Dict ℕ Item → ℕ
rank id [] = 0
rank id ((j, i) ∷ d) = let rest = rank id d in if j == id then 0 else suc rest

-- The id has an entry with the key, which expires at `until`, and at most `k` are before it.
pub record Stays (id : ℕ) (key : Option ApiKey) (until : ℤ) (k : ℕ) (d : Dict ℕ Item) : Type 0 where
  pub item : Item
  pub there : Dict.get d id ≡ some item
  pub key_is : item.key ≡ key
  pub until_is : item.expires_at ≡ until
  pub near : rank id d ≤ k

-- A call that neither replaces the entry nor comes after it has expired.
abbrev pub Quiet : ℕ → ℤ → Call → Type 0
Quiet id until (get t j) = j ≡ id → t.checked ≤ℤ until
Quiet id until (set now j key) = j ≢ id
Quiet id until (remove j) = j ≢ id
Quiet id until (cleanup now) = now ≤ℤ until
Quiet id until clear_all = ⊥

rank-remove : (id j : ℕ) (d : Dict ℕ Item) → j ≢ id → rank id (Dict.remove d j) ≤ rank id d
unfolding rank Dict.remove
rank-remove id j [] h = omega arith
rank-remove id j ((k, i) ∷ d) h = elim (Bool-cases (k == j)) [
  | inl same ↦ rw (rank, same) (ground (arith, rank-remove id j d h))
  | inr other ↦ rw (rank, other) (ground (arith, rank-remove id j d h))
]

module _ (id : ℕ) (now : ℤ) where
  -- An expired entry at the front is not that of an id whose entry is valid.
  later :
      (j : ℕ) (x : Item) (d : Dict ℕ Item) (i : Item)
      → Dict.get ((j, x) ∷ d) id ≡ some i
      → ltb_ℤ i.expires_at now ≡ false
      → ltb_ℤ x.expires_at now ≡ true
      → Dict.get d id ≡ some i
  unfolding Dict.get
  later j x d i g h old = ground arith

  kept-there :
      (d : Dict ℕ Item) (i : Item)
      → Dict.get d id ≡ some i
      → ltb_ℤ i.expires_at now ≡ false
      → Dict.get (Spec.kept now d) id ≡ some i
  unfolding Spec.kept Dict.get
  kept-there [] i g h = cc
  kept-there ((j, x) ∷ d) i g h = elim (Bool-cases (ltb_ℤ x.expires_at now)) [
    | inl old ↦ rw old (kept-there d i (later j x d i g h old) h)
    | inr young ↦ rw young (ground (arith, kept-there d i))
  ]

  rank-kept :
      (d : Dict ℕ Item) (i : Item)
      → Dict.get d id ≡ some i
      → ltb_ℤ i.expires_at now ≡ false
      → rank id (Spec.kept now d) ≤ rank id d
  unfolding Spec.kept Dict.get rank
  rank-kept [] i g h = omega arith
  rank-kept ((j, x) ∷ d) i g h = elim (Bool-cases (ltb_ℤ x.expires_at now)) [
    | inl old ↦
        let g' = later j x d i g h old in rw (rank, old) (ground (arith, rank-kept d i g' h))
    | inr young ↦ rw (rank, young) (ground (arith, rank-kept d i))
  ]

rank-oldest :
    (d : Dict ℕ Item) (x : ℕ × Item)
    → Dict.Distinct (x ∷ d)
    → suc (rank (Spec.oldest (x ∷ d)) (x ∷ d)) ≡ length (x ∷ d)
unfolding Spec.oldest rank Dict.get
rank-oldest [] (j, i) dis = ground arith
rank-oldest ((k, y) ∷ d) (j, i) dis =
    ground (arith, rank-oldest d (k, y) dis.1, dis.0, oldest_held ((k, y) ∷ d))

rank-oldest_held :
    (d : Dict ℕ Item) → 0 < length d → Dict.Distinct d → suc (rank (Spec.oldest d) d) ≡ length d
rank-oldest_held [] h dis = absurd (omega arith)
rank-oldest_held (x ∷ d) h dis = rank-oldest d x dis

module _ (id : ℕ) (key : Option ApiKey) (until : ℤ) (k : ℕ) where
  more : (d : Dict ℕ Item) → Stays id key until k d → Stays id key until (suc k) d
  more d s = record {
    item = s.item;
    there = s.there;
    key_is = s.key_is;
    until_is = s.until_is;
    near = omega (arith, s.near);
  }

  other_removed :
      (j : ℕ) (d : Dict ℕ Item)
      → j ≢ id
      → Stays id key until k d
      → Stays id key until k (Dict.remove d j)
  other_removed j d h s = record {
    item = s.item;
    there = ground (arith, Dict.get-remove d j id, s.there);
    key_is = s.key_is;
    until_is = s.until_is;
    near = omega (arith, rank-remove id j d h, s.near);
  }

  other_pushed :
      (j : ℕ) (i : Item) (d : Dict ℕ Item)
      → j ≢ id
      → Stays id key until k d
      → Stays id key until (suc k) ((j, i) ∷ d)
  unfolding rank Dict.get
  other_pushed j i d h s = record {
    item = s.item;
    there = ground (arith, s.there);
    key_is = s.key_is;
    until_is = s.until_is;
    near = ground (arith, s.near);
  }

  pub pushed :
      (i : Item) (d : Dict ℕ Item)
      → i.key ≡ key
      → i.expires_at ≡ until
      → Stays id key until k ((id, i) ∷ d)
  unfolding rank Dict.get
  pushed i d e e' = record {
    item = i;
    there = ground arith;
    key_is = e;
    until_is = e';
    near = ground arith;
  }

  kept-Stays :
      (now : ℤ) (d : Dict ℕ Item)
      → now ≤ℤ until
      → Stays id key until k d
      → Stays id key until k (Spec.kept now d)
  kept-Stays now d h s = record {
    item = s.item;
    there = kept-there id now d s.item s.there (ground (arith, s.until_is));
    key_is = s.key_is;
    until_is = s.until_is;
    near = omega (arith, rank-kept id now d s.item s.there (ground (arith, s.until_is)), s.near);
  }

module _ (m id : ℕ) (key : Option ApiKey) (until : ℤ) (k : ℕ) (l : Lru) (f : Fits m l)
    (room : suc k < m) (s : Stays id key until k l.entries) where
  valid_self :
      (t : Instants) (j : ℕ) (i : Item)
      → (j ≡ id → t.checked ≤ℤ until)
      → Dict.get l.entries j ≡ some i
      → ltb_ℤ i.expires_at t.checked ≡ true
      → j ≢ id
  valid_self t j i q there old e =
      let same : some i ≡ some s.item = sym there ∙ ap (Dict.get l.entries) e ∙ s.there in
      ground (arith, q e, s.until_is)

  get-Stays :
      (t : Instants) (j : ℕ)
      → (j ≡ id → t.checked ≤ℤ until)
      → Stays id key until (suc k) (Spec.get t j l).1.entries
  get-Stays t j q = elim (Option-cases (Dict.get l.entries j)) [
    | inl absent ↦ rw (get_absent t j l absent) (more id key until k l.entries s)
    | inr (i, there) ↦ elim (Bool-cases (ltb_ℤ i.expires_at t.checked)) [
      | inl old ↦
          rw (get_expired t j l there old, forget_takes j l there)
            (more id key until k _
              (other_removed id key until k j l.entries (valid_self t j i q there old) s))
      | inr young ↦ rw (get_valid t j l there young) (elim (Bool-cases (j == id)) [
        | inl self ↦
            let e : j ≡ id = ground arith in
            let same : some i ≡ some s.item = sym there ∙ ap (Dict.get l.entries) e ∙ s.there in
            rw e (
              pushed id key until (suc k) _ (Dict.remove l.entries id) (ground (arith, s.key_is))
                (ground (arith, s.until_is)))
        | inr other ↦
            let ne : j ≢ id = ground arith in
            other_pushed id key until k j _ (Dict.remove l.entries j) ne
              (other_removed id key until k j l.entries ne s)
      ])
    ]
  ]

  evict-Stays : m ≤ length l.entries → Stays id key until k (Spec.evict l).entries
  evict-Stays full =
      let old = Spec.oldest l.entries in
      let some_left : 0 < length l.entries = omega arith in
      let (i, there) = oldest_held l.entries some_left f.distinct in
      let last = rank-oldest_held l.entries some_left f.distinct in
      let not_zero : old ≢ 0 =
        λ e. ground (arith, f.nonzero, sym there ∙ ap (Dict.get l.entries) e) in
      let other : old ≢ id = λ e. omega (arith, last, ap (λ (j : ℕ). rank j l.entries) e, s.near) in
      rw (evict_takes old l refl not_zero, forget_takes old l there)
        (other_removed id key until k old l.entries other s)

  set-Stays :
      (now : ℤ) (j : ℕ) (key' : Option ApiKey)
      → j ≢ id
      → Stays id key until (suc k) (Spec.set now j key' l).1.entries
  set-Stays now j key' ne = elim (Option-cases (Dict.get l.entries j)) [
    | inl absent ↦ elim (Bool-cases (leb_ℤ l.max_size (pos (length l.entries)))) [
      | inl full ↦ rw (set_full now j key' l absent full) (
          other_pushed id key until k j _ (Spec.evict l).entries ne
            (evict-Stays (ground (arith, f.sized))))
      | inr room ↦
          rw (set_room now j key' l absent room) (other_pushed id key until k j _ l.entries ne s)
    ]
    | inr (i, there) ↦ rw (set_there now j key' l there) (
        other_pushed id key until k j _ (Dict.remove l.entries j) ne
          (other_removed id key until k j l.entries ne s))
  ]

  answer-Stays : (x : Call) → Quiet id until x → Stays id key until (suc k) (answer x l).1.entries
  unfolding answer
  answer-Stays (get t j) q = get-Stays t j q
  answer-Stays (set now j key') q = set-Stays now j key' q
  answer-Stays (remove j) q = elim (Option-cases (Dict.get l.entries j)) [
    | inl absent ↦ rw (forget_skips j l absent) (more id key until k l.entries s)
    | inr (i, there) ↦
        rw (forget_takes j l there)
          (more id key until k _ (other_removed id key until k j l.entries q s))
  ]
  answer-Stays (cleanup now) q = more id key until k _ (kept-Stays id key until k now l.entries q s)
  answer-Stays clear_all q = absurd q

pub answers-Stays :
    (m id : ℕ) (key : Option ApiKey) (until : ℤ) (calls : List Call) (k : ℕ) (l : Lru)
    → 0 < m
    → Fits m l
    → k + length calls < m
    → All NoZero calls
    → All (Quiet id until) calls
    → Stays id key until k l.entries
    → Stays id key until m (answers calls l).1.entries
unfolding answers
answers-Stays m id key until [] k l hm f room nz q s = record {
  item = s.item;
  there = s.there;
  key_is = s.key_is;
  until_is = s.until_is;
  near = omega (arith, s.near);
}
answers-Stays m id key until (x ∷ calls) k l hm f room nz q s =
    answers-Stays m id key until calls (suc k) (answer x l).1 hm (answer-Fits m x l hm nz.0 f)
      (omega arith) nz.1 q.1 (answer-Stays m id key until k l f (omega arith) s x q.0)
