-- ===== src/LocalCache/Branches.antt =====
-- Get and Set of the specification, branch by branch.
use gpt_load_fix.Prelude.{ℕ, ◌≡◌, refl, true, false, Option, none, some, nat_eq, length, ◌≢◌, =?_ne}
use gpt_load_fix.Prelude.Int.{ℤ, pos, ltb_ℤ, leb_ℤ}
use gpt_load_fix.Prelude.Dict
use gpt_load_fix.Models.{ApiKey}
use gpt_load_fix.LocalCache.Ops.{Instants}
use gpt_load_fix.LocalCache.Moves.{Item}
use gpt_load_fix.LocalCache.Spec
use gpt_load_fix.LocalCache.Spec.{Lru, new_item}

module _ (t : Instants) (id : ℕ) (l : Lru) where
  pub get_absent : Dict.get l.entries id ≡ none → Spec.get t id l ≡ (none, Spec.missed t l)
  unfolding Spec.get
  get_absent h = rw (Spec.get, h) refl

  module _ {i : Item} (there : Dict.get l.entries id ≡ some i) where
    pub get_expired :
        ltb_ℤ i.expires_at t.checked ≡ true
        → Spec.get t id l ≡ (none, Spec.missed t (Spec.forget id l))
    unfolding Spec.get
    get_expired h = rw (Spec.get, there) (rw h refl)

    pub get_valid :
        ltb_ℤ i.expires_at t.checked ≡ false → Spec.get t id l ≡ (i.key, Spec.used t id i l)
    unfolding Spec.get
    get_valid h = rw (Spec.get, there) (rw h refl)

module _ (now : ℤ) (id : ℕ) (key : Option ApiKey) (l : Lru) where
  pub set_full :
      Dict.get l.entries id ≡ none
      → leb_ℤ l.max_size (pos (length l.entries)) ≡ true
      → Spec.set now id key l
        ≡ (tt, Spec.stored id (new_item now (Spec.evict l).ttl key) (Spec.evict l))
  unfolding Spec.set Spec.insert
  set_full h full = rw (Spec.set, h) (rw full refl)

  pub set_room :
      Dict.get l.entries id ≡ none
      → leb_ℤ l.max_size (pos (length l.entries)) ≡ false
      → Spec.set now id key l ≡ (tt, Spec.stored id (new_item now l.ttl key) l)
  unfolding Spec.set Spec.insert
  set_room h room = rw (Spec.set, h) (rw room refl)

  pub set_there :
      {i : Item}
      → Dict.get l.entries id ≡ some i
      → Spec.set now id key l ≡ (tt, Spec.renewed now id key i l)
  unfolding Spec.set
  set_there h = rw (Spec.set, h) refl

module _ (id : ℕ) (l : Lru) where
  pub forget_skips : Dict.get l.entries id ≡ none → Spec.forget id l ≡ l
  unfolding Spec.forget
  forget_skips h = rw (Spec.forget, h) refl

  pub forget_takes :
      {i : Item}
      → Dict.get l.entries id ≡ some i
      → Spec.forget id l ≡ record l {
        entries = Dict.remove l.entries id;
        stats = Spec.resized (Dict.remove l.entries id) l.stats;
      }
  unfolding Spec.forget
  forget_takes h = rw (Spec.forget, h) refl

  pub evict_takes :
      Spec.oldest l.entries ≡ id → id ≢ 0 → Spec.evict l ≡ Spec.evicted (Spec.forget id l)
  unfolding Spec.evict Spec.evict_id
  evict_takes e h = rw (e, =?_ne id 0 h) refl
