-- ===== src/Provider/Steps.antt =====
-- A chain of the calls of internal/keypool/provider.go that succeeds, taken apart call by call.
use gpt_load_fix.Prelude.{◌≡◌, refl, subst, Bool, true, false, if◌then◌else◌}
use gpt_load_fix.Prelude.Dict.{Dict}
use gpt_load_fix.Prelude.Text.{Text}
use gpt_load_fix.Exec.{Error, Result, ok, err, Exec, pure, continue}
use gpt_load_fix.Store.{Store}
use gpt_load_fix.Database.{Gorm}
use gpt_load_fix.Store.Hashes.{h_get_all}
use gpt_load_fix.Provider.Views.{details, h_get_all-details}
use gpt_load_fix.Provider.Transaction.{World, on_store, on_db}

pub continue-ok {ℓ} :
    {S A B : Type ℓ} (m : Result A × S) (f : A → Exec S B) (b : B) (s' : S)
    → continue m f ≡ (ok b, s')
    → (a : A) × (s : S) × (m ≡ (ok a, s)) × (f a s ≡ (ok b, s'))
continue-ok (ok a, s) f b s' h = (a, s, refl, h)
continue-ok (err e, s) f b s' h = absurd (cc)

module _ (g : Gorm) {A B : Type 0} where
  pub on_db-then :
      (m : Exec g.Db A) (f : A → Exec (World g) B) (w w' : World g) (b : B)
      → continue (on_db g m w) f ≡ (ok b, w')
      → (a : A) × (d : g.Db) × (m w.db ≡ (ok a, d)) × (f a (record w { db = d }) ≡ (ok b, w'))
  on_db-then m f w w' b h = on (m w.db) refl h
    where
      on :
          (r : Result A × g.Db)
          → m w.db ≡ r
          → continue (let (x, d) = r in (x, record w { db = d })) f ≡ (ok b, w')
          → (a : A) × (d : g.Db) × (m w.db ≡ (ok a, d)) × (f a (record w { db = d }) ≡ (ok b, w'))
      on (ok a, d) e h = (a, d, e, h)
      on (err x, d) e h = absurd (cc)

  pub on_store-then :
      (m : Exec Store A) (f : A → Exec (World g) B) (w w' : World g) (b : B)
      → continue (on_store g m w) f ≡ (ok b, w')
      → (a : A) × (s : Store) × (m w.store ≡ (ok a, s))
        × (f a (record w { store = s }) ≡ (ok b, w'))
  on_store-then m f w w' b h = on (m w.store) refl h
    where
      on :
          (r : Result A × Store)
          → m w.store ≡ r
          → continue (let (x, s) = r in (x, record w { store = s })) f ≡ (ok b, w')
          → (a : A) × (s : Store) × (m w.store ≡ (ok a, s))
            × (f a (record w { store = s }) ≡ (ok b, w'))
      on (ok a, s) e h = (a, s, e, h)
      on (err x, s) e h = absurd (cc)

module _ (g : Gorm) where
  abbrev Ends : World g → Result (Unit {0}) × World g → Type 0
  Ends w' x = x ≡ (ok tt, w')

  never : (w w' : World g) (x : Error) → Ends w' (err x, w) → ⊥
  never w w' x q = cc

  stopped : (w w' : World g) → Ends w' (ok tt, w) → w' ≡ w
  stopped w w' q = cc

-- A handler that reads the hash of its key, and returns or goes on by what it says.
module _ (g : Gorm) (hash_key : Text) (stop : Dict Text Text → Bool)
    (m : Dict Text Text → Exec (World g) (Unit {0})) (w w' : World g)
    (h : continue (on_store g (h_get_all hash_key) w) (λ d. if stop d then pure tt else m d)
      ≡ (ok tt, w')) where
  abbrev AfterRead : Result (Dict Text Text) × Store → Type 0
  AfterRead (r, s) =
      Ends g w' (continue (r, record w { store = s }) (λ d. if stop d then pure tt else m d))

  abbrev GoOn : Dict Text Text × Store → Type 0
  GoOn (d, s) = Ends g w' ((if stop d then pure tt else m d) (record w { store = s }))

  read_from :
      (r : Result (Dict Text Text) × Store)
      → h_get_all hash_key w.store ≡ r
      → GoOn (details w.store hash_key, w.store)
  read_from (ok d, s) e =
      let (same, kept) = h_get_all-details w.store hash_key s d e in
      subst GoOn (λ i. (same i, kept i)) (subst AfterRead e h)
  read_from (err x, s) e = absurd (never g _ w' x (subst AfterRead e h))

  pub read-stop : stop (details w.store hash_key) ≡ true → w' ≡ w
  read-stop e = stopped g w w' (rw e at (read_from (h_get_all hash_key w.store) refl))

  pub read-go :
      stop (details w.store hash_key) ≡ false → m (details w.store hash_key) w ≡ (ok tt, w')
  read-go e = rw e at (read_from (h_get_all hash_key w.store) refl)
