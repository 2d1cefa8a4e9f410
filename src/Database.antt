-- ===== src/Database.antt =====
-- The database, which the program reaches through gorm and does not implement: what the key pool
-- (internal/keypool/provider.go) calls of it is an interface, with what gorm documents as laws.
use gpt_load_fix.Prelude.{ℕ, ◌≡◌, Bool, Option, none, some, List, [], ◌∷◌, ◌==◌, if◌then◌else◌}
use gpt_load_fix.Prelude.Int.{ℤ}
use gpt_load_fix.Prelude.Text.{Text}
use gpt_load_fix.Exec.{Result, ok, Exec}
use gpt_load_fix.Models.{ApiKey}

-- One entry of the map of an `Updates` call.
pub data Change : Type 0 where
  status : Text → Change
  failure_count rate_limit_count : ℤ → Change
  last_429_at : ℤ → Change
  rate_limit_reset_at : Option ℤ → Change

abbrev pub change : Change → ApiKey → ApiKey
change (status t) k = record k { status = t }
change (failure_count n) k = record k { failure_count = n }
change (rate_limit_count n) k = record k { rate_limit_count = n }
change (last_429_at t) k = record k { last_429_at = some t }
change (rate_limit_reset_at t) k = record k { rate_limit_reset_at = t }

abbrev pub changes : List Change → ApiKey → ApiKey
changes [] k = k
changes (c ∷ cs) k = changes cs (change c k)

pub record Gorm : Type 1 where
  pub Db : Type 0
  -- the row of api_keys with this id, as a query would find it
  pub row : Db → ℕ → Option ApiKey
  -- tx.Set(FOR UPDATE).First(&key, id)
  pub first : ℕ → Exec Db ApiKey
  -- tx.Model(&key).Updates(...), which goes by the key's id; the `key` of the caller gets the
  -- `changes` too
  pub updates : ℕ → List Change → Exec Db (Unit {0})
  -- tx.Where(...).Find(&keys)
  pub find : (ApiKey → Bool) → Exec Db (List ApiKey)
  -- FindInBatches: the batches that it handed over, and how it ended
  pub find_in_batches : ℕ → Db → List (List ApiKey) × Result (Unit {0}) × Db
  -- tx.Where(...).Updates(...) and .Delete(...): how many rows they changed
  pub updates_where : (ApiKey → Bool) → List Change → Exec Db ℕ
  pub delete_where : (ApiKey → Bool) → Exec Db ℕ
  -- tx.Create(&keys): the keys, with their new ids
  pub create : List ApiKey → Exec Db (List ApiKey)
  -- the end of a transaction; `rollback` is given the state at its beginning too
  pub commit : Exec Db (Unit {0})
  pub rollback : Db → Db → Db

abbrev pub update_row : List Change → Option ApiKey → Option ApiKey
update_row cs none = none
update_row cs (some k) = some (changes cs k)

-- What gorm documents of the calls that lock and change one row.
pub record Laws (g : Gorm) : Type 0 where
  pub first-row :
      (id : ℕ) (d d' : g.Db) (k : ApiKey) → g.first id d ≡ (ok k, d') → g.row d id ≡ some k
  pub first_keeps :
      (id : ℕ) (d d' : g.Db) (k : ApiKey)
      → g.first id d ≡ (ok k, d')
      → (j : ℕ) → g.row d' j ≡ g.row d j
  pub updates-row :
      (id : ℕ) (cs : List Change) (d d' : g.Db)
      → g.updates id cs d ≡ (ok tt, d')
      → (j : ℕ) → g.row d' j ≡ (if id == j then update_row cs (g.row d j) else g.row d j)
  pub commit_keeps : (d d' : g.Db) → g.commit d ≡ (ok tt, d') → (j : ℕ) → g.row d' j ≡ g.row d j
  pub rollback_restores : (begin d : g.Db) (j : ℕ) → g.row (g.rollback begin d) j ≡ g.row begin j
