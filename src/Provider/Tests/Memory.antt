-- ===== src/Provider/Tests/Memory.antt =====
-- A database of API keys in memory, to run internal/keypool/provider.go over, and gorm's laws for it.
use gpt_load_fix.Prelude.{
  ℕ, zero, suc, ◌-◌, ◌≡◌, refl, ap, sym, Bool, true, false, Option, none, some, List, [], ◌∷◌, ◌==◌,
  if◌then◌else◌, length,
}
use gpt_load_fix.Prelude.Text.{bytes}
use gpt_load_fix.Exec.{not_found, database, Result, ok, err}
use gpt_load_fix.Models.{ApiKey}
use gpt_load_fix.Database.{Gorm, Laws, Change, changes, update_row}

-- `locks` commits fail before one succeeds.
pub record Rows : Type 0 where
  pub rows : ℕ → Option ApiKey
  pub locks : ℕ

abbrev pub found_row : Rows → Option ApiKey → Result ApiKey × Rows
found_row d none = (err not_found, d)
found_row d (some key) = (ok key, d)

abbrev pub taken : Bool → ApiKey → List ApiKey → List ApiKey
taken true key keys = key ∷ keys
taken false key keys = keys

abbrev pub if_there : (ApiKey → Bool) → Option ApiKey → List ApiKey → List ApiKey
if_there p none keys = keys
if_there p (some key) keys = taken (p key) key keys

abbrev pub scan : ℕ → (ApiKey → Bool) → Rows → List ApiKey
scan zero p d = []
scan (suc n) p d = if_there p (d.rows n) (scan n p d)

abbrev pub try_commit : ℕ → Rows → Result (Unit {0}) × Rows
try_commit zero d = (ok tt, d)
try_commit (suc n) d = (err (database (bytes "database is locked")), d)

abbrev pub keep_if : Bool → Option ApiKey → Option ApiKey
keep_if true o = none
keep_if false o = o

abbrev pub unless : (ApiKey → Bool) → Option ApiKey → Option ApiKey
unless p none = none
unless p (some key) = keep_if (p key) (some key)

abbrev pub amended : (ApiKey → Bool) → List Change → Option ApiKey → Option ApiKey
amended p cs none = none
amended p cs (some key) = some (if p key then changes cs key else key)

abbrev pub memory : Gorm
memory = record {
  Db = Rows;
  row = λ d id. d.rows id;
  first = λ id d. found_row d (d.rows id);
  updates = λ id cs d.
      (ok tt, record d { rows = λ j. if id == j then update_row cs (d.rows j) else d.rows j });
  find = λ p d. (ok (scan 8 p d), d);
  find_in_batches = λ n d. (scan 8 (λ key. true) d ∷ [], ok tt, d);
  updates_where =
      λ p cs d. (ok (length (scan 8 p d)), record d { rows = λ j. amended p cs (d.rows j) });
  delete_where = λ p d. (ok (length (scan 8 p d)), record d { rows = λ j. unless p (d.rows j) });
  create = λ keys d. (ok keys, d);
  commit = λ d. try_commit d.locks d;
  rollback = λ begin d. record begin { locks = d.locks - 1 };
}

abbrev pub outcome : {A : Type 0} → Result A × Rows → Option A
outcome (ok a, d) = some a
outcome (err e, d) = none

no_outcome : {A : Type 0} (a : A) → none ≡ some a → ⊥
no_outcome a h = cc

found_row-row :
    (o : Option ApiKey) (d d' : Rows) (k : ApiKey)
    → found_row d o ≡ (ok k, d')
    → (o ≡ some k) × (d' ≡ d)
found_row-row none d d' k h = absurd (no_outcome k (ap outcome h))
found_row-row (some key) d d' k h = (ap outcome h, ap (λ (x : Result ApiKey × Rows). x.1) (sym h))

try_commit-rows :
    (n : ℕ) (d d' : Rows) → try_commit n d ≡ (ok tt, d') → (j : ℕ) → d'.rows j ≡ d.rows j
try_commit-rows zero d d' h j = ap (λ (x : Result (Unit {0}) × Rows). x.1.rows j) (sym h)
try_commit-rows (suc n) d d' h j = absurd (no_outcome tt (ap outcome h))

pub memory-Laws : Laws memory
memory-Laws = record {
  first-row = λ id d d' k h. (found_row-row (d.rows id) d d' k h).0;
  first_keeps = λ id d d' k h j. ap (λ (x : Rows). x.rows j) (found_row-row (d.rows id) d d' k h).1;
  updates-row = λ id cs d d' h j. ap (λ (x : Result (Unit {0}) × Rows). x.1.rows j) (sym h);
  commit_keeps = λ d d' h j. try_commit-rows d.locks d d' h j;
  rollback_restores = λ begin d j. refl;
}
