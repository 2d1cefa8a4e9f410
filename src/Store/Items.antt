-- ===== src/Store/Items.antt =====
-- Plain items with an expiry: Set, Get, Delete, Del, Exists, SetNX.
use gpt_load_fix.Prelude.{
  ℕ, Bool, true, false, ◌&&◌, ◌||◌, Option, none, some, List, [], ◌∷◌, ltb, ◌==◌, if◌then◌else◌,
}
use gpt_load_fix.Prelude.Int.{ℤ, pos, negsuc, add64, ltb_ℤ}
use gpt_load_fix.Prelude.Text.{Text, text_eq}
use gpt_load_fix.Exec.{not_found, type_mismatch, Result, ok, err, Exec}
use gpt_load_fix.Store.{Item, Value, item, Store, lookup, write, drop}

unfoldable pub expiry : ℕ → ℕ → ℤ
expiry now ttl = if ltb 0 ttl then add64 (pos now) (pos ttl) else pos 0

unfoldable pub set : ℕ → Text → Text → ℕ → Exec Store Unit
unfolding expiry
set now key value ttl s =
    (ok tt, write s key (item (record { value = value; expires_at = expiry now ttl })))

unfoldable pub expired : ℕ → Item → Bool
expired now i = ltb_ℤ (pos 0) i.expires_at && ltb_ℤ i.expires_at (pos now)

-- The read under the read lock: what `Get` returns if it need not delete.
unfoldable pub read_item : Store → Text → Result Item
read_item s key = elim (lookup s key) [
  | none ↦ err not_found
  | some (item i) ↦ ok i
  | some _ ↦ err (type_mismatch key)
]

-- What follows the read, under the write lock where it deletes.
unfoldable pub finish_get : ℕ → Text → Result Item → Exec Store Text
unfolding expired
finish_get now key (err e) s = (err e, s)
finish_get now key (ok i) s = if expired now i then (err not_found, drop s key) else (ok i.value, s)

unfoldable pub get : ℕ → Text → Exec Store Text
unfolding read_item finish_get
get now key s = finish_get now key (read_item s key) s

unfoldable pub delete : Text → Exec Store Unit
delete key s = (ok tt, drop s key)

drop_all : List Text → Store → Store
drop_all [] s = s
drop_all (key ∷ keys) s = drop_all keys (drop s key)

unfoldable pub del : List Text → Exec Store Unit
unfolding drop_all
del keys s = (ok tt, drop_all keys s)

-- Exists on what it has read under the read lock.
unfoldable pub finish_exists : ℕ → Text → Option Value → Exec Store Bool
unfolding expired
finish_exists now key none s = (ok false, s)
finish_exists now key (some (item i)) s =
    if expired now i then (ok false, drop s key) else (ok true, s)
finish_exists now key (some v) s = (ok true, s)

unfoldable pub exists : ℕ → Text → Exec Store Bool
unfolding finish_exists
exists now key s = finish_exists now key (lookup s key) s

-- An expiry that is none.
unfoldable pub is_zero : ℤ → Bool
is_zero (pos n) = n == 0
is_zero (negsuc n) = false

unfoldable pub holds : ℕ → Option Value → Bool
unfolding is_zero
holds now none = false
holds now (some (item i)) = is_zero i.expires_at || ltb_ℤ (pos now) i.expires_at
holds now (some _) = true

-- It reads the clock for the test, and `later` for the new expiry.
unfoldable pub set_nx : ℕ → ℕ → Text → Text → ℕ → Exec Store Bool
unfolding expiry holds
set_nx now later key value ttl s =
    if holds now (lookup s key)
    then (ok false, s)
    else (ok true, write s key (item (record { value = value; expires_at = expiry later ttl })))
