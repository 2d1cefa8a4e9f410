-- ===== src/Store/Expiry.antt =====
-- When an item of internal/store/memory.go is there: Set, Get and SetNX over time.
use gpt_load_fix.Prelude.{
  ℕ, ◌+◌, ◌-◌, ◌^◌, ◌<◌, Bool-cases, inl, inr, ◌≡◌, true, false, ◌||◌, ◌&&◌, some, ltb, leb, ◌==◌,
  if◌then◌else◌, arith,
}
use gpt_load_fix.Prelude.Int.{pos, negsuc, add64, wrap64, ◌+ℤ◌}
use gpt_load_fix.Prelude.Text.{Text}
use gpt_load_fix.Exec.{not_found, ok, err}
use gpt_load_fix.Store.{Item, item, Store, lookup, write, drop, lookup-write_self, lookup-drop_self}
use gpt_load_fix.Store.Items.{
  set, get, set_nx, expiry, expired, holds, is_zero, read_item, finish_get,
}

-- The sum of two int64 that are not negative: it stands, or wraps around below 0.
fits : (a b : ℕ) → a + b < 2 ^ 63 → add64 (pos a) (pos b) ≡ pos (a + b)
unfolding add64 wrap64 ◌+ℤ◌
fits a b h = ground arith

wraps :
    (a b : ℕ)
    → ltb (a + b) (2 ^ 63) ≡ false
    → a + b < 2 ^ 64
    → (k : ℕ) × (add64 (pos a) (pos b) ≡ negsuc k)
unfolding add64 wrap64 ◌+ℤ◌
wraps a b h lt = (2 ^ 64 - 1 - (a + b), ground (arith, h))

-- Whether an item that is stored at t is there for Get, and for SetNX.
expired-expiry :
    (now t ttl : ℕ) (value : Text)
    → t + ttl < 2 ^ 64
    → now < 2 ^ 63
    → expired now (record { value = value; expires_at = expiry t ttl })
      ≡ (ltb 0 ttl && ltb (t + ttl) now)
unfolding expired expiry
expired-expiry now t ttl value b c = elim (Bool-cases (ltb (t + ttl) (2 ^ 63))) [
  | inl small ↦ ground (arith, fits t ttl (ground (arith, small)))
  | inr large ↦ let (k, e) = wraps t ttl large b in ground (arith, e, large)
]

holds-expiry :
    (now t ttl : ℕ) (value : Text)
    → t + ttl < 2 ^ 64
    → 0 < ttl
    → holds now (some (item (record { value = value; expires_at = expiry t ttl })))
      ≡ (ltb now (t + ttl) && ltb (t + ttl) (2 ^ 63))
unfolding holds expiry is_zero
holds-expiry now t ttl value b p = elim (Bool-cases (ltb (t + ttl) (2 ^ 63))) [
  | inl small ↦ ground (arith, small, fits t ttl (ground (arith, small)))
  | inr large ↦ let (k, e) = wraps t ttl large b in ground (arith, e, large)
]

-- What Set stored is returned for as long as its time has not passed (for ever, if the time to live
-- is 0), the last nanosecond included; afterwards the key is not found, and the read drops it.
-- The two clock readings lie after 1970 and, as the time to live, in an int64. If their sum does not,
-- the time never passes.
pub get-set :
    (t now ttl : ℕ) (key value : Text) (s : Store)
    → t + ttl < 2 ^ 64
    → now < 2 ^ 63
    → let s' = (set t key value ttl s).1 in
      get now key s'
      ≡ (if (ttl == 0) || leb now (t + ttl) then (ok value, s') else (err not_found, drop s' key))
unfolding set get
get-set t now ttl key value s b c = ground (
  arith,
  lookup-write_self s key (item (record { value = value; expires_at = expiry t ttl })),
  expired-expiry now t ttl value b c,
)

-- SetNX is a lock: after it stored a value with a time to live, every SetNX fails and changes
-- nothing before that time is over, and from then on the next one succeeds and stores like Set. But
-- if the end of that time is beyond what an int64 can hold, it is free at once. (The clock is read
-- for the test, and again for the expiry of the new value.)
pub set_nx_exclusive :
    (t0 t now later ttl ttl' : ℕ) (key value value' : Text) (s s' : Store)
    → 0 < ttl
    → t + ttl < 2 ^ 64
    → set_nx t0 t key value ttl s ≡ (ok true, s')
    → set_nx now later key value' ttl' s' ≡ (
        if ltb now (t + ttl) && ltb (t + ttl) (2 ^ 63)
        then (ok false, s')
        else (ok true, (set later key value' ttl' s').1))
unfolding set_nx set
set_nx_exclusive t0 t now later ttl ttl' key value value' s s' p b e = ground (
  arith,
  e,
  lookup-write_self s key (item (record { value = value; expires_at = expiry t ttl })),
  holds-expiry now t ttl value b p,
)

-- At the very instant of expiry, which an int64 is to hold, the two disagree: Get still returns the
-- value, and SetNX takes the key as free and overwrites it.
pub expiry_disagrees :
    (t later ttl ttl' : ℕ) (key value value' : Text) (s : Store)
    → 0 < ttl
    → t + ttl < 2 ^ 63
    → let s' = (set t key value ttl s).1 in
      ((get (t + ttl) key s').0 ≡ ok value)
      × ((set_nx (t + ttl) later key value' ttl' s').0 ≡ ok true)
unfolding set get set_nx
expiry_disagrees t later ttl ttl' key value value' s p b = ground (
  arith,
  lookup-write_self s key (item (record { value = value; expires_at = expiry t ttl })),
  expired-expiry (t + ttl) t ttl value (omega (arith, b)) b,
  holds-expiry (t + ttl) t ttl value (omega (arith, b)) p,
)

-- Get reads under one lock and deletes under another. If a key has expired and a Set of it falls
-- between the two, the delete takes the new value, and the next Get finds nothing.
pub get_loses_set :
    (now t now' ttl : ℕ) (key value : Text) (s : Store) (i : Item)
    → lookup s key ≡ some (item i)
    → expired now i ≡ true
    → let s' = (finish_get now key (read_item s key) (set t key value ttl s).1).1 in
      (get now' key s').0 ≡ err not_found
unfolding get set
get_loses_set now t now' ttl key value s i h e = ground (
  arith,
  h,
  e,
  lookup-drop_self (write s key (item (record { value = value; expires_at = expiry t ttl }))) key,
)
