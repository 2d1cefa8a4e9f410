-- ===== src/Store.antt =====
-- internal/store/memory.go: the in-memory store. Each method is an action on `Store`, in one of
-- the modules below; a method runs under the lock, so it is one step.
pub mod Items
pub mod Hashes
pub mod Lists
pub mod Sets
pub mod Zsets
pub mod Rotation
pub mod Expiry
pub mod Ops
pub mod Counters
pub mod Ranges
pub mod Freshness
pub mod Batches
mod Tests
use gpt_load_fix.Prelude.{
  ℕ, ◌≡◌, Bool, Option, none, some, List, [], if◌then◌else◌, ◌=?◌, =?_refl, =?_ne, ◌≢◌, ap, arith,
}
use gpt_load_fix.Prelude.Dict
use gpt_load_fix.Prelude.Dict.{Dict}
use gpt_load_fix.Prelude.Int.{ℤ}
use gpt_load_fix.Prelude.Text.{Text, text_eq}

-- memoryStoreItem. The expiry is an int64 of nanoseconds since 1970; 0 is none.
pub record Item : Type 0 where
  pub value : Text
  pub expires_at : ℤ

-- zset. The program's scores are whole seconds, exact as float64, so they are numbers here.
pub record Zset : Type 0 where
  pub members : Dict Text ℕ
  pub sorted : List (Text × ℕ)
  pub dirty : Bool

-- What the values of `data map[string]any` are.
pub data Value : Type 0 where
  item : Item → Value
  hash : Dict Text Text → Value
  list : List Text → Value
  set : Dict Text (Unit {0}) → Value
  zset : Zset → Value

pub record Store : Type 0 where
  pub entries : Dict Text Value

abbrev pub empty : Store
empty = record { entries = [] }

unfoldable pub lookup : Store → Text → Option Value
lookup s key = Dict.get s.entries key

unfoldable pub write : Store → Text → Value → Store
write s key v = record { entries = Dict.put s.entries key v }

unfoldable pub drop : Store → Text → Store
drop s key = record { entries = Dict.remove s.entries key }

pub lookup-write :
    (s : Store) (k j : Text) (v : Value)
    → lookup (write s k v) j ≡ (if k =? j then some v else lookup s j)
unfolding lookup write
lookup-write s k j v = Dict.get-put s.entries k j v

pub lookup-drop :
    (s : Store) (k j : Text) → lookup (drop s k) j ≡ (if k =? j then none else lookup s j)
unfolding lookup drop
lookup-drop s k j = Dict.get-remove s.entries k j

pub write-write : (s : Store) (k : Text) (v w : Value) → write (write s k v) k w ≡ write s k w
unfolding write
write-write s k v w =
    ap (λ (d : Dict Text Value). record { entries = d }) (Dict.put-put s.entries k v w)

pub write_same : (s : Store) (k : Text) (v : Value) → lookup s k ≡ some v → write s k v ≡ s
unfolding lookup write
write_same s k v h =
    ap (λ (d : Dict Text Value). record { entries = d }) (Dict.put_same s.entries k v h)

pub lookup-write_self : (s : Store) (k : Text) (v : Value) → lookup (write s k v) k ≡ some v
lookup-write_self s k v = ground (arith, lookup-write s k k v, =?_refl k)

pub lookup-write_ne :
    (s : Store) (k j : Text) (v : Value) → k ≢ j → lookup (write s k v) j ≡ lookup s j
lookup-write_ne s k j v h = ground (arith, lookup-write s k j v, =?_ne k j h)

pub lookup-drop_ne : (s : Store) (k j : Text) → k ≢ j → lookup (drop s k) j ≡ lookup s j
lookup-drop_ne s k j h = ground (arith, lookup-drop s k j, =?_ne k j h)

pub lookup-drop_self : (s : Store) (k : Text) → lookup (drop s k) k ≡ none
lookup-drop_self s k = ground (arith, lookup-drop s k k, =?_refl k)
