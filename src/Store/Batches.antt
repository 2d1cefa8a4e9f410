-- ===== src/Store/Batches.antt =====
-- SPopN (internal/store/memory.go) empties a set in batches.
use gpt_load_fix.Prelude.{ℕ, zero, suc, ◌≡◌, refl, ap, some, List, [], ◌∷◌, ◌++◌, arith, length}
use Prim.Native.Nat.{min}
use gpt_load_fix.Prelude.Dict
use gpt_load_fix.Prelude.Dict.{Dict}
use gpt_load_fix.Prelude.Text.{Text, text_eq}
use gpt_load_fix.Exec.{ok}
use gpt_load_fix.Store.{set, Store, lookup, lookup-write_self}
use gpt_load_fix.Store.Sets.{s_pop_n, s_members, pop_members}

pop_members_parts :
    (n : ℕ) (m : Dict Text (Unit {0}))
    → (Dict.keys m ≡ (pop_members n m).0 ++ Dict.keys (pop_members n m).1)
      × (length (pop_members n m).0 ≡ min n (length m))
unfolding pop_members Dict.keys
pop_members_parts zero m = (refl, omega arith)
pop_members_parts (suc n) [] = (refl, omega arith)
pop_members_parts (suc n) ((k, v) ∷ m) =
    let (e, l) = pop_members_parts n m in (ap (λ r. k ∷ r) e, omega (arith, l))

-- A batch is as large as asked for, or all that is left; and it splits the members: what is popped
-- and what stays are together what was there, each member once.
pub pop_splits :
    (key : Text) (n : ℕ) (s : Store) (m : Dict Text (Unit {0}))
    → lookup s key ≡ some (set m)
    → (popped left : List Text) × (s_pop_n key n s ≡ (ok popped, (s_pop_n key n s).1))
      × (s_members key (s_pop_n key n s).1 ≡ (ok left, (s_pop_n key n s).1))
      × (Dict.keys m ≡ popped ++ left)
      × (length popped ≡ min n (length m))
unfolding s_pop_n s_members
pop_splits key n s m h = (
  (pop_members n m).0,
  Dict.keys (pop_members n m).1,
  ground (arith, h),
  ground (arith, h, lookup-write_self s key (set (pop_members n m).1)),
  (pop_members_parts n m).0,
  (pop_members_parts n m).1,
)
