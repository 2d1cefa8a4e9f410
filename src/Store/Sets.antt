-- ===== src/Store/Sets.antt =====
-- Sets: SAdd, SRem, SMembers, SPopN.
use gpt_load_fix.Prelude.{ℕ, zero, suc, none, some, List, [], ◌∷◌}
use gpt_load_fix.Prelude.Dict
use gpt_load_fix.Prelude.Dict.{Dict}
use gpt_load_fix.Prelude.Text.{Text, text_eq}
use gpt_load_fix.Exec.{type_mismatch, ok, err, Exec, Any, sprint}
use gpt_load_fix.Store.{set, Store, lookup, write}

unfoldable pub add_members : Dict Text (Unit {0}) → List Any → Dict Text (Unit {0})
unfolding sprint
add_members m [] = m
add_members m (a ∷ rest) = add_members (Dict.put m (sprint a) tt) rest

unfoldable pub s_add : Text → List Any → Exec Store Unit
unfolding add_members
s_add key members s = elim (lookup s key) [
  | none ↦ (ok tt, write s key (set (add_members [] members)))
  | some (set m) ↦ (ok tt, write s key (set (add_members m members)))
  | some _ ↦ (err (type_mismatch key), s)
]

unfoldable pub remove_members : Dict Text (Unit {0}) → List Any → Dict Text (Unit {0})
unfolding sprint
remove_members m [] = m
remove_members m (a ∷ rest) = remove_members (Dict.remove m (sprint a)) rest

unfoldable pub s_rem : Text → List Any → Exec Store Unit
unfolding remove_members
s_rem key members s = elim (lookup s key) [
  | none ↦ (ok tt, s)
  | some (set m) ↦ (ok tt, write s key (set (remove_members m members)))
  | some _ ↦ (err (type_mismatch key), s)
]

unfoldable pub s_members : Text → Exec Store (List Text)
s_members key s = elim (lookup s key) [
  | none ↦ (ok [], s)
  | some (set m) ↦ (ok (Dict.keys m), s)
  | some _ ↦ (err (type_mismatch key), s)
]

-- The loop of SPopN: it pops until `count` members are popped, or none is left. A negative count,
-- with which Go panics, is not modelled.
unfoldable pub pop_members : ℕ → Dict Text (Unit {0}) → List Text × Dict Text (Unit {0})
pop_members zero m = ([], m)
pop_members (suc n) [] = ([], [])
pop_members (suc n) ((k, v) ∷ m) = let (popped, rest) = pop_members n m in (k ∷ popped, rest)

unfoldable pub s_pop_n : Text → ℕ → Exec Store (List Text)
unfolding pop_members
s_pop_n key count s = elim (lookup s key) [
  | none ↦ (ok [], s)
  | some (set m) ↦ let (popped, rest) = pop_members count m in (ok popped, write s key (set rest))
  | some _ ↦ (err (type_mismatch key), s)
]
