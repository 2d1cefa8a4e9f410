-- ===== src/Store/Freshness.antt =====
-- Every history of a sorted set (internal/store/memory.go) keeps its cache of the order right.
use gpt_load_fix.Prelude.{
  ℕ, ◌≤◌, ◌≡◌, refl, ap, ◌∙◌, sym, subst, true, not, ◌||◌, Option, none, some, List, [], ◌∷◌, arith,
  length, count, Bool-cases, inl, inr,
}
use gpt_load_fix.Prelude.Dict
use gpt_load_fix.Prelude.Dict.{Dict}
use gpt_load_fix.Prelude.Text.{Text, text_eq}
use gpt_load_fix.Exec.{ok, Any, sprint}
use gpt_load_fix.Store.{Zset, Value, zset, Store, lookup, write, lookup-write_self}
use gpt_load_fix.Store.Zsets.{
  empty_zset, same_score, add_scores, remove_scores, sort_by_score, ensure_sorted, outside_scores,
  remove_range, z_add, z_rem, z_range_by_score, z_rem_range_by_score, z_card,
}
use gpt_load_fix.Store.Ranges.{IsFresh, ensure_sorted-IsFresh, range_exact, in_range, Ascending}

empty-IsFresh : IsFresh empty_zset
unfolding sort_by_score
empty-IsFresh = record { distinct = tt; fresh = λ _. refl }

same_score→get : (o : Option ℕ) (x : ℕ) → same_score o x ≡ true → o ≡ some x
unfolding same_score
same_score→get none x h = cc
same_score→get (some y) x h = ground (arith, h)

add_one-IsFresh :
    (zs : Zset) (m : Text) (x : ℕ)
    → IsFresh zs
    → IsFresh (record zs {
      members = Dict.put zs.members m x;
      dirty = not (same_score (Dict.get zs.members m) x) || zs.dirty;
    })
add_one-IsFresh zs m x f = record {
  distinct = Dict.Distinct-put zs.members m x f.distinct;
  fresh = λ clean. ground (
    arith,
    clean,
    f.fresh,
    same_score→get (Dict.get zs.members m) x,
    Dict.put_same zs.members m x,
  );
}

add_scores-IsFresh : (l : List (Any × ℕ)) (zs : Zset) → IsFresh zs → IsFresh (add_scores zs l)
unfolding add_scores
add_scores-IsFresh [] zs f = f
add_scores-IsFresh ((m, x) ∷ l) zs f = add_scores-IsFresh l _ (add_one-IsFresh zs (sprint m) x f)

remove_one-IsFresh :
    (zs : Zset) (m : Text)
    → IsFresh zs
    → IsFresh (record zs { members = Dict.remove zs.members m; dirty = true })
remove_one-IsFresh zs m f = record {
  distinct = Dict.Distinct-remove zs.members m f.distinct;
  fresh = λ h. cc;
}

remove_scores-IsFresh : (l : List Any) (zs : Zset) → IsFresh zs → IsFresh (remove_scores zs l)
unfolding remove_scores
remove_scores-IsFresh [] zs f = f
remove_scores-IsFresh (m ∷ l) zs f = elim (Bool-cases (Dict.has (Dict.get zs.members (sprint m)))) [
  | inl h ↦ rw h (remove_scores-IsFresh l _ (remove_one-IsFresh zs (sprint m) f))
  | inr h ↦ rw h (remove_scores-IsFresh l zs f)
]

get-outside :
    (a b : ℕ) (d : Dict Text ℕ) (k : Text)
    → Dict.get d k ≡ none
    → Dict.get (outside_scores a b d) k ≡ none
unfolding outside_scores Dict.get
get-outside a b [] k h = refl
get-outside a b ((m, x) ∷ d) k h = ground (arith, h, get-outside a b d k)

outside-Distinct :
    (a b : ℕ) (d : Dict Text ℕ) → Dict.Distinct d → Dict.Distinct (outside_scores a b d)
unfolding outside_scores
outside-Distinct a b [] h = tt
outside-Distinct a b ((m, x) ∷ d) h =
    ground (arith, h.0, h.1, outside-Distinct a b d h.1, get-outside a b d m)

length-outside-le : (a b : ℕ) (d : Dict Text ℕ) → length (outside_scores a b d) ≤ length d
unfolding outside_scores
length-outside-le a b [] = omega arith
length-outside-le a b ((m, x) ∷ d) = ground (arith, length-outside-le a b d)

outside_all :
    (a b : ℕ) (d : Dict Text ℕ)
    → length d ≤ length (outside_scores a b d)
    → outside_scores a b d ≡ d
unfolding outside_scores
outside_all a b [] h = refl
outside_all a b ((m, x) ∷ d) h = ground (arith, h, outside_all a b d, length-outside-le a b d)

remove_range-IsFresh : (a b : ℕ) (zs : Zset) → IsFresh zs → IsFresh (remove_range a b zs).0
unfolding remove_range
remove_range-IsFresh a b zs f = record {
  distinct = outside-Distinct a b zs.members f.distinct;
  fresh = λ clean.
      let same : outside_scores a b zs.members ≡ zs.members =
        outside_all a b zs.members (ground (arith, clean)) in
      f.fresh (ground (arith, clean)) ∙ ap sort_by_score (sym same);
}

-- The calls on a sorted set.
pub data Call : Type 0 where
  add : List (Any × ℕ) → Call
  remove : List Any → Call
  range remove_between : ℕ → ℕ → Call
  card : Call

unfoldable pub step : Text → Call → Store → Store
step key (add l) s = (z_add key l s).1
step key (remove l) s = (z_rem key l s).1
step key (range a b) s = (z_range_by_score key a b s).1
step key (remove_between a b) s = (z_rem_range_by_score key a b s).1
step key card s = (z_card key s).1

unfoldable pub history : Text → List Call → Store → Store
history key [] s = s
history key (c ∷ cs) s = history key cs (step key c s)

abbrev FreshValue : Option Value → Type 0
FreshValue (some (zset zs)) = IsFresh zs
FreshValue _ = Unit

write-Fresh :
    (key : Text) (s s' : Store) (v : Value)
    → s' ≡ write s key v
    → FreshValue (some v)
    → FreshValue (lookup s' key)
write-Fresh key s s' v e f =
    subst FreshValue (sym (ap (λ t. lookup t key) e ∙ lookup-write_self s key v)) f

keep-Fresh :
    (key : Text) (s s' : Store) (o : Option Value)
    → s' ≡ s
    → lookup s key ≡ o
    → FreshValue o
    → FreshValue (lookup s' key)
keep-Fresh key s s' o e e' f = subst FreshValue (sym (ap (λ t. lookup t key) e ∙ e')) f

step-Fresh :
    (key : Text) (c : Call) (s : Store) (o : Option Value)
    → lookup s key ≡ o
    → FreshValue o
    → FreshValue (lookup (step key c s) key)
unfolding step z_add z_rem z_range_by_score z_rem_range_by_score z_card
step-Fresh key (add l) s none e f =
    write-Fresh key s _ (zset (add_scores empty_zset l)) (ground (arith, e))
      (add_scores-IsFresh l empty_zset empty-IsFresh)
step-Fresh key (add l) s (some (zset zs)) e f =
    write-Fresh key s _ (zset (add_scores zs l)) (ground (arith, e)) (add_scores-IsFresh l zs f)
step-Fresh key (remove l) s (some (zset zs)) e f =
    write-Fresh key s _ (zset (remove_scores zs l)) (ground (arith, e))
      (remove_scores-IsFresh l zs f)
step-Fresh key (range a b) s (some (zset zs)) e f =
    write-Fresh key s _ (zset (ensure_sorted zs)) (ground (arith, e)) (ensure_sorted-IsFresh zs f)
step-Fresh key (remove_between a b) s (some (zset zs)) e f =
    write-Fresh key s _ (zset (remove_range a b zs).0) (ground (arith, e))
      (remove_range-IsFresh a b zs f)
step-Fresh key c s o e f = keep-Fresh key s _ o (ground (arith, e)) e f

history-Fresh :
    (key : Text) (cs : List Call) (s : Store)
    → FreshValue (lookup s key)
    → FreshValue (lookup (history key cs s) key)
unfolding history
history-Fresh key [] s f = f
history-Fresh key (c ∷ cs) s f =
    history-Fresh key cs (step key c s) (step-Fresh key c s (lookup s key) refl f)

-- Whatever calls are made on a key that held nothing, if it then holds a sorted set, a range of it
-- is exact: each member whose score lies between the bounds is returned once, no other is, and the
-- scores do not fall along the result.
pub history_range :
    (key : Text) (cs : List Call) (s : Store) (a b : ℕ) (zs : Zset)
    → lookup s key ≡ none
    → lookup (history key cs s) key ≡ some (zset zs)
    → (ms : List Text) × ((z_range_by_score key a b (history key cs s)).0 ≡ ok ms)
      × ((k : Text) → count k ms ≡ in_range a b (Dict.get zs.members k))
      × Ascending zs.members ms
history_range key cs s a b zs h e =
    range_exact key a b (history key cs s) zs e
      (subst FreshValue e (history-Fresh key cs s (subst FreshValue (sym h) tt)))
