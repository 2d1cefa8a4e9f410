-- ===== src/MemoryPool/Emptied.antt =====
-- What ZRem and SRem of several keys leave of them (for removeFromCoolingPool and
-- removeFromValidationPool in internal/keypool/memory_pool.go).
use gpt_load_fix.Prelude.{
  ℕ, ◌≡◌, refl, true, Option, none, some, List, [], ◌∷◌, map, arith, All, =?_refl, if◌then◌else◌,
  nat_eq,
}
use gpt_load_fix.Prelude.Dict
use gpt_load_fix.Prelude.Dict.{Dict, has}
use gpt_load_fix.Prelude.Text.{Text, text_eq}
use gpt_load_fix.Prelude.Text.Decimal.{format_uint}
use gpt_load_fix.Exec.{Any, uint, sprint}
use gpt_load_fix.Store.{Value, Zset, item, hash, list, set, zset, Store, lookup, lookup-write_self}
use gpt_load_fix.Store.Sets.{s_rem, remove_members}
use gpt_load_fix.Store.Zsets.{z_rem, remove_scores}
use gpt_load_fix.MemoryPool.Cooling.{score_of}

-- One round of the loop of ZRem.
abbrev drop_one : Zset → Text → Zset
drop_one z m =
    if has (Dict.get z.members m)
    then record z { members = Dict.remove z.members m; dirty = true }
    else z

get-drop_one :
    (z : Zset) (x m : Text) → Dict.get z.members m ≡ none → Dict.get (drop_one z x).members m ≡ none
get-drop_one z x m h = ground (arith, h, Dict.get-remove z.members x m)

get-drop_one_self : (z : Zset) (x : Text) → Dict.get (drop_one z x).members x ≡ none
get-drop_one_self z x = ground (arith, Dict.get-remove z.members x x, =?_refl x)

get-remove_scores :
    (l : List Any) (z : Zset) (m : Text)
    → Dict.get z.members m ≡ none
    → Dict.get (remove_scores z l).members m ≡ none
unfolding remove_scores
get-remove_scores [] z m h = h
get-remove_scores (x ∷ l) z m h =
    get-remove_scores l (drop_one z (sprint x)) m (get-drop_one z (sprint x) m h)

gone-remove_scores :
    (ids : List ℕ) (z : Zset)
    → All (λ j. Dict.get (remove_scores z (map uint ids)).members (format_uint j) ≡ none) ids
unfolding remove_scores sprint
gone-remove_scores [] z = tt
gone-remove_scores (id ∷ ids) z = (
  get-remove_scores (map uint ids) (drop_one z (format_uint id)) (format_uint id)
      (get-drop_one_self z (format_uint id)),
  gone-remove_scores ids (drop_one z (format_uint id)),
)

every : {P : ℕ → Type 0} (ids : List ℕ) → ((j : ℕ) → P j) → All P ids
every [] h = tt
every (id ∷ ids) h = (h id, every ids h)

-- Membership in a set.
abbrev pub as_set : Option Value → Dict Text (Unit {0})
as_set (some (set m)) = m
as_set _ = []

abbrev pub member : Store → Text → Text → Option (Unit {0})
member s key m = Dict.get (as_set (lookup s key)) m

get-remove_members :
    (l : List Any) (d : Dict Text (Unit {0})) (m : Text)
    → Dict.get d m ≡ none
    → Dict.get (remove_members d l) m ≡ none
unfolding remove_members
get-remove_members [] d m h = h
get-remove_members (x ∷ l) d m h =
    get-remove_members l (Dict.remove d (sprint x)) m
      (ground (arith, h, Dict.get-remove d (sprint x) m))

gone-remove_members :
    (ids : List ℕ) (d : Dict Text (Unit {0}))
    → All (λ j. Dict.get (remove_members d (map uint ids)) (format_uint j) ≡ none) ids
unfolding remove_members sprint
gone-remove_members [] d = tt
gone-remove_members (id ∷ ids) d = (
  get-remove_members (map uint ids) (Dict.remove d (format_uint id)) (format_uint id) (
      ground
        (arith, Dict.get-remove d (format_uint id) (format_uint id), =?_refl (format_uint id))),
  gone-remove_members ids (Dict.remove d (format_uint id)),
)

-- What the two calls leave of the value under their key.
pub rem_scores : Option Value → List Any → Option Value
rem_scores (some (zset z)) l = some (zset (remove_scores z l))
rem_scores o l = o

pub rem_members : Option Value → List Any → Option Value
rem_members (some (set m)) l = some (set (remove_members m l))
rem_members o l = o

pub lookup-z_rem :
    (l : List Any) (s : Store) (key : Text)
    → lookup (z_rem key l s).1 key ≡ rem_scores (lookup s key) l
unfolding z_rem rem_scores
lookup-z_rem l s key = grind (arith, lookup-write_self)

pub lookup-s_rem :
    (l : List Any) (s : Store) (key : Text)
    → lookup (s_rem key l s).1 key ≡ rem_members (lookup s key) l
unfolding s_rem rem_members
lookup-s_rem l s key = grind (arith, lookup-write_self)

pub gone-rem_scores :
    (ids : List ℕ) (o : Option Value)
    → All (λ j. score_of (rem_scores o (map uint ids)) (format_uint j) ≡ none) ids
unfolding rem_scores
gone-rem_scores ids (some (zset z)) = gone-remove_scores ids z
gone-rem_scores ids none = every ids (λ j. refl)
gone-rem_scores ids (some (item i)) = every ids (λ j. refl)
gone-rem_scores ids (some (hash h)) = every ids (λ j. refl)
gone-rem_scores ids (some (list xs)) = every ids (λ j. refl)
gone-rem_scores ids (some (set m)) = every ids (λ j. refl)

pub gone-rem_members :
    (ids : List ℕ) (o : Option Value)
    → All (λ j. Dict.get (as_set (rem_members o (map uint ids))) (format_uint j) ≡ none) ids
unfolding rem_members Dict.get
gone-rem_members ids (some (set m)) = gone-remove_members ids m
gone-rem_members ids none = every ids (λ j. refl)
gone-rem_members ids (some (item i)) = every ids (λ j. refl)
gone-rem_members ids (some (hash h)) = every ids (λ j. refl)
gone-rem_members ids (some (list xs)) = every ids (λ j. refl)
gone-rem_members ids (some (zset z)) = every ids (λ j. refl)
