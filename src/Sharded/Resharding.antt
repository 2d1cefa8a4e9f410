-- ===== src/Sharded/Resharding.antt =====
-- Reconfigure (internal/keypool/sharded_memory.go) moves every key to its new shard.
use gpt_load_fix.Prelude.{
  ℕ, zero, suc, ◌+◌, ◌-◌, ◌<◌, ◌≡◌, refl, ◌≢◌, Bool, true, false, Option, none, some, [], ◌∷◌,
  arith, ap, ◌∙◌, sym, ◌==◌, ◌=?◌, if◌then◌else◌, leb, Bool-cases, Option-cases, inl, inr, =?_iff,
  =?_refl, nat_eq, ==_iff, subst,
}
use gpt_load_fix.Prelude.Dict
use gpt_load_fix.Prelude.Dict.{Dict}
use gpt_load_fix.Prelude.Text.{Text, text_eq}
use gpt_load_fix.Store.{Value, lookup, empty, write, lookup-write_self, lookup-write_ne}
use gpt_load_fix.Sharded.{
  Shard, ShardedStore, ShardedStoreConfig, home, place, new_shard, put_all, gather, spread,
  reshard_data, reconfigure, validate_config, magnitude,
}

-- Each key stands in its own shard only, and the shards are as many as the mask says.
pub record IsHomed (s : ShardedStore) : Type 0 where
  pub homed :
      (i : ℕ) (k : Text) (v : Value)
      → i < s.count
      → lookup (s.shards i).entries k ≡ some v
      → i ≡ home s.mask k
  pub distinct : (i : ℕ) → Dict.Distinct (s.shards i).entries.entries
  pub sized : s.mask + 1 ≡ s.count

home-lt : (mask : ℕ) (k : Text) → home mask k < mask + 1
unfolding home
home-lt mask k = grind arith

abbrev or_else {ℓ} : {A : Type ℓ} → Option A → Option A → Option A
or_else none o = o
or_else (some a) o = some a

get-put_all :
    (d all : Dict Text Value) (k : Text)
    → Dict.Distinct d
    → Dict.get (put_all all d) k ≡ or_else (Dict.get d k) (Dict.get all k)
unfolding put_all Dict.get
get-put_all [] all k dis = refl
get-put_all ((j, v) ∷ d) all k dis =
    ground
      (arith, get-put_all d (Dict.put all j v) k dis.1, Dict.get-put all j k v, dis.0, =?_iff j k)

not_here :
    (s : ShardedStore) (h : IsHomed s) (i : ℕ) (k : Text)
    → i < s.count
    → i ≢ home s.mask k
    → Dict.get (s.shards i).entries.entries k ≡ none
unfolding lookup
not_here s h i k lt ne = elim (Option-cases (lookup (s.shards i).entries k)) [
  | inl absent ↦ absent
  | inr (v, there) ↦ absurd (ne (h.homed i k v lt there))
]

-- What the first loop collects under a key, from shard `i` on.
get-gather :
    (s : ShardedStore) (h : IsHomed s) (n i : ℕ) (all : Dict Text Value) (k : Text)
    → i + n ≡ s.count
    → Dict.get (gather i n s.shards all) k ≡ (
        if leb i (home s.mask k)
        then or_else (lookup (s.shards (home s.mask k)).entries k) (Dict.get all k)
        else Dict.get all k)
unfolding gather lookup
get-gather s h zero i all k e = ground (arith, home-lt s.mask k, h.sized)
get-gather s h (suc n) i all k e =
    let d = (s.shards i).entries.entries in
    let rest = get-gather s h n (suc i) (put_all all d) k (omega arith) in
    let here = get-put_all d all k (h.distinct i) in
    elim (Bool-cases (i == home s.mask k)) [
      | inl same ↦
          let e' : i ≡ home s.mask k = ground arith in
          rest
          ∙ subst
              (λ j.
                (if leb (suc i) j
                  then or_else (lookup (s.shards j).entries k) (Dict.get (put_all all d) k)
                  else Dict.get (put_all all d) k)
                ≡ (if leb i j
                    then or_else (lookup (s.shards j).entries k) (Dict.get all k)
                    else Dict.get all k))
              e' (ground (arith, here))
      | inr other ↦
          let none_here = not_here s h i k (omega arith) (λ e'. ground arith) in
          rest ∙ ground (arith, here, none_here)
    ]

lookup-spread :
    (mask : ℕ) (d : Dict Text Value) (shards : ℕ → Shard) (k : Text)
    → Dict.Distinct d
    → lookup (spread mask d shards (home mask k)).entries k
      ≡ or_else (Dict.get d k) (lookup (shards (home mask k)).entries k)
unfolding spread Dict.get
lookup-spread mask [] shards k dis = refl
lookup-spread mask ((j, v) ∷ d) shards k dis =
    let i = home mask j in
    let rest =
      lookup-spread mask d
        (place shards i (record (shards i) { entries = write (shards i).entries j v })) k dis.1 in
    rest ∙ elim (Bool-cases (j =? k)) [
      | inl same ↦
          let e : j ≡ k = (=?_iff j k).0 same in
          subst
            (λ k'.
              or_else (Dict.get d k') (
                lookup
                  (place shards i (record (shards i) { entries = write (shards i).entries j v })
                    (home mask k')).entries
                  k')
              ≡ or_else (if j =? k' then some v else Dict.get d k')
                  (lookup (shards (home mask k')).entries k'))
            e (ground (arith, dis.0, =?_refl j, lookup-write_self (shards i).entries j v))
      | inr other ↦
          let ne : j ≢ k = λ e. ground (arith, =?_iff j k) in
          elim (Bool-cases (i == home mask k)) [
            | inl together ↦
                rw (other, together, lookup-write_ne (shards i).entries j k v ne)
                  (ap (λ n. or_else (Dict.get d k) (lookup (shards n).entries k))
                    ((==_iff i (home mask k)).0 together))
            | inr apart ↦ rw (other, apart) refl
          ]
    ]

put_all-Distinct : (d all : Dict Text Value) → Dict.Distinct all → Dict.Distinct (put_all all d)
unfolding put_all
put_all-Distinct [] all h = h
put_all-Distinct ((j, v) ∷ d) all h =
    put_all-Distinct d (Dict.put all j v) (Dict.Distinct-put all j v h)

gather-Distinct :
    (n i : ℕ) (shards : ℕ → Shard) (all : Dict Text Value)
    → Dict.Distinct all
    → Dict.Distinct (gather i n shards all)
unfolding gather
gather-Distinct zero i shards all h = h
gather-Distinct (suc n) i shards all h =
    gather-Distinct n (suc i) shards (put_all all (shards i).entries.entries)
      (put_all-Distinct (shards i).entries.entries all h)

-- Every key of the shards stands at its home.
abbrev AtHome : ℕ → (ℕ → Shard) → Type 0
AtHome mask shards =
    (i : ℕ) (k : Text) (v : Value) → lookup (shards i).entries k ≡ some v → i ≡ home mask k

module _ (mask : ℕ) (j : Text) (v : Value) (shards : ℕ → Shard) where
  moved : ℕ → Shard
  moved =
      place shards (home mask j)
        (record (shards (home mask j)) { entries = write (shards (home mask j)).entries j v })

  moved-AtHome : AtHome mask shards → AtHome mask moved
  unfolding moved
  moved-AtHome h i k w e = elim (Bool-cases (home mask j == i)) [
    | inl same ↦ elim (Bool-cases (j =? k)) [
      | inl self ↦ ground (arith, (=?_iff j k).0 self)
      | inr other ↦
          let ne : j ≢ k = λ e'. ground (arith, =?_iff j k) in
          let at : home mask j ≡ i = ground arith in
          sym at
          ∙ h (home mask j) k w
              (sym (lookup-write_ne (shards (home mask j)).entries j k v ne) ∙ rw same at e)
    ]
    | inr apart ↦ h i k w (rw apart at e)
  ]

  moved-Distinct :
      ((i : ℕ) → Dict.Distinct (shards i).entries.entries)
      → (i : ℕ) → Dict.Distinct (moved i).entries.entries
  unfolding moved write
  moved-Distinct h i = elim (Bool-cases (home mask j == i)) [
    | inl same ↦
        rw same (Dict.Distinct-put (shards (home mask j)).entries.entries j v (h (home mask j)))
    | inr apart ↦ rw apart (h i)
  ]

spread_keeps :
    (mask : ℕ) (d : Dict Text Value) (shards : ℕ → Shard)
    → AtHome mask shards × ((i : ℕ) → Dict.Distinct (shards i).entries.entries)
    → AtHome mask (spread mask d shards)
      × ((i : ℕ) → Dict.Distinct (spread mask d shards i).entries.entries)
unfolding spread moved
spread_keeps mask [] shards h = h
spread_keeps mask ((j, v) ∷ d) shards h =
    spread_keeps mask d (moved mask j v shards)
      (moved-AtHome mask j v shards h.0, moved-Distinct mask j v shards h.1)

-- What the shards hold under a key.
abbrev pub held : ShardedStore → Text → Option Value
held s k = lookup (s.shards (home s.mask k)).entries k

empty_holds : (k : Text) (v : Value) → lookup empty k ≢ some v
unfolding lookup Dict.get
empty_holds k v e = cc

gathered_all :
    (n : ℕ) (o : Option Value) (k : Text)
    → or_else (if leb 0 n then or_else o (Dict.get [] k) else Dict.get [] k) (lookup empty k) ≡ o
unfolding lookup Dict.get
gathered_all n none k = ground arith
gathered_all n (some v) k = ground arith

resharded :
    (now n : ℕ) (s : ShardedStore) (c : ShardedStoreConfig)
    → 0 < n
    → IsHomed s
    → IsHomed (record (reshard_data now n s) { config = c; mask = n - 1 })
      × ((k : Text)
          → held (record (reshard_data now n s) { config = c; mask = n - 1 }) k ≡ held s k)
unfolding reshard_data
resharded now n s c pos_n h =
    let all = gather 0 s.count s.shards [] in
    let blank : ℕ → Shard = λ _. new_shard now in
    let (at, dis) =
      spread_keeps (n - 1) all blank (λ i k v e. absurd (empty_holds k v e), λ i. tt) in
    (
      record { homed = λ i k v lt e. at i k v e; distinct = dis; sized = omega arith },
      λ k.
          lookup-spread (n - 1) all blank k (gather-Distinct s.count 0 s.shards [] tt)
          ∙ ap (λ o. or_else o (lookup empty k)) (get-gather s h s.count 0 [] k (omega arith))
          ∙ gathered_all (home s.mask k) (held s k) k,
    )

abbrev pub Reconfigured : ShardedStore → Bool × ShardedStore → Type 0
Reconfigured s (true, s') = IsHomed s' × ((k : Text) → held s' k ≡ held s k)
Reconfigured s (false, s') = s' ≡ s

valid_count : (c : ShardedStoreConfig) → validate_config c ≡ true → 0 < magnitude c.shard_count
unfolding validate_config
valid_count c h = ground (arith, h)

unchanged :
    (c : ShardedStoreConfig) (s : ShardedStore) (n : ℕ)
    → IsHomed s
    → n ≡ s.count
    → 0 < n
    → IsHomed (record s { config = c; mask = n - 1 })
      × ((k : Text) → held (record s { config = c; mask = n - 1 }) k ≡ held s k)
unchanged c s n h e pos_n =
    let m : n - 1 ≡ s.mask = omega (arith, h.sized) in
    rw m (record { homed = h.homed; distinct = h.distinct; sized = h.sized }, λ k. refl)

-- Reconfigure on a store whose keys stand in their shards: if it reports no error, each key holds
-- what it held, in the shard where a lookup now looks for it, and the keys stand in their shards
-- again; if it reports one, nothing has changed.
pub reconfigure_keeps :
    (now : ℕ) (c : ShardedStoreConfig) (s : ShardedStore)
    → IsHomed s
    → Reconfigured s (reconfigure now c s)
reconfigure_keeps now c s h = elim (Bool-cases (validate_config c)) [
  | inr bad ↦ unfold reconfigure in rw bad refl
  | inl good ↦
      let n = magnitude c.shard_count in
      let pos_n : 0 < n = valid_count c good in
      unfold reconfigure in
      elim (Bool-cases (n == s.count)) [
        | inl same ↦ rw (good, same) (unchanged c s n h ((==_iff n s.count).0 same) pos_n)
        | inr other ↦ rw (good, other) (resharded now n s c pos_n h)
      ]
]
