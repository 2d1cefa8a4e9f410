-- ===== src/MemoryPool/Refill.antt =====
-- moveToActivePool and SelectKey on an empty active pool (internal/keypool/memory_pool.go).
use mathlib.Core.List.{reverse, reverse-cons, append_assoc, append-nil, map-append}
use gpt_load_fix.Prelude.{
  ℕ, suc, ◌<◌, ◌^◌, ◌≡◌, ◌≢◌, refl, ap, ◌∙◌, sym, subst, ◌⊎◌, inl, inr, none, some, List, [], ◌∷◌,
  ◌++◌, map, arith, length, All, false, if◌then◌else◌,
}
use gpt_load_fix.Prelude.Int.{ℤ, pos, negsuc, pos_part, sub64, leb_ℤ, ltb_ℤ}
use gpt_load_fix.Prelude.Text.{Text, text_eq}
use gpt_load_fix.Prelude.Text.Decimal.{format_uint, parse_uint, parse_uint-format_uint}
use gpt_load_fix.Exec.{ok, err, Exec, not_found, uint, sprint, pure, ◌>>=◌, ◌>>◌}
use gpt_load_fix.Store.{Value, list, Store, lookup, write, lookup-write_self, lookup-write_ne}
use gpt_load_fix.Store.Lists.{rotate, l_push}
use gpt_load_fix.Store.Rotation.{rotate_list}
use gpt_load_fix.Sharded.Values.{l_len}
use gpt_load_fix.MemoryPool.{ready, active, get_redis_key, PoolConfig}
use gpt_load_fix.MemoryPool.Moves.{moved, move_to_active_pool, need_refill}
use gpt_load_fix.MemoryPool.Names.{ready-ne-active, active-ne-ready}

abbrev pub names : List ℕ → List Text
names ids = map format_uint ids

-- The list under a key, which may be missing while it is empty.
abbrev pub Holds : Store → Text → List Text → Type 0
Holds s key xs = (lookup s key ≡ some (list xs)) ⊎ ((lookup s key ≡ none) × (xs ≡ []))

push_lem :
    (s : Store) (key : Text) (xs : List Text) (id : ℕ)
    → Holds s key xs
    → l_push key (uint id ∷ []) s ≡ (ok tt, write s key (list (format_uint id ∷ xs)))
unfolding l_push sprint
push_lem s key xs id (inl h) = rw (h, l_push) refl
push_lem s key xs id (inr (h, e)) = rw (h, e, l_push) refl

-- What a refill has done: the ids went to the active pool, and the ready pool has been turned.
pub record Moved (g : ℕ) (zs ys : List ℕ) (xs : List Text) (s s' : Store) : Type 0 where
  pub ready_is : lookup s' (get_redis_key g ready) ≡ some (list (names (reverse zs ++ ys)))
  pub active_is : Holds s' (get_redis_key g active) (names (reverse zs) ++ xs)
  pub others :
      (k : Text) → get_redis_key g ready ≢ k → get_redis_key g active ≢ k → lookup s' k ≡ lookup s k

module _ (g : ℕ) where
  abbrev ready_key : Text
  ready_key = get_redis_key g ready

  abbrev active_key : Text
  active_key = get_redis_key g active

  -- One round.
  abbrev after : Store → ℕ → List ℕ → List Text → Store
  after s z rest xs =
      write (write s ready_key (list (names (z ∷ rest)))) active_key (list (format_uint z ∷ xs))

  Holds-write :
      (s : Store) (v : Value) (xs : List Text)
      → Holds s active_key xs
      → Holds (write s ready_key v) active_key xs
  Holds-write s v xs (inl h) =
      inl (lookup-write_ne s ready_key active_key v (ready-ne-active g) ∙ h)
  Holds-write s v xs (inr (h, e)) =
      inr (lookup-write_ne s ready_key active_key v (ready-ne-active g) ∙ h, e)

  moved-ok :
      (again : Exec Store (List ℕ)) (t : Text) (w : Store) {id : ℕ}
      → parse_uint t ≡ some id
      → moved g again (ok t, w)
        ≡ (l_push active_key (uint id ∷ []) >> again >>= λ ids. pure (id ∷ ids)) w
  moved-ok again t w h = rw (h, moved) refl

  pushed-ok :
      (again : Exec Store (List ℕ)) (id : ℕ) (ids : List ℕ) (w w' w'' : Store)
      → l_push active_key (uint id ∷ []) w ≡ (ok tt, w')
      → again w' ≡ (ok ids, w'')
      → (l_push active_key (uint id ∷ []) >> again >>= λ ids. pure (id ∷ ids)) w
        ≡ (ok (id ∷ ids), w'')
  pushed-ok again id ids w w' w'' h next = rw (h, next) refl

  round :
      (n z : ℕ) (rest : List ℕ) (xs : List Text) (s s' : Store) (zs : List ℕ)
      → z < 2 ^ 64
      → lookup s ready_key ≡ some (list (names (rest ++ z ∷ [])))
      → Holds s active_key xs
      → move_to_active_pool g n (after s z rest xs) ≡ (ok zs, s')
      → move_to_active_pool g (suc n) s ≡ (ok (z ∷ zs), s')
  unfolding move_to_active_pool
  round n z rest xs s s' zs b h a next =
      let turn =
        rotate_list ready_key s (names rest) (format_uint z) (names (rest ++ z ∷ []))
          (map-append format_uint rest (z ∷ [])) h in
      let pushed =
        push_lem (write s ready_key (list (names (z ∷ rest)))) active_key xs z
          (Holds-write s _ xs a) in
      ap (moved g (λ w. move_to_active_pool g n w)) turn
      ∙ moved-ok (λ w. move_to_active_pool g n w) _ _ (parse_uint-format_uint z b)
      ∙ pushed-ok (λ w. move_to_active_pool g n w) z zs _ _ s' pushed next

  grouped : (z : ℕ) (zs ys : List ℕ) → ys ++ reverse (z ∷ zs) ≡ (ys ++ reverse zs) ++ z ∷ []
  grouped z zs ys = rw (reverse-cons z zs) (sym (append_assoc ys (reverse zs) (z ∷ [])))

  regrouped : (z : ℕ) (zs ys : List ℕ) → reverse zs ++ z ∷ ys ≡ reverse (z ∷ zs) ++ ys
  regrouped z zs ys = rw (reverse-cons z zs) (sym (append_assoc (reverse zs) (z ∷ []) ys))

  stacked :
      (z : ℕ) (zs : List ℕ) (xs : List Text)
      → names (reverse zs) ++ format_uint z ∷ xs ≡ names (reverse (z ∷ zs)) ++ xs
  stacked z zs xs = sym (
      ap (λ l. l ++ xs)
        (ap names (reverse-cons z zs) ∙ map-append format_uint (reverse zs) (z ∷ []))
      ∙ append_assoc (names (reverse zs)) (format_uint z ∷ []) xs)

  -- moveToActivePool, for as many keys as it is to move and finds: it moves the last ones of the
  -- ready pool, but they stay there too, at the front.
  pub move_to_active_pool_lem :
      (zs ys : List ℕ) (xs : List Text) (s : Store)
      → All (λ z. z < 2 ^ 64) zs
      → lookup s ready_key ≡ some (list (names (ys ++ reverse zs)))
      → Holds s active_key xs
      → (s' : Store) × (move_to_active_pool g (length zs) s ≡ (ok zs, s')) × Moved g zs ys xs s s'
  unfolding move_to_active_pool
  move_to_active_pool_lem [] ys xs s b h a = (
    s,
    refl,
    record {
      ready_is = h ∙ ap (λ l. some (list (names l))) (append-nil ys);
      active_is = a;
      others = λ k n m. refl;
    },
  )
  move_to_active_pool_lem (z ∷ zs) ys xs s (b, bs) h a =
      let rest = ys ++ reverse zs in
      let h' = h ∙ ap (λ l. some (list (names l))) (grouped z zs ys) in
      let s1 = after s z rest xs in
      let now_ready =
        lookup-write_ne (write s ready_key (list (names (z ∷ rest)))) active_key ready_key
          (list (format_uint z ∷ xs)) (active-ne-ready g)
        ∙ lookup-write_self s ready_key (list (names (z ∷ rest))) in
      let (s', run, m) =
        move_to_active_pool_lem zs (z ∷ ys) (format_uint z ∷ xs) s1 bs now_ready
          (inl (lookup-write_self _ active_key _)) in
      (
        s',
        round (length zs) z rest xs s s' zs b h' a run,
        record {
          ready_is = m.ready_is ∙ ap (λ l. some (list (names l))) (regrouped z zs ys);
          active_is = subst (Holds s' active_key) (stacked z zs xs) m.active_is;
          others = λ k n n'.
              m.others k n n'
              ∙ lookup-write_ne (write s ready_key (list (names (z ∷ rest)))) active_key k _ n'
              ∙ lookup-write_ne s ready_key k _ n;
        },
      )

  pub Holds-empty :
      (s : Store)
      → Holds s active_key []
      → (rotate active_key s ≡ (err not_found, s)) × (l_len active_key s ≡ (ok 0, s))
  unfolding rotate l_len
  Holds-empty s (inl h) = (rw (h, rotate) refl, rw (h, l_len) refl)
  Holds-empty s (inr (h, e)) = (rw (h, rotate) refl, rw (h, l_len) refl)

  pub Holds-cons :
      (s : Store) (x : Text) (xs : List Text)
      → Holds s active_key (x ∷ xs)
      → lookup s active_key ≡ some (list (x ∷ xs))
  Holds-cons s x xs (inl h) = h
  Holds-cons s x xs (inr (h, e)) = cc

pub needs :
    (config : PoolConfig) (n : ℕ)
    → need_refill config 0 ≡ suc n
    → leb_ℤ (sub64 config.min_active_keys (pos 0)) (pos 0) ≡ false
unfolding need_refill
needs config n h = needs_of (sub64 config.min_active_keys (pos 0)) config.refill_batch_size h
  where
    needs_of :
        (need batch : ℤ)
        → pos_part (if ltb_ℤ batch need then batch else need) ≡ suc n
        → leb_ℤ need (pos 0) ≡ false
    needs_of (pos m) (pos b) h' = ground arith
    needs_of (pos m) (negsuc b) h' = ground arith
    needs_of (negsuc m) (pos b) h' = ground arith
    needs_of (negsuc m) (negsuc b) h' = ground arith
