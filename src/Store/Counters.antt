-- ===== src/Store/Counters.antt =====
-- HIncrBy (internal/store/memory.go) as a counter.
use gpt_load_fix.Prelude.{
  ◌≡◌, ap, ◌∙◌, Option, none, some, [], arith, ◌=?◌, =?_refl, if◌then◌else◌, sym,
}
use gpt_load_fix.Prelude.Dict
use gpt_load_fix.Prelude.Dict.{Dict}
use gpt_load_fix.Prelude.Int.{ℤ, add64, InInt64, add64-InInt64}
use gpt_load_fix.Prelude.Text.{Text, text_eq}
use gpt_load_fix.Prelude.Text.Decimal.{
  parse_int, format_int, parse_int-format_int, parse_int-InInt64,
}
use gpt_load_fix.Exec.{ok}
use gpt_load_fix.Store.{Value, hash, Store, lookup, write, lookup-write_self}
use gpt_load_fix.Store.Hashes.{h_incr_by, number_of, field_of, field_of-put, increment}

number_of-InInt64 : (h : Dict Text Text) (f : Text) → InInt64 (number_of h f)
unfolding number_of
number_of-InInt64 h f = parse_int-InInt64 (field_of h f)

number_of-put : (h : Dict Text Text) (f t : Text) → number_of (Dict.put h f t) f ≡ (parse_int t).0
unfolding number_of
number_of-put h f t = ap (λ x. (parse_int x).0) (ground (arith, field_of-put h f f t, =?_refl f))

pub number_of-increment :
    (h : Dict Text Text) (f : Text) (n : ℤ)
    → InInt64 n
    → number_of (increment h f n) f ≡ add64 (number_of h f) n
unfolding increment
number_of-increment h f n r =
    number_of-put h f (format_int (add64 (number_of h f) n))
    ∙ ap (λ p. p.0)
        (parse_int-format_int (add64 (number_of h f) n)
          (add64-InInt64 (number_of h f) n (number_of-InInt64 h f) r))

-- What the store holds under a key, as a hash.
abbrev pub hash_or_empty : Option Value → Dict Text Text
hash_or_empty none = []
hash_or_empty (some (hash h)) = h
hash_or_empty (some _) = []

incr_state :
    (key f : Text) (n : ℤ) (s s' : Store) (r : ℤ)
    → h_incr_by key f n s ≡ (ok r, s')
    → (r ≡ add64 (number_of (hash_or_empty (lookup s key)) f) n)
      × (s' ≡ write s key (hash (increment (hash_or_empty (lookup s key)) f n)))
unfolding h_incr_by
incr_state key f n s s' r h = ground (arith, h)

hash_after :
    (key : Text) (s s' : Store) (h : Dict Text Text)
    → s' ≡ write s key (hash h)
    → hash_or_empty (lookup s' key) ≡ h
hash_after key s s' h e =
    ap (λ t. hash_or_empty (lookup t key)) e ∙ ap hash_or_empty (lookup-write_self s key (hash h))

-- An increment that does not fail adds to the number that stands in the field, in 64 bits with
-- wrap-around; a missing field and one that holds no number count as 0. It returns the sum, and
-- the sum is what the field reads as afterwards, printed in it; the other fields keep their text.
pub incr_lem :
    (key f : Text) (n : ℤ) (s s' : Store) (r : ℤ)
    → InInt64 n
    → h_incr_by key f n s ≡ (ok r, s')
    → (r ≡ add64 (number_of (hash_or_empty (lookup s key)) f) n)
      × (number_of (hash_or_empty (lookup s' key)) f ≡ r)
      × ((g : Text)
          → field_of (hash_or_empty (lookup s' key)) g
            ≡ (if f =? g then format_int r else field_of (hash_or_empty (lookup s key)) g))
unfolding increment
incr_lem key f n s s' r b h =
    let (e, w) = incr_state key f n s s' r h in
    let after = hash_after key s s' (increment (hash_or_empty (lookup s key)) f n) w in
    (
      e,
      ap (λ d. number_of d f) after
          ∙ number_of-increment (hash_or_empty (lookup s key)) f n b
          ∙ sym e,
      λ g.
          ap (λ d. field_of d g) after
          ∙ field_of-put (hash_or_empty (lookup s key)) f g
              (format_int (add64 (number_of (hash_or_empty (lookup s key)) f) n))
          ∙ ap (λ z. if f =? g then format_int z else field_of (hash_or_empty (lookup s key)) g)
              (sym e),
    )
