-- ===== src/Prelude/Text.antt =====
-- Go's `string`: a sequence of bytes.
pub mod Decimal
use Prim.Native.Nat.{ℕ}
use Prim.Native.Char.{code}
use Prim.Native.String.{String}
use mathlib.Core.Path.{◌≡◌, refl, ap}
use mathlib.Core.Logic.{◌↔◌}
use mathlib.Core.Bool.{Bool, true, false, ◌&&◌, ◌||◌}
use mathlib.Core.List.{List, [], ◌∷◌, ◌++◌}
use native.Mathlib.Omega.{arith}
use gpt_load_fix.Prelude.Tests.{Eq, ◌==◌}

abbrev pub Text : Type 0
Text = List ℕ

-- A literal: the bytes of an ASCII text.
abbrev pub bytes : String → Text
bytes String.[] = []
bytes (String.◌∷◌ c s) = code c ∷ bytes s

abbrev pub eq_text : Text → Text → Bool
eq_text [] [] = true
eq_text [] (y ∷ ys) = false
eq_text (x ∷ xs) [] = false
eq_text (x ∷ xs) (y ∷ ys) = (x == y) && eq_text xs ys

pub eq_text_iff : (xs ys : Text) → (eq_text xs ys ≡ true) ↔ (xs ≡ ys)
eq_text_iff [] [] = ground arith
eq_text_iff [] (y ∷ ys) = ground arith
eq_text_iff (x ∷ xs) [] = ground arith
eq_text_iff (x ∷ xs) (y ∷ ys) = ground (arith, eq_text_iff xs ys)

instance abbrev pub text_eq : Eq Text
text_eq = record { beq = eq_text; beq_iff = eq_text_iff }

-- strings.HasPrefix and strings.Contains
unfoldable pub has_prefix : Text → Text → Bool
has_prefix s [] = true
has_prefix [] (p ∷ ps) = false
has_prefix (c ∷ s) (p ∷ ps) = (c == p) && has_prefix s ps

unfoldable pub contains : Text → Text → Bool
unfolding has_prefix
contains [] sub = has_prefix [] sub
contains (c ∷ s) sub = has_prefix (c ∷ s) sub || contains s sub

pub has_prefix-append : (sub rest : Text) → has_prefix (sub ++ rest) sub ≡ true
unfolding has_prefix
has_prefix-append [] rest = ground arith
has_prefix-append (c ∷ sub) rest = ground (arith, has_prefix-append sub rest)

pub has_prefix→contains : (s sub : Text) → has_prefix s sub ≡ true → contains s sub ≡ true
unfolding contains
has_prefix→contains [] sub h = h
has_prefix→contains (c ∷ s) sub h = ground arith

-- A text contains what stands anywhere in it.
pub contains-append : (pre sub post : Text) → contains (pre ++ sub ++ post) sub ≡ true
unfolding contains
contains-append [] sub post = has_prefix→contains (sub ++ post) sub (has_prefix-append sub post)
contains-append (c ∷ pre) sub post = ground (arith, contains-append pre sub post)

has_prefix_drop : (s : Text) (c : ℕ) (p : Text) → has_prefix s (c ∷ p) ≡ true → contains s p ≡ true
unfolding has_prefix contains
has_prefix_drop [] c p h = absurd (cc)
has_prefix_drop (x ∷ s) c p h = ground (arith, h, has_prefix→contains s p)

contains_drop : (s : Text) (c : ℕ) (p : Text) → contains s (c ∷ p) ≡ true → contains s p ≡ true
unfolding contains
contains_drop [] c p h = has_prefix_drop [] c p h
contains_drop (x ∷ s) c p h = ground (arith, h, has_prefix_drop (x ∷ s) c p, contains_drop s c p)

-- A text that contains another contains its end.
pub contains_end : (s pre p : Text) → contains s (pre ++ p) ≡ true → contains s p ≡ true
contains_end s [] p h = h
contains_end s (c ∷ pre) p h = contains_end s pre p (contains_drop s c (pre ++ p) h)
