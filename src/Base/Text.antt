-- ===== src/Base/Text.antt =====
-- Byte strings: `std::string` as the list of its bytes, with the comparisons of `std::string`.
use Prim.Native.Char.{code}
use Prim.Native.String.{String}
use Prim.Native.Nat.{ℕ}
use mathlib.Core.Path.{◌≡◌, refl}
use mathlib.Core.Bool.{Bool, true, false, ◌&&◌, ◌||◌}
use mathlib.Core.List.{List, [], ◌∷◌, ◌++◌}
use native.Mathlib.Omega.{arith}
use cdnalizerd.Base.Tests.{◌==◌, ltb}

abbrev pub Text : Type 0
Text = List ℕ

-- The code points of a literal: its bytes, as it is ASCII.
abbrev pub codes : String → Text
codes String.[] = []
codes (String.◌∷◌ c s) = code c ∷ codes s

abbrev pub is_empty : Text → Bool
is_empty [] = true
is_empty (_ ∷ _) = false

-- `operator==`
unfoldable pub text_eq : Text → Text → Bool
text_eq [] [] = true
text_eq (x ∷ xs) (y ∷ ys) = (x == y) && text_eq xs ys
text_eq _ _ = false

pub text_eq_refl : (xs : Text) → text_eq xs xs ≡ true
unfolding text_eq
text_eq_refl [] = refl
text_eq_refl (x ∷ xs) = ground (arith, text_eq_refl xs)

pub text_eq→eq : (xs ys : Text) → text_eq xs ys ≡ true → xs ≡ ys
unfolding text_eq
text_eq→eq [] [] h = refl
text_eq→eq [] (y ∷ ys) h = cc
text_eq→eq (x ∷ xs) [] h = cc
text_eq→eq (x ∷ xs) (y ∷ ys) h = ground (arith, text_eq→eq xs ys)

pub eq→text_eq : (xs ys : Text) → xs ≡ ys → text_eq xs ys ≡ true
eq→text_eq xs ys h = ground (arith, text_eq_refl xs)

-- `operator<`: lexicographic by bytes.
unfoldable pub text_lt : Text → Text → Bool
text_lt xs [] = false
text_lt [] (y ∷ ys) = true
text_lt (x ∷ xs) (y ∷ ys) = ltb x y || ((x == y) && text_lt xs ys)

pub text_lt_irrefl : (xs : Text) → text_lt xs xs ≡ false
unfolding text_lt
text_lt_irrefl [] = refl
text_lt_irrefl (x ∷ xs) = ground (arith, text_lt_irrefl xs)

pub text_lt_trans :
    (xs ys zs : Text) → text_lt xs ys ≡ true → text_lt ys zs ≡ true → text_lt xs zs ≡ true
unfolding text_lt
text_lt_trans xs ys [] h k = k
text_lt_trans [] ys (z ∷ zs) h k = refl
text_lt_trans (x ∷ xs) [] (z ∷ zs) h k = cc
text_lt_trans (x ∷ xs) (y ∷ ys) (z ∷ zs) h k = ground (arith, text_lt_trans xs ys zs)

-- Not less in both directions is equality.
pub text_lt-total : (xs ys : Text) → text_lt xs ys ≡ false → text_lt ys xs ≡ false → xs ≡ ys
unfolding text_lt
text_lt-total [] [] h k = refl
text_lt-total [] (y ∷ ys) h k = cc
text_lt-total (x ∷ xs) [] h k = cc
text_lt-total (x ∷ xs) (y ∷ ys) h k = ground (arith, text_lt-total xs ys)

-- `xs ≤ ys`, as the order that a sorted range is in.
abbrev pub TextLe : Text → Text → Type 0
TextLe xs ys = text_lt ys xs ≡ false

pub TextLe-of_lt : (xs ys : Text) → text_lt xs ys ≡ true → TextLe xs ys
unfolding text_lt
TextLe-of_lt [] [] h = refl
TextLe-of_lt [] (y ∷ ys) h = refl
TextLe-of_lt (x ∷ xs) [] h = cc
TextLe-of_lt (x ∷ xs) (y ∷ ys) h = ground (arith, TextLe-of_lt xs ys)

pub TextLe-trans : (xs ys zs : Text) → TextLe xs ys → TextLe ys zs → TextLe xs zs
unfolding text_lt
TextLe-trans [] ys [] h k = refl
TextLe-trans [] ys (z ∷ zs) h k = refl
TextLe-trans (x ∷ xs) [] zs h k = cc
TextLe-trans (x ∷ xs) (y ∷ ys) [] h k = cc
TextLe-trans (x ∷ xs) (y ∷ ys) (z ∷ zs) h k = ground (arith, TextLe-trans xs ys zs)

-- `ys` is `xs` followed by more.
unfoldable pub is_prefix : Text → Text → Bool
is_prefix [] ys = true
is_prefix (x ∷ xs) [] = false
is_prefix (x ∷ xs) (y ∷ ys) = (x == y) && is_prefix xs ys

pub is_prefix-append : (xs ys : Text) → is_prefix xs (xs ++ ys) ≡ true
unfolding is_prefix
is_prefix-append [] ys = refl
is_prefix-append (x ∷ xs) ys = ground (arith, is_prefix-append xs ys)
