-- ===== src/Common/Dict/Lex.antt =====
-- The order of `std::string`: byte by byte, a prefix first.
use s3client.Common.Tests.{Bytes, ltb, if◌then◌else◌}
use mathlib.Core.Path.{◌≡◌, refl}
use mathlib.Core.Bool.{Bool, true, false}
use mathlib.Core.List.{[], ◌∷◌}
use native.Mathlib.Omega.{arith}

unfoldable pub lex_lt : Bytes → Bytes → Bool
lex_lt xs [] = false
lex_lt [] (y ∷ ys) = true
lex_lt (x ∷ xs) (y ∷ ys) = if ltb x y then true else if ltb y x then false else lex_lt xs ys

pub lex_lt_irrefl : (xs : Bytes) → lex_lt xs xs ≡ false
unfolding lex_lt
lex_lt_irrefl [] = refl
lex_lt_irrefl (x ∷ xs) = ground (arith, lex_lt_irrefl xs)

pub lex_lt_trans :
    (xs ys zs : Bytes) → lex_lt xs ys ≡ true → lex_lt ys zs ≡ true → lex_lt xs zs ≡ true
unfolding lex_lt
lex_lt_trans xs ys [] h k = k
lex_lt_trans xs [] (z ∷ zs) h k = cc
lex_lt_trans [] (y ∷ ys) (z ∷ zs) h k = refl
lex_lt_trans (x ∷ xs) (y ∷ ys) (z ∷ zs) h k = ground (arith, lex_lt_trans xs ys zs)

-- Two texts of which neither is before the other are the same.
pub lex_lt-tri : (xs ys : Bytes) → lex_lt xs ys ≡ false → lex_lt ys xs ≡ false → xs ≡ ys
unfolding lex_lt
lex_lt-tri [] [] h k = refl
lex_lt-tri [] (y ∷ ys) h k = cc
lex_lt-tri (x ∷ xs) [] h k = cc
lex_lt-tri (x ∷ xs) (y ∷ ys) h k = ground (arith, lex_lt-tri xs ys)

pub lex_lt-asymm : (xs ys : Bytes) → lex_lt xs ys ≡ true → lex_lt ys xs ≡ false
unfolding lex_lt
lex_lt-asymm xs [] h = cc
lex_lt-asymm [] (y ∷ ys) h = refl
lex_lt-asymm (x ∷ xs) (y ∷ ys) h = ground (arith, lex_lt-asymm xs ys)
