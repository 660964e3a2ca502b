-- ===== src/Prelude/Bytes.antt =====
-- Equality of texts, as lists of bytes.
use mathlib.Core.Path.{◌≡◌, refl}
use mathlib.Core.Bool.{Bool, true, false, ◌&&◌}
use mathlib.Core.List.{List, [], ◌∷◌}
use native.Mathlib.Omega.{arith}
use Prim.Native.Nat.{ℕ}
use harns.Prelude.{◌==◌}

abbrev pub eq_bytes : List ℕ → List ℕ → Bool
eq_bytes [] [] = true
eq_bytes [] (y ∷ ys) = false
eq_bytes (x ∷ xs) [] = false
eq_bytes (x ∷ xs) (y ∷ ys) = x == y && eq_bytes xs ys

pub eq_bytes→eq : (xs ys : List ℕ) → eq_bytes xs ys ≡ true → xs ≡ ys
eq_bytes→eq [] [] h = refl
eq_bytes→eq [] (y ∷ ys) h = ground arith
eq_bytes→eq (x ∷ xs) [] h = ground arith
eq_bytes→eq (x ∷ xs) (y ∷ ys) h =
    let tail : eq_bytes xs ys ≡ true → xs ≡ ys = eq_bytes→eq xs ys in ground arith

pub eq_bytes_self : (xs : List ℕ) → eq_bytes xs xs ≡ true
eq_bytes_self [] = refl
eq_bytes_self (x ∷ xs) = let rest = eq_bytes_self xs in ground arith

pub eq_bytes-sym : (xs ys : List ℕ) → eq_bytes xs ys ≡ eq_bytes ys xs
eq_bytes-sym [] [] = refl
eq_bytes-sym [] (y ∷ ys) = refl
eq_bytes-sym (x ∷ xs) [] = refl
eq_bytes-sym (x ∷ xs) (y ∷ ys) = let tail = eq_bytes-sym xs ys in ground arith
