-- ===== src/Prelude/Decimal.antt =====
-- Decimal numbers as Go prints and reads them: `strconv.Itoa`, `%0wd`, `strconv.ParseInt(s, 10, 64)`.
-- Text is a list of bytes.
use Prim.Native.Nat.{ℕ, zero, suc, ◌+◌, ◌-◌, ◌*◌, ◌/◌, ◌%◌, ◌^◌, ◌≤◌, ◌<◌}
use mathlib.Core.Path.{◌≡◌, refl, ◌∙◌}
use mathlib.Core.Bool.{◌&&◌}
use mathlib.Core.List.{List, [], ◌∷◌, ◌++◌}
use mathlib.Core.Option.{Option, none, some}
use mathlib.Core.Logic.{inl, inr}
use native.Mathlib.Nat.{pow-suc}
use native.Mathlib.Omega.{arith}
use harns.Prelude.Tests.{ltb, leb, ◌==◌, if◌then◌else◌, Bool-cases, lt→ltb}
use harns.Prelude.Lists.{length, length-append, replicate, length-replicate}
use harns.Prelude.Int.{ℤ, pos, negsuc}

-- The digits of a number, the most significant first; `n < 10 ^ fuel` gives them all.
unfoldable pub digits : ℕ → ℕ → List ℕ
digits zero n = []
digits (suc fuel) n =
    let rest = digits fuel (n / 10) in
    if ltb n 10 then (48 + n) ∷ [] else rest ++ (48 + n % 10) ∷ []

-- `strconv.Itoa` of a number that is not negative.
unfoldable pub decimal : ℕ → List ℕ
unfolding digits
decimal n = digits (suc n) n

-- Zeros up to a width.
unfoldable pub pad : ℕ → List ℕ → List ℕ
pad w s = replicate (w - length s) 48 ++ s

-- `%0wd`: the sign counts for the width.
unfoldable pub print_padded : ℕ → ℤ → List ℕ
unfolding decimal pad
print_padded w (pos n) = pad w (decimal n)
print_padded w (negsuc n) = b'-' ∷ pad (w - 1) (decimal (suc n))

-- The value of a run of digits; `none` for any other byte.
unfoldable pub parse_digits : ℕ → List ℕ → Option ℕ
parse_digits acc [] = some acc
parse_digits acc (c ∷ cs) =
    let rest = parse_digits (acc * 10 + (c - 48)) cs in if leb 48 c && leb c 57 then rest else none

-- An unsigned part: at least one digit, and at most `limit`.
unfoldable pub parse_part : ℕ → List ℕ → Option ℕ
unfolding parse_digits
parse_part limit [] = none
parse_part limit (c ∷ cs) = elim (parse_digits 0 (c ∷ cs)) [
  | none ↦ none
  | some n ↦ if leb n limit then some n else none
]

abbrev pub negate : ℕ → ℤ
negate zero = pos 0
negate (suc n) = negsuc n

-- `strconv.ParseInt(s, 10, 64)`; `none` is an error.
unfoldable pub parse_int : List ℕ → Option ℤ
unfolding parse_part
parse_int [] = none
parse_int (c ∷ cs) =
    if c == b'-'
    then elim (parse_part (2 ^ 63) cs) [ none ↦ none | some n ↦ some (negate n) ]
    else elim (parse_part (2 ^ 63 - 1) (if c == b'+' then cs else c ∷ cs)) [
      | none ↦ none
      | some n ↦ some (pos n)
    ]

-- Reading a run of digits and what follows it.
parse_digits-append :
    (acc : ℕ) (xs ys : List ℕ) (n : ℕ)
    → parse_digits acc xs ≡ some n
    → parse_digits acc (xs ++ ys) ≡ parse_digits n ys
unfolding parse_digits
parse_digits-append acc [] ys n h = ground arith
parse_digits-append acc (x ∷ xs) ys n h =
    ground (arith, parse_digits-append (acc * 10 + (x - 48)) xs ys n)

parse_digits-zeros : (k : ℕ) (s : List ℕ) → parse_digits 0 (replicate k 48 ++ s) ≡ parse_digits 0 s
unfolding parse_digits
parse_digits-zeros zero s = refl
parse_digits-zeros (suc k) s = parse_digits-zeros k s

digit-read : (n : ℕ) → parse_digits (n / 10) ((48 + n % 10) ∷ []) ≡ some n
unfolding parse_digits
digit-read n = ground arith

parse_digits-digits : (fuel n : ℕ) → n < 10 ^ fuel → parse_digits 0 (digits (suc fuel) n) ≡ some n
unfolding digits
parse_digits-digits zero n h = let e : n ≡ 0 = omega arith in rw e (unfold parse_digits in refl)
parse_digits-digits (suc fuel) n h = elim (Bool-cases (ltb n 10)) [
  | inl small ↦ rw small (unfold parse_digits in ground arith)
  | inr large ↦
      let ih = parse_digits-digits fuel (n / 10) (omega (arith, pow-suc 10 fuel)) in
      rw large (
        parse_digits-append 0 (digits (suc fuel) (n / 10)) ((48 + n % 10) ∷ []) (n / 10) ih
        ∙ digit-read n)
]

lt-ten_pow : (n : ℕ) → n < 10 ^ n
lt-ten_pow zero = omega arith
lt-ten_pow (suc n) = omega (arith, lt-ten_pow n, pow-suc 10 n)

pub parse_digits-decimal : (n : ℕ) → parse_digits 0 (decimal n) ≡ some n
unfolding decimal
parse_digits-decimal n = parse_digits-digits n n (lt-ten_pow n)

length-digits :
    (fuel k n : ℕ)
    → n < 10 ^ suc k
    → n < 10 ^ fuel
    → (length (digits (suc fuel) n) ≤ suc k) × (1 ≤ length (digits (suc fuel) n))
unfolding digits
length-digits zero k n h h' = let e : n ≡ 0 = omega arith in rw e (omega arith)
length-digits (suc fuel) zero n h h' = let small = lt→ltb n 10 h in rw small (omega arith)
length-digits (suc fuel) (suc k) n h h' = elim (Bool-cases (ltb n 10)) [
  | inl small ↦ rw small (omega arith)
  | inr large ↦
      rw (large, length-append)
        (omega (
          arith,
          length-digits fuel k (n / 10) (omega (arith, pow-suc 10 (suc k)))
              (omega (arith, pow-suc 10 fuel)),
        ))
]

-- The length of a number below 10 ^ w, printed to the width w.
pub length-pad : (k n : ℕ) → n < 10 ^ suc k → length (pad (suc k) (decimal n)) ≡ suc k
unfolding pad decimal
length-pad k n h =
    rw (length-append, length-replicate) (omega (arith, length-digits n k n h (lt-ten_pow n)))

pub parse_digits-pad : (w n : ℕ) → parse_digits 0 (pad w (decimal n)) ≡ some n
unfolding pad
parse_digits-pad w n =
    parse_digits-zeros (w - length (decimal n)) (decimal n) ∙ parse_digits-decimal n

parse_int-digits :
    (s : List ℕ) (n : ℕ)
    → 0 < length s
    → parse_digits 0 s ≡ some n
    → n < 2 ^ 63
    → parse_int s ≡ some (pos n)
unfolding parse_int parse_digits
parse_int-digits [] n h e fits = elim h [ ]
parse_int-digits (c ∷ cs) n h e fits = ground arith

-- `ParseInt` reads what `%0wd` prints of a number below 10 ^ w that an int64 holds.
pub parse_int-print_padded :
    (k n : ℕ)
    → n < 10 ^ suc k
    → n < 2 ^ 63
    → parse_int (print_padded (suc k) (pos n)) ≡ some (pos n)
unfolding print_padded
parse_int-print_padded k n h fits =
    parse_int-digits (pad (suc k) (decimal n)) n (omega (arith, length-pad k n h))
      (parse_digits-pad (suc k) n) fits
