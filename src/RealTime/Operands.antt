-- ===== src/RealTime/Operands.antt =====
-- `Parse` of pkg/rule/validation/parser.go without the call of the PromQL parser, and the reading of the
-- operands in pkg/data/realtimecomputation/rule.go.
--
-- The regular expression `\x1D(.*?)\x1D` matches from a group separator to the next one, if no line break
-- stands between the two.
use harns.Prelude.{
  ℕ, zero, suc, ◌+◌, ◌-◌, ◌≤◌, map, ◌≡◌, refl, arith, Bool, true, false, ◌&&◌, not, ◌==◌, Option,
  none, some, List, [], ◌∷◌, ◌++◌, length, length-append, if◌then◌else◌,
}
use mathlib.Core.List.{append-nil}
use harns.Prelude.Decimal.{decimal}
use harns.Prelude.Dict.{Dict, load, store}

-- The text up to the next group separator, and what follows that.
unfoldable pub up_to_separator : List ℕ → Option (List ℕ × List ℕ)
up_to_separator [] = none
up_to_separator (c ∷ cs) =
    let rest = up_to_separator cs in
    if c == 29
    then some ([], cs)
    else if c == 10
    then none
    else elim rest [ none ↦ none | some (operand, tail) ↦ some (c ∷ operand, tail) ]

-- `repl`, for operand number `i`
unfoldable pub replacement : ℕ → List ℕ
unfolding decimal
replacement i =
    (if i == 0
      then []
      else (b'i' ∷ b'g' ∷ b'n' ∷ b'o' ∷ b'r' ∷ b'i' ∷ b'n' ∷ b'g' ∷ b'(' ∷ b'o' ∷ b')' ∷ []))
    ++ (b' ' ∷ b'_' ∷ [])
    ++ decimal i

-- `ReplaceAllStringFunc`: the text with the operands replaced, and the operands. The fuel bounds the
-- rounds, each of which reads a byte at least.
unfoldable pub replace_operands : ℕ → ℕ → List ℕ → List ℕ × List (List ℕ)
unfolding up_to_separator replacement
replace_operands zero i s = (s, [])
replace_operands (suc fuel) i [] = ([], [])
replace_operands (suc fuel) i (c ∷ cs) =
    let found = if c == 29 then up_to_separator cs else none in
    elim found [
      | none ↦ let (s, os) = replace_operands fuel i cs in (c ∷ s, os)
      | some (operand, tail) ↦
          let (s, os) = replace_operands fuel (suc i) tail in (replacement i ++ s, operand ∷ os)
    ]

-- `Parse`; `parse_expr` stands for `parser.ParseExpr`.
unfoldable pub parse : {E : Type 0} → (List ℕ → Option E) → List ℕ → Option (E × List (List ℕ))
unfolding replace_operands
parse parse_expr expression =
    let (s, operands) = replace_operands (length expression) 0 expression in
    elim (parse_expr s) [ none ↦ none | some e ↦ some (e, operands) ]

abbrev start_with : ℕ → List (List ℕ) → List (List ℕ)
start_with c [] = (c ∷ []) ∷ []
start_with c (t ∷ ts) = (c ∷ t) ∷ ts

-- `strings.Split(operand, "\x1F")`
unfoldable pub split_units : List ℕ → List (List ℕ)
split_units [] = [] ∷ []
split_units (c ∷ cs) = let rest = split_units cs in if c == 31 then [] ∷ rest else start_with c rest

-- The property set and the property of an operand, if it has two parts.
unfoldable pub parts_of : List ℕ → Option (List ℕ × List ℕ)
unfolding split_units
parts_of operand = elim (split_units operand) [ ps ∷ p ∷ [] ↦ some (ps, p) | _ ↦ none ]

-- One round of the loop that fills `propertiesByPropertySet`.
unfoldable pub add_property : Dict (List (List ℕ)) → List ℕ → List ℕ → Dict (List (List ℕ))
add_property groups ps p = elim (load groups ps) [
  | none ↦ store groups ps (p ∷ [])
  | some properties ↦ store groups ps (properties ++ p ∷ [])
]

-- The loop over the operands; `none` for one that is not legal.
unfoldable pub group : List (List ℕ) → Dict (List (List ℕ)) → Option (Dict (List (List ℕ)))
unfolding parts_of add_property
group [] groups = some groups
group (operand ∷ operands) groups = elim (parts_of operand) [
  | none ↦ none
  | some (ps, p) ↦ group operands (add_property groups ps p)
]

-- An expression as it is written: before each operand a text, and one after the last.
pub record Operand : Type 0 where
  pub before : List ℕ
  pub property_set : List ℕ
  pub property : List ℕ

abbrev pub operand_text : Operand → List ℕ
operand_text o = o.property_set ++ 31 ∷ o.property

unfoldable pub print : List Operand → List ℕ → List ℕ
print [] last = last
print (o ∷ os) last = o.before ++ 29 ∷ (operand_text o ++ 29 ∷ print os last)

-- The same expression with the operands replaced, from number `i` on.
unfoldable pub replaced : ℕ → List Operand → List ℕ → List ℕ
unfolding replacement
replaced i [] last = last
replaced i (o ∷ os) last = o.before ++ (replacement i ++ replaced (suc i) os last)

-- No byte of a text is `c`.
abbrev pub is_without : ℕ → List ℕ → Bool
is_without c [] = true
is_without c (x ∷ xs) = not (x == c) && is_without c xs

abbrev pub is_name : List ℕ → Bool
is_name s = is_without 29 s && (is_without 10 s && is_without 31 s)

pub data IsWritten : List Operand → Type 0 where
  nil : IsWritten []
  cons :
      {o : Operand} {os : List Operand}
      → is_without 29 o.before ≡ true
      → is_name o.property_set ≡ true
      → is_name o.property ≡ true
      → IsWritten os
      → IsWritten (o ∷ os)

up_to_separator-append :
    (s rest : List ℕ)
    → is_without 29 s ≡ true
    → is_without 10 s ≡ true
    → up_to_separator (s ++ 29 ∷ rest) ≡ some (s, rest)
unfolding up_to_separator
up_to_separator-append [] rest g l = refl
up_to_separator-append (c ∷ cs) rest g l =
    let ih = up_to_separator-append cs rest (ground arith) (ground arith) in
    let c29 : (c == 29) ≡ false = ground arith in
    let c10 : (c == 10) ≡ false = ground arith in rw (c29, c10, ih) refl

split_units_name : (s : List ℕ) → is_without 31 s ≡ true → split_units s ≡ s ∷ []
unfolding split_units
split_units_name [] h = refl
split_units_name (c ∷ cs) h =
    let apart : (c == 31) ≡ false = ground arith in
    rw (apart, split_units_name cs (ground arith)) refl

split_units-append :
    (s rest : List ℕ) → is_without 31 s ≡ true → split_units (s ++ 31 ∷ rest) ≡ s ∷ split_units rest
unfolding split_units
split_units-append [] rest h = refl
split_units-append (c ∷ cs) rest h =
    let apart : (c == 31) ≡ false = ground arith in
    rw (apart, split_units-append cs rest (ground arith)) refl

-- An operand that is a property set and a property, both without a unit separator, is read as these.
pub parts_of-operand_text :
    (o : Operand)
    → is_name o.property_set ≡ true
    → is_name o.property ≡ true
    → parts_of (operand_text o) ≡ some (o.property_set, o.property)
unfolding parts_of
parts_of-operand_text o h k =
    rw
      (
        parts_of,
        split_units-append o.property_set o.property (ground arith),
        split_units_name o.property (ground arith),
      )
      refl

replace_operands-plain :
    (s rest : List ℕ) (n i : ℕ)
    → is_without 29 s ≡ true
    → length s ≤ n
    → replace_operands n i (s ++ rest) ≡ (
      s ++ (replace_operands (n - length s) i rest).0,
      (replace_operands (n - length s) i rest).1,
    )
unfolding replace_operands
replace_operands-plain [] rest n i h l = let e : n - 0 ≡ n = omega arith in rw e refl
replace_operands-plain (c ∷ cs) rest zero i h l = absurd (omega arith)
replace_operands-plain (c ∷ cs) rest (suc n) i h l =
    let apart : (c == 29) ≡ false = ground arith in
    let e : suc n - length (c ∷ cs) ≡ n - length cs = omega arith in
    rw (replace_operands, apart, e, replace_operands-plain cs rest n i (ground arith) (omega arith))
      refl

is_without-append :
    (c : ℕ) (xs ys : List ℕ) → is_without c (xs ++ ys) ≡ (is_without c xs && is_without c ys)
is_without-append c [] ys = refl
is_without-append c (x ∷ xs) ys = let rest = is_without-append c xs ys in ground arith

replace_operands-end : (n i : ℕ) → replace_operands n i [] ≡ ([], [])
unfolding replace_operands
replace_operands-end zero i = refl
replace_operands-end (suc n) i = refl

replace_operands-operand :
    (n i : ℕ) (operand rest : List ℕ)
    → is_without 29 operand ≡ true
    → is_without 10 operand ≡ true
    → replace_operands (suc n) i (29 ∷ (operand ++ 29 ∷ rest)) ≡ (
      replacement i ++ (replace_operands n (suc i) rest).0,
      operand ∷ (replace_operands n (suc i) rest).1,
    )
unfolding replace_operands
replace_operands-operand n i operand rest g l =
    rw (replace_operands, up_to_separator-append operand rest g l) refl

-- Reading an expression that is written with operands gives the operands in their order, and the same
-- expression with each of them replaced. The fuel of a round for every byte is enough.
pub replace_operands-print :
    (os : List Operand) (last : List ℕ) (n i : ℕ)
    → IsWritten os
    → is_without 29 last ≡ true
    → length (print os last) ≤ n
    → replace_operands n i (print os last) ≡ (replaced i os last, map operand_text os)
unfolding print replaced
replace_operands-print [] last n i nil l h =
    let e : replace_operands n i (last ++ []) ≡ (last ++ [], []) =
      rw (replace_operands-plain last [] n i l h, replace_operands-end) refl in
    rw (append-nil) at e
replace_operands-print (o ∷ os) last n i (cons b ps p w) l h =
    let rest = operand_text o ++ 29 ∷ print os last in
    let len : length (o.before ++ 29 ∷ rest) ≡ length o.before + suc (length rest) =
      length-append o.before (29 ∷ rest) in
    let len' : length rest ≡ length (operand_text o) + suc (length (print os last)) =
      length-append (operand_text o) (29 ∷ print os last) in
    let left = n - length o.before - 1 in
    let fuel : n - length o.before ≡ suc left = omega arith in
    let without : (c : ℕ)
        → (c == 31) ≡ false
        → is_without c o.property_set ≡ true
        → is_without c o.property ≡ true
        → is_without c (operand_text o) ≡ true =
      λ c q x y. rw (is_without-append c o.property_set (31 ∷ o.property)) (ground arith) in
    rw
      (
        replace_operands-plain o.before (29 ∷ rest) n i b (omega arith),
        fuel,
        replace_operands-operand left i (operand_text o) (print os last)
            (without 29 refl (ground arith) (ground arith))
            (without 10 refl (ground arith) (ground arith)),
        replace_operands-print os last left (suc i) w l (omega arith),
      )
      refl
