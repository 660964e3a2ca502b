-- ===== src/Generic/Sets.antt =====
-- The differences and the intersection of pkg/generic/utils.go as sets.
use harns.Prelude.{
  ℕ, ◌+◌, ◌≡◌, refl, sym, ap, ◌∙◌, arith, Bool, true, false, not, Bool-cases, inl, inr, List, [],
  ◌∷◌, ◌++◌, ◌&&◌, ◌||◌, ◌==◌, bit_and, bit_or, if◌then◌else◌,
}
use harns.Prelude.Bits.{bit, bit-bit_or, bit_and-two_pow}
use harns.Prelude.Bytes.{eq_bytes-sym, eq_bytes, eq_bytes→eq}
use harns.Generic.{
  Split, mark, mark_all, sort_entry, sort_entries, difference_and_intersection_strings,
}

abbrev pub member : List ℕ → List (List ℕ) → Bool
member k [] = false
member k (x ∷ xs) = eq_bytes x k || member k xs

-- How often a text is in a list.
unfoldable pub occurrences_of : List ℕ → List (List ℕ) → ℕ
occurrences_of k [] = 0
occurrences_of k (x ∷ xs) = (if eq_bytes x k then 1 else 0) + occurrences_of k xs

-- How many entries of a map pass a test.
unfoldable pub passing : (List ℕ → ℕ → Bool) → List (List ℕ × ℕ) → ℕ
passing t [] = 0
passing t (e ∷ es) = (if t e.0 e.1 then 1 else 0) + passing t es

-- `m[k]`, with the zero value for a key that is not there.
abbrev value_at : List (List ℕ × ℕ) → List ℕ → ℕ
value_at [] k = 0
value_at (e ∷ es) k = let rest = value_at es k in if eq_bytes e.0 k then e.1 else rest

abbrev has_entry : List (List ℕ × ℕ) → List ℕ → Bool
has_entry [] k = false
has_entry (e ∷ es) k = eq_bytes e.0 k || has_entry es k

data IsUnique : List (List ℕ × ℕ) → Type 0 where
  nil : IsUnique []
  cons :
      {e : List ℕ × ℕ} {es : List (List ℕ × ℕ)}
      → has_entry es e.0 ≡ false
      → IsUnique es
      → IsUnique (e ∷ es)

has_entry-mark :
    (es : List (List ℕ × ℕ)) (k : List ℕ) (b : ℕ) (q : List ℕ)
    → has_entry (mark es k b) q ≡ (eq_bytes k q || has_entry es q)
unfolding mark
has_entry-mark [] k b q = refl
has_entry-mark (e ∷ es) k b q = elim (Bool-cases (eq_bytes e.0 k)) [
  | inl h ↦ rw (h, eq_bytes→eq e.0 k h) (ground arith)
  | inr h ↦ rw h (ground (arith, has_entry-mark es k b q))
]

IsUnique-mark : (es : List (List ℕ × ℕ)) (k : List ℕ) (b : ℕ) → IsUnique es → IsUnique (mark es k b)
unfolding mark
IsUnique-mark [] k b u = cons refl nil
IsUnique-mark (e ∷ es) k b (cons n u) = elim (Bool-cases (eq_bytes e.0 k)) [
  | inl h ↦ rw h (cons n u)
  | inr h ↦
      rw h
        (cons (has_entry-mark es k b e.0 ∙ rw (eq_bytes-sym k e.0, h) n) (IsUnique-mark es k b u))
]

value_at-mark :
    (es : List (List ℕ × ℕ)) (k : List ℕ) (b : ℕ) (q : List ℕ)
    → value_at (mark es k b) q ≡ (if eq_bytes k q then bit_or (value_at es q) b else value_at es q)
unfolding mark
value_at-mark [] k b q = refl
value_at-mark (e ∷ es) k b q = elim (Bool-cases (eq_bytes e.0 k)) [
  | inl h ↦ rw (h, eq_bytes→eq e.0 k h) (ground arith)
  | inr h ↦ rw h (elim (Bool-cases (eq_bytes e.0 q)) [
    | inl g ↦
        let apart : eq_bytes k q ≡ false =
          ap (eq_bytes k) (sym (eq_bytes→eq e.0 q g)) ∙ eq_bytes-sym k e.0 ∙ h in
        rw (g, apart) refl
    | inr g ↦ rw (g, value_at-mark es k b q) refl
  ])
]

-- A map with unique keys has one entry for a key or none.
passing_key :
    (es : List (List ℕ × ℕ)) (k : List ℕ) (t : ℕ → Bool)
    → IsUnique es
    → passing (λ x v. eq_bytes x k && t v) es
      ≡ (if has_entry es k && t (value_at es k) then 1 else 0)
unfolding passing
passing_key [] k t u = refl
passing_key (e ∷ es) k t (cons n u) = elim (Bool-cases (eq_bytes e.0 k)) [
  | inl h ↦
      let absent : has_entry es k ≡ false = ap (has_entry es) (sym (eq_bytes→eq e.0 k h)) ∙ n in
      rw (h, passing_key es k t u, absent) (omega arith)
  | inr h ↦ rw (h, passing_key es k t u) (omega arith)
]

abbrev in_src : ℕ → Bool
in_src v = not (bit_and v 1 == 0)

abbrev in_des : ℕ → Bool
in_des v = not (bit_and v 2 == 0)

in_src-bit_or_one : (v : ℕ) → in_src (bit_or v 1) ≡ (true || in_src v)
unfolding bit
in_src-bit_or_one v = ground (arith, bit_and-two_pow (bit_or v 1) 0, bit-bit_or v 1 0)

in_src-bit_or_two : (v : ℕ) → in_src (bit_or v 2) ≡ (false || in_src v)
unfolding bit
in_src-bit_or_two v =
    ground (arith, bit_and-two_pow (bit_or v 2) 0, bit_and-two_pow v 0, bit-bit_or v 2 0)

in_des-bit_or_one : (v : ℕ) → in_des (bit_or v 1) ≡ (false || in_des v)
unfolding bit
in_des-bit_or_one v =
    ground (arith, bit_and-two_pow (bit_or v 1) 1, bit_and-two_pow v 1, bit-bit_or v 1 1)

in_des-bit_or_two : (v : ℕ) → in_des (bit_or v 2) ≡ (true || in_des v)
unfolding bit
in_des-bit_or_two v = ground (arith, bit_and-two_pow (bit_or v 2) 1, bit-bit_or v 2 1)

-- Marking a list sets the flag at its members and leaves another flag alone.
flag-mark_all :
    (flag : ℕ → Bool) (hit : Bool) (b : ℕ)
    → ((v : ℕ) → flag (bit_or v b) ≡ (hit || flag v))
    → (ks : List (List ℕ)) (m : List (List ℕ × ℕ)) (q : List ℕ)
    → flag (value_at (mark_all m ks b) q) ≡ (hit && member q ks || flag (value_at m q))
unfolding mark_all
flag-mark_all flag true b h [] m q = refl
flag-mark_all flag false b h [] m q = refl
flag-mark_all flag hit b h (k ∷ ks) m q = elim (Bool-cases (eq_bytes k q)) [
  | inl g ↦ rw (flag-mark_all flag hit b h ks (mark m k b) q, value_at-mark, g, h) (ground arith)
  | inr g ↦ rw (flag-mark_all flag hit b h ks (mark m k b) q, value_at-mark, g) (ground arith)
]

has_entry-mark_all :
    (ks : List (List ℕ)) (m : List (List ℕ × ℕ)) (b : ℕ) (q : List ℕ)
    → has_entry (mark_all m ks b) q ≡ (member q ks || has_entry m q)
unfolding mark_all
has_entry-mark_all [] m b q = refl
has_entry-mark_all (k ∷ ks) m b q =
    rw (has_entry-mark_all ks (mark m k b) b q, has_entry-mark) (ground arith)

IsUnique-mark_all :
    (ks : List (List ℕ)) (m : List (List ℕ × ℕ)) (b : ℕ) → IsUnique m → IsUnique (mark_all m ks b)
unfolding mark_all
IsUnique-mark_all [] m b u = u
IsUnique-mark_all (k ∷ ks) m b u = IsUnique-mark_all ks (mark m k b) b (IsUnique-mark m k b u)

occurrences_of-snoc :
    (k : List ℕ) (xs : List (List ℕ)) (x : List ℕ)
    → occurrences_of k (xs ++ x ∷ []) ≡ occurrences_of k xs + (if eq_bytes x k then 1 else 0)
unfolding occurrences_of
occurrences_of-snoc k [] x = omega arith
occurrences_of-snoc k (y ∷ ys) x = omega (arith, occurrences_of-snoc k ys x)

sort_entry-counts :
    (x : List ℕ) (v : ℕ) (s : Split) (k : List ℕ)
    → (occurrences_of k (sort_entry x v s).only_src
        ≡ occurrences_of k s.only_src
          + (if eq_bytes x k && (in_src v && not (in_des v)) then 1 else 0))
      × (occurrences_of k (sort_entry x v s).intersection
          ≡ occurrences_of k s.intersection
            + (if eq_bytes x k && (in_src v && in_des v) then 1 else 0))
      × (occurrences_of k (sort_entry x v s).only_des
          ≡ occurrences_of k s.only_des
            + (if eq_bytes x k && (not (in_src v) && in_des v) then 1 else 0))
unfolding sort_entry
sort_entry-counts x v s k = ground (
  arith,
  occurrences_of-snoc k s.only_src x,
  occurrences_of-snoc k s.intersection x,
  occurrences_of-snoc k s.only_des x,
)

-- What the loop over the entries adds to the three lists.
sort_entries-counts :
    (es : List (List ℕ × ℕ)) (s : Split) (k : List ℕ)
    → (occurrences_of k (sort_entries es s).only_src
        ≡ occurrences_of k s.only_src
          + passing (λ x v. eq_bytes x k && (in_src v && not (in_des v))) es)
      × (occurrences_of k (sort_entries es s).intersection
          ≡ occurrences_of k s.intersection
            + passing (λ x v. eq_bytes x k && (in_src v && in_des v)) es)
      × (occurrences_of k (sort_entries es s).only_des
          ≡ occurrences_of k s.only_des
            + passing (λ x v. eq_bytes x k && (not (in_src v) && in_des v)) es)
unfolding sort_entries passing
sort_entries-counts [] s k = omega arith
sort_entries-counts (e ∷ es) s k =
    let ih = sort_entries-counts es (sort_entry e.0 e.1 s) k in
    let one = sort_entry-counts e.0 e.1 s k in omega (arith, ih, one)

-- Let the order in which the map is visited keep the number of entries that pass any test. Then
-- `DifferenceAndIntersectionStrings` puts every text of the two lists in one of the three results, once:
-- in the first if only `src` has it, in the second if both have it, and in the third if only `des` has
-- it. No other text is in a result.
pub difference_and_intersection_strings_lem :
    (order : List (List ℕ × ℕ) → List (List ℕ × ℕ)) (src des : List (List ℕ)) (k : List ℕ)
    → ((t : List ℕ → ℕ → Bool) (es : List (List ℕ × ℕ)) → passing t (order es) ≡ passing t es)
    → let s = difference_and_intersection_strings order src des in
      (occurrences_of k s.only_src ≡ (if member k src && not (member k des) then 1 else 0))
      × (occurrences_of k s.intersection ≡ (if member k src && member k des then 1 else 0))
      × (occurrences_of k s.only_des ≡ (if not (member k src) && member k des then 1 else 0))
unfolding difference_and_intersection_strings occurrences_of
difference_and_intersection_strings_lem order src des k keeps =
    let m = mark_all (mark_all [] src 1) des 2 in
    let counts =
      sort_entries-counts (order m) (record { only_src = []; intersection = []; only_des = [] })
        k in
    let u = IsUnique-mark_all des (mark_all [] src 1) 2 (IsUnique-mark_all src [] 1 nil) in
    let here = has_entry-mark_all des (mark_all [] src 1) 2 k in
    let here' = has_entry-mark_all src [] 1 k in
    let a = flag-mark_all in_src false 2 in_src-bit_or_two des (mark_all [] src 1) k in
    let a' = flag-mark_all in_src true 1 in_src-bit_or_one src [] k in
    let b = flag-mark_all in_des true 2 in_des-bit_or_two des (mark_all [] src 1) k in
    let b' = flag-mark_all in_des false 1 in_des-bit_or_one src [] k in
    (
      counts.0
          ∙ rw
              (
                keeps,
                passing_key m k (λ v. in_src v && not (in_des v)) u,
                here,
                here',
                a,
                a',
                b,
                b',
              )
              (ground arith),
      counts.1
          ∙ rw (keeps, passing_key m k (λ v. in_src v && in_des v) u, here, here', a, a', b, b')
              (ground arith),
      counts.2
          ∙ rw
              (
                keeps,
                passing_key m k (λ v. not (in_src v) && in_des v) u,
                here,
                here',
                a,
                a',
                b,
                b',
              )
              (ground arith),
    )
