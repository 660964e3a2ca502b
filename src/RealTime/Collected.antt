-- ===== src/RealTime/Collected.antt =====
-- pkg/data/realtimecomputation/rule.go: the keys that `getKeysByRuleID` collects; and what does not
-- depend on the order in which a map or a set is visited.
use mathlib.Core.List.{Permᴰ}
use harns.Prelude.{
  ℕ, ◌+◌, ◌≡◌, refl, sym, ◌∙◌, inl, inr, arith, Bool, true, false, ◌||◌, Bool-cases, List, [], ◌∷◌,
  if◌then◌else◌,
}
use harns.Prelude.Bytes.{eq_bytes, eq_bytes→eq}
use harns.Prelude.Dict.{Dict, has_key}
use harns.Generic.Sets.{member, occurrences_of, passing}
use harns.RealTime.{Expression}
use harns.RealTime.Rules.{insert_key, expressions_at, mentions, get_keys_by_rule_id}
use harns.RealTime.Keys.{IsDistinct}

member-insert_key :
    (k q : List ℕ) (ks : List (List ℕ)) → member q (insert_key k ks) ≡ (eq_bytes k q || member q ks)
unfolding insert_key
member-insert_key k q ks = elim (Bool-cases (member k ks)) [
  | inl h ↦ elim (Bool-cases (eq_bytes k q)) [
    | inl e ↦
        let there : member q ks ≡ true = rw (sym (eq_bytes→eq k q e)) h in rw (h, e, there) refl
    | inr e ↦ rw (h, e) refl
  ]
  | inr h ↦ rw h refl
]

pub occurrences_of-absent :
    (k : List ℕ) (ks : List (List ℕ)) → member k ks ≡ false → occurrences_of k ks ≡ 0
unfolding occurrences_of
occurrences_of-absent k [] h = refl
occurrences_of-absent k (x ∷ xs) h = elim (Bool-cases (eq_bytes x k)) [
  | inl q ↦ let no_way : true ≡ false = rw q at h in absurd (ground arith)
  | inr q ↦ rw q (omega (arith, occurrences_of-absent k xs (rw q at h)))
]

IsDistinct-insert_key :
    (k : List ℕ) (ks : List (List ℕ)) → IsDistinct ks → IsDistinct (insert_key k ks)
unfolding insert_key occurrences_of
IsDistinct-insert_key k ks d q = elim (Bool-cases (member k ks)) [
  | inl h ↦ rw h (d q)
  | inr h ↦ rw h (elim (Bool-cases (eq_bytes k q)) [
    | inl e ↦
        let out : member q ks ≡ false = rw (sym (eq_bytes→eq k q e)) h in
        rw e (omega (arith, occurrences_of-absent q ks out))
    | inr e ↦ rw e (omega (arith, d q))
  ])
]

pub occurrences_of-Permᴰ :
    {xs ys : List (List ℕ)} (k : List ℕ) → Permᴰ xs ys → occurrences_of k xs ≡ occurrences_of k ys
unfolding occurrences_of
occurrences_of-Permᴰ k Permᴰ.nil = refl
occurrences_of-Permᴰ k (Permᴰ.cons e p) = rw (e, occurrences_of-Permᴰ k p) refl
occurrences_of-Permᴰ k (Permᴰ.swap e e') = rw (e, e') (omega arith)
occurrences_of-Permᴰ k (Permᴰ.trans p q) = occurrences_of-Permᴰ k p ∙ occurrences_of-Permᴰ k q

pub member-Permᴰ : {xs ys : List (List ℕ)} (k : List ℕ) → Permᴰ xs ys → member k xs ≡ member k ys
member-Permᴰ k Permᴰ.nil = refl
member-Permᴰ k (Permᴰ.cons e p) = rw (e, member-Permᴰ k p) refl
member-Permᴰ k (Permᴰ.swap e e') = rw (e, e') (ground arith)
member-Permᴰ k (Permᴰ.trans p q) = member-Permᴰ k p ∙ member-Permᴰ k q

pub passing-Permᴰ :
    {xs ys : List (List ℕ × ℕ)} (t : List ℕ → ℕ → Bool) → Permᴰ xs ys → passing t xs ≡ passing t ys
unfolding passing
passing-Permᴰ t Permᴰ.nil = refl
passing-Permᴰ t (Permᴰ.cons e p) = rw (e, passing-Permᴰ t p) refl
passing-Permᴰ t (Permᴰ.swap e e') = rw (e, e') (omega arith)
passing-Permᴰ t (Permᴰ.trans p q) = passing-Permᴰ t p ∙ passing-Permᴰ t q

module _ {E : Type 0} (id : List ℕ) where
  pub get_keys_by_rule_id-IsDistinct :
      (rules : Dict (List (Expression E))) → IsDistinct (get_keys_by_rule_id id rules)
  unfolding get_keys_by_rule_id occurrences_of
  get_keys_by_rule_id-IsDistinct [] = λ q. omega arith
  get_keys_by_rule_id-IsDistinct (entry ∷ rules) = elim (Bool-cases (mentions id entry.1)) [
    | inl h ↦ rw h (IsDistinct-insert_key entry.0 _ (get_keys_by_rule_id-IsDistinct rules))
    | inr h ↦ rw h (get_keys_by_rule_id-IsDistinct rules)
  ]

  -- Every key that is collected is there.
  pub get_keys_by_rule_id-has_key :
      (rules : Dict (List (Expression E))) (q : List ℕ)
      → member q (get_keys_by_rule_id id rules) ≡ true
      → has_key rules q ≡ true
  unfolding get_keys_by_rule_id
  get_keys_by_rule_id-has_key [] q h = ground arith
  get_keys_by_rule_id-has_key (entry ∷ rules) q h =
      let ih = get_keys_by_rule_id-has_key rules q in
      elim (Bool-cases (mentions id entry.1)) [
        | inl m ↦
            let h' : (eq_bytes entry.0 q || member q (get_keys_by_rule_id id rules)) ≡ true =
              sym (member-insert_key entry.0 q _) ∙ (rw m at h) in
            ground arith
        | inr m ↦ let h' = rw m at h in ground (arith, ih h')
      ]

  -- A key that is not collected has no expression of the rule.
  pub mentions-collected :
      (rules : Dict (List (Expression E))) (q : List ℕ)
      → member q (get_keys_by_rule_id id rules) ≡ false
      → mentions id (expressions_at rules q) ≡ false
  unfolding get_keys_by_rule_id expressions_at mentions
  mentions-collected [] q h = refl
  mentions-collected (entry ∷ rules) q h = elim (Bool-cases (mentions id entry.1)) [
    | inl m ↦
        let h' : (eq_bytes entry.0 q || member q (get_keys_by_rule_id id rules)) ≡ false =
          sym (member-insert_key entry.0 q _) ∙ (rw m at h) in
        let miss : eq_bytes entry.0 q ≡ false = ground arith in
        rw (expressions_at, miss) (mentions-collected rules q (rw miss at h'))
    | inr m ↦ elim (Bool-cases (eq_bytes entry.0 q)) [
      | inl e ↦ rw (expressions_at, e) m
      | inr e ↦ rw (expressions_at, e) (mentions-collected rules q (rw m at h))
    ]
  ]

-- A list that has a key once if `b` and not at all otherwise.
pub member_of-occurrences :
    (k : List ℕ) (ks : List (List ℕ)) (b : Bool)
    → occurrences_of k ks ≡ (if b then 1 else 0)
    → member k ks ≡ b
unfolding occurrences_of
member_of-occurrences k [] true h = absurd (omega arith)
member_of-occurrences k [] false h = refl
member_of-occurrences k (x ∷ xs) b h = elim (Bool-cases (eq_bytes x k)) [
  | inl q ↦
      let one : 1 + occurrences_of k xs ≡ (if b then 1 else 0) = rw q at h in
      rw q (ground (arith, one))
  | inr q ↦
      let rest : 0 + occurrences_of k xs ≡ (if b then 1 else 0) = rw q at h in
      rw q (member_of-occurrences k xs b (omega (arith, rest)))
]

pub IsDistinct-of_count :
    (ks : List (List ℕ)) (b : List ℕ → Bool)
    → ((k : List ℕ) → occurrences_of k ks ≡ (if b k then 1 else 0))
    → IsDistinct ks
IsDistinct-of_count ks b h k = let one = h k in ground arith
