-- ===== src/RealTime/Keys.antt =====
-- pkg/data/realtimecomputation/rule.go: the loops over keys, and what they do to the expressions at a key.
use harns.Prelude.{
  ℕ, ◌+◌, ◌≤◌, ◌≡◌, refl, sym, ◌∙◌, inl, inr, arith, Bool, true, false, ◌||◌, not, Bool-cases, none,
  some, List, [], ◌∷◌, if◌then◌else◌,
}
use harns.Prelude.Bytes.{eq_bytes, eq_bytes→eq, eq_bytes_self}
use harns.Prelude.Dict.{Dict, load, has_key, store, delete, load-store, load-delete}
use harns.Prelude.Outcome.{Outcome, ok}
use harns.Generic.Sets.{member, occurrences_of}
use harns.RealTime.{Expression}
use harns.RealTime.Rules.{expressions_at, put_or_delete, for_keys}

-- No key stands twice in a list.
abbrev pub IsDistinct : List (List ℕ) → Type 0
IsDistinct ks = (k : List ℕ) → occurrences_of k ks ≤ 1

pub member-occurrences :
    (k : List ℕ) (ks : List (List ℕ)) → member k ks ≡ true → 1 ≤ occurrences_of k ks
unfolding occurrences_of
member-occurrences k [] h = ground arith
member-occurrences k (x ∷ xs) h = elim (Bool-cases (eq_bytes x k)) [
  | inl q ↦ rw q (omega arith)
  | inr q ↦ let ih = member-occurrences k xs (rw q at h) in omega arith
]

IsDistinct-tail : (k : List ℕ) (ks : List (List ℕ)) → IsDistinct (k ∷ ks) → IsDistinct ks
unfolding occurrences_of
IsDistinct-tail k ks d q = let one = d q in omega arith

IsDistinct-head : (k : List ℕ) (ks : List (List ℕ)) → IsDistinct (k ∷ ks) → member k ks ≡ false
unfolding occurrences_of
IsDistinct-head k ks d = elim (Bool-cases (member k ks)) [
  | inl h ↦
      let one : (if eq_bytes k k then 1 else 0) + occurrences_of k ks ≤ 1 = d k in
      let two : 1 + occurrences_of k ks ≤ 1 = rw (eq_bytes_self k) at one in
      let three = member-occurrences k ks h in absurd (omega arith)
  | inr h ↦ h
]

module _ {E : Type 0} where
  pub expressions_at-store :
      (rules : Dict (List (Expression E))) (k : List ℕ) (exprs : List (Expression E)) (q : List ℕ)
      → expressions_at (store rules k exprs) q
        ≡ (if eq_bytes k q then exprs else expressions_at rules q)
  unfolding expressions_at
  expressions_at-store rules k exprs q = elim (Bool-cases (eq_bytes k q)) [
    | inl h ↦ rw (expressions_at, load-store rules k exprs q, h) refl
    | inr h ↦ rw (expressions_at, load-store rules k exprs q, h) refl
  ]

  expressions_at-delete :
      (rules : Dict (List (Expression E))) (k q : List ℕ)
      → expressions_at (delete rules k) q ≡ (if eq_bytes k q then [] else expressions_at rules q)
  unfolding expressions_at
  expressions_at-delete rules k q = elim (Bool-cases (eq_bytes k q)) [
    | inl h ↦ rw (expressions_at, load-delete rules k q, h) refl
    | inr h ↦ rw (expressions_at, load-delete rules k q, h) refl
  ]

  pub expressions_at-put_or_delete :
      (rules : Dict (List (Expression E))) (k : List ℕ) (exprs : List (Expression E)) (q : List ℕ)
      → expressions_at (put_or_delete rules k exprs) q
        ≡ (if eq_bytes k q then exprs else expressions_at rules q)
  unfolding put_or_delete
  expressions_at-put_or_delete rules k [] q = expressions_at-delete rules k q
  expressions_at-put_or_delete rules k (e ∷ exprs) q = expressions_at-store rules k (e ∷ exprs) q

  pub expressions_at-some :
      (rules : Dict (List (Expression E))) (k : List ℕ) (exprs : List (Expression E))
      → load rules k ≡ some exprs
      → expressions_at rules k ≡ exprs
  unfolding expressions_at
  expressions_at-some rules k exprs l = rw (expressions_at, l) refl

  pub expressions_at-none :
      (rules : Dict (List (Expression E))) (k : List ℕ)
      → load rules k ≡ none
      → expressions_at rules k ≡ []
  unfolding expressions_at
  expressions_at-none rules k l = rw (expressions_at, l) refl

  -- A round at a key changes the expressions there by `f`, and nothing at another key. If it `needs` the
  -- key, that has to be there.
  abbrev pub IsRound :
      Bool
      → (List (Expression E) → List (Expression E))
      → (Dict (List (Expression E)) → List ℕ → Outcome (Dict (List (Expression E))))
      → Type 0
  IsRound needs f step =
      (rules : Dict (List (Expression E))) (k : List ℕ)
      → (not needs || has_key rules k) ≡ true
      → (changed : Dict (List (Expression E))) × (step rules k ≡ ok changed)
        × ((q : List ℕ)
            → expressions_at changed q
              ≡ (if eq_bytes k q then f (expressions_at rules q) else expressions_at rules q))
        × ((q : List ℕ) → eq_bytes k q ≡ false → has_key changed q ≡ has_key rules q)

  -- The rounds of a loop over distinct keys change the expressions at each of the keys by `f`, once.
  pub for_keys-IsRound :
      (needs : Bool) (f : List (Expression E) → List (Expression E))
      (step : Dict (List (Expression E)) → List ℕ → Outcome (Dict (List (Expression E))))
      → IsRound needs f step
      → (ks : List (List ℕ)) (rules : Dict (List (Expression E))) → IsDistinct ks
      → ((k : List ℕ) → member k ks ≡ true → (not needs || has_key rules k) ≡ true)
      → (changed : Dict (List (Expression E))) × (for_keys step ks rules ≡ ok changed)
        × ((q : List ℕ)
            → expressions_at changed q
              ≡ (if member q ks then f (expressions_at rules q) else expressions_at rules q))
        × ((q : List ℕ) → member q ks ≡ false → has_key changed q ≡ has_key rules q)
  unfolding for_keys
  for_keys-IsRound needs f step is [] rules d ready = (rules, refl, λ q. refl, λ q h. refl)
  for_keys-IsRound needs f step is (k ∷ ks) rules d ready =
      let (mid, run, at, keys) = is rules k (ready k (rw (eq_bytes_self k) refl)) in
      let fresh = IsDistinct-head k ks d in
      let apart : (q : List ℕ) → member q ks ≡ true → eq_bytes k q ≡ false = λ q h.
        elim (Bool-cases (eq_bytes k q)) [
          | inl e ↦
              let there : member k ks ≡ true = rw (eq_bytes→eq k q e) h in absurd (ground arith)
          | inr e ↦ e
        ] in
      let ready' : (q : List ℕ) → member q ks ≡ true → (not needs || has_key mid q) ≡ true =
        λ q h. rw (keys q (apart q h)) (ready q (rw (apart q h) h)) in
      let (changed, run', at', keys') =
        for_keys-IsRound needs f step is ks mid (IsDistinct-tail k ks d) ready' in
      (
        changed,
        rw run run',
        λ q. elim (Bool-cases (eq_bytes k q)) [
          | inl e ↦
              let out : member q ks ≡ false = rw (sym (eq_bytes→eq k q e)) fresh in
              at' q ∙ rw (out, e) (at q ∙ rw e refl)
          | inr e ↦ at' q ∙ rw (at q, e) refl
        ],
        λ q h.
            let miss : eq_bytes k q ≡ false = ground arith in keys' q (rw miss at h) ∙ keys q miss,
      )
