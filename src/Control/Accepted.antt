-- ===== src/Control/Accepted.antt =====
-- pkg/control/command/deliver.go: the loop over the request ends without a panic, and the required options
-- are filled in.
use mathlib.Core.List.{Memᴰ}
use mathlib.Core.Path.{subst}
use harns.Prelude.{
  ℕ, ◌≤◌, ◌≡◌, ◌≢◌, refl, sym, ap, ◌∙◌, arith, true, false, ◌||◌, ◌⊎◌, inl, inr, Bool-cases,
  Option-cases, some-inj, none-ne-some, none, some, List, [], ◌∷◌, ◌++◌, length, length-append,
  if◌then◌else◌,
}
use harns.Prelude.Bytes.{eq_bytes, eq_bytes→eq}
use harns.Prelude.Dict.{
  Dict, load, has_key, store, load-store, load-has_key, has_key-load, has_key-replace,
}
use harns.Prelude.Outcome.{ok}
use harns.Control.{Value, CommandOption, Floats}
use harns.Control.Values.{DeliverError, is_null, legal_value, legal_options, unknown_names}
use harns.Control.Legal.{fits, legal_value-fits}

pub has_key-store :
    {V : Type 0} (d : Dict V) (k : List ℕ) (v : V) (q : List ℕ)
    → has_key (store d k v) q ≡ (eq_bytes k q || has_key d q)
has_key-store d k v q = elim (Bool-cases (has_key d k)) [
  | inr f ↦ rw f refl
  | inl t ↦ elim (Bool-cases (eq_bytes k q)) [
    | inl e ↦
        let there : has_key d q ≡ true = rw (sym (eq_bytes→eq k q e)) t in
        rw (t, e, has_key-replace) there
    | inr e ↦ rw (t, e, has_key-replace) refl
  ]
]

pub not_there : {V : Type 0} (d : Dict V) (k : List ℕ) → load d k ≡ none → has_key d k ≡ false
not_there d k l = elim (Bool-cases (has_key d k)) [
  | inl h ↦ let (v, l') = has_key-load d k h in absurd (none-ne-some v (sym l ∙ l'))
  | inr h ↦ h
]

pub cons-ne-nil : {A : Type 0} (x : A) (xs : List A) → x ∷ xs ≢ []
cons-ne-nil x xs h = ground arith

pub sum-cases :
    {A B : Type 0} (s : A ⊎ B)
    → ((a : A) × ◌≡◌ {A = A ⊎ B} s (inl a)) ⊎ ((b : B) × ◌≡◌ {A = A ⊎ B} s (inr b))
sum-cases (inl a) = inl (a, refl)
sum-cases (inr b) = inr (b, refl)

module _ {F C : Type 0} (fl : Floats F C) (by_name : Dict (CommandOption F C))
    (request : Dict (Value F C)) where
  -- Every value is what a value of the request under its name is taken as: null for null, and otherwise a
  -- value that fits the option of the name.
  abbrev pub AllFit : Dict (Value F C) → Type 0
  AllFit legal =
      (k : List ℕ) (v : Value F C)
      → load legal k ≡ some v
      → (o : CommandOption F C) × (u : Value F C) × (load by_name k ≡ some o)
        × Memᴰ (k, u) request
        × (legal_value fl k o u ≡ inr v)
        × ((if is_null u then is_null v else fits fl o.datatype o v) ≡ true)

  AllFit-store :
      (legal : Dict (Value F C)) (k : List ℕ) (o : CommandOption F C) (u w : Value F C)
      → AllFit legal
      → load by_name k ≡ some o
      → Memᴰ (k, u) request
      → legal_value fl k o u ≡ inr w
      → AllFit (store legal k w)
  AllFit-store legal k o u w all l m b q v h = elim (Bool-cases (eq_bytes k q)) [
    | inl e ↦
        let same : w ≡ v = some-inj (sym (load-store legal k w q ∙ rw e refl) ∙ h) in
        subst
          (λ (r : List ℕ × Value F C).
            (o' : CommandOption F C) × (u' : Value F C) × (load by_name r.0 ≡ some o')
            × Memᴰ (r.0, u') request
            × (legal_value fl r.0 o' u' ≡ inr r.1)
            × ((if is_null u' then is_null r.1 else fits fl o'.datatype o' r.1) ≡ true))
          (λ i. (eq_bytes→eq k q e i, same i)) (o, u, l, m, b, legal_value-fits fl k o u w b)
    | inr e ↦ all q v (sym (load-store legal k w q ∙ rw e refl) ∙ h)
  ]

  -- A value of the request is not taken for the option of its name.
  abbrev pub HasIllegal : Type 0
  HasIllegal =
      (k : List ℕ) × (u : Value F C) × (o : CommandOption F C) × (e : DeliverError) × Memᴰ (k, u)
        request
      × (load by_name k ≡ some o)
      × (legal_value fl k o u ≡ inl e)

  -- What the loop over the request comes to: errors that are no fewer than before, and more only for a
  -- value that is not taken; and options that fit, which are those from before and all of the request if
  -- there are no errors.
  abbrev pub Loops : Dict (Value F C) → List DeliverError → Dict (Value F C) → Type 0
  Loops obj errs legal =
      (es : List DeliverError) × (final : Dict (Value F C)) × (legal_options fl by_name obj
          (errs, legal)
        ≡ ok (es, final))
      × AllFit final
      × (length errs ≤ length es)
      × ((es ≡ errs) ⊎ HasIllegal)
      × (es ≡ [] → (k : List ℕ) → has_key final k ≡ (has_key legal k || has_key obj k))

  pub legal_options-Loops :
      (obj : Dict (Value F C)) (errs : List DeliverError) (legal : Dict (Value F C))
      → unknown_names by_name obj ≡ []
      → ((e : List ℕ × Value F C) → Memᴰ e obj → Memᴰ e request)
      → AllFit legal
      → Loops obj errs legal
  unfolding legal_options unknown_names
  legal_options-Loops [] errs legal known within all =
      (errs, legal, refl, all, omega arith, inl refl, λ e k. ground arith)
  legal_options-Loops ((q, u) ∷ obj) errs legal known within all =
      elim (Option-cases (load by_name q)) [
        | inl l ↦
            let out : has_key by_name q ≡ false = not_there by_name q l in
            absurd (cons-ne-nil q (unknown_names by_name obj) (rw out at known))
        | inr (o, l) ↦ elim (sum-cases (legal_value fl q o u)) [
          | inl (e, b) ↦
              let there = load-has_key by_name q o l in
              let (es, final, run, fit, grow, _, keys) =
                legal_options-Loops obj (errs ++ e ∷ []) legal (rw there at known)
                  (λ x m. within x (Memᴰ.tail m)) all in
              let more = length-append errs (e ∷ []) in
              (
                es,
                final,
                rw (legal_options, l, b) run,
                fit,
                omega arith,
                inr (q, u, o, e, within (q, u) (Memᴰ.head refl), l, b),
                λ empty k.
                    let none_left : length es ≡ 0 = ap (λ t. length t) empty in
                    absurd (omega (arith, more, grow, none_left)),
              )
          | inr (w, b) ↦
              let there = load-has_key by_name q o l in
              let (es, final, run, fit, grow, why, keys) =
                legal_options-Loops obj errs (store legal q w) (rw there at known)
                  (λ x m. within x (Memᴰ.tail m))
                  (AllFit-store legal q o u w all l (within (q, u) (Memᴰ.head refl)) b) in
              (
                es,
                final,
                rw (legal_options, l, b) run,
                fit,
                grow,
                why,
                λ empty k. keys empty k ∙ rw (has_key-store legal q w k) (ground arith),
              )
        ]
      ]
