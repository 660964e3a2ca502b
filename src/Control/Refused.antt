-- ===== src/Control/Refused.antt =====
-- pkg/control/command/deliver.go: the errors of `deliverCommand` before the values are looked at, and why a
-- request is refused.
use mathlib.Core.List.{Memᴰ}
use harns.Prelude.{
  ℕ, ◌≡◌, refl, sym, ap, ◌∙◌, arith, true, false, ◌&&◌, ◌⊎◌, inl, inr, Bool-cases, List, [], ◌∷◌,
  ◌++◌,
}
use harns.Prelude.Bytes.{eq_bytes_self}
use harns.Prelude.Dict.{Dict, load, has_key}
use harns.Control.{Value, CommandOption, CommandType, Floats}
use harns.Control.Values.{
  DeliverError, command_option_not_found, command_option_value_missed, is_null, is_null_at,
  unknown_names, missed_names,
}
use harns.Control.Deliver.{early_errors, reported}
use harns.Control.Accepted.{HasIllegal, cons-ne-nil}

reported-none :
    (error : List (List ℕ) → DeliverError) (ns : List (List ℕ)) → reported error ns ≡ [] → ns ≡ []
reported-none error [] h = refl
reported-none error (n ∷ ns) h = absurd (ground arith)

append-none : {A : Type 0} (xs ys : List A) → xs ++ ys ≡ [] → (xs ≡ []) × (ys ≡ [])
append-none [] ys h = (refl, h)
append-none (x ∷ xs) ys h = absurd (ground arith)

pub early_errors-none :
    {F C : Type 0} (ty : CommandType F C) (obj : Dict (Value F C))
    → early_errors ty obj ≡ []
    → (unknown_names ty.option_by_name obj ≡ []) × (missed_names ty.options obj ≡ [])
unfolding early_errors
early_errors-none ty obj h =
    let (a, b) = append-none _ _ h in
    (
      reported-none command_option_not_found (unknown_names ty.option_by_name obj) a,
      reported-none command_option_value_missed (missed_names ty.options obj) b,
    )

pub missed_names-none :
    {F C : Type 0} (os : List (CommandOption F C)) (obj : Dict (Value F C)) (o : CommandOption F C)
    → missed_names os obj ≡ []
    → Memᴰ o os
    → is_null o.default_value ≡ true
    → is_null_at (load obj o.name) ≡ false
unfolding missed_names
missed_names-none [] obj o h m d = elim m [ ]
missed_names-none (x ∷ os) obj o h m d =
    elim (Bool-cases (is_null x.default_value && is_null_at (load obj x.name))) [
      | inl q ↦ absurd (cons-ne-nil x.name (missed_names os obj) (rw q at h))
      | inr q ↦ elim m [
        | Memᴰ.head e ↦
            let d' : is_null x.default_value ≡ true =
              ap (λ (y : CommandOption _ _). is_null y.default_value) (sym e) ∙ d in
            let n : o.name ≡ x.name = ap (λ (y : CommandOption _ _). y.name) e in rw n (rw d' at q)
        | Memᴰ.tail t ↦ missed_names-none os obj o (rw q at h) t d
      ]
    ]

-- A request has only names of options, or has another.
unknown_names-cases :
    {F C : Type 0} (by_name : Dict (CommandOption F C)) (obj : Dict (Value F C))
    → (unknown_names by_name obj ≡ [])
      ⊎ ((k : List ℕ) × (has_key obj k ≡ true) × (has_key by_name k ≡ false))
unfolding unknown_names
unknown_names-cases by_name [] = inl refl
unknown_names-cases by_name ((k, v) ∷ obj) = elim (Bool-cases (has_key by_name k)) [
  | inr q ↦ inr (k, rw (eq_bytes_self k) refl, q)
  | inl q ↦ elim (unknown_names-cases by_name obj) [
    | inl e ↦ inl (rw (q, e) refl)
    | inr (n, h, out) ↦ inr (n, rw h (ground arith), out)
  ]
]

-- A request gives each option without a default a value, or has null for one.
missed_names-cases :
    {F C : Type 0} (os : List (CommandOption F C)) (obj : Dict (Value F C))
    → (missed_names os obj ≡ [])
      ⊎ ((o : CommandOption F C) × Memᴰ o os
          × (is_null o.default_value ≡ true)
          × (is_null_at (load obj o.name) ≡ true))
unfolding missed_names
missed_names-cases [] obj = inl refl
missed_names-cases (x ∷ os) obj = elim (Bool-cases (is_null x.default_value)) [
  | inl d ↦ elim (Bool-cases (is_null_at (load obj x.name))) [
    | inl n ↦ inr (x, Memᴰ.head refl, d, n)
    | inr n ↦ elim (missed_names-cases os obj) [
      | inl e ↦ inl (rw (d, n, e) refl)
      | inr (o, m, d', n') ↦ inr (o, Memᴰ.tail m, d', n')
    ]
  ]
  | inr d ↦ elim (missed_names-cases os obj) [
    | inl e ↦ inl (rw (d, e) refl)
    | inr (o, m, d', n') ↦ inr (o, Memᴰ.tail m, d', n')
  ]
]

module _ {F C : Type 0} (fl : Floats F C) (ty : CommandType F C) (obj : Dict (Value F C)) where
  -- A request that is refused: it has a name that is no option, or null for an option without a default,
  -- or a value that is not taken for the option of its name.
  abbrev pub IsRefused : Type 0
  IsRefused =
      ((k : List ℕ) × (has_key obj k ≡ true) × (has_key ty.option_by_name k ≡ false))
      ⊎ (((o : CommandOption F C) × Memᴰ o ty.options
            × (is_null o.default_value ≡ true)
            × (is_null_at (load obj o.name) ≡ true))
          ⊎ HasIllegal fl ty.option_by_name obj)

  pub early_errors-IsRefused :
      (e : DeliverError) (es : List DeliverError) → early_errors ty obj ≡ e ∷ es → IsRefused
  unfolding early_errors
  early_errors-IsRefused e es h = elim (unknown_names-cases ty.option_by_name obj) [
    | inr unknown ↦ inl unknown
    | inl u ↦ elim (missed_names-cases ty.options obj) [
      | inr missed ↦ inr (inl missed)
      | inl m ↦
          let clean : early_errors ty obj ≡ [] = rw (early_errors, u, m) refl in
          absurd (cons-ne-nil e es (sym h ∙ clean))
    ]
  ]
