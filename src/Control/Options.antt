-- ===== src/Control/Options.antt =====
-- pkg/control/command/deliver.go: the options of a command that is sent.
use mathlib.Core.List.{Memᴰ}
use harns.Prelude.{
  ℕ, ◌≡◌, refl, sym, ap, ◌∙◌, true, false, ◌⊎◌, inl, inr, Option-cases, List-cases, some-inj,
  none-ne-some, some, List, [], ◌∷◌, if◌then◌else◌,
}
use harns.Prelude.Dict.{Dict, load, has_key, load-has_key, has_key-load}
use harns.Prelude.Outcome.{ok}
use harns.Control.{Value, CommandOption, CommandType, Floats}
use harns.Control.Values.{
  DeliverError, legal_value, is_null, is_null_at, missed_names, fill, required_options,
}
use harns.Control.Deliver.{early_errors, options_of}
use harns.Control.Legal.{fits, fits-is_null}
use harns.Control.Accepted.{AllFit, HasIllegal, not_there, cons-ne-nil, legal_options-Loops}
use harns.Control.Refused.{early_errors-none, missed_names-none, IsRefused, early_errors-IsRefused}
use harns.Control.Required.{load-fill, required_options-IsRequired, required_options-has_key}

-- A request has one value for each of its names.
abbrev pub HasOneEach : {F C : Type 0} → Dict (Value F C) → Type 0
HasOneEach obj = (k : List ℕ) (u : Value _ _) → Memᴰ (k, u) obj → load obj k ≡ some u

module _ {F C : Type 0} (fl : Floats F C) (ty : CommandType F C) (obj : Dict (Value F C)) where
  -- What options may be delivered. Each value is what the request has under its name: null for null, and
  -- otherwise converted so that it fits the option of the name; or the request does not have the name, and
  -- the value is the default of a required option, as it stands. No name of the request and no
  -- required option is missing, and where the request has an option without a default, its value is not null.
  abbrev pub IsDelivered : Dict (Value F C) → Type 0
  IsDelivered options =
      ((k : List ℕ) (v : Value F C)
        → load options k ≡ some v
        → ((o : CommandOption F C) × (u : Value F C) × (load ty.option_by_name k ≡ some o)
            × (load obj k ≡ some u)
            × (legal_value fl k o u ≡ inr v)
            × ((if is_null u then is_null v else fits fl o.datatype o v) ≡ true))
          ⊎ ((o : CommandOption F C) × Memᴰ o ty.options
              × (o.required ≡ true)
              × (o.name ≡ k)
              × (has_key obj k ≡ false)
              × (v ≡ o.default_value)))
      × ((k : List ℕ) → has_key obj k ≡ true → has_key options k ≡ true)
      × ((o : CommandOption F C)
          → Memᴰ o ty.options
          → o.required ≡ true
          → has_key options o.name ≡ true)
      × ((o : CommandOption F C)
          → Memᴰ o ty.options
          → is_null o.default_value ≡ true
          → has_key obj o.name ≡ true
          → (v : Value F C) × (load options o.name ≡ some v) × (is_null v ≡ false))

  -- What is taken for an option without a default is not null.
  taken-is_null :
      (legal : Dict (Value F C)) (o : CommandOption F C) (w : Value F C)
      → HasOneEach obj
      → AllFit fl ty.option_by_name obj legal
      → load legal o.name ≡ some w
      → is_null_at (load obj o.name) ≡ false
      → is_null w ≡ false
  taken-is_null legal o w one all l there =
      let (o', u, _, m, _, fit) = all o.name w l in
      let q : is_null u ≡ false = rw (one o.name u m) at there in
      fits-is_null fl o'.datatype o' w (rw q at fit)

  fill-IsDelivered :
      (legal : Dict (Value F C))
      → HasOneEach obj
      → missed_names ty.options obj ≡ []
      → AllFit fl ty.option_by_name obj legal
      → ((k : List ℕ) → has_key legal k ≡ has_key obj k)
      → IsDelivered (fill (required_options ty.options []) legal)
  fill-IsDelivered legal one missed all keys =
      let required = required_options ty.options [] in
      let is_required =
        required_options-IsRequired ty.options ty.options [] (λ o m. m)
          (λ k o h. absurd (none-ne-some o h)) in
      (
        λ k v h.
            let h' = sym (load-fill required legal k) ∙ h in
            elim (Option-cases (load legal k)) [
              | inr (w, l) ↦
                  let same : w ≡ v = some-inj (rw l at h') in
                  let (o, u, b, m, q, fit) = all k v (l ∙ ap some same) in
                  inl (o, u, b, one k u m, q, fit)
              | inl l ↦ elim (Option-cases (load required k)) [
                | inr (o, r) ↦
                    let same : o.default_value ≡ v = some-inj (rw (l, r) at h') in
                    let (m, q, n) = is_required k o r in
                    inr (o, m, q, n, sym (keys k) ∙ not_there legal k l, sym same)
                | inl r ↦ absurd (none-ne-some v (rw (l, r) at h'))
              ]
            ],
        λ k h.
            let (w, l) = has_key-load legal k (keys k ∙ h) in
            load-has_key (fill required legal) k w (load-fill required legal k ∙ rw l refl),
        λ o m q.
            let (d, r) =
              has_key-load required o.name (required_options-has_key ty.options [] o m q) in
            elim (Option-cases (load legal o.name)) [
              | inr (w, l) ↦
                  load-has_key (fill required legal) o.name w
                    (load-fill required legal o.name ∙ rw l refl)
              | inl l ↦
                  load-has_key (fill required legal) o.name d.default_value
                    (load-fill required legal o.name ∙ rw (l, r) refl)
            ],
        λ o m d h.
            let (w, l) = has_key-load legal o.name (keys o.name ∙ h) in
            (
              w,
              load-fill required legal o.name ∙ rw l refl,
              taken-is_null legal o w one all l (missed_names-none ty.options obj o missed m d),
            ),
      )

  -- The options of a request: an error at least, for one of the reasons; or options as they may be delivered.
  pub options_of-cases :
      HasOneEach obj
      → ((e : DeliverError) × (es : List DeliverError) × (options_of fl ty obj ≡ ok (inl (e ∷ es)))
          × IsRefused fl ty obj)
        ⊎ ((options : Dict (Value F C)) × (options_of fl ty obj ≡ ok (inr options))
            × IsDelivered options)
  unfolding options_of
  options_of-cases one = elim (List-cases (early_errors ty obj)) [
    | inr (e, es, early) ↦
        inl (e, es, rw (options_of, early) refl, early_errors-IsRefused fl ty obj e es early)
    | inl early ↦
        let (known, missed) = early_errors-none ty obj early in
        let (es, final, run, fit, _, why, keys) =
          legal_options-Loops fl ty.option_by_name obj obj [] [] known (λ e m. m)
            (λ k v h. absurd (none-ne-some v h)) in
        elim (List-cases es) [
          | inr (e, rest, some_left) ↦
              let illegal : HasIllegal fl ty.option_by_name obj = elim why [
                | inl none_left ↦ absurd (cons-ne-nil e rest (sym some_left ∙ none_left))
                | inr it ↦ it
              ] in
              inl (e, rest, rw (options_of, early, run, some_left) refl, inr (inr illegal))
          | inl clean ↦ inr (
            fill (required_options ty.options []) final,
            rw (options_of, early, run, clean) refl,
            fill-IsDelivered final one missed fit (keys clean),
          )
        ]
  ]
