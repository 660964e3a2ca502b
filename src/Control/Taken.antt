-- ===== src/Control/Taken.antt =====
-- pkg/control/command/manager.go: the loop of `createCommandType` over the options of the request.
use mathlib.Core.List.{Memᴰ}
use harns.Prelude.{
  ℕ, ◌+◌, ◌≤◌, ◌≡◌, refl, sym, ◌∙◌, arith, true, false, ◌||◌, ◌⊎◌, inl, inr, Bool-cases, Option,
  List, [], ◌∷◌, ◌++◌, map,
}
use harns.Prelude.Bytes.{eq_bytes_self}
use harns.Prelude.Dict.{has_key}
use harns.Generic.Sets.{occurrences_of}
use harns.Control.{CommandOption, CommandType}
use harns.Control.Create.{
  command_option_exists, NewCommandType, CreateEnv, has_option, new_option, add_options,
  blank_command_type,
}
use harns.Control.Names.{
  option_names, occurrences_of-snoc_names, IsNamed, IsNamed-with_option, with_option,
  add_options-IsNamed, blank-IsNamed,
}
use harns.RealTime.Keys.{IsDistinct, member-occurrences}

module _ {F C : Type 0} where
  -- An option of the request whose name the parent or another option has, as the error says.
  abbrev pub IsTaken :
      Option (CommandType F C) → List (CommandOption F C) → CommandType F C → Type 0
  IsTaken pct os ct =
      (o : CommandOption F C) × Memᴰ o os
      × (add_options pct os ct ≡ inl (command_option_exists o.name))
      × ((has_option pct o.name ≡ true)
          ⊎ (2
              ≤ occurrences_of o.name (option_names ct.options)
                + occurrences_of o.name (option_names os)))

  moved :
      (k : List ℕ) (o : CommandOption F C) (os : List (CommandOption F C)) (ct : CommandType F C)
      → 2
        ≤ occurrences_of k (option_names (ct.options ++ new_option o ∷ []))
          + occurrences_of k (option_names os)
      → 2 ≤ occurrences_of k (option_names ct.options) + occurrences_of k (option_names (o ∷ os))
  unfolding occurrences_of new_option
  moved k o os ct h = omega (arith, h, occurrences_of-snoc_names k ct.options (new_option o))

  add_options-cases :
      (pct : Option (CommandType F C)) (os : List (CommandOption F C)) (ct : CommandType F C)
      → IsNamed ct
      → IsTaken pct os ct ⊎ ((after : CommandType F C) × (add_options pct os ct ≡ inr after))
  unfolding add_options
  add_options-cases pct [] ct is = inr (ct, refl)
  add_options-cases pct (o ∷ os) ct is = elim (Bool-cases (has_option pct o.name)) [
    | inl p ↦ inl (o, Memᴰ.head refl, rw (add_options, p) refl, inl p)
    | inr p ↦ elim (Bool-cases (has_key ct.option_by_name o.name)) [
      | inl k ↦
          let here = member-occurrences o.name (option_names ct.options) (sym (is.0 o.name) ∙ k) in
          let self : occurrences_of o.name (option_names (o ∷ os))
              ≡ 1 + occurrences_of o.name (option_names os) =
            unfold occurrences_of in rw (eq_bytes_self o.name) refl in
          inl (o, Memᴰ.head refl, rw (add_options, p, k) refl, inr (omega (arith, here, self)))
      | inr k ↦
          let q : (has_option pct o.name || has_key ct.option_by_name o.name) ≡ false =
            ground (arith, p, k) in
          elim (add_options-cases pct os (with_option ct o) (IsNamed-with_option ct o is k)) [
            | inr (after, run) ↦ inr (after, rw (add_options, q) run)
            | inl (x, m, run, why) ↦ inl (
              x,
              Memᴰ.tail m,
              rw (add_options, q) run,
              elim why [ inl w ↦ inl w | inr n ↦ inr (moved x.name o os ct n) ],
            )
          ]
    ]
  ]

  -- The loop over the options of a request ends in one of two ways. Either there is an option whose name the
  -- nearest command type above has, or which the request has twice, and the error names it; or the command
  -- type has the options of the request, as new ones, in their order, with distinct names that the one
  -- above does not have.
  pub add_options-IsDistinct :
      (pct : Option (CommandType F C)) (env : CreateEnv F C) (thing_type_id id : List ℕ)
      (new : NewCommandType F C)
      → IsTaken pct new.options (blank_command_type env thing_type_id id new)
        ⊎ ((rct : CommandType F C) × (add_options pct new.options
                (blank_command_type env thing_type_id id new)
              ≡ inr rct)
            × (rct.options ≡ map new_option new.options)
            × IsDistinct (option_names rct.options)
            × ((o : CommandOption F C) → Memᴰ o new.options → has_option pct o.name ≡ false))
  add_options-IsDistinct pct env thing_type_id id new =
      let blank = blank_command_type env thing_type_id id new in
      let is = blank-IsNamed env thing_type_id id new in
      elim (add_options-cases pct new.options blank is) [
        | inl taken ↦ inl taken
        | inr (rct, run) ↦
            let (named, all, free) = add_options-IsNamed pct new.options blank rct is run in
            inr (rct, run, unfold blank_command_type in all, named.1, free)
      ]
