-- ===== src/Control/Names.antt =====
-- pkg/control/command/manager.go: the names of the options of a command type that is created.
use mathlib.Core.List.{Memᴰ, append-nil, append_assoc}
use mathlib.Core.List.Memᴰ
use mathlib.Core.Path.{subst}
use harns.Prelude.{
  ℕ, ◌+◌, ◌≡◌, refl, sym, ap, ◌∙◌, arith, false, ◌||◌, inl, inr, Bool-cases, Option-cases, Option,
  none, some, List, [], ◌∷◌, ◌++◌, map, if◌then◌else◌,
}
use harns.Prelude.Bytes.{eq_bytes, eq_bytes→eq}
use harns.Prelude.Dict.{Dict, load, has_key, store}
use harns.Generic.Sets.{member, occurrences_of}
use harns.Thing.{ThingType}
use harns.Thing.Types.{get_root_thing_type}
use harns.Control.{CommandOption, CommandType}
use harns.Control.Legal.{inr-inj, inl-ne-inr}
use harns.Control.Accepted.{has_key-store, sum-cases}
use harns.Control.Create.{
  CreateError, NewCommandType, CreateEnv, created, refused, endless, parent_command_type,
  has_option, new_option, add_options, inherit_all, blank_command_type, save_command_type,
  create_command_type, is_base_agent, get_child_thing_type,
}
use harns.RealTime.Keys.{IsDistinct}
use harns.RealTime.Collected.{occurrences_of-absent}

module _ {F C : Type 0} where
  abbrev pub option_names : List (CommandOption F C) → List (List ℕ)
  option_names [] = []
  option_names (o ∷ os) = o.name ∷ option_names os

  member-snoc :
      (k : List ℕ) (os : List (CommandOption F C)) (o : CommandOption F C)
      → member k (option_names (os ++ o ∷ [])) ≡ (eq_bytes o.name k || member k (option_names os))
  member-snoc k [] o = refl
  member-snoc k (x ∷ os) o = let ih = member-snoc k os o in ground (arith, ih)

  pub occurrences_of-snoc_names :
      (k : List ℕ) (os : List (CommandOption F C)) (o : CommandOption F C)
      → occurrences_of k (option_names (os ++ o ∷ []))
        ≡ (if eq_bytes o.name k then 1 else 0) + occurrences_of k (option_names os)
  unfolding occurrences_of
  occurrences_of-snoc_names k [] o = refl
  occurrences_of-snoc_names k (x ∷ os) o = omega (arith, occurrences_of-snoc_names k os o)

  -- The map has the names of the list, and these are distinct.
  abbrev pub IsNamed : CommandType F C → Type 0
  IsNamed ct =
      ((k : List ℕ) → has_key ct.option_by_name k ≡ member k (option_names ct.options))
      × IsDistinct (option_names ct.options)

  abbrev pub with_option : CommandType F C → CommandOption F C → CommandType F C
  with_option ct o = record ct {
    options = ct.options ++ new_option o ∷ [];
    option_by_name = store ct.option_by_name o.name (new_option o);
  }

  pub IsNamed-with_option :
      (ct : CommandType F C) (o : CommandOption F C)
      → IsNamed ct
      → has_key ct.option_by_name o.name ≡ false
      → IsNamed (with_option ct o)
  unfolding new_option
  IsNamed-with_option ct o (named, distinct) fresh = (
    λ k.
        has_key-store ct.option_by_name o.name (new_option o) k
        ∙ rw (named k) (sym (member-snoc k ct.options (new_option o))),
    λ k. elim (Bool-cases (eq_bytes o.name k)) [
      | inl q ↦
          let out : member k (option_names ct.options) ≡ false =
            sym (named k) ∙ rw (sym (eq_bytes→eq o.name k q)) fresh in
          let count = occurrences_of-snoc_names k ct.options (new_option o) in
          rw (count, q) (omega (arith, occurrences_of-absent k (option_names ct.options) out))
      | inr q ↦
          let count = occurrences_of-snoc_names k ct.options (new_option o) in
          rw (count, q) (omega (arith, distinct k))
    ],
  )

  pub add_options-IsNamed :
      (pct : Option (CommandType F C)) (os : List (CommandOption F C)) (ct after : CommandType F C)
      → IsNamed ct
      → add_options pct os ct ≡ inr after
      → IsNamed after
        × (after.options ≡ ct.options ++ map new_option os)
        × ((o : CommandOption F C) → Memᴰ o os → has_option pct o.name ≡ false)
  unfolding add_options
  add_options-IsNamed pct [] ct after is h =
      let same : ct ≡ after = inr-inj h in
      (
        subst (λ (x : CommandType F C). IsNamed x) same is,
        ap (λ (x : CommandType F C). x.options) (sym same) ∙ sym (append-nil ct.options),
        λ o m. elim m [ ],
      )
  add_options-IsNamed pct (o ∷ os) ct after is h =
      elim (Bool-cases (has_option pct o.name || has_key ct.option_by_name o.name)) [
        | inl q ↦ inl-ne-inr (rw q at h)
        | inr q ↦
            let (named, all, free) =
              add_options-IsNamed pct os (with_option ct o) after
                (IsNamed-with_option ct o is (ground arith)) (rw q at h) in
            (
              named,
              all ∙ append_assoc ct.options (new_option o ∷ []) (map new_option os),
              λ x m. elim (Memᴰ.cases_cons m) [
                | inl e ↦ rw (ap (λ (y : CommandOption F C). y.name) e) (ground arith)
                | inr m' ↦ free x m'
              ],
            )
      ]

  created-inj :
      {d d' : Dict (CommandType F C)} {a b : CommandType F C} → created d a ≡ created d' b → a ≡ b
  created-inj h = cc

  refused-ne-created :
      {P : Type 0} {e : CreateError} {d : Dict (CommandType F C)} {a : CommandType F C}
      → refused e ≡ created d a
      → P
  refused-ne-created h = ground arith

  endless-ne-created :
      {P : Type 0} {d : Dict (CommandType F C)} {a : CommandType F C} → endless ≡ created d a → P
  endless-ne-created h = ground arith

  -- The store gives back what it is given.
  abbrev pub IsSavingType : CreateEnv F C → Type 0
  IsSavingType env = (x y : CommandType F C) → env.save x ≡ some y → y ≡ x

  save_command_type-saved :
      (fuel : ℕ) (env : CreateEnv F C) (types : Dict ThingType)
      (cmd_types d : Dict (CommandType F C)) (rct saved : CommandType F C)
      → IsSavingType env
      → save_command_type fuel env types cmd_types rct ≡ created d saved
      → saved ≡ rct
  unfolding save_command_type
  save_command_type-saved fuel env types cmd_types d rct saved saving h =
      elim (Option-cases (env.save rct)) [
        | inl s ↦ refused-ne-created (rw (save_command_type, s) at h)
        | inr (x, s) ↦
            elim (Option-cases (get_child_thing_type fuel env.tenant types x.thing_type_id)) [
              | inl c ↦ endless-ne-created (rw (save_command_type, s, c) at h)
              | inr (cs, c) ↦ sym (created-inj (rw (save_command_type, s, c) at h)) ∙ saving rct x s
            ]
      ]

  options-inherit_all :
      (pct : Option (CommandType F C)) (rct : CommandType F C)
      → CommandType.options (inherit_all pct rct) ≡ rct.options
  options-inherit_all none rct = refl
  options-inherit_all (some p) rct = refl

  pub blank-IsNamed :
      (env : CreateEnv F C) (thing_type_id id : List ℕ) (new : NewCommandType F C)
      → IsNamed (blank_command_type env thing_type_id id new)
  unfolding blank_command_type occurrences_of
  blank-IsNamed env thing_type_id id new = (λ k. refl, λ k. omega arith)

  -- A command type that is created has the options of the request, as new ones, in their order. No two of
  -- them have the same name, and none has the name of an option of the nearest command type of that name
  -- above it.
  pub create_command_type-IsDistinct :
      (fuel : ℕ) (env : CreateEnv F C) (types : Dict ThingType)
      (cmd_types d : Dict (CommandType F C)) (thing_type_id : List ℕ) (new : NewCommandType F C)
      (kind : ThingType) (saved : CommandType F C)
      → IsSavingType env
      → load types thing_type_id ≡ some kind
      → create_command_type fuel env types cmd_types thing_type_id new ≡ created d saved
      → (saved.options ≡ map new_option new.options)
        × IsDistinct (option_names saved.options)
        × ((pct : Option (CommandType F C)) × (parent_command_type fuel types cmd_types
                (env.tenant ++ b'.' ∷ new.name)
                kind.parent_type_id
              ≡ some (inr pct))
            × ((o : CommandOption F C) → Memᴰ o new.options → has_option pct o.name ≡ false))
  unfolding create_command_type
  create_command_type-IsDistinct fuel env types cmd_types d thing_type_id new kind saved saving l
        h =
      let id = env.tenant ++ b'.' ∷ new.name in
      let blank = blank_command_type env thing_type_id id new in
      elim (Option-cases (get_root_thing_type fuel types thing_type_id)) [
        | inl r ↦ endless-ne-created (rw (create_command_type, l, r) at h)
        | inr (root, r) ↦ elim (Bool-cases (is_base_agent root)) [
          | inr b ↦ refused-ne-created (rw (create_command_type, l, r, b) at h)
          | inl b ↦ elim (Bool-cases (has_key cmd_types (thing_type_id ++ b'.' ∷ id))) [
            | inl k ↦ refused-ne-created (rw (create_command_type, l, r, b, k) at h)
            | inr k ↦
                elim (Option-cases
                  (parent_command_type fuel types cmd_types id kind.parent_type_id)) [
                    | inl p ↦ endless-ne-created (rw (create_command_type, l, r, b, k, p) at h)
                    | inr (inl e, p) ↦
                        refused-ne-created (rw (create_command_type, l, r, b, k, p) at h)
                    | inr (inr pct, p) ↦ elim (sum-cases (add_options pct new.options blank)) [
                      | inl (e, q) ↦
                          refused-ne-created (rw (create_command_type, l, r, b, k, p, q) at h)
                      | inr (rct, q) ↦
                          let (named, all, free) =
                            add_options-IsNamed pct new.options blank rct
                              (blank-IsNamed env thing_type_id id new) q in
                          let same =
                            save_command_type-saved fuel env types cmd_types d (inherit_all pct rct)
                              saved saving (rw (create_command_type, l, r, b, k, p, q) at h) in
                          let options : saved.options ≡ rct.options =
                            ap (λ (x : CommandType F C). x.options) same
                            ∙ options-inherit_all pct rct in
                          (options ∙ all, rw options (named.1), (pct, p, free))
                    ]
                  ]
          ]
        ]
      ]
