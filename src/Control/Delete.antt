-- ===== src/Control/Delete.antt =====
-- pkg/control/command/manager.go: `deleteCommandType` and `DeleteCommandTypes`.
--
-- Of the job manager only the identifiers are kept with which `DeleteCommandType` is called, in their
-- order; its errors are dropped by the code. `remove` is what the store answers, false for an error.
use mathlib.Core.List.{Memᴰ}
use mathlib.Core.Path.{subst}
use harns.Prelude.{
  ℕ, ◌≡◌, refl, sym, ap, ◌∙◌, arith, Bool, true, false, ◌&&◌, ◌⊎◌, inl, inr, Bool-cases,
  Option-cases, none, some, List, [], ◌∷◌, ◌++◌, if◌then◌else◌,
}
use harns.Prelude.Bytes.{eq_bytes, eq_bytes→eq}
use harns.Prelude.Dict.{Dict, load, has_key, delete, load-delete, load_missing}
use harns.Thing.{ThingType}
use harns.Thing.Filter.{has_prefix}
use harns.Control.{CommandType}
use harns.Control.Create.{types_under}

pub record Commands (F C : Type 0) : Type 0 where
  pub cmd_types : Dict (CommandType F C)
  pub jobs : List (List ℕ)

pub data DeleteError : Type 0 where
  child_type_exist not_exist mismatch not_removed : DeleteError

module _ {F C : Type 0} where
  -- A thing type among these has a command type of the name.
  unfoldable pub has_child_command : Dict (CommandType F C) → List ℕ → List ThingType → Bool
  has_child_command cmd_types id [] = false
  has_child_command cmd_types id (c ∷ cs) =
      if has_key cmd_types (c.meta.id ++ b'.' ∷ id) then true else has_child_command cmd_types id cs

  abbrev pub forget : Commands F C → List ℕ → List ℕ → Commands F C
  forget m key job = record { cmd_types = delete m.cmd_types key; jobs = m.jobs ++ job ∷ [] }

  -- `deleteCommandType`: the state after it, and the error or the command type.
  unfoldable pub delete_command_type :
      (CommandType F C → Bool)
      → List ℕ
      → Dict ThingType
      → Commands F C
      → List ℕ
      → List ℕ
      → List ℕ
      → Commands F C × (DeleteError ⊎ CommandType F C)
  unfolding has_child_command
  delete_command_type remove tenant types m thing_type_id id e_tag =
      if has_child_command m.cmd_types id (types_under tenant types thing_type_id)
      then (m, inl child_type_exist)
      else let key = thing_type_id ++ b'.' ∷ id in
        elim (load m.cmd_types key) [
          | none ↦ (m, inl not_exist)
          | some ct ↦
              if eq_bytes ct.meta.version e_tag
              then (forget m key id, if remove ct then inr ct else inl not_removed)
              else (m, inl mismatch)
        ]

  -- The loop of `DeleteCommandTypes` over the entries of the map.
  unfoldable pub sweep : List ℕ → Dict (CommandType F C) → Commands F C → Commands F C
  sweep thing_type_id [] m = m
  sweep thing_type_id (entry ∷ entries) m = sweep thing_type_id entries (
      if has_prefix entry.0 thing_type_id
      then forget m entry.0 (CommandType.meta entry.1).id
      else m)

  -- `DeleteCommandTypes`
  unfoldable pub delete_command_types : List ℕ → Commands F C → Commands F C
  unfolding sweep
  delete_command_types thing_type_id m = sweep thing_type_id m.cmd_types m

  load-sweep :
      (thing_type_id : List ℕ) (entries : Dict (CommandType F C)) (m : Commands F C) (k : List ℕ)
      → load (Commands.cmd_types (sweep thing_type_id entries m)) k
        ≡ (if has_prefix k thing_type_id && has_key entries k then none else load m.cmd_types k)
  unfolding sweep
  load-sweep id [] m k = ground arith
  load-sweep id (entry ∷ entries) m k = elim (Bool-cases (has_prefix entry.0 id)) [
    | inl p ↦ elim (Bool-cases (eq_bytes entry.0 k)) [
      | inl e ↦
          let p' : has_prefix k id ≡ true = rw (sym (eq_bytes→eq entry.0 k e)) p in
          rw (p, e, p')
            (load-sweep id entries (forget m entry.0 (CommandType.meta entry.1).id) k
              ∙ rw (load-delete m.cmd_types entry.0 k, e, p') (ground arith))
      | inr e ↦
          rw (p, e)
            (load-sweep id entries (forget m entry.0 (CommandType.meta entry.1).id) k
              ∙ rw (load-delete m.cmd_types entry.0 k, e) refl)
    ]
    | inr p ↦ elim (Bool-cases (eq_bytes entry.0 k)) [
      | inl e ↦
          let p' : has_prefix k id ≡ false = rw (sym (eq_bytes→eq entry.0 k e)) p in
          rw (p, e, p') (load-sweep id entries m k ∙ rw p' refl)
      | inr e ↦ rw (p, e) (load-sweep id entries m k)
    ]
  ]

  -- `DeleteCommandTypes` drops every command type whose key begins with the identifier of the thing type,
  -- and no other. The key of a command type of another thing type begins so as well, if the identifier of
  -- that thing type does.
  pub load-delete_command_types :
      (thing_type_id : List ℕ) (m : Commands F C) (k : List ℕ)
      → load (Commands.cmd_types (delete_command_types thing_type_id m)) k
        ≡ (if has_prefix k thing_type_id then none else load m.cmd_types k)
  unfolding delete_command_types
  load-delete_command_types id m k =
      load-sweep id m.cmd_types m k ∙ elim (Bool-cases (has_key m.cmd_types k)) [
        | inl h ↦ rw h (ground arith)
        | inr h ↦ rw (h, load_missing m.cmd_types k h) (ground arith)
      ]

  -- A thing type among these has a command type of the name, or none has.
  has_child_command-cases :
      (cmd_types : Dict (CommandType F C)) (id : List ℕ) (cs : List ThingType)
      → ((has_child_command cmd_types id cs ≡ true)
          × ((c : ThingType) × Memᴰ c cs × (has_key cmd_types (c.meta.id ++ b'.' ∷ id) ≡ true)))
        ⊎ ((has_child_command cmd_types id cs ≡ false)
            × ((c : ThingType) → Memᴰ c cs → has_key cmd_types (c.meta.id ++ b'.' ∷ id) ≡ false))
  unfolding has_child_command
  has_child_command-cases cmd_types id [] = inr (refl, λ c m. elim m [ ])
  has_child_command-cases cmd_types id (c ∷ cs) =
      elim (Bool-cases (has_key cmd_types (c.meta.id ++ b'.' ∷ id))) [
        | inl h ↦ inl (rw h refl, (c, Memᴰ.head refl, h))
        | inr h ↦ elim (has_child_command-cases cmd_types id cs) [
          | inl (q, (x, m, there)) ↦ inl (rw (h, q) refl, (x, Memᴰ.tail m, there))
          | inr (q, others) ↦ inr (
            rw (h, q) refl,
            λ x m. elim m [
              | Memᴰ.head e ↦
                  ap (λ (y : ThingType). has_key cmd_types (y.meta.id ++ b'.' ∷ id)) e ∙ h
              | Memᴰ.tail t ↦ others x t
            ],
          )
        ]
      ]

  -- What `deleteCommandType` comes to, for each of its conditions.
  abbrev pub IsDeleted :
      (CommandType F C → Bool)
      → List ℕ
      → Dict ThingType
      → Commands F C
      → List ℕ
      → List ℕ
      → List ℕ
      → Commands F C × (DeleteError ⊎ CommandType F C)
      → Type 0
  IsDeleted remove tenant types m thing_type_id id e_tag (after, result) =
      let below = types_under tenant types thing_type_id in
      let key = thing_type_id ++ b'.' ∷ id in
      ((c : ThingType) × Memᴰ c below
        × (has_key m.cmd_types (c.meta.id ++ b'.' ∷ id) ≡ true)
        × (result ≡ inl child_type_exist)
        × (after ≡ m))
      ⊎ (((c : ThingType) → Memᴰ c below → has_key m.cmd_types (c.meta.id ++ b'.' ∷ id) ≡ false)
          × (((load m.cmd_types key ≡ none) × (result ≡ inl not_exist) × (after ≡ m))
              ⊎ ((ct : CommandType F C) × (load m.cmd_types key ≡ some ct)
                  × (((eq_bytes ct.meta.version e_tag ≡ false)
                        × (result ≡ inl mismatch)
                        × (after ≡ m))
                      ⊎ ((eq_bytes ct.meta.version e_tag ≡ true)
                          × (result ≡ (if remove ct then inr ct else inl not_removed))
                          × ((k : List ℕ)
                              → load after.cmd_types k
                                ≡ (if eq_bytes key k then none else load m.cmd_types k))
                          × (after.jobs ≡ m.jobs ++ id ∷ []))))))

  -- If a thing type under the thing type has a command type of the name, `deleteCommandType` refuses and
  -- changes nothing. If none has, it does so as well where there is no command type of the key, and where
  -- that has another version than is asked for, each with an error of its own. If none has and the command
  -- type is there with the version, it goes from the map, and no other does, and one job is written for it;
  -- this is so even if the store refuses to remove it, which gives an error then.
  pub delete_command_type-IsDeleted :
      (remove : CommandType F C → Bool) (tenant : List ℕ) (types : Dict ThingType)
      (m : Commands F C) (thing_type_id id e_tag : List ℕ)
      → IsDeleted remove tenant types m thing_type_id id e_tag
          (delete_command_type remove tenant types m thing_type_id id e_tag)
  unfolding delete_command_type
  delete_command_type-IsDeleted remove tenant types m thing_type_id id e_tag =
      let P = λ (r : Commands F C × (DeleteError ⊎ CommandType F C)).
        IsDeleted remove tenant types m thing_type_id id e_tag r in
      let key = thing_type_id ++ b'.' ∷ id in
      elim (has_child_command-cases m.cmd_types id (types_under tenant types thing_type_id)) [
        | inl (c, (x, there, h)) ↦
            subst P (sym (rw (delete_command_type, c) refl)) (inl (x, there, h, refl, refl))
        | inr (c, others) ↦ elim (Option-cases (load m.cmd_types key)) [
          | inl l ↦
              subst P (sym (rw (delete_command_type, c, l) refl))
                (inr (others, inl (l, refl, refl)))
          | inr (ct, l) ↦ elim (Bool-cases (eq_bytes ct.meta.version e_tag)) [
            | inr v ↦
                subst P (sym (rw (delete_command_type, c, l, v) refl))
                  (inr (others, inr (ct, l, inl (v, refl, refl))))
            | inl v ↦
                subst P (sym (rw (delete_command_type, c, l, v) refl)) (
                  inr
                    (others, inr (ct, l, inr (v, refl, λ k. load-delete m.cmd_types key k, refl))))
          ]
        ]
      ]
