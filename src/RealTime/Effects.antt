-- ===== src/RealTime/Effects.antt =====
-- pkg/data/realtimecomputation/rule.go: what one event does in the states that the manager reaches.
use mathlib.Core.List.{Permᴰ, append-nil}
use mathlib.Core.List.Permᴰ
use harns.Prelude.{
  ℕ, ◌≡◌, refl, sym, ◌∙◌, inl, inr, arith, Bool, true, false, ◌==◌, Bool-cases, Option, none, some,
  List, [], ◌++◌, if◌then◌else◌,
}
use harns.Prelude.Bytes.{eq_bytes, eq_bytes→eq}
use harns.Prelude.Dict.{Dict, has_key}
use harns.Prelude.Outcome.{ok, err, panic}
use harns.Generic.Sets.{member}
use harns.RealTime.{Rule, Expression, Manager}
use harns.RealTime.Rules.{expressions_at, mentions, new_keys, new_expressions, is_wanted, read_rule}
use harns.RealTime.Removal.{others, others_self, mentions-others}
use harns.RealTime.Mentions.{
  IsClean, own_expressions, mentions-append, mentions-Permᴰ, mentions-others_of,
  mentions-new_expressions, mentions-own_expressions,
}

module _ {E : Type 0} where
  -- What a rule is read as where its event asks for it to be computed: not if it was deleted, is not
  -- wanted or cannot be read.
  unfoldable pub reading :
      ((A : Type 0) → List A → List A)
      → (List ℕ → Option E)
      → Rule
      → Option (E × Dict (List (List ℕ)))
  reading order parse_expr r =
      if r.meta.mod_time == 0
      then none
      else if is_wanted r
      then elim (read_rule order parse_expr r) [ ok x ↦ some x | err ↦ none | panic ↦ none ]
      else none

  abbrev pub is_read : Option (E × Dict (List (List ℕ))) → Bool
  is_read none = false
  is_read (some x) = true

  -- The expressions that an event adds at a key: for a rule that is new there those of the key, and for
  -- one that is known all of the rule's.
  unfoldable pub added :
      Rule → Bool → Option (E × Dict (List (List ℕ))) → List ℕ → List (Expression E)
  added r known none q = []
  added r true (some (e, groups)) q =
      if member q (new_keys r.thing_id groups) then new_expressions r e groups else []
  added r false (some (e, groups)) q = own_expressions r e groups q

  -- What an event does: at every key the other rules' expressions stay, in some order, and those that the
  -- event adds come after them; and the rule is enabled exactly if it is read. The other rules are enabled
  -- as before.
  abbrev pub IsEffect : Rule → Option (E × Dict (List (List ℕ))) → Manager E → Manager E → Type 0
  IsEffect r read m after =
      ((q : List ℕ)
        → Permᴰ (expressions_at after.rules q) (
            others r.meta.id (expressions_at m.rules q)
            ++ added r (has_key m.enabled_rules r.meta.id) read q))
      × (has_key after.enabled_rules r.meta.id ≡ is_read read)
      × ((id : List ℕ)
          → eq_bytes r.meta.id id ≡ false
          → has_key after.enabled_rules id ≡ has_key m.enabled_rules id)

  mentions-added :
      (id : List ℕ) (r : Rule) (known : Bool) (read : Option (E × Dict (List (List ℕ))))
      (q : List ℕ)
      → eq_bytes r.meta.id id ≡ false
      → mentions id (added r known read q) ≡ false
  unfolding added mentions
  mentions-added id r known none q h = refl
  mentions-added id r true (some (e, groups)) q h =
      elim (Bool-cases (member q (new_keys r.thing_id groups))) [
        | inl k ↦ rw k (mentions-new_expressions id r e groups h)
        | inr k ↦ rw k refl
      ]
  mentions-added id r false (some (e, groups)) q h = mentions-own_expressions id r e groups q h

  mentions-added_none :
      (id : List ℕ) (r : Rule) (known : Bool) (read : Option (E × Dict (List (List ℕ))))
      (q : List ℕ)
      → is_read read ≡ false
      → mentions id (added r known read q) ≡ false
  unfolding added mentions
  mentions-added_none id r known none q h = refl
  mentions-added_none id r known (some x) q h = absurd (ground arith)

  -- An event keeps that only enabled rules have expressions.
  pub IsClean-effect :
      (r : Rule) (read : Option (E × Dict (List (List ℕ)))) (m after : Manager E)
      → IsClean m
      → IsEffect r read m after
      → IsClean after
  unfolding added
  IsClean-effect r read m after clean (at, own, rest) id q off =
      mentions-Permᴰ id (at q)
      ∙ mentions-append id (others r.meta.id (expressions_at m.rules q)) _
      ∙ elim (Bool-cases (eq_bytes r.meta.id id)) [
        | inl same ↦
            let e = eq_bytes→eq r.meta.id id same in
            let out : is_read read ≡ false = sym own ∙ rw e off in
            rw
              (
                sym e,
                mentions-others,
                mentions-added_none r.meta.id r (has_key m.enabled_rules r.meta.id) read q out,
              )
              refl
        | inr apart ↦
            let was : has_key m.enabled_rules id ≡ false = sym (rest id apart) ∙ off in
            rw
              (
                mentions-others_of id r.meta.id (expressions_at m.rules q) (clean id q was),
                mentions-added id r (has_key m.enabled_rules r.meta.id) read q apart,
              )
              refl
      ]

  pub IsEffect-nothing :
      (r : Rule) (m : Manager E)
      → IsClean m
      → has_key m.enabled_rules r.meta.id ≡ false
      → IsEffect r none m m
  unfolding added
  IsEffect-nothing r m clean off = (
    λ q.
        rw (append-nil, others_self r.meta.id (expressions_at m.rules q) (clean r.meta.id q off))
          (Permᴰ.refl _),
    off,
    λ id h. refl,
  )
