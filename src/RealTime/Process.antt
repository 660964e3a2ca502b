-- ===== src/RealTime/Process.antt =====
-- pkg/data/realtimecomputation/rule.go: every event has its effect, in every state that the
-- manager reaches.
use mathlib.Core.Path.{subst}
use harns.Prelude.{
  ℕ, ◌≡◌, ◌≢◌, refl, sym, ◌∙◌, arith, inl, inr, true, false, ◌==◌, Bool-cases, Option, List-cases,
  ◌⊎◌, List, [], ◌∷◌,
}
use harns.Prelude.Outcome.{ok, panic}
use harns.RealTime.{Rule, Evaluation, Manager}
use harns.RealTime.Rules.{expressions_at, mentions, is_wanted, process_event}
use harns.RealTime.Events.{IsOrder}
use harns.RealTime.Effects.{reading, IsEffect, IsClean-effect}
use harns.RealTime.Mentions.{IsClean}
use harns.RealTime.Handled.{
  on_rule_deleted-IsEffect, read_rule-cases, process_event-read, process_event-unread,
  process_event-panics,
}

-- A removal (its rule has no time of modification), a rule that is not wanted, or a rule with an evaluation.
abbrev pub IsEvent : Rule → Type 0
IsEvent r =
    ((r.meta.mod_time == 0) ≡ true)
    ⊎ ((is_wanted r ≡ false)
        ⊎ ((ev : Evaluation) × (evs : List Evaluation) × (r.evaluations ≡ ev ∷ evs)))

evaluation_of :
    (r : Rule)
    → IsEvent r
    → (r.meta.mod_time == 0) ≡ false
    → is_wanted r ≡ true
    → (ev : Evaluation) × (evs : List Evaluation) × (r.evaluations ≡ ev ∷ evs)
evaluation_of r (inl gone) alive w = absurd (ground arith)
evaluation_of r (inr (inl out)) alive w = absurd (ground arith)
evaluation_of r (inr (inr has)) alive w = has

ok-ne-panic : {A : Type 0} {a : A} → ok a ≢ panic
ok-ne-panic h = cc

ok-inj : {A : Type 0} {a b : A} → ok a ≡ ok b → a ≡ b
ok-inj h = cc

module _ {E : Type 0} (order : (A : Type 0) → List A → List A) (is : IsOrder order)
    (parse_expr : List ℕ → Option E) where
  -- In a state where only enabled rules have expressions, an event does not panic that is a removal, or
  -- is of a rule that is not wanted or has an evaluation. At every key the other rules' expressions stay, in some order. Of the rule there are then no
  -- expressions but those that the event adds: none if the rule was deleted, is not wanted or cannot be
  -- read; for a rule that was not enabled, at each key those of the property sets with that key; and for
  -- one that was enabled, all its expressions at each of its keys. The rule is enabled exactly if it is
  -- read, and the other rules as before.
  pub process_event-IsEffect :
      (r : Rule) (m : Manager E)
      → IsClean m
      → IsEvent r
      → (after : Manager E) × (process_event order parse_expr r m ≡ ok after)
        × IsEffect r (reading order parse_expr r) m after
  unfolding process_event reading
  process_event-IsEffect r m clean event = elim (Bool-cases (r.meta.mod_time == 0)) [
    | inl gone ↦
        let (after, run, effect) = on_rule_deleted-IsEffect order is r m clean in
        (after, rw (process_event, gone, run) refl, rw (reading, gone) effect)
    | inr alive ↦ elim (Bool-cases (is_wanted r)) [
      | inr w ↦
          let (after, run, effect) =
            process_event-unread order is parse_expr r m clean alive (inl w) in
          (after, run, rw (reading, alive, w) effect)
      | inl w ↦
          let (ev, evs, h) = evaluation_of r event alive w in
          elim (read_rule-cases order is parse_expr r ev evs h) [
            | inl e ↦
                let (after, run, effect) =
                  process_event-unread order is parse_expr r m clean alive (inr e) in
                (after, run, rw (reading, alive, w, e) effect)
            | inr (x, groups, e) ↦
                let (after, run, effect) =
                  process_event-read order is parse_expr r m x groups clean alive w e in
                (after, run, rw (reading, alive, w, e) effect)
          ]
    ]
  ]

-- The states that the manager comes to from its start, by any events that do not end in a panic; each
-- may visit the maps in another order.
pub data Reaches {E : Type 0} (parse_expr : List ℕ → Option E) : Manager E → Type 1 where
  start : Reaches parse_expr (record { rules = []; enabled_rules = [] })
  event :
      {m after : Manager E} (r : Rule) (order : (A : Type 0) → List A → List A)
      → IsOrder order
      → process_event order parse_expr r m ≡ ok after
      → Reaches parse_expr m
      → Reaches parse_expr after

-- An event that does not end in a panic is a removal, or of a rule that is not wanted or has an evaluation.
ran-IsEvent :
    {E : Type 0} (order : (A : Type 0) → List A → List A) (parse_expr : List ℕ → Option E)
    (r : Rule) (m after : Manager E)
    → IsOrder order
    → process_event order parse_expr r m ≡ ok after
    → IsEvent r
ran-IsEvent order parse_expr r m after is run = elim (Bool-cases (r.meta.mod_time == 0)) [
  | inl gone ↦ inl gone
  | inr alive ↦ elim (Bool-cases (is_wanted r)) [
    | inr out ↦ inr (inl out)
    | inl w ↦ elim (List-cases r.evaluations) [
      | inr has ↦ inr (inr has)
      | inl h ↦
          absurd (ok-ne-panic (sym run ∙ process_event-panics order is parse_expr r m alive w h))
    ]
  ]
]

-- After any sequence of events from the start in which none panics, removals included, every expression
-- at a key is of a rule that is enabled.
pub Reaches-IsClean :
    {E : Type 0} (parse_expr : List ℕ → Option E) (m : Manager E) → Reaches parse_expr m → IsClean m
unfolding expressions_at mentions
Reaches-IsClean parse_expr m start = λ id q h. refl
Reaches-IsClean parse_expr m (event {m = before} r order is run reached) =
    let clean = Reaches-IsClean parse_expr before reached in
    let (after, run', effect) =
      process_event-IsEffect order is parse_expr r before clean
        (ran-IsEvent order parse_expr r before m is run) in
    let same : after ≡ m = ok-inj (sym run' ∙ run) in
    subst (λ (x : Manager _). IsClean x) same
      (IsClean-effect r (reading order parse_expr r) before after clean effect)
