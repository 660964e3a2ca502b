-- ===== src/RealTime/Handled.antt =====
-- pkg/data/realtimecomputation/rule.go: the branches of `processEvent`.
use mathlib.Core.List.{append-nil}
use mathlib.Core.List.Permᴰ
use harns.Prelude.{
  ℕ, ◌≡◌, refl, ap, ◌∙◌, inl, inr, Bool, true, false, ◌==◌, Bool-cases, Option, Option-cases, ◌⊎◌,
  none, some, List, [], ◌∷◌, if◌then◌else◌,
}
use harns.Prelude.Bytes.{eq_bytes_self}
use harns.Prelude.Dict.{Dict, has_key, store, delete, has_key-delete, load-store, load-has_key}
use harns.Prelude.Outcome.{ok, err, panic}
use harns.RealTime.{Rule, Evaluation, Manager, Present, present}
use harns.RealTime.Rules.{
  expressions_at, is_wanted, read_rule, on_rule_deleted, on_rule_updated, on_rule_received,
  process_event, ignore_error,
}
use harns.RealTime.Operands.{parse, group}
use harns.RealTime.Removal.{others_self}
use harns.RealTime.Rounds.{has_key-store_ne}
use harns.RealTime.Events.{IsOrder, on_rule_deleted-others, rewrite_rule-others}
use harns.RealTime.Effects.{added, IsEffect, IsEffect-nothing}
use harns.RealTime.Mentions.{IsClean, receive_all-own}

has_key-delete_self : (d : Dict Present) (k : List ℕ) → has_key (delete d k) k ≡ false
has_key-delete_self d k = has_key-delete d k k ∙ rw (eq_bytes_self k) refl

has_key-store_self : (d : Dict Present) (k : List ℕ) → has_key (store d k present) k ≡ true
has_key-store_self d k =
    load-has_key (store d k present) k present
      (load-store d k present k ∙ rw (eq_bytes_self k) refl)

module _ {E : Type 0} (order : (A : Type 0) → List A → List A) (is : IsOrder order) where
  pub on_rule_deleted-IsEffect :
      (r : Rule) (m : Manager E)
      → IsClean m
      → (after : Manager E) × (on_rule_deleted order r m ≡ ok after) × IsEffect r none m after
  unfolding on_rule_deleted added
  on_rule_deleted-IsEffect r m clean = elim (Bool-cases (has_key m.enabled_rules r.meta.id)) [
    | inl h ↦
        let (after, run, at, gone) = on_rule_deleted-others order is r m h in
        (
          after,
          run,
          (
            λ q. rw (append-nil) (at q),
            rw gone (has_key-delete_self m.enabled_rules r.meta.id),
            λ id apart. rw gone (has_key-delete m.enabled_rules r.meta.id id ∙ rw apart refl),
          ),
        )
    | inr h ↦ (m, rw h refl, IsEffect-nothing r m clean h)
  ]

  module _ (parse_expr : List ℕ → Option E) where
    pub read_rule-cases :
        (r : Rule) (ev : Evaluation) (evs : List Evaluation)
        → r.evaluations ≡ ev ∷ evs
        → (read_rule order parse_expr r ≡ err)
          ⊎ ((e : E) × (groups : Dict (List (List ℕ))) × (read_rule order parse_expr r
                ≡ ok (e, groups)))
    unfolding read_rule
    read_rule-cases r ev evs h = elim (Option-cases (parse parse_expr ev.expression)) [
      | inl p ↦ inl (rw (read_rule, h, p) refl)
      | inr (x, p) ↦ elim (Option-cases (group x.1 [])) [
        | inl g ↦ inl (rw (read_rule, h, p, g) refl)
        | inr (groups, g) ↦ inr (x.0, order _ groups, rw (read_rule, h, p, g) refl)
      ]
    ]

    -- An event of a wanted rule that is read.
    pub process_event-read :
        (r : Rule) (m : Manager E) (e : E) (groups : Dict (List (List ℕ)))
        → IsClean m
        → (r.meta.mod_time == 0) ≡ false
        → is_wanted r ≡ true
        → read_rule order parse_expr r ≡ ok (e, groups)
        → (after : Manager E) × (process_event order parse_expr r m ≡ ok after)
          × IsEffect r (some (e, groups)) m after
    unfolding process_event on_rule_updated on_rule_received added
    process_event-read r m e groups clean alive wanted read =
        elim (Bool-cases (has_key m.enabled_rules r.meta.id)) [
          | inl h ↦
              let (after, run, at, same) = rewrite_rule-others order is r e groups m in
              (
                after,
                rw (process_event, alive, h, wanted, read, run) refl,
                (λ q. rw h (at q), rw same h, λ id apart. rw same refl),
              )
          | inr h ↦
              let (rules, run, at) = receive_all-own r e groups m.rules in
              (
                record { rules = rules; enabled_rules = store m.enabled_rules r.meta.id present },
                rw (process_event, alive, h, wanted, read, run) refl,
                (
                  λ q.
                      rw
                        (
                          h,
                          at q,
                          others_self r.meta.id (expressions_at m.rules q) (clean r.meta.id q h),
                        )
                        (Permᴰ.refl _),
                  has_key-store_self m.enabled_rules r.meta.id,
                  λ id apart. has_key-store_ne m.enabled_rules r.meta.id present id apart,
                ),
              )
        ]

    process_event-known :
        (r : Rule) (m : Manager E)
        → (r.meta.mod_time == 0) ≡ false
        → has_key m.enabled_rules r.meta.id ≡ true
        → process_event order parse_expr r m ≡ ignore_error m (on_rule_updated order parse_expr r m)
    unfolding process_event
    process_event-known r m alive h = rw (process_event, alive, h) refl

    process_event-fresh :
        (r : Rule) (m : Manager E)
        → (r.meta.mod_time == 0) ≡ false
        → has_key m.enabled_rules r.meta.id ≡ false
        → process_event order parse_expr r m
          ≡ ignore_error m (on_rule_received order parse_expr r m)
    unfolding process_event
    process_event-fresh r m alive h =
        rw (process_event, alive)
          (ap
            (λ (b : Bool).
              if b
              then ignore_error m (on_rule_updated order parse_expr r m)
              else ignore_error m (on_rule_received order parse_expr r m))
            h)

    -- An event of a rule that is not read: its expressions go, if it was enabled.
    pub process_event-unread :
        (r : Rule) (m : Manager E)
        → IsClean m
        → (r.meta.mod_time == 0) ≡ false
        → (is_wanted r ≡ false) ⊎ (read_rule order parse_expr r ≡ err)
        → (after : Manager E) × (process_event order parse_expr r m ≡ ok after)
          × IsEffect r none m after
    unfolding process_event on_rule_updated on_rule_received
    process_event-unread r m clean alive why =
        elim (Bool-cases (has_key m.enabled_rules r.meta.id)) [
          | inl h ↦
              let (after, run, effect) = on_rule_deleted-IsEffect r m clean in
              let go : on_rule_updated order parse_expr r m ≡ ok after = elim why [
                | inl w ↦ rw (on_rule_updated, w) run
                | inr e ↦ elim (Bool-cases (is_wanted r)) [
                  | inl w ↦ rw (on_rule_updated, w, e) run
                  | inr w ↦ rw (on_rule_updated, w) run
                ]
              ] in
              (after, process_event-known r m alive h ∙ ap (ignore_error m) go, effect)
          | inr h ↦
              let go : ignore_error m (on_rule_received order parse_expr r m) ≡ ok m = elim why [
                | inl w ↦ rw (on_rule_received, w) refl
                | inr e ↦ elim (Bool-cases (is_wanted r)) [
                  | inl w ↦ rw (on_rule_received, w, e) refl
                  | inr w ↦ rw (on_rule_received, w) refl
                ]
              ] in
              (m, process_event-fresh r m alive h ∙ go, IsEffect-nothing r m clean h)
        ]

    -- A wanted rule without an evaluation.
    pub process_event-panics :
        (r : Rule) (m : Manager E)
        → (r.meta.mod_time == 0) ≡ false
        → is_wanted r ≡ true
        → r.evaluations ≡ []
        → process_event order parse_expr r m ≡ panic
    unfolding process_event on_rule_updated on_rule_received read_rule
    process_event-panics r m alive w h = elim (Bool-cases (has_key m.enabled_rules r.meta.id)) [
      | inl k ↦
          process_event-known r m alive k
          ∙ (let go : on_rule_updated order parse_expr r m ≡ panic =
                rw (on_rule_updated, w, read_rule, h) refl in
              ap (ignore_error m) go)
      | inr k ↦
          process_event-fresh r m alive k
          ∙ (let go : on_rule_received order parse_expr r m ≡ panic =
                rw (on_rule_received, w, read_rule, h) refl in
              ap (ignore_error m) go)
    ]
