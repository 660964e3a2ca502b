-- ===== src/RealTime/Rules.antt =====
-- The handlers of pkg/data/realtimecomputation/rule.go.
--
-- The handlers run one after another. `order` gives the order in which a map or a set is visited, and
-- `parse_expr` stands for the PromQL parser. In a result `panic` is a panic and `err` an error that is
-- returned before the state is changed.
use harns.Prelude.{
  ℕ, zero, suc, ◌-◌, ◌==◌, ltb, Bool, true, false, ◌&&◌, not, Option, none, some, List, [], ◌∷◌,
  ◌++◌, length, get_or, get_elem?, set, take, if◌then◌else◌,
}
use harns.Prelude.Bytes.{eq_bytes}
use harns.Prelude.Dict.{Dict, load, has_key, store, delete}
use harns.Prelude.Outcome.{Outcome, ok, err, panic, ◌>>=◌}
use harns.Generic.{difference_and_intersection_strings}
use harns.Generic.Sets.{member}
use harns.RealTime.{Rule, Expression, Manager, present, has_active_action, min_interval_of}
use harns.RealTime.Operands.{parse, group}
use harns.RealTime.Paths.{join}

-- `sets.String.Insert`
unfoldable pub insert_key : List ℕ → List (List ℕ) → List (List ℕ)
insert_key k ks = if member k ks then ks else k ∷ ks

unfoldable pub new_keys : List ℕ → Dict (List (List ℕ)) → List (List ℕ)
unfolding insert_key join
new_keys thing_id [] = []
new_keys thing_id (entry ∷ groups) = insert_key (join thing_id entry.0) (new_keys thing_id groups)

abbrev pub is_wanted : Rule → Bool
is_wanted r = r.active && (r.real_time && has_active_action r.actions)

module _ {E : Type 0} where
  -- The expressions at a key, none if it is not there.
  unfoldable pub expressions_at : Dict (List (Expression E)) → List ℕ → List (Expression E)
  expressions_at rules key = elim (load rules key) [ none ↦ [] | some exprs ↦ exprs ]

  -- The last expression goes to `index`, and the last place is cut off.
  unfoldable pub swap_out : List (Expression E) → ℕ → Expression E → List (Expression E)
  swap_out exprs index e =
      let last = length exprs - 1 in take last (set exprs index (get_or exprs last e))

  -- The loop that removes the expressions of a rule. `none` if the fuel does not do.
  unfoldable pub swap_remove : List ℕ → ℕ → ℕ → List (Expression E) → Option (List (Expression E))
  unfolding swap_out
  swap_remove id zero index exprs = if ltb index (length exprs) then none else some exprs
  swap_remove id (suc fuel) index exprs = elim (get_elem? exprs index) [
    | none ↦ some exprs
    | some e ↦
        let hit = eq_bytes e.rule_id id in
        swap_remove id fuel (if hit then index else suc index)
          (if hit then swap_out exprs index e else exprs)
  ]

  -- The loop from the first expression on, with fuel for every expression.
  unfoldable pub remove_rule : List ℕ → List (Expression E) → List (Expression E)
  unfolding swap_remove
  remove_rule id exprs = elim (swap_remove id (length exprs) 0 exprs) [
    | none ↦ []
    | some kept ↦ kept
  ]

  unfoldable pub put_or_delete :
      Dict (List (Expression E)) → List ℕ → List (Expression E) → Dict (List (Expression E))
  put_or_delete rules key [] = delete rules key
  put_or_delete rules key (e ∷ exprs) = store rules key (e ∷ exprs)

  -- `LoadOrStore`, `append` and `Store`
  unfoldable pub append_at :
      List (Expression E)
      → Dict (List (Expression E))
      → List ℕ
      → Outcome (Dict (List (Expression E)))
  unfolding expressions_at
  append_at exprs rules key = ok (store rules key (expressions_at rules key ++ exprs))

  -- One round of the loop of `onRuleDeleted`.
  unfoldable pub delete_at :
      List ℕ → Dict (List (Expression E)) → List ℕ → Outcome (Dict (List (Expression E)))
  unfolding remove_rule put_or_delete
  delete_at id rules key = elim (load rules key) [
    | none ↦ ok rules
    | some exprs ↦ ok (put_or_delete rules key (remove_rule id exprs))
  ]

  -- One round of the loop of `onRuleUpdated` over the keys that are left; nil is not a list.
  unfoldable pub drop_at :
      List ℕ → Dict (List (Expression E)) → List ℕ → Outcome (Dict (List (Expression E)))
  unfolding remove_rule put_or_delete
  drop_at id rules key = elim (load rules key) [
    | none ↦ panic
    | some exprs ↦ ok (put_or_delete rules key (remove_rule id exprs))
  ]

  -- One round of the loop of `onRuleUpdated` over the keys that stay.
  unfoldable pub replace_at :
      List ℕ
      → List (Expression E)
      → Dict (List (Expression E))
      → List ℕ
      → Outcome (Dict (List (Expression E)))
  unfolding remove_rule
  replace_at id new_exprs rules key = elim (load rules key) [
    | none ↦ panic
    | some exprs ↦ ok (store rules key (remove_rule id exprs ++ new_exprs))
  ]

  unfoldable pub for_keys :
      (Dict (List (Expression E)) → List ℕ → Outcome (Dict (List (Expression E))))
      → List (List ℕ)
      → Dict (List (Expression E))
      → Outcome (Dict (List (Expression E)))
  for_keys step [] rules = ok rules
  for_keys step (k ∷ ks) rules = step rules k >>= (λ changed. for_keys step ks changed)

  unfoldable pub mentions : List ℕ → List (Expression E) → Bool
  mentions id [] = false
  mentions id (e ∷ exprs) = if eq_bytes e.rule_id id then true else mentions id exprs

  unfoldable pub get_keys_by_rule_id : List ℕ → Dict (List (Expression E)) → List (List ℕ)
  unfolding mentions insert_key
  get_keys_by_rule_id id [] = []
  get_keys_by_rule_id id (entry ∷ rules) =
      let keys = get_keys_by_rule_id id rules in
      if mentions id entry.1 then insert_key entry.0 keys else keys

  -- A new expression for the properties of one property set.
  unfoldable pub new_expression : Rule → E → List (List ℕ) → Expression E
  unfolding min_interval_of
  new_expression r e properties = record {
    rule_id = r.meta.id;
    rule_name = r.meta.name;
    expr = e;
    properties = properties;
    actions = r.actions;
    min_interval = min_interval_of r.actions;
    evaluation_timestamp = 0;
  }

  -- The loop of `onRuleReceived` over the property sets.
  unfoldable pub receive_all :
      Rule
      → E
      → Dict (List (List ℕ))
      → Dict (List (Expression E))
      → Outcome (Dict (List (Expression E)))
  unfolding new_expression append_at join
  receive_all r e [] rules = ok rules
  receive_all r e (entry ∷ groups) rules =
      append_at (new_expression r e entry.1 ∷ []) rules (join r.thing_id entry.0)
      >>= (λ changed. receive_all r e groups changed)

  -- The loop of `onRuleUpdated` over the property sets.
  unfoldable pub new_expressions : Rule → E → Dict (List (List ℕ)) → List (Expression E)
  unfolding new_expression
  new_expressions r e [] = []
  new_expressions r e (entry ∷ groups) = new_expression r e entry.1 ∷ new_expressions r e groups

  -- The error of a handler is dropped, and the state is the one before.
  abbrev pub ignore_error : Manager E → Outcome (Manager E) → Outcome (Manager E)
  ignore_error m (ok changed) = ok changed
  ignore_error m err = ok m
  ignore_error m panic = panic

  module _ (order : (A : Type 0) → List A → List A) where
    unfoldable pub on_rule_deleted : Rule → Manager E → Outcome (Manager E)
    unfolding for_keys delete_at get_keys_by_rule_id
    on_rule_deleted r m =
        if has_key m.enabled_rules r.meta.id
        then (for_keys (delete_at r.meta.id) (order _ (get_keys_by_rule_id r.meta.id m.rules))
              m.rules
            >>= (λ rules.
                ok (record { rules = rules; enabled_rules = delete m.enabled_rules r.meta.id })))
        else ok m

    -- The part of `onRuleUpdated` that writes.
    unfoldable pub rewrite_rule : Rule → E → Dict (List (List ℕ)) → Manager E → Outcome (Manager E)
    unfolding for_keys append_at replace_at drop_at new_keys new_expressions get_keys_by_rule_id
        difference_and_intersection_strings
    rewrite_rule r e groups m =
        let new_exprs = new_expressions r e groups in
        let s =
          difference_and_intersection_strings (order _) (order _ (new_keys r.thing_id groups))
            (order _ (get_keys_by_rule_id r.meta.id m.rules)) in
        for_keys (append_at new_exprs) s.only_src m.rules
        >>= (λ inserted. for_keys (replace_at r.meta.id new_exprs) s.intersection inserted)
        >>= (λ updated. for_keys (drop_at r.meta.id) s.only_des updated)
        >>= (λ rules. ok (record m { rules = rules }))

  module _ (order : (A : Type 0) → List A → List A) (parse_expr : List ℕ → Option E) where
    -- The expression and its operands, by property set, visited in `order`.
    unfoldable pub read_rule : Rule → Outcome (E × Dict (List (List ℕ)))
    unfolding parse group
    read_rule r = elim r.evaluations [
      | [] ↦ panic
      | ev ∷ evs ↦ elim (parse parse_expr ev.expression) [
        | none ↦ err
        | some (e, operands) ↦ elim (group operands []) [
          | none ↦ err
          | some groups ↦ ok (e, order _ groups)
        ]
      ]
    ]

    unfoldable pub on_rule_received : Rule → Manager E → Outcome (Manager E)
    unfolding read_rule receive_all has_active_action
    on_rule_received r m =
        if not (is_wanted r)
        then ok m
        else (read_rule r >>= (λ (e, groups). receive_all r e groups m.rules >>= (λ rules.
            ok
              (record { rules = rules; enabled_rules = store m.enabled_rules r.meta.id present }))))

    unfoldable pub on_rule_updated : Rule → Manager E → Outcome (Manager E)
    unfolding read_rule on_rule_deleted rewrite_rule has_active_action
    on_rule_updated r m =
        if not (is_wanted r) then on_rule_deleted order r m else elim (read_rule r) [
          | ok (e, groups) ↦ rewrite_rule order r e groups m
          | err ↦ on_rule_deleted order r m
          | panic ↦ panic
        ]

    -- One event of `processEvent`.
    unfoldable pub process_event : Rule → Manager E → Outcome (Manager E)
    unfolding on_rule_received on_rule_deleted on_rule_updated
    process_event r m =
        if r.meta.mod_time == 0
        then ignore_error m (on_rule_deleted order r m)
        else if has_key m.enabled_rules r.meta.id
        then ignore_error m (on_rule_updated r m)
        else ignore_error m (on_rule_received r m)

-- The rule that the store sends when a rule is removed: a fresh one with the identifier only.
abbrev pub removed_rule : List ℕ → Rule
removed_rule id = record {
  meta = record { tenant = []; name = []; id = id; version = []; mod_time = 0 };
  description = none;
  thing_id = [];
  real_time = false;
  active = false;
  evaluations = [];
  actions = [];
}
