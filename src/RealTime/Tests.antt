-- ===== src/RealTime/Tests.antt =====
-- Runs of the events of a rule with two property sets, and the theorems at concrete inputs.
use mathlib.Core.List.{Permᴰ}
use mathlib.Core.List.Permᴰ
use harns.Prelude.{
  inl, inr, ℕ, ◌≡◌, refl, arith, true, Option, none, some, List, [], ◌∷◌, length, map,
}
use harns.Prelude.Int.{pos}
use harns.Prelude.Decimal.{decimal, digits}
use harns.Prelude.Outcome.{Outcome, ok, err, panic}
use harns.Generic.{difference_and_intersection_strings, mark, mark_all, sort_entry, sort_entries}
use harns.RealTime.{
  Rule, Expression, Manager, Actions, ActionType, by_event, is_active, has_active_action,
}
use harns.RealTime.Operands.{
  Operand, IsWritten, nil, cons, print, replaced, replacement, up_to_separator, replace_operands,
  operand_text, parse, group, parts_of, split_units, add_property, replace_operands-print,
}
use harns.RealTime.Paths.{join, clean, elements, resolve}
use harns.RealTime.Rules.{
  removed_rule, insert_key, expressions_at, swap_out, swap_remove, remove_rule, put_or_delete,
  append_at, drop_at, replace_at, for_keys, mentions, get_keys_by_rule_id, new_expression, new_keys,
  new_expressions, receive_all, read_rule, on_rule_received, on_rule_deleted, rewrite_rule,
  on_rule_updated, process_event,
}
use harns.RealTime.Removal.{others, swap_remove-others}
use harns.RealTime.Events.{IsOrder}
use harns.RealTime.Effects.{IsEffect, reading}
use harns.RealTime.Mentions.{IsClean}
use harns.RealTime.Process.{Reaches, start, event, process_event-IsEffect, Reaches-IsClean}

abbrev id_r : List ℕ
id_r = b'r' ∷ []

abbrev operands : List Operand
operands =
    record { before = []; property_set = b'a' ∷ []; property = b'x' ∷ [] }
    ∷ record { before = b'+' ∷ []; property_set = b'b' ∷ []; property = b'y' ∷ [] }
    ∷ []

abbrev expression_text : List ℕ
expression_text = 29 ∷ b'a' ∷ 31 ∷ b'x' ∷ 29 ∷ b'+' ∷ 29 ∷ b'b' ∷ 31 ∷ b'y' ∷ 29 ∷ b'*' ∷ b'2' ∷ []

expression_text_run : print operands (b'*' ∷ b'2' ∷ []) ≡ expression_text
unfolding print
expression_text_run = refl

operands-IsWritten : IsWritten operands
operands-IsWritten = cons refl refl refl (cons refl refl refl nil)

replace_operands-print_example :
    replace_operands 15 0 (print operands (b'*' ∷ b'2' ∷ []))
    ≡ (replaced 0 operands (b'*' ∷ b'2' ∷ []), map operand_text operands)
replace_operands-print_example =
    replace_operands-print operands (b'*' ∷ b'2' ∷ []) 15 0 operands-IsWritten refl
      (unfold print in omega arith)

join_run : join (b't' ∷ []) (b'.' ∷ b'/' ∷ b'a' ∷ []) ≡ b't' ∷ b'/' ∷ b'a' ∷ []
unfolding join clean elements resolve
join_run = refl

abbrev actions : Actions
actions =
    (
      ActionType.event,
      by_event (record {
        base_action = some (record { active = true; interval = some (pos 7); last_send_at = 0 });
        severity = pos 1;
        description = [];
      }),
    )
    ∷ []

abbrev rule : Rule
rule = record {
  meta = record { tenant = []; name = b'n' ∷ []; id = id_r; version = []; mod_time = 5 };
  description = none;
  thing_id = b't' ∷ [];
  real_time = true;
  active = true;
  evaluations = record { template = []; expression = expression_text } ∷ [];
  actions = actions;
}

abbrev same_order : (A : Type 0) → List A → List A
same_order A xs = xs

same_order-IsOrder : IsOrder same_order
same_order-IsOrder A xs = Permᴰ.refl xs

abbrev parse_any : List ℕ → Option (List ℕ)
parse_any s = some s

abbrev empty : Manager (List ℕ)
empty = record { rules = []; enabled_rules = [] }

abbrev state_of : Outcome (Manager (List ℕ)) → Manager (List ℕ)
state_of (ok m) = m
state_of err = empty
state_of panic = empty

abbrev created : Manager (List ℕ)
created = state_of (process_event same_order parse_any rule empty)

abbrev updated : Manager (List ℕ)
updated = state_of (process_event same_order parse_any rule created)

created_run : process_event same_order parse_any rule empty ≡ ok created
unfolding process_event on_rule_received read_rule parse replace_operands up_to_separator
    replacement decimal digits group parts_of split_units add_property receive_all new_expression
    append_at join clean elements resolve expressions_at has_active_action is_active
created_run = refl

-- A new rule has one expression at each of its keys, and after an update that changes nothing it has two.
created_once : length (expressions_at created.rules (b't' ∷ b'/' ∷ b'a' ∷ [])) ≡ 1
unfolding process_event on_rule_received read_rule parse replace_operands up_to_separator
    replacement decimal digits group parts_of split_units add_property receive_all new_expression
    append_at join clean elements resolve expressions_at has_active_action is_active
created_once = refl

updated_twice : length (expressions_at updated.rules (b't' ∷ b'/' ∷ b'a' ∷ [])) ≡ 2
unfolding process_event on_rule_received on_rule_updated rewrite_rule read_rule parse
    replace_operands up_to_separator replacement decimal digits group parts_of split_units
    add_property receive_all new_expression new_expressions new_keys append_at replace_at drop_at
    for_keys remove_rule swap_remove swap_out put_or_delete get_keys_by_rule_id mentions insert_key
    difference_and_intersection_strings mark mark_all sort_entry sort_entries join clean elements
    resolve expressions_at has_active_action is_active
updated_twice = refl

abbrev expression_of : List ℕ → ℕ → Expression (List ℕ)
expression_of id n = record {
  rule_id = id;
  rule_name = [];
  expr = n ∷ [];
  properties = [];
  actions = [];
  min_interval = pos 0;
  evaluation_timestamp = 0;
}

abbrev mixed : List (Expression (List ℕ))
mixed = expression_of id_r 1 ∷ expression_of [] 2 ∷ expression_of [] 3 ∷ expression_of id_r 4 ∷ []

-- The last of the others comes first.
mixed_run : remove_rule id_r mixed ≡ expression_of [] 3 ∷ expression_of [] 2 ∷ []
unfolding remove_rule swap_remove swap_out
mixed_run = refl

swap_remove-others_example :
    (swap_remove id_r 4 0 mixed ≡ some (remove_rule id_r mixed))
    × Permᴰ (remove_rule id_r mixed) (others id_r mixed)
swap_remove-others_example = swap_remove-others id_r mixed

-- The rule is removed by an event with its identifier only, as the store sends it.
abbrev removed : Manager (List ℕ)
removed = state_of (process_event same_order parse_any (removed_rule id_r) created)

removed_run : process_event same_order parse_any (removed_rule id_r) created ≡ ok removed
unfolding process_event on_rule_received on_rule_deleted read_rule parse replace_operands
    up_to_separator replacement decimal digits group parts_of split_units add_property receive_all
    new_expression append_at join clean elements resolve expressions_at has_active_action is_active
    remove_rule swap_remove swap_out put_or_delete get_keys_by_rule_id mentions insert_key for_keys
removed_run = refl

created-Reaches : Reaches parse_any created
created-Reaches = event rule same_order same_order-IsOrder created_run start

-- A rule comes and goes.
Reaches-IsClean_example : IsClean removed
Reaches-IsClean_example =
    Reaches-IsClean parse_any removed
      (event (removed_rule id_r) same_order same_order-IsOrder removed_run created-Reaches)

update_run :
    (after : Manager (List ℕ)) × (process_event same_order parse_any rule created ≡ ok after)
    × IsEffect rule (reading same_order parse_any rule) created after
update_run =
    process_event-IsEffect same_order same_order-IsOrder parse_any rule created
      (Reaches-IsClean parse_any created created-Reaches)
      (inr (inr (record { template = []; expression = expression_text }, [], refl)))

process_event-IsEffect_example :
    (after : Manager (List ℕ)) × (process_event same_order parse_any (removed_rule id_r) created
      ≡ ok after)
    × IsEffect (removed_rule id_r) (reading same_order parse_any (removed_rule id_r)) created after
process_event-IsEffect_example =
    process_event-IsEffect same_order same_order-IsOrder parse_any (removed_rule id_r) created
      (Reaches-IsClean parse_any created created-Reaches) (inl refl)
