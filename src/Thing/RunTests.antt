-- ===== src/Thing/RunTests.antt =====
-- Runs of the operations on things.
use mathlib.Core.List.{Permᴰ}
use mathlib.Core.List.Memᴰ
use harns.Prelude.{
  ℕ, ◌≡◌, ◌≢◌, ◌↔◌, refl, sym, ap, ◌∙◌, inl, inr, arith, Bool, true, none, some, some-inj,
  none-ne-some, List, [], ◌∷◌, if◌then◌else◌,
}
use harns.Prelude.Bytes.{eq_bytes}
use harns.Prelude.Dict.{Dict}
use harns.Thing.{Thing, NewThing, Value, Characteristic, done, failed, cycled_thing}
use harns.Thing.Types.{trim_space}
use harns.Thing.Inherit.{
  values, inherit_from, inherit_characteristics, inherit_property_sets,
  inherit_characteristic_and_property_set,
}
use harns.Thing.Sorter.{
  IsDescending, one, cons, by_time, insert, sort_search, linear_insert, insert-linear_insert,
}
use harns.Thing.Filter.{
  ThingFilter, exactly, get_things, matching, parse_filter, name_predicates, thing_time, collect,
  get_things-sorted,
}
use harns.Thing.Things.{
  delete_thing, orphan_all, children_of, ThingEnv, create_thing, add_values, is_my_child_thing,
  is_below, shanghai,
}
use harns.Thing.Update.{
  update, update_thing, update_parent, check_characteristics, upsert_values, delete_values,
  write_kept, update_values, has_value,
}
use harns.Thing.Values.{value_of, requested, update_values-requested}
use harns.Thing.Rows.{
  get_thing_characteristics, own_rows, default_rows, own_row, default_row, row_of, row_for,
  get_thing_characteristics-rows,
}
use harns.Thing.Below.{IsBelow}
use harns.Thing.Moves.{IsSavingThing}
use harns.Thing.Acyclic.{IsWellFormed, is_my_child_thing-decides}
use harns.Thing.Runs.{IsReachable, start, created, updated, IsFresh, reachable-IsWellFormed}
use harns.Thing.Tests.{main, id_b, colour, types_ab}
use harns.Prelude.Dict.{load}
use harns.Thing.Tree.{IsTreeStep, tree_of, update-IsTreeStep}
use harns.Thing.Orphans.{delete_thing-orphan_all}

abbrev env_at : List ℕ → ℕ → ThingEnv
env_at id now = record {
  tenant = main;
  version = b'1' ∷ [];
  now = now;
  uuid = id;
  has_location = λ z. true;
  save = λ t. some t;
  remove = λ id version. true;
  order = λ es. es;
}

env_at-IsSavingThing : (id : List ℕ) (now : ℕ) → IsSavingThing (env_at id now)
unfolding IsSavingThing
env_at-IsSavingThing id now t saved h =
    let e : saved ≡ t = sym (some-inj h) in
    (
      ap (λ (x : Thing). x.parent) e,
      ap (λ (x : Thing). x.meta.id) e,
      ap (λ (x : Thing). x.meta.tenant) e,
    )

abbrev id_1 : List ℕ
id_1 = b'1' ∷ []

abbrev id_2 : List ℕ
id_2 = b'2' ∷ []

abbrev c_name : List ℕ
c_name = b'c' ∷ []

abbrev request_1 : NewThing
request_1 = record {
  name = b'x' ∷ [];
  description = none;
  type_id = id_b;
  parent_id = [];
  time_zone = none;
  characteristics = [];
}

abbrev request_2 : NewThing
request_2 = record {
  name = b'y' ∷ [];
  description = none;
  type_id = id_b;
  parent_id = id_1;
  time_zone = none;
  characteristics = record { name = c_name; value = b'g' ∷ [] } ∷ [];
}

abbrev thing_1 : Thing
thing_1 = record {
  meta = record { tenant = main; name = b'x' ∷ []; id = id_1; version = b'1' ∷ []; mod_time = 6 };
  description = none;
  type_id = id_b;
  parent = none;
  time_zone = some shanghai;
  characteristics = [];
  characteristic_by_name = (c_name, colour) ∷ [];
  property_set_by_name = [];
}

abbrev green : Value
green = record { name = c_name; value = b'g' ∷ []; definition = some colour }

abbrev thing_2 : Thing
thing_2 = record {
  meta = record { tenant = main; name = b'y' ∷ []; id = id_2; version = b'1' ∷ []; mod_time = 7 };
  description = none;
  type_id = id_b;
  parent = some id_1;
  time_zone = some shanghai;
  characteristics = green ∷ [];
  characteristic_by_name = (c_name, colour) ∷ [];
  property_set_by_name = [];
}

abbrev things_1 : Dict Thing
things_1 = (id_1, thing_1) ∷ []

abbrev things_12 : Dict Thing
things_12 = (id_2, thing_2) ∷ (id_1, thing_1) ∷ []

create_1 : create_thing 3 (env_at id_1 6) types_ab [] request_1 ≡ done (things_1, thing_1)
unfolding create_thing add_values inherit_characteristic_and_property_set inherit_from
    inherit_characteristics inherit_property_sets trim_space
create_1 = refl

create_2 : create_thing 3 (env_at id_2 7) types_ab things_1 request_2 ≡ done (things_12, thing_2)
unfolding create_thing add_values inherit_characteristic_and_property_set inherit_from
    inherit_characteristics inherit_property_sets trim_space
create_2 = refl

-- The first thing may not move below the second, which stands below it.
cycle :
    update 3 (env_at id_1 8) things_12 id_1 (b'1' ∷ []) (record request_1 { parent_id = id_2 })
    ≡ failed cycled_thing
unfolding update update_thing update_parent check_characteristics is_my_child_thing is_below
    get_things collect insert sort_search parse_filter name_predicates
cycle = refl

-- The second thing may stand alone.
abbrev thing_2_alone : Thing
thing_2_alone = record thing_2 {
  meta = record { tenant = main; name = b'y' ∷ []; id = id_2; version = b'1' ∷ []; mod_time = 9 };
  parent = none;
  characteristics = record green { value = b'b' ∷ [] } ∷ [];
}

abbrev request_alone : NewThing
request_alone = record request_2 {
  parent_id = [];
  characteristics = record { name = c_name; value = b'b' ∷ [] } ∷ [];
}

update_2 :
    update 3 (env_at id_2 9) things_12 id_2 (b'1' ∷ []) request_alone
    ≡ done ((id_2, thing_2_alone) ∷ (id_1, thing_1) ∷ [], thing_2_alone)
unfolding update update_thing update_parent check_characteristics delete_values write_kept
    upsert_values
update_2 = refl

things_12-IsReachable : IsReachable main things_12
unfolding IsFresh
things_12-IsReachable =
    created 3 (env_at id_2 7) types_ab request_2 thing_2 refl (env_at-IsSavingThing id_2 7)
      (
        refl,
        λ t m. elim (Memᴰ.cases_cons m) [
          | inl e ↦ (
            ap (λ (x : Thing). eq_bytes x.meta.id id_2) e,
            λ to. none-ne-some id_2 (sym (ap (λ (x : Thing). x.parent) e) ∙ to),
          )
          | inr no_more ↦ absurd (Memᴰ.not-nil no_more)
        ],
      )
      create_2
      (created 3 (env_at id_1 6) types_ab request_1 thing_1 refl (env_at-IsSavingThing id_1 6)
        (refl, λ t m. absurd (Memᴰ.not-nil m)) create_1 start)

reachable-IsWellFormed_example : IsWellFormed main ((id_2, thing_2_alone) ∷ (id_1, thing_1) ∷ [])
reachable-IsWellFormed_example =
    reachable-IsWellFormed main ((id_2, thing_2_alone) ∷ (id_1, thing_1) ∷ []) (
      updated 3 (env_at id_2 9) id_2 (b'1' ∷ []) request_alone thing_2_alone refl
        (env_at-IsSavingThing id_2 9) update_2 things_12-IsReachable)

things_12-IsWellFormed : IsWellFormed main things_12
things_12-IsWellFormed = reachable-IsWellFormed main things_12 things_12-IsReachable

is_my_child_thing-decides_example :
    (fuel : ℕ) × (b : Bool) × (is_my_child_thing fuel main things_12 id_1 id_2 ≡ some b)
    × ((b ≡ true) ↔ IsBelow main things_12 id_1 id_2)
is_my_child_thing-decides_example =
    is_my_child_thing-decides main things_12 id_1 id_2 things_12-IsWellFormed refl

insert-linear_insert_example :
    insert (by_time thing_time ∷ []) (thing_2 ∷ thing_1 ∷ []) thing_2_alone
    ≡ linear_insert thing_time (thing_2 ∷ thing_1 ∷ []) thing_2_alone
insert-linear_insert_example =
    insert-linear_insert thing_time (thing_2 ∷ thing_1 ∷ []) thing_2_alone (cons (omega arith) one)

abbrev named_y : ThingFilter
named_y = record {
  tenant = [];
  id = [];
  type_id = id_b;
  parent_id = id_1;
  name = exactly (b'y' ∷ []);
}

find_y : get_things main things_12 named_y ≡ thing_2 ∷ []
unfolding get_things collect insert sort_search parse_filter name_predicates
find_y = refl

get_things-sorted_example :
    IsDescending thing_time (get_things main things_12 named_y)
    × Permᴰ
        (get_things main things_12 named_y)
        (matching (parse_filter (record named_y { tenant = main })) (values things_12))
get_things-sorted_example = get_things-sorted main things_12 named_y

update_values-requested_example :
    value_of ((update_values (env_at id_2 9) request_alone thing_2).characteristics) c_name
    ≡ requested thing_2.characteristic_by_name request_alone.characteristics c_name
update_values-requested_example =
    update_values-requested (env_at id_2 9) request_alone thing_2 c_name

rows_1 : get_thing_characteristics things_12 id_1 ≡ done (row_for c_name (b'r' ∷ []) colour ∷ [])
unfolding get_thing_characteristics own_rows default_rows
rows_1 = refl

get_thing_characteristics-rows_example :
    row_of (row_for c_name (b'r' ∷ []) colour ∷ []) c_name
    ≡ (if has_value [] c_name then own_row (value_of [] c_name) else default_row (some colour))
get_thing_characteristics-rows_example =
    get_thing_characteristics-rows things_12 id_1 thing_1 (row_for c_name (b'r' ∷ []) colour ∷ [])
      c_name refl
      (λ e m. elim (Memᴰ.cases_cons m) [
        | inl same ↦
            ap (λ (x : List ℕ × Characteristic). Characteristic.name x.1) same
            ∙ sym (ap (λ (x : List ℕ × Characteristic). x.0) same)
        | inr no_more ↦ absurd (Memᴰ.not-nil no_more)
      ])
      rows_1

-- Without its parent, the second thing stands alone.
abbrev thing_2_orphan : Thing
thing_2_orphan = record thing_2 {
  meta = record { tenant = main; name = b'y' ∷ []; id = id_2; version = b'1' ∷ []; mod_time = 9 };
  parent = none;
}

delete_1 :
    delete_thing (env_at id_1 9) things_12 id_1 (b'1' ∷ []) ≡ done ((id_2, thing_2) ∷ [], thing_1)
unfolding delete_thing
delete_1 = refl

orphan_2 :
    load
      (orphan_all
        (env_at id_1 9)
        ((id_2, thing_2) ∷ [])
        (get_things main ((id_2, thing_2) ∷ []) (children_of id_1)))
      id_2
    ≡ some thing_2_orphan
unfolding get_things collect insert sort_search parse_filter name_predicates
orphan_2 = refl

delete_thing-orphan_all_example : Thing.parent thing_2_orphan ≢ some id_1
delete_thing-orphan_all_example =
    delete_thing-orphan_all (env_at id_1 9) things_12 ((id_2, thing_2) ∷ []) id_1 (b'1' ∷ [])
      thing_1 id_2 thing_2_orphan (env_at-IsSavingThing id_1 9) things_12-IsWellFormed delete_1
      orphan_2

update-IsTreeStep_example :
    IsTreeStep (tree_of things_12) (tree_of ((id_2, thing_2_alone) ∷ (id_1, thing_1) ∷ [])) id_2
update-IsTreeStep_example =
    update-IsTreeStep 3 (env_at id_2 9) things_12 ((id_2, thing_2_alone) ∷ (id_1, thing_1) ∷ [])
      id_2 (b'1' ∷ []) request_alone thing_2_alone (env_at-IsSavingThing id_2 9)
      things_12-IsWellFormed update_2
