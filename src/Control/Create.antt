-- ===== src/Control/Create.antt =====
-- pkg/control/command/manager.go: `createCommandType` with `derivedChainCommandType` and
-- `getChildThingType`.
--
-- The walks along the thing types, which have no bound in the code, run on fuel; `endless` says that it is
-- used up. The options that are shared by two command types are values.
use harns.Prelude.{
  ℕ, zero, suc, Bool, false, ◌||◌, ◌⊎◌, inl, inr, Option, none, some, List, [], ◌∷◌, ◌++◌,
  if◌then◌else◌,
}
use harns.Prelude.Bytes.{eq_bytes}
use harns.Prelude.Dict.{Dict, load, has_key, store, offer}
use harns.Thing.{ThingType}
use harns.Thing.Types.{is_empty, base_agent, get_root_thing_type}
use harns.Thing.Filter.{any, get_thing_types}
use harns.Control.{CommandOption, CommandType}
use harns.Control.Deliver.{get_command_type_by_id}

pub data CreateError : Type 0 where
  thing_type_not_found root_thing_type_not_base_agent resource_exists : List ℕ → CreateError
  parent_type_not_found command_option_exists : List ℕ → CreateError
  not_saved : CreateError

-- `CommandType` of pkg/control/v1; its options have the fields of those of the runtime.
pub record NewCommandType (F C : Type 0) : Type 0 where
  pub name : List ℕ
  pub description : Option (List ℕ)
  pub ack : Bool
  pub options : List (CommandOption F C)

-- The surroundings of one call; `save` is what the store answers.
pub record CreateEnv (F C : Type 0) : Type 0 where
  pub tenant : List ℕ
  pub uuid : List ℕ
  pub version : List ℕ
  pub now : ℕ
  pub save : CommandType F C → Option (CommandType F C)

pub data Creation (F C : Type 0) : Type 0 where
  created : Dict (CommandType F C) → CommandType F C → Creation F C
  refused : CreateError → Creation F C
  endless : Creation F C

abbrev pub types_under : List ℕ → Dict ThingType → List ℕ → List ThingType
types_under tenant types id =
    get_thing_types tenant types
      (record { tenant = tenant; id = []; parent_type_id = id; name = any })

-- The loop of `getChildThingType`: the list grows while it is read.
unfoldable pub add_children :
    ℕ → List ℕ → Dict ThingType → List ThingType → List ThingType → Option (List ThingType)
add_children zero tenant types queue seen = none
add_children (suc n) tenant types [] seen = some seen
add_children (suc n) tenant types (c ∷ queue) seen =
    add_children n tenant types (queue ++ types_under tenant types c.meta.id) (seen ++ c ∷ [])

-- `getChildThingType`
unfoldable pub get_child_thing_type : ℕ → List ℕ → Dict ThingType → List ℕ → Option (List ThingType)
unfolding add_children
get_child_thing_type fuel tenant types id =
    add_children fuel tenant types (types_under tenant types id) []

abbrev pub is_base_agent : Option ThingType → Bool
is_base_agent none = false
is_base_agent (some root) = eq_bytes root.meta.id base_agent

module _ {F C : Type 0} where
  -- The nearest command type of the name above a thing type, exploded.
  unfoldable pub parent_command_type :
      ℕ
      → Dict ThingType
      → Dict (CommandType F C)
      → List ℕ
      → List ℕ
      → Option (CreateError ⊎ Option (CommandType F C))
  parent_command_type zero types cmd_types id above = none
  parent_command_type (suc n) types cmd_types id above =
      if is_empty above || eq_bytes above base_agent
      then some (inr none)
      else elim (get_command_type_by_id cmd_types above id) [
        | some pct ↦ some (inr (some pct))
        | none ↦ elim (load types above) [
          | none ↦ some (inl (parent_type_not_found above))
          | some ty ↦ parent_command_type n types cmd_types id ty.parent_type_id
        ]
      ]

  abbrev pub has_option : Option (CommandType F C) → List ℕ → Bool
  has_option none k = false
  has_option (some ty) k = has_key ty.option_by_name k

  -- `ro`: the code sets `Filterable` from `Required`.
  unfoldable pub new_option : CommandOption F C → CommandOption F C
  new_option o = record o { filterable = o.required }

  -- The loop over the options of the request.
  unfoldable pub add_options :
      Option (CommandType F C)
      → List (CommandOption F C)
      → CommandType F C
      → CreateError ⊎ CommandType F C
  unfolding new_option
  add_options pct [] rct = inr rct
  add_options pct (o ∷ os) rct =
      let rest = add_options pct os (record rct {
        options = rct.options ++ new_option o ∷ [];
        option_by_name = store rct.option_by_name o.name (new_option o);
      }) in
      if has_option pct o.name || has_key rct.option_by_name o.name
      then inl (command_option_exists o.name)
      else rest

  unfoldable pub put_options :
      List (CommandOption F C) → Dict (CommandOption F C) → Dict (CommandOption F C)
  put_options [] by_name = by_name
  put_options (o ∷ os) by_name = put_options os (store by_name o.name o)

  abbrev pub inherit_all : Option (CommandType F C) → CommandType F C → CommandType F C
  inherit_all none rct = rct
  inherit_all (some pct) rct = record rct {
    option_by_name = put_options pct.options rct.option_by_name;
  }

  -- `rct` before its options
  unfoldable pub blank_command_type :
      CreateEnv F C → List ℕ → List ℕ → NewCommandType F C → CommandType F C
  blank_command_type env thing_type_id id new = record {
    meta = record {
      tenant = env.tenant;
      name = new.name;
      id = env.uuid;
      version = env.version;
      mod_time = env.now;
    };
    type_id = id;
    description = new.description;
    ack = new.ack;
    user = [];
    thing_type_id = thing_type_id;
    options = [];
    option_by_name = [];
  }

  unfoldable pub offer_options :
      List (CommandOption F C) → Dict (CommandOption F C) → Dict (CommandOption F C)
  offer_options [] by_name = by_name
  offer_options (o ∷ os) by_name = offer_options os (offer by_name o.name o)

  -- The loop of `derivedChainCommandType` over the thing types below.
  unfoldable pub derive :
      CommandType F C → List ThingType → Dict (CommandType F C) → Dict (CommandType F C)
  unfolding offer_options
  derive ct [] cmd_types = cmd_types
  derive ct (c ∷ cs) cmd_types =
      let key = c.meta.id ++ b'.' ∷ ct.type_id in
      derive ct cs (elim (load cmd_types key) [
        | none ↦ cmd_types
        | some cct ↦
            store cmd_types key
              (record cct { option_by_name = offer_options ct.options cct.option_by_name })
      ])

  -- What follows once the options are known: the store, the map, and the command types below.
  unfoldable pub save_command_type :
      ℕ → CreateEnv F C → Dict ThingType → Dict (CommandType F C) → CommandType F C → Creation F C
  unfolding derive get_child_thing_type
  save_command_type fuel env types cmd_types rct = elim (env.save rct) [
    | none ↦ refused not_saved
    | some saved ↦
        let stored = store cmd_types (saved.thing_type_id ++ b'.' ∷ saved.type_id) saved in
        let below = get_child_thing_type fuel env.tenant types saved.thing_type_id in
        elim below [ none ↦ endless | some cs ↦ created (derive saved cs stored) saved ]
  ]

  -- `createCommandType`
  unfoldable pub create_command_type :
      ℕ
      → CreateEnv F C
      → Dict ThingType
      → Dict (CommandType F C)
      → List ℕ
      → NewCommandType F C
      → Creation F C
  unfolding parent_command_type add_options put_options blank_command_type save_command_type
  create_command_type fuel env types cmd_types thing_type_id new =
      let id = env.tenant ++ b'.' ∷ new.name in
      elim (load types thing_type_id) [
        | none ↦ refused (thing_type_not_found thing_type_id)
        | some kind ↦ elim (get_root_thing_type fuel types thing_type_id) [
          | none ↦ endless
          | some root ↦
              if is_base_agent root
              then if has_key cmd_types (thing_type_id ++ b'.' ∷ id)
                then refused (resource_exists id)
                else elim (parent_command_type fuel types cmd_types id kind.parent_type_id) [
                  | none ↦ endless
                  | some (inl e) ↦ refused e
                  | some (inr pct) ↦
                      elim (add_options pct new.options
                        (blank_command_type env thing_type_id id new)) [
                          | inl e ↦ refused e
                          | inr rct ↦
                              save_command_type fuel env types cmd_types (inherit_all pct rct)
                        ]
                ]
              else refused (root_thing_type_not_base_agent thing_type_id)
        ]
      ]
