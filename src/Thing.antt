-- ===== src/Thing.antt =====
-- pkg/model/runtime/types.go, pkg/model/v1/types.go and defaults.go of pkg/model/thing: the data of
-- the thing model.
--
-- A text is a list of bytes and a pointer that may be nil an `Option`. A float64 is the number of its
-- bits, and a time a number. The parent and the type of a thing are the identifiers that its pointers
-- lead to. A property set type is a value: that one is shared by several thing types is not modelled.
pub mod Sorter
pub mod Types
pub mod Forest
pub mod Lineage
pub mod Inherit
pub mod Filter
pub mod Things
pub mod Update
pub mod Values
pub mod Rows
pub mod Stored
pub mod Children
pub mod Below
pub mod Cycle
pub mod Moves
pub mod Acyclic
pub mod Creation
pub mod Runs
pub mod Orphans
pub mod Tree
mod Tests
mod RunTests
pub mod Nearest
pub mod Walks
pub mod Indexed
pub mod Reindex
use harns.Prelude.{
  if◌then◌else◌, false, ◌≢◌, ◌≡◌, refl, ℕ, Bool, true, Option, none, some, List, [], ◌∷◌,
}
use harns.Prelude.Int.{ℤ}
use harns.Prelude.Dict.{Dict}

pub data Datatype : Type 0 where
  string int long double boolean : Datatype

-- The same fields in `runtime` and in `v1`.
pub record Characteristic : Type 0 where
  pub name : List ℕ
  pub unit : List ℕ
  pub length_of_text : ℤ
  pub data_type : Datatype
  pub default_value : List ℕ
  pub searchable : Bool

-- The same fields in `runtime` and in `v1`.
pub record Property : Type 0 where
  pub name : List ℕ
  pub unit : List ℕ
  pub length_of_text : ℤ
  pub data_type : Datatype
  pub access_mode : ℕ
  pub minimum : Option ℕ
  pub maximum : Option ℕ

-- `ObjectMeta`
pub record ObjectMeta : Type 0 where
  pub tenant : List ℕ
  pub name : List ℕ
  pub id : List ℕ
  pub version : List ℕ
  pub mod_time : ℕ

pub record PropertySetType : Type 0 where
  pub meta : ObjectMeta
  pub description : Option (List ℕ)
  pub properties : List Property
  pub property_by_name : Dict Property

pub record PropertySet : Type 0 where
  pub name : List ℕ
  pub property_set_type : PropertySetType

pub record ThingType : Type 0 where
  pub meta : ObjectMeta
  pub description : Option (List ℕ)
  pub parent_type_id : List ℕ
  pub instantiable : Option Bool
  pub characteristics : List Characteristic
  pub property_sets : List PropertySet
  pub characteristic_by_name : Dict Characteristic
  pub property_set_by_name : Dict PropertySet

pub record Value : Type 0 where
  pub name : List ℕ
  pub value : List ℕ
  pub definition : Option Characteristic

pub record Thing : Type 0 where
  pub meta : ObjectMeta
  pub description : Option (List ℕ)
  pub type_id : List ℕ
  pub parent : Option (List ℕ)
  pub time_zone : Option (List ℕ)
  pub characteristics : List Value
  pub characteristic_by_name : Dict Characteristic
  pub property_set_by_name : Dict PropertySet

-- What a request holds: the types of `v1`.
pub record NewPropertySetType : Type 0 where
  pub name : List ℕ
  pub description : Option (List ℕ)
  pub properties : List Property

pub record NewPropertySet : Type 0 where
  pub name : List ℕ
  pub property_set_type_id : Option (List ℕ)
  pub property_set_type : Option NewPropertySetType

pub record NewThingType : Type 0 where
  pub name : List ℕ
  pub description : Option (List ℕ)
  pub parent_type_id : List ℕ
  pub instantiable : Option Bool
  pub characteristics : List Characteristic
  pub property_sets : List NewPropertySet

pub record NewValue : Type 0 where
  pub name : List ℕ
  pub value : List ℕ

pub record NewThing : Type 0 where
  pub name : List ℕ
  pub description : Option (List ℕ)
  pub type_id : List ℕ
  pub parent_id : List ℕ
  pub time_zone : Option (List ℕ)
  pub characteristics : List NewValue

-- The errors that the operations return. `endless` is no error of the code: it says that the fuel of a
-- walk is used up.
pub data Failure : Type 0 where
  resource_exists parent_type_not_found property_set_type_not_found internal not_exist : Failure
  child_type_exist mismatch delete_fundamental_resource_failed thing_type_not_found : Failure
  thing_type_not_instantiable time_zone_invalid characteristic_not_found cycled_thing : Failure
  invalid_parent immutable_field store_error endless : Failure

-- What an operation returns: a value, an error, or the panic of a nil pointer.
pub data Result (A : Type 0) : Type 0 where
  done : A → Result A
  failed : Failure → Result A
  panic : Result A

infixl 5 ◌>>=◌
abbrev pub ◌>>=◌ : {A B : Type 0} → Result A → (A → Result B) → Result B
done a >>= f = f a
failed e >>= f = failed e
panic >>= f = panic

pub bind_done :
    {A B : Type 0} (m : Result A) (f : A → Result B) (b : B)
    → (m >>= f) ≡ done b
    → (a : A) × (m ≡ done a) × (f a ≡ done b)
bind_done (done a) f b h = (a, refl, h)
bind_done (failed e) f b h = cc
bind_done panic f b h = cc

-- A guard that returns an error was not taken.
pub guard_done :
    {A : Type 0} (b : Bool) (e : Failure) (m : Result A) (a : A)
    → (if b then failed e else m) ≡ done a
    → (b ≡ false) × (m ≡ done a)
guard_done true e m a h = cc
guard_done false e m a h = (refl, h)

pub done-inj : {A : Type 0} (a b : A) → done a ≡ done b → a ≡ b
done-inj a b h = cc

pub failed-ne-done : {A : Type 0} (e : Failure) (a : A) → failed e ≢ done a
failed-ne-done e a h = cc

pub panic-ne-done : {A : Type 0} (a : A) → panic ≢ done a
panic-ne-done a h = cc

-- `SetDefaults_ThingType`
abbrev pub set_defaults_thing_type : ThingType → ThingType
set_defaults_thing_type ty = record ty {
  instantiable = elim ty.instantiable [ none ↦ some true | some b ↦ some b ];
}
