-- ===== src/Control/Values.antt =====
-- pkg/control/command/deliver.go: the loops of `deliverCommand` over the options and over the request.
--
-- A request and the options of a command type are visited in the order of their maps.
use harns.Prelude.{
  ℕ, Bool, true, false, ◌&&◌, not, ◌⊎◌, inl, inr, Option, none, some, List, [], ◌∷◌, ◌++◌,
  if◌then◌else◌,
}
use harns.Prelude.Int.{ℤ}
use harns.Prelude.Decimal.{parse_int}
use harns.Prelude.Dict.{Dict, load, has_key, store, offer}
use harns.Prelude.Outcome.{Outcome, ok, panic}
use harns.Generic.Sets.{member}
use harns.RealTime.{ltb_int}
use harns.Control.{
  Datatype, Value, CommandOption, Floats, null, boolean, number, integer, text, composite,
  get_min_int, get_max_int, get_min_float, get_max_float,
}

-- `a <= b`
abbrev pub leb_int : ℤ → ℤ → Bool
leb_int a b = not (ltb_int b a)

-- The errors of a request; where the code gives the valid range or the valid values, the flag is set.
pub data DeliverError : Type 0 where
  thing_not_found : List ℕ → DeliverError
  thing_type_not_found : List ℕ → DeliverError
  command_type_not_found : List ℕ → DeliverError
  command_option_not_found : List (List ℕ) → DeliverError
  command_option_value_missed : List (List ℕ) → DeliverError
  integer_invalid : List ℕ → Bool → DeliverError
  double_invalid : List ℕ → Bool → DeliverError
  boolean_invalid : List ℕ → DeliverError
  timestamp_invalid : List ℕ → DeliverError
  enum_invalid : List ℕ → Bool → DeliverError

-- `strconv.ParseBool`
unfoldable pub parse_bool : List ℕ → Option Bool
parse_bool s =
    if member s (
      (b'1' ∷ [])
      ∷ (b't' ∷ [])
      ∷ (b'T' ∷ [])
      ∷ (b't' ∷ b'r' ∷ b'u' ∷ b'e' ∷ [])
      ∷ (b'T' ∷ b'R' ∷ b'U' ∷ b'E' ∷ [])
      ∷ (b'T' ∷ b'r' ∷ b'u' ∷ b'e' ∷ [])
      ∷ [])
    then some true
    else if member s (
        (b'0' ∷ [])
        ∷ (b'f' ∷ [])
        ∷ (b'F' ∷ [])
        ∷ (b'f' ∷ b'a' ∷ b'l' ∷ b's' ∷ b'e' ∷ [])
        ∷ (b'F' ∷ b'A' ∷ b'L' ∷ b'S' ∷ b'E' ∷ [])
        ∷ (b'F' ∷ b'a' ∷ b'l' ∷ b's' ∷ b'e' ∷ [])
        ∷ [])
    then some false
    else none

module _ {F C : Type 0} where
  -- The names of a request that the command type does not have.
  unfoldable pub unknown_names : Dict (CommandOption F C) → Dict (Value F C) → List (List ℕ)
  unknown_names by_name [] = []
  unknown_names by_name (entry ∷ obj) =
      let rest = unknown_names by_name obj in
      if has_key by_name entry.0 then rest else entry.0 ∷ rest

  abbrev pub is_null : Value F C → Bool
  is_null null = true
  is_null (boolean b) = false
  is_null (number x) = false
  is_null (integer i) = false
  is_null (text s) = false
  is_null (composite c) = false

  abbrev pub is_null_at : Option (Value F C) → Bool
  is_null_at none = false
  is_null_at (some v) = is_null v

  -- The options without a default that a request has with no value.
  unfoldable pub missed_names : List (CommandOption F C) → Dict (Value F C) → List (List ℕ)
  missed_names [] obj = []
  missed_names (o ∷ os) obj =
      let rest = missed_names os obj in
      if is_null o.default_value && is_null_at (load obj o.name) then o.name ∷ rest else rest

  -- `requiredOptions`
  unfoldable pub required_options :
      List (CommandOption F C) → Dict (CommandOption F C) → Dict (CommandOption F C)
  required_options [] found = found
  required_options (o ∷ os) found =
      required_options os (if o.required then store found o.name o else found)

  -- The loop over `requiredOptions`.
  unfoldable pub fill : Dict (CommandOption F C) → Dict (Value F C) → Dict (Value F C)
  fill [] legal = legal
  fill (entry ∷ required) legal =
      fill required (offer legal entry.0 (CommandOption.default_value entry.1))

  module _ (fl : Floats F C) where
    unfoldable pub legal_int : List ℕ → CommandOption F C → Value F C → DeliverError ⊎ Value F C
    unfolding get_min_int get_max_int
    legal_int k o (number x) =
        let i = fl.to_int64 x in
        if leb_int (get_min_int fl o) i && leb_int i (get_max_int fl o)
        then inr (integer i)
        else inl (integer_invalid k true)
    legal_int k o v = inl (integer_invalid k false)

    unfoldable pub legal_double : List ℕ → CommandOption F C → Value F C → DeliverError ⊎ Value F C
    unfolding get_min_float get_max_float
    legal_double k o (number x) =
        if fl.at_most (get_min_float fl o) x && fl.at_most x (get_max_float fl o)
        then inr (number x)
        else inl (double_invalid k true)
    legal_double k o v = inl (double_invalid k false)

    unfoldable pub legal_bool : List ℕ → Value F C → DeliverError ⊎ Value F C
    unfolding parse_bool
    legal_bool k (boolean b) = inr (boolean b)
    legal_bool k (text s) = elim (parse_bool s) [
      | none ↦ inl (boolean_invalid k)
      | some b ↦ inr (boolean b)
    ]
    legal_bool k v = inl (boolean_invalid k)

    unfoldable pub legal_timestamp : List ℕ → Value F C → DeliverError ⊎ Value F C
    unfolding parse_int
    legal_timestamp k (number x) = inr (integer (fl.to_int64 x))
    legal_timestamp k (text s) = elim (parse_int s) [
      | none ↦ inl (timestamp_invalid k)
      | some t ↦ inr (integer t)
    ]
    legal_timestamp k v = inl (timestamp_invalid k)

    unfoldable pub legal_enum : List ℕ → CommandOption F C → Value F C → DeliverError ⊎ Value F C
    legal_enum k o (text s) = if member s o.values then inr (text s) else inl (enum_invalid k true)
    legal_enum k o v = inl (enum_invalid k false)

    -- The switch over the datatype.
    unfoldable pub legal_by :
        Datatype → List ℕ → CommandOption F C → Value F C → DeliverError ⊎ Value F C
    unfolding legal_int legal_double legal_bool legal_timestamp legal_enum
    legal_by Datatype.string k o v = inr (text (fl.format v))
    legal_by Datatype.int k o v = legal_int k o v
    legal_by Datatype.double k o v = legal_double k o v
    legal_by Datatype.bool k o v = legal_bool k v
    legal_by Datatype.timestamp k o v = legal_timestamp k v
    legal_by Datatype.enum k o v = legal_enum k o v

    -- One round of the loop over the request, for an option that is there.
    unfoldable pub legal_value : List ℕ → CommandOption F C → Value F C → DeliverError ⊎ Value F C
    unfolding legal_by
    legal_value k o v = if is_null v then inr null else legal_by o.datatype k o v

    -- The loop over the request: the errors and the legal options so far go in and come out.
    unfoldable pub legal_options :
        Dict (CommandOption F C)
        → Dict (Value F C)
        → List DeliverError × Dict (Value F C)
        → Outcome (List DeliverError × Dict (Value F C))
    unfolding legal_value
    legal_options by_name [] (errs, legal) = ok (errs, legal)
    legal_options by_name ((k, v) ∷ obj) (errs, legal) = elim (load by_name k) [
      | none ↦ if is_null v then legal_options by_name obj (errs, store legal k null) else panic
      | some o ↦ legal_options by_name obj (elim (legal_value k o v) [
        | inl e ↦ (errs ++ e ∷ [], legal)
        | inr w ↦ (errs, store legal k w)
      ])
    ]
