-- ===== src/Control/Legal.antt =====
-- pkg/control/command/deliver.go: what the values of a command are that is delivered.
use harns.Prelude.{
  ℕ, ◌≡◌, refl, sym, arith, Bool, true, false, ◌&&◌, ◌⊎◌, inl, inr, Bool-cases, Option-cases, List,
  if◌then◌else◌,
}
use harns.Prelude.Decimal.{parse_int}
use harns.Generic.Sets.{member}
use harns.Control.{
  Datatype, Value, CommandOption, Floats, null, boolean, number, integer, text, composite,
  get_min_int, get_max_int, get_min_float, get_max_float,
}
use harns.Control.Values.{
  leb_int, legal_int, legal_double, legal_bool, legal_timestamp, legal_enum, legal_by, legal_value,
  parse_bool, is_null,
}

pub inr-inj : {A B : Type 0} {a b : B} → ◌≡◌ {A = A ⊎ B} (inr a) (inr b) → a ≡ b
inr-inj h = cc

pub inl-ne-inr : {A B : Type 0} {P : Type 0} {a : A} {b : B} → ◌≡◌ {A = A ⊎ B} (inl a) (inr b) → P
inl-ne-inr h = ground arith

module _ {F C : Type 0} (fl : Floats F C) where
  -- A value of the datatype that keeps the bounds of the option and is among its values; null is none.
  unfoldable pub fits : Datatype → CommandOption F C → Value F C → Bool
  fits dt o null = false
  fits Datatype.string o (text s) = true
  fits Datatype.int o (integer i) = leb_int (get_min_int fl o) i && leb_int i (get_max_int fl o)
  fits Datatype.double o (number x) =
      fl.at_most (get_min_float fl o) x && fl.at_most x (get_max_float fl o)
  fits Datatype.bool o (boolean b) = true
  fits Datatype.timestamp o (integer i) = true
  fits Datatype.enum o (text s) = member s o.values
  fits dt o v = false

  legal_int-fits :
      (k : List ℕ) (o : CommandOption F C) (v w : Value F C)
      → legal_int fl k o v ≡ inr w
      → fits Datatype.int o w ≡ true
  unfolding legal_int fits
  legal_int-fits k o (number x) w h =
      let i = fl.to_int64 x in
      elim (Bool-cases (leb_int (get_min_int fl o) i && leb_int i (get_max_int fl o))) [
        | inl q ↦ let e : integer i ≡ w = inr-inj (rw (legal_int, q) at h) in rw (sym e) q
        | inr q ↦ inl-ne-inr (rw (legal_int, q) at h)
      ]
  legal_int-fits k o null w h = inl-ne-inr h
  legal_int-fits k o (boolean b) w h = inl-ne-inr h
  legal_int-fits k o (integer i) w h = inl-ne-inr h
  legal_int-fits k o (text s) w h = inl-ne-inr h
  legal_int-fits k o (composite c) w h = inl-ne-inr h

  legal_double-fits :
      (k : List ℕ) (o : CommandOption F C) (v w : Value F C)
      → legal_double fl k o v ≡ inr w
      → fits Datatype.double o w ≡ true
  unfolding legal_double fits
  legal_double-fits k o (number x) w h =
      elim (Bool-cases (fl.at_most (get_min_float fl o) x && fl.at_most x (get_max_float fl o))) [
        | inl q ↦ let e : number x ≡ w = inr-inj (rw (legal_double, q) at h) in rw (sym e) q
        | inr q ↦ inl-ne-inr (rw (legal_double, q) at h)
      ]
  legal_double-fits k o null w h = inl-ne-inr h
  legal_double-fits k o (boolean b) w h = inl-ne-inr h
  legal_double-fits k o (integer i) w h = inl-ne-inr h
  legal_double-fits k o (text s) w h = inl-ne-inr h
  legal_double-fits k o (composite c) w h = inl-ne-inr h

  legal_bool-fits :
      (k : List ℕ) (o : CommandOption F C) (v w : Value F C)
      → legal_bool fl k v ≡ inr w
      → fits Datatype.bool o w ≡ true
  unfolding legal_bool fits
  legal_bool-fits k o (boolean b) w h = rw (sym (inr-inj h)) refl
  legal_bool-fits k o (text s) w h = elim (Option-cases (parse_bool s)) [
    | inl q ↦ inl-ne-inr (rw (legal_bool, q) at h)
    | inr (b, q) ↦ rw (sym (inr-inj (rw (legal_bool, q) at h))) refl
  ]
  legal_bool-fits k o null w h = inl-ne-inr h
  legal_bool-fits k o (number x) w h = inl-ne-inr h
  legal_bool-fits k o (integer i) w h = inl-ne-inr h
  legal_bool-fits k o (composite c) w h = inl-ne-inr h

  legal_timestamp-fits :
      (k : List ℕ) (o : CommandOption F C) (v w : Value F C)
      → legal_timestamp fl k v ≡ inr w
      → fits Datatype.timestamp o w ≡ true
  unfolding legal_timestamp fits
  legal_timestamp-fits k o (number x) w h = rw (sym (inr-inj h)) refl
  legal_timestamp-fits k o (text s) w h = elim (Option-cases (parse_int s)) [
    | inl q ↦ inl-ne-inr (rw (legal_timestamp, q) at h)
    | inr (i, q) ↦ rw (sym (inr-inj (rw (legal_timestamp, q) at h))) refl
  ]
  legal_timestamp-fits k o null w h = inl-ne-inr h
  legal_timestamp-fits k o (boolean b) w h = inl-ne-inr h
  legal_timestamp-fits k o (integer i) w h = inl-ne-inr h
  legal_timestamp-fits k o (composite c) w h = inl-ne-inr h

  legal_enum-fits :
      (k : List ℕ) (o : CommandOption F C) (v w : Value F C)
      → legal_enum fl k o v ≡ inr w
      → fits Datatype.enum o w ≡ true
  unfolding legal_enum fits
  legal_enum-fits k o (text s) w h = elim (Bool-cases (member s o.values)) [
    | inl q ↦ let e : text s ≡ w = inr-inj (rw (legal_enum, q) at h) in rw (sym e) q
    | inr q ↦ inl-ne-inr (rw (legal_enum, q) at h)
  ]
  legal_enum-fits k o null w h = inl-ne-inr h
  legal_enum-fits k o (boolean b) w h = inl-ne-inr h
  legal_enum-fits k o (number x) w h = inl-ne-inr h
  legal_enum-fits k o (integer i) w h = inl-ne-inr h
  legal_enum-fits k o (composite c) w h = inl-ne-inr h

  legal_by-fits :
      (dt : Datatype) (k : List ℕ) (o : CommandOption F C) (v w : Value F C)
      → legal_by fl dt k o v ≡ inr w
      → fits dt o w ≡ true
  unfolding legal_by
  legal_by-fits Datatype.string k o v w h = rw (sym (inr-inj h)) (unfold fits in refl)
  legal_by-fits Datatype.int k o v w h = legal_int-fits k o v w h
  legal_by-fits Datatype.double k o v w h = legal_double-fits k o v w h
  legal_by-fits Datatype.bool k o v w h = legal_bool-fits k o v w h
  legal_by-fits Datatype.timestamp k o v w h = legal_timestamp-fits k o v w h
  legal_by-fits Datatype.enum k o v w h = legal_enum-fits k o v w h

  -- What the loop over the request takes a value as: null as null, and any other as one that fits.
  pub legal_value-fits :
      (k : List ℕ) (o : CommandOption F C) (v w : Value F C)
      → legal_value fl k o v ≡ inr w
      → (if is_null v then is_null w else fits o.datatype o w) ≡ true
  unfolding legal_value
  legal_value-fits k o v w h = elim (Bool-cases (is_null v)) [
    | inl q ↦ let e : null ≡ w = inr-inj (rw (legal_value, q) at h) in rw (q, sym e) refl
    | inr q ↦ rw q (legal_by-fits o.datatype k o v w (rw (legal_value, q) at h))
  ]

  pub fits-is_null :
      (dt : Datatype) (o : CommandOption F C) (v : Value F C)
      → fits dt o v ≡ true
      → is_null v ≡ false
  unfolding fits
  fits-is_null dt o null h = absurd (ground arith)
  fits-is_null dt o (boolean b) h = refl
  fits-is_null dt o (number x) h = refl
  fits-is_null dt o (integer i) h = refl
  fits-is_null dt o (text s) h = refl
  fits-is_null dt o (composite c) h = refl
