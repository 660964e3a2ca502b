-- ===== src/Control/Required.antt =====
-- pkg/control/command/deliver.go: the required options, and their defaults.
use mathlib.Core.List.{Memᴰ}
use mathlib.Core.Path.{subst}
use harns.Prelude.{
  ℕ, ◌≡◌, refl, sym, ap, ◌∙◌, arith, Bool, true, false, inl, inr, Bool-cases, some-inj, or_else,
  or_else_assoc, or_else-none, Option, none, some, List, [], ◌∷◌, if◌then◌else◌,
}
use harns.Prelude.Bytes.{eq_bytes, eq_bytes→eq, eq_bytes_self}
use harns.Prelude.Dict.{Dict, load, has_key, store, offer, load-store, load-offer}
use harns.Control.{Value, CommandOption}
use harns.Control.Values.{fill, required_options}
use harns.Control.Accepted.{has_key-store}

module _ {F C : Type 0} where
  abbrev pub default_of : Option (CommandOption F C) → Option (Value F C)
  default_of none = none
  default_of (some o) = some o.default_value

  -- A required option that the request does not have gets its default.
  pub load-fill :
      (required : Dict (CommandOption F C)) (legal : Dict (Value F C)) (k : List ℕ)
      → load (fill required legal) k ≡ or_else (load legal k) (default_of (load required k))
  unfolding fill
  load-fill [] legal k = sym (or_else-none (load legal k))
  load-fill (entry ∷ required) legal k =
      let d = CommandOption.default_value entry.1 in
      load-fill required (offer legal entry.0 d) k
      ∙ rw (load-offer legal entry.0 d k, or_else_assoc)
          (elim (Bool-cases (eq_bytes entry.0 k)) [ inl h ↦ rw h refl | inr h ↦ rw h refl ])

  took :
      (found : Dict (CommandOption F C)) (x : CommandOption F C) (b : Bool)
      → x.required ≡ b
      → (if x.required then store found x.name x else found)
        ≡ (if b then store found x.name x else found)
  took found x b q = ap (λ (t : Bool). if t then store found x.name x else found) q

  -- An entry of `requiredOptions` is a required option under its name.
  abbrev pub IsRequired : List (CommandOption F C) → List ℕ → CommandOption F C → Type 0
  IsRequired os k o = Memᴰ o os × (o.required ≡ true) × (o.name ≡ k)

  pub required_options-IsRequired :
      (os rest : List (CommandOption F C)) (found : Dict (CommandOption F C))
      → ((o : CommandOption F C) → Memᴰ o rest → Memᴰ o os)
      → ((k : List ℕ) (o : CommandOption F C) → load found k ≡ some o → IsRequired os k o)
      → (k : List ℕ) (o : CommandOption F C) → load (required_options rest found) k ≡ some o
      → IsRequired os k o
  unfolding required_options
  required_options-IsRequired os [] found within from = from
  required_options-IsRequired os (x ∷ rest) found within from = elim (Bool-cases x.required) [
    | inr q ↦
        rw (took found x false q)
          (required_options-IsRequired os rest found (λ o m. within o (Memᴰ.tail m)) from)
    | inl q ↦ rw (took found x true q) (
        required_options-IsRequired os rest (store found x.name x) (λ o m. within o (Memᴰ.tail m))
          (λ k o l. elim (Bool-cases (eq_bytes x.name k)) [
            | inl e ↦
                let same : x ≡ o = some-inj (sym (load-store found x.name x k ∙ rw e refl) ∙ l) in
                subst (λ (y : CommandOption F C). IsRequired os k y) same
                  (within x (Memᴰ.head refl), q, eq_bytes→eq x.name k e)
            | inr e ↦ from k o (sym (load-store found x.name x k ∙ rw e refl) ∙ l)
          ]))
  ]

  required_options-keeps :
      (os : List (CommandOption F C)) (found : Dict (CommandOption F C)) (k : List ℕ)
      → has_key found k ≡ true
      → has_key (required_options os found) k ≡ true
  unfolding required_options
  required_options-keeps [] found k h = h
  required_options-keeps (x ∷ os) found k h = elim (Bool-cases x.required) [
    | inl q ↦ rw (took found x true q) (
        required_options-keeps os (store found x.name x) k
          (has_key-store found x.name x k ∙ rw h (ground arith)))
    | inr q ↦ rw (took found x false q) (required_options-keeps os found k h)
  ]

  pub required_options-has_key :
      (os : List (CommandOption F C)) (found : Dict (CommandOption F C)) (o : CommandOption F C)
      → Memᴰ o os
      → o.required ≡ true
      → has_key (required_options os found) o.name ≡ true
  unfolding required_options
  required_options-has_key [] found o m h = elim m [ ]
  required_options-has_key (x ∷ os) found o (Memᴰ.head e) h =
      let q : x.required ≡ true = ap (λ (y : CommandOption F C). y.required) (sym e) ∙ h in
      let n : o.name ≡ x.name = ap (λ (y : CommandOption F C). y.name) e in
      rw (took found x true q, n)
        (required_options-keeps os (store found x.name x) x.name
          (has_key-store found x.name x x.name ∙ rw (eq_bytes_self x.name) refl))
  required_options-has_key (x ∷ os) found o (Memᴰ.tail m) h =
      required_options-has_key os (if x.required then store found x.name x else found) o m h
