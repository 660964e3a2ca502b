-- ===== src/RealTime/Mentions.antt =====
-- pkg/data/realtimecomputation/rule.go: the expressions that `onRuleReceived` adds, and the rules that the
-- expressions at a key are of.
use mathlib.Core.List.{Permᴰ, append-nil, append_assoc}
use harns.Prelude.{
  ℕ, ◌≡◌, refl, sym, ◌∙◌, inl, inr, arith, false, ◌||◌, Bool-cases, List, [], ◌∷◌, ◌++◌,
  if◌then◌else◌,
}
use harns.Prelude.Bytes.{eq_bytes, eq_bytes→eq}
use harns.Prelude.Dict.{Dict, has_key, store}
use harns.Prelude.Outcome.{ok}
use harns.RealTime.{Rule, Expression, Manager}
use harns.RealTime.Rules.{
  expressions_at, append_at, mentions, new_expression, new_expressions, receive_all,
}
use harns.RealTime.Paths.{join}
use harns.RealTime.Removal.{others}
use harns.RealTime.Keys.{expressions_at-store}

module _ {E : Type 0} where
  -- The new expressions of a rule that stand at one key: those whose own key it is.
  unfoldable pub own_expressions : Rule → E → Dict (List (List ℕ)) → List ℕ → List (Expression E)
  own_expressions r e [] q = []
  own_expressions r e (entry ∷ groups) q =
      let rest = own_expressions r e groups q in
      if eq_bytes (join r.thing_id entry.0) q then new_expression r e entry.1 ∷ rest else rest

  pub receive_all-own :
      (r : Rule) (e : E) (groups : Dict (List (List ℕ))) (rules : Dict (List (Expression E)))
      → (changed : Dict (List (Expression E))) × (receive_all r e groups rules ≡ ok changed)
        × ((q : List ℕ)
            → expressions_at changed q ≡ expressions_at rules q ++ own_expressions r e groups q)
  unfolding receive_all own_expressions append_at
  receive_all-own r e [] rules = (rules, refl, λ q. sym (append-nil (expressions_at rules q)))
  receive_all-own r e (entry ∷ groups) rules =
      let key = join r.thing_id entry.0 in
      let one = new_expression r e entry.1 ∷ [] in
      let mid = store rules key (expressions_at rules key ++ one) in
      let at = λ (q : List ℕ). expressions_at-store rules key (expressions_at rules key ++ one) q in
      let (changed, run', at') = receive_all-own r e groups mid in
      (
        changed,
        run',
        λ q. at' q ∙ elim (Bool-cases (eq_bytes key q)) [
          | inl h ↦ rw (at q, h, eq_bytes→eq key q h) (append_assoc (expressions_at rules q) one _)
          | inr h ↦ rw (at q, h) refl
        ],
      )

  -- Only an enabled rule has expressions.
  abbrev pub IsClean : Manager E → Type 0
  IsClean m =
      (id q : List ℕ)
      → has_key m.enabled_rules id ≡ false
      → mentions id (expressions_at m.rules q) ≡ false

  mentions-cons :
      (id : List ℕ) (e : Expression E) (exprs : List (Expression E))
      → mentions id (e ∷ exprs) ≡ (eq_bytes e.rule_id id || mentions id exprs)
  unfolding mentions
  mentions-cons id e exprs = ground arith

  pub mentions-append :
      (id : List ℕ) (xs ys : List (Expression E))
      → mentions id (xs ++ ys) ≡ (mentions id xs || mentions id ys)
  mentions-append id [] ys = unfold mentions in refl
  mentions-append id (x ∷ xs) ys =
      rw (mentions-cons id x (xs ++ ys), mentions-cons id x xs, mentions-append id xs ys)
        (ground arith)

  pub mentions-Permᴰ :
      {xs ys : List (Expression E)} (id : List ℕ) → Permᴰ xs ys → mentions id xs ≡ mentions id ys
  mentions-Permᴰ id Permᴰ.nil = refl
  mentions-Permᴰ id (Permᴰ.cons {a = a} {l₁ = l} e p) =
      rw (mentions-cons id, mentions-cons id, e, mentions-Permᴰ id p) refl
  mentions-Permᴰ id (Permᴰ.swap e e') =
      rw (mentions-cons id, mentions-cons id, mentions-cons id, mentions-cons id, e, e')
        (ground arith)
  mentions-Permᴰ id (Permᴰ.trans p q) = mentions-Permᴰ id p ∙ mentions-Permᴰ id q

  pub mentions-others_of :
      (id other : List ℕ) (exprs : List (Expression E))
      → mentions id exprs ≡ false
      → mentions id (others other exprs) ≡ false
  unfolding others
  mentions-others_of id other [] h = h
  mentions-others_of id other (e ∷ exprs) h =
      let h' = sym (mentions-cons id e exprs) ∙ h in
      let ih : mentions id (others other exprs) ≡ false =
        mentions-others_of id other exprs (ground (arith, h')) in
      elim (Bool-cases (eq_bytes e.rule_id other)) [
        | inl q ↦ rw q ih
        | inr q ↦ rw (q, mentions-cons id e) (ground (arith, h', ih))
      ]

  pub mentions-new_expressions :
      (id : List ℕ) (r : Rule) (e : E) (groups : Dict (List (List ℕ)))
      → eq_bytes r.meta.id id ≡ false
      → mentions id (new_expressions r e groups) ≡ false
  unfolding new_expressions new_expression mentions
  mentions-new_expressions id r e [] h = refl
  mentions-new_expressions id r e (entry ∷ groups) h =
      rw h (mentions-new_expressions id r e groups h)

  pub mentions-own_expressions :
      (id : List ℕ) (r : Rule) (e : E) (groups : Dict (List (List ℕ))) (q : List ℕ)
      → eq_bytes r.meta.id id ≡ false
      → mentions id (own_expressions r e groups q) ≡ false
  unfolding own_expressions new_expression mentions
  mentions-own_expressions id r e [] q h = refl
  mentions-own_expressions id r e (entry ∷ groups) q h =
      elim (Bool-cases (eq_bytes (join r.thing_id entry.0) q)) [
        | inl k ↦ rw (k, mentions, h) (mentions-own_expressions id r e groups q h)
        | inr k ↦ rw k (mentions-own_expressions id r e groups q h)
      ]
