-- ===== src/RealTime/Rounds.antt =====
-- pkg/data/realtimecomputation/rule.go: what a round of each loop over keys does, and the keys that
-- `getKeysByRuleID` collects.
use harns.Prelude.{
  ℕ, ◌≡◌, refl, sym, ◌∙◌, inl, inr, true, false, Bool-cases, Option-cases, none, some, List, [],
  ◌∷◌, ◌++◌, if◌then◌else◌,
}
use harns.Prelude.Bytes.{eq_bytes, eq_bytes→eq}
use harns.Prelude.Dict.{
  Dict, load, has_key, store, delete, has_key-load, has_key-delete, has_key-replace,
}
use harns.RealTime.{Expression}
use harns.RealTime.Rules.{
  expressions_at, swap_remove, remove_rule, put_or_delete, append_at, delete_at, drop_at,
  replace_at,
}
use harns.RealTime.Keys.{
  IsRound, expressions_at-store, expressions_at-some, expressions_at-none,
  expressions_at-put_or_delete,
}

module _ {V : Type 0} where
  pub has_key-store_ne :
      (d : Dict V) (k : List ℕ) (v : V) (q : List ℕ)
      → eq_bytes k q ≡ false
      → has_key (store d k v) q ≡ has_key d q
  has_key-store_ne d k v q h = elim (Bool-cases (has_key d k)) [
    | inl t ↦ rw t (has_key-replace d k v q)
    | inr f ↦ rw (f, h) refl
  ]

  has_key-delete_ne :
      (d : Dict V) (k q : List ℕ) → eq_bytes k q ≡ false → has_key (delete d k) q ≡ has_key d q
  has_key-delete_ne d k q h = has_key-delete d k q ∙ rw h refl

module _ {E : Type 0} where
  has_key-put_or_delete_ne :
      (rules : Dict (List (Expression E))) (k : List ℕ) (exprs : List (Expression E)) (q : List ℕ)
      → eq_bytes k q ≡ false
      → has_key (put_or_delete rules k exprs) q ≡ has_key rules q
  unfolding put_or_delete
  has_key-put_or_delete_ne rules k [] q h = has_key-delete_ne rules k q h
  has_key-put_or_delete_ne rules k (e ∷ exprs) q h = has_key-store_ne rules k (e ∷ exprs) q h

  pub append_at-IsRound :
      (exprs : List (Expression E)) → IsRound false (λ xs. xs ++ exprs) (append_at exprs)
  unfolding append_at
  append_at-IsRound exprs rules k h =
      let at : (q : List ℕ)
          → expressions_at (store rules k (expressions_at rules k ++ exprs)) q
            ≡ (if eq_bytes k q then expressions_at rules q ++ exprs else expressions_at rules q) =
        λ q.
          expressions_at-store rules k (expressions_at rules k ++ exprs) q
          ∙ elim (Bool-cases (eq_bytes k q)) [
            | inl e ↦ rw (e, eq_bytes→eq k q e) refl
            | inr e ↦ rw e refl
          ] in
      (
        store rules k (expressions_at rules k ++ exprs),
        refl,
        at,
        λ q a. has_key-store_ne rules k (expressions_at rules k ++ exprs) q a,
      )

  -- A write of `f` of the expressions at a key.
  written :
      (f : List (Expression E) → List (Expression E)) (rules : Dict (List (Expression E)))
      (k : List ℕ) (exprs : List (Expression E)) (q : List ℕ)
      → load rules k ≡ some exprs
      → (if eq_bytes k q then f exprs else expressions_at rules q)
        ≡ (if eq_bytes k q then f (expressions_at rules q) else expressions_at rules q)
  written f rules k exprs q l = elim (Bool-cases (eq_bytes k q)) [
    | inl e ↦ rw (e, sym (eq_bytes→eq k q e), expressions_at-some rules k exprs l) refl
    | inr e ↦ rw e refl
  ]

  pub drop_at-IsRound : (id : List ℕ) → IsRound {E = E} true (remove_rule id) (drop_at id)
  unfolding drop_at
  drop_at-IsRound id rules k h =
      let (exprs, l) = has_key-load rules k h in
      (
        put_or_delete rules k (remove_rule id exprs),
        rw (drop_at, l) refl,
        λ q.
            expressions_at-put_or_delete rules k (remove_rule id exprs) q
            ∙ written (remove_rule id) rules k exprs q l,
        λ q a. has_key-put_or_delete_ne rules k (remove_rule id exprs) q a,
      )

  pub replace_at-IsRound :
      (id : List ℕ) (new_exprs : List (Expression E))
      → IsRound true (λ xs. remove_rule id xs ++ new_exprs) (replace_at id new_exprs)
  unfolding replace_at
  replace_at-IsRound id new_exprs rules k h =
      let (exprs, l) = has_key-load rules k h in
      (
        store rules k (remove_rule id exprs ++ new_exprs),
        rw (replace_at, l) refl,
        λ q.
            expressions_at-store rules k (remove_rule id exprs ++ new_exprs) q
            ∙ written (λ xs. remove_rule id xs ++ new_exprs) rules k exprs q l,
        λ q a. has_key-store_ne rules k (remove_rule id exprs ++ new_exprs) q a,
      )

  delete_at-missing :
      (id : List ℕ) (rules : Dict (List (Expression E))) (k q : List ℕ)
      → load rules k ≡ none
      → expressions_at rules q
        ≡ (if eq_bytes k q then remove_rule id (expressions_at rules q) else expressions_at rules q)
  unfolding remove_rule swap_remove
  delete_at-missing id rules k q l = elim (Bool-cases (eq_bytes k q)) [
    | inl e ↦ rw (e, sym (eq_bytes→eq k q e), expressions_at-none rules k l) refl
    | inr e ↦ rw e refl
  ]

  pub delete_at-IsRound : (id : List ℕ) → IsRound {E = E} false (remove_rule id) (delete_at id)
  unfolding delete_at
  delete_at-IsRound id rules k h = elim (Option-cases (load rules k)) [
    | inl l ↦ (rules, rw (delete_at, l) refl, λ q. delete_at-missing id rules k q l, λ q a. refl)
    | inr (exprs, l) ↦ (
      put_or_delete rules k (remove_rule id exprs),
      rw (delete_at, l) refl,
      λ q.
          expressions_at-put_or_delete rules k (remove_rule id exprs) q
          ∙ written (remove_rule id) rules k exprs q l,
      λ q a. has_key-put_or_delete_ne rules k (remove_rule id exprs) q a,
    )
  ]
