-- ===== src/RealTime/Removal.antt =====
-- The loop of pkg/data/realtimecomputation/rule.go that removes the expressions of a rule from a list:
-- each one is swapped with the last and cut off, and the place is looked at again.
use mathlib.Core.List.{Permᴰ, append-nil, append_assoc}
use mathlib.Core.List.Permᴰ
use mathlib.Core.Path.{subst}
use harns.Prelude.{
  ℕ, zero, suc, ◌+◌, ◌-◌, ◌≤◌, ◌≡◌, refl, sym, ap, ◌∙◌, inl, inr, arith, true, false, Bool-cases,
  none, some, List, [], ◌∷◌, ◌++◌, length, length-append, ltb, if◌then◌else◌, get_or, get_elem?,
  set, take-append_self,
}
use harns.Prelude.Bytes.{eq_bytes}
use harns.RealTime.{Expression}
use harns.RealTime.Rules.{swap_out, swap_remove, remove_rule, mentions}

module _ {E : Type 0} where
  -- The expressions of the other rules, in their order.
  unfoldable pub others : List ℕ → List (Expression E) → List (Expression E)
  others id [] = []
  others id (e ∷ exprs) =
      let rest = others id exprs in if eq_bytes e.rule_id id then rest else e ∷ rest

  pub others-append :
      (id : List ℕ) (xs ys : List (Expression E))
      → others id (xs ++ ys) ≡ others id xs ++ others id ys
  unfolding others
  others-append id [] ys = refl
  others-append id (x ∷ xs) ys = elim (Bool-cases (eq_bytes x.rule_id id)) [
    | inl h ↦ rw h (others-append id xs ys)
    | inr h ↦ rw h (ap (λ t. x ∷ t) (others-append id xs ys))
  ]

  pub others_self :
      (id : List ℕ) (exprs : List (Expression E))
      → mentions id exprs ≡ false
      → others id exprs ≡ exprs
  unfolding others mentions
  others_self id [] h = refl
  others_self id (e ∷ exprs) h = elim (Bool-cases (eq_bytes e.rule_id id)) [
    | inl q ↦ let same : true ≡ false = rw q at h in absurd (ground arith)
    | inr q ↦ rw q (ap (λ t. e ∷ t) (others_self id exprs (rw q at h)))
  ]

  pub mentions-others :
      (id : List ℕ) (exprs : List (Expression E)) → mentions id (others id exprs) ≡ false
  unfolding others mentions
  mentions-others id [] = refl
  mentions-others id (e ∷ exprs) = elim (Bool-cases (eq_bytes e.rule_id id)) [
    | inl q ↦ rw q (mentions-others id exprs)
    | inr q ↦ rw (q, mentions, q) (mentions-others id exprs)
  ]

  -- A list that is not empty has a last element.
  split_last :
      (x : Expression E) (xs : List (Expression E))
      → (init : List (Expression E)) × (last : Expression E) × (x ∷ xs ≡ init ++ last ∷ [])
  split_last x [] = ([], x, refl)
  split_last x (y ∷ ys) =
      let (init, last, e) = split_last y ys in (x ∷ init, last, ap (λ t. x ∷ t) e)

  get_elem?-middle :
      (before : List (Expression E)) (e : Expression E) (after : List (Expression E))
      → get_elem? (before ++ e ∷ after) (length before) ≡ some e
  get_elem?-middle [] e after = refl
  get_elem?-middle (b ∷ before) e after = get_elem?-middle before e after

  get_elem?-end : (xs : List (Expression E)) → get_elem? xs (length xs) ≡ none
  get_elem?-end [] = refl
  get_elem?-end (x ∷ xs) = get_elem?-end xs

  set-middle :
      (before : List (Expression E)) (e x : Expression E) (after : List (Expression E))
      → set (before ++ e ∷ after) (length before) x ≡ before ++ x ∷ after
  set-middle [] e x after = refl
  set-middle (b ∷ before) e x after = ap (λ t. b ∷ t) (set-middle before e x after)

  get_or-middle :
      (before : List (Expression E)) (e d : Expression E) (after : List (Expression E))
      → get_or (before ++ e ∷ after) (length before) d ≡ e
  get_or-middle [] e d after = refl
  get_or-middle (b ∷ before) e d after = get_or-middle before e d after

  -- Swapping out the last element cuts it off.
  swap_out-last :
      (before : List (Expression E)) (e : Expression E)
      → swap_out (before ++ e ∷ []) (length before) e ≡ before
  unfolding swap_out
  swap_out-last before e =
      let len : length (before ++ e ∷ []) - 1 ≡ length before =
        omega (arith, length-append before (e ∷ [])) in
      rw (len, set-middle) (take-append_self (length before) before _ refl)

  -- Swapping out an element before the last puts the last in its place.
  swap_out-middle :
      (before : List (Expression E)) (e : Expression E) (init : List (Expression E))
      (last : Expression E)
      → swap_out (before ++ e ∷ (init ++ last ∷ [])) (length before) e ≡ before ++ last ∷ init
  unfolding swap_out
  swap_out-middle before e init last =
      let n = length (before ++ last ∷ init) in
      let len : length (before ++ e ∷ (init ++ last ∷ [])) - 1 ≡ length (before ++ e ∷ init) =
        omega (
          arith,
          length-append before (e ∷ (init ++ last ∷ [])),
          length-append init (last ∷ []),
          length-append before (e ∷ init),
        ) in
      let shape : before ++ e ∷ (init ++ last ∷ []) ≡ (before ++ e ∷ init) ++ last ∷ [] =
        sym (append_assoc before (e ∷ init) (last ∷ [])) in
      let shape' : before ++ last ∷ (init ++ last ∷ []) ≡ (before ++ last ∷ init) ++ last ∷ [] =
        sym (append_assoc before (last ∷ init) (last ∷ [])) in
      let found : get_or (before ++ e ∷ (init ++ last ∷ [])) (length (before ++ e ∷ init)) e
          ≡ last =
        rw shape (get_or-middle (before ++ e ∷ init) last e []) in
      let same : length (before ++ last ∷ init) ≡ length (before ++ e ∷ init) =
        omega (arith, length-append before (last ∷ init), length-append before (e ∷ init)) in
      rw (len, found, set-middle, shape')
        (take-append_self (length (before ++ e ∷ init)) (before ++ last ∷ init) (last ∷ []) same)

  others-rotate :
      (id : List ℕ) (last : Expression E) (init : List (Expression E))
      → Permᴰ (others id (last ∷ init)) (others id (init ++ last ∷ []))
  unfolding others
  others-rotate id last init = elim (Bool-cases (eq_bytes last.rule_id id)) [
    | inl h ↦ rw (h, others-append id init (last ∷ []), others, h, append-nil) (Permᴰ.refl _)
    | inr h ↦
        let turn : Permᴰ (last ∷ (others id init ++ [])) (others id init ++ last ∷ []) =
          Permᴰ.symm (Permᴰ.middle last (others id init) []) in
        rw (h, others-append id init (last ∷ []), others, h) (rw (append-nil) at turn)
  ]

  -- What the loop does from an index on: it keeps what stands before it, and of the rest the other
  -- rules' expressions.
  abbrev LeavesOthers : ℕ → List ℕ → List (Expression E) → List (Expression E) → Type 0
  LeavesOthers fuel id before after =
      (kept : List (Expression E)) × (swap_remove id fuel (length before) (before ++ after)
        ≡ some kept)
      × Permᴰ kept (before ++ others id after)

  -- The round of an expression of the rule, when the rest of the loop does what it should.
  swap_remove-hit_last :
      (fuel : ℕ) (id : List ℕ) (before : List (Expression E)) (e : Expression E)
      → eq_bytes e.rule_id id ≡ true
      → LeavesOthers fuel id before []
      → LeavesOthers (suc fuel) id before (e ∷ [])
  unfolding swap_remove others
  swap_remove-hit_last fuel id before e hit (kept, run, perm) = (
    kept,
    rw (swap_remove, get_elem?-middle before e [], hit, swap_out-last) (rw (append-nil) at run),
    rw hit perm,
  )

  swap_remove-hit_middle :
      (fuel : ℕ) (id : List ℕ) (before : List (Expression E)) (e : Expression E)
      (init : List (Expression E)) (last : Expression E)
      → eq_bytes e.rule_id id ≡ true
      → LeavesOthers fuel id before (last ∷ init)
      → LeavesOthers (suc fuel) id before (e ∷ (init ++ last ∷ []))
  unfolding swap_remove others
  swap_remove-hit_middle fuel id before e init last hit (kept, run, perm) = (
    kept,
    rw (swap_remove, get_elem?-middle before e (init ++ last ∷ []), hit, swap_out-middle) run,
    rw hit (Permᴰ.trans perm (Permᴰ.append_left before (others-rotate id last init))),
  )

  swap_remove-hit :
      (fuel : ℕ) (id : List ℕ) (before : List (Expression E)) (e : Expression E)
      (after : List (Expression E))
      → eq_bytes e.rule_id id ≡ true
      → ((rest : List (Expression E)) → length rest ≤ fuel → LeavesOthers fuel id before rest)
      → length (e ∷ after) ≤ suc fuel
      → LeavesOthers (suc fuel) id before (e ∷ after)
  swap_remove-hit fuel id before e [] hit loop h =
      swap_remove-hit_last fuel id before e hit (loop [] (omega arith))
  swap_remove-hit fuel id before e (x ∷ xs) hit loop h =
      let (init, last, shape) = split_last x xs in
      let len : suc (length xs) ≡ length init + 1 =
        ap (λ t. length t) shape ∙ length-append init (last ∷ []) in
      subst (λ (rest : List (Expression E)). LeavesOthers (suc fuel) id before (e ∷ rest))
        (sym shape)
        (swap_remove-hit_middle fuel id before e init last hit (loop (last ∷ init) (omega arith)))

  swap_remove-from :
      (fuel : ℕ) (id : List ℕ) (before after : List (Expression E))
      → length after ≤ fuel
      → LeavesOthers fuel id before after
  unfolding swap_remove others
  swap_remove-from zero id before [] h =
      let over : ltb (length before) (length (before ++ [])) ≡ false =
        rw append-nil (ground arith) in
      (before ++ [], rw (swap_remove, over) refl, Permᴰ.refl _)
  swap_remove-from zero id before (e ∷ after) h = absurd (omega arith)
  swap_remove-from (suc fuel) id before [] h =
      let end : get_elem? (before ++ []) (length before) ≡ none =
        rw append-nil (get_elem?-end before) in
      (before ++ [], rw (swap_remove, end) refl, Permᴰ.refl _)
  swap_remove-from (suc fuel) id before (e ∷ after) h = elim (Bool-cases (eq_bytes e.rule_id id)) [
    | inl hit ↦ swap_remove-hit fuel id before e after hit (swap_remove-from fuel id before) h
    | inr miss ↦
        let shape : before ++ e ∷ after ≡ (before ++ e ∷ []) ++ after =
          sym (append_assoc before (e ∷ []) after) in
        let len : suc (length before) ≡ length (before ++ e ∷ []) =
          omega (arith, length-append before (e ∷ [])) in
        let (kept, run, perm) = swap_remove-from fuel id (before ++ e ∷ []) after (omega arith) in
        (
          kept,
          rw (swap_remove, get_elem?-middle before e after, miss) (rw (← len, ← shape) at run),
          rw miss (rw (append_assoc before (e ∷ []) (others id after)) at perm),
        )
  ]

  -- The loop from the first expression on ends within a round for each expression, and what it leaves is
  -- the other rules' expressions, in some order.
  pub swap_remove-others :
      (id : List ℕ) (exprs : List (Expression E))
      → (swap_remove id (length exprs) 0 exprs ≡ some (remove_rule id exprs))
        × Permᴰ (remove_rule id exprs) (others id exprs)
  unfolding remove_rule
  swap_remove-others id exprs =
      let (kept, run, perm) = swap_remove-from (length exprs) id [] exprs (omega arith) in
      let same : remove_rule id exprs ≡ kept = rw (remove_rule, run) refl in
      (run ∙ ap some (sym same), rw same perm)
