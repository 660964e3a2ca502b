-- ===== src/RealTime/Events.antt =====
-- pkg/data/realtimecomputation/rule.go: what the events of rules do to the expressions at the keys.
use mathlib.Core.List.{Permᴰ, append-nil}
use mathlib.Core.List.Permᴰ
use harns.Prelude.{
  ℕ, ◌≡◌, refl, sym, ◌∙◌, arith, Bool, true, false, ◌&&◌, not, List, [], ◌++◌, if◌then◌else◌,
}
use harns.Prelude.Dict.{Dict, has_key, delete}
use harns.Prelude.Outcome.{ok, ◌>>=◌}
use harns.Generic.{Split, difference_and_intersection_strings}
use harns.Generic.Sets.{member, occurrences_of, difference_and_intersection_strings_lem}
use harns.RealTime.{Rule, Expression, Manager}
use harns.RealTime.Rules.{
  expressions_at, remove_rule, append_at, delete_at, drop_at, replace_at, for_keys,
  get_keys_by_rule_id, new_keys, new_expressions, on_rule_deleted, rewrite_rule,
}
use harns.RealTime.Removal.{others, others_self, swap_remove-others}
use harns.RealTime.Keys.{IsDistinct, for_keys-IsRound}
use harns.RealTime.Rounds.{
  append_at-IsRound, delete_at-IsRound, drop_at-IsRound, replace_at-IsRound,
}
use harns.RealTime.Collected.{
  occurrences_of-Permᴰ, member-Permᴰ, passing-Permᴰ, get_keys_by_rule_id-IsDistinct,
  get_keys_by_rule_id-has_key, mentions-collected, member_of-occurrences, IsDistinct-of_count,
}

-- An order of visiting has every element, once.
abbrev pub IsOrder : ((A : Type 0) → List A → List A) → Type 1
IsOrder order = (A : Type 0) (xs : List A) → Permᴰ (order A xs) xs

module _ {E : Type 0} where
  -- Removing a rule where it is collected leaves the others' expressions everywhere.
  removed :
      (id : List ℕ) (rules : Dict (List (Expression E))) (q : List ℕ) (collected : Bool)
      → member q (get_keys_by_rule_id id rules) ≡ collected
      → Permᴰ
          (if collected then remove_rule id (expressions_at rules q) else expressions_at rules q)
          (others id (expressions_at rules q))
  removed id rules q true h = (swap_remove-others id (expressions_at rules q)).1
  removed id rules q false h =
      rw (others_self id (expressions_at rules q) (mentions-collected id rules q h)) (Permᴰ.refl _)

  -- What the three loops of an update do at a key, by whether it is a key of the new expressions and of
  -- the old ones.
  settled :
      (id : List ℕ) (new : List (Expression E)) (rules : Dict (List (Expression E))) (q : List ℕ)
      (is_new collected : Bool)
      → member q (get_keys_by_rule_id id rules) ≡ collected
      → let at = expressions_at rules q in
        let at1 = if is_new && not collected then at ++ new else at in
        let at2 = if is_new && collected then remove_rule id at1 ++ new else at1 in
        Permᴰ
          (if not is_new && collected then remove_rule id at2 else at2)
          (others id at ++ (if is_new then new else []))
  settled id new rules q true true h = Permᴰ.append_right new (removed id rules q true h)
  settled id new rules q true false h = Permᴰ.append_right new (removed id rules q false h)
  settled id new rules q false true h = rw append-nil (removed id rules q true h)
  settled id new rules q false false h = rw append-nil (removed id rules q false h)

  -- The three loops of an update over the result of splitting the keys into new and old ones.
  three_loops :
      (id : List ℕ) (new : List (Expression E)) (rules : Dict (List (Expression E))) (s : Split)
      (wanted old : List ℕ → Bool)
      → ((k : List ℕ)
          → (occurrences_of k s.only_src ≡ (if wanted k && not (old k) then 1 else 0))
            × (occurrences_of k s.intersection ≡ (if wanted k && old k then 1 else 0))
            × (occurrences_of k s.only_des ≡ (if not (wanted k) && old k then 1 else 0)))
      → ((k : List ℕ) → old k ≡ true → has_key rules k ≡ true)
      → (changed : Dict (List (Expression E))) × ((for_keys (append_at new) s.only_src rules
            >>= (λ inserted. for_keys (replace_at id new) s.intersection inserted)
            >>= (λ updated. for_keys (drop_at id) s.only_des updated))
          ≡ ok changed)
        × ((q : List ℕ)
            → expressions_at changed q ≡ (
                let at = expressions_at rules q in
                let at1 = if wanted q && not (old q) then at ++ new else at in
                let at2 = if wanted q && old q then remove_rule id at1 ++ new else at1 in
                if not (wanted q) && old q then remove_rule id at2 else at2))
  three_loops id new rules s wanted old counts there =
      let in_src = λ (k : List ℕ). member_of-occurrences k s.only_src _ ((counts k).0) in
      let in_both = λ (k : List ℕ). member_of-occurrences k s.intersection _ ((counts k).1) in
      let in_des = λ (k : List ℕ). member_of-occurrences k s.only_des _ ((counts k).2) in
      let (rules1, run1, at1, keys1) =
        for_keys-IsRound false (λ xs. xs ++ new) (append_at new) (append_at-IsRound new) s.only_src
          rules (IsDistinct-of_count s.only_src _ (λ k. (counts k).0)) (λ k t. refl) in
      let ready2 : (k : List ℕ) → member k s.intersection ≡ true → has_key rules1 k ≡ true = λ k t.
        let was : old k ≡ true = ground (arith, in_both k) in
        let out : member k s.only_src ≡ false = in_src k ∙ ground (arith, was) in
        keys1 k out ∙ there k was in
      let (rules2, run2, at2, keys2) =
        for_keys-IsRound true (λ xs. remove_rule id xs ++ new) (replace_at id new)
          (replace_at-IsRound id new) s.intersection rules1
          (IsDistinct-of_count s.intersection _ (λ k. (counts k).1)) ready2 in
      let ready3 : (k : List ℕ) → member k s.only_des ≡ true → has_key rules2 k ≡ true = λ k t.
        let was : old k ≡ true = ground (arith, in_des k) in
        let unwanted : wanted k ≡ false = ground (arith, in_des k) in
        let out : member k s.only_src ≡ false = in_src k ∙ ground (arith, unwanted) in
        let out' : member k s.intersection ≡ false = in_both k ∙ ground (arith, unwanted) in
        keys2 k out' ∙ keys1 k out ∙ there k was in
      let (rules3, run3, at3, keys3) =
        for_keys-IsRound true (remove_rule id) (drop_at id) (drop_at-IsRound id) s.only_des rules2
          (IsDistinct-of_count s.only_des _ (λ k. (counts k).2)) ready3 in
      (
        rules3,
        rw (run1, run2, run3) refl,
        λ q. at3 q ∙ rw (in_des q, at2 q, in_both q, at1 q, in_src q) refl,
      )

module _ {E : Type 0} (order : (A : Type 0) → List A → List A) (is : IsOrder order) where
  -- `onRuleDeleted` of a rule that is enabled removes the expressions of the rule at every key, and keeps
  -- those of the other rules, in some order. The rule is no longer enabled.
  pub on_rule_deleted-others :
      (r : Rule) (m : Manager E)
      → has_key m.enabled_rules r.meta.id ≡ true
      → (after : Manager E) × (on_rule_deleted order r m ≡ ok after)
        × ((q : List ℕ)
            → Permᴰ (expressions_at after.rules q) (others r.meta.id (expressions_at m.rules q)))
        × (after.enabled_rules ≡ delete m.enabled_rules r.meta.id)
  unfolding on_rule_deleted
  on_rule_deleted-others r m h =
      let id = r.meta.id in
      let keys = get_keys_by_rule_id id m.rules in
      let same = λ (q : List ℕ). member-Permᴰ q (is _ keys) in
      let distinct : IsDistinct (order _ keys) = λ q.
        rw (occurrences_of-Permᴰ q (is _ keys)) (get_keys_by_rule_id-IsDistinct id m.rules q) in
      let (rules, run, at, _) =
        for_keys-IsRound false (remove_rule id) (delete_at id) (delete_at-IsRound id) (order _ keys)
          m.rules distinct (λ k t. refl) in
      (
        record { rules = rules; enabled_rules = delete m.enabled_rules id },
        rw (h, run) refl,
        λ q. rw (at q) (removed id m.rules q (member q (order _ keys)) (sym (same q))),
        refl,
      )

  -- The part of `onRuleUpdated` that writes: at every key the other rules' expressions stay, in some
  -- order, and the new expressions of the rule, all of them, stand at the keys of the new expressions and
  -- at no other.
  pub rewrite_rule-others :
      (r : Rule) (e : E) (groups : Dict (List (List ℕ))) (m : Manager E)
      → (after : Manager E) × (rewrite_rule order r e groups m ≡ ok after)
        × ((q : List ℕ)
            → Permᴰ (expressions_at after.rules q) (
                others r.meta.id (expressions_at m.rules q)
                ++ (if member q (new_keys r.thing_id groups)
                    then new_expressions r e groups
                    else [])))
        × (after.enabled_rules ≡ m.enabled_rules)
  unfolding rewrite_rule
  rewrite_rule-others r e groups m =
      let id = r.meta.id in
      let wanted = new_keys r.thing_id groups in
      let old = get_keys_by_rule_id id m.rules in
      let same = λ (k : List ℕ). member-Permᴰ k (is _ wanted) in
      let same' = λ (k : List ℕ). member-Permᴰ k (is _ old) in
      let (rules, run, at) =
        three_loops id (new_expressions r e groups) m.rules
          (difference_and_intersection_strings (order _) (order _ wanted) (order _ old))
          (λ k. member k wanted) (λ k. member k old)
          (λ k.
            rw (← same k, ← same' k)
              (difference_and_intersection_strings_lem (order _) (order _ wanted) (order _ old) k
                (λ t es. passing-Permᴰ t (is _ es))))
          (λ k h. get_keys_by_rule_id-has_key id m.rules k h) in
      (
        record m { rules = rules },
        rw run refl,
        λ q. rw (at q) (
            settled id (new_expressions r e groups) m.rules q (member q wanted) (member q old)
              refl),
        refl,
      )
