-- ===== src/Thing/Below.antt =====
-- pkg/model/thing/manager.go: `isMyChildThing` finds the things below a thing, and no other.
use mathlib.Core.List.{Memᴰ}
use mathlib.Core.Path.{subst}
use harns.Prelude.{
  ℕ, zero, suc, ◌≡◌, refl, sym, ap, ◌∙◌, ◌⊎◌, inl, inr, arith, Bool, true, false, some, some-inj,
  ◌↔◌, List, [], ◌∷◌, Bool-cases,
}
use harns.Prelude.Bytes.{eq_bytes, eq_bytes→eq, eq_bytes_self}
use harns.Prelude.Dict.{Dict}
use harns.Thing.{Thing}
use harns.Thing.Filter.{get_things}
use harns.Thing.Things.{children_of, children_of_all, is_id_of, is_below, is_my_child_thing}
use harns.Thing.Children.{IsChild, append-Mem, Mem-left, Mem-right}

module _ (tenant : List ℕ) (things : Dict Thing) where
  -- A thing stands below another: it is a child of it, or below a child.
  pub data IsBelow : List ℕ → List ℕ → Type 0 where
    child : {p : List ℕ} {t : Thing} → IsChild tenant things p t → IsBelow p t.meta.id
    deeper :
        {p x : List ℕ} {t : Thing} → IsChild tenant things p t → IsBelow t.meta.id x → IsBelow p x

  pub IsBelow-child :
      {p q : List ℕ} {t : Thing} → IsBelow p q → IsChild tenant things q t → IsBelow p t.meta.id
  IsBelow-child (child c) k = deeper c (child k)
  IsBelow-child (deeper c b) k = deeper c (IsBelow-child b k)

  -- One of a list, or below one of it.
  IsReached : List Thing → List ℕ → Type 0
  IsReached cs x = (c : Thing) × Memᴰ c cs × ((x ≡ c.meta.id) ⊎ IsBelow c.meta.id x)

  is_id_of-Mem :
      (cs : List Thing) (x : List ℕ)
      → is_id_of cs x ≡ true
      → (c : Thing) × Memᴰ c cs × (x ≡ c.meta.id)
  is_id_of-Mem [] x h = absurd (ground arith)
  is_id_of-Mem (c ∷ cs) x h = elim (Bool-cases (eq_bytes c.meta.id x)) [
    | inl q ↦ (c, Memᴰ.head refl, sym (eq_bytes→eq c.meta.id x q))
    | inr q ↦ let (c', m, e) = is_id_of-Mem cs x (ground arith) in (c', Memᴰ.tail m, e)
  ]

  Mem-is_id_of : (cs : List Thing) (c : Thing) → Memᴰ c cs → is_id_of cs c.meta.id ≡ true
  Mem-is_id_of [] c m = elim m [ ]
  Mem-is_id_of (d ∷ cs) c (Memᴰ.head e) =
      let same : eq_bytes d.meta.id c.meta.id ≡ true =
        ap (λ (y : Thing). eq_bytes y.meta.id c.meta.id) (sym e) ∙ eq_bytes_self c.meta.id in
      rw same refl
  Mem-is_id_of (d ∷ cs) c (Memᴰ.tail m) = let rest = Mem-is_id_of cs c m in ground arith

  pub children_of_all-Mem :
      (cs : List Thing) (k : Thing)
      → Memᴰ k (children_of_all tenant things cs)
      → (c : Thing) × Memᴰ c cs × IsChild tenant things c.meta.id k
  children_of_all-Mem [] k m = elim m [ ]
  children_of_all-Mem (c ∷ cs) k m =
      elim (append-Mem (get_things tenant things (children_of c.meta.id))
        (children_of_all tenant things cs) m) [
          | inl l ↦ (c, Memᴰ.head refl, l)
          | inr r ↦ let (c', m', k') = children_of_all-Mem cs k r in (c', Memᴰ.tail m', k')
        ]

  Mem-children_of_all :
      (cs : List Thing) (c k : Thing)
      → Memᴰ c cs
      → IsChild tenant things c.meta.id k
      → Memᴰ k (children_of_all tenant things cs)
  Mem-children_of_all [] c k m h = elim m [ ]
  Mem-children_of_all (d ∷ cs) c k (Memᴰ.head e) h =
      Mem-left (get_things tenant things (children_of d.meta.id)) (children_of_all tenant things cs)
        (subst (λ (y : Thing). IsChild tenant things y.meta.id k) e h)
  Mem-children_of_all (d ∷ cs) c k (Memᴰ.tail m) h =
      Mem-right (get_things tenant things (children_of d.meta.id))
        (children_of_all tenant things cs) (Mem-children_of_all cs c k m h)

  is_below_sound :
      (n : ℕ) (cs : List Thing) (x : List ℕ)
      → is_below n tenant things cs x ≡ some true
      → IsReached cs x
  unfolding is_below IsReached
  is_below_sound zero cs x h = cc
  is_below_sound (suc n) [] x h = cc
  is_below_sound (suc n) (c ∷ cs) x h = elim (Bool-cases (is_id_of (c ∷ cs) x)) [
    | inl q ↦ let (c', m, e) = is_id_of-Mem (c ∷ cs) x q in (c', m, inl e)
    | inr q ↦
        let (k, m, r) = is_below_sound n (children_of_all tenant things (c ∷ cs)) x (rw q at h) in
        let (c', m', k') = children_of_all-Mem (c ∷ cs) k m in
        (
          c',
          m',
          inr (elim r [
            | inl e ↦ subst (λ (y : List ℕ). IsBelow c'.meta.id y) (sym e) (child k')
            | inr b ↦ deeper k' b
          ]),
        )
  ]

  IsReached-next :
      (cs : List Thing) (x : List ℕ)
      → is_id_of cs x ≡ false
      → IsReached cs x
      → IsReached (children_of_all tenant things cs) x
  unfolding IsReached
  IsReached-next cs x h (c, m, inl e) =
      let there : is_id_of cs x ≡ true = ap (is_id_of cs) e ∙ Mem-is_id_of cs c m in
      absurd (ground arith)
  IsReached-next cs x h (c, m, inr (child {t = t} k)) =
      (t, Mem-children_of_all cs c t m k, inl refl)
  IsReached-next cs x h (c, m, inr (deeper {t = t} k b)) =
      (t, Mem-children_of_all cs c t m k, inr b)

  is_below_complete :
      (n : ℕ) (cs : List Thing) (x : List ℕ) (b : Bool)
      → is_below n tenant things cs x ≡ some b
      → IsReached cs x
      → b ≡ true
  unfolding is_below IsReached
  is_below_complete zero cs x b h r = cc
  is_below_complete (suc n) [] x b h (c, m, r) = elim m [ ]
  is_below_complete (suc n) (c ∷ cs) x b h r = elim (Bool-cases (is_id_of (c ∷ cs) x)) [
    | inl q ↦ let h' : some true ≡ some b = rw q at h in sym (some-inj h')
    | inr q ↦
        is_below_complete n (children_of_all tenant things (c ∷ cs)) x b (rw q at h)
          (IsReached-next (c ∷ cs) x q r)
  ]

  -- `isMyChildThing` says true exactly of the things that stand below the thing, in any generation,
  -- whenever it returns.
  pub is_my_child_thing-IsBelow :
      (fuel : ℕ) (my_self id : List ℕ) (b : Bool)
      → is_my_child_thing fuel tenant things my_self id ≡ some b
      → (b ≡ true) ↔ IsBelow my_self id
  unfolding is_my_child_thing IsReached
  is_my_child_thing-IsBelow fuel my_self id b h =
      let kids = get_things tenant things (children_of my_self) in
      (
        λ e.
            let (c, m, r) = is_below_sound fuel kids id (h ∙ ap some e) in
            elim r [
              | inl same ↦ subst (λ (y : List ℕ). IsBelow my_self y) (sym same) (child m)
              | inr b ↦ deeper m b
            ],
        λ below. is_below_complete fuel kids id b h (elim below [
          | child {t = t} k ↦ (t, k, inl refl)
          | deeper {t = t} k b ↦ (t, k, inr b)
        ]),
      )
