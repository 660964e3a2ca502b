-- ===== src/Thing/Filter.antt =====
-- pkg/model/thing/filter.go and pkg/generic/filter.go: the filters of things and thing types; and
-- `GetThings` and `GetThingTypes` of pkg/model/thing/manager.go.
--
-- The name of a filter that comes as a map is its decoded `NameFilterFunc`. The filter by a type and
-- the types below it (`HasType`) is not modelled: it is empty here.
use mathlib.Core.List.{Permᴰ}
use mathlib.Core.List.Permᴰ
use harns.Prelude.{
  ℕ, ◌-◌, inl, inr, Bool, true, false, ◌&&◌, ◌||◌, none, some, List, [], ◌∷◌, ◌++◌, length,
  Bool-cases, if◌then◌else◌, leb, drop, ◌==◌,
}
use harns.Prelude.Bytes.{eq_bytes}
use harns.Prelude.Dict.{Dict}
use harns.Thing.{Thing, ThingType}
use harns.Thing.Types.{is_empty, trim_space}
use harns.Thing.Inherit.{values}
use harns.Thing.Sorter.{
  insert, by_time, IsDescending, linear_insert, insert-linear_insert, linear_insert-IsDescending,
  linear_insert-Perm, nil,
}

-- `NameFilterFunc`
pub record NameFilterFunc : Type 0 where
  pub eq : List ℕ
  pub in_list : List (List ℕ)
  pub contains : List ℕ
  pub starts_with : List ℕ
  pub ends_with : List ℕ

-- What the field `Name` of a filter holds: nil, a string, or a map.
pub data NameQuery : Type 0 where
  any : NameQuery
  exactly : List ℕ → NameQuery
  by_parts : NameFilterFunc → NameQuery

-- `strings.HasPrefix`
abbrev pub has_prefix : List ℕ → List ℕ → Bool
has_prefix s [] = true
has_prefix [] (q ∷ qs) = false
has_prefix (c ∷ cs) (q ∷ qs) = c == q && has_prefix cs qs

-- `strings.Contains`
abbrev pub contains_text : List ℕ → List ℕ → Bool
contains_text [] q = has_prefix [] q
contains_text (c ∷ cs) q = has_prefix (c ∷ cs) q || contains_text cs q

-- `strings.HasSuffix`
abbrev pub has_suffix : List ℕ → List ℕ → Bool
has_suffix s q = leb (length q) (length s) && eq_bytes (drop (length s - length q) s) q

abbrev pub is_one_of : List (List ℕ) → List ℕ → Bool
is_one_of [] s = false
is_one_of (name ∷ names) s = eq_bytes name s || is_one_of names s

abbrev pub has_none : List (List ℕ) → Bool
has_none [] = true
has_none (x ∷ xs) = false

-- A predicate that is added only where the filter has a value for it.
abbrev pub unless {ℓ} : {A : Type ℓ} → Bool → A → List A
unless true p = []
unless false p = p ∷ []

-- The predicates on the name, which `parseFilter` and `parseTypeFilter` build alike.
unfoldable pub name_predicates : NameQuery → List (List ℕ → Bool)
name_predicates any = []
name_predicates (exactly name) = (λ s. eq_bytes name s) ∷ []
name_predicates (by_parts ff) =
    unless (is_empty ff.eq) (λ s. eq_bytes ff.eq s)
    ++ unless (has_none ff.in_list) (λ s. is_one_of ff.in_list s)
    ++ unless (is_empty ff.contains) (λ s. contains_text s ff.contains)
    ++ unless (is_empty ff.starts_with) (λ s. has_prefix s (trim_space ff.starts_with))
    ++ unless (is_empty ff.ends_with) (λ s. has_suffix s (trim_space ff.ends_with))

abbrev pub on_name : {A : Type 0} → (A → List ℕ) → List (List ℕ → Bool) → List (A → Bool)
on_name name [] = []
on_name name (p ∷ ps) = (λ x. p (name x)) ∷ on_name name ps

-- `ThingTypeFilter`
pub record ThingTypeFilter : Type 0 where
  pub tenant : List ℕ
  pub id : List ℕ
  pub parent_type_id : List ℕ
  pub name : NameQuery

-- `parseTypeFilter`
unfoldable pub parse_type_filter : ThingTypeFilter → List (ThingType → Bool)
unfolding name_predicates
parse_type_filter filter =
    (λ ty. eq_bytes filter.tenant ty.meta.tenant)
    ∷ (unless (is_empty filter.id) (λ ty. eq_bytes filter.id ty.meta.id)
        ++ unless (is_empty filter.parent_type_id)
            (λ ty. eq_bytes filter.parent_type_id ty.parent_type_id)
        ++ on_name (λ ty. ty.meta.name) (name_predicates filter.name))

-- `thingFilter`
pub record ThingFilter : Type 0 where
  pub tenant : List ℕ
  pub id : List ℕ
  pub type_id : List ℕ
  pub parent_id : List ℕ
  pub name : NameQuery

abbrev pub has_parent_id : List ℕ → Thing → Bool
has_parent_id id t = elim t.parent [ none ↦ false | some parent ↦ eq_bytes id parent ]

-- `parseFilter`
unfoldable pub parse_filter : ThingFilter → List (Thing → Bool)
unfolding name_predicates
parse_filter filter =
    (λ t. eq_bytes filter.tenant t.meta.tenant)
    ∷ (unless (is_empty filter.id) (λ t. eq_bytes filter.id t.meta.id)
        ++ unless (is_empty filter.type_id) (λ t. eq_bytes filter.type_id t.type_id)
        ++ unless (is_empty filter.parent_id) (has_parent_id filter.parent_id)
        ++ on_name (λ t. t.meta.name) (name_predicates filter.name))

module _ {A : Type 0} where
  -- The loop over the predicates.
  abbrev pub matches : List (A → Bool) → A → Bool
  matches [] v = true
  matches (p ∷ ps) v = let rest = matches ps v in if p v then rest else false

  -- The elements that match, in their order.
  abbrev pub matching : List (A → Bool) → List A → List A
  matching ps [] = []
  matching ps (v ∷ vs) = let rest = matching ps vs in if matches ps v then v ∷ rest else rest

  -- The loop of `GetThings` and of `GetThingTypes`.
  unfoldable pub collect : List (A → A → Bool) → List (A → Bool) → List A → List A → List A
  unfolding insert
  collect ls ps ts [] = ts
  collect ls ps ts (v ∷ vs) = collect ls ps (if matches ps v then insert ls ts v else ts) vs

abbrev pub thing_time : Thing → ℕ
thing_time t = t.meta.mod_time

abbrev pub thing_type_time : ThingType → ℕ
thing_type_time ty = ty.meta.mod_time

-- `GetThings`, of a tenant.
unfoldable pub get_things : List ℕ → Dict Thing → ThingFilter → List Thing
unfolding collect parse_filter
get_things tenant things filter =
    collect (by_time thing_time ∷ []) (parse_filter (record filter { tenant = tenant })) []
      (values things)

-- `GetThingTypes`, not exploded.
unfoldable pub get_thing_types : List ℕ → Dict ThingType → ThingTypeFilter → List ThingType
unfolding collect parse_type_filter
get_thing_types tenant types filter =
    collect (by_time thing_type_time ∷ []) (parse_type_filter (record filter { tenant = tenant }))
      [] (values types)

module _ {A : Type 0} (time : A → ℕ) (ps : List (A → Bool)) where
  collect-IsDescending :
      (vs ts : List A)
      → IsDescending time ts
      → IsDescending time (collect (by_time time ∷ []) ps ts vs)
        × Permᴰ (collect (by_time time ∷ []) ps ts vs) (ts ++ matching ps vs)
  unfolding collect
  collect-IsDescending [] ts d = (d, Permᴰ.symm (Permᴰ.append-nil ts))
  collect-IsDescending (v ∷ vs) ts d = elim (Bool-cases (matches ps v)) [
    | inl q ↦
        let e = insert-linear_insert time ts v d in
        let (d', p) =
          collect-IsDescending vs (linear_insert time ts v)
            (linear_insert-IsDescending time ts v d) in
        let front : Permᴰ (linear_insert time ts v ++ matching ps vs) (ts ++ v ∷ matching ps vs) =
          Permᴰ.trans (Permᴰ.append_right (matching ps vs) (linear_insert-Perm time ts v))
            (Permᴰ.symm (Permᴰ.middle v ts (matching ps vs))) in
        rw (q, e) (d', Permᴰ.trans p front)
    | inr q ↦ rw q (collect-IsDescending vs ts d)
  ]

-- `GetThings` returns every thing of the tenant that passes the filter, each as often as it is stored,
-- and no other, the last that was changed first, in whatever order the map is walked.
pub get_things-sorted :
    (tenant : List ℕ) (things : Dict Thing) (filter : ThingFilter)
    → IsDescending thing_time (get_things tenant things filter)
      × Permᴰ
          (get_things tenant things filter)
          (matching (parse_filter (record filter { tenant = tenant })) (values things))
unfolding get_things
get_things-sorted tenant things filter =
    collect-IsDescending thing_time (parse_filter (record filter { tenant = tenant }))
      (values things) [] nil

-- The same of `GetThingTypes`.
pub get_thing_types-sorted :
    (tenant : List ℕ) (types : Dict ThingType) (filter : ThingTypeFilter)
    → IsDescending thing_type_time (get_thing_types tenant types filter)
      × Permᴰ
          (get_thing_types tenant types filter)
          (matching (parse_type_filter (record filter { tenant = tenant })) (values types))
unfolding get_thing_types
get_thing_types-sorted tenant types filter =
    collect-IsDescending thing_type_time (parse_type_filter (record filter { tenant = tenant }))
      (values types) [] nil
