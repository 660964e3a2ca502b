-- ===== src/Generic.antt =====
-- pkg/generic/utils.go: removals from a list of texts, and the differences and the intersection of two
-- lists.
--
-- A Go map is an association list; the order in which `range` visits it is a parameter. A text is a list
-- of bytes. Lists that are read by reflection are lists of any type.
pub mod Sets
mod Tests
use harns.Prelude.{
  ℕ, zero, suc, ◌-◌, Bool, true, false, not, Option, none, some, List, [], ◌∷◌, ◌++◌, ◌&&◌, ◌==◌,
  leb, map, bit_and, bit_or, ◌+◌, if◌then◌else◌, length, get_or, set as set_elem, take, drop,
}
use harns.Prelude.Bytes.{eq_bytes}
use harns.Prelude.Outcome.{Outcome, ok, panic}

-- `RemoveStringWithOrder`; an index out of range panics.
unfoldable pub remove_string_with_order : List (List ℕ) → ℕ → Outcome (List (List ℕ))
remove_string_with_order s i = if leb (length s) i then panic else ok (take i s ++ drop (i + 1) s)

-- `RemoveString`: the last text takes the place of the removed one.
unfoldable pub remove_string : List (List ℕ) → ℕ → Outcome (List (List ℕ))
remove_string s i =
    let last = length s - 1 in
    if leb (length s) i then panic else ok (take last (set_elem s i (get_or s last [])))

-- `m[k] |= bit`
unfoldable pub mark : List (List ℕ × ℕ) → List ℕ → ℕ → List (List ℕ × ℕ)
mark [] k b = (k, bit_or 0 b) ∷ []
mark (e ∷ es) k b =
    let rest = mark es k b in if eq_bytes e.0 k then (e.0, bit_or e.1 b) ∷ es else e ∷ rest

unfoldable pub mark_all : List (List ℕ × ℕ) → List (List ℕ) → ℕ → List (List ℕ × ℕ)
mark_all m [] b = m
mark_all m (k ∷ ks) b = mark_all (mark m k b) ks b

-- What the three functions return.
pub record Split : Type 0 where
  pub only_src : List (List ℕ)
  pub intersection : List (List ℕ)
  pub only_des : List (List ℕ)

-- The switch in the loop over the map.
unfoldable pub sort_entry : List ℕ → ℕ → Split → Split
sort_entry k v s =
    let a = not (bit_and v 1 == 0) in
    let b = not (bit_and v 2 == 0) in
    if a && b
    then record s { intersection = s.intersection ++ k ∷ [] }
    else if a && not b
    then record s { only_src = s.only_src ++ k ∷ [] }
    else if not a && b
    then record s { only_des = s.only_des ++ k ∷ [] }
    else s

unfoldable pub sort_entries : List (List ℕ × ℕ) → Split → Split
sort_entries [] s = s
sort_entries (e ∷ es) s = sort_entries es (sort_entry e.0 e.1 s)

-- `DifferenceAndIntersectionStrings`
unfoldable pub difference_and_intersection_strings :
    (List (List ℕ × ℕ) → List (List ℕ × ℕ)) → List (List ℕ) → List (List ℕ) → Split
unfolding mark mark_all sort_entry sort_entries
difference_and_intersection_strings order src des =
    sort_entries (order (mark_all (mark_all [] src 1) des 2))
      (record { only_src = []; intersection = []; only_des = [] })

-- `DifferenceAndIntersectionObjects`
unfoldable pub difference_and_intersection_objects :
    {A B : Type 0}
    → (List (List ℕ × ℕ) → List (List ℕ × ℕ))
    → List A
    → List B
    → (A → List ℕ)
    → (B → List ℕ)
    → Split
unfolding difference_and_intersection_strings
difference_and_intersection_objects order src des get_src_key get_des_key =
    difference_and_intersection_strings order (map get_src_key src) (map get_des_key des)

-- `DifferenceAndIntersectionSameTypeObjects`
unfoldable pub difference_and_intersection_same_type_objects :
    {A : Type 0} → (List (List ℕ × ℕ) → List (List ℕ × ℕ)) → List A → List A → (A → List ℕ) → Split
unfolding difference_and_intersection_objects
difference_and_intersection_same_type_objects order src des get =
    difference_and_intersection_objects order src des get get
