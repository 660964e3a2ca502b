-- ===== src/RealTime/Paths.antt =====
-- `path.Join` of Go's standard library, as pkg/data/realtimecomputation/rule.go uses it for its keys: the
-- elements that are not empty are joined by slashes, and the path is made clean.
use harns.Prelude.{ℕ, Bool, true, false, ◌==◌, List, [], ◌∷◌, ◌++◌, if◌then◌else◌}
use harns.Prelude.Bytes.{eq_bytes}
use harns.Thing.Types.{is_empty}

abbrev start_with : ℕ → List (List ℕ) → List (List ℕ)
start_with c [] = (c ∷ []) ∷ []
start_with c (t ∷ ts) = (c ∷ t) ∷ ts

-- The elements between the slashes.
unfoldable pub elements : List ℕ → List (List ℕ)
elements [] = [] ∷ []
elements (c ∷ cs) = let rest = elements cs in if c == b'/' then [] ∷ rest else start_with c rest

abbrev pub dot : List ℕ
dot = b'.' ∷ []

abbrev pub dot_dot : List ℕ
dot_dot = b'.' ∷ b'.' ∷ []

-- What `..` does to the elements so far, of which the last stands first.
abbrev go_up : Bool → List (List ℕ) → List (List ℕ)
go_up true [] = []
go_up false [] = dot_dot ∷ []
go_up rooted (e ∷ es) = if eq_bytes e dot_dot then dot_dot ∷ e ∷ es else es

unfoldable pub resolve : Bool → List (List ℕ) → List (List ℕ) → List (List ℕ)
resolve rooted done [] = done
resolve rooted done (e ∷ es) =
    resolve rooted
      (if is_empty e
        then done
        else if eq_bytes e dot
        then done
        else if eq_bytes e dot_dot
        then go_up rooted done
        else e ∷ done)
      es

-- The elements, of which the last stands first, with slashes between them and `tail` after them.
abbrev joined : List (List ℕ) → List ℕ → List ℕ
joined [] tail = tail
joined (e ∷ []) tail = e ++ tail
joined (e ∷ f ∷ es) tail = joined (f ∷ es) (b'/' ∷ (e ++ tail))

abbrev is_rooted : List ℕ → Bool
is_rooted [] = false
is_rooted (c ∷ cs) = c == b'/'

-- `path.Clean`
unfoldable pub clean : List ℕ → List ℕ
unfolding elements resolve
clean s =
    let body = joined (resolve (is_rooted s) [] (elements s)) [] in
    if is_rooted s then b'/' ∷ body else if is_empty body then dot else body

-- `path.Join` of two elements
unfoldable pub join : List ℕ → List ℕ → List ℕ
unfolding clean
join a b =
    if is_empty a
    then (if is_empty b then [] else clean b)
    else if is_empty b
    then clean a
    else clean (a ++ b'/' ∷ b)
