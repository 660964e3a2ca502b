-- ===== src/Generic/Tests.antt =====
-- Runs of the functions on lists of texts, and the theorem at concrete lists.
use harns.Prelude.{ℕ, ◌≡◌, refl, List, [], ◌∷◌, ◌&&◌, not, if◌then◌else◌}
use harns.Prelude.Outcome.{ok, panic}
use harns.Generic.{
  Split, difference_and_intersection_strings, mark, mark_all, sort_entry, sort_entries,
  remove_string, remove_string_with_order,
}
use harns.Generic.Sets.{occurrences_of, member, difference_and_intersection_strings_lem}

abbrev src_texts : List (List ℕ)
src_texts = (b'a' ∷ []) ∷ (b'b' ∷ []) ∷ (b'b' ∷ []) ∷ []

abbrev des_texts : List (List ℕ)
des_texts = (b'b' ∷ []) ∷ (b'c' ∷ []) ∷ []

split_run : difference_and_intersection_strings (λ es. es) src_texts des_texts ≡ record {
  only_src = (b'a' ∷ []) ∷ [];
  intersection = (b'b' ∷ []) ∷ [];
  only_des = (b'c' ∷ []) ∷ [];
}
unfolding difference_and_intersection_strings mark mark_all sort_entry sort_entries
split_run = refl

remove_string_run : remove_string src_texts 0 ≡ ok ((b'b' ∷ []) ∷ (b'b' ∷ []) ∷ [])
unfolding remove_string
remove_string_run = refl

remove_string_with_order_run : remove_string_with_order des_texts 2 ≡ panic
unfolding remove_string_with_order
remove_string_with_order_run = refl

abbrev split : Split
split = difference_and_intersection_strings (λ es. es) src_texts des_texts

abbrev text : List ℕ
text = b'b' ∷ []

difference_and_intersection_strings_lem_example :
    (occurrences_of text split.only_src
      ≡ (if member text src_texts && not (member text des_texts) then 1 else 0))
    × (occurrences_of text split.intersection
        ≡ (if member text src_texts && member text des_texts then 1 else 0))
    × (occurrences_of text split.only_des
        ≡ (if not (member text src_texts) && member text des_texts then 1 else 0))
difference_and_intersection_strings_lem_example =
    difference_and_intersection_strings_lem (λ es. es) src_texts des_texts text (λ t es. refl)
