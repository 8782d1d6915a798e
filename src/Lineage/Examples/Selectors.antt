-- ===== src/Lineage/Examples/Selectors.antt =====
-- The theorems on selectors.ts, each at two selectors.
use arc_db.Base.{ok, true, false, [], ◌∷◌, ◌≡◌, refl, ◌↔◌, List}
use arc_db.Lifecycle.Examples.{sample_host}
use arc_db.Contracts.Primitives.{codes}
use arc_db.Contracts.Lineage.{Selector, file, parse_selector, parse_text}
use arc_db.Lineage.Selectors.{
  Codes, selectors_intersect, parsed_intersect, values_intersect, files_intersect,
  normalize_file_selector, json_paths_intersect, json_path_tokens, replace_brackets, path_tokens,
  has_unsupported, split_on, dotted_selectors_intersect,
}
use arc_db.Lineage.Selectors.Laws.{selectors_intersect_comm}
use arc_db.Lineage.Selectors.Coverage.{
  Covers, Names, json_paths_intersect_iff, dotted_selectors_intersect_iff,
}

abbrev a_file : Selector
a_file = record { kind = file; value = "./src//a.ts" }

abbrev a_directory : Selector
a_directory = record { kind = file; value = "src/" }

abbrev inner_directory : Selector
inner_directory = record { kind = file; value = "src/lib/" }

-- A file lies in a directory, whichever comes first.
selectors_intersect_comm_example :
    selectors_intersect sample_host a_file a_directory
    ≡ selectors_intersect sample_host a_directory a_file
unfolding parse_selector parse_text normalize_file_selector
selectors_intersect_comm_example =
    selectors_intersect_comm sample_host a_file a_directory a_file a_directory refl refl refl

-- Of two directories, only the inner one on the right is found in the other.
directories :
    (selectors_intersect sample_host a_directory inner_directory ≡ ok true)
    × (selectors_intersect sample_host inner_directory a_directory ≡ ok false)
unfolding selectors_intersect parsed_intersect values_intersect files_intersect
    normalize_file_selector parse_selector parse_text
directories = (refl, refl)

abbrev star_path : Codes
star_path = codes "$.a[*].b"

abbrev index_path : Codes
index_path = codes "$['a'][3]"

json_paths_intersect_iff_example : (json_paths_intersect star_path index_path ≡ true) ↔ (
    (part : List Codes) × Covers (codes "a" ∷ codes "*" ∷ codes "b" ∷ []) part
    × Covers (codes "a" ∷ codes "3" ∷ []) part)
unfolding json_path_tokens replace_brackets path_tokens has_unsupported split_on
json_paths_intersect_iff_example =
    json_paths_intersect_iff star_path index_path (codes "a" ∷ codes "*" ∷ codes "b" ∷ [])
      (codes "a" ∷ codes "3" ∷ []) refl refl

dotted_selectors_intersect_iff_example :
    (dotted_selectors_intersect (codes "users.*") (codes "users.email") ≡ true) ↔ (
      (part : List Codes) × Names (split_on b'.' (codes "users.*")) part
      × Names (split_on b'.' (codes "users.email")) part)
dotted_selectors_intersect_iff_example =
    dotted_selectors_intersect_iff (codes "users.*") (codes "users.email")
