-- ===== src/Lineage/Selectors.antt =====
-- packages/lineage/src/selectors.ts: whether two selectors can name a part in common. The regular
-- expressions are functions on code points.
pub mod Laws
pub mod Coverage
use arc_db.Base.{
  ℕ, zero, suc, ◌+◌, String, Bool, true, false, not, ◌&&◌, ◌||◌, Option, none, some, List, [], ◌∷◌,
  ◌++◌, eqb, leb, length, any, all, includes, map, Result, ok, err, ◌>>=◌, ◌>>◌, ◌==◌,
  if◌then◌else◌,
}
use arc_db.Base.Sort.{sort}
use arc_db.Host.{Host}
use arc_db.Contracts.Errors.{Fault}
use arc_db.Contracts.Digest.{Value, obj, field, str, end, canonicalize}
use arc_db.Contracts.Primitives.{codes, between}
use arc_db.Contracts.Lineage.{
  Selector, SelectorKind, json_path, file, symbol, table_column, record_key, unknown, same_kind,
  kind_name, parse_selector,
}

abbrev pub Codes : Type 0
Codes = List ℕ

-- `UNKNOWN_SELECTOR`
abbrev pub unknown_selector : Selector
unknown_selector = record { kind = unknown; value = "*" }

abbrev pub same_codes : Codes → Codes → Bool
same_codes [] [] = true
same_codes (a ∷ as') (b ∷ bs) = eqb a b && same_codes as' bs
same_codes _ _ = false

abbrev pub is_star : Codes → Bool
is_star = same_codes (b'*' ∷ [])

-- `left === "*" || right === "*" || left === right`
abbrev pub tokens_meet : Codes → Codes → Bool
tokens_meet a b = is_star a || (is_star b || same_codes a b)

-- The tokens up to the shorter length.
unfoldable pub prefix_tokens_intersect : List Codes → List Codes → Bool
prefix_tokens_intersect (a ∷ as') (b ∷ bs) = tokens_meet a b && prefix_tokens_intersect as' bs
prefix_tokens_intersect _ _ = true

-- `text.split(c)`
unfoldable pub split_on : ℕ → Codes → List Codes
split_on c [] = [] ∷ []
split_on c (a ∷ as') =
    let rest = split_on c as' in
    if eqb a c then [] ∷ rest else elim rest [ [] ↦ (a ∷ []) ∷ [] | t ∷ ts ↦ (a ∷ t) ∷ ts ]

-- /\.\.|\?|:|,/
unfoldable pub has_unsupported : Codes → Bool
has_unsupported [] = false
has_unsupported (a ∷ []) = eqb a b'?' || (eqb a b':' || eqb a b',')
has_unsupported (a ∷ b ∷ cs) =
    (eqb a b'.' && eqb b b'.')
    || ((eqb a b'?' || (eqb a b':' || eqb a b',')) || has_unsupported (b ∷ cs))

abbrev pub is_quote : ℕ → Bool
is_quote c = eqb c b'\'' || eqb c b'"'

abbrev pub is_digit : ℕ → Bool
is_digit = between b'0' b'9'

-- The longest run of characters that pass, and what follows it.
abbrev pub run_of : (ℕ → Bool) → Codes → Codes × Codes
run_of p [] = ([], [])
run_of p (c ∷ cs) = let rest = run_of p cs in if p c then (c ∷ rest.0, rest.1) else ([], c ∷ cs)

-- What follows a bracket in /\[['"]([^'"\]]+)['"]\]/: the name, if it matches.
abbrev pub quoted_name : Codes → Option Codes
quoted_name (q ∷ cs) =
    let (name, rest) = run_of (λ c. not (is_quote c) && not (eqb c b']')) cs in
    if is_quote q && not (eqb (length name) 0)
    then elim rest [
      | [] ↦ none
      | q' ∷ rest' ↦ elim rest' [
        | [] ↦ none
        | c ∷ cs' ↦ if is_quote q' && eqb c b']' then some name else none
      ]
    ]
    else none
quoted_name [] = none

-- What follows a bracket in /\[(\d+|\*)\]/.
abbrev pub index_name : Codes → Option Codes
index_name (c ∷ cs) =
    if eqb c b'*'
    then elim cs [ [] ↦ none | d ∷ ds ↦ if eqb d b']' then some (c ∷ []) else none ]
    else let (digits, rest) = run_of is_digit (c ∷ cs) in
      if eqb (length digits) 0
      then none
      else elim rest [ [] ↦ none | d ∷ ds ↦ if eqb d b']' then some digits else none ]
index_name [] = none

-- `text.replace(/\[…\]/g, ".$1")`, where `found` reads what follows a bracket and `extra` is the
-- number of characters of a match behind its bracket that are not its name; the first argument
-- counts the characters of a match that are still to be passed over.
unfoldable pub replace_brackets : (Codes → Option Codes) → ℕ → ℕ → Codes → Codes
replace_brackets found extra skip [] = []
replace_brackets found extra (suc skip) (c ∷ cs) = replace_brackets found extra skip cs
replace_brackets found extra zero (c ∷ cs) = elim (if eqb c b'[' then found cs else none) [
  | none ↦ c ∷ replace_brackets found extra zero cs
  | some name ↦ b'.' ∷ (name ++ replace_brackets found extra (length name + extra) cs)
]

-- [A-Za-z0-9_$*-]
abbrev pub is_path_character : ℕ → Bool
is_path_character c =
    between b'A' b'Z' c
    || (between b'a' b'z' c
        || (is_digit c || (eqb c b'_' || (eqb c b'$' || (eqb c b'*' || eqb c b'-')))))

abbrev pub is_path_token : Codes → Bool
is_path_token t = not (eqb (length t) 0) && all is_path_character t

-- The tokens of a text of the form /^\$(?:\.[A-Za-z0-9_$*-]+)*$/; none for another.
unfoldable pub path_tokens : Codes → Option (List Codes)
unfolding split_on
path_tokens [] = none
path_tokens (d ∷ cs) = if not (eqb d b'$') then none else elim cs [
  | [] ↦ some []
  | c ∷ rest ↦
      let tokens = split_on b'.' rest in
      if eqb c b'.' && all is_path_token tokens then some tokens else none
]

unfoldable pub json_path_tokens : Codes → Option (List Codes)
unfolding replace_brackets path_tokens has_unsupported
json_path_tokens path =
    if has_unsupported path
    then none
    else path_tokens (replace_brackets index_name 1 0 (replace_brackets quoted_name 3 0 path))

-- A path of unsupported syntax meets every other.
abbrev pub paths_meet : Option (List Codes) → Option (List Codes) → Bool
paths_meet none r = true
paths_meet (some l) none = true
paths_meet (some l) (some r) = prefix_tokens_intersect l r

unfoldable pub json_paths_intersect : Codes → Codes → Bool
unfolding prefix_tokens_intersect json_path_tokens
json_paths_intersect left right = paths_meet (json_path_tokens left) (json_path_tokens right)

-- `.replaceAll("\\", "/")`
abbrev pub forward_slashes : Codes → Codes
forward_slashes = map (λ c. if eqb c b'\\' then b'/' else c)

-- `.replace(/^\.\//, "")`
abbrev pub without_dot : Codes → Codes
without_dot (a ∷ b ∷ cs) = if eqb a b'.' && eqb b b'/' then cs else a ∷ b ∷ cs
without_dot cs = cs

-- `.replace(/\/{2,}/g, "/")`
abbrev pub single_slashes : Codes → Codes
single_slashes [] = []
single_slashes (a ∷ []) = a ∷ []
single_slashes (a ∷ b ∷ cs) =
    let rest = single_slashes (b ∷ cs) in if eqb a b'/' && eqb b b'/' then rest else a ∷ rest

unfoldable pub normalize_file_selector : Codes → Codes
normalize_file_selector value = single_slashes (without_dot (forward_slashes value))

-- /[*?[\]{}]/
abbrev pub has_wildcard : Codes → Bool
has_wildcard =
    any (λ c.
      eqb c b'*' || (eqb c b'?' || (eqb c b'[' || (eqb c b']' || (eqb c b'{' || eqb c b'}')))))

abbrev pub ends_with_slash : Codes → Bool
ends_with_slash [] = false
ends_with_slash (c ∷ []) = eqb c b'/'
ends_with_slash (c ∷ d ∷ cs) = ends_with_slash (d ∷ cs)

-- `text.startsWith(prefix)`, the prefix first
abbrev pub is_prefix : Codes → Codes → Bool
is_prefix [] text = true
is_prefix (a ∷ as') [] = false
is_prefix (a ∷ as') (b ∷ bs) = eqb a b && is_prefix as' bs

-- The paths once they are normalized. A directory ends with a slash, so it is its own directory text.
abbrev pub normal_files_intersect : Codes → Codes → Bool
normal_files_intersect left right =
    has_wildcard left
    || (has_wildcard right
        || (same_codes left right
            || (if ends_with_slash left
                then is_prefix left right
                else if ends_with_slash right
                then is_prefix right left
                else false)))

unfoldable pub files_intersect : Codes → Codes → Bool
unfolding normalize_file_selector
files_intersect left right =
    normal_files_intersect (normalize_file_selector left) (normalize_file_selector right)

abbrev pub all_meet : List Codes → List Codes → Bool
all_meet [] [] = true
all_meet (a ∷ as') (b ∷ bs) = tokens_meet a b && all_meet as' bs
all_meet _ _ = false

unfoldable pub dotted_selectors_intersect : Codes → Codes → Bool
unfolding split_on
dotted_selectors_intersect left right = all_meet (split_on b'.' left) (split_on b'.' right)

abbrev pub same_or_star : String → String → Bool
same_or_star left right = left == "*" || (right == "*" || left == right)

-- The switch over the kind that both have.
unfoldable pub values_intersect : SelectorKind → String → String → Bool
unfolding json_paths_intersect files_intersect dotted_selectors_intersect
values_intersect json_path left right = json_paths_intersect (codes left) (codes right)
values_intersect file left right = files_intersect (codes left) (codes right)
values_intersect table_column left right = dotted_selectors_intersect (codes left) (codes right)
values_intersect symbol left right = same_or_star left right
values_intersect record_key left right = same_or_star left right
values_intersect unknown left right = true

-- `selectorsIntersect`, once both are parsed
unfoldable pub parsed_intersect : Selector → Selector → Bool
unfolding values_intersect
parsed_intersect left right =
    (same_kind left.kind unknown || same_kind right.kind unknown)
    || (same_kind left.kind right.kind && values_intersect left.kind left.value right.value)

abbrev pub selector_value : Selector → Value
selector_value s = obj (field "kind" (str (kind_name s.kind)) (field "value" (str s.value) end))

-- `map.set(key, value)`: a key that is there keeps its place.
abbrev pub set_entry {ℓ} : {A : Type ℓ} → String → A → List (String × A) → List (String × A)
set_entry k a [] = (k, a) ∷ []
set_entry k a ((l, b) ∷ rest) =
    let rest' = set_entry k a rest in if l == k then (l, a) ∷ rest else (l, b) ∷ rest'

module _ (host : Host) where
  open host use {locale_leb}

  unfoldable pub selectors_intersect : Selector → Selector → Result Fault Bool
  unfolding parsed_intersect
  selectors_intersect unparsed_left unparsed_right = do
    left ← parse_selector host unparsed_left
    right ← parse_selector host unparsed_right
    ok (parsed_intersect left right)

  abbrev pub intersects_some : Selector → List Selector → Result Fault Bool
  intersects_some s [] = ok false
  intersects_some s (t ∷ ts) = do
    meets ← selectors_intersect s t
    if meets then ok true else intersects_some s ts

  unfoldable pub selector_sets_intersect : List Selector → List Selector → Result Fault Bool
  unfolding selectors_intersect
  selector_sets_intersect [] right = ok false
  selector_sets_intersect (s ∷ ss) right = do
    meets ← intersects_some s right
    if meets then ok true else selector_sets_intersect ss right

  -- The entries of the map, by canonical text.
  abbrev pub collect_selectors :
      List (String × Selector) → List Selector → Result Fault (List (String × Selector))
  collect_selectors found [] = ok found
  collect_selectors found (s ∷ ss) = do
    parsed ← parse_selector host s
    key ← canonicalize host (selector_value parsed)
    collect_selectors (set_entry key parsed found) ss

  abbrev pub by_key : String × Selector → String × Selector → Bool
  by_key a b = locale_leb a.0 b.0

  unfoldable pub unique_selectors : List Selector → Result Fault (List Selector)
  unique_selectors selectors = do
    entries ← collect_selectors [] selectors
    ok (map (λ e. e.1) (sort by_key entries))
