-- ===== src/Contracts/Primitives.antt =====
-- packages/contracts/src/primitives.ts: the schemas of identifiers, digests and timestamps, and the
-- check that an array holds no value twice.
use Prim.Native.Char.{code}
use Prim.Native.String
use arc_db.Base.{
  ℕ, String, Bool, false, ◌&&◌, ◌||◌, Option, none, some, List, [], ◌∷◌, leb, eqb, if◌then◌else◌,
  length, all, includes, ◌==◌, Result, ok, err, ◌>>=◌,
}
use arc_db.Host.{Host}
use arc_db.Contracts.Errors.{Fault, zod}

-- Template literals and `join("")`.
abbrev pub concat : List String → String
concat [] = ""
concat (s ∷ ss) = String.◌++◌ s (concat ss)

abbrev pub codes : String → List ℕ
codes String.[] = []
codes (String.◌∷◌ c s) = code c ∷ codes s

abbrev pub between : ℕ → ℕ → ℕ → Bool
between lo hi c = leb lo c && leb c hi

-- [a-z0-9]
is_lower_or_digit : ℕ → Bool
is_lower_or_digit c = between b'a' b'z' c || between b'0' b'9' c

-- [a-fA-F0-9]
is_hex : ℕ → Bool
is_hex c = between b'a' b'f' c || (between b'A' b'F' c || between b'0' b'9' c)

-- [a-z0-9_-]
is_label : ℕ → Bool
unfolding is_lower_or_digit
is_label c = is_lower_or_digit c || (eqb c b'_' || eqb c b'-')

-- [a-fA-F0-9]{32,}
is_hex_run : List ℕ → Bool
unfolding is_hex
is_hex_run cs = leb 32 (length cs) && all is_hex cs

-- [a-z0-9][a-z0-9_-]*
is_scheme : List ℕ → Bool
unfolding is_lower_or_digit is_label
is_scheme [] = false
is_scheme (c ∷ cs) = is_lower_or_digit c && all is_label cs

-- The text up to the first colon and the text behind it. No class of the expression holds a colon,
-- so the optional prefix can only end at the first one.
split_colon : List ℕ → Option (List ℕ × List ℕ)
split_colon [] = none
split_colon (c ∷ cs) =
    let rest = split_colon cs in
    if eqb c b':' then some ([], cs) else elim rest [ none ↦ none | some (a, b) ↦ some (c ∷ a, b) ]

matches_digest : List ℕ → Bool
unfolding split_colon is_scheme is_hex_run
matches_digest cs = elim (split_colon cs) [
  | none ↦ is_hex_run cs
  | some (scheme, run) ↦ is_scheme scheme && is_hex_run run
]

-- The distinct values of an array, as `new Set(values)` keeps them; the last of equals stands.
distinct : List String → List String
distinct [] = []
distinct (x ∷ xs) = let rest = distinct xs in if includes ◌==◌ xs x then rest else x ∷ rest

unfoldable pub has_unique_values : List String → Bool
unfolding distinct
has_unique_values values = eqb (length (distinct values)) (length values)

module _ (host : Host) where
  open host use {trim, utf16_length, iso_date_time}

  unfoldable pub parse_identifier : String → Result Fault String
  parse_identifier s =
      let t = trim s in if leb 1 (utf16_length t) && leb (utf16_length t) 512 then ok t else err zod

  unfoldable pub parse_digest : String → Result Fault String
  unfolding matches_digest
  parse_digest s = let t = trim s in if matches_digest (codes t) then ok t else err zod

  unfoldable pub parse_iso_date_time : String → Result Fault String
  parse_iso_date_time s = if iso_date_time s then ok s else err zod

-- `schema.optional()`, `schema.nullable()` and `z.array(schema)`.
abbrev pub parse_option :
    (String → Result Fault String) → Option String → Result Fault (Option String)
parse_option parse none = ok none
parse_option parse (some s) = do t ← parse s; ok (some t)

abbrev pub parse_list : (String → Result Fault String) → List String → Result Fault (List String)
parse_list parse [] = ok []
parse_list parse (s ∷ ss) = do t ← parse s; ts ← parse_list parse ss; ok (t ∷ ts)
