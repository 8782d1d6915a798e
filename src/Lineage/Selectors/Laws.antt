-- ===== src/Lineage/Selectors/Laws.antt =====
-- What the intersection of packages/lineage/src/selectors.ts promises: every selector meets itself,
-- and the order of the two matters for two directories alone.
use arc_db.Base.{
  Bool, true, false, String, ◌&&◌, List, [], ◌∷◌, ◌≡◌, refl, ap, ap₂, ok, arith, Bool-cases, inl,
  inr, ◌==◌, eq_iff, eq_refl, Option, none, some,
}
use arc_db.Host.{Host}
use arc_db.Contracts.Primitives.{codes}
use arc_db.Contracts.Lineage.{
  Selector, SelectorKind, json_path, file, symbol, table_column, record_key, unknown, same_kind,
  parse_selector,
}
use arc_db.Lineage.Selectors.{
  Codes, same_codes, tokens_meet, prefix_tokens_intersect, all_meet, split_on, paths_meet,
  json_paths_intersect, json_path_tokens, normal_files_intersect, normalize_file_selector,
  files_intersect, ends_with_slash, dotted_selectors_intersect, values_intersect, parsed_intersect,
  selectors_intersect,
}

pub same_codes_refl : (a : Codes) → same_codes a a ≡ true
same_codes_refl [] = refl
same_codes_refl (c ∷ cs) = ground (arith, same_codes_refl cs)

pub eq_of_same_codes : (a b : Codes) → same_codes a b ≡ true → a ≡ b
eq_of_same_codes [] [] h = refl
eq_of_same_codes [] (d ∷ ds) h = cc
eq_of_same_codes (c ∷ cs) [] h = cc
eq_of_same_codes (c ∷ cs) (d ∷ ds) h =
    let e : same_codes cs ds ≡ true = ground arith in
    let f : c ≡ d = ground arith in ap₂ ◌∷◌ f (eq_of_same_codes cs ds e)

same_codes_comm : (a b : Codes) → same_codes a b ≡ same_codes b a
same_codes_comm [] [] = refl
same_codes_comm [] (d ∷ ds) = refl
same_codes_comm (c ∷ cs) [] = refl
same_codes_comm (c ∷ cs) (d ∷ ds) = ground (arith, same_codes_comm cs ds)

same_texts_comm : (s t : String) → (s == t) ≡ (t == s)
same_texts_comm s t = ground (arith, eq_iff s t, eq_iff t s)

tokens_meet_refl : (a : Codes) → tokens_meet a a ≡ true
tokens_meet_refl a = ground (arith, same_codes_refl a)

tokens_meet_comm : (a b : Codes) → tokens_meet a b ≡ tokens_meet b a
tokens_meet_comm a b = ground (arith, same_codes_comm a b)

prefix_tokens_refl : (ts : List Codes) → prefix_tokens_intersect ts ts ≡ true
unfolding prefix_tokens_intersect
prefix_tokens_refl [] = refl
prefix_tokens_refl (t ∷ ts) = rw (tokens_meet_refl t) (prefix_tokens_refl ts)

prefix_tokens_comm :
    (ss ts : List Codes) → prefix_tokens_intersect ss ts ≡ prefix_tokens_intersect ts ss
unfolding prefix_tokens_intersect
prefix_tokens_comm [] [] = refl
prefix_tokens_comm [] (t ∷ ts) = refl
prefix_tokens_comm (s ∷ ss) [] = refl
prefix_tokens_comm (s ∷ ss) (t ∷ ts) = ap₂ ◌&&◌ (tokens_meet_comm s t) (prefix_tokens_comm ss ts)

all_meet_refl : (ts : List Codes) → all_meet ts ts ≡ true
all_meet_refl [] = refl
all_meet_refl (t ∷ ts) = rw (tokens_meet_refl t) (all_meet_refl ts)

all_meet_comm : (ss ts : List Codes) → all_meet ss ts ≡ all_meet ts ss
all_meet_comm [] [] = refl
all_meet_comm [] (t ∷ ts) = refl
all_meet_comm (s ∷ ss) [] = refl
all_meet_comm (s ∷ ss) (t ∷ ts) = ap₂ ◌&&◌ (tokens_meet_comm s t) (all_meet_comm ss ts)

paths_meet_refl : (o : Option (List Codes)) → paths_meet o o ≡ true
unfolding prefix_tokens_intersect
paths_meet_refl none = refl
paths_meet_refl (some ts) = prefix_tokens_refl ts

paths_meet_comm : (l r : Option (List Codes)) → paths_meet l r ≡ paths_meet r l
unfolding prefix_tokens_intersect
paths_meet_comm none none = refl
paths_meet_comm none (some r) = refl
paths_meet_comm (some l) none = refl
paths_meet_comm (some l) (some r) = prefix_tokens_comm l r

json_paths_refl : (a : Codes) → json_paths_intersect a a ≡ true
unfolding json_paths_intersect
json_paths_refl a = paths_meet_refl (json_path_tokens a)

json_paths_comm : (a b : Codes) → json_paths_intersect a b ≡ json_paths_intersect b a
unfolding json_paths_intersect
json_paths_comm a b = paths_meet_comm (json_path_tokens a) (json_path_tokens b)

-- Both values name a directory.
abbrev pub both_directories : Codes → Codes → Bool
both_directories a b =
    ends_with_slash (normalize_file_selector a) && ends_with_slash (normalize_file_selector b)

normal_files_comm :
    (l r : Codes)
    → ends_with_slash l && ends_with_slash r ≡ false
    → normal_files_intersect l r ≡ normal_files_intersect r l
normal_files_comm l r h = ground (arith, same_codes_comm l r)

values_intersect_refl : (k : SelectorKind) (v : String) → values_intersect k v v ≡ true
unfolding values_intersect files_intersect dotted_selectors_intersect
values_intersect_refl json_path v = json_paths_refl (codes v)
values_intersect_refl file v =
    let path = normalize_file_selector (codes v) in ground (arith, same_codes_refl path)
values_intersect_refl symbol v = ground (arith, eq_refl v)
values_intersect_refl table_column v = all_meet_refl (split_on b'.' (codes v))
values_intersect_refl record_key v = ground (arith, eq_refl v)
values_intersect_refl unknown v = refl

pub values_intersect_comm :
    (k : SelectorKind) (v w : String)
    → same_kind k file && both_directories (codes v) (codes w) ≡ false
    → values_intersect k v w ≡ values_intersect k w v
unfolding values_intersect files_intersect dotted_selectors_intersect
values_intersect_comm json_path v w h = json_paths_comm (codes v) (codes w)
values_intersect_comm file v w h =
    normal_files_comm (normalize_file_selector (codes v)) (normalize_file_selector (codes w)) h
values_intersect_comm symbol v w h = ground (arith, same_texts_comm v w)
values_intersect_comm table_column v w h =
    all_meet_comm (split_on b'.' (codes v)) (split_on b'.' (codes w))
values_intersect_comm record_key v w h = ground (arith, same_texts_comm v w)
values_intersect_comm unknown v w h = refl

same_kind_refl : (k : SelectorKind) → same_kind k k ≡ true
same_kind_refl k = ground arith

eq_of_same_kind : (k l : SelectorKind) → same_kind k l ≡ true → k ≡ l
eq_of_same_kind k l h = ground arith

pub parsed_intersect_refl : (s : Selector) → parsed_intersect s s ≡ true
unfolding parsed_intersect
parsed_intersect_refl s =
    ground (arith, same_kind_refl s.kind, values_intersect_refl s.kind s.value)

same_kind_comm : (k l : SelectorKind) → same_kind k l ≡ same_kind l k
same_kind_comm k l = ground arith

pub parsed_intersect_comm :
    (s t : Selector)
    → same_kind s.kind file && both_directories (codes s.value) (codes t.value) ≡ false
    → parsed_intersect s t ≡ parsed_intersect t s
unfolding parsed_intersect
parsed_intersect_comm s t h = elim (Bool-cases (same_kind s.kind t.kind)) [
  | inl e ↦
      let k : s.kind ≡ t.kind = eq_of_same_kind s.kind t.kind e in
      ground (
        arith,
        same_kind_comm s.kind t.kind,
        values_intersect_comm s.kind s.value t.value h,
        ap (λ (l : SelectorKind). values_intersect l t.value s.value) k,
      )
  | inr e ↦ ground (arith, same_kind_comm s.kind t.kind)
]

module _ (host : Host) where
  -- A selector that its schema accepts meets itself.
  pub selectors_intersect_refl :
      (s t : Selector) → parse_selector host s ≡ ok t → selectors_intersect host s s ≡ ok true
  unfolding selectors_intersect
  selectors_intersect_refl s t h = rw (h, parsed_intersect_refl t)

  -- Which of the two comes first makes no difference, unless both name directories of files.
  pub selectors_intersect_comm :
      (a b s t : Selector)
      → parse_selector host a ≡ ok s
      → parse_selector host b ≡ ok t
      → same_kind s.kind file && both_directories (codes s.value) (codes t.value) ≡ false
      → selectors_intersect host a b ≡ selectors_intersect host b a
  unfolding selectors_intersect
  selectors_intersect_comm a b s t p q h = rw (p, q, parsed_intersect_comm s t h)
