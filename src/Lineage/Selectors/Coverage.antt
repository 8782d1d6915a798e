-- ===== src/Lineage/Selectors/Coverage.antt =====
-- What a path of packages/lineage/src/selectors.ts stands for: the parts of a document that it
-- covers, and that two paths intersect exactly where they cover a part in common.
use arc_db.Base.{
  true, List, [], ◌∷◌, ◌≡◌, refl, sym, ◌∙◌, ◌↔◌, Bool-cases, ◌⊎◌, inl, inr, arith, some, ap₂,
}
use arc_db.Lineage.Selectors.{
  Codes, same_codes, is_star, tokens_meet, prefix_tokens_intersect, all_meet, split_on, paths_meet,
  json_paths_intersect, json_path_tokens, dotted_selectors_intersect,
}
use arc_db.Lineage.Selectors.Laws.{same_codes_refl, eq_of_same_codes}

-- A token stands for a name: a star for every one.
abbrev pub Matches : Codes → Codes → Type 0
Matches token name = (is_star token ≡ true) ⊎ (token ≡ name)

-- A path covers a part if it leads to the part or to something that holds it.
abbrev pub Covers : List Codes → List Codes → Type 0
Covers [] part = Unit
Covers (t ∷ ts) [] = ⊥
Covers (t ∷ ts) (name ∷ names) = Matches t name × Covers ts names

-- A dotted text names a part if it has as many tokens and each stands for its name.
abbrev pub Names : List Codes → List Codes → Type 0
Names [] [] = Unit
Names (t ∷ ts) (name ∷ names) = Matches t name × Names ts names
Names _ _ = ⊥

meet_of_Matches : (s t name : Codes) → Matches s name → Matches t name → tokens_meet s t ≡ true
meet_of_Matches s t name (inl star) m = rw star refl
meet_of_Matches s t name (inr e) (inl star) = ground (arith)
meet_of_Matches s t name (inr e) (inr f) = rw (e ∙ sym f) (ground (arith, same_codes_refl t))

-- The name that both stand for.
meet-Matches :
    (s t : Codes) → tokens_meet s t ≡ true → (name : Codes) × Matches s name × Matches t name
meet-Matches s t h = elim (Bool-cases (is_star s)) [
  | inl star ↦ (t, inl star, inr refl)
  | inr plain ↦ elim (Bool-cases (is_star t)) [
    | inl star ↦ (s, inr refl, inl star)
    | inr plain' ↦
        let e : same_codes s t ≡ true = ground arith in
        (s, inr refl, inr (sym (eq_of_same_codes s t e)))
  ]
]

Covers-refl : (ts : List Codes) → Covers ts ts
Covers-refl [] = tt
Covers-refl (t ∷ ts) = (inr refl, Covers-refl ts)

prefix_of_Covers :
    (ss ts part : List Codes)
    → Covers ss part
    → Covers ts part
    → prefix_tokens_intersect ss ts ≡ true
unfolding prefix_tokens_intersect
prefix_of_Covers [] ts part c d = refl
prefix_of_Covers (s ∷ ss) [] part c d = refl
prefix_of_Covers (s ∷ ss) (t ∷ ts) [] c d = absurd c
prefix_of_Covers (s ∷ ss) (t ∷ ts) (name ∷ names) (m, c) (n, d) =
    rw (meet_of_Matches s t name m n) (prefix_of_Covers ss ts names c d)

prefix-Covers :
    (ss ts : List Codes)
    → prefix_tokens_intersect ss ts ≡ true
    → (part : List Codes) × Covers ss part × Covers ts part
unfolding prefix_tokens_intersect
prefix-Covers [] ts h = (ts, tt, Covers-refl ts)
prefix-Covers (s ∷ ss) [] h = (s ∷ ss, Covers-refl (s ∷ ss), tt)
prefix-Covers (s ∷ ss) (t ∷ ts) h =
    let (name, m, n) = meet-Matches s t (ground arith) in
    let (names, c, d) = prefix-Covers ss ts (ground arith) in (name ∷ names, (m, c), (n, d))

-- Two JSON paths of the supported syntax intersect exactly where some part of a document is covered
-- by both.
pub json_paths_intersect_iff :
    (left right : Codes) (ls rs : List Codes)
    → json_path_tokens left ≡ some ls
    → json_path_tokens right ≡ some rs
    → (json_paths_intersect left right ≡ true)
      ↔ ((part : List Codes) × Covers ls part × Covers rs part)
unfolding json_paths_intersect prefix_tokens_intersect
json_paths_intersect_iff left right ls rs hl hr =
    let e : json_paths_intersect left right ≡ prefix_tokens_intersect ls rs =
      ap₂ paths_meet hl hr in
    (λ h. prefix-Covers ls rs (sym e ∙ h), λ (part, c, d). e ∙ prefix_of_Covers ls rs part c d)

all_meet-Names :
    (ss ts : List Codes)
    → all_meet ss ts ≡ true
    → (part : List Codes) × Names ss part × Names ts part
all_meet-Names [] [] h = ([], tt, tt)
all_meet-Names [] (t ∷ ts) h = cc
all_meet-Names (s ∷ ss) [] h = cc
all_meet-Names (s ∷ ss) (t ∷ ts) h =
    let (name, m, n) = meet-Matches s t (ground arith) in
    let (names, c, d) = all_meet-Names ss ts (ground arith) in (name ∷ names, (m, c), (n, d))

all_of_Names : (ss ts part : List Codes) → Names ss part → Names ts part → all_meet ss ts ≡ true
all_of_Names [] [] [] c d = refl
all_of_Names [] (t ∷ ts) [] c d = absurd d
all_of_Names (s ∷ ss) ts [] c d = absurd c
all_of_Names [] ts (name ∷ names) c d = absurd c
all_of_Names (s ∷ ss) [] (name ∷ names) c d = absurd d
all_of_Names (s ∷ ss) (t ∷ ts) (name ∷ names) (m, c) (n, d) =
    rw (meet_of_Matches s t name m n) (all_of_Names ss ts names c d)

-- Two dotted texts, of columns of tables, intersect exactly where some part is named by both.
pub dotted_selectors_intersect_iff :
    (left right : Codes)
    → (dotted_selectors_intersect left right ≡ true)
      ↔ ((part : List Codes) × Names (split_on b'.' left) part × Names (split_on b'.' right) part)
unfolding dotted_selectors_intersect
dotted_selectors_intersect_iff left right =
    (all_meet-Names _ _, λ (part, c, d). all_of_Names _ _ part c d)
