-- ===== src/Lineage/Examples/Impact.antt =====
-- The theorems on impact.ts, each at the sample graph.
use mathlib.Core.List.{Memᴰ}
use mathlib.Core.List.Memᴰ
use arc_db.Base.{
  arith, ok, some, none, [], ◌∷◌, ◌≡◌, ◌⊎◌, inl, inr, refl, sym, ◌∙◌, ap, String, Result,
}
use arc_db.Lifecycle.Examples.{sample_host}
use arc_db.Base.Sort.{sort, insert}
use arc_db.Contracts.Errors.{Fault}
use arc_db.Contracts.Digest.{canonicalize, canonicalize_value}
use arc_db.Contracts.Lineage.{Selector, parse_selector, parse_text}
use arc_db.Lineage.Selectors.{
  unknown_selector, selectors_intersect, selector_sets_intersect, unique_selectors,
  parsed_intersect, values_intersect,
}
use arc_db.Lineage.Impact.{
  State, AffectedNode, loop, initial, visit, visit_edge, reach, arrive, add_skipped, selector_key,
  affected, selector_intersection, unknown_dependency, reason_edge, edge_detail,
}
use arc_db.Lineage.Impact.Steps.{IsVocabulary}
use arc_db.Lineage.Impact.Sound.{Leads, loop_affected-Leads}
use arc_db.Lineage.Impact.Closed.{Hit, IsCanonical}
use arc_db.Lineage.Impact.Complete.{loop-Hit}
use arc_db.Lineage.Impact.Terminates.{loop-ends}
use arc_db.Lineage.Examples.{symbol_f, reads_f, reads_all, sample_input}

abbrev Known : Selector → Type 0
Known s = Memᴰ s (symbol_f ∷ unknown_selector ∷ [])

abbrev node_b : AffectedNode
node_b = record {
  version_id = "b";
  generation = 1;
  selectors = unknown_selector ∷ [];
  via_edge_ids = "e1" ∷ [];
}

abbrev node_c : AffectedNode
node_c = record {
  version_id = "c";
  generation = 2;
  selectors = unknown_selector ∷ [];
  via_edge_ids = "e2" ∷ [];
}

abbrev start : State
start = initial sample_host sample_input "a" (symbol_f ∷ [])

abbrev key_f : String
key_f = "{kind:symbol,value:f}"

abbrev key_unknown : String
key_unknown = "{kind:unknown,value:*}"

abbrev ended : State
ended = record start {
  affected =
      (
        "a",
        (record { version_id = "a"; generation = 0; selectors = symbol_f ∷ []; via_edge_ids = [] }),
      )
      ∷ ("b", node_b)
      ∷ ("c", node_c)
      ∷ [];
  queue = [];
  propagated = ("a", key_f ∷ []) ∷ ("b", key_unknown ∷ []) ∷ ("c", key_unknown ∷ []) ∷ [];
  reason_graph =
      reason_edge reads_f affected selector_intersection (edge_detail (some symbol_f))
      ∷ reason_edge reads_all affected unknown_dependency (edge_detail none)
      ∷ [];
  visited = 2;
}

ran : loop sample_host sample_input (reads_f ∷ reads_all ∷ []) 10 ("a" ∷ []) start ≡ some (ok ended)
unfolding loop visit visit_edge reach arrive add_skipped selector_key selector_sets_intersect
    unique_selectors selectors_intersect parsed_intersect values_intersect canonicalize
    canonicalize_value sort insert parse_selector parse_text
ran = refl

text_of_f : selector_key sample_host symbol_f ≡ ok key_f
unfolding selector_key canonicalize canonicalize_value sort insert
text_of_f = refl

text_of_unknown : selector_key sample_host unknown_selector ≡ ok key_unknown
unfolding selector_key canonicalize canonicalize_value sort insert
text_of_unknown = refl

known_cases : (s : Selector) → Known s → (s ≡ symbol_f) ⊎ (s ≡ unknown_selector)
known_cases s m = elim (Memᴰ.cases_cons m) [ inl e ↦ inl e | inr k ↦ inr (Memᴰ.eq_of_singleton k) ]

parsed_known : (s t : Selector) → Known s → parse_selector sample_host s ≡ ok t → s ≡ t
unfolding parse_selector parse_text
parsed_known s t k h = elim (known_cases s k) [
  | inl e ↦ let g = rw e at h in rw e (cc)
  | inr e ↦ let g = rw e at h in rw e (cc)
]

vocabulary : IsVocabulary sample_host sample_input Known
vocabulary = record {
  has_unknown = Memᴰ.tail (Memᴰ.head refl);
  parsed = λ s t k h. let e = parsed_known s t k h in rw (← e) k;
  transferred = λ name f e c r ps h k g q s m. cc;
}

key_cases :
    (s : Selector)
    → Known s
    → ((s ≡ symbol_f) × (selector_key sample_host s ≡ ok key_f))
      ⊎ ((s ≡ unknown_selector) × (selector_key sample_host s ≡ ok key_unknown))
key_cases s k = elim (known_cases s k) [
  | inl e ↦ inl (e, ap (selector_key sample_host) e ∙ text_of_f)
  | inr e ↦ inr (e, ap (selector_key sample_host) e ∙ text_of_unknown)
]

canonical : IsCanonical sample_host Known
canonical = record {
  fixed = parsed_known;
  injective = λ s t key k l p q. elim (key_cases s k) [
    | inl (e, a) ↦ elim (key_cases t l) [ inl (f, b) ↦ e ∙ sym f | inr (f, b) ↦ cc ]
    | inr (e, a) ↦ elim (key_cases t l) [ inl (f, b) ↦ cc | inr (f, b) ↦ e ∙ sym f ]
  ];
}

keyed :
    (s : Selector) (key : String)
    → Known s
    → selector_key sample_host s ≡ ok key
    → Memᴰ key (key_f ∷ key_unknown ∷ [])
keyed s key k p = elim (key_cases s k) [
  | inl (e, a) ↦ Memᴰ.head cc
  | inr (e, a) ↦ Memᴰ.tail (Memᴰ.head cc)
]

start_known : (s : Selector) → Memᴰ s (symbol_f ∷ []) → Known s
start_known s m = Memᴰ.head (Memᴰ.eq_of_singleton m)

loop_affected-Leads_example : Leads (reads_f ∷ reads_all ∷ []) "a" "c"
loop_affected-Leads_example =
    loop_affected-Leads sample_host sample_input (reads_f ∷ reads_all ∷ []) 10 "a" (symbol_f ∷ [])
      ended "c" node_c ran refl

loop-Hit_example : Hit ended "c"
unfolding selectors_intersect parsed_intersect parse_selector parse_text
loop-Hit_example =
    loop-Hit sample_host sample_input (reads_f ∷ reads_all ∷ []) vocabulary canonical refl 10 "a"
      (symbol_f ∷ []) ended reads_all node_b unknown_selector start_known ran
      (Memᴰ.tail (Memᴰ.head refl)) (λ name h. refl) refl (Memᴰ.head refl) refl

loop-ends_example :
    (r : Result Fault State) × (loop sample_host sample_input
        (reads_f ∷ reads_all ∷ [])
        20
        ("a" ∷ [])
        start
      ≡ some r)
loop-ends_example =
    loop-ends sample_host sample_input vocabulary (key_f ∷ key_unknown ∷ []) keyed
      (reads_f ∷ reads_all ∷ []) "a" (symbol_f ∷ []) start_known 20 (omega arith)
