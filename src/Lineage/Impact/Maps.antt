-- ===== src/Lineage/Impact/Maps.antt =====
-- The maps and the selector lists of packages/lineage/src/impact.ts: what a map holds after an entry
-- is set, and where the selectors that are kept or passed on come from.
use mathlib.Core.List.{Memᴰ}
use mathlib.Core.List.Memᴰ
use arc_db.Base.{
  String, Bool, true, false, some, List, [], ◌∷◌, map, ◌≡◌, ◌⊎◌, inl, inr, refl, sym, ◌∙◌, includes,
  Result, ok, err, ◌>>=◌, >>=-eq-ok, ◌==◌, eq_iff, arith, if◌then◌else◌, Bool-cases, ap,
}
use arc_db.Base.Sort.{sort}
use arc_db.Base.Members.{mem_of_sort, mem_of_map}
use arc_db.Host.{Host}
use arc_db.Contracts.Errors.{Fault}
use arc_db.Contracts.Digest.{canonicalize}
use arc_db.Contracts.Lineage.{Selector, parse_selector}
use arc_db.Lineage.Selectors.{
  selector_value, set_entry, collect_selectors, unique_selectors, selectors_intersect,
  intersects_some, selector_sets_intersect, by_key,
}
use arc_db.Lineage.Impact.{lookup, selector_key, selector_keys, unseen}

module _ {ℓ} {A : Type ℓ} where
  pub lookup-set_entry :
      (k j : String) (a : A) (m : List (String × A))
      → lookup j (set_entry k a m) ≡ (if k == j then some a else lookup j m)
  lookup-set_entry k j a [] = refl
  lookup-set_entry k j a ((i, b) ∷ m) =
      ground (arith, eq_iff k j, eq_iff i k, eq_iff i j, lookup-set_entry k j a m)

  pub mem_of_set_entry :
      (k : String) (a : A) (m : List (String × A)) {e : String × A}
      → Memᴰ e (set_entry k a m)
      → (e.1 ≡ a) ⊎ Memᴰ e m
  mem_of_set_entry k a [] p = inl (ap (λ (e : String × A). e.1) (Memᴰ.eq_of_singleton p))
  mem_of_set_entry k a ((i, b) ∷ m) p = elim (Bool-cases (i == k)) [
    | inl same ↦ elim (Memᴰ.cases_cons (rw same at p)) [
      | inl e ↦ inl (ap (λ (e : String × A). e.1) e)
      | inr q ↦ inr (Memᴰ.tail q)
    ]
    | inr other ↦ elim (Memᴰ.cases_cons (rw other at p)) [
      | inl e ↦ inr (Memᴰ.head e)
      | inr q ↦ elim (mem_of_set_entry k a m q) [ inl e ↦ inl e | inr r ↦ inr (Memᴰ.tail r) ]
    ]
  ]

-- A loop that stops at the first hit.
some_or :
    (m rest : Result Fault Bool) {b : Bool}
    → m >>= (λ hit. if hit then ok true else rest) ≡ ok b
    → ((m ≡ ok true) × (b ≡ true)) ⊎ ((m ≡ ok false) × (rest ≡ ok b))
some_or (err e) rest h = cc
some_or (ok true) rest h = inl (refl, cc)
some_or (ok false) rest h = inr (refl, h)

module _ (host : Host) where
  -- The selectors of the map have been parsed from the given ones.
  mem_of_collect :
      (found : List (String × Selector)) (ss : List Selector) {es : List (String × Selector)}
      {e : String × Selector}
      → collect_selectors host found ss ≡ ok es
      → Memᴰ e es
      → Memᴰ e found ⊎ ((s : Selector) × Memᴰ s ss × (parse_selector host s ≡ ok e.1))
  mem_of_collect found [] {es} {e} h m = let q : es ≡ found = cc in inl (rw (← q) m)
  mem_of_collect found (s ∷ ss) h m =
      let (t, p, h1) = >>=-eq-ok (parse_selector host s) _ h in
      let (key, q, h2) = >>=-eq-ok (canonicalize host (selector_value t)) _ h1 in
      elim (mem_of_collect (set_entry key t found) ss h2 m) [
        | inl k ↦ elim (mem_of_set_entry key t found k) [
          | inl e ↦ inr (s, Memᴰ.head refl, p ∙ ap ok (sym e))
          | inr k' ↦ inl k'
        ]
        | inr (u, k, r) ↦ inr (u, Memᴰ.tail k, r)
      ]

  pub mem_of_unique :
      (ss : List Selector) {ts : List Selector} {t : Selector}
      → unique_selectors host ss ≡ ok ts
      → Memᴰ t ts
      → (s : Selector) × Memᴰ s ss × (parse_selector host s ≡ ok t)
  unfolding unique_selectors
  mem_of_unique ss {ts} {t} h m =
      let (es, c, r) = >>=-eq-ok (collect_selectors host [] ss) _ h in
      let value : String × Selector → Selector = λ e. e.1 in
      let sorted : List (String × Selector) = sort (by_key host) es in
      let q : ts ≡ map value sorted = cc in
      let (e, k, f) = mem_of_map value sorted (rw q at m) in
      elim (mem_of_collect [] ss c (mem_of_sort (by_key host) es k)) [
        | inl n ↦ elim n [ ]
        | inr (s, k', p) ↦ (s, k', p ∙ ap ok (sym f))
      ]

  pub unseen-mem :
      (seen : List String) (ss : List Selector) {cs : List (String × Selector)} {s : Selector}
      → unseen host seen ss ≡ ok cs
      → Memᴰ s ss
      → (k : String) × (selector_key host s ≡ ok k)
        × ((includes ◌==◌ seen k ≡ true) ⊎ Memᴰ (k, s) cs)
  unseen-mem seen [] h m = elim m [ ]
  unseen-mem seen (t ∷ ts) {cs} {s} h m =
      let (k, p, h1) = >>=-eq-ok (selector_key host t) _ h in
      let (rest, q, h2) = >>=-eq-ok (unseen host seen ts) _ h1 in
      let e : cs ≡ (if includes ◌==◌ seen k then rest else (k, t) ∷ rest) = cc in
      elim (Bool-cases (includes ◌==◌ seen k)) [
        | inl old ↦ elim (Memᴰ.cases_cons m) [
          | inl f ↦ (k, ap (selector_key host) f ∙ p, inl old)
          | inr m' ↦
              let (j, r, o) = unseen-mem seen ts q m' in
              (j, r, elim o [ inl l ↦ inl l | inr l ↦ inr (rw (e, old) l) ])
        ]
        | inr new ↦ elim (Memᴰ.cases_cons m) [
          | inl f ↦
              (k, ap (selector_key host) f ∙ p, inr (rw (e, new) (Memᴰ.head (ap (λ x. (k, x)) f))))
          | inr m' ↦
              let (j, r, o) = unseen-mem seen ts q m' in
              (j, r, elim o [ inl l ↦ inl l | inr l ↦ inr (rw (e, new) (Memᴰ.tail l)) ])
        ]
      ]

  pub mem_of_unseen :
      (seen : List String) (ss : List Selector) {cs : List (String × Selector)}
      {c : String × Selector}
      → unseen host seen ss ≡ ok cs
      → Memᴰ c cs
      → Memᴰ c.1 ss × (selector_key host c.1 ≡ ok c.0) × (includes ◌==◌ seen c.0 ≡ false)
  mem_of_unseen seen [] {cs} h m = let e : cs ≡ [] = cc in elim (rw e at m) [ ]
  mem_of_unseen seen (t ∷ ts) {cs} {c} h m =
      let (k, p, h1) = >>=-eq-ok (selector_key host t) _ h in
      let (rest, q, h2) = >>=-eq-ok (unseen host seen ts) _ h1 in
      let e : cs ≡ (if includes ◌==◌ seen k then rest else (k, t) ∷ rest) = cc in
      let later : Memᴰ c rest
          → Memᴰ c.1 (t ∷ ts)
            × (selector_key host c.1 ≡ ok c.0)
            × (includes ◌==◌ seen c.0 ≡ false) =
        λ l. let (a, b, d) = mem_of_unseen seen ts q l in (Memᴰ.tail a, b, d) in
      elim (Bool-cases (includes ◌==◌ seen k)) [
        | inl old ↦ later (rw (e, old) at m)
        | inr new ↦ elim (Memᴰ.cases_cons (rw (e, new) at m)) [
          | inl f ↦ rw f (Memᴰ.head refl, p, new)
          | inr l ↦ later l
        ]
      ]

  pub keys-mem :
      (ss : List Selector) {ks : List String} {s : Selector}
      → selector_keys host ss ≡ ok ks
      → Memᴰ s ss
      → (k : String) × (selector_key host s ≡ ok k) × Memᴰ k ks
  keys-mem [] h m = elim m [ ]
  keys-mem (t ∷ ts) {ks} h m =
      let (k, p, h1) = >>=-eq-ok (selector_key host t) _ h in
      let (rest, q, h2) = >>=-eq-ok (selector_keys host ts) _ h1 in
      let e : ks ≡ k ∷ rest = cc in
      elim (Memᴰ.cases_cons m) [
        | inl f ↦ (k, ap (selector_key host) f ∙ p, rw e (Memᴰ.head refl))
        | inr m' ↦ let (j, r, l) = keys-mem ts q m' in (j, r, rw e (Memᴰ.tail l))
      ]

  pub mem_of_keys :
      (ss : List Selector) {ks : List String} {k : String}
      → selector_keys host ss ≡ ok ks
      → Memᴰ k ks
      → (s : Selector) × Memᴰ s ss × (selector_key host s ≡ ok k)
  mem_of_keys [] {ks} h m = let e : ks ≡ [] = cc in elim (rw e at m) [ ]
  mem_of_keys (t ∷ ts) {ks} h m =
      let (k, p, h1) = >>=-eq-ok (selector_key host t) _ h in
      let (rest, q, h2) = >>=-eq-ok (selector_keys host ts) _ h1 in
      let e : ks ≡ k ∷ rest = cc in
      elim (Memᴰ.cases_cons (rw e at m)) [
        | inl f ↦ (t, Memᴰ.head refl, p ∙ ap ok (sym f))
        | inr m' ↦ let (s, l, r) = mem_of_keys ts q m' in (s, Memᴰ.tail l, r)
      ]

  intersects_some-mem :
      (s t : Selector) {b : Bool}
      → intersects_some host s (t ∷ []) ≡ ok b
      → selectors_intersect host s t ≡ ok true
      → b ≡ true
  intersects_some-mem s t h k = elim (some_or (selectors_intersect host s t) _ h) [
    | inl (e, f) ↦ f
    | inr (e, f) ↦ cc
  ]

  -- A set that holds a selector which meets the other meets it.
  pub sets_intersect-mem :
      (ss : List Selector) (t : Selector) {s : Selector} {b : Bool}
      → selector_sets_intersect host ss (t ∷ []) ≡ ok b
      → Memᴰ s ss
      → selectors_intersect host s t ≡ ok true
      → b ≡ true
  unfolding selector_sets_intersect
  sets_intersect-mem [] t h m k = elim m [ ]
  sets_intersect-mem (u ∷ us) t {s} {b} h m k =
      elim (some_or (intersects_some host u (t ∷ [])) _ h) [
        | inl (e, f) ↦ f
        | inr (e, f) ↦ elim (Memᴰ.cases_cons m) [
          | inl g ↦ cc (intersects_some-mem u t e (rw g at k))
          | inr m' ↦ sets_intersect-mem us t f m' k
        ]
      ]
