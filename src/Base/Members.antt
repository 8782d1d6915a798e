-- ===== src/Base/Members.antt =====
-- Which items the searches of Base/Lists.antt find.
use Prim.Native.String.{String}
use mathlib.Core.Path.{◌≡◌, refl, sym}
use mathlib.Core.Bool.{Bool, true, false}
use mathlib.Core.Logic.{◌⊎◌, inl, inr}
use mathlib.Core.Option.{none, some}
use mathlib.Core.List.{List, [], ◌∷◌, map, Memᴰ}
use mathlib.Core.List.Memᴰ
use native.Mathlib.Omega.{arith}
use arc_db.Base.Tests.{Bool-cases}
use arc_db.Base.Lists.{find, keep, any, includes}
use arc_db.Base.Sort.{insert, sort}
use text.Mathlib.Text.{◌==◌}
use text.Mathlib.TextEquality.{eq_iff}

module _ {ℓ} {A : Type ℓ} (p : A → Bool) where
  pub mem_of_find : (xs : List A) {x : A} → find p xs ≡ some x → Memᴰ x xs × (p x ≡ true)
  mem_of_find [] h = cc
  mem_of_find (y ∷ ys) {x} h = elim (Bool-cases (p y)) [
    | inl passes ↦ let e : x ≡ y = ground arith in (Memᴰ.head e, rw e passes)
    | inr fails ↦ let (m, q) = mem_of_find ys (rw fails at h) in (Memᴰ.tail m, q)
  ]

  pub not_of_find-none : (xs : List A) {x : A} → find p xs ≡ none → Memᴰ x xs → p x ≡ false
  not_of_find-none [] h m = elim m [ ]
  not_of_find-none (y ∷ ys) h (Memᴰ.head e) = rw e (ground arith)
  not_of_find-none (y ∷ ys) h (Memᴰ.tail m) = not_of_find-none ys (ground arith) m

  pub mem_of_keep : (xs : List A) {x : A} → Memᴰ x (keep p xs) → Memᴰ x xs × (p x ≡ true)
  mem_of_keep [] m = elim m [ ]
  mem_of_keep (y ∷ ys) {x} m = elim (Bool-cases (p y)) [
    | inl passes ↦ elim (Memᴰ.cases_cons (rw passes at m)) [
      | inl e ↦ (Memᴰ.head e, rw e passes)
      | inr k ↦ let (k', r) = mem_of_keep ys k in (Memᴰ.tail k', r)
    ]
    | inr fails ↦ let (k, q) = mem_of_keep ys (rw fails at m) in (Memᴰ.tail k, q)
  ]

  pub mem-keep : (xs : List A) {x : A} → Memᴰ x xs → p x ≡ true → Memᴰ x (keep p xs)
  mem-keep [] m q = elim m [ ]
  mem-keep (y ∷ ys) {x} (Memᴰ.head e) q =
      let passes : p y ≡ true = rw (← e) q in rw passes (Memᴰ.head e)
  mem-keep (y ∷ ys) (Memᴰ.tail m) q = elim (Bool-cases (p y)) [
    | inl passes ↦ rw passes (Memᴰ.tail (mem-keep ys m q))
    | inr fails ↦ rw fails (mem-keep ys m q)
  ]

  pub mem_of_any : (xs : List A) → any p xs ≡ true → (x : A) × Memᴰ x xs × (p x ≡ true)
  mem_of_any [] h = cc
  mem_of_any (y ∷ ys) h = elim (Bool-cases (p y)) [
    | inl passes ↦ (y, Memᴰ.head refl, passes)
    | inr fails ↦ let (x, m, q) = mem_of_any ys (rw fails at h) in (x, Memᴰ.tail m, q)
  ]

  pub not_of_any : (xs : List A) {x : A} → any p xs ≡ false → Memᴰ x xs → p x ≡ false
  not_of_any [] h m = elim m [ ]
  not_of_any (y ∷ ys) h (Memᴰ.head e) = rw e (ground arith)
  not_of_any (y ∷ ys) h (Memᴰ.tail m) = not_of_any ys (ground arith) m

module _ {ℓ} {A : Type ℓ} (le : A → A → Bool) where
  mem_of_insert : (a : A) (xs : List A) {x : A} → Memᴰ x (insert le a xs) → (x ≡ a) ⊎ Memᴰ x xs
  unfolding insert
  mem_of_insert a [] m = Memᴰ.cases_cons m
  mem_of_insert a (y ∷ ys) {x} m = elim (Bool-cases (le a y)) [
    | inl below ↦ Memᴰ.cases_cons (rw below at m)
    | inr above ↦ elim (Memᴰ.cases_cons (rw above at m)) [
      | inl e ↦ inr (Memᴰ.head e)
      | inr k ↦ elim (mem_of_insert a ys k) [ inl e ↦ inl e | inr k' ↦ inr (Memᴰ.tail k') ]
    ]
  ]

  mem-insert : (a : A) (xs : List A) {x : A} → (x ≡ a) ⊎ Memᴰ x xs → Memᴰ x (insert le a xs)
  unfolding insert
  mem-insert a [] (inl e) = Memᴰ.head e
  mem-insert a [] (inr m) = elim m [ ]
  mem-insert a (y ∷ ys) (inl e) = elim (Bool-cases (le a y)) [
    | inl below ↦ rw below (Memᴰ.head e)
    | inr above ↦ rw above (Memᴰ.tail (mem-insert a ys (inl e)))
  ]
  mem-insert a (y ∷ ys) (inr m) = elim (Bool-cases (le a y)) [
    | inl below ↦ rw below (Memᴰ.tail m)
    | inr above ↦ elim (Memᴰ.cases_cons m) [
      | inl e ↦ rw above (Memᴰ.head e)
      | inr k ↦ rw above (Memᴰ.tail (mem-insert a ys (inr k)))
    ]
  ]

  -- A sort keeps every item and brings in none.
  pub mem_of_sort : (xs : List A) {x : A} → Memᴰ x (sort le xs) → Memᴰ x xs
  unfolding sort
  mem_of_sort [] m = m
  mem_of_sort (y ∷ ys) m = elim (mem_of_insert y (sort le ys) m) [
    | inl e ↦ Memᴰ.head e
    | inr k ↦ Memᴰ.tail (mem_of_sort ys k)
  ]

  pub mem-sort : (xs : List A) {x : A} → Memᴰ x xs → Memᴰ x (sort le xs)
  unfolding sort
  mem-sort [] m = m
  mem-sort (y ∷ ys) (Memᴰ.head e) = mem-insert y (sort le ys) (inl e)
  mem-sort (y ∷ ys) (Memᴰ.tail m) = mem-insert y (sort le ys) (inr (mem-sort ys m))

pub mem_of_map {ℓ κ} :
    {A : Type ℓ} {B : Type κ} (f : A → B) (xs : List A) {b : B}
    → Memᴰ b (map f xs)
    → (a : A) × Memᴰ a xs × (b ≡ f a)
mem_of_map f [] m = elim m [ ]
mem_of_map f (x ∷ xs) (Memᴰ.head e) = (x, Memᴰ.head refl, e)
mem_of_map f (x ∷ xs) (Memᴰ.tail m) = let (a, k, e) = mem_of_map f xs m in (a, Memᴰ.tail k, e)

pub mem_of_includes : (xs : List String) {a : String} → includes ◌==◌ xs a ≡ true → Memᴰ a xs
mem_of_includes [] h = cc
mem_of_includes (x ∷ xs) {a} h = elim (Bool-cases (x == a)) [
  | inl e ↦ Memᴰ.head (sym ((eq_iff x a).0 e))
  | inr e ↦ Memᴰ.tail (mem_of_includes xs (ground arith))
]

pub includes-mem : (xs : List String) {a : String} → Memᴰ a xs → includes ◌==◌ xs a ≡ true
includes-mem [] m = elim m [ ]
includes-mem (x ∷ xs) {a} (Memᴰ.head e) = ground (arith, (eq_iff x a).1 (sym e))
includes-mem (x ∷ xs) (Memᴰ.tail m) = ground (arith, includes-mem xs m)
