-- ===== src/Base/Sort.antt =====
-- `[...xs].sort(compare)`: a stable sort, by insertion. The language promises of it that it is a
-- permutation in order; its algorithm is left to the engine.
use mathlib.Core.Path.{◌≡◌, refl, sym, ◌∙◌}
use mathlib.Core.Bool.{Bool, true, false}
use mathlib.Core.Logic.{◌⊎◌}
use mathlib.Core.List.{List, [], ◌∷◌}
use mathlib.Core.List.{Permᴰ}
use native.Mathlib.Omega.{arith}
use arc_db.Base.Tests.{if◌then◌else◌}

module _ {ℓ} {A : Type ℓ} (le : A → A → Bool) where
  unfoldable pub insert : A → List A → List A
  insert a [] = a ∷ []
  insert a (x ∷ xs) = let rest = insert a xs in if le a x then a ∷ x ∷ xs else x ∷ rest

  unfoldable pub sort : List A → List A
  unfolding insert
  sort [] = []
  sort (x ∷ xs) = insert x (sort xs)

-- A total order by a Boolean test.
pub record IsTotalOrder {ℓ} {A : Type ℓ} (le : A → A → Bool) : Type ℓ where
  pub total : (a b : A) → (le a b ≡ true) ⊎ (le b a ≡ true)
  pub antisym : (a b : A) → le a b ≡ true → le b a ≡ true → a ≡ b
  pub trans : (a b c : A) → le a b ≡ true → le b c ≡ true → le a c ≡ true

module _ {ℓ} {A : Type ℓ} (le : A → A → Bool) (order : IsTotalOrder le) where
  open order use {total, antisym, trans}

  ge_of_not-le : (a b : A) → le a b ≡ false → le b a ≡ true
  ge_of_not-le a b h = ground (arith, total a b)

  insert_comm : (a b : A) (l : List A) → insert le a (insert le b l) ≡ insert le b (insert le a l)
  unfolding insert
  insert_comm a b [] = ground (arith, antisym a b, ge_of_not-le a b, ge_of_not-le b a)
  insert_comm a b (x ∷ l) = ground (
    arith,
    insert_comm a b l,
    antisym a b,
    ge_of_not-le a b,
    ge_of_not-le a x,
    ge_of_not-le b x,
    trans a b x,
    trans b a x,
  )

  -- What a sort returns depends on the items alone, not on the order in which they came.
  pub sort_of_perm : {xs ys : List A} → Permᴰ xs ys → sort le xs ≡ sort le ys
  unfolding sort
  sort_of_perm Permᴰ.nil = refl
  sort_of_perm (Permᴰ.cons e p) = rw (e, sort_of_perm p)
  sort_of_perm (Permᴰ.swap {a} {b} {l} e f) = rw (sym e, sym f) (insert_comm a b (sort le l))
  sort_of_perm (Permᴰ.trans p q) = sort_of_perm p ∙ sort_of_perm q
