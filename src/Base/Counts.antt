-- ===== src/Base/Counts.antt =====
-- How many items a filter leaves, and the pairs of two lists.
use Prim.Native.Nat.{suc, ◌+◌, ◌*◌, ◌≤◌, ◌<◌}
use mathlib.Core.Path.{◌≡◌, refl}
use mathlib.Core.Bool.{Bool, true, false}
use mathlib.Core.List.{List, [], ◌∷◌, ◌++◌, map, Memᴰ}
use mathlib.Core.List.Memᴰ
use native.Mathlib.Omega.{arith}
use arc_db.Base.Lists.{length, keep}
use arc_db.Base.Sort.{insert, sort}

module _ {ℓ} {A : Type ℓ} where
  pub length-append : (xs ys : List A) → length (xs ++ ys) ≡ length xs + length ys
  length-append [] ys = omega arith
  length-append (x ∷ xs) ys = omega (arith, length-append xs ys)

  pub length-keep : (p : A → Bool) (xs : List A) → length (keep p xs) ≤ length xs
  length-keep p [] = omega arith
  length-keep p (x ∷ xs) = ground (arith, length-keep p xs)

  length-insert :
      (le : A → A → Bool) (a : A) (xs : List A) → length (insert le a xs) ≡ suc (length xs)
  unfolding insert
  length-insert le a [] = refl
  length-insert le a (x ∷ xs) = ground (arith, length-insert le a xs)

  pub length-sort : (le : A → A → Bool) (xs : List A) → length (sort le xs) ≡ length xs
  unfolding sort
  length-sort le [] = refl
  length-sort le (x ∷ xs) = omega (arith, length-insert le x (sort le xs), length-sort le xs)

  -- A stricter filter leaves no more, and fewer if it drops an item that the other keeps.
  pub length-keep-le :
      (p q : A → Bool) (xs : List A)
      → ((x : A) → q x ≡ true → p x ≡ true)
      → length (keep q xs) ≤ length (keep p xs)
  length-keep-le p q [] h = omega arith
  length-keep-le p q (x ∷ xs) h = ground (arith, h x, length-keep-le p q xs h)

  pub length-keep-lt :
      (p q : A → Bool) (xs : List A) (x : A)
      → ((y : A) → q y ≡ true → p y ≡ true)
      → Memᴰ x xs
      → p x ≡ true
      → q x ≡ false
      → length (keep q xs) < length (keep p xs)
  length-keep-lt p q [] x h m yes' no' = elim m [ ]
  length-keep-lt p q (y ∷ ys) x h (Memᴰ.head e) yes' no' =
      let a : p y ≡ true = rw (← e) yes' in
      let b : q y ≡ false = rw (← e) no' in ground (arith, length-keep-le p q ys h)
  length-keep-lt p q (y ∷ ys) x h (Memᴰ.tail m) yes' no' =
      ground (arith, h y, length-keep-lt p q ys x h m yes' no')

pub length-map {ℓ κ} :
    {A : Type ℓ} {B : Type κ} (f : A → B) (xs : List A) → length (map f xs) ≡ length xs
length-map f [] = refl
length-map f (x ∷ xs) = omega (arith, length-map f xs)

module _ {ℓ κ} {A : Type ℓ} {B : Type κ} where
  -- Each item of the one list with each of the other.
  abbrev pub pairs : List A → List B → List (A × B)
  pairs [] bs = []
  pairs (a ∷ as') bs = map (λ b. (a, b)) bs ++ pairs as' bs

  pub length-pairs : (as' : List A) (bs : List B) → length (pairs as' bs) ≡ length as' * length bs
  length-pairs [] bs = omega arith
  length-pairs (a ∷ as') bs = grind (
    arith,
    length-append (map (λ b. (a, b)) bs) (pairs as' bs),
    length-map {B = A × B} (λ b. (a, b)) bs,
    length-pairs as' bs,
  )

  pub mem-pairs :
      (as' : List A) (bs : List B) {a : A} {b : B}
      → Memᴰ a as'
      → Memᴰ b bs
      → Memᴰ (a, b) (pairs as' bs)
  mem-pairs [] bs m k = elim m [ ]
  mem-pairs (c ∷ cs) bs {a} {b} (Memᴰ.head e) k =
      Memᴰ.append_left (pairs cs bs) (rw e (Memᴰ.map (λ x. (c, x)) k))
  mem-pairs (c ∷ cs) bs (Memᴰ.tail m) k =
      Memᴰ.append_right (map (λ x. (c, x)) bs) (mem-pairs cs bs m k)
