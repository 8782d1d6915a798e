-- ===== src/Worker/Ensures.antt =====
-- Invariants of the world that an action of the runtime keeps, whether it returns or throws.
use arc_db.Base.{Bool, true, false, ◌≡◌, refl, Result, ok, err, if◌then◌else◌}
use arc_db.Worker.Errors.{Fault}
use arc_db.Worker.World.{
  World, Action, ◌>>=◌, resume, handle, catch, returned, throw, throw_after, lift,
}

-- The invariant holds of the world that the action leaves, and `post` of what it returns.
unfoldable pub Ensures {ℓ} : {A : Type ℓ} → (World → Type 0) → Action A → (A → Type 0) → Type ℓ
Ensures {A} inv m post = (w : World) → inv w → inv (m w).1 × ((a : A) → (m w).0 ≡ ok a → post a)

-- Nothing is said of the value.
abbrev pub Any {ℓ} : {A : Type ℓ} → A → Type 0
Any a = Unit

post_of_ok {ℓ} :
    {A : Type ℓ} (post : A → Type 0) (r : Result Fault A) {a b : A}
    → r ≡ ok a
    → r ≡ ok b
    → post a
    → post b
post_of_ok post r {a} {b} g h p = let e : a ≡ b = cc in rw (← e) p

module _ (inv : World → Type 0) where
  pub ensures_returned {ℓ} :
      {A : Type ℓ} (post : A → Type 0) (a : A) → post a → Ensures inv (returned a) post
  unfolding Ensures
  ensures_returned post a p w i = (i, λ b h. post_of_ok post (ok a) refl h p)

  pub ensures_throw {ℓ} :
      {A : Type ℓ} (post : A → Type 0) (e : Fault) → Ensures inv (throw {A = A} e) post
  unfolding Ensures
  ensures_throw post e w i = (i, λ b h. cc)

  pub ensures_lift {ℓ} :
      {A : Type ℓ} (post : A → Type 0) (r : Result Fault A)
      → ((a : A) → r ≡ ok a → post a)
      → Ensures inv (lift r) post
  unfolding Ensures
  ensures_lift post r p w i = (i, p)

  ensures_resume {ℓ κ} :
      {A : Type ℓ} {B : Type κ} (mid : A → Type 0) (post : B → Type 0) (next : A → Action B)
      (r : Result Fault A × World)
      → inv r.1
      → ((a : A) → r.0 ≡ ok a → mid a)
      → ((a : A) → mid a → Ensures inv (next a) post)
      → inv (resume next r).1 × ((b : B) → (resume next r).0 ≡ ok b → post b)
  unfolding Ensures
  ensures_resume mid post next (ok a, w) i p k = k a (p a refl) w i
  ensures_resume mid post next (err e, w) i p k = (i, λ b h. cc)

  pub ensures_bind {ℓ κ} :
      {A : Type ℓ} {B : Type κ} (mid : A → Type 0) (post : B → Type 0) (m : Action A)
      (next : A → Action B)
      → Ensures inv m mid
      → ((a : A) → mid a → Ensures inv (next a) post)
      → Ensures inv (m >>= next) post
  unfolding Ensures ◌>>=◌
  ensures_bind mid post m next h k w i =
      let (j, p) = h w i in ensures_resume mid post next (m w) j p k

  ensures_handle {ℓ} :
      {A : Type ℓ} (post : A → Type 0) (recover : Fault → Action A) (r : Result Fault A × World)
      → inv r.1
      → ((a : A) → r.0 ≡ ok a → post a)
      → ((e : Fault) → Ensures inv (recover e) post)
      → inv (handle recover r).1 × ((a : A) → (handle recover r).0 ≡ ok a → post a)
  unfolding Ensures
  ensures_handle post recover (ok a, w) i p k = (i, p)
  ensures_handle post recover (err e, w) i p k = k e w i

  pub ensures_catch {ℓ} :
      {A : Type ℓ} (post : A → Type 0) (m : Action A) (recover : Fault → Action A)
      → Ensures inv m post
      → ((e : Fault) → Ensures inv (recover e) post)
      → Ensures inv (catch m recover) post
  unfolding Ensures catch
  ensures_catch post m recover h k w i =
      let (j, p) = h w i in ensures_handle post recover (m w) j p k

  pub ensures_throw_after {ℓ κ} :
      {A : Type ℓ} {B : Type κ} (mid : A → Type 0) (post : B → Type 0) (m : Action A) (e : Fault)
      → Ensures inv m mid
      → Ensures inv (throw_after {B = B} m e) post
  ensures_throw_after mid post m e h =
      ensures_bind mid post m (λ done. throw e) h λ a p. ensures_throw post e

  pub ensures_if {ℓ} :
      {A : Type ℓ} (post : A → Type 0) (b : Bool) (m n : Action A)
      → (b ≡ true → Ensures inv m post)
      → (b ≡ false → Ensures inv n post)
      → Ensures inv (if b then m else n) post
  ensures_if post true m n h k = h refl
  ensures_if post false m n h k = k refl

  -- A look at the world changes nothing.
  pub ensures_here {ℓ} : {A : Type ℓ} (f : World → A) → Ensures inv (λ w. (ok (f w), w)) Any
  unfolding Ensures
  ensures_here f w i = (i, λ a e. tt)
