-- ===== src/Base/Outcome.antt =====
-- The outcome of code that may throw: a value, or what was thrown.
use mathlib.Core.Path.{◌≡◌, refl, subst}
use mathlib.Core.Bool.{Bool, true, false}
use mathlib.Core.Option.{Option, none, some}

pub data Result {ℓ κ} (E : Type κ) (A : Type ℓ) : Type (ℓ ⊔ κ) where
  ok : A → Result E A
  err : E → Result E A

infixl 5 ◌>>=◌ ◌>>◌
-- A throw passes over what follows.
abbrev pub ◌>>=◌ {ℓ κ μ} :
    {E : Type μ} {A : Type ℓ} {B : Type κ} (m : Result E A) (next : A → Result E B) → Result E B
err thrown >>= next = err thrown
ok returned >>= next = next returned

-- `if (b) throw e`
abbrev pub throw_if {μ} : {E : Type μ} → Bool → E → Result E (Unit {0})
throw_if true e = err e
throw_if false e = ok tt

abbrev pub ◌>>◌ {ℓ μ} :
    {E : Type μ} {B : Type ℓ} (m : Result E (Unit {0})) → Result E B → Result E B
m >> rest = m >>= λ done. rest

-- The value, or a throw where there is none.
abbrev pub or_throw {ℓ μ} : {E : Type μ} {A : Type ℓ} → Option A → E → Result E A
or_throw none e = err e
or_throw (some a) e = ok a

pub >>=-eq-ok {ℓ κ μ} :
    {E : Type μ} {B : Type κ} {A : Type ℓ} (m : Result E A) (next : A → Result E B) {last : B}
    → m >>= next ≡ ok last
    → (x : A) × (m ≡ ok x) × (next x ≡ ok last)
>>=-eq-ok (err thrown) next h = cc
>>=-eq-ok (ok returned) next h = (returned, refl, h)

pub throw_if-eq-ok {μ} :
    {E : Type μ} (b : Bool) (e : E) {u : Unit} → throw_if b e ≡ ok u → b ≡ false
throw_if-eq-ok true e h = cc
throw_if-eq-ok false e h = refl

pub or_throw-eq-ok {ℓ μ} :
    {E : Type μ} {A : Type ℓ} (o : Option A) (e : E) {a : A} → or_throw o e ≡ ok a → o ≡ some a
or_throw-eq-ok none e h = cc
or_throw-eq-ok (some a) e h = cc

-- Whatever a computation returns satisfies `P`.
abbrev pub Returns {ℓ κ μ} :
    {E : Type μ} {A : Type ℓ} → (A → Type κ) → Result E A → Type (ℓ ⊔ κ ⊔ μ)
Returns {A} P r = (a : A) → r ≡ ok a → P a

-- So it does behind a step that returns, if it does for any value of that step.
pub after {ℓ κ μ ν} :
    {E : Type μ} {A : Type ℓ} {B : Type κ} (P : B → Type ν) (m : Result E A) (f : A → Result E B)
    → ((a : A) → Returns P (f a))
    → Returns P (m >>= f)
after P (ok a) f k = k a
after P (err e) f k = λ b h. cc

-- The same, where what follows rests on what the step returned.
pub after_ok {ℓ κ μ ν} :
    {E : Type μ} {A : Type ℓ} {B : Type κ} (P : B → Type ν) (m : Result E A) (f : A → Result E B)
    → ((a : A) → m ≡ ok a → Returns P (f a))
    → Returns P (m >>= f)
after_ok P (ok a) f k = k a refl
after_ok P (err e) f k = λ b h. cc

pub at_end {ℓ μ ν} :
    {E : Type μ} {A : Type ℓ} (P : A → Type ν) (a : A) → P a → Returns {E = E} P (ok a)
at_end P a p = λ b h. subst P (cc) p
