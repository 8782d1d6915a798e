-- ===== src/Worker/Backoff.antt =====
-- apps/worker/src/backoff.ts: how long a failed job waits for its next attempt. A number that the
-- code asks to be a safe integer is given by that integer; none is any other number, a negative one
-- among them, since both are refused. A finite number that is not negative is a fraction, and none is
-- NaN, infinite or negative. The arithmetic is exact, where the code rounds its products to doubles.
use arc_db.Base.{
  ℕ, suc, ◌+◌, ◌-◌, ◌*◌, ◌/◌, ◌^◌, ◌≤◌, ◌<◌, min, max, ltb, Option, some, Result, ok, throw_if,
  or_throw, ◌>>=◌, ◌>>◌, ◌≡◌, refl, sym, ap, ◌∙◌, false, arith, String,
}
use native.Mathlib.Nat.{
  pow-le-pow_right, mul-le-mul_left, mul-le-mul_right, mul-le-mul, one-le-pow, mul_assoc, mul_comm,
  le-div_iff_mul-le, div-lt_iff_lt-mul, div-mul-le_self,
}

pub record Fraction : Type 0 where
  pub numerator : ℕ
  -- one less than the denominator
  pub parts : ℕ

abbrev pub denominator : Fraction → ℕ
denominator x = suc x.parts

pub record BackoffPolicy : Type 0 where
  pub base_delay_ms : Option ℕ
  pub max_delay_ms : Option ℕ
  pub jitter_ratio : Option Fraction

-- `!Number.isFinite(x) || x < 0 || x > 1`
abbrev pub parse_unit : String → Option Fraction → Result String Fraction
parse_unit message x = do
  fraction ← or_throw x message
  throw_if (ltb (denominator fraction) fraction.numerator) message
  ok fraction

-- The message of the TypeError is the fault.
unfoldable pub assert_policy : BackoffPolicy → Result String (ℕ × ℕ × Fraction)
assert_policy policy = do
  base ← or_throw policy.base_delay_ms "baseDelayMs must be a positive safe integer"
  throw_if (ltb base 1) "baseDelayMs must be a positive safe integer"
  top ←
      or_throw policy.max_delay_ms
        "maxDelayMs must be a safe integer greater than or equal to baseDelayMs"
  throw_if (ltb top base) "maxDelayMs must be a safe integer greater than or equal to baseDelayMs"
  ratio ← parse_unit "jitterRatio must be between 0 and 1" policy.jitter_ratio
  ok (base, top, ratio)

-- Below 2 ^ 106, and a product with a power of two, so that the numbers of the code are exact.
abbrev pub without_jitter : ℕ → ℕ → ℕ → ℕ
without_jitter base top attempt = min top (base * 2 ^ min (attempt - 1) 52)

-- The multiplier 1 + (sample * 2 - 1) * ratio over the common denominator; it is not negative.
abbrev pub common : Fraction → Fraction → ℕ
common sample ratio = denominator sample * denominator ratio

abbrev pub multiplier : Fraction → Fraction → ℕ
multiplier sample ratio =
    common sample ratio
    + 2 * (sample.numerator * ratio.numerator)
    - denominator sample * ratio.numerator

-- `Math.round(x / d)`, which is the floor of x / d + 1 / 2
abbrev pub rounded : ℕ → ℕ → ℕ
rounded x d = (2 * x + d) / (2 * d)

abbrev pub jittered : ℕ → Fraction → Fraction → ℕ
jittered delay sample ratio = rounded (delay * multiplier sample ratio) (common sample ratio)

unfoldable pub bounded_exponential_backoff :
    Option ℕ → BackoffPolicy → Option Fraction → Result String ℕ
unfolding assert_policy
bounded_exponential_backoff attempt policy random = do
  (base, top, ratio) ← assert_policy policy
  n ← or_throw attempt "attempt must be a positive safe integer"
  throw_if (ltb n 1) "attempt must be a positive safe integer"
  sample ← parse_unit "random must return a value between 0 and 1" random
  ok (max 1 (min top (jittered (without_jitter base top n) sample ratio)))

ltb-false : (a b : ℕ) → b ≤ a → ltb a b ≡ false
ltb-false a b h = ground arith

abbrev InUnit : Fraction → Type 0
InUnit x = x.numerator ≤ denominator x

-- The policy is one that the code accepts.
abbrev Sensible : BackoffPolicy → ℕ → ℕ → Fraction → Type 0
Sensible policy base top ratio =
    (policy.base_delay_ms ≡ some base)
    × (policy.max_delay_ms ≡ some top)
    × (policy.jitter_ratio ≡ some ratio)
    × (1 ≤ base)
    × (base ≤ top)
    × InUnit ratio

-- The delay in place of the computation, where nothing is refused.
bounded_exponential_backoff-eq-ok :
    (policy : BackoffPolicy) (base top n : ℕ) (ratio sample : Fraction)
    → Sensible policy base top ratio
    → 1 ≤ n
    → InUnit sample
    → bounded_exponential_backoff (some n) policy (some sample)
      ≡ ok (max 1 (min top (jittered (without_jitter base top n) sample ratio)))
unfolding bounded_exponential_backoff assert_policy
bounded_exponential_backoff-eq-ok policy base top n ratio sample (eb, et, er, b, t, r) a s =
    rw
      (
        eb,
        et,
        er,
        ltb-false base 1 b,
        ltb-false top base t,
        ltb-false (denominator ratio) ratio.numerator r,
        ltb-false n 1 a,
        ltb-false (denominator sample) sample.numerator s,
      )
      refl

without_jitter_mono :
    (base top n m : ℕ) → n ≤ m → without_jitter base top n ≤ without_jitter base top m
without_jitter_mono base top n m h = do
  let power : 2 ^ min (n - 1) 52 ≤ 2 ^ min (m - 1) 52 = pow-le-pow_right (omega arith) (omega arith)
  let product : base * 2 ^ min (n - 1) 52 ≤ base * 2 ^ min (m - 1) 52 = mul-le-mul_left base power
  omega arith

without_jitter_positive : (base top n : ℕ) → 1 ≤ base → base ≤ top → 1 ≤ without_jitter base top n
without_jitter_positive base top n b t = do
  let power : 1 ≤ 2 ^ min (n - 1) 52 = one-le-pow (min (n - 1) 52) 2 (omega arith)
  let product : 1 * 1 ≤ base * 2 ^ min (n - 1) 52 = mul-le-mul b power
  omega arith

rounded_mono : (x y d : ℕ) → 1 ≤ d → x ≤ y → rounded x d ≤ rounded y d
rounded_mono x y d p h = do
  let below : rounded x d * (2 * d) ≤ 2 * x + d = div-mul-le_self (2 * x + d) (2 * d)
  (le-div_iff_mul-le (omega arith)).1 (omega arith)

-- A whole number is rounded to itself.
rounded_whole : (w d : ℕ) → 1 ≤ d → rounded (w * d) d ≡ w
rounded_whole w d p = do
  let twice : w * (2 * d) ≡ 2 * (w * d) =
      sym (mul_assoc w 2 d) ∙ ap (λ x. x * d) (mul_comm w 2) ∙ mul_assoc 2 w d
  let twice_more : suc w * (2 * d) ≡ 2 * d + 2 * (w * d) = omega (arith, twice)
  let least : w ≤ rounded (w * d) d = (le-div_iff_mul-le (omega arith)).1 (omega arith)
  let most : rounded (w * d) d < suc w = (div-lt_iff_lt-mul (omega arith)).1 (omega arith)
  omega arith

multiplier_mono :
    (ratio : Fraction) (s s' parts : ℕ)
    → s ≤ s'
    → multiplier (record { numerator = s; parts = parts }) ratio
      ≤ multiplier (record { numerator = s'; parts = parts }) ratio
multiplier_mono ratio s s' parts h = do
  let product : s * ratio.numerator ≤ s' * ratio.numerator = mul-le-mul_right ratio.numerator h
  omega arith

abbrev pub half : Fraction
half = record { numerator = 1; parts = 1 }

jittered-half : (delay : ℕ) (ratio : Fraction) → jittered delay half ratio ≡ delay
jittered-half delay ratio = do
  let one' : multiplier half ratio ≡ common half ratio = omega arith
  ap (λ (x : ℕ). rounded (delay * x) (common half ratio)) one'
      ∙ rounded_whole delay (common half ratio) (omega arith)

jittered_mono :
    (v w : ℕ) (ratio : Fraction) (s s' parts : ℕ)
    → v ≤ w
    → s ≤ s'
    → jittered v (record { numerator = s; parts = parts }) ratio
      ≤ jittered w (record { numerator = s'; parts = parts }) ratio
jittered_mono v w ratio s s' parts h k = do
  let one_part : 1 ≤ suc parts = omega arith
  let one_denominator : 1 ≤ denominator ratio = omega arith
  let positive : 1 * 1 ≤ suc parts * denominator ratio = mul-le-mul one_part one_denominator
  rounded_mono _ _ (suc parts * denominator ratio) (omega (arith, positive))
      (mul-le-mul h (multiplier_mono ratio s s' parts k))

-- Under a policy that the code accepts, a job waits the longer, the more attempts it has made and the
-- greater the sample: attempts n and m, n no later than m, with samples over one denominator, the
-- first no greater than the second and both at most 1, get delays d and e with d not above e. Both are
-- at least 1 and at most the policy's maximum. For the sample 1 / 2 the delay is the capped power of
-- two itself.
pub bounded_exponential_backoff-IsBounded :
    (policy : BackoffPolicy) (base top n m : ℕ) (ratio : Fraction) (s s' parts : ℕ)
    → Sensible policy base top ratio
    → 1 ≤ n
    → n ≤ m
    → s ≤ s'
    → s' ≤ suc parts
    → ((d e : ℕ) × (bounded_exponential_backoff
            (some n)
            policy
            (some (record { numerator = s; parts = parts }))
          ≡ ok d)
        × (bounded_exponential_backoff
              (some m)
              policy
              (some (record { numerator = s'; parts = parts }))
            ≡ ok e)
        × (1 ≤ d)
        × (d ≤ e)
        × (e ≤ top))
      × (bounded_exponential_backoff (some n) policy (some half)
          ≡ ok (min top (base * 2 ^ min (n - 1) 52)))
bounded_exponential_backoff-IsBounded policy base top n m ratio s s' parts p a h k l = do
  let (_, _, _, b, t, _) = p
  let least = without_jitter_positive base top n b t
  let grows =
      jittered_mono (without_jitter base top n) (without_jitter base top m) ratio s s' parts
        (without_jitter_mono base top n m h) k
  let plain = jittered-half (without_jitter base top n) ratio
  let kept : max 1 (min top (without_jitter base top n)) ≡ without_jitter base top n =
      omega (arith, least)
  (
    (
      _,
      _,
      bounded_exponential_backoff-eq-ok policy base top n ratio
          (record { numerator = s; parts = parts }) p a (omega arith),
      bounded_exponential_backoff-eq-ok policy base top m ratio
          (record { numerator = s'; parts = parts }) p (omega arith) l,
      omega arith,
      omega (arith, grows),
      omega (arith, b, t),
    ),
    bounded_exponential_backoff-eq-ok policy base top n ratio half p a (omega arith)
        ∙ ap (λ (x : ℕ). ok (max 1 (min top x))) plain
        ∙ ap (λ (x : ℕ). ok x) kept,
  )
