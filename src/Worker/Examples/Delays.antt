-- ===== src/Worker/Examples/Delays.antt =====
-- Sample data for apps/worker/src/backoff.ts: the default policy, at samples of a quarter.
use arc_db.Base.{ℕ, ◌-◌, ◌*◌, ◌^◌, ◌≤◌, min, some, ok, ◌≡◌, refl, arith}
use arc_db.Worker.Backoff.{
  Fraction, BackoffPolicy, bounded_exponential_backoff, bounded_exponential_backoff-IsBounded,
  assert_policy, half,
}

abbrev a_fifth : Fraction
a_fifth = record { numerator = 1; parts = 4 }

abbrev default_backoff_policy : BackoffPolicy
default_backoff_policy = record {
  base_delay_ms = some 1000;
  max_delay_ms = some 300000;
  jitter_ratio = some a_fifth;
}

abbrev quarters : ℕ → Fraction
quarters n = record { numerator = n; parts = 3 }

third : bounded_exponential_backoff (some 3) default_backoff_policy (some (quarters 3)) ≡ ok 4400
unfolding bounded_exponential_backoff assert_policy
third = refl

bounded_exponential_backoff-IsBounded_example :
    ((d e : ℕ) × (bounded_exponential_backoff (some 3) default_backoff_policy (some (quarters 1))
        ≡ ok d)
      × (bounded_exponential_backoff (some 60) default_backoff_policy (some (quarters 3)) ≡ ok e)
      × (1 ≤ d)
      × (d ≤ e)
      × (e ≤ 300000))
    × (bounded_exponential_backoff (some 3) default_backoff_policy (some half)
        ≡ ok (min 300000 (1000 * 2 ^ min (3 - 1) 52)))
bounded_exponential_backoff-IsBounded_example =
    bounded_exponential_backoff-IsBounded default_backoff_policy 1000 300000 3 60 a_fifth 1 3 3
      (refl, refl, refl, omega arith, omega arith, omega arith) (omega arith) (omega arith)
      (omega arith) (omega arith)
