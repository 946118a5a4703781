-- ===== src/RateLimit/Examples.antt =====
-- Runs of the rate limits, and their theorems at a concrete table.
use lightr.Prelude.{
  ℕ, codes, ◌+◌, ◌-◌, ◌*◌, ◌≤◌, ◌≡◌, refl, true, List, [], ◌∷◌, arith, Text, false, none,
}
use lightr.RateLimit.Unbounded.{allow_all-spec_all, spec_all, allow_all}
use lightr.RateLimit.Buckets.{take_all-budget, last_time, take_all}
use lightr.RateLimit.{
  Bucket, refill, spend, take_token, retry_after, Buckets, Limiter, allow, KeyLimiter, limiter,
}

-- Two requests a minute: the first one of a fresh bucket is granted, the third is not.
abbrev two_a_minute : Bucket
two_a_minute = record { capacity = 2; period = 60_000_000; tokens = 120_000_000; updated = 0 }

abbrev burst : List ℕ
burst = 0 ∷ 0 ∷ 0 ∷ 30_000_000 ∷ []

burst_granted : (take_all burst two_a_minute).1 ≡ 3
unfolding take_all take_token refill spend
burst_granted = refl

abbrev spent : Bucket
spent = record two_a_minute { tokens = 0 }

spent_wait : retry_after spent ≡ 31
unfolding retry_after
spent_wait = refl

abbrev table : Buckets
table = (codes "a", spent) ∷ (codes "b", two_a_minute) ∷ []

abbrev two_keys : Limiter
two_keys = record { capacity = 2; period = 60_000_000; buckets = table }

take_all-budget_example :
    (take_all burst two_a_minute).1 * 60_000_000 + (take_all burst two_a_minute).0.tokens
    ≤ 120_000_000 + (last_time 0 burst - 0) * 2
take_all-budget_example =
    take_all-budget burst two_a_minute
      (omega arith, (omega arith, (omega arith, (omega arith, tt))))

abbrev limits : KeyLimiter
limits = record { minute = table; day = [] }

abbrev requests : List (ℕ × Text)
requests =
    (0, codes "a") ∷ (1, codes "b") ∷ (2, codes "a") ∷ (3, codes "a") ∷ (90_000_000, codes "a") ∷ []

requests_granted :
    allow_all requests (record { capacity = 2; period = 60_000_000; buckets = [] })
    ≡ true ∷ true ∷ true ∷ false ∷ true ∷ []
unfolding allow_all allow
requests_granted = refl

allow_all-spec_all_example :
    allow_all requests (record { capacity = 2; period = 60_000_000; buckets = [] })
    ≡ spec_all 2 60_000_000 requests (λ k. none)
allow_all-spec_all_example =
    allow_all-spec_all 2 60_000_000 (record { capacity = 2; period = 60_000_000; buckets = [] })
      requests (unfold limiter in refl)
      (omega arith, (omega arith, (omega arith, (omega arith, (omega arith, tt)))))
