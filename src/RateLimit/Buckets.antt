-- ===== src/RateLimit/Buckets.antt =====
-- How much a bucket grants, when it grants again, and what its sweeping loses.
use lightr.Prelude.{
  ℕ, if◌then◌else◌, ◌+◌, ◌-◌, ◌*◌, ◌≤◌, ◌≡◌, List, [], ◌∷◌, ltb, Bool-cases, inl, inr, arith, ◌<◌,
  true, ◌/◌,
}
use native.Mathlib.Nat.{div-add-mod, mod-lt, mul-le-mul_right}
use lightr.RateLimit.{Bucket, refill, spend, take_token}

-- A bucket holds no more than its capacity.
abbrev pub IsWithin : Bucket → Type 0
IsWithin b = b.tokens ≤ b.capacity * b.period

-- The requests at the given times: the bucket they leave, and how many were granted.
unfoldable pub take_all : List ℕ → Bucket → Bucket × ℕ
unfolding take_token
take_all [] b = (b, 0)
take_all (t ∷ ts) b =
    let one = take_token t b in
    let rest = take_all ts one.0 in (rest.0, (if one.1 then 1 else 0) + rest.1)

-- The times do not go back.
abbrev pub IsOrdered : ℕ → List ℕ → Type 0
IsOrdered t [] = Unit
IsOrdered t (u ∷ us) = (t ≤ u) × IsOrdered u us

-- The time of the last request.
abbrev pub last_time : ℕ → List ℕ → ℕ
last_time t [] = t
last_time t (u ∷ us) = last_time u us

spend-budget :
    (b : Bucket)
    → ((if (spend b).1 then 1 else 0) * b.period + (spend b).0.tokens ≡ b.tokens)
      × ((spend b).0.capacity ≡ b.capacity)
      × ((spend b).0.period ≡ b.period)
      × ((spend b).0.updated ≡ b.updated)
unfolding spend
spend-budget b = elim (Bool-cases (ltb b.tokens b.period)) [
  | inl e ↦ ground (arith, e)
  | inr e ↦ ground (arith, e)
]

span : (u t l c : ℕ) → u ≤ t → t ≤ l → (t - u) * c + (l - t) * c ≡ (l - u) * c
span u t l c h k = grind arith

last_time-le : (t : ℕ) (ts : List ℕ) → IsOrdered t ts → t ≤ last_time t ts
last_time-le t [] h = omega arith
last_time-le t (u ∷ us) h = omega (arith, last_time-le u us h.1, h.0)

pub take_token-budget :
    (t : ℕ) (b : Bucket)
    → let one = take_token t b in
      ((if one.1 then 1 else 0) * b.period + one.0.tokens ≤ b.tokens + (t - b.updated) * b.capacity)
      × (one.0.capacity ≡ b.capacity)
      × (one.0.period ≡ b.period)
      × (one.0.updated ≡ t)
      × IsWithin one.0
unfolding take_token refill
take_token-budget t b =
    let r = refill t b in
    let s = spend-budget r in
    (omega (arith, s.0), s.1, s.2, s.3, rw (s.1, s.2) (omega (arith, s.0)))

moved :
    (n left capacity period t : ℕ) (b : Bucket) (ts : List ℕ)
    → b.capacity ≡ capacity
    → b.period ≡ period
    → b.updated ≡ t
    → n * b.period + left ≤ b.tokens + (last_time b.updated ts - b.updated) * b.capacity
    → n * period + left ≤ b.tokens + (last_time t ts - t) * capacity
moved n left capacity period t b ts c p u h = rw (← c, ← p, ← u) h

-- Whatever the requests, with a clock that does not go back: the grants, a period's parts each, and
-- what is left in the bucket do not exceed what was there and the refill of the time that passed.
pub take_all-budget :
    (ts : List ℕ) (b : Bucket)
    → IsOrdered b.updated ts
    → let all = take_all ts b in
      all.1 * b.period + all.0.tokens ≤ b.tokens + (last_time b.updated ts - b.updated) * b.capacity
unfolding take_all
take_all-budget [] b h = omega arith
take_all-budget (t ∷ ts) b h =
    let one = take_token t b in
    let s = take_token-budget t b in
    let rest =
      moved (take_all ts one.0).1 (take_all ts one.0).0.tokens b.capacity b.period t one.0 ts s.1
        s.2 s.3 (take_all-budget ts one.0 (rw (s.3) h.1)) in
    omega
      (arith, s.0, rest, span b.updated t (last_time t ts) b.capacity h.0 (last_time-le t ts h.1))

-- Whether a request is granted, by what the refill leaves.
granted : (t : ℕ) (b : Bucket) → b.period ≤ (refill t b).tokens → (take_token t b).1 ≡ true
unfolding take_token refill spend
granted t b h = elim (Bool-cases (ltb (refill t b).tokens b.period)) [
  | inl e ↦ ground (arith, e, h)
  | inr e ↦ ground (arith, e, h)
]

-- A wait of more periods of `s` than the need of `n` parts has, at `c` parts each, refills it.
waits : (n c s w : ℕ) → 0 < c * s → (n / (c * s) + 1) * s ≤ w → n ≤ w * c
waits n c s w pos h =
    let whole : (n / (c * s) + 1) * (c * s) ≡ ((n / (c * s) + 1) * s) * c = grind arith in
    omega (arith, div-add-mod n (c * s), mod-lt n pos, whole, mul-le-mul_right c h)
