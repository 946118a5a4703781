-- ===== src/RateLimit/Limits.antt =====
-- What a sweep loses and which keys a request touches.
use lightr.Prelude.{
  ℕ, ltb, Bool-cases, All, Text, text_eq, text_eq_iff, zero, suc, ◌+◌, ◌-◌, ◌*◌, ◌≤◌, min, ◌≡◌,
  refl, inl, inr, true, false, Option, [], ◌∷◌, arith, if◌then◌else◌, ltb→lt, delete, Bool, none,
  some, ap,
}
use native.Mathlib.Nat.{mul-le-mul_right}
use lightr.RateLimit.{
  Bucket, new_bucket, refill, Buckets, find_bucket, put_bucket, KeyLimiter, minute_period,
  check_table, check, Limiter, sweep, allow, day_period, check_day, take_token, bucket,
  found_or_new, spend,
}

-- A bucket that was idle for its whole period grants like a new one.
pub refill-idle :
    (now : ℕ) (b : Bucket)
    → ltb b.period (now - b.updated) ≡ true
    → refill now b ≡ refill now (new_bucket b.capacity b.period now)
unfolding refill new_bucket
refill-idle now b h =
    let long = ltb→lt b.period (now - b.updated) h in
    let most : b.period * b.capacity ≤ (now - b.updated) * b.capacity =
      mul-le-mul_right b.capacity (omega arith) in
    let full : min (b.capacity * b.period) (b.tokens + (now - b.updated) * b.capacity)
        ≡ b.capacity * b.period =
      omega (arith, most) in
    let same : min (b.capacity * b.period) (b.capacity * b.period + (now - now) * b.capacity)
        ≡ b.capacity * b.period =
      omega arith in
    rw (full, same) refl

pub take_token-idle :
    (now : ℕ) (b : Bucket)
    → ltb b.period (now - b.updated) ≡ true
    → (take_token now b).1 ≡ (take_token now (new_bucket b.capacity b.period now)).1
unfolding take_token
take_token-idle now b h = ap (λ r. (spend r).1) (refill-idle now b h)

-- No key stands twice.
abbrev pub IsKeyed : Buckets → Type 0
IsKeyed [] = Unit
IsKeyed (p ∷ bs) = All (λ q. text_eq q.0 p.0 ≡ false) bs × IsKeyed bs

-- The buckets are of one capacity and period.
abbrev pub IsUniform : ℕ → ℕ → Buckets → Type 0
IsUniform c p bs = All (λ q. (q.1.capacity ≡ c) × (q.1.period ≡ p)) bs

pub find_bucket-put_bucket :
    (k : Text) (b : Bucket) (other : Text) (bs : Buckets)
    → text_eq k other ≡ false
    → find_bucket other (put_bucket k b bs) ≡ find_bucket other bs
unfolding find_bucket put_bucket
find_bucket-put_bucket k b other [] h = rw h refl
find_bucket-put_bucket k b other ((j, c) ∷ bs) h = elim (Bool-cases (text_eq j k)) [
  | inl e ↦
      let same : text_eq j other ≡ false = rw ((text_eq_iff j k).0 e) h in ground (arith, e, same)
  | inr e ↦ elim (Bool-cases (text_eq j other)) [
    | inl f ↦ rw e (rw f refl)
    | inr f ↦ rw e (rw f (find_bucket-put_bucket k b other bs h))
  ]
]

check_table-other :
    (now : ℕ) (key other : Text) (limit period : ℕ) (t : Buckets)
    → text_eq key other ≡ false
    → find_bucket other (check_table now key limit period t).0 ≡ find_bucket other t
unfolding check_table
check_table-other now key other zero period t h = refl
check_table-other now key other (suc n) period t h = find_bucket-put_bucket key _ other t h

check_day-other :
    (now : ℕ) (key other : Text) (daily_limit : ℕ) (l : KeyLimiter) (m : Buckets × Option ℕ)
    → text_eq key other ≡ false
    → find_bucket other m.0 ≡ find_bucket other l.minute
    → let after = (check_day now key daily_limit l m).0 in
      (find_bucket other after.minute ≡ find_bucket other l.minute)
      × (find_bucket other after.day ≡ find_bucket other l.day)
unfolding check_day
check_day-other now key other daily_limit l (minute, some wait) h e = (e, refl)
check_day-other now key other daily_limit l (minute, none) h e =
    (e, check_table-other now key other daily_limit day_period l.day h)

-- A request under one API key leaves the buckets of any other key.
check-other :
    (now : ℕ) (key other : Text) (rate_limit daily_limit : ℕ) (l : KeyLimiter)
    → text_eq key other ≡ false
    → let after = (check now key rate_limit daily_limit l).0 in
      (find_bucket other after.minute ≡ find_bucket other l.minute)
      × (find_bucket other after.day ≡ find_bucket other l.day)
unfolding check
check-other now key other rate_limit daily_limit l h =
    check_day-other now key other daily_limit l
      (check_table now key rate_limit minute_period l.minute) h
      (check_table-other now key other rate_limit minute_period l.minute h)

find_bucket-none :
    (k : Text) (p : Text × Bucket → Bool) (bs : Buckets)
    → All (λ q. text_eq q.0 k ≡ false) bs
    → find_bucket k (delete p bs) ≡ none
unfolding find_bucket delete
find_bucket-none k p [] h = refl
find_bucket-none k p (q ∷ bs) h = elim (Bool-cases (p q)) [
  | inl e ↦ rw e (find_bucket-none k p bs h.1)
  | inr e ↦ rw e (rw (h.0) (find_bucket-none k p bs h.1))
]

-- A bucket after a sweep: absent if it was idle for its period.
abbrev pub kept : ℕ → ℕ → Option Bucket → Option Bucket
kept now period none = none
kept now period (some b) = if ltb period (now - b.updated) then none else some b

-- What the sweep does to the bucket of a key.
pub find_bucket-sweep :
    (now period : ℕ) (k : Text) (bs : Buckets)
    → IsKeyed bs
    → find_bucket k (sweep now period bs) ≡ kept now period (find_bucket k bs)
unfolding find_bucket sweep delete
find_bucket-sweep now period k [] h = refl
find_bucket-sweep now period k ((j, b) ∷ bs) h =
    let rest = find_bucket-sweep now period k bs h.1 in
    elim (Bool-cases (text_eq j k)) [
      | inl e ↦
          let gone : find_bucket k (sweep now period bs) ≡ none =
            find_bucket-none k _ bs (rw (← (text_eq_iff j k).0 e) h.0) in
          elim (Bool-cases (ltb period (now - b.updated))) [
            | inl f ↦ rw e (rw f gone)
            | inr f ↦ rw e (rw f (rw e refl))
          ]
      | inr e ↦ elim (Bool-cases (ltb period (now - b.updated))) [
        | inl f ↦ rw e (rw f rest)
        | inr f ↦ rw e (rw f (rw e rest))
      ]
    ]

-- The grant by what the table has for the key.
abbrev grant : ℕ → ℕ → ℕ → Option Bucket → Bool
grant now c p none = (take_token now (new_bucket c p now)).1
grant now c p (some b) = (take_token now b).1

allow-eq-grant :
    (now : ℕ) (key : Text) (l : Limiter)
    → (allow now key l).1 ≡ grant now l.capacity l.period (find_bucket key l.buckets)
unfolding allow bucket
allow-eq-grant now key l = by_found (find_bucket key l.buckets)
  where
    by_found :
        (o : Option Bucket)
        → (take_token now (found_or_new now key l o).1).1 ≡ grant now l.capacity l.period o
    by_found none = unfold found_or_new in refl
    by_found (some b) = unfold found_or_new in refl

find_bucket-IsUniform :
    (c p : ℕ) (k : Text) (bs : Buckets) (b : Bucket)
    → IsUniform c p bs
    → find_bucket k bs ≡ some b
    → (b.capacity ≡ c) × (b.period ≡ p)
unfolding find_bucket
find_bucket-IsUniform c p k [] b u e = absurd (ground (arith, e))
find_bucket-IsUniform c p k ((j, x) ∷ bs) b u e = elim (Bool-cases (text_eq j k)) [
  | inl f ↦ let same : x ≡ b = ground (arith, e, f) in rw (← same) u.0
  | inr f ↦ find_bucket-IsUniform c p k bs b u.1 (ground (arith, e, f))
]

grant-kept :
    (now c p : ℕ) (o : Option Bucket)
    → ((b : Bucket) → o ≡ some b → (b.capacity ≡ c) × (b.period ≡ p))
    → grant now c p (kept now p o) ≡ grant now c p o
grant-kept now c p none u = refl
grant-kept now c p (some b) u = elim (Bool-cases (ltb p (now - b.updated))) [
  | inr e ↦ rw e refl
  | inl e ↦
      let same = u b refl in
      let fresh : (take_token now b).1 ≡ (take_token now (new_bucket b.capacity b.period now)).1 =
        take_token-idle now b (rw (same.1) e) in
      rw e (rw fresh (rw (same.0, same.1) refl))
]

-- A request is granted or refused just as if the table had been swept before it.
sweep-allow :
    (now : ℕ) (key : Text) (l : Limiter)
    → IsKeyed l.buckets
    → IsUniform l.capacity l.period l.buckets
    → (allow now key (record l { buckets = sweep now l.period l.buckets })).1 ≡ (allow now key l).1
sweep-allow now key l h u = rw (allow-eq-grant now key l) (
    rw (allow-eq-grant now key (record l { buckets = sweep now l.period l.buckets })) (
      rw (find_bucket-sweep now l.period key l.buckets h) (
        grant-kept now l.capacity l.period (find_bucket key l.buckets)
          (λ b. find_bucket-IsUniform l.capacity l.period key l.buckets b u))))
