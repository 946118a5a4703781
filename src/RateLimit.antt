-- ===== src/RateLimit.antt =====
-- Token buckets and the limiters over them, src/lightr/ratelimit.py. The source computes with
-- floats; the model is exact. Times and periods are microseconds, and `tokens` counts a token as
-- `period` parts, so that a microsecond refills `capacity` parts. Limits of zero stand for those
-- of zero or less. The monotonic clock is an argument.
pub mod Buckets
pub mod Limits
pub mod Requests
pub mod Unbounded
mod Examples
use lightr.Prelude.{
  ℕ, ltb, leb, ◌==◌, if◌then◌else◌, length, delete, Text, text_eq, zero, suc, ◌+◌, ◌-◌, ◌*◌, ◌/◌,
  min, max, Bool, true, false, Option, none, some, List, [], ◌∷◌,
}

abbrev pub second : ℕ
second = 1_000_000

pub record Bucket : Type 0 where
  pub capacity : ℕ
  pub period : ℕ
  pub tokens : ℕ
  pub updated : ℕ

-- `Bucket(capacity, period)`: full.
unfoldable pub new_bucket : ℕ → ℕ → ℕ → Bucket
new_bucket capacity period now = record {
  capacity = capacity;
  period = period;
  tokens = capacity * period;
  updated = now;
}

-- The refill at the start of `take`.
unfoldable pub refill : ℕ → Bucket → Bucket
refill now b = record b {
  tokens = min (b.capacity * b.period) (b.tokens + (now - b.updated) * b.capacity);
  updated = now;
}

-- The rest of `take`: one token is `period` parts.
unfoldable pub spend : Bucket → Bucket × Bool
spend b =
    if ltb b.tokens b.period then (b, false) else (record b { tokens = b.tokens - b.period }, true)

unfoldable pub take_token : ℕ → Bucket → Bucket × Bool
unfolding refill spend
take_token now b = spend (refill now b)

-- `retry_after`, in seconds
unfoldable pub retry_after : Bucket → ℕ
retry_after b = max 1 ((b.period - b.tokens) / (b.capacity * second) + 1)

abbrev pub Buckets : Type 0
Buckets = List (Text × Bucket)

unfoldable pub find_bucket : Text → Buckets → Option Bucket
unfolding text_eq
find_bucket key [] = none
find_bucket key ((k, b) ∷ bs) = if text_eq k key then some b else find_bucket key bs

-- `table[key] = bucket`: a key that is there keeps its place.
unfoldable pub put_bucket : Text → Bucket → Buckets → Buckets
unfolding text_eq
put_bucket key b [] = (key, b) ∷ []
put_bucket key b ((k, c) ∷ bs) =
    let rest = put_bucket key b bs in if text_eq k key then (k, b) ∷ bs else (k, c) ∷ rest

-- `table.pop(key, None)`
unfoldable pub forget : Text → Buckets → Buckets
unfolding text_eq delete
forget key = delete (λ (p : Text × Bucket). text_eq p.0 key)

pub record Limiter : Type 0 where
  pub capacity : ℕ
  pub period : ℕ
  pub buckets : Buckets

-- `limiter`: no limiter for a capacity of zero
unfoldable pub limiter : ℕ → ℕ → Option Limiter
limiter zero period = none
limiter (suc c) period = some (record { capacity = suc c; period = period; buckets = [] })

abbrev pub sweep_at : ℕ
sweep_at = 4096

-- `_sweep`
unfoldable pub sweep : ℕ → ℕ → Buckets → Buckets
unfolding delete
sweep now period = delete (λ (p : Text × Bucket). ltb period (now - p.1.updated))

-- The bucket of the key, a new one if the table has none, after a sweep of a big table.
unfoldable pub found_or_new : ℕ → Text → Limiter → Option Bucket → Limiter × Bucket
unfolding sweep put_bucket new_bucket
found_or_new now key l (some b) = (l, b)
found_or_new now key l none =
    let kept =
      if leb sweep_at (length l.buckets) then sweep now l.period l.buckets else l.buckets in
    let fresh = new_bucket l.capacity l.period now in
    (record l { buckets = put_bucket key fresh kept }, fresh)

-- `bucket`
unfoldable pub bucket : ℕ → Text → Limiter → Limiter × Bucket
unfolding find_bucket found_or_new
bucket now key l = found_or_new now key l (find_bucket key l.buckets)

-- `allow`: the bucket is an object of the table, so what `take` changes stays there.
unfoldable pub allow : ℕ → Text → Limiter → Limiter × Bool
unfolding bucket take_token put_bucket
allow now key l =
    let got = bucket now key l in
    let taken = take_token now got.1 in
    (record l { buckets = put_bucket key taken.0 got.0.buckets }, taken.1)

pub record KeyLimiter : Type 0 where
  pub minute : Buckets
  pub day : Buckets

abbrev pub minute_period : ℕ
minute_period = 60 * second

abbrev pub day_period : ℕ
day_period = 86_400 * second

-- The bucket of a key, a new one if there is none or the limit was changed.
unfoldable pub current_bucket : ℕ → ℕ → ℕ → Option Bucket → Bucket
unfolding new_bucket
current_bucket now limit period none = new_bucket limit period now
current_bucket now limit period (some b) =
    if b.capacity == limit then b else new_bucket limit period now

-- One round of the loop of `check`: the table, and the seconds to wait if the request is refused.
unfoldable pub check_table : ℕ → Text → ℕ → ℕ → Buckets → Buckets × Option ℕ
unfolding current_bucket find_bucket put_bucket take_token retry_after
check_table now key zero period t = (t, none)
check_table now key (suc n) period t =
    let (b, granted) = take_token now (current_bucket now (suc n) period (find_bucket key t)) in
    (put_bucket key b t, if granted then none else some (retry_after b))

-- The round for the day, behind the one for the minute: a refusal leaves the day alone.
unfoldable pub check_day : ℕ → Text → ℕ → KeyLimiter → Buckets × Option ℕ → KeyLimiter × Option ℕ
unfolding check_table
check_day now key daily_limit l (minute, some wait) = (record l { minute = minute }, some wait)
check_day now key daily_limit l (minute, none) =
    let day = check_table now key daily_limit day_period l.day in
    (record { minute = minute; day = day.0 }, day.1)

-- `KeyLimiter.check`
unfoldable pub check : ℕ → Text → ℕ → ℕ → KeyLimiter → KeyLimiter × Option ℕ
unfolding check_table check_day
check now key rate_limit daily_limit l =
    check_day now key daily_limit l (check_table now key rate_limit minute_period l.minute)

-- `KeyLimiter.forget`
unfoldable pub forget_key : Text → KeyLimiter → KeyLimiter
unfolding forget
forget_key key l = record { minute = forget key l.minute; day = forget key l.day }
