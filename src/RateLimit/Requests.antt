-- ===== src/RateLimit/Requests.antt =====
-- One request to a limiter, by the key: what the table has before and after it.
use lightr.Prelude.{
  ℕ, Text, ltb, if◌then◌else◌, Bool-cases, text_eq, text_eq_self, ◌-◌, ◌≤◌, ◌≡◌, refl, ap, inl, inr,
  Bool, true, false, Option, none, some, [], ◌∷◌, arith, leb, length, All, delete, text_eq_iff, ◌∙◌,
  ◌⊎◌,
}
use lightr.RateLimit.Buckets.{take_token-budget}
use lightr.RateLimit.{
  Bucket, Buckets, Limiter, new_bucket, spend, take_token, find_bucket, put_bucket, bucket, allow,
  sweep_at, sweep, found_or_new,
}
use lightr.RateLimit.Limits.{kept, refill-idle, IsKeyed, find_bucket-put_bucket, find_bucket-sweep}

-- The bucket a request meets.
abbrev pub fresh_or : ℕ → ℕ → ℕ → Option Bucket → Bucket
fresh_or now c p none = new_bucket c p now
fresh_or now c p (some b) = b

-- A bucket of the limiter's capacity and period.
abbrev pub IsOf : ℕ → ℕ → Option Bucket → Type 0
IsOf c p none = Unit
IsOf c p (some b) = (b.capacity ≡ c) × (b.period ≡ p)

take_token-idle_all :
    (now : ℕ) (b : Bucket)
    → ltb b.period (now - b.updated) ≡ true
    → take_token now b ≡ take_token now (new_bucket b.capacity b.period now)
unfolding take_token
take_token-idle_all now b h = ap spend (refill-idle now b h)

-- What is idle grants as if it were not there.
pub take_token-kept :
    (now c p : ℕ) (o : Option Bucket)
    → IsOf c p o
    → take_token now (fresh_or now c p (kept now p o)) ≡ take_token now (fresh_or now c p o)
take_token-kept now c p none h = refl
take_token-kept now c p (some b) h = elim (Bool-cases (ltb p (now - b.updated))) [
  | inr e ↦ rw e refl
  | inl e ↦ let idle = take_token-idle_all now b (rw (h.1) e) in rw e (rw idle (rw (h.0, h.1) refl))
]

pub kept-kept :
    (now later p : ℕ) (o : Option Bucket)
    → now ≤ later
    → kept later p (kept now p o) ≡ kept later p o
kept-kept now later p none h = refl
kept-kept now later p (some b) h = elim (Bool-cases (ltb p (now - b.updated))) [
  | inr e ↦ rw e refl
  | inl e ↦
      let still : ltb p (later - b.updated) ≡ true = ground (arith, e, h) in rw e (rw still refl)
]

find_bucket-put_self :
    (key : Text) (b : Bucket) (bs : Buckets) → find_bucket key (put_bucket key b bs) ≡ some b
unfolding find_bucket put_bucket
find_bucket-put_self key b [] = rw (text_eq_self key) refl
find_bucket-put_self key b ((k, c) ∷ bs) = elim (Bool-cases (text_eq k key)) [
  | inl e ↦ rw e (rw e refl)
  | inr e ↦ rw e (rw e (find_bucket-put_self key b bs))
]

All-put_bucket :
    (j key : Text) (b : Bucket) (bs : Buckets)
    → text_eq key j ≡ false
    → All (λ q. text_eq q.0 j ≡ false) bs
    → All (λ q. text_eq q.0 j ≡ false) (put_bucket key b bs)
unfolding put_bucket
All-put_bucket j key b [] ne h = (ne, tt)
All-put_bucket j key b ((k, c) ∷ bs) ne h = elim (Bool-cases (text_eq k key)) [
  | inl e ↦ rw e h
  | inr e ↦ rw e (h.0, All-put_bucket j key b bs ne h.1)
]

IsKeyed-put_bucket :
    (key : Text) (b : Bucket) (bs : Buckets) → IsKeyed bs → IsKeyed (put_bucket key b bs)
unfolding put_bucket
IsKeyed-put_bucket key b [] h = (tt, tt)
IsKeyed-put_bucket key b ((k, c) ∷ bs) h = elim (Bool-cases (text_eq k key)) [
  | inl e ↦ rw e h
  | inr e ↦
      let ne : text_eq key k ≡ false = text_ne_sym k key e in
      rw e (All-put_bucket k key b bs ne h.0, IsKeyed-put_bucket key b bs h.1)
]
  where
    text_ne_sym : (u v : Text) → text_eq u v ≡ false → text_eq v u ≡ false
    text_ne_sym u v e = elim (Bool-cases (text_eq v u)) [
      | inr f ↦ f
      | inl f ↦
          let same = (text_eq_iff v u).0 f in
          let both : text_eq u v ≡ true = rw same (text_eq_self u) in absurd (cc)
    ]

All-sweep :
    (P : Text × Bucket → Type 0) (now p : ℕ) (bs : Buckets) → All P bs → All P (sweep now p bs)
unfolding sweep delete
All-sweep P now p [] h = tt
All-sweep P now p (q ∷ bs) h = elim (Bool-cases (ltb p (now - q.1.updated))) [
  | inl e ↦ rw e (All-sweep P now p bs h.1)
  | inr e ↦ rw e (h.0, All-sweep P now p bs h.1)
]

IsKeyed-sweep : (now p : ℕ) (bs : Buckets) → IsKeyed bs → IsKeyed (sweep now p bs)
unfolding sweep delete
IsKeyed-sweep now p [] h = tt
IsKeyed-sweep now p (q ∷ bs) h = elim (Bool-cases (ltb p (now - q.1.updated))) [
  | inl e ↦ rw e (IsKeyed-sweep now p bs h.1)
  | inr e ↦ rw e (All-sweep (λ x. text_eq x.0 q.0 ≡ false) now p bs h.0, IsKeyed-sweep now p bs h.1)
]

-- One request, by what the table has for its key.
module _ (now : ℕ) (key : Text) (l : Limiter) (keyed : IsKeyed l.buckets) where
  base-kept :
      (later : ℕ) (k : Text) (b : Bool)
      → now ≤ later
      → kept later l.period (find_bucket k (if b then sweep now l.period l.buckets else l.buckets))
        ≡ kept later l.period (find_bucket k l.buckets)
  base-kept later k false h = refl
  base-kept later k true h =
      rw (find_bucket-sweep now l.period k l.buckets keyed)
        (kept-kept now later l.period (find_bucket k l.buckets) h)

  base-IsKeyed : (b : Bool) → IsKeyed (if b then sweep now l.period l.buckets else l.buckets)
  base-IsKeyed false = keyed
  base-IsKeyed true = IsKeyed-sweep now l.period l.buckets keyed

  found_or_new-other :
      (later : ℕ) (k : Text) (o : Option Bucket)
      → now ≤ later
      → text_eq key k ≡ false
      → kept later l.period (find_bucket k (found_or_new now key l o).0.buckets)
        ≡ kept later l.period (find_bucket k l.buckets)
  unfolding found_or_new
  found_or_new-other later k (some b) h ne = refl
  found_or_new-other later k none h ne =
      rw (find_bucket-put_bucket key _ k _ ne)
        (base-kept later k (leb sweep_at (length l.buckets)) h)

  found_or_new-IsKeyed : (o : Option Bucket) → IsKeyed (found_or_new now key l o).0.buckets
  unfolding found_or_new
  found_or_new-IsKeyed (some b) = keyed
  found_or_new-IsKeyed none =
      IsKeyed-put_bucket key _ _ (base-IsKeyed (leb sweep_at (length l.buckets)))

  pub found_or_new_lem :
      (o : Option Bucket)
      → ((found_or_new now key l o).1 ≡ fresh_or now l.capacity l.period o)
        × ((found_or_new now key l o).0.capacity ≡ l.capacity)
        × ((found_or_new now key l o).0.period ≡ l.period)
  unfolding found_or_new
  found_or_new_lem (some b) = (refl, refl, refl)
  found_or_new_lem none = (refl, refl, refl)

  pub allow-other :
      (later : ℕ) (k : Text)
      → now ≤ later
      → text_eq key k ≡ false
      → kept later l.period (find_bucket k (allow now key l).0.buckets)
        ≡ kept later l.period (find_bucket k l.buckets)
  unfolding allow bucket
  allow-other later k h ne =
      rw (find_bucket-put_bucket key _ k _ ne)
        (found_or_new-other later k (find_bucket key l.buckets) h ne)

  pub allow_self :
      find_bucket key (allow now key l).0.buckets
      ≡ some (take_token now (fresh_or now l.capacity l.period (find_bucket key l.buckets))).0
  unfolding allow bucket
  allow_self =
      rw (find_bucket-put_self key _ _) (rw ((found_or_new_lem (find_bucket key l.buckets)).0) refl)

  pub allow-granted :
      (allow now key l).1
      ≡ (take_token now (fresh_or now l.capacity l.period (find_bucket key l.buckets))).1
  unfolding allow bucket
  allow-granted = rw ((found_or_new_lem (find_bucket key l.buckets)).0) refl

  pub allow-IsKeyed : IsKeyed (allow now key l).0.buckets
  unfolding allow bucket
  allow-IsKeyed = IsKeyed-put_bucket key _ _ (found_or_new-IsKeyed (find_bucket key l.buckets))

  -- The bucket of another key stays, or is swept.
  pub allow-find_bucket :
      (k : Text)
      → text_eq key k ≡ false
      → (find_bucket k (allow now key l).0.buckets ≡ find_bucket k l.buckets)
        ⊎ (find_bucket k (allow now key l).0.buckets ≡ kept now l.period (find_bucket k l.buckets))
  unfolding allow bucket
  allow-find_bucket k ne =
      rw (find_bucket-put_bucket key _ k _ ne) (by_found (find_bucket key l.buckets))
    where
      swept :
          (b : Bool)
          → (find_bucket k (if b then sweep now l.period l.buckets else l.buckets)
              ≡ find_bucket k l.buckets)
            ⊎ (find_bucket k (if b then sweep now l.period l.buckets else l.buckets)
                ≡ kept now l.period (find_bucket k l.buckets))
      swept false = inl refl
      swept true = inr (find_bucket-sweep now l.period k l.buckets keyed)

      by_found :
          (o : Option Bucket)
          → (find_bucket k (found_or_new now key l o).0.buckets ≡ find_bucket k l.buckets)
            ⊎ (find_bucket k (found_or_new now key l o).0.buckets
                ≡ kept now l.period (find_bucket k l.buckets))
      by_found (some b) = unfold found_or_new in inl refl
      by_found none =
          unfold found_or_new in
          rw (find_bucket-put_bucket key _ k _ ne) (swept (leb sweep_at (length l.buckets)))

pub IsOf-kept : (now c p : ℕ) (o : Option Bucket) → IsOf c p o → IsOf c p (kept now p o)
IsOf-kept now c p none h = tt
IsOf-kept now c p (some b) h = elim (Bool-cases (ltb p (now - b.updated))) [
  | inl e ↦ rw e tt
  | inr e ↦ rw e h
]

pub IsOf-fresh_or :
    (now c p : ℕ) (o : Option Bucket) → IsOf c p o → IsOf c p (some (fresh_or now c p o))
unfolding new_bucket
IsOf-fresh_or now c p none h = (refl, refl)
IsOf-fresh_or now c p (some b) h = h

pub IsOf-take_token :
    (now c p : ℕ) (b : Bucket) → IsOf c p (some b) → IsOf c p (some (take_token now b).0)
IsOf-take_token now c p b h = let s = take_token-budget now b in (s.1 ∙ h.0, s.2 ∙ h.1)
