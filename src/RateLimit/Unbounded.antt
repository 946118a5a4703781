-- ===== src/RateLimit/Unbounded.antt =====
-- A limiter against one that never forgets a bucket.
use lightr.Prelude.{
  ℕ, Text, if◌then◌else◌, Bool-cases, text_eq, ◌≤◌, ◌≡◌, refl, ap, inl, inr, Bool, Option, none,
  some, List, [], ◌∷◌, arith, text_eq_iff, sym, ◌∙◌, zero, suc,
}
use lightr.RateLimit.Requests.{
  IsOf-kept, allow-find_bucket, IsOf-fresh_or, allow-other, allow_self, IsOf-take_token,
  allow-IsKeyed, take_token-kept, kept-kept, IsOf, fresh_or, allow-granted,
}
use lightr.RateLimit.{Bucket, Buckets, Limiter, take_token, find_bucket, allow, limiter}
use lightr.RateLimit.Limits.{kept, IsKeyed}

-- The requests at their times: what the limiter answers to each.
unfoldable pub allow_all : List (ℕ × Text) → Limiter → List Bool
allow_all [] l = []
allow_all ((now, key) ∷ rs) l = (allow now key l).1 ∷ allow_all rs (allow now key l).0

-- The specification: a bucket for every key, full until the key is first used, and none is ever
-- dropped.
abbrev pub Memory : Type 0
Memory = Text → Option Bucket

unfoldable pub remember : Text → Bucket → Memory → Memory
unfolding text_eq
remember key b m k = if text_eq key k then some b else m k

unfoldable pub spec_all : ℕ → ℕ → List (ℕ × Text) → Memory → List Bool
unfolding take_token remember
spec_all c p [] m = []
spec_all c p ((now, key) ∷ rs) m =
    let taken = take_token now (fresh_or now c p (m key)) in
    taken.1 ∷ spec_all c p rs (remember key taken.0 m)

-- The times do not go back.
abbrev pub IsTimed : ℕ → List (ℕ × Text) → Type 0
IsTimed t [] = Unit
IsTimed t (r ∷ rs) = (t ≤ r.0) × IsTimed r.0 rs

abbrev limiter_of : ℕ → ℕ → Buckets → Limiter
limiter_of c p bs = record { capacity = c; period = p; buckets = bs }

-- The table and the memory agree on every bucket that is not idle for its whole period.
record Simulates (now c p : ℕ) (bs : Buckets) (m : Memory) : Type 0 where
  keyed : IsKeyed bs
  agree : (k : Text) → kept now p (find_bucket k bs) ≡ kept now p (m k)
  in_table : (k : Text) → IsOf c p (find_bucket k bs)
  in_memory : (k : Text) → IsOf c p (m k)

module _ (now later c p : ℕ) (key : Text) (bs : Buckets) (m : Memory) (sim : Simulates now c p bs m)
    (h : now ≤ later) where
  agree_later : (k : Text) → kept later p (find_bucket k bs) ≡ kept later p (m k)
  agree_later k =
      sym (kept-kept now later p (find_bucket k bs) h)
      ∙ ap (kept later p) (sim.agree k)
      ∙ kept-kept now later p (m k) h

  taken_same :
      take_token later (fresh_or later c p (find_bucket key bs))
      ≡ take_token later (fresh_or later c p (m key))
  taken_same =
      sym (take_token-kept later c p (find_bucket key bs) (sim.in_table key))
      ∙ ap (λ o. take_token later (fresh_or later c p o)) (agree_later key)
      ∙ take_token-kept later c p (m key) (sim.in_memory key)

  agree_step :
      (k : Text)
      → kept later p (find_bucket k (allow later key (limiter_of c p bs)).0.buckets)
        ≡ kept later p (remember key (take_token later (fresh_or later c p (m key))).0 m k)
  unfolding remember
  agree_step k = elim (Bool-cases (text_eq key k)) [
    | inl e ↦
        let same = (text_eq_iff key k).0 e in
        let self = allow_self later key (limiter_of c p bs) sim.keyed in
        rw e (rw (sym same) (rw self (rw taken_same refl)))
    | inr e ↦ rw e (
        allow-other later key (limiter_of c p bs) sim.keyed later k (omega (arith)) e
        ∙ agree_later k)
  ]

  in_table_step :
      (k : Text) → IsOf c p (find_bucket k (allow later key (limiter_of c p bs)).0.buckets)
  in_table_step k = elim (Bool-cases (text_eq key k)) [
    | inl e ↦
        let same = (text_eq_iff key k).0 e in
        let self = allow_self later key (limiter_of c p bs) sim.keyed in
        rw (sym same) (
          rw self (
            IsOf-take_token later c p (fresh_or later c p (find_bucket key bs))
              (IsOf-fresh_or later c p (find_bucket key bs) (sim.in_table key))))
    | inr e ↦ elim (allow-find_bucket later key (limiter_of c p bs) sim.keyed k e) [
      | inl f ↦ rw f (sim.in_table k)
      | inr f ↦ rw f (IsOf-kept later c p (find_bucket k bs) (sim.in_table k))
    ]
  ]

  in_memory_step :
      (k : Text) → IsOf c p (remember key (take_token later (fresh_or later c p (m key))).0 m k)
  unfolding remember
  in_memory_step k = elim (Bool-cases (text_eq key k)) [
    | inl e ↦ rw e (
        IsOf-take_token later c p (fresh_or later c p (m key))
          (IsOf-fresh_or later c p (m key) (sim.in_memory key)))
    | inr e ↦ rw e (sim.in_memory k)
  ]

  step-Simulates :
      Simulates later c p
        (allow later key (limiter_of c p bs)).0.buckets
        (remember key (take_token later (fresh_or later c p (m key))).0 m)
  step-Simulates = record {
    keyed = allow-IsKeyed later key (limiter_of c p bs) sim.keyed;
    agree = agree_step;
    in_table = in_table_step;
    in_memory = in_memory_step;
  }

allow_all-from :
    (rs : List (ℕ × Text)) (now c p : ℕ) (bs : Buckets) (m : Memory)
    → Simulates now c p bs m
    → IsTimed now rs
    → allow_all rs (limiter_of c p bs) ≡ spec_all c p rs m
unfolding allow_all spec_all allow
allow_all-from [] now c p bs m sim h = refl
allow_all-from ((later, key) ∷ rs) now c p bs m sim h =
    let head =
      allow-granted later key (limiter_of c p bs) sim.keyed
      ∙ ap (λ t. t.1) (taken_same now later c p key bs m sim h.0) in
    let tail =
      allow_all-from rs later c p (allow later key (limiter_of c p bs)).0.buckets
        (remember key (take_token later (fresh_or later c p (m key))).0 m)
        (step-Simulates now later c p key bs m sim h.0) h.1 in
    let met = take_token later (fresh_or later c p (m key)) in rw head (ap (λ r. met.1 ∷ r) tail)

-- A limiter with a capacity answers any requests, at times that do not go back, as the
-- specification does, in which every key has a bucket that is never dropped.
pub allow_all-spec_all :
    (c p : ℕ) (l : Limiter) (rs : List (ℕ × Text))
    → limiter c p ≡ some l
    → IsTimed 0 rs
    → allow_all rs l ≡ spec_all c p rs (λ k. none)
unfolding limiter find_bucket
allow_all-spec_all zero p l rs e h = absurd (cc)
allow_all-spec_all (suc c) p l rs e h =
    let same : record { capacity = suc c; period = p; buckets = [] } ≡ l = cc in
    rw (sym same) (allow_all-from rs 0 (suc c) p [] (λ k. none) start h)
  where
    start : Simulates 0 (suc c) p [] (λ k. none)
    start = record { keyed = tt; agree = λ k. refl; in_table = λ k. tt; in_memory = λ k. tt }
