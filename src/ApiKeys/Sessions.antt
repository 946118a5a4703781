-- ===== src/ApiKeys/Sessions.antt =====
-- What signing other devices out and purging dead sessions do to the secrets.
use lightr.Prelude.{
  ℕ, Text, ◌==◌, if◌then◌else◌, Bool-cases, All, first, update, text_eq, ◌≤◌, ◌≡◌, refl, inl, inr,
  Bool, false, ◌&&◌, not, Option, none, some, List, [], ◌∷◌, Option-cases, delete, text_eq_iff,
  starts_with, true, ◌||◌, arith,
}
use lightr.Directory.{Uuid}
use mathlib.Core.Option
use lightr.ApiKeys.{
  ApiKey, IpAddress, verify, is_session, revoke_others, purge_expired, expired, usable, allows_ip,
  key_prefix, verify_row, is_dead,
}

first-update :
    (p q : ApiKey → Bool) (f : ApiKey → ApiKey) (t : List ApiKey)
    → ((k : ApiKey) → p (f k) ≡ p k)
    → first p (update q f t) ≡ Option.map (λ k. if q k then f k else k) (first p t)
unfolding first update
first-update p q f [] h = refl
first-update p q f (k ∷ t) h = elim (Bool-cases (q k)) [
  | inl e ↦ elim (Bool-cases (p k)) [
    | inl g ↦ rw e (rw (h k) (rw g (rw e refl)))
    | inr g ↦ rw e (rw (h k) (rw g (first-update p q f t h)))
  ]
  | inr e ↦ elim (Bool-cases (p k)) [
    | inl g ↦ rw e (rw g (rw e refl))
    | inr g ↦ rw e (rw g (first-update p q f t h))
  ]
]

-- The key, unless it is of the kind.
abbrev pub unless : (ApiKey → Bool) → Option ApiKey → Option ApiKey
unless q none = none
unless q (some k) = if q k then none else some k

-- A session of the account other than the current one.
abbrev pub is_other : Uuid → Uuid → ApiKey → Bool
is_other account_id current k = is_session account_id k && not (k.id == current)

-- A row that is signed out is no longer accepted.
verify_row-revoked :
    (p : IpAddress) (later now : ℕ) (ip : Option Text) (q : ApiKey → Bool) (o : Option ApiKey)
    → verify_row p later ip
        (Option.map (λ k. if q k then record k { active = false; updated_at = now } else k) o)
      ≡ unless q (verify_row p later ip o)
unfolding verify_row usable
verify_row-revoked p later now ip q none = refl
verify_row-revoked p later now ip q (some k) = elim (Bool-cases (q k)) [
  | inl e ↦ elim (Bool-cases (not (usable later k) || not (allows_ip p k.allowed_ips ip))) [
    | inl f ↦ ground (arith, e, f)
    | inr f ↦ ground (arith, e, f)
  ]
  | inr e ↦ elim (Bool-cases (not (usable later k) || not (allows_ip p k.allowed_ips ip))) [
    | inl f ↦ ground (arith, e, f)
    | inr f ↦ ground (arith, e, f)
  ]
]

expired_later :
    (now later : ℕ) (k : ApiKey) → now ≤ later → expired now k ≡ true → expired later k ≡ true
unfolding expired
expired_later now later k h e = elim (Option-cases k.expires_at) [
  | inl f ↦ absurd (ground (arith, e, f))
  | inr f ↦ ground (arith, e, f.1, h)
]

dead-usable :
    (now later : ℕ) (k : ApiKey) → now ≤ later → is_dead now k ≡ true → usable later k ≡ false
unfolding is_dead usable
dead-usable now later k h d = elim (Bool-cases (expired now k)) [
  | inl e ↦ ground (arith, expired_later now later k h e)
  | inr e ↦ ground (arith, d, e)
]

first-none :
    (h : Text) (q : ApiKey → Bool) (t : List ApiKey)
    → All (λ k. text_eq k.key_hash h ≡ false) t
    → first (λ k. text_eq k.key_hash h) (delete q t) ≡ none
unfolding first delete
first-none h q [] a = refl
first-none h q (k ∷ t) a = elim (Bool-cases (q k)) [
  | inl e ↦ rw e (first-none h q t a.1)
  | inr e ↦ rw e (rw (a.0) (first-none h q t a.1))
]

-- No two keys have one hash.
abbrev pub IsKeyed : List ApiKey → Type 0
IsKeyed [] = Unit
IsKeyed (k ∷ t) = All (λ x. text_eq x.key_hash k.key_hash ≡ false) t × IsKeyed t

verify_row-delete :
    (p : IpAddress) (now later : ℕ) (ip : Option Text) (h : Text) (t : List ApiKey)
    → IsKeyed t
    → now ≤ later
    → verify_row p later ip (first (λ k. text_eq k.key_hash h) (delete (is_dead now) t))
      ≡ verify_row p later ip (first (λ k. text_eq k.key_hash h) t)
unfolding first delete
verify_row-delete p now later ip h [] keyed after = refl
verify_row-delete p now later ip h (k ∷ t) keyed after =
    let rest = verify_row-delete p now later ip h t keyed.1 after in
    elim (Bool-cases (text_eq k.key_hash h)) [
      | inl e ↦ elim (Bool-cases (is_dead now k)) [
        | inl d ↦
            let gone =
              first-none h (is_dead now) t (rw (← (text_eq_iff k.key_hash h).0 e) keyed.0) in
            rw d (rw gone (rw e (unfold verify_row in rw (dead-usable now later k after d) refl)))
        | inr d ↦ rw d (rw e refl)
      ]
      | inr e ↦ elim (Bool-cases (is_dead now k)) [
        | inl d ↦ rw d (rw e rest)
        | inr d ↦ rw d (rw e rest)
      ]
    ]

module _ (hash : Text → Text) where
  -- After a change of the password the secrets of the account's other sessions are refused, and
  -- any other secret is accepted as before.
  pub verify-revoke_others :
      (p : IpAddress) (now later : ℕ) (account_id current : Uuid) (secret : Text) (ip : Option Text)
      (t : List ApiKey)
      → verify hash p later secret ip (revoke_others now account_id current t).0
        ≡ unless (is_other account_id current) (verify hash p later secret ip t)
  unfolding verify revoke_others
  verify-revoke_others p now later account_id current secret ip t =
      elim (Bool-cases (starts_with key_prefix secret)) [
        | inr e ↦ ground (arith, e)
        | inl e ↦ rw e (
            rw
              (first-update (λ k. text_eq k.key_hash (hash secret)) (is_other account_id current)
                (λ k. record k { active = false; updated_at = now }) t (λ k. refl))
              (verify_row-revoked p later now ip (is_other account_id current) _))
      ]

  -- Purging the dead sessions changes no answer, then or later.
  verify-purge_expired :
      (p : IpAddress) (now later : ℕ) (secret : Text) (ip : Option Text) (t : List ApiKey)
      → IsKeyed t
      → now ≤ later
      → verify hash p later secret ip (purge_expired now t).0 ≡ verify hash p later secret ip t
  unfolding verify purge_expired
  verify-purge_expired p now later secret ip t keyed after =
      elim (Bool-cases (starts_with key_prefix secret)) [
        | inr e ↦ rw e refl
        | inl e ↦ rw e (verify_row-delete p now later ip (hash secret) t keyed after)
      ]
