-- ===== src/ApiKeys/Verifying.antt =====
-- What a presented secret is good for.
use lightr.Prelude.{
  ℕ, Text, if◌then◌else◌, ==_self, Bool-cases, All, first, text_eq, text_eq_iff, text_eq_self,
  starts_with, ◌≡◌, refl, inl, inr, Bool, true, false, ◌||◌, not, Option, none, some, List, [], ◌∷◌,
  ◌++◌, arith, Any, first-Any,
}
use lightr.Directory.{Uuid, at}
use lightr.ApiKeys.{
  ApiKey, expired, usable, IpAddress, allows_ip, KeyRequest, KeyError, created, scope_error, Expiry,
  until, wrong, expiry, key_prefix, new_key, create_until, create, verify_row, verify,
}

-- The key is live at the time and takes requests from the address.
abbrev pub IsGood : IpAddress → ℕ → Option Text → ApiKey → Type 0
IsGood p now ip k =
    (k.active ≡ true) × (expired now k ≡ false) × (allows_ip p k.allowed_ips ip ≡ true)

module _ (hash : Text → Text) where
  -- A secret that is accepted has the form of one, and the key that it is accepted for is a row of
  -- the table, as it is stored, with the hash of the secret, live, and takes requests from the
  -- address.
  pub verify-IsGood :
      (p : IpAddress) (now : ℕ) (secret : Text) (ip : Option Text) (t : List ApiKey) (k : ApiKey)
      → verify hash p now secret ip t ≡ some k
      → (starts_with key_prefix secret ≡ true)
        × Any (λ x. x ≡ k) t
        × (k.key_hash ≡ hash secret)
        × IsGood p now ip k
  unfolding verify
  verify-IsGood p now secret ip t k h = elim (Bool-cases (starts_with key_prefix secret)) [
    | inr e ↦ absurd (ground (arith, e, h))
    | inl e ↦ by_row (first (λ x. text_eq x.key_hash (hash secret)) t) refl e (rw e at h)
  ]
    where
      by_row :
          (o : Option ApiKey)
          → first (λ x. text_eq x.key_hash (hash secret)) t ≡ o
          → starts_with key_prefix secret ≡ true
          → verify_row p now ip o ≡ some k
          → (starts_with key_prefix secret ≡ true)
            × Any (λ x. x ≡ k) t
            × (k.key_hash ≡ hash secret)
            × IsGood p now ip k
      by_row none f s g = absurd (unfold verify_row in cc (g))
      by_row (some r) f s g =
          let same : r ≡ k = unfold verify_row in ground (arith, g) in
          let good : IsGood p now ip r = unfold verify_row usable in ground (arith, g) in
          let row = first-Any (λ x. text_eq x.key_hash (hash secret)) t r f in
          rw (← same) (s, row.0, (text_eq_iff r.key_hash (hash secret)).0 row.1, good)

  first-appended :
      (q : ApiKey → Bool) (t : List ApiKey) (k : ApiKey)
      → All (λ x. q x ≡ false) t
      → q k ≡ true
      → first q (t ++ k ∷ []) ≡ some k
  unfolding first
  first-appended q [] k a h = rw h refl
  first-appended q (r ∷ t) k a h = rw (a.0) (first-appended q t k a.1 h)

  starts_with-append : (s u : Text) → starts_with s (s ++ u) ≡ true
  unfolding starts_with
  starts_with-append [] u = refl
  starts_with-append (c ∷ s) u = rw (==_self c) (starts_with-append s u)

  -- The secret that `create` returns is good for the key that it stored, while the key is live and
  -- takes requests from the address, if no other key has its hash.
  pub create-verify :
      (p : IpAddress) (key_id : Uuid) (now later : ℕ) (body : Text) (q : KeyRequest)
      (ip : Option Text) (t u : List ApiKey) (k : ApiKey) (secret : Text)
      → create hash key_id now body q t ≡ created u k secret
      → All (λ x. text_eq x.key_hash (hash secret) ≡ false) t
      → verify hash p later secret ip u
        ≡ (if not (usable later k) || not (allows_ip p k.allowed_ips ip) then none else some k)
  unfolding create
  create-verify p key_id now later body q ip t u k secret h fresh =
      by_checks (scope_error q.key_type q.organization_id q.domain_id q.account_id)
        (expiry now q.expires_in_days q.expires_at) h
    where
      stored :
          (at : Option ℕ)
          → created
              (t ++ new_key hash key_id now body at q ∷ [])
              (new_key hash key_id now body at q)
              (key_prefix ++ body)
            ≡ created u k secret
          → verify hash p later secret ip u
            ≡ (if not (usable later k) || not (allows_ip p k.allowed_ips ip) then none else some k)
      stored at g =
          let new = new_key hash key_id now body at q in
          let is_table : t ++ new ∷ [] ≡ u = ground (arith, g) in
          let is_key : new ≡ k = ground (arith, g) in
          let is_secret : key_prefix ++ body ≡ secret = ground (arith, g) in
          let own : text_eq k.key_hash (hash secret) ≡ true =
            rw (← is_key) (rw (← is_secret) (text_eq_self (hash (key_prefix ++ body)))) in
          let head : starts_with key_prefix secret ≡ true =
            rw (← is_secret) (starts_with-append key_prefix body) in
          let row : first (λ x. text_eq x.key_hash (hash secret)) u ≡ some k =
            rw (← is_table) (rw is_key (first-appended _ t k fresh own)) in
          unfold verify verify_row in rw head (rw row refl)

      by_checks :
          (e : Option KeyError) (x : Expiry)
          → create_until hash key_id now body q t e x ≡ created u k secret
          → verify hash p later secret ip u
            ≡ (if not (usable later k) || not (allows_ip p k.allowed_ips ip) then none else some k)
      by_checks (some e) x g = absurd (unfold create_until in cc (g))
      by_checks none (wrong e) g = absurd (unfold create_until in cc (g))
      by_checks none (until at) g = stored at (unfold create_until in g)
