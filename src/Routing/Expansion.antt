-- ===== src/Routing/Expansion.antt =====
-- What the expansion of an alias yields, and when it is a loop.
use lightr.Prelude.{
  ℕ, Bool-cases, All, delete, Text, text_eq, one_of, cut, ◌≡◌, ◌⊎◌, inl, inr, Bool, false, Option,
  none, some, List, [], ◌∷◌, arith, All-append, All-map, zero, suc, refl, ◌++◌, Any, ap,
}
use lightr.Directory.{
  Directory, Account, LookupError, missing, resolve_domain, find_account, Domain, Alias, Found,
  found, lookup_alias,
}
use lightr.Routing.{expand, dedupe, lead, append_found, normalise, expand_each, deduped}

-- The domain of the address is not ours, or the address is an account.
abbrev pub IsFinal : Directory → Text → Type 0
IsFinal d x =
    (local : Text) × (domain_name : Text) × (cut b'@' x ≡ some (local, domain_name))
    × (((e : LookupError) × (resolve_domain domain_name d.domains ≡ missing e))
        ⊎ ((a : Account) × (find_account x d ≡ some a)))

-- A final address that is not on the path that led to it.
abbrev pub IsTarget : Directory → List Text → Text → Type 0
IsTarget d seen x = (one_of x seen ≡ false) × IsFinal d x

-- No text stands twice.
abbrev pub IsUnique : List Text → Type 0
IsUnique [] = Unit
IsUnique (x ∷ xs) = All (λ y. text_eq x y ≡ false) xs × IsUnique xs

abbrev Keeps : Directory → (List Text → List Text → Option (List Text)) → Type 0
Keeps d follow = (ds path ys : List Text) → follow ds path ≡ some ys → All (IsTarget d path) ys

All-delete {ℓ κ} :
    {A : Type ℓ} (P : A → Type κ) (p : A → Bool) (xs : List A) → All P xs → All P (delete p xs)
unfolding delete
All-delete P p [] h = tt
All-delete P p (x ∷ xs) h = elim (Bool-cases (p x)) [
  | inl e ↦ rw e (All-delete P p xs h.1)
  | inr e ↦ rw e (h.0, All-delete P p xs h.1)
]

delete-All {ℓ} : {A : Type ℓ} (p : A → Bool) (xs : List A) → All (λ x. p x ≡ false) (delete p xs)
unfolding delete
delete-All p [] = tt
delete-All p (x ∷ xs) = elim (Bool-cases (p x)) [
  | inl e ↦ rw e (delete-All p xs)
  | inr e ↦ rw e (e, delete-All p xs)
]

IsUnique-delete : (p : Text → Bool) (xs : List Text) → IsUnique xs → IsUnique (delete p xs)
unfolding delete
IsUnique-delete p [] h = tt
IsUnique-delete p (x ∷ xs) h = elim (Bool-cases (p x)) [
  | inl e ↦ rw e (IsUnique-delete p xs h.1)
  | inr e ↦ rw e (All-delete _ p xs h.0, IsUnique-delete p xs h.1)
]

dedupe-IsUnique : (xs : List Text) → IsUnique (dedupe xs)
unfolding dedupe
dedupe-IsUnique [] = tt
dedupe-IsUnique (x ∷ xs) = (
  delete-All (text_eq x) (dedupe xs),
  IsUnique-delete (text_eq x) (dedupe xs) (dedupe-IsUnique xs),
)

All-dedupe : (P : Text → Type 0) (xs : List Text) → All P xs → All P (dedupe xs)
unfolding dedupe
All-dedupe P [] h = tt
All-dedupe P (x ∷ xs) h = (h.0, All-delete P (text_eq x) (dedupe xs) (All-dedupe P xs h.1))

append_found-none : (o : Option (List Text)) → append_found o none ≡ none
append_found-none none = refl
append_found-none (some xs) = refl

some-eq {ℓ} : {A : Type ℓ} {a b : A} → some a ≡ some b → a ≡ b
some-eq e = cc

module _ (d : Directory) (follow : List Text → List Text → Option (List Text))
    (keeps : Keeps d follow) where
  -- The addresses of one destination.
  lead-IsTarget :
      (seen : List Text) (address : Text) (p : Option (Text × Text)) (ys : List Text)
      → cut b'@' address ≡ p
      → lead d follow seen address p ≡ some ys
      → All (IsTarget d seen) ys
  unfolding lead
  lead-IsTarget seen address none ys c h = rw (← some-eq h) tt
  lead-IsTarget seen address (some (l, n)) ys c h = elim (Bool-cases (one_of address seen)) [
    | inl e ↦ absurd (ground (arith, e, h))
    | inr e ↦ by_domain e (resolve_domain n d.domains) refl
  ]
    where
      by_alias :
          one_of address seen ≡ false
          → (domain : Domain) → resolve_domain n d.domains ≡ found domain
          → find_account address d ≡ none
          → (o : Option Alias) → lookup_alias domain.id l d.aliases ≡ o
          → All (IsTarget d seen) ys
      by_alias e domain r f none a = let k : [] ≡ ys = ground (arith, e, r, f, a, h) in rw (← k) tt
      by_alias e domain r f (some nested) a =
          All-map (λ x t. (ground (arith, t.0), t.1)) ys
            (keeps nested.destinations (address ∷ seen) ys (ground (arith, e, r, f, a, h)))

      by_account :
          one_of address seen ≡ false
          → (domain : Domain) → resolve_domain n d.domains ≡ found domain
          → (o : Option Account) → find_account address d ≡ o
          → All (IsTarget d seen) ys
      by_account e domain r none f = by_alias e domain r f (lookup_alias domain.id l d.aliases) refl
      by_account e domain r (some account) f =
          let k : address ∷ [] ≡ ys = ground (arith, e, r, f, h) in
          rw (← k) ((e, (l, n, c, inr (account, f))), tt)

      by_domain :
          one_of address seen ≡ false
          → (f : Found Domain) → resolve_domain n d.domains ≡ f
          → All (IsTarget d seen) ys
      by_domain e (missing err) r =
          let k : address ∷ [] ≡ ys = ground (arith, e, r, h) in
          rw (← k) ((e, (l, n, c, inl (err, r))), tt)
      by_domain e (found domain) r = by_account e domain r (find_account address d) refl

  append_found-some :
      (a b : Option (List Text)) (ys : List Text)
      → append_found a b ≡ some ys
      → (as' : List Text) × (bs : List Text) × (a ≡ some as') × (b ≡ some bs) × (as' ++ bs ≡ ys)
  append_found-some none b ys h = absurd (ground (arith, h))
  append_found-some (some as') none ys h = absurd (ground (arith, h))
  append_found-some (some as') (some bs) ys h = (as', bs, refl, refl, some-eq h)

  expand_each-IsTarget :
      (seen ds ys : List Text) → expand_each d follow seen ds ≡ some ys → All (IsTarget d seen) ys
  unfolding expand_each
  expand_each-IsTarget seen [] ys h = rw (← some-eq h) tt
  expand_each-IsTarget seen (x ∷ ds) ys h =
      let address = normalise x in
      let parts =
        append_found-some (lead d follow seen address (cut b'@' address))
          (expand_each d follow seen ds) ys h in
      rw (← parts.4) (
        All-append (IsTarget d seen) parts.0 parts.1
          (lead-IsTarget seen address (cut b'@' address) parts.0 refl parts.2)
          (expand_each-IsTarget seen ds parts.1 parts.3))

  -- One level of the expansion.
  expand-IsTarget_suc :
      (ds seen ys : List Text)
      → deduped (expand_each d follow seen ds) ≡ some ys
      → All (IsTarget d seen) ys × IsUnique ys
  expand-IsTarget_suc ds seen ys h = by_each (expand_each d follow seen ds) refl
    where
      by_each :
          (o : Option (List Text))
          → expand_each d follow seen ds ≡ o
          → All (IsTarget d seen) ys × IsUnique ys
      by_each none e = absurd (ground (arith, e, h))
      by_each (some zs) e =
          let k : dedupe zs ≡ ys = ground (arith, e, h) in
          rw (← k) (
            All-dedupe (IsTarget d seen) zs (expand_each-IsTarget seen ds zs e),
            dedupe-IsUnique zs,
          )

module _ (d : Directory) where
  -- What an expansion yields are final addresses off the path, none of them twice.
  pub expand-IsTarget :
      (hops : ℕ) (ds seen ys : List Text)
      → expand d hops ds seen ≡ some ys
      → All (IsTarget d seen) ys × IsUnique ys
  unfolding expand
  expand-IsTarget zero ds seen ys h = absurd (ground (arith, h))
  expand-IsTarget (suc hops) ds seen ys h =
      expand-IsTarget_suc d (λ xs path. expand d hops xs path)
        (λ xs path us g. (expand-IsTarget hops xs path us g).0) ds seen ys (ground (arith, h))

-- A set of addresses closed under forwarding: each is an alias, not an account, of a domain of
-- ours, and names a destination in the set.
pub record Leads (d : Directory) (S : Text → Type 0) (a : Text) : Type 0 where
  pub local : Text
  pub domain_name : Text
  pub domain : Domain
  pub alias : Alias
  pub parts : cut b'@' a ≡ some (local, domain_name)
  pub hosted : resolve_domain domain_name d.domains ≡ found domain
  pub no_account : find_account a d ≡ none
  pub is_alias : lookup_alias domain.id local d.aliases ≡ some alias
  pub onwards : Any (λ x. S (normalise x)) alias.destinations

module _ (d : Directory) (S : Text → Type 0) (closed : (a : Text) → S a → Leads d S a) where
  lead-none :
      (follow : List Text → List Text → Option (List Text)) (seen : List Text) (a : Text)
      → ((ds path : List Text) → Any (λ x. S (normalise x)) ds → follow ds path ≡ none)
      → S a
      → lead d follow seen a (cut b'@' a) ≡ none
  unfolding lead
  lead-none follow seen a stuck s =
      let c = closed a s in
      let deeper = stuck c.alias.destinations (a ∷ seen) c.onwards in
      ground (arith, c.parts, c.hosted, c.no_account, c.is_alias, deeper)

  expand_each-none :
      (follow : List Text → List Text → Option (List Text)) (seen ds : List Text)
      → ((xs path : List Text) → Any (λ x. S (normalise x)) xs → follow xs path ≡ none)
      → Any (λ x. S (normalise x)) ds
      → expand_each d follow seen ds ≡ none
  unfolding expand_each
  expand_each-none follow seen [] stuck h = elim h [ ]
  expand_each-none follow seen (x ∷ ds) stuck (inl s) =
      rw (lead-none follow seen (normalise x) stuck s) refl
  expand_each-none follow seen (x ∷ ds) stuck (inr m) =
      rw (expand_each-none follow seen ds stuck m) (append_found-none _)

  -- A destination that leads into a cycle makes the expansion a loop, at every depth.
  pub expand-none :
      (hops : ℕ) (ds seen : List Text)
      → Any (λ x. S (normalise x)) ds
      → expand d hops ds seen ≡ none
  unfolding expand
  expand-none zero ds seen h = refl
  expand-none (suc hops) ds seen h = ap deduped (
      expand_each-none (λ xs path. expand d hops xs path) seen ds
        (λ xs path m. expand-none hops xs path m) h)
