-- ===== src/Routing/Rejections.antt =====
-- Which addresses are taken at all, and what becomes of a loop of aliases.
use lightr.Prelude.{
  Text, ◌≡◌, refl, ◌≢◌, Option, none, some, [], ◌∷◌, false, cut, Bool-cases, inl, inr, arith,
}
use lightr.Directory.{Directory, Domain, Found, found, missing, resolve_domain}
use lightr.Routing.{
  max_alias_depth, reject, route_alias, redirected, World, normalise, route_local, route,
  alias_loop, smtp_code, rejected, reply_for, is_suppressed, route_token, route_domain, route_parts,
}
use lightr.Routing.Expansion.{Leads, expand-none}

-- The address has an `@`, and the domain behind it is one of this server.
abbrev pub IsHosted : Directory → Text → Type 0
IsHosted d a =
    (local : Text) × (domain_name : Text) × (domain : Domain) × (cut b'@' a
      ≡ some (local, domain_name))
    × (resolve_domain domain_name d.domains ≡ found domain)

-- Mail is taken only for a domain that this server hosts and an address that is not suppressed.
pub route-IsHosted :
    (w : World) (recipient : Text)
    → (route w recipient).disposition ≢ reject
    → (is_suppressed w (normalise recipient) ≡ false) × IsHosted w.directory (normalise recipient)
unfolding route
route-IsHosted w recipient taken = by_parts (cut b'@' (normalise recipient)) refl taken
  where
    Taken : Type 0
    Taken =
        (is_suppressed w (normalise recipient) ≡ false) × IsHosted w.directory (normalise recipient)

    by_domain :
        (local n : Text)
        → cut b'@' (normalise recipient) ≡ some (local, n)
        → is_suppressed w (normalise recipient) ≡ false
        → (f : Found Domain) → resolve_domain n w.directory.domains ≡ f
        → (route_domain w recipient (normalise recipient) local f).disposition ≢ reject
        → Taken
    by_domain local n c s (missing e) r t = absurd (t (unfold route_domain in refl))
    by_domain local n c s (found domain) r t = (s, (local, n, domain, c, r))

    by_parts :
        (o : Option (Text × Text))
        → cut b'@' (normalise recipient) ≡ o
        → (route_parts w recipient (normalise recipient) o).disposition ≢ reject
        → Taken
    by_parts none c t = absurd (t (unfold route_parts in refl))
    by_parts (some (local, n)) c t = elim (Bool-cases (is_suppressed w (normalise recipient))) [
      | inl e ↦ absurd (t (unfold route_parts in rw e refl))
      | inr e ↦
          by_domain local n c e (resolve_domain n w.directory.domains) refl
            (λ p. t (unfold route_parts in rw e p))
    ]

-- Mail to one of some aliases at hosted domains, none of which is the address of an account and each
-- of which has another of them among its destinations, is rejected as a loop, which is transient, if
-- the address is not suppressed and names no live reply token.
pub route-alias_loop :
    (w : World) (recipient : Text) (S : Text → Type 0)
    (closed : (a : Text) → S a → Leads w.directory S a) (member : S (normalise recipient))
    → is_suppressed w (normalise recipient) ≡ false
    → reply_for w (closed (normalise recipient) member).local ≡ none
    → (route w recipient
        ≡ rejected recipient (some (closed (normalise recipient) member).domain.id) alias_loop)
      × (smtp_code alias_loop ≡ 451)
unfolding route route_parts route_domain route_token route_local route_alias redirected smtp_code
route-alias_loop w recipient S closed member s t =
    let c = closed (normalise recipient) member in
    let stuck =
      expand-none w.directory S closed max_alias_depth c.alias.destinations
        (normalise recipient ∷ []) c.onwards in
    (ground (arith, c.parts, c.hosted, c.no_account, c.is_alias, s, t, stuck), refl)
