-- ===== src/Routing/Routes.antt =====
-- What each disposition of a route promises.
use lightr.Prelude.{
  ℕ, All, Text, ◌≡◌, refl, ◌≢◌, true, Option, none, some, List, [], ◌∷◌, Bool, false, cut,
  Bool-cases, inl, inr, Any, first, first-Any, text_eq, lower, ◌+◌, ◌≤◌, arith,
}
use lightr.Replies.{ReplyRoute, retention}
use lightr.Directory.{
  Directory, AuthMode, Domain, Account, Alias, find_account, Uuid, AliasType, lookup_alias, Found,
  found, missing, resolve_domain,
}
use lightr.Routing.{
  max_alias_depth, deliver_local, alias_forward, alias_bridge, reply, reject, Route, expand,
  route_alias, delivered, mirrored, route_bridge, admitted, route_account, redirected, World,
  normalise, route_local, route, reply_for, is_suppressed, route_token, route_domain, route_parts,
}
use lightr.Routing.Expansion.{IsTarget, IsUnique, expand-IsTarget}

-- The account takes mail: it is not disabled and may receive.
abbrev pub IsReceiving : Account → Type 0
IsReceiving a = (a.can_receive ≡ true) × (a.auth_mode ≢ AuthMode.disabled)

-- Forward destinations: at least one, none twice, each final and none the address itself.
abbrev pub AreTargets : Directory → Text → List Text → Type 0
AreTargets d address to = (to ≢ []) × All (IsTarget d (address ∷ [])) to × IsUnique to

-- A reply route that is stored and not expired.
abbrev pub IsLive : World → ReplyRoute → Type 0
IsLive w r = Any (λ x. x ≡ r) w.reply_routes × (w.now ≤ r.created_at + retention)

-- What a route for the address must be, by its disposition.
abbrev pub Promises : World → Text → Route → Type 0
Promises w address r = elim r.disposition [
  | deliver_local ↦
      (a : Account) × (find_account address w.directory ≡ some a)
      × IsReceiving a
      × (r.account_id ≡ some a.id)
      × (r.mailbox ≡ some address)
      × (r.forward_to ≡ [])
  | alias_forward ↦
      (find_account address w.directory ≡ none) × AreTargets w.directory address r.forward_to
  | alias_bridge ↦ (r.mailbox ≢ none) × AreTargets w.directory address r.forward_to
  | reply ↦ (x : ReplyRoute) × (r.reply_route ≡ some x) × IsLive w x
  | reject ↦ r.reason ≢ none
]

module _ (w : World) (recipient address local : Text) (domain : Domain) where
  -- The expansion of the address's alias, if it is one.
  abbrev Expanded : Option (List Text) → Type 0
  Expanded to = (hops : ℕ) × (ds : List Text) × (expand w.directory hops ds (address ∷ []) ≡ to)

  targets :
      (x : Text) (xs : List Text)
      → Expanded (some (x ∷ xs))
      → AreTargets w.directory address (x ∷ xs)
  targets x xs e =
      let t = expand-IsTarget w.directory e.0 e.1 (address ∷ []) (x ∷ xs) e.2 in
      ((λ p. cc), t.0, t.1)

  redirected-Promises :
      (alias_id : Uuid) (to : Option (List Text)) (type : AliasType) (owner : Option (Uuid × Text))
      → find_account address w.directory ≡ none
      → Expanded to
      → Promises w address (redirected recipient domain.id alias_id to type owner)
  unfolding redirected
  redirected-Promises i none t o f e = λ p. cc
  redirected-Promises i (some []) t o f e = λ p. cc
  redirected-Promises i (some (x ∷ xs)) AliasType.forward o f e = (f, targets x xs e)
  redirected-Promises i (some (x ∷ xs)) AliasType.bridge none f e = (f, targets x xs e)
  redirected-Promises i (some (x ∷ xs)) AliasType.bridge (some (a, m)) f e =
      ((λ p. cc), targets x xs e)

  route_alias-Promises :
      (o : Option Alias)
      → find_account address w.directory ≡ none
      → Promises w address (route_alias recipient w.directory address local domain o)
  unfolding route_alias
  route_alias-Promises none f = λ p. cc
  route_alias-Promises (some alias) f =
      redirected-Promises alias.id _ alias.type _ f (max_alias_depth, alias.destinations, refl)

  module _ (account : Account) (is_account : find_account address w.directory ≡ some account) where
    delivered-Promises :
        IsReceiving account → Promises w address (delivered recipient account.id domain.id address)
    delivered-Promises r = (account, is_account, r, refl, refl, refl)

    mirrored-Promises :
        (alias_id : Uuid) (type : AliasType) (to : Option (List Text))
        → IsReceiving account
        → Expanded to
        → Promises w address (mirrored recipient address domain.id account.id alias_id type to)
    unfolding mirrored
    mirrored-Promises i AliasType.forward to r e = delivered-Promises r
    mirrored-Promises i AliasType.bridge none r e = λ p. cc
    mirrored-Promises i AliasType.bridge (some []) r e = delivered-Promises r
    mirrored-Promises i AliasType.bridge (some (x ∷ xs)) r e = ((λ p. cc), targets x xs e)

    route_bridge-Promises :
        (o : Option Alias)
        → IsReceiving account
        → Promises w address (route_bridge recipient w.directory address domain account o)
    unfolding route_bridge
    route_bridge-Promises none r = delivered-Promises r
    route_bridge-Promises (some shared) r =
        mirrored-Promises shared.id shared.type _ r (max_alias_depth, shared.destinations, refl)

    route_account-Promises :
        Promises w address (route_account recipient w.directory address local domain account)
    unfolding route_account
    route_account-Promises =
        by_mode account.auth_mode account.can_receive _
          (λ m c. route_bridge-Promises (lookup_alias domain.id local w.directory.aliases) (c, m))
      where
        by_mode :
            (mode : AuthMode) (can_receive : Bool) (onwards : Route)
            → (mode ≢ AuthMode.disabled → can_receive ≡ true → Promises w address onwards)
            → Promises w address (admitted recipient domain.id mode can_receive onwards)
        by_mode AuthMode.disabled c onwards k = unfold admitted in λ p. cc
        by_mode AuthMode.native false onwards k = unfold admitted in λ p. cc
        by_mode AuthMode.native true onwards k = unfold admitted in k (λ p. cc) refl
        by_mode AuthMode.external false onwards k = unfold admitted in λ p. cc
        by_mode AuthMode.external true onwards k = unfold admitted in k (λ p. cc) refl

  route_local-Promises : Promises w address (route_local recipient w.directory address local domain)
  unfolding route_local
  route_local-Promises = by_account (find_account address w.directory) refl
    where
      by_account :
          (o : Option Account)
          → find_account address w.directory ≡ o
          → Promises w address (route_local recipient w.directory address local domain)
      by_account none f =
          rw (f, route_local)
            (route_alias-Promises (lookup_alias domain.id local w.directory.aliases) f)
      by_account (some account) f = rw (f, route_local) (route_account-Promises account f)

get-IsLive :
    (w : World) (token : Text) (r : ReplyRoute)
    → lightr.Replies.get w.now token w.reply_routes ≡ some r
    → IsLive w r
unfolding lightr.Replies.get
get-IsLive w token r h = by_row (first (λ x. text_eq x.token (lower token)) w.reply_routes) refl h
  where
    by_row :
        (o : Option ReplyRoute)
        → first (λ x. text_eq x.token (lower token)) w.reply_routes ≡ o
        → lightr.Replies.unexpired w.now o ≡ some r
        → IsLive w r
    by_row none f g = absurd (cc)
    by_row (some x) f g = elim (Bool-cases (lightr.Replies.expired w.now x)) [
      | inl e ↦ absurd (unfold lightr.Replies.unexpired in ground (arith, e, g))
      | inr e ↦
          let same : x ≡ r = unfold lightr.Replies.unexpired in ground (arith, e, g) in
          let here = (first-Any (λ y. text_eq y.token (lower token)) w.reply_routes x f).0 in
          rw (← same) (here, unfold lightr.Replies.expired in ground (arith, e))
    ]

reply_for-IsLive :
    (w : World) (local : Text) (r : ReplyRoute) → reply_for w local ≡ some r → IsLive w r
unfolding reply_for
reply_for-IsLive w local r h = by_token (lightr.Replies.token_from local) h
  where
    by_token :
        (o : Option Text)
        → (elim o as (λ _. Option ReplyRoute) [
          | none ↦ none
          | some token ↦ lightr.Replies.get w.now token w.reply_routes
        ])
          ≡ some r
        → IsLive w r
    by_token none g = absurd (cc)
    by_token (some token) g = get-IsLive w token r g

module _ (w : World) (recipient address local : Text) where
  route_token-Promises :
      (domain : Domain) (o : Option ReplyRoute)
      → reply_for w local ≡ o
      → Promises w address (route_token w recipient address local domain o)
  unfolding route_token
  route_token-Promises domain none e = route_local-Promises w recipient address local domain
  route_token-Promises domain (some r) e = (r, refl, reply_for-IsLive w local r e)

  route_domain-Promises :
      (o : Found Domain) → Promises w address (route_domain w recipient address local o)
  unfolding route_domain
  route_domain-Promises (missing e) = λ p. cc
  route_domain-Promises (found domain) = route_token-Promises domain (reply_for w local) refl

route_parts-Promises :
    (w : World) (recipient address : Text) (o : Option (Text × Text))
    → Promises w address (route_parts w recipient address o)
unfolding route_parts
route_parts-Promises w recipient address none = λ p. cc
route_parts-Promises w recipient address (some (local, n)) =
    elim (Bool-cases (is_suppressed w address)) [
      | inl e ↦ rw e (λ p. cc)
      | inr e ↦
          rw e
            (route_domain-Promises w recipient address local (resolve_domain n w.directory.domains))
    ]

-- Every route keeps the promise of its disposition: a local delivery names an account of the
-- address that may receive and forwards nothing; a forward is of no account; a forward or bridge
-- has final destinations, at least one, none twice and none the address itself; a bridge has a
-- mailbox, a rejection a reason, and a reply a reply route that is stored and has not expired.
pub route-Promises :
    (w : World) (recipient : Text) → Promises w (normalise recipient) (route w recipient)
unfolding route
route-Promises w recipient =
    route_parts-Promises w recipient (normalise recipient) (cut b'@' (normalise recipient))
