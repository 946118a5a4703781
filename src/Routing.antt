-- ===== src/Routing.antt =====
-- Where a recipient's mail goes, src/lightr/mail/routing.py. The state that routing reads is the
-- directory, the suppression list and the reply routes; it changes none of them. `none` from the
-- expansion of an alias is the exception `_AliasLoopError`.
pub mod Expansion
pub mod Routes
pub mod Rejections
mod Examples
use lightr.Prelude.{
  ℕ, ◌==◌, if◌then◌else◌, first, delete, Text, codes, text_eq, one_of, lower, strip, cut, zero, suc,
  Bool, ◌&&◌, not, Option, none, some, List, [], ◌∷◌, ◌++◌, map, true, false,
}
use lightr.Directory.{
  Uuid, Directory, disabled, AliasType, forward, bridge, Domain, Account, Alias, found, missing,
  resolve_domain, find_account, lookup_alias, AuthMode, Found,
}
use lightr.Replies
use lightr.Replies.{ReplyRoute}

abbrev pub max_alias_depth : ℕ
max_alias_depth = 5

-- `Disposition`
pub data Disposition : Type 0 where
  deliver_local alias_forward alias_bridge reply reject : Disposition

-- `RejectReason`
pub data RejectReason : Type 0 where
  not_local_domain no_such_mailbox suppressed alias_loop account_disabled receiving_blocked :
      RejectReason

unfoldable pub smtp_code : RejectReason → ℕ
smtp_code alias_loop = 451
smtp_code _ = 550

unfoldable pub smtp_message : RejectReason → Text
smtp_message not_local_domain = codes "Relay access denied"
smtp_message no_such_mailbox = codes "No such user here"
smtp_message suppressed = codes "Address suppressed"
smtp_message alias_loop = codes "Alias loop detected; try again later"
smtp_message account_disabled = codes "Mailbox unavailable"
smtp_message receiving_blocked = codes "Mailbox unavailable"

pub record Route : Type 0 where
  pub recipient : Text
  pub disposition : Disposition
  pub account_id : Option Uuid
  pub domain_id : Option Uuid
  pub mailbox : Option Text
  pub forward_to : List Text
  pub reason : Option RejectReason
  pub alias_id : Option Uuid
  pub reply_route : Option ReplyRoute

pub record World : Type 0 where
  pub directory : Directory
  pub suppression_list : List Text
  pub reply_routes : List ReplyRoute
  pub now : ℕ

-- The first of each value, in order: `list(dict.fromkeys(xs))`.
unfoldable pub dedupe : List Text → List Text
unfolding delete text_eq
dedupe [] = []
dedupe (x ∷ xs) = x ∷ delete (text_eq x) (dedupe xs)

abbrev pub deduped : Option (List Text) → Option (List Text)
deduped none = none
deduped (some resolved) = some (dedupe resolved)

abbrev pub append_found : Option (List Text) → Option (List Text) → Option (List Text)
append_found none b = none
append_found (some xs) none = none
append_found (some xs) (some ys) = some (xs ++ ys)

-- `address.strip().lower()`
unfoldable pub normalise : Text → Text
unfolding strip lower
normalise a = lower (strip a)

module _ (d : Directory) where
  -- A destination with its `@`: where it leads. `follow` is the expansion one level down.
  unfoldable pub lead :
      (List Text → List Text → Option (List Text))
      → List Text
      → Text
      → Option (Text × Text)
      → Option (List Text)
  unfolding one_of resolve_domain find_account lookup_alias
  lead follow seen address none = some []
  lead follow seen address (some (local, domain_name)) =
      if one_of address seen then none else elim (resolve_domain domain_name d.domains) [
        | missing e ↦ some (address ∷ [])
        | found domain ↦ elim (find_account address d) [
          | some account ↦ some (address ∷ [])
          | none ↦ elim (lookup_alias domain.id local d.aliases) [
            | none ↦ some []
            | some nested ↦ follow nested.destinations (address ∷ seen)
          ]
        ]
      ]

  -- The loop over the destinations.
  unfoldable pub expand_each :
      (List Text → List Text → Option (List Text)) → List Text → List Text → Option (List Text)
  unfolding lead normalise cut
  expand_each follow seen [] = some []
  expand_each follow seen (destination ∷ ds) =
      let address = normalise destination in
      append_found (lead follow seen address (cut b'@' address)) (expand_each follow seen ds)

  -- `_expand`, by the hops that are left until `depth >= MAX_ALIAS_DEPTH`.
  unfoldable pub expand : ℕ → List Text → List Text → Option (List Text)
  unfolding expand_each dedupe
  expand zero destinations seen = none
  expand (suc hops) destinations seen =
      deduped (expand_each (λ ds path. expand hops ds path) seen destinations)

  -- `_bridge_mailbox`
  unfoldable pub bridge_mailbox : Uuid → Text → Option (Uuid × Text)
  unfolding first text_eq
  bridge_mailbox domain_id local_part =
      elim (first (λ a. a.domain_id == domain_id && text_eq a.local_part local_part) d.accounts) [
        | none ↦ none
        | some a ↦ elim (first (λ x. x.id == a.domain_id) d.domains) [
          | none ↦ none
          | some domain ↦ some (a.id, local_part ++ (b'@' ∷ domain.name))
        ]
      ]

module _ (recipient : Text) where
  abbrev pub rejected : Option Uuid → RejectReason → Route
  rejected domain_id reason = record {
    recipient = recipient;
    disposition = reject;
    account_id = none;
    domain_id = domain_id;
    mailbox = none;
    forward_to = [];
    reason = some reason;
    alias_id = none;
    reply_route = none;
  }

  abbrev pub replied : Uuid → ReplyRoute → Route
  replied domain_id route = record {
    recipient = recipient;
    disposition = reply;
    account_id = none;
    domain_id = some domain_id;
    mailbox = none;
    forward_to = [];
    reason = none;
    alias_id = none;
    reply_route = some route;
  }

  abbrev pub delivered : Uuid → Uuid → Text → Route
  delivered account_id domain_id address = record {
    recipient = recipient;
    disposition = deliver_local;
    account_id = some account_id;
    domain_id = some domain_id;
    mailbox = some address;
    forward_to = [];
    reason = none;
    alias_id = none;
    reply_route = none;
  }

  abbrev pub bridged : Uuid → Uuid → Text → List Text → Uuid → Route
  bridged account_id domain_id address destinations alias_id = record {
    recipient = recipient;
    disposition = alias_bridge;
    account_id = some account_id;
    domain_id = some domain_id;
    mailbox = some address;
    forward_to = destinations;
    reason = none;
    alias_id = some alias_id;
    reply_route = none;
  }

  abbrev pub forwarded : Uuid → List Text → Uuid → Route
  forwarded domain_id destinations alias_id = record {
    recipient = recipient;
    disposition = alias_forward;
    account_id = none;
    domain_id = some domain_id;
    mailbox = none;
    forward_to = destinations;
    reason = none;
    alias_id = some alias_id;
    reply_route = none;
  }

  -- An account's bridge by its type and its expanded destinations; a plain forward of the same
  -- name is ignored.
  unfoldable pub mirrored : Text → Uuid → Uuid → Uuid → AliasType → Option (List Text) → Route
  mirrored address domain_id account_id alias_id AliasType.forward to =
      delivered account_id domain_id address
  mirrored address domain_id account_id alias_id AliasType.bridge none =
      rejected (some domain_id) alias_loop
  mirrored address domain_id account_id alias_id AliasType.bridge (some []) =
      delivered account_id domain_id address
  mirrored address domain_id account_id alias_id AliasType.bridge (some (x ∷ xs)) =
      bridged account_id domain_id address (x ∷ xs) alias_id

  -- The branch of `route` behind an account that receives.
  unfoldable pub route_bridge : Directory → Text → Domain → Account → Option Alias → Route
  unfolding expand mirrored
  route_bridge d address domain account none = delivered account.id domain.id address
  route_bridge d address domain account (some shared) =
      mirrored address domain.id account.id shared.id shared.type
        (expand d max_alias_depth shared.destinations (address ∷ []))

  -- The tests on an account, by its mode and whether it may receive.
  unfoldable pub admitted : Uuid → AuthMode → Bool → Route → Route
  admitted domain_id AuthMode.disabled can_receive onwards =
      rejected (some domain_id) account_disabled
  admitted domain_id mode false onwards = rejected (some domain_id) receiving_blocked
  admitted domain_id mode true onwards = onwards

  -- The branch for an account.
  unfoldable pub route_account : Directory → Text → Text → Domain → Account → Route
  unfolding route_bridge lookup_alias admitted
  route_account d address local domain account =
      admitted domain.id account.auth_mode account.can_receive
        (route_bridge d address domain account (lookup_alias domain.id local d.aliases))

  -- An alias by its expanded destinations, its type and the mailbox that a bridge mirrors into;
  -- a bridge without one degrades to a forward.
  unfoldable pub redirected :
      Uuid → Uuid → Option (List Text) → AliasType → Option (Uuid × Text) → Route
  redirected domain_id alias_id none type owner = rejected (some domain_id) alias_loop
  redirected domain_id alias_id (some []) type owner = rejected (some domain_id) no_such_mailbox
  redirected domain_id alias_id (some (x ∷ xs)) AliasType.forward owner =
      forwarded domain_id (x ∷ xs) alias_id
  redirected domain_id alias_id (some (x ∷ xs)) AliasType.bridge none =
      forwarded domain_id (x ∷ xs) alias_id
  redirected domain_id alias_id (some (x ∷ xs)) AliasType.bridge (some (account_id, mailbox)) =
      bridged account_id domain_id mailbox (x ∷ xs) alias_id

  -- The branch for an alias that is no account.
  unfoldable pub route_alias : Directory → Text → Text → Domain → Option Alias → Route
  unfolding expand bridge_mailbox redirected
  route_alias d address local domain none = rejected (some domain.id) no_such_mailbox
  route_alias d address local domain (some alias) =
      redirected domain.id alias.id (expand d max_alias_depth alias.destinations (address ∷ []))
        alias.type (bridge_mailbox d domain.id local)

  -- The branch for a domain of ours, behind the reply tokens.
  unfoldable pub route_local : Directory → Text → Text → Domain → Route
  unfolding find_account lookup_alias route_account route_alias
  route_local d address local domain = elim (find_account address d) [
    | some account ↦ route_account d address local domain account
    | none ↦ route_alias d address local domain (lookup_alias domain.id local d.aliases)
  ]

-- The live reply route that a local part names.
unfoldable pub reply_for : World → Text → Option ReplyRoute
unfolding Replies.token_from Replies.get
reply_for w local = elim (Replies.token_from local) [
  | none ↦ none
  | some token ↦ Replies.get w.now token w.reply_routes
]

-- `is_suppressed`
unfoldable pub is_suppressed : World → Text → Bool
unfolding one_of lower
is_suppressed w address = one_of (lower address) w.suppression_list

-- Behind the reply tokens, behind the domain, and behind the split at the `@`.
unfoldable pub route_token : World → Text → Text → Text → Domain → Option ReplyRoute → Route
unfolding route_local
route_token w recipient address local domain none =
    route_local recipient w.directory address local domain
route_token w recipient address local domain (some r) = replied recipient domain.id r

unfoldable pub route_domain : World → Text → Text → Text → Found Domain → Route
unfolding route_token reply_for
route_domain w recipient address local (missing e) = rejected recipient none not_local_domain
route_domain w recipient address local (found domain) =
    route_token w recipient address local domain (reply_for w local)

unfoldable pub route_parts : World → Text → Text → Option (Text × Text) → Route
unfolding is_suppressed resolve_domain route_domain
route_parts w recipient address none = rejected recipient none no_such_mailbox
route_parts w recipient address (some (local, domain_name)) =
    if is_suppressed w address
    then rejected recipient none suppressed
    else route_domain w recipient address local (resolve_domain domain_name w.directory.domains)

unfoldable pub route : World → Text → Route
unfolding normalise cut route_parts
route w recipient =
    let address = normalise recipient in route_parts w recipient address (cut b'@' address)

unfoldable pub route_all : World → List Text → List Route
unfolding route
route_all w = map (route w)
