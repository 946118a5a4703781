-- ===== src/Smtp/Outbound.antt =====
-- What leaves the server through the queue: submitted mail and the copies of an alias, `_queue`,
-- `_enqueue_outbound` and `_forward` of src/lightr/mail/smtp.py. `none` is an exception, whose
-- transaction is rolled back.
use lightr.Prelude.{
  Text, ◌==◌, if◌then◌else◌, select, first, delete, codes, cut, suc, Bool, true, false, Option,
  none, some, List, [], ◌∷◌, ◌++◌, map,
}
use lightr.Queue.{enqueue}
use mathlib.Core.Option
use lightr.Replies
use lightr.Queue
use lightr.Routing
use lightr.Directory.{Uuid, Directory, Domain, found, missing, resolve_domain}
use lightr.Routing.{Route, alias_bridge, dedupe}
use lightr.Smtp.Parts.{Server, Tables}

-- The text behind the first `@`, or nothing.
unfoldable pub behind_at : Text → Text
unfolding cut
behind_at a = elim (cut b'@' a) [ none ↦ [] | some p ↦ p.1 ]

-- Whether the domain of an address is hosted here.
unfoldable pub is_hosted : Directory → Text → Bool
unfolding behind_at resolve_domain
is_hosted d a = elim (resolve_domain (behind_at a) d.domains) [ found x ↦ true | missing e ↦ false ]

-- `resolve` of the text of an id
unfoldable pub domain_of_id : Uuid → Directory → Option Domain
unfolding first
domain_of_id i d = first (λ x. x.id == i) d.domains

-- `_queue`: the message whole, without the analysis; it raises if there is no recipient.
unfoldable pub queue_mail :
    Server → Domain → Text → List Text → Text → Option Text → Tables → Option Tables
unfolding enqueue
queue_mail s domain from_addr recipients message envelope_from t =
    elim (enqueue (s.ids t.drawn) s.now
      (record {
        org_id = domain.org_id;
        domain_id = domain.id;
        from_addr = from_addr;
        to_addrs = recipients;
        subject = s.mime.subject message;
        body = s.mime.plain_body message;
        html_body = none;
        headers = [];
        max_attempts = Queue.default_max_attempts;
        raw = some (s.mime.strip_controlled message);
        envelope_from = envelope_from;
      })
      t.queue) [
        | Queue.err e ↦ none
        | Queue.ok r ↦ some (record t { queue = r.0; drawn = suc t.drawn })
      ]

-- `mailbox or recipient`
abbrev pub address_of : Route → Text
address_of r = elim r.mailbox [ none ↦ r.recipient | some [] ↦ r.recipient | some (c ∷ m) ↦ c ∷ m ]

abbrev pub is_bridge : Route → Bool
is_bridge r = elim r.disposition [ alias_bridge ↦ true | _ ↦ false ]

-- What a forward hands to `create`.
abbrev pub handout : Server → Text → Text → Route → Uuid → Domain → List Text → Replies.Handout
handout s mail_from message r alias_id domain recipients = record {
  alias_id = alias_id;
  domain_id = some domain.id;
  local_address = address_of r;
  destinations = recipients;
  original_from = s.mime.reply_target message mail_from;
  kind = if is_bridge r then Replies.RouteKind.bridge else Replies.RouteKind.forward;
  account_id = if is_bridge r then r.account_id else none;
  original_to = s.mime.to_header message;
  original_cc = s.mime.cc_header message;
}

-- `mail_from or f"postmaster@{domain.name}"`
abbrev pub sender_or_postmaster : Text → Domain → Text
sender_or_postmaster [] domain = codes "postmaster@" ++ domain.name
sender_or_postmaster (c ∷ m) domain = c ∷ m

-- The copies of one alias for other servers: a reply token, and a queued message under it.
unfoldable pub forward_as :
    Server → Text → Text → Route → Uuid → List Text → Domain → Tables → Option Tables
unfolding Replies.create Replies.reply_address queue_mail
forward_as s mail_from message r alias_id recipients domain t =
    let token = s.tokens t.drawn in
    let made =
      Replies.create token s.now (handout s mail_from message r alias_id domain recipients)
        t.reply_routes in
    let token_address = Replies.reply_address token domain.name in
    let copy =
      s.mime.wrap_forward message (address_of r)
        (if is_bridge r then token_address else s.mime.reply_target message mail_from) in
    queue_mail s domain (sender_or_postmaster mail_from domain) recipients copy (some token_address)
      (record t { reply_routes = made.0 })

-- One round over `external`: a route without its domain or alias is passed over.
unfoldable pub forward_external :
    Server
    → Text
    → Text
    → Route
    → List Text
    → Option Uuid
    → Option Uuid
    → Tables
    → Option (Tables × List Text)
unfolding forward_as domain_of_id dedupe
forward_external s mail_from message r recipients (some domain_id) (some alias_id) t =
    elim (domain_of_id domain_id s.directory) [
      | none ↦ none
      | some domain ↦
          Option.map (λ (t' : Tables). (t', dedupe recipients))
            (forward_as s mail_from message r alias_id (dedupe recipients) domain t)
    ]
forward_external s mail_from message r recipients domain_id alias_id t = some (t, [])

-- The destinations of a route that are elsewhere, and those here.
unfoldable pub external_of : Directory → Route → List Text
unfolding delete is_hosted Routing.normalise
external_of d r = delete (is_hosted d) (map Routing.normalise r.forward_to)

unfoldable pub local_of : Directory → Route → List Text
unfolding select is_hosted Routing.normalise
local_of d r = select (is_hosted d) (map Routing.normalise r.forward_to)

abbrev pub and_then :
    Option (Tables × List Text)
    → (Tables → Option (Tables × List Text))
    → Option (Tables × List Text)
and_then none f = none
and_then (some (t, xs)) f = Option.map (λ (r : Tables × List Text). (r.0, xs ++ r.1)) (f t)

-- The loop over `external`: the tables, and what was forwarded.
unfoldable pub forward_each :
    Server → Text → Text → List Route → Tables → Option (Tables × List Text)
unfolding forward_external external_of
forward_each s mail_from message [] t = some (t, [])
forward_each s mail_from message (r ∷ rs) t =
    and_then
      (elim (external_of s.directory r) [
        | [] ↦ some (t, [])
        | x ∷ xs ↦ forward_external s mail_from message r (x ∷ xs) r.domain_id r.alias_id t
      ])
      (forward_each s mail_from message rs)

-- All destinations that are hosted here.
unfoldable pub locals_of : Directory → List Route → List Text
unfolding local_of
locals_of d [] = []
locals_of d (r ∷ rs) = local_of d r ++ locals_of d rs

-- `_forward`: the tables, what was forwarded and the local mailboxes. Spam is not sent on.
unfoldable pub forward_all :
    Server → Text → Text → Bool → List Route → Tables → Option (Tables × List Text)
unfolding forward_each
forward_all s mail_from message is_spam rs t =
    if is_spam then some (t, []) else forward_each s mail_from message rs t

-- `_enqueue_outbound`: no tables if the sender's domain is not hosted here.
unfoldable pub enqueue_outbound : Server → Text → List Text → Text → Tables → Option Tables
unfolding behind_at resolve_domain queue_mail
enqueue_outbound s mail_from recipients message t =
    elim (resolve_domain (behind_at mail_from) s.directory.domains) [
      | missing e ↦ none
      | found domain ↦ queue_mail s domain mail_from recipients message none t
    ]
