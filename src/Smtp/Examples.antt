-- ===== src/Smtp/Examples.antt =====
-- Runs of the SMTP handlers, and their theorems at a concrete server.
use lightr.Prelude.{
  Text, codes, length, lower, strip, ◌≡◌, refl, true, false, none, some, List, [], ◌∷◌, arith,
  lower_char, is_space,
}
use lightr.Smtp.Envelopes.{AddsCopy, forward_as-route, IsPlain}
use lightr.Replies.{all_hex, is_hex, new_route}
use lightr.Smtp.Ownership.{handle_data-IsOwner, IsOwner}
use lightr.Smtp.Outbound.{handout, forward_as}
use lightr.Smtp.Delivery.{deliver_checked, handle_data}
use lightr.Smtp.Acceptance.{rcpt_all-IsTaken, rcpt_all, IsTaken}
use lightr.Smtp.Spam.{deliver_checked-IsKept, IsKept}
use lightr.Smtp.Answers.{no_outcome, Outcome}
use lightr.Bounce
use lightr.Replies
use lightr.Routing
use lightr.Routing.{World, Disposition, RejectReason, Route, rejected, replied, delivered, route}
use lightr.Directory.{Domain, Directory, AuthMode, AliasType, SpamPolicy, resolve_domain}
use lightr.Smtp.Parts.{stored, Server, Tables, Mime, world_of}
use lightr.Smtp.Envelope.{Envelope, handle_rcpt}

abbrev acme : Domain
acme = record {
  id = 1;
  org_id = 1;
  name = codes "acme.test";
  dkim_private_key = none;
  dkim_selector = none;
  relay_enabled = false;
  relay_host = none;
  relay_port = none;
  relay_username = none;
  relay_password = none;
  relay_use_tls = false;
  relay_tls_skip_verify = false;
  spam_policy = SpamPolicy.junk;
  auth_webhook_url = none;
  auth_webhook_secret = none;
  auth_webhook_verified = false;
}

abbrev directory : Directory
directory = record {
  domains = acme ∷ [];
  accounts =
      record {
        id = 11;
        domain_id = 1;
        local_part = codes "kim";
        auth_mode = AuthMode.native;
        can_send = true;
        can_receive = true;
        password_hash = none;
      }
      ∷ [];
  aliases =
      record {
        id = 21;
        domain_id = 1;
        source = codes "team";
        destinations = codes "kim@acme.test" ∷ codes "x@else.test" ∷ [];
        type = AliasType.forward;
        is_active = true;
      }
      ∷ [];
}

-- A bounce is read as one hard failure of the message's text; nothing else of a message matters.
abbrev mime : Mime
mime = record {
  received_count = λ m. 0;
  subject = λ m. codes "hello";
  plain_body = λ m. m;
  to_header = λ m. none;
  cc_header = λ m. none;
  from_address = λ m. codes "who@else.test";
  reply_target = λ m from. from;
  stamp = λ a m. m;
  strip_controlled = λ m. m;
  wrap_forward = λ m alias_address reply_to. m;
  clean_reply = λ m r. m;
  parse_bounces = λ m.
      record {
        recipient = m;
        bounce_type = Bounce.BounceType.hard;
        status = none;
        diagnostic = none;
        remote_mta = none;
        original_message_id = none;
      }
      ∷ [];
}

abbrev token : Text
token = codes "0123456789abcdef01234567"

abbrev receive : Server
receive = record {
  require_auth = false;
  max_message_bytes = 100;
  directory = directory;
  now = 5;
  ids = λ n. n;
  tokens = λ n. token;
  mime = mime;
  lmtp = λ from mailboxes action m. stored mailboxes;
}

abbrev submission : Server
submission = record receive { require_auth = true }

abbrev empty : Tables
empty = record {
  queue = [];
  reply_routes = [];
  bounces = record { bounces = []; suppression_list = [] };
  drawn = 0;
}

abbrev team_route : Route
team_route = record {
  recipient = codes "team@acme.test";
  disposition = Disposition.alias_forward;
  account_id = none;
  domain_id = some 1;
  mailbox = none;
  forward_to = codes "kim@acme.test" ∷ codes "x@else.test" ∷ [];
  reason = none;
  alias_id = some 21;
  reply_route = none;
}

abbrev forwarded_tables : Tables
unfolding forward_as
forwarded_tables =
    elim (forward_as receive (codes "a@b.test") (codes "hi") team_route 21
      (codes "x@else.test" ∷ []) acme empty) [ none ↦ empty | some u ↦ u ]

team_forwarded :
    forward_as receive
      (codes "a@b.test")
      (codes "hi")
      team_route
      21
      (codes "x@else.test" ∷ [])
      acme
      empty
    ≡ some forwarded_tables
unfolding forward_as
team_forwarded = refl

forward_as-route_example :
    AddsCopy
      (codes "x@else.test" ∷ [])
      (some (Replies.reply_address token (codes "acme.test")))
      []
      forwarded_tables.queue
    × (route (world_of receive forwarded_tables) (Replies.reply_address token (codes "acme.test"))
        ≡ replied (Replies.reply_address token (codes "acme.test")) 1 (
            new_route token 5 (
              handout receive
                (codes "a@b.test")
                (codes "hi")
                team_route
                21
                acme
                (codes "x@else.test" ∷ []))))
unfolding forward_as
forward_as-route_example =
    forward_as-route receive (codes "a@b.test") (codes "hi") team_route 21
      (codes "x@else.test" ∷ []) acme empty forwarded_tables (unfold all_hex is_hex in refl) refl tt
      acme_plain (unfold resolve_domain in refl) (unfold Routing.is_suppressed in refl)
      team_forwarded
  where
    acme_plain : IsPlain (codes "acme.test")
    acme_plain =
        unfold is_space lower_char in
        (
          (refl, refl),
          (
            (refl, refl),
            (
              (refl, refl),
              (
                (refl, refl),
                ((refl, refl), ((refl, refl), ((refl, refl), ((refl, refl), ((refl, refl), tt))))),
              ),
            ),
          ),
        )

kim_sends :
    (handle_data submission
      (some (codes "kim@acme.test"))
      (codes "Team@acme.test")
      (codes "x@else.test" ∷ [])
      (codes "hi")
      false
      empty).1.code
    ≡ 250
unfolding handle_data
kim_sends = refl

handle_data-IsOwner_example :
    IsOwner directory
      (lower (strip (codes "kim@acme.test")))
      (lower (strip (codes "Team@acme.test")))
handle_data-IsOwner_example =
    handle_data-IsOwner submission (codes "kim@acme.test") (codes "Team@acme.test")
      (codes "x@else.test" ∷ []) (codes "hi") false empty kim_sends

deliver_checked-IsKept_example : IsKept empty (
    deliver_checked receive
      (codes "a@b.test")
      (codes "team@acme.test" ∷ [])
      (codes "hi")
      true
      empty)
deliver_checked-IsKept_example =
    deliver_checked-IsKept receive (codes "a@b.test") (codes "team@acme.test" ∷ []) (codes "hi")
      empty refl

-- The same message, not judged to be spam, leaves one copy and a token.
team_goes_on :
    length
      (deliver_checked receive
        (codes "a@b.test")
        (codes "team@acme.test" ∷ [])
        (codes "hi")
        false
        empty).0.reply_routes
    ≡ 1
unfolding deliver_checked
team_goes_on = refl

abbrev blank : Envelope
blank = record { mail_from = none; rcpt_tos = [] }

abbrev named : List Text
named =
    codes "kim@acme.test"
    ∷ codes "x@else.test"
    ∷ codes "team@acme.test"
    ∷ codes "kim@acme.test"
    ∷ []

two_taken :
    (rcpt_all false 2 (world_of receive empty) named blank).rcpt_tos
    ≡ codes "kim@acme.test" ∷ codes "team@acme.test" ∷ []
unfolding rcpt_all handle_rcpt
two_taken = refl

rcpt_all-IsTaken_example :
    IsTaken 2 (world_of receive empty) (rcpt_all false 2 (world_of receive empty) named blank)
rcpt_all-IsTaken_example =
    rcpt_all-IsTaken 2 (world_of receive empty) named blank
      (record { few = omega arith; routed = tt })

abbrev half_done : Outcome
half_done = record no_outcome {
  delivered = codes "kim@acme.test" ∷ [];
  rejected = (codes "x@acme.test", RejectReason.no_such_mailbox) ∷ [];
}
