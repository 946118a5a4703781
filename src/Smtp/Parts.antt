-- ===== src/Smtp/Parts.antt =====
-- What delivery works on: the message as the email package shows it, the tables, the settings, and
-- the recipients sorted by their routes (src/lightr/mail/smtp.py).
use lightr.Prelude.{ℕ, Text, Bool, true, Option, none, some, List, [], ◌∷◌, map}
use lightr.Replies.{ReplyRoute}
use lightr.Directory.{Uuid, Directory}
use lightr.Bounce
use lightr.Queue
use lightr.Routing.{
  Route, deliver_local, alias_forward, alias_bridge, reply, reject, RejectReason, not_local_domain,
  World, Disposition,
}

-- What the email package, mail/headers.py and mail/replies.py read from a message and make of it.
pub record Mime : Type 0 where
  pub received_count : Text → ℕ
  pub subject : Text → Text
  pub plain_body : Text → Text
  pub to_header : Text → Option Text
  pub cc_header : Text → Option Text
  pub from_address : Text → Text
  pub reply_target : Text → Text → Text
  -- the stamps of `deliver`, with the first target in the `Received` line
  pub stamp : Text → Text → Text
  -- `strip_controlled` on a copy
  pub strip_controlled : Text → Text
  -- `wrap_forward(message, alias_address, reply_to)`
  pub wrap_forward : Text → Text → Text → Text
  pub clean_reply : Text → ReplyRoute → Text
  -- `bounce.parse`, with no bounces where it raises
  pub parse_bounces : Text → List Bounce.Bounce

-- The tables that a delivery writes, and how many ids and tokens were drawn.
pub record Tables : Type 0 where
  pub queue : Queue.Table
  pub reply_routes : List ReplyRoute
  pub bounces : Bounce.Store
  pub drawn : ℕ

-- What `LMTPClient.deliver` comes to: the mailboxes that took the message, an `LMTPError`, or
-- another exception (a broken connection, a greeting that is no number).
pub data StoreAnswer : Type 0 where
  stored : List Text → StoreAnswer
  lmtp_error : StoreAnswer
  raised : StoreAnswer

-- The settings, the directory, the clock and the random draws.
pub record Server : Type 0 where
  pub require_auth : Bool
  pub max_message_bytes : ℕ
  pub directory : Directory
  pub now : ℕ
  pub ids : ℕ → Uuid
  pub tokens : ℕ → Text
  pub mime : Mime
  -- the mail store: sender, mailboxes, spam action and message
  pub lmtp : Text → List Text → Text → Text → StoreAnswer

-- What the router reads, before a delivery.
abbrev pub world_of : Server → Tables → World
world_of s t = record {
  directory = s.directory;
  suppression_list = map (λ r. r.email) t.bounces.suppression_list;
  reply_routes = t.reply_routes;
  now = s.now;
}

-- The recipients of a message by what is to be done. A route with forward destinations stands
-- for them all: the source keys them by the identity of their route.
pub record Sorted : Type 0 where
  pub locals : List Route
  pub outbound : List Text
  pub forwards : List Route
  pub replies : List Route
  pub rejected : List (Text × RejectReason)

abbrev pub nothing_sorted : Sorted
nothing_sorted = record { locals = []; outbound = []; forwards = []; replies = []; rejected = [] }

-- A rejection: on submission, what is not hosted here goes out.
unfoldable pub sort_rejected : Bool → Route → Option RejectReason → Sorted → Sorted
sort_rejected require_auth r none s = s
sort_rejected true r (some not_local_domain) s = record s { outbound = r.recipient ∷ s.outbound }
sort_rejected require_auth r (some reason) s = record s {
  rejected = (r.recipient, reason) ∷ s.rejected;
}

-- `forwards.extend(...)`, nothing for a route without destinations
unfoldable pub sort_forwards : Route → List Text → Sorted → Sorted
sort_forwards r [] s = s
sort_forwards r (x ∷ xs) s = record s { forwards = r ∷ s.forwards }

abbrev pub with_local : Route → Sorted → Sorted
with_local r s = record s { locals = r ∷ s.locals }

-- One round of the loop over the routes, by the disposition: `delivers_locally` is a local delivery
-- or a bridge.
unfoldable pub sort_by : Disposition → Bool → Route → Sorted → Sorted
unfolding sort_rejected sort_forwards
sort_by reject require_auth r s = sort_rejected require_auth r r.reason s
sort_by reply require_auth r s = record s { replies = r ∷ s.replies }
sort_by deliver_local require_auth r s = sort_forwards r r.forward_to (with_local r s)
sort_by alias_bridge require_auth r s = sort_forwards r r.forward_to (with_local r s)
sort_by alias_forward require_auth r s = sort_forwards r r.forward_to s

unfoldable pub sort_route : Bool → Route → Sorted → Sorted
unfolding sort_by
sort_route require_auth r s = sort_by r.disposition require_auth r s

unfoldable pub sort_routes : Bool → List Route → Sorted
unfolding sort_route
sort_routes require_auth [] = nothing_sorted
sort_routes require_auth (r ∷ rs) = sort_route require_auth r (sort_routes require_auth rs)
