-- ===== src/Smtp/Delivery.antt =====
-- `deliver` and `handle_DATA` of src/lightr/mail/smtp.py.
use lightr.Prelude.{
  if◌then◌else◌, none, List, [], ◌∷◌, ltb, leb, ◌==◌, length, Text, codes, is_empty, lower,
  contains_char, decimal, ℕ, Bool, true, ◌&&◌, not, Option, some, ◌++◌, map,
}
use lightr.Replies.{ReplyRoute}
use lightr.Smtp.Relaying.{relay_replies, Relayed}
use lightr.Smtp.Submission.{may_send}
use lightr.Smtp.Outbound.{locals_of, enqueue_outbound, forward_all, address_of}
use lightr.Routing.{Route, route_all, dedupe, delivered}
use lightr.Sender.{group_add}
use lightr.Smtp.Answers.{no_outcome, Outcome, Answer, smtp_response}
use lightr.Directory.{resolve_domain, Directory, SpamPolicy, found, missing, Domain}
use lightr.Bounce
use lightr.Smtp.Parts.{
  stored, lmtp_error, raised, Server, Mime, Tables, world_of, Sorted, sort_routes,
}

-- `_owner_of`: the only domain, if there is just one.
unfoldable pub owner_of : List Domain → Option Domain
owner_of (d ∷ []) = some d
owner_of _ = none

-- One round of `record_bounces`: without an owner the bounce is not logged.
unfoldable pub record_one : Option Domain → ℕ → Bounce.Bounce → Bounce.Store → Bounce.Store
unfolding Bounce.record_bounce Bounce.suppress Bounce.should_suppress
record_one (some d) now b st = (Bounce.record_bounce b d.org_id d.id now st).0
record_one none now b st =
    if Bounce.should_suppress b.bounce_type
    then Bounce.suppress b.recipient (Bounce.type_name b.bounce_type) none now st
    else st

-- `record_bounces`
unfoldable pub record_bounces : Server → List Bounce.Bounce → Bounce.Store → Bounce.Store
unfolding record_one owner_of
record_bounces s [] st = st
record_bounces s (b ∷ bs) st =
    record_bounces s bs (record_one (owner_of s.directory.domains) s.now b st)

abbrev pub max_hops : ℕ
max_hops = 30

-- `rsplit("@", 1)[-1]`
unfoldable pub behind_last_at : Text → Text
behind_last_at [] = []
behind_last_at (c ∷ m) =
    if contains_char b'@' m then behind_last_at m else if c == b'@' then m else c ∷ m

-- What a domain does with spam: a mark for the server-wide script, nothing for `tag`.
unfoldable pub spam_action : Directory → Text → Text
unfolding behind_last_at resolve_domain lower
spam_action d mailbox = elim (resolve_domain (lower (behind_last_at mailbox)) d.domains) [
  | missing e ↦ codes "junk"
  | found domain ↦ elim domain.spam_policy [ SpamPolicy.tag ↦ [] | _ ↦ codes "junk" ]
]

abbrev pub spam_groups : Directory → List Text → List (Text × List Text) → List (Text × List Text)
spam_groups d [] groups = groups
spam_groups d (m ∷ ms) groups = spam_groups d ms (group_add (spam_action d m) m groups)

-- `_spam_actions`
unfoldable pub spam_actions : Directory → Bool → List Text → List (Text × List Text)
unfolding group_add spam_action
spam_actions d is_spam mailboxes =
    if is_spam then spam_groups d mailboxes [] else ([], mailboxes) ∷ []

-- The loop over the groups: one transaction with the mail store each. Only an `LMTPError` is caught.
unfoldable pub store_groups :
    Server → Text → Text → List (Text × List Text) → Outcome → Option Outcome
store_groups s mail_from message [] o = some o
store_groups s mail_from message ((action, mailboxes) ∷ gs) o =
    elim (s.lmtp mail_from mailboxes action message) [
      | raised ↦ none
      | lmtp_error ↦ some (record o { error = some (codes "Mail store temporarily unavailable") })
      | stored delivered ↦
          store_groups s mail_from message gs (record o { delivered = o.delivered ++ delivered })
    ]

abbrev pub recipients_of : List Route → List Text
recipients_of rs = map (λ r. r.recipient) rs

abbrev pub forward_targets : List Route → List Text
forward_targets [] = []
forward_targets (r ∷ rs) = r.forward_to ++ forward_targets rs

-- `targets`
unfoldable pub targets : Sorted → List Text
targets z =
    map address_of z.locals
    ++ (forward_targets z.forwards ++ (z.outbound ++ recipients_of z.replies))

unfoldable pub stamped : Mime → Text → List Text → Text
stamped mime message [] = message
stamped mime message (x ∷ xs) = mime.stamp x message

-- The mailboxes of the local routes that name one.
unfoldable pub mailboxes_of : List Route → List Text
mailboxes_of [] = []
mailboxes_of (r ∷ rs) =
    let rest = mailboxes_of rs in
    elim r.mailbox [ none ↦ rest | some [] ↦ rest | some (c ∷ m) ↦ (c ∷ m) ∷ rest ]

-- The replies with their stored routes.
unfoldable pub reply_pairs : List Route → List (Text × ReplyRoute)
reply_pairs [] = []
reply_pairs (r ∷ rs) =
    let rest = reply_pairs rs in
    elim r.reply_route [ none ↦ rest | some a ↦ (r.recipient, a) ∷ rest ]

-- A delivery: the tables it leaves, and its outcome, or `none` where it raises.
abbrev pub Delivered : Type 0
Delivered = Tables × Option Outcome

-- The hand-over to the mail store, if there is anything to hand over.
unfoldable pub store :
    Server → Text → Text → Bool → List Route → List Text → Tables → Outcome → Delivered
unfolding store_groups spam_actions dedupe mailboxes_of
store s mail_from message is_spam [] [] t o = (t, some o)
store s mail_from message is_spam locals extra t o = (
  t,
  store_groups s mail_from message
      (spam_actions s.directory is_spam (dedupe (mailboxes_of locals ++ extra))) o,
)

-- The replies, behind the forwards.
unfoldable pub deliver_relayed :
    Server → Text → Text → Bool → Sorted → List Text → Tables → Outcome → Option Relayed → Delivered
unfolding store
deliver_relayed s mail_from message is_spam z extra t o none = (t, none)
deliver_relayed s mail_from message is_spam z extra t o (some k) =
    store s mail_from message is_spam z.locals (extra ++ k.locals) k.tables (record o {
      forwarded = o.forwarded ++ k.forwarded;
      rejected = o.rejected ++ k.rejected;
      accepted = o.accepted ++ k.accepted;
    })

unfoldable pub deliver_replies :
    Server → Text → Text → Bool → Sorted → List Text → Tables → Outcome → Delivered
unfolding relay_replies reply_pairs deliver_relayed
deliver_replies s mail_from message is_spam z extra t o =
    deliver_relayed s mail_from message is_spam z extra t o
      (relay_replies s mail_from message is_spam (reply_pairs z.replies) t)

-- The forwards, behind the outbound mail.
unfoldable pub deliver_forwarded :
    Server
    → Text
    → Text
    → Bool
    → Sorted
    → Tables
    → Outcome
    → Option (Tables × List Text)
    → Delivered
unfolding locals_of deliver_replies
deliver_forwarded s mail_from message is_spam z t o none = (t, none)
deliver_forwarded s mail_from message is_spam z t o (some r) =
    deliver_replies s mail_from message is_spam z (locals_of s.directory z.forwards) r.0
      (record o { forwarded = o.forwarded ++ r.1 })

unfoldable pub deliver_forwards :
    Server → Text → Text → Bool → Sorted → Tables → Outcome → Delivered
unfolding forward_all deliver_forwarded
deliver_forwards s mail_from message is_spam z t o =
    deliver_forwarded s mail_from message is_spam z t o
      (forward_all s mail_from message is_spam z.forwards t)

-- The outcome of the outbound mail and the tables behind it: a sender who is not of this server is
-- an error, and the rest of the delivery goes on.
unfoldable pub deliver_outbound : List Text → Option Tables → Tables → Outcome → Tables × Outcome
deliver_outbound outbound none t o = (
  t,
  record o {
    error = some (codes "Cannot send as that address from this server");
    permanent = true;
  },
)
deliver_outbound outbound (some t') t o = (t', record o { forwarded = o.forwarded ++ outbound })

-- `deliver` behind the stamps.
unfoldable pub deliver_sorted :
    Server → Text → Text → Bool → Sorted → List Text → Tables → Outcome → Delivered
unfolding enqueue_outbound deliver_outbound deliver_forwards
deliver_sorted s mail_from message is_spam z [] t o =
    deliver_forwards s mail_from message is_spam z t o
deliver_sorted s mail_from message is_spam z (x ∷ xs) t o =
    let sent = deliver_outbound (x ∷ xs) (enqueue_outbound s mail_from (x ∷ xs) message t) t o in
    deliver_forwards s mail_from message is_spam z sent.0 sent.1

abbrev pub failed_for_good : Text → Outcome
failed_for_good error = record no_outcome { error = some error; permanent = true }

-- `deliver` behind the checks: the routes, the stamps and the rest.
unfoldable pub deliver_routed : Server → Text → List Text → Text → Bool → Tables → Delivered
unfolding route_all sort_routes targets stamped deliver_sorted
deliver_routed s mail_from recipients message is_spam t =
    let z = sort_routes s.require_auth (route_all (world_of s t) recipients) in
    deliver_sorted s mail_from (stamped s.mime message (targets z)) is_spam z z.outbound t
      (record no_outcome { rejected = z.rejected })

-- `deliver` behind the check of the login. `is_spam` is what the scorers say, for mail that did
-- not come by submission.
unfoldable pub deliver_checked : Server → Text → List Text → Text → Bool → Tables → Delivered
unfolding record_bounces deliver_routed
deliver_checked s mail_from recipients message is_spam t =
    let t' =
      if is_empty mail_from
      then record t { bounces = record_bounces s (s.mime.parse_bounces message) t.bounces }
      else t in
    if leb max_hops (s.mime.received_count message)
    then (t', some (failed_for_good (codes "Too many hops, possible mail loop")))
    else deliver_routed s mail_from recipients message (not s.require_auth && is_spam) t'

-- The check of the login, and the delivery if there is no refusal.
unfoldable pub deliver_allowed :
    Server → Text → List Text → Text → Bool → Tables → Option Text → Delivered
unfolding deliver_checked
deliver_allowed s mail_from recipients message is_spam t (some refused) =
    (t, some (failed_for_good refused))
deliver_allowed s mail_from recipients message is_spam t none =
    deliver_checked s mail_from recipients message is_spam t

-- `deliver`, with the login of a submission
unfoldable pub deliver : Server → Option Text → Text → List Text → Text → Bool → Tables → Delivered
unfolding may_send deliver_checked deliver_allowed
deliver s none mail_from recipients message is_spam t =
    deliver_checked s mail_from recipients message is_spam t
deliver s (some login) mail_from recipients message is_spam t =
    deliver_allowed s mail_from recipients message is_spam t (may_send s.directory login mail_from)

-- An exception is answered as a temporary failure.
unfoldable pub answer_delivered : Delivered → Tables × Answer
unfolding smtp_response
answer_delivered (t, none) = (
  t,
  record { code = 451; status = codes "4.3.0"; message = codes "Temporary failure, please retry" },
)
answer_delivered (t, some o) = (t, smtp_response o)

-- `handle_DATA` behind the limiter of messages.
unfoldable pub handle_data :
    Server → Option Text → Text → List Text → Text → Bool → Tables → Tables × Answer
unfolding decimal deliver answer_delivered
handle_data s login mail_from recipients raw is_spam t =
    if ltb s.max_message_bytes (length raw)
    then (
      t,
      record {
        code = 552;
        status = codes "5.3.4";
        message =
            codes "Message too large (max " ++ (decimal s.max_message_bytes ++ codes " bytes)");
      },
    )
    else answer_delivered (deliver s login mail_from recipients raw is_spam t)
