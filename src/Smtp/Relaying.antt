-- ===== src/Smtp/Relaying.antt =====
-- Mail to a reply token, `_relay_replies` of src/lightr/mail/smtp.py. `none` is an exception.
use lightr.Prelude.{
  Text, if◌then◌else◌, is_empty, lower, strip, Bool, true, false, ◌&&◌, not, Option, none, some,
  List, [], ◌∷◌,
}
use lightr.Replies.{ReplyRoute}
use mathlib.Core.Option
use lightr.Replies
use lightr.Directory.{Directory, Domain, found, missing, resolve_domain}
use lightr.Routing.{RejectReason, no_such_mailbox}
use lightr.Smtp.Parts.{Server, Tables}
use lightr.Smtp.Outbound.{queue_mail, domain_of_id}

-- What `_relay_replies` adds to the outcome, and the local mailboxes.
pub record Relayed : Type 0 where
  pub tables : Tables
  pub forwarded : List Text
  pub rejected : List (Text × RejectReason)
  pub accepted : List Text
  pub locals : List Text

abbrev pub nothing_relayed : Tables → Relayed
nothing_relayed t = record { tables = t; forwarded = []; rejected = []; accepted = []; locals = [] }

-- A message that is not relayed: into the mailbox of a bridge, or taken and dropped.
unfoldable pub keep_reply : Text → ReplyRoute → Relayed → Relayed
keep_reply recipient answered k = elim answered.kind [
  | Replies.RouteKind.bridge ↦ elim answered.account_id [
    | some a ↦ record k { locals = answered.local_address ∷ k.locals }
    | none ↦ record k { accepted = recipient ∷ k.accepted }
  ]
  | Replies.RouteKind.forward ↦ record k { accepted = recipient ∷ k.accepted }
]

-- `reply.domain_id` or the address
unfoldable pub reply_domain : Directory → ReplyRoute → Option Domain
unfolding domain_of_id resolve_domain
reply_domain d answered = elim answered.domain_id [
  | some i ↦ domain_of_id i d
  | none ↦ elim (resolve_domain answered.local_address d.domains) [
    | found x ↦ some x
    | missing e ↦ none
  ]
]

-- The relay itself: the message cleaned, from the alias to the original sender.
unfoldable pub send_reply : Server → Text → ReplyRoute → Tables → Option Tables
unfolding reply_domain queue_mail
send_reply s message answered t = elim (reply_domain s.directory answered) [
  | none ↦ none
  | some domain ↦
      queue_mail s domain answered.local_address (answered.original_from ∷ [])
        (s.mime.clean_reply message answered) (some answered.local_address) t
]

abbrev pub is_reply_bridge : ReplyRoute → Bool
is_reply_bridge answered = elim answered.kind [
  | Replies.RouteKind.bridge ↦ true
  | Replies.RouteKind.forward ↦ false
]

-- What is done with one reply: a bounce and spam are kept, what no destination sent is refused.
pub data Verdict : Type 0 where
  keep refuse relay : Verdict

unfoldable pub reply_verdict : Server → Text → Text → Bool → ReplyRoute → Verdict
unfolding is_empty lower strip Replies.accepts_reply_from
reply_verdict s mail_from message is_spam answered =
    let sender = lower (strip mail_from) in
    if is_empty sender
    then keep
    else if not (
        is_reply_bridge answered
        && Replies.accepts_reply_from answered (sender ∷ s.mime.from_address message ∷ []))
    then refuse
    else if is_spam
    then keep
    else relay

-- One round of the loop, by its verdict: `sent` is what the relay would leave, `rest` the rounds
-- to come.
unfoldable pub relay_by :
    Verdict
    → Text
    → ReplyRoute
    → Option Tables
    → (Tables → Option Relayed)
    → Tables
    → Option Relayed
unfolding keep_reply
relay_by keep recipient answered sent rest t = Option.map (keep_reply recipient answered) (rest t)
relay_by refuse recipient answered sent rest t =
    Option.map (λ (k : Relayed). record k { rejected = (recipient, no_such_mailbox) ∷ k.rejected })
      (rest t)
relay_by relay recipient answered none rest t = none
relay_by relay recipient answered (some t') rest t =
    Option.map (λ (k : Relayed). record k { forwarded = answered.original_from ∷ k.forwarded })
      (rest t')

-- The loop of `_relay_replies`, over the routes that carry a reply.
unfoldable pub relay_replies :
    Server → Text → Text → Bool → List (Text × ReplyRoute) → Tables → Option Relayed
unfolding reply_verdict send_reply relay_by
relay_replies s mail_from message is_spam [] t = some (nothing_relayed t)
relay_replies s mail_from message is_spam ((recipient, answered) ∷ rs) t =
    relay_by (reply_verdict s mail_from message is_spam answered) recipient answered
      (send_reply s message answered t) (relay_replies s mail_from message is_spam rs) t
