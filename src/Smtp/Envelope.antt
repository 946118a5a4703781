-- ===== src/Smtp/Envelope.antt =====
-- The envelope commands of src/lightr/mail/smtp.py: EHLO, MAIL and RCPT. The `Session` of aiosmtpd
-- is its peer address and whether it is authenticated.
use lightr.Prelude.{
  ℕ, Text, leb, if◌then◌else◌, length, codes, Bool, ◌&&◌, not, Option, none, some, List, [], ◌∷◌,
  ◌++◌, decimal,
}
use lightr.RateLimit.{Limiter}
use lightr.RateLimit
use lightr.Routing.{reject, smtp_code, smtp_message, Route, World, route}
use lightr.Smtp.Answers.{Answer}

-- `Envelope` of aiosmtpd, with the fields that the handlers read and write.
pub record Envelope : Type 0 where
  pub mail_from : Option Text
  pub rcpt_tos : List Text

abbrev pub ok_250 : Answer
ok_250 = record { code = 250; status = []; message = codes "OK" }

-- `handle_EHLO`: the limiter behind it, and a refusal, or the responses as they were.
unfoldable pub handle_ehlo : ℕ → Text → Option Limiter → Option Limiter × Option Answer
unfolding RateLimit.allow
handle_ehlo now peer_ip none = (none, none)
handle_ehlo now peer_ip (some sessions) =
    let allowed = RateLimit.allow now peer_ip sessions in
    (
      some allowed.0,
      (if allowed.1
          then none
          else some (record {
            code = 421;
            status = codes "4.7.0";
            message = codes "Too many connections, please slow down";
          })),
    )

-- `handle_MAIL`
unfoldable pub handle_mail : Bool → Bool → Text → Envelope → Envelope × Answer
handle_mail require_auth authenticated address envelope =
    if require_auth && not authenticated
    then (
      envelope,
      record { code = 530; status = codes "5.7.0"; message = codes "Authentication required" },
    )
    else (record envelope { mail_from = some address }, ok_250)

unfoldable pub too_many : ℕ → Answer
unfolding decimal
too_many max_recipients = record {
  code = 452;
  status = codes "4.5.3";
  message = codes "Too many recipients (max " ++ (decimal max_recipients ++ codes ")");
}

-- The refusal of a recipient by its route; the assertion that a rejection has a reason is
-- `route-Promises`.
unfoldable pub refusal : Route → Option Answer
unfolding smtp_code smtp_message
refusal r = elim r.disposition [
  | reject ↦ elim r.reason [
    | none ↦ none
    | some reason ↦
        some (record {
          code = smtp_code reason;
          status = codes "5.1.1";
          message = smtp_message reason;
        })
  ]
  | _ ↦ none
]

abbrev pub append_rcpt : Text → Envelope → Option Answer → Envelope × Answer
append_rcpt address envelope none =
    (record envelope { rcpt_tos = envelope.rcpt_tos ++ address ∷ [] }, ok_250)
append_rcpt address envelope (some answer) = (envelope, answer)

-- `handle_RCPT`: the receive listener asks the router.
unfoldable pub handle_rcpt : Bool → ℕ → World → Text → Envelope → Envelope × Answer
unfolding refusal route too_many
handle_rcpt require_auth max_recipients w address envelope =
    if leb max_recipients (length envelope.rcpt_tos)
    then (envelope, too_many max_recipients)
    else append_rcpt address envelope (if require_auth then none else refusal (route w address))
