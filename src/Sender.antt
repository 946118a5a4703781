-- ===== src/Sender.antt =====
-- Draining the outbound queue, src/lightr/mail/sender.py. DNS, the remote servers, the package
-- `dkimpy` and the composition of a message from its parts are parameters. A send returns the
-- mails that remote servers took, for some recipient or all, in order, beside its result. The text of a lookup's
-- exception is left out of the detail that names the missing domain.
mod Groups
pub mod Direct
pub mod Attempts
pub mod Rounds
mod Examples
use lightr.Prelude.{
  ℕ, ltb, leb, ◌==◌, if◌then◌else◌, length, first, order_by, Text, codes, text_eq, is_empty, lower,
  rstrip_by, cut, ends_with, join, suc, Bool, true, false, ◌&&◌, ◌||◌, Option, none, some, List, [],
  ◌∷◌, ◌++◌, map, decimal,
}
use lightr.Directory.{Domain}
use lightr.Dkim.{sign_or_warn}
use lightr.Relay.{Settings, connection, is_set}
use lightr.Queue
use lightr.Queue.{
  Uuid, Time, Message, Table, Status, Result, sender, text_or, claim, mark_sent, mark_failed, sent,
}

-- An exception of the mail library: its `code`, if it has a number there, and its text.
pub record Failure : Type 0 where
  pub code : Option ℕ
  pub detail : Text

-- One call of `aiosmtplib.send`.
pub record Mail : Type 0 where
  pub payload : Text
  pub envelope_from : Text
  pub recipients : List Text
  pub hostname : Text
  pub port : ℕ
  pub local_hostname : Text

-- The outside world at the time of one attempt.
pub record World : Type 0 where
  -- `dns.asyncresolver.resolve(domain, "MX")`: preferences and hosts, `none` where it raises
  pub resolve_mx : Text → Option (List (ℕ × Text))
  -- `aiosmtplib.send`: what it raises, `none` where it returns
  pub deliver : Mail → Option Failure
  -- the recipients that the server refuses in a send that returns, since it took the mail for
  -- others: they are the value of `send`, which the source does not read
  pub refuses : Mail → Text → Bool
  pub deliver_relay : Settings → Mail → Option Failure
  -- `EmailMessage` with From, To, Subject and a body, as bytes
  pub compose_parts : Text → Text → Text → Text → Text
  pub dkimpy_sign : Text → Text → Text → Text → List Text → Option Text

-- The settings that the sender reads.
pub record Config : Type 0 where
  pub domain_certs : List Text
  pub hostname : Text

pub record SendResult : Type 0 where
  pub success : Bool
  pub code : ℕ
  pub detail : Text

abbrev pub Sent : Type 0
Sent = SendResult × List Mail

-- What attempts leave behind.
pub record Drained : Type 0 where
  pub table : Table
  pub mails : List Mail
  pub raised : Bool

abbrev pub transient_code : ℕ
transient_code = 451

abbrev pub accepted : SendResult
accepted = record { success = true; code = 250; detail = [] }

abbrev pub failure : ℕ → Text → SendResult
failure code detail = record { success = false; code = code; detail = detail }

-- `_code_from`
unfoldable pub code_from : Failure → ℕ
code_from e = elim e.code [
  | none ↦ transient_code
  | some c ↦ if leb 200 c && ltb c 600 then c else transient_code
]

-- The host under the sending domain that this server holds a certificate for.
first_cert : Text → List Text → Option Text
unfolding rstrip_by lower text_eq ends_with
first_cert name [] = none
first_cert name (host ∷ hosts) =
    let rest = first_cert name hosts in
    let candidate = rstrip_by (λ c. c == b'.') (lower host) in
    if text_eq candidate name || ends_with (b'.' ∷ name) candidate then some candidate else rest

unfoldable pub helo_name : Config → Domain → Text
unfolding first_cert is_empty rstrip_by lower
helo_name cfg d =
    let name = rstrip_by (λ c. c == b'.') (lower d.name) in
    if is_empty name
    then cfg.hostname
    else elim (first_cert name cfg.domain_certs) [ none ↦ cfg.hostname | some host ↦ host ]

-- Behind the loop over the hosts of one domain: return its exception, or go on with the others.
unfoldable pub after_hosts : Text → Option Failure × List Mail → Sent → Sent
unfolding code_from
after_hosts name (some e, mails) rest =
    (failure (code_from e) (name ++ (codes ": " ++ e.detail)), mails)
after_hosts name (none, mails) rest = (rest.0, mails ++ rest.1)

-- `dict.setdefault(domain, []).append(recipient)`, the keys in the order of insertion.
unfoldable pub group_add : Text → Text → List (Text × List Text) → List (Text × List Text)
unfolding text_eq
group_add name recipient [] = (name, recipient ∷ []) ∷ []
group_add name recipient ((n, rs) ∷ groups) =
    if text_eq n name
    then (n, rs ++ recipient ∷ []) ∷ groups
    else (n, rs) ∷ group_add name recipient groups

-- The loop over the recipients: those without an `@` are passed over.
unfoldable pub group_by_domain : List Text → List (Text × List Text) → List (Text × List Text)
unfolding group_add cut lower
group_by_domain [] groups = groups
group_by_domain (r ∷ rs) groups =
    group_by_domain rs
      (elim (cut b'@' r) [ none ↦ groups | some (l, d) ↦ group_add (lower d) r groups ])

pub after_failure : Table → List Mail → Result (Table × Status) → Drained
after_failure t mails (Queue.err e) = record { table = t; mails = mails; raised = true }
after_failure t mails (Queue.ok (t', outcome)) = record {
  table = t';
  mails = mails;
  raised = false;
}

-- The part of `_attempt` behind the send. The flag says whether `mark_failed` raised; what was
-- accepted before stays accepted.
unfoldable pub record_result : Sent → Time → Uuid → Table → Drained
unfolding mark_sent mark_failed after_failure
record_result result now i t =
    if result.0.success
    then record { table = mark_sent now i t; mails = result.1; raised = false }
    else after_failure t result.1 (mark_failed now i result.0.code result.0.detail t)

module _ (w : World) where
  unfoldable pub mx_hosts : Text → List Text
  unfolding order_by rstrip_by
  mx_hosts domain = elim (w.resolve_mx domain) [
    | none ↦ []
    | some answers ↦
        map (λ a. rstrip_by (λ c. c == b'.') a.1) (order_by (λ (a : ℕ × Text). a.0) answers)
  ]

  -- The loop over the hosts of one domain: the last exception, if none accepted, and the mail
  -- that was accepted.
  unfoldable pub try_hosts : (Text → Mail) → List Text → Option Failure → Option Failure × List Mail
  try_hosts mail [] last = (last, [])
  try_hosts mail (host ∷ hosts) last = elim (w.deliver (mail host)) [
    | none ↦ (none, mail host ∷ [])
    | some e ↦ try_hosts mail hosts (some e)
  ]

  abbrev pub mail_to : Message → Text → Text → List Text → Text → Mail
  mail_to m payload helo recipients host = record {
    payload = payload;
    envelope_from = sender m;
    recipients = recipients;
    hostname = host;
    port = 25;
    local_hostname = helo;
  }

  -- The loop over the domains: it returns at the first that fails.
  unfoldable pub send_groups : Message → Text → Text → List (Text × List Text) → Sent
  unfolding mx_hosts try_hosts after_hosts
  send_groups m payload helo [] = (accepted, [])
  send_groups m payload helo ((name, recipients) ∷ groups) = elim (mx_hosts name) [
    | [] ↦ (failure transient_code (codes "no MX for " ++ name), [])
    | host ∷ hosts ↦
        let tried = try_hosts (mail_to m payload helo recipients) (host ∷ hosts) none in
        let rest = send_groups m payload helo groups in after_hosts name tried rest
  ]

  unfoldable pub send_direct : Message → Text → Text → Sent
  unfolding group_by_domain send_groups
  send_direct m payload helo = elim (group_by_domain m.to_addrs []) [
    | [] ↦ (failure 550 (codes "no deliverable recipients"), [])
    | g ∷ gs ↦ send_groups m payload helo (g ∷ gs)
  ]

  unfoldable pub send_via_relay : Message → Domain → Text → Text → Sent
  unfolding connection code_from decimal
  send_via_relay m d payload helo =
      let settings = connection d in
      let mail : Mail = record {
        payload = payload;
        envelope_from = sender m;
        recipients = m.to_addrs;
        hostname = settings.hostname;
        port = settings.port;
        local_hostname = helo;
      } in
      elim (w.deliver_relay settings mail) [
        | some e ↦ (
          failure (code_from e) (
              codes "relay "
              ++ (settings.hostname
                  ++ (codes ":" ++ (decimal settings.port ++ (codes ": " ++ e.detail))))),
          [],
        )
        | none ↦ (accepted, mail ∷ [])
      ]

  -- `_compose`: a message queued whole is sent whole; both are signed where there is a key.
  unfoldable pub compose : Message → Domain → Text
  unfolding text_or is_empty join sign_or_warn
  compose m d =
      let parts = w.compose_parts m.from_addr (join (codes ", ") m.to_addrs) m.subject m.body in
      let raw = text_or m.raw parts in
      elim d.dkim_private_key [
        | none ↦ raw
        | some key ↦
            if is_empty key
            then raw
            else sign_or_warn w.dkimpy_sign raw d.name (text_or d.dkim_selector (codes "default"))
                key
      ]

  -- `send`: the domain is looked up by its id.
  unfoldable pub send : Config → List Domain → Message → Sent
  unfolding first compose helo_name send_via_relay send_direct is_set
  send cfg domains m = elim (first (λ d. d.id == m.domain_id) domains) [
    | none ↦ (failure 550 (codes "unknown sending domain"), [])
    | some d ↦
        let payload = compose m d in
        let helo = helo_name cfg d in
        if d.relay_enabled && is_set d.relay_host
        then send_via_relay m d payload helo
        else send_direct m payload helo
  ]

  -- `_attempt`: send, and record the result in the queue.
  unfoldable pub attempt : Config → List Domain → Time → Message → Table → Drained
  unfolding send record_result
  attempt cfg domains now m t = record_result (send cfg domains m) now m.id t

-- The loop of `drain_once` over the claimed messages, which an exception ends; the world may
-- change between attempts.
unfoldable pub attempt_each :
    (ℕ → World) → Config → List Domain → Time → List Message → Table → Drained
unfolding attempt
attempt_each worlds cfg domains now [] t = record { table = t; mails = []; raised = false }
attempt_each worlds cfg domains now (m ∷ ms) t =
    let one = attempt (worlds 0) cfg domains now m t in
    let rest = attempt_each (λ k. worlds (suc k)) cfg domains now ms one.table in
    if one.raised then one else record rest { mails = one.mails ++ rest.mails }

-- `drain_once`, and how many messages were claimed.
unfoldable pub drain_once : (ℕ → World) → Config → List Domain → Time → ℕ → Table → Drained × ℕ
unfolding claim attempt_each
drain_once worlds cfg domains now limit t =
    let claimed = claim now limit t in
    (attempt_each worlds cfg domains now claimed.1 claimed.0, length claimed.1)
