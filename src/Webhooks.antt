-- ===== src/Webhooks.antt =====
-- Subscriptions to events and the log of their deliveries, src/lightr/webhooks/delivery.py. The
-- payload of a delivery is the JSON text that it is dumped to.
pub mod Subscriptions
pub mod Sending
pub mod Endpoints
pub mod Requests
mod Examples
use lightr.Prelude.{
  ℕ, ltb, leb, ◌==◌, if◌then◌else◌, take, select, update, delete, Text, codes, one_of, is_empty,
  zero, suc, ◌+◌, ◌-◌, ◌*◌, Bool, true, false, ◌&&◌, ◌||◌, not, Option, none, some, List, [], ◌∷◌,
  ◌++◌, map,
}
use lightr.Directory.{Uuid}
use lightr.Routing.{dedupe}

pub data Event : Type 0 where
  mail_received : Event
  mail_delivered : Event
  mail_rejected : Event
  mail_sent : Event
  mail_bounced : Event
  account_created : Event
  account_deleted : Event
  domain_verified : Event

-- `str(event)`
unfoldable pub event_name : Event → Text
event_name mail_received = codes "mail.received"
event_name mail_delivered = codes "mail.delivered"
event_name mail_rejected = codes "mail.rejected"
event_name mail_sent = codes "mail.sent"
event_name mail_bounced = codes "mail.bounced"
event_name account_created = codes "account.created"
event_name account_deleted = codes "account.deleted"
event_name domain_verified = codes "domain.verified"

abbrev pub every_event : Text
every_event = codes "*"

abbrev pub valid_events : List Text
valid_events =
    event_name mail_received
    ∷ event_name mail_delivered
    ∷ event_name mail_rejected
    ∷ event_name mail_sent
    ∷ event_name mail_bounced
    ∷ event_name account_created
    ∷ event_name account_deleted
    ∷ event_name domain_verified
    ∷ every_event
    ∷ []

pub data DeliveryStatus : Type 0 where
  pending : DeliveryStatus
  delivered : DeliveryStatus
  failed : DeliveryStatus
  deferred : DeliveryStatus

-- One attempt to deliver; no code is a failure of the transport.
pub record Attempt : Type 0 where
  pub ok : Bool
  pub status_code : Option ℕ
  pub body : Text
  pub error : Text
  pub duration_ms : ℕ

unfoldable pub retryable_code : Option ℕ → Bool
retryable_code none = true
retryable_code (some c) = if leb 200 c && ltb c 300 then false else leb 500 c || (c == 429)

-- `Attempt.retryable`
unfoldable pub retryable : Attempt → Bool
unfolding retryable_code
retryable a = retryable_code a.status_code

-- A row of `webhooks`, without `description`, `domain_filter` and `created_at`, which only the
-- creation and the change of an endpoint write.
pub record Webhook : Type 0 where
  pub id : Uuid
  pub name : Text
  pub url : Text
  pub secret : Text
  pub events : List Text
  pub active : Bool
  pub max_retries : ℕ
  pub timeout : ℕ
  pub organization_id : Option Uuid
  pub failure_count : ℕ
  pub last_success : Option ℕ
  pub last_failure : Option ℕ
  pub updated_at : ℕ

-- `not events`
abbrev pub no_events : List Text → Bool
no_events [] = true
no_events (e ∷ es) = false

unfoldable pub wants : Text → Webhook → Bool
unfolding one_of
wants event w =
    if not w.active
    then false
    else no_events w.events || one_of event w.events || one_of every_event w.events

-- The events that are not valid.
unfoldable pub unknown_events : List Text → List Text
unfolding delete one_of
unknown_events events = delete (λ e. one_of e valid_events) events

-- `none` is the error for an unknown event.
unfoldable pub validate_events : List Text → Option (List Text)
unfolding unknown_events dedupe
validate_events [] = some (every_event ∷ [])
validate_events (e ∷ es) =
    if no_events (unknown_events (e ∷ es)) then some (dedupe (e ∷ es)) else none

abbrev pub second : ℕ
second = 1_000_000

abbrev pub retry_delays : List ℕ
retry_delays = 30 * second ∷ 300 * second ∷ 1_800 * second ∷ 7_200 * second ∷ 43_200 * second ∷ []

-- The item at the index, or the last one: `items[min(i, len(items) - 1)]`.
unfoldable pub at_or_last : ℕ → List ℕ → ℕ
at_or_last i [] = 0
at_or_last i (x ∷ []) = x
at_or_last zero (x ∷ y ∷ xs) = x
at_or_last (suc i) (x ∷ y ∷ xs) = at_or_last i (y ∷ xs)

unfoldable pub next_retry_at : ℕ → ℕ → ℕ
unfolding at_or_last
next_retry_at attempts now = now + at_or_last (attempts - 1) retry_delays

pub record Delivery : Type 0 where
  pub id : Uuid
  pub webhook_id : Uuid
  pub event_type : Text
  pub payload : Text
  pub status : DeliveryStatus
  pub attempts : ℕ
  pub next_retry : Option ℕ
  pub response_code : Option ℕ
  pub response_body : Option Text
  pub error : Option Text
  pub created_at : ℕ
  pub delivered_at : Option ℕ
  pub duration_ms : ℕ

pub record Webhooks : Type 0 where
  pub hooks : List Webhook
  pub deliveries : List Delivery

-- `text or None`
abbrev or_none : Text → Option Text
or_none t = if is_empty t then none else some t

unfoldable pub logged : Uuid → Uuid → Text → Text → Attempt → ℕ → Delivery
unfolding retryable next_retry_at
logged event_id webhook_id event payload a now = record {
  id = event_id;
  webhook_id = webhook_id;
  event_type = event;
  payload = take 10_000 payload;
  status = if a.ok then delivered else if retryable a then deferred else failed;
  attempts = 1;
  next_retry = if a.ok then none else some (next_retry_at 1 now);
  response_code = a.status_code;
  response_body = or_none a.body;
  error = or_none a.error;
  created_at = now;
  delivered_at = if a.ok then some now else none;
  duration_ms = a.duration_ms;
}

unfoldable pub counted : Bool → ℕ → Webhook → Webhook
counted true now w = record w { last_success = some now; failure_count = 0; updated_at = now }
counted false now w = record w {
  last_failure = some now;
  failure_count = w.failure_count + 1;
  updated_at = now;
}

-- `WebhookRepo.record`: the new id of the row is an argument.
unfoldable pub record_attempt : Uuid → Uuid → Text → Text → Attempt → ℕ → Webhooks → Webhooks
unfolding logged counted update
record_attempt event_id webhook_id event payload a now t = record {
  hooks = update (λ w. w.id == webhook_id) (counted a.ok now) t.hooks;
  deliveries = t.deliveries ++ (logged event_id webhook_id event payload a now ∷ []);
}

-- `WebhookRepo.delete`
unfoldable pub delete_hook : Uuid → Webhooks → Webhooks
unfolding delete
delete_hook webhook_id t = record {
  hooks = delete (λ (w : Webhook). w.id == webhook_id) t.hooks;
  deliveries = delete (λ (d : Delivery). d.webhook_id == webhook_id) t.deliveries;
}

-- The organization's own endpoints and the ones of no organization.
unfoldable pub in_scope : Option Uuid → Webhook → Bool
in_scope none w = true
in_scope (some org) w = elim w.organization_id [ none ↦ true | some o ↦ o == org ]

-- `number or default`
unfoldable pub or_default : ℕ → ℕ → ℕ
or_default default zero = default
or_default default (suc n) = suc n

-- `_to_model`
unfoldable pub read_hook : Webhook → Webhook
unfolding or_default
read_hook w = record w {
  max_retries = or_default 5 w.max_retries;
  timeout = or_default 30 w.timeout;
}

unfoldable pub list_for : Text → Option Uuid → List Webhook → List Webhook
unfolding wants in_scope select read_hook
list_for event org hooks =
    select (wants event)
      (map read_hook (select (λ (w : Webhook). w.active && in_scope org w) hooks))
