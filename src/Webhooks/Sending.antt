-- ===== src/Webhooks/Sending.antt =====
-- The attempt to deliver an event, and the emitter: `WebhookDeliverer` and `sign` of
-- src/lightr/webhooks/delivery.py, and src/lightr/webhooks/emitter.py.
use lightr.Prelude.{
  ℕ, ltb, leb, take, Text, codes, Bool, false, ◌&&◌, Option, none, some, List, [], ◌∷◌, ◌++◌,
}
use lightr.Directory.{Uuid}
use lightr.Ssrf.{vet, VettedTarget, Resolver, Checked, ssrf_error, value_error}
use lightr.Webhooks.{Webhook, Webhooks, Attempt, list_for, record_attempt}

-- A request that is sent: the address and the port it connects to, the `Host` header, the signature
-- with its time, and the body.
pub record Request : Type 0 where
  pub address : Text
  pub port : ℕ
  pub host : Text
  pub timestamp : Text
  pub signature : Text
  pub body : Text

-- What the receiver answers: a status and a text, or an error of the transport.
pub data Reply : Type 0 where
  replied : ℕ → Text → Reply
  transport_error : Text → Reply

-- What is outside: the resolver, the digest of `hmac` with SHA-256 in hexadecimal digits, the receiver,
-- the text of the refusal, and how long a request takes.
pub record Network : Type 0 where
  pub resolve : Resolver
  pub hmac : Text → Text → Text
  pub post : Request → Reply
  pub refusal : Text → Text
  pub elapsed_ms : Request → ℕ

-- `sign`
unfoldable pub sign : Network → Text → Text → Text → Text
sign n secret timestamp payload = codes "sha256=" ++ n.hmac secret (timestamp ++ (b'.' ∷ payload))

-- What is signed and sent of an event: the body, which is its JSON text, and the time.
pub record Envelope : Type 0 where
  pub timestamp : Text
  pub body : Text

unfoldable pub request_to : Network → Webhook → Envelope → VettedTarget → Request
unfolding sign
request_to n w e target = record {
  address = target.address;
  port = target.port;
  host = target.host;
  timestamp = e.timestamp;
  signature = sign n w.secret e.timestamp e.body;
  body = e.body;
}

unfoldable pub attempt_of : ℕ → Reply → Attempt
attempt_of elapsed (replied status text) = record {
  ok = leb 200 status && ltb status 300;
  status_code = some status;
  body = take 500 text;
  error = [];
  duration_ms = elapsed;
}
attempt_of elapsed (transport_error why) = record {
  ok = false;
  status_code = none;
  body = [];
  error = why;
  duration_ms = elapsed;
}

abbrev pub refused_attempt : Text → Attempt
refused_attempt why = record {
  ok = false;
  status_code = some 400;
  body = [];
  error = why;
  duration_ms = 0;
}

abbrev pub deliver_vetted :
    Network → Webhook → Envelope → Checked VettedTarget → Option (Attempt × List Request)
deliver_vetted n w e (Checked.ok target) =
    let request = request_to n w e target in
    some (attempt_of (n.elapsed_ms request) (n.post request), request ∷ [])
deliver_vetted n w e ssrf_error = some (refused_attempt (n.refusal w.url), [])
deliver_vetted n w e value_error = none

-- `WebhookDeliverer.deliver`: the attempt and the requests that it sent; `none` is the `ValueError` of
-- a URL that cannot be read, which is not caught.
unfoldable pub deliver : Network → Bool → Webhook → Envelope → Option (Attempt × List Request)
unfolding vet request_to attempt_of
deliver n allow_private w e = deliver_vetted n w e (vet n.resolve w.url allow_private)

-- One endpoint of `_deliver_one`: an exception of `deliver` leaves no record.
abbrev pub record_delivered :
    Webhook
    → Text
    → Text
    → ℕ
    → Uuid
    → Option (Attempt × List Request)
    → Webhooks
    → Webhooks × List Request
record_delivered w event payload now event_id none t = (t, [])
record_delivered w event payload now event_id (some (a, sent)) t =
    (record_attempt event_id w.id event payload a now t, sent)

-- The endpoints of one event, in the order in which they finish, each with the id of its row; every
-- record is a transaction of its own.
unfoldable pub deliver_each :
    Network
    → Bool
    → Text
    → Text
    → ℕ
    → Envelope
    → List (Webhook × Uuid)
    → Webhooks
    → Webhooks × List Request
unfolding deliver record_attempt
deliver_each n allow_private event payload now e [] t = (t, [])
deliver_each n allow_private event payload now e ((w, event_id) ∷ ws) t =
    let (t', sent) =
      record_delivered w event payload now event_id (deliver n allow_private w e) t in
    let (t'', more) = deliver_each n allow_private event payload now e ws t' in (t'', sent ++ more)

-- `Emitter._emit`: the order in which the endpoints finish, and the ids, are an argument.
unfoldable pub emit :
    Network
    → Bool
    → Text
    → Text
    → ℕ
    → Envelope
    → (List Webhook → List (Webhook × Uuid))
    → Webhooks
    → Webhooks × List Request
unfolding deliver_each list_for
emit n allow_private event payload now e order t =
    deliver_each n allow_private event payload now e (order (list_for event none t.hooks)) t
