-- ===== src/Webhooks/Examples.antt =====
-- Runs of subscriptions and of the log, and their theorem at a concrete endpoint.
use lightr.Prelude.{
  codes, ◌≡◌, refl, true, false, none, some, [], ◌∷◌, map, All, Text, Option, List,
}
use lightr.Webhooks.{
  Webhook, Webhooks, Attempt, validate_events, event_name, record_attempt, list_for, delete_hook,
  Delivery,
}
use lightr.Directory.{Uuid}
use lightr.Webhooks.Sending.{Network, replied, Envelope, Request, emit}
use lightr.Webhooks.Requests.{IsSafe, emit-IsSafe}
use lightr.Webhooks.Endpoints.{HookRequest, Stored, stored, create_hook}

abbrev hook : Webhook
hook = record {
  id = 7;
  name = codes "crm";
  url = codes "https://crm.example/hook";
  secret = codes "s";
  events = codes "mail.sent" ∷ [];
  active = true;
  max_retries = 5;
  timeout = 30;
  organization_id = none;
  failure_count = 2;
  last_success = none;
  last_failure = none;
  updated_at = 0;
}

abbrev down : Attempt
down = record {
  ok = false;
  status_code = some 503;
  body = codes "busy";
  error = [];
  duration_ms = 12;
}

abbrev after_failure : Webhooks
after_failure =
    record_attempt 1 7 (codes "mail.sent") (codes "{}") down 100
      (record { hooks = hook ∷ []; deliveries = [] })

counted_failure : map (λ (w : Webhook). w.failure_count) after_failure.hooks ≡ 3 ∷ []
unfolding record_attempt
counted_failure = refl

logged_failure :
    map (λ (d : Delivery). d.next_retry) after_failure.deliveries ≡ some 30_000_100 ∷ []
unfolding record_attempt
logged_failure = refl

still_listed :
    map (λ (w : Webhook). w.id) (list_for (codes "mail.sent") (some 3) after_failure.hooks) ≡ 7 ∷ []
unfolding record_attempt list_for
still_listed = refl

deleted_log : (delete_hook 7 after_failure).deliveries ≡ []
unfolding record_attempt delete_hook
deleted_log = refl

misspelt : validate_events (codes "mail.send" ∷ []) ≡ none
unfolding validate_events event_name
misspelt = refl

-- A receiver that is busy, behind a public address.
abbrev network : Network
network = record {
  resolve = λ host port. codes "93.184.216.34" ∷ [];
  hmac = λ secret message. codes "c0ffee";
  post = λ r. replied 503 (codes "busy");
  refusal = λ url. codes "not allowed";
  elapsed_ms = λ r. 12;
}

abbrev one_hook : Webhooks
one_hook = record { hooks = hook ∷ []; deliveries = [] }

abbrev sent_at : Envelope
sent_at = record { timestamp = codes "1700000000"; body = codes "{}" }

abbrev numbered : List Webhook → List (Webhook × Uuid)
numbered = map (λ (w : Webhook). (w, 9))

one_request :
    map
      (λ (r : Request). r.signature)
      (emit network false (codes "mail.sent") (codes "{}") 100 sent_at numbered one_hook).1
    ≡ codes "sha256=c0ffee" ∷ []
unfolding emit
one_request = refl

emit-IsSafe_example :
    All
      (IsSafe network false)
      (emit network false (codes "mail.sent") (codes "{}") 100 sent_at numbered one_hook).1
emit-IsSafe_example =
    emit-IsSafe network false (codes "mail.sent") (codes "{}") 100 sent_at numbered one_hook

abbrev asked : HookRequest
asked = record {
  name = codes "crm";
  url = codes " https://crm.example/hook ";
  events = [];
  secret = some [];
  organization_id = none;
  timeout = 30;
  max_retries = 5;
  active = true;
}

abbrev made : Stored → Option (Text × Text)
made (stored w t) = some (w.url, w.secret)
made (Stored.refused e) = none

url_stripped :
    made (create_hook 7 (codes "random") 0 asked (record { hooks = []; deliveries = [] }))
    ≡ some (codes "https://crm.example/hook", codes "random")
unfolding create_hook
url_stripped = refl
