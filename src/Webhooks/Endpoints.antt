-- ===== src/Webhooks/Endpoints.antt =====
-- The table of endpoints: the creation and the change of one, by `WebhookRepo` of
-- src/lightr/webhooks/delivery.py.
use lightr.Prelude.{
  ℕ, ◌==◌, if◌then◌else◌, update, Text, strip, Bool, true, false, Option, none, some, List, [], ◌∷◌,
  ◌++◌,
}
use mathlib.Core.Option
use lightr.Directory.{Uuid}
use lightr.Ssrf.{check_url, CheckedUrl, Checked, ok, ssrf_error, value_error}
use lightr.Webhooks.{Webhook, Webhooks, validate_events}

-- The arguments of `create`, with their defaults filled in.
pub record HookRequest : Type 0 where
  pub name : Text
  pub url : Text
  pub events : List Text
  pub secret : Option Text
  pub organization_id : Option Uuid
  pub timeout : ℕ
  pub max_retries : ℕ
  pub active : Bool

-- The errors of `create` and `update`: a URL that is refused or cannot be read, an unknown event.
pub data HookError : Type 0 where
  bad_url bad_events : HookError

pub data Stored : Type 0 where
  stored : Webhook → Webhooks → Stored
  refused : HookError → Stored

-- `secret or secrets.token_urlsafe(32)`
abbrev pub secret_or : Text → Option Text → Text
secret_or token none = token
secret_or token (some []) = token
secret_or token (some (c ∷ s)) = c ∷ s

unfoldable pub new_hook : Uuid → Text → ℕ → HookRequest → List Text → Webhook
unfolding strip
new_hook i token now q chosen = record {
  id = i;
  name = q.name;
  url = strip q.url;
  secret = secret_or token q.secret;
  events = chosen;
  active = q.active;
  max_retries = q.max_retries;
  timeout = q.timeout;
  organization_id = q.organization_id;
  failure_count = 0;
  last_success = none;
  last_failure = none;
  updated_at = now;
}

abbrev pub create_checked :
    Uuid → Text → ℕ → HookRequest → Webhooks → Checked CheckedUrl → Option (List Text) → Stored
create_checked i token now q t ssrf_error chosen = refused bad_url
create_checked i token now q t value_error chosen = refused bad_url
create_checked i token now q t (ok c) none = refused bad_events
create_checked i token now q t (ok c) (some chosen) =
    stored (new_hook i token now q chosen)
      (record t { hooks = t.hooks ++ (new_hook i token now q chosen ∷ []) })

-- `WebhookRepo.create`: the id and the random secret are arguments.
unfoldable pub create_hook : Uuid → Text → ℕ → HookRequest → Webhooks → Stored
unfolding check_url validate_events new_hook
create_hook i token now q t =
    create_checked i token now q t (check_url q.url) (validate_events q.events)

-- The values of `update`; `none` is a value that is not given.
pub record HookChange : Type 0 where
  pub name : Option Text
  pub url : Option Text
  pub secret : Option Text
  pub events : Option (List Text)
  pub max_retries : Option ℕ
  pub timeout : Option ℕ
  pub active : Option Bool

abbrev given {ℓ} : {A : Type ℓ} → A → Option A → A
given old none = old
given old (some new) = new

unfoldable pub change_hook : ℕ → HookChange → Option (List Text) → Webhook → Webhook
change_hook now c chosen w = record w {
  name = given w.name c.name;
  url = given w.url c.url;
  secret = given w.secret c.secret;
  events = given w.events chosen;
  max_retries = given w.max_retries c.max_retries;
  timeout = given w.timeout c.timeout;
  active = given w.active c.active;
  updated_at = now;
}

-- `if values.get("url"): check_url(values["url"])`: an empty URL is not checked.
unfoldable pub url_taken : Option Text → Bool
unfolding check_url
url_taken none = true
url_taken (some []) = true
url_taken (some (c ∷ s)) = elim (check_url (c ∷ s)) [
  | ok u ↦ true
  | ssrf_error ↦ false
  | value_error ↦ false
]

-- The events to store, if some are given; the inner `none` is the error for an unknown one.
abbrev pub chosen_events : Option (List Text) → Option (Option (List Text))
unfolding validate_events
chosen_events none = some none
chosen_events (some es) = Option.map (λ (vs : List Text). some vs) (validate_events es)

abbrev pub update_checked :
    Uuid → ℕ → HookChange → Webhooks → Option (Option (List Text)) → Option Webhooks
unfolding update change_hook
update_checked i now c t none = none
update_checked i now c t (some chosen) =
    some
      (record t { hooks = update (λ (w : Webhook). w.id == i) (change_hook now c chosen) t.hooks })

-- `WebhookRepo.update` of some values; `none` is its `ValueError`.
unfoldable pub update_hook : Uuid → ℕ → HookChange → Webhooks → Option Webhooks
unfolding url_taken chosen_events update_checked
update_hook i now c t =
    if url_taken c.url then update_checked i now c t (chosen_events c.events) else none

abbrev no_change : HookChange
no_change = record {
  name = none;
  url = none;
  secret = none;
  events = none;
  max_retries = none;
  timeout = none;
  active = none;
}

-- `WebhookRepo.rotate_secret`
unfoldable pub rotate_secret : Uuid → Text → ℕ → Webhooks → Option Webhooks
unfolding update_hook
rotate_secret i token now t = update_hook i now (record no_change { secret = some token }) t
