-- ===== src/Auth/Providers.antt =====
-- The stored authentication providers, which of them answer for a domain, and what they say:
-- src/lightr/authproviders/registry.py. A provider is asked over the network, and its answer is a
-- parameter. `none` is a `ProviderConfigError`, or the `ValueError` of a timeout that is no number.
use lightr.Prelude.{
  ℕ, ◌==◌, if◌then◌else◌, select, first, order_by, Text, codes, one_of, lower, Bool, ◌&&◌, Option,
  none, some, List, [], ◌∷◌, ◌++◌, map,
}
use mathlib.Core.Option
use lightr.Directory.{Uuid, Domain}

pub record ProviderRecord : Type 0 where
  pub id : Uuid
  pub org_id : Option Uuid
  pub name : Text
  pub kind : Text
  pub enabled : Bool
  pub priority : ℕ
  pub config : Text
  pub domains : List Text
  pub is_default : Bool
  pub auto_provision : Bool
  pub sync_groups : Bool

-- A provider that can be asked: a stored one, or the webhook of a domain with its name, its URL and
-- its secret.
pub data Provider : Type 0 where
  stored : ProviderRecord → Provider
  domain_webhook : Text → Text → Text → Provider

abbrev pub provider_name : Provider → Text
provider_name (stored r) = r.name
provider_name (domain_webhook name url secret) = name ++ codes " (domain webhook)"

-- What a provider answers: whose the credentials are, that they are not good, or why it cannot tell.
pub data Answer : Type 0 where
  accepted : Text → Answer
  refused : Answer
  failed : Text → Answer

-- What is asked outside: a provider, `bcrypt`, and whether a configuration's timeout is a number.
pub record Outside : Type 0 where
  pub ask : Provider → Text → Text → Answer
  pub check_password : Text → Text → Bool
  pub timeout_reads : Text → Bool

abbrev pub kinds : List Text
kinds = codes "ldap" ∷ codes "oidc" ∷ codes "oauth2" ∷ codes "webhook" ∷ []

unfoldable pub covers : Text → ProviderRecord → Bool
unfolding lower one_of
covers domain r = one_of (lower domain) (map lower r.domains)

-- `ProviderRecord.build`
unfoldable pub build : Outside → ProviderRecord → Option Provider
unfolding one_of
build o r = if one_of r.kind kinds && o.timeout_reads r.config then some (stored r) else none

abbrev pub with_built : Option Provider → Option (List Provider) → Option (List Provider)
with_built none rest = none
with_built (some p) rest = Option.map (λ (ps : List Provider). p ∷ ps) rest

unfoldable pub build_each : Outside → List ProviderRecord → Option (List Provider)
unfolding build
build_each o [] = some []
build_each o (r ∷ rs) = with_built (build o r) (build_each o rs)

abbrev or_defaults : List ProviderRecord → List ProviderRecord → List ProviderRecord
or_defaults [] all = select (λ (r : ProviderRecord). r.is_default) all
or_defaults (r ∷ rs) all = r ∷ rs

-- `AuthProviderRepo.for_domain`
unfoldable pub for_domain : Text → List ProviderRecord → List ProviderRecord
unfolding select order_by covers
for_domain domain t =
    let records =
      order_by (λ (r : ProviderRecord). r.priority)
        (select (λ (r : ProviderRecord). r.enabled) t) in
    or_defaults (select (covers domain) records) records

abbrev text_of : Option Text → Text
text_of none = []
text_of (some t) = t

-- The webhook of a domain's row, if it has a URL and was verified.
abbrev webhook_at : Domain → Text → List Provider
webhook_at d [] = []
webhook_at d (c ∷ s) =
    if d.auth_webhook_verified
    then domain_webhook d.name (c ∷ s) (text_of d.auth_webhook_secret) ∷ []
    else []

-- `_legacy_domain_webhook`
unfoldable pub legacy_domain_webhook : Uuid → List Domain → List Provider
unfolding first
legacy_domain_webhook domain_id ds = elim (first (λ (d : Domain). d.id == domain_id) ds) [
  | none ↦ []
  | some d ↦ webhook_at d (text_of d.auth_webhook_url)
]

abbrev pub or_webhook : Outside → List ProviderRecord → List Provider → Option (List Provider)
or_webhook o [] webhook = some webhook
or_webhook o (r ∷ rs) webhook = build_each o (r ∷ rs)

unfoldable pub providers_for :
    Outside → List ProviderRecord → List Domain → Uuid → Text → Option (List Provider)
unfolding for_domain build_each legacy_domain_webhook
providers_for o t ds domain_id domain =
    or_webhook o (for_domain domain t) (legacy_domain_webhook domain_id ds)

-- `Outcome`
pub record Outcome : Type 0 where
  pub identity : Option Text
  pub provider : Option Text
  pub unavailable : List Text
  pub refusals : List Text

abbrev pub no_outcome : Outcome
no_outcome = record { identity = none; provider = none; unavailable = []; refusals = [] }

-- What one provider's answer does to the outcome, and whether the next one is asked.
abbrev pub go_on : Answer → Provider → Outcome → (Outcome → Outcome) → Outcome
go_on (accepted identity) p out next = record out {
  identity = some identity;
  provider = some (provider_name p);
}
go_on refused p out next = next (record out { refusals = out.refusals ++ (provider_name p ∷ []) })
go_on (failed why) p out next = next (record out {
  unavailable = out.unavailable ++ ((provider_name p ++ (codes ": " ++ why)) ∷ []);
})

-- The loop of `authenticate`; a bug of a provider is an answer it could not give.
unfoldable pub ask_each : Outside → Text → Text → List Provider → Outcome → Outcome
ask_each o username password [] out = out
ask_each o username password (p ∷ ps) out =
    go_on (o.ask p username password) p out (ask_each o username password ps)
