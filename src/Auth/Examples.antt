-- ===== src/Auth/Examples.antt =====
-- Logins of a small directory, and the theorems at them.
use lightr.Prelude.{
  ℕ, if◌then◌else◌, Text, codes, text_eq, ◌≡◌, refl, true, false, none, some, List, [], ◌∷◌, ◌↔◌,
  ◌&&◌, ◌||◌, not, zero, suc,
}
use lightr.Directory.{Directory, Domain, Account, find_account, AuthMode, SpamPolicy}
use lightr.Auth.Records.{create_provider}
use lightr.Auth.Providers.{
  for_domain, failed, Outside, ProviderRecord, providers_for, Answer, provider_name, stored,
  accepted, refused,
}
use lightr.Auth.{
  authenticate, AuthResult, email, domain_name, provider_unavailable, temporary, too_long,
  validate_password,
}
use lightr.Auth.Verdicts.{any_accepts, authenticate-external, has_items, any_fails}
use lightr.Auth.Entitled.{authenticate-Entitled, Entitled}
use lightr.Auth.Raises.{authenticate_raises, SomeUnbuilt}

abbrev acme : Domain
acme = record {
  id = 1;
  org_id = 1;
  name = codes "acme.test";
  dkim_private_key = none;
  dkim_selector = none;
  relay_enabled = false;
  relay_host = none;
  relay_port = none;
  relay_username = none;
  relay_password = none;
  relay_use_tls = true;
  relay_tls_skip_verify = false;
  spam_policy = SpamPolicy.junk;
  auth_webhook_url = none;
  auth_webhook_secret = none;
  auth_webhook_verified = false;
}

-- Ann's password is kept in a directory elsewhere; the hash is from before.
abbrev ann : Account
ann = record {
  id = 5;
  domain_id = 1;
  local_part = codes "ann";
  auth_mode = AuthMode.external;
  can_send = true;
  can_receive = true;
  password_hash = some (codes "old");
}

abbrev company : Directory
company = record { domains = acme ∷ []; accounts = ann ∷ []; aliases = [] }

abbrev replicate : ℕ → ℕ → Text
replicate zero c = []
replicate (suc n) c = c ∷ replicate n c

abbrev ldap : Text → Text → ℕ → ProviderRecord
ldap name kind priority = record {
  id = priority;
  org_id = none;
  name = name;
  kind = kind;
  enabled = true;
  priority = priority;
  config = codes "{}";
  domains = codes "ACME.test" ∷ [];
  is_default = false;
  auto_provision = false;
  sync_groups = false;
}

abbrev down : ProviderRecord
down = ldap (codes "down") (codes "ldap") 1

abbrev main : ProviderRecord
main = ldap (codes "main") (codes "ldap") 2

-- One server does not answer, and the other one knows one password.
abbrev answer : Text → Text → Answer
answer name password =
    if text_eq name (codes "down")
    then failed (codes "no route")
    else if text_eq password (codes "secret")
    then accepted (codes "ann")
    else refused

abbrev network : Outside
unfolding text_eq
network = record {
  ask = λ p username password. answer (provider_name p) password;
  check_password = λ password hash. text_eq password hash;
  timeout_reads = λ config. true;
}

abbrev both : List ProviderRecord
both = main ∷ down ∷ []

both_asked :
    providers_for network both (acme ∷ []) 1 (codes "acme.test")
    ≡ some (stored down ∷ stored main ∷ [])
unfolding providers_for network
both_asked = refl

-- The answer to a login with no provider that accepts, and one that could not tell.
abbrev unsure : AuthResult
unsure = record {
  ok = false;
  account = some ann;
  failure = some provider_unavailable;
  provider = none;
}

abbrev good : AuthResult
good = record { ok = true; account = some ann; failure = none; provider = some (codes "main") }

found_ann : find_account (codes "ann@acme.test") company ≡ some ann
unfolding find_account
found_ann = refl

name_of_ann : domain_name company ann ≡ codes "acme.test"
unfolding domain_name
name_of_ann = refl

-- The old password, which the hash still has.
old_password : authenticate network both company (codes "ann@acme.test") (codes "old") ≡ some unsure
unfolding authenticate network
old_password = refl

new_password :
    authenticate network both company (codes "ann@acme.test") (codes "secret") ≡ some good
unfolding authenticate network
new_password = refl

authenticate-external_example :
    (r : AuthResult) × (authenticate network both company (codes "ann@acme.test") (codes "old")
      ≡ some r)
    × (r.ok
        ≡ any_accepts network (email company ann) (codes "old") (stored down ∷ stored main ∷ []))
    × (temporary r ≡ (
        not (any_accepts network (email company ann) (codes "old") (stored down ∷ stored main ∷ []))
        && (not (has_items (stored down ∷ stored main ∷ []))
            || any_fails network
                (email company ann)
                (codes "old")
                (stored down ∷ stored main ∷ []))))
authenticate-external_example =
    authenticate-external network both company (codes "ann@acme.test") (codes "old") ann
      (stored down ∷ stored main ∷ []) found_ann refl (rw name_of_ann both_asked)

authenticate-Entitled_example :
    (a : Account) × (find_account (codes "ann@acme.test") company ≡ some a)
    × (good.account ≡ some a)
    × Entitled a.auth_mode network both company a (codes "secret")
authenticate-Entitled_example =
    authenticate-Entitled network both company (codes "ann@acme.test") (codes "secret") good
      new_password refl

-- A provider of a kind that is not built stands behind one that would accept.
abbrev with_radius : List ProviderRecord
with_radius = main ∷ ldap (codes "wifi") (codes "radius") 9 ∷ []

radius_raises :
    authenticate network with_radius company (codes "ann@acme.test") (codes "secret") ≡ none
unfolding authenticate network
radius_raises = refl

authenticate_raises_example :
    (authenticate network with_radius company (codes "ann@acme.test") (codes "secret") ≡ none)
    ↔ SomeUnbuilt network (for_domain (domain_name company ann) with_radius)
authenticate_raises_example =
    authenticate_raises network with_radius company (codes "ann@acme.test") (codes "secret") ann
      found_ann refl

stored_lower :
    create_provider network 3
      (record {
        name = codes "main";
        kind = codes "ldap";
        config = codes "{}";
        org_id = none;
        domains = codes "ACME.test" ∷ [];
        priority = 100;
        is_default = false;
        enabled = true;
        auto_provision = false;
        sync_groups = false;
      })
      []
    ≡ some (
        record (ldap (codes "main") (codes "ldap") 100) { id = 3; domains = codes "acme.test" ∷ [] }
        ∷ [])
unfolding create_provider network
stored_lower = refl

-- 24 characters of three bytes each are the longest that `bcrypt` takes of them.
long_enough : validate_password (replicate 24 0x20ac) ≡ none
unfolding validate_password
long_enough = refl

too_many_bytes : validate_password (replicate 25 0x20ac) ≡ some too_long
unfolding validate_password
too_many_bytes = refl
