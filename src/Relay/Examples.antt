-- ===== src/Relay/Examples.antt =====
-- Runs of the relay settings, and their theorems at a concrete change.
use lightr.Prelude.{ℕ, Text, codes, ◌≡◌, refl, Bool, true, false, Option, none, some}
use lightr.Directory.{SpamPolicy, Domain}
use lightr.Relay.{needs_tls, ok, err, RelayChange, apply}
use lightr.Relay.Safety.{apply-IsUsable, IsUsable}

abbrev plain : Domain
plain = record {
  id = 2;
  org_id = 1;
  name = codes "acme.test";
  dkim_private_key = none;
  dkim_selector = none;
  relay_enabled = false;
  relay_host = none;
  relay_port = none;
  relay_username = none;
  relay_password = none;
  relay_use_tls = false;
  relay_tls_skip_verify = false;
  spam_policy = SpamPolicy.junk;
  auth_webhook_url = none;
  auth_webhook_secret = none;
  auth_webhook_verified = false;
}

abbrev smarthost : Option ℕ → RelayChange
smarthost port = record {
  enabled = some true;
  host = some (codes " SMTP.example.com. ");
  port = port;
  username = some (codes "user");
  password = some (codes "secret");
  use_tls = none;
  skip_verify = none;
  clear = false;
}

abbrev no_ip : Text → Bool
no_ip t = false

abbrev relayed : Domain
relayed = record plain {
  relay_enabled = true;
  relay_host = some (codes "smtp.example.com");
  relay_port = some 465;
  relay_username = some (codes "user");
  relay_password = some (codes "secret");
}

apply-smarthost : apply no_ip plain (smarthost (some 465)) ≡ ok relayed
unfolding apply
apply-smarthost = refl

-- A login without TLS is refused.
apply_plaintext : apply no_ip plain (smarthost (some 25)) ≡ err needs_tls
unfolding apply
apply_plaintext = refl

apply-IsUsable_example : IsUsable relayed
apply-IsUsable_example =
    apply-IsUsable no_ip plain relayed (smarthost (some 465)) apply-smarthost refl
