-- ===== src/Routing/Examples.antt =====
-- Runs of the router, and its theorems at a concrete directory.
use lightr.Prelude.{
  ℕ, Text, codes, All, ◌≡◌, refl, true, false, none, some, List, [], ◌∷◌, cut, ◌≢◌, ◌⊎◌, inl, inr,
}
use lightr.Routing.Rejections.{route-IsHosted, route-alias_loop, IsHosted}
use lightr.Routing.Expansion.{expand-IsTarget, IsUnique, IsTarget, Leads}
use lightr.Routing.Routes.{route-Promises, Promises}
use lightr.Directory.{
  SpamPolicy, Domain, Account, Alias, Directory, AuthMode, AliasType, resolve_domain, find_account,
  lookup_alias,
}
use lightr.Routing.{
  World, max_alias_depth, alias_forward, normalise, expand, route, reject, is_suppressed,
  alias_loop, smtp_code, rejected, reply_for,
}

abbrev acme : Domain
acme = record {
  id = 1;
  org_id = 1;
  name = codes "acme.test";
  dkim_private_key = none;
  dkim_selector = none;
  relay_enabled = false;
  relay_host = none;
  relay_port = none;
  relay_username = none;
  relay_password = none;
  relay_use_tls = false;
  relay_tls_skip_verify = false;
  spam_policy = SpamPolicy.junk;
  auth_webhook_url = none;
  auth_webhook_secret = none;
  auth_webhook_verified = false;
}

abbrev kim : Account
kim = record {
  id = 11;
  domain_id = 1;
  local_part = codes "kim";
  auth_mode = AuthMode.native;
  can_send = true;
  can_receive = true;
  password_hash = none;
}

abbrev alias_to : ℕ → Text → List Text → Alias
alias_to i source destinations = record {
  id = i;
  domain_id = 1;
  source = source;
  destinations = destinations;
  type = AliasType.forward;
  is_active = true;
}

-- `team` leads to an account, to a foreign address and to both again; `ping` and `pong` are a loop.
abbrev directory : Directory
directory = record {
  domains = acme ∷ [];
  accounts = kim ∷ [];
  aliases =
      alias_to 21 (codes "team")
        (codes "Kim@acme.test" ∷ codes "x@else.test" ∷ codes "more@acme.test" ∷ [])
      ∷ alias_to 22 (codes "more") (codes "x@else.test" ∷ codes "kim@acme.test" ∷ [])
      ∷ alias_to 23 (codes "ping") (codes "pong@acme.test" ∷ [])
      ∷ alias_to 24 (codes "pong") (codes "ping@acme.test" ∷ [])
      ∷ [];
}

abbrev world : World
world = record {
  directory = directory;
  suppression_list = codes "x@acme.test" ∷ [];
  reply_routes = [];
  now = 0;
}

abbrev team_targets : List Text
team_targets = codes "kim@acme.test" ∷ codes "x@else.test" ∷ []

team_expanded :
    expand directory max_alias_depth
      (codes "Kim@acme.test" ∷ codes "x@else.test" ∷ codes "more@acme.test" ∷ [])
      (codes "team@acme.test" ∷ [])
    ≡ some team_targets
unfolding expand
team_expanded = refl

expand-IsTarget_example :
    All (IsTarget directory (codes "team@acme.test" ∷ [])) team_targets × IsUnique team_targets
expand-IsTarget_example =
    expand-IsTarget directory max_alias_depth
      (codes "Kim@acme.test" ∷ codes "x@else.test" ∷ codes "more@acme.test" ∷ [])
      (codes "team@acme.test" ∷ []) team_targets team_expanded

route-Promises_example :
    Promises world (normalise (codes " Team@acme.test")) (route world (codes " Team@acme.test"))
route-Promises_example = route-Promises world (codes " Team@acme.test")

team_taken : (route world (codes "Team@acme.test")).disposition ≡ alias_forward
unfolding route
team_taken = refl

route-IsHosted_example :
    (is_suppressed world (normalise (codes "Team@acme.test")) ≡ false)
    × IsHosted directory (normalise (codes "Team@acme.test"))
route-IsHosted_example = route-IsHosted world (codes "Team@acme.test") taken
  where
    taken : (route world (codes "Team@acme.test")).disposition ≢ reject
    taken = unfold route in λ p. cc

-- The loop of `ping` and `pong`.
abbrev InLoop : Text → Type 0
InLoop a = (a ≡ codes "ping@acme.test") ⊎ (a ≡ codes "pong@acme.test")

loop_closed : (a : Text) → InLoop a → Leads directory InLoop a
loop_closed a (inl e) = record {
  local = codes "ping";
  domain_name = codes "acme.test";
  domain = acme;
  alias = alias_to 23 (codes "ping") (codes "pong@acme.test" ∷ []);
  parts = rw e (unfold cut in refl);
  hosted = unfold resolve_domain in refl;
  no_account = rw e (unfold find_account in refl);
  is_alias = unfold lookup_alias in refl;
  onwards = inl (inr (unfold normalise in refl));
}
loop_closed a (inr e) = record {
  local = codes "pong";
  domain_name = codes "acme.test";
  domain = acme;
  alias = alias_to 24 (codes "pong") (codes "ping@acme.test" ∷ []);
  parts = rw e (unfold cut in refl);
  hosted = unfold resolve_domain in refl;
  no_account = rw e (unfold find_account in refl);
  is_alias = unfold lookup_alias in refl;
  onwards = inl (inl (unfold normalise in refl));
}

ping_member : InLoop (normalise (codes "Ping@acme.test"))
ping_member = inl (unfold normalise in refl)

route-alias_loop_example :
    (route world (codes "Ping@acme.test")
      ≡ rejected
          (codes "Ping@acme.test")
          (some (loop_closed (normalise (codes "Ping@acme.test")) ping_member).domain.id)
          alias_loop)
    × (smtp_code alias_loop ≡ 451)
unfolding loop_closed ping_member
route-alias_loop_example =
    route-alias_loop world (codes "Ping@acme.test") InLoop loop_closed ping_member
      (unfold is_suppressed normalise in refl) no_token
  where
    no_token :
        reply_for world (loop_closed (normalise (codes "Ping@acme.test")) ping_member).local ≡ none
    no_token = unfold reply_for normalise in refl
