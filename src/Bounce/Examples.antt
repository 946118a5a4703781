-- ===== src/Bounce/Examples.antt =====
-- Runs of the bounce handling, and its theorems at a concrete report.
use lightr.Prelude.{codes, ◌≡◌, refl, none, some, [], ◌∷◌}
use lightr.Bounce.Suppression.{record_bounce-route, emails}
use lightr.Bounce.{
  Bounce, BounceType, should_suppress, classify, clean_address, Store, record_bounce,
}
use lightr.Routing.{World, Disposition, route}

abbrev dead : Bounce
dead = record {
  recipient = codes "Gone@acme.test";
  bounce_type = BounceType.hard;
  status = some (codes "5.1.1");
  diagnostic = none;
  remote_mta = none;
  original_message_id = none;
}

abbrev store : Store
store = record {
  bounces = [];
  suppression_list =
      record { email = codes "old@acme.test"; reason = codes "hard"; org_id = none; created_at = 1 }
      ∷ [];
}

abbrev empty_world : World
empty_world = record {
  directory = record { domains = []; accounts = []; aliases = [] };
  suppression_list = [];
  reply_routes = [];
  now = 0;
}

full_mailbox : classify (some (codes "5.2.2")) none ≡ BounceType.soft
unfolding classify
full_mailbox = refl

prose : classify none (some (codes "Sorry, 550: User unknown")) ≡ BounceType.hard
unfolding classify
prose = refl

bare_code : classify none (some (codes "x550 then 451 later")) ≡ BounceType.soft
unfolding classify
bare_code = refl

typed_address : clean_address (codes "rfc822; <Gone@Acme.test> ") ≡ codes "gone@acme.test"
unfolding clean_address
typed_address = refl

record_bounce-route_example :
    (route
      (record empty_world {
        suppression_list = emails (record_bounce dead 1 2 9 store).0.suppression_list;
      })
      (codes "Gone@acme.test")).disposition
    ≡ Disposition.reject
record_bounce-route_example =
    record_bounce-route dead 1 2 9 store empty_world (unfold should_suppress in refl)
