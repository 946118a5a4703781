-- ===== src/Replies/Examples.antt =====
-- Runs of the reply routes, and their theorems at a concrete table.
use lightr.Prelude.{ℕ, Text, codes, ◌≡◌, refl, true, none, some, List, [], ◌∷◌}
use lightr.Replies.{
  is_hex, all_hex, RouteKind, reply_prefix, new_route, Handout, token_from, retention, ReplyRoute,
  accepts_reply_from,
}
use lightr.Replies

abbrev token_a : Text
token_a = codes "0123456789abcdef01234567"

abbrev token_b : Text
token_b = codes "aaaaaaaaaaaabbbbbbbbbbbb"

abbrev handed_out : Handout
handed_out = record {
  alias_id = 7;
  domain_id = some 1;
  local_address = codes "Team@Acme.test";
  destinations = codes "Kim@Home.test" ∷ [];
  original_from = codes "who@else.test";
  kind = RouteKind.forward;
  account_id = none;
  original_to = none;
  original_cc = none;
}

abbrev old_route : ReplyRoute
old_route = new_route token_a 0 handed_out

abbrev new_one : ReplyRoute
new_one = new_route token_b 5_000_000_000_000 handed_out

abbrev table : List ReplyRoute
table = old_route ∷ new_one ∷ []

abbrev noon : ℕ
noon = 5_000_000_000_001

expired_gone : (Replies.sweep noon retention table).1 ≡ 1
unfolding Replies.sweep new_route
expired_gone = refl

reply_accepted : accepts_reply_from new_one (codes "" ∷ codes " KIM@home.test" ∷ []) ≡ true
unfolding accepts_reply_from new_route
reply_accepted = refl
