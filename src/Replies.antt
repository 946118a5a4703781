-- ===== src/Replies.antt =====
-- Reply tokens of forwarded mail, src/lightr/mail/replies.py: the rows of the table
-- `alias_reply_routes` and their lookups. The clock and the random token are arguments; times are
-- microseconds. The rewriting of message bodies is not modelled.
pub mod Tokens
mod Examples
use lightr.Prelude.{
  ℕ, ltb, leb, ◌==◌, if◌then◌else◌, length, first, delete, count, Text, codes, text_eq, one_of,
  is_empty, lower, strip, ◌+◌, ◌*◌, Bool, true, false, ◌&&◌, ◌||◌, not, Option, none, some, List,
  [], ◌∷◌, ◌++◌, map,
}
use lightr.Directory.{Uuid}

abbrev pub reply_prefix : Text
reply_prefix = codes "reply+"

abbrev pub token_length : ℕ
token_length = 24

-- 30 days
abbrev pub retention : ℕ
retention = 30 * 86_400_000_000

-- `RouteKind`
pub data RouteKind : Type 0 where
  bridge forward : RouteKind

pub record ReplyRoute : Type 0 where
  pub token : Text
  pub alias_id : Uuid
  pub domain_id : Option Uuid
  pub local_address : Text
  pub original_from : Text
  pub destinations : List Text
  pub account_id : Option Uuid
  pub original_to : Option Text
  pub original_cc : Option Text
  pub kind : RouteKind
  pub created_at : ℕ

-- `created_at < now - RETENTION`, with the addition on the other side
unfoldable pub expired : ℕ → ReplyRoute → Bool
expired now r = ltb (r.created_at + retention) now

-- One sender of `accepts_reply_from`.
sender_allowed : List Text → Text → Bool
unfolding is_empty lower strip one_of
sender_allowed allowed s = not (is_empty s) && one_of (lower (strip s)) allowed

-- `accepts_reply_from(*senders)`
unfoldable pub accepts_reply_from : ReplyRoute → List Text → Bool
unfolding sender_allowed lower strip
accepts_reply_from r [] = false
accepts_reply_from r (s ∷ ss) =
    sender_allowed (map (λ d. lower (strip d)) r.destinations) s || accepts_reply_from r ss

unfoldable pub reply_address : Text → Text → Text
reply_address token domain_name = reply_prefix ++ (token ++ (b'@' ∷ domain_name))

-- `[0-9a-f]`
unfoldable pub is_hex : ℕ → Bool
is_hex c = leb b'0' c && leb c b'9' || leb b'a' c && leb c b'f'

unfoldable pub all_hex : Text → Bool
unfolding is_hex
all_hex [] = true
all_hex (c ∷ s) = is_hex c && all_hex s

-- The text behind a prefix, if it has that prefix.
unfoldable pub without_prefix : Text → Text → Option Text
without_prefix [] s = some s
without_prefix (p ∷ ps) [] = none
without_prefix (p ∷ ps) (c ∷ s) = if p == c then without_prefix ps s else none

-- The match of `_TOKEN`.
unfoldable pub match_token : Text → Option Text
unfolding without_prefix all_hex
match_token s = elim (without_prefix reply_prefix s) [
  | none ↦ none
  | some token ↦ if all_hex token && length token == token_length then some token else none
]

unfoldable pub token_from : Text → Option Text
unfolding match_token strip lower
token_from local_part = match_token (lower (strip local_part))

-- What a caller of `create` passes.
pub record Handout : Type 0 where
  pub alias_id : Uuid
  pub domain_id : Option Uuid
  pub local_address : Text
  pub destinations : List Text
  pub original_from : Text
  pub kind : RouteKind
  pub account_id : Option Uuid
  pub original_to : Option Text
  pub original_cc : Option Text

unfoldable pub new_route : Text → ℕ → Handout → ReplyRoute
unfolding lower
new_route token now h = record {
  token = token;
  alias_id = h.alias_id;
  domain_id = h.domain_id;
  local_address = lower h.local_address;
  original_from = lower h.original_from;
  destinations = map lower h.destinations;
  account_id = h.account_id;
  original_to = h.original_to;
  original_cc = h.original_cc;
  kind = h.kind;
  created_at = now;
}

-- `ReplyRouteRepo.create`
unfoldable pub create : Text → ℕ → Handout → List ReplyRoute → List ReplyRoute × ReplyRoute
unfolding new_route
create token now h t = (t ++ new_route token now h ∷ [], new_route token now h)

unfoldable pub unexpired : ℕ → Option ReplyRoute → Option ReplyRoute
unfolding expired
unexpired now none = none
unexpired now (some r) = if expired now r then none else some r

-- `ReplyRouteRepo.get`: an expired route is as good as absent.
unfoldable pub get : ℕ → Text → List ReplyRoute → Option ReplyRoute
unfolding first text_eq lower unexpired
get now token t = unexpired now (first (λ r. text_eq r.token (lower token)) t)

-- `ReplyRouteRepo.sweep`
unfoldable pub sweep : ℕ → ℕ → List ReplyRoute → List ReplyRoute × ℕ
unfolding delete count
sweep now older_than t =
    let old = λ (r : ReplyRoute). ltb (r.created_at + older_than) now in (delete old t, count old t)
