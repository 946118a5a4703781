-- ===== src/Smtp/Envelopes.antt =====
-- A forwarded copy's bounce finds its way back: the envelope sender that the copy leaves with is
-- an address that the router answers with the stored route.
use lightr.Prelude.{
  ℕ, Text, ◌==◌, ==_self, All, All-append, All-map, lower_char, lower, is_space, strip, cut,
  strip_by_id, lower_id, ◌≡◌, refl, ap, ◌∙◌, true, false, some, [], ◌∷◌, ◌++◌, arith, length,
  text_eq, Option, List, leb, ◌+◌, none,
}
use lightr.Smtp.Parts.{world_of, Tables, Server}
use lightr.Queue
use lightr.Queue.{enqueue, Table, Row}
use lightr.Directory.{found, Uuid, resolve_domain, Domain}
use lightr.Smtp.Outbound.{handout, forward_as, queue_mail}
use lightr.Replies.Tokens.{hex-lower, all_hex-All, hex-space, token_from-reply, get-create}
use lightr.Replies.{reply_prefix, is_hex, all_hex, token_length, ReplyRoute, new_route, retention}
use lightr.Replies
use lightr.Routing
use lightr.Routing.{route, replied, Route, World, reply_for, route_token, route_domain, route_parts}

cut-append :
    (c : ℕ) (s rest : Text)
    → All (λ x. (x == c) ≡ false) s
    → cut c (s ++ (c ∷ rest)) ≡ some (s, rest)
unfolding cut
cut-append c [] rest h = rw (==_self c) refl
cut-append c (x ∷ s) rest h = rw (h.0) (rw (cut-append c s rest h.1) refl)

-- No capital letter and no space.
abbrev pub IsPlain : Text → Type 0
IsPlain s = All (λ c. (is_space c ≡ false) × (lower_char c ≡ c)) s

normalise-IsPlain : (s : Text) → IsPlain s → Routing.normalise s ≡ s
unfolding Routing.normalise strip
normalise-IsPlain s h =
    ap lower (strip_by_id is_space s (All-map (λ x p. p.0) s h))
    ∙ lower_id s (All-map (λ x p. p.1) s h)

hex-at : (c : ℕ) → is_hex c ≡ true → (c == b'@') ≡ false
unfolding is_hex
hex-at c h = ground arith

prefix-IsPlain : IsPlain reply_prefix
unfolding is_space lower_char
prefix-IsPlain = (
  (refl, refl),
  ((refl, refl), ((refl, refl), ((refl, refl), ((refl, refl), ((refl, refl), tt))))),
)

module _ (token name : Text) (hex : all_hex token ≡ true) (plain : IsPlain name) where
  local-IsPlain : IsPlain (reply_prefix ++ token)
  local-IsPlain =
      All-append _ reply_prefix token prefix-IsPlain
        (All-map (λ c h. (hex-space c h, hex-lower c h)) token (all_hex-All token hex))

  local-at : All (λ x. (x == b'@') ≡ false) (reply_prefix ++ token)
  local-at =
      All-append _ reply_prefix token (refl, (refl, (refl, (refl, (refl, (refl, tt))))))
        (All-map hex-at token (all_hex-All token hex))

  address_plain :
      Routing.normalise (Replies.reply_address token name) ≡ Replies.reply_address token name
  unfolding Replies.reply_address
  address_plain = normalise-IsPlain _ (
      All-append _ reply_prefix (token ++ (b'@' ∷ name)) prefix-IsPlain (
        All-append _ token (b'@' ∷ name)
          (All-map (λ c h. (hex-space c h, hex-lower c h)) token (all_hex-All token hex))
          ((unfold is_space in refl, unfold lower_char in refl), plain)))

  address-cut : cut b'@' (Replies.reply_address token name) ≡ some (reply_prefix ++ token, name)
  unfolding Replies.reply_address
  address-cut = cut-append b'@' (reply_prefix ++ token) name local-at

-- One row more, for the recipients and under the envelope sender.
abbrev pub AddsCopy : List Text → Option Text → Table → Table → Type 0
AddsCopy recipients envelope_from t u =
    (row : Row) × (u ≡ t ++ (row ∷ []))
    × (row.to_addrs ≡ recipients)
    × (row.envelope_from ≡ envelope_from)

queue_mail-adds :
    (s : Server) (domain : Domain) (from_addr : Text) (recipients : List Text) (message : Text)
    (envelope_from : Option Text) (t u : Tables)
    → queue_mail s domain from_addr recipients message envelope_from t ≡ some u
    → (u.reply_routes ≡ t.reply_routes)
      × (u.bounces ≡ t.bounces)
      × AddsCopy recipients envelope_from t.queue u.queue
unfolding queue_mail enqueue
queue_mail-adds s domain from_addr [] message envelope_from t u h = absurd (cc (h))
queue_mail-adds s domain from_addr (x ∷ xs) message envelope_from t u h = (
  ground (arith, h),
  ground (arith, h),
  (
    lightr.Queue.new_row (s.ids t.drawn) s.now (record {
      org_id = domain.org_id;
      domain_id = domain.id;
      from_addr = from_addr;
      to_addrs = x ∷ xs;
      subject = s.mime.subject message;
      body = s.mime.plain_body message;
      html_body = none;
      headers = [];
      max_attempts = lightr.Queue.default_max_attempts;
      raw = some (s.mime.strip_controlled message);
      envelope_from = envelope_from;
    }),
    ground (arith, h),
    refl,
    refl,
  ),
)

route-replied :
    (w : World) (a local name : Text) (domain : Domain) (r : ReplyRoute)
    → Routing.normalise a ≡ a
    → cut b'@' a ≡ some (local, name)
    → Routing.is_suppressed w a ≡ false
    → resolve_domain name w.directory.domains ≡ found domain
    → reply_for w local ≡ some r
    → route w a ≡ replied a domain.id r
unfolding route route_parts route_domain route_token
route-replied w a local name domain r n c s d f = rw n (rw c (rw s (rw d (rw f refl))))

suppressed_kept :
    (s : Server) (t u : Tables) (a : Text)
    → u.bounces ≡ t.bounces
    → Routing.is_suppressed (world_of s t) a ≡ false
    → Routing.is_suppressed (world_of s u) a ≡ false
unfolding Routing.is_suppressed
suppressed_kept s t u a e h = rw e h

reply_for-get :
    (w : World) (local token : Text)
    → Replies.token_from local ≡ some token
    → reply_for w local ≡ Replies.get w.now token w.reply_routes
unfolding reply_for
reply_for-get w local token h = ground (arith, h)

reply_for-created :
    (s : Server) (t u : Tables) (token : Text) (h : Replies.Handout)
    → all_hex token ≡ true
    → length token ≡ token_length
    → All (λ x. text_eq x.token token ≡ false) t.reply_routes
    → u.reply_routes ≡ (Replies.create token s.now h t.reply_routes).0
    → reply_for (world_of s u) (reply_prefix ++ token)
      ≡ some (Replies.create token s.now h t.reply_routes).1
reply_for-created s t u token h hex full fresh e =
    let low = lower_id token (All-map hex-lower token (all_hex-All token hex)) in
    let live : leb s.now (s.now + retention) ≡ true = ground arith in
    let made = get-create token s.now s.now h t.reply_routes fresh low in
    reply_for-get (world_of s u) (reply_prefix ++ token) token (token_from-reply token hex full)
    ∙ rw e (rw made (rw live refl))

-- A forward queues one copy for its recipients, under an envelope sender that the router answers
-- with the reply route that the forward stored. The token is hexadecimal, of the full length and
-- fresh, and the name of the domain is plain, leads to the domain and is not suppressed with it.
pub forward_as-route :
    (s : Server) (mail_from message : Text) (r : Route) (alias_id : Uuid) (recipients : List Text)
    (domain : Domain) (t u : Tables)
    → all_hex (s.tokens t.drawn) ≡ true
    → length (s.tokens t.drawn) ≡ token_length
    → All (λ x. text_eq x.token (s.tokens t.drawn) ≡ false) t.reply_routes
    → IsPlain domain.name
    → resolve_domain domain.name s.directory.domains ≡ found domain
    → Routing.is_suppressed (world_of s t) (Replies.reply_address (s.tokens t.drawn) domain.name)
      ≡ false
    → forward_as s mail_from message r alias_id recipients domain t ≡ some u
    → AddsCopy recipients
        (some (Replies.reply_address (s.tokens t.drawn) domain.name))
        t.queue
        u.queue
      × (route (world_of s u) (Replies.reply_address (s.tokens t.drawn) domain.name)
          ≡ replied (Replies.reply_address (s.tokens t.drawn) domain.name) domain.id (
              new_route
                (s.tokens t.drawn)
                s.now
                (handout s mail_from message r alias_id domain recipients)))
unfolding forward_as Replies.create
forward_as-route s mail_from message r alias_id recipients domain t u hex full fresh plain hosted
      open_ made =
    let token = s.tokens t.drawn in
    let kept = queue_mail-adds s domain _ recipients _ _ _ u made in
    (
      kept.2,
      route-replied (world_of s u) (Replies.reply_address token domain.name) (reply_prefix ++ token)
          domain.name domain _ (address_plain token domain.name hex plain)
          (address-cut token domain.name hex plain)
          (suppressed_kept s t u (Replies.reply_address token domain.name) kept.1 open_) hosted
          (reply_for-created s t u token (handout s mail_from message r alias_id domain recipients)
            hex full fresh kept.0),
    )
