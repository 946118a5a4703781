-- ===== src/Smtp/Spam.antt =====
-- What never leaves the server.
use lightr.Prelude.{
  Text, ◌≡◌, refl, ◌≢◌, true, false, Option, none, some, List, [], ◌∷◌, ◌∙◌, arith, Bool, ◌++◌, leb,
  Bool-cases, is_empty, ap, inl, inr, ◌&&◌, not,
}
use lightr.Smtp.Outbound.{locals_of, forward_all}
use lightr.Smtp.Answers.{Outcome, no_outcome}
use lightr.Replies.{ReplyRoute}
use lightr.Smtp.Relaying.{
  nothing_relayed, Relayed, relay_replies, keep_reply, Verdict, keep, refuse, relay, reply_verdict,
  relay_by,
}
use lightr.Smtp.Delivery.{
  deliver_checked, reply_pairs, Delivered, store, deliver_relayed, deliver_replies,
  deliver_forwarded, deliver_forwards, deliver_sorted, deliver_routed, max_hops, targets, stamped,
}
use lightr.Routing.{
  Route, Disposition, deliver_local, alias_forward, alias_bridge, reject, RejectReason,
  not_local_domain, no_such_mailbox, suppressed, alias_loop, account_disabled, receiving_blocked,
  route_all,
}
use lightr.Smtp.Parts.{
  Server, Tables, sort_rejected, sort_forwards, sort_route, sort_routes, Sorted, with_local,
  sort_by, world_of,
}

sort_forwards-outbound :
    (r : Route) (xs : List Text) (z : Sorted) → (sort_forwards r xs z).outbound ≡ z.outbound
unfolding sort_forwards
sort_forwards-outbound r [] z = refl
sort_forwards-outbound r (x ∷ xs) z = refl

sort_rejected-outbound :
    (r : Route) (o : Option RejectReason) (z : Sorted)
    → (sort_rejected false r o z).outbound ≡ z.outbound
unfolding sort_rejected
sort_rejected-outbound r none z = refl
sort_rejected-outbound r (some not_local_domain) z = refl
sort_rejected-outbound r (some no_such_mailbox) z = refl
sort_rejected-outbound r (some suppressed) z = refl
sort_rejected-outbound r (some alias_loop) z = refl
sort_rejected-outbound r (some account_disabled) z = refl
sort_rejected-outbound r (some receiving_blocked) z = refl

sort_route-outbound :
    (r : Route) (z : Sorted) → z.outbound ≡ [] → (sort_route false r z).outbound ≡ []
unfolding sort_route
sort_route-outbound r z h =
    by_disposition r.disposition (sort_rejected-outbound r r.reason z ∙ h)
      (sort_forwards-outbound r r.forward_to z ∙ h)
      (sort_forwards-outbound r r.forward_to (with_local r z) ∙ h)
  where
    by_disposition :
        (d : Disposition)
        → (sort_rejected false r r.reason z).outbound ≡ []
        → (sort_forwards r r.forward_to z).outbound ≡ []
        → (sort_forwards r r.forward_to (with_local r z)).outbound ≡ []
        → (sort_by d false r z).outbound ≡ []
    by_disposition deliver_local a b c = c
    by_disposition alias_bridge a b c = c
    by_disposition alias_forward a b c = b
    by_disposition Disposition.reply a b c = h
    by_disposition reject a b c = a

-- The receive listener sends nothing on that is not hosted here.
sort_routes-outbound : (rs : List Route) → (sort_routes false rs).outbound ≡ []
unfolding sort_routes sort_route sort_rejected sort_forwards
sort_routes-outbound [] = refl
sort_routes-outbound (r ∷ rs) =
    sort_route-outbound r (sort_routes false rs) (sort_routes-outbound rs)

pub keep_reply-tables :
    (a : Text) (r : ReplyRoute) (k : Relayed) → (keep_reply a r k).tables ≡ k.tables
unfolding keep_reply
keep_reply-tables a r k = ground arith

-- Spam is kept or refused, not relayed.
reply_verdict-spam :
    (s : Server) (mail_from message : Text) (r : ReplyRoute)
    → reply_verdict s mail_from message true r ≢ relay
unfolding reply_verdict
reply_verdict-spam s mail_from message r h = ground (arith, h)

relay_by-kept :
    (v : Verdict) (a : Text) (r : ReplyRoute) (sent : Option Tables)
    (rest : Tables → Option Relayed) (t : Tables) (k : Relayed)
    → v ≢ relay
    → rest t ≡ some k
    → k.tables ≡ t
    → (x : Relayed) × (relay_by v a r sent rest t ≡ some x) × (x.tables ≡ t)
unfolding relay_by
relay_by-kept keep a r sent rest t k n h e =
    (keep_reply a r k, rw h refl, keep_reply-tables a r k ∙ e)
relay_by-kept refuse a r sent rest t k n h e =
    (record k { rejected = (a, no_such_mailbox) ∷ k.rejected }, rw h refl, e)
relay_by-kept relay a r sent rest t k n h e = absurd (n refl)

relay_replies-spam :
    (s : Server) (mail_from message : Text) (rs : List (Text × ReplyRoute)) (t : Tables)
    → (k : Relayed) × (relay_replies s mail_from message true rs t ≡ some k) × (k.tables ≡ t)
unfolding relay_replies
relay_replies-spam s mail_from message [] t = (nothing_relayed t, refl, refl)
relay_replies-spam s mail_from message ((a, r) ∷ rs) t =
    let rest = relay_replies-spam s mail_from message rs t in
    relay_by-kept (reply_verdict s mail_from message true r) a r _ _ t rest.0
      (reply_verdict-spam s mail_from message r) rest.1 rest.2

-- Nothing is put in the queue and no token is handed out.
abbrev pub IsKept : Tables → Delivered → Type 0
IsKept t d = (d.0.queue ≡ t.queue) × (d.0.reply_routes ≡ t.reply_routes)

store-IsKept :
    (s : Server) (mail_from message : Text) (is_spam : Bool) (rs : List Route) (extra : List Text)
    (t u : Tables) (o : Outcome)
    → u ≡ t
    → IsKept t (store s mail_from message is_spam rs extra u o)
unfolding store
store-IsKept s mail_from message is_spam [] [] t u o e =
    (ap (λ x. x.queue) e, ap (λ x. x.reply_routes) e)
store-IsKept s mail_from message is_spam [] (x ∷ xs) t u o e =
    (ap (λ x. x.queue) e, ap (λ x. x.reply_routes) e)
store-IsKept s mail_from message is_spam (r ∷ rs) xs t u o e =
    (ap (λ x. x.queue) e, ap (λ x. x.reply_routes) e)

deliver_replies-IsKept :
    (s : Server) (mail_from message : Text) (z : Sorted) (extra : List Text) (t : Tables)
    (o : Outcome)
    → IsKept t (deliver_replies s mail_from message true z extra t o)
unfolding deliver_replies deliver_relayed
deliver_replies-IsKept s mail_from message z extra t o =
    let k = relay_replies-spam s mail_from message (reply_pairs z.replies) t in
    rw (k.1)
      (store-IsKept s mail_from message true z.locals (extra ++ k.0.locals) t k.0.tables _ k.2)

deliver_forwards-IsKept :
    (s : Server) (mail_from message : Text) (z : Sorted) (t : Tables) (o : Outcome)
    → IsKept t (deliver_forwards s mail_from message true z t o)
unfolding deliver_forwards deliver_forwarded forward_all
deliver_forwards-IsKept s mail_from message z t o =
    deliver_replies-IsKept s mail_from message z (locals_of s.directory z.forwards) t _

deliver_sorted-IsKept :
    (s : Server) (mail_from message : Text) (z : Sorted) (xs : List Text) (t : Tables) (o : Outcome)
    → xs ≡ []
    → IsKept t (deliver_sorted s mail_from message true z xs t o)
unfolding deliver_sorted
deliver_sorted-IsKept s mail_from message z [] t o e =
    deliver_forwards-IsKept s mail_from message z t o
deliver_sorted-IsKept s mail_from message z (x ∷ xs) t o e = absurd (cc)

receive-outbound : (b : Bool) (rs : List Route) → b ≡ false → (sort_routes b rs).outbound ≡ []
receive-outbound true rs h = absurd (cc)
receive-outbound false rs h = sort_routes-outbound rs

judged_true : (b : Bool) → b ≡ false → (not b && true) ≡ true
judged_true true h = cc
judged_true false h = refl

deliver_routed-IsKept :
    (s : Server) (mail_from : Text) (recipients : List Text) (message : Text) (is_spam : Bool)
    (t : Tables)
    → s.require_auth ≡ false
    → is_spam ≡ true
    → IsKept t (deliver_routed s mail_from recipients message is_spam t)
unfolding deliver_routed
deliver_routed-IsKept s mail_from recipients message false t h e = absurd (cc)
deliver_routed-IsKept s mail_from recipients message true t h e =
    let z = sort_routes s.require_auth (route_all (world_of s t) recipients) in
    deliver_sorted-IsKept s mail_from (stamped s.mime message (targets z)) z z.outbound t
      (record no_outcome { rejected = z.rejected })
      (receive-outbound s.require_auth (route_all (world_of s t) recipients) h)

-- Mail that the receive listener takes and that was judged to be spam puts nothing in the outbound
-- queue and hands out no reply token, whatever its recipients, whether its delivery ends in an
-- outcome or in an exception of the mail store.
pub deliver_checked-IsKept :
    (s : Server) (mail_from : Text) (recipients : List Text) (message : Text) (t : Tables)
    → s.require_auth ≡ false
    → IsKept t (deliver_checked s mail_from recipients message true t)
unfolding deliver_checked
deliver_checked-IsKept s mail_from recipients message t h =
    elim (Bool-cases (leb max_hops (s.mime.received_count message))) [
      | inl e ↦ rw e (elim (Bool-cases (is_empty mail_from)) [
        | inl f ↦ rw f (refl, refl)
        | inr f ↦ rw f (refl, refl)
      ])
      | inr e ↦ rw e (elim (Bool-cases (is_empty mail_from)) [
        | inl f ↦ rw f (
            deliver_routed-IsKept s mail_from recipients message _ _ h
              (judged_true s.require_auth h))
        | inr f ↦ rw f (
            deliver_routed-IsKept s mail_from recipients message _ t h
              (judged_true s.require_auth h))
      ])
    ]
