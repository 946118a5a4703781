-- ===== src/Smtp/Recorded.antt =====
-- What a delivery leaves of the log of bounces and of the suppression list.
use mathlib.Core.Option
use lightr.Prelude.{
  Text, ◌≡◌, refl, ap, ◌∙◌, Bool, true, false, Option, none, some, List, [], ◌∷◌, ◌++◌,
}
use lightr.Bounce
use lightr.Queue.{enqueue}
use lightr.Replies.{ReplyRoute}
use lightr.Directory.{Domain, Uuid, Found, found, missing, resolve_domain}
use lightr.Routing.{Route, dedupe, route_all}
use lightr.Smtp.Parts.{Server, Tables, Sorted, sort_routes, world_of}
use lightr.Smtp.Answers.{Outcome, no_outcome}
use lightr.Smtp.Outbound.{
  queue_mail, enqueue_outbound, forward_as, forward_external, forward_each, forward_all, behind_at,
  domain_of_id, and_then, external_of, locals_of,
}
use lightr.Smtp.Relaying.{
  Relayed, send_reply, relay_replies, relay_by, reply_domain, Verdict, keep, refuse, relay,
  reply_verdict, keep_reply,
}
use lightr.Smtp.Delivery.{
  store, deliver_relayed, deliver_replies, deliver_forwarded, deliver_forwards, deliver_outbound,
  deliver_sorted, deliver_routed, stamped, targets, reply_pairs,
}
use lightr.Smtp.Spam.{keep_reply-tables}

-- What a step leaves of the tables has the bounces that were there.
abbrev HasBounces : Bounce.Store → Option Tables → Type 0
HasBounces b none = Unit
HasBounces b (some u) = u.bounces ≡ b

abbrev tables_of : Option (Tables × List Text) → Option Tables
tables_of none = none
tables_of (some r) = some r.0

abbrev relayed_of : Option Relayed → Option Tables
relayed_of none = none
relayed_of (some k) = some k.tables

queue_mail-HasBounces :
    (s : Server) (domain : Domain) (from_addr : Text) (recipients : List Text) (message : Text)
    (envelope_from : Option Text) (t : Tables)
    → HasBounces t.bounces (queue_mail s domain from_addr recipients message envelope_from t)
unfolding queue_mail enqueue
queue_mail-HasBounces s domain from_addr [] message envelope_from t = tt
queue_mail-HasBounces s domain from_addr (x ∷ xs) message envelope_from t = refl

enqueue_outbound-HasBounces :
    (s : Server) (mail_from : Text) (recipients : List Text) (message : Text) (t : Tables)
    → HasBounces t.bounces (enqueue_outbound s mail_from recipients message t)
unfolding enqueue_outbound
enqueue_outbound-HasBounces s mail_from recipients message t =
    by_domain (resolve_domain (behind_at mail_from) s.directory.domains)
  where
    by_domain :
        (o : Found Domain)
        → HasBounces t.bounces (elim o as (λ _. Option Tables) [
          | missing e ↦ none
          | found domain ↦ queue_mail s domain mail_from recipients message none t
        ])
    by_domain (missing e) = tt
    by_domain (found domain) = queue_mail-HasBounces s domain mail_from recipients message none t

forward_as-HasBounces :
    (s : Server) (mail_from message : Text) (r : Route) (alias_id : Uuid) (recipients : List Text)
    (domain : Domain) (t : Tables)
    → HasBounces t.bounces (forward_as s mail_from message r alias_id recipients domain t)
unfolding forward_as
forward_as-HasBounces s mail_from message r alias_id recipients domain t =
    queue_mail-HasBounces s domain _ recipients _ _ _

send_reply-HasBounces :
    (s : Server) (message : Text) (answered : ReplyRoute) (t : Tables)
    → HasBounces t.bounces (send_reply s message answered t)
unfolding send_reply
send_reply-HasBounces s message answered t = by_domain (reply_domain s.directory answered)
  where
    by_domain :
        (o : Option Domain)
        → HasBounces t.bounces (elim o as (λ _. Option Tables) [
          | none ↦ none
          | some domain ↦
              queue_mail s domain answered.local_address
                (answered.original_from ∷ [])
                (s.mime.clean_reply message answered)
                (some answered.local_address)
                t
        ])
    by_domain none = tt
    by_domain (some domain) =
        queue_mail-HasBounces s domain answered.local_address (answered.original_from ∷ [])
          (s.mime.clean_reply message answered) (some answered.local_address) t

forward_external-HasBounces :
    (s : Server) (mail_from message : Text) (r : Route) (recipients : List Text)
    (domain_id alias_id : Option Uuid) (t : Tables)
    → HasBounces t.bounces
        (tables_of (forward_external s mail_from message r recipients domain_id alias_id t))
unfolding forward_external
forward_external-HasBounces s mail_from message r recipients none alias_id t = refl
forward_external-HasBounces s mail_from message r recipients (some d) none t = refl
forward_external-HasBounces s mail_from message r recipients (some d) (some a) t =
    by_domain (domain_of_id d s.directory)
  where
    with_recipients :
        (o : Option Tables) (xs : List Text)
        → HasBounces t.bounces o
        → HasBounces t.bounces (tables_of (Option.map (λ (t' : Tables). (t', xs)) o))
    with_recipients none xs h = tt
    with_recipients (some u) xs h = h

    by_domain :
        (o : Option Domain)
        → HasBounces t.bounces (
            tables_of (elim o as (λ _. Option (Tables × List Text)) [
              | none ↦ none
              | some domain ↦
                  Option.map
                    (λ (t' : Tables). (t', dedupe recipients))
                    (forward_as s mail_from message r a (dedupe recipients) domain t)
            ]))
    by_domain none = tt
    by_domain (some domain) =
        with_recipients (forward_as s mail_from message r a (dedupe recipients) domain t)
          (dedupe recipients)
          (forward_as-HasBounces s mail_from message r a (dedupe recipients) domain t)

and_then-HasBounces :
    (b : Bounce.Store) (o : Option (Tables × List Text)) (f : Tables → Option (Tables × List Text))
    → HasBounces b (tables_of o)
    → ((u : Tables) → u.bounces ≡ b → HasBounces b (tables_of (f u)))
    → HasBounces b (tables_of (and_then o f))
and_then-HasBounces b none f h k = tt
and_then-HasBounces b (some (u, xs)) f h k = more (f u) (k u h)
  where
    more :
        (o : Option (Tables × List Text))
        → HasBounces b (tables_of o)
        → HasBounces b (tables_of (Option.map (λ (r : Tables × List Text). (r.0, xs ++ r.1)) o))
    more none g = tt
    more (some r) g = g

forward_each-HasBounces :
    (s : Server) (mail_from message : Text) (rs : List Route) (t : Tables)
    → HasBounces t.bounces (tables_of (forward_each s mail_from message rs t))
unfolding forward_each
forward_each-HasBounces s mail_from message [] t = refl
forward_each-HasBounces s mail_from message (r ∷ rs) t =
    and_then-HasBounces t.bounces _ (forward_each s mail_from message rs)
      (by_external (external_of s.directory r))
      (λ u h. rw (← h) (forward_each-HasBounces s mail_from message rs u))
  where
    by_external :
        (xs : List Text)
        → HasBounces t.bounces (
            tables_of (elim xs as (λ _. Option (Tables × List Text)) [
              | [] ↦ some (t, [])
              | x ∷ xs ↦ forward_external s mail_from message r (x ∷ xs) r.domain_id r.alias_id t
            ]))
    by_external [] = refl
    by_external (x ∷ xs) =
        forward_external-HasBounces s mail_from message r (x ∷ xs) r.domain_id r.alias_id t

forward_all-HasBounces :
    (s : Server) (mail_from message : Text) (is_spam : Bool) (rs : List Route) (t : Tables)
    → HasBounces t.bounces (tables_of (forward_all s mail_from message is_spam rs t))
unfolding forward_all
forward_all-HasBounces s mail_from message true rs t = refl
forward_all-HasBounces s mail_from message false rs t =
    forward_each-HasBounces s mail_from message rs t

relayed_map :
    (b : Bounce.Store) (f : Relayed → Relayed) (o : Option Relayed)
    → ((k : Relayed) → (f k).tables ≡ k.tables)
    → HasBounces b (relayed_of o)
    → HasBounces b (relayed_of (Option.map f o))
relayed_map b f none same h = tt
relayed_map b f (some k) same h = rw (same k) h

relay_by-HasBounces :
    (v : Verdict) (a : Text) (r : ReplyRoute) (sent : Option Tables)
    (rest : Tables → Option Relayed) (t : Tables)
    → HasBounces t.bounces sent
    → ((u : Tables) → HasBounces u.bounces (relayed_of (rest u)))
    → HasBounces t.bounces (relayed_of (relay_by v a r sent rest t))
unfolding relay_by
relay_by-HasBounces keep a r sent rest t h k =
    relayed_map t.bounces (keep_reply a r) (rest t) (λ x. keep_reply-tables a r x) (k t)
relay_by-HasBounces refuse a r sent rest t h k = relayed_map t.bounces _ (rest t) (λ x. refl) (k t)
relay_by-HasBounces relay a r none rest t h k = tt
relay_by-HasBounces relay a r (some u) rest t h k =
    relayed_map t.bounces _ (rest u) (λ x. refl) (rw (← h) (k u))

relay_replies-HasBounces :
    (s : Server) (mail_from message : Text) (is_spam : Bool) (rs : List (Text × ReplyRoute))
    (t : Tables)
    → HasBounces t.bounces (relayed_of (relay_replies s mail_from message is_spam rs t))
unfolding relay_replies
relay_replies-HasBounces s mail_from message is_spam [] t = refl
relay_replies-HasBounces s mail_from message is_spam ((a, r) ∷ rs) t =
    relay_by-HasBounces (reply_verdict s mail_from message is_spam r) a r (send_reply s message r t)
      (relay_replies s mail_from message is_spam rs) t (send_reply-HasBounces s message r t)
      (λ u. relay_replies-HasBounces s mail_from message is_spam rs u)

store-bounces :
    (s : Server) (mail_from message : Text) (is_spam : Bool) (rs : List Route) (extra : List Text)
    (t : Tables) (o : Outcome)
    → (store s mail_from message is_spam rs extra t o).0 ≡ t
unfolding store
store-bounces s mail_from message is_spam [] [] t o = refl
store-bounces s mail_from message is_spam [] (x ∷ xs) t o = refl
store-bounces s mail_from message is_spam (r ∷ rs) xs t o = refl

deliver_relayed-bounces :
    (s : Server) (mail_from message : Text) (is_spam : Bool) (z : Sorted) (extra : List Text)
    (t : Tables) (o : Outcome) (k : Option Relayed)
    → HasBounces t.bounces (relayed_of k)
    → (deliver_relayed s mail_from message is_spam z extra t o k).0.bounces ≡ t.bounces
unfolding deliver_relayed
deliver_relayed-bounces s mail_from message is_spam z extra t o none h = refl
deliver_relayed-bounces s mail_from message is_spam z extra t o (some k) h =
    ap (λ u. u.bounces)
      (store-bounces s mail_from message is_spam z.locals (extra ++ k.locals) k.tables (record o {
        forwarded = o.forwarded ++ k.forwarded;
        rejected = o.rejected ++ k.rejected;
        accepted = o.accepted ++ k.accepted;
      }))
    ∙ h

deliver_forwarded-bounces :
    (s : Server) (mail_from message : Text) (is_spam : Bool) (z : Sorted) (t : Tables) (o : Outcome)
    (r : Option (Tables × List Text))
    → HasBounces t.bounces (tables_of r)
    → (deliver_forwarded s mail_from message is_spam z t o r).0.bounces ≡ t.bounces
unfolding deliver_forwarded deliver_replies
deliver_forwarded-bounces s mail_from message is_spam z t o none h = refl
deliver_forwarded-bounces s mail_from message is_spam z t o (some r) h =
    deliver_relayed-bounces s mail_from message is_spam z (locals_of s.directory z.forwards) r.0
      (record o { forwarded = o.forwarded ++ r.1 })
      (relay_replies s mail_from message is_spam (reply_pairs z.replies) r.0)
      (relay_replies-HasBounces s mail_from message is_spam (reply_pairs z.replies) r.0)
    ∙ h

deliver_outbound-bounces :
    (xs : List Text) (u : Option Tables) (t : Tables) (o : Outcome)
    → HasBounces t.bounces u
    → (deliver_outbound xs u t o).0.bounces ≡ t.bounces
unfolding deliver_outbound
deliver_outbound-bounces xs none t o h = refl
deliver_outbound-bounces xs (some u) t o h = h

deliver_sorted-bounces :
    (s : Server) (mail_from message : Text) (is_spam : Bool) (z : Sorted) (xs : List Text)
    (t : Tables) (o : Outcome)
    → (deliver_sorted s mail_from message is_spam z xs t o).0.bounces ≡ t.bounces
unfolding deliver_sorted deliver_forwards
deliver_sorted-bounces s mail_from message is_spam z [] t o =
    deliver_forwarded-bounces s mail_from message is_spam z t o
      (forward_all s mail_from message is_spam z.forwards t)
      (forward_all-HasBounces s mail_from message is_spam z.forwards t)
deliver_sorted-bounces s mail_from message is_spam z (x ∷ xs) t o =
    let out = enqueue_outbound s mail_from (x ∷ xs) message t in
    let sent = deliver_outbound (x ∷ xs) out t o in
    deliver_forwarded-bounces s mail_from message is_spam z sent.0 sent.1
      (forward_all s mail_from message is_spam z.forwards sent.0)
      (forward_all-HasBounces s mail_from message is_spam z.forwards sent.0)
    ∙ deliver_outbound-bounces (x ∷ xs) out t o
        (enqueue_outbound-HasBounces s mail_from (x ∷ xs) message t)

-- Behind the checks a delivery leaves the log of bounces and the suppression list as they are.
pub deliver_routed-bounces :
    (s : Server) (mail_from : Text) (recipients : List Text) (message : Text) (is_spam : Bool)
    (t : Tables)
    → (deliver_routed s mail_from recipients message is_spam t).0.bounces ≡ t.bounces
unfolding deliver_routed
deliver_routed-bounces s mail_from recipients message is_spam t =
    let z = sort_routes s.require_auth (route_all (world_of s t) recipients) in
    deliver_sorted-bounces s mail_from (stamped s.mime message (targets z)) is_spam z z.outbound t
      (record no_outcome { rejected = z.rejected })
