-- ===== src/Webhooks/Requests.antt =====
-- Where the requests for an event go.
use lightr.Prelude.{
  Bool, ℕ, All, All-append, Text, one_of, ◌≡◌, refl, sym, true, Option, none, some, List, [], ◌∷◌,
}
use lightr.Directory.{Uuid}
use lightr.Ssrf.{vet, VettedTarget, Checked, allowed_ports, ssrf_error, value_error, one_of_ports}
use lightr.Ssrf.Reach.{guarded, vet-IsOutside, IsOutsideText}
use lightr.Webhooks.{Webhook, Webhooks, Attempt, list_for}
use lightr.Webhooks.Sending.{
  Network, Request, Envelope, deliver, deliver_each, emit, request_to, deliver_vetted,
  record_delivered,
}

-- A request to an allowed port of one of the addresses of its host, all of which, unless
-- private targets are allowed, are outside the private, loopback, link-local, multicast and reserved
-- networks.
pub record IsSafe (n : Network) (allow : Bool) (r : Request) : Type 0 where
  pub port : one_of_ports r.port allowed_ports ≡ true
  pub among : one_of r.address (n.resolve r.host r.port) ≡ true
  pub all_outside : All IsOutsideText (guarded allow (n.resolve r.host r.port))

deliver_vetted-IsSafe :
    (n : Network) (allow : Bool) (w : Webhook) (e : Envelope) (v : Checked VettedTarget)
    (a : Attempt) (sent : List Request)
    → vet n.resolve w.url allow ≡ v
    → deliver_vetted n w e v ≡ some (a, sent)
    → All (IsSafe n allow) sent
unfolding request_to
deliver_vetted-IsSafe n allow w e (Checked.ok target) a sent f h =
    let (c, _, _, port, _, among, all_outside) = vet-IsOutside n.resolve w.url allow target f in
    let same : request_to n w e target ∷ [] ≡ sent = cc in
    rw (sym same) (record { port = port; among = among; all_outside = all_outside }, tt)
deliver_vetted-IsSafe n allow w e ssrf_error a sent f h =
    let same : [] ≡ sent = cc in rw (sym same) tt
deliver_vetted-IsSafe n allow w e value_error a sent f h = absurd (cc)

record_delivered-IsSafe :
    (n : Network) (allow : Bool) (w : Webhook) (e : Envelope) (event payload : Text) (now : ℕ)
    (i : Uuid) (t : Webhooks) (d : Option (Attempt × List Request))
    → deliver n allow w e ≡ d
    → All (IsSafe n allow) (record_delivered w event payload now i d t).1
unfolding deliver
record_delivered-IsSafe n allow w e event payload now i t none f = tt
record_delivered-IsSafe n allow w e event payload now i t (some (a, sent)) f =
    deliver_vetted-IsSafe n allow w e (vet n.resolve w.url allow) a sent refl f

deliver_each-IsSafe :
    (n : Network) (allow : Bool) (event payload : Text) (now : ℕ) (e : Envelope)
    (ws : List (Webhook × Uuid)) (t : Webhooks)
    → All (IsSafe n allow) (deliver_each n allow event payload now e ws t).1
unfolding deliver_each
deliver_each-IsSafe n allow event payload now e [] t = tt
deliver_each-IsSafe n allow event payload now e ((w, i) ∷ ws) t =
    All-append (IsSafe n allow) _ _
      (record_delivered-IsSafe n allow w e event payload now i t (deliver n allow w e) refl)
      (deliver_each-IsSafe n allow event payload now e ws
        (record_delivered w event payload now i (deliver n allow w e) t).0)

-- Whatever endpoints are stored and in whatever order they finish, each request that an event sends
-- goes to an allowed port of an address that its host resolved to, and, unless private targets are
-- allowed, every address of that host is outside the private, loopback, link-local, multicast and
-- reserved networks.
pub emit-IsSafe :
    (n : Network) (allow : Bool) (event payload : Text) (now : ℕ) (e : Envelope)
    (order : List Webhook → List (Webhook × Uuid)) (t : Webhooks)
    → All (IsSafe n allow) (emit n allow event payload now e order t).1
unfolding emit
emit-IsSafe n allow event payload now e order t =
    deliver_each-IsSafe n allow event payload now e (order (list_for event none t.hooks)) t
