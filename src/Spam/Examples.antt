-- ===== src/Spam/Examples.antt =====
-- A forged message with a program, and an outage of the name service.
use lightr.Prelude.{Text, codes, ◌+◌, ◌≡◌, refl, Bool, true, false, List, [], ◌∷◌}
use lightr.Authenticity.{
  fail, pass, no_result, Lookup, answered, timed_out, SpfResult, DkimResult, spf_domain, check_spf,
  check_dkim, aligned, no_dmarc, check_dmarc, should_reject, should_quarantine,
}
use lightr.Spam.Lists.{Listing, listed, refused, invalid, classify_answer}
use lightr.Spam.{
  Score, score_message, no_score, score_authentication, score_reputation, IncomingMail,
}
use lightr.Spam.Caps.{total_weight}
use lightr.Spam.Outages.{outage-spares}

abbrev policies : Text → Lookup (List Text)
policies d = answered (codes "v=spf1 -all" ∷ codes "v=DMARC1; p=Reject; pct=100" ∷ [])

abbrev signed : Text
signed = codes "DKIM-Signature: v=1; d=acme.test; s=k1\nFrom: ann@acme.test\n"

-- The names of a signature.
identity :
    check_dkim (λ raw. answered true) signed
    ≡ record { result = pass; domain = codes "acme.test"; selector = codes "k1" }
unfolding check_dkim
identity = refl

abbrev spf_of : Lookup Text → SpfResult
unfolding check_spf
spf_of answer =
    check_spf (λ ip sender greeting. answer) (codes "192.0.2.1") (codes "ann@acme.test")
      (codes "mx.acme.test")

-- A domain and the domains below it are aligned, and two below the same one are not.
siblings :
    (aligned (codes "mail.acme.test") (codes "Acme.test") ≡ true)
    × (aligned (codes "mail.acme.test") (codes "news.acme.test") ≡ false)
unfolding aligned
siblings = (refl, refl)

-- The decision on a message whose signature does not verify, by the answer of SPF.
abbrev refused_by : Lookup Text → Bool
unfolding should_reject check_dmarc check_dkim spf_of
refused_by answer = should_reject (
    check_dmarc policies (codes "acme.test") (spf_of answer)
      (check_dkim (λ raw. answered false) signed))

forged : (refused_by (answered (codes "fail")) ≡ true) × (refused_by timed_out ≡ false)
unfolding refused_by
forged = (refl, refl)

abbrev listing : Text → Listing
listing kind = record {
  zone = codes "bl.test";
  listed = codes "192.0.2.1";
  kind = kind;
  answers = [];
}

abbrev three_lists : List Listing
three_lists = listing (codes "address") ∷ listing (codes "domain") ∷ listing (codes "address") ∷ []

weights : (total_weight three_lists ≡ 85) × ((score_reputation three_lists no_score).points ≡ 60)
unfolding total_weight score_reputation
weights = (refl, refl)

abbrev program : IncomingMail
program = record {
  has_message_id = false;
  has_date = true;
  subject = codes "FREE MONEY!!!";
  parts =
      record { content_type = codes "text/html"; size = 12; filename = [] }
      ∷ record {
        content_type = codes "application/octet-stream";
        size = 900;
        filename = codes "Invoice.PDF.exe";
      }
      ∷ [];
}

abbrev spf_failed : SpfResult
spf_failed = record { result = fail; domain = codes "acme.test" }

abbrev unsigned : DkimResult
unsigned = record { result = no_result; domain = []; selector = [] }

abbrev score : Score
unfolding score_message
score = score_message program spf_failed unsigned no_dmarc 1 three_lists

scored : score.points ≡ 132
unfolding score
scored = refl

outage-spares_example :
    let spf =
      check_spf (λ ip sender greeting. timed_out) (codes "192.0.2.1") (codes "ann@acme.test") [] in
    let dkim = check_dkim (λ raw. answered false) signed in
    let dmarc = check_dmarc policies (codes "acme.test") spf dkim in
    (should_reject dmarc ≡ false)
    × (should_quarantine dmarc ≡ false)
    × ((score_authentication spf dkim dmarc no_score).points ≡ 0 + 25)
unfolding check_dkim check_spf spf_domain
outage-spares_example =
    outage-spares (λ ip sender greeting. timed_out) (λ raw. answered false) policies
      (codes "192.0.2.1") (codes "ann@acme.test") [] (codes "acme.test") signed no_score
      (λ sender greeting. refl) refl refl

-- What lists answer: a listing, a refusal, and what is neither.
answers :
    (classify_answer (codes "127.0.0.2") ≡ listed)
    × (classify_answer (codes "127.255.255.254") ≡ refused)
    × (classify_answer (codes "192.0.2.1") ≡ invalid)
unfolding classify_answer
answers = (refl, refl, refl)
