-- ===== src/Stamping/Examples.antt =====
-- A message that brings headers of the server's, from an address that spells a verdict.
use lightr.Prelude.{
  Text, codes, text_eq, lower, contains, ◌≡◌, refl, inr, Bool, true, false, none, some, [], ◌∷◌,
  all_chars,
}
use lightr.Authenticity.{answered}
use lightr.Spam.{IncomingMail}
use lightr.Sieve.{Operator, compile_condition}
use lightr.Sieve.Literals.{one_line}
use lightr.Sieve.Meaning.{run_header_test}
use lightr.Stamping.{Message, Analysis, Services, apply, analyse, same_name, values_of, stamps}
use lightr.Stamping.Controlled.{values_of-apply, is_controlled}
use lightr.Stamping.Forged.{run_header_test-forged, header_text}

abbrev brought : Message
brought = record {
  headers =
      (codes "x-spam-score", codes "0")
      ∷ (codes "Subject", codes "Hi")
      ∷ (codes "X-Spam-Score", codes "-5")
      ∷ [];
  is_multipart = true;
  parts =
      record { is_container = true; disposition = none; filename = [] }
      ∷ record {
        is_container = false;
        disposition = some (codes "inline");
        filename = codes "a.png";
      }
      ∷ record { is_container = false; disposition = none; filename = codes "b.pdf" }
      ∷ [];
}

abbrev spelled : Text
spelled = codes "dmarc=pass@evil.test"

-- The domain's own SPF passes, its signature is missing, and the domain in From refuses others.
abbrev services : Services
services = record {
  ask_spf = λ ip sender greeting. answered (codes "pass");
  verify = λ raw. answered false;
  ask_policy = λ domain. answered (codes "v=DMARC1; p=quarantine" ∷ []);
  from_domain_of = λ raw. codes "bank.test";
  rspamd = λ raw. none;
  listings = λ ip domains raw. [];
  enabled = true;
  junk = 40;
}

abbrev letter : IncomingMail
letter = record {
  has_message_id = true;
  has_date = true;
  subject = codes "Hi";
  parts = record { content_type = codes "text/plain"; size = 5; filename = [] } ∷ [];
}

abbrev analysed : Bool → Analysis
unfolding analyse
analysed require_auth =
    analyse services require_auth brought letter spelled (codes "mx.evil.test") []
      (codes "192.0.2.1") 1

verdicts :
    ((analysed false).auth.dmarc ≡ codes "fail")
    × ((analysed false).score ≡ 35)
    × ((analysed true).score ≡ 0)
    × ((analysed false).has_attachment ≡ true)
unfolding analysed
verdicts = (refl, refl, refl, refl)

values_of-apply_example :
    values_of (codes "X-SPAM-SCORE") (apply brought (analysed false) (codes "mx.acme.test")).headers
    ≡ codes "3.5" ∷ []
unfolding is_controlled analysed stamps same_name lower text_eq values_of
values_of-apply_example =
    values_of-apply (codes "X-SPAM-SCORE") brought (analysed false) (codes "mx.acme.test")

run_header_test-forged_example :
    run_header_test
      (header_text (apply brought (analysed false) (codes "mx.acme.test")).headers)
      (codes "header :contains \"Authentication-Results\" \"dmarc=pass\"")
    ≡ some true
unfolding analysed
run_header_test-forged_example =
    run_header_test-forged brought (analysed false) (codes "mx.acme.test") Operator.equals
      (codes "pass") (codes "header :contains \"Authentication-Results\" \"dmarc=pass\"", [])
      (unfold one_line all_chars in refl) (unfold compile_condition in refl)
      (inr (unfold text_eq in refl, unfold contains in refl))

-- The header of the example, whose verdict is another.
stamped :
    header_text
      (apply brought (analysed false) (codes "mx.acme.test")).headers
      (codes "Authentication-Results")
    ≡ codes "mx.acme.test; spf=pass smtp.mailfrom=dmarc=pass@evil.test; dkim=none; dmarc=fail"
unfolding analysed apply header_text values_of
stamped = refl
