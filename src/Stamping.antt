-- ===== src/Stamping.antt =====
-- The headers that carry the analysis of a message to Sieve, src/lightr/mail/headers.py, and the
-- analysis, `analyse` of src/lightr/mail/smtp.py. The dates and the identifiers that the email
-- package makes, and what rspamd and the reputation lists answer, are parameters.
pub mod Controlled
pub mod Forged
mod Examples
use lightr.Prelude.{
  ℕ, leb, if◌then◌else◌, Text, codes, text_eq, is_empty, lower, contains_char, join, decimal, ◌/◌,
  ◌%◌, Bool, true, false, ◌&&◌, ◌||◌, not, Option, none, some, List, [], ◌∷◌, ◌++◌,
}
use lightr.Smtp.Delivery.{behind_last_at}
use lightr.Authenticity.{Result, Lookup, check_spf, check_dkim, check_dmarc}
use lightr.Spam.Lists.{Listing}
use lightr.Spam.{Score, IncomingMail, score_message}

pub record MessagePart : Type 0 where
  pub is_container : Bool
  pub disposition : Option Text
  pub filename : Text

-- A message as the email package holds it: its headers in their order, and its parts.
pub record Message : Type 0 where
  pub headers : List (Text × Text)
  pub is_multipart : Bool
  pub parts : List MessagePart

-- The package compares names of headers without their case.
unfoldable pub same_name : Text → Text → Bool
unfolding text_eq lower
same_name a b = text_eq (lower a) (lower b)

-- `name in message`
unfoldable pub is_present : Text → List (Text × Text) → Bool
unfolding same_name
is_present name [] = false
is_present name ((n, v) ∷ hs) = same_name name n || is_present name hs

-- `del message[name]`: every header of the name.
unfoldable pub delete_header : Text → List (Text × Text) → List (Text × Text)
unfolding same_name
delete_header name [] = []
delete_header name ((n, v) ∷ hs) =
    let rest = delete_header name hs in if same_name name n then rest else (n, v) ∷ rest

-- `message.get_all(name)`
unfoldable pub values_of : Text → List (Text × Text) → List Text
unfolding same_name
values_of name [] = []
values_of name ((n, v) ∷ hs) =
    let rest = values_of name hs in if same_name name n then v ∷ rest else rest

-- `CONTROLLED_HEADERS`
abbrev pub controlled_headers : List Text
controlled_headers =
    codes "X-Spam-Score"
    ∷ codes "X-Spam-Flag"
    ∷ codes "X-Lightr-Spam-Action"
    ∷ codes "X-Lightr-Has-Attachment"
    ∷ codes "Authentication-Results"
    ∷ codes "X-Lightr-Spam-Reasons"
    ∷ []

-- The loops of `strip_controlled`: a name is gone when it is deleted once.
unfoldable pub strip_each : List Text → List (Text × Text) → List Text × List (Text × Text)
unfolding is_present delete_header
strip_each [] hs = ([], hs)
strip_each (n ∷ ns) hs =
    let without = strip_each ns (delete_header n hs) in
    let unchanged = strip_each ns hs in
    if is_present n hs then (n ∷ without.0, without.1) else unchanged

-- `strip_controlled`: the names that were there, and the message without them.
unfoldable pub strip_controlled : Message → List Text × Message
unfolding strip_each
strip_controlled m =
    let stripped = strip_each controlled_headers m.headers in
    (stripped.0, record m { headers = stripped.1 })

pub record AuthResults : Type 0 where
  pub spf : Text
  pub dkim : Text
  pub dmarc : Text
  pub mail_from : Text
  pub helo : Text

abbrev pub no_auth_results : Text → Text → AuthResults
no_auth_results mail_from helo = record {
  spf = codes "none";
  dkim = codes "none";
  dmarc = codes "none";
  mail_from = mail_from;
  helo = helo;
}

-- The part of `AuthResults.render` on SPF.
unfoldable pub spf_part : AuthResults → Text
unfolding text_eq is_empty
spf_part a =
    if not (text_eq a.spf (codes "none"))
    then codes "spf="
      ++ (a.spf ++ (if is_empty a.mail_from then [] else codes " smtp.mailfrom=" ++ a.mail_from))
    else codes "spf=none"

-- `AuthResults.render`
unfoldable pub render_auth : AuthResults → Text → Text
unfolding spf_part join
render_auth a hostname =
    join (codes "; ")
      (hostname ∷ spf_part a ∷ (codes "dkim=" ++ a.dkim) ∷ (codes "dmarc=" ++ a.dmarc) ∷ [])

-- The score is in tenths.
pub record Analysis : Type 0 where
  pub score : ℕ
  pub is_spam : Bool
  pub reasons : List Text
  pub auth : AuthResults
  pub has_attachment : Bool

abbrev is_attached : Bool → Option Text → Text → Bool
unfolding text_eq is_empty lower
is_attached true disposition filename = false
is_attached false none filename = not (is_empty filename)
is_attached false (some d) filename =
    text_eq (lower d) (codes "attachment")
    || not (is_empty filename) && not (text_eq (lower d) (codes "inline"))

unfoldable pub any_attached : List MessagePart → Bool
unfolding is_attached
any_attached [] = false
any_attached (p ∷ ps) = is_attached p.is_container p.disposition p.filename || any_attached ps

-- `has_attachment`
unfoldable pub attached : Message → Bool
unfolding any_attached
attached m = m.is_multipart && any_attached m.parts

-- A number of tenths with one place, `f"{x:.1f}"`.
unfoldable pub one_place : ℕ → Text
unfolding decimal
one_place n = decimal (n / 10) ++ (codes "." ++ decimal (n % 10))

abbrev pub reasons_header : List Text → List (Text × Text)
unfolding join
reasons_header [] = []
reasons_header (r ∷ rs) = (codes "X-Lightr-Spam-Reasons", join (codes ", ") (r ∷ rs)) ∷ []

-- What `apply` writes, in its order.
unfoldable pub stamps : Analysis → Text → List (Text × Text)
unfolding one_place render_auth reasons_header
stamps a hostname =
    (codes "X-Spam-Score", one_place a.score)
    ∷ (codes "X-Spam-Flag", if a.is_spam then codes "YES" else codes "NO")
    ∷ (codes "X-Lightr-Has-Attachment", if a.has_attachment then codes "yes" else codes "no")
    ∷ (codes "Authentication-Results", render_auth a.auth hostname)
    ∷ reasons_header a.reasons

-- `apply`: a header that is set comes last.
unfoldable pub apply : Message → Analysis → Text → Message
unfolding strip_controlled stamps
apply m a hostname =
    let bare = (strip_controlled m).1 in record bare { headers = bare.headers ++ stamps a hostname }

abbrev set_missing : Text → Text → Message → Message
unfolding is_present
set_missing name value m =
    if is_present name m.headers
    then m
    else record m { headers = m.headers ++ ((name, value) ∷ []) }

-- `ensure_message_id` and `ensure_date`, by what the package makes
unfoldable pub ensure_message_id : Text → Message → Message
unfolding set_missing
ensure_message_id id m = set_missing (codes "Message-ID") id m

unfoldable pub ensure_date : Text → Message → Message
unfolding set_missing
ensure_date date m = set_missing (codes "Date") date m

-- `add_received`: on top of the other headers.
unfoldable pub add_received : Text → Text → Text → Text → Text → Text → Text → Message → Message
unfolding is_empty
add_received id date hostname remote_ip helo recipient protocol m = record m {
  headers =
      (
        codes "Received",
        codes "from "
            ++ ((if is_empty helo then remote_ip else helo)
                ++ (codes " (["
                    ++ (remote_ip
                        ++ (codes "])\r\n\tby "
                            ++ (hostname
                                ++ (codes " with "
                                    ++ (protocol
                                        ++ (codes " id "
                                            ++ (id
                                                ++ (codes "\r\n\tfor <"
                                                    ++ (recipient
                                                        ++ (codes ">; " ++ date)))))))))))),
      )
      ∷ m.headers;
}

abbrev pub result_text : Result → Text
result_text Result.pass = codes "pass"
result_text Result.fail = codes "fail"
result_text Result.softfail = codes "softfail"
result_text Result.neutral = codes "neutral"
result_text Result.no_result = codes "none"
result_text Result.temperror = codes "temperror"
result_text Result.permerror = codes "permerror"

-- A reason as `Score.add` writes it.
unfoldable pub reason_texts : List (Text × ℕ) → List Text
unfolding one_place
reason_texts [] = []
reason_texts ((r, n) ∷ rs) = (r ++ (codes " (+" ++ (one_place n ++ codes ")"))) ∷ reason_texts rs

-- A score as it is used: its points in tenths and its reasons.
abbrev Rated : Type 0
Rated = ℕ × List Text

-- What an analysis asks outside the program, and the part of the settings that it reads.
pub record Services : Type 0 where
  pub ask_spf : Text → Text → Text → Lookup Text
  pub verify : Text → Lookup Bool
  pub ask_policy : Text → Lookup (List Text)
  pub from_domain_of : Text → Text
  pub rspamd : Text → Option Rated
  pub listings : Text → List Text → Text → List Listing
  pub enabled : Bool
  pub junk : ℕ

abbrev or_local : Option Rated → Rated → Rated
or_local none own = own
or_local (some r) own = r

abbrev behind_at : Text → Text
unfolding contains_char behind_last_at
behind_at mail_from = if contains_char b'@' mail_from then behind_last_at mail_from else []

-- `analyse`, of a message, what the scores read of it, and its bytes.
unfoldable pub analyse :
    Services → Bool → Message → IncomingMail → Text → Text → Text → Text → ℕ → Analysis
unfolding check_spf check_dkim check_dmarc score_message reason_texts attached behind_at
analyse s require_auth m mail mail_from helo raw remote_ip recipients =
    let spf = check_spf s.ask_spf remote_ip mail_from helo in
    let dkim = check_dkim s.verify raw in
    let from_domain = s.from_domain_of raw in
    let dmarc = check_dmarc s.ask_policy from_domain spf dkim in
    let own =
      score_message mail spf dkim dmarc recipients
        (s.listings remote_ip (behind_at mail_from ∷ from_domain ∷ []) raw) in
    let score = or_local (s.rspamd raw) (own.points, reason_texts own.reasons) in
    if require_auth || not s.enabled
    then record {
      score = 0;
      is_spam = false;
      reasons = [];
      auth = no_auth_results mail_from helo;
      has_attachment = attached m;
    }
    else record {
      score = score.0;
      is_spam = leb s.junk score.0;
      reasons = score.1;
      auth = record {
        spf = result_text spf.result;
        dkim = result_text dkim.result;
        dmarc = result_text dmarc.result;
        mail_from = mail_from;
        helo = helo;
      };
      has_attachment = attached m;
    }
