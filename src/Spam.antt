-- ===== src/Spam.antt =====
-- The scores of src/lightr/mail/spam.py. Points are tenths. A reason stands beside its points, which
-- the source writes into its text. What the email package reads of a message is a parameter.
pub mod Lists
pub mod Caps
pub mod Outages
mod Examples
use lightr.Prelude.{
  ℕ, ltb, leb, ◌==◌, if◌then◌else◌, length, select, Text, codes, text_eq, lower, ends_with,
  all_chars, decimal, zero, suc, ◌+◌, ◌-◌, ◌/◌, ◌^◌, min, Bool, true, false, ◌&&◌, ◌||◌, not,
  Option, none, some, List, [], ◌∷◌, ◌++◌,
}
use lightr.Spam.Lists.{Listing, reason, weight}
use lightr.Ssrf.Addresses.{parse_v4}
use lightr.Authenticity.{
  Result, SpfResult, DkimResult, DmarcResult, pass, fail, softfail, neutral, no_result, temperror,
  permerror, is_failure, is_inconclusive, Lookup, answered, timed_out, raised,
}

pub record Score : Type 0 where
  pub points : ℕ
  pub reasons : List (Text × ℕ)

abbrev pub no_score : Score
no_score = record { points = 0; reasons = [] }

-- `Score.add`: nothing is added for no points.
unfoldable pub add_points : ℕ → Text → Score → Score
add_points zero reason s = s
add_points (suc n) reason s = record {
  points = s.points + suc n;
  reasons = s.reasons ++ ((reason, suc n) ∷ []);
}

-- `Score.verdict`: whether it is suspicious and whether it is junk.
unfoldable pub verdict : ℕ → ℕ → Score → Bool × Bool
verdict suspicious junk s = (leb suspicious s.points, leb junk s.points)

abbrev pub add_if : Bool → ℕ → Text → Score → Score
unfolding add_points
add_if true n reason s = add_points n reason s
add_if false n reason s = s

abbrev pub score_spf : Result → Score → Score
unfolding add_points
score_spf fail s = add_points 30 (codes "spf=fail") s
score_spf softfail s = add_points 10 (codes "spf=softfail") s
score_spf pass s = s
score_spf neutral s = s
score_spf no_result s = s
score_spf temperror s = s
score_spf permerror s = s

abbrev pub is_no_result : Result → Bool
is_no_result no_result = true
is_no_result pass = false
is_no_result fail = false
is_no_result softfail = false
is_no_result neutral = false
is_no_result temperror = false
is_no_result permerror = false

abbrev pub score_dmarc : Bool → Text → Score → Score
unfolding add_points text_eq
score_dmarc false policy s = s
score_dmarc true policy s =
    if text_eq policy (codes "reject")
    then add_points 50 (codes "dmarc=fail p=reject") s
    else add_points 35 (codes "dmarc=fail") s

-- `_score_authentication`
unfoldable pub score_authentication : SpfResult → DkimResult → DmarcResult → Score → Score
unfolding add_if score_spf score_dmarc
score_authentication spf dkim dmarc s =
    let by_spf = score_spf spf.result s in
    let by_dkim = add_if (is_failure dkim.result) 25 (codes "dkim=fail") by_spf in
    let by_dmarc = score_dmarc (is_failure dmarc.result) dmarc.policy by_dkim in
    add_if
      ((is_inconclusive spf.result && is_inconclusive dkim.result && is_inconclusive dmarc.result)
        && is_no_result spf.result)
      5 (codes "no spf, dkim, or dmarc") by_dmarc

abbrev pub blocklist_cap : ℕ
blocklist_cap = 60

-- The loop of `_score_reputation`, with the points that may still be added.
unfoldable pub score_listings : ℕ → List Listing → Score → Score
unfolding weight reason add_points
score_listings remaining [] s = s
score_listings remaining (l ∷ ls) s =
    let points = min (weight l) remaining in
    let rest = score_listings (remaining - points) ls (add_points points (reason l) s) in
    if points == 0 then s else rest

-- `_score_reputation`
unfoldable pub score_reputation : List Listing → Score → Score
unfolding score_listings
score_reputation ls s = score_listings blocklist_cap ls s

abbrev is_upper : ℕ → Bool
is_upper c = leb 65 c && leb c 90

abbrev is_lower : ℕ → Bool
is_lower c = leb 97 c && leb c 122

-- Whether as many characters in a row pass the test.
unfoldable pub has_run : (ℕ → Bool) → ℕ → ℕ → Text → Bool
has_run p want seen [] = leb want seen
has_run p want seen (c ∷ s) = leb want seen || has_run p want (if p c then seen + 1 else 0) s

-- `_ALL_CAPS` and `_PUNCTUATION`
unfoldable pub all_caps : Text → Bool
unfolding all_chars has_run
all_caps t = all_chars (λ c. not (is_lower c)) t && has_run is_upper 4 0 t

unfoldable pub excessive_punctuation : Text → Bool
unfolding has_run
excessive_punctuation t = has_run (λ c. c == b'!' || c == b'?') 3 0 t

-- A part of a message: its type, how long it is when decoded, and its file name.
pub record Part : Type 0 where
  pub content_type : Text
  pub size : ℕ
  pub filename : Text

-- What the scores read of a message.
pub record IncomingMail : Type 0 where
  pub has_message_id : Bool
  pub has_date : Bool
  pub subject : Text
  pub parts : List Part

-- `_score_headers`
unfoldable pub score_headers : IncomingMail → ℕ → Score → Score
unfolding add_if all_caps excessive_punctuation
score_headers m recipients s =
    let by_id = add_if (not m.has_message_id) 5 (codes "no message-id") s in
    let by_date = add_if (not m.has_date) 5 (codes "no date header") by_id in
    let by_caps =
      add_if (ltb 8 (length m.subject) && all_caps m.subject) 7 (codes "subject is all caps")
        by_date in
    let by_marks =
      add_if (excessive_punctuation m.subject) 5 (codes "excessive punctuation in subject")
        by_caps in
    add_if (ltb 20 recipients) 5 (decimal recipients ++ codes " recipients") by_marks

abbrev pub dangerous_extensions : List Text
dangerous_extensions =
    codes ".exe"
    ∷ codes ".scr"
    ∷ codes ".pif"
    ∷ codes ".com"
    ∷ codes ".bat"
    ∷ codes ".cmd"
    ∷ codes ".vbs"
    ∷ codes ".vbe"
    ∷ codes ".js"
    ∷ codes ".jse"
    ∷ codes ".wsf"
    ∷ codes ".wsh"
    ∷ codes ".msi"
    ∷ codes ".jar"
    ∷ codes ".lnk"
    ∷ codes ".ps1"
    ∷ []

-- The extension of a dangerous name; no name has two of them.
unfoldable pub dangerous_extension : Text → List Text → Option Text
unfolding ends_with
dangerous_extension name [] = none
dangerous_extension name (e ∷ es) =
    let rest = dangerous_extension name es in if ends_with e name then some e else rest

abbrev pub add_attachment : Option Text → Score → Score
unfolding add_points
add_attachment none s = s
add_attachment (some e) s = add_points 20 (codes "executable attachment " ++ e) s

unfoldable pub score_parts : List Part → Score → Score
unfolding add_attachment dangerous_extension lower
score_parts [] s = s
score_parts (p ∷ ps) s =
    score_parts ps (add_attachment (dangerous_extension (lower p.filename) dangerous_extensions) s)

unfoldable pub any_type : Text → List Part → Bool
unfolding text_eq
any_type t [] = false
any_type t (p ∷ ps) = text_eq p.content_type t || any_type t ps

abbrev pub counted_size : Part → ℕ
unfolding text_eq
counted_size p =
    if text_eq p.content_type (codes "text/plain") || text_eq p.content_type (codes "text/html")
    then p.size
    else 0

unfoldable pub body_length : List Part → ℕ
unfolding counted_size
body_length [] = 0
body_length (p ∷ ps) = counted_size p + body_length ps

-- `_score_content`
unfoldable pub score_content : IncomingMail → Score → Score
unfolding score_parts any_type body_length add_if
score_content m s =
    let by_parts = score_parts m.parts s in
    let by_html =
      add_if (any_type (codes "text/html") m.parts && not (any_type (codes "text/plain") m.parts)) 5
        (codes "html with no plain-text alternative") by_parts in
    add_if (body_length m.parts == 0) 7 (codes "empty body") by_html

-- `score_message`
unfoldable pub score_message :
    IncomingMail → SpfResult → DkimResult → DmarcResult → ℕ → List Listing → Score
unfolding score_authentication score_reputation score_headers score_content
score_message m spf dkim dmarc recipients listings = score_content m (
    score_headers m recipients
      (score_reputation listings (score_authentication spf dkim dmarc no_score)))
