-- ===== src/Bounce.antt =====
-- Bounces and the suppression list, src/lightr/mail/bounce.py: the decision between permanent and
-- temporary failures, the fields of a report, and the tables `bounces` and `suppression_list`.
-- The walk through the parts of a message is the email package's and is not modelled; the clock is
-- an argument.
pub mod Addresses
pub mod Reasons
pub mod Suppression
mod Examples
use lightr.Prelude.{
  ℕ, Text, ltb, leb, ◌==◌, if◌then◌else◌, take, select, first, delete, count, order_by_desc, codes,
  text_eq, one_of, lower, strip_by, strip, cut, starts_with, contains, Bool, true, false, ◌&&◌,
  ◌||◌, not, Option, none, some, List, [], ◌∷◌, ◌++◌,
}
use lightr.Directory.{Uuid}

-- `BounceType`
pub data BounceType : Type 0 where
  hard soft complaint unknown : BounceType

-- `BounceType.should_suppress`
unfoldable pub should_suppress : BounceType → Bool
should_suppress BounceType.hard = true
should_suppress BounceType.complaint = true
should_suppress _ = false

abbrev pub hard_status : List Text
hard_status =
    codes "5.1.1"
    ∷ codes "5.1.2"
    ∷ codes "5.1.3"
    ∷ codes "5.1.6"
    ∷ codes "5.2.1"
    ∷ codes "5.4.4"
    ∷ []

abbrev pub soft_status : List Text
soft_status =
    codes "4.2.2"
    ∷ codes "5.2.2"
    ∷ codes "4.4.1"
    ∷ codes "4.4.7"
    ∷ codes "4.7.1"
    ∷ codes "4.2.0"
    ∷ []

-- `_HARD_PHRASES`
abbrev pub hard_phrases : List Text
hard_phrases =
    codes "user unknown"
    ∷ codes "no such user"
    ∷ codes "no such recipient"
    ∷ codes "recipient not found"
    ∷ codes "unknown recipient"
    ∷ codes "does not exist"
    ∷ codes "invalid recipient"
    ∷ codes "address rejected"
    ∷ codes "mailbox unavailable"
    ∷ codes "no mailbox here"
    ∷ codes "unrouteable address"
    ∷ []

-- `_SOFT_PHRASES`
abbrev pub soft_phrases : List Text
soft_phrases =
    codes "mailbox full"
    ∷ codes "over quota"
    ∷ codes "quota exceeded"
    ∷ codes "insufficient storage"
    ∷ codes "try again later"
    ∷ codes "greylist"
    ∷ codes "temporarily deferred"
    ∷ codes "temporary failure"
    ∷ codes "connection timed out"
    ∷ []

-- One of the phrases is in the text.
unfoldable pub any_phrase : Text → List Text → Bool
unfolding contains
any_phrase s [] = false
any_phrase s (p ∷ ps) = contains p s || any_phrase s ps

abbrev pub is_digit : ℕ → Bool
is_digit c = leb b'0' c && leb c b'9'

-- `\w` on ASCII
abbrev pub is_word : ℕ → Bool
is_word c = is_digit c || leb b'a' c && leb c b'z' || leb b'A' c && leb c b'Z' || c == b'_'

-- No word goes on at the head of the text.
abbrev pub at_boundary : Text → Bool
at_boundary [] = true
at_boundary (c ∷ s) = not (is_word c)

-- The first digit of a match of `_SMTP_CODE` at the head of the text.
unfoldable pub code_here : Text → Option ℕ
code_here (a ∷ b ∷ c ∷ s) =
    if (a == b'4' || a == b'5') && is_digit b && is_digit c && at_boundary s then some a else none
code_here _ = none

-- The search for `_SMTP_CODE`, after a word character or not.
unfoldable pub code_search : Bool → Text → Option ℕ
unfolding code_here
code_search after_word [] = none
code_search after_word (c ∷ s) =
    let rest = code_search (is_word c) s in
    if after_word then rest else elim (code_here (c ∷ s)) [ none ↦ rest | some a ↦ some a ]

-- The decision by the status.
unfoldable pub by_status : Text → Option BounceType
unfolding one_of starts_with
by_status status =
    if one_of status soft_status
    then some BounceType.soft
    else if one_of status hard_status
    then some BounceType.hard
    else if starts_with (codes "4") status
    then some BounceType.soft
    else if starts_with (codes "5") status
    then some BounceType.hard
    else none

abbrev pub by_code : Option ℕ → BounceType
by_code none = BounceType.unknown
by_code (some a) = if a == b'4' then BounceType.soft else BounceType.hard

-- The decision by the text of the diagnostic, the soft phrases first.
unfoldable pub by_diagnostic : Option Text → BounceType
unfolding any_phrase lower code_search
by_diagnostic none = BounceType.unknown
by_diagnostic (some diagnostic) =
    if any_phrase (lower diagnostic) soft_phrases
    then BounceType.soft
    else if any_phrase (lower diagnostic) hard_phrases
    then BounceType.hard
    else by_code (code_search false diagnostic)

-- `classify`: an empty status counts as none, and an empty diagnostic has nothing to find.
unfoldable pub classify : Option Text → Option Text → BounceType
unfolding by_status by_diagnostic
classify none diagnostic = by_diagnostic diagnostic
classify (some status) diagnostic = elim (by_status status) [
  | some t ↦ t
  | none ↦ by_diagnostic diagnostic
]

-- `strip().strip("<>").strip()`
unfoldable pub bare_address : Text → Text
unfolding strip strip_by
bare_address s = strip (strip_by (λ c. c == b'<' || c == b'>') (strip s))

-- The text behind the first `;`, or all of it.
unfoldable pub behind_type : Text → Text
unfolding cut
behind_type s = elim (cut b';' s) [ none ↦ s | some p ↦ p.1 ]

-- `_clean_address`
unfoldable pub clean_address : Text → Text
unfolding behind_type bare_address strip lower
clean_address value = lower (bare_address (behind_type (strip value)))

abbrev non_empty : Text → Option Text
non_empty [] = none
non_empty (c ∷ s) = some (c ∷ s)

-- `_strip_type`
unfoldable pub strip_type : Option Text → Option Text
unfolding behind_type strip
strip_type none = none
strip_type (some value) = non_empty (strip (behind_type value))

-- `Bounce`
pub record Bounce : Type 0 where
  pub recipient : Text
  pub bounce_type : BounceType
  pub status : Option Text
  pub diagnostic : Option Text
  pub remote_mta : Option Text
  pub original_message_id : Option Text

-- A row of `bounces`.
pub record BounceRow : Type 0 where
  pub org_id : Uuid
  pub domain_id : Uuid
  pub original_msg_id : Option Text
  pub recipient_email : Text
  pub bounce_type : BounceType
  pub diagnostic_code : Option Text
  pub remote_mta : Option Text
  pub created_at : ℕ

-- A row of `suppression_list`.
pub record Suppressed : Type 0 where
  pub email : Text
  pub reason : Text
  pub org_id : Option Uuid
  pub created_at : ℕ

pub record Store : Type 0 where
  pub bounces : List BounceRow
  pub suppression_list : List Suppressed

-- `email.strip().lower()`
unfoldable pub normalise : Text → Text
unfolding strip lower
normalise email = lower (strip email)

-- `row is not None`
abbrev pub is_some {ℓ} : {A : Type ℓ} → Option A → Bool
is_some none = false
is_some (some a) = true

-- `is_suppressed`
unfoldable pub is_suppressed : Text → Store → Bool
unfolding normalise first text_eq
is_suppressed email st =
    is_some (first (λ r. text_eq r.email (normalise email)) st.suppression_list)

-- `suppress`: the test normalises the normalised address once more.
unfoldable pub suppress : Text → Text → Option Uuid → ℕ → Store → Store
unfolding is_suppressed normalise
suppress email reason org_id now st =
    let address = normalise email in
    if is_suppressed address st then st else record st {
      suppression_list =
          st.suppression_list
          ++ record { email = address; reason = take 255 reason; org_id = org_id; created_at = now }
            ∷ [];
    }

-- `unsuppress`
unfoldable pub unsuppress : Text → Store → Store × Bool
unfolding normalise delete count text_eq
unsuppress email st =
    let p = λ (r : Suppressed). text_eq r.email (normalise email) in
    (
      record st { suppression_list = delete p st.suppression_list },
      ltb 0 (count p st.suppression_list),
    )

abbrev pub type_name : BounceType → Text
type_name BounceType.hard = codes "hard"
type_name BounceType.soft = codes "soft"
type_name BounceType.complaint = codes "complaint"
type_name BounceType.unknown = codes "unknown"

-- The reason that `record` gives.
abbrev pub reason_of : BounceType → Option Text → Text
reason_of t none = type_name t ++ codes ": no status"
reason_of t (some []) = type_name t ++ codes ": no status"
reason_of t (some (c ∷ s)) = type_name t ++ (codes ": " ++ (c ∷ s))

abbrev pub short_diagnostic : Option Text → Option Text
short_diagnostic none = none
short_diagnostic (some d) = non_empty (take 1000 d)

-- The insert of `record`.
unfoldable pub log_bounce : Bounce → Uuid → Uuid → ℕ → Store → Store
log_bounce b org_id domain_id now st = record st {
  bounces =
      st.bounces
      ++ record {
        org_id = org_id;
        domain_id = domain_id;
        original_msg_id = b.original_message_id;
        recipient_email = b.recipient;
        bounce_type = b.bounce_type;
        diagnostic_code = short_diagnostic b.diagnostic;
        remote_mta = b.remote_mta;
        created_at = now;
      }
        ∷ [];
}

-- `record`
unfoldable pub record_bounce : Bounce → Uuid → Uuid → ℕ → Store → Store × Bool
unfolding log_bounce should_suppress suppress
record_bounce b org_id domain_id now st =
    let logged = log_bounce b org_id domain_id now st in
    if should_suppress b.bounce_type
    then (suppress b.recipient (reason_of b.bounce_type b.status) (some org_id) now logged, true)
    else (logged, false)

-- `list_suppressed`
unfoldable pub list_suppressed : ℕ → Store → List Suppressed
unfolding order_by_desc
list_suppressed limit st = take limit (order_by_desc (λ r. r.created_at) st.suppression_list)

-- `list_bounces`: an empty recipient counts as none.
unfoldable pub list_bounces : Option Text → ℕ → Store → List BounceRow
unfolding order_by_desc select normalise text_eq
list_bounces none limit st = take limit (order_by_desc (λ r. r.created_at) st.bounces)
list_bounces (some []) limit st = take limit (order_by_desc (λ r. r.created_at) st.bounces)
list_bounces (some (c ∷ s)) limit st = take limit (
    order_by_desc (λ r. r.created_at)
      (select (λ r. text_eq r.recipient_email (normalise (c ∷ s))) st.bounces))
