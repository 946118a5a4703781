-- ===== src/Spam/Lists.antt =====
-- What reputation lists answer, src/lightr/mail/reputation.py, and the weight of a listing.
use lightr.Prelude.{
  ℕ, ◌==◌, if◌then◌else◌, select, Text, codes, text_eq, ◌/◌, ◌^◌, Bool, true, false, ◌||◌, Option,
  none, some, List, [], ◌∷◌, ◌++◌,
}
use lightr.Ssrf.Addresses.{parse_v4}
use lightr.Authenticity.{Lookup, answered, timed_out, raised}

-- `Listing`
pub record Listing : Type 0 where
  pub zone : Text
  pub listed : Text
  pub kind : Text
  pub answers : List Text

-- `Listing.is_address`
unfoldable pub is_address_listing : Listing → Bool
unfolding text_eq
is_address_listing l = text_eq l.kind (codes "address")

-- `Listing.reason`
unfoldable pub reason : Listing → Text
reason l = l.kind ++ (codes " " ++ (l.listed ++ (codes " listed on " ++ l.zone)))

unfoldable pub weight : Listing → ℕ
unfolding is_address_listing
weight l = if is_address_listing l then 30 else 25

pub data ListAnswer : Type 0 where
  listed refused invalid : ListAnswer

abbrev classify_v4 : Option ℕ → ListAnswer
classify_v4 none = invalid
classify_v4 (some n) =
    if n == 0x7f000001 || n / 2 ^ 8 == 0x7fffff
    then refused
    else if n / 2 ^ 24 == 0x7f
    then listed
    else invalid

-- `classify`
unfoldable pub classify_answer : Text → ListAnswer
unfolding parse_v4
classify_answer answer = classify_v4 (parse_v4 answer)

abbrev is_listed : ListAnswer → Bool
is_listed listed = true
is_listed refused = false
is_listed invalid = false

unfoldable pub listed_codes : List Text → List Text
unfolding select classify_answer
listed_codes answers = select (λ (a : Text). is_listed (classify_answer a)) answers

abbrev listing_of : Text → Text → Text → List Text → Option Listing
listing_of zone subject kind [] = none
listing_of zone subject kind (c ∷ cs) =
    some (record { zone = zone; listed = subject; kind = kind; answers = c ∷ cs })

-- `_lookup`: no answer, in time or at all, is no listing.
abbrev pub lookup_listing : Text → Text → Text → Lookup (List Text) → Option Listing
unfolding listed_codes
lookup_listing zone subject kind (answered answers) =
    listing_of zone subject kind (listed_codes answers)
lookup_listing zone subject kind timed_out = none
lookup_listing zone subject kind raised = none
