-- ===== src/Authenticity.antt =====
-- SPF, DKIM and DMARC, src/lightr/mail/authentication.py. What the packages and DNS answer is a
-- parameter: an answer, no answer in time, or an exception. The explanations for logs are left out.
use lightr.Prelude.{
  ℕ, leb, ◌==◌, if◌then◌else◌, take, Text, codes, text_eq, is_empty, lower, rstrip_by, strip,
  contains_char, starts_with, contains, ends_with, split_on, partition, until, Bool, true, false,
  ◌&&◌, ◌||◌, not, Option, none, some, List, [], ◌∷◌, ◌++◌,
}

pub data Result : Type 0 where
  pass fail softfail neutral no_result temperror permerror : Result

abbrev pub is_pass : Result → Bool
is_pass pass = true
is_pass fail = false
is_pass softfail = false
is_pass neutral = false
is_pass no_result = false
is_pass temperror = false
is_pass permerror = false

-- `Result.is_failure`
abbrev pub is_failure : Result → Bool
is_failure pass = false
is_failure fail = true
is_failure softfail = false
is_failure neutral = false
is_failure no_result = false
is_failure temperror = false
is_failure permerror = false

abbrev pub is_temperror : Result → Bool
is_temperror pass = false
is_temperror fail = false
is_temperror softfail = false
is_temperror neutral = false
is_temperror no_result = false
is_temperror temperror = true
is_temperror permerror = false

-- `Result.is_inconclusive`
abbrev pub is_inconclusive : Result → Bool
is_inconclusive pass = false
is_inconclusive fail = false
is_inconclusive softfail = false
is_inconclusive neutral = true
is_inconclusive no_result = true
is_inconclusive temperror = true
is_inconclusive permerror = true

-- `Result(verdict)`, or `neutral` for any other word
unfoldable pub read_result : Text → Result
unfolding text_eq
read_result v =
    if text_eq v (codes "pass")
    then pass
    else if text_eq v (codes "fail")
    then fail
    else if text_eq v (codes "softfail")
    then softfail
    else if text_eq v (codes "neutral")
    then neutral
    else if text_eq v (codes "none")
    then no_result
    else if text_eq v (codes "temperror")
    then temperror
    else if text_eq v (codes "permerror")
    then permerror
    else neutral

pub data Lookup (A : Type 0) : Type 0 where
  answered : A → Lookup A
  timed_out : Lookup A
  raised : Lookup A

pub record SpfResult : Type 0 where
  pub result : Result
  pub domain : Text

pub record DkimResult : Type 0 where
  pub result : Result
  pub domain : Text
  pub selector : Text

pub record DmarcResult : Type 0 where
  pub result : Result
  pub policy : Text
  pub aligned_spf : Bool
  pub aligned_dkim : Bool

-- The domain of the envelope sender, or the name of the greeting for a bounce.
unfoldable pub spf_domain : Text → Text → Text
unfolding lower contains_char partition
spf_domain mail_from helo =
    if contains_char b'@' mail_from then lower (partition b'@' mail_from).1 else lower helo

abbrev pub spf_verdict : Lookup Text → Result
spf_verdict (answered v) = read_result v
spf_verdict timed_out = temperror
spf_verdict raised = temperror

-- `check_spf`: the lookup is by the address, the sender and the greeting.
unfoldable pub check_spf : (Text → Text → Text → Lookup Text) → Text → Text → Text → SpfResult
unfolding spf_domain is_empty read_result
check_spf lookup ip mail_from helo =
    let domain = spf_domain mail_from helo in
    let sender = if is_empty mail_from then codes "postmaster@" ++ domain else mail_from in
    let greeting = if is_empty helo then domain else helo in
    if is_empty ip
    then record { result = no_result; domain = [] }
    else if is_empty domain
    then record { result = no_result; domain = [] }
    else record { result = spf_verdict (lookup ip sender greeting); domain = domain }

abbrev drop_chars : Text → Text → Text
drop_chars [] t = t
drop_chars (x ∷ xs) [] = []
drop_chars (x ∷ xs) (y ∷ t) = drop_chars xs t

-- The text behind the first `p`, if there is one.
unfoldable pub find_behind : Text → Text → Option Text
unfolding starts_with
find_behind p [] = none
find_behind p (x ∷ t) =
    let rest = find_behind p t in
    if starts_with p (x ∷ t) then some (drop_chars p (x ∷ t)) else rest

abbrev text_or : Text → Option Text → Text
text_or t none = t
text_or t (some r) = r

-- The text behind the first `p`, or all of it.
unfoldable pub behind : Text → Text → Text
unfolding find_behind
behind p t = text_or t (find_behind p t)

-- The text before the first `p`, or all of it.
unfoldable pub before : Text → Text → Text
unfolding starts_with
before p [] = []
before p (c ∷ s) = let rest = before p s in if starts_with p (c ∷ s) then [] else c ∷ rest

-- A character of `[;\s]`
abbrev pub is_tag_end : ℕ → Bool
is_tag_end c = c == b';' || leb 9 c && leb c 13 || c == 32

-- The value of a tag: `[;\s]d=([^;\s]+)`, for the letter of the tag.
unfoldable pub tag_value : ℕ → Text → Text
unfolding until is_empty
tag_value letter [] = []
tag_value letter (a ∷ []) = []
tag_value letter (a ∷ b ∷ []) = []
tag_value letter (a ∷ b ∷ c ∷ s) =
    let rest = tag_value letter (b ∷ c ∷ s) in
    let value = until is_tag_end s in
    if is_tag_end a && b == letter && c == b'=' && not (is_empty value) then value else rest

abbrev crlf_crlf : Text
crlf_crlf = 13 ∷ 10 ∷ 13 ∷ 10 ∷ []

-- The first signature's header, as far as it is read.
unfoldable pub signature_header : Text → Text
unfolding behind before
signature_header raw = take 2_000 (before crlf_crlf (behind (codes "DKIM-Signature:") raw))

abbrev pub dkim_verdict : Lookup Bool → Result
dkim_verdict (answered true) = pass
dkim_verdict (answered false) = fail
dkim_verdict timed_out = temperror
dkim_verdict raised = permerror

-- `check_dkim`
unfoldable pub check_dkim : (Text → Lookup Bool) → Text → DkimResult
unfolding contains signature_header tag_value
check_dkim verify raw =
    let header = b';' ∷ signature_header raw in
    if contains (codes "DKIM-Signature:") raw
    then record {
      result = dkim_verdict (verify raw);
      domain = tag_value b'd' header;
      selector = tag_value b's' header;
    }
    else record { result = no_result; domain = []; selector = [] }

-- `_aligned`
unfoldable pub aligned : Text → Text → Bool
unfolding is_empty lower rstrip_by text_eq ends_with
aligned [] from_domain = false
aligned (c ∷ s) from_domain =
    let candidate = rstrip_by (λ x. x == b'.') (lower (c ∷ s)) in
    let from = rstrip_by (λ x. x == b'.') (lower from_domain) in
    text_eq candidate from
    || (ends_with (b'.' ∷ from) candidate || ends_with (b'.' ∷ candidate) from)

abbrev or_none : Text → Text
or_none [] = codes "none"
or_none (c ∷ s) = c ∷ s

-- The value of the first tag `p` of a record, or "none".
unfoldable pub policy_tag : List Text → Text
unfolding partition text_eq lower strip
policy_tag [] = codes "none"
policy_tag (t ∷ ts) =
    let rest = policy_tag ts in
    let tag = partition b'=' t in
    if text_eq (lower (strip tag.0)) (codes "p") then or_none (lower (strip tag.1)) else rest

unfoldable pub policy_of : List Text → Option Text
unfolding starts_with lower split_on policy_tag
policy_of [] = none
policy_of (text ∷ records) =
    let rest = policy_of records in
    let tags = split_on b';' text in
    if starts_with (codes "v=dmarc1") (lower text)
    then some (policy_tag (tags.0 ∷ tags.1))
    else rest

-- `_dmarc_policy`, by the texts of the records.
abbrev pub dmarc_policy : Lookup (List Text) → Option Text
dmarc_policy (answered records) = policy_of records
dmarc_policy timed_out = none
dmarc_policy raised = none

unfoldable pub dmarc_result : Bool → Bool → Bool → Result
dmarc_result by_spf by_dkim unsure =
    if by_spf || by_dkim then pass else if unsure then temperror else fail

abbrev pub no_dmarc : DmarcResult
no_dmarc = record {
  result = no_result;
  policy = codes "none";
  aligned_spf = false;
  aligned_dkim = false;
}

abbrev pub dmarc_under : Option Text → Text → SpfResult → DkimResult → DmarcResult
dmarc_under none from_domain spf dkim = no_dmarc
dmarc_under (some policy) from_domain spf dkim =
    let by_spf = is_pass spf.result && aligned spf.domain from_domain in
    let by_dkim = is_pass dkim.result && aligned dkim.domain from_domain in
    record {
      result = dmarc_result by_spf by_dkim (is_temperror spf.result || is_temperror dkim.result);
      policy = policy;
      aligned_spf = by_spf;
      aligned_dkim = by_dkim;
    }

-- `check_dmarc`, the records of the domain being what a lookup answers.
unfoldable pub check_dmarc :
    (Text → Lookup (List Text)) → Text → SpfResult → DkimResult → DmarcResult
unfolding is_empty aligned dmarc_result policy_of
check_dmarc lookup from_domain spf dkim =
    if is_empty from_domain
    then no_dmarc
    else dmarc_under (dmarc_policy (lookup from_domain)) from_domain spf dkim

-- `DMARCResult.should_reject`
unfoldable pub should_reject : DmarcResult → Bool
unfolding text_eq
should_reject d = is_failure d.result && text_eq d.policy (codes "reject")

-- `DMARCResult.should_quarantine`
unfoldable pub should_quarantine : DmarcResult → Bool
unfolding text_eq
should_quarantine d = is_failure d.result && text_eq d.policy (codes "quarantine")
