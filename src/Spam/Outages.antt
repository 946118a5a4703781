-- ===== src/Spam/Outages.antt =====
-- What mail meets while names cannot be looked up.
use lightr.Prelude.{
  ℕ, if◌then◌else◌, Bool-cases, Text, codes, is_empty, ◌+◌, ◌≡◌, refl, inl, inr, Bool, true, false,
  ◌&&◌, Option, none, some, List, ◌++◌, arith, ◌∙◌,
}
use lightr.Authenticity.{
  temperror, is_pass, is_failure, Lookup, answered, timed_out, raised, SpfResult, DkimResult,
  DmarcResult, spf_domain, spf_verdict, check_spf, check_dkim, aligned, dmarc_policy, dmarc_result,
  dmarc_under, check_dmarc, should_reject, should_quarantine, pass, is_inconclusive,
}
use lightr.Spam.{Score, add_if, score_spf, score_authentication, score_spf}
use lightr.Spam.Caps.{points-add_points}

-- Whether a lookup gave an answer.
abbrev pub is_answered : {A : Type 0} → Lookup A → Bool
is_answered (answered a) = true
is_answered timed_out = false
is_answered raised = false

spf_verdict-down : (x : Lookup Text) → is_answered x ≡ false → spf_verdict x ≡ temperror
spf_verdict-down (answered v) h = cc h
spf_verdict-down timed_out h = refl
spf_verdict-down raised h = refl

check_spf-down :
    (lookup : Text → Text → Text → Lookup Text) (ip mail_from helo : Text)
    → ((sender greeting : Text) → is_answered (lookup ip sender greeting) ≡ false)
    → is_empty ip ≡ false
    → is_empty (spf_domain mail_from helo) ≡ false
    → (check_spf lookup ip mail_from helo).result ≡ temperror
unfolding check_spf
check_spf-down lookup ip mail_from helo down has_ip has_domain =
    let domain = spf_domain mail_from helo in
    rw has_ip (
      rw has_domain (
        spf_verdict-down
          (lookup ip (if is_empty mail_from then codes "postmaster@" ++ domain else mail_from)
            (if is_empty helo then domain else helo))
          (down (if is_empty mail_from then codes "postmaster@" ++ domain else mail_from)
            (if is_empty helo then domain else helo))))

dmarc_result_unsure_if : (b : Bool) → is_failure (if b then pass else temperror) ≡ false
dmarc_result_unsure_if true = refl
dmarc_result_unsure_if false = refl

dmarc_under-down :
    (policy : Option Text) (from_domain : Text) (spf : SpfResult) (dkim : DkimResult)
    → spf.result ≡ temperror
    → is_failure (dmarc_under policy from_domain spf dkim).result ≡ false
unfolding dmarc_result aligned
dmarc_under-down none from_domain spf dkim h = refl
dmarc_under-down (some policy) from_domain spf dkim h =
    rw h (dmarc_result_unsure_if (is_pass dkim.result && aligned dkim.domain from_domain))

check_dmarc-down :
    (lookup : Text → Lookup (List Text)) (from_domain : Text) (spf : SpfResult) (dkim : DkimResult)
    → spf.result ≡ temperror
    → is_failure (check_dmarc lookup from_domain spf dkim).result ≡ false
unfolding check_dmarc
check_dmarc-down lookup from_domain spf dkim h = elim (Bool-cases (is_empty from_domain)) [
  | inl e ↦ rw e refl
  | inr e ↦ rw e (dmarc_under-down (dmarc_policy (lookup from_domain)) from_domain spf dkim h)
]

-- What a signature adds to a score.
abbrev pub dkim_points : DkimResult → ℕ
dkim_points d = if is_failure d.result then 25 else 0

points-add_if :
    (b : Bool) (r : Text) (s : Score) → (add_if b 25 r s).points ≡ s.points + (if b then 25 else 0)
unfolding add_if
points-add_if true r s = points-add_points 25 r s
points-add_if false r s = omega arith

points-add_if_no : (b : Bool) (r : Text) (s : Score) → (add_if (b && false) 5 r s).points ≡ s.points
unfolding add_if
points-add_if_no true r s = refl
points-add_if_no false r s = refl

points-score_authentication :
    (spf : SpfResult) (dkim : DkimResult) (dmarc : DmarcResult) (s : Score)
    → spf.result ≡ temperror
    → is_failure dmarc.result ≡ false
    → (score_authentication spf dkim dmarc s).points ≡ s.points + dkim_points dkim
unfolding score_authentication score_spf
points-score_authentication spf dkim dmarc s h h' =
    rw (h, h')
      (points-add_if_no (is_inconclusive dkim.result && is_inconclusive dmarc.result)
          (codes "no spf, dkim, or dmarc")
          (add_if (is_failure dkim.result) 25 (codes "dkim=fail") s)
        ∙ points-add_if (is_failure dkim.result) (codes "dkim=fail") s)

-- While SPF's lookup gives no answer, of a message that has an address and a domain to look up,
-- DMARC asks neither to refuse the message nor to set it apart, and the three checks add to its
-- score exactly what its signature adds by itself.
pub outage-spares :
    (ask_spf : Text → Text → Text → Lookup Text) (verify : Text → Lookup Bool)
    (ask_policy : Text → Lookup (List Text)) (ip mail_from helo from_domain raw : Text) (s : Score)
    → ((sender greeting : Text) → is_answered (ask_spf ip sender greeting) ≡ false)
    → is_empty ip ≡ false
    → is_empty (spf_domain mail_from helo) ≡ false
    → let spf = check_spf ask_spf ip mail_from helo in
      let dkim = check_dkim verify raw in
      let dmarc = check_dmarc ask_policy from_domain spf dkim in
      (should_reject dmarc ≡ false)
      × (should_quarantine dmarc ≡ false)
      × ((score_authentication spf dkim dmarc s).points ≡ s.points + dkim_points dkim)
unfolding should_reject should_quarantine
outage-spares ask_spf verify ask_policy ip mail_from helo from_domain raw s down has_ip has_domain =
    let spf = check_spf ask_spf ip mail_from helo in
    let dkim = check_dkim verify raw in
    let dmarc = check_dmarc ask_policy from_domain spf dkim in
    let unsure = check_spf-down ask_spf ip mail_from helo down has_ip has_domain in
    let spared = check_dmarc-down ask_policy from_domain spf dkim unsure in
    (rw spared refl, rw spared refl, points-score_authentication spf dkim dmarc s unsure spared)
