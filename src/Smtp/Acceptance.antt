-- ===== src/Smtp/Acceptance.antt =====
-- Which recipients a session takes, and which answers mean success.
use lightr.Prelude.{
  ℕ, Text, leb, Bool-cases, length, All, All-append, ◌≤◌, ◌≡◌, refl, ◌≢◌, ◌↔◌, inl, inr, Bool,
  false, Option, none, some, List, [], ◌∷◌, ◌++◌, Option-cases, ◌+◌, ◌<◌, true, arith,
}
use lightr.Routing.Routes.{route-Promises}
use lightr.Routing.{
  World, Disposition, smtp_code, route, RejectReason, not_local_domain, no_such_mailbox, suppressed,
  alias_loop, account_disabled, receiving_blocked, Route, rejected,
}
use lightr.Smtp.Envelope.{Envelope, refusal, append_rcpt, handle_rcpt}
use lightr.Smtp.Answers.{
  Outcome, Answer, answer_taken, answer_error, error_of, smtp_response, answer_by,
}

-- The recipients that a client names one after the other.
unfoldable pub rcpt_all : Bool → ℕ → World → List Text → Envelope → Envelope
rcpt_all require_auth max_recipients w [] e = e
rcpt_all require_auth max_recipients w (a ∷ as') e =
    rcpt_all require_auth max_recipients w as' (handle_rcpt require_auth max_recipients w a e).0

-- The router does not reject the address.
abbrev pub IsRouted : World → Text → Type 0
IsRouted w a = (route w a).disposition ≢ Disposition.reject

-- At most so many recipients, and each of them is routed.
pub record IsTaken (max_recipients : ℕ) (w : World) (e : Envelope) : Type 0 where
  pub few : length e.rcpt_tos ≤ max_recipients
  pub routed : All (IsRouted w) e.rcpt_tos

refusal-some : (r : Route) → r.disposition ≡ Disposition.reject → r.reason ≢ none → refusal r ≢ none
unfolding refusal
refusal-some r d n h = elim (Option-cases r.reason) [
  | inl e ↦ n e
  | inr e ↦ ground (arith, d, e.1, h)
]

refusal-none : (w : World) (a : Text) → refusal (route w a) ≡ none → IsRouted w a
refusal-none w a h p = refusal-some (route w a) p (rw p at (route-Promises w a)) h

length-append_one : (xs : List Text) (a : Text) → length (xs ++ a ∷ []) ≡ length xs + 1
length-append_one [] a = omega arith
length-append_one (x ∷ xs) a = omega (arith, length-append_one xs a)

lt_of_leb : (m n : ℕ) → leb m n ≡ false → n < m
lt_of_leb m n h = ground arith

handle_rcpt-IsTaken :
    (n : ℕ) (w : World) (a : Text) (e : Envelope)
    → IsTaken n w e
    → IsTaken n w (handle_rcpt false n w a e).0
unfolding handle_rcpt
handle_rcpt-IsTaken n w a e h = elim (Bool-cases (leb n (length e.rcpt_tos))) [
  | inl f ↦ rw f h
  | inr f ↦ rw f (by_answer f (refusal (route w a)) refl)
]
  where
    by_answer :
        leb n (length e.rcpt_tos) ≡ false
        → (o : Option Answer) → refusal (route w a) ≡ o
        → IsTaken n w (append_rcpt a e o).0
    by_answer f none r = record {
      few = omega (arith, length-append_one e.rcpt_tos a, lt_of_leb n (length e.rcpt_tos) f);
      routed = All-append (IsRouted w) e.rcpt_tos (a ∷ []) h.routed (refusal-none w a r, tt);
    }
    by_answer f (some x) r = h

-- Whatever recipients a client names to the receive listener, the envelope holds at most as many
-- as are allowed, and only ones that the router does not reject.
pub rcpt_all-IsTaken :
    (n : ℕ) (w : World) (as' : List Text) (e : Envelope)
    → IsTaken n w e
    → IsTaken n w (rcpt_all false n w as' e)
unfolding rcpt_all
rcpt_all-IsTaken n w [] e h = h
rcpt_all-IsTaken n w (a ∷ as') e h =
    rcpt_all-IsTaken n w as' (handle_rcpt false n w a e).0 (handle_rcpt-IsTaken n w a e h)

smtp_code-ne_250 : (r : RejectReason) → smtp_code r ≢ 250
unfolding smtp_code
smtp_code-ne_250 not_local_domain p = omega arith
smtp_code-ne_250 no_such_mailbox p = omega arith
smtp_code-ne_250 suppressed p = omega arith
smtp_code-ne_250 alias_loop p = omega arith
smtp_code-ne_250 account_disabled p = omega arith
smtp_code-ne_250 receiving_blocked p = omega arith

answer_taken-code :
    (taken : List Text) (rejected : List (Text × RejectReason))
    → ((answer_taken taken rejected).code ≡ 250) ↔ (taken ≢ [])
unfolding answer_taken
answer_taken-code (a ∷ as') rejected = (λ p q. cc, λ p. refl)
answer_taken-code [] ((a, r) ∷ rs) = (λ p. absurd (smtp_code-ne_250 r p), λ p. absurd (p refl))
answer_taken-code [] [] = (λ p. absurd (omega arith), λ p. absurd (p refl))

answer_error-code : (e : Text) (permanent : Bool) → (answer_error e permanent).code ≢ 250
unfolding answer_error
answer_error-code e true p = omega arith
answer_error-code e false p = omega arith

-- The answer to a message is 250 exactly if there is no error and a recipient was delivered,
-- forwarded or accepted.
smtp_response-code :
    (o : Outcome)
    → ((smtp_response o).code ≡ 250)
      ↔ ((error_of o.error ≡ none) × (o.delivered ++ (o.forwarded ++ o.accepted) ≢ []))
unfolding smtp_response
smtp_response-code o =
    by_error (error_of o.error) o.permanent (o.delivered ++ (o.forwarded ++ o.accepted)) o.rejected
  where
    by_error :
        (e : Option Text) (permanent : Bool) (taken : List Text)
        (rejected : List (Text × RejectReason))
        → ((answer_by e permanent taken rejected).code ≡ 250) ↔ ((e ≡ none) × (taken ≢ []))
    by_error none permanent taken rejected =
        unfold answer_by in
        let c = answer_taken-code taken rejected in (λ p. (refl, c.0 p), λ p. c.1 p.1)
    by_error (some e) permanent taken rejected =
        unfold answer_by in (λ p. absurd (answer_error-code e permanent p), λ p. absurd (cc (p.0)))
