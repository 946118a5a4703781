-- ===== src/Smtp/Answers.antt =====
-- `DeliveryOutcome` of src/lightr/mail/smtp.py and the one answer that a client gets for it.
use lightr.Prelude.{ℕ, Text, codes, Bool, true, false, Option, none, some, List, [], ◌∷◌, ◌++◌}
use lightr.Routing.{RejectReason, smtp_code, smtp_message}

-- A reply line: its code, the enhanced status and the text.
pub record Answer : Type 0 where
  pub code : ℕ
  pub status : Text
  pub message : Text

-- `DeliveryOutcome`
pub record Outcome : Type 0 where
  pub delivered : List Text
  pub forwarded : List Text
  pub rejected : List (Text × RejectReason)
  pub accepted : List Text
  pub error : Option Text
  pub permanent : Bool

abbrev pub no_outcome : Outcome
no_outcome = record {
  delivered = [];
  forwarded = [];
  rejected = [];
  accepted = [];
  error = none;
  permanent = false;
}

-- The answer without an error: what was taken, and the first rejection.
unfoldable pub answer_taken : List Text → List (Text × RejectReason) → Answer
unfolding smtp_code smtp_message
answer_taken (a ∷ as') rejected = record {
  code = 250;
  status = codes "2.0.0";
  message = codes "OK";
}
answer_taken [] ((recipient, reason) ∷ rs) = record {
  code = smtp_code reason;
  status = codes "5.1.1";
  message = smtp_message reason;
}
answer_taken [] [] = record {
  code = 550;
  status = codes "5.1.1";
  message = codes "No valid recipients";
}

unfoldable pub answer_error : Text → Bool → Answer
answer_error error true = record { code = 554; status = codes "5.7.1"; message = error }
answer_error error false = record { code = 451; status = codes "4.3.0"; message = error }

-- An empty error counts as none.
abbrev pub error_of : Option Text → Option Text
error_of none = none
error_of (some []) = none
error_of (some (c ∷ s)) = some (c ∷ s)

unfoldable pub answer_by : Option Text → Bool → List Text → List (Text × RejectReason) → Answer
unfolding answer_taken answer_error
answer_by (some e) permanent taken rejected = answer_error e permanent
answer_by none permanent taken rejected = answer_taken taken rejected

-- `smtp_response`
unfoldable pub smtp_response : Outcome → Answer
unfolding answer_by
smtp_response o =
    answer_by (error_of o.error) o.permanent (o.delivered ++ (o.forwarded ++ o.accepted)) o.rejected
