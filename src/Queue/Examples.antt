-- ===== src/Queue/Examples.antt =====
-- Runs of the queue, and its theorems at concrete rows.
use lightr.Prelude.{
  length, All, first, Text, codes, ◌≤◌, ◌≡◌, refl, false, none, some, List, [], ◌∷◌, map,
}
use lightr.Queue.Steps.{Step, here, next, Reach, IsExclusive, System}
use lightr.Queue.{
  Table, Status, status_eq, Row, Submission, ok, new_row, enqueue, due_rows, to_model, mark_sending,
  claim_one, claim, retry_now,
}
use lightr.Queue.Rows.{row_of}
use lightr.Queue.Claim.{claim-IsDue, claimed_from, IsDue}
use lightr.Queue.Exclusive.{Reach-IsExclusive}
use lightr.Queue.Lifecycle.{enqueue-claim, retry_now-claim}

abbrev letter : List Text → Submission
letter to = record {
  org_id = 1;
  domain_id = 2;
  from_addr = codes "ops@acme.test";
  to_addrs = to;
  subject = codes "hello";
  body = codes "hi";
  html_body = none;
  headers = [];
  max_attempts = 5;
  raw = none;
  envelope_from = none;
}

abbrev to_bob : Submission
to_bob = letter (codes "bob@example.test" ∷ [])

abbrev row_7 : Row
row_7 = new_row 7 100 to_bob

abbrev row_8 : Row
row_8 = new_row 8 50 to_bob

abbrev one_row : Table
one_row = row_7 ∷ []

abbrev two_rows : Table
two_rows = row_7 ∷ row_8 ∷ []

-- The row with the earlier time comes first, and the limit cuts the rest.
claim_order : map (λ m. m.id) (claim 100 1 two_rows).1 ≡ 8 ∷ []
unfolding claim
claim_order = refl

enqueue_bob : enqueue 7 100 to_bob [] ≡ ok (one_row, 7)
unfolding enqueue
enqueue_bob = refl

claim-IsDue_example :
    ((claim 100 1 two_rows).1 ≡ map (claimed_from 100) (due_rows 100 1 two_rows))
    × All (IsDue 100) (due_rows 100 1 two_rows)
    × (length (due_rows 100 1 two_rows) ≤ 1)
claim-IsDue_example = claim-IsDue 100 1 two_rows ((refl, tt), (tt, tt))

abbrev idle : System
idle = record { table = []; held = [] }

abbrev queued : System
queued = record { table = one_row; held = [] }

abbrev busy : System
busy = record { table = (claim_one 100 7 one_row).0; held = 7 ∷ [] }

claimed_7 : (claim_one 100 7 one_row).1 ≡ some (claimed_from 100 row_7)
unfolding claim_one mark_sending to_model
claimed_7 = refl

busy_reached : Reach idle busy
busy_reached =
    next (next here (Step.submit idle 7 100 to_bob one_row tt tt enqueue_bob))
      (Step.take queued 7 100 (claimed_from 100 row_7) claimed_7)

Reach-IsExclusive_example : IsExclusive busy
Reach-IsExclusive_example =
    Reach-IsExclusive (record { keyed = tt; distinct = tt; marked = tt }) busy_reached

enqueue-claim_example :
    (row_of 7 one_row ≡ some (new_row 7 100 to_bob))
    × ((claim_one 200 7 one_row).1 ≡ some (claimed_from 200 (new_row 7 100 to_bob)))
enqueue-claim_example = enqueue-claim 7 100 200 to_bob [] one_row tt enqueue_bob

abbrev sent_row : Row
sent_row = record row_7 { status = Status.sent }

row_of-sent : row_of 7 (sent_row ∷ []) ≡ some sent_row
unfolding first
row_of-sent = refl

retry_now-claim_example :
    (claim_one 300 7 (retry_now 200 7 (sent_row ∷ []))).1
    ≡ some (
        claimed_from 300
          (record sent_row { status = Status.pending; next_retry = 200; updated_at = 200 }))
retry_now-claim_example = retry_now-claim 200 300 7 (sent_row ∷ []) sent_row row_of-sent

sent_ne_pending : status_eq Status.sent Status.pending ≡ false
unfolding status_eq
sent_ne_pending = refl
