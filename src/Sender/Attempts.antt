-- ===== src/Sender/Attempts.antt =====
-- How an attempt settles a row.
use lightr.Prelude.{
  ◌==◌, if◌then◌else◌, Bool-cases, take, ◌+◌, ◌≡◌, inl, inr, false, none, some, refl, List,
}
use lightr.Queue.Held.{mark_failed-ok}
use lightr.Directory.{Uuid, Domain}
use lightr.Queue
use lightr.Queue.{
  Table, Time, Status, Row, next_retry_at, has_id, mark_sent, Message, Result, claimable, claim_one,
  record_failure, mark_failed, to_model, mark_sending, failure_outcome, take_row,
  default_max_attempts, or_default,
}
use lightr.Queue.Rows.{row_of, row_of-update, row_of-id, row_of-update_ne, IsKeyed, IsKeyed-update}
use lightr.Queue.Retry.{mark_failed-row, outcome_of}
use lightr.Sender.{SendResult, Sent, record_result, World, Config, send, attempt, after_failure}

-- The row that an attempt leaves, by the result of its send.
abbrev pub settled : SendResult → Time → Row → Row
settled result now r =
    if result.success
    then record r {
      status = Status.sent;
      delivered_at = some now;
      updated_at = now;
      last_error = none;
    }
    else record r {
      status = outcome_of r result.code;
      attempts = r.attempts + 1;
      last_error = some (take 1000 result.detail);
      next_retry = next_retry_at (r.attempts + 1) now;
      updated_at = now;
    }

module _ (result : Sent) (now : Time) (i : Uuid) (t : Table) (r : Row)
    (h : row_of i t ≡ some r) where
  -- Recording a result never raises for a queued message, and settles its row; no other changes.
  pub record_result-settled :
      let d = record_result result now i t in
      (d.raised ≡ false)
      × (d.mails ≡ result.1)
      × (row_of i d.table ≡ some (settled result.0 now r))
      × ((j : Uuid) → (j == i) ≡ false → row_of j d.table ≡ row_of j t)
  unfolding record_result
  record_result-settled = elim (Bool-cases result.0.success) [
    | inl ok' ↦ rw (ok', record_result) (refl, refl, sent_row, others)
    | inr no' ↦
        let f = mark_failed-row now i result.0.code result.0.detail t r h in
        rw (no', record_result) (rw (f.1) (refl, refl, f.2, f.3))
  ]
    where
      write : Row → Row
      write x = record x {
        status = Status.sent;
        delivered_at = some now;
        updated_at = now;
        last_error = none;
      }

      sent_row : row_of i (mark_sent now i t) ≡ some (write r)
      sent_row =
          unfold mark_sent in
          rw (row_of-update write (λ x. refl) (has_id i) i t) (rw h (rw (row_of-id i t r h) refl))

      others : (j : Uuid) → (j == i) ≡ false → row_of j (mark_sent now i t) ≡ row_of j t
      others j ne =
          unfold mark_sent in row_of-update_ne (has_id i) write i j t (λ x e. e) (λ x. refl) ne

-- An attempt at a queued message does not raise, hands out the mails of its send, and settles its
-- row by the result: sent after a success, and after a failure deferred or failed with one more
-- attempt. The row of another id stays.
pub attempt-settled :
    (w : World) (cfg : Config) (domains : List Domain) (now : Time) (m : Message) (t : Table)
    (r : Row) (j : Uuid)
    → row_of m.id t ≡ some r
    → (j == m.id) ≡ false
    → let d = attempt w cfg domains now m t in
      (d.raised ≡ false)
      × (d.mails ≡ (send w cfg domains m).1)
      × (row_of m.id d.table ≡ some (settled (send w cfg domains m).0 now r))
      × (row_of j d.table ≡ row_of j t)
unfolding attempt
attempt-settled w cfg domains now m t r j h ne =
    let s = record_result-settled (send w cfg domains m) now m.id t r h in (s.0, s.1, s.2, s.3 j ne)

pub record_result-IsKeyed :
    (result : Sent) (now : Time) (i : Uuid) (t : Table)
    → IsKeyed t
    → IsKeyed (record_result result now i t).table
unfolding record_result
record_result-IsKeyed result now i t k = elim (Bool-cases result.0.success) [
  | inl e ↦ rw (e, record_result) (unfold mark_sent in IsKeyed-update _ (λ x. refl) (has_id i) t k)
  | inr e ↦ rw (e, record_result) (behind (mark_failed now i result.0.code result.0.detail t) refl)
]
  where
    behind :
        (f : Result (Table × Status))
        → mark_failed now i result.0.code result.0.detail t ≡ f
        → IsKeyed (after_failure t result.1 f).table
    behind (Queue.err e) eq = k
    behind (Queue.ok (t', outcome)) eq =
        let u = mark_failed-ok now i result.0.code result.0.detail t t' outcome eq in
        rw (u.1) (IsKeyed-update _ (λ x. unfold record_failure in refl) (has_id i) t k)
