-- ===== src/Queue/Lifecycle.antt =====
-- The ends of a message's life: `enqueue`, `retry_now` and `purge`.
use lightr.Prelude.{
  ltb, ==_self, length, count, length-delete-add-count, count-delete_self, count-delete_disjoint,
  ◌+◌, ◌-◌, ◌≡◌, refl, ◌↔◌, true, false, ◌&&◌, some, [], arith,
}
use lightr.Queue.Held.{enqueue-ok}
use lightr.Queue.{
  Table, Uuid, Time, Status, status_eq, Row, Submission, no_recipients, ok, err, new_row, enqueue,
  claimable, has_id, claim_one, retry_now, purge, count_of,
}
use lightr.Queue.Rows.{row_of, IsAbsent, row_of-update, row_of-id, row_of-absent, row_of-append}
use lightr.Queue.Claim.{claimed_from, claim_one-free}

-- A submission under a fresh id stands in the queue as it was passed, pending and due at once: a
-- claim at any time gets exactly it.
pub enqueue-claim :
    (i : Uuid) (now later : Time) (m : Submission) (t t' : Table)
    → IsAbsent i t
    → enqueue i now m t ≡ ok (t', i)
    → (row_of i t' ≡ some (new_row i now m))
      × ((claim_one later i t').1 ≡ some (claimed_from later (new_row i now m)))
enqueue-claim i now later m t t' a h =
    let e = enqueue-ok i now m t t' h in
    let there : row_of i t' ≡ some (new_row i now m) =
      rw e (rw row_of-append (rw (row_of-absent i t a) (rw (==_self i) refl))) in
    (there, claim_one-free later i t' (new_row i now m) there (unfold claimable in refl))

-- A submission is refused exactly if it names no recipient.
enqueue-refused :
    (i : Uuid) (now : Time) (m : Submission) (t : Table)
    → (enqueue i now m t ≡ err no_recipients) ↔ (m.to_addrs ≡ [])
unfolding enqueue
enqueue-refused i now m t = ground arith

-- `retry_now` frees the message whatever its status, also one that a sender is sending or that
-- was sent: the next claim takes it.
pub retry_now-claim :
    (now later : Time) (i : Uuid) (t : Table) (r : Row)
    → row_of i t ≡ some r
    → (claim_one later i (retry_now now i t)).1
      ≡ some (
          claimed_from later
            (record r { status = Status.pending; next_retry = now; updated_at = now }))
retry_now-claim now later i t r h =
    claim_one-free later i (retry_now now i t) _ freed (unfold claimable in refl)
  where
    write : Row → Row
    write x = record x { status = Status.pending; next_retry = now; updated_at = now }

    freed : row_of i (retry_now now i t) ≡ some (write r)
    freed =
        unfold retry_now in
        rw (row_of-update write (λ x. refl) (has_id i) i t) (rw h (rw (row_of-id i t r h) refl))

status_eq-trans_ne :
    (a b c : Status) → status_eq a b ≡ true → status_eq b c ≡ false → status_eq a c ≡ false
unfolding status_eq
status_eq-trans_ne a b c h k = ground arith

-- A purge removes as many rows as it says, all of its status that are older than the cutoff, and
-- none of another status.
purge-counts :
    (now older_than : Time) (s other : Status) (t : Table)
    → status_eq s other ≡ false
    → let (t', n) = purge now older_than s t in
      (length t' + n ≡ length t)
      × (count (λ r. status_eq r.status s && ltb r.updated_at (now - older_than)) t' ≡ 0)
      × (count_of other t' ≡ count_of other t)
unfolding purge count_of
purge-counts now older_than s other t ne = (
  length-delete-add-count _ t,
  count-delete_self _ t,
  count-delete_disjoint _ (λ r. status_eq r.status other) t
      (λ r h. status_eq-trans_ne r.status s other (ground (arith, h)) ne),
)
