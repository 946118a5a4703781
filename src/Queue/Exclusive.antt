-- ===== src/Queue/Exclusive.antt =====
-- Several senders over one queue, as steps on the shared table. Each sender selects ids at some
-- time and claims them one by one later, so a claim may name any id at any time.
use lightr.Prelude.{
  ltb, ◌==◌, All, All-map, update, delete, ◌-◌, ◌≡◌, refl, inl, inr, Bool, true, ◌&&◌, some, List,
  [], ◌∷◌, arith, ◌++◌,
}
use lightr.Queue.Held.{
  take_row-IsSending, All-settle, claimable-ne-sending, claim_one-marked, enqueue-ok,
  not_sending-IsOut, settle-IsOut, marked_ne, claim_one-IsKeyed, appended_one, settle-IsDistinct,
  claim_one-some, mark_failed-ok,
}
use lightr.Queue.Steps.{System, IsOut, settle, Step, Reach, here, next, IsSending, IsExclusive}
use lightr.Queue.{
  Uuid, Time, Row, Table, Message, Status, Submission, ok, claim_one, enqueue, mark_sent, release,
  retry_now, purge, status_eq, has_id, new_row, record_failure,
}
use lightr.Queue.Claim.{row_of-claim_one}
use lightr.Queue.Rows.{
  row_of, IsAbsent, IsKeyed-update, row_of-id, row_of-delete, IsKeyed-delete, IsKeyed-append,
}

module _ (s : System) (x : IsExclusive s) where
  take-IsExclusive :
      (i : Uuid) (now : Time) (m : Message)
      → (claim_one now i s.table).1 ≡ some m
      → IsExclusive (record { table = (claim_one now i s.table).0; held = i ∷ s.held })
  take-IsExclusive i now m h =
      let found = claim_one-some now i s.table m x.keyed h in
      let r = found.0 in
      record {
        keyed = claim_one-IsKeyed now i s.table x.keyed;
        distinct = (
          not_sending-IsOut i s.table r s.held found.1 (claimable-ne-sending r found.2) x.marked,
          x.distinct,
        );
        marked = (
          rw (row_of-claim_one, found.1)
              (take_row-IsSending now i r found.2 (row_of-id i s.table r found.1)),
          claim_one-marked now i s.table s.held x.marked,
        );
      }

  -- A statement that changes rows of the id `i` alone, once the claim of `i` is settled.
  settled-IsExclusive :
      (p : Row → Bool) (f : Row → Row) (i : Uuid)
      → ((r : Row) → p r ≡ true → (r.id == i) ≡ true)
      → ((r : Row) → (f r).id ≡ r.id)
      → IsExclusive (record { table = update p f s.table; held = settle i s.held })
  settled-IsExclusive p f i only keeps = record {
    keyed = IsKeyed-update f keeps p s.table x.keyed;
    distinct = settle-IsDistinct i s.held x.distinct;
    marked =
        marked_ne p f i s.table (settle i s.held) only keeps (settle-IsOut i s.held)
          (All-settle _ i s.held x.marked);
  }

  retry-IsExclusive :
      (i : Uuid) (now : Time) (r : Row)
      → row_of i s.table ≡ some r
      → r.status ≡ Status.failed
      → IsExclusive (record s { table = retry_now now i s.table })
  unfolding retry_now
  retry-IsExclusive i now r e f = record {
    keyed = IsKeyed-update _ (λ _. refl) _ s.table x.keyed;
    distinct = x.distinct;
    marked =
        marked_ne (has_id i) _ i s.table s.held (λ _ h. h) (λ _. refl)
          (not_sending-IsOut i s.table r s.held e (λ g. cc) x.marked) x.marked;
  }

  clean-IsExclusive :
      (now older_than : Time) (status : Status)
      → IsExclusive (record s { table = (purge now older_than status s.table).0 })
  unfolding purge
  clean-IsExclusive now older_than status = record {
    keyed = IsKeyed-delete _ s.table x.keyed;
    distinct = x.distinct;
    marked = All-map (λ i h. kept i h) s.held x.marked;
  }
    where
      kept :
          (i : Uuid)
          → IsSending (row_of i s.table)
          → IsSending (
              row_of i (
                delete
                  (λ r. status_eq r.status status && ltb r.updated_at (now - older_than))
                  s.table))
      kept i h =
          elim (row_of-delete
            (λ r. status_eq r.status status && ltb r.updated_at (now - older_than)) i s.table
            x.keyed) [ inl gone ↦ rw gone tt | inr same ↦ rw same h ]

  submit-IsExclusive :
      (i : Uuid) (now : Time) (m : Submission) (t : Table)
      → IsAbsent i s.table
      → IsOut i s.held
      → enqueue i now m s.table ≡ ok (t, i)
      → IsExclusive (record s { table = t })
  submit-IsExclusive i now m t absent out h =
      let e = enqueue-ok i now m s.table t h in
      rw e (record {
        keyed = IsKeyed-append s.table (new_row i now m) x.keyed (absent);
        distinct = x.distinct;
        marked = appended s.held out x.marked;
      })
    where
      appended :
          (js : List Uuid)
          → IsOut i js
          → All (λ j. IsSending (row_of j s.table)) js
          → All (λ j. IsSending (row_of j (s.table ++ new_row i now m ∷ []))) js
      appended [] a b = tt
      appended (j ∷ js) a b = (appended_one i now m s.table j a.0 b.0, appended js a.1 b.1)

  miss-IsExclusive :
      (i : Uuid) (now : Time) → IsExclusive (record s { table = (claim_one now i s.table).0 })
  miss-IsExclusive i now = record {
    keyed = claim_one-IsKeyed now i s.table x.keyed;
    distinct = x.distinct;
    marked = claim_one-marked now i s.table s.held x.marked;
  }

-- Every step keeps the claims exclusive.
Step-IsExclusive : {s u : System} → Step s u → IsExclusive s → IsExclusive u
unfolding mark_sent release
Step-IsExclusive (Step.submit s i now m t a o h) x = submit-IsExclusive s x i now m t a o h
Step-IsExclusive (Step.take s i now m h) x = take-IsExclusive s x i now m h
Step-IsExclusive (Step.miss s i now h) x = miss-IsExclusive s x i now
Step-IsExclusive (Step.deliver s i now) x =
    settled-IsExclusive s x (has_id i) _ i (λ r h. h) (λ r. refl)
Step-IsExclusive (Step.fail s i now code error t outcome h) x =
    let e = mark_failed-ok now i code error s.table t outcome h in
    rw (e.1) (
      settled-IsExclusive s x (has_id i) (record_failure now outcome e.0 error) i (λ r k. k)
        (λ r. unfold record_failure in refl))
Step-IsExclusive (Step.give_up s i now) x =
    settled-IsExclusive s x _ _ i (λ r h. ground (arith, h)) (λ r. refl)
Step-IsExclusive (Step.retry s i now r e f) x = retry-IsExclusive s x i now r e f
Step-IsExclusive (Step.clean s now older status) x = clean-IsExclusive s x now older status

-- From an exclusive state, whatever the senders and the operator do and in whatever order, no two
-- senders hold one message, and every message held is marked `sending` or was purged.
pub Reach-IsExclusive : {s u : System} → IsExclusive s → Reach s u → IsExclusive u
Reach-IsExclusive x here = x
Reach-IsExclusive x (next r st) = Step-IsExclusive st (Reach-IsExclusive x r)
