-- ===== src/Queue/Steps.antt =====
-- What the senders and the operator may do to the queue, step by step, in any interleaving.
use lightr.Prelude.{◌==◌, All, delete, Text, ℕ, ◌≡◌, false, Option, none, some, List, [], ◌∷◌}
use lightr.Queue.{
  Uuid, Time, Row, Table, Message, Status, Submission, ok, claim_one, enqueue, mark_sent,
  mark_failed, release, retry_now, purge,
}
use lightr.Queue.Rows.{row_of, IsAbsent, IsKeyed}

-- `held` lists the claims that a sender has been given and has not settled yet, over all senders.
pub record System : Type 0 where
  pub table : Table
  pub held : List Uuid

abbrev pub IsOut : Uuid → List Uuid → Type 0
IsOut i held = All (λ j. (j == i) ≡ false) held

abbrev pub settle : Uuid → List Uuid → List Uuid
settle i held = delete (λ j. j == i) held

-- What a process may do. `retry` is the operator's command without an id, which names only
-- messages listed as failed.
pub data Step : System → System → Type 0 where
  submit :
      (s : System) (i : Uuid) (now : Time) (m : Submission) (t : Table)
      → IsAbsent i s.table
      → IsOut i s.held
      → enqueue i now m s.table ≡ ok (t, i)
      → Step s (record s { table = t })
  take :
      (s : System) (i : Uuid) (now : Time) (m : Message)
      → (claim_one now i s.table).1 ≡ some m
      → Step s (record { table = (claim_one now i s.table).0; held = i ∷ s.held })
  miss :
      (s : System) (i : Uuid) (now : Time)
      → (claim_one now i s.table).1 ≡ none
      → Step s (record s { table = (claim_one now i s.table).0 })
  deliver :
      (s : System) (i : Uuid) (now : Time)
      → Step s (record { table = mark_sent now i s.table; held = settle i s.held })
  fail :
      (s : System) (i : Uuid) (now : Time) (code : ℕ) (error : Text) (t : Table) (outcome : Status)
      → mark_failed now i code error s.table ≡ ok (t, outcome)
      → Step s (record { table = t; held = settle i s.held })
  give_up :
      (s : System) (i : Uuid) (now : Time)
      → Step s (record { table = release now i s.table; held = settle i s.held })
  retry :
      (s : System) (i : Uuid) (now : Time) (r : Row)
      → row_of i s.table ≡ some r
      → r.status ≡ Status.failed
      → Step s (record s { table = retry_now now i s.table })
  clean :
      (s : System) (now older_than : Time) (status : Status)
      → Step s (record s { table = (purge now older_than status s.table).0 })

pub data Reach (s : System) : System → Type 0 where
  here : Reach s s
  next : {t u : System} → Reach s t → Step t u → Reach s u

abbrev pub IsSending : Option Row → Type 0
IsSending none = Unit
IsSending (some r) = r.status ≡ Status.sending

-- No id is held twice.
abbrev pub IsDistinct : List Uuid → Type 0
IsDistinct [] = Unit
IsDistinct (i ∷ is) = IsOut i is × IsDistinct is

-- Each id is held at most once, and its row, unless it was purged, is marked `sending`.
pub record IsExclusive (s : System) : Type 0 where
  pub keyed : IsKeyed s.table
  pub distinct : IsDistinct s.held
  pub marked : All (λ i. IsSending (row_of i s.table)) s.held
