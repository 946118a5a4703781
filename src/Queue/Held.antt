-- ===== src/Queue/Held.antt =====
-- How a claim, a settlement and a retry bear on the ids that the senders hold.
use lightr.Prelude.{
  ◌==◌, ==_iff, Bool-cases, All, update, delete, count, Text, ℕ, zero, suc, ◌≡◌, refl, ◌≢◌, ◌⊎◌,
  inl, inr, Bool, true, false, Option, none, some, List, [], ◌∷◌, arith, Option-cases, ◌+◌, ◌++◌,
}
use lightr.Queue.Steps.{IsOut, IsSending, IsDistinct, settle}
use lightr.Queue.{
  Uuid, Time, Row, Table, Message, Status, Submission, ok, claim_one, enqueue, mark_failed,
  claimable, has_id, take_row, mark_sending, new_row, get, record_failure,
}
use lightr.Queue.Claim.{row_of-claim_one}
use lightr.Queue.Rows.{
  row_of, IsKeyed, row_of-update_ne, apply_if, IsKeyed-update, count-suc, ==_comm, row_of-append,
}

-- The rows of the ids held are untouched by what changes the row of another id.
module _ (p : Row → Bool) (f : Row → Row) (i : Uuid) where
  pub marked_ne :
      (t : Table) (held : List Uuid)
      → ((r : Row) → p r ≡ true → (r.id == i) ≡ true)
      → ((r : Row) → (f r).id ≡ r.id)
      → IsOut i held
      → All (λ j. IsSending (row_of j t)) held
      → All (λ j. IsSending (row_of j (update p f t))) held
  marked_ne t [] only keeps out h = tt
  marked_ne t (j ∷ js) only keeps out h =
      (rw (row_of-update_ne p f i j t only keeps out.0) h.0, marked_ne t js only keeps out.1 h.1)

pub settle-IsOut : (i : Uuid) (held : List Uuid) → IsOut i (settle i held)
unfolding delete
settle-IsOut i [] = tt
settle-IsOut i (j ∷ js) = elim (Bool-cases (j == i)) [
  | inl e ↦ rw e (settle-IsOut i js)
  | inr e ↦ rw e (e, settle-IsOut i js)
]

pub All-settle :
    (P : Uuid → Type 0) (i : Uuid) (held : List Uuid) → All P held → All P (settle i held)
unfolding delete
All-settle P i [] h = tt
All-settle P i (j ∷ js) h = elim (Bool-cases (j == i)) [
  | inl e ↦ rw e (All-settle P i js h.1)
  | inr e ↦ rw e (h.0, All-settle P i js h.1)
]

pub settle-IsDistinct : (i : Uuid) (held : List Uuid) → IsDistinct held → IsDistinct (settle i held)
unfolding delete
settle-IsDistinct i [] h = tt
settle-IsDistinct i (j ∷ js) h = elim (Bool-cases (j == i)) [
  | inl e ↦ rw e (settle-IsDistinct i js h.1)
  | inr e ↦ rw e (All-settle _ i js h.0, settle-IsDistinct i js h.1)
]

-- A row that is not being sent is held by nobody.
pub not_sending-IsOut :
    (i : Uuid) (t : Table) (r : Row) (held : List Uuid)
    → row_of i t ≡ some r
    → r.status ≢ Status.sending
    → All (λ j. IsSending (row_of j t)) held
    → IsOut i held
not_sending-IsOut i t r [] e n h = tt
not_sending-IsOut i t r (j ∷ js) e n h = (differs, not_sending-IsOut i t r js e n h.1)
  where
    differs : (j == i) ≡ false
    differs = elim (Bool-cases (j == i)) [
      | inl same ↦ absurd (n (rw (((==_iff j i).0 same), e) at (h.0)))
      | inr other ↦ other
    ]

-- A claim that returns a message found a free row.
pub claim_one-some :
    (now : Time) (i : Uuid) (t : Table) (m : Message)
    → IsKeyed t
    → (claim_one now i t).1 ≡ some m
    → (r : Row) × (row_of i t ≡ some r) × (claimable r ≡ true)
unfolding claim_one take_row
claim_one-some now i t m k h = elim (count-cases (count (take_row i) t)) [
  | inl e ↦ absurd (ground (arith, e, h))
  | inr e ↦ count-suc claimable i t e.0 k e.1
]
  where
    count-cases : (n : ℕ) → (n ≡ 0) ⊎ ((k : ℕ) × (n ≡ suc k))
    count-cases zero = inl refl
    count-cases (suc n) = inr (n, refl)

pub claimable-ne-sending : (r : Row) → claimable r ≡ true → r.status ≢ Status.sending
unfolding claimable
claimable-ne-sending r h e = ground (arith, h, e)

pub take_row-IsSending :
    (now : Time) (i : Uuid) (r : Row)
    → claimable r ≡ true
    → (r.id == i) ≡ true
    → IsSending (apply_if (take_row i) (mark_sending now) (some r))
unfolding take_row mark_sending
take_row-IsSending now i r h e = ground (arith, h, e)

IsSending-apply :
    (p : Row → Bool) (f : Row → Row)
    → ((r : Row) → r.status ≡ Status.sending → (f r).status ≡ Status.sending)
    → (o : Option Row) → IsSending o
    → IsSending (apply_if p f o)
IsSending-apply p f keeps none h = tt
IsSending-apply p f keeps (some r) h = elim (Bool-cases (p r)) [
  | inl e ↦ rw e (keeps r h)
  | inr e ↦ rw e h
]

pub claim_one-marked :
    (now : Time) (i : Uuid) (t : Table) (held : List Uuid)
    → All (λ j. IsSending (row_of j t)) held
    → All (λ j. IsSending (row_of j (claim_one now i t).0)) held
unfolding mark_sending
claim_one-marked now i t [] h = tt
claim_one-marked now i t (j ∷ js) h = (
  rw row_of-claim_one
      (IsSending-apply (take_row i) (mark_sending now) (λ r e. refl) (row_of j t) h.0),
  claim_one-marked now i t js h.1,
)

pub claim_one-IsKeyed :
    (now : Time) (i : Uuid) (t : Table) → IsKeyed t → IsKeyed (claim_one now i t).0
unfolding claim_one mark_sending
claim_one-IsKeyed now i t k = IsKeyed-update (mark_sending now) (λ r. refl) (take_row i) t k

pub enqueue-ok :
    (i : Uuid) (now : Time) (m : Submission) (t t' : Table)
    → enqueue i now m t ≡ ok (t', i)
    → t' ≡ t ++ new_row i now m ∷ []
unfolding enqueue
enqueue-ok i now m t t' h = ground (arith, h)

pub mark_failed-ok :
    (now : Time) (i : Uuid) (code : ℕ) (error : Text) (t t' : Table) (outcome : Status)
    → mark_failed now i code error t ≡ ok (t', outcome)
    → (n : ℕ) × (t' ≡ update (has_id i) (record_failure now outcome n error) t)
unfolding mark_failed
mark_failed-ok now i code error t t' outcome h = elim (Option-cases (get i t)) [
  | inl e ↦ absurd (ground (arith, h, e))
  | inr e ↦ (e.0.attempts + 1, ground (arith, h, e.1))
]

pub appended_one :
    (i : Uuid) (now : Time) (m : Submission) (t : Table) (j : Uuid)
    → (j == i) ≡ false
    → IsSending (row_of j t)
    → IsSending (row_of j (t ++ new_row i now m ∷ []))
appended_one i now m t j a b = elim (Option-cases (row_of j t)) [
  | inl e ↦ rw (row_of-append, e) (rw (==_comm j i a) tt)
  | inr e ↦ rw (row_of-append, e.1) (rw e.1 at b)
]
