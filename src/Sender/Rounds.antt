-- ===== src/Sender/Rounds.antt =====
-- How long a message is tried.
use lightr.Prelude.{
  ◌+◌, ◌≡◌, inl, inr, false, none, some, refl, Option-cases, ℕ, true, List, [], ◌∷◌, ==_iff, arith,
  length, All, ◌≤◌, ◌<◌, max, ◌∙◌, ap,
}
use lightr.Queue.Held.{claim_one-IsKeyed, claim_one-some}
use lightr.Sender.Attempts.{record_result-IsKeyed, record_result-settled, settled}
use lightr.Directory.{Uuid, Domain}
use lightr.Queue.{
  Table, Time, Status, Row, Message, claimable, claim_one, to_model, mark_sending, failure_outcome,
  take_row, default_max_attempts, or_default,
}
use lightr.Queue.Claim.{claimed_from, claim_one-free, row_of-claim_one}
use lightr.Queue.Rows.{row_of, row_of-id, IsKeyed}
use lightr.Queue.Retry.{outcome-eq, outcome_of, attempt_limit}
use lightr.Sender.{World, Config, send, attempt}

-- One sender's round for one message: claim it, and attempt what was claimed.
pub round : World → Config → List Domain → Time → Uuid → Table → Table
unfolding claim_one attempt
round w cfg domains now i t =
    let c = claim_one now i t in
    elim c.1 [ none ↦ c.0 | some m ↦ (attempt w cfg domains now m c.0).table ]

pub rounds : List (World × Time) → Config → List Domain → Uuid → Table → Table
unfolding round
rounds [] cfg domains i t = t
rounds ((w, now) ∷ rest) cfg domains i t = rounds rest cfg domains i (round w cfg domains now i t)

take_row-free :
    (i : Uuid) (t : Table) (r : Row)
    → row_of i t ≡ some r
    → claimable r ≡ true
    → take_row i r ≡ true
unfolding take_row
take_row-free i t r h free = ground (arith, free, row_of-id i t r h)

attempt-row :
    (i : Uuid) (w : World) (cfg : Config) (domains : List Domain) (now : Time) (m : Message)
    (t : Table) (r : Row)
    → m.id ≡ i
    → row_of i t ≡ some r
    → row_of i (attempt w cfg domains now m t).table ≡ some (settled (send w cfg domains m).0 now r)
attempt-row i w cfg domains now m t r e h =
    unfold attempt in
    rw (← e) ((record_result-settled (send w cfg domains m) now m.id t r (rw (← e) at h)).2)

module _ (cfg : Config) (domains : List Domain) (i : Uuid) where
  -- Every send of the world fails.
  abbrev pub IsDown : World → Type 0
  IsDown w = (m : Message) → (send w cfg domains m).0.success ≡ false

  round-IsKeyed :
      (w : World) (now : Time) (t : Table) → IsKeyed t → IsKeyed (round w cfg domains now i t)
  unfolding round attempt
  round-IsKeyed w now t k = elim (Option-cases (claim_one now i t).1) [
    | inl e ↦ rw (e, round) (claim_one-IsKeyed now i t k)
    | inr e ↦
        rw (e.1, round)
          (record_result-IsKeyed (send w cfg domains e.0) now e.0.id (claim_one now i t).0
            (claim_one-IsKeyed now i t k))
  ]

  -- A round for a free message in a world that is down records one more failure.
  round-free :
      (w : World) (now : Time) (t : Table) (r : Row)
      → IsDown w
      → row_of i t ≡ some r
      → claimable r ≡ true
      → (code : ℕ) × (x : Row) × (row_of i (round w cfg domains now i t) ≡ some x)
        × (x.status ≡ outcome_of r code)
        × (x.attempts ≡ r.attempts + 1)
        × (x.max_attempts ≡ r.max_attempts)
  unfolding round attempt
  round-free w now t r down h free = (
    (send w cfg domains m).0.code,
    settled (send w cfg domains m).0 now (mark_sending now r),
    rw (claim_one-free now i t r h free, round) attempted,
    rw (down m) (unfold failure_outcome to_model mark_sending in refl),
    rw (down m) (unfold mark_sending in refl),
    rw (down m) (unfold mark_sending in refl),
  )
    where
      m : Message
      m = claimed_from now r

      claimed : row_of i (claim_one now i t).0 ≡ some (mark_sending now r)
      claimed = rw row_of-claim_one (rw h (rw (take_row-free i t r h free) refl))

      same : m.id ≡ i
      same = unfold to_model mark_sending in (==_iff r.id i).0 (row_of-id i t r h)

      attempted :
          row_of i (attempt w cfg domains now m (claim_one now i t).0).table
          ≡ some (settled (send w cfg domains m).0 now (mark_sending now r))
      attempted =
          attempt-row i w cfg domains now m (claim_one now i t).0 (mark_sending now r) same claimed

  -- A round for a message that failed for good does nothing to it.
  round-failed :
      (w : World) (now : Time) (t : Table) (r : Row)
      → IsKeyed t
      → row_of i t ≡ some r
      → r.status ≡ Status.failed
      → row_of i (round w cfg domains now i t) ≡ some r
  unfolding round
  round-failed w now t r k h f = elim (Option-cases (claim_one now i t).1) [
    | inl e ↦ rw (e, round) (rw row_of-claim_one (rw h (rw not_free refl)))
    | inr e ↦
        let c = claim_one-some now i t e.0 k e.1 in
        absurd (unfold claimable in ground (arith, c.1, c.2, h, f))
  ]
    where
      not_free : take_row i r ≡ false
      not_free = unfold take_row claimable in ground (arith, f)

  abbrev AllDown : List (World × Time) → Type 0
  AllDown = All (λ (p : World × Time). IsDown p.0)

  rounds-failed :
      (rs : List (World × Time)) (t : Table) (r : Row)
      → IsKeyed t
      → row_of i t ≡ some r
      → r.status ≡ Status.failed
      → row_of i (rounds rs cfg domains i t) ≡ some r
  unfolding rounds
  rounds-failed [] t r k h f = h
  rounds-failed ((w, now) ∷ rs) t r k h f =
      rounds-failed rs (round w cfg domains now i t) r (round-IsKeyed w now t k)
        (round-failed w now t r k h f) f

  -- While every send fails, a message that is free, under the primary key, is given up within the
  -- attempts it has left, at least one: it ends failed, with no more attempts than its limit, or
  -- one more than it had.
  pub rounds-give_up :
      (rs : List (World × Time)) (t : Table) (r : Row)
      → AllDown rs
      → IsKeyed t
      → row_of i t ≡ some r
      → claimable r ≡ true
      → 0 < length rs
      → attempt_limit r ≤ r.attempts + length rs
      → (x : Row) × (row_of i (rounds rs cfg domains i t) ≡ some x)
        × (x.status ≡ Status.failed)
        × (x.attempts ≤ max (attempt_limit r) (r.attempts + 1))
  unfolding rounds
  rounds-give_up [] t r down k h free pos enough = absurd (omega arith)
  rounds-give_up ((w, now) ∷ rs) t r down k h free pos enough =
      let one = round-free w now t r down.0 h free in
      let t' = round w cfg domains now i t in
      let x = one.1 in
      let same : attempt_limit x ≡ attempt_limit r =
        ap (λ n. or_default n default_max_attempts) (one.5) in
      elim (outcome-eq r one.0) [
        | inl d ↦
            let rest =
              rounds-give_up rs t' x down.1 (round-IsKeyed w now t k) one.2
                (unfold claimable in rw (one.3) (rw (d.0) refl)) (omega (arith, d.1.2, enough))
                (omega (arith, same, one.4, enough)) in
            (rest.0, rest.1, rest.2, omega (arith, rest.3, same, one.4, d.1.2))
        | inr f ↦ (
          x,
          rounds-failed rs t' x (round-IsKeyed w now t k) (one.2) (one.3 ∙ f.0),
          one.3 ∙ f.0,
          omega (arith, one.4),
        )
      ]
