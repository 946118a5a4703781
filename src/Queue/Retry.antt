-- ===== src/Queue/Retry.antt =====
-- Failures and retries: `mark_failed`, `next_retry_at`, `retry_now`.
use lightr.Prelude.{
  ℕ, ltb, leb, leb→le, Bool-cases, ◌+◌, ◌≤◌, ◌<◌, ◌≡◌, ◌⊎◌, inl, inr, ◌&&◌, some, arith, ◌==◌, take,
  update, Text, zero, suc, ◌-◌, min, max, refl, false,
}
use native.Mathlib.Decide.{dec_lt}
use native.Mathlib.Nat.{le_refl, le_trans}
use lightr.Queue.{
  Table, Uuid, Status, Row, default_max_attempts, or_default, to_model, get, failure_outcome, Time,
  minutes, retry_delay, retry_delay_count, next_retry_at, ok, has_id, record_failure, mark_failed,
}
use lightr.Queue.Rows.{row_of, row_of-update, row_of-id, row_of-update_ne}

-- The limit on attempts that a stored row stands for.
abbrev pub attempt_limit : Row → ℕ
attempt_limit r = or_default r.max_attempts default_max_attempts

get-row_of : (i : Uuid) (t : Table) (r : Row) → row_of i t ≡ some r → get i t ≡ some (to_model r)
unfolding get
get-row_of i t r h = rw (h, get)

-- The status that a failure of the row gives.
abbrev pub outcome_of : Row → ℕ → Status
outcome_of r code = failure_outcome (to_model r) code

-- A failure is retried exactly if the code is 4xx and this was not the last attempt allowed; any
-- other failure is final.
pub outcome-eq :
    (r : Row) (code : ℕ)
    → ((outcome_of r code ≡ Status.deferred)
        × ((400 ≤ code) × (code < 500) × (r.attempts + 1 < attempt_limit r)))
      ⊎ ((outcome_of r code ≡ Status.failed)
          × ((code < 400) ⊎ (500 ≤ code) ⊎ (attempt_limit r ≤ r.attempts + 1)))
unfolding failure_outcome to_model
outcome-eq r code = elim (Bool-cases (leb 400 code && ltb code 500)) [
  | inl c ↦ elim (Bool-cases (leb (attempt_limit r) (r.attempts + 1))) [
    | inl l ↦ inr (ground (arith, c, l), inr (inr (leb→le _ _ l)))
    | inr l ↦ inl (ground (arith, c, l), (ground (arith, c), ground (arith, c), ground (arith, l)))
  ]
  | inr c ↦ inr (ground (arith, c), ground (arith, c))
]

-- A failure of a queued message writes the outcome, one more attempt, the error cut to 1000
-- characters and the time of the next try to its row, and changes no other message.
pub mark_failed-row :
    (now : Time) (i : Uuid) (code : ℕ) (error : Text) (t : Table) (r : Row)
    → row_of i t ≡ some r
    → (t' : Table) × (mark_failed now i code error t ≡ ok (t', outcome_of r code))
      × (row_of i t'
          ≡ some (record r {
            status = outcome_of r code;
            attempts = r.attempts + 1;
            last_error = some (take 1000 error);
            next_retry = next_retry_at (r.attempts + 1) now;
            updated_at = now;
          }))
      × ((j : Uuid) → (j == i) ≡ false → row_of j t' ≡ row_of j t)
mark_failed-row now i code error t r h = (
  update (has_id i) write t,
  (unfold mark_failed in rw (get-row_of i t r h, mark_failed) (unfold to_model in refl)),
  rw (row_of-update write (λ x. unfold record_failure in refl) (has_id i) i t)
      (rw h (rw (row_of-id i t r h) (unfold record_failure in refl))),
  λ j ne.
      row_of-update_ne (has_id i) write i j t (λ x e. e) (λ x. unfold record_failure in refl) ne,
)
  where
    write : Row → Row
    write = record_failure now (outcome_of r code) (r.attempts + 1) error

delay-lower : (n : ℕ) → minutes 1 ≤ retry_delay n
delay-lower zero = omega arith
delay-lower (suc zero) = omega arith
delay-lower (suc (suc zero)) = omega arith
delay-lower (suc (suc (suc zero))) = omega arith
delay-lower (suc (suc (suc (suc n)))) = omega arith

delay-upper : (n : ℕ) → retry_delay n ≤ minutes 480
delay-upper zero = omega arith
delay-upper (suc zero) = omega arith
delay-upper (suc (suc zero)) = omega arith
delay-upper (suc (suc (suc zero))) = omega arith
delay-upper (suc (suc (suc (suc n)))) = omega arith

delay-step : (n : ℕ) → retry_delay n ≤ retry_delay (suc n)
delay-step zero = omega arith
delay-step (suc zero) = omega arith
delay-step (suc (suc zero)) = omega arith
delay-step (suc (suc (suc n))) = delay-upper (suc (suc (suc n)))

delay_mono : (m n : ℕ) → m ≤ n → retry_delay m ≤ retry_delay n
delay_mono zero n h = delay-lower n
delay_mono (suc m) zero h = elim h [ ]
delay_mono (suc m) (suc n) h = elim (dec_lt m n) [
  | yes lt ↦ le_trans (delay_mono (suc m) n lt) (delay-step n)
  | no ge ↦ rw (eq_of m n (omega arith) ge) (le_refl _)
]
  where
    eq_of : (a b : ℕ) → a ≤ b → ¬ (a < b) → a ≡ b
    eq_of a b p q = omega arith

-- The next try is between one minute and eight hours away, and a later failure waits no less.
next_retry_at_bounds :
    (a b : ℕ) (now : Time)
    → a ≤ b
    → (now + minutes 1 ≤ next_retry_at a now)
      × (next_retry_at a now ≤ next_retry_at b now)
      × (next_retry_at b now ≤ now + minutes 480)
unfolding next_retry_at
next_retry_at_bounds a b now h = ground (
  arith,
  delay_mono (index a) (index b) (omega arith),
  delay-lower (index a),
  delay-upper (index b),
)
  where
    index : ℕ → ℕ
    index n = min (max (n - 1) 0) (retry_delay_count - 1)
