-- ===== src/Queue.antt =====
-- The outbound queue, src/lightr/mail/queue.py: the rows of the table `email_queue`, and one
-- function for each statement that the class `Queue` executes. The clock and the fresh id of a
-- call are arguments; times are microseconds. The JSON of `to_addrs` is the list it encodes.
pub mod Rows
pub mod Claim
pub mod Steps
pub mod Held
pub mod Exclusive
pub mod Retry
pub mod Lifecycle
mod Examples
use lightr.Prelude.{
  ℕ, zero, suc, ◌+◌, ◌-◌, ◌*◌, min, max, Bool, true, false, ◌&&◌, ◌||◌, Option, none, some, List,
  [], ◌∷◌, ◌++◌, map, ltb, leb, ◌==◌, if◌then◌else◌, take, Text, is_empty, select, first, update,
  delete, count, order_by, order_by_desc,
}

abbrev pub Uuid : Type 0
Uuid = ℕ

abbrev pub Time : Type 0
Time = ℕ

-- `QueueStatus`
pub data Status : Type 0 where
  pending sending sent failed deferred : Status

unfoldable pub status_eq : Status → Status → Bool
status_eq Status.pending Status.pending = true
status_eq Status.sending Status.sending = true
status_eq Status.sent Status.sent = true
status_eq Status.failed Status.failed = true
status_eq Status.deferred Status.deferred = true
status_eq _ _ = false

-- One row of `email_queue`.
pub record Row : Type 0 where
  pub id : Uuid
  pub org_id : Uuid
  pub domain_id : Uuid
  pub from_addr : Text
  pub to_addrs : List Text
  pub subject : Text
  pub body : Text
  pub html_body : Option Text
  pub headers : List (Text × Text)
  pub raw : Option Text
  pub envelope_from : Option Text
  pub status : Status
  pub attempts : ℕ
  pub max_attempts : ℕ
  pub next_retry : Time
  pub last_error : Option Text
  pub delivered_at : Option Time
  pub created_at : Time
  pub updated_at : Time

-- `QueuedMessage`
pub record Message : Type 0 where
  pub id : Uuid
  pub org_id : Uuid
  pub domain_id : Uuid
  pub from_addr : Text
  pub to_addrs : List Text
  pub subject : Text
  pub body : Text
  pub status : Status
  pub attempts : ℕ
  pub max_attempts : ℕ
  pub next_retry : Time
  pub last_error : Option Text
  pub raw : Option Text
  pub envelope_from : Option Text

abbrev pub Table : Type 0
Table = List Row

abbrev pub default_max_attempts : ℕ
default_max_attempts = 5

-- `a or b` for a column that may be null
unfoldable pub text_or : Option Text → Text → Text
unfolding is_empty
text_or none d = d
text_or (some t) d = if is_empty t then d else t

-- The property `sender`.
unfoldable pub sender : Message → Text
unfolding text_or
sender m = text_or m.envelope_from m.from_addr

-- The property `exhausted`.
unfoldable pub exhausted : Message → Bool
exhausted m = leb m.max_attempts m.attempts

unfoldable pub classify_failure : ℕ → Status
classify_failure code = if leb 400 code && ltb code 500 then Status.deferred else Status.failed

abbrev pub minutes : ℕ → Time
minutes n = n * 60_000_000

-- `RETRY_DELAYS[index]`, for an index in range
abbrev pub retry_delay : ℕ → Time
retry_delay zero = minutes 1
retry_delay (suc zero) = minutes 5
retry_delay (suc (suc zero)) = minutes 30
retry_delay (suc (suc (suc zero))) = minutes 120
retry_delay (suc (suc (suc (suc n)))) = minutes 480

abbrev pub retry_delay_count : ℕ
retry_delay_count = 5

unfoldable pub next_retry_at : ℕ → Time → Time
next_retry_at attempts now =
    let index = min (max (attempts - 1) 0) (retry_delay_count - 1) in now + retry_delay index

-- What a caller of `enqueue` passes.
pub record Submission : Type 0 where
  pub org_id : Uuid
  pub domain_id : Uuid
  pub from_addr : Text
  pub to_addrs : List Text
  pub subject : Text
  pub body : Text
  pub html_body : Option Text
  pub headers : List (Text × Text)
  pub max_attempts : ℕ
  pub raw : Option Text
  pub envelope_from : Option Text

pub data Error : Type 0 where
  no_recipients : Error
  no_queued_message : Uuid → Error

-- A statement either changes the table and returns a value, or raises and changes nothing.
pub data Result {ℓ} (A : Type ℓ) : Type ℓ where
  ok : A → Result A
  err : Error → Result A

abbrev pub new_row : Uuid → Time → Submission → Row
new_row message_id now s = record {
  id = message_id;
  org_id = s.org_id;
  domain_id = s.domain_id;
  from_addr = s.from_addr;
  to_addrs = s.to_addrs;
  subject = s.subject;
  body = s.body;
  html_body = s.html_body;
  headers = s.headers;
  raw = s.raw;
  envelope_from = s.envelope_from;
  status = Status.pending;
  attempts = 0;
  max_attempts = s.max_attempts;
  next_retry = now;
  last_error = none;
  delivered_at = none;
  created_at = now;
  updated_at = now;
}

unfoldable pub enqueue : Uuid → Time → Submission → Table → Result (Table × Uuid)
enqueue message_id now s t = elim s.to_addrs [
  | [] ↦ err no_recipients
  | a ∷ as' ↦ ok (t ++ new_row message_id now s ∷ [], message_id)
]

-- `status IN ('pending', 'deferred')`
unfoldable pub claimable : Row → Bool
unfolding status_eq
claimable r = status_eq r.status Status.pending || status_eq r.status Status.deferred

abbrev pub has_id : Uuid → Row → Bool
has_id i r = r.id == i

-- The rows that the select of `claim` returns, and their ids.
unfoldable pub due_rows : Time → ℕ → Table → Table
unfolding claimable select order_by
due_rows now limit t =
    take limit (order_by (λ r. r.next_retry) (select (λ r. claimable r && leb r.next_retry now) t))

unfoldable pub due : Time → ℕ → Table → List Uuid
unfolding due_rows
due now limit t = map (λ r. r.id) (due_rows now limit t)

-- `int(value or default)` on a column that is never null
abbrev pub or_default : ℕ → ℕ → ℕ
or_default zero d = d
or_default (suc n) d = suc n

unfoldable pub to_model : Row → Message
to_model r = record {
  id = r.id;
  org_id = r.org_id;
  domain_id = r.domain_id;
  from_addr = r.from_addr;
  to_addrs = r.to_addrs;
  subject = r.subject;
  body = r.body;
  status = r.status;
  attempts = r.attempts;
  max_attempts = or_default r.max_attempts default_max_attempts;
  next_retry = r.next_retry;
  last_error = r.last_error;
  raw = r.raw;
  envelope_from = r.envelope_from;
}

unfoldable pub get : Uuid → Table → Option Message
unfolding first to_model
get i t = elim (first (has_id i) t) [ none ↦ none | some r ↦ some (to_model r) ]

-- The update of `claim` for one id: the test on the status is part of the statement.
unfoldable pub take_row : Uuid → Row → Bool
unfolding claimable
take_row i r = r.id == i && claimable r

unfoldable pub mark_sending : Time → Row → Row
mark_sending now r = record r { status = Status.sending; updated_at = now }

-- One round of the loop of `claim`.
unfoldable pub claim_one : Time → Uuid → Table → Table × Option Message
unfolding take_row mark_sending update count get
claim_one now i t =
    let t' = update (take_row i) (mark_sending now) t in
    (t', elim (count (take_row i) t) [ zero ↦ none | suc n ↦ get i t' ])

unfoldable pub cons_some : Option Message → List Message → List Message
cons_some none ms = ms
cons_some (some m) ms = m ∷ ms

-- The loop of `claim` over the ids that the select returned.
unfoldable pub claim_each : Time → List Uuid → Table → Table × List Message
unfolding claim_one cons_some
claim_each now [] t = (t, [])
claim_each now (i ∷ is) t =
    let one = claim_one now i t in
    let rest = claim_each now is one.0 in (rest.0, cons_some one.1 rest.1)

unfoldable pub claim : Time → ℕ → Table → Table × List Message
unfolding due claim_each
claim now limit t = claim_each now (due now limit t) t

unfoldable pub mark_sent : Time → Uuid → Table → Table
unfolding update
mark_sent now i = update (has_id i) λ r. record r {
  status = Status.sent;
  delivered_at = some now;
  updated_at = now;
  last_error = none;
}

-- The outcome of one more failure.
unfoldable pub failure_outcome : Message → ℕ → Status
unfolding classify_failure status_eq
failure_outcome m code =
    let outcome = classify_failure code in
    if status_eq outcome Status.deferred && leb m.max_attempts (m.attempts + 1)
    then Status.failed
    else outcome

unfoldable pub record_failure : Time → Status → ℕ → Text → Row → Row
unfolding next_retry_at
record_failure now outcome attempts error r = record r {
  status = outcome;
  attempts = attempts;
  last_error = some (take 1000 error);
  next_retry = next_retry_at attempts now;
  updated_at = now;
}

unfoldable pub mark_failed : Time → Uuid → ℕ → Text → Table → Result (Table × Status)
unfolding get update failure_outcome record_failure
mark_failed now i code error t = elim (get i t) [
  | none ↦ err (no_queued_message i)
  | some m ↦ ok (
    update (has_id i) (record_failure now (failure_outcome m code) (m.attempts + 1) error) t,
    failure_outcome m code,
  )
]

unfoldable pub release : Time → Uuid → Table → Table
unfolding update status_eq
release now i =
    update (λ r. has_id i r && status_eq r.status Status.sending)
      λ r. record r { status = Status.pending; updated_at = now }

unfoldable pub retry_now : Time → Uuid → Table → Table
unfolding update
retry_now now i =
    update (has_id i) λ r. record r { status = Status.pending; next_retry = now; updated_at = now }

unfoldable pub purge : Time → Time → Status → Table → Table × ℕ
unfolding delete count status_eq
purge now older_than s t =
    let finished = λ (r : Row). status_eq r.status s && ltb r.updated_at (now - older_than) in
    (delete finished t, count finished t)

-- `counts` at one status: the group of that status, 0 if there is none.
unfoldable pub count_of : Status → Table → ℕ
unfolding count status_eq
count_of s = count (λ r. status_eq r.status s)

-- `list`, of one status or of all
unfoldable pub wanted_by : Option Status → Row → Bool
unfolding status_eq
wanted_by none r = true
wanted_by (some s) r = status_eq r.status s

unfoldable pub list : Option Status → ℕ → Table → List Message
unfolding select order_by_desc wanted_by to_model
list status limit t =
    map to_model (take limit (order_by_desc (λ r. r.created_at) (select (wanted_by status) t)))
