-- ===== src/Sender/Examples.antt =====
-- Runs of the sender, and its theorems at concrete messages.
use lightr.Prelude.{
  ℕ, count, Text, codes, text_eq, ◌≡◌, refl, true, false, Option, none, some, List, [], ◌∷◌, ◌==◌,
  Bool-cases, first, ◌+◌, ◌≤◌, max, inl, inr, arith,
}
use lightr.Sender.Rounds.{IsDown, rounds, rounds-give_up}
use lightr.Queue.Retry.{attempt_limit}
use lightr.Queue.Rows.{row_of}
use lightr.Directory.{SpamPolicy, Domain}
use lightr.Sender.Attempts.{settled, attempt-settled}
use lightr.Queue.{Message, Status, sender, Row, claimable}
use lightr.Sender.{World, Failure, Mail, send_direct, Config, send_via_relay, send, attempt}
use lightr.Sender.Groups.{is_routable}
use lightr.Sender.Direct.{send_direct_complete, times_reached, times_refused}

abbrev one_mx : Text → Option (List (ℕ × Text))
one_mx domain = some ((20, codes "mx2.") ∷ (10, codes "mx1.") ∷ [])

abbrev quiet : (Mail → Option Failure) → World
quiet answer = record {
  resolve_mx = one_mx;
  deliver = answer;
  refuses = λ m r. false;
  deliver_relay = λ s m. answer m;
  compose_parts = λ from to subject body. body;
  dkimpy_sign = λ m d s k hs. none;
}

abbrev up : World
up = quiet (λ m. none)

-- The remote servers answer 451 to all.
abbrev down : World
down = quiet (λ m. some (record { code = some 451; detail = codes "later" }))

abbrev note : Message
note = record {
  id = 7;
  org_id = 1;
  domain_id = 2;
  from_addr = codes "ops@acme.test";
  to_addrs = codes "bob@one.test" ∷ codes "eve@two.test" ∷ codes "postmaster" ∷ [];
  subject = [];
  body = codes "hi";
  status = Status.sending;
  attempts = 0;
  max_attempts = 5;
  next_retry = 0;
  last_error = none;
  raw = none;
  envelope_from = none;
}

both_sent : (send_direct up note (codes "hi") (codes "mx")).0.success ≡ true
unfolding send_direct
both_sent = refl

-- A server that takes the mail and refuses eve: the message counts as sent.
abbrev refusing : World
refusing = record up { refuses = λ m r. text_eq r (codes "eve@two.test") }

eve_refused :
    ((send_direct refusing note (codes "hi") (codes "mx")).0.success ≡ true)
    × (times_refused refusing
          (codes "eve@two.test")
          (send_direct refusing note (codes "hi") (codes "mx")).1
        ≡ 1)
unfolding send_direct times_refused refusing sender text_eq
eve_refused = (refl, refl)

send_direct_complete_example :
    times_reached up (codes "eve@two.test") (send_direct up note (codes "hi") (codes "mx")).1
      + times_refused up (codes "eve@two.test") (send_direct up note (codes "hi") (codes "mx")).1
    ≡ count (is_routable (codes "eve@two.test")) note.to_addrs
send_direct_complete_example =
    send_direct_complete up note (codes "hi") (codes "mx") (codes "eve@two.test") both_sent

abbrev smarthost : Domain
smarthost = record {
  id = 2;
  org_id = 1;
  name = codes "acme.test";
  dkim_private_key = none;
  dkim_selector = none;
  relay_enabled = true;
  relay_host = some (codes "smtp.example.com");
  relay_port = none;
  relay_username = none;
  relay_password = none;
  relay_use_tls = true;
  relay_tls_skip_verify = false;
  spam_policy = SpamPolicy.junk;
  auth_webhook_url = none;
  auth_webhook_secret = none;
  auth_webhook_verified = false;
}

abbrev cfg : Config
cfg = record { domain_certs = []; hostname = codes "mx.acme.test" }

abbrev queued_note : Row
queued_note = record {
  id = 7;
  org_id = 1;
  domain_id = 2;
  from_addr = codes "ops@acme.test";
  to_addrs = codes "bob@one.test" ∷ [];
  subject = [];
  body = codes "hi";
  html_body = none;
  headers = [];
  raw = none;
  envelope_from = none;
  status = Status.pending;
  attempts = 0;
  max_attempts = 2;
  next_retry = 0;
  last_error = none;
  delivered_at = none;
  created_at = 0;
  updated_at = 0;
}

note_there : row_of 7 (queued_note ∷ []) ≡ some queued_note
unfolding first
note_there = refl

attempt-settled_example :
    let d = attempt up cfg (smarthost ∷ []) 60 note (queued_note ∷ []) in
    (d.raised ≡ false)
    × (d.mails ≡ (send up cfg (smarthost ∷ []) note).1)
    × (row_of 7 d.table ≡ some (settled (send up cfg (smarthost ∷ []) note).0 60 queued_note))
    × (row_of 8 d.table ≡ row_of 8 (queued_note ∷ []))
attempt-settled_example =
    attempt-settled up cfg (smarthost ∷ []) 60 note (queued_note ∷ []) queued_note 8 note_there refl

-- The relay is down for every message.
relay_down : IsDown cfg (smarthost ∷ []) 7 down
unfolding send send_via_relay first
relay_down m = elim (Bool-cases (2 == m.domain_id)) [
  | inl e ↦ ground (arith, e)
  | inr e ↦ ground (arith, e)
]

note_free : claimable queued_note ≡ true
unfolding claimable
note_free = refl

rounds-give_up_example :
    (x : Row) × (row_of 7
        (rounds ((down, 60) ∷ (down, 900) ∷ []) cfg (smarthost ∷ []) 7 (queued_note ∷ []))
      ≡ some x)
    × (x.status ≡ Status.failed)
    × (x.attempts ≤ max (attempt_limit queued_note) (queued_note.attempts + 1))
rounds-give_up_example =
    rounds-give_up cfg (smarthost ∷ []) 7 ((down, 60) ∷ (down, 900) ∷ []) (queued_note ∷ [])
      queued_note (relay_down, (relay_down, tt)) (tt, tt) note_there note_free (omega arith)
      (omega arith)
