-- ===== src/Sender/Direct.antt =====
-- Direct delivery: which mails the servers accept, on every outcome.
use lightr.Prelude.{
  text_eq, not, ◌&&◌, ◌+◌, Bool-cases, Option-cases, Text, ◌≡◌, refl, ◌⊎◌, inl, inr, none, some,
  List, [], ◌∷◌, map, length, take, codes, ℕ, suc, ◌<◌, ap, true, false, ◌++◌, arith, count, ◌∙◌,
}
use lightr.Queue.{Message}
use lightr.Sender.Groups.{times_in, addresses, is_routable, times_in-group_by_domain}
use lightr.Sender.{
  World, Failure, Mail, try_hosts, Sent, transient_code, failure, code_from, mx_hosts, mail_to,
  send_groups, after_hosts, group_by_domain, send_direct,
}

abbrev pub recipients_of : List Mail → List (List Text)
recipients_of = map (λ m. m.recipients)

module _ (w : World) where
  -- Once an exception was seen, the loop ends with one, or with one mail accepted.
  try_hosts-cases :
      (mail : Text → Mail) (hosts : List Text) (e : Failure)
      → ((f : Failure) × (try_hosts w mail hosts (some e) ≡ (some f, [])))
        ⊎ ((host : Text) × (try_hosts w mail hosts (some e) ≡ (none, mail host ∷ [])))
  unfolding try_hosts
  try_hosts-cases mail [] e = inl (e, refl)
  try_hosts-cases mail (host ∷ hosts) e = elim (Option-cases (w.deliver (mail host))) [
    | inl d ↦ inr (host, rw (d, try_hosts) refl)
    | inr d ↦ rw (d.1, try_hosts) (try_hosts-cases mail hosts d.0)
  ]

  first_host-cases :
      (mail : Text → Mail) (host : Text) (hosts : List Text)
      → ((f : Failure) × (try_hosts w mail (host ∷ hosts) none ≡ (some f, [])))
        ⊎ ((h : Text) × (try_hosts w mail (host ∷ hosts) none ≡ (none, mail h ∷ [])))
  unfolding try_hosts
  first_host-cases mail host hosts = elim (Option-cases (w.deliver (mail host))) [
    | inl d ↦ inr (host, rw (d, try_hosts) refl)
    | inr d ↦ rw (d.1, try_hosts) (try_hosts-cases mail hosts d.0)
  ]

-- The mails that a send had accepted, against the recipients of each domain: they go to the first
-- domains, each once and in order; to all of them if the send succeeds, and not to all if it fails.
pub record Covers (sent : Sent) (targets : List (List Text)) : Type 0 where
  pub in_order : recipients_of sent.1 ≡ take (length sent.1) targets
  pub complete : sent.0.success ≡ true → length sent.1 ≡ length targets
  pub partial : sent.0.success ≡ false → length sent.1 < length targets

Covers-cons :
    (mail : Mail) (rest : Sent) (targets : List (List Text))
    → Covers rest targets
    → Covers (rest.0, mail ∷ rest.1) (mail.recipients ∷ targets)
Covers-cons mail rest targets c = record {
  in_order = ap (λ rs. mail.recipients ∷ rs) c.in_order;
  complete = λ h. ap suc (c.complete h);
  partial = λ h. omega (arith, c.partial h);
}

Covers-failure :
    (code : ℕ) (detail : Text) (target : List Text) (targets : List (List Text))
    → Covers (failure code detail, []) (target ∷ targets)
Covers-failure code detail target targets = record {
  in_order = refl;
  complete = λ h. cc;
  partial = λ h. omega arith;
}

module _ (w : World) (m : Message) (payload helo : Text) where
  -- One step of the loop over the domains, by what the hosts of the first answered.
  send_groups-cons :
      (name : Text) (rs : List Text) (groups : List (Text × List Text))
      → let rest = send_groups w m payload helo groups in
        ((code : ℕ) × (detail : Text) × (send_groups w m payload helo ((name, rs) ∷ groups)
            ≡ (failure code detail, [])))
        ⊎ ((host : Text) × (send_groups w m payload helo ((name, rs) ∷ groups)
              ≡ (rest.0, mail_to w m payload helo rs host ∷ rest.1)))
  unfolding send_groups
  send_groups-cons name rs groups = by_hosts (mx_hosts w name) refl
    where
      by_hosts :
          (hosts : List Text)
          → mx_hosts w name ≡ hosts
          → let rest = send_groups w m payload helo groups in
            ((code : ℕ) × (detail : Text) × (send_groups w m payload helo ((name, rs) ∷ groups)
                ≡ (failure code detail, [])))
            ⊎ ((host : Text) × (send_groups w m payload helo ((name, rs) ∷ groups)
                  ≡ (rest.0, mail_to w m payload helo rs host ∷ rest.1)))
      by_hosts [] e = inl (transient_code, codes "no MX for " ++ name, rw (e, send_groups) refl)
      by_hosts (host ∷ hosts) e =
          elim (first_host-cases w (mail_to w m payload helo rs) host hosts) [
            | inl t ↦ inl (
              code_from t.0,
              name ++ (codes ": " ++ t.0.detail),
              rw (e, send_groups)
                  (ap (λ r. after_hosts name r (send_groups w m payload helo groups)) t.1),
            )
            | inr t ↦ inr (
              t.0,
              rw (e, send_groups)
                  (ap (λ r. after_hosts name r (send_groups w m payload helo groups)) t.1),
            )
          ]

  send_groups-Covers :
      (groups : List (Text × List Text))
      → Covers (send_groups w m payload helo groups) (map (λ g. g.1) groups)
  unfolding send_groups
  send_groups-Covers [] = record { in_order = refl; complete = λ h. refl; partial = λ h. cc }
  send_groups-Covers ((name, rs) ∷ groups) = elim (send_groups-cons name rs groups) [
    | inl f ↦ rw (f.2) (Covers-failure f.0 f.1 rs (map (λ g. g.1) groups))
    | inr s ↦ rw (s.1) (
        Covers-cons (mail_to w m payload helo rs s.0) (send_groups w m payload helo groups) _
          (send_groups-Covers groups))
  ]

-- Direct delivery, against the groups of the message.
send_direct-Covers :
    (w : World) (m : Message) (payload helo : Text)
    → Covers (send_direct w m payload helo) (addresses (group_by_domain m.to_addrs []))
      ⊎ (send_direct w m payload helo ≡ (failure 550 (codes "no deliverable recipients"), []))
unfolding send_direct
send_direct-Covers w m payload helo = by_groups (group_by_domain m.to_addrs []) refl
  where
    by_groups :
        (gs : List (Text × List Text))
        → group_by_domain m.to_addrs [] ≡ gs
        → Covers (send_direct w m payload helo) (addresses gs)
          ⊎ (send_direct w m payload helo ≡ (failure 550 (codes "no deliverable recipients"), []))
    by_groups [] e = inr (rw (e, send_direct) refl)
    by_groups (g ∷ gs) e = inl (rw (e, send_direct) (send_groups-Covers w m payload helo (g ∷ gs)))

take_all {ℓ} : {A : Type ℓ} (xs : List A) → take (length xs) xs ≡ xs
take_all [] = refl
take_all (x ∷ xs) = ap (λ ys. x ∷ ys) (take_all xs)

-- A send that succeeds reaches the group of every domain.
all_groups :
    (w : World) (m : Message) (payload helo : Text)
    → (send_direct w m payload helo).0.success ≡ true
    → recipients_of (send_direct w m payload helo).1 ≡ addresses (group_by_domain m.to_addrs [])
all_groups w m payload helo h = elim (send_direct-Covers w m payload helo) [
  | inl c ↦ c.in_order ∙ rw (c.complete h) (take_all (addresses (group_by_domain m.to_addrs [])))
  | inr e ↦ absurd (ground (arith, e, h))
]

module _ (w : World) (a : Text) where
  -- How often the mails had the address among their recipients and the server took it, and how
  -- often it refused it while it took others.
  unfoldable pub times_reached : List Mail → ℕ
  unfolding count
  times_reached [] = 0
  times_reached (m ∷ ms) =
      count (λ r. text_eq a r && not (w.refuses m r)) m.recipients + times_reached ms

  unfoldable pub times_refused : List Mail → ℕ
  unfolding count
  times_refused [] = 0
  times_refused (m ∷ ms) = count (λ r. text_eq a r && w.refuses m r) m.recipients + times_refused ms

  count-split :
      (m : Mail) (rs : List Text)
      → count (λ r. text_eq a r && not (w.refuses m r)) rs
          + count (λ r. text_eq a r && w.refuses m r) rs
        ≡ count (text_eq a) rs
  unfolding count
  count-split m [] = omega arith
  count-split m (r ∷ rs) = elim (Bool-cases (text_eq a r)) [
    | inl e ↦ elim (Bool-cases (w.refuses m r)) [
      | inl f ↦ rw e (rw f (omega (arith, count-split m rs)))
      | inr f ↦ rw e (rw f (omega (arith, count-split m rs)))
    ]
    | inr e ↦ rw e (omega (arith, count-split m rs))
  ]

  times_split :
      (ms : List Mail) → times_reached ms + times_refused ms ≡ times_in a (recipients_of ms)
  unfolding times_reached times_refused
  times_split [] = omega arith
  times_split (m ∷ ms) = omega (arith, count-split m m.recipients, times_split ms)

-- After a success each address with a domain was handed to a server exactly as often as the message
-- names it, and no other address was: each time the server took it, or it refused it while it took
-- the mail for others, which is a success to the sender.
pub send_direct_complete :
    (w : World) (m : Message) (payload helo a : Text)
    → (send_direct w m payload helo).0.success ≡ true
    → times_reached w a (send_direct w m payload helo).1
        + times_refused w a (send_direct w m payload helo).1
      ≡ count (is_routable a) m.to_addrs
send_direct_complete w m payload helo a h =
    times_split w a (send_direct w m payload helo).1
    ∙ rw (all_groups w m payload helo h) (omega (arith, times_in-group_by_domain a m.to_addrs []))
