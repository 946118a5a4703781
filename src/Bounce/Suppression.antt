-- ===== src/Bounce/Suppression.antt =====
-- What suppressing and releasing an address do, and what the router makes of it.
use lightr.Prelude.{
  ℕ, Text, Bool-cases, first, text_eq, one_of, ◌≡◌, refl, inl, inr, Bool, true, false, ◌||◌, Option,
  none, some, List, [], ◌∷◌, ◌++◌, map, arith, delete, text_eq_iff, ◌&&◌, not, ltb, count,
  text_eq_self, cut, lower, strip, lower_idem,
}
use lightr.Directory.{Uuid}
use lightr.Bounce.{
  Store, Suppressed, normalise, is_suppressed, suppress, should_suppress, Bounce, is_some,
  unsuppress, record_bounce, reason_of, log_bounce,
}
use lightr.Bounce.Addresses.{normalise_idem}
use lightr.Routing
use lightr.Routing.{World, Disposition, route, route_parts}

abbrev listed : Text → List Suppressed → Bool
listed a t = is_some (first (λ r. text_eq r.email a) t)

-- The addresses of the list.
abbrev pub emails : List Suppressed → List Text
emails t = map (λ r. r.email) t

first_or :
    (a : Text) (t : List Suppressed) (r : Suppressed)
    → listed a (t ++ r ∷ []) ≡ (listed a t || text_eq r.email a)
unfolding first
first_or a [] r = elim (Bool-cases (text_eq r.email a)) [
  | inl e ↦ ground (arith, e)
  | inr e ↦ ground (arith, e)
]
first_or a (x ∷ t) r = elim (Bool-cases (text_eq x.email a)) [
  | inl e ↦ ground (arith, e)
  | inr e ↦ ground (arith, e, first_or a t r)
]

text_eq_sym : (a b : Text) → text_eq a b ≡ text_eq b a
unfolding text_eq
text_eq_sym [] [] = refl
text_eq_sym [] (c ∷ b) = refl
text_eq_sym (c ∷ a) [] = refl
text_eq_sym (c ∷ a) (d ∷ b) = ground (arith, text_eq_sym a b)

listed-emails : (a : Text) (t : List Suppressed) → listed a t ≡ one_of a (emails t)
unfolding first one_of
listed-emails a [] = refl
listed-emails a (r ∷ t) = elim (Bool-cases (text_eq r.email a)) [
  | inl e ↦ ground (arith, e, text_eq_sym a r.email)
  | inr e ↦ ground (arith, e, text_eq_sym a r.email, listed-emails a t)
]

is_suppressed-eq-listed :
    (email : Text) (st : Store)
    → is_suppressed email st ≡ listed (normalise email) st.suppression_list
unfolding is_suppressed
is_suppressed-eq-listed email st = refl

-- Suppressing an address adds it to those that are suppressed and changes no other.
pub is_suppressed-suppress :
    (email other reason : Text) (org_id : Option Uuid) (now : ℕ) (st : Store)
    → is_suppressed other (suppress email reason org_id now st)
      ≡ (is_suppressed other st || text_eq (normalise email) (normalise other))
unfolding suppress
is_suppressed-suppress email other reason org_id now st =
    elim (Bool-cases (is_suppressed (normalise email) st)) [
      | inl e ↦ rw e (elim (Bool-cases (text_eq (normalise email) (normalise other))) [
        | inl f ↦
            let same = (text_eq_iff (normalise email) (normalise other)).0 f in
            let here : is_suppressed other st ≡ true = rw (is_suppressed-eq-listed other st) (
              rw (← same) (
                rw (← normalise_idem email)
                  (rw (← is_suppressed-eq-listed (normalise email) st) e))) in
            ground (arith, f, here)
        | inr f ↦ ground (arith, f)
      ])
      | inr e ↦ rw e (rw is_suppressed-eq-listed (first_or (normalise other) st.suppression_list _))
    ]

is_suppressed-log_bounce :
    (b : Bounce) (org_id domain_id : Uuid) (now : ℕ) (other : Text) (st : Store)
    → is_suppressed other (log_bounce b org_id domain_id now st) ≡ is_suppressed other st
unfolding is_suppressed log_bounce
is_suppressed-log_bounce b org_id domain_id now other st = refl

-- Recording a bounce says whether it suppresses its recipient, which it does for hard bounces and
-- complaints, and suppresses no other address.
pub is_suppressed-record_bounce :
    (b : Bounce) (org_id domain_id : Uuid) (now : ℕ) (other : Text) (st : Store)
    → let after = record_bounce b org_id domain_id now st in
      (after.1 ≡ should_suppress b.bounce_type)
      × (is_suppressed other after.0 ≡ (
          is_suppressed other st
          || should_suppress b.bounce_type && text_eq (normalise b.recipient) (normalise other)))
unfolding record_bounce
is_suppressed-record_bounce b org_id domain_id now other st =
    let logged = log_bounce b org_id domain_id now st in
    let kept = is_suppressed-log_bounce b org_id domain_id now other st in
    elim (Bool-cases (should_suppress b.bounce_type)) [
      | inl e ↦
          let added =
            is_suppressed-suppress b.recipient other (reason_of b.bounce_type b.status)
              (some org_id) now logged in
          rw e (refl, rw added (rw kept refl))
      | inr e ↦ rw e (refl, rw kept (ground arith))
    ]

listed-delete :
    (a b : Text) (t : List Suppressed)
    → listed a (delete (λ r. text_eq r.email b) t) ≡ (listed a t && not (text_eq b a))
unfolding first delete
listed-delete a b [] = refl
listed-delete a b (r ∷ t) = elim (Bool-cases (text_eq r.email b)) [
  | inl e ↦
      let same : text_eq r.email a ≡ text_eq b a = rw ((text_eq_iff r.email b).0 e) refl in
      ground (arith, e, same, listed-delete a b t)
  | inr e ↦ elim (Bool-cases (text_eq r.email a)) [
    | inl f ↦
        let other : text_eq b a ≡ false =
          rw (← (text_eq_iff r.email a).0 f) (rw (text_eq_sym b r.email) e) in
        ground (arith, e, f, other)
    | inr f ↦ ground (arith, e, f, listed-delete a b t)
  ]
]

count-first :
    (p : Suppressed → Bool) (t : List Suppressed) → ltb 0 (count p t) ≡ is_some (first p t)
unfolding count first
count-first p [] = refl
count-first p (r ∷ t) = elim (Bool-cases (p r)) [
  | inl e ↦ ground (arith, e)
  | inr e ↦ ground (arith, e, count-first p t)
]

-- Releasing an address says whether it was suppressed; it is not afterwards, and any other address
-- is as it was.
is_suppressed-unsuppress :
    (email other : Text) (st : Store)
    → ((unsuppress email st).1 ≡ is_suppressed email st)
      × (is_suppressed other (unsuppress email st).0
          ≡ (is_suppressed other st && not (text_eq (normalise email) (normalise other))))
unfolding unsuppress is_suppressed first
is_suppressed-unsuppress email other st = (
  rw (is_suppressed-eq-listed email st) (count-first _ st.suppression_list),
  rw is_suppressed-eq-listed
      (listed-delete (normalise other) (normalise email) st.suppression_list),
)

one_of-emails :
    (a : Text) (st : Store)
    → is_suppressed a st ≡ true
    → one_of (lower (Routing.normalise a)) (emails st.suppression_list) ≡ true
unfolding Routing.normalise normalise
one_of-emails a st h =
    rw (lower_idem (strip a)) (
      rw (← listed-emails (normalise a) st.suppression_list)
        (rw (← is_suppressed-eq-listed a st) h))

-- The router rejects an address that is on the list.
pub is_suppressed-route :
    (a : Text) (st : Store) (w : World)
    → is_suppressed a st ≡ true
    → (route (record w { suppression_list = emails st.suppression_list }) a).disposition
      ≡ Disposition.reject
unfolding route
is_suppressed-route a st w h = by_parts (cut b'@' (Routing.normalise a))
  where
    after : World
    after = record w { suppression_list = emails st.suppression_list }

    suppressed_now : Routing.is_suppressed after (Routing.normalise a) ≡ true
    suppressed_now = unfold Routing.is_suppressed in one_of-emails a st h

    by_parts :
        (o : Option (Text × Text))
        → (route_parts after a (Routing.normalise a) o).disposition ≡ Disposition.reject
    by_parts none = unfold route_parts in refl
    by_parts (some (local, n)) = unfold route_parts in rw suppressed_now refl

-- Mail to the recipient of a bounce that suppresses is rejected from then on.
pub record_bounce-route :
    (b : Bounce) (org_id domain_id : Uuid) (now : ℕ) (st : Store) (w : World)
    → should_suppress b.bounce_type ≡ true
    → (route
        (record w {
          suppression_list = emails (record_bounce b org_id domain_id now st).0.suppression_list;
        })
        b.recipient).disposition
      ≡ Disposition.reject
record_bounce-route b org_id domain_id now st w h =
    let recorded = (is_suppressed-record_bounce b org_id domain_id now b.recipient st).1 in
    let self = text_eq_self (normalise b.recipient) in
    is_suppressed-route b.recipient (record_bounce b org_id domain_id now st).0 w
      (ground (arith, recorded, self, h))
