-- ===== src/Webhooks/Subscriptions.antt =====
-- Which events a subscription of src/lightr/webhooks/delivery.py asks for.
use lightr.Prelude.{
  Bool-cases, delete, Text, text_eq, text_eq_iff, one_of, ◌≡◌, refl, sym, ap, ◌∙◌, inl, inr, false,
  ◌&&◌, ◌||◌, some, List, [], ◌∷◌, Bool, true, arith,
}
use lightr.Routing.{dedupe}
use lightr.Webhooks.{Webhook, wants, validate_events, unknown_events, no_events, every_event}

one_of-delete_other :
    (e x : Text) (xs : List Text)
    → text_eq e x ≡ false
    → one_of e (delete (text_eq x) xs) ≡ one_of e xs
unfolding one_of delete
one_of-delete_other e x [] ne = refl
one_of-delete_other e x (y ∷ ys) ne = elim (Bool-cases (text_eq x y)) [
  | inl f ↦
      let same = (text_eq_iff x y).0 f in
      let other : text_eq e y ≡ false = rw (sym same) ne in
      rw f (rw other (one_of-delete_other e x ys ne))
  | inr f ↦ rw f (ap (λ b. text_eq e y || b) (one_of-delete_other e x ys ne))
]

one_of-dedupe : (e : Text) (xs : List Text) → one_of e (dedupe xs) ≡ one_of e xs
unfolding one_of dedupe
one_of-dedupe e [] = refl
one_of-dedupe e (x ∷ xs) = elim (Bool-cases (text_eq e x)) [
  | inl f ↦ rw f refl
  | inr f ↦ rw f (one_of-delete_other e x (dedupe xs) f ∙ one_of-dedupe e xs)
]

abbrev names : List Text → Text → Bool
names es event = no_events es || one_of event es || one_of every_event es

names-validate_events :
    (es vs : List Text) (event : Text)
    → validate_events es ≡ some vs
    → names vs event ≡ names es event
unfolding validate_events one_of
names-validate_events [] vs event h =
    let same : every_event ∷ [] ≡ vs = cc in
    rw (sym same) (or_true_r (text_eq event every_event || false))
  where
    or_true_r : (b : Bool) → (b || true) ≡ true
    or_true_r false = refl
    or_true_r true = refl
names-validate_events (e ∷ es) vs event h =
    elim (Bool-cases (no_events (unknown_events (e ∷ es)))) [
      | inl f ↦
          let same : dedupe (e ∷ es) ≡ vs = ground (arith, f, h) in
          rw (sym same) (
            ap (λ b. b || one_of every_event (dedupe (e ∷ es))) (one_of-dedupe event (e ∷ es))
            ∙ ap (λ b. one_of event (e ∷ es) || b) (one_of-dedupe every_event (e ∷ es)))
      | inr f ↦ absurd (ground (arith, f, h))
    ]

-- An endpoint with a subscription that was accepted wants, while it is active, exactly the events
-- the subscription names, and every event if it names none or names "*".
wants-validate_events :
    (es vs : List Text) (w : Webhook) (event : Text)
    → validate_events es ≡ some vs
    → w.events ≡ vs
    → wants event w ≡ (w.active && (no_events es || one_of event es || one_of every_event es))
unfolding wants
wants-validate_events es vs w event h same = elim (Bool-cases w.active) [
  | inl f ↦ rw f (rw same (names-validate_events es vs event h))
  | inr f ↦ rw f refl
]
