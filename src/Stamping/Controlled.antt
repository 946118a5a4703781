-- ===== src/Stamping/Controlled.antt =====
-- What a message says in each header once it is stamped.
use mathlib.Core.List.{append-nil}
use lightr.Prelude.{
  if◌then◌else◌, Bool-cases, Text, text_eq, text_eq_iff, lower, ◌≡◌, refl, sym, ap, ◌∙◌, inl, inr,
  Bool, true, false, ◌||◌, List, [], ◌∷◌, ◌++◌, codes, arith,
}
use lightr.Stamping.{
  reasons_header, Message, same_name, is_present, delete_header, values_of, controlled_headers,
  strip_each, strip_controlled, Analysis, stamps, apply,
}

unfoldable pub any_name : Text → List Text → Bool
unfolding same_name
any_name name [] = false
any_name name (n ∷ ns) = same_name name n || any_name name ns

-- A header that only the server writes.
unfoldable pub is_controlled : Text → Bool
unfolding any_name
is_controlled name = any_name name controlled_headers

same_name-lower : (a b : Text) → same_name a b ≡ true → lower a ≡ lower b
unfolding same_name
same_name-lower a b h = (text_eq_iff (lower a) (lower b)).0 h

-- A name that is the same as another is the same as a third exactly if that one is.
same_name_cong : (a b c : Text) → same_name a b ≡ true → same_name a c ≡ same_name b c
unfolding same_name
same_name_cong a b c h = ap (λ x. text_eq x (lower c)) (same_name-lower a b h)

same_name_other :
    (a b c : Text) → same_name b c ≡ true → same_name a b ≡ false → same_name a c ≡ false
unfolding same_name
same_name_other a b c e f = ap (λ x. text_eq (lower a) x) (sym (same_name-lower b c e)) ∙ f

values_of-append :
    (name : Text) (xs ys : List (Text × Text))
    → values_of name (xs ++ ys) ≡ values_of name xs ++ values_of name ys
unfolding values_of
values_of-append name [] ys = refl
values_of-append name ((n, v) ∷ xs) ys = elim (Bool-cases (same_name name n)) [
  | inl e ↦ rw e (ap (λ t. v ∷ t) (values_of-append name xs ys))
  | inr e ↦ rw e (values_of-append name xs ys)
]

values_of-same :
    (name n : Text) (hs : List (Text × Text))
    → same_name name n ≡ true
    → values_of name (delete_header n hs) ≡ []
unfolding values_of delete_header
values_of-same name n [] h = refl
values_of-same name n ((k, v) ∷ hs) h = elim (Bool-cases (same_name n k)) [
  | inl e ↦ rw e (values_of-same name n hs h)
  | inr e ↦
      let other : same_name name k ≡ false = same_name_cong name n k h ∙ e in
      rw e (rw other (values_of-same name n hs h))
]

values_of-other :
    (name n : Text) (hs : List (Text × Text))
    → same_name name n ≡ false
    → values_of name (delete_header n hs) ≡ values_of name hs
unfolding values_of delete_header
values_of-other name n [] h = refl
values_of-other name n ((k, v) ∷ hs) h = elim (Bool-cases (same_name n k)) [
  | inl e ↦
      let other : same_name name k ≡ false = same_name_other name n k e h in
      rw e (rw other (values_of-other name n hs h))
  | inr e ↦ elim (Bool-cases (same_name name k)) [
    | inl f ↦ rw e (rw f (ap (λ t. v ∷ t) (values_of-other name n hs h)))
    | inr f ↦ rw e (rw f (values_of-other name n hs h))
  ]
]

delete_header_missing :
    (n : Text) (hs : List (Text × Text)) → is_present n hs ≡ false → delete_header n hs ≡ hs
unfolding delete_header is_present
delete_header_missing n [] h = refl
delete_header_missing n ((k, v) ∷ hs) h = elim (Bool-cases (same_name n k)) [
  | inl e ↦ cc
  | inr e ↦
      let later : is_present n hs ≡ false = ground (arith, e, h) in
      rw e (ap (λ t. (k, v) ∷ t) (delete_header_missing n hs later))
]

-- Whether it was there or not, a name of the loop is deleted.
strip_each-delete :
    (n : Text) (ns : List Text) (hs : List (Text × Text))
    → (strip_each (n ∷ ns) hs).1 ≡ (strip_each ns (delete_header n hs)).1
unfolding strip_each
strip_each-delete n ns hs = elim (Bool-cases (is_present n hs)) [
  | inl e ↦ rw e refl
  | inr e ↦ rw e (rw (delete_header_missing n hs e) refl)
]

abbrev nothing_if : Bool → List Text → List Text
nothing_if b vs = if b then [] else vs

values_of-strip_each :
    (name : Text) (ns : List Text) (hs : List (Text × Text))
    → values_of name (strip_each ns hs).1 ≡ nothing_if (any_name name ns) (values_of name hs)
unfolding strip_each any_name
values_of-strip_each name [] hs = refl
values_of-strip_each name (n ∷ ns) hs =
    ap (values_of name) (strip_each-delete n ns hs)
    ∙ values_of-strip_each name ns (delete_header n hs)
    ∙ elim (Bool-cases (same_name name n)) [
      | inl e ↦ rw e (rw (values_of-same name n hs e) (both (any_name name ns)))
      | inr e ↦ rw e (ap (nothing_if (any_name name ns)) (values_of-other name n hs e))
    ]
  where
    both : (b : Bool) → nothing_if b [] ≡ []
    both true = refl
    both false = refl

-- A name that is none of the controlled ones is no name of a stamp.
values_of-stamps :
    (name : Text) (a : Analysis) (hostname : Text)
    → is_controlled name ≡ false
    → values_of name (stamps a hostname) ≡ []
unfolding stamps values_of is_controlled any_name
values_of-stamps name a hostname h =
    let score : same_name name (codes "X-Spam-Score") ≡ false = ground (arith, h) in
    let flag : same_name name (codes "X-Spam-Flag") ≡ false = ground (arith, h) in
    let attachment : same_name name (codes "X-Lightr-Has-Attachment") ≡ false = ground (arith, h) in
    let results : same_name name (codes "Authentication-Results") ≡ false = ground (arith, h) in
    let reasons : same_name name (codes "X-Lightr-Spam-Reasons") ≡ false = ground (arith, h) in
    rw (score, flag, attachment, results) (no_reasons a.reasons reasons)
  where
    no_reasons :
        (rs : List Text)
        → same_name name (codes "X-Lightr-Spam-Reasons") ≡ false
        → values_of name (reasons_header rs) ≡ []
    no_reasons [] e = refl
    no_reasons (r ∷ rs) e = rw e refl

-- Once a message is stamped, each header that is the server's says what the analysis says and
-- nothing else, in whatever case a sender wrote one of that name, and every other header is as it
-- was.
pub values_of-apply :
    (name : Text) (m : Message) (a : Analysis) (hostname : Text)
    → values_of name (apply m a hostname).headers ≡ (
        if is_controlled name then values_of name (stamps a hostname) else values_of name m.headers)
unfolding apply strip_controlled is_controlled
values_of-apply name m a hostname =
    values_of-append name (strip_each controlled_headers m.headers).1 (stamps a hostname)
    ∙ ap (λ vs. vs ++ values_of name (stamps a hostname))
        (values_of-strip_each name controlled_headers m.headers)
    ∙ elim (Bool-cases (any_name name controlled_headers)) [
      | inl e ↦ rw e refl
      | inr e ↦
          rw e (rw (values_of-stamps name a hostname e) (append-nil (values_of name m.headers)))
    ]
