-- ===== src/Stamping/Forged.antt =====
-- What a filter on the result of a check reads in a stamped message.
use mathlib.Core.List.{append-nil}
use lightr.Prelude.{
  lower_char, lower, all_chars, ◌==◌, ==_self, Bool-cases, Text, codes, text_eq, is_empty,
  starts_with, contains, join, ◌≡◌, refl, inl, inr, true, false, List, [], ◌∷◌, ◌++◌, arith, lower,
  sym, ap, ◌∙◌, ◌⊎◌, Bool, ◌||◌, none, some, ℕ,
}
use lightr.Sieve.{dmarc_result, header, Operator, Condition, compile_condition, Compiled}
use lightr.Sieve.Literals.{one_line}
use lightr.Sieve.Meaning.{holds, run_header_test, compile_condition-holds}
use lightr.Stamping.{
  Message, apply, AuthResults, spf_part, render_auth, same_name, values_of, Analysis,
  reasons_header, stamps,
}
use lightr.Stamping.Controlled.{values_of-apply, is_controlled}

or_true : (b : Bool) → (b || true) ≡ true
or_true true = refl
or_true false = refl

starts_self : (p s : Text) → starts_with p (p ++ s) ≡ true
unfolding starts_with
starts_self [] s = refl
starts_self (x ∷ p) s = rw (==_self x) (starts_self p s)

starts-append : (p t s : Text) → starts_with p t ≡ true → starts_with p (t ++ s) ≡ true
unfolding starts_with
starts-append [] t s h = refl
starts-append (x ∷ p) [] s h = cc
starts-append (x ∷ p) (c ∷ t) s h = elim (Bool-cases (x == c)) [
  | inl e ↦
      let later : starts_with p t ≡ true = ground (arith, e, h) in rw e (starts-append p t s later)
  | inr e ↦ ground (arith, e, h)
]

contains-behind : (p xs t : Text) → contains p t ≡ true → contains p (xs ++ t) ≡ true
unfolding contains
contains-behind p [] t h = h
contains-behind p (x ∷ xs) t h =
    rw (contains-behind p xs t h) (or_true (starts_with p (x ∷ (xs ++ t))))

contains-starts : (p t : Text) → starts_with p t ≡ true → contains p t ≡ true
unfolding contains
contains-starts p [] h = h
contains-starts p (c ∷ t) h = rw h refl

contains-append : (p t s : Text) → contains p t ≡ true → contains p (t ++ s) ≡ true
unfolding contains
contains-append p [] s h = contains-starts p s (starts-append p [] s h)
contains-append p (c ∷ t) s h = elim (Bool-cases (starts_with p (c ∷ t))) [
  | inl e ↦ contains-starts p ((c ∷ t) ++ s) (starts-append p (c ∷ t) s e)
  | inr e ↦
      let later : contains p t ≡ true = ground (arith, e, h) in
      rw (contains-append p t s later) (or_true (starts_with p (c ∷ (t ++ s))))
]

contains_self : (p : Text) → contains p p ≡ true
contains_self p =
    contains-starts p p (ap (λ s. starts_with p s) (sym (append-nil p)) ∙ starts_self p [])

lower_char_same : (x c : ℕ) → (x == c) ≡ true → (lower_char x == lower_char c) ≡ true
lower_char_same x c h = let same : x ≡ c = ground (arith, h) in rw same (==_self (lower_char c))

starts_with-lower : (p t : Text) → starts_with p t ≡ true → starts_with (lower p) (lower t) ≡ true
unfolding starts_with lower
starts_with-lower [] t h = refl
starts_with-lower (x ∷ p) [] h = cc
starts_with-lower (x ∷ p) (c ∷ t) h = elim (Bool-cases (x == c)) [
  | inl e ↦
      let later : starts_with p t ≡ true = ground (arith, e, h) in
      rw (lower_char_same x c e) (starts_with-lower p t later)
  | inr e ↦ absurd (ground (arith, e, h))
]

-- What stands in a text stands in it without their case.
contains-lower : (p t : Text) → contains p t ≡ true → contains (lower p) (lower t) ≡ true
unfolding contains lower
contains-lower p [] h = starts_with-lower p [] h
contains-lower p (c ∷ t) h = elim (Bool-cases (starts_with p (c ∷ t))) [
  | inl e ↦ contains-starts (lower p) (lower (c ∷ t)) (starts_with-lower p (c ∷ t) e)
  | inr e ↦
      let later : contains p t ≡ true = ground (arith, e, h) in
      rw (contains-lower p t later) (or_true (starts_with (lower p) (lower (c ∷ t))))
]

-- The sender's address stands in the header as it was sent.
contains-spf_part :
    (p : Text) (a : AuthResults)
    → text_eq a.spf (codes "none") ≡ false
    → is_empty a.mail_from ≡ false
    → contains p a.mail_from ≡ true
    → contains p (spf_part a) ≡ true
unfolding spf_part
contains-spf_part p a known sent h = rw known (
    rw sent (
      contains-behind p (codes "spf=") (a.spf ++ (codes " smtp.mailfrom=" ++ a.mail_from)) (
        contains-behind p a.spf (codes " smtp.mailfrom=" ++ a.mail_from)
          (contains-behind p (codes " smtp.mailfrom=") a.mail_from h))))

contains-render_auth :
    (p : Text) (a : AuthResults) (hostname : Text)
    → contains p (spf_part a) ≡ true
    → contains p (render_auth a hostname) ≡ true
unfolding render_auth join
contains-render_auth p a hostname h =
    let dkim = codes "dkim=" ++ a.dkim in
    let dmarc = codes "dmarc=" ++ a.dmarc in
    contains-behind p hostname
      (codes "; " ++ (spf_part a ++ (codes "; " ++ (dkim ++ (codes "; " ++ dmarc)))))
      (contains-behind p (codes "; ")
        (spf_part a ++ (codes "; " ++ (dkim ++ (codes "; " ++ dmarc))))
        (contains-append p (spf_part a) (codes "; " ++ (dkim ++ (codes "; " ++ dmarc))) h))

contains-dmarc :
    (a : AuthResults) (hostname : Text)
    → contains (codes "dmarc=" ++ a.dmarc) (render_auth a hostname) ≡ true
unfolding render_auth join
contains-dmarc a hostname =
    let dkim = codes "dkim=" ++ a.dkim in
    let dmarc = codes "dmarc=" ++ a.dmarc in
    contains-behind dmarc hostname
      (codes "; " ++ (spf_part a ++ (codes "; " ++ (dkim ++ (codes "; " ++ dmarc)))))
      (contains-behind dmarc (codes "; ")
        (spf_part a ++ (codes "; " ++ (dkim ++ (codes "; " ++ dmarc))))
        (contains-behind dmarc (spf_part a) (codes "; " ++ (dkim ++ (codes "; " ++ dmarc))) (
          contains-behind dmarc (codes "; ") (dkim ++ (codes "; " ++ dmarc)) (
            contains-behind dmarc dkim (codes "; " ++ dmarc)
              (contains-behind dmarc (codes "; ") dmarc (contains_self dmarc))))))

abbrev first_value : List Text → Text
first_value [] = []
first_value (v ∷ vs) = v

-- What Sieve reads of a header that stands once.
unfoldable pub header_text : List (Text × Text) → Text → Text
unfolding values_of
header_text hs name = first_value (values_of name hs)

abbrev pub results_name : Text
results_name = codes "Authentication-Results"

values_of-results :
    (a : Analysis) (hostname : Text)
    → values_of results_name (stamps a hostname) ≡ render_auth a.auth hostname ∷ []
unfolding stamps values_of same_name lower text_eq
values_of-results a hostname = no_more a.reasons
  where
    no_more :
        (rs : List Text)
        → render_auth a.auth hostname ∷ values_of results_name (reasons_header rs)
          ≡ render_auth a.auth hostname ∷ []
    no_more [] = refl
    no_more (r ∷ rs) = refl

header_text-apply :
    (m : Message) (a : Analysis) (hostname : Text)
    → header_text (apply m a hostname).headers results_name ≡ render_auth a.auth hostname
unfolding header_text is_controlled same_name lower text_eq
header_text-apply m a hostname =
    ap first_value (values_of-apply results_name m a hostname ∙ values_of-results a hostname)

-- A filter on the result of DMARC.
abbrev pub on_dmarc : Operator → Text → Condition
on_dmarc op value = record {
  field = dmarc_result;
  operator = op;
  value = value;
  header_name = none;
}

abbrev on_results : Text → Condition
on_results fragment = record {
  field = header;
  operator = Operator.contains;
  value = fragment;
  header_name = some results_name;
}

run-on_dmarc :
    (headers : Text → Text) (op : Operator) (value : Text) (r : Compiled)
    → one_line value ≡ true
    → compile_condition (on_dmarc op value) ≡ some r
    → run_header_test headers r.0
      ≡ some (contains (lower (codes "dmarc=" ++ value)) (lower (headers results_name)))
unfolding compile_condition holds one_line all_chars
run-on_dmarc headers op value r fits h =
    compile_condition-holds headers (on_results (codes "dmarc=" ++ value)) results_name r refl fits
      refl h

-- The filter on a result of DMARC, which is a text of one line, reads a stamped message as one with that result if the result is
-- that one, and also, whatever the result is, if the sender's address spells it and SPF had any
-- result.
pub run_header_test-forged :
    (m : Message) (a : Analysis) (hostname : Text) (op : Operator) (value : Text) (r : Compiled)
    → one_line value ≡ true
    → compile_condition (on_dmarc op value) ≡ some r
    → (a.auth.dmarc ≡ value)
      ⊎ ((text_eq a.auth.spf (codes "none") ≡ false)
          × (contains (codes "dmarc=" ++ value) a.auth.mail_from ≡ true))
    → run_header_test (header_text (apply m a hostname).headers) r.0 ≡ some true
unfolding contains starts_with is_empty
run_header_test-forged m a hostname op value r fits h why =
    run-on_dmarc (header_text (apply m a hostname).headers) op value r fits h
    ∙ ap (λ t. some (contains (lower (codes "dmarc=" ++ value)) (lower t)))
        (header_text-apply m a hostname)
    ∙ ap some (contains-lower (codes "dmarc=" ++ value) (render_auth a.auth hostname) (found why))
  where
    not_empty : (t : Text) → contains (codes "dmarc=" ++ value) t ≡ true → is_empty t ≡ false
    not_empty [] e = cc
    not_empty (c ∷ t) e = refl

    found :
        (a.auth.dmarc ≡ value)
          ⊎ ((text_eq a.auth.spf (codes "none") ≡ false)
              × (contains (codes "dmarc=" ++ value) a.auth.mail_from ≡ true))
        → contains (codes "dmarc=" ++ value) (render_auth a.auth hostname) ≡ true
    found (inl e) = rw (sym e) (contains-dmarc a.auth hostname)
    found (inr e) = contains-render_auth (codes "dmarc=" ++ value) a.auth hostname (
        contains-spf_part (codes "dmarc=" ++ value) a.auth e.0 (not_empty a.auth.mail_from e.1) e.1)
