-- ===== src/Auth/Verdicts.antt =====
-- What the answers of several providers come to, whatever their order.
use lightr.Prelude.{
  Text, ◌≡◌, refl, Bool, true, false, ◌||◌, List, [], ◌∷◌, codes, ◌∙◌, ◌⊎◌, inl, inr, ◌&&◌, not,
  Option, none, some, ◌++◌, arith, sym, ap,
}
use lightr.Bounce.{is_some}
use lightr.Directory.{Directory, Account, find_account, external}
use mathlib.Core.Option
use lightr.Auth.Providers.{
  Outside, Provider, Answer, accepted, refused, failed, Outcome, ask_each, ProviderRecord,
  provider_name, providers_for, no_outcome,
}
use lightr.Auth.{
  ask_providers, authenticate, temporary, AuthResult, email, domain_name, authenticate_external,
  by_mode, settle_refused, settle, settled, by_account,
}

abbrev pub is_accepted : Answer → Bool
is_accepted (accepted i) = true
is_accepted refused = false
is_accepted (failed why) = false

abbrev pub is_failed : Answer → Bool
is_failed (accepted i) = false
is_failed refused = false
is_failed (failed why) = true

Answer-cases :
    (x : Answer)
    → ((i : Text) × (x ≡ accepted i)) ⊎ ((x ≡ refused) ⊎ ((why : Text) × (x ≡ failed why)))
Answer-cases (accepted i) = inl (i, refl)
Answer-cases refused = inr (inl refl)
Answer-cases (failed why) = inr (inr (why, refl))

abbrev pub has_items {ℓ} : {A : Type ℓ} → List A → Bool
has_items [] = false
has_items (x ∷ xs) = true

has_items-snoc : (xs : List Text) (x : Text) → has_items (xs ++ (x ∷ [])) ≡ true
has_items-snoc [] x = refl
has_items-snoc (y ∷ ys) x = refl

or_true : (b : Bool) → (b || true) ≡ true
or_true true = refl
or_true false = refl

module _ (o : Outside) (username password : Text) where
  -- Whether some provider accepts, and whether some provider cannot tell.
  unfoldable pub any_accepts : List Provider → Bool
  any_accepts [] = false
  any_accepts (p ∷ ps) = is_accepted (o.ask p username password) || any_accepts ps

  unfoldable pub any_fails : List Provider → Bool
  any_fails [] = false
  any_fails (p ∷ ps) = is_failed (o.ask p username password) || any_fails ps

  ask_each-identity :
      (ps : List Provider) (out : Outcome)
      → is_some (ask_each o username password ps out).identity
        ≡ (any_accepts ps || is_some out.identity)
  unfolding ask_each any_accepts
  ask_each-identity [] out = refl
  ask_each-identity (p ∷ ps) out = elim (Answer-cases (o.ask p username password)) [
    | inl (i, e) ↦ rw e refl
    | inr (inl e) ↦
        rw e
          (ask_each-identity ps (record out { refusals = out.refusals ++ (provider_name p ∷ []) }))
    | inr (inr (why, e)) ↦ rw e (
        ask_each-identity ps (record out {
          unavailable = out.unavailable ++ ((provider_name p ++ (codes ": " ++ why)) ∷ []);
        }))
  ]

  ask_each-unavailable :
      (ps : List Provider) (out : Outcome)
      → any_accepts ps ≡ false
      → has_items (ask_each o username password ps out).unavailable
        ≡ (any_fails ps || has_items out.unavailable)
  unfolding ask_each any_accepts any_fails
  ask_each-unavailable [] out h = refl
  ask_each-unavailable (p ∷ ps) out h = elim (Answer-cases (o.ask p username password)) [
    | inl (i, e) ↦ absurd (ground (arith, e, h))
    | inr (inl e) ↦
        let rest : any_accepts ps ≡ false = ground (arith, e, h) in
        rw e (
          ask_each-unavailable ps (record out { refusals = out.refusals ++ (provider_name p ∷ []) })
            rest)
    | inr (inr (why, e)) ↦
        let rest : any_accepts ps ≡ false = ground (arith, e, h) in
        let line = provider_name p ++ (codes ": " ++ why) in
        rw e (
          ask_each-unavailable ps (record out { unavailable = out.unavailable ++ (line ∷ []) }) rest
          ∙ rw (has_items-snoc out.unavailable line) (or_true (any_fails ps)))
  ]

or_false : (b : Bool) → (b || false) ≡ b
or_false true = refl
or_false false = refl

settled-verdict :
    (a : Account) (out : Outcome) (accepts fails : Bool)
    → is_some out.identity ≡ accepts
    → (accepts ≡ false → has_items out.unavailable ≡ fails)
    → ((settled a out).ok ≡ accepts) × (temporary (settled a out) ≡ (not accepts && fails))
unfolding temporary
settled-verdict a out accepts fails h k = by_identity out.identity h
  where
    by_refusal :
        (us : List Text)
        → has_items us ≡ fails
        → ((settle_refused a us).ok ≡ false) × (temporary (settle_refused a us) ≡ fails)
    by_refusal [] e = (refl, e)
    by_refusal (u ∷ us) e = (refl, e)

    by_identity :
        (i : Option Text)
        → is_some i ≡ accepts
        → ((settle a out i).ok ≡ accepts) × (temporary (settle a out i) ≡ (not accepts && fails))
    by_identity (some i) e = (e, rw (sym e) refl)
    by_identity none e = rw (sym e) (by_refusal out.unavailable (k (sym e)))

pub ask_providers-verdict :
    (o : Outside) (d : Directory) (a : Account) (password : Text) (ps : List Provider)
    → ((ask_providers o d a password ps).ok ≡ any_accepts o (email d a) password ps)
      × (temporary (ask_providers o d a password ps) ≡ (
          not (any_accepts o (email d a) password ps)
          && (not (has_items ps) || any_fails o (email d a) password ps)))
unfolding ask_providers any_accepts any_fails temporary
ask_providers-verdict o d a password [] = (refl, refl)
ask_providers-verdict o d a password (p ∷ ps) =
    settled-verdict a (ask_each o (email d a) password (p ∷ ps) no_outcome)
      (any_accepts o (email d a) password (p ∷ ps)) (any_fails o (email d a) password (p ∷ ps))
      (ask_each-identity o (email d a) password (p ∷ ps) no_outcome ∙ or_false _)
      (λ none_accepts.
        ask_each-unavailable o (email d a) password (p ∷ ps) no_outcome none_accepts ∙ or_false _)

-- The answer to a login of an account whose credentials are kept elsewhere, from the providers that
-- answer for its domain: it succeeds exactly if some provider accepts, and it is temporary exactly if
-- none does and some could not tell or there is none; their order does not matter.
pub authenticate-external :
    (o : Outside) (t : List ProviderRecord) (d : Directory) (username password : Text) (a : Account)
    (ps : List Provider)
    → find_account username d ≡ some a
    → a.auth_mode ≡ external
    → providers_for o t d.domains a.domain_id (domain_name d a) ≡ some ps
    → (r : AuthResult) × (authenticate o t d username password ≡ some r)
      × (r.ok ≡ any_accepts o (email d a) password ps)
      × (temporary r ≡ (
          not (any_accepts o (email d a) password ps)
          && (not (has_items ps) || any_fails o (email d a) password ps)))
unfolding authenticate by_mode authenticate_external
authenticate-external o t d username password a ps f m h =
    (ask_providers o d a password ps, run, verdict.0, verdict.1)
  where
    verdict :
        ((ask_providers o d a password ps).ok ≡ any_accepts o (email d a) password ps)
        × (temporary (ask_providers o d a password ps) ≡ (
            not (any_accepts o (email d a) password ps)
            && (not (has_items ps) || any_fails o (email d a) password ps)))
    verdict = ask_providers-verdict o d a password ps

    run : authenticate o t d username password ≡ some (ask_providers o d a password ps)
    run =
        ap (by_account o t d password) f
        ∙ ap (λ mode. by_mode mode o t d a password) m
        ∙ ap (λ p. Option.map (ask_providers o d a password) p) h
