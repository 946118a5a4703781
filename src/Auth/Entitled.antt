-- ===== src/Auth/Entitled.antt =====
-- A login succeeds only with credentials that the account's mode asks for.
use lightr.Prelude.{
  Bool-cases, Never, Text, is_empty, ◌≡◌, refl, sym, ap, ◌∙◌, inl, inr, true, false, Option, none,
  some, List, [], ◌∷◌, arith,
}
use mathlib.Core.Option
use lightr.Directory.{Directory, Account, find_account, AuthMode, native, external, disabled}
use lightr.Auth.Providers.{
  Outside, Provider, ProviderRecord, providers_for, Outcome, no_outcome, ask_each,
}
use lightr.Auth.{
  authenticate, AuthResult, email, verify_password, authenticate_native, domain_name,
  settle_refused, settle, settled, ask_providers, authenticate_external, by_mode, by_account,
}
use lightr.Auth.Verdicts.{any_accepts, ask_providers-verdict}

-- What an account's mode asks for: the password of its hash, which is not empty, or that a provider
-- for its domain accepts.
abbrev pub Entitled : AuthMode → Outside → List ProviderRecord → Directory → Account → Text → Type 0
Entitled native o t d a password =
    (hash : Text) × (a.password_hash ≡ some hash)
    × (is_empty hash ≡ false)
    × (o.check_password password hash ≡ true)
Entitled external o t d a password =
    (ps : List Provider) × (providers_for o t d.domains a.domain_id (domain_name d a) ≡ some ps)
    × (any_accepts o (email d a) password ps ≡ true)
Entitled disabled o t d a password = Never

native-Entitled :
    (o : Outside) (t : List ProviderRecord) (d : Directory) (a : Account) (password : Text)
    (hash : Option Text)
    → a.password_hash ≡ hash
    → (authenticate_native o a password hash).ok ≡ true
    → Entitled native o t d a password
unfolding authenticate_native verify_password
native-Entitled o t d a password none e h = absurd (cc)
native-Entitled o t d a password (some []) e h = absurd (cc)
native-Entitled o t d a password (some (c ∷ s)) e h =
    elim (Bool-cases (o.check_password password (c ∷ s))) [
      | inl good ↦ (c ∷ s, e, unfold is_empty in refl, good)
      | inr bad ↦ absurd (ground (arith, bad, h))
    ]

ask_providers-account :
    (o : Outside) (d : Directory) (a : Account) (password : Text) (ps : List Provider)
    → (ask_providers o d a password ps).account ≡ some a
unfolding ask_providers
ask_providers-account o d a password [] = refl
ask_providers-account o d a password (p ∷ ps) =
    settled-account (ask_each o (email d a) password (p ∷ ps) no_outcome)
  where
    refused-account : (us : List Text) → (settle_refused a us).account ≡ some a
    refused-account [] = refl
    refused-account (u ∷ us) = refl

    by_identity : (out : Outcome) (i : Option Text) → (settle a out i).account ≡ some a
    by_identity out none = refused-account out.unavailable
    by_identity out (some i) = refl

    settled-account : (out : Outcome) → (settled a out).account ≡ some a
    settled-account out = by_identity out out.identity

native-account :
    (o : Outside) (a : Account) (password : Text) (hash : Option Text)
    → (authenticate_native o a password hash).account ≡ some a
unfolding authenticate_native
native-account o a password none = refl
native-account o a password (some []) = refl
native-account o a password (some (c ∷ s)) =
    elim (Bool-cases (verify_password o password (c ∷ s))) [ inl e ↦ rw e refl | inr e ↦ rw e refl ]

external-Entitled :
    (o : Outside) (t : List ProviderRecord) (d : Directory) (a : Account) (password : Text)
    (r : AuthResult) (found : Option (List Provider))
    → providers_for o t d.domains a.domain_id (domain_name d a) ≡ found
    → Option.map (ask_providers o d a password) found ≡ some r
    → r.ok ≡ true
    → (r.account ≡ some a) × Entitled external o t d a password
external-Entitled o t d a password r none e h k = absurd (cc)
external-Entitled o t d a password r (some ps) e h k =
    let same : ask_providers o d a password ps ≡ r = cc in
    let verdict = ask_providers-verdict o d a password ps in
    (
      sym (ap (λ (x : AuthResult). x.account) same) ∙ ask_providers-account o d a password ps,
      (ps, e, sym verdict.0 ∙ ap (λ (x : AuthResult). x.ok) same ∙ k),
    )

by_mode-Entitled :
    (mode : AuthMode) (o : Outside) (t : List ProviderRecord) (d : Directory) (a : Account)
    (password : Text) (r : AuthResult)
    → by_mode mode o t d a password ≡ some r
    → r.ok ≡ true
    → (r.account ≡ some a) × Entitled mode o t d a password
unfolding by_mode authenticate_external
by_mode-Entitled native o t d a password r h k =
    let same : authenticate_native o a password a.password_hash ≡ r = cc in
    (
      sym (ap (λ (x : AuthResult). x.account) same) ∙ native-account o a password a.password_hash,
      native-Entitled o t d a password a.password_hash refl
          (ap (λ (x : AuthResult). x.ok) same ∙ k),
    )
by_mode-Entitled external o t d a password r h k = external-Entitled o t d a password r _ refl h k
by_mode-Entitled disabled o t d a password r h k = absurd (cc)

-- A login that succeeds is for the account that its name leads to, which is not disabled: with the
-- password of the hash that is stored, or, for an account whose credentials are kept elsewhere, only
-- because a provider that answers for its domain accepts, whatever hash is stored.
pub authenticate-Entitled :
    (o : Outside) (t : List ProviderRecord) (d : Directory) (username password : Text)
    (r : AuthResult)
    → authenticate o t d username password ≡ some r
    → r.ok ≡ true
    → (a : Account) × (find_account username d ≡ some a)
      × (r.account ≡ some a)
      × Entitled a.auth_mode o t d a password
unfolding authenticate
authenticate-Entitled o t d username password r h k = by_found (find_account username d) refl h
  where
    by_found :
        (found : Option Account)
        → find_account username d ≡ found
        → by_account o t d password found ≡ some r
        → (a : Account) × (find_account username d ≡ some a)
          × (r.account ≡ some a)
          × Entitled a.auth_mode o t d a password
    by_found none e h = absurd (cc)
    by_found (some a) e h =
        let good = by_mode-Entitled a.auth_mode o t d a password r h k in (a, e, good.0, good.1)
