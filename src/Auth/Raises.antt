-- ===== src/Auth/Raises.antt =====
-- Logins that end in an exception.
use lightr.Prelude.{
  Any, ◌≡◌, refl, ◌↔◌, Option, none, some, List, [], ◌∷◌, Option-cases, Text, sym, ap, ◌∙◌, inl,
  inr, arith,
}
use mathlib.Core.Option
use lightr.Directory.{Directory, Account, find_account, external}
use lightr.Auth.Providers.{
  Outside, Provider, ProviderRecord, providers_for, build, build_each, with_built, for_domain,
  legacy_domain_webhook, or_webhook,
}
use lightr.Auth.{
  authenticate, AuthResult, domain_name, authenticate_external, by_mode, ask_providers, by_account,
}

abbrev pub SomeUnbuilt : Outside → List ProviderRecord → Type 0
SomeUnbuilt o = Any (λ r. build o r ≡ none)

map_none :
    (p : Provider) (rest : Option (List Provider))
    → (with_built (some p) rest ≡ none) ↔ (rest ≡ none)
map_none p none = (λ e. refl, λ e. refl)
map_none p (some ps) = (λ e. absurd (cc), λ e. absurd (cc))

build_each_iff :
    (o : Outside) (rs : List ProviderRecord) → (build_each o rs ≡ none) ↔ SomeUnbuilt o rs
unfolding build_each
build_each_iff o [] = (λ e. absurd (cc), λ n. elim n [ ])
build_each_iff o (r ∷ rs) = elim (Option-cases (build o r)) [
  | inl e ↦ (λ h. inl e, λ h. rw e refl)
  | inr (p, e) ↦
      let rest = map_none p (build_each o rs) in
      let ih = build_each_iff o rs in
      (
        λ h. inr (ih.0 (rest.0 (sym (ap (λ b. with_built b (build_each o rs)) e) ∙ h))),
        λ h.
            rw e (rest.1 (elim h [ inl b ↦ absurd (ground (arith, e, b)) | inr more ↦ ih.1 more ])),
      )
]

asked_iff :
    (f : List Provider → AuthResult) (ps : Option (List Provider))
    → (Option.map f ps ≡ none) ↔ (ps ≡ none)
asked_iff f none = (λ e. refl, λ e. refl)
asked_iff f (some p) = (λ e. absurd (cc), λ e. absurd (cc))

or_webhook_iff :
    (o : Outside) (rs : List ProviderRecord) (webhook : List Provider)
    → (or_webhook o rs webhook ≡ none) ↔ SomeUnbuilt o rs
or_webhook_iff o [] webhook = (λ e. absurd (cc), λ n. elim n [ ])
or_webhook_iff o (r ∷ rs) webhook = build_each_iff o (r ∷ rs)

-- A login of an account whose credentials are kept elsewhere ends in an exception exactly if one of
-- the stored providers for its domain cannot be built, also if another one would accept.
pub authenticate_raises :
    (o : Outside) (t : List ProviderRecord) (d : Directory) (username password : Text) (a : Account)
    → find_account username d ≡ some a
    → a.auth_mode ≡ external
    → (authenticate o t d username password ≡ none) ↔ SomeUnbuilt o (for_domain (domain_name d a) t)
unfolding authenticate by_mode authenticate_external providers_for
authenticate_raises o t d username password a f m =
    (λ h. raised.0 (asked.0 (sym run ∙ h)), λ h. run ∙ asked.1 (raised.1 h))
  where
    raised :
        (providers_for o t d.domains a.domain_id (domain_name d a) ≡ none)
        ↔ SomeUnbuilt o (for_domain (domain_name d a) t)
    raised =
        or_webhook_iff o (for_domain (domain_name d a) t)
          (legacy_domain_webhook a.domain_id d.domains)

    asked :
        (Option.map
            (ask_providers o d a password)
            (providers_for o t d.domains a.domain_id (domain_name d a))
          ≡ none)
        ↔ (providers_for o t d.domains a.domain_id (domain_name d a) ≡ none)
    asked =
        asked_iff (ask_providers o d a password)
          (providers_for o t d.domains a.domain_id (domain_name d a))

    run :
        authenticate o t d username password
        ≡ Option.map
            (ask_providers o d a password)
            (providers_for o t d.domains a.domain_id (domain_name d a))
    run = ap (by_account o t d password) f ∙ ap (λ mode. by_mode mode o t d a password) m
