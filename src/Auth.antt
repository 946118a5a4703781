-- ===== src/Auth.antt =====
-- Who may log in: `Authenticator` of src/lightr/auth.py. The sentence for operators, `detail`, is
-- left out.
mod Providers
pub mod Verdicts
pub mod Entitled
pub mod Records
pub mod Raises
mod Examples
use lightr.Prelude.{
  ℕ, ◌==◌, if◌then◌else◌, first, Text, Bool, true, false, Option, none, some, List, [], ◌∷◌, ◌++◌,
  ltb, length, ◌+◌,
}
use mathlib.Core.Option
use lightr.Directory.{
  Directory, Account, find_account, AuthMode, native, external, disabled, Domain,
}
use lightr.Auth.Providers.{
  Outside, ProviderRecord, Outcome, providers_for, ask_each, no_outcome, Provider,
}

pub data AuthFailure : Type 0 where
  no_such_account bad_password account_disabled no_password_set : AuthFailure
  provider_unavailable no_provider : AuthFailure

pub record AuthResult : Type 0 where
  pub ok : Bool
  pub account : Option Account
  pub failure : Option AuthFailure
  pub provider : Option Text

-- `TEMPORARY_FAILURES`
abbrev pub is_temporary : Option AuthFailure → Bool
is_temporary none = false
is_temporary (some provider_unavailable) = true
is_temporary (some no_provider) = true
is_temporary (some no_such_account) = false
is_temporary (some bad_password) = false
is_temporary (some account_disabled) = false
is_temporary (some no_password_set) = false

-- `AuthResult.temporary`
unfoldable pub temporary : AuthResult → Bool
temporary r = is_temporary r.failure

abbrev pub success : Account → Option Text → AuthResult
success a provider = record { ok = true; account = some a; failure = none; provider = provider }

abbrev pub failure_of : AuthFailure → Option Account → AuthResult
failure_of f a = record { ok = false; account = a; failure = some f; provider = none }

-- `verify_password`: no hash is never right.
unfoldable pub verify_password : Outside → Text → Text → Bool
verify_password o password [] = false
verify_password o password (c ∷ hash) = o.check_password password (c ∷ hash)

-- A login with a password that is stored here.
unfoldable pub authenticate_native : Outside → Account → Text → Option Text → AuthResult
unfolding verify_password
authenticate_native o a password none = failure_of no_password_set (some a)
authenticate_native o a password (some []) = failure_of no_password_set (some a)
authenticate_native o a password (some (c ∷ hash)) =
    if verify_password o password (c ∷ hash)
    then success a none
    else failure_of bad_password (some a)

-- The name of an account's domain, by the join of `AccountRepo.resolve`.
unfoldable pub domain_name : Directory → Account → Text
unfolding first
domain_name d a = elim (first (λ (x : Domain). x.id == a.domain_id) d.domains) [
  | none ↦ []
  | some x ↦ x.name
]

-- `Account.email`
unfoldable pub email : Directory → Account → Text
unfolding domain_name
email d a = a.local_part ++ (b'@' ∷ domain_name d a)

-- What it comes to that no provider accepted, by those that could not answer.
abbrev pub settle_refused : Account → List Text → AuthResult
settle_refused a [] = failure_of bad_password (some a)
settle_refused a (u ∷ us) = failure_of provider_unavailable (some a)

-- What the answers of the providers come to.
abbrev pub settle : Account → Outcome → Option Text → AuthResult
settle a out (some i) = success a out.provider
settle a out none = settle_refused a out.unavailable

abbrev pub settled : Account → Outcome → AuthResult
settled a out = settle a out out.identity

unfoldable pub ask_providers : Outside → Directory → Account → Text → List Provider → AuthResult
unfolding ask_each email
ask_providers o d a password [] = failure_of no_provider (some a)
ask_providers o d a password (p ∷ ps) =
    settled a (ask_each o (email d a) password (p ∷ ps) no_outcome)

-- `_authenticate_external`; `none` is an exception of `providers_for`.
unfoldable pub authenticate_external :
    Outside → List ProviderRecord → Directory → Account → Text → Option AuthResult
unfolding providers_for ask_providers domain_name
authenticate_external o t d a password =
    Option.map (ask_providers o d a password)
      (providers_for o t d.domains a.domain_id (domain_name d a))

unfoldable pub by_mode :
    AuthMode → Outside → List ProviderRecord → Directory → Account → Text → Option AuthResult
unfolding authenticate_external authenticate_native
by_mode disabled o t d a password = some (failure_of account_disabled (some a))
by_mode external o t d a password = authenticate_external o t d a password
by_mode native o t d a password = some (authenticate_native o a password a.password_hash)

abbrev pub by_account :
    Outside → List ProviderRecord → Directory → Text → Option Account → Option AuthResult
by_account o t d password none = some (failure_of no_such_account none)
by_account o t d password (some a) = by_mode a.auth_mode o t d a password

-- `authenticate`
unfoldable pub authenticate :
    Outside → List ProviderRecord → Directory → Text → Text → Option AuthResult
unfolding find_account by_mode
authenticate o t d username password = by_account o t d password (find_account username d)

pub data PasswordError : Type 0 where
  too_short too_long : PasswordError

-- How many bytes UTF-8 has for a character.
unfoldable pub utf8_width : ℕ → ℕ
utf8_width c = if ltb c 0x80 then 1 else if ltb c 0x800 then 2 else if ltb c 0x10000 then 3 else 4

unfoldable pub utf8_length : Text → ℕ
unfolding utf8_width
utf8_length [] = 0
utf8_length (c ∷ s) = utf8_width c + utf8_length s

abbrev pub min_password_length : ℕ
min_password_length = 8

abbrev pub max_password_bytes : ℕ
max_password_bytes = 72

-- `validate_password`: the error, if the password is not taken.
unfoldable pub validate_password : Text → Option PasswordError
unfolding utf8_length
validate_password password =
    if ltb (length password) min_password_length
    then some too_short
    else if ltb max_password_bytes (utf8_length password)
    then some too_long
    else none
