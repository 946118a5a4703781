-- ===== src/Relay.antt =====
-- Settings of a domain's outbound relay, src/lightr/mail/relay.py. `apply` changes the object in
-- place and may raise; its callers drop the object then, so the model returns it only on success.
pub mod Safety
mod Examples
use lightr.Prelude.{
  ◌≡◌, ℕ, ltb, leb, ◌==◌, if◌then◌else◌, length, Text, is_empty, lower, rstrip_by, strip, zero, suc,
  Bool, true, false, ◌&&◌, ◌||◌, not, Option, none, some, List, [], ◌∷◌, split_on, refl, arith,
}
use lightr.Directory.{Domain}

abbrev pub implicit_tls_port : ℕ
implicit_tls_port = 465

abbrev pub default_port : ℕ
default_port = 587

-- The reasons of a `RelayError`.
pub data RelayError : Type 0 where
  not_a_hostname not_a_port needs_host needs_login_pair needs_tls : RelayError

pub data Result {ℓ} (A : Type ℓ) : Type ℓ where
  ok : A → Result A
  err : RelayError → Result A

infixl 5 ◌>>=◌
abbrev pub ◌>>=◌ {ℓ κ} : {A : Type ℓ} {B : Type κ} → Result A → (A → Result B) → Result B
ok a >>= f = f a
err e >>= f = err e

-- A check that passes in two steps passed both.
pub >>=-ok {ℓ κ} :
    {Step : Type ℓ} {Last : Type κ} (next : Step → Result Last) (last : Last) (step : Result Step)
    → (step >>= next) ≡ ok last
    → (x : Step) × ((next x ≡ ok last) × (step ≡ ok x))
>>=-ok next last (err reason) e = absurd (ground (arith, e))
>>=-ok next last (ok x) e = (x, (e, refl))

-- `RelayChange`: `none` leaves a setting as it is.
pub record RelayChange : Type 0 where
  pub enabled : Option Bool
  pub host : Option Text
  pub port : Option ℕ
  pub username : Option Text
  pub password : Option Text
  pub use_tls : Option Bool
  pub skip_verify : Option Bool
  pub clear : Bool

is_alnum : ℕ → Bool
is_alnum c = leb b'a' c && leb c b'z' || leb b'0' c && leb c b'9'

-- The rest of a label: letters, digits and dashes, the last no dash.
label_rest : Text → Bool
unfolding is_alnum
label_rest [] = true
label_rest (c ∷ []) = is_alnum c
label_rest (c ∷ d ∷ s) = (is_alnum c || c == b'-') && label_rest (d ∷ s)

-- `_LABEL`: at most 63 characters.
unfoldable pub is_label : Text → Bool
unfolding label_rest
is_label [] = false
is_label (c ∷ s) = is_alnum c && label_rest s && leb (length s) 62

all_labels : List Text → Bool
unfolding is_label
all_labels [] = true
all_labels (l ∷ ls) = is_label l && all_labels ls

-- A text without the newline that it may end in, which `$` of Python's `re` passes over.
unfoldable pub before_newline : Text → Text
before_newline [] = []
before_newline (c ∷ []) = if c == 10 then [] else c ∷ []
before_newline (c ∷ d ∷ s) = c ∷ before_newline (d ∷ s)

-- `_HOSTNAME`: two labels or more, at most 253 characters.
unfoldable pub is_hostname : Text → Bool
unfolding all_labels split_on before_newline
is_hostname host =
    let name = before_newline host in
    let labels = split_on b'.' name in
    leb (length name) 253 && is_label labels.0 && all_labels labels.1 && ltb 0 (length labels.1)

-- `value or None`
unfoldable pub or_none : Text → Option Text
or_none [] = none
or_none (c ∷ s) = some (c ∷ s)

-- Whether an optional text is there and not empty.
unfoldable pub is_set : Option Text → Bool
unfolding is_empty
is_set none = false
is_set (some t) = not (is_empty t)

unfoldable pub check_port : ℕ → Result ℕ
check_port value = if ltb 0 value && ltb value 65536 then ok value else err not_a_port

unfoldable pub has_port : ℕ → Option ℕ → Bool
has_port p none = false
has_port p (some q) = q == p

unfoldable pub uses_tls : Domain → Bool
unfolding has_port
uses_tls d = has_port implicit_tls_port d.relay_port || d.relay_use_tls

abbrev xor_set : Option Text → Option Text → Bool
xor_set a b = if is_set a then not (is_set b) else is_set b

-- The tests of `apply` on settings that are enabled.
unfoldable pub check_enabled : Domain → Result Domain
unfolding is_set uses_tls
check_enabled d =
    if not d.relay_enabled
    then ok d
    else if not (is_set d.relay_host)
    then err needs_host
    else if xor_set d.relay_username d.relay_password
    then err needs_login_pair
    else if is_set d.relay_username && not (uses_tls d)
    then err needs_tls
    else ok d

abbrev pub set_or_keep {ℓ} : {A : Type ℓ} → Option A → A → A
set_or_keep none old = old
set_or_keep (some new) old = new

pub set_port : Option ℕ → Option ℕ → Result (Option ℕ)
unfolding check_port
set_port none old = ok old
set_port (some p) old = do q ← check_port p; ok (some q)

pub set_username : Option Text → Option Text → Option Text
unfolding or_none strip
set_username none old = old
set_username (some u) old = or_none (strip u)

pub set_password : Option Text → Option Text → Option Text
unfolding or_none
set_password none old = old
set_password (some p) old = or_none p

unfoldable pub cleared : Domain → Domain
cleared d = record d {
  relay_enabled = false;
  relay_host = none;
  relay_port = none;
  relay_username = none;
  relay_password = none;
  relay_use_tls = false;
  relay_tls_skip_verify = false;
}

-- The assignments of `apply`, with the host and the port that were checked.
unfoldable pub changed : Domain → RelayChange → Option Text → Option ℕ → Domain
unfolding set_username set_password
changed d change host port = record d {
  relay_host = host;
  relay_port = port;
  relay_username = set_username change.username d.relay_username;
  relay_password = set_password change.password d.relay_password;
  relay_use_tls = set_or_keep change.use_tls d.relay_use_tls;
  relay_tls_skip_verify = set_or_keep change.skip_verify d.relay_tls_skip_verify;
  relay_enabled = set_or_keep change.enabled d.relay_enabled;
}

-- `is_ip` is `ipaddress.ip_address` not raising.
module _ (is_ip : Text → Bool) where
  unfoldable pub normalise_host : Text → Result (Option Text)
  unfolding strip lower rstrip_by is_hostname is_empty
  normalise_host value =
      let host = rstrip_by (λ c. c == b'.') (lower (strip value)) in
      if is_empty host
      then ok none
      else if is_ip host || is_hostname host
      then ok (some host)
      else err not_a_hostname

  pub set_host : Option Text → Option Text → Result (Option Text)
  unfolding normalise_host
  set_host none old = ok old
  set_host (some h) old = normalise_host h

  unfoldable pub apply : Domain → RelayChange → Result Domain
  unfolding set_host set_port changed check_enabled cleared
  apply d change = if change.clear then ok (cleared d) else do
    host ← set_host change.host d.relay_host
    port ← set_port change.port d.relay_port
    check_enabled (changed d change host port)

-- The keyword arguments of `connection`.
pub record Settings : Type 0 where
  pub hostname : Text
  pub port : ℕ
  pub use_tls : Bool
  pub start_tls : Bool
  pub validate_certs : Bool
  pub username : Option Text
  pub password : Option Text

-- `relay_port or DEFAULT_PORT`
unfoldable pub port_or_default : Option ℕ → ℕ
port_or_default none = default_port
port_or_default (some zero) = default_port
port_or_default (some (suc p)) = suc p

abbrev text_or_empty : Option Text → Text
text_or_empty none = []
text_or_empty (some t) = t

abbrev truthy : Option Text → Option Text
truthy none = none
truthy (some t) = or_none t

unfoldable pub connection : Domain → Settings
unfolding port_or_default or_none
connection d =
    let port = port_or_default d.relay_port in
    let implicit = port == implicit_tls_port in
    record {
      hostname = text_or_empty d.relay_host;
      port = port;
      use_tls = implicit;
      start_tls = d.relay_use_tls && not implicit;
      validate_certs = not d.relay_tls_skip_verify;
      username = truthy d.relay_username;
      password = truthy d.relay_password;
    }
