-- ===== src/Directory.antt =====
-- Organizations' domains, accounts and aliases: src/lightr/models.py and src/lightr/repo.py.
-- A table is the list of its rows; a lookup that raises `LookupError` returns an error.
use lightr.Prelude.{
  zero, suc, not, ◌&&◌, Bool, ℕ, leb, ◌==◌, if◌then◌else◌, length, select, first, delete, Text,
  text_eq, lower, rstrip_by, strip_by, strip, cut, ◌+◌, ◌-◌, ◌*◌, Bool, true, false, ◌&&◌, ◌||◌,
  Option, none, some, List, [], ◌∷◌,
}

abbrev pub Uuid : Type 0
Uuid = ℕ

-- `AuthMode`
pub data AuthMode : Type 0 where
  native external disabled : AuthMode

-- `AliasType`
pub data AliasType : Type 0 where
  forward bridge : AliasType

-- `SpamPolicy`
pub data SpamPolicy : Type 0 where
  junk reject tag : SpamPolicy

-- `Domain`, with the fields that mail handling and authentication read.
pub record Domain : Type 0 where
  pub id : Uuid
  pub org_id : Uuid
  pub name : Text
  pub dkim_private_key : Option Text
  pub dkim_selector : Option Text
  pub relay_enabled : Bool
  pub relay_host : Option Text
  pub relay_port : Option ℕ
  pub relay_username : Option Text
  pub relay_password : Option Text
  pub relay_use_tls : Bool
  pub relay_tls_skip_verify : Bool
  pub spam_policy : SpamPolicy
  pub auth_webhook_url : Option Text
  pub auth_webhook_secret : Option Text
  pub auth_webhook_verified : Bool

-- `Account`
pub record Account : Type 0 where
  pub id : Uuid
  pub domain_id : Uuid
  pub local_part : Text
  pub auth_mode : AuthMode
  pub can_send : Bool
  pub can_receive : Bool
  pub password_hash : Option Text

-- `Alias`
pub record Alias : Type 0 where
  pub id : Uuid
  pub domain_id : Uuid
  pub source : Text
  pub destinations : List Text
  pub type : AliasType
  pub is_active : Bool

pub record Directory : Type 0 where
  pub domains : List Domain
  pub accounts : List Account
  pub aliases : List Alias

-- The errors of a lookup by reference.
pub data LookupError : Type 0 where
  not_found ambiguous : LookupError

pub data Found {ℓ} (A : Type ℓ) : Type ℓ where
  found : A → Found A
  missing : LookupError → Found A

abbrev pub at : ℕ
at = b'@'

hex_digit : ℕ → Option ℕ
hex_digit c =
    if leb 48 c && leb c 57
    then some (c - 48)
    else if leb 97 c && leb c 102
    then some (c - 87)
    else if leb 65 c && leb c 70
    then some (c - 55)
    else none

-- Hexadecimal digits with single underscores between them, behind a number; the flag says that a
-- digit has to follow.
hex_digits : Bool → ℕ → Text → Option ℕ
unfolding hex_digit
hex_digits true n [] = none
hex_digits false n [] = some n
hex_digits must n (c ∷ s) = elim (hex_digit c) [
  | some d ↦ hex_digits false (n * 16 + d) s
  | none ↦ if c == b'_' && not must then hex_digits true n s else none
]

drop_underscore : Text → Text
drop_underscore [] = []
drop_underscore (c ∷ s) = if c == b'_' then s else c ∷ s

-- Behind the sign: the prefix `0x`, which an underscore may follow, and the digits.
hex_unsigned : Text → Option ℕ
unfolding hex_digits drop_underscore
hex_unsigned [] = none
hex_unsigned (c ∷ []) = hex_digits true 0 (c ∷ [])
hex_unsigned (c ∷ d ∷ s) =
    if c == b'0' && (d == b'x' || d == b'X')
    then hex_digits true 0 (drop_underscore s)
    else hex_digits true 0 (c ∷ d ∷ s)

-- A negative number is no UUID.
only_zero : Option ℕ → Option ℕ
only_zero none = none
only_zero (some zero) = some zero
only_zero (some (suc n)) = none

-- `int(text, 16)` of a text of ASCII digits, if it is not negative.
unfoldable pub hex_int : Text → Option ℕ
unfolding hex_unsigned only_zero strip
hex_int t = elim (strip t) [
  | [] ↦ none
  | c ∷ s ↦
      if c == b'+'
      then hex_unsigned s
      else if c == b'-'
      then only_zero (hex_unsigned s)
      else hex_unsigned (c ∷ s)
]

-- `_as_uuid`: 32 characters, with dashes anywhere and braces around, that Python reads as a
-- hexadecimal number. The prefixes `urn:` and `uuid:` of Python's `UUID` are left out.
unfoldable pub as_uuid : Text → Option Uuid
unfolding hex_int delete strip_by
as_uuid ref =
    let digits = delete (λ c. c == b'-') (strip_by (λ c. c == b'{' || c == b'}') ref) in
    if length digits == 32 then hex_int digits else none

found_or_missing {ℓ} : {A : Type ℓ} → Option A → Found A
found_or_missing none = missing not_found
found_or_missing (some a) = found a

-- The text behind the first `@`, or all of it.
unfoldable pub domain_part : Text → Text
unfolding cut
domain_part name = elim (cut at name) [ none ↦ name | some (l, d) ↦ d ]

-- `DomainRepo.resolve`
unfoldable pub resolve_domain : Text → List Domain → Found Domain
unfolding as_uuid found_or_missing domain_part strip lower rstrip_by first text_eq
resolve_domain ref t = elim (as_uuid ref) [
  | some i ↦ found_or_missing (first (λ d. d.id == i) t)
  | none ↦
      let name = domain_part (rstrip_by (λ c. c == b'.') (lower (strip ref))) in
      found_or_missing (first (λ d. text_eq d.name name) t)
]

-- `DomainRepo._exists` and `is_local`
unfoldable pub is_local : Text → List Domain → Bool
unfolding lower text_eq first
is_local name t = elim (first (λ d. text_eq d.name (lower name)) t) [ none ↦ false | some d ↦ true ]

-- Whether an account's domain, in the join with `domains`, has the name.
unfoldable pub in_domain : Text → List Domain → Account → Bool
unfolding first text_eq
in_domain name ds a = elim (first (λ d. d.id == a.domain_id) ds) [
  | none ↦ false
  | some d ↦ text_eq d.name name
]

-- An account whose domain is gone is not in the join.
unfoldable pub is_joined : List Domain → Account → Bool
unfolding first
is_joined ds a = elim (first (λ d. d.id == a.domain_id) ds) [ none ↦ false | some d ↦ true ]

unique_match {ℓ} : {A : Type ℓ} → List A → Found A
unique_match [] = missing not_found
unique_match (a ∷ []) = found a
unique_match (a ∷ b ∷ as') = missing ambiguous

-- `AccountRepo.resolve`
unfoldable pub resolve_account : Text → Directory → Found Account
unfolding as_uuid found_or_missing unique_match in_domain is_joined strip lower cut first select
    text_eq
resolve_account ref d = elim (as_uuid ref) [
  | some i ↦ found_or_missing (first (λ a. a.id == i && is_joined d.domains a) d.accounts)
  | none ↦
      let value = lower (strip ref) in
      elim (cut at value) [
        | some (local, domain_name) ↦ found_or_missing (
            first (λ a. text_eq a.local_part local && in_domain domain_name d.domains a) d.accounts)
        | none ↦
            unique_match
              (select (λ a. text_eq a.local_part value && is_joined d.domains a) d.accounts)
      ]
]

-- `AccountRepo.find`
unfoldable pub find_account : Text → Directory → Option Account
unfolding resolve_account
find_account email d = elim (resolve_account email d) [ found a ↦ some a | missing e ↦ none ]

-- `AliasRepo.lookup`
unfoldable pub lookup_alias : Uuid → Text → List Alias → Option Alias
unfolding first text_eq lower
lookup_alias domain_id source =
    first (λ a. a.domain_id == domain_id && text_eq a.source (lower source) && a.is_active)
