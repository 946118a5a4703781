-- ===== src/ApiKeys.antt =====
-- API keys and the sessions over them, src/lightr/apikeys.py and src/lightr/api/session.py: the rows
-- of the table `api_keys`. The hash, the random secret and the ipaddress package are parameters;
-- the clock is an argument.
pub mod Verifying
pub mod Sessions
mod Examples
use lightr.Prelude.{
  ℕ, Text, ltb, ◌==◌, if◌then◌else◌, take, select, first, update, delete, count, order_by_desc,
  codes, text_eq, starts_with, zero, suc, ◌+◌, ◌*◌, Bool, true, false, ◌&&◌, ◌||◌, not, Option,
  none, some, List, [], ◌∷◌, ◌++◌, lower,
}
use lightr.Directory.{Uuid, at}

-- `KeyType`
pub data KeyType : Type 0 where
  admin org domain account : KeyType

-- `Permission`
pub data Permission : Type 0 where
  read write send mailbox all : Permission

-- `DEFAULT_PERMISSIONS`
unfoldable pub default_permissions : KeyType → List Permission
default_permissions admin =
    Permission.all ∷ Permission.read ∷ Permission.write ∷ Permission.send ∷ Permission.mailbox ∷ []
default_permissions org = Permission.read ∷ Permission.write ∷ Permission.send ∷ []
default_permissions domain = Permission.read ∷ Permission.write ∷ Permission.send ∷ []
default_permissions account = Permission.read ∷ Permission.mailbox ∷ Permission.send ∷ []

-- `APIKey`, with the fields that the operations read or write.
pub record ApiKey : Type 0 where
  pub id : Uuid
  pub name : Text
  pub prefix : Text
  pub key_hash : Text
  pub organization_id : Option Uuid
  pub domain_id : Option Uuid
  pub account_id : Option Uuid
  pub type : KeyType
  pub permissions : List Permission
  pub allowed_ips : List Text
  pub active : Bool
  pub expires_at : Option ℕ
  pub last_used_at : Option ℕ
  pub last_used_ip : Option Text
  pub usage_count : ℕ
  pub usage_today : ℕ
  pub created_at : ℕ
  pub updated_at : ℕ

-- `expired`
unfoldable pub expired : ℕ → ApiKey → Bool
expired now k = elim k.expires_at [ none ↦ false | some t ↦ ltb t now ]

-- `usable`
unfoldable pub usable : ℕ → ApiKey → Bool
unfolding expired
usable now k = k.active && not (expired now k)

abbrev pub permission_eq : Permission → Permission → Bool
permission_eq Permission.read Permission.read = true
permission_eq Permission.write Permission.write = true
permission_eq Permission.send Permission.send = true
permission_eq Permission.mailbox Permission.mailbox = true
permission_eq Permission.all Permission.all = true
permission_eq p q = false

unfoldable pub has_permission : Permission → List Permission → Bool
has_permission p [] = false
has_permission p (q ∷ qs) = permission_eq p q || has_permission p qs

-- `allows`
unfoldable pub allows : ApiKey → Permission → Bool
unfolding has_permission
allows k p = has_permission Permission.all k.permissions || has_permission p k.permissions

-- What the ipaddress package says: whether a text is an address, and whether an entry, an address
-- or a network, covers it.
pub record IpAddress : Type 0 where
  pub is_address : Text → Bool
  pub covers : Text → Text → Bool

unfoldable pub any_covers : IpAddress → List Text → Text → Bool
any_covers p [] ip = false
any_covers p (e ∷ es) ip = p.covers e ip || any_covers p es ip

-- `allows_ip`
unfoldable pub allows_ip : IpAddress → List Text → Option Text → Bool
unfolding any_covers
allows_ip p [] ip = true
allows_ip p (e ∷ es) none = false
allows_ip p (e ∷ es) (some ip) = p.is_address ip && any_covers p (e ∷ es) ip

-- What a caller of `create` passes.
pub record KeyRequest : Type 0 where
  pub name : Text
  pub key_type : KeyType
  pub organization_id : Option Uuid
  pub domain_id : Option Uuid
  pub account_id : Option Uuid
  pub permissions : List Permission
  pub allowed_ips : List Text
  pub expires_in_days : Option ℕ
  pub expires_at : Option ℕ

pub data KeyError : Type 0 where
  needs_organization needs_domain needs_account two_expiries expired_at_once : KeyError

pub data Created : Type 0 where
  created : List ApiKey → ApiKey → Text → Created
  refused : KeyError → Created

abbrev pub days : ℕ → ℕ
days n = n * 86_400_000_000

-- The checks of the scope.
unfoldable pub scope_error : KeyType → Option Uuid → Option Uuid → Option Uuid → Option KeyError
scope_error org none d a = some needs_organization
scope_error domain o none a = some needs_domain
scope_error account o d none = some needs_account
scope_error t o d a = none

-- The expiry: its error, or the time.
pub data Expiry : Type 0 where
  until : Option ℕ → Expiry
  wrong : KeyError → Expiry

unfoldable pub expiry : ℕ → Option ℕ → Option ℕ → Expiry
expiry now none at = until at
expiry now (some n) (some t) = wrong two_expiries
expiry now (some zero) none = wrong expired_at_once
expiry now (some (suc n)) none = until (some (now + days (suc n)))

abbrev pub key_prefix : Text
key_prefix = codes "lk_"

abbrev pub prefix_length : ℕ
prefix_length = 12

abbrev pub or_default : KeyType → List Permission → List Permission
or_default t [] = default_permissions t
or_default t (p ∷ ps) = p ∷ ps

-- The row of a secret, behind the check of the prefix.
unfoldable pub verify_row : IpAddress → ℕ → Option Text → Option ApiKey → Option ApiKey
unfolding usable allows_ip
verify_row p now ip none = none
verify_row p now ip (some k) =
    if not (usable now k) || not (allows_ip p k.allowed_ips ip) then none else some k

-- `hash_secret` is the parameter.
module _ (hash : Text → Text) where
  abbrev pub new_key : Uuid → ℕ → Text → Option ℕ → KeyRequest → ApiKey
  new_key key_id now body at q = record {
    id = key_id;
    name = q.name;
    prefix = take prefix_length (key_prefix ++ body);
    key_hash = hash (key_prefix ++ body);
    organization_id = q.organization_id;
    domain_id = q.domain_id;
    account_id = q.account_id;
    type = q.key_type;
    permissions = or_default q.key_type q.permissions;
    allowed_ips = q.allowed_ips;
    active = true;
    expires_at = at;
    last_used_at = none;
    last_used_ip = none;
    usage_count = 0;
    usage_today = 0;
    created_at = now;
    updated_at = now;
  }

  unfoldable pub create_until :
      Uuid → ℕ → Text → KeyRequest → List ApiKey → Option KeyError → Expiry → Created
  create_until key_id now body q t (some e) x = refused e
  create_until key_id now body q t none (wrong e) = refused e
  create_until key_id now body q t none (until at) =
      created (t ++ new_key key_id now body at q ∷ []) (new_key key_id now body at q)
        (key_prefix ++ body)

  -- `create`
  unfoldable pub create : Uuid → ℕ → Text → KeyRequest → List ApiKey → Created
  unfolding create_until scope_error expiry
  create key_id now body q t =
      create_until key_id now body q t
        (scope_error q.key_type q.organization_id q.domain_id q.account_id)
        (expiry now q.expires_in_days q.expires_at)

  -- `verify`
  unfoldable pub verify : IpAddress → ℕ → Text → Option Text → List ApiKey → Option ApiKey
  unfolding verify_row first text_eq starts_with
  verify p now secret ip t =
      if starts_with key_prefix secret
      then verify_row p now ip (first (λ k. text_eq k.key_hash (hash secret)) t)
      else none

  -- `rotate`
  unfoldable pub rotate : ℕ → Text → Uuid → List ApiKey → List ApiKey × Text
  unfolding update
  rotate now body i t = (
    update (λ k. k.id == i)
        (λ k. record k {
          prefix = take prefix_length (key_prefix ++ body);
          key_hash = hash (key_prefix ++ body);
          updated_at = now;
        })
        t,
    key_prefix ++ body,
  )

-- `revoke`
unfoldable pub revoke : ℕ → Uuid → List ApiKey → List ApiKey
unfolding update
revoke now i = update (λ k. k.id == i) λ k. record k { active = false; updated_at = now }

-- `delete`
unfoldable pub delete_key : Uuid → List ApiKey → List ApiKey
unfolding delete
delete_key i = delete (λ k. k.id == i)

-- `record_use`
unfoldable pub record_use : ℕ → Uuid → Option Text → List ApiKey → List ApiKey
unfolding update
record_use now i ip =
    update (λ k. k.id == i)
      λ k. record k {
        last_used_at = some now;
        last_used_ip = ip;
        usage_count = k.usage_count + 1;
        usage_today = k.usage_today + 1;
      }

abbrev pub session_prefix : Text
session_prefix = codes "session:"

abbrev pub is_account : Uuid → Option Uuid → Bool
is_account i none = false
is_account i (some j) = j == i

-- A live row of a session of the account. `LIKE 'session:%'` takes no notice of the case of ASCII
-- letters, as on SQLite, the database of the default settings.
unfoldable pub is_session : Uuid → ApiKey → Bool
unfolding starts_with lower
is_session account_id k =
    is_account account_id k.account_id && (starts_with session_prefix (lower k.name) && k.active)

-- `_sessions`
unfoldable pub sessions : ℕ → Uuid → List ApiKey → List ApiKey
unfolding order_by_desc select is_session usable
sessions now account_id t =
    select (usable now) (order_by_desc (λ k. k.created_at) (select (is_session account_id) t))

-- The statement of `change_password` that signs the other devices out, and how many.
unfoldable pub revoke_others : ℕ → Uuid → Uuid → List ApiKey → List ApiKey × ℕ
unfolding update count is_session
revoke_others now account_id current t =
    let other = λ (k : ApiKey). is_session account_id k && not (k.id == current) in
    (update other (λ k. record k { active = false; updated_at = now }) t, count other t)

-- `purge_expired`
unfoldable pub is_dead : ℕ → ApiKey → Bool
unfolding starts_with expired lower
is_dead now k = starts_with session_prefix (lower k.name) && (expired now k || not k.active)

unfoldable pub purge_expired : ℕ → List ApiKey → List ApiKey × ℕ
unfolding delete count is_dead
purge_expired now t = (delete (is_dead now) t, count (is_dead now) t)
