-- ===== src/Auth/Records.antt =====
-- The table of providers: `AuthProviderRepo` of src/lightr/authproviders/registry.py.
use lightr.Prelude.{
  ℕ, ltb, ◌==◌, select, first, update, delete, sorted_by, Text, text_eq, lower, text_le, Bool, true,
  false, ◌&&◌, ◌||◌, Option, none, some, List, [], ◌∷◌, ◌++◌, map,
}
use mathlib.Core.Option
use lightr.Directory.{Uuid, Found, found, missing, as_uuid, not_found, ambiguous}
use lightr.Auth.Providers.{Outside, ProviderRecord, build}

-- The arguments of `create`, with their defaults filled in.
pub record ProviderRequest : Type 0 where
  pub name : Text
  pub kind : Text
  pub config : Text
  pub org_id : Option Uuid
  pub domains : List Text
  pub priority : ℕ
  pub is_default : Bool
  pub enabled : Bool
  pub auto_provision : Bool
  pub sync_groups : Bool

unfoldable pub new_record : Uuid → ProviderRequest → ProviderRecord
unfolding lower
new_record i q = record {
  id = i;
  org_id = q.org_id;
  name = q.name;
  kind = q.kind;
  enabled = q.enabled;
  priority = q.priority;
  config = q.config;
  domains = map lower q.domains;
  is_default = q.is_default;
  auto_provision = q.auto_provision;
  sync_groups = q.sync_groups;
}

-- `create`: what cannot be built is not stored.
unfoldable pub create_provider :
    Outside → Uuid → ProviderRequest → List ProviderRecord → Option (List ProviderRecord)
unfolding build new_record
create_provider o i q t = Option.map (λ p. t ++ (new_record i q ∷ [])) (build o (new_record i q))

-- The values of `update`; `none` is a value that is not given.
pub record ProviderChange : Type 0 where
  pub name : Option Text
  pub enabled : Option Bool
  pub priority : Option ℕ
  pub is_default : Option Bool
  pub auto_provision : Option Bool
  pub sync_groups : Option Bool
  pub config : Option Text
  pub domains : Option (List Text)

abbrev given {ℓ} : {A : Type ℓ} → A → Option A → A
given old none = old
given old (some new) = new

unfoldable pub change_record : ProviderChange → ProviderRecord → ProviderRecord
unfolding lower
change_record c r = record r {
  name = given r.name c.name;
  enabled = given r.enabled c.enabled;
  priority = given r.priority c.priority;
  is_default = given r.is_default c.is_default;
  auto_provision = given r.auto_provision c.auto_provision;
  sync_groups = given r.sync_groups c.sync_groups;
  config = given r.config c.config;
  domains = given r.domains (Option.map (map lower) c.domains);
}

-- `update`: the new configuration is stored as it is.
unfoldable pub update_provider : Uuid → ProviderChange → List ProviderRecord → List ProviderRecord
unfolding update change_record
update_provider i c t = update (λ (r : ProviderRecord). r.id == i) (change_record c) t

-- `delete`
unfoldable pub delete_provider : Uuid → List ProviderRecord → List ProviderRecord
unfolding delete
delete_provider i t = delete (λ (r : ProviderRecord). r.id == i) t

abbrev of_org : Option Uuid → ProviderRecord → Bool
of_org none r = true
of_org (some org) r = by_owner r.org_id
  where
    by_owner : Option Uuid → Bool
    by_owner none = false
    by_owner (some o) = o == org

-- `(priority, name)` in the order of the columns
unfoldable pub record_le : ProviderRecord → ProviderRecord → Bool
unfolding text_le
record_le r s = ltb r.priority s.priority || (r.priority == s.priority && text_le r.name s.name)

-- `list`
unfoldable pub list_providers : Option Uuid → List ProviderRecord → List ProviderRecord
unfolding select sorted_by record_le
list_providers org t = sorted_by record_le (select (of_org org) t)

abbrev only_one : List ProviderRecord → Found ProviderRecord
only_one [] = missing not_found
only_one (r ∷ []) = found r
only_one (r ∷ s ∷ rs) = missing ambiguous

abbrev one_row : Option ProviderRecord → Found ProviderRecord
one_row none = missing not_found
one_row (some r) = found r

abbrev by_reference : Option Uuid → Text → List ProviderRecord → Found ProviderRecord
unfolding first select text_eq
by_reference (some i) ref t = one_row (first (λ (r : ProviderRecord). r.id == i) t)
by_reference none ref t = only_one (select (λ (r : ProviderRecord). text_eq r.name ref) t)

-- `resolve`
unfoldable pub resolve_provider : Text → List ProviderRecord → Found ProviderRecord
unfolding as_uuid by_reference
resolve_provider ref t = by_reference (as_uuid ref) ref t
