-- ===== src/Filters.antt =====
-- The filters of a mailbox: src/lightr/dovecot/filters.py, the handlers of api/filters.py that write
-- them, and what dovecot/sieve_install.py compiles of them. A body has the shapes that `normalise`
-- checks first, and its numbers are texts; a column of JSON is the list it decodes to. An id in a
-- path is the UUID that it parses to.
pub mod Reading
pub mod Scripts
mod Examples
use lightr.Filters.Reading.{FilterValues, ConditionEntry, ActionEntry, both, rule_from_row}
use lightr.Directory.{Uuid}
use lightr.Prelude.{
  ℕ, leb, ◌==◌, if◌then◌else◌, length, select, first, update, delete, count, order_by, Text, codes,
  text_eq, is_empty, lower, strip, Bool, true, false, ◌&&◌, ◌||◌, not, Option, none, some, List, [],
  ◌∷◌, ◌++◌,
}
use lightr.Sieve.{Field, Operator, Action, MatchType, Condition, Rule, Script, body}
use lightr.Sieve.Scripts.{compile_script}

pub record FilterRow : Type 0 where
  pub id : Uuid
  pub org_id : Uuid
  pub account_id : Uuid
  pub stored : FilterValues
  pub created_at : ℕ
  pub updated_at : ℕ

abbrev pub max_rules : ℕ
max_rules = 200

abbrev pub max_conditions : ℕ
max_conditions = 20

abbrev pub max_actions : ℕ
max_actions = 10

abbrev pub is_refused : Action → Bool
is_refused Action.redirect = true
is_refused a = false

unfoldable pub any_refused : List (Action × Text) → Bool
any_refused [] = false
any_refused (a ∷ as') = is_refused a.0 || any_refused as'

abbrev is_short : Text → Bool
is_short t = leb (length t) 1_000

abbrev short_if : Option Text → Bool
short_if none = true
short_if (some t) = is_short t

-- `_entries`: how many there are, and how long their texts are.
unfoldable pub conditions_fit : List ConditionEntry → Bool
conditions_fit [] = true
conditions_fit (e ∷ es) =
    is_short e.field_word
    && (is_short e.operator_word && (is_short e.value && short_if e.header_name))
    && conditions_fit es

unfoldable pub actions_fit : List ActionEntry → Bool
actions_fit [] = true
actions_fit (e ∷ es) = is_short e.type_word && short_if e.argument && actions_fit es

abbrev in_range : ℕ → ℕ → Bool
in_range most n = leb 1 n && leb n most

-- The conditions of `normalise` on a body, before it is compiled.
unfoldable pub is_normal : FilterValues → Bool
unfolding conditions_fit actions_fit is_empty strip text_eq
is_normal v =
    not (is_empty (strip v.name))
    && leb (length v.name) 200
    && leb v.priority 10_000
    && (text_eq v.match_word (codes "all") || text_eq v.match_word (codes "any"))
    && (in_range max_conditions (length v.conditions) && conditions_fit v.conditions)
    && (in_range max_actions (length v.actions) && actions_fit v.actions)

abbrev pub is_compiled : Option Script → Bool
is_compiled none = false
is_compiled (some s) = true

-- Whether a rule has no action that is refused, and compiles when it is active.
abbrev pub is_storable : Option Rule → Bool
unfolding compile_script any_refused
is_storable none = false
is_storable (some r) =
    not (any_refused r.actions)
    && is_compiled (compile_script ((record r { is_active = true }) ∷ []))

abbrev pub stored_if : Bool → FilterValues → Option FilterValues
stored_if true row = some row
stored_if false row = none

-- `normalise`; `none` is a `FilterError`.
unfoldable pub normalise_filter : FilterValues → Option FilterValues
unfolding is_normal is_storable strip rule_from_row
normalise_filter v =
    let row : FilterValues = record v { name = strip v.name } in
    stored_if (is_normal v && is_storable (rule_from_row row)) row

abbrev pub of_account : Uuid → FilterRow → Bool
of_account account r = r.account_id == account

-- The row of a rule of an account.
abbrev pub is_filter : Uuid → Uuid → FilterRow → Bool
is_filter account id r = r.id == id && r.account_id == account

-- `FilterRepo.get`
unfoldable pub get_filter : Uuid → Uuid → List FilterRow → Option FilterRow
unfolding first
get_filter account id rows = first (is_filter account id) rows

abbrev pub FilterAnswer : Type 0
FilterAnswer = List FilterRow × Bool

abbrev pub create_normal :
    Uuid → Uuid → Uuid → ℕ → List FilterRow → Option FilterValues → FilterAnswer
unfolding count
create_normal id org account now rows none = (rows, false)
create_normal id org account now rows (some v) =
    if leb max_rules (count (of_account account) rows) then (rows, false) else (
      rows
          ++ (record {
            id = id;
            org_id = org;
            account_id = account;
            stored = v;
            created_at = now;
            updated_at = now;
          }
              ∷ []),
      true,
    )

-- `create_filter` with `FilterRepo.create`: the rows, and whether it was stored.
unfoldable pub create_filter : Uuid → Uuid → Uuid → ℕ → FilterValues → List FilterRow → FilterAnswer
unfolding normalise_filter create_normal
create_filter id org account now v rows = create_normal id org account now rows (normalise_filter v)

abbrev pub update_normal : Uuid → Uuid → ℕ → List FilterRow → Option FilterValues → FilterAnswer
unfolding update
update_normal account id now rows none = (rows, false)
update_normal account id now rows (some v) = (
  update (is_filter account id) (λ (r : FilterRow). record r { stored = v; updated_at = now }) rows,
  true,
)

abbrev pub update_current :
    Uuid
    → Uuid
    → ℕ
    → (FilterValues → FilterValues)
    → List FilterRow
    → Option FilterRow
    → FilterAnswer
unfolding normalise_filter update_normal
update_current account id now change rows none = (rows, false)
update_current account id now change rows (some r) =
    update_normal account id now rows (normalise_filter (change r.stored))

-- `update_filter` with `FilterRepo.update`: `change` lays the body over what is stored.
unfoldable pub update_filter :
    Uuid → Uuid → ℕ → (FilterValues → FilterValues) → List FilterRow → FilterAnswer
unfolding get_filter update_current
update_filter account id now change rows =
    update_current account id now change rows (get_filter account id rows)

-- `FilterRepo.delete`
unfoldable pub delete_filter : Uuid → Uuid → List FilterRow → FilterAnswer
unfolding delete count
delete_filter account id rows =
    (delete (is_filter account id) rows, leb 1 (count (is_filter account id) rows))

unfoldable pub read_rules : List FilterRow → Option (List Rule)
unfolding rule_from_row
read_rules [] = some []
read_rules (r ∷ rs) = both (λ (x : Rule) xs. x ∷ xs) (rule_from_row r.stored) (read_rules rs)

-- `SieveInstaller.rules_for`
unfoldable pub rules_for : Uuid → List FilterRow → Option (List Rule)
unfolding select order_by read_rules
rules_for account rows =
    read_rules (order_by (λ (r : FilterRow). r.stored.priority) (select (of_account account) rows))

abbrev script_of_rules : Option (List Rule) → Option Script
unfolding compile_script
script_of_rules none = none
script_of_rules (some rules) = compile_script rules

-- The script of `SieveInstaller.install`.
unfoldable pub script_for_account : Uuid → List FilterRow → Option Script
unfolding rules_for script_of_rules
script_for_account account rows = script_of_rules (rules_for account rows)
