-- ===== src/Filters/Reading.antt =====
-- What is stored of a filter, and the rule that is read from it: `_rule_from_row` of
-- src/lightr/dovecot/sieve_install.py.
use lightr.Prelude.{
  ℕ, ◌==◌, if◌then◌else◌, Text, codes, text_eq, lower, Bool, Option, none, some, List, [], ◌∷◌,
}
use lightr.Sieve.{Field, Operator, Action, MatchType, Condition, Rule}

pub record ConditionEntry : Type 0 where
  pub field_word : Text
  pub operator_word : Text
  pub value : Text
  pub header_name : Option Text

pub record ActionEntry : Type 0 where
  pub type_word : Text
  pub argument : Option Text

-- A body behind the checks of its shapes, and the columns that are stored of it.
pub record FilterValues : Type 0 where
  pub name : Text
  pub description : Option Text
  pub priority : ℕ
  pub match_word : Text
  pub conditions : List ConditionEntry
  pub actions : List ActionEntry
  pub is_active : Bool
  pub stop_on_match : Bool

-- A word of an enumeration: the first that it is.
abbrev word_in : {A : Type 0} → Text → List (Text × A) → Option A
unfolding text_eq
word_in w [] = none
word_in w (e ∷ es) = let rest = word_in w es in if text_eq w e.0 then some e.1 else rest

abbrev pub fields : List (Text × Field)
fields =
    (codes "from", Field.from)
    ∷ (codes "to", Field.to)
    ∷ (codes "cc", Field.carbon_copy)
    ∷ (codes "subject", Field.subject)
    ∷ (codes "body", Field.body)
    ∷ (codes "header", Field.header)
    ∷ (codes "attachment", Field.attachment)
    ∷ (codes "size", Field.size)
    ∷ (codes "spam_score", Field.spam_score)
    ∷ (codes "spf_result", Field.spf_result)
    ∷ (codes "dkim_result", Field.dkim_result)
    ∷ (codes "dmarc_result", Field.dmarc_result)
    ∷ []

abbrev pub operators : List (Text × Operator)
operators =
    (codes "equals", Operator.equals)
    ∷ (codes "contains", Operator.contains)
    ∷ (codes "starts_with", Operator.starts_with)
    ∷ (codes "ends_with", Operator.ends_with)
    ∷ (codes "matches", Operator.matches)
    ∷ (codes "gt", Operator.greater_than)
    ∷ (codes "lt", Operator.less_than)
    ∷ []

abbrev pub action_words : List (Text × Action)
action_words =
    (codes "file_into", Action.file_into)
    ∷ (codes "discard", Action.discard)
    ∷ (codes "reject", Action.reject)
    ∷ (codes "redirect", Action.redirect)
    ∷ (codes "mark_read", Action.mark_read)
    ∷ (codes "flag", Action.flag)
    ∷ (codes "stop", Action.stop)
    ∷ []

abbrev pub match_words : List (Text × MatchType)
match_words = (codes "all", MatchType.all) ∷ (codes "any", MatchType.any) ∷ []

abbrev pub both : {A B C : Type 0} → (A → B → C) → Option A → Option B → Option C
both f none y = none
both f (some x) none = none
both f (some x) (some y) = some (f x y)

unfoldable pub read_condition : ConditionEntry → Option Condition
unfolding word_in lower
read_condition e =
    both
      (λ (f : Field) (o : Operator). record {
        field = f;
        operator = o;
        value = e.value;
        header_name = e.header_name;
      })
      (word_in (lower e.field_word) fields) (word_in (lower e.operator_word) operators)

unfoldable pub read_conditions : List ConditionEntry → Option (List Condition)
unfolding read_condition
read_conditions [] = some []
read_conditions (e ∷ es) =
    both (λ (c : Condition) cs. c ∷ cs) (read_condition e) (read_conditions es)

abbrev argument_or_empty : Option Text → Text
argument_or_empty none = []
argument_or_empty (some t) = t

unfoldable pub read_action : ActionEntry → Option (Action × Text)
unfolding word_in lower
read_action e =
    both (λ (a : Action) (t : Text). (a, t)) (word_in (lower e.type_word) action_words)
      (some (argument_or_empty e.argument))

unfoldable pub read_actions : List ActionEntry → Option (List (Action × Text))
unfolding read_action
read_actions [] = some []
read_actions (e ∷ es) = both (λ (a : Action × Text) as'. a ∷ as') (read_action e) (read_actions es)

abbrev text_or : Text → Text → Text
text_or [] default = default
text_or (c ∷ s) default = c ∷ s

-- `int(row.get("priority") or 100)`
abbrev pub read_priority : ℕ → ℕ
read_priority n = if n == 0 then 100 else n

abbrev with_match :
    FilterValues → List Condition → List (Action × Text) → Option MatchType → Option Rule
with_match v cs as' none = none
with_match v cs as' (some m) = some (record {
  name = text_or v.name (codes "unnamed");
  conditions = cs;
  actions = as';
  match_type = m;
  priority = read_priority v.priority;
  stop_on_match = v.stop_on_match;
  is_active = v.is_active;
})

abbrev with_lists : FilterValues → Option (List Condition × List (Action × Text)) → Option Rule
unfolding word_in lower
with_lists v none = none
with_lists v (some r) =
    with_match v r.0 r.1 (word_in (lower (text_or v.match_word (codes "all"))) match_words)

-- `_rule_from_row`; `none` is a `SieveError`, or the `ValueError` of a word for `match_type`.
unfoldable pub rule_from_row : FilterValues → Option Rule
unfolding read_conditions read_actions with_lists
rule_from_row v = with_lists v (
    both (λ (cs : List Condition) (as' : List (Action × Text)). (cs, as'))
      (read_conditions v.conditions) (read_actions v.actions))
