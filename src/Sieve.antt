-- ===== src/Sieve.antt =====
-- The compiler of filter rules into Sieve scripts, src/lightr/dovecot/sieve.py. `none` is a
-- `SieveError`. A priority is not negative, as dovecot/filters.py has it.
mod Numbers
pub mod Scripts
pub mod Literals
pub mod Meaning
pub mod Names
mod Examples
use lightr.Prelude.{
  ℕ, ◌==◌, if◌then◌else◌, Text, codes, one_of, lower, decimal, zero, suc, Bool, true, false, Option,
  none, some, List, [], ◌∷◌, ◌++◌, ltb, select, sorted_by, is_space, strip, cut, join, text_le,
  ◌&&◌, ◌||◌, not, map,
}
use lightr.Sieve.Numbers.{parse_int, is_float}
use mathlib.Core.Option

pub data Field : Type 0 where
  from to carbon_copy subject body header attachment size spam_score : Field
  spf_result dkim_result dmarc_result : Field

pub data Operator : Type 0 where
  equals contains starts_with ends_with matches greater_than less_than : Operator

pub data Action : Type 0 where
  file_into discard reject redirect mark_read flag stop : Action

pub data MatchType : Type 0 where
  all any : MatchType

pub record Condition : Type 0 where
  pub field : Field
  pub operator : Operator
  pub value : Text
  pub header_name : Option Text

pub record Rule : Type 0 where
  pub name : Text
  pub conditions : List Condition
  pub actions : List (Action × Text)
  pub match_type : MatchType
  pub priority : ℕ
  pub stop_on_match : Bool
  pub is_active : Bool

pub record Script : Type 0 where
  pub script_body : Text
  pub requires : List Text

-- A test or a command, and the extensions it needs.
abbrev pub Compiled : Type 0
Compiled = Text × List Text

abbrev pub backslash : ℕ
backslash = b'\\'

abbrev pub quote_mark : ℕ
quote_mark = 34

abbrev pub star : ℕ
star = 42

abbrev pub question_mark : ℕ
question_mark = 63

abbrev pub newline : ℕ
newline = 10

-- `text.replace(c, "\\" + c)`
unfoldable pub escape_char : ℕ → Text → Text
escape_char c [] = []
escape_char c (x ∷ s) =
    let rest = escape_char c s in if x == c then backslash ∷ x ∷ rest else x ∷ rest

unfoldable pub quote : Text → Text
unfolding escape_char
quote value =
    quote_mark ∷ (escape_char quote_mark (escape_char backslash value) ++ (quote_mark ∷ []))

-- `_escape_glob`
unfoldable pub escape_glob : Text → Text
unfolding escape_char
escape_glob value = escape_char question_mark (escape_char star (escape_char backslash value))

-- `_MATCH_KEYWORD`
unfoldable pub match_keyword : Operator → Option Text
match_keyword equals = some (codes ":is")
match_keyword Operator.contains = some (codes ":contains")
match_keyword Operator.starts_with = some (codes ":matches")
match_keyword Operator.ends_with = some (codes ":matches")
match_keyword matches = some (codes ":matches")
match_keyword op = none

unfoldable pub header_pattern : Operator → Text → Text
unfolding escape_glob
header_pattern Operator.starts_with value = escape_glob value ++ (star ∷ [])
header_pattern Operator.ends_with value = star ∷ escape_glob value
header_pattern op value = value

abbrev pub space : Text
space = codes " "

-- `_header_test`
unfoldable pub header_test : Text → Operator → Text → Option Text
unfolding match_keyword header_pattern quote
header_test name op value =
    Option.map
      (λ (keyword : Text).
        codes "header "
        ++ (keyword ++ (space ++ (quote name ++ (space ++ quote (header_pattern op value))))))
      (match_keyword op)

-- The comparisons of numbers, by the words of the two operators.
unfoldable pub by_order : Text → Text → Operator → Option Text
by_order gt lt greater_than = some gt
by_order gt lt less_than = some lt
by_order gt lt op = none

-- `_numeric_header_test`
unfoldable pub numeric_header_test : Text → Operator → Text → Option Compiled
unfolding is_float by_order quote
numeric_header_test name op value =
    if is_float value
    then Option.map
        (λ (comparator : Text). (
          codes "header :value \""
              ++ (comparator
                  ++ (codes "\" :comparator \"i;ascii-numeric\" "
                      ++ (quote name ++ (space ++ quote value)))),
          codes "relational" ∷ codes "comparator-i;ascii-numeric" ∷ [],
        ))
        (by_order (codes "gt") (codes "lt") op)
    else none

abbrev pub needs_nothing : Option Text → Option Compiled
needs_nothing = Option.map (λ (t : Text). (t, []))

-- A number as an f-string shows it.
unfoldable pub show_int : Bool × ℕ → Text
unfolding decimal
show_int (true, suc n) = 45 ∷ decimal (suc n)
show_int (true, zero) = decimal 0
show_int (false, n) = decimal n

unfoldable pub size_test : Operator → Text → Option Text
unfolding parse_int show_int by_order
size_test op value = elim (parse_int value) [
  | none ↦ none
  | some n ↦
      Option.map (λ (over : Text). codes "size " ++ (over ++ (space ++ show_int n)))
        (by_order (codes ":over") (codes ":under") op)
]

unfoldable pub body_test : Operator → Text → Option Compiled
unfolding quote
body_test Operator.contains value =
    some (codes "body :text :contains " ++ quote value, codes "body" ∷ [])
body_test matches value = some (codes "body :text :matches " ++ quote value, codes "body" ∷ [])
body_test op value = none

unfoldable pub result_test : Text → Text → Option Compiled
unfolding quote
result_test method value = some (
  codes "header :contains "
      ++ (quote (codes "Authentication-Results")
          ++ (space ++ quote (method ++ (codes "=" ++ value)))),
  [],
)

unfoldable pub attachment_test : Text → Text
unfolding quote lower one_of
attachment_test value =
    let test =
      codes "header :is " ++ (quote (codes "X-Lightr-Has-Attachment") ++ codes " \"yes\"") in
    if one_of (lower value) (codes "false" ∷ codes "no" ∷ codes "0" ∷ [] ∷ [])
    then codes "not " ++ test
    else test

-- `if not cond.header`
unfoldable pub named_header_test : Option Text → Operator → Text → Option Text
unfolding header_test
named_header_test none op value = none
named_header_test (some []) op value = none
named_header_test (some (c ∷ s)) op value = header_test (c ∷ s) op value

unfoldable pub compile_field : Field → Condition → Option Compiled
unfolding header_test named_header_test body_test size_test numeric_header_test result_test
    attachment_test
compile_field from c = needs_nothing (header_test (codes "From") c.operator c.value)
compile_field to c = needs_nothing (header_test (codes "To") c.operator c.value)
compile_field carbon_copy c = needs_nothing (header_test (codes "Cc") c.operator c.value)
compile_field subject c = needs_nothing (header_test (codes "Subject") c.operator c.value)
compile_field header c = needs_nothing (named_header_test c.header_name c.operator c.value)
compile_field body c = body_test c.operator c.value
compile_field size c = needs_nothing (size_test c.operator c.value)
compile_field spam_score c = numeric_header_test (codes "X-Spam-Score") c.operator c.value
compile_field spf_result c = result_test (codes "spf") c.value
compile_field dkim_result c = result_test (codes "dkim") c.value
compile_field dmarc_result c = result_test (codes "dmarc") c.value
compile_field attachment c = some (attachment_test c.value, [])

unfoldable pub compile_condition : Condition → Option Compiled
unfolding compile_field
compile_condition c = compile_field c.field c
