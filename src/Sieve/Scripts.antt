-- ===== src/Sieve/Scripts.antt =====
-- Actions, rules and whole scripts of src/lightr/dovecot/sieve.py.
use lightr.Prelude.{
  ltb, ◌==◌, if◌then◌else◌, select, sorted_by, Text, codes, one_of, is_space, strip, cut, join,
  text_le, Bool, true, false, ◌&&◌, ◌||◌, not, Option, none, some, List, [], ◌∷◌, ◌++◌, map,
}
use lightr.Sieve.{
  Action, Rule, file_into, discard, reject, redirect, mark_read, flag, stop, MatchType, all, any,
  Condition, Script, Compiled, quote_mark, newline, quote, compile_condition,
}
use mathlib.Core.Option

-- A text of `[^@\s]+`
unfoldable pub is_word : Text → Bool
unfolding is_space
is_word [] = true
is_word (c ∷ s) = not (c == b'@' || is_space c) && is_word s

-- Whether a point stands before the last character.
unfoldable pub inner_point : Text → Bool
inner_point [] = false
inner_point (c ∷ []) = false
inner_point (c ∷ d ∷ s) = c == b'.' || inner_point (d ∷ s)

-- `[^@\s]+\.[^@\s]+`
unfoldable pub is_host : Text → Bool
unfolding is_word inner_point
is_host [] = false
is_host (c ∷ s) = is_word (c ∷ s) && inner_point s

abbrev split_is_address : Option (Text × Text) → Bool
split_is_address none = false
split_is_address (some ([], domain)) = false
split_is_address (some ((c ∷ s), domain)) = is_word (c ∷ s) && is_host domain

-- `_is_address`
unfoldable pub is_address : Text → Bool
unfolding strip cut is_word is_host
is_address value = split_is_address (cut b'@' (strip value))

-- `text or default`
abbrev text_or : Text → Text → Text
text_or [] default = default
text_or (c ∷ s) default = c ∷ s

unfoldable pub compile_action : Action → Text → Option Compiled
unfolding quote is_address
compile_action file_into argument = some (
  codes "fileinto :create " ++ (quote (text_or argument (codes "INBOX")) ++ codes ";"),
  codes "fileinto" ∷ codes "mailbox" ∷ [],
)
compile_action discard argument = some (codes "discard;", [])
compile_action reject argument = some (
  codes "reject " ++ (quote (text_or argument (codes "Message rejected by policy")) ++ codes ";"),
  codes "reject" ∷ [],
)
compile_action redirect argument =
    if is_address argument
    then some (codes "redirect " ++ (quote argument ++ codes ";"), [])
    else none
compile_action mark_read argument = some (codes "setflag \"\\\\Seen\";", codes "imap4flags" ∷ [])
compile_action flag argument = some (codes "addflag \"\\\\Flagged\";", codes "imap4flags" ∷ [])
compile_action stop argument = some (codes "stop;", [])

-- `requires |= needed`
unfoldable pub union : List Text → List Text → List Text
unfolding one_of
union xs [] = xs
union xs (y ∷ ys) = let more = union xs ys in if one_of y more then more else y ∷ more

abbrev pub join_compiled :
    Option Compiled → Option (List Text × List Text) → Option (List Text × List Text)
join_compiled none rest = none
join_compiled (some c) none = none
join_compiled (some c) (some r) = some (c.0 ∷ r.0, union r.1 c.1)

-- The loop over the conditions: the tests and what they need.
unfoldable pub compile_conditions : List Condition → Option (List Text × List Text)
unfolding compile_condition union
compile_conditions [] = some ([], [])
compile_conditions (c ∷ cs) = join_compiled (compile_condition c) (compile_conditions cs)

-- The loop over the actions.
unfoldable pub compile_actions : List (Action × Text) → Option (List Text × List Text)
unfolding compile_action union
compile_actions [] = some ([], [])
compile_actions (a ∷ as') = join_compiled (compile_action a.0 a.1) (compile_actions as')

abbrev pub joiner : MatchType → Text
joiner all = codes "allof"
joiner any = codes "anyof"

unfoldable pub join_tests : MatchType → List Text → Text
unfolding join
join_tests type (t ∷ []) = t
join_tests type ts =
    joiner type ++ (codes " (\n        " ++ (join (codes ",\n        ") ts ++ codes "\n    )"))

abbrev pub is_stop : Action → Bool
is_stop stop = true
is_stop a = false

unfoldable pub stops : List (Action × Text) → Bool
stops [] = false
stops (a ∷ as') = is_stop a.0 || stops as'

unfoldable pub stop_line : Rule → List Text
unfolding stops
stop_line r = if r.stop_on_match && not (stops r.actions) then codes "    stop;" ∷ [] else []

-- The lines of a rule behind the comment with its name.
unfoldable pub code_lines : Rule → List Text → List Text → List Text
unfolding join_tests stop_line
code_lines r tests commands =
    (codes "if " ++ (join_tests r.match_type tests ++ codes " {"))
    ∷ (map (λ (command : Text). codes "    " ++ command) commands
        ++ (stop_line r ++ (codes "}" ∷ [])))

unfoldable pub rule_lines : Rule → List Text → List Text → List Text
unfolding code_lines
rule_lines r tests commands = (codes "# " ++ r.name) ∷ code_lines r tests commands

abbrev pub rule_block :
    Rule → Option (List Text × List Text) → Option (List Text × List Text) → Option Compiled
rule_block r none commands = none
rule_block r (some tests) none = none
rule_block r (some tests) (some commands) =
    some (join (newline ∷ []) (rule_lines r tests.0 commands.0), union tests.1 commands.1)

abbrev pub has_items {ℓ} : {A : Type ℓ} → List A → Bool
has_items [] = false
has_items (x ∷ xs) = true

unfoldable pub compile_rule : Rule → Option Compiled
unfolding compile_conditions compile_actions rule_lines union join
compile_rule r =
    if has_items r.conditions && has_items r.actions
    then rule_block r (compile_conditions r.conditions) (compile_actions r.actions)
    else none

-- `(r.priority, r.name)` in the order of tuples
unfoldable pub rule_le : Rule → Rule → Bool
unfolding text_le
rule_le r s = ltb r.priority s.priority || (r.priority == s.priority && text_le r.name s.name)

unfoldable pub compile_blocks : List Rule → Option (List Text × List Text)
unfolding compile_rule union
compile_blocks [] = some ([], [])
compile_blocks (r ∷ rs) = join_compiled (compile_rule r) (compile_blocks rs)

abbrev pub script_of : List Text × List Text → Script
script_of b = record {
  script_body = join (newline ∷ newline ∷ []) b.0 ++ (newline ∷ []);
  requires = b.1;
}

abbrev pub script_for : List Rule → Option Script
script_for [] = some (record { script_body = codes "# No active rules.\n"; requires = [] })
script_for (r ∷ rs) = Option.map script_of (compile_blocks (r ∷ rs))

unfoldable pub compile_script : List Rule → Option Script
unfolding select sorted_by rule_le compile_blocks join
compile_script rules = script_for (sorted_by rule_le (select (λ (r : Rule). r.is_active) rules))

abbrev require_line : List Text → Text
require_line [] = []
require_line (n ∷ ns) =
    codes "require ["
    ++ (join (codes ", ")
          (map (λ (m : Text). quote_mark ∷ (m ++ (quote_mark ∷ []))) (sorted_by text_le (n ∷ ns)))
        ++ codes "];\n\n")

-- `Script.render`
unfoldable pub render : Script → Text
unfolding join sorted_by text_le
render s =
    codes "# Generated by Lightr. Do not edit -- changes are\n"
    ++ (codes "# overwritten whenever filter rules change.\n"
        ++ (newline ∷ (require_line s.requires ++ s.script_body)))
