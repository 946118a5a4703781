-- ===== src/Sieve/Examples.antt =====
-- Rules that compile, what their scripts are, and the theorems at them.
use lightr.Prelude.{◌++◌, Text, codes, ◌≡◌, refl, true, Option, none, some, [], ◌∷◌}
use lightr.Sieve.Names.{compile_rule-name_line}
use lightr.Sieve.{
  newline, Rule, Condition, compile_condition, from, size, spam_score, Operator, greater_than,
  file_into, mark_read, all, Compiled, quote,
}
use lightr.Sieve.Scripts.{compile_rule}
use lightr.Sieve.Literals.{one_line, read_string-quote, read_string}

abbrev text_of : Option Compiled → Option Text
text_of none = none
text_of (some c) = some c.0

abbrev from_bank : Condition
from_bank = record {
  field = from;
  operator = Operator.ends_with;
  value = codes "*bank.test";
  header_name = none;
}

abbrev receipts : Rule
receipts = record {
  name = codes "bank";
  conditions = from_bank ∷ [];
  actions = (file_into, codes "Receipts") ∷ (mark_read, []) ∷ [];
  match_type = all;
  priority = 10;
  stop_on_match = true;
  is_active = true;
}

bank_block :
    text_of (compile_rule receipts)
    ≡ some (
        codes
          "# bank\nif header :matches \"From\" \"*\\\\*bank.test\" {\n    fileinto :create \"Receipts\";\n    setflag \"\\\\Seen\";\n    stop;\n}")
unfolding compile_rule
bank_block = refl

-- A negative size and one that is not a number.
abbrev big : Text → Condition
big value = record { field = size; operator = greater_than; value = value; header_name = none }

size_read : compile_condition (big (codes " 1_000 ")) ≡ some (codes "size :over 1000", [])
unfolding compile_condition
size_read = refl

size_refused : compile_condition (big (codes "1k")) ≡ none
unfolding compile_condition
size_refused = refl

score : Text → Condition
score value = record {
  field = spam_score;
  operator = greater_than;
  value = value;
  header_name = none;
}

score_read :
    text_of (compile_condition (score (codes "4.5e1")))
    ≡ some (codes "header :value \"gt\" :comparator \"i;ascii-numeric\" \"X-Spam-Score\" \"4.5e1\"")
unfolding compile_condition score
score_read = refl

score_refused : compile_condition (score (codes "4.e")) ≡ none
unfolding compile_condition score
score_refused = refl

read_string-quote_example :
    read_string (quote (codes "a\"b\\") ++ codes ";") ≡ some (codes "a\"b\\", codes ";")
read_string-quote_example = read_string-quote (codes "a\"b\\") (codes ";") (unfold one_line in refl)

-- The headers of a message, each with one address.
abbrev sent_by : Text → Text → Text
sent_by address name = address

-- A name that ends its comment and goes on with a command, which no filter may use.
abbrev leak : Text
leak = codes "redirect \"me@elsewhere.test\";"

abbrev leaking : Rule
leaking = record receipts { name = codes "bank" ++ (newline ∷ leak) }

abbrev leaked_block : Compiled
leaked_block = (
  codes
      "# bank\nredirect \"me@elsewhere.test\";\nif header :matches \"From\" \"*\\\\*bank.test\" {\n    fileinto :create \"Receipts\";\n    setflag \"\\\\Seen\";\n    stop;\n}",
  codes "fileinto" ∷ codes "mailbox" ∷ codes "imap4flags" ∷ [],
)

compile_rule-name_line_example :
    (rest : Text) × (leaked_block.0
      ≡ (codes "# " ++ codes "bank") ++ (newline ∷ (leak ++ (newline ∷ rest))))
compile_rule-name_line_example =
    compile_rule-name_line leaking leaked_block (codes "bank") leak leaking_block refl
  where
    leaking_block : compile_rule leaking ≡ some leaked_block
    leaking_block = unfold compile_rule in refl
