-- ===== src/Filters/Examples.antt =====
-- Filters that are stored, refused and changed.
use lightr.Prelude.{
  ℕ, length, All, Text, codes, ◌≡◌, refl, true, false, Option, none, some, List, [], ◌∷◌,
}
use lightr.Bounce.{is_some}
use lightr.Filters.Reading.{FilterValues}
use lightr.Filters.{rules_for, any_refused, script_for_account}
use lightr.Sieve.{Rule}
use lightr.Filters.Scripts.{rules_for-run, run, Change, create, update_with}

abbrev bank : Text → ℕ → FilterValues
bank action priority = record {
  name = codes " bank ";
  description = none;
  priority = priority;
  match_word = codes "all";
  conditions =
      record {
        field_word = codes "From";
        operator_word = codes "contains";
        value = codes "bank.test";
        header_name = none;
      }
      ∷ [];
  actions = record { type_word = action; argument = some (codes "Receipts") } ∷ [];
  is_active = true;
  stop_on_match = false;
}

-- One that files mail, one that redirects it, and the change of the first into a redirect.
abbrev asked : List Change
asked =
    create 1 7 9 100 (bank (codes "file_into") 5)
    ∷ create 2 7 9 200 (bank (codes "redirect") 5)
    ∷ update_with 9 1 300 (λ v. bank (codes "Redirect") 5)
    ∷ []

kept : length (run asked []) ≡ 1
unfolding run
kept = refl

abbrev priorities : Option (List Rule) → List ℕ
priorities none = []
priorities (some []) = []
priorities (some (r ∷ rs)) = r.priority ∷ []

-- A priority of zero, which a body may have, is read as a hundred.
zero_priority :
    priorities (rules_for 9 (run (create 1 7 9 100 (bank (codes "stop") 0) ∷ []) [])) ≡ 100 ∷ []
unfolding rules_for run
zero_priority = refl

rules_for-run_example :
    (rules : List Rule) × ((rules_for 9 (run asked []) ≡ some rules)
      × All (λ r. any_refused r.actions ≡ false) rules
      × (is_some (script_for_account 9 (run asked [])) ≡ true))
rules_for-run_example = rules_for-run asked 9
