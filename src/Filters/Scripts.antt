-- ===== src/Filters/Scripts.antt =====
-- What is stored can be read, and the compiler takes it.
use mathlib.Core.Option
use lightr.Prelude.{
  ℕ, Bool-cases, All, update, delete, strip, ◌≡◌, inl, inr, Bool, true, false, some, List, [], ◌∷◌,
  leb, All-append, count, refl, sym, ap, ◌∙◌, ◌&&◌, Option, none, All-map, select, order_by,
  sorted_by, All-select, All-order_by, All-sorted_by, Text, not, arith,
}
use lightr.Directory.{Uuid}
use lightr.Sieve.{Rule, Compiled}
use lightr.Sieve.Scripts.{
  compile_script, compile_rule, compile_blocks, join_compiled, compile_conditions, compile_actions,
  rule_block, has_items, rule_le, script_of, script_for,
}
use lightr.Bounce.{is_some}
use lightr.Filters.Reading.{FilterValues}
use lightr.Filters.{
  FilterRow, rules_for, both, is_compiled, rule_from_row, any_refused, is_normal, is_storable,
  create_filter, update_filter, delete_filter, max_rules, stored_if, normalise_filter, of_account,
  is_filter, get_filter, create_normal, update_normal, update_current, read_rules,
  script_for_account,
}

-- A request to change the filters, as the API hands it on.
pub data Change : Type 0 where
  create : Uuid → Uuid → Uuid → ℕ → FilterValues → Change
  update_with : Uuid → Uuid → ℕ → (FilterValues → FilterValues) → Change
  remove : Uuid → Uuid → Change

abbrev pub apply_change : Change → List FilterRow → List FilterRow
unfolding create_filter update_filter delete_filter
apply_change (create id org account now v) rows = (create_filter id org account now v rows).0
apply_change (update_with account id now change) rows = (update_filter account id now change rows).0
apply_change (remove account id) rows = (delete_filter account id rows).0

unfoldable pub run : List Change → List FilterRow → List FilterRow
unfolding apply_change
run [] rows = rows
run (c ∷ cs) rows = run cs (apply_change c rows)

abbrev IsStored : FilterRow → Type 0
IsStored r = is_storable (rule_from_row r.stored) ≡ true

-- A rule with no action that is refused, which the compiler takes.
abbrev pub IsSound : Rule → Type 0
IsSound r = (any_refused r.actions ≡ false) × (is_some (compile_rule r) ≡ true)

All-update :
    (P : FilterRow → Type 0) (p : FilterRow → Bool) (f : FilterRow → FilterRow)
    (rs : List FilterRow)
    → ((r : FilterRow) → P (f r))
    → All P rs
    → All P (update p f rs)
unfolding update
All-update P p f [] g h = tt
All-update P p f (r ∷ rs) g h = elim (Bool-cases (p r)) [
  | inl e ↦ rw e (g r, All-update P p f rs g h.1)
  | inr e ↦ rw e (h.0, All-update P p f rs g h.1)
]

All-delete :
    (P : FilterRow → Type 0) (p : FilterRow → Bool) (rs : List FilterRow)
    → All P rs
    → All P (delete p rs)
unfolding delete
All-delete P p [] h = tt
All-delete P p (r ∷ rs) h = elim (Bool-cases (p r)) [
  | inl e ↦ rw e (All-delete P p rs h.1)
  | inr e ↦ rw e (h.0, All-delete P p rs h.1)
]

stored_if-eq : (b : Bool) (v w : FilterValues) → stored_if b v ≡ some w → (b ≡ true) × (v ≡ w)
stored_if-eq true v w h = (refl, cc)
stored_if-eq false v w h = cc

-- What a body is stored as has passed the compiler.
normalise_filter-is_storable :
    (v w : FilterValues) → normalise_filter v ≡ some w → is_storable (rule_from_row w) ≡ true
unfolding normalise_filter
normalise_filter-is_storable v w h =
    let row : FilterValues = record v { name = strip v.name } in
    let both_hold = stored_if-eq (is_normal v && is_storable (rule_from_row row)) row w h in
    let passed : is_storable (rule_from_row row) ≡ true =
      and-true_right (is_normal v) (is_storable (rule_from_row row)) both_hold.0 in
    ap (λ x. is_storable (rule_from_row x)) (sym both_hold.1) ∙ passed
  where
    and-true_right : (a b : Bool) → (a && b) ≡ true → b ≡ true
    and-true_right true b h = h
    and-true_right false b h = cc

create_normal-IsStored :
    (id org account : Uuid) (now : ℕ) (rows : List FilterRow) (o : Option FilterValues)
    → ((w : FilterValues) → o ≡ some w → is_storable (rule_from_row w) ≡ true)
    → All IsStored rows
    → All IsStored (create_normal id org account now rows o).0
unfolding create_normal
create_normal-IsStored id org account now rows none good h = h
create_normal-IsStored id org account now rows (some v) good h =
    elim (Bool-cases (leb max_rules (count (of_account account) rows))) [
      | inl e ↦ rw e h
      | inr e ↦ rw e (
          All-append IsStored rows
            (record {
              id = id;
              org_id = org;
              account_id = account;
              stored = v;
              created_at = now;
              updated_at = now;
            }
              ∷ [])
            h (good v refl, tt))
    ]

update_normal-IsStored :
    (account id : Uuid) (now : ℕ) (rows : List FilterRow) (o : Option FilterValues)
    → ((w : FilterValues) → o ≡ some w → is_storable (rule_from_row w) ≡ true)
    → All IsStored rows
    → All IsStored (update_normal account id now rows o).0
unfolding update_normal
update_normal-IsStored account id now rows none good h = h
update_normal-IsStored account id now rows (some v) good h =
    All-update IsStored (is_filter account id)
      (λ (r : FilterRow). record r { stored = v; updated_at = now }) rows (λ r. good v refl) h

update_current-IsStored :
    (account id : Uuid) (now : ℕ) (change : FilterValues → FilterValues) (rows : List FilterRow)
    (o : Option FilterRow)
    → All IsStored rows
    → All IsStored (update_current account id now change rows o).0
unfolding update_current
update_current-IsStored account id now change rows none h = h
update_current-IsStored account id now change rows (some r) h =
    update_normal-IsStored account id now rows (normalise_filter (change r.stored))
      (normalise_filter-is_storable (change r.stored)) h

apply_change-IsStored :
    (c : Change) (rows : List FilterRow) → All IsStored rows → All IsStored (apply_change c rows)
unfolding apply_change create_filter update_filter delete_filter
apply_change-IsStored (create id org account now v) rows h =
    create_normal-IsStored id org account now rows (normalise_filter v)
      (normalise_filter-is_storable v) h
apply_change-IsStored (update_with account id now change) rows h =
    update_current-IsStored account id now change rows (get_filter account id rows) h
apply_change-IsStored (remove account id) rows h = All-delete IsStored (is_filter account id) rows h

run-IsStored :
    (cs : List Change) (rows : List FilterRow) → All IsStored rows → All IsStored (run cs rows)
unfolding run
run-IsStored [] rows h = h
run-IsStored (c ∷ cs) rows h =
    run-IsStored cs (apply_change c rows) (apply_change-IsStored c rows h)

compiled_one :
    (o : Option Compiled)
    → is_compiled (Option.map script_of (join_compiled o (some ([], [])))) ≡ is_some o
compiled_one none = refl
compiled_one (some c) = refl

some-rule_block :
    (r s : Rule) (tests commands : Option (List Text × List Text))
    → is_some (rule_block r tests commands) ≡ is_some (rule_block s tests commands)
some-rule_block r s none commands = refl
some-rule_block r s (some tests) none = refl
some-rule_block r s (some tests) (some commands) = refl

-- Whether a rule compiles does not depend on whether it is active.
some-compile_rule :
    (r : Rule) → is_some (compile_rule (record r { is_active = true })) ≡ is_some (compile_rule r)
unfolding compile_rule
some-compile_rule r = elim (Bool-cases (has_items r.conditions && has_items r.actions)) [
  | inl e ↦ rw e (
      some-rule_block (record r { is_active = true }) r (compile_conditions r.conditions)
        (compile_actions r.actions))
  | inr e ↦ rw e refl
]

compile_script-one :
    (r : Rule)
    → is_compiled (compile_script ((record r { is_active = true }) ∷ []))
      ≡ is_some (compile_rule (record r { is_active = true }))
unfolding compile_script select sorted_by compile_blocks
compile_script-one r = compiled_one (compile_rule (record r { is_active = true }))

split_and : (a b : Bool) → (not a && b) ≡ true → (a ≡ false) × (b ≡ true)
split_and true b h = (cc, cc)
split_and false b h = (refl, h)

-- A rule that may be stored is sound.
storable-IsSound : (r : Rule) → is_storable (some r) ≡ true → IsSound r
unfolding is_storable
storable-IsSound r h =
    let parts =
      split_and (any_refused r.actions)
        (is_compiled (compile_script ((record r { is_active = true }) ∷ []))) h in
    (parts.0, sym (compile_script-one r ∙ some-compile_rule r) ∙ parts.1)

read_rule_then :
    (o : Option Rule) (rest : Option (List Rule))
    → is_storable o ≡ true
    → (rules : List Rule) × ((rest ≡ some rules) × All IsSound rules)
    → (rules : List Rule) × ((both (λ (x : Rule) xs. x ∷ xs) o rest ≡ some rules)
        × All IsSound rules)
unfolding is_storable
read_rule_then none rest h k = absurd (ground (arith, h))
read_rule_then (some r) rest h k = (r ∷ k.0, (rw k.1.0 refl, (storable-IsSound r h, k.1.1)))

read_rules-IsSound :
    (rows : List FilterRow)
    → All IsStored rows
    → (rules : List Rule) × ((read_rules rows ≡ some rules) × All IsSound rules)
unfolding read_rules
read_rules-IsSound [] h = ([], (refl, tt))
read_rules-IsSound (r ∷ rows) h =
    read_rule_then (rule_from_row r.stored) (read_rules rows) h.0 (read_rules-IsSound rows h.1)

some-join :
    (o : Option Compiled) (rest : Option (List Text × List Text))
    → is_some o ≡ true
    → is_some rest ≡ true
    → is_some (join_compiled o rest) ≡ true
some-join none rest h k = cc
some-join (some c) none h k = cc
some-join (some c) (some r) h k = refl

some-compile_blocks :
    (rules : List Rule) → All IsSound rules → is_some (compile_blocks rules) ≡ true
unfolding compile_blocks
some-compile_blocks [] h = refl
some-compile_blocks (r ∷ rules) h =
    some-join (compile_rule r) (compile_blocks rules) h.0.1 (some-compile_blocks rules h.1)

some-script_for : (rules : List Rule) → All IsSound rules → is_some (script_for rules) ≡ true
some-script_for [] h = refl
some-script_for (r ∷ rules) h =
    some-map (compile_blocks (r ∷ rules)) (some-compile_blocks (r ∷ rules) h)
  where
    some-map :
        (o : Option (List Text × List Text))
        → is_some o ≡ true
        → is_some (Option.map script_of o) ≡ true
    some-map none k = cc
    some-map (some b) k = refl

-- Whatever changes were asked for, and in whatever order, the filters that are stored for an
-- account can be read, none of them has a redirect among its actions, and the compiler makes a
-- script of them. Of what a name with a newline adds to that script nothing is said.
pub rules_for-run :
    (changes : List Change) (account : Uuid)
    → (rules : List Rule) × ((rules_for account (run changes []) ≡ some rules)
        × All (λ r. any_refused r.actions ≡ false) rules
        × (is_some (script_for_account account (run changes [])) ≡ true))
unfolding rules_for script_for_account compile_script
rules_for-run changes account =
    let rows =
      order_by (λ (r : FilterRow). r.stored.priority)
        (select (of_account account) (run changes [])) in
    let stored =
      All-order_by IsStored (λ (r : FilterRow). r.stored.priority)
        (select (of_account account) (run changes []))
        (All-select IsStored (of_account account) (run changes []) (run-IsStored changes [] tt)) in
    let read = read_rules-IsSound rows stored in
    let active = select (λ (r : Rule). r.is_active) read.0 in
    (
      read.0,
      (
        read.1.0,
        All-map (λ r (h : IsSound r). h.0) read.0 read.1.1,
        rw read.1.0 (
            some-script_for (sorted_by rule_le active) (
              All-sorted_by IsSound rule_le active
                (All-select IsSound (λ (r : Rule). r.is_active) read.0 read.1.1))),
      ),
    )
