-- ===== src/Sieve/Names.antt =====
-- Where the name of a rule stands in its script.
use lightr.Prelude.{
  Bool-cases, Text, codes, join, ◌≡◌, sym, ap, inl, inr, ◌&&◌, Option, none, some, List, ◌∷◌, ◌++◌,
  [], arith, ◌∙◌,
}
use mathlib.Core.List.{append_assoc}
use lightr.Sieve.{Rule, Compiled, newline}
use lightr.Sieve.Scripts.{
  compile_rule, rule_lines, rule_block, union, code_lines, has_items, compile_conditions,
  compile_actions,
}

block-name :
    (r : Rule) (tests commands : Option (List Text × List Text)) (c : Compiled)
    → rule_block r tests commands ≡ some c
    → (rest : Text) × (c.0 ≡ (codes "# " ++ r.name) ++ (newline ∷ rest))
unfolding rule_lines join
block-name r none commands c h = absurd (cc)
block-name r (some t) none c h = absurd (cc)
block-name r (some t) (some m) c h =
    let lines = code_lines r t.0 m.0 in
    let same : (join (newline ∷ []) (rule_lines r t.0 m.0), union t.1 m.1) ≡ c = cc in
    (join (newline ∷ []) lines, sym (ap (λ (q : Compiled). q.0) same))

-- If the name of a rule that compiles has a newline in it, what stands behind the newline is a line
-- of the script of its own, outside the comment that the name is meant for.
pub compile_rule-name_line :
    (r : Rule) (c : Compiled) (a b : Text)
    → compile_rule r ≡ some c
    → r.name ≡ a ++ (newline ∷ b)
    → (rest : Text) × (c.0 ≡ (codes "# " ++ a) ++ (newline ∷ (b ++ (newline ∷ rest))))
unfolding compile_rule
compile_rule-name_line r c a b h e =
    elim (Bool-cases (has_items r.conditions && has_items r.actions)) [
      | inl f ↦
          let found : rule_block r (compile_conditions r.conditions) (compile_actions r.actions)
              ≡ some c =
            ground (arith, f, h) in
          regroup (block-name r _ _ c found)
      | inr f ↦ absurd (ground (arith, f, h))
    ]
  where
    regroup :
        (rest : Text) × (c.0 ≡ (codes "# " ++ r.name) ++ (newline ∷ rest))
        → (rest : Text) × (c.0 ≡ (codes "# " ++ a) ++ (newline ∷ (b ++ (newline ∷ rest))))
    regroup (rest, same) = (
      rest,
      same
          ∙ ap (λ n. (codes "# " ++ n) ++ (newline ∷ rest)) e
          ∙ append_assoc (codes "# " ++ a) (newline ∷ b) (newline ∷ rest),
    )
