-- ===== src/Sender/Groups.antt =====
-- The grouping of recipients by domain loses and repeats nobody.
use lightr.Prelude.{
  ℕ, if◌then◌else◌, Bool-cases, Option-cases, count, count-append, Text, text_eq, lower, cut, ◌+◌,
  ◌≡◌, inl, inr, Bool, true, false, ◌&&◌, none, some, List, [], ◌∷◌, map, arith,
}
use lightr.Sender.{group_add, group_by_domain}

-- How often the address stands in the lists.
abbrev pub times_in : Text → List (List Text) → ℕ
times_in a [] = 0
times_in a (rs ∷ rss) = count (text_eq a) rs + times_in a rss

abbrev pub addresses : List (Text × List Text) → List (List Text)
addresses = map (λ g. g.1)

-- The address is `a` and has a domain.
unfoldable pub is_routable : Text → Text → Bool
unfolding cut
is_routable a r = text_eq a r && elim (cut b'@' r) [ none ↦ false | some p ↦ true ]

times_in-group_add :
    (a name r : Text) (groups : List (Text × List Text))
    → times_in a (addresses (group_add name r groups))
      ≡ times_in a (addresses groups) + (if text_eq a r then 1 else 0)
unfolding group_add count
times_in-group_add a name r [] = omega arith
times_in-group_add a name r ((n, rs) ∷ groups) = elim (Bool-cases (text_eq n name)) [
  | inl e ↦ rw e (omega (arith, count-append (text_eq a) rs (r ∷ [])))
  | inr e ↦ rw e (omega (arith, times_in-group_add a name r groups))
]

pub times_in-group_by_domain :
    (a : Text) (rs : List Text) (groups : List (Text × List Text))
    → times_in a (addresses (group_by_domain rs groups))
      ≡ times_in a (addresses groups) + count (is_routable a) rs
unfolding group_by_domain count is_routable
times_in-group_by_domain a [] groups = omega arith
times_in-group_by_domain a (r ∷ rs) groups = elim (Option-cases (cut b'@' r)) [
  | inl e ↦ rw (e, group_by_domain) (ground (arith, e, times_in-group_by_domain a rs groups))
  | inr e ↦
      rw (e.1, group_by_domain)
        (ground (
          arith,
          e.1,
          times_in-group_by_domain a rs (group_add (lower e.0.1) r groups),
          times_in-group_add a (lower e.0.1) r groups,
        ))
]
