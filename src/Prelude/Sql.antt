-- ===== src/Prelude/Sql.antt =====
-- A database table as the list of its rows, and the statements that the program executes:
-- select with a where clause, update, delete.
use Prim.Native.Nat.{ℕ, ◌+◌}
use mathlib.Core.Path.{ap, sym, ◌∙◌, ◌≡◌, refl}
use mathlib.Core.Bool.{Bool, true, false}
use mathlib.Core.Logic.{inl, inr}
use mathlib.Core.Option.{Option, none, some}
use mathlib.Core.List.{List, [], ◌∷◌, ◌++◌}
use native.Mathlib.Omega.{arith}
use lightr.Prelude.Tests.{if◌then◌else◌, leb, Bool-cases}
use lightr.Prelude.Lists.{length, All, Any}

module _ {ℓ} {A : Type ℓ} where
  -- select … where `p`
  unfoldable pub select : (A → Bool) → List A → List A
  select p [] = []
  select p (r ∷ rs) = let rest = select p rs in if p r then r ∷ rest else rest

  -- the first row of select … where `p`
  unfoldable pub first : (A → Bool) → List A → Option A
  first p [] = none
  first p (r ∷ rs) = if p r then some r else first p rs

  -- update … where `p`, each row that matches replaced by `f` of it
  unfoldable pub update : (A → Bool) → (A → A) → List A → List A
  update p f [] = []
  update p f (r ∷ rs) = (if p r then f r else r) ∷ update p f rs

  -- delete … where `p`
  unfoldable pub delete : (A → Bool) → List A → List A
  delete p [] = []
  delete p (r ∷ rs) = let rest = delete p rs in if p r then rest else r ∷ rest

  -- `result.rowcount`
  unfoldable pub count : (A → Bool) → List A → ℕ
  count p [] = 0
  count p (r ∷ rs) = (if p r then 1 else 0) + count p rs

  unfoldable pub insert_by : (A → ℕ) → A → List A → List A
  insert_by key r [] = r ∷ []
  insert_by key r (x ∷ xs) = if leb (key r) (key x) then r ∷ x ∷ xs else x ∷ insert_by key r xs

  -- … order by `key`; rows of one key keep the order of the table
  unfoldable pub order_by : (A → ℕ) → List A → List A
  unfolding insert_by
  order_by key [] = []
  order_by key (r ∷ rs) = insert_by key r (order_by key rs)

  insert_sorted : (A → A → Bool) → A → List A → List A
  insert_sorted le r [] = r ∷ []
  insert_sorted le r (x ∷ xs) =
      let rest = insert_sorted le r xs in if le r x then r ∷ x ∷ xs else x ∷ rest

  -- `sorted` by an order; equal items keep their places.
  unfoldable pub sorted_by : (A → A → Bool) → List A → List A
  unfolding insert_sorted
  sorted_by le [] = []
  sorted_by le (x ∷ xs) = insert_sorted le x (sorted_by le xs)

  insert_desc : (A → ℕ) → A → List A → List A
  insert_desc key r [] = r ∷ []
  insert_desc key r (x ∷ xs) = if leb (key x) (key r) then r ∷ x ∷ xs else x ∷ insert_desc key r xs

  -- … order by `key` desc
  unfoldable pub order_by_desc : (A → ℕ) → List A → List A
  unfolding insert_desc
  order_by_desc key [] = []
  order_by_desc key (r ∷ rs) = insert_desc key r (order_by_desc key rs)

  -- Members of a selection, a sorted list: what all rows of the table satisfy, they do.
  pub All-select {κ} :
      (P : A → Type κ) (p : A → Bool) (rs : List A) → All P rs → All P (select p rs)
  unfolding select
  All-select P p [] h = tt
  All-select P p (r ∷ rs) h = elim (Bool-cases (p r)) [
    | inl e ↦ rw e (h.0, All-select P p rs h.1)
    | inr e ↦ rw e (All-select P p rs h.1)
  ]

  -- A selected row passes the test.
  pub select-All : (p : A → Bool) (rs : List A) → All (λ r. p r ≡ true) (select p rs)
  unfolding select
  select-All p [] = tt
  select-All p (r ∷ rs) = elim (Bool-cases (p r)) [
    | inl e ↦ rw e (e, select-All p rs)
    | inr e ↦ rw e (select-All p rs)
  ]

  pub All-insert_by {κ} :
      (P : A → Type κ) (key : A → ℕ) (r : A) (xs : List A)
      → P r
      → All P xs
      → All P (insert_by key r xs)
  unfolding insert_by
  All-insert_by P key r [] h k = (h, tt)
  All-insert_by P key r (x ∷ xs) h k = elim (Bool-cases (leb (key r) (key x))) [
    | inl e ↦ rw e (h, (k.0, k.1))
    | inr e ↦ rw e (k.0, All-insert_by P key r xs h k.1)
  ]

  pub All-order_by {κ} :
      (P : A → Type κ) (key : A → ℕ) (rs : List A) → All P rs → All P (order_by key rs)
  unfolding order_by
  All-order_by P key [] h = tt
  All-order_by P key (r ∷ rs) h =
      All-insert_by P key r (order_by key rs) h.0 (All-order_by P key rs h.1)

  -- What `first` finds is in the table and passes the test.
  pub first-Any :
      (p : A → Bool) (rs : List A) (r : A)
      → first p rs ≡ some r
      → Any (λ x. x ≡ r) rs × (p r ≡ true)
  unfolding first
  first-Any p [] r h = absurd (cc (h))
  first-Any p (x ∷ rs) r h = elim (Bool-cases (p x)) [
    | inl e ↦ let same : x ≡ r = ground (arith, e, h) in (inl same, ap p (sym same) ∙ e)
    | inr e ↦ let later = first-Any p rs r (ground (arith, e, h)) in (inr later.0, later.1)
  ]

  All-insert_sorted {κ} :
      (P : A → Type κ) (le : A → A → Bool) (r : A) (xs : List A)
      → P r
      → All P xs
      → All P (insert_sorted le r xs)
  unfolding insert_sorted
  All-insert_sorted P le r [] h k = (h, tt)
  All-insert_sorted P le r (x ∷ xs) h k = elim (Bool-cases (le r x)) [
    | inl e ↦ rw e (h, (k.0, k.1))
    | inr e ↦ rw e (k.0, All-insert_sorted P le r xs h k.1)
  ]

  pub All-sorted_by {κ} :
      (P : A → Type κ) (le : A → A → Bool) (rs : List A) → All P rs → All P (sorted_by le rs)
  unfolding sorted_by
  All-sorted_by P le [] h = tt
  All-sorted_by P le (r ∷ rs) h =
      All-insert_sorted P le r (sorted_by le rs) h.0 (All-sorted_by P le rs h.1)

  pub length-delete-add-count :
      (p : A → Bool) (rs : List A) → length (delete p rs) + count p rs ≡ length rs
  unfolding delete count
  length-delete-add-count p [] = omega arith
  length-delete-add-count p (r ∷ rs) = ground (arith, length-delete-add-count p rs)

  pub count-append : (p : A → Bool) (xs ys : List A) → count p (xs ++ ys) ≡ count p xs + count p ys
  unfolding count
  count-append p [] ys = omega arith
  count-append p (x ∷ xs) ys = omega (arith, count-append p xs ys)

  -- A deletion removes every row of its test, and keeps those of a test that excludes it.
  pub count-delete_self : (p : A → Bool) (rs : List A) → count p (delete p rs) ≡ 0
  unfolding count delete
  count-delete_self p [] = refl
  count-delete_self p (r ∷ rs) = ground (arith, count-delete_self p rs)

  pub count-delete_disjoint :
      (p q : A → Bool) (rs : List A)
      → ((r : A) → p r ≡ true → q r ≡ false)
      → count q (delete p rs) ≡ count q rs
  unfolding count delete
  count-delete_disjoint p q [] h = refl
  count-delete_disjoint p q (r ∷ rs) h = ground (arith, h r, count-delete_disjoint p q rs h)
