-- ===== src/Queue/Rows.antt =====
-- How the statements of `Queue` act on the row of one id.
use lightr.Prelude.{
  leb, ◌==◌, if◌then◌else◌, Bool-cases, take, All, All-take, select, first, update, delete, count,
  insert_by, order_by, All-select, All-insert_by, ℕ, zero, suc, ◌≡◌, refl, ◌⊎◌, inl, inr, Bool,
  true, false, ◌&&◌, Option, none, some, [], ◌∷◌, ◌++◌, arith,
}
use lightr.Queue.{Uuid, Row, Table, has_id}

-- The row with the id `i`.
abbrev pub row_of : Uuid → Table → Option Row
row_of i t = first (has_id i) t

-- No row has the id `i`.
abbrev pub IsAbsent : Uuid → Table → Type 0
IsAbsent i t = All (λ x. (x.id == i) ≡ false) t

-- The primary key: no two rows have one id.
abbrev pub IsKeyed : Table → Type 0
IsKeyed [] = Unit
IsKeyed (r ∷ t) = IsAbsent r.id t × IsKeyed t

abbrev pub apply_if : (Row → Bool) → (Row → Row) → Option Row → Option Row
apply_if p f none = none
apply_if p f (some r) = some (if p r then f r else r)

module _ (f : Row → Row) (keeps : (r : Row) → (f r).id ≡ r.id) where
  -- An update that keeps the ids acts on each row by itself.
  pub row_of-update :
      (p : Row → Bool) (i : Uuid) (t : Table) → row_of i (update p f t) ≡ apply_if p f (row_of i t)
  unfolding first update
  row_of-update p i [] = refl
  row_of-update p i (r ∷ t) = ground (arith, keeps r, row_of-update p i t)

  IsAbsent-update :
      (p : Row → Bool) (i : Uuid) (t : Table) → IsAbsent i t → IsAbsent i (update p f t)
  unfolding update
  IsAbsent-update p i [] h = tt
  IsAbsent-update p i (r ∷ t) h = (ground (arith, keeps r), IsAbsent-update p i t h.1)

  pub IsKeyed-update : (p : Row → Bool) (t : Table) → IsKeyed t → IsKeyed (update p f t)
  unfolding update
  IsKeyed-update p [] h = tt
  IsKeyed-update p (r ∷ t) h = elim (Bool-cases (p r)) [
    | inl e ↦ rw (e, keeps) (IsAbsent-update p r.id t h.0, IsKeyed-update p t h.1)
    | inr e ↦ rw e (IsAbsent-update p r.id t h.0, IsKeyed-update p t h.1)
  ]

pub IsKeyed-select : (p : Row → Bool) (t : Table) → IsKeyed t → IsKeyed (select p t)
unfolding select
IsKeyed-select p [] h = tt
IsKeyed-select p (r ∷ t) h = elim (Bool-cases (p r)) [
  | inl e ↦ rw e (All-select (λ x. (x.id == r.id) ≡ false) p t h.0, IsKeyed-select p t h.1)
  | inr e ↦ rw e (IsKeyed-select p t h.1)
]

pub ==_comm : (a b : ℕ) → (a == b) ≡ false → (b == a) ≡ false
==_comm a b h = ground arith

IsKeyed-insert_by :
    (key : Row → ℕ) (r : Row) (t : Table)
    → IsAbsent r.id t
    → IsKeyed t
    → IsKeyed (insert_by key r t)
unfolding insert_by
IsKeyed-insert_by key r [] h k = (tt, tt)
IsKeyed-insert_by key r (x ∷ t) h k = elim (Bool-cases (leb (key r) (key x))) [
  | inl e ↦ rw e (h, k)
  | inr e ↦ rw e (
    All-insert_by (λ y. (y.id == x.id) ≡ false) key r t (==_comm x.id r.id h.0) k.0,
    IsKeyed-insert_by key r t h.1 k.1,
  )
]

pub IsKeyed-order_by : (key : Row → ℕ) (t : Table) → IsKeyed t → IsKeyed (order_by key t)
unfolding order_by
IsKeyed-order_by key [] h = tt
IsKeyed-order_by key (r ∷ t) h =
    IsKeyed-insert_by key r (order_by key t) (absent t h.0) (IsKeyed-order_by key t h.1)
  where
    absent : (xs : Table) → IsAbsent r.id xs → IsAbsent r.id (order_by key xs)
    absent [] a = tt
    absent (x ∷ xs) a =
        All-insert_by (λ y. (y.id == r.id) ≡ false) key x (order_by key xs) a.0 (absent xs a.1)

pub IsKeyed-take : (n : ℕ) (t : Table) → IsKeyed t → IsKeyed (take n t)
IsKeyed-take zero t h = tt
IsKeyed-take (suc n) [] h = tt
IsKeyed-take (suc n) (r ∷ t) h =
    (All-take (λ x. (x.id == r.id) ≡ false) n t h.0, IsKeyed-take n t h.1)

-- Under the primary key each row is the row of its id.
pub row_of_self : (t : Table) → IsKeyed t → All (λ r. row_of r.id t ≡ some r) t
unfolding first
row_of_self [] h = tt
row_of_self (x ∷ t) h = (ground arith, behind t h.0 (row_of_self t h.1))
  where
    behind :
        (rs : Table)
        → IsAbsent x.id rs
        → All (λ r. row_of r.id t ≡ some r) rs
        → All (λ r. row_of r.id (x ∷ t) ≡ some r) rs
    behind [] a b = tt
    behind (r ∷ rs) a b = (ground arith, behind rs a.1 b.1)

-- The row that an update by id and test meets is counted.
pub count-pos :
    (p : Row → Bool) (i : Uuid) (t : Table) (r : Row)
    → row_of i t ≡ some r
    → p r ≡ true
    → (n : ℕ) × (count p t ≡ suc n)
unfolding first count
count-pos p i [] r h k = cc
count-pos p i (x ∷ t) r h k = elim (Bool-cases (x.id == i)) [
  | inl e ↦ (count p t, ground arith)
  | inr e ↦
      let rest = count-pos p i t r (ground arith) k in
      elim (Bool-cases (p x)) [
        | inl q ↦ (suc rest.0, ground arith)
        | inr q ↦ (rest.0, ground arith)
      ]
]

pub row_of-id : (i : Uuid) (t : Table) (r : Row) → row_of i t ≡ some r → (r.id == i) ≡ true
unfolding first
row_of-id i [] r h = cc
row_of-id i (x ∷ t) r h = elim (Bool-cases (x.id == i)) [
  | inl e ↦ ground arith
  | inr e ↦ row_of-id i t r (ground arith)
]

-- An update that meets only rows of the id `i` leaves the row of another id.
pub row_of-update_ne :
    (p : Row → Bool) (f : Row → Row) (i j : Uuid) (t : Table)
    → ((r : Row) → p r ≡ true → (r.id == i) ≡ true)
    → ((r : Row) → (f r).id ≡ r.id)
    → (j == i) ≡ false
    → row_of j (update p f t) ≡ row_of j t
unfolding first update
row_of-update_ne p f i j [] only keeps ne = refl
row_of-update_ne p f i j (x ∷ t) only keeps ne =
    ground (arith, only x, keeps x, row_of-update_ne p f i j t only keeps ne)

pub row_of-absent : (i : Uuid) (t : Table) → IsAbsent i t → row_of i t ≡ none
unfolding first
row_of-absent i [] h = refl
row_of-absent i (x ∷ t) h = ground (arith, row_of-absent i t h.1)

-- A deletion leaves a row or removes it.
pub row_of-delete :
    (p : Row → Bool) (i : Uuid) (t : Table)
    → IsKeyed t
    → (row_of i (delete p t) ≡ none) ⊎ (row_of i (delete p t) ≡ row_of i t)
unfolding first delete
row_of-delete p i [] k = inl refl
row_of-delete p i (x ∷ t) k = elim (Bool-cases (x.id == i)) [
  | inl e ↦ elim (Bool-cases (p x)) [
    | inl q ↦ inl (rw q (row_of-absent i (delete p t) (gone t k.0 e)))
    | inr q ↦ inr (ground arith)
  ]
  | inr e ↦ elim (row_of-delete p i t k.1) [
    | inl h ↦ inl (ground arith)
    | inr h ↦ inr (ground arith)
  ]
]
  where
    gone : (rs : Table) → IsAbsent x.id rs → (x.id == i) ≡ true → IsAbsent i (delete p rs)
    gone [] a e = tt
    gone (r ∷ rs) a e = elim (Bool-cases (p r)) [
      | inl q ↦ rw q (gone rs a.1 e)
      | inr q ↦ rw q (ground (arith, a.0, e), gone rs a.1 e)
    ]

IsAbsent-delete : (p : Row → Bool) (i : Uuid) (t : Table) → IsAbsent i t → IsAbsent i (delete p t)
unfolding delete
IsAbsent-delete p i [] h = tt
IsAbsent-delete p i (x ∷ t) h = elim (Bool-cases (p x)) [
  | inl q ↦ rw q (IsAbsent-delete p i t h.1)
  | inr q ↦ rw q (h.0, IsAbsent-delete p i t h.1)
]

pub IsKeyed-delete : (p : Row → Bool) (t : Table) → IsKeyed t → IsKeyed (delete p t)
unfolding delete
IsKeyed-delete p [] k = tt
IsKeyed-delete p (x ∷ t) k = elim (Bool-cases (p x)) [
  | inl q ↦ rw q (IsKeyed-delete p t k.1)
  | inr q ↦ rw q (IsAbsent-delete p x.id t k.0, IsKeyed-delete p t k.1)
]

pub row_of-append :
    (i : Uuid) (t : Table) (r : Row)
    → row_of i (t ++ r ∷ [])
      ≡ elim (row_of i t) [ none ↦ (if r.id == i then some r else none) | some x ↦ some x ]
unfolding first
row_of-append i [] r = ground arith
row_of-append i (x ∷ t) r = elim (Bool-cases (x.id == i)) [
  | inl e ↦ rw e refl
  | inr e ↦ rw e (row_of-append i t r)
]

pub IsKeyed-append : (t : Table) (r : Row) → IsKeyed t → IsAbsent r.id t → IsKeyed (t ++ r ∷ [])
IsKeyed-append [] r k a = (tt, tt)
IsKeyed-append (x ∷ t) r k a = (absent t k.0, IsKeyed-append t r k.1 a.1)
  where
    absent : (xs : Table) → IsAbsent x.id xs → IsAbsent x.id (xs ++ r ∷ [])
    absent [] b = (==_comm x.id r.id a.0, tt)
    absent (y ∷ ys) b = (b.0, absent ys b.1)

-- An update by id and test meets a row under the primary key only if the row of the id passes.
pub count-suc :
    (test : Row → Bool) (i : Uuid) (t : Table) (n : ℕ)
    → IsKeyed t
    → count (λ r. r.id == i && test r) t ≡ suc n
    → (r : Row) × (row_of i t ≡ some r) × (test r ≡ true)
unfolding first count
count-suc test i [] n k h = absurd (omega arith)
count-suc test i (x ∷ t) n k h = elim (Bool-cases (x.id == i)) [
  | inl e ↦ elim (Bool-cases (test x)) [
    | inl q ↦ (x, ground arith, q)
    | inr q ↦ absurd (ground (arith, none_left t k.0 e))
  ]
  | inr e ↦ let found = count-suc test i t n k.1 (ground arith) in (found.0, ground arith, found.2)
]
  where
    none_left :
        (rs : Table)
        → IsAbsent x.id rs
        → (x.id == i) ≡ true
        → count (λ r. r.id == i && test r) rs ≡ 0
    none_left [] a e = refl
    none_left (r ∷ rs) a e = ground (arith, a.0, e, none_left rs a.1 e)
