-- ===== src/Queue/Claim.antt =====
-- What `claim` takes from the table.
use lightr.Prelude.{
  leb, ◌==◌, length, All, length-take-le, All-take, All-map, select, All-select, select-All,
  All-order_by, ℕ, ◌≤◌, ◌≡◌, refl, ap, true, false, ◌&&◌, some, [], ◌∷◌, map, arith,
}
use lightr.Queue.{
  Uuid, Time, Row, Table, Message, claimable, take_row, mark_sending, to_model, get, claim,
  claim_one, claim_each, due, due_rows, cons_some,
}
use lightr.Queue.Rows.{
  row_of, IsAbsent, IsKeyed, apply_if, row_of-update, IsKeyed-select, IsKeyed-order_by,
  IsKeyed-take, row_of_self, count-pos, row_of-id,
}

-- The row of this id is `r`, and it is free.
abbrev IsFree : Table → Row → Type 0
IsFree t r = (row_of r.id t ≡ some r) × (claimable r ≡ true)

abbrev pub claimed_from : Time → Row → Message
claimed_from now r = to_model (mark_sending now r)

module _ (now : Time) where
  pub row_of-claim_one :
      (i j : Uuid) (t : Table)
      → row_of j (claim_one now i t).0 ≡ apply_if (take_row i) (mark_sending now) (row_of j t)
  unfolding claim_one mark_sending
  row_of-claim_one i j t = row_of-update (mark_sending now) (λ r. refl) (take_row i) j t

  -- A free row is claimed, and the message says so.
  pub claim_one-free :
      (i : Uuid) (t : Table) (r : Row)
      → row_of i t ≡ some r
      → claimable r ≡ true
      → (claim_one now i t).1 ≡ some (claimed_from now r)
  unfolding claim_one get
  claim_one-free i t r h free =
      let hit : take_row i r ≡ true = unfold take_row in ground (arith, free, row_of-id i t r h) in
      let n = count-pos (take_row i) i t r h hit in
      let row = row_of-claim_one i i t in ground (arith, n.1, row, h, hit)

  -- The claim of one id leaves the other free rows free.
  IsFree-claim_one :
      (i : Uuid) (t : Table) (r : Row)
      → (r.id == i) ≡ false
      → IsFree t r
      → IsFree (claim_one now i t).0 r
  unfolding take_row
  IsFree-claim_one i t r e h = (rw row_of-claim_one (rw (h.0) (rw e refl)), h.1)

  All-IsFree-claim_one :
      (i : Uuid) (t rs : Table)
      → IsAbsent i rs
      → All (IsFree t) rs
      → All (IsFree (claim_one now i t).0) rs
  All-IsFree-claim_one i t [] a h = tt
  All-IsFree-claim_one i t (r ∷ rs) a h =
      (IsFree-claim_one i t r a.0 h.0, All-IsFree-claim_one i t rs a.1 h.1)

  claim_each-IsFree :
      (rs t : Table)
      → IsKeyed rs
      → All (IsFree t) rs
      → (claim_each now (map (λ r. r.id) rs) t).1 ≡ map (claimed_from now) rs
  unfolding claim_each cons_some
  claim_each-IsFree [] t k h = refl
  claim_each-IsFree (r ∷ rs) t k h = rw (claim_one-free r.id t r h.0.0 h.0.1) (
      ap (λ ms. claimed_from now r ∷ ms)
        (claim_each-IsFree rs (claim_one now r.id t).0 k.1
          (All-IsFree-claim_one r.id t rs k.0 h.1)))

  -- A row due for sending.
  abbrev pub IsDue : Row → Type 0
  IsDue r = (claimable r ≡ true) × (r.next_retry ≤ now)

  pub due_rows-IsDue : (limit : ℕ) (t : Table) → All IsDue (due_rows now limit t)
  unfolding due_rows
  due_rows-IsDue limit t =
      let test = λ (r : Row). claimable r && leb r.next_retry now in
      All-take IsDue limit _ (
        All-order_by IsDue _ _
          (All-map (λ r h. ground (arith, h)) (select test t) (select-All test t)))

  due_rows-IsKeyed : (limit : ℕ) (t : Table) → IsKeyed t → IsKeyed (due_rows now limit t)
  unfolding due_rows
  due_rows-IsKeyed limit t k = IsKeyed-take limit _ (IsKeyed-order_by _ _ (IsKeyed-select _ t k))

  due_rows-row_of :
      (limit : ℕ) (t : Table) → IsKeyed t → All (λ r. row_of r.id t ≡ some r) (due_rows now limit t)
  unfolding due_rows
  due_rows-row_of limit t k =
      All-take _ limit _ (All-order_by _ _ _ (All-select _ _ t (row_of_self t k)))

  pub due_rows-IsFree : (limit : ℕ) (t : Table) → IsKeyed t → All (IsFree t) (due_rows now limit t)
  due_rows-IsFree limit t k =
      zip (due_rows now limit t) (due_rows-row_of limit t k) (due_rows-IsDue limit t)
    where
      zip : (rs : Table) → All (λ r. row_of r.id t ≡ some r) rs → All IsDue rs → All (IsFree t) rs
      zip [] a b = tt
      zip (r ∷ rs) a b = ((a.0, b.0.0), zip rs a.1 b.1)

  -- Under the primary key a claim returns the rows that the select finds, each once and in its
  -- order, marked `sending`; they were pending or deferred with their time come, and there are at
  -- most `limit` of them.
  pub claim-IsDue :
      (limit : ℕ) (t : Table)
      → IsKeyed t
      → ((claim now limit t).1 ≡ map (claimed_from now) (due_rows now limit t))
        × All IsDue (due_rows now limit t)
        × (length (due_rows now limit t) ≤ limit)
  unfolding claim due due_rows
  claim-IsDue limit t k = (
    claim_each-IsFree (due_rows now limit t) t (due_rows-IsKeyed limit t k)
        (due_rows-IsFree limit t k),
    due_rows-IsDue limit t,
    (unfold due_rows in length-take-le limit _),
  )
