-- ===== src/Transfer/Imports.antt =====
-- What the report of an import says of the messages that were handed to the mailbox.
use lightr.Prelude.{
  ℕ, Bool-cases, length, count, Text, text_eq, ◌+◌, ◌≤◌, ◌≡◌, refl, inl, inr, Bool, true, false,
  Option, none, some, List, [], ◌∷◌, ◌++◌, arith, codes, ap, length-append, if◌then◌else◌,
  text_eq_iff, ◌⊎◌, ◌&&◌,
}
use lightr.Transfer.{
  Message, TransferReport, Appender, import_messages, import_each, count_folder, at_limit,
  record_message, record_append, import_one, no_report,
}

abbrev pub is_good : Option Text → Bool
is_good none = true
is_good (some why) = false

-- Whether the mailbox takes a message.
abbrev pub is_taken : Appender → Message → Bool
is_taken append m = is_good (append m)

-- The count of a folder in a report.
unfoldable pub count_of : Text → List (Text × ℕ) → ℕ
count_of folder [] = 0
count_of folder ((f, n) ∷ fs) = (if text_eq f folder then n else 0) + count_of folder fs

text_eq_flip : (a b c : Text) → text_eq a b ≡ true → text_eq a c ≡ text_eq b c
text_eq_flip a b c h = ap (λ x. text_eq x c) ((text_eq_iff a b).0 h)

count_of-count_folder :
    (g folder : Text) (fs : List (Text × ℕ))
    → count_of g (count_folder folder fs) ≡ count_of g fs + (if text_eq folder g then 1 else 0)
unfolding count_of count_folder
count_of-count_folder g folder [] = omega arith
count_of-count_folder g folder ((f, n) ∷ fs) = elim (Bool-cases (text_eq f folder)) [
  | inl e ↦ elim (Bool-cases (text_eq folder g)) [
    | inl h ↦ rw e (rw (text_eq_flip f folder g e) (rw h (omega arith)))
    | inr h ↦ rw e (rw (text_eq_flip f folder g e) (rw h (omega arith)))
  ]
  | inr e ↦ rw e (omega (arith, count_of-count_folder g folder fs))
]

-- Whether a message of the folder is taken.
abbrev pub is_taken_in : Appender → Text → Message → Bool
is_taken_in append folder m = is_taken append m && text_eq m.folder folder

-- Whether the import went on to the end: nothing is left, or the limit is reached.
abbrev pub Ended : Option ℕ → ℕ → List Message → Type 0
Ended limit n rest = (rest ≡ []) ⊎ (limit ≡ some n)

-- The limit of an import, if there is one, is kept.
abbrev pub Within : Option ℕ → ℕ → Type 0
Within none n = Unit
Within (some limit) n = n ≤ limit

record Accounts (append : Appender) (limit : Option ℕ) (ms : List Message) (r r' : TransferReport)
    (handed : List Message) : Type 0 where
  landed : r'.messages ≡ r.messages + count (is_taken append) handed
  failed : r'.messages + length r'.failures ≡ r.messages + length r.failures + length handed
  by_folder :
      (g : Text)
      → count_of g r'.folders ≡ count_of g r.folders + count (is_taken_in append g) handed
  within : Within limit r'.messages
  left : (rest : List Message) × (ms ≡ handed ++ rest) × Ended limit r'.messages rest

nothing-Accounts :
    (append : Appender) (limit : Option ℕ) (ms : List Message) (r : TransferReport)
    → Within limit r.messages
    → Ended limit r.messages ms
    → Accounts append limit ms r r []
unfolding count
nothing-Accounts append limit ms r w ended = record {
  landed = omega arith;
  failed = omega arith;
  by_folder = λ g. omega arith;
  within = w;
  left = (ms, refl, ended);
}

-- One message more in front, by the answer of the mailbox.
cons-Accounts :
    (append : Appender) (limit : Option ℕ) (m : Message) (ms : List Message) (r r' : TransferReport)
    (handed : List Message) (a : Option Text)
    → append m ≡ a
    → Accounts append limit ms (record_append m a r) r' handed
    → Accounts append limit (m ∷ ms) r r' (m ∷ handed)
unfolding count record_message
cons-Accounts append limit m ms r r' handed none e h = record {
  landed = rw e (omega (arith, h.landed));
  failed = omega (arith, h.failed);
  by_folder = λ g. elim (Bool-cases (text_eq m.folder g)) [
    | inl f ↦
        rw e (
          rw f (omega (arith, h.by_folder g, rw f at (count_of-count_folder g m.folder r.folders))))
    | inr f ↦
        rw e (
          rw f (omega (arith, h.by_folder g, rw f at (count_of-count_folder g m.folder r.folders))))
  ];
  within = h.within;
  left = (h.left.0, ap (λ xs. m ∷ xs) h.left.1, h.left.2);
}
cons-Accounts append limit m ms r r' handed (some why) e h = record {
  landed = rw e (omega (arith, h.landed));
  failed =
      omega
        (arith, h.failed, length-append {0} r.failures ((m.folder ++ (codes ": " ++ why)) ∷ []));
  by_folder = λ g. rw e (omega (arith, h.by_folder g));
  within = h.within;
  left = (h.left.0, ap (λ xs. m ∷ xs) h.left.1, h.left.2);
}

record_append-Within :
    (limit : Option ℕ) (m : Message) (a : Option Text) (r : TransferReport)
    → Within limit r.messages
    → at_limit limit r ≡ false
    → Within limit (record_append m a r).messages
unfolding record_message
record_append-Within none m a r w e = tt
record_append-Within (some n) m none r w e = ground (arith, e)
record_append-Within (some n) m (some why) r w e = w

limit_met :
    (limit : Option ℕ) (r : TransferReport)
    → Within limit r.messages
    → at_limit limit r ≡ true
    → limit ≡ some r.messages
limit_met none r w e = cc
limit_met (some n) r w e = let same : n ≡ r.messages = ground (arith, w, e) in ap some same

import_each-Accounts :
    (append : Appender) (limit : Option ℕ) (ms : List Message) (r : TransferReport)
    → Within limit r.messages
    → Accounts append limit ms r
        (import_each append false limit ms r).0
        (import_each append false limit ms r).1
unfolding import_each import_one
import_each-Accounts append limit [] r w = nothing-Accounts append limit [] r w (inl refl)
import_each-Accounts append limit (m ∷ ms) r w = elim (Bool-cases (at_limit limit r)) [
  | inl e ↦ rw e (nothing-Accounts append limit (m ∷ ms) r w (inr (limit_met limit r w e)))
  | inr e ↦
      let next = record_append m (append m) r in
      let ih =
        import_each-Accounts append limit ms next (record_append-Within limit m (append m) r w e) in
      rw e (
        cons-Accounts append limit m ms r (import_each append false limit ms next).0
          (import_each append false limit ms next).1 (append m) refl ih)
]

-- The report of an import, the messages that it handed to the mailbox, and the limit: what is handed
-- over are the first messages, all of them unless the limit is reached; it counts as moved exactly
-- those that the mailbox took, in all and for each folder, and as failures the others; and it moves
-- no more than the limit.
pub import_messages-accounts :
    (append : Appender) (limit : Option ℕ) (ms : List Message)
    → let report = (import_messages append false limit ms).0 in
      let handed = (import_messages append false limit ms).1 in
      (report.messages ≡ count (is_taken append) handed)
      × (report.messages + length report.failures ≡ length handed)
      × ((g : Text) → count_of g report.folders ≡ count (is_taken_in append g) handed)
      × Within limit report.messages
      × ((rest : List Message) × (ms ≡ handed ++ rest) × Ended limit report.messages rest)
unfolding import_messages count_of
import_messages-accounts append limit ms =
    let h = import_each-Accounts append limit ms no_report (start limit) in
    (
      omega (arith, h.landed),
      omega (arith, h.failed),
      λ g. omega (arith, h.by_folder g),
      h.within,
      h.left,
    )
  where
    start : (l : Option ℕ) → Within l 0
    start none = tt
    start (some n) = omega arith
