-- ===== src/Transfer/Quoting.antt =====
-- Quoting the lines of an mbox file, there and back.
use lightr.Prelude.{
  ℕ, ◌==◌, Bool-cases, All, Text, contains_char, split_on, join, ◌≡◌, refl, inl, inr, false, [],
  ◌∷◌, arith, codes, starts_with, sym, ap, ◌∙◌, List, ◌++◌, map, if◌then◌else◌, Bool, true,
}
use mathlib.Core.Path.{ap₂, subst}
use lightr.Transfer.{
  lines, is_from_line, escape_line, unescape_line, newline, quote_char, escape_from_lines,
  unescape_from_lines,
}

abbrev OneLine : Text → Type 0
OneLine l = contains_char newline l ≡ false

unescape-escape_line : (l : Text) → unescape_line (escape_line l) ≡ l
unfolding escape_line unescape_line is_from_line
unescape-escape_line [] = refl
unescape-escape_line (c ∷ s) = elim (Bool-cases (c == quote_char)) [
  | inl e ↦ elim (Bool-cases (is_from_line s)) [
    | inl f ↦ rw e (rw f (rw e (rw f refl)))
    | inr f ↦ rw e (rw f (rw e (rw f refl)))
  ]
  | inr e ↦ ground (arith, e)
]

escape_line-OneLine : (l : Text) → OneLine l → OneLine (escape_line l)
unfolding escape_line contains_char
escape_line-OneLine l h = ground (arith, h)

split_on-All : (s : Text) → OneLine (split_on newline s).0 × All OneLine (split_on newline s).1
unfolding split_on contains_char
split_on-All [] = (refl, tt)
split_on-All (x ∷ s) = elim (Bool-cases (x == newline)) [
  | inl e ↦ rw e (refl, split_on-All s)
  | inr e ↦ let ih = split_on-All s in rw e (rw e ih.0, ih.1)
]

All-escaped : (ls : List Text) → All OneLine ls → All OneLine (map escape_line ls)
All-escaped [] h = tt
All-escaped (l ∷ ls) h = (escape_line-OneLine l h.0, All-escaped ls h.1)

join-cons :
    (x : ℕ) (l : Text) (ls : List Text)
    → join (newline ∷ []) ((x ∷ l) ∷ ls) ≡ x ∷ join (newline ∷ []) (l ∷ ls)
unfolding join
join-cons x l [] = refl
join-cons x l (k ∷ ks) = refl

join-split_on :
    (s : Text) → join (newline ∷ []) ((split_on newline s).0 ∷ (split_on newline s).1) ≡ s
unfolding split_on join
join-split_on [] = refl
join-split_on (x ∷ s) = elim (Bool-cases (x == newline)) [
  | inl e ↦
      let same : newline ≡ x = ground (arith, e) in
      rw e (rw (sym same) (ap (λ t. newline ∷ t) (join-split_on s)))
  | inr e ↦ rw e (
      join-cons x (split_on newline s).0 (split_on newline s).1 ∙ ap (λ t. x ∷ t) (join-split_on s))
]

split_on-OneLine : (l : Text) → OneLine l → split_on newline l ≡ (l, [])
unfolding split_on contains_char
split_on-OneLine [] h = refl
split_on-OneLine (x ∷ l) h =
    let here : (x == newline) ≡ false = ground (arith, h) in
    let ih = split_on-OneLine l (ground (arith, h)) in rw here (rw ih refl)

split_on-append :
    (l t : Text)
    → OneLine l
    → split_on newline (l ++ (newline ∷ t)) ≡ (l, (split_on newline t).0 ∷ (split_on newline t).1)
unfolding split_on contains_char
split_on-append [] t h = refl
split_on-append (x ∷ l) t h =
    let here : (x == newline) ≡ false = ground (arith, h) in
    let ih = split_on-append l t (ground (arith, h)) in rw here (rw ih refl)

lines-join :
    (l : Text) (ls : List Text)
    → OneLine l
    → All OneLine ls
    → lines (join (newline ∷ []) (l ∷ ls)) ≡ l ∷ ls
unfolding lines join
lines-join l [] h k = rw (split_on-OneLine l h) refl
lines-join l (m ∷ ms) h k =
    rw (split_on-append l (join (newline ∷ []) (m ∷ ms)) h)
      (ap (λ r. l ∷ r) (lines-join m ms k.0 k.1))

lines-escape : (raw : Text) → lines (escape_from_lines raw) ≡ map escape_line (lines raw)
unfolding escape_from_lines
lines-escape raw =
    let all = split_on-All raw in
    unfold lines in
    lines-join (escape_line (split_on newline raw).0) (map escape_line (split_on newline raw).1)
      (escape_line-OneLine (split_on newline raw).0 all.0)
      (All-escaped (split_on newline raw).1 all.1)

map-back : (ls : List Text) → map unescape_line (map escape_line ls) ≡ ls
map-back [] = refl
map-back (l ∷ ls) = ap₂ (λ x y. x ∷ y) (unescape-escape_line l) (map-back ls)

escape_line-quoted : (l : Text) → starts_with (codes "From ") (escape_line l) ≡ false
unfolding escape_line is_from_line starts_with
escape_line-quoted [] = refl
escape_line-quoted (c ∷ s) = elim (Bool-cases (c == quote_char)) [
  | inl e ↦ elim (Bool-cases (is_from_line s)) [
    | inl f ↦ rw e (rw f refl)
    | inr f ↦ let other : (b'F' == c) ≡ false = ground (arith, e) in rw e (rw f (rw other refl))
  ]
  | inr e ↦
      let same : is_from_line (c ∷ s) ≡ starts_with (codes "From ") (c ∷ s) = rw e refl in
      ap (λ b. starts_with (codes "From ") (if b then quote_char ∷ c ∷ s else c ∷ s)) same
      ∙ quoted (starts_with (codes "From ") (c ∷ s)) refl
]
  where
    quoted :
        (b : Bool)
        → starts_with (codes "From ") (c ∷ s) ≡ b
        → starts_with (codes "From ") (if b then quote_char ∷ c ∷ s else c ∷ s) ≡ false
    quoted true h = refl
    quoted false h = h

join-lines : (raw : Text) → join (newline ∷ []) (lines raw) ≡ raw
unfolding lines
join-lines raw = join-split_on raw

All-quoted :
    (ls : List Text) → All (λ l. starts_with (codes "From ") l ≡ false) (map escape_line ls)
All-quoted [] = tt
All-quoted (l ∷ ls) = (escape_line-quoted l, All-quoted ls)

-- Quoting loses nothing, and no line of a quoted message is one that starts a message: a message is
-- read back as it was, and is never taken for two.
pub unescape-escape_from_lines :
    (raw : Text)
    → (unescape_from_lines (escape_from_lines raw) ≡ raw)
      × All (λ l. starts_with (codes "From ") l ≡ false) (lines (escape_from_lines raw))
unfolding unescape_from_lines
unescape-escape_from_lines raw = (
  ap (λ ls. join (newline ∷ []) (map unescape_line ls)) (lines-escape raw)
      ∙ ap (join (newline ∷ [])) (map-back (lines raw))
      ∙ join-lines raw,
  subst (All (λ l. starts_with (codes "From ") l ≡ false)) (sym (lines-escape raw))
      (All-quoted (lines raw)),
)
