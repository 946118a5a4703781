-- ===== src/Sieve/Literals.antt =====
-- A string literal of a script holds the text it was made of.
use lightr.Prelude.{
  all_chars, not, ◌||◌, ◌&&◌, ℕ, ◌==◌, if◌then◌else◌, Bool-cases, Text, ◌≡◌, refl, ap, inl, inr,
  Bool, true, false, Option, none, some, [], ◌∷◌, ◌++◌, arith,
}
use mathlib.Core.List.{append_assoc}
use lightr.Sieve.{escape_char, quote, backslash, quote_mark}

pub and-true_left : (a b : Bool) → (a && b) ≡ true → a ≡ true
and-true_left true b h = refl
and-true_left false b h = cc

pub and-true_right : (a b : Bool) → (a && b) ≡ true → b ≡ true
and-true_right true b h = h
and-true_right false b h = cc

abbrev prepend : ℕ → Option (Text × Text) → Option (Text × Text)
prepend c none = none
prepend c (some r) = some (c ∷ r.0, r.1)

-- A character that stands in a quoted string by itself: not NUL, and no line end, of which CR LF may
-- stand there as a pair (RFC 5228, 8.1).
abbrev pub is_safe : ℕ → Bool
is_safe c = not (c == 0 || c == 10 || c == 13)

-- A text of one line without NUL.
unfoldable pub one_line : Text → Bool
unfolding all_chars
one_line t = all_chars is_safe t

-- What was read before: nothing of note, a backslash, or a CR.
pub data Before : Type 0 where
  anywhere : Before
  after_backslash : Before
  after_return : Before

-- The rest of a quoted string as Sieve reads it, and the text behind it: a backslash stands for the
-- character that follows, and a CR wants an LF.
unfoldable pub read_quoted : Before → Text → Option (Text × Text)
read_quoted before [] = none
read_quoted after_backslash (c ∷ s) =
    let rest = read_quoted anywhere s in if is_safe c then prepend c rest else none
read_quoted after_return (c ∷ s) =
    let rest = read_quoted anywhere s in if c == 10 then prepend c rest else none
read_quoted anywhere (c ∷ s) = elim (c == quote_mark) [
  | true ↦ some ([], s)
  | false ↦ elim (c == backslash) [
    | true ↦ read_quoted after_backslash s
    | false ↦ elim (c == 13) [
      | true ↦ prepend c (read_quoted after_return s)
      | false ↦ elim (is_safe c) [ true ↦ prepend c (read_quoted anywhere s) | false ↦ none ]
    ]
  ]
]

unfoldable pub read_string : Text → Option (Text × Text)
unfolding read_quoted
read_string [] = none
read_string (c ∷ s) = if c == quote_mark then read_quoted anywhere s else none

safe-13 : (c : ℕ) → is_safe c ≡ true → (c == 13) ≡ false
safe-13 c h = ground (arith, h)

read_quoted-escape :
    (v rest : Text)
    → one_line v ≡ true
    → read_quoted anywhere (escape_char quote_mark (escape_char backslash v) ++ (quote_mark ∷ rest))
      ≡ some (v, rest)
unfolding read_quoted escape_char one_line
read_quoted-escape [] rest h = refl
read_quoted-escape (x ∷ v) rest h =
    let safe : is_safe x ≡ true = and-true_left (is_safe x) (all_chars is_safe v) h in
    let ih = read_quoted-escape v rest (and-true_right (is_safe x) (all_chars is_safe v) h) in
    elim (Bool-cases (x == backslash)) [
      | inl e ↦
          let same : x ≡ backslash = ground (arith, e) in rw e (rw same (ap (prepend backslash) ih))
      | inr e ↦ elim (Bool-cases (x == quote_mark)) [
        | inl f ↦
            let same : x ≡ quote_mark = ground (arith, f) in
            rw e (rw f (rw same (ap (prepend quote_mark) ih)))
        | inr f ↦ rw e (
            rw f (
              rw (f, read_quoted)
                (rw (e, read_quoted)
                  (rw (safe-13 x safe, read_quoted) (rw (safe, read_quoted) (ap (prepend x) ih))))))
      ]
    ]

-- Sieve reads a quoted text of one line as that text, whatever quotes and backslashes it has, and
-- goes on right behind it.
pub read_string-quote :
    (v rest : Text) → one_line v ≡ true → read_string (quote v ++ rest) ≡ some (v, rest)
unfolding read_string quote
read_string-quote v rest h =
    rw (append_assoc (escape_char quote_mark (escape_char backslash v)) (quote_mark ∷ []) rest)
      (read_quoted-escape v rest h)
