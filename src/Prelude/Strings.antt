-- ===== src/Prelude/Strings.antt =====
-- Python's `str` as the list of its code points, and the methods of `str` that the program calls.
-- `lower` maps A-Z; the letters outside ASCII keep their case. `is_space` is all of `str.isspace`.
use Prim.Native.Nat.{◌*◌, ◌-◌, ◌/◌, ◌%◌, ℕ, zero, suc, ◌+◌}
use Prim.Native.Char.{code}
use Prim.Native.String.{String}
use lightr.Prelude.Lists.{All}
use mathlib.Core.Path.{ap, ap₂, ◌≡◌, refl}
use mathlib.Core.Logic.{◌↔◌}
use mathlib.Core.Bool.{Bool, true, false, ◌&&◌, ◌||◌}
use mathlib.Core.Option
use mathlib.Core.Option.{Option, none, some}
use mathlib.Core.List.{List, [], ◌∷◌, ◌++◌}
use native.Mathlib.Omega.{arith}
use lightr.Prelude.Tests.{ltb, leb, ◌==◌, if◌then◌else◌}

abbrev pub Text : Type 0
Text = List ℕ

-- The code points of a literal.
abbrev pub codes : String → Text
codes String.[] = []
codes (String.◌∷◌ c s) = code c ∷ codes s

unfoldable pub text_eq : Text → Text → Bool
text_eq [] [] = true
text_eq [] (b ∷ t) = false
text_eq (a ∷ s) [] = false
text_eq (a ∷ s) (b ∷ t) = a == b && text_eq s t

pub text_eq_iff : (s t : Text) → (text_eq s t ≡ true) ↔ (s ≡ t)
unfolding text_eq
text_eq_iff [] [] = (λ _. refl, λ _. refl)
text_eq_iff [] (b ∷ t) = (λ e. cc, λ e. cc)
text_eq_iff (a ∷ s) [] = (λ e. cc, λ e. cc)
text_eq_iff (a ∷ s) (b ∷ t) = ground (arith, text_eq_iff s t)

pub text_eq_self : (s : Text) → text_eq s s ≡ true
text_eq_self s = (text_eq_iff s s).1 refl

-- `x in (…)` over a tuple or a set of strings.
unfoldable pub one_of : Text → List Text → Bool
unfolding text_eq
one_of s [] = false
one_of s (t ∷ ts) = text_eq s t || one_of s ts

unfoldable pub is_empty : Text → Bool
is_empty [] = true
is_empty (c ∷ s) = false

unfoldable pub lower_char : ℕ → ℕ
lower_char c = if leb 65 c && leb c 90 then c + 32 else c

-- `str.lower`
unfoldable pub lower : Text → Text
unfolding lower_char
lower [] = []
lower (c ∷ s) = lower_char c ∷ lower s

-- `str.isspace` of one character
unfoldable pub is_space : ℕ → Bool
is_space c =
    leb 9 c && leb c 13
    || leb 28 c && leb c 32
    || c == 0x85
    || c == 0xa0
    || c == 0x1680
    || leb 0x2000 c && leb c 0x200a
    || c == 0x2028
    || c == 0x2029
    || c == 0x202f
    || c == 0x205f
    || c == 0x3000

unfoldable pub lstrip_by : (ℕ → Bool) → Text → Text
lstrip_by p [] = []
lstrip_by p (c ∷ s) = if p c then lstrip_by p s else c ∷ s

unfoldable pub rstrip_by : (ℕ → Bool) → Text → Text
unfolding is_empty
rstrip_by p [] = []
rstrip_by p (c ∷ s) = let rest = rstrip_by p s in if p c && is_empty rest then [] else c ∷ rest

-- `str.strip(chars)`, the characters given by their test
unfoldable pub strip_by : (ℕ → Bool) → Text → Text
unfolding lstrip_by rstrip_by
strip_by p s = rstrip_by p (lstrip_by p s)

-- `str.strip()`
unfoldable pub strip : Text → Text
unfolding strip_by is_space
strip = strip_by is_space

-- `str.split(c, 1)`: the text before and behind the first `c`, if there is one
unfoldable pub cut : ℕ → Text → Option (Text × Text)
cut c [] = none
cut c (x ∷ s) =
    if x == c then some ([], s) else Option.map (λ (p : Text × Text). (x ∷ p.0, p.1)) (cut c s)

unfoldable pub contains_char : ℕ → Text → Bool
contains_char c [] = false
contains_char c (x ∷ s) = x == c || contains_char c s

-- `str.startswith`
unfoldable pub starts_with : Text → Text → Bool
starts_with [] s = true
starts_with (p ∷ ps) [] = false
starts_with (p ∷ ps) (c ∷ s) = p == c && starts_with ps s

-- `p in s` for two strings
unfoldable pub contains : Text → Text → Bool
unfolding starts_with
contains p [] = starts_with p []
contains p (c ∷ s) = starts_with p (c ∷ s) || contains p s

-- `str.endswith`
unfoldable pub ends_with : Text → Text → Bool
unfolding text_eq
ends_with p [] = text_eq p []
ends_with p (c ∷ s) = text_eq p (c ∷ s) || ends_with p s

-- `str.split(c)`, the first piece and the others
unfoldable pub split_on : ℕ → Text → Text × List Text
split_on c [] = ([], [])
split_on c (x ∷ s) =
    let rest = split_on c s in if x == c then ([], rest.0 ∷ rest.1) else (x ∷ rest.0, rest.1)

-- `sep.join(parts)`
unfoldable pub join : Text → List Text → Text
join sep [] = []
join sep (t ∷ []) = t
join sep (t ∷ u ∷ us) = t ++ (sep ++ join sep (u ∷ us))

abbrev pub is_digit : ℕ → Bool
is_digit c = leb 48 c && leb c 57

unfoldable pub all_chars : (ℕ → Bool) → Text → Bool
all_chars p [] = true
all_chars p (c ∷ s) = p c && all_chars p s

-- The number of some digits, behind one that was read.
unfoldable pub read_number : ℕ → Text → ℕ
read_number n [] = n
read_number n (c ∷ s) = read_number (n * 10 + (c - 48)) s

-- `str.partition(c)`: the text before and behind the first `c`, which is empty if there is none.
unfoldable pub partition : ℕ → Text → Text × Text
partition c [] = ([], [])
partition c (x ∷ s) = let rest = partition c s in if x == c then ([], s) else (x ∷ rest.0, rest.1)

-- The text before the first character that passes the test.
unfoldable pub until : (ℕ → Bool) → Text → Text
until p [] = []
until p (x ∷ s) = let rest = until p s in if p x then [] else x ∷ rest

-- `s <= t`, by the code points
unfoldable pub text_le : Text → Text → Bool
text_le [] t = true
text_le (a ∷ s) [] = false
text_le (a ∷ s) (b ∷ t) = ltb a b || (a == b && text_le s t)

decimal_by : ℕ → ℕ → Text
decimal_by zero n = []
decimal_by (suc f) n =
    let rest = decimal_by f (n / 10) in
    if ltb n 10 then (48 + n) ∷ [] else rest ++ (48 + n % 10) ∷ []

-- `str` of a number; a number has at most as many digits as it counts, and one.
unfoldable pub decimal : ℕ → Text
unfolding decimal_by
decimal n = decimal_by (suc n) n

lstrip_by_id : (p : ℕ → Bool) (s : Text) → All (λ c. p c ≡ false) s → lstrip_by p s ≡ s
unfolding lstrip_by
lstrip_by_id p [] h = refl
lstrip_by_id p (c ∷ s) h = rw (h.0) refl

rstrip_by_id : (p : ℕ → Bool) (s : Text) → All (λ c. p c ≡ false) s → rstrip_by p s ≡ s
unfolding rstrip_by
rstrip_by_id p [] h = refl
rstrip_by_id p (c ∷ s) h = rw (h.0) (ap (λ t. c ∷ t) (rstrip_by_id p s h.1))

-- A text with nothing to strip is left as it is.
pub strip_by_id : (p : ℕ → Bool) (s : Text) → All (λ c. p c ≡ false) s → strip_by p s ≡ s
unfolding strip_by
strip_by_id p s h = rw (lstrip_by_id p s h) (rstrip_by_id p s h)

pub lower_id : (s : Text) → All (λ c. lower_char c ≡ c) s → lower s ≡ s
unfolding lower
lower_id [] h = refl
lower_id (c ∷ s) h = rw (h.0) (ap (λ t. c ∷ t) (lower_id s h.1))

pub lower_idem : (s : Text) → lower (lower s) ≡ lower s
unfolding lower
lower_idem [] = refl
lower_idem (c ∷ s) = ap₂ (λ d t. d ∷ t) (char c) (lower_idem s)
  where
    char : (d : ℕ) → lower_char (lower_char d) ≡ lower_char d
    char d = ground arith
