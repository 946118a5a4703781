-- ===== src/Sieve/Numbers.antt =====
-- `int` and `float` of a text, as src/lightr/dovecot/sieve.py calls them, for digits of ASCII.
use lightr.Prelude.{
  ℕ, ◌==◌, if◌then◌else◌, Text, codes, one_of, lower, strip, ◌+◌, ◌-◌, ◌*◌, Bool, true, false, ◌&&◌,
  ◌||◌, Option, none, some, [], ◌∷◌, is_digit,
}
use mathlib.Core.Option

abbrev underscore : ℕ
underscore = 95

-- The digits of `int`, with single underscores between them; the first argument says whether the
-- last character was a digit.
int_digits : Bool → ℕ → Text → Option ℕ
int_digits true n [] = some n
int_digits false n [] = none
int_digits last n (c ∷ s) = elim (is_digit c) [
  | true ↦ int_digits true (n * 10 + (c - 48)) s
  | false ↦ elim (c == underscore && last) [ true ↦ int_digits false n s | false ↦ none ]
]

-- A sign, and the text behind it.
signed : Text → Bool × Text
signed [] = (false, [])
signed (c ∷ s) = if c == 45 then (true, s) else if c == 43 then (false, s) else (false, c ∷ s)

-- `int(text)`: whether it is negative, and its size
unfoldable pub parse_int : Text → Option (Bool × ℕ)
unfolding strip signed int_digits
parse_int t = let s = signed (strip t) in Option.map (λ n. (s.0, n)) (int_digits false 0 s.1)

-- What `float` has read of a number: nothing, digits, a point with no digits before it, a point
-- behind digits, digits behind a point, the `e`, its sign, and its digits; `_gap` is behind an
-- underscore, which a digit must follow.
pub data FloatState : Type 0 where
  start whole whole_gap bare_point point fraction fraction_gap : FloatState
  mark mark_sign power power_gap : FloatState

float_done : FloatState → Bool
float_done whole = true
float_done point = true
float_done fraction = true
float_done power = true
float_done s = false

abbrev after_digit : FloatState → FloatState
after_digit start = whole
after_digit whole = whole
after_digit whole_gap = whole
after_digit bare_point = fraction
after_digit point = fraction
after_digit fraction = fraction
after_digit fraction_gap = fraction
after_digit mark = power
after_digit mark_sign = power
after_digit power = power
after_digit power_gap = power

abbrev after_point : FloatState → Option FloatState
after_point start = some bare_point
after_point whole = some point
after_point s = none

abbrev after_underscore : FloatState → Option FloatState
after_underscore whole = some whole_gap
after_underscore fraction = some fraction_gap
after_underscore power = some power_gap
after_underscore s = none

abbrev after_mark : FloatState → Option FloatState
after_mark whole = some mark
after_mark point = some mark
after_mark fraction = some mark
after_mark s = none

abbrev after_sign : FloatState → Option FloatState
after_sign mark = some mark_sign
after_sign s = none

float_step : ℕ → FloatState → Option FloatState
float_step c s =
    if is_digit c
    then some (after_digit s)
    else if c == 46
    then after_point s
    else if c == underscore
    then after_underscore s
    else if c == 101
    then after_mark s
    else if c == 43 || c == 45
    then after_sign s
    else none

float_digits : FloatState → Text → Bool
unfolding float_done float_step
float_digits st [] = float_done st
float_digits st (c ∷ s) = elim (float_step c st) [ none ↦ false | some st' ↦ float_digits st' s ]

-- Whether `float(text)` succeeds.
unfoldable pub is_float : Text → Bool
unfolding strip lower one_of signed float_digits
is_float t =
    let s = (signed (lower (strip t))).1 in
    one_of s (codes "inf" ∷ codes "infinity" ∷ codes "nan" ∷ []) || float_digits start s
