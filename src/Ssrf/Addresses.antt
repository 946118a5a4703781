-- ===== src/Ssrf/Addresses.antt =====
-- `ip_address` of Python's `ipaddress`: the addresses that src/lightr/webhooks/ssrf.py judges.
use lightr.Prelude.{
  ℕ, leb, ◌==◌, if◌then◌else◌, length, Text, cut, contains_char, split_on, ◌+◌, ◌-◌, ◌*◌, ◌^◌, Bool,
  true, false, ◌&&◌, not, Option, none, some, List, [], ◌∷◌, is_digit, all_chars, read_number,
}
use mathlib.Core.Option

pub data IpAddress : Type 0 where
  v4 : ℕ → IpAddress
  v6 : ℕ → IpAddress

abbrev leads_zero : Text → Bool
leads_zero [] = true
leads_zero (c ∷ []) = false
leads_zero (c ∷ d ∷ s) = c == 48

-- One to three digits, with no zero in front, up to 255.
octet : Text → Option ℕ
unfolding all_chars read_number
octet t =
    if not (leads_zero t) && all_chars is_digit t && leb (length t) 3 && leb (read_number 0 t) 255
    then some (read_number 0 t)
    else none

abbrev four : Option ℕ → Option ℕ → Option ℕ → Option ℕ → Option ℕ
four (some a) (some b) (some c) (some d) = some (((a * 256 + b) * 256 + c) * 256 + d)
four a b c d = none

parse_octets : List Text → Option ℕ
unfolding octet
parse_octets (a ∷ b ∷ c ∷ d ∷ []) = four (octet a) (octet b) (octet c) (octet d)
parse_octets ts = none

unfoldable pub parse_v4 : Text → Option ℕ
unfolding parse_octets split_on
parse_v4 t = let parts = split_on b'.' t in parse_octets (parts.0 ∷ parts.1)

hex_digit : ℕ → Option ℕ
hex_digit c =
    if leb 48 c && leb c 57
    then some (c - 48)
    else if leb 97 c && leb c 102
    then some (c - 87)
    else if leb 65 c && leb c 70
    then some (c - 55)
    else none

hex_number : ℕ → Text → Option ℕ
unfolding hex_digit
hex_number n [] = some n
hex_number n (c ∷ s) = elim (hex_digit c) [ none ↦ none | some d ↦ hex_number (n * 16 + d) s ]

-- One to four hexadecimal digits.
hextet : Text → Option ℕ
unfolding hex_number
hextet [] = none
hextet (c ∷ s) = if leb (length (c ∷ s)) 4 then hex_number 0 (c ∷ s) else none

-- The value of some groups and how many they are.
hextets : List Text → Option (ℕ × ℕ)
unfolding hextet
hextets [] = some (0, 0)
hextets (t ∷ ts) = elim (hextet t) [
  | none ↦ none
  | some h ↦ Option.map (λ (r : ℕ × ℕ). (h * 2 ^ (16 * r.1) + r.0, r.1 + 1)) (hextets ts)
]

-- The last group, which may be an address of version 4, as two groups.
with_v4 : List Text → Option (List Text × List ℕ)
unfolding contains_char parse_v4
with_v4 [] = some ([], [])
with_v4 (t ∷ []) =
    if contains_char b'.' t then Option.map (λ n. ([], n ∷ [])) (parse_v4 t) else some (t ∷ [], [])
with_v4 (t ∷ u ∷ us) = Option.map (λ (r : List Text × List ℕ). (t ∷ r.0, r.1)) (with_v4 (u ∷ us))

-- Groups with an address of version 4 at their end: their value and how many groups they are.
groups : List Text → Option (ℕ × ℕ)
unfolding with_v4 hextets
groups ts = elim (with_v4 ts) [
  | none ↦ none
  | some (front, []) ↦ hextets front
  | some (front, n ∷ ns) ↦ Option.map (λ (r : ℕ × ℕ). (r.0 * 2 ^ 32 + n, r.1 + 2)) (hextets front)
]

-- The groups of a text; an empty text has none.
pieces : Text → List Text
unfolding split_on
pieces [] = []
pieces (c ∷ s) = let parts = split_on b':' (c ∷ s) in parts.0 ∷ parts.1

-- The text before and behind the first `::`.
cut_double : Text → Option (Text × Text)
cut_double [] = none
cut_double (c ∷ []) = none
cut_double (c ∷ d ∷ s) =
    let rest = cut_double (d ∷ s) in
    if c == b':' && d == b':'
    then some ([], s)
    else Option.map (λ (p : Text × Text). (c ∷ p.0, p.1)) rest

abbrev whole_v6 : Option (ℕ × ℕ) → Option ℕ
whole_v6 none = none
whole_v6 (some r) = if r.1 == 8 then some r.0 else none

-- `::` stands for one group of zeros or more.
abbrev shortened_v6 : Option (ℕ × ℕ) → Option (ℕ × ℕ) → Option ℕ
shortened_v6 none b = none
shortened_v6 (some a) none = none
shortened_v6 (some a) (some b) =
    if leb (a.1 + b.1) 7 then some (a.0 * 2 ^ (16 * (8 - a.1)) + b.0) else none

-- The part before a zone, which must not be empty if it is there.
without_zone : Text → Option Text
unfolding cut contains_char
without_zone t = elim (cut b'%' t) [
  | none ↦ some t
  | some (address, []) ↦ none
  | some (address, c ∷ zone) ↦ if contains_char b'%' (c ∷ zone) then none else some address
]

unfoldable pub parse_v6 : Text → Option ℕ
unfolding without_zone cut_double groups pieces
parse_v6 t = elim (without_zone t) [
  | none ↦ none
  | some address ↦ elim (cut_double address) [
    | none ↦ whole_v6 (groups (pieces address))
    | some (front, back) ↦ shortened_v6 (hextets (pieces front)) (groups (pieces back))
  ]
]

-- `ip_address`; `none` is its `ValueError`.
unfoldable pub parse_ip : Text → Option IpAddress
unfolding parse_v4 parse_v6
parse_ip t = elim (parse_v4 t) [ some n ↦ some (v4 n) | none ↦ Option.map v6 (parse_v6 t) ]
