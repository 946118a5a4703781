-- ===== src/Ssrf/Urls.antt =====
-- The parts of a URL that src/lightr/webhooks/ssrf.py reads of `urlparse`, for hosts of ASCII. What
-- stands inside brackets is taken as it is.
use lightr.Prelude.{
  ℕ, leb, ◌==◌, if◌then◌else◌, delete, Text, lower, lstrip_by, contains_char, Bool, false, ◌&&◌,
  ◌||◌, not, Option, none, some, [], ◌∷◌, ◌++◌, is_digit, all_chars, read_number, partition, until,
}

-- `str.rpartition(c)[2]`: the text behind the last `c`.
unfoldable pub behind_last : ℕ → Text → Text
unfolding contains_char
behind_last c [] = []
behind_last c (x ∷ s) =
    let rest = behind_last c s in if contains_char c s then rest else if x == c then s else x ∷ s

abbrev is_letter : ℕ → Bool
is_letter c = leb 97 c && leb c 122 || leb 65 c && leb c 90

abbrev is_scheme_char : ℕ → Bool
is_scheme_char c = is_letter c || is_digit c || c == b'+' || c == b'-' || c == b'.'

abbrev starts_letter : Text → Bool
starts_letter [] = false
starts_letter (c ∷ s) = is_letter c

-- The scheme, in small letters, and the text behind it; the scheme is empty if there is none.
unfoldable pub split_scheme : Text → Text × Text
unfolding partition all_chars contains_char lower
split_scheme url =
    let (scheme, rest) = partition b':' url in
    if contains_char b':' url && starts_letter scheme && all_chars is_scheme_char scheme
    then (lower scheme, rest)
    else ([], url)

abbrev ends_netloc : ℕ → Bool
ends_netloc c = c == b'/' || c == b'?' || c == b'#'

unfoldable pub netloc_of : Text → Text
unfolding until
netloc_of [] = []
netloc_of (c ∷ []) = []
netloc_of (c ∷ d ∷ s) = if c == b'/' && d == b'/' then until ends_netloc s else []

pub record Url : Type 0 where
  pub scheme : Text
  pub netloc : Text
  pub hostname : Text
  pub port_text : Text

-- The host and the text of the port of `_hostinfo`.
unfoldable pub host_info : Text → Text × Text
unfolding partition contains_char behind_last
host_info netloc =
    let info = behind_last b'@' netloc in
    let plain = partition b':' info in
    let (host, rest) = partition b']' (partition b'[' info).1 in
    if contains_char b'[' info then (host, (partition b':' rest).1) else plain

-- The host in small letters, but for its zone.
unfoldable pub lower_host : Text → Text
unfolding partition lower contains_char
lower_host host =
    let (name, zone) = partition b'%' host in
    if contains_char b'%' host then lower name ++ (b'%' ∷ zone) else lower name

-- `urlparse`; `none` is the `ValueError` for brackets that do not pair.
unfoldable pub parse_url : Text → Option Url
unfolding lstrip_by delete split_scheme netloc_of host_info lower_host contains_char
parse_url text =
    let url = delete (λ c. c == 9 || c == 10 || c == 13) (lstrip_by (λ c. leb c 32) text) in
    let (scheme, rest) = split_scheme url in
    let netloc = netloc_of rest in
    let (host, port) = host_info netloc in
    if (contains_char b'[' netloc && not (contains_char b']' netloc))
      || (contains_char b']' netloc && not (contains_char b'[' netloc))
    then none
    else some
        (record { scheme = scheme; netloc = netloc; hostname = lower_host host; port_text = port })

-- `parsed.port`: no port, a port, or the `ValueError` of one that is no number up to 65535.
pub data Port : Type 0 where
  no_port : Port
  port : ℕ → Port
  bad_port : Port

unfoldable pub read_port : Text → Port
unfolding all_chars read_number
read_port [] = no_port
read_port (c ∷ s) =
    if all_chars is_digit (c ∷ s) && leb (read_number 0 (c ∷ s)) 65_535
    then port (read_number 0 (c ∷ s))
    else bad_port
