-- ===== src/Ssrf.antt =====
-- Which URLs the server fetches for a webhook, src/lightr/webhooks/ssrf.py. What a name resolves to
-- is a parameter.
mod Urls
pub mod Addresses
pub mod Reach
mod Examples
use lightr.Prelude.{
  ℕ, ◌==◌, if◌then◌else◌, Text, codes, text_eq, one_of, is_empty, strip, contains_char, zero, suc,
  ◌+◌, ◌*◌, ◌/◌, ◌%◌, ◌^◌, Bool, true, false, ◌&&◌, ◌||◌, not, Option, none, some, List, [], ◌∷◌,
}
use lightr.Ssrf.Urls.{Url, parse_url, Port, no_port, port, bad_port, read_port}
use lightr.Ssrf.Addresses.{IpAddress, v4, v6, parse_ip}

abbrev pub allowed_schemes : List Text
allowed_schemes = codes "http" ∷ codes "https" ∷ []

abbrev pub allowed_ports : List ℕ
allowed_ports = 80 ∷ 443 ∷ 8_080 ∷ 8_443 ∷ 3_000 ∷ 5_000 ∷ 8_000 ∷ 9_000 ∷ []

-- A network of either version: its address, and how many of the low bits are free.
pub data Network : Type 0 where
  network_v4 : ℕ → ℕ → Network
  network_v6 : ℕ → ℕ → Network

-- The first two bytes of an address, the others being zero.
abbrev high_bytes : ℕ → ℕ → ℕ
high_bytes a b = (a * 256 + b) * 2 ^ 16

-- `BLOCKED_NETWORKS`
abbrev pub blocked_networks : List Network
blocked_networks =
    network_v4 0 24
    ∷ network_v4 (high_bytes 10 0) 24
    ∷ network_v4 (high_bytes 127 0) 24
    ∷ network_v4 (high_bytes 169 254) 16
    ∷ network_v4 (high_bytes 172 16) 20
    ∷ network_v4 (high_bytes 192 0) 8
    ∷ network_v4 (high_bytes 192 168) 16
    ∷ network_v4 (high_bytes 198 18) 17
    ∷ network_v4 (high_bytes 224 0) 28
    ∷ network_v4 (high_bytes 240 0) 28
    ∷ network_v4 0xffffffff 0
    ∷ network_v6 1 0
    ∷ network_v6 (0xfc00 * 2 ^ 112) 121
    ∷ network_v6 (0xfe80 * 2 ^ 112) 118
    ∷ network_v6 (0xff00 * 2 ^ 112) 120
    ∷ network_v6 0 0
    ∷ []

-- `address in network`
unfoldable pub in_network : IpAddress → Network → Bool
in_network (v4 n) (network_v4 base free) = n / 2 ^ free == base / 2 ^ free
in_network (v4 n) (network_v6 base free) = false
in_network (v6 n) (network_v4 base free) = false
in_network (v6 n) (network_v6 base free) = n / 2 ^ free == base / 2 ^ free

unfoldable pub in_some : IpAddress → List Network → Bool
unfolding in_network
in_some a [] = false
in_some a (n ∷ ns) = in_network a n || in_some a ns

-- The address of version 4 that an address of version 6 wraps (`ipv4_mapped`), and any other as it
-- is.
unfoldable pub unwrap : IpAddress → IpAddress
unwrap (v4 n) = v4 n
unwrap (v6 n) = if n / 2 ^ 32 == 0xffff then v4 (n % 2 ^ 32) else v6 n

abbrev pub blocked_ip : Option IpAddress → Bool
blocked_ip none = true
blocked_ip (some a) = in_some (unwrap a) blocked_networks

-- `is_blocked`
unfoldable pub is_blocked : Text → Bool
unfolding parse_ip in_some unwrap
is_blocked address = blocked_ip (parse_ip address)

-- A value, the refusal of an `SSRFError`, or the `ValueError` of a URL that cannot be read.
pub data Checked (A : Type 0) : Type 0 where
  ok : A → Checked A
  ssrf_error : Checked A
  value_error : Checked A

pub record CheckedUrl : Type 0 where
  pub scheme : Text
  pub host : Text
  pub port : ℕ

unfoldable pub one_of_ports : ℕ → List ℕ → Bool
one_of_ports n [] = false
one_of_ports n (p ∷ ps) = n == p || one_of_ports n ps

abbrev pub default_port : Text → ℕ
unfolding text_eq
default_port scheme = if text_eq scheme (codes "https") then 443 else 80

abbrev pub port_or_default : Text → ℕ → ℕ
port_or_default scheme zero = default_port scheme
port_or_default scheme (suc n) = suc n

unfoldable pub with_port : Url → ℕ → Checked CheckedUrl
unfolding one_of_ports
with_port u n =
    if one_of_ports n allowed_ports
    then ok (record { scheme = u.scheme; host = u.hostname; port = n })
    else ssrf_error

unfoldable pub check_port : Url → Port → Checked CheckedUrl
unfolding with_port text_eq
check_port u no_port = with_port u (default_port u.scheme)
check_port u (port n) = with_port u (port_or_default u.scheme n)
check_port u bad_port = value_error

unfoldable pub check_parts : Url → Checked CheckedUrl
unfolding one_of is_empty contains_char check_port read_port
check_parts u =
    if not (one_of u.scheme allowed_schemes)
    then ssrf_error
    else if is_empty u.hostname
    then ssrf_error
    else if contains_char b'@' u.netloc
    then ssrf_error
    else check_port u (read_port u.port_text)

abbrev pub check_parsed : Option Url → Checked CheckedUrl
check_parsed none = value_error
check_parsed (some u) = check_parts u

-- `check_url`
unfoldable pub check_url : Text → Checked CheckedUrl
unfolding parse_url strip check_parts
check_url url = check_parsed (parse_url (strip url))

pub record VettedTarget : Type 0 where
  pub url : Text
  pub host : Text
  pub address : Text
  pub port : ℕ

unfoldable pub any_blocked : List Text → Bool
unfolding is_blocked
any_blocked [] = false
any_blocked (a ∷ as') = is_blocked a || any_blocked as'

-- The tests of what the name resolves to; nothing is a name that does not resolve.
unfoldable pub vet_addresses : Text → Bool → CheckedUrl → List Text → Checked VettedTarget
unfolding any_blocked strip
vet_addresses url allow_private c [] = ssrf_error
vet_addresses url allow_private c (a ∷ as') =
    if not allow_private && any_blocked (a ∷ as')
    then ssrf_error
    else ok (record { url = strip url; host = c.host; address = a; port = c.port })

-- What a name and a port resolve to, with each address once; none is an error of the resolver.
abbrev pub Resolver : Type 0
Resolver = Text → ℕ → List Text

abbrev pub vet_checked : Resolver → Text → Bool → Checked CheckedUrl → Checked VettedTarget
vet_checked resolve url allow_private (ok c) =
    vet_addresses url allow_private c (resolve c.host c.port)
vet_checked resolve url allow_private ssrf_error = ssrf_error
vet_checked resolve url allow_private value_error = value_error

-- `vet`
unfoldable pub vet : Resolver → Text → Bool → Checked VettedTarget
unfolding check_url vet_addresses
vet resolve url allow_private = vet_checked resolve url allow_private (check_url url)
