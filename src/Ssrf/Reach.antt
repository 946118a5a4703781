-- ===== src/Ssrf/Reach.antt =====
-- Which addresses a vetted URL can lead to, by their first and last ones.
use lightr.Prelude.{
  Bool, if◌then◌else◌, ℕ, first, ◌+◌, ◌-◌, ◌*◌, ◌^◌, ◌<◌, ◌≡◌, ◌⊎◌, false, arith, ◌==◌, Bool-cases,
  Option-cases, All, Text, ◌/◌, ◌%◌, sym, ap, ◌∙◌, inl, inr, true, some, List, [], ◌∷◌,
  text_eq_self, one_of, is_empty, strip, contains_char, refl, ◌||◌, Option, none,
}
use lightr.Ssrf.Urls.{Port, read_port, parse_url, Url, no_port, bad_port}
use lightr.Ssrf.Addresses.{IpAddress, v4, v6, parse_ip}
use lightr.Ssrf.{
  blocked_networks, in_some, unwrap, blocked_ip, is_blocked, ok, CheckedUrl, VettedTarget,
  any_blocked, vet_addresses, allowed_schemes, allowed_ports, Checked, ssrf_error, value_error,
  one_of_ports, with_port, check_port, check_parts, check_parsed, check_url, Resolver, vet_checked,
  vet, default_port, port_or_default,
}

abbrev pub OutOf : ℕ → ℕ → ℕ → Type 0
OutOf n first last = (n < first) ⊎ (last < n)

-- Outside this host, the private nets, the loopback, the link-local addresses (where a cloud keeps
-- its credentials), the benchmark, the multicast and the reserved addresses. The shared addresses
-- 100.64.0.0/10 are none of these.
pub record IsOutsideV4 (n : ℕ) : Type 0 where
  pub this_host : OutOf n 0x00000000 0x00ffffff
  pub private_10 : OutOf n 0x0a000000 0x0affffff
  pub loopback : OutOf n 0x7f000000 0x7fffffff
  pub link_local : OutOf n 0xa9fe0000 0xa9feffff
  pub private_172 : OutOf n 0xac100000 0xac1fffff
  pub protocols : OutOf n 0xc0000000 0xc00000ff
  pub private_192 : OutOf n 0xc0a80000 0xc0a8ffff
  pub benchmark : OutOf n 0xc6120000 0xc613ffff
  pub multicast_or_reserved : OutOf n 0xe0000000 0xffffffff

pub record IsOutsideV6 (n : ℕ) : Type 0 where
  pub unspecified_or_loopback : 1 < n
  pub unique_local : OutOf n (0xfc00 * 2 ^ 112) (0xfe00 * 2 ^ 112 - 1)
  pub link_local : OutOf n (0xfe80 * 2 ^ 112) (0xfec0 * 2 ^ 112 - 1)
  pub multicast : OutOf n (0xff00 * 2 ^ 112) (0x10000 * 2 ^ 112 - 1)

-- An address of version 6 that maps one of version 4 (::ffff:0:0/96) reaches that one. Those that
-- translate or tunnel one (64:ff9b::/96, 2002::/16) are taken as they are.
abbrev pub IsOutside : IpAddress → Type 0
IsOutside (v4 n) = IsOutsideV4 n
IsOutside (v6 n) =
    (IsOutsideV6 n × OutOf n (0xffff * 2 ^ 32) (0x10000 * 2 ^ 32 - 1))
    ⊎ ((m : ℕ) × (n ≡ 0xffff * 2 ^ 32 + m) × (m < 2 ^ 32) × IsOutsideV4 m)

v4-IsOutside : (n : ℕ) → in_some (v4 n) blocked_networks ≡ false → IsOutsideV4 n
unfolding in_some
v4-IsOutside n e = ground arith

v6-IsOutside : (n : ℕ) → in_some (v6 n) blocked_networks ≡ false → IsOutsideV6 n
unfolding in_some
v6-IsOutside n e = ground arith

unwrapped-IsOutside : (a : IpAddress) → in_some (unwrap a) blocked_networks ≡ false → IsOutside a
unfolding unwrap
unwrapped-IsOutside (v4 n) e = v4-IsOutside n e
unwrapped-IsOutside (v6 n) e = elim (Bool-cases (n / 2 ^ 32 == 0xffff)) [
  | inl f ↦ inr (n % 2 ^ 32, ground (arith, f), omega arith, v4-IsOutside (n % 2 ^ 32) (rw f at e))
  | inr f ↦ inl (v6-IsOutside n (rw f at e), ground (arith, f))
]

-- A text that is read as an address outside those networks.
abbrev pub IsOutsideText : Text → Type 0
IsOutsideText t = (a : IpAddress) × (parse_ip t ≡ some a) × IsOutside a

is_blocked-IsOutside : (t : Text) → is_blocked t ≡ false → IsOutsideText t
unfolding is_blocked
is_blocked-IsOutside t e = elim (Option-cases (parse_ip t)) [
  | inl f ↦ absurd (ground (arith, f, e))
  | inr (a, f) ↦ (a, f, unwrapped-IsOutside a (sym (ap blocked_ip f) ∙ e))
]

any_blocked-All : (ts : List Text) → any_blocked ts ≡ false → All IsOutsideText ts
unfolding any_blocked
any_blocked-All [] e = tt
any_blocked-All (t ∷ ts) e = elim (Bool-cases (is_blocked t)) [
  | inl f ↦ absurd (ground (arith, f, e))
  | inr f ↦ (is_blocked-IsOutside t f, any_blocked-All ts (rw f at e))
]

-- The addresses that are looked at: all of them, unless private targets are allowed.
abbrev pub guarded : Bool → List Text → List Text
guarded allow_private ts = if allow_private then [] else ts

-- What vetted addresses come to: the target is the first of them, and all guarded ones are outside.
record IsVetted (allow : Bool) (c : CheckedUrl) (ts : List Text) (target : VettedTarget)
    : Type 0 where
  host : target.host ≡ c.host
  port : target.port ≡ c.port
  among : one_of target.address ts ≡ true
  all_outside : All IsOutsideText (guarded allow ts)

vet_addresses-IsVetted :
    (url : Text) (allow : Bool) (c : CheckedUrl) (ts : List Text) (target : VettedTarget)
    → vet_addresses url allow c ts ≡ ok target
    → IsVetted allow c ts target
unfolding vet_addresses
vet_addresses-IsVetted url allow c [] target e = absurd (cc)
vet_addresses-IsVetted url true c (t ∷ ts) target e =
    let same : record { url = strip url; host = c.host; address = t; port = c.port } ≡ target =
      cc in
    rw (sym same) (record {
      host = refl;
      port = refl;
      among = unfold one_of in rw (text_eq_self t) refl;
      all_outside = tt;
    })
vet_addresses-IsVetted url false c (t ∷ ts) target e = elim (Bool-cases (any_blocked (t ∷ ts))) [
  | inl f ↦ absurd (ground (arith, f, e))
  | inr f ↦
      let same : record { url = strip url; host = c.host; address = t; port = c.port } ≡ target =
        ground (arith, f, e) in
      rw (sym same) (record {
        host = refl;
        port = refl;
        among = unfold one_of in rw (text_eq_self t) refl;
        all_outside = any_blocked-All (t ∷ ts) f;
      })
]

record IsAllowed (c : CheckedUrl) : Type 0 where
  scheme : one_of c.scheme allowed_schemes ≡ true
  port : one_of_ports c.port allowed_ports ≡ true

with_port-IsAllowed :
    (u : Url) (n : ℕ) (c : CheckedUrl)
    → one_of u.scheme allowed_schemes ≡ true
    → with_port u n ≡ ok c
    → IsAllowed c
unfolding with_port
with_port-IsAllowed u n c h e = elim (Bool-cases (one_of_ports n allowed_ports)) [
  | inl f ↦
      let same : record { scheme = u.scheme; host = u.hostname; port = n } ≡ c =
        ground (arith, f, e) in
      rw (sym same) (record { scheme = h; port = f })
  | inr f ↦ absurd (ground (arith, f, e))
]

check_port-IsAllowed :
    (u : Url) (q : Port) (c : CheckedUrl)
    → one_of u.scheme allowed_schemes ≡ true
    → check_port u q ≡ ok c
    → IsAllowed c
unfolding check_port
check_port-IsAllowed u no_port c h e = with_port-IsAllowed u (default_port u.scheme) c h e
check_port-IsAllowed u (Port.port n) c h e =
    with_port-IsAllowed u (port_or_default u.scheme n) c h e
check_port-IsAllowed u bad_port c h e = absurd (cc)

check_parts-IsAllowed : (u : Url) (c : CheckedUrl) → check_parts u ≡ ok c → IsAllowed c
unfolding check_parts
check_parts-IsAllowed u c e = elim (Bool-cases (one_of u.scheme allowed_schemes)) [
  | inl f ↦ elim (Bool-cases (is_empty u.hostname || contains_char b'@' u.netloc)) [
    | inl g ↦ absurd (ground (arith, f, g, e))
    | inr g ↦ check_port-IsAllowed u (read_port u.port_text) c f (ground (arith, f, g, e))
  ]
  | inr f ↦ absurd (ground (arith, f, e))
]

check_url-IsAllowed : (url : Text) (c : CheckedUrl) → check_url url ≡ ok c → IsAllowed c
unfolding check_url
check_url-IsAllowed url c e = by_parse (parse_url (strip url)) e
  where
    by_parse : (u : Option Url) → check_parsed u ≡ ok c → IsAllowed c
    by_parse none h = absurd (cc)
    by_parse (some u) h = check_parts-IsAllowed u c h

-- A target that the guard accepts has an allowed scheme and port, its address is one that its host
-- resolved to, and, unless private targets are allowed, every address that the host resolved to is
-- outside the private, loopback, link-local, multicast and reserved networks, also those that map
-- one of version 4.
pub vet-IsOutside :
    (resolve : Resolver) (url : Text) (allow : Bool) (target : VettedTarget)
    → vet resolve url allow ≡ ok target
    → (c : CheckedUrl) × (check_url url ≡ ok c)
      × (one_of c.scheme allowed_schemes ≡ true)
      × (one_of_ports target.port allowed_ports ≡ true)
      × (target.host ≡ c.host)
      × (one_of target.address (resolve target.host target.port) ≡ true)
      × All IsOutsideText (guarded allow (resolve target.host target.port))
unfolding vet
vet-IsOutside resolve url allow target e = by_check (check_url url) refl e
  where
    by_check :
        (r : Checked CheckedUrl)
        → check_url url ≡ r
        → vet_checked resolve url allow r ≡ ok target
        → (c : CheckedUrl) × (check_url url ≡ ok c)
          × (one_of c.scheme allowed_schemes ≡ true)
          × (one_of_ports target.port allowed_ports ≡ true)
          × (target.host ≡ c.host)
          × (one_of target.address (resolve target.host target.port) ≡ true)
          × All IsOutsideText (guarded allow (resolve target.host target.port))
    by_check ssrf_error f h = absurd (cc)
    by_check value_error f h = absurd (cc)
    by_check (ok c) f h =
        let v = vet_addresses-IsVetted url allow c (resolve c.host c.port) target h in
        let a = check_url-IsAllowed url c f in
        (
          c,
          f,
          a.scheme,
          rw (v.port) a.port,
          v.host,
          rw (v.host) (rw (v.port) v.among),
          rw (v.host) (rw (v.port) v.all_outside),
        )
