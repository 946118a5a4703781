-- ===== src/Ssrf/Examples.antt =====
-- URLs and addresses that the guard takes and refuses, and its theorem at one of them.
use lightr.Prelude.{All, codes, one_of, ◌≡◌, refl, true, false, [], ◌∷◌}
use lightr.Ssrf.{
  check_url, is_blocked, vet, VettedTarget, Resolver, CheckedUrl, allowed_schemes, allowed_ports,
  ok, ssrf_error, value_error, one_of_ports,
}
use lightr.Ssrf.Reach.{guarded, vet-IsOutside, IsOutsideText}

-- One name with two public addresses.
abbrev two_addresses : Resolver
two_addresses host port = codes "93.184.216.34" ∷ codes "2606:2800:220:1::1" ∷ []

abbrev hook : VettedTarget
hook = record {
  url = codes "https://Hooks.test:8443/in?x=1";
  host = codes "hooks.test";
  address = codes "93.184.216.34";
  port = 8_443;
}

hook_vetted : vet two_addresses (codes " https://Hooks.test:8443/in?x=1 ") false ≡ ok hook
unfolding vet
hook_vetted = refl

metadata_blocked : is_blocked (codes "169.254.169.254") ≡ true
unfolding is_blocked
metadata_blocked = refl

wrapped_blocked : is_blocked (codes "::ffff:127.0.0.1") ≡ true
unfolding is_blocked
wrapped_blocked = refl

loopback_blocked : is_blocked (codes "::1") ≡ true
unfolding is_blocked
loopback_blocked = refl

octal_blocked : is_blocked (codes "0177.0.0.1") ≡ true
unfolding is_blocked
octal_blocked = refl

public_taken : is_blocked (codes "8.8.8.8") ≡ false
unfolding is_blocked
public_taken = refl

ssh_refused : check_url (codes "http://hooks.test:22/") ≡ ssrf_error
unfolding check_url
ssh_refused = refl

file_refused : check_url (codes "file:///etc/passwd") ≡ ssrf_error
unfolding check_url
file_refused = refl

login_refused : check_url (codes "https://hooks.test@10.0.0.1/") ≡ ssrf_error
unfolding check_url
login_refused = refl

bad_port_raises : check_url (codes "https://hooks.test:99999/") ≡ value_error
unfolding check_url
bad_port_raises = refl

vet-IsOutside_example :
    (c : CheckedUrl) × (check_url (codes " https://Hooks.test:8443/in?x=1 ") ≡ ok c)
    × (one_of c.scheme allowed_schemes ≡ true)
    × (one_of_ports hook.port allowed_ports ≡ true)
    × (hook.host ≡ c.host)
    × (one_of hook.address (two_addresses hook.host hook.port) ≡ true)
    × All IsOutsideText (guarded false (two_addresses hook.host hook.port))
vet-IsOutside_example =
    vet-IsOutside two_addresses (codes " https://Hooks.test:8443/in?x=1 ") false hook hook_vetted
