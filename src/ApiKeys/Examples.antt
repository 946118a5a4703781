-- ===== src/ApiKeys/Examples.antt =====
-- Runs of the API keys, and their theorems at concrete rows.
use lightr.Prelude.{
  Text, codes, if◌then◌else◌, text_eq, is_empty, starts_with, ◌≡◌, refl, true, ◌||◌, not, none,
  some, List, [], ◌∷◌, Any, lower,
}
use lightr.ApiKeys.Sessions.{verify-revoke_others, is_other, unless}
use lightr.ApiKeys.Verifying.{verify-IsGood, create-verify, IsGood}
use lightr.ApiKeys.{
  ApiKey, KeyType, usable, IpAddress, allows_ip, KeyRequest, two_expiries, created, refused,
  key_prefix, new_key, create, verify, revoke_others, purge_expired,
}

-- A hash that tells all texts apart, and a package that knows one address.
abbrev plain_hash : Text → Text
plain_hash s = s

abbrev one_address : IpAddress
one_address = record { is_address = λ a. true; covers = λ e a. is_empty e }

abbrev request : KeyRequest
request = record {
  name = codes "session:kim@acme.test";
  key_type = KeyType.account;
  organization_id = none;
  domain_id = none;
  account_id = some 11;
  permissions = [];
  allowed_ips = [];
  expires_in_days = none;
  expires_at = some 100;
}

abbrev phone : ApiKey
phone = new_key plain_hash 1 10 (codes "aaa") (some 100) request

abbrev laptop : ApiKey
laptop = new_key plain_hash 2 10 (codes "bbb") (some 50) request

abbrev table : List ApiKey
table = phone ∷ laptop ∷ []

phone_verified : verify plain_hash one_address 20 (codes "lk_aaa") none table ≡ some phone
unfolding verify
phone_verified = refl

verify-IsGood_example :
    (starts_with key_prefix (codes "lk_aaa") ≡ true)
    × Any (λ x. x ≡ phone) table
    × (codes "lk_aaa" ≡ codes "lk_aaa")
    × IsGood one_address 20 none phone
verify-IsGood_example =
    verify-IsGood plain_hash one_address 20 (codes "lk_aaa") none table phone phone_verified

phone_created :
    create plain_hash 1 10 (codes "aaa") request (laptop ∷ [])
    ≡ created (laptop ∷ phone ∷ []) phone (codes "lk_aaa")
unfolding create
phone_created = refl

create-verify_example :
    verify plain_hash one_address 20 (codes "lk_aaa") none (laptop ∷ phone ∷ [])
    ≡ (if not (usable 20 phone) || not (allows_ip one_address [] none) then none else some phone)
create-verify_example =
    create-verify plain_hash one_address 1 10 20 (codes "aaa") request none (laptop ∷ [])
      (laptop ∷ phone ∷ []) phone (codes "lk_aaa") phone_created (unfold text_eq in (refl, tt))

two_expiries_refused :
    create plain_hash 1 10 (codes "aaa") (record request { expires_in_days = some 3 }) []
    ≡ refused two_expiries
unfolding create
two_expiries_refused = refl

verify-revoke_others_example :
    verify plain_hash one_address 20 (codes "lk_bbb") none (revoke_others 20 11 1 table).0
    ≡ unless (is_other 11 1) (verify plain_hash one_address 20 (codes "lk_bbb") none table)
verify-revoke_others_example =
    verify-revoke_others plain_hash one_address 20 20 11 1 (codes "lk_bbb") none table

laptop_signed_out : (revoke_others 20 11 1 table).1 ≡ 1
unfolding revoke_others
laptop_signed_out = refl

laptop_purged : (purge_expired 60 table).1 ≡ 1
unfolding purge_expired lower
laptop_purged = refl
