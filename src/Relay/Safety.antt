-- ===== src/Relay/Safety.antt =====
-- What `apply` guarantees of the settings that `connection` hands to the sender.
use lightr.Prelude.{
  ℕ, ◌==◌, Bool-cases, Option-cases, zero, suc, ◌≡◌, refl, inl, inr, Bool, true, false, ◌&&◌, ◌||◌,
  not, some, arith, Text,
}
use lightr.Directory.{Domain}
use lightr.Relay.{
  Settings, implicit_tls_port, ok, is_set, uses_tls, check_enabled, port_or_default, connection,
  ◌>>=◌, >>=-ok, RelayChange, set_port, cleared, set_host, apply, changed,
}

-- TLS is used from the first byte or negotiated.
abbrev pub is_encrypted : Settings → Bool
is_encrypted s = s.use_tls || s.start_tls

-- The settings name a host, have both parts of a login or neither, and a login goes with TLS.
pub record IsUsable (d : Domain) : Type 0 where
  pub has_host : is_set d.relay_host ≡ true
  pub login_pair : is_set d.relay_username ≡ is_set d.relay_password
  pub login_encrypted : (not (is_set d.relay_username) || is_encrypted (connection d)) ≡ true

-- The connection uses TLS exactly if the settings say so.
connection-uses_tls : (d : Domain) → is_encrypted (connection d) ≡ uses_tls d
unfolding connection uses_tls
connection-uses_tls d = elim (Option-cases d.relay_port) [
  | inl e ↦ rw e (elim (Bool-cases d.relay_use_tls) [ inl f ↦ ground arith | inr f ↦ ground arith ])
  | inr e ↦ rw (e.1) (by_port e.0 d.relay_use_tls)
]
  where
    by_port :
        (p : ℕ) (t : Bool)
        → (port_or_default (some p) == implicit_tls_port
            || t && not (port_or_default (some p) == implicit_tls_port))
          ≡ (p == implicit_tls_port || t)
    by_port zero true = refl
    by_port zero false = refl
    by_port (suc p) true = ground arith
    by_port (suc p) false = ground arith

check_enabled-IsUsable :
    (d d' : Domain) → check_enabled d ≡ ok d' → d'.relay_enabled ≡ true → IsUsable d'
unfolding check_enabled
check_enabled-IsUsable d d' h e = record {
  has_host = ground arith;
  login_pair = ground arith;
  login_encrypted = rw (connection-uses_tls d') (ground arith);
}

-- Whatever the settings were, a change that `apply` accepts and that leaves the relay enabled
-- leaves a host, both parts of a login or neither, and no login without TLS.
pub apply-IsUsable :
    (is_ip : Text → Bool) (d d' : Domain) (change : RelayChange)
    → apply is_ip d change ≡ ok d'
    → d'.relay_enabled ≡ true
    → IsUsable d'
unfolding apply cleared
apply-IsUsable is_ip d d' change h on = elim (Bool-cases change.clear) [
  | inl c ↦ absurd (ground (arith, c, h, on))
  | inr c ↦ accepted (rw c at h)
]
  where
    accepted :
        (set_host is_ip change.host d.relay_host >>= λ host.
        set_port change.port d.relay_port >>= λ port. check_enabled (changed d change host port))
          ≡ ok d'
        → IsUsable d'
    accepted g =
        let host = >>=-ok _ d' (set_host is_ip change.host d.relay_host) g in
        let port = >>=-ok _ d' (set_port change.port d.relay_port) host.1.0 in
        check_enabled-IsUsable (changed d change host.0 port.0) d' port.1.0 on
