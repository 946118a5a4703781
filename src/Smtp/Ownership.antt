-- ===== src/Smtp/Ownership.antt =====
-- On submission nobody sends as an address that is not theirs.
use lightr.Prelude.{
  Text, ltb, Bool-cases, length, text_eq, text_eq_iff, one_of, lower, strip, cut, ◌≡◌, refl, ◌≢◌,
  ◌⊎◌, inl, inr, Bool, true, Option, none, some, List, [], ◌∷◌, map, arith,
}
use lightr.Smtp.Answers.{answer_taken, answer_error, answer_by, smtp_response}
use lightr.Smtp.Delivery.{failed_for_good, answer_delivered, deliver, handle_data, deliver_allowed}
use lightr.Directory.{
  Directory, Domain, Account, Alias, Found, found, missing, resolve_domain, find_account,
  lookup_alias,
}
use lightr.Smtp.Parts.{Server, Tables}
use lightr.Smtp.Submission.{may_send, not_allowed, by_alias, by_domain, by_parts, by_account}

-- The address is an active alias of a domain here, and one of its destinations is the login.
pub record LeadsTo (d : Directory) (login sender : Text) : Type 0 where
  pub local : Text
  pub domain_name : Text
  pub domain : Domain
  pub alias : Alias
  pub parts : cut b'@' sender ≡ some (local, domain_name)
  pub hosted : resolve_domain domain_name d.domains ≡ found domain
  pub is_alias : lookup_alias domain.id local d.aliases ≡ some alias
  pub names_login : one_of login (map (λ x. lower (strip x)) alias.destinations) ≡ true

-- The login is an account that may send, and the sender is its address or an alias of it.
abbrev pub IsOwner : Directory → Text → Text → Type 0
IsOwner d login sender =
    (account : Account) × (find_account login d ≡ some account)
    × (account.can_send ≡ true)
    × ((sender ≡ login) ⊎ LeadsTo d login sender)

by_parts-LeadsTo :
    (d : Directory) (login mail_from sender : Text) (o : Option (Text × Text))
    → cut b'@' sender ≡ o
    → by_parts d login mail_from o ≡ none
    → LeadsTo d login sender
unfolding by_parts not_allowed
by_parts-LeadsTo d login mail_from sender none c h = absurd (cc)
by_parts-LeadsTo d login mail_from sender (some (local, n)) c h =
    by_found (resolve_domain n d.domains) refl h
  where
    by_one :
        (domain : Domain) (alias : Alias)
        → resolve_domain n d.domains ≡ found domain
        → lookup_alias domain.id local d.aliases ≡ some alias
        → by_alias login mail_from (some alias) ≡ none
        → LeadsTo d login sender
    by_one domain alias r l k = record {
      local = local;
      domain_name = n;
      domain = domain;
      alias = alias;
      parts = c;
      hosted = r;
      is_alias = l;
      names_login = unfold by_alias in ground (arith, k);
    }

    by_lookup :
        (domain : Domain)
        → resolve_domain n d.domains ≡ found domain
        → (o : Option Alias) → lookup_alias domain.id local d.aliases ≡ o
        → by_alias login mail_from o ≡ none
        → LeadsTo d login sender
    by_lookup domain r none l k = absurd (unfold by_alias in cc (k))
    by_lookup domain r (some alias) l k = by_one domain alias r l k

    by_found :
        (f : Found Domain)
        → resolve_domain n d.domains ≡ f
        → by_domain d login mail_from local f ≡ none
        → LeadsTo d login sender
    by_found (missing e) r k = absurd (unfold by_domain in cc (k))
    by_found (found domain) r k =
        by_lookup domain r (lookup_alias domain.id local d.aliases) refl (unfold by_domain in k)

by_account-IsOwner :
    (d : Directory) (login sender mail_from : Text) (o : Option Account)
    → find_account login d ≡ o
    → by_account d login sender mail_from o ≡ none
    → IsOwner d login sender
unfolding by_account
by_account-IsOwner d login sender mail_from none f h = absurd (cc (h))
by_account-IsOwner d login sender mail_from (some account) f h =
    elim (Bool-cases account.can_send) [
      | inr c ↦ absurd (ground (arith, c, h))
      | inl c ↦ elim (Bool-cases (text_eq sender login)) [
        | inl e ↦ (account, f, c, inl ((text_eq_iff sender login).0 e))
        | inr e ↦ (
          account,
          f,
          c,
          inr (
              by_parts-LeadsTo d login mail_from sender (cut b'@' sender) refl
                (ground (arith, c, e, h))),
        )
      ]
    ]

may_send-IsOwner :
    (d : Directory) (login mail_from : Text)
    → may_send d login mail_from ≡ none
    → IsOwner d (lower (strip login)) (lower (strip mail_from))
unfolding may_send
may_send-IsOwner d login mail_from h =
    by_account-IsOwner d (lower (strip login)) (lower (strip mail_from)) mail_from
      (find_account (lower (strip login)) d) refl h

refused-code : (refused : Text) → (smtp_response (failed_for_good refused)).code ≢ 250
unfolding smtp_response answer_by answer_error answer_taken
refused-code [] p = omega arith
refused-code (c ∷ s) p = omega arith

deliver_allowed-none :
    (s : Server) (mail_from : Text) (recipients : List Text) (raw : Text) (is_spam : Bool)
    (t : Tables) (o : Option Text)
    → (answer_delivered (deliver_allowed s mail_from recipients raw is_spam t o)).1.code ≡ 250
    → o ≡ none
unfolding deliver_allowed answer_delivered
deliver_allowed-none s mail_from recipients raw is_spam t none h = refl
deliver_allowed-none s mail_from recipients raw is_spam t (some refused) h =
    absurd (refused-code refused h)

-- A message of a login that is answered with success comes from an account that may send, under its
-- own address or an alias that leads to it.
pub handle_data-IsOwner :
    (s : Server) (login mail_from : Text) (recipients : List Text) (raw : Text) (is_spam : Bool)
    (t : Tables)
    → (handle_data s (some login) mail_from recipients raw is_spam t).1.code ≡ 250
    → IsOwner s.directory (lower (strip login)) (lower (strip mail_from))
unfolding handle_data deliver
handle_data-IsOwner s login mail_from recipients raw is_spam t h =
    elim (Bool-cases (ltb s.max_message_bytes (length raw))) [
      | inl e ↦ absurd (ground (arith, e, h))
      | inr e ↦
          may_send-IsOwner s.directory login mail_from
            (deliver_allowed-none s mail_from recipients raw is_spam t _ (rw e at h))
    ]
