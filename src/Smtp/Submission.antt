-- ===== src/Smtp/Submission.antt =====
-- Who may send as whom on submission: `_may_send` of src/lightr/mail/smtp.py.
use lightr.Prelude.{
  Text, if◌then◌else◌, codes, text_eq, one_of, lower, strip, cut, not, Option, none, some, ◌++◌,
  map,
}
use lightr.Directory.{
  Directory, Domain, Account, Alias, Found, found, missing, resolve_domain, find_account,
  lookup_alias,
}

unfoldable pub not_allowed : Text → Option Text
not_allowed mail_from = some (codes "Not allowed to send as " ++ mail_from)

-- The alias of the sender's address, if it leads to the login.
unfoldable pub by_alias : Text → Text → Option Alias → Option Text
unfolding one_of lower strip not_allowed
by_alias login mail_from none = not_allowed mail_from
by_alias login mail_from (some alias) =
    if one_of login (map (λ d. lower (strip d)) alias.destinations)
    then none
    else not_allowed mail_from

unfoldable pub by_domain : Directory → Text → Text → Text → Found Domain → Option Text
unfolding by_alias lookup_alias not_allowed
by_domain d login mail_from local (missing e) = not_allowed mail_from
by_domain d login mail_from local (found domain) =
    by_alias login mail_from (lookup_alias domain.id local d.aliases)

unfoldable pub by_parts : Directory → Text → Text → Option (Text × Text) → Option Text
unfolding by_domain resolve_domain not_allowed
by_parts d login mail_from none = not_allowed mail_from
by_parts d login mail_from (some (local, domain_name)) =
    by_domain d login mail_from local (resolve_domain domain_name d.domains)

unfoldable pub by_account : Directory → Text → Text → Text → Option Account → Option Text
unfolding by_parts text_eq cut
by_account d login sender mail_from none = some (codes "Authenticated account no longer exists")
by_account d login sender mail_from (some account) =
    if not account.can_send
    then some (codes "This account is not allowed to send mail")
    else if text_eq sender login
    then none
    else by_parts d login mail_from (cut b'@' sender)

-- `_may_send`: why the login may not send as the address, or `none`.
unfoldable pub may_send : Directory → Text → Text → Option Text
unfolding by_account find_account lower strip
may_send d authenticated_as mail_from =
    let login = lower (strip authenticated_as) in
    let sender = lower (strip mail_from) in
    by_account d login sender mail_from (find_account login d)
