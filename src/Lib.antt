-- ===== src/Lib.antt =====
-- Lightr, a mail engine: what it promises of the mail it takes and of the mail it sends.
--
-- A message for another server is submitted to the outbound queue (src/lightr/mail/queue.py). A
-- sender claims what is due, signs and composes it, sends it to the servers of the recipients or
-- through the relay of its domain, and settles the row (mail/sender.py, mail/relay.py,
-- mail/dkim.py). A message for this server is routed by its recipient (mail/routing.py) over the
-- directory (repo.py, models.py), the suppression list (mail/bounce.py) and the tokens of
-- forwarded mail (mail/replies.py). The SMTP handler (mail/smtp.py) joins these: it takes envelopes
-- on the receive and the submission listener, submits, relays, delivers, forwards and records
-- bounces. It checks what comes in (mail/authentication.py), scores it (mail/spam.py), and stamps
-- the verdict into headers (mail/headers.py), which the filters of an account, compiled to Sieve
-- (dovecot/sieve.py), test at delivery. Rate limits (ratelimit.py) stand before the API and the
-- SMTP listeners; passwords (auth.py, authproviders/registry.py) before SMTP and IMAP; API keys
-- (apikeys.py) and sessions, which are rows of the same table (api/session.py), before the API.
-- Events go to webhooks (webhooks/delivery.py, webhooks/emitter.py) behind a guard against targets
-- inside the network (webhooks/ssrf.py). mailtransfer.py imports and exports mailboxes. Paths
-- without a root are below src/lightr.
--
-- Prelude: texts, lists, and the statements of SQL on a table that is the list of its rows.
-- Directory: `DomainRepo.resolve`, `AccountRepo.find`, `AliasRepo.lookup` of repo.py.
-- Queue: mail/queue.py; a table of rows is passed through `enqueue`, `claim`, `mark_sent`,
--   `mark_failed`, `release`, `retry_now`, `purge`. Queue/Exclusive has the senders and the
--   operator as a step relation: one step is one SQL statement, in any interleaving.
-- Sender: mail/sender.py; the network is the record `World`, an answer for each mail and each host
--   (`none` is a send that returns, by which a server may have refused some of the recipients); the
--   result carries the mails that were taken on the way.
-- Relay, Dkim: mail/relay.py and mail/dkim.py; the signature and the test for an IP address are
--   parameters.
-- Routing: mail/routing.py; an exception of `_expand` is `none`.
-- Bounce: the classification and both tables of mail/bounce.py.
-- Replies: tokens and the table of mail/replies.py.
-- RateLimit: ratelimit.py; RateLimit/Unbounded has the limiter that never drops a bucket.
-- Smtp: mail/smtp.py. Smtp/Answers has `DeliveryOutcome` and its reply; Envelope `handle_EHLO`,
--   `handle_MAIL` and `handle_RCPT`; Submission `_may_send`; Outbound `_enqueue_outbound` and
--   `_forward`; Relaying `_relay_replies`; Delivery `deliver`, `handle_DATA` and `record_bounces`.
--   The tables they write are the record `Tables`, which is passed through. The reading and writing
--   of MIME, the reading of a bounce and the answers of the delivery server are parameters (`Mime`,
--   `Server` of Smtp/Parts).
-- ApiKeys: `APIKeyRepo` of apikeys.py, and the statements on the rows of sessions of
--   api/session.py. The hash, the random secret and the address package are parameters.
-- Auth: `Authenticator.authenticate` of auth.py, and of authproviders/registry.py the table of
--   providers and the order in which they are asked. What a provider answers and whether a password
--   fits a hash are the parameter `Outside`; an exception is `none`; `detail` of a result, which is
--   for logs, is left out.
-- Webhooks: subscriptions, retry decisions and the log of deliveries of webhooks/delivery.py;
--   Webhooks/Sending has `sign` and `deliver`, and the emitter; Webhooks/Endpoints what writes the
--   table of endpoints. The digest, the resolver and the receiver are parameters.
-- Ssrf: webhooks/ssrf.py; Ssrf/Urls and Ssrf/Addresses have what it uses of Python's urlparse and
--   ipaddress; the resolver is a parameter.
-- Authenticity: `check_spf`, `check_dkim`, `check_dmarc` of mail/authentication.py, by what the
--   packages and DNS answer: an answer, none in time, or an exception.
-- Spam: mail/spam.py, in tenths of a point, and the answers of the lists of mail/reputation.py.
-- Stamping: mail/headers.py, and `analyse` of mail/smtp.py; a message is its headers and its parts.
-- Sieve: dovecot/sieve.py; Sieve/Scripts puts rules together. Sieve/Literals and Sieve/Meaning read
--   and run the tests that are compiled as RFC 5228 has it, independently of the compiler: quoted
--   strings without NUL or a line end, compared by i;ascii-casemap.
-- Filters: dovecot/filters.py, the handlers of api/filters.py, and in Filters/Reading the rules
--   that dovecot/sieve_install.py reads from the table. A body has passed the checks of its JSON's
--   shapes.
-- Transfer: of mailtransfer.py the quoting of mbox files and `import_messages`.
--
-- Texts are lists of code points. Case folds on ASCII, where the addresses are. Times and
-- durations are microseconds; the clock and random ids and tokens are arguments. JSON columns are
-- the lists they decode to. A row's statement is atomic, as the database runs it. The reference of
-- a domain, account or alias is read without the prefixes `urn:` and `uuid:` of Python's UUID.
-- RateLimit counts exactly where the source has floats, and says nothing of what rounding does,
-- which can refuse a request that comes when the answer to the last one said.
--
-- Fuel: `expand` counts the hops that `MAX_ALIAS_DEPTH` leaves, so that running out is what the
-- source raises at its limit. `decimal` has as much fuel as the number counts, and one, which is
-- no less than its digits. Every other loop is structural.
--
-- Not modelled: listeners, sockets, MIME parsing and the rewriting of bodies, DNS, the servers of
-- providers, Dovecot, the command line, migrations, backups, and the endless loop and the sleep of
-- `Sender.run`, which are input and output around the parts above. Of the SMTP handler, the AUTH
-- exchange and the notices to webhooks are left out, and its analysis and stamps are modelled apart
-- from `deliver`, which takes them as parameters. The handlers of the HTTP API have no model but
-- those of filters, nor have the names that reputation lists are asked for, the readers of mailbox
-- files, and the operations that create and change domains, accounts and aliases.
pub mod Bounce
pub mod Prelude
pub mod Directory
pub mod Filters
pub mod Relay
pub mod Dkim
pub mod Replies
pub mod Routing
pub mod RateLimit
pub mod ApiKeys
pub mod Auth
pub mod Authenticity
pub mod Smtp
pub mod Sieve
pub mod Spam
pub mod Stamping
pub mod Ssrf
pub mod Transfer
pub mod Webhooks
pub mod Sender
pub mod Queue
