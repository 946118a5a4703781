-- ===== src/Transfer/Examples.antt =====
-- A message that looks like two, and an import that fails in part.
use lightr.Prelude.{
  ltb, if◌then◌else◌, length, All, count, Text, codes, starts_with, ◌+◌, ◌≡◌, refl, false, none,
  some, List, [], ◌∷◌, ◌++◌,
}
use lightr.Transfer.{
  Message, TransferReport, Appender, import_messages, escape_from_lines, mbox_chunk, lines,
  unescape_from_lines,
}
use lightr.Transfer.Quoting.{unescape-escape_from_lines}
use lightr.Transfer.Imports.{
  import_messages-accounts, is_taken, Within, count_of, is_taken_in, Ended,
}

abbrev letter : Text → Text → Message
letter folder raw = record { raw = raw; folder = folder; flags = []; date = none }

escaped : escape_from_lines (codes "a\nFrom b\n>From c\n") ≡ codes "a\n>From b\n>>From c\n"
unfolding escape_from_lines
escaped = refl

-- The end of a message is cut to one newline.
chunk :
    mbox_chunk
      (codes "ann@acme.test")
      (codes "Thu Jan  1 00:00:00 1970")
      (letter (codes "INBOX") (codes "a\n\n\n"))
    ≡ codes "From ann@acme.test Thu Jan  1 00:00:00 1970\na\n\n"
unfolding mbox_chunk
chunk = refl

abbrev three : List Message
three =
    letter (codes "INBOX") (codes "a")
    ∷ letter (codes "Full") (codes "b")
    ∷ letter (codes "INBOX") (codes "c")
    ∷ []

-- A mailbox that takes short folder names only.
abbrev small : Appender
small m = if ltb (length m.folder) 5 then some (codes "no room") else none

abbrev outcome : TransferReport
outcome = (import_messages small false (some 2) three).0

import_messages-accounts_example :
    (outcome.messages ≡ count (is_taken small) (import_messages small false (some 2) three).1)
    × (outcome.messages + length outcome.failures
        ≡ length (import_messages small false (some 2) three).1)
    × ((g : Text)
        → count_of g outcome.folders
          ≡ count (is_taken_in small g) (import_messages small false (some 2) three).1)
    × Within (some 2) outcome.messages
    × ((rest : List Message) × (three ≡ (import_messages small false (some 2) three).1 ++ rest)
        × Ended (some 2) outcome.messages rest)
import_messages-accounts_example = import_messages-accounts small (some 2) three

unescape-escape_from_lines_example :
    (unescape_from_lines (escape_from_lines (codes "a\nFrom b")) ≡ codes "a\nFrom b")
    × All
        (λ l. starts_with (codes "From ") l ≡ false)
        (lines (escape_from_lines (codes "a\nFrom b")))
unescape-escape_from_lines_example = unescape-escape_from_lines (codes "a\nFrom b")
