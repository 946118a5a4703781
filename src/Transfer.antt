-- ===== src/Transfer.antt =====
-- Moving mail in and out of a mailbox, src/lightr/mailtransfer.py: the quoting of mbox files, a chunk
-- of the stream, and the import. Texts are bytes; files and the parsing of dates are left out.
pub mod Quoting
pub mod Imports
mod Examples
use lightr.Prelude.{
  ℕ, leb, ◌==◌, if◌then◌else◌, length, Text, codes, text_eq, rstrip_by, starts_with, split_on, join,
  ◌+◌, Bool, false, ◌&&◌, Option, none, some, List, [], ◌∷◌, ◌++◌, map,
}

pub record Message : Type 0 where
  pub raw : Text
  pub folder : Text
  pub flags : List Text
  pub date : Option ℕ

abbrev pub newline : ℕ
newline = 10

abbrev pub quote_char : ℕ
quote_char = 62

-- `raw.split(b"\n")`
unfoldable pub lines : Text → List Text
unfolding split_on
lines raw = let parts = split_on newline raw in parts.0 ∷ parts.1

-- `^>*From `
unfoldable pub is_from_line : Text → Bool
unfolding starts_with
is_from_line [] = false
is_from_line (c ∷ s) =
    if c == quote_char then is_from_line s else starts_with (codes "From ") (c ∷ s)

unfoldable pub escape_line : Text → Text
unfolding is_from_line
escape_line l = if is_from_line l then quote_char ∷ l else l

-- `escape_from_lines`
unfoldable pub escape_from_lines : Text → Text
unfolding join lines escape_line
escape_from_lines raw = join (newline ∷ []) (map escape_line (lines raw))

unfoldable pub unescape_line : Text → Text
unfolding is_from_line
unescape_line [] = []
unescape_line (c ∷ s) = if c == quote_char && is_from_line s then s else c ∷ s

-- `unescape_from_lines`
unfoldable pub unescape_from_lines : Text → Text
unfolding join lines unescape_line
unescape_from_lines raw = join (newline ∷ []) (map unescape_line (lines raw))

-- One chunk of `to_mbox`; the sender and the date as it is written are arguments.
unfoldable pub mbox_chunk : Text → Text → Message → Text
unfolding escape_from_lines rstrip_by
mbox_chunk sender when m =
    codes "From "
    ++ (sender
        ++ (codes " "
            ++ (when
                ++ (newline
                    ∷ (rstrip_by (λ c. c == newline) (escape_from_lines m.raw)
                        ++ (newline ∷ newline ∷ []))))))

-- `TransferReport`; the counts of the folders are an association list.
pub record TransferReport : Type 0 where
  pub messages : ℕ
  pub bytes_moved : ℕ
  pub folders : List (Text × ℕ)
  pub failures : List Text

-- `folders[folder] = folders.get(folder, 0) + 1`
unfoldable pub count_folder : Text → List (Text × ℕ) → List (Text × ℕ)
unfolding text_eq
count_folder folder [] = (folder, 1) ∷ []
count_folder folder ((f, n) ∷ fs) =
    let rest = count_folder folder fs in if text_eq f folder then (f, n + 1) ∷ fs else (f, n) ∷ rest

-- `TransferReport.record`
unfoldable pub record_message : Message → TransferReport → TransferReport
unfolding count_folder
record_message m r = record r {
  messages = r.messages + 1;
  bytes_moved = r.bytes_moved + length m.raw;
  folders = count_folder m.folder r.folders;
}

-- What a mailbox answers to an append: nothing, or why it failed.
abbrev pub Appender : Type 0
Appender = Message → Option Text

abbrev pub at_limit : Option ℕ → TransferReport → Bool
at_limit none r = false
at_limit (some n) r = leb n r.messages

abbrev pub record_append : Message → Option Text → TransferReport → TransferReport
record_append m none r = record_message m r
record_append m (some why) r = record r {
  failures = r.failures ++ ((m.folder ++ (codes ": " ++ why)) ∷ []);
}

-- One message of the loop of `import_messages`.
unfoldable pub import_one : Appender → Bool → Message → TransferReport → TransferReport
unfolding record_message
import_one append dry_run m r = if dry_run then record_message m r else record_append m (append m) r

-- The loop of `import_messages`, and the messages that were handed to the mailbox.
unfoldable pub import_each :
    Appender → Bool → Option ℕ → List Message → TransferReport → TransferReport × List Message
unfolding import_one
import_each append dry_run limit [] r = (r, [])
import_each append dry_run limit (m ∷ ms) r =
    let rest = import_each append dry_run limit ms (import_one append dry_run m r) in
    if at_limit limit r then (r, []) else (rest.0, if dry_run then rest.1 else m ∷ rest.1)

abbrev pub no_report : TransferReport
no_report = record { messages = 0; bytes_moved = 0; folders = []; failures = [] }

-- `import_messages`
unfoldable pub import_messages :
    Appender → Bool → Option ℕ → List Message → TransferReport × List Message
unfolding import_each
import_messages append dry_run limit ms = import_each append dry_run limit ms no_report
