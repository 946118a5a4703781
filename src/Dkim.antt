-- ===== src/Dkim.antt =====
-- Signing on the sending path, src/lightr/mail/dkim.py. The package `dkimpy` is a parameter: its
-- `sign` gives the signature header, or `none` where it raises. Bytes are numbers below 256.
use lightr.Prelude.{
  ℕ, leb, ◌==◌, if◌then◌else◌, Text, codes, is_empty, lower, strip_by, starts_with, split_on, Bool,
  true, false, ◌&&◌, ◌||◌, Option, none, some, List, [], ◌∷◌, ◌++◌,
}

-- `SIGNED_HEADERS`
abbrev pub signed_headers : List Text
signed_headers =
    codes "From"
    ∷ codes "To"
    ∷ codes "Subject"
    ∷ codes "Date"
    ∷ codes "Message-ID"
    ∷ codes "MIME-Version"
    ∷ codes "Content-Type"
    ∷ []

-- `bytes.strip` takes these away.
is_byte_space : ℕ → Bool
is_byte_space c = leb 9 c && leb c 13 || c == 32

-- The loop of `_has_header` over the lines: it ends at the first blank one.
in_lines : Text → List Text → Bool
unfolding is_byte_space strip_by starts_with lower is_empty
in_lines needle [] = false
in_lines needle (line ∷ lines) =
    let rest = in_lines needle lines in
    if is_empty (strip_by is_byte_space line)
    then false
    else if starts_with needle (lower line)
    then true
    else rest

-- `_has_header`
unfoldable pub has_header : Text → Text → Bool
unfolding in_lines split_on
has_header message header =
    let lines = split_on 10 message in in_lines (lower header ++ b':' ∷ []) (lines.0 ∷ lines.1)

unfoldable pub present_headers : Text → List Text → List Text
unfolding has_header
present_headers message [] = []
present_headers message (h ∷ hs) =
    let rest = present_headers message hs in if has_header message h then h ∷ rest else rest

-- `dkimpy.sign` of message, domain, selector, key and headers.
module _ (dkimpy_sign : Text → Text → Text → Text → List Text → Option Text) where
  -- `sign`, `none` for a `DKIMError`
  unfoldable pub sign : Text → Text → Text → Text → Option Text
  unfolding present_headers is_empty
  sign message domain selector private_key =
      if is_empty private_key
      then none
      else elim (dkimpy_sign message domain selector private_key
          (present_headers message signed_headers)) [
            | none ↦ none
            | some signature ↦ some (signature ++ message)
          ]

  unfoldable pub sign_or_warn : Text → Text → Text → Text → Text
  unfolding sign
  sign_or_warn message domain selector private_key =
      elim (sign message domain selector private_key) [ none ↦ message | some signed ↦ signed ]
