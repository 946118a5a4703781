-- ===== src/Sieve/Meaning.antt =====
-- What the compiled header tests mean to Sieve: an evaluator of them (RFC 5228) against the operators
-- of the rules. The tests name no comparator, so that texts are compared by i;ascii-casemap, which
-- takes no notice of the case of ASCII letters.
use lightr.Prelude.{
  lower, lower_char, all_chars, ℕ, ◌==◌, if◌then◌else◌, Bool-cases, Text, codes, text_eq, is_empty,
  cut, starts_with, contains, ends_with, ◌≡◌, refl, ap, inl, inr, Bool, true, false, ◌&&◌, ◌||◌,
  Option, none, some, [], ◌∷◌, ◌++◌, arith, sym, ◌∙◌, lower_char, lower,
}
use mathlib.Core.Path.{fun_ext}
use mathlib.Core.List.{append-nil}
use lightr.Sieve.{
  quote, Field, from, to, subject, header, Operator, equals, matches, Condition, backslash, star,
  question_mark, escape_glob, body, attachment, size, spam_score, spf_result, dkim_result,
  dmarc_result, header_test, carbon_copy, greater_than, less_than, Compiled, named_header_test,
  compile_field, compile_condition, needs_nothing, escape_char,
}
use lightr.Sieve.Literals.{
  one_line, is_safe, and-true_left, and-true_right, read_string, read_string-quote, one_line,
}

abbrev literal : ℕ → (Text → Bool) → Text → Bool
literal p k [] = false
literal p k (c ∷ t) = p == c && k t

abbrev any_one : (Text → Bool) → Text → Bool
any_one k [] = false
any_one k (c ∷ t) = k t

abbrev some_suffix : (Text → Bool) → Text → Bool
some_suffix k [] = k []
some_suffix k (c ∷ t) = k (c ∷ t) || some_suffix k t

-- `:matches`: a star is any text, a question mark any character, and a backslash makes the next
-- character stand for itself, which the first argument says of the one before.
unfoldable pub glob : Bool → Text → Text → Bool
glob escaped [] = is_empty
glob true (p ∷ ps) = literal p (glob false ps)
glob false (p ∷ ps) = elim (p == star) [
  | true ↦ some_suffix (glob false ps)
  | false ↦ elim (p == question_mark) [
    | true ↦ any_one (glob false ps)
    | false ↦ elim (p == backslash) [ true ↦ glob true ps | false ↦ literal p (glob false ps) ]
  ]
]

-- A match of Sieve, by its keyword.
unfoldable pub sieve_match : Text → Text → Text → Bool
unfolding glob text_eq contains lower
sieve_match keyword pattern t =
    let p = lower pattern in
    let u = lower t in
    if text_eq keyword (codes ":is")
    then text_eq p u
    else if text_eq keyword (codes ":contains")
    then contains p u
    else glob false p u

abbrev drop_prefix : Text → Text → Option Text
drop_prefix [] s = some s
drop_prefix (p ∷ ps) [] = none
drop_prefix (p ∷ ps) (c ∷ s) = elim (p == c) [ true ↦ drop_prefix ps s | false ↦ none ]

abbrev and_then : Option (Text × Text) → (Text → Text → Option Bool) → Option Bool
and_then none k = none
and_then (some r) k = k r.0 r.1

abbrev behind_prefix : Text → Text → (Text → Option Bool) → Option Bool
behind_prefix p s k = elim (drop_prefix p s) [ none ↦ none | some t ↦ k t ]

abbrev at_end : Text → Bool → Option Bool
at_end [] b = some b
at_end (c ∷ s) b = none

-- A header test on the headers of a message: the word, a match keyword, and two quoted strings.
unfoldable pub run_header_test : (Text → Text) → Text → Option Bool
unfolding cut read_string sieve_match
run_header_test headers test = behind_prefix (codes "header ") test λ s.
    and_then (cut 32 s) λ keyword s1. and_then (read_string s1) λ name s2.
      behind_prefix (codes " ") s2 λ s3.
        and_then (read_string s3)
          λ pattern s4. at_end s4 (sieve_match keyword pattern (headers name))

-- What an operator of a rule asks of a text.
unfoldable pub holds : Operator → Text → Text → Bool
unfolding text_eq contains starts_with ends_with glob
holds equals value t = text_eq value t
holds Operator.contains value t = contains value t
holds Operator.starts_with value t = starts_with value t
holds Operator.ends_with value t = ends_with value t
holds matches value t = glob false value t
holds op value t = false

-- The header that a condition reads, if it is one on a header.
abbrev pub header_by : Field → Option Text → Option Text
header_by from h = some (codes "From")
header_by to h = some (codes "To")
header_by carbon_copy h = some (codes "Cc")
header_by subject h = some (codes "Subject")
header_by header h = h
header_by body h = none
header_by attachment h = none
header_by size h = none
header_by spam_score h = none
header_by spf_result h = none
header_by dkim_result h = none
header_by dmarc_result h = none

abbrev pub header_of : Condition → Option Text
header_of c = header_by c.field c.header_name

-- A pattern that starts with a text, taken literally.
abbrev after_prefix : Text → (Text → Bool) → Text → Bool
after_prefix [] k t = k t
after_prefix (x ∷ v) k t = literal x (after_prefix v k) t

glob-escape_glob : (v ps : Text) → glob false (escape_glob v ++ ps) ≡ after_prefix v (glob false ps)
unfolding glob escape_glob
glob-escape_glob [] ps = refl
glob-escape_glob (x ∷ v) ps = elim (Bool-cases (x == backslash)) [
  | inl e ↦
      let same : x ≡ backslash = ground (arith, e) in
      rw e (rw same (ap (literal backslash) (glob-escape_glob v ps)))
  | inr e ↦ elim (Bool-cases (x == star)) [
    | inl f ↦
        let same : x ≡ star = ground (arith, f) in
        rw e (rw f (rw same (ap (literal star) (glob-escape_glob v ps))))
    | inr f ↦ elim (Bool-cases (x == question_mark)) [
      | inl g ↦
          let same : x ≡ question_mark = ground (arith, g) in
          rw e (rw f (rw g (rw same (ap (literal question_mark) (glob-escape_glob v ps)))))
      | inr g ↦ rw e (
          rw f (
            rw g (
              rw (f, glob) (rw (g, glob) (rw (e, glob) (ap (literal x) (glob-escape_glob v ps)))))))
    ]
  ]
]

after_prefix-true : (v t : Text) → after_prefix v (λ s. true) t ≡ starts_with v t
unfolding starts_with
after_prefix-true [] t = refl
after_prefix-true (x ∷ v) [] = refl
after_prefix-true (x ∷ v) (c ∷ t) = ap (λ b. x == c && b) (after_prefix-true v t)

after_prefix-is_empty : (v t : Text) → after_prefix v is_empty t ≡ text_eq v t
unfolding text_eq is_empty
after_prefix-is_empty [] [] = refl
after_prefix-is_empty [] (c ∷ t) = refl
after_prefix-is_empty (x ∷ v) [] = refl
after_prefix-is_empty (x ∷ v) (c ∷ t) = ap (λ b. x == c && b) (after_prefix-is_empty v t)

some_suffix-eq : (v t : Text) → some_suffix (after_prefix v is_empty) t ≡ ends_with v t
unfolding ends_with
some_suffix-eq v [] = after_prefix-is_empty v []
some_suffix-eq v (c ∷ t) =
    ap (λ b. b || some_suffix (after_prefix v is_empty) t) (after_prefix-is_empty v (c ∷ t))
    ∙ ap (λ b. text_eq v (c ∷ t) || b) (some_suffix-eq v t)

some_suffix_empty : (t : Text) → some_suffix is_empty t ≡ true
unfolding is_empty
some_suffix_empty [] = refl
some_suffix_empty (c ∷ t) = some_suffix_empty t

star-glob : (t : Text) → glob false (star ∷ []) t ≡ true
unfolding glob
star-glob t = some_suffix_empty t

starts-glob : (v t : Text) → glob false (escape_glob v ++ (star ∷ [])) t ≡ starts_with v t
starts-glob v t =
    ap (λ k. k t) (glob-escape_glob v (star ∷ []))
    ∙ ap (λ k. after_prefix v k t) (fun_ext star-glob)
    ∙ after_prefix-true v t

ends-glob : (v t : Text) → glob false (star ∷ escape_glob v) t ≡ ends_with v t
unfolding glob
ends-glob v t =
    ap (λ p. some_suffix (glob false p) t) (sym (append-nil (escape_glob v)))
    ∙ ap (λ k. some_suffix k t) (glob-escape_glob v [])
    ∙ some_suffix-eq v t

-- A compiled test as it is put together, run.
test_text : Text → Text → Text → Text
test_text keyword name pattern =
    codes "header " ++ (keyword ++ (codes " " ++ (quote name ++ (codes " " ++ quote pattern))))

module _ (headers : Text → Text) (name pattern : Text) (name_fits : one_line name ≡ true)
    (pattern_fits : one_line pattern ≡ true) where
  run_behind :
      (keyword : Text)
      → and_then (read_string (quote name ++ (codes " " ++ quote pattern))) (λ n s2.
        behind_prefix
          (codes " ")
          s2
          λ s3. and_then (read_string s3) λ p s4. at_end s4 (sieve_match keyword p (headers n)))
        ≡ some (sieve_match keyword pattern (headers name))
  run_behind keyword =
      rw (read_string-quote name (codes " " ++ quote pattern) name_fits) (rw last refl)
    where
      last : read_string (quote pattern) ≡ some (pattern, [])
      last =
          ap read_string (sym (append-nil (quote pattern)))
          ∙ read_string-quote pattern [] pattern_fits

  run-is :
      run_header_test headers (test_text (codes ":is") name pattern)
      ≡ some (sieve_match (codes ":is") pattern (headers name))
  unfolding run_header_test test_text
  run-is = run_behind (codes ":is")

  run-contains :
      run_header_test headers (test_text (codes ":contains") name pattern)
      ≡ some (sieve_match (codes ":contains") pattern (headers name))
  unfolding run_header_test test_text
  run-contains = run_behind (codes ":contains")

  run-matches :
      run_header_test headers (test_text (codes ":matches") name pattern)
      ≡ some (sieve_match (codes ":matches") pattern (headers name))
  unfolding run_header_test test_text
  run-matches = run_behind (codes ":matches")

-- The marks of a pattern are no letters.
abbrev IsMark : ℕ → Type 0
IsMark k = (x : ℕ) → (lower_char x == k) ≡ (x == k)

lower-escape_char :
    (k : ℕ) (v : Text) → IsMark k → lower (escape_char k v) ≡ escape_char k (lower v)
unfolding lower lower_char escape_char
lower-escape_char k [] mark = refl
lower-escape_char k (x ∷ v) mark = elim (Bool-cases (x == k)) [
  | inl e ↦
      let low : (lower_char x == k) ≡ true = mark x ∙ e in
      rw e (rw low (ap (λ s. backslash ∷ lower_char x ∷ s) (lower-escape_char k v mark)))
  | inr e ↦
      let low : (lower_char x == k) ≡ false = mark x ∙ e in
      rw e (rw low (ap (λ s. lower_char x ∷ s) (lower-escape_char k v mark)))
]

backslash-IsMark : IsMark backslash
unfolding lower_char
backslash-IsMark x = ground arith

star-IsMark : IsMark star
unfolding lower_char
star-IsMark x = ground arith

question_mark-IsMark : IsMark question_mark
unfolding lower_char
question_mark-IsMark x = ground arith

lower-escape_glob : (v : Text) → lower (escape_glob v) ≡ escape_glob (lower v)
unfolding escape_glob
lower-escape_glob v =
    lower-escape_char question_mark (escape_char star (escape_char backslash v))
      question_mark-IsMark
    ∙ ap (escape_char question_mark) (
        lower-escape_char star (escape_char backslash v) star-IsMark
        ∙ ap (escape_char star) (lower-escape_char backslash v backslash-IsMark))

lower-append : (s t : Text) → lower (s ++ t) ≡ lower s ++ lower t
unfolding lower
lower-append [] t = refl
lower-append (c ∷ s) t = ap (λ u. lower_char c ∷ u) (lower-append s t)

one_line-escape_char :
    (k : ℕ) (v : Text) → is_safe k ≡ true → one_line v ≡ true → one_line (escape_char k v) ≡ true
unfolding one_line all_chars escape_char
one_line-escape_char k [] mark h = refl
one_line-escape_char k (x ∷ v) mark h =
    let safe : is_safe x ≡ true = and-true_left (is_safe x) (all_chars is_safe v) h in
    let ih = one_line-escape_char k v mark (and-true_right (is_safe x) (all_chars is_safe v) h) in
    elim (Bool-cases (x == k)) [ inl e ↦ rw e (rw safe ih) | inr e ↦ rw e (rw safe ih) ]

one_line-escape_glob : (v : Text) → one_line v ≡ true → one_line (escape_glob v) ≡ true
unfolding escape_glob
one_line-escape_glob v h =
    one_line-escape_char question_mark (escape_char star (escape_char backslash v)) refl (
      one_line-escape_char star (escape_char backslash v) refl
        (one_line-escape_char backslash v refl h))

one_line-append : (s t : Text) → one_line s ≡ true → one_line t ≡ true → one_line (s ++ t) ≡ true
unfolding one_line all_chars
one_line-append [] t h k = k
one_line-append (c ∷ s) t h k =
    rw (and-true_left (is_safe c) (all_chars is_safe s) h)
      (one_line-append s t (and-true_right (is_safe c) (all_chars is_safe s) h) k)

starts-pattern :
    (v t : Text)
    → glob false (lower (escape_glob v ++ (star ∷ []))) (lower t) ≡ starts_with (lower v) (lower t)
unfolding lower lower_char
starts-pattern v t =
    ap (λ p. glob false p (lower t))
      (lower-append (escape_glob v) (star ∷ []) ∙ ap (λ p. p ++ (star ∷ [])) (lower-escape_glob v))
    ∙ starts-glob (lower v) (lower t)

ends-pattern :
    (v t : Text)
    → glob false (lower (star ∷ escape_glob v)) (lower t) ≡ ends_with (lower v) (lower t)
unfolding lower lower_char
ends-pattern v t =
    ap (λ p. glob false (star ∷ p) (lower t)) (lower-escape_glob v) ∙ ends-glob (lower v) (lower t)

star_fits : one_line (star ∷ []) ≡ true
unfolding one_line all_chars
star_fits = refl

module _ (headers : Text → Text) (name value test : Text) (name_fits : one_line name ≡ true)
    (value_fits : one_line value ≡ true) where
  header_test-holds :
      (op : Operator)
      → header_test name op value ≡ some test
      → run_header_test headers test ≡ some (holds op (lower value) (lower (headers name)))
  unfolding header_test test_text sieve_match holds
  header_test-holds equals h =
      let same : test_text (codes ":is") name value ≡ test = cc in
      rw (sym same) (run-is headers name value name_fits value_fits)
  header_test-holds Operator.contains h =
      let same : test_text (codes ":contains") name value ≡ test = cc in
      rw (sym same) (run-contains headers name value name_fits value_fits)
  header_test-holds matches h =
      let same : test_text (codes ":matches") name value ≡ test = cc in
      rw (sym same) (run-matches headers name value name_fits value_fits)
  header_test-holds Operator.starts_with h =
      let pattern = escape_glob value ++ (star ∷ []) in
      let fits =
        one_line-append (escape_glob value) (star ∷ []) (one_line-escape_glob value value_fits)
          star_fits in
      let same : test_text (codes ":matches") name pattern ≡ test = cc in
      rw (sym same) (
        run-matches headers name pattern name_fits fits
        ∙ ap some (starts-pattern value (headers name)))
  header_test-holds Operator.ends_with h =
      let pattern = star ∷ escape_glob value in
      let fits =
        one_line-append (star ∷ []) (escape_glob value) star_fits
          (one_line-escape_glob value value_fits) in
      let same : test_text (codes ":matches") name pattern ≡ test = cc in
      rw (sym same) (
        run-matches headers name pattern name_fits fits
        ∙ ap some (ends-pattern value (headers name)))
  header_test-holds greater_than h = cc
  header_test-holds less_than h = cc

needs_nothing-eq : (o : Option Text) (r : Compiled) → needs_nothing o ≡ some r → o ≡ some r.0
needs_nothing-eq none r h = cc
needs_nothing-eq (some t) r h = let same : (t, []) ≡ r = cc in ap (λ (q : Compiled). some q.0) same

pub compile_condition-holds :
    (headers : Text → Text) (c : Condition) (name : Text) (r : Compiled)
    → one_line name ≡ true
    → one_line c.value ≡ true
    → header_of c ≡ some name
    → compile_condition c ≡ some r
    → run_header_test headers r.0 ≡ some (holds c.operator (lower c.value) (lower (headers name)))
unfolding compile_condition
compile_condition-holds headers c name r name_fits value_fits h k = by_field c.field h k
  where
    plain :
        (n : Text)
        → n ≡ name
        → needs_nothing (header_test n c.operator c.value) ≡ some r
        → run_header_test headers r.0
          ≡ some (holds c.operator (lower c.value) (lower (headers name)))
    plain n e k = rw (sym e) (
        header_test-holds headers n c.value r.0 (rw e name_fits) value_fits c.operator
          (needs_nothing-eq _ r k))

    named :
        (o : Option Text)
        → o ≡ some name
        → needs_nothing (named_header_test o c.operator c.value) ≡ some r
        → run_header_test headers r.0
          ≡ some (holds c.operator (lower c.value) (lower (headers name)))
    named none e k = cc
    named (some []) e k = unfold named_header_test in cc
    named (some (x ∷ s)) e k = plain (x ∷ s) (cc) (unfold named_header_test in k)

    by_field :
        (f : Field)
        → header_by f c.header_name ≡ some name
        → compile_field f c ≡ some r
        → run_header_test headers r.0
          ≡ some (holds c.operator (lower c.value) (lower (headers name)))
    by_field from e k = plain (codes "From") (cc) (unfold compile_field in k)
    by_field to e k = plain (codes "To") (cc) (unfold compile_field in k)
    by_field carbon_copy e k = plain (codes "Cc") (cc) (unfold compile_field in k)
    by_field subject e k = plain (codes "Subject") (cc) (unfold compile_field in k)
    by_field header e k = named c.header_name e (unfold compile_field in k)
    by_field body e k = cc
    by_field attachment e k = cc
    by_field size e k = cc
    by_field spam_score e k = cc
    by_field spf_result e k = cc
    by_field dkim_result e k = cc
    by_field dmarc_result e k = cc
