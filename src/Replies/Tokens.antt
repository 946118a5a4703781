-- ===== src/Replies/Tokens.antt =====
-- Reply tokens: what is handed out is recognised, and lives for the retention time.
use lightr.Prelude.{
  ℕ, length, All, All-map, Text, lower_char, is_space, strip, strip_by_id, lower_id, ◌≡◌, refl,
  true, false, some, [], ◌∷◌, ◌++◌, arith, leb, if◌then◌else◌, Bool-cases, first, delete, text_eq,
  text_eq_iff, text_eq_self, lower, ◌+◌, inl, inr, Bool, Option, none, List, ap, ◌∙◌,
}
use lightr.Replies.{
  reply_prefix, token_length, is_hex, all_hex, match_token, token_from, retention, ReplyRoute,
  expired, Handout, new_route, create, get, sweep,
}

pub hex-space : (c : ℕ) → is_hex c ≡ true → is_space c ≡ false
unfolding is_hex is_space
hex-space c h = ground arith

pub hex-lower : (c : ℕ) → is_hex c ≡ true → lower_char c ≡ c
unfolding is_hex lower_char
hex-lower c h = ground arith

pub all_hex-All : (s : Text) → all_hex s ≡ true → All (λ c. is_hex c ≡ true) s
unfolding all_hex
all_hex-All [] h = tt
all_hex-All (c ∷ s) h = (ground (arith, h), all_hex-All s (ground (arith, h)))

-- The local part of a reply address is recognised, and its token read back.
pub token_from-reply :
    (token : Text)
    → all_hex token ≡ true
    → length token ≡ token_length
    → token_from (reply_prefix ++ token) ≡ some token
unfolding token_from
token_from-reply token h n =
    let hex = all_hex-All token h in
    let kept : lower (strip (reply_prefix ++ token)) ≡ reply_prefix ++ token =
      ap lower (
        strip_by_id is_space (reply_prefix ++ token)
          (refl, (refl, (refl, (refl, (refl, (refl, All-map hex-space token hex)))))))
      ∙ lower_id (reply_prefix ++ token)
          (refl, (refl, (refl, (refl, (refl, (refl, All-map hex-lower token hex)))))) in
    ap match_token kept ∙ matched
  where
    matched : match_token (reply_prefix ++ token) ≡ some token
    matched = unfold match_token in ground (arith, h, n)

-- The primary key: no two routes have one token.
abbrev pub IsKeyed : List ReplyRoute → Type 0
IsKeyed [] = Unit
IsKeyed (r ∷ t) = All (λ x. text_eq x.token r.token ≡ false) t × IsKeyed t

abbrev live : ℕ → Option ReplyRoute → Option ReplyRoute
live now none = none
live now (some r) = if expired now r then none else some r

get-eq-live :
    (now : ℕ) (k : Text) (t : List ReplyRoute)
    → get now k t ≡ live now (first (λ r. text_eq r.token (lower k)) t)
unfolding get
get-eq-live now k t = ground (arith)

absent-first :
    (p : ReplyRoute → Bool) (t : List ReplyRoute) → All (λ x. p x ≡ false) t → first p t ≡ none
unfolding first
absent-first p [] h = refl
absent-first p (r ∷ t) h = ground (arith, h.0, absent-first p t h.1)

All-delete :
    (P : ReplyRoute → Type 0) (q : ReplyRoute → Bool) (t : List ReplyRoute)
    → All P t
    → All P (delete q t)
unfolding delete
All-delete P q [] h = tt
All-delete P q (r ∷ t) h = elim (Bool-cases (q r)) [
  | inl e ↦ rw e (All-delete P q t h.1)
  | inr e ↦ rw e (h.0, All-delete P q t h.1)
]

same_token : (a b k : Text) → text_eq a b ≡ false → text_eq b k ≡ true → text_eq a k ≡ false
same_token a b k h e = ground (arith, h, e, text_eq_iff b k, text_eq_iff a k, text_eq_iff a b)

first-sweep :
    (now : ℕ) (k : Text) (t : List ReplyRoute)
    → IsKeyed t
    → live now (first (λ r. text_eq r.token k) (delete (expired now) t))
      ≡ live now (first (λ r. text_eq r.token k) t)
unfolding first delete
first-sweep now k [] h = refl
first-sweep now k (r ∷ t) h = elim (Bool-cases (text_eq r.token k)) [
  | inl e ↦
      let gone : first (λ x. text_eq x.token k) (delete (expired now) t) ≡ none =
        absent-first (λ x. text_eq x.token k) (delete (expired now) t)
          (All-delete _ (expired now) t
            (All-map (λ x g. same_token x.token r.token k g e) t h.0)) in
      ground (arith, e, gone)
  | inr e ↦ ground (arith, e, first-sweep now k t h.1)
]

-- Sweeping the expired routes changes no lookup.
get-sweep :
    (now : ℕ) (k : Text) (t : List ReplyRoute)
    → IsKeyed t
    → get now k (sweep now retention t).0 ≡ get now k t
unfolding sweep
get-sweep now k t h =
    rw (get-eq-live now k t) (rw get-eq-live (unfold expired in first-sweep now (lower k) t h))

first-appended :
    (token : Text) (now : ℕ) (h : Handout) (rs : List ReplyRoute)
    → All (λ r. text_eq r.token token ≡ false) rs
    → first (λ r. text_eq r.token token) (rs ++ new_route token now h ∷ [])
      ≡ some (new_route token now h)
unfolding first new_route
first-appended token now h [] a = rw (text_eq_self token) refl
first-appended token now h (r ∷ rs) a = rw (a.0) (first-appended token now h rs a.1)

-- A token that was handed out gives its route for the retention time, and nothing afterwards.
pub get-create :
    (token : Text) (now later : ℕ) (h : Handout) (t : List ReplyRoute)
    → All (λ r. text_eq r.token token ≡ false) t
    → lower token ≡ token
    → get later token (create token now h t).0
      ≡ (if leb later (now + retention) then some (create token now h t).1 else none)
unfolding create
get-create token now later h t fresh low =
    rw get-eq-live
      (rw low (rw (first-appended token now h t fresh) (unfold expired new_route in ground arith)))
