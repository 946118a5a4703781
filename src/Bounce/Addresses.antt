-- ===== src/Bounce/Addresses.antt =====
-- Normalising an address once is enough.
use lightr.Prelude.{
  ℕ, Text, leb, Bool-cases, is_empty, lower_char, lower, is_space, lstrip_by, rstrip_by, strip_by,
  strip, lower_idem, ◌≡◌, refl, inl, inr, Bool, ◌&&◌, [], ◌∷◌, arith,
}
use lightr.Bounce.{normalise}

rstrip_by_idem : (p : ℕ → Bool) (s : Text) → rstrip_by p (rstrip_by p s) ≡ rstrip_by p s
unfolding rstrip_by
rstrip_by_idem p [] = refl
rstrip_by_idem p (c ∷ s) = elim (Bool-cases (p c && is_empty (rstrip_by p s))) [
  | inl e ↦ rw e refl
  | inr e ↦ rw e (rw (rstrip_by_idem p s) (rw e refl))
]

lstrip-rstrip :
    (p : ℕ → Bool) (s : Text)
    → lstrip_by p (rstrip_by p (lstrip_by p s)) ≡ rstrip_by p (lstrip_by p s)
unfolding lstrip_by rstrip_by
lstrip-rstrip p [] = refl
lstrip-rstrip p (c ∷ s) = elim (Bool-cases (p c)) [
  | inl e ↦ rw e (lstrip-rstrip p s)
  | inr e ↦ ground (arith, e)
]

strip_idem : (s : Text) → strip (strip s) ≡ strip s
unfolding strip strip_by
strip_idem s = rw (lstrip-rstrip is_space s) (rstrip_by_idem is_space (lstrip_by is_space s))

is_space-lower_char : (c : ℕ) → is_space (lower_char c) ≡ is_space c
unfolding is_space lower_char
is_space-lower_char c = elim (Bool-cases (leb 65 c && leb c 90)) [
  | inl e ↦ ground (arith, e)
  | inr e ↦ rw e refl
]

lstrip-lower : (s : Text) → lstrip_by is_space (lower s) ≡ lower (lstrip_by is_space s)
unfolding lstrip_by lower
lstrip-lower [] = refl
lstrip-lower (c ∷ s) =
    rw (is_space-lower_char c)
      (elim (Bool-cases (is_space c)) [ inl e ↦ rw e (lstrip-lower s) | inr e ↦ rw e refl ])

is_empty-lower : (s : Text) → is_empty (lower s) ≡ is_empty s
unfolding is_empty lower
is_empty-lower [] = refl
is_empty-lower (c ∷ s) = refl

rstrip-lower : (s : Text) → rstrip_by is_space (lower s) ≡ lower (rstrip_by is_space s)
unfolding rstrip_by lower
rstrip-lower [] = refl
rstrip-lower (c ∷ s) =
    rw (is_space-lower_char c, rstrip-lower s, is_empty-lower (rstrip_by is_space s))
      (elim (Bool-cases (is_space c && is_empty (rstrip_by is_space s))) [
        | inl e ↦ rw e refl
        | inr e ↦ rw e refl
      ])

strip-lower : (s : Text) → strip (lower s) ≡ lower (strip s)
unfolding strip strip_by
strip-lower s = rw (lstrip-lower s) (rstrip-lower (lstrip_by is_space s))

-- A normalised address is left as it is.
pub normalise_idem : (s : Text) → normalise (normalise s) ≡ normalise s
unfolding normalise
normalise_idem s = rw (strip-lower (strip s), strip_idem s) (lower_idem (strip s))
