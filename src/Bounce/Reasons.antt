-- ===== src/Bounce/Reasons.antt =====
-- What a status decides, and when an address is given up.
use lightr.Prelude.{
  Text, if◌then◌else◌, text_eq, one_of, starts_with, ◌≡◌, Option, some, ◌∷◌, Bool-cases, refl, inl,
  inr,
}
use lightr.Bounce.{classify, BounceType, soft_status, by_status, hard_status}

class_4 : (rest : Text) → by_status (b'4' ∷ rest) ≡ some BounceType.soft
unfolding by_status one_of text_eq starts_with
class_4 rest = elim (Bool-cases (one_of (b'4' ∷ rest) soft_status)) [
  | inl e ↦ rw e refl
  | inr e ↦ rw e refl
]

class_5 :
    (rest : Text)
    → by_status (b'5' ∷ rest)
      ≡ some (if one_of (b'5' ∷ rest) soft_status then BounceType.soft else BounceType.hard)
unfolding by_status starts_with
class_5 rest = elim (Bool-cases (one_of (b'5' ∷ rest) soft_status)) [
  | inl e ↦ rw e refl
  | inr e ↦ elim (Bool-cases (one_of (b'5' ∷ rest) hard_status)) [
    | inl f ↦ rw e (rw f refl)
    | inr f ↦ rw e (rw f refl)
  ]
]

-- A status of class 4 is temporary and one of class 5 is permanent unless it is listed as soft,
-- whatever the diagnostic says.
classify-by_status :
    (rest : Text) (diagnostic : Option Text)
    → (classify (some (b'4' ∷ rest)) diagnostic ≡ BounceType.soft)
      × (classify (some (b'5' ∷ rest)) diagnostic
          ≡ (if one_of (b'5' ∷ rest) soft_status then BounceType.soft else BounceType.hard))
unfolding classify
classify-by_status rest diagnostic = (rw (class_4 rest) refl, rw (class_5 rest) refl)
