-- ===== src/Spam/Caps.antt =====
-- How many points reputation lists can add to a score.
use lightr.Prelude.{ℕ, Text, zero, suc, ◌+◌, ◌≡◌, refl, List, [], ◌∷◌, arith}
use lightr.Spam.Lists.{Listing, weight}
use lightr.Spam.{Score, add_points}

-- What a list of listings weighs, without a cap.
unfoldable pub total_weight : List Listing → ℕ
total_weight [] = 0
total_weight (l ∷ ls) = weight l + total_weight ls

pub points-add_points : (n : ℕ) (r : Text) (s : Score) → (add_points n r s).points ≡ s.points + n
unfolding add_points
points-add_points zero r s = omega arith
points-add_points (suc n) r s = refl
