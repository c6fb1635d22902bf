-- ===== src/Paths/Points.antt =====
-- Equality of texts as lists of code points.
use computecluster.Prelude.{ℕ, true, List, [], ◌∷◌, ◌≡◌, refl, arith, ==→≡, ==_refl}
use computecluster.Paths.{same_points}

pub same_points_refl : (a : List ℕ) → same_points a a ≡ true
unfolding same_points
same_points_refl [] = refl
same_points_refl (x ∷ xs) = ground (arith, ==_refl x, same_points_refl xs)

pub same_points-eq : (a b : List ℕ) → same_points a b ≡ true → a ≡ b
unfolding same_points
same_points-eq [] [] e = refl
same_points-eq [] (y ∷ ys) e = ground arith
same_points-eq (x ∷ xs) [] e = ground arith
same_points-eq (x ∷ xs) (y ∷ ys) e =
    let head : x ≡ y = ==→≡ x y (ground arith) in
    rw (head, same_points-eq xs ys (ground arith)) refl
