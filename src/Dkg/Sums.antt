-- ===== src/Dkg/Sums.antt =====
-- src/dkg.rs: the group element that a list of commitments stands for at one point.
use frostito.Prelude.{◌≡◌, refl, ap₂, ◌∙◌, List, [], ◌∷◌}
use frostito.Curve.{Curve}
use frostito.Curve.Ring.{points_left_comm}
use frostito.Polynomial.{horner_points}
use frostito.Commitment.{DealerCommitment}
use mathlib.Core.List.{Perm, Permᴰ}
use mathlib.Core.Logic.{∥∥₁_elim}
use mathlib.Core.HLevel.{hedberg}

module _ (c : Curve) where
  infixl 65 ◌⊞◌
  open c use {Scalar, Point, identity, ◌⊞◌}

  unfoldable pub sum_at : Scalar → List (DealerCommitment Point) → Point
  sum_at x [] = identity
  sum_at x (k ∷ ks) = horner_points c x k.coefficients ⊞ sum_at x ks

  point_set : IsSet Point
  point_set = hedberg c.point_eq

  sum_at-Permᴰ :
      (x : Scalar) {ks ls : List (DealerCommitment Point)} → Permᴰ ks ls → sum_at x ks ≡ sum_at x ls
  unfolding sum_at
  sum_at-Permᴰ x Permᴰ.nil = refl
  sum_at-Permᴰ x (Permᴰ.cons e p) =
      ap₂ (λ k s. horner_points c x k.coefficients ⊞ s) e (sum_at-Permᴰ x p)
  sum_at-Permᴰ x (Permᴰ.swap {a} {b} {l = l} e f) =
      points_left_comm c _ _ (sum_at x l)
      ∙ ap₂
          (λ k j.
            horner_points c x k.coefficients ⊞ (horner_points c x j.coefficients ⊞ sum_at x l))
          f e
  sum_at-Permᴰ x (Permᴰ.trans p q) = sum_at-Permᴰ x p ∙ sum_at-Permᴰ x q

  -- Reordered commitments have the same sum.
  pub sum_at-Perm :
      (x : Scalar) {ks ls : List (DealerCommitment Point)} → Perm ks ls → sum_at x ks ≡ sum_at x ls
  sum_at-Perm x p = ∥∥₁_elim p (point_set _ _) (sum_at-Permᴰ x)
