-- ===== src/Polynomial/Laws.antt =====
-- Horner evaluation, with commitments, sums and scaling.
use frostito.Prelude.{◌≡◌, sym, ap, ◌∙◌, List, [], ◌∷◌, map}
use frostito.Curve.{ScalarField, Curve}
use frostito.Curve.Ring.{ring, group, zero-sum, sum-zero}
use frostito.Polynomial.{horner, power_loop, horner_points}

module _ (s : ScalarField) where
  infixl 65 ◌⊕◌
  infixl 70 ◌⊗◌
  open s use {Scalar, zero as zero_scalar, one, ◌⊕◌, ◌⊗◌}

  -- Coefficientwise sum, the longer polynomial's tail kept.
  unfoldable pub add_coeffs : List Scalar → List Scalar → List Scalar
  add_coeffs [] qs = qs
  add_coeffs (p ∷ ps) [] = p ∷ ps
  add_coeffs (p ∷ ps) (q ∷ qs) = (p ⊕ q) ∷ add_coeffs ps qs

  pub horner-add_coeffs :
      (x : Scalar) (ps qs : List Scalar)
      → horner s x (add_coeffs ps qs) ≡ horner s x ps ⊕ horner s x qs
  unfolding horner add_coeffs
  horner-add_coeffs x [] qs = sym (zero-sum s _)
  horner-add_coeffs x (p ∷ ps) [] = sym (sum-zero s _)
  horner-add_coeffs x (p ∷ ps) (q ∷ qs) =
      ap (λ v. v ⊗ x ⊕ (p ⊕ q)) (horner-add_coeffs x ps qs) ∙ simp ring

  pub horner-scale :
      (x k : Scalar) (ps : List Scalar) → horner s x (map (λ p. k ⊗ p) ps) ≡ k ⊗ horner s x ps
  unfolding horner
  horner-scale x k [] = simp ring
  horner-scale x k (p ∷ ps) = ap (λ v. v ⊗ x ⊕ k ⊗ p) (horner-scale x k ps) ∙ simp ring

  -- The running-power loop evaluates the same polynomial.
  pub power_loop-horner :
      (x : Scalar) (ps : List Scalar) (x_pow result : Scalar)
      → power_loop s x ps x_pow result ≡ result ⊕ x_pow ⊗ horner s x ps
  unfolding horner power_loop
  power_loop-horner x [] w r = simp ring
  power_loop-horner x (p ∷ ps) w r = power_loop-horner x ps (w ⊗ x) (r ⊕ p ⊗ w) ∙ simp ring

module _ (c : Curve) where
  infixl 65 ◌⊞◌
  infixr 70 ◌•◌
  open c use {Scalar, Point, identity, generator, ◌⊞◌, ◌•◌}

  -- Horner in the exponent is Horner on the scalars, times the generator.
  pub horner_points-commit :
      (x : Scalar) (ps : List Scalar)
      → horner_points c x (map (λ a. a • generator) ps) ≡ horner c.scalars x ps • generator
  unfolding horner horner_points
  horner_points-commit x [] = sym (c.zero-smul generator)
  horner_points-commit x (p ∷ ps) =
      ap (λ v. x • v ⊞ p • generator) (horner_points-commit x ps) ∙ simp group
