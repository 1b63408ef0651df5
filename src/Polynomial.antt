-- ===== src/Polynomial.antt =====
-- Horner's method, as src/reshare.rs and src/dkg.rs write it out over the scalars
-- (`Dealer::generate_subshare`) and over the points (`DealerCommitment::evaluate_at`,
-- `SharePolynomial::evaluate_at`), and the running-power loop of src/nested.rs.
pub mod Laws
pub mod Quotient
use frostito.Prelude.{List, [], ◌∷◌}
use frostito.Curve.{ScalarField, Curve}

module _ (s : ScalarField) where
  infixl 65 ◌⊕◌
  infixl 70 ◌⊗◌
  open s use {Scalar, zero, one, ◌⊕◌, ◌⊗◌}

  -- `for coeff in polynomial.iter().rev() { result = result.mul(&j); result = result.add(coeff); }`
  unfoldable pub horner : Scalar → List Scalar → Scalar
  horner j [] = zero
  horner j (coeff ∷ coeffs) = horner j coeffs ⊗ j ⊕ coeff

  -- `for c in coeffs { result += c * x_pow; x_pow *= x; }`
  unfoldable pub power_loop : Scalar → List Scalar → Scalar → Scalar → Scalar
  power_loop x [] x_pow result = result
  power_loop x (c ∷ coeffs) x_pow result = power_loop x coeffs (x_pow ⊗ x) (result ⊕ c ⊗ x_pow)

module _ (c : Curve) where
  infixl 65 ◌⊞◌
  infixr 70 ◌•◌
  open c use {Scalar, Point, identity, ◌⊞◌, ◌•◌}

  -- The same loop in the exponent.
  unfoldable pub horner_points : Scalar → List Point → Point
  horner_points j [] = identity
  horner_points j (coeff ∷ coeffs) = j • horner_points j coeffs ⊞ coeff
