-- ===== src/Polynomial/Quotient.antt =====
-- Division by a linear factor: p(x) = p(a) + (x - a) q(x), with q one coefficient shorter.
use frostito.Prelude.{◌≡◌, refl, ap, ◌∙◌, List, [], ◌∷◌, length, suc}
use frostito.Curve.{ScalarField}
use frostito.Curve.Ring.{ring, cancelling}
use frostito.Polynomial.{horner}

module _ (s : ScalarField) where
  infixl 65 ◌⊕◌ ◌⊖◌
  infixl 70 ◌⊗◌
  open s use {Scalar, zero, one, ◌⊕◌, ◌⊖◌, ◌⊗◌, neg}

  unfoldable pub quotient : Scalar → List Scalar → List Scalar
  quotient a [] = []
  quotient a (p ∷ []) = []
  quotient a (p ∷ q ∷ ps) = horner s a (q ∷ ps) ∷ quotient a (q ∷ ps)

  pub length-quotient : (a p : Scalar) (ps : List Scalar) → length (quotient a (p ∷ ps)) ≡ length ps
  unfolding quotient
  length-quotient a p [] = refl
  length-quotient a p (q ∷ ps) = ap suc (length-quotient a q ps)

  -- Moving a difference through one Horner step.
  carry :
      (x a p va vq : Scalar) → (va ⊕ (x ⊖ a) ⊗ vq) ⊗ x ⊕ p ≡ (va ⊗ a ⊕ p) ⊕ (x ⊖ a) ⊗ (vq ⊗ x ⊕ va)
  carry x a p va vq = simp cancelling

  pub horner-quotient :
      (x a : Scalar) (ps : List Scalar)
      → horner s x ps ≡ horner s a ps ⊕ (x ⊖ a) ⊗ horner s x (quotient a ps)
  unfolding horner quotient
  horner-quotient x a [] = simp ring
  horner-quotient x a (p ∷ []) = simp ring
  horner-quotient x a (p ∷ q ∷ ps) =
      ap (λ v. v ⊗ x ⊕ p) (horner-quotient x a (q ∷ ps))
      ∙ carry x a p (horner s a (q ∷ ps)) (horner s x (quotient a (q ∷ ps)))
