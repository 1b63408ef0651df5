-- ===== src/Lagrange/Interpolation.antt =====
-- Interpolation at 0 with the textbook weights, for src/lagrange.rs.
use frostito.Prelude.{◌≡◌, ◌≢◌, ◌≤◌, refl, sym, ap, ap₂, ◌∙◌, List, [], ◌∷◌, All, arith, length}
use frostito.Curve.{ScalarField}
use frostito.Curve.Ring.{ring, cancelling}
use frostito.Polynomial.{horner}
use frostito.Polynomial.Quotient.{quotient, length-quotient, horner-quotient}
use frostito.Lagrange.Reference.{weight, factor, AreDistinct, mul-factor}
use frostito.Lagrange.Unity.{weighted_sum, weight_other, weights_unity}

module _ (s : ScalarField) where
  infixl 65 ◌⊕◌ ◌⊖◌
  infixl 70 ◌⊗◌
  open s use {Scalar, zero, one, ◌⊕◌, ◌⊖◌, ◌⊗◌, neg}

  -- Splitting off the value at `a`: on nodes other than a the factor x - a cancels.
  split_value :
      (a k : Scalar) (nodes xs : List Scalar) (v q : Scalar → Scalar)
      → ((x : Scalar) → v x ≡ k ⊕ (x ⊖ a) ⊗ q x)
      → All (λ x. x ≢ a) xs
      → weighted_sum s (a ∷ nodes) v xs
        ≡ k ⊗ weighted_sum s (a ∷ nodes) (λ _. one) xs ⊖ a ⊗ weighted_sum s nodes q xs
  unfolding weighted_sum
  split_value a k nodes [] v q h n = simp ring
  split_value a k nodes (x ∷ xs) v q h n =
      ap₂ (λ t u. weight s x (a ∷ nodes) ⊗ t ⊕ u) (h x) (split_value a k nodes xs v q h n.1)
      ∙ ap (λ w. w ⊗ (k ⊕ (x ⊖ a) ⊗ q x) ⊕ (k ⊗ ones ⊖ a ⊗ values)) known
      ∙ regroup (factor s x a) (weight s x nodes) (q x) ones values
      ∙ ap
          (λ c.
            k ⊗ ((factor s x a ⊗ weight s x nodes) ⊗ one ⊕ ones)
            ⊖ (c ⊗ (weight s x nodes ⊗ q x) ⊕ a ⊗ values))
          (mul-factor s x a (λ p. n.0 (sym p)))
      ∙ ap (λ w. k ⊗ (w ⊗ one ⊕ ones) ⊖ (a ⊗ (weight s x nodes ⊗ q x) ⊕ a ⊗ values)) (sym known)
      ∙ ap (λ c. k ⊗ (weight s x (a ∷ nodes) ⊗ one ⊕ ones) ⊖ c) (sym (s.mul-add a _ _))
    where
      ones : Scalar
      ones = weighted_sum s (a ∷ nodes) (λ _. one) xs

      values : Scalar
      values = weighted_sum s nodes q xs

      known : weight s x (a ∷ nodes) ≡ factor s x a ⊗ weight s x nodes
      known = weight_other s x a nodes (λ p. n.0 (sym p))

      regroup :
          (f w y u t : Scalar)
          → (f ⊗ w) ⊗ (k ⊕ (x ⊖ a) ⊗ y) ⊕ (k ⊗ u ⊖ a ⊗ t)
            ≡ k ⊗ ((f ⊗ w) ⊗ one ⊕ u) ⊖ (((a ⊖ x) ⊗ f) ⊗ (w ⊗ y) ⊕ a ⊗ t)
      regroup f w y u t = simp ring

  weighted_sum_zero : (nodes xs : List Scalar) → weighted_sum s nodes (λ _. zero) xs ≡ zero
  unfolding weighted_sum
  weighted_sum_zero nodes [] = refl
  weighted_sum_zero nodes (x ∷ xs) =
      ap (λ t. weight s x nodes ⊗ zero ⊕ t) (weighted_sum_zero nodes xs) ∙ simp ring

  -- The weighted sum at distinct nodes is the value at 0.
  pub interpolation :
      (ps nodes : List Scalar)
      → length ps ≤ length nodes
      → AreDistinct s nodes
      → weighted_sum s nodes (λ x. horner s x ps) nodes ≡ horner s zero ps
  unfolding weighted_sum horner
  interpolation [] nodes h d = weighted_sum_zero nodes nodes
  interpolation (p ∷ ps) [] h d = absurd (omega arith)
  interpolation (p ∷ ps) (a ∷ nodes) h d =
      ap₂ (λ t u. weight s a (a ∷ nodes) ⊗ t ⊕ u) (horner-quotient s a a (p ∷ ps))
        (split_value a k nodes nodes _ (λ x. horner s x qs) (λ x. horner-quotient s x a (p ∷ ps))
          d.0)
      ∙ collect (weight s a (a ∷ nodes)) (horner s a qs)
          (weighted_sum s (a ∷ nodes) (λ _. one) nodes)
          (weighted_sum s nodes (λ x. horner s x qs) nodes)
      ∙ ap₂ (λ u t. k ⊗ u ⊖ a ⊗ t) (weights_unity s a nodes d)
          (interpolation qs nodes (omega (arith, length-quotient s a p ps)) d.1)
      ∙ finish (horner s zero qs)
      ∙ sym (horner-quotient s zero a (p ∷ ps))
    where
      k : Scalar
      k = horner s a (p ∷ ps)

      qs : List Scalar
      qs = quotient s a (p ∷ ps)

      collect :
          (w y u t : Scalar) → w ⊗ (k ⊕ (a ⊖ a) ⊗ y) ⊕ (k ⊗ u ⊖ a ⊗ t) ≡ k ⊗ (w ⊗ one ⊕ u) ⊖ a ⊗ t
      collect w y u t = simp cancelling

      finish : (t : Scalar) → k ⊗ one ⊖ a ⊗ t ≡ k ⊕ (zero ⊖ a) ⊗ t
      finish t = simp ring
