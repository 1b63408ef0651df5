-- ===== src/Lagrange/Unity.antt =====
-- The sum of the textbook weights, by Neville's recurrence.
use frostito.Prelude.{◌≡◌, ◌≢◌, sym, ap, ap₂, ◌∙◌, List, [], ◌∷◌, All}
use frostito.Curve.{ScalarField}
use frostito.Curve.Ring.{ring, cancelling, mul_left_cancel, sub-ne-zero, one-prod}
use frostito.Lagrange.Reference.{
  weight, weight_none, others, factor, AreDistinct, skip_self, skip_other, mul-factor,
}

module _ (s : ScalarField) where
  infixl 65 ◌⊕◌ ◌⊖◌
  infixl 70 ◌⊗◌
  open s use {Scalar, zero, one, ◌⊕◌, ◌⊖◌, ◌⊗◌, neg}

  -- The sum of `weight x nodes * v x` over the list.
  unfoldable pub weighted_sum : List Scalar → (Scalar → Scalar) → List Scalar → Scalar
  weighted_sum nodes v [] = zero
  weighted_sum nodes v (x ∷ xs) = weight s x nodes ⊗ v x ⊕ weighted_sum nodes v xs

  pub weight_self : (x : Scalar) (nodes : List Scalar) → weight s x (x ∷ nodes) ≡ weight s x nodes
  unfolding weight others
  weight_self x nodes = ap (λ v. v ⊗ weight s x nodes) (skip_self s x (factor s x x)) ∙ one-prod s _

  pub weight_other :
      (x y : Scalar) (nodes : List Scalar)
      → y ≢ x
      → weight s x (y ∷ nodes) ≡ factor s x y ⊗ weight s x nodes
  unfolding weight others
  weight_other x y nodes n = ap (λ v. v ⊗ weight s x nodes) (skip_other s x y (factor s x y) n)

  telescope : (a b x : Scalar) → (b ⊖ x) ⊖ (a ⊖ x) ≡ b ⊖ a
  telescope a b x = simp cancelling

  -- Partial fractions: with f = a / (a - x) and g = b / (b - x).
  partial_fractions :
      (a b x f g : Scalar) → (a ⊖ x) ⊗ f ≡ a → (b ⊖ x) ⊗ g ≡ b → (b ⊖ a) ⊗ (f ⊗ g) ≡ b ⊗ f ⊖ a ⊗ g
  partial_fractions a b x f g p q =
      ap (λ v. v ⊗ (f ⊗ g)) (sym (telescope a b x))
      ∙ expand (b ⊖ x) (a ⊖ x) f g
      ∙ ap₂ (λ u v. u ⊗ f ⊖ v ⊗ g) q p
    where
      expand : (u v f g : Scalar) → (u ⊖ v) ⊗ (f ⊗ g) ≡ (u ⊗ g) ⊗ f ⊖ (v ⊗ f) ⊗ g
      expand u v f g = simp ring

  neville_step :
      (a b x : Scalar) (nodes : List Scalar) (t u v : Scalar)
      → a ≢ x
      → b ≢ x
      → (b ⊖ a) ⊗ t ≡ b ⊗ u ⊖ a ⊗ v
      → (b ⊖ a) ⊗ (weight s x (a ∷ b ∷ nodes) ⊗ one ⊕ t)
        ≡ b ⊗ (weight s x (a ∷ nodes) ⊗ one ⊕ u) ⊖ a ⊗ (weight s x (b ∷ nodes) ⊗ one ⊕ v)
  neville_step a b x nodes t u v na nb h =
      rw (weight_other x a (b ∷ nodes) na, weight_other x b nodes nb, weight_other x a nodes na)
        (split (b ⊖ a) f g w t
          ∙ ap₂ (λ p q. p ⊗ w ⊕ q)
              (partial_fractions a b x f g (mul-factor s x a na) (mul-factor s x b nb)) h
          ∙ gather a b f g w u v)
    where
      f : Scalar
      f = factor s x a

      g : Scalar
      g = factor s x b

      w : Scalar
      w = weight s x nodes

      split : (d f g w t : Scalar) → d ⊗ ((f ⊗ (g ⊗ w)) ⊗ one ⊕ t) ≡ (d ⊗ (f ⊗ g)) ⊗ w ⊕ d ⊗ t
      split d f g w t = simp ring

      gather :
          (a b f g w u v : Scalar)
          → (b ⊗ f ⊖ a ⊗ g) ⊗ w ⊕ (b ⊗ u ⊖ a ⊗ v)
            ≡ b ⊗ ((f ⊗ w) ⊗ one ⊕ u) ⊖ a ⊗ ((g ⊗ w) ⊗ one ⊕ v)
      gather a b f g w u v = simp ring

  -- Neville's recurrence on nodes other than a and b.
  neville :
      (a b : Scalar) (nodes xs : List Scalar)
      → All (λ x. x ≢ a) xs
      → All (λ x. x ≢ b) xs
      → (b ⊖ a) ⊗ weighted_sum (a ∷ b ∷ nodes) (λ _. one) xs
        ≡ b ⊗ weighted_sum (a ∷ nodes) (λ _. one) xs ⊖ a ⊗ weighted_sum (b ∷ nodes) (λ _. one) xs
  unfolding weighted_sum
  neville a b nodes [] na nb = simp ring
  neville a b nodes (x ∷ xs) na nb =
      neville_step a b x nodes _ _ _ (λ p. na.0 (sym p)) (λ p. nb.0 (sym p))
        (neville a b nodes xs na.1 nb.1)

  -- The weights of distinct nodes add up to one.
  pub weights_unity :
      (a : Scalar) (nodes : List Scalar)
      → AreDistinct s (a ∷ nodes)
      → weighted_sum (a ∷ nodes) (λ _. one) (a ∷ nodes) ≡ one
  unfolding weighted_sum
  weights_unity a [] d = ap (λ w. w ⊗ one ⊕ zero) (weight_self a [] ∙ weight_none s a) ∙ simp ring
  weights_unity a (b ∷ nodes) d = mul_left_cancel s (b ⊖ a) _ one (sub-ne-zero s b a d.0.0) (
      ap₂ (λ p q. (b ⊖ a) ⊗ (p ⊗ one ⊕ (q ⊗ one ⊕ rest)))
        (weight_self a (b ∷ nodes) ∙ weight_other a b nodes d.0.0)
        (weight_other b a (b ∷ nodes) (λ p. d.0.0 (sym p))
          ∙ ap (λ w. factor s b a ⊗ w) (weight_self b nodes))
      ∙ spread a b (factor s a b) (factor s b a) wa wb rest
      ∙ ap₂ (λ p q. p ⊗ wa ⊖ q ⊗ wb ⊕ (b ⊖ a) ⊗ rest) (mul-factor s a b d.0.0)
          (mul-factor s b a (λ p. d.0.0 (sym p)))
      ∙ ap (λ v. b ⊗ wa ⊖ a ⊗ wb ⊕ v) (neville a b nodes nodes d.0.1 d.1.0)
      ∙ gather a b wa wb (weighted_sum (a ∷ nodes) (λ _. one) nodes)
          (weighted_sum (b ∷ nodes) (λ _. one) nodes)
      ∙ ap₂ (λ p q. b ⊗ p ⊖ a ⊗ q) (left (weights_unity a nodes (d.0.1, d.1.1)))
          (right (weights_unity b nodes d.1))
      ∙ simp ring)
    where
      wa : Scalar
      wa = weight s a nodes

      wb : Scalar
      wb = weight s b nodes

      rest : Scalar
      rest = weighted_sum (a ∷ b ∷ nodes) (λ _. one) nodes

      left :
          weighted_sum (a ∷ nodes) (λ _. one) (a ∷ nodes) ≡ one
          → wa ⊗ one ⊕ weighted_sum (a ∷ nodes) (λ _. one) nodes ≡ one
      left ua =
          ap (λ w. w ⊗ one ⊕ weighted_sum (a ∷ nodes) (λ _. one) nodes) (sym (weight_self a nodes))
          ∙ ua

      right :
          weighted_sum (b ∷ nodes) (λ _. one) (b ∷ nodes) ≡ one
          → wb ⊗ one ⊕ weighted_sum (b ∷ nodes) (λ _. one) nodes ≡ one
      right ub =
          ap (λ w. w ⊗ one ⊕ weighted_sum (b ∷ nodes) (λ _. one) nodes) (sym (weight_self b nodes))
          ∙ ub

      spread :
          (x y f g u v t : Scalar)
          → (y ⊖ x) ⊗ ((f ⊗ u) ⊗ one ⊕ ((g ⊗ v) ⊗ one ⊕ t))
            ≡ ((y ⊖ x) ⊗ f) ⊗ u ⊖ ((x ⊖ y) ⊗ g) ⊗ v ⊕ (y ⊖ x) ⊗ t
      spread x y f g u v t = simp ring

      gather :
          (x y u v p q : Scalar)
          → y ⊗ u ⊖ x ⊗ v ⊕ (y ⊗ p ⊖ x ⊗ q) ≡ y ⊗ (u ⊗ one ⊕ p) ⊖ x ⊗ (v ⊗ one ⊕ q)
      gather x y u v p q = simp ring
