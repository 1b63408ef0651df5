-- ===== src/Lagrange/Reference.antt =====
-- The textbook coefficients: λ_x is the product of y / (y - x) over the other nodes y.
use frostito.Prelude.{
  ◌≡◌, ◌≢◌, refl, ap, ap₂, ◌∙◌, List, [], ◌∷◌, All, decide, decide-true, decide-false,
  if◌then◌else◌,
}
use frostito.Curve.{ScalarField}
use frostito.Curve.Ring.{products, sub-ne-zero, prod-ne-zero, one-ne-zero}

module _ (s : ScalarField) where
  infixl 65 ◌⊕◌ ◌⊖◌
  infixl 70 ◌⊗◌
  open s use {Scalar, zero, one, from_u32, ◌⊕◌, ◌⊖◌, ◌⊗◌, neg, invert, scalar_eq}

  -- One at the node itself.
  unfoldable pub skip : Scalar → Scalar → Scalar → Scalar
  skip x y v = if decide (scalar_eq y x) then one else v

  -- The product of `f y` over the nodes y other than x.
  unfoldable pub others : Scalar → (Scalar → Scalar) → List Scalar → Scalar
  unfolding skip
  others x f [] = one
  others x f (y ∷ ys) = skip x y (f y) ⊗ others x f ys

  pub factor : Scalar → Scalar → Scalar
  factor x y = y ⊗ invert (y ⊖ x)

  -- λ_x over the nodes `ys`.
  unfoldable pub weight : Scalar → List Scalar → Scalar
  unfolding others factor
  weight x ys = others x (factor x) ys

  unfoldable pub product : List Scalar → Scalar
  product [] = one
  product (x ∷ xs) = x ⊗ product xs

  -- The nodes are pairwise different.
  abbrev pub AreDistinct : List Scalar → Type 0
  AreDistinct [] = Unit
  AreDistinct (x ∷ xs) = All (λ y. y ≢ x) xs × AreDistinct xs

  pub skip_self : (x v : Scalar) → skip x x v ≡ one
  unfolding skip
  skip_self x v = rw (decide-true (scalar_eq x x) refl)

  pub skip_other : (x y v : Scalar) → y ≢ x → skip x y v ≡ v
  unfolding skip
  skip_other x y v n = rw (decide-false (scalar_eq y x) n)

  -- Two such products multiply factor by factor.
  pub others-mul :
      (x : Scalar) (f g h : Scalar → Scalar) (ys : List Scalar)
      → ((y : Scalar) → y ≢ x → f y ⊗ g y ≡ h y)
      → others x f ys ⊗ others x g ys ≡ others x h ys
  unfolding others skip
  others-mul x f g h [] e = s.mul-one one
  others-mul x f g h (y ∷ ys) e =
      regroup _ _ _ _ ∙ ap₂ (λ a b. a ⊗ b) head (others-mul x f g h ys e)
    where
      regroup : (a b p q : Scalar) → (a ⊗ p) ⊗ (b ⊗ q) ≡ (a ⊗ b) ⊗ (p ⊗ q)
      regroup a b p q = simp products

      head : skip x y (f y) ⊗ skip x y (g y) ≡ skip x y (h y)
      head =
          elim (scalar_eq y x)
            as (λ d.
              (if decide d then one else f y) ⊗ (if decide d then one else g y)
              ≡ (if decide d then one else h y)) [ yes p ↦ s.mul-one one | no n ↦ e y n ]

  others-ne-zero :
      (x : Scalar) (f : Scalar → Scalar) (ys : List Scalar)
      → one ≢ zero
      → ((y : Scalar) → y ≢ x → f y ≢ zero)
      → others x f ys ≢ zero
  unfolding others skip
  others-ne-zero x f [] o h = o
  others-ne-zero x f (y ∷ ys) o h =
      prod-ne-zero s _ _
        (elim (scalar_eq y x) as (λ d. (if decide d then one else f y) ≢ zero) [
          | yes p ↦ o
          | no n ↦ h y n
        ])
        (others-ne-zero x f ys o h)

  factor-mul : (x y : Scalar) → y ≢ x → factor x y ⊗ (y ⊖ x) ≡ y
  unfolding factor
  factor-mul x y n =
      s.mul_assoc y (invert (y ⊖ x)) (y ⊖ x)
      ∙ ap (λ v. y ⊗ v)
          (s.mul_comm (invert (y ⊖ x)) (y ⊖ x) ∙ s.mul-invert (y ⊖ x) (sub-ne-zero s y x n))
      ∙ s.mul-one y

  pub mul-factor : (x y : Scalar) → y ≢ x → (y ⊖ x) ⊗ factor x y ≡ y
  mul-factor x y n = s.mul_comm (y ⊖ x) (factor x y) ∙ factor-mul x y n

  -- The product of the differences to the other nodes.
  unfoldable pub denominator : Scalar → List Scalar → Scalar
  unfolding others
  denominator x ys = others x (λ y. y ⊖ x) ys

  pub weight-denominator :
      (x : Scalar) (ys : List Scalar) → weight x ys ⊗ denominator x ys ≡ others x (λ y. y) ys
  unfolding weight denominator
  weight-denominator x ys =
      others-mul x (factor x) (λ y. y ⊖ x) (λ y. y) ys (λ y n. factor-mul x y n)

  pub denominator-ne-zero : (x : Scalar) (ys : List Scalar) → x ≢ zero → denominator x ys ≢ zero
  unfolding denominator
  denominator-ne-zero x ys n =
      others-ne-zero x (λ y. y ⊖ x) ys (one-ne-zero s x n) (λ y m. sub-ne-zero s y x m)

  -- Where x is no node, nothing is skipped.
  pub others_absent :
      (x : Scalar) (ys : List Scalar) → All (λ y. y ≢ x) ys → others x (λ y. y) ys ≡ product ys
  unfolding others product
  others_absent x [] h = refl
  others_absent x (y ∷ ys) h = ap₂ (λ a b. a ⊗ b) (skip_other x y y h.0) (others_absent x ys h.1)

  pub weight_lone : (x : Scalar) → weight x (x ∷ []) ≡ one
  unfolding weight others
  weight_lone x = ap (λ v. v ⊗ one) (skip_self x (factor x x)) ∙ s.mul-one one

  pub weight_none : (x : Scalar) → weight x [] ≡ one
  unfolding weight others
  weight_none x = refl
