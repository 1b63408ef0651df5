-- ===== src/Curve/Differences.antt =====
-- src/curve.rs: differences of multiples of points.
use frostito.Prelude.{◌≡◌, ◌≢◌, sym, ap, ◌∙◌}
use frostito.Curve.{Curve}
use frostito.Curve.Ring.{cancelling, sub-ne-zero, points_left_comm}

module _ (c : Curve) where
  infixl 65 ◌⊕◌ ◌⊞◌ ◌⊖◌
  infixl 70 ◌⊗◌
  infixr 70 ◌•◌
  open c use {
    Scalar, Point, generator, ◌⊕◌, ◌⊖◌, ◌⊗◌, ◌⊞◌, ◌•◌, invert, identity, neg, zero as zero_scalar,
    one,
  }

  point_cancel : (p p' q : Point) → p ⊞ q ≡ p' ⊞ q → p ≡ p'
  point_cancel p p' q h = sym (undo p) ∙ ap (λ x. x ⊞ neg one • q) h ∙ undo p'
    where
      cancelled : q ⊞ neg one • q ≡ identity
      cancelled =
          ap (λ x. x ⊞ neg one • q) (sym (c.one-smul q))
          ∙ sym (c.add-smul one (neg one) q)
          ∙ ap (λ k. k • q) (c.scalars.add-neg one)
          ∙ c.zero-smul q

      undo : (x : Point) → x ⊞ q ⊞ neg one • q ≡ x
      undo x =
          c.point_add_assoc x q (neg one • q) ∙ ap (λ y. x ⊞ y) cancelled ∙ c.point_add-identity x

  sub_back : (a b : Scalar) → a ⊖ b ⊕ b ≡ a
  sub_back a b = simp cancelling

  split_multiple : (a b : Scalar) (p : Point) → a • p ≡ (a ⊖ b) • p ⊞ b • p
  split_multiple a b p = ap (λ k. k • p) (sym (sub_back a b)) ∙ c.add-smul (a ⊖ b) b p

  -- Two combinations of one point that share the remaining term.
  pub difference :
      (e f y z : Scalar) (r p : Point)
      → y • generator ≡ r ⊞ e • p
      → z • generator ≡ r ⊞ f • p
      → (y ⊖ z) • generator ≡ (e ⊖ f) • p
  difference e f y z r p h k = point_cancel _ _ (z • generator) (
      sym (split_multiple y z generator)
      ∙ h
      ∙ ap (λ q. r ⊞ q) (split_multiple e f p)
      ∙ points_left_comm c r ((e ⊖ f) • p) (f • p)
      ∙ ap (λ q. (e ⊖ f) • p ⊞ q) (sym k))

  pub smul_undone : (e f : Scalar) (p : Point) → e ≢ f → invert (e ⊖ f) • (e ⊖ f) • p ≡ p
  smul_undone e f p d =
      sym (c.mul-smul (invert (e ⊖ f)) (e ⊖ f) p)
      ∙ ap (λ x. x • p)
          (c.scalars.mul_comm (invert (e ⊖ f)) (e ⊖ f)
            ∙ c.scalars.mul-invert (e ⊖ f) (sub-ne-zero c.scalars e f d))
      ∙ c.one-smul p

  pub smul_difference_cancel :
      (e f : Scalar) (p q : Point) → e ≢ f → (e ⊖ f) • p ≡ (e ⊖ f) • q → p ≡ q
  smul_difference_cancel e f p q d h =
      sym (smul_undone e f p d) ∙ ap (λ x. invert (e ⊖ f) • x) h ∙ smul_undone e f q d
