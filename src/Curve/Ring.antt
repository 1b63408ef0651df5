-- ===== src/Curve/Ring.antt =====
-- The consequences of the field and group laws that the proofs use, and rule sets that put both
-- sides of an equation into one order.
use frostito.Prelude.{◌≡◌, ◌≢◌, sym, ap, ap₂, ◌∙◌, ◌≡⟨◌⟩◌, ◌∎}
use frostito.Curve.{ScalarField, Curve}

module _ (s : ScalarField) where
  infixl 65 ◌⊕◌ ◌⊖◌
  infixl 70 ◌⊗◌
  open s use {Scalar, zero, one, ◌⊕◌, ◌⊖◌, ◌⊗◌, neg, invert}

  pub sum_assoc : (a b c : Scalar) → a ⊕ b ⊕ c ≡ a ⊕ (b ⊕ c)
  sum_assoc = s.add_assoc

  pub sum_comm : (a b : Scalar) → a ⊕ b ≡ b ⊕ a
  sum_comm = s.add_comm

  pub sum_left_comm : (a b c : Scalar) → a ⊕ (b ⊕ c) ≡ b ⊕ (a ⊕ c)
  sum_left_comm a b c =
      sym (s.add_assoc a b c) ∙ ap (λ x. x ⊕ c) (s.add_comm a b) ∙ s.add_assoc b a c

  pub prod_left_comm : (a b c : Scalar) → a ⊗ (b ⊗ c) ≡ b ⊗ (a ⊗ c)
  prod_left_comm a b c =
      sym (s.mul_assoc a b c) ∙ ap (λ x. x ⊗ c) (s.mul_comm a b) ∙ s.mul_assoc b a c

  pub prod_assoc : (a b c : Scalar) → a ⊗ b ⊗ c ≡ a ⊗ (b ⊗ c)
  prod_assoc = s.mul_assoc

  pub prod_comm : (a b : Scalar) → a ⊗ b ≡ b ⊗ a
  prod_comm = s.mul_comm

  pub prod-sum : (a b c : Scalar) → a ⊗ (b ⊕ c) ≡ a ⊗ b ⊕ a ⊗ c
  prod-sum = s.mul-add

  pub sub_eq : (a b : Scalar) → a ⊖ b ≡ a ⊕ neg b
  sub_eq = s.sub-def

  pub sum-zero : (a : Scalar) → a ⊕ zero ≡ a
  sum-zero = s.add-zero

  pub prod-one : (a : Scalar) → a ⊗ one ≡ a
  prod-one = s.mul-one

  pub zero-sum : (a : Scalar) → zero ⊕ a ≡ a
  zero-sum a = s.add_comm zero a ∙ s.add-zero a

  pub one-prod : (a : Scalar) → one ⊗ a ≡ a
  one-prod a = s.mul_comm one a ∙ s.mul-one a

  pub add_left_cancel : (a b c : Scalar) → a ⊕ b ≡ a ⊕ c → b ≡ c
  add_left_cancel a b c h =
      b ≡⟨ sym (undo b) ⟩ neg a ⊕ (a ⊕ b) ≡⟨ ap (λ x. neg a ⊕ x) h ⟩ neg a ⊕ (a ⊕ c) ≡⟨ undo c ⟩ c ∎
    where
      undo : (x : Scalar) → neg a ⊕ (a ⊕ x) ≡ x
      undo x =
          sym (s.add_assoc (neg a) a x)
          ∙ ap (λ y. y ⊕ x) (s.add_comm (neg a) a ∙ s.add-neg a)
          ∙ zero-sum x

  pub prod-zero : (a : Scalar) → a ⊗ zero ≡ zero
  prod-zero a = add_left_cancel (a ⊗ zero) (a ⊗ zero) zero (
      sym (s.mul-add a zero zero) ∙ ap (λ x. a ⊗ x) (s.add-zero zero) ∙ sym (s.add-zero (a ⊗ zero)))

  pub zero-prod : (a : Scalar) → zero ⊗ a ≡ zero
  zero-prod a = s.mul_comm zero a ∙ prod-zero a

  pub sum-prod : (a b c : Scalar) → (a ⊕ b) ⊗ c ≡ a ⊗ c ⊕ b ⊗ c
  sum-prod a b c = simp (s.mul_comm, s.mul-add)

  pub prod-neg : (a b : Scalar) → a ⊗ neg b ≡ neg (a ⊗ b)
  prod-neg a b = add_left_cancel (a ⊗ b) (a ⊗ neg b) (neg (a ⊗ b)) (
      sym (s.mul-add a b (neg b))
      ∙ ap (λ x. a ⊗ x) (s.add-neg b)
      ∙ prod-zero a
      ∙ sym (s.add-neg (a ⊗ b)))

  pub neg-prod : (a b : Scalar) → neg a ⊗ b ≡ neg (a ⊗ b)
  neg-prod a b = s.mul_comm (neg a) b ∙ prod-neg b a ∙ ap neg (s.mul_comm b a)

  pub neg-zero : neg zero ≡ zero
  neg-zero = sym (zero-sum (neg zero)) ∙ s.add-neg zero

  pub neg-sum : (a b : Scalar) → neg (a ⊕ b) ≡ neg a ⊕ neg b
  neg-sum a b = add_left_cancel (a ⊕ b) (neg (a ⊕ b)) (neg a ⊕ neg b) (
      s.add-neg (a ⊕ b)
      ∙ sym (regroup ∙ ap₂ (λ x y. x ⊕ y) (s.add-neg a) (s.add-neg b) ∙ s.add-zero zero))
    where
      regroup : a ⊕ b ⊕ (neg a ⊕ neg b) ≡ (a ⊕ neg a) ⊕ (b ⊕ neg b)
      regroup = simp (sum_assoc, sum_left_comm)

  pub neg-neg : (a : Scalar) → neg (neg a) ≡ a
  neg-neg a =
      add_left_cancel (neg a) (neg (neg a)) a
        (s.add-neg (neg a) ∙ sym (s.add-neg a) ∙ s.add_comm a (neg a))

  pub sum_cancel : (a b : Scalar) → a ⊕ (neg a ⊕ b) ≡ b
  sum_cancel a b = sym (s.add_assoc a (neg a) b) ∙ ap (λ y. y ⊕ b) (s.add-neg a) ∙ zero-sum b

  pub sum_cancel_neg : (a b : Scalar) → neg a ⊕ (a ⊕ b) ≡ b
  sum_cancel_neg a b =
      sym (s.add_assoc (neg a) a b)
      ∙ ap (λ y. y ⊕ b) (s.add_comm (neg a) a ∙ s.add-neg a)
      ∙ zero-sum b

  pub sub-eq-zero : (a b : Scalar) → a ⊖ b ≡ zero → a ≡ b
  sub-eq-zero a b h =
      a
      ≡⟨ sym (sum_cancel b a) ⟩ b ⊕ (neg b ⊕ a)
      ≡⟨ ap (λ x. b ⊕ x) (s.add_comm (neg b) a ∙ sym (s.sub-def a b) ∙ h) ⟩ b ⊕ zero
      ≡⟨ s.add-zero b ⟩ b ∎

  pub sub-ne-zero : (a b : Scalar) → a ≢ b → a ⊖ b ≢ zero
  sub-ne-zero a b n h = n (sub-eq-zero a b h)

  pub mul_left_cancel : (a b c : Scalar) → a ≢ zero → a ⊗ b ≡ a ⊗ c → b ≡ c
  mul_left_cancel a b c n h =
      b
      ≡⟨ sym (undo b) ⟩ invert a ⊗ (a ⊗ b)
      ≡⟨ ap (λ x. invert a ⊗ x) h ⟩ invert a ⊗ (a ⊗ c)
      ≡⟨ undo c ⟩ c ∎
    where
      undo : (x : Scalar) → invert a ⊗ (a ⊗ x) ≡ x
      undo x =
          sym (s.mul_assoc (invert a) a x)
          ∙ ap (λ y. y ⊗ x) (s.mul_comm (invert a) a ∙ s.mul-invert a n)
          ∙ one-prod x

  pub prod-ne-zero : (a b : Scalar) → a ≢ zero → b ≢ zero → a ⊗ b ≢ zero
  prod-ne-zero a b na nb h = nb (mul_left_cancel a b zero na (h ∙ sym (prod-zero a)))

  pub one-ne-zero : (a : Scalar) → a ≢ zero → one ≢ zero
  one-ne-zero a n h = n (sym (s.mul-one a) ∙ ap (λ x. a ⊗ x) h ∙ prod-zero a)

  pub cancel_end : (a : Scalar) → neg a ⊕ a ≡ zero
  cancel_end a = s.add_comm (neg a) a ∙ s.add-neg a

  pub cancel_over : (a u : Scalar) → a ⊕ (u ⊕ neg a) ≡ u
  cancel_over a u = ap (λ x. a ⊕ x) (s.add_comm u (neg a)) ∙ sum_cancel a u

  pub cancel_across : (a u v : Scalar) → a ⊕ (u ⊕ (neg a ⊕ v)) ≡ u ⊕ v
  cancel_across a u v = ap (λ x. a ⊕ x) (sum_left_comm u (neg a) v) ∙ sum_cancel a (u ⊕ v)

  pub cancel_over_two : (a u v : Scalar) → a ⊕ (u ⊕ (v ⊕ neg a)) ≡ u ⊕ v
  cancel_over_two a u v = ap (λ x. a ⊕ x) (sym (s.add_assoc u v (neg a))) ∙ cancel_over a (u ⊕ v)

  pub cancel_across_two : (a u v w : Scalar) → a ⊕ (u ⊕ (v ⊕ (neg a ⊕ w))) ≡ u ⊕ (v ⊕ w)
  cancel_across_two a u v w =
      ap (λ x. a ⊕ x) (sym (s.add_assoc u v (neg a ⊕ w)))
      ∙ cancel_across a (u ⊕ v) w
      ∙ s.add_assoc u v w

  pub add_neg : (a : Scalar) → a ⊕ neg a ≡ zero
  add_neg = s.add-neg

-- Sums and products sorted, and products multiplied out.
pub ruleset ring = (
  sub_eq, sum_assoc, sum_comm, sum_left_comm, prod_assoc, prod_comm, prod_left_comm, prod-sum,
  sum-prod, neg-sum, neg-prod, prod-neg, neg-neg, neg-zero, zero-sum, sum-zero, zero-prod,
  prod-zero, one-prod, prod-one,
)

-- The same, where a term meets its negative.
pub ruleset cancelling = (
  add_neg, cancel_end, sum_cancel, sum_cancel_neg, cancel_over, cancel_across, cancel_over_two,
  cancel_across_two, ring,
)

-- Products alone.
pub ruleset products = (prod_assoc, prod_comm, prod_left_comm, one-prod, prod-one)

module _ (c : Curve) where
  infixl 65 ◌⊞◌
  infixr 70 ◌•◌
  open c use {Scalar, Point, identity, generator, ◌⊞◌, ◌•◌, zero, ◌⊕◌, ◌⊗◌, neg}

  pub points_assoc : (p q r : Point) → p ⊞ q ⊞ r ≡ p ⊞ (q ⊞ r)
  points_assoc = c.point_add_assoc

  pub points_comm : (p q : Point) → p ⊞ q ≡ q ⊞ p
  points_comm = c.point_add_comm

  pub points_left_comm : (p q r : Point) → p ⊞ (q ⊞ r) ≡ q ⊞ (p ⊞ r)
  points_left_comm p q r =
      sym (c.point_add_assoc p q r)
      ∙ ap (λ x. x ⊞ r) (c.point_add_comm p q)
      ∙ c.point_add_assoc q p r

  pub point-identity : (p : Point) → p ⊞ identity ≡ p
  point-identity = c.point_add-identity

  pub identity-point : (p : Point) → identity ⊞ p ≡ p
  identity-point p = c.point_add_comm identity p ∙ c.point_add-identity p

  pub smul-points : (a : Scalar) (p q : Point) → a • (p ⊞ q) ≡ a • p ⊞ a • q
  smul-points = c.smul-add

  pub sum-smul : (a b : Scalar) (p : Point) → (a ⊕ b) • p ≡ a • p ⊞ b • p
  sum-smul = c.add-smul

  pub prod-smul : (a b : Scalar) (p : Point) → (a ⊗ b) • p ≡ a • b • p
  prod-smul = c.mul-smul

  pub none-smul : (p : Point) → zero • p ≡ identity
  none-smul = c.zero-smul

  pub smul-identity : (a : Scalar) → a • identity ≡ identity
  smul-identity a =
      ap (λ p. a • p) (sym (c.zero-smul generator))
      ∙ sym (c.mul-smul a zero generator)
      ∙ ap (λ k. k • generator) (prod-zero c.scalars a)
      ∙ c.zero-smul generator

  pub smul_comm : (a b : Scalar) (p : Point) → a • b • p ≡ b • a • p
  smul_comm a b p =
      sym (c.mul-smul a b p) ∙ ap (λ k. k • p) (c.scalars.mul_comm a b) ∙ c.mul-smul b a p

-- Scalar multiples distributed, and sums of points sorted.
pub ruleset group = (
  points_assoc, points_comm, points_left_comm, point-identity, identity-point, smul-points,
  sum-smul, prod-smul, none-smul, smul-identity, smul_comm,
)
