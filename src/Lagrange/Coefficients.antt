-- ===== src/Lagrange/Coefficients.antt =====
-- src/lagrange.rs: the whole function against the textbook coefficients, with its refusals.
use frostito.Prelude.{
  ℕ, ◌<◌, ◌≡◌, ◌≢◌, refl, sym, ap, ap₂, subst, ◌∙◌, true, false, List, [], ◌∷◌, map, All, All-zip,
  get_elem?, decide-false, arith, inl, inr, ◌⊎◌,
}
use frostito.Error.{Result, ok, err, invalid_index, duplicate_index, empty_contributions}
use frostito.Curve.{ScalarField}
use frostito.Curve.Ring.{products, mul_left_cancel, prod-ne-zero, one-ne-zero, one-prod}
use frostito.Indices.{is_distinct, all_positive, occurrences}
use frostito.Indices.Sorting.{scan-sort}
use frostito.Lagrange.{
  check_positive, fold_product, d_values_from, forward, backward, common_denominator,
  coefficients_of, compute_lagrange_coefficients,
}
use frostito.Lagrange.Reference.{
  others, weight, product, denominator, AreDistinct, weight-denominator, denominator-ne-zero,
  others_absent, skip_self, skip_other, weight_lone,
}
use frostito.Lagrange.Nodes.{Fits, nodes_of, from_u32-ne-zero, map-AreDistinct, map-ne-zero}
use frostito.Lagrange.Passes.{fold_product-product, Covers, backward-forward, d_values-denominator}

module _ (s : ScalarField) where
  infixl 65 ◌⊖◌
  infixl 70 ◌⊗◌
  open s use {Scalar, zero as zero_scalar, one, from_u32, ◌⊖◌, ◌⊗◌, invert, scalar_eq, capacity}

  -- At each node, the textbook weight times the code's `d` is the product of all nodes.
  abbrev Scales : List Scalar → Scalar → Type 0
  Scales nodes x = x ⊗ others s x (λ y. y) nodes ≡ product s nodes

  nodes_scale : (nodes : List Scalar) → AreDistinct s nodes → All (Scales nodes) nodes
  unfolding others product
  nodes_scale [] d = tt
  nodes_scale (x ∷ rest) d = (
    ap (λ v. x ⊗ v)
        (ap₂ (λ a b. a ⊗ b) (skip_self s x x) (others_absent s x rest d.0) ∙ one-prod s _),
    All-zip step rest d.0 (nodes_scale rest d.1),
  )
    where
      step : (z : Scalar) → z ≢ x → Scales rest z → Scales (x ∷ rest) z
      step z n e =
          ap (λ v. z ⊗ (v ⊗ others s z (λ y. y) rest)) (skip_other s z x x (λ p. n (sym p)))
          ∙ swap z x (others s z (λ y. y) rest)
          ∙ ap (λ v. x ⊗ v) e
        where
          swap : (a b c : Scalar) → a ⊗ (b ⊗ c) ≡ b ⊗ (a ⊗ c)
          swap a b c = simp products

  -- What makes a cell of the passes, scaled, the weight of its node.
  abbrev Solves : List Scalar → Scalar → Type 0
  Solves nodes x =
      (weight s x nodes ⊗ (x ⊗ denominator s x nodes) ≡ product s nodes)
      × (x ⊗ denominator s x nodes ≢ zero_scalar)

  nodes_solve :
      (nodes : List Scalar)
      → AreDistinct s nodes
      → All (λ x. x ≢ zero_scalar) nodes
      → All (Solves nodes) nodes
  nodes_solve nodes d n = All-zip solve nodes (nodes_scale nodes d) n
    where
      swap : (a b c : Scalar) → a ⊗ (b ⊗ c) ≡ b ⊗ (a ⊗ c)
      swap a b c = simp products

      solve : (x : Scalar) → Scales nodes x → x ≢ zero_scalar → Solves nodes x
      solve x e m = (
        swap _ _ _ ∙ ap (λ v. x ⊗ v) (weight-denominator s x nodes) ∙ e,
        prod-ne-zero s _ _ m (denominator-ne-zero s x nodes m),
      )

  scale_cell :
      (xi t w r d : Scalar)
      → r ⊗ d ≡ t
      → t ≢ zero_scalar
      → w ⊗ d ≡ xi
      → d ≢ zero_scalar
      → (xi ⊗ invert t) ⊗ r ≡ w
  scale_cell xi t w r d e n h m = mul_left_cancel s d ((xi ⊗ invert t) ⊗ r) w m (
      regroup xi (invert t) r d
      ∙ ap (λ v. xi ⊗ (v ⊗ invert t)) e
      ∙ ap (λ v. xi ⊗ v) (s.mul-invert t n)
      ∙ s.mul-one xi
      ∙ sym h
      ∙ s.mul_comm w d)
    where
      regroup : (a b c e : Scalar) → e ⊗ ((a ⊗ b) ⊗ c) ≡ a ⊗ ((c ⊗ e) ⊗ b)
      regroup a b c e = simp products

  scale_cells :
      (nodes : List Scalar) (t : Scalar) (rs xs : List Scalar)
      → t ≢ zero_scalar
      → Covers s t rs (map (λ x. x ⊗ denominator s x nodes) xs)
      → All (Solves nodes) xs
      → map (λ r. (product s nodes ⊗ invert t) ⊗ r) rs ≡ map (λ x. weight s x nodes) xs
  scale_cells nodes t [] [] n c a = refl
  scale_cells nodes t [] (x ∷ xs) n c a = absurd c
  scale_cells nodes t (r ∷ rs) [] n c a = absurd c
  scale_cells nodes t (r ∷ rs) (x ∷ xs) n c a =
      ap₂ (λ v vs. v ∷ vs) (scale_cell (product s nodes) t _ r _ c.0 n a.0.0 a.0.1)
        (scale_cells nodes t rs xs n c.1 a.1)

  product-ne-zero :
      (nodes xs : List Scalar)
      → one ≢ zero_scalar
      → All (Solves nodes) xs
      → product s (map (λ x. x ⊗ denominator s x nodes) xs) ≢ zero_scalar
  unfolding product
  product-ne-zero nodes [] o a = o
  product-ne-zero nodes (x ∷ xs) o a = prod-ne-zero s _ _ a.0.1 (product-ne-zero nodes xs o a.1)

  -- The common-denominator computation gives the textbook weights, and its assertion holds.
  pub common_denominator-weights :
      (nodes : List Scalar)
      → one ≢ zero_scalar
      → AreDistinct s nodes
      → All (λ x. x ≢ zero_scalar) nodes
      → common_denominator s nodes ≡ ok (map (λ x. weight s x nodes) nodes)
  unfolding common_denominator
  common_denominator-weights nodes o d n =
      rw (values, xi, passes.0, decide-false (scalar_eq (product s ds) zero_scalar) total_ne)
        (ap ok (
          scale_cells nodes (product s ds) _ nodes total_ne
            (subst (λ t. Covers s t (backward s (forward s one ds) ds).0 ds)
              (one-prod s (product s ds)) passes.1)
            solved))
    where
      ds : List Scalar
      ds = map (λ x. x ⊗ denominator s x nodes) nodes

      solved : All (Solves nodes) nodes
      solved = nodes_solve nodes d n

      total_ne : product s ds ≢ zero_scalar
      total_ne = product-ne-zero nodes nodes o solved

      values : d_values_from s nodes 0 nodes ≡ ds
      values = d_values-denominator s nodes nodes 0 d (λ m. ap (get_elem? nodes) (omega arith))

      xi : fold_product s one nodes ≡ product s nodes
      xi = fold_product-product s one nodes ∙ one-prod s (product s nodes)

      passes :
          ((backward s (forward s one ds) ds).1 ≡ product s ds)
          × Covers s (one ⊗ product s ds) (backward s (forward s one ds) ds).0 ds
      passes = backward-forward s one ds

  -- The reference: the textbook weight of each index's node.
  unfoldable pub reference_coefficients : List ℕ → List Scalar
  reference_coefficients indices = map (λ x. weight s x (nodes_of s indices)) (nodes_of s indices)

  -- How a run of the code ends on a list of indices.
  abbrev pub Outcome : List ℕ → Result (List Scalar) → Type 0
  Outcome indices r =
      ((indices ≡ []) × (r ≡ err empty_contributions))
      ⊎ (((all_positive indices ≡ false) × (r ≡ err invalid_index))
          ⊎ (((d : ℕ) × (all_positive indices ≡ true)
                × (is_distinct indices ≡ false)
                × (1 < occurrences d indices)
                × (r ≡ err (duplicate_index d)))
              ⊎ ((indices ≢ [])
                  × (all_positive indices ≡ true)
                  × (is_distinct indices ≡ true)
                  × (r ≡ ok (reference_coefficients indices)))))

  check_positive-eq :
      (indices : List ℕ)
      → ((all_positive indices ≡ true) × (check_positive indices ≡ ok tt))
        ⊎ ((all_positive indices ≡ false) × (check_positive indices ≡ err invalid_index))
  unfolding check_positive
  check_positive-eq [] = inl (refl, refl)
  check_positive-eq (i ∷ rest) = ground (arith, check_positive-eq rest)

  coefficients_of-reference :
      (i : ℕ) (rest : List ℕ)
      → Fits s (i ∷ rest)
      → all_positive (i ∷ rest) ≡ true
      → is_distinct (i ∷ rest) ≡ true
      → coefficients_of s (i ∷ rest) ≡ ok (reference_coefficients (i ∷ rest))
  unfolding coefficients_of reference_coefficients
  coefficients_of-reference i [] f p d = ap (λ v. ok (v ∷ [])) (sym (weight_lone s (from_u32 i)))
  coefficients_of-reference i (j ∷ rest) f p d =
      common_denominator-weights (nodes_of s (i ∷ j ∷ rest))
        (one-ne-zero s (from_u32 i) (from_u32-ne-zero s i f.0 (ground arith)))
        (map-AreDistinct s (i ∷ j ∷ rest) f d) (map-ne-zero s (i ∷ j ∷ rest) f p)

  -- For indices below the field's capacity, the code returns the textbook Lagrange coefficients when
  -- the indices are nonempty, positive and distinct; otherwise it returns the error of the first
  -- failing check, which for a repetition names an index that occurs more than once; it never panics.
  pub compute_lagrange-Outcome :
      (indices : List ℕ)
      → Fits s indices
      → Outcome indices (compute_lagrange_coefficients s indices)
  unfolding compute_lagrange_coefficients
  compute_lagrange-Outcome [] f = inl (refl, refl)
  compute_lagrange-Outcome (i ∷ rest) f = elim (check_positive-eq (i ∷ rest)) [
    | inr (p, e) ↦ inr (inl (p, rw e))
    | inl (p, e) ↦ rw e (elim (scan-sort (i ∷ rest)) [
      | inr (d, m, n, r) ↦ inr (inr (inl (d, p, n, m, rw r)))
      | inl (d, r) ↦
          inr (inr (inr ((λ q. cc), p, d, rw r (coefficients_of-reference i rest f p d))))
    ])
  ]

  pub compute_lagrange-reference :
      (indices : List ℕ)
      → indices ≢ []
      → Fits s indices
      → all_positive indices ≡ true
      → is_distinct indices ≡ true
      → compute_lagrange_coefficients s indices ≡ ok (reference_coefficients indices)
  compute_lagrange-reference indices n f p d = elim (compute_lagrange-Outcome indices f) [
    | inl (e, r) ↦ absurd (n e)
    | inr (inl (q, r)) ↦ cc
    | inr (inr (inl (k, q, m, c, r))) ↦ cc
    | inr (inr (inr (m, q, e, r))) ↦ r
  ]
