-- ===== src/Commitment/Feldman.antt =====
-- src/reshare.rs, the Feldman check of a sub-share against a commitment.
use frostito.Prelude.{
  ℕ, ◌≡◌, refl, sym, ap, ◌∙◌, true, false, List, [], ◌∷◌, map, ◌==◌, if◌then◌else◌, decide,
  decide-true, decide-false, true_of_decide, arith, Bool-cases, inl, inr,
}
use frostito.Error.{ok}
use frostito.Curve.{Curve}
use frostito.Polynomial.{horner, horner_points}
use frostito.Polynomial.Laws.{horner_points-commit}
use frostito.Commitment.{
  DealerCommitment, SubShare, generate_subshare, from_polynomial, evaluate_at, verify_subshare,
}

module _ (c : Curve) where
  infixr 70 ◌•◌
  open c use {Scalar, Point, generator, ◌•◌, from_u32, point_eq, scalar_eq}

  -- The commitment to a polynomial.
  abbrev pub commit : List Scalar → List Point
  commit = map (λ k. k • generator)

  pub evaluate_at-commit :
      (i j : ℕ) (ps : List Scalar)
      → (j == 0) ≡ false
      → evaluate_at c (record { dealer_index = i; coefficients = commit ps }) j
        ≡ ok (horner c.scalars (from_u32 j) ps • generator)
  unfolding evaluate_at
  evaluate_at-commit i j ps h = rw h (ap ok (horner_points-commit c (from_u32 j) ps))

  compare_multiples :
      (a b : Scalar) → decide (point_eq (a • generator) (b • generator)) ≡ decide (scalar_eq a b)
  compare_multiples a b =
      elim (scalar_eq a b) as (λ d. decide (point_eq (a • generator) (b • generator)) ≡ decide d) [
        | yes p ↦ decide-true (point_eq _ _) (ap (λ k. k • generator) p)
        | no n ↦ decide-false (point_eq _ _) (λ e. n (c.smul_generator_injective a b e))
      ]

  -- Against the commitment to a polynomial, player j's check accepts the polynomial's value at j and
  -- nothing else; it accepts nothing for player 0.
  pub verify_subshare-horner :
      (i j : ℕ) (ps : List Scalar) (v : Scalar)
      → verify_subshare c (record { dealer_index = i; coefficients = commit ps }) j v
        ≡ (if j == 0 then false else decide (scalar_eq v (horner c.scalars (from_u32 j) ps)))
  unfolding verify_subshare
  verify_subshare-horner i j ps v = elim (Bool-cases (j == 0)) [
    | inl z ↦ rw z
    | inr p ↦ rw p (
        ap (λ e. decide (point_eq (v • generator) e)) (horner_points-commit c (from_u32 j) ps)
        ∙ compare_multiples v _)
  ]

  -- What the check means for any commitment.
  pub verify_subshare_sound :
      (commitment : DealerCommitment Point) (j : ℕ) (v : Scalar)
      → verify_subshare c commitment j v ≡ true
      → evaluate_at c commitment j ≡ ok (v • generator)
  unfolding verify_subshare evaluate_at
  verify_subshare_sound commitment j v h = elim (Bool-cases (j == 0)) [
    | inl z ↦ cc (rw z at h)
    | inr p ↦ rw p (ap ok (sym (true_of_decide (point_eq _ _) (rw p at h))))
  ]

  -- The sub-share that an honest dealer generates for player j passes the check against the
  -- commitment that the dealer publishes.
  pub generate_subshare-verifies :
      (i j : ℕ) (ps : List Scalar) {share : SubShare Scalar} {commitment : DealerCommitment Point}
      → generate_subshare c.scalars i ps j ≡ ok share
      → from_polynomial c i ps ≡ ok commitment
      → (share.dealer_index ≡ commitment.dealer_index)
        × (share.player_index ≡ j)
        × (verify_subshare c commitment j share.value ≡ true)
  unfolding generate_subshare from_polynomial
  generate_subshare-verifies i j [] g f = absurd (ground arith)
  generate_subshare-verifies i j (a ∷ rest) g f =
      let value = horner c.scalars (from_u32 j) (a ∷ rest) in
      ground (
        arith,
        verify_subshare-horner i j (a ∷ rest) value,
        decide-true (scalar_eq value value) refl,
      )

  pub verify_subshare-horner_points :
      (commitment : DealerCommitment Point) (j : ℕ) (v : Scalar)
      → (j == 0) ≡ false
      → verify_subshare c commitment j v ≡ true
      → horner_points c (from_u32 j) commitment.coefficients ≡ v • generator
  unfolding verify_subshare
  verify_subshare-horner_points commitment j v p h = sym (true_of_decide (point_eq _ _) (rw p at h))
