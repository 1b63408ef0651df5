-- ===== src/Reshare/Aggregator/Correct.antt =====
-- src/reshare.rs, `Aggregator::finalize` on a complete aggregator.
use frostito.Prelude.{
  ℕ, ◌<◌, ◌≡◌, refl, ap, ◌∙◌, true, false, List, [], ◌∷◌, All, All-of_contains, map, length, find,
  ◌==◌, if◌then◌else◌, decide, decide-true, arith, Bool-cases, inl, inr, none, some,
}
use frostito.Error.{ok, err, invalid_commitment}
use frostito.Curve.{Curve}
use frostito.Polynomial.{horner_points}
use frostito.Lagrange.Nodes.{Fits}
use frostito.Lagrange.Combination.{combine}
use frostito.Commitment.Feldman.{verify_subshare-horner_points}
use frostito.Reshare.{SharePolynomial, group_key, share_evaluate_at, verify_share}
use frostito.Reshare.Aggregator.{Aggregator, is_complete, lagrange, aggregate, polynomial, finalize}
use frostito.Reshare.Aggregator.Invariant.{Inv, agreed_length}
use frostito.Reshare.Aggregator.Loops.{Commits, Holds, aggregate_loop-combine}
use frostito.Reshare.Aggregator.Stored.{all-Stored, lagrange_total, polynomial_total}

module _ (c : Curve) where
  infixr 70 ◌•◌
  open c use {
    Scalar, Point, zero as zero_scalar, identity, generator, ◌•◌, from_u32, point_eq, scalars,
  }

  -- The value stored for a dealer.
  abbrev held : Aggregator Scalar Point → ℕ → Scalar
  held a d = elim (find (λ v. v.dealer_index == d) a.subshares) [
    | none ↦ zero_scalar
    | some v ↦ v.value
  ]

  All-held :
      (a : Aggregator Scalar Point)
      → Inv c a
      → is_complete a ≡ true
      → All (Holds c a (held a)) a.dealer_set
  All-held a inv done = All-of_contains (Holds c a (held a)) a.dealer_set λ d m.
      let (v, k, fv, fk, x) = all-Stored c a inv done d m in (v, rw fv refl, rw (fv, held) refl)

  All-commit :
      (a : Aggregator Scalar Point)
      → Inv c a
      → is_complete a ≡ true
      → All
          (Commits c a (agreed_length a.commitments) (from_u32 a.player_index) (held a))
          a.dealer_set
  All-commit a inv done =
      All-of_contains (Commits c a (agreed_length a.commitments) (from_u32 a.player_index) (held a))
        a.dealer_set
        λ d m.
          let (v, k, fv, fk, x) = all-Stored c a inv done d m in
          (
            k,
            rw fk refl,
            x.sized,
            verify_subshare-horner_points c k a.player_index v.value inv.player_positive x.checked
                ∙ rw (fv, held) refl,
          )

  aggregate_of :
      (a : Aggregator Scalar Point) (ls : List Scalar)
      → lagrange c a ≡ ok ls
      → All (Holds c a (held a)) a.dealer_set
      → aggregate c a ≡ ok (combine scalars zero_scalar ls (map (held a) a.dealer_set))
  unfolding aggregate
  aggregate_of a ls e h = rw e (aggregate_loop-combine c a (held a) a.dealer_set ls zero_scalar h)

  key_of :
      (cs : List Point)
      → 0 < length cs
      → (key : Point) × (group_key (record { coefficients = cs }) ≡ ok key)
  unfolding group_key
  key_of [] h = absurd (omega arith)
  key_of (p ∷ ps) h = (p, refl)

  share_at :
      (cs : List Point) (share : Scalar) (j : ℕ)
      → (j == 0) ≡ false
      → horner_points c (from_u32 j) cs ≡ share • generator
      → share_evaluate_at c (record { coefficients = cs }) j ≡ ok (share • generator)
  unfolding share_evaluate_at
  share_at cs share j h e = rw h (ap ok e)

  verified :
      (p : SharePolynomial Point) (j : ℕ) (share : Scalar)
      → (j == 0) ≡ false
      → share_evaluate_at c p j ≡ ok (share • generator)
      → verify_share c p j share ≡ true
  unfolding verify_share
  verified p j share pos at = rw (pos, at) (decide-true (point_eq _ _) refl)

  finalize_of :
      (a : Aggregator Scalar Point) (expected : Point) (share : Scalar) (p : SharePolynomial Point)
      (key : Point)
      → aggregate c a ≡ ok share
      → polynomial c a ≡ ok p
      → group_key p ≡ ok key
      → (a.player_index == 0) ≡ false
      → share_evaluate_at c p a.player_index ≡ ok (share • generator)
      → finalize c a expected
        ≡ (if decide (point_eq key expected) then ok (share, p) else err invalid_commitment)
  unfolding finalize
  finalize_of a expected share p key agg poly has_key pos at =
      elim (Bool-cases (decide (point_eq key expected))) [
        | inl same ↦ rw (poly, has_key, same, agg, verified p a.player_index share pos at) refl
        | inr differs ↦ rw (poly, has_key, differs) refl
      ]

  -- A complete aggregator that satisfies the invariant, with indices below the field's capacity and
  -- commitments that are not empty, always has a share, a polynomial and a group key; the share's
  -- public point is the polynomial's value at the player; and `finalize` returns the share and the
  -- polynomial exactly when the key is the expected one, and refuses with `InvalidCommitment`
  -- otherwise.
  pub finalize_complete :
      (a : Aggregator Scalar Point) (expected : Point)
      → Inv c a
      → Fits scalars a.dealer_set
      → is_complete a ≡ true
      → 0 < agreed_length a.commitments
      → (share : Scalar) × (p : SharePolynomial Point) × (key : Point) × (aggregate c a ≡ ok share)
        × (polynomial c a ≡ ok p)
        × (group_key p ≡ ok key)
        × (share_evaluate_at c p a.player_index ≡ ok (share • generator))
        × (finalize c a expected
            ≡ (if decide (point_eq key expected) then ok (share, p) else err invalid_commitment))
  finalize_complete a expected inv f done t =
      let (ls, lag, _) = lagrange_total c a inv f done in
      let (cs, poly, size, value) =
        polynomial_total c a (from_u32 a.player_index) (held a) ls inv done lag
          (All-commit a inv done) in
      let share = combine scalars zero_scalar ls (map (held a) a.dealer_set) in
      let agg : aggregate c a ≡ ok share = aggregate_of a ls lag (All-held a inv done) in
      let (key, has_key) = key_of cs (omega arith) in
      let at = share_at cs share a.player_index inv.player_positive value in
      (
        share,
        record { coefficients = cs },
        key,
        agg,
        poly,
        has_key,
        at,
        finalize_of a expected share (record { coefficients = cs }) key agg poly has_key
            inv.player_positive at,
      )
