-- ===== src/Reshare/Aggregator/GroupKey.antt =====
-- src/reshare.rs: the group key of a complete aggregator and the old shares.
use frostito.Prelude.{
  ◌<◌, ◌≤◌, ◌≡◌, refl, sym, ap, ◌∙◌, true, List, [], ◌∷◌, All, All-find, All-of_contains, length,
  ◌==◌, ==_iff, arith,
}
use frostito.Error.{ok, panic, ok_injective}
use frostito.Curve.{Curve}
use frostito.Curve.Ring.{group}
use frostito.Polynomial.{horner, horner_points}
use frostito.Lagrange.Nodes.{Fits}
use frostito.Lagrange.Combination.{combine-compute_lagrange}
use frostito.Commitment.{DealerCommitment, share_commitment}
use frostito.Reshare.{group_key}
use frostito.Reshare.Aggregator.{Aggregator, is_complete, derive_group_key}
use frostito.Reshare.Aggregator.Invariant.{Inv, agreed_length}
use frostito.Reshare.Aggregator.Loops.{Commits}
use frostito.Reshare.Aggregator.Stored.{
  all-Stored, lagrange_total, polynomial_total, complete-length, first_of,
}

module _ (c : Curve) where
  infixr 70 ◌•◌
  open c use {
    Scalar, Point, zero as zero_scalar, identity, generator, ◌•◌, from_u32, point_eq, scalars,
  }

  -- At 0 the points' polynomial is its first coefficient.
  horner_points_at_zero : (p : Point) (ps : List Point) → horner_points c zero_scalar (p ∷ ps) ≡ p
  unfolding horner_points
  horner_points_at_zero p ps = simp group

  share_commitment-horner_points :
      (k : DealerCommitment Point) (y : Point)
      → share_commitment k ≡ ok y
      → (horner_points c zero_scalar k.coefficients ≡ y) × (0 < length k.coefficients)
  unfolding share_commitment
  share_commitment-horner_points k y h = go k.coefficients h
    where
      go :
          (cs : List Point)
          → elim cs [ [] ↦ panic | c0 ∷ _ ↦ ok c0 ] ≡ ok y
          → (horner_points c zero_scalar cs ≡ y) × (0 < length cs)
      go [] e = cc
      go (p ∷ ps) e = (horner_points_at_zero p ps ∙ ok_injective e, omega arith)

  group_key_at_zero :
      (cs : List Point) (y : Point)
      → 0 < length cs
      → horner_points c zero_scalar cs ≡ y
      → group_key (record { coefficients = cs }) ≡ ok y
  unfolding group_key
  group_key_at_zero [] y h e = absurd (omega arith)
  group_key_at_zero (p ∷ ps) y h e = ap ok (sym (horner_points_at_zero p ps) ∙ e)

  -- The public point of the old share that dealer d redistributes.
  abbrev pub OpensWith : List Scalar → DealerCommitment Point → Type 0
  OpensWith f k = share_commitment k ≡ ok (horner scalars (from_u32 k.dealer_index) f • generator)

  Commits-old :
      (a : Aggregator Scalar Point) (f : List Scalar)
      → Inv c a
      → is_complete a ≡ true
      → All (OpensWith f) a.commitments
      → All
          (Commits c a
            (agreed_length a.commitments)
            zero_scalar
            (λ d. horner scalars (from_u32 d) f))
          a.dealer_set
  Commits-old a f inv done old = All-of_contains _ a.dealer_set λ d m.
      let (v, k, fv, fk, x) = all-Stored c a inv done d m in
      let (opens, named) = All-find (OpensWith f) (λ u. u.dealer_index == d) a.commitments old fk in
      (
        k,
        rw fk refl,
        x.sized,
        (share_commitment-horner_points k _ opens).0
            ∙ ap (λ i. horner scalars (from_u32 i) f • generator)
                ((==_iff k.dealer_index d).0 named),
      )

  agreed_length_pos :
      (f : List Scalar) (ks : List (DealerCommitment Point)) (first : DealerCommitment Point)
      (rest : List (DealerCommitment Point))
      → ks ≡ first ∷ rest
      → All (OpensWith f) ks
      → 0 < agreed_length ks
  agreed_length_pos f [] first rest e old = cc
  agreed_length_pos f (k ∷ ks) first rest e old = (share_commitment-horner_points k _ old.0).1

  -- If the old shares lie on a polynomial f with at most as many coefficients as there are dealers,
  -- and each stored commitment opens with its dealer's old share's public point, then the group key
  -- that a complete aggregator derives is the public point of f(0), if the aggregator satisfies the
  -- invariant and the indices are below the field's capacity.
  pub derive_group_key-preserved :
      (a : Aggregator Scalar Point) (f : List Scalar)
      → Inv c a
      → Fits scalars a.dealer_set
      → is_complete a ≡ true
      → length f ≤ length a.dealer_set
      → All (OpensWith f) a.commitments
      → derive_group_key c a ≡ ok (horner scalars zero_scalar f • generator)
  unfolding derive_group_key
  derive_group_key-preserved a f inv fits done size old =
      let (ls, lag, code) = lagrange_total c a inv fits done in
      let (cs, poly, sized, value) =
        polynomial_total c a zero_scalar _ ls inv done lag (Commits-old a f inv done old) in
      let (first, rest, shape, _) =
        first_of c a.player_index a.dealer_set _ a.subshares a.commitments inv.aligned
          (complete-length c a done) inv.set.nonempty inv.small in
      let positive = agreed_length_pos f a.commitments first rest shape old in
      rw poly (
        group_key_at_zero cs _ (omega arith) (
          value
          ∙ ap (λ k. k • generator)
              (combine-compute_lagrange scalars a.dealer_set f ls fits size code)))
