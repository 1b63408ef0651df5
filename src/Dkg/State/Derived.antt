-- ===== src/Dkg/State/Derived.antt =====
-- src/dkg.rs: the values derived from the qualified commitments, and the players' shares.
use frostito.Prelude.{
  ℕ, ◌≡◌, ◌≢◌, refl, sym, ap, ◌∙◌, true, false, List, [], ◌∷◌, All, ◌==◌, inl, inr,
}
use frostito.Error.{ok, panic}
use frostito.Curve.{Curve}
use frostito.Curve.Ring.{group}
use frostito.Polynomial.{horner_points}
use frostito.Commitment.{DealerCommitment, share_commitment, evaluate_at}
use frostito.Slots.{filled}
use frostito.Dkg.{DkgAggregator, finalize, derive_group_key}
use frostito.Dkg.Sums.{sum_at, sum_at-Perm}
use frostito.Dkg.Aggregation.{Holds, finalize-Holds, constant_at_zero}
use frostito.Dkg.State.{
  DkgState, is_complete, require_complete, key_loop, share_loop,
  derive_group_key as derive_state_key, derive_verification_share,
}
use frostito.Dkg as Dkg
use mathlib.Core.List.{Perm}

module _ (c : Curve) where
  infixl 65 ◌⊞◌
  infixr 70 ◌•◌
  open c use {Scalar, Point, zero as zero_scalar, identity, generator, ◌⊞◌, ◌•◌, from_u32}

  first_of :
      (k : DealerCommitment Point)
      → k.coefficients ≢ []
      → (c0 : Point) × (share_commitment k ≡ ok c0)
  unfolding share_commitment
  first_of k n = go k.coefficients n
    where
      go :
          (ps : List Point)
          → ps ≢ []
          → (c0 : Point) × (elim ps [ [] ↦ panic | p ∷ _ ↦ ok p ] ≡ ok c0)
      go [] m = absurd (m refl)
      go (p ∷ ps) m = (p, refl)

  key_loop-sum_at :
      (acc : Point) (ks : List (DealerCommitment Point))
      → All (λ k. k.coefficients ≢ []) ks
      → key_loop c acc ks ≡ ok (acc ⊞ sum_at c zero_scalar ks)
  unfolding key_loop sum_at
  key_loop-sum_at acc [] h = ap ok (sym (c.point_add-identity acc))
  key_loop-sum_at acc (k ∷ ks) (n, h) =
      let (c0, opens) = first_of k n in
      rw opens (
        key_loop-sum_at (acc ⊞ c0) ks h
        ∙ ap ok (
            c.point_add_assoc _ _ _
            ∙ ap (λ q. acc ⊞ (q ⊞ sum_at c zero_scalar ks)) (sym (constant_at_zero c k c0 opens))))

  share_loop-sum_at :
      (j : ℕ) (acc : Point) (ks : List (DealerCommitment Point))
      → (j == 0) ≡ false
      → share_loop c j acc ks ≡ ok (acc ⊞ sum_at c (from_u32 j) ks)
  unfolding share_loop sum_at evaluate_at
  share_loop-sum_at j acc [] h = ap ok (sym (c.point_add-identity acc))
  share_loop-sum_at j acc (k ∷ ks) h = rw h (
      share_loop-sum_at j (acc ⊞ horner_points c (from_u32 j) k.coefficients) ks h
      ∙ ap ok (c.point_add_assoc _ _ _))

  -- In a complete ceremony whose recorded commitments are not empty, let an aggregator hold the same
  -- commitments in any order, and be complete. Then its player's final share opens the verification
  -- share that the ceremony derives for that player, and both derive the same group key.
  pub finalize-derives :
      (st : DkgState Point) (a : DkgAggregator Scalar Point) (ks : List (DealerCommitment Point))
      → is_complete st ≡ true
      → All (λ k. k.coefficients ≢ []) (filled st.commitments)
      → Holds c a ks
      → Dkg.is_complete a ≡ true
      → Perm ks (filled st.commitments)
      → (share : Scalar) × (key : Point) × (finalize c a ≡ ok share)
        × (derive_verification_share c st a.player_index ≡ ok (share • generator))
        × (derive_group_key c a ≡ ok key)
        × (derive_state_key c st ≡ ok key)
  unfolding derive_state_key derive_verification_share require_complete
  finalize-derives st a ks done nonempty held whole perm = elim (finalize-Holds c a ks held) [
    | inr (missing, _, _) ↦ cc
    | inl (_, share, final, opens, key) ↦ (
      share,
      sum_at c zero_scalar ks,
      final,
      rw (held.0, done)
          (share_loop-sum_at a.player_index identity (filled st.commitments) held.0
            ∙ ap ok
                (from_identity _ ∙ sym (sum_at-Perm c (from_u32 a.player_index) perm) ∙ sym opens)),
      key,
      rw done (
          key_loop-sum_at identity (filled st.commitments) nonempty
          ∙ ap ok (from_identity _ ∙ sym (sum_at-Perm c zero_scalar perm))),
    )
  ]
    where
      from_identity : (p : Point) → identity ⊞ p ≡ p
      from_identity p = simp group
