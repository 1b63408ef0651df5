-- ===== src/Nested/Interleaved/Runs.antt =====
-- src/nested.rs, `interleaved_dkg`: one run of key generation among the inner holders, all of whom
-- follow the protocol.
use frostito.Prelude.{
  ℕ, zero, suc, ◌<◌, ◌≡◌, refl, sym, ap, ◌∙◌, true, false, List, [], ◌∷◌, ◌++◌, map, contains, ◌==◌,
  ==_refl, decide-true, arith,
}
use frostito.Error.{ok}
use frostito.Curve.{Curve}
use frostito.Curve.Ring.{ring}
use frostito.Polynomial.{horner}
use frostito.Polynomial.Laws.{add_coeffs, horner-add_coeffs}
use frostito.Commitment.{from_polynomial, share_commitment}
use frostito.Commitment.Feldman.{commit, verify_subshare-horner}
use frostito.Reshare.{Dealer, draw}
use frostito.Reshare.Aggregator.{VerifiedSubShare, has_dealer}
use frostito.Dkg.{DkgAggregator, range, new_dealer, add_subshare, sum_values}
use frostito.Dkg.Ranges.{suc_nonzero}
use frostito.Nested.Interleaved.{dealers_from, sum_constants}

module _ (c : Curve) (t : ℕ) (rng : ℕ → ℕ → c.Scalar) where
  infixl 65 ◌⊕◌ ◌⊞◌
  infixl 70 ◌⊗◌
  infixr 70 ◌•◌
  open c use {
    Scalar, Point, scalars, zero as zero_scalar, from_u32, ◌⊕◌, ◌⊗◌, identity, generator, ◌⊞◌, ◌•◌,
    scalar_eq,
  }

  -- The dealer that each holder is in this run, with threshold t + 1.
  abbrev pub poly : ℕ → List Scalar
  poly k = draw (suc t) (rng k)

  abbrev pub dealer_of : ℕ → Dealer Scalar Point
  dealer_of k = record {
    index = k;
    polynomial = poly k;
    commitment = record { dealer_index = k; coefficients = commit c (poly k) };
  }

  -- The polynomial that the run shares.
  unfoldable pub sum_polys : List ℕ → List Scalar
  sum_polys [] = []
  sum_polys (k ∷ ks) = add_coeffs scalars (poly k) (sum_polys ks)

  pub dealers_from-range :
      (from count : ℕ)
      → 0 < from
      → dealers_from c rng (suc t) from count ≡ ok (map dealer_of (range from count))
  unfolding dealers_from new_dealer from_polynomial draw
  dealers_from-range from zero h = refl
  dealers_from-range from (suc count) h =
      let positive : (from == 0) ≡ false = ground arith in
      rw (positive, suc_nonzero t, dealers_from-range (suc from) count (omega arith)) refl

  horner_zero : (a : Scalar) (ps : List Scalar) → horner scalars zero_scalar (a ∷ ps) ≡ a
  unfolding horner
  horner_zero a ps = simp ring

  pub sum_constants-sum_polys :
      (ks : List ℕ) (acc : Point)
      → sum_constants c acc (map dealer_of ks)
        ≡ ok (acc ⊞ horner scalars zero_scalar (sum_polys ks) • generator)
  unfolding sum_constants share_commitment sum_polys draw horner
  sum_constants-sum_polys [] acc =
      ap ok (sym (ap (λ k. acc ⊞ k) (c.zero-smul generator) ∙ c.point_add-identity acc))
  sum_constants-sum_polys (k ∷ ks) acc =
      sum_constants-sum_polys ks (acc ⊞ rng k 0 • generator)
      ∙ ap ok (
          c.point_add_assoc acc _ _
          ∙ ap (λ v. acc ⊞ v)
              (sym (c.add-smul (rng k 0) (horner scalars zero_scalar (sum_polys ks)) generator)
                ∙ ap (λ v. v • generator)
                    (ap (λ v. v ⊕ horner scalars zero_scalar (sum_polys ks))
                        (sym (horner_zero (rng k 0) (draw t (λ i. rng k (suc i)))))
                      ∙ sym (horner-add_coeffs scalars zero_scalar (poly k) (sum_polys ks)))))

  -- What holder `player` keeps of dealer k.
  abbrev pub entry : ℕ → ℕ → VerifiedSubShare Scalar
  entry player k = record { dealer_index = k; value = horner scalars (from_u32 player) (poly k) }

  pub sum_values-sum_polys :
      (player : ℕ) (ks : List ℕ) (acc : Scalar)
      → sum_values c acc (map (entry player) ks)
        ≡ acc ⊕ horner scalars (from_u32 player) (sum_polys ks)
  unfolding sum_values sum_polys horner
  sum_values-sum_polys player [] acc = sym (scalars.add-zero acc)
  sum_values-sum_polys player (k ∷ ks) acc =
      sum_values-sum_polys player ks (acc ⊕ horner scalars (from_u32 player) (poly k))
      ∙ scalars.add_assoc acc _ _
      ∙ ap (λ v. acc ⊕ v)
          (sym (horner-add_coeffs scalars (from_u32 player) (poly k) (sum_polys ks)))

  -- One honest sub-share that is due is added.
  pub add_subshare-entry :
      (player k : ℕ) (agg : DkgAggregator Scalar Point)
      → (player == 0) ≡ false
      → (k == 0) ≡ false
      → agg.player_index ≡ player
      → contains agg.dealer_set k ≡ true
      → has_dealer k agg.subshares ≡ false
      → add_subshare c agg
          (record {
            dealer_index = k;
            player_index = player;
            value = horner scalars (from_u32 player) (poly k);
          })
          (dealer_of k).commitment
        ≡ ok (
          record agg {
            subshares = agg.subshares ++ (entry player k ∷ []);
            constant_commitments = agg.constant_commitments ++ (rng k 0 • generator ∷ []);
          },
          true,
        )
  unfolding add_subshare share_commitment draw
  add_subshare-entry player k agg p n same due fresh =
      rw
        (
          add_subshare,
          same,
          ==_refl player,
          ==_refl k,
          n,
          due,
          fresh,
          verify_subshare-horner c k player (poly k) (horner scalars (from_u32 player) (poly k)),
          p,
          decide-true
              (scalar_eq (horner scalars (from_u32 player) (poly k))
                (horner scalars (from_u32 player) (poly k)))
              refl,
        )
        refl
