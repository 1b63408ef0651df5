-- ===== src/Nested/Interleaved/Complete.antt =====
-- src/nested.rs, `interleaved_dkg`: the call as a whole, for any number of holders and coefficients.
use frostito.Prelude.{ℕ, zero, suc, ◌<◌, ◌≤◌, ◌≡◌, refl, ap, false, List, [], ◌∷◌, map, ◌==◌, arith}
use frostito.Error.{ok, ◌>>=◌}
use frostito.Curve.{Curve}
use frostito.Polynomial.{horner}
use frostito.Dkg.{range, new_aggregator}
use frostito.Nested.{InnerShare}
use frostito.Dkg.Ranges.{checked_dealer_set-range}
use frostito.Nested.Interleaved.{
  CoefficientDkg, coefficient_dkgs, coefficient_commitments, holder_shares, inner_shares_from,
  interleaved_dkg,
}
use frostito.Nested.Interleaved.Runs.{
  dealer_of, sum_polys, dealers_from-range, sum_constants-sum_polys,
}
use frostito.Nested.Interleaved.Delivery.{map-map, finalize-deliver}

map_id : (xs : List ℕ) → map (λ x. x) xs ≡ xs
map_id [] = refl
map_id (x ∷ xs) = ap (◌∷◌ x) (map_id xs)

module _ (c : Curve) (t n : ℕ) (rng : ℕ → ℕ → ℕ → c.Scalar) where
  infixl 65 ◌⊞◌
  infixr 70 ◌•◌
  open c use {Scalar, Point, scalars, zero as zero_scalar, from_u32, identity, generator, ◌⊞◌, ◌•◌}

  -- The polynomial that run j shares: the sum of the dealers' polynomials.
  abbrev pub run_poly : ℕ → List Scalar
  run_poly j = sum_polys c t (rng j) (range 1 n)

  abbrev run_of : ℕ → CoefficientDkg Scalar Point
  run_of j = record { coeff_index = j; dealers = map (dealer_of c t (rng j)) (range 1 n) }

  abbrev pub share_at : ℕ → ℕ → Scalar
  share_at k j = horner scalars (from_u32 k) (run_poly j)

  abbrev pub coefficient_key : ℕ → Point
  coefficient_key j = horner scalars zero_scalar (run_poly j) • generator

  coefficient_dkgs-range :
      (j count : ℕ) → coefficient_dkgs c rng n (suc t) j count ≡ ok (map run_of (range j count))
  unfolding coefficient_dkgs
  coefficient_dkgs-range j zero = refl
  coefficient_dkgs-range j (suc count) =
      rw (dealers_from-range c t (rng j) 1 n (omega arith), coefficient_dkgs-range (suc j) count)
        refl

  coefficient_commitments-runs :
      (js : List ℕ) → coefficient_commitments c (map run_of js) ≡ ok (map coefficient_key js)
  unfolding coefficient_commitments
  coefficient_commitments-runs [] = refl
  coefficient_commitments-runs (j ∷ js) =
      rw
        (
          sum_constants-sum_polys c t (rng j) (range 1 n) identity,
          coefficient_commitments-runs js,
          c.point_add_comm identity (coefficient_key j),
          c.point_add-identity (coefficient_key j),
        )
        refl

  holder_shares-runs :
      (k : ℕ)
      → 0 < k
      → 0 < n
      → (js : List ℕ) → holder_shares c k (map run_of js) ≡ ok (map (share_at k) js)
  unfolding holder_shares new_aggregator
  holder_shares-runs k p h [] = refl
  holder_shares-runs k p h (j ∷ js) =
      let positive : (k == 0) ≡ false = ground arith in
      rw
        (
          map-map (λ dealer. dealer.index) (dealer_of c t (rng j)) (range 1 n),
          map_id (range 1 n),
          checked_dealer_set-range k n positive h,
          finalize-deliver c t (rng j) k n
              (λ share. holder_shares c k (map run_of js) >>= λ others. ok (share ∷ others))
              positive,
          holder_shares-runs k p h js,
        )
        refl

  abbrev pub inner_share : ℕ → ℕ → InnerShare Scalar
  inner_share outer k = record {
    holder_index = k;
    coefficient_shares = map (share_at k) (range 0 outer);
  }

  inner_shares_from-range :
      (outer k count : ℕ)
      → 0 < k
      → count ≤ n
      → inner_shares_from c (map run_of (range 0 outer)) k count
        ≡ ok (map (inner_share outer) (range k count))
  unfolding inner_shares_from
  inner_shares_from-range outer k zero p h = refl
  inner_shares_from-range outer k (suc count) p h =
      rw
        (
          holder_shares-runs k p (omega arith) (range 0 outer),
          inner_shares_from-range outer (suc k) count (omega arith) (omega arith),
        )
        refl

  -- With a threshold of t + 1 and holders who follow the protocol the call neither panics nor
  -- fails, whatever the number of holders and of coefficients and whatever is sampled: holder k
  -- gets, for each coefficient, the value at k of the sum of that run's polynomials, and the
  -- commitment of the coefficient is the generator times the value of that sum at zero.
  pub interleaved_dkg_completes :
      (outer : ℕ)
      → interleaved_dkg c n (suc t) outer rng
        ≡ ok (map (inner_share outer) (range 1 n), map coefficient_key (range 0 outer))
  unfolding interleaved_dkg
  interleaved_dkg_completes outer =
      rw
        (
          coefficient_dkgs-range 0 outer,
          coefficient_commitments-runs (range 0 outer),
          inner_shares_from-range outer 1 n (omega arith) (omega arith),
        )
        refl
