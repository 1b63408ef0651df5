-- ===== src/Nested/Interleaved/Recombination.antt =====
-- src/nested.rs, `interleaved_dkg` with src/lagrange.rs: what the holders' shares of a coefficient combine to.
use frostito.Prelude.{ℕ, zero, suc, ◌≤◌, ◌≡◌, ap, List, [], ◌∷◌, map, length, All, arith}
use frostito.Error.{ok}
use frostito.Curve.{Curve, ScalarField}
use frostito.Polynomial.Laws.{add_coeffs}
use frostito.Lagrange.{compute_lagrange_coefficients}
use frostito.Lagrange.Nodes.{Fits}
use frostito.Lagrange.Combination.{combine, combine-compute_lagrange}
use frostito.Reshare.Dealing.{length-draw}
use frostito.Dkg.{range}
use frostito.Nested.Interleaved.{interleaved_dkg}
use frostito.Nested.Interleaved.Runs.{poly, sum_polys}
use frostito.Nested.Interleaved.Complete.{
  run_poly, share_at, coefficient_key, inner_share, interleaved_dkg_completes,
}

length_of_add_coeffs :
    (s : ScalarField) (m : ℕ) (ps qs : List s.Scalar)
    → length ps ≤ m
    → length qs ≤ m
    → length (add_coeffs s ps qs) ≤ m
unfolding add_coeffs
length_of_add_coeffs s m [] qs h k = k
length_of_add_coeffs s m (p ∷ ps) [] h k = h
length_of_add_coeffs s zero (p ∷ ps) (q ∷ qs) h k = absurd (omega arith)
length_of_add_coeffs s (suc m) (p ∷ ps) (q ∷ qs) h k =
    omega (arith, length_of_add_coeffs s m ps qs (omega arith) (omega arith))

module _ (c : Curve) (t : ℕ) where
  infixr 70 ◌•◌
  open c use {Scalar, scalars, zero as zero_scalar, from_u32, generator, ◌•◌}

  length_of_sum_polys : (rng : ℕ → ℕ → Scalar) (ks : List ℕ) → length (sum_polys c t rng ks) ≤ suc t
  unfolding sum_polys
  length_of_sum_polys rng [] = omega arith
  length_of_sum_polys rng (k ∷ ks) =
      length_of_add_coeffs scalars (suc t) (poly c t rng k) (sum_polys c t rng ks)
        (omega (arith, length-draw (suc t) (rng k))) (length_of_sum_polys rng ks)

  shares_combine :
      (n : ℕ) (rng : ℕ → ℕ → ℕ → Scalar) (indices : List ℕ) (ls : List Scalar)
      → Fits scalars indices
      → suc t ≤ length indices
      → compute_lagrange_coefficients scalars indices ≡ ok ls
      → (js : List ℕ)
      → All
          (λ j.
            combine scalars zero_scalar ls (map (λ k. share_at c t n rng k j) indices) • generator
            ≡ coefficient_key c t n rng j)
          js
  shares_combine n rng indices ls f enough e [] = tt
  shares_combine n rng indices ls f enough e (j ∷ js) = (
    ap (λ v. v • generator)
        (combine-compute_lagrange scalars indices (run_poly c t n rng j) ls f
          (omega (arith, length_of_sum_polys (rng j) (range 1 n))) e),
    shares_combine n rng indices ls f enough e js,
  )

  -- For indices below the field's capacity that have Lagrange coefficients, at least as many as the
  -- positive threshold: the call returns, and for each coefficient the shares at the indices, combined
  -- with the Lagrange coefficients, open the published commitment of the coefficient.
  pub interleaved_dkg_recombines :
      (n outer : ℕ) (rng : ℕ → ℕ → ℕ → Scalar) (indices : List ℕ) (ls : List Scalar)
      → Fits scalars indices
      → suc t ≤ length indices
      → compute_lagrange_coefficients scalars indices ≡ ok ls
      → (interleaved_dkg c n (suc t) outer rng
          ≡ ok (
            map (inner_share c t n rng outer) (range 1 n),
            map (coefficient_key c t n rng) (range 0 outer),
          ))
        × All
            (λ j.
              combine scalars zero_scalar ls (map (λ k. share_at c t n rng k j) indices) • generator
              ≡ coefficient_key c t n rng j)
            (range 0 outer)
  interleaved_dkg_recombines n outer rng indices ls f enough e = (
    interleaved_dkg_completes c t n rng outer,
    shares_combine n rng indices ls f enough e (range 0 outer),
  )
