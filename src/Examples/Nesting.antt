-- ===== src/Examples/Nesting.antt =====
-- A position shared by inner holders, on the small curve.
use frostito.Prelude.{arith, ℕ, ◌+◌, ◌≡◌, refl, true, List, [], ◌∷◌, All, map, length}
use frostito.Error.{ok}
use frostito.Commitment.{DealerCommitment, share_commitment}
use frostito.Polynomial.{horner}
use frostito.Nested.{combine_shares, add_pieces, split_evaluation_for_inner, verify_split_piece}
use frostito.Nested.Sharing.{
  shared_value, sum_coeffs, combine_shares-horner, split_evaluation-verifies,
}
use frostito.Dkg.{range}
use frostito.Nested.Interleaved.{interleaved_dkg}
use frostito.Nested.Interleaved.Runs.{sum_polys}
use frostito.Polynomial.Laws.{add_coeffs}
use frostito.Reshare.{draw}
use frostito.Nested.Interleaved.Complete.{
  inner_share, share_at, coefficient_key, interleaved_dkg_completes,
}
use frostito.Lagrange.Nodes.{Fits}
use frostito.Lagrange.Coefficients.{reference_coefficients, compute_lagrange-reference}
use frostito.Lagrange.Combination.{combine}
use frostito.Nested.Interleaved.Recombination.{interleaved_dkg_recombines}
use frostito.Examples.SmallField.{F7, f0, f1, f2, f3, f4, f5, f6, of_ℕ, mul}
use frostito.Examples.SmallCurve.{small_field, small_curve}

-- Two coefficients of the outer polynomial, each shared with threshold 2.
abbrev coefficient_polynomials : List (List F7)
coefficient_polynomials = (f2 ∷ f3 ∷ []) ∷ (f1 ∷ f5 ∷ []) ∷ []

abbrev piece_polynomials : List (List F7)
piece_polynomials = (f4 ∷ f1 ∷ []) ∷ []

combine_shares-horner_example :
    (combine_shares small_field
        (record {
          holder_index = 3;
          coefficient_shares = map (λ p. horner small_field (of_ℕ 3) p) coefficient_polynomials;
        })
        2
        (map (λ p. (3, horner small_field (of_ℕ 3) p)) piece_polynomials)
      ≡ horner small_field (of_ℕ 3) (
          sum_coeffs small_field
            (shared_value small_field (of_ℕ 2) coefficient_polynomials)
            piece_polynomials))
    × (horner small_field f0 (
          sum_coeffs small_field
            (shared_value small_field (of_ℕ 2) coefficient_polynomials)
            piece_polynomials)
        ≡ add_pieces small_field
            (horner small_field
              (of_ℕ 2)
              (map (λ p. horner small_field f0 p) coefficient_polynomials))
            (map (λ p. (3, horner small_field f0 p)) piece_polynomials))
combine_shares-horner_example =
    combine_shares-horner small_field 3 2 coefficient_polynomials piece_polynomials

abbrev sampled : ℕ → F7
sampled i = of_ℕ (i + 4)

split_evaluation-verifies_example :
    (pieces : List (ℕ × F7)) × (commitment : DealerCommitment F7) × (split_evaluation_for_inner
        small_curve f5 4 3 sampled
      ≡ ok (pieces, commitment))
    × (map (λ p. p.0) pieces ≡ range 1 4)
    × (share_commitment commitment ≡ ok (mul f5 f1))
    × (length commitment.coefficients ≡ 3)
    × All (λ p. verify_split_piece small_curve commitment p.0 p.1 ≡ true) pieces
split_evaluation-verifies_example = split_evaluation-verifies small_curve f5 4 3 sampled

-- What holder k samples in run j.
abbrev all_sampled : ℕ → ℕ → ℕ → F7
all_sampled j k i = of_ℕ (j + k + i)

interleaved_dkg_completes_example :
    (interleaved_dkg small_curve 3 2 2 all_sampled
      ≡ ok (
        map (inner_share small_curve 1 3 all_sampled 2) (range 1 3),
        map (coefficient_key small_curve 1 3 all_sampled) (range 0 2),
      ))
interleaved_dkg_completes_example = interleaved_dkg_completes small_curve 1 3 all_sampled 2

interleaved_dkg_test :
    (map (coefficient_key small_curve 1 3 all_sampled) (range 0 2) ≡ f6 ∷ f2 ∷ [])
unfolding sum_polys horner add_coeffs draw
interleaved_dkg_test = refl

Fits-two : Fits small_field (3 ∷ 1 ∷ [])
Fits-two = (omega arith, (omega arith, tt))

interleaved_dkg_recombines_example :
    (interleaved_dkg small_curve 3 2 2 all_sampled
      ≡ ok (
        map (inner_share small_curve 1 3 all_sampled 2) (range 1 3),
        map (coefficient_key small_curve 1 3 all_sampled) (range 0 2),
      ))
    × All
        (λ j.
          mul
            (combine small_field f0
              (reference_coefficients small_field (3 ∷ 1 ∷ []))
              (map (λ k. share_at small_curve 1 3 all_sampled k j) (3 ∷ 1 ∷ [])))
            f1
          ≡ coefficient_key small_curve 1 3 all_sampled j)
        (range 0 2)
interleaved_dkg_recombines_example =
    interleaved_dkg_recombines small_curve 1 3 2 all_sampled (3 ∷ 1 ∷ [])
      (reference_coefficients small_field (3 ∷ 1 ∷ [])) Fits-two (omega arith)
      (compute_lagrange-reference small_field (3 ∷ 1 ∷ []) (λ e. cc) Fits-two refl refl)
