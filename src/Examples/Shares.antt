-- ===== src/Examples/Shares.antt =====
-- Index sets, sub-shares, proofs and encodings on the small curve.
use frostito.Prelude.{
  ℕ, ◌≡◌, ◌≢◌, refl, true, false, List, [], ◌∷◌, ◌==◌, if◌then◌else◌, decide, map, arith,
}
use frostito.Error.{ok}
use frostito.Polynomial.{horner}
use frostito.Lagrange.{compute_lagrange_coefficients}
use frostito.Lagrange.Nodes.{Fits}
use frostito.Lagrange.Coefficients.{Outcome, compute_lagrange-Outcome}
use frostito.Commitment.{
  DealerCommitment, SubShare, generate_subshare, new_subshare, from_polynomial, verify_subshare,
  commitment_to_bytes, commitment_from_bytes,
}
use frostito.Commitment.Feldman.{verify_subshare-horner, generate_subshare-verifies}
use frostito.Commitment.Encoding.{commitment_from_bytes-to_bytes}
use frostito.Reshare.{Dealer}
use frostito.ProofOfKnowledge.{ProofOfKnowledge, challenge, challenge_input, prove_in}
use frostito.ProofOfKnowledge.Extraction.{
  Accepted, verify_in-prove_in, verify_in-extracts, packages-verify,
}
use frostito.Examples.SmallField.{F7, f1, f2, f3, f5, F7-discrete, of_ℕ, mul, sub, invert}
use frostito.Examples.SmallCurve.{small_field, small_curve}
use frostito.Bytes.{to_le_bytes, from_le_bytes}

Fits-three : Fits small_field (3 ∷ 1 ∷ 2 ∷ [])
Fits-three = (omega arith, (omega arith, (omega arith, tt)))

compute_lagrange-Outcome_example :
    Outcome small_field
      (3 ∷ 1 ∷ 2 ∷ [])
      (compute_lagrange_coefficients small_field (3 ∷ 1 ∷ 2 ∷ []))
compute_lagrange-Outcome_example = compute_lagrange-Outcome small_field (3 ∷ 1 ∷ 2 ∷ []) Fits-three

abbrev line : List F7
line = f2 ∷ f3 ∷ []

abbrev line_commitment : DealerCommitment F7
line_commitment = record { dealer_index = 4; coefficients = f2 ∷ f3 ∷ [] }

abbrev line_share : SubShare F7
line_share = record { dealer_index = 4; player_index = 5; value = f3 }

verify_subshare-horner_example :
    verify_subshare small_curve
      (record { dealer_index = 4; coefficients = map (λ k. mul k f1) line })
      5
      f3
    ≡ (if 5 == 0 then false else decide (F7-discrete f3 (horner small_field (of_ℕ 5) line)))
verify_subshare-horner_example = verify_subshare-horner small_curve 4 5 line f3

generate_subshare-verifies_example :
    (line_share.dealer_index ≡ line_commitment.dealer_index)
    × (line_share.player_index ≡ 5)
    × (verify_subshare small_curve line_commitment 5 f3 ≡ true)
unfolding generate_subshare from_polynomial horner new_subshare
generate_subshare-verifies_example =
    generate_subshare-verifies small_curve 4 5 line {share = line_share}
      {commitment = line_commitment} refl refl

commitment_from_bytes-to_bytes_example :
    commitment_from_bytes small_curve (commitment_to_bytes small_curve line_commitment) 2
    ≡ ok line_commitment
commitment_from_bytes-to_bytes_example =
    commitment_from_bytes-to_bytes small_curve line_commitment (omega arith) refl

-- A stand-in for the hash.
abbrev same_bytes : List ℕ → List ℕ
same_bytes bs = bs

abbrev proof_at : ℕ → ProofOfKnowledge F7 F7
proof_at epoch = prove_in small_curve same_bytes [] 1 epoch f3 f2

challenges_differ :
    challenge small_curve same_bytes [] 1 1 f3 f2 ≢ challenge small_curve same_bytes [] 1 2 f3 f2
unfolding challenge challenge_input to_le_bytes from_le_bytes
challenges_differ e = cc

verify_in-extracts_example :
    mul
      (mul
        (invert (
          sub
            (challenge small_curve same_bytes [] 1 1 f3 f2)
            (challenge small_curve same_bytes [] 1 2 f3 f2)))
        (sub (proof_at 1).z (proof_at 2).z))
      f1
    ≡ f3
unfolding prove_in
verify_in-extracts_example =
    verify_in-extracts small_curve same_bytes (proof_at 1) (proof_at 2) [] [] 1 1 1 2 f3
      (verify_in-prove_in small_curve same_bytes [] 1 1 f3 f2)
      (verify_in-prove_in small_curve same_bytes [] 1 2 f3 f2) refl challenges_differ

abbrev line_dealer : Dealer F7 F7
line_dealer = record { index = 4; polynomial = f2 ∷ f3 ∷ []; commitment = line_commitment }

packages-verify_example : Accepted small_curve same_bytes line_dealer 9 f5
unfolding from_polynomial
packages-verify_example = packages-verify small_curve same_bytes line_dealer 9 f5 refl
