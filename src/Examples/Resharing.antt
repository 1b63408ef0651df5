-- ===== src/Examples/Resharing.antt =====
-- Two dealers with the old shares f(1) = 5 and f(2) = 1 of f = 2 + 3 x reshare to player 3; and a
-- round state that dealers 1 and 3 have entered.
use frostito.Prelude.{
  map, ℕ, ◌+◌, All, ◌≡◌, refl, true, List, [], ◌∷◌, if◌then◌else◌, decide, length, arith, none,
  some,
}
use frostito.Error.{ok, err, invalid_commitment}
use frostito.Polynomial.{horner, horner_points}
use frostito.Indices.{sort, insert, scan_duplicates, scan_after}
use frostito.Lagrange.Nodes.{Fits}
use frostito.Commitment.{
  DealerCommitment, SubShare, from_polynomial, threshold, share_commitment, evaluate_at,
  verify_subshare,
}
use frostito.Dkg.{range}
use frostito.Reshare.Dealing.{IsDealt, generate_subshares-IsDealt}
use frostito.Reshare.{
  Dealer, draw, new_dealer, generate_subshares, SharePolynomial, group_key, share_evaluate_at,
}
use frostito.Reshare.Aggregator.{
  Aggregator, new, checked_dealer_set, check_first, is_complete, add_subshare, check_threshold,
  aggregate, polynomial, derive_group_key, finalize,
}
use frostito.Reshare.Aggregator.Invariant.{Inv, new-Inv, add_subshare-Inv}
use frostito.Reshare.Aggregator.Correct.{finalize_complete}
use frostito.Reshare.Aggregator.GroupKey.{OpensWith, derive_group_key-preserved}
use frostito.Slots.{filled}
use frostito.Reshare.State.{
  ReshareState, verify_group_key, has_quorum, commitment_count as state_count, submit_commitment,
  batch_verify_subshares,
}
use frostito.Reshare.State.GroupKey.{
  IsOrdered, verify_group_key-checks, submit_commitment-IsOrdered,
}
use frostito.Reshare.State.Batch.{Passes, batch_verify_complete}
use frostito.Reshare.State.BatchSoundness.{batch_verify_sound}
use frostito.Reshare.State.{batch_verify_subshares, batch_loop, batch_step}
use frostito.Bytes.{to_le_bytes, from_le_bytes}
use frostito.ProofOfKnowledge.{
  ProofOfKnowledge, challenge, challenge_input, prove_in, verify_in, verify_possession,
  reshare_pok_domain,
}
use frostito.Slots.{record_commitment, store}
use frostito.Examples.SmallField.{F7, f0, f1, f2, f3, f4, f5, f6, F7-discrete, of_ℕ, mul}
use frostito.Examples.SmallCurve.{small_field, small_curve}

abbrev k1 : DealerCommitment F7
k1 = record { dealer_index = 1; coefficients = f5 ∷ f1 ∷ [] }

abbrev k2 : DealerCommitment F7
k2 = record { dealer_index = 2; coefficients = f1 ∷ f4 ∷ [] }

abbrev s1 : SubShare F7
s1 = record { dealer_index = 1; player_index = 3; value = f1 }

abbrev s2 : SubShare F7
s2 = record { dealer_index = 2; player_index = 3; value = f6 }

abbrev old_line : List F7
old_line = f2 ∷ f3 ∷ []

abbrev none_added : Aggregator F7 F7
none_added = record { player_index = 3; dealer_set = 1 ∷ 2 ∷ []; subshares = []; commitments = [] }

abbrev one_added : Aggregator F7 F7
one_added = record {
  player_index = 3;
  dealer_set = 1 ∷ 2 ∷ [];
  subshares = record { dealer_index = 2; value = f6 } ∷ [];
  commitments = k2 ∷ [];
}

abbrev both_added : Aggregator F7 F7
both_added = record {
  player_index = 3;
  dealer_set = 1 ∷ 2 ∷ [];
  subshares =
      record { dealer_index = 2; value = f6 } ∷ record { dealer_index = 1; value = f1 } ∷ [];
  commitments = k2 ∷ k1 ∷ [];
}

none_added-Inv : Inv small_curve none_added
unfolding new checked_dealer_set sort insert scan_duplicates scan_after check_first
none_added-Inv = new-Inv small_curve 3 (2 ∷ 1 ∷ []) refl

one_added-Inv : Inv small_curve one_added
unfolding add_subshare check_threshold threshold verify_subshare evaluate_at horner_points
    F7-discrete
one_added-Inv =
    add_subshare-Inv small_curve none_added s2 k2 {r = (one_added, true)} refl (omega arith)
      none_added-Inv

add_subshare-Inv_example : Inv small_curve both_added
unfolding add_subshare check_threshold threshold verify_subshare evaluate_at horner_points
    F7-discrete
add_subshare-Inv_example =
    add_subshare-Inv small_curve one_added s1 k1 {r = (both_added, true)} refl (omega arith)
      one_added-Inv

both_added-Inv : Inv small_curve both_added
unfolding add_subshare check_threshold threshold verify_subshare evaluate_at horner_points
    F7-discrete
both_added-Inv =
    add_subshare-Inv small_curve one_added s1 k1 {r = (both_added, true)} refl (omega arith)
      one_added-Inv

Fits-two : Fits small_field (1 ∷ 2 ∷ [])
Fits-two = (omega arith, (omega arith, tt))

finalize_complete_example :
    (share : F7) × (p : SharePolynomial F7) × (key : F7) × (aggregate small_curve both_added
      ≡ ok share)
    × (polynomial small_curve both_added ≡ ok p)
    × (group_key p ≡ ok key)
    × (share_evaluate_at small_curve p 3 ≡ ok (mul share f1))
    × (finalize small_curve both_added f2
        ≡ (if decide (F7-discrete key f2) then ok (share, p) else err invalid_commitment))
unfolding is_complete
finalize_complete_example =
    finalize_complete small_curve both_added f2 both_added-Inv Fits-two refl (omega arith)

both_open : OpensWith small_curve old_line k2 × (OpensWith small_curve old_line k1 × Unit {0})
unfolding share_commitment horner
both_open = (refl, (refl, tt))

derive_group_key-preserved_example :
    derive_group_key small_curve both_added ≡ ok (mul (horner small_field f0 old_line) f1)
unfolding is_complete
derive_group_key-preserved_example =
    derive_group_key-preserved small_curve both_added old_line both_added-Inv Fits-two refl
      (omega arith) both_open

abbrev k3 : DealerCommitment F7
k3 = record { dealer_index = 3; coefficients = f4 ∷ f2 ∷ [] }

abbrev round : ReshareState F7
round = record {
  target_epoch = 4;
  old_threshold = 2;
  new_threshold = 2;
  new_player_count = 3;
  commitments = some k1 ∷ none ∷ some k3 ∷ [];
  group_key = f2;
}

round-IsOrdered : IsOrdered round
unfolding threshold
round-IsOrdered = (refl, (refl, λ e. cc), (refl, (refl, λ e. cc), tt))

verify_group_key-checks_example :
    verify_group_key small_curve round
    ≡ ok (decide (F7-discrete (mul (horner small_field f0 old_line) f1) f2))
unfolding filled share_commitment horner has_quorum state_count
verify_group_key-checks_example =
    verify_group_key-checks small_curve round old_line round-IsOrdered (omega arith) refl
      (omega arith) (omega arith) (refl, (refl, tt))

batch_verify_complete_example :
    batch_verify_subshares small_curve 3 (s1 ∷ s2 ∷ []) (k2 ∷ k1 ∷ []) (f4 ∷ f6 ∷ []) ≡ true
unfolding verify_subshare evaluate_at horner_points F7-discrete
batch_verify_complete_example =
    batch_verify_complete small_curve 3 (s1 ∷ s2 ∷ []) (k2 ∷ k1 ∷ []) (f4 ∷ f6 ∷ []) refl refl
      ((refl, k1, refl, refl), ((refl, k2, refl, refl), tt))

batch_verify_sound_example : Passes small_curve 3 (k2 ∷ k1 ∷ []) s2
unfolding batch_verify_subshares batch_loop batch_step evaluate_at horner_points F7-discrete
batch_verify_sound_example =
    batch_verify_sound small_curve 3 (k2 ∷ k1 ∷ []) (s1 ∷ []) [] s2 (f4 ∷ []) [] f6 f5 refl
      (λ e. cc) refl refl

abbrev same_bytes : List ℕ → List ℕ
same_bytes bs = bs

abbrev k2_proof : ProofOfKnowledge F7 F7
k2_proof = prove_in small_curve same_bytes reshare_pok_domain 2 4 f1 f6

abbrev full_round : ReshareState F7
full_round = record {
  target_epoch = 4;
  old_threshold = 2;
  new_threshold = 2;
  new_player_count = 3;
  commitments = some k1 ∷ some k2 ∷ some k3 ∷ [];
  group_key = f2;
}

submit_commitment-IsOrdered_example :
    (verify_possession small_curve same_bytes k2 4 k2_proof ≡ true)
    × IsOrdered full_round
    × (3 ≡ length round.commitments)
unfolding submit_commitment verify_possession verify_in prove_in challenge challenge_input
    to_le_bytes from_le_bytes record_commitment store threshold F7-discrete
submit_commitment-IsOrdered_example =
    submit_commitment-IsOrdered small_curve same_bytes round k2 k2_proof {r = (full_round, true)}
      refl round-IsOrdered

abbrev sampled : ℕ → F7
sampled i = of_ℕ (i + 4)

abbrev dealer_four : Dealer F7 F7
dealer_four = record {
  index = 4;
  polynomial = f5 ∷ f4 ∷ f5 ∷ [];
  commitment = record { dealer_index = 4; coefficients = f5 ∷ f4 ∷ f5 ∷ [] };
}

generate_subshares-IsDealt_example :
    (share_commitment dealer_four.commitment ≡ ok (mul f5 f1))
    × (length dealer_four.commitment.coefficients ≡ 3)
    × (ss : List (SubShare F7)) × (generate_subshares small_curve dealer_four 6 ≡ ok ss)
    × (map (λ s. s.player_index) ss ≡ range 1 6)
    × All (IsDealt small_curve dealer_four) ss
unfolding new_dealer draw from_polynomial
generate_subshares-IsDealt_example =
    generate_subshares-IsDealt small_curve 4 3 6 f5 sampled {dealer = dealer_four} refl
