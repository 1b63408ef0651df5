-- ===== src/Examples/Ceremony.antt =====
-- A ceremony of two dealers with the polynomials 3 + x and 2 + 5 x, and player 1's aggregator.
use frostito.Prelude.{
  ℕ, ◌+◌, ◌≡◌, refl, Bool, true, false, ◌||◌, List, [], ◌∷◌, ◌++◌, ◌==◌, if◌then◌else◌, ltb,
  contains, length, none, some, ◌⊎◌,
}
use frostito.Error.{ok, err, invalid_index, dkg_aborted, insufficient_contributions}
use frostito.Commitment.{
  DealerCommitment, SubShare, threshold, share_commitment, evaluate_at, verify_subshare,
}
use frostito.Polynomial.{horner_points}
use frostito.Bytes.{to_le_bytes, from_le_bytes}
use frostito.ProofOfKnowledge.{
  Round1Package, challenge, challenge_input, prove_in, verify_in, verify, verify_package,
  dkg_pok_domain,
}
use frostito.Reshare.Aggregator.{has_dealer}
use frostito.Slots.{filled, record_commitment, store}
use frostito.Slots.Changes.{has_commitment}
use frostito.Dkg.{DkgAggregator, is_complete, add_subshare, finalize, derive_group_key}
use frostito.Dkg.Sums.{sum_at}
use frostito.Dkg.Aggregation.{Holds, finalize-Holds, add_subshare-Holds}
use frostito.Dkg.State.{
  DkgState, new_state, disqualify, add_disqualified, submit_commitment,
  is_complete as is_state_complete, commitment_count, derive_group_key as derive_state_key,
  derive_verification_share,
}
use frostito.Dkg.State.Invariant.{Inv}
use frostito.Dkg.State.Steps.{disqualify-excludes}
use frostito.Dkg.State.Ceremonies.{Step, Run, IsReached, ceremony_sound}
use frostito.Dkg.State.Derived.{finalize-derives}
use frostito.Indices.{sort, insert}
use frostito.Examples.SmallField.{F7, f0, f1, f2, f3, f4, f5, f6, F7-discrete, of_ℕ, mul}
use frostito.Examples.SmallCurve.{small_curve}
use mathlib.Core.List.{Permᴰ}

abbrev k1 : DealerCommitment F7
k1 = record { dealer_index = 1; coefficients = f3 ∷ f1 ∷ [] }

abbrev k2 : DealerCommitment F7
k2 = record { dealer_index = 2; coefficients = f2 ∷ f5 ∷ [] }

abbrev s1 : SubShare F7
s1 = record { dealer_index = 1; player_index = 1; value = f4 }

abbrev one_added : DkgAggregator F7 F7
one_added = record {
  player_index = 1;
  dealer_set = 1 ∷ 2 ∷ [];
  subshares = record { dealer_index = 2; value = f0 } ∷ [];
  constant_commitments = f2 ∷ [];
}

abbrev both_added : DkgAggregator F7 F7
both_added = record {
  player_index = 1;
  dealer_set = 1 ∷ 2 ∷ [];
  subshares =
      record { dealer_index = 2; value = f0 } ∷ record { dealer_index = 1; value = f4 } ∷ [];
  constant_commitments = f2 ∷ f3 ∷ [];
}

one_added-Holds : Holds small_curve one_added (k2 ∷ [])
unfolding verify_subshare evaluate_at horner_points F7-discrete share_commitment
one_added-Holds =
    (refl, (record { paired = refl; agreed = refl; checked = refl; opens = refl }, tt))

both_added-Holds : Holds small_curve both_added (k2 ∷ k1 ∷ [])
unfolding verify_subshare evaluate_at horner_points F7-discrete share_commitment
both_added-Holds = (
  refl,
  (
    record { paired = refl; agreed = refl; checked = refl; opens = refl },
    (record { paired = refl; agreed = refl; checked = refl; opens = refl }, tt),
  ),
)

add_subshare-Holds_example :
    (s1.player_index ≡ one_added.player_index)
    × (contains (1 ∷ 2 ∷ []) 1 ≡ true)
    × (((has_dealer 1 one_added.subshares ≡ true)
          × (Path (DkgAggregator F7 F7 × Bool) (both_added, true) (one_added, false)))
        ⊎ ((has_dealer 1 one_added.subshares ≡ false)
            × Holds small_curve both_added (k2 ∷ k1 ∷ [])
            × (both_added.subshares
                ≡ one_added.subshares ++ (record { dealer_index = 1; value = f4 } ∷ []))
            × (true ≡ true)))
unfolding add_subshare verify_subshare evaluate_at horner_points F7-discrete share_commitment
add_subshare-Holds_example =
    add_subshare-Holds small_curve one_added s1 k1 (k2 ∷ []) {r = (both_added, true)} refl
      one_added-Holds

finalize-Holds_example :
    ((is_complete both_added ≡ true)
      × (share : F7) × (finalize small_curve both_added ≡ ok share)
      × (mul share f1 ≡ sum_at small_curve (of_ℕ 1) (k2 ∷ k1 ∷ []))
      × (derive_group_key small_curve both_added ≡ ok (sum_at small_curve f0 (k2 ∷ k1 ∷ []))))
    ⊎ ((is_complete both_added ≡ false)
        × (finalize small_curve both_added ≡ err (insufficient_contributions 2 2))
        × (derive_group_key small_curve both_added ≡ err (insufficient_contributions 2 2)))
finalize-Holds_example = finalize-Holds small_curve both_added (k2 ∷ k1 ∷ []) both_added-Holds

abbrev complete_state : DkgState F7
complete_state = record {
  epoch = 9;
  threshold = 2;
  num_participants = 2;
  commitments = some k1 ∷ some k2 ∷ [];
  disqualified = [];
}

finalize-derives_example :
    (share key : F7) × (finalize small_curve both_added ≡ ok share)
    × (derive_verification_share small_curve complete_state 1 ≡ ok (mul share f1))
    × (derive_group_key small_curve both_added ≡ ok key)
    × (derive_state_key small_curve complete_state ≡ ok key)
unfolding is_state_complete is_complete filled commitment_count
finalize-derives_example =
    finalize-derives small_curve complete_state both_added (k2 ∷ k1 ∷ []) refl
      ((λ e. cc), ((λ e. cc), tt)) both_added-Holds refl ∣ Permᴰ.swap refl refl ∣₁

complete_state-Inv : Inv complete_state
unfolding threshold
complete_state-Inv = record {
  slots = (refl, (refl, λ e. cc), (refl, (refl, λ e. cc), tt));
  sized = refl;
  distinct = refl;
  bounded = λ d h. cc;
  excluded = λ d h. cc;
}

disqualify-excludes_example :
    ((2 == 0 || ltb 2 2) ≡ true)
      × (disqualify complete_state 2 ≡ (complete_state, err invalid_index))
    ⊎ ((2 == 0 || ltb 2 2) ≡ false)
      × (next : DkgState F7) × (left : ℕ) × (disqualify complete_state 2
          ≡ (next, if ltb left 2 then err (dkg_aborted left 2) else ok tt))
      × (left + length next.disqualified ≡ 2)
      × ((e : ℕ) → contains next.disqualified e ≡ (contains [] e || 2 == e))
      × (has_commitment next.commitments 2 ≡ false)
disqualify-excludes_example = disqualify-excludes complete_state 2 complete_state-Inv

abbrev same_bytes : List ℕ → List ℕ
same_bytes bs = bs

abbrev k1_package : Round1Package F7 F7
k1_package = record {
  commitment = k1;
  proof_of_knowledge = prove_in small_curve same_bytes dkg_pok_domain 1 9 f3 f6;
}

-- Dealer 1 submits, dealer 2 is disqualified, and dealer 1 submits again.
abbrev first_state : DkgState F7
first_state = record {
  epoch = 9;
  threshold = 2;
  num_participants = 2;
  commitments = some k1 ∷ none ∷ [];
  disqualified = [];
}

abbrev barred_state : DkgState F7
barred_state = record {
  epoch = 9;
  threshold = 2;
  num_participants = 2;
  commitments = some k1 ∷ none ∷ [];
  disqualified = 2 ∷ [];
}

Submits : DkgState F7 → DkgState F7 → Bool → Type 0
Submits st next added = submit_commitment small_curve same_bytes st k1_package ≡ ok (next, added)

first-Submits : Submits (new_state 9 2 2) first_state true
unfolding Submits new_state submit_commitment verify_package verify verify_in prove_in challenge
    challenge_input to_le_bytes from_le_bytes share_commitment record_commitment store threshold
    F7-discrete
first-Submits = refl

barred-Submits : Submits barred_state barred_state false
unfolding Submits submit_commitment verify_package verify verify_in prove_in challenge
    challenge_input to_le_bytes from_le_bytes share_commitment record_commitment store threshold
    F7-discrete
barred-Submits = refl

ceremony_sound_example :
    IsReached small_curve same_bytes 9 2 2 barred_state
    × ((d : ℕ)
        → contains (2 ∷ []) d ≡ true
        → (contains (2 ∷ []) d ≡ true) × (has_commitment barred_state.commitments d ≡ false))
unfolding Submits disqualify add_disqualified sort insert
ceremony_sound_example =
    ceremony_sound small_curve same_bytes 9 2 2 {middle = barred_state} {last = barred_state}
      (Run.andthen (Run.andthen Run.done (Step.submits k1_package true first-Submits))
        (Step.disqualifies 2 refl))
      (Run.andthen Run.done (Step.submits k1_package false barred-Submits))
