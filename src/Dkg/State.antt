-- ===== src/Dkg/State.antt =====
-- src/dkg.rs, `DkgState`: the commitments of one ceremony by their dealers' indices, the
-- disqualified dealers, and the values derived from the qualified commitments. `usize` is at least
-- as wide as `u32`, so the casts change nothing.
pub mod Invariant
pub mod Steps
pub mod Derived
pub mod Ceremonies
use frostito.Prelude.{
  ℕ, zero, suc, ◌+◌, ◌-◌, Bool, true, false, not, List, [], ◌∷◌, ◌++◌, length, set, contains, ltb,
  ◌==◌, if◌then◌else◌, Option, none, some,
}
use frostito.Error.{
  Result, ok, err, panic, ◌>>=◌, ◌>>◌, refuse_if, unwrap, invalid_index, unexpected_dealer,
  insufficient_contributions, dkg_aborted,
}
use frostito.Curve.{Curve}
use frostito.Indices.{sort}
use frostito.Commitment.{DealerCommitment, share_commitment, evaluate_at}
use frostito.ProofOfKnowledge.{Round1Package, verify_package}
use frostito.Slots.{empty_slots, filled, dealer_indices, record_commitment}

pub record DkgState (P : Type 0) : Type 0 where
  pub epoch : ℕ
  pub threshold : ℕ
  pub num_participants : ℕ
  pub commitments : List (Option (DealerCommitment P))
  pub disqualified : List ℕ

-- The list after `push` and `sort_unstable`.
unfoldable pub add_disqualified : ℕ → List ℕ → List ℕ
unfolding sort
add_disqualified d disqualified =
    if contains disqualified d then disqualified else sort (disqualified ++ (d ∷ []))

module _ {P : Type 0} where
  -- `DkgState::new`
  unfoldable pub new_state : ℕ → ℕ → ℕ → DkgState P
  new_state epoch threshold num_participants = record {
    epoch = epoch;
    threshold = threshold;
    num_participants = num_participants;
    commitments = empty_slots num_participants;
    disqualified = [];
  }

  unfoldable pub commitment_count : DkgState P → ℕ
  unfolding filled
  commitment_count st = length (filled st.commitments)

  unfoldable pub is_complete : DkgState P → Bool
  unfolding commitment_count
  is_complete st = commitment_count st + length st.disqualified == st.num_participants

  unfoldable pub qualified_dealers : DkgState P → List ℕ
  unfolding dealer_indices
  qualified_dealers st = dealer_indices (filled st.commitments)

  -- `num_participants as usize - disqualified.len()`, which panics below 0 where overflow is checked.
  unfoldable pub remaining : DkgState P → Result ℕ
  remaining st =
      if ltb st.num_participants (length st.disqualified)
      then panic
      else ok (st.num_participants - length st.disqualified)

  unfoldable pub check_remaining : DkgState P → Result (Unit {0})
  unfolding remaining
  check_remaining st = do
    left ← remaining st
    refuse_if (ltb left st.threshold) (dkg_aborted left st.threshold)

  -- The state after the call, which an aborting call changes too, and the call's result.
  unfoldable pub disqualify : DkgState P → ℕ → DkgState P × Result (Unit {0})
  unfolding add_disqualified check_remaining
  disqualify st zero = (st, err invalid_index)
  disqualify st (suc idx) =
      let next = record st {
        commitments = set st.commitments idx none;
        disqualified = add_disqualified (suc idx) st.disqualified;
      } in
      if ltb idx (length st.commitments)
      then (next, check_remaining next)
      else (st, err invalid_index)

  -- The refusal of the two derivations before the ceremony is complete.
  unfoldable pub require_complete : DkgState P → Result (Unit {0})
  unfolding is_complete remaining
  require_complete st =
      if is_complete st
      then ok tt
      else (remaining st >>= λ need. err (insufficient_contributions (commitment_count st) need))

module _ (c : Curve) where
  infixl 65 ◌⊞◌
  open c use {Scalar, Point, identity, ◌⊞◌}

  unfoldable pub submit_commitment :
      (List ℕ → List ℕ)
      → DkgState Point
      → Round1Package Scalar Point
      → Result (DkgState Point × Bool)
  submit_commitment sha512 st sent = do
    verify_package c sha512 sent st.epoch
    let commitment = sent.commitment
    refuse_if (contains st.disqualified commitment.dealer_index)
        (unexpected_dealer commitment.dealer_index)
    stored ← record_commitment st.threshold st.commitments commitment
    ok (record st { commitments = stored.0 }, stored.1)

  unfoldable pub key_loop : Point → List (DealerCommitment Point) → Result Point
  key_loop key [] = ok key
  key_loop key (commitment ∷ rest) = do c0 ← share_commitment commitment; key_loop (key ⊞ c0) rest

  unfoldable pub derive_group_key : DkgState Point → Result Point
  unfolding require_complete key_loop
  derive_group_key st = do require_complete st; key_loop identity (filled st.commitments)

  unfoldable pub share_loop : ℕ → Point → List (DealerCommitment Point) → Result Point
  share_loop player_index vshare [] = ok vshare
  share_loop player_index vshare (commitment ∷ rest) = do
    value ← unwrap (evaluate_at c commitment player_index)
    share_loop player_index (vshare ⊞ value) rest

  unfoldable pub derive_verification_share : DkgState Point → ℕ → Result Point
  unfolding require_complete share_loop
  derive_verification_share st player_index = do
    refuse_if (player_index == 0) invalid_index
    require_complete st
    share_loop player_index identity (filled st.commitments)

  -- `for j in 1..=num_participants`, the map as an association list in the order of its keys.
  unfoldable pub shares_from : DkgState Point → ℕ → ℕ → Result (List (ℕ × Point))
  unfolding derive_verification_share
  shares_from st j zero = ok []
  shares_from st j (suc count) = do
    share ← derive_verification_share st j
    rest ← shares_from st (suc j) count
    ok ((j, share) ∷ rest)

  unfoldable pub derive_all_verification_shares : DkgState Point → Result (List (ℕ × Point))
  unfolding shares_from
  derive_all_verification_shares st = shares_from st 1 st.num_participants
