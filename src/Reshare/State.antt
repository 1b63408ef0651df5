-- ===== src/Reshare/State.antt =====
-- src/reshare.rs, `ReshareState`: the commitments of one reshare round, kept by their dealers'
-- indices, and the group key that they open with; and the batch operations of the file. `usize` is
-- at least as wide as `u32`, so the casts change nothing.
pub mod GroupKey
pub mod Batch
pub mod BatchSoundness
use frostito.Prelude.{
  ℕ, zero, suc, ◌+◌, Bool, true, false, not, ◌||◌, List, [], ◌∷◌, length, take, find, leb, ◌==◌,
  if◌then◌else◌, decide, Option, none, some,
}
use frostito.Error.{
  Result, ok, err, panic, ◌>>=◌, ◌>>◌, refuse_if, ok_or, invalid_proof_of_knowledge,
  insufficient_contributions,
}
use frostito.Curve.{Curve}
use frostito.Lagrange.{compute_lagrange_coefficients}
use frostito.Commitment.{DealerCommitment, SubShare, share_commitment, evaluate_at}
use frostito.ProofOfKnowledge.{ProofOfKnowledge, verify_possession}
use frostito.Reshare.Aggregator.{Aggregator, add_subshare}
use frostito.Slots.{empty_slots, filled, dealer_indices, record_commitment, slot_at}

pub record ReshareState (P : Type 0) : Type 0 where
  pub target_epoch : ℕ
  pub old_threshold : ℕ
  pub new_threshold : ℕ
  pub new_player_count : ℕ
  pub commitments : List (Option (DealerCommitment P))
  pub group_key : P

module _ {P : Type 0} where
  -- `ReshareState::new`
  unfoldable pub new_state : ℕ → ℕ → ℕ → ℕ → ℕ → P → ReshareState P
  new_state target_epoch old_dealer_count old_threshold new_threshold new_player_count group_key =
      record {
        target_epoch = target_epoch;
        old_threshold = old_threshold;
        new_threshold = new_threshold;
        new_player_count = new_player_count;
        commitments = empty_slots old_dealer_count;
        group_key = group_key;
      }

  unfoldable pub commitment_count : ReshareState P → ℕ
  unfolding filled
  commitment_count st = length (filled st.commitments)

  unfoldable pub has_quorum : ReshareState P → Bool
  unfolding commitment_count
  has_quorum st = leb st.old_threshold (commitment_count st)

  unfoldable pub dealer_set : ReshareState P → Option (List ℕ)
  dealer_set st =
      if has_quorum st
      then some (take st.old_threshold (dealer_indices (filled st.commitments)))
      else none

module _ (c : Curve) where
  infixl 65 ◌⊞◌ ◌⊕◌
  infixl 70 ◌⊗◌
  infixr 70 ◌•◌
  open c use {Scalar, Point, identity, generator, ◌⊞◌, ◌•◌, ◌⊕◌, ◌⊗◌, point_eq, scalars}

  -- The table after the call, with whether the commitment is new.
  unfoldable pub submit_commitment :
      (List ℕ → List ℕ)
      → ReshareState Point
      → DealerCommitment Point
      → ProofOfKnowledge Scalar Point
      → Result (ReshareState Point × Bool)
  submit_commitment sha512 st commitment proof = do
    refuse_if (not (verify_possession c sha512 commitment st.target_epoch proof))
        (invalid_proof_of_knowledge commitment.dealer_index)
    stored ← record_commitment st.new_threshold st.commitments commitment
    ok (record st { commitments = stored.0 }, stored.1)

  -- The loop of `verify_group_key`.
  unfoldable pub group_key_loop :
      List (Option (DealerCommitment Point)) → List ℕ → List Scalar → Point → Result Point
  group_key_loop slots (idx ∷ rest) (l ∷ ls) derived_key = do
    commitment ← slot_at slots idx
    c0 ← share_commitment commitment
    group_key_loop slots rest ls (derived_key ⊞ l • c0)
  group_key_loop slots _ _ derived_key = ok derived_key

  unfoldable pub verify_group_key : ReshareState Point → Result Bool
  unfolding group_key_loop
  verify_group_key st = do
    indices ←
        ok_or (dealer_set st) (insufficient_contributions (commitment_count st) st.old_threshold)
    ls ← compute_lagrange_coefficients scalars indices
    derived_key ← group_key_loop st.commitments indices ls identity
    ok (decide (point_eq derived_key st.group_key))

  -- `Aggregator::add_subshares_batch`: the state after the batch, and how many were added.
  unfoldable pub add_subshares_batch :
      Aggregator Scalar Point
      → List (SubShare Scalar)
      → List (DealerCommitment Point)
      → ℕ
      → Result (Aggregator Scalar Point × ℕ)
  add_subshares_batch a (s ∷ ss) (k ∷ ks) added = elim (add_subshare c a s k) [
    | ok (next, true) ↦ add_subshares_batch next ss ks (added + 1)
    | ok (next, false) ↦ add_subshares_batch next ss ks added
    | err e ↦ add_subshares_batch a ss ks added
    | panic ↦ panic
  ]
  add_subshares_batch a _ _ added = ok (a, added)

  -- One pair of the loop of `batch_verify_subshares`: the two sums so far, or `none` where the
  -- function returns false.
  unfoldable pub batch_step :
      ℕ
      → List (DealerCommitment Point)
      → SubShare Scalar
      → Scalar
      → Scalar × Point
      → Option (Scalar × Point)
  unfolding evaluate_at
  batch_step player_index commitments subshare w (lhs_exponent, rhs) =
      if subshare.player_index == player_index
      then elim (find (λ k. k.dealer_index == subshare.dealer_index) commitments) [
        | none ↦ none
        | some commitment ↦ elim (evaluate_at c commitment player_index) [
          | ok eval ↦ some (lhs_exponent ⊕ w ⊗ subshare.value, rhs ⊞ w • eval)
          | _ ↦ none
        ]
      ]
      else none

  unfoldable pub batch_loop :
      ℕ
      → List (DealerCommitment Point)
      → List (SubShare Scalar)
      → List Scalar
      → Scalar × Point
      → Option (Scalar × Point)
  unfolding batch_step
  batch_loop player_index commitments (subshare ∷ rest) (w ∷ weights) sums =
      elim (batch_step player_index commitments subshare w sums) [
        | none ↦ none
        | some next ↦ batch_loop player_index commitments rest weights next
      ]
  batch_loop player_index commitments _ _ sums = some sums

  -- `weights` are the sampled scalars, one for each sub-share.
  unfoldable pub batch_verify_subshares :
      ℕ → List (SubShare Scalar) → List (DealerCommitment Point) → List Scalar → Bool
  unfolding batch_loop
  batch_verify_subshares player_index subshares commitments weights =
      if not (length subshares == length commitments) || length subshares == 0
      then false
      else elim (batch_loop player_index commitments subshares weights (c.zero, identity)) [
        | none ↦ false
        | some (lhs_exponent, rhs) ↦ decide (point_eq (lhs_exponent • generator) rhs)
      ]
