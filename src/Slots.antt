-- ===== src/Slots.antt =====
-- The commitment table that `DkgState` (src/dkg.rs) and `ReshareState` (src/reshare.rs) both keep:
-- one optional commitment per dealer, dealer i in position i - 1.
pub mod Dealers
pub mod Changes
use frostito.Prelude.{
  ℕ, zero, suc, ◌+◌, ◌≡◌, Bool, true, false, not, List, [], ◌∷◌, length, get_elem?, set, replicate,
  ◌==◌, Option, none, some, map,
}
use frostito.Error.{
  Result, ok, err, panic, ◌>>=◌, ◌>>◌, refuse_if, ok_or, expect, invalid_index, invalid_commitment,
}
use frostito.Commitment.{DealerCommitment, threshold}

-- `vec![None; n]`
abbrev pub empty_slots : {P : Type 0} → ℕ → List (Option (DealerCommitment P))
empty_slots n = replicate n none

-- `dealer_index.checked_sub(1).ok_or(Error::InvalidIndex)?`
abbrev pub checked_pred : ℕ → Result ℕ
checked_pred zero = err invalid_index
checked_pred (suc idx) = ok idx

module _ {P : Type 0} where
  -- `iter().flatten()`, `iter().filter_map(|c| c.as_ref())`
  unfoldable pub filled : List (Option (DealerCommitment P)) → List (DealerCommitment P)
  filled [] = []
  filled (none ∷ rest) = filled rest
  filled (some k ∷ rest) = k ∷ filled rest

  -- `filter(|c| c.is_some()).count()`
  unfoldable pub commitment_count : List (Option (DealerCommitment P)) → ℕ
  unfolding filled
  commitment_count slots = length (filled slots)

  -- `c.dealer_index` of each commitment.
  unfoldable pub dealer_indices : List (DealerCommitment P) → List ℕ
  dealer_indices [] = []
  dealer_indices (k ∷ ks) = k.dealer_index ∷ dealer_indices ks

  -- `if slots[idx].is_some() { return Ok(false) }`, and the store.
  unfoldable pub store :
      List (Option (DealerCommitment P))
      → ℕ
      → DealerCommitment P
      → Option (DealerCommitment P)
      → List (Option (DealerCommitment P)) × Bool
  store slots idx k (some old) = (slots, false)
  store slots idx k none = (set slots idx (some k), true)

  -- The checks that the two `submit_commitment` share, from `checked_sub` on.
  unfoldable pub record_commitment :
      ℕ
      → List (Option (DealerCommitment P))
      → DealerCommitment P
      → Result (List (Option (DealerCommitment P)) × Bool)
  unfolding store
  record_commitment expected slots k = do
    idx ← checked_pred k.dealer_index
    slot ← ok_or (get_elem? slots idx) invalid_index
    refuse_if (not (threshold k == expected)) invalid_commitment
    ok (store slots idx k slot)

  -- `slots[idx - 1].as_ref().expect(..)`
  unfoldable pub slot_at : List (Option (DealerCommitment P)) → ℕ → Result (DealerCommitment P)
  slot_at slots zero = panic
  slot_at slots (suc idx) = do slot ← expect (get_elem? slots idx); expect slot
