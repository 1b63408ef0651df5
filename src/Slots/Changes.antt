-- ===== src/Slots/Changes.antt =====
-- Which dealers are recorded after a slot is filled or cleared.
use frostito.Prelude.{
  ℕ, zero, suc, ◌+◌, ◌≡◌, refl, ap, ◌∙◌, Bool, true, false, List, [], ◌∷◌, set, contains, Option,
  none, some, arith, ◌⊎◌,
}
use frostito.Commitment.{DealerCommitment}
use frostito.Slots.{filled, dealer_indices}
use frostito.Slots.Dealers.{SlotsFrom, dealers_above}

module _ {P : Type 0} where
  -- A commitment for dealer d is recorded.
  unfoldable pub has_commitment : List (Option (DealerCommitment P)) → ℕ → Bool
  unfolding filled dealer_indices
  has_commitment slots d = contains (dealer_indices (filled slots)) d

  pub has_commitment-fill :
      (slots : List (Option (DealerCommitment P))) (idx d : ℕ) (k : DealerCommitment P)
      → has_commitment (set slots idx (some k)) d ≡ true
      → (k.dealer_index ≡ d) ⊎ (has_commitment slots d ≡ true)
  unfolding has_commitment filled dealer_indices
  has_commitment-fill [] idx d k h = cc
  has_commitment-fill (none ∷ rest) zero d k h = ground arith
  has_commitment-fill (some old ∷ rest) zero d k h = ground arith
  has_commitment-fill (none ∷ rest) (suc idx) d k h = has_commitment-fill rest idx d k h
  has_commitment-fill (some old ∷ rest) (suc idx) d k h =
      ground (arith, has_commitment-fill rest idx d k)

  pub has_commitment-clear :
      (slots : List (Option (DealerCommitment P))) (idx d : ℕ)
      → has_commitment (set slots idx none) d ≡ true
      → has_commitment slots d ≡ true
  unfolding has_commitment filled dealer_indices
  has_commitment-clear [] idx d h = cc
  has_commitment-clear (none ∷ rest) zero d h = h
  has_commitment-clear (some old ∷ rest) zero d h = ground arith
  has_commitment-clear (none ∷ rest) (suc idx) d h = has_commitment-clear rest idx d h
  has_commitment-clear (some old ∷ rest) (suc idx) d h =
      ground (arith, has_commitment-clear rest idx d)

  -- The dealer of a cleared slot has no commitment left.
  pub has_commitment-cleared :
      (Q : DealerCommitment P → Type 0) (i idx : ℕ) (slots : List (Option (DealerCommitment P)))
      → SlotsFrom Q i slots
      → has_commitment (set slots idx none) (i + idx) ≡ false
  unfolding has_commitment filled dealer_indices
  has_commitment-cleared Q i idx [] h = refl
  has_commitment-cleared Q i zero (none ∷ rest) h =
      dealers_above Q (suc i) (i + 0) rest h (omega arith)
  has_commitment-cleared Q i zero (some old ∷ rest) h =
      dealers_above Q (suc i) (i + 0) rest h.2 (omega arith)
  has_commitment-cleared Q i (suc idx) (none ∷ rest) h =
      ap (contains (dealer_indices (filled (set rest idx none)))) (omega arith)
      ∙ has_commitment-cleared Q (suc i) idx rest h
  has_commitment-cleared Q i (suc idx) (some old ∷ rest) h =
      let tail : has_commitment (set rest idx none) (i + suc idx) ≡ false =
        ap (contains (dealer_indices (filled (set rest idx none)))) (omega arith)
        ∙ has_commitment-cleared Q (suc i) idx rest h.2 in
      let own : old.dealer_index ≡ i = h.0 in ground arith
