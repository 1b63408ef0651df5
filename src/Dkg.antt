-- ===== src/Dkg.antt =====
-- src/dkg.rs: the dealer, and the player's aggregator, which sums the sub-shares of a fixed dealer
-- set. The dealer's record and sub-shares are those of the reshare module: the source writes the
-- same code twice.
pub mod Ranges
pub mod Sums
pub mod Aggregation
pub mod State
use frostito.Prelude.{
  ℕ, zero, suc, ◌+◌, Bool, true, false, not, List, [], ◌∷◌, ◌++◌, length, contains, filter, ◌==◌,
  if◌then◌else◌,
}
use frostito.Error.{
  Result, ok, err, ◌>>=◌, ◌>>◌, refuse_if, invalid_index, unexpected_dealer, invalid_sub_share,
  insufficient_contributions, threshold_mismatch,
}
use frostito.Curve.{Curve}
use frostito.Commitment.{
  DealerCommitment, SubShare, share_commitment, verify_subshare, from_polynomial, generate_subshare,
}
use frostito.Reshare.{Dealer, draw}
use frostito.Reshare.Aggregator.{VerifiedSubShare, has_dealer, checked_dealer_set}

-- `dkg::Aggregator`; a stored pair `(u32, Scalar)` is a `VerifiedSubShare`.
pub record DkgAggregator (S P : Type 0) : Type 0 where
  pub player_index : ℕ
  pub dealer_set : List ℕ
  pub subshares : List (VerifiedSubShare S)
  pub constant_commitments : List P

-- `from..from + count`
abbrev pub range : ℕ → ℕ → List ℕ
range from zero = []
range from (suc count) = from ∷ range (suc from) count

module _ {S P : Type 0} where
  unfoldable pub new_aggregator : ℕ → List ℕ → Result (DkgAggregator S P)
  unfolding checked_dealer_set
  new_aggregator player_index dealer_set = do
    sorted ← checked_dealer_set player_index dealer_set
    ok (record {
      player_index = player_index;
      dealer_set = sorted;
      subshares = [];
      constant_commitments = [];
    })

  unfoldable pub all_dealers : ℕ → ℕ → Result (DkgAggregator S P)
  unfolding new_aggregator
  all_dealers player_index n = new_aggregator player_index (range 1 n)

  unfoldable pub is_complete : DkgAggregator S P → Bool
  is_complete a = length a.subshares == length a.dealer_set

  unfoldable pub missing_dealers : DkgAggregator S P → List ℕ
  missing_dealers a = filter (λ d. not (has_dealer d a.subshares)) a.dealer_set

  unfoldable pub require_complete : DkgAggregator S P → Result (Unit {0})
  unfolding is_complete
  require_complete a =
      refuse_if (not (is_complete a))
        (insufficient_contributions (length a.subshares) (length a.dealer_set))

module _ (c : Curve) where
  infixl 65 ◌⊕◌ ◌⊞◌
  open c use {Scalar, Point, zero as zero_scalar, ◌⊕◌, identity, ◌⊞◌}

  -- `dkg::Dealer::new`: every coefficient is sampled.
  unfoldable pub new_dealer : ℕ → ℕ → (ℕ → Scalar) → Result (Dealer Scalar Point)
  unfolding draw
  new_dealer index threshold rng = do
    refuse_if (index == 0) invalid_index
    refuse_if (threshold == 0) (threshold_mismatch 1 0)
    let polynomial = draw threshold rng
    commitment ← from_polynomial c index polynomial
    ok (record { index = index; polynomial = polynomial; commitment = commitment })

  -- `dkg::Dealer::generate_subshares`, which passes the first error on.
  unfoldable pub subshares_from : Dealer Scalar Point → ℕ → ℕ → Result (List (SubShare Scalar))
  subshares_from dealer from zero = ok []
  subshares_from dealer from (suc count) = do
    share ← generate_subshare c.scalars dealer.index dealer.polynomial from
    rest ← subshares_from dealer (from + 1) count
    ok (share ∷ rest)

  unfoldable pub generate_subshares : Dealer Scalar Point → ℕ → Result (List (SubShare Scalar))
  unfolding subshares_from
  generate_subshares dealer num_players = subshares_from dealer 1 num_players

  -- The value is pushed before `share_commitment` is read, which panics on an empty commitment: the
  -- panic leaves no state.
  unfoldable pub add_subshare :
      DkgAggregator Scalar Point
      → SubShare Scalar
      → DealerCommitment Point
      → Result (DkgAggregator Scalar Point × Bool)
  add_subshare a subshare commitment = do
    refuse_if (not (subshare.player_index == a.player_index)) invalid_index
    refuse_if (not (subshare.dealer_index == commitment.dealer_index)) invalid_index
    refuse_if (subshare.dealer_index == 0) invalid_index
    refuse_if (not (contains a.dealer_set subshare.dealer_index))
        (unexpected_dealer subshare.dealer_index)
    if has_dealer subshare.dealer_index a.subshares
        then ok (a, false)
        else (if verify_subshare c commitment a.player_index subshare.value
            then (share_commitment commitment >>= λ c0. ok (
              record a {
                subshares =
                    a.subshares
                    ++ (record { dealer_index = subshare.dealer_index; value = subshare.value }
                        ∷ []);
                constant_commitments = a.constant_commitments ++ (c0 ∷ []);
              },
              true,
            ))
            else err (invalid_sub_share subshare.dealer_index))

  -- `for c0 in &self.constant_commitments { key = key.add(c0) }`
  unfoldable pub sum_points : Point → List Point → Point
  sum_points key [] = key
  sum_points key (c0 ∷ rest) = sum_points (key ⊞ c0) rest

  unfoldable pub derive_group_key : DkgAggregator Scalar Point → Result Point
  unfolding require_complete sum_points
  derive_group_key a = do require_complete a; ok (sum_points identity a.constant_commitments)

  unfoldable pub sum_values : Scalar → List (VerifiedSubShare Scalar) → Scalar
  sum_values share [] = share
  sum_values share (v ∷ rest) = sum_values (share ⊕ v.value) rest

  unfoldable pub finalize : DkgAggregator Scalar Point → Result Scalar
  unfolding require_complete sum_values
  finalize a = do require_complete a; ok (sum_values zero_scalar a.subshares)
