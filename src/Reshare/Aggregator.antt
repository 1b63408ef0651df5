-- ===== src/Reshare/Aggregator.antt =====
-- src/reshare.rs, `Aggregator`: a player collects verified sub-shares from a fixed dealer set and
-- combines them with the set's Lagrange coefficients.
pub mod DealerSet
pub mod Invariant
pub mod Loops
pub mod Stored
pub mod Correct
pub mod GroupKey
use frostito.Prelude.{
  ℕ, zero, suc, ◌+◌, ◌%◌, ◌^◌, Bool, true, false, ◌||◌, not, List, [], ◌∷◌, ◌++◌, map, length, any,
  find, filter, contains, replicate, ◌==◌, if◌then◌else◌, decide, Option, none, some,
}
use frostito.Error.{
  Error, Result, ok, err, panic, ◌>>=◌, ◌>>◌, refuse_if, expect, invalid_index, invalid_commitment,
  invalid_response, empty_contributions, unexpected_dealer, threshold_mismatch,
  insufficient_contributions,
}
use frostito.Curve.{Curve}
use frostito.Indices.{sort, scan_duplicates}
use frostito.Lagrange.{compute_lagrange_coefficients}
use frostito.Commitment.{DealerCommitment, SubShare, threshold, verify_subshare}
use frostito.Reshare.{SharePolynomial, group_key, verify_share}

pub record VerifiedSubShare (S : Type 0) : Type 0 where
  pub dealer_index : ℕ
  pub value : S

pub record Aggregator (S P : Type 0) : Type 0 where
  pub player_index : ℕ
  pub dealer_set : List ℕ
  pub subshares : List (VerifiedSubShare S)
  pub commitments : List (DealerCommitment P)

-- `if sorted[0] == 0 { .. }`, and the sorted list.
unfoldable pub check_first : List ℕ → Result (List ℕ)
check_first [] = panic
check_first (first ∷ rest) = if first == 0 then err invalid_index else ok (first ∷ rest)

-- The checks of `Aggregator::new`, here and in src/dkg.rs: the sorted dealer set.
unfoldable pub checked_dealer_set : ℕ → List ℕ → Result (List ℕ)
unfolding sort scan_duplicates check_first
checked_dealer_set player_index dealer_set = do
  refuse_if (player_index == 0) invalid_index
  refuse_if (length dealer_set == 0) empty_contributions
  let sorted = sort dealer_set
  scan_duplicates sorted
  check_first sorted

abbrev pub has_dealer : {S : Type 0} → ℕ → List (VerifiedSubShare S) → Bool
has_dealer d = any (λ v. v.dealer_index == d)

-- The thresholds of the first stored commitment and of the new one.
unfoldable pub check_threshold :
    {P : Type 0} → List (DealerCommitment P) → DealerCommitment P → Result (Unit {0})
check_threshold [] commitment = ok tt
check_threshold (first ∷ _) commitment =
    if threshold first == threshold commitment
    then ok tt
    else err (threshold_mismatch (threshold first) (threshold commitment))

module _ {S P : Type 0} where
  unfoldable pub new : ℕ → List ℕ → Result (Aggregator S P)
  unfolding checked_dealer_set
  new player_index dealer_set = do
    sorted ← checked_dealer_set player_index dealer_set
    ok (record {
      player_index = player_index;
      dealer_set = sorted;
      subshares = [];
      commitments = [];
    })

  unfoldable pub is_complete : Aggregator S P → Bool
  is_complete a = length a.subshares == length a.dealer_set

  unfoldable pub missing_dealers : Aggregator S P → List ℕ
  missing_dealers a = filter (λ d. not (has_dealer d a.subshares)) a.dealer_set

  abbrev pub subshare_of : Aggregator S P → ℕ → Result (VerifiedSubShare S)
  subshare_of a d = expect (find (λ v. v.dealer_index == d) a.subshares)

  abbrev pub commitment_of : Aggregator S P → ℕ → Result (DealerCommitment P)
  commitment_of a d = expect (find (λ k. k.dealer_index == d) a.commitments)

module _ (c : Curve) where
  infixl 65 ◌⊕◌ ◌⊞◌
  infixl 70 ◌⊗◌
  infixr 70 ◌•◌
  open c use {Scalar, Point, zero as zero_scalar, ◌⊕◌, ◌⊗◌, identity, ◌⊞◌, ◌•◌, point_eq, scalars}

  -- `true` with the extended state, `false` for a duplicate.
  unfoldable pub add_subshare :
      Aggregator Scalar Point
      → SubShare Scalar
      → DealerCommitment Point
      → Result (Aggregator Scalar Point × Bool)
  unfolding check_threshold
  add_subshare a subshare commitment = do
    refuse_if (not (subshare.player_index == a.player_index)) invalid_index
    refuse_if (not (subshare.dealer_index == commitment.dealer_index)) invalid_index
    refuse_if (subshare.dealer_index == 0) invalid_index
    refuse_if (not (contains a.dealer_set subshare.dealer_index))
        (unexpected_dealer subshare.dealer_index)
    check_threshold a.commitments commitment
    if has_dealer subshare.dealer_index a.subshares
        then ok (a, false)
        else (if verify_subshare c commitment a.player_index subshare.value
            then ok (
              record a {
                subshares =
                    a.subshares
                    ++ (record { dealer_index = subshare.dealer_index; value = subshare.value }
                        ∷ []);
                commitments = a.commitments ++ (commitment ∷ []);
              },
              true,
            )
            else err invalid_response)

  -- The private `lagrange`.
  unfoldable pub lagrange : Aggregator Scalar Point → Result (List Scalar)
  unfolding is_complete
  lagrange a =
      if is_complete a
      then compute_lagrange_coefficients scalars a.dealer_set
      else err (insufficient_contributions (length a.subshares) (length a.dealer_set))

  -- `for (dealer, lambda) in dealer_set.iter().zip(lagrange)` of `aggregate`.
  unfoldable pub aggregate_loop :
      Aggregator Scalar Point → List ℕ → List Scalar → Scalar → Result Scalar
  aggregate_loop a (d ∷ ds) (l ∷ ls) new_share = do
    share ← subshare_of a d
    aggregate_loop a ds ls (new_share ⊕ l ⊗ share.value)
  aggregate_loop a _ _ new_share = ok new_share

  unfoldable pub aggregate : Aggregator Scalar Point → Result Scalar
  unfolding lagrange aggregate_loop
  aggregate a = do ls ← lagrange a; aggregate_loop a a.dealer_set ls zero_scalar

  -- `coefficients[k] = coefficients[k].add(&c.mul_scalar(lambda))`, which panics past the end.
  unfoldable pub add_scaled : Scalar → List Point → List Point → Result (List Point)
  add_scaled l coefficients [] = ok coefficients
  add_scaled l [] (p ∷ ps) = panic
  add_scaled l (q ∷ qs) (p ∷ ps) = do rest ← add_scaled l qs ps; ok ((q ⊞ l • p) ∷ rest)

  unfoldable pub polynomial_loop :
      Aggregator Scalar Point → List ℕ → List Scalar → List Point → Result (List Point)
  unfolding add_scaled
  polynomial_loop a (d ∷ ds) (l ∷ ls) coefficients = do
    commitment ← commitment_of a d
    next ← add_scaled l coefficients commitment.coefficients
    polynomial_loop a ds ls next
  polynomial_loop a _ _ coefficients = ok coefficients

  -- The rest of `polynomial`, which reads the threshold off `self.commitments[0]`.
  unfoldable pub polynomial_from :
      Aggregator Scalar Point
      → List Scalar
      → List (DealerCommitment Point)
      → Result (SharePolynomial Point)
  unfolding polynomial_loop
  polynomial_from a ls [] = panic
  polynomial_from a ls (first ∷ rest) = do
    coefficients ← polynomial_loop a a.dealer_set ls (replicate (threshold first) identity)
    ok (record { coefficients = coefficients })

  unfoldable pub polynomial : Aggregator Scalar Point → Result (SharePolynomial Point)
  unfolding lagrange polynomial_from
  polynomial a = do ls ← lagrange a; polynomial_from a ls a.commitments

  unfoldable pub derive_group_key : Aggregator Scalar Point → Result Point
  derive_group_key a = do p ← polynomial a; group_key p

  unfoldable pub finalize :
      Aggregator Scalar Point → Point → Result (Scalar × SharePolynomial Point)
  finalize a expected_group_key = do
    p ← polynomial a
    key ← group_key p
    refuse_if (not (decide (point_eq key expected_group_key))) invalid_commitment
    share ← aggregate a
    refuse_if (not (verify_share c p a.player_index share)) invalid_response
    ok (share, p)
