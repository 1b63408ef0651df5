-- ===== src/Reshare.antt =====
-- src/reshare.rs: the dealer, the reshared polynomial, the player's aggregator and the round state.
-- Sampling takes the scalars that the generator yields, in order, as an argument. A method that
-- mutates `self` returns the new state; on an error the caller's state is unchanged.
pub mod Aggregator
pub mod State
pub mod Dealing
use frostito.Prelude.{
  ℕ, zero, suc, ◌+◌, ◌*◌, ◌%◌, ◌^◌, Bool, true, false, ◌||◌, not, List, [], ◌∷◌, ◌++◌, map, length,
  take, drop, ◌==◌, if◌then◌else◌, decide,
}
use frostito.Error.{
  Result, ok, err, panic, ◌>>=◌, ◌>>◌, refuse_if, unwrap, invalid_index, invalid_commitment,
  threshold_mismatch,
}
use frostito.Curve.{Curve}
use frostito.Polynomial.{horner_points}
use frostito.Commitment.{
  DealerCommitment, SubShare, from_polynomial, generate_subshare, compress_all, decompress_all,
}

-- `Dealer`, also of src/dkg.rs: the two differ in how the polynomial is made.
pub record Dealer (S P : Type 0) : Type 0 where
  pub index : ℕ
  pub polynomial : List S
  pub commitment : DealerCommitment P

-- The first `n` sampled scalars.
unfoldable pub draw {ℓ} : {S : Type ℓ} → ℕ → (ℕ → S) → List S
draw zero rng = []
draw (suc n) rng = rng 0 ∷ draw n (λ i. rng (suc i))

-- `SharePolynomial`
pub record SharePolynomial (P : Type 0) : Type 0 where
  pub coefficients : List P

-- `&self.coefficients[0]`
unfoldable pub group_key : {P : Type 0} → SharePolynomial P → Result P
group_key polynomial = elim polynomial.coefficients [ [] ↦ panic | c0 ∷ _ ↦ ok c0 ]

module _ (c : Curve) where
  infixr 70 ◌•◌
  open c use {Scalar, Point, generator, ◌•◌, from_u32, point_eq, compressed_size}

  -- `Dealer::new`: the standing share is the constant term.
  unfoldable pub new_dealer : ℕ → Scalar → ℕ → (ℕ → Scalar) → Result (Dealer Scalar Point)
  unfolding draw
  new_dealer index share zero rng =
      if index == 0 then err invalid_index else err (threshold_mismatch 1 0)
  new_dealer index share (suc degree) rng = do
    refuse_if (index == 0) invalid_index
    let polynomial = share ∷ draw degree rng
    commitment ← from_polynomial c index polynomial
    ok (record { index = index; polynomial = polynomial; commitment = commitment })

  -- `generate_subshare`, and `(from..).map(..).collect()` of `generate_subshares` over `count`
  -- players, whose `expect` panics on an error.
  unfoldable pub dealer_subshare : Dealer Scalar Point → ℕ → Result (SubShare Scalar)
  dealer_subshare dealer player = generate_subshare c.scalars dealer.index dealer.polynomial player

  unfoldable pub subshares_from : Dealer Scalar Point → ℕ → ℕ → Result (List (SubShare Scalar))
  unfolding dealer_subshare
  subshares_from dealer from zero = ok []
  subshares_from dealer from (suc count) = do
    share ← unwrap (dealer_subshare dealer from)
    rest ← subshares_from dealer (from + 1) count
    ok (share ∷ rest)

  unfoldable pub generate_subshares : Dealer Scalar Point → ℕ → Result (List (SubShare Scalar))
  unfolding subshares_from
  generate_subshares dealer num_players = subshares_from dealer 1 num_players

  unfoldable pub share_evaluate_at : SharePolynomial Point → ℕ → Result Point
  unfolding horner_points
  share_evaluate_at polynomial index =
      if index == 0
      then err invalid_index
      else ok (horner_points c (from_u32 index) polynomial.coefficients)

  -- `SharePolynomial::verify_share`
  unfoldable pub verify_share : SharePolynomial Point → ℕ → Scalar → Bool
  verify_share polynomial player_index share =
      if player_index == 0 then false else elim (share_evaluate_at polynomial player_index) [
        | ok expected ↦ decide (point_eq (share • generator) expected)
        | _ ↦ false
      ]

  unfoldable pub polynomial_to_bytes : SharePolynomial Point → List ℕ
  polynomial_to_bytes polynomial = compress_all c polynomial.coefficients

  -- `chunks_exact` over a length that is an exact multiple.
  unfoldable pub polynomial_from_bytes : List ℕ → ℕ → Result (SharePolynomial Point)
  polynomial_from_bytes bytes threshold = do
    refuse_if (threshold == 0 || not (length bytes == compressed_size * threshold))
        invalid_commitment
    coefficients ← decompress_all c threshold bytes
    ok (record { coefficients = coefficients })
