-- ===== src/Nested/Interleaved.antt =====
-- src/nested.rs, `interleaved_dkg`: one key generation among the inner holders for each coefficient of
-- the outer polynomial. The samples of dealer k in run j are `rng j k`.
pub mod Runs
pub mod Delivery
pub mod Recombination
pub mod Complete
use frostito.Prelude.{ℕ, zero, suc, ◌-◌, ◌≡◌, refl, List, [], ◌∷◌, map, get_elem?}
use frostito.Error.{Result, ok, panic, ◌>>=◌, expect, unwrap}
use frostito.Curve.{Curve}
use frostito.Commitment.{DealerCommitment, share_commitment, generate_subshare}
use frostito.Reshare.{Dealer}
use frostito.Dkg.{DkgAggregator, new_dealer, new_aggregator, add_subshare, finalize}
use frostito.Nested.{InnerShare}

pub record CoefficientDkg (S P : Type 0) : Type 0 where
  pub coeff_index : ℕ
  pub dealers : List (Dealer S P)

module _ (c : Curve) where
  infixl 65 ◌⊞◌
  open c use {Scalar, Point, scalars, identity, ◌⊞◌}

  -- `(1..=inner_n).map(|k| Dealer::new(k, inner_t, rng).expect(..))`, from a holder on.
  unfoldable pub dealers_from : (ℕ → ℕ → Scalar) → ℕ → ℕ → ℕ → Result (List (Dealer Scalar Point))
  unfolding new_dealer
  dealers_from rng inner_t from zero = ok []
  dealers_from rng inner_t from (suc count) = do
    dealer ← unwrap (new_dealer c from inner_t (rng from))
    rest ← dealers_from rng inner_t (suc from) count
    ok (dealer ∷ rest)

  -- The loop over the coefficients.
  unfoldable pub coefficient_dkgs :
      (ℕ → ℕ → ℕ → Scalar) → ℕ → ℕ → ℕ → ℕ → Result (List (CoefficientDkg Scalar Point))
  unfolding dealers_from
  coefficient_dkgs rng inner_n inner_t j zero = ok []
  coefficient_dkgs rng inner_n inner_t j (suc count) = do
    dealers ← dealers_from (rng j) inner_t 1 inner_n
    rest ← coefficient_dkgs rng inner_n inner_t (suc j) count
    ok (record { coeff_index = j; dealers = dealers } ∷ rest)

  -- The sum of the constant terms of one run.
  unfoldable pub sum_constants : Point → List (Dealer Scalar Point) → Result Point
  unfolding share_commitment
  sum_constants commitment [] = ok commitment
  sum_constants commitment (dealer ∷ rest) = do
    c0 ← share_commitment dealer.commitment
    sum_constants (commitment ⊞ c0) rest

  unfoldable pub coefficient_commitments : List (CoefficientDkg Scalar Point) → Result (List Point)
  unfolding sum_constants
  coefficient_commitments [] = ok []
  coefficient_commitments (run ∷ rest) = do
    commitment ← sum_constants identity run.dealers
    others ← coefficient_commitments rest
    ok (commitment ∷ others)

  -- The loop over the dealers of one run for holder k; `commitments[(index - 1)]` panics out of range.
  unfoldable pub deliver :
      ℕ
      → List (DealerCommitment Point)
      → DkgAggregator Scalar Point
      → List (Dealer Scalar Point)
      → Result (DkgAggregator Scalar Point)
  unfolding generate_subshare add_subshare
  deliver k commitments agg [] = ok agg
  deliver k commitments agg (dealer ∷ rest) = do
    subshare ← unwrap (generate_subshare scalars dealer.index dealer.polynomial k)
    commitment ← expect (get_elem? commitments (dealer.index - 1))
    next ← add_subshare c agg subshare commitment
    deliver k commitments next.0 rest

  -- Holder k's share of each coefficient.
  unfoldable pub holder_shares : ℕ → List (CoefficientDkg Scalar Point) → Result (List Scalar)
  unfolding new_aggregator deliver finalize
  holder_shares k [] = ok []
  holder_shares k (run ∷ rest) = do
    agg ← new_aggregator k (map (λ dealer. dealer.index) run.dealers)
    complete ← deliver k (map (λ dealer. dealer.commitment) run.dealers) agg run.dealers
    share ← finalize c complete
    others ← holder_shares k rest
    ok (share ∷ others)

  -- The loop over the holders.
  unfoldable pub inner_shares_from :
      List (CoefficientDkg Scalar Point) → ℕ → ℕ → Result (List (InnerShare Scalar))
  unfolding holder_shares
  inner_shares_from runs k zero = ok []
  inner_shares_from runs k (suc count) = do
    shares ← holder_shares k runs
    rest ← inner_shares_from runs (suc k) count
    ok (record { holder_index = k; coefficient_shares = shares } ∷ rest)

  unfoldable pub interleaved_dkg :
      ℕ → ℕ → ℕ → (ℕ → ℕ → ℕ → Scalar) → Result (List (InnerShare Scalar) × List Point)
  unfolding coefficient_dkgs coefficient_commitments inner_shares_from
  interleaved_dkg inner_n inner_t outer_t rng = do
    runs ← coefficient_dkgs rng inner_n inner_t 0 outer_t
    commitments ← coefficient_commitments runs
    inner_shares ← inner_shares_from runs 1 inner_n
    ok (inner_shares, commitments)

  -- With a threshold of 0 the call panics as soon as there is a holder and a coefficient: the error of
  -- the dealer's constructor meets an `expect`.
  interleaved_dkg-zero :
      (n outer : ℕ) (rng : ℕ → ℕ → ℕ → Scalar) → interleaved_dkg (suc n) 0 (suc outer) rng ≡ panic
  unfolding interleaved_dkg coefficient_dkgs dealers_from new_dealer
  interleaved_dkg-zero n outer rng = refl
