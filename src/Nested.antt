-- ===== src/Nested.antt =====
-- src/nested.rs, the sharing of one position among inner holders: `InnerShare`,
-- `split_evaluation_for_inner`, `verify_split_piece` and `combine_shares`.
pub mod Sharing
pub mod Nonces
pub mod Signing
pub mod Interleaved
use frostito.Prelude.{ℕ, zero, suc, ◌-◌, Bool, List, [], ◌∷◌}
use frostito.Error.{Result, ok, ◌>>=◌, unwrap}
use frostito.Curve.{ScalarField, Curve}
use frostito.Polynomial.{power_loop}
use frostito.Commitment.{DealerCommitment, from_polynomial, verify_subshare}
use frostito.Reshare.{draw}

pub record InnerShare (S : Type 0) : Type 0 where
  pub holder_index : ℕ
  pub coefficient_shares : List S

module _ (s : ScalarField) where
  infixl 65 ◌⊕◌
  open s use {Scalar, zero as zero_scalar, one, from_u32, ◌⊕◌}

  -- `InnerShare::eval_at`
  unfoldable pub eval_at : InnerShare Scalar → ℕ → Scalar
  unfolding power_loop
  eval_at share x = power_loop s (from_u32 x) share.coefficient_shares one zero_scalar

  -- `(from..from + count).map(..)` over the holders.
  unfoldable pub split_pieces : List Scalar → ℕ → ℕ → List (ℕ × Scalar)
  unfolding power_loop
  split_pieces coeffs from zero = []
  split_pieces coeffs from (suc count) =
      (from, power_loop s (from_u32 from) coeffs one zero_scalar)
      ∷ split_pieces coeffs (suc from) count

  -- The loop of `combine_shares`.
  unfoldable pub add_pieces : Scalar → List (ℕ × Scalar) → Scalar
  add_pieces result [] = result
  add_pieces result ((i, piece) ∷ rest) = add_pieces (result ⊕ piece) rest

  unfoldable pub combine_shares : InnerShare Scalar → ℕ → List (ℕ × Scalar) → Scalar
  unfolding eval_at add_pieces
  combine_shares inner_share nested_position outer_eval_pieces =
      add_pieces (eval_at inner_share nested_position) outer_eval_pieces

module _ (c : Curve) where
  open c use {Scalar, Point, scalars}

  -- `for _ in 1..inner_t` draws nothing for a threshold of 0 or 1.
  unfoldable pub split_evaluation_for_inner :
      Scalar → ℕ → ℕ → (ℕ → Scalar) → Result (List (ℕ × Scalar) × DealerCommitment Point)
  unfolding split_pieces draw
  split_evaluation_for_inner evaluation inner_n inner_t rng = do
    let coeffs = evaluation ∷ draw (inner_t - 1) rng
    commitment ← unwrap (from_polynomial c 1 coeffs)
    ok (split_pieces scalars coeffs 1 inner_n, commitment)

  unfoldable pub verify_split_piece : DealerCommitment Point → ℕ → Scalar → Bool
  verify_split_piece commitment holder_index piece = verify_subshare c commitment holder_index piece
