-- ===== src/Commitment.antt =====
-- src/reshare.rs, `DealerCommitment` and `SubShare`: a dealer's Feldman commitment and the
-- evaluation that it sends to one player. `u32` values are numbers below 2 ^ 32.
pub mod Feldman
pub mod Encoding
use frostito.Prelude.{
  ℕ, zero, suc, ◌+◌, ◌*◌, ◌%◌, ◌^◌, Bool, true, false, ◌||◌, not, List, [], ◌∷◌, ◌++◌, map, length,
  take, drop, ◌==◌, if◌then◌else◌, decide, Option, none, some,
}
use frostito.Error.{
  Result, ok, err, panic, ◌>>=◌, ◌>>◌, refuse_if, ok_or, expect, invalid_index, empty_contributions,
  invalid_commitment, invalid_response,
}
use frostito.Curve.{ScalarField, Curve}
use frostito.Bytes.{to_le_bytes, from_le_bytes}
use frostito.Polynomial.{horner, horner_points}

pub record DealerCommitment (P : Type 0) : Type 0 where
  pub dealer_index : ℕ
  pub coefficients : List P

pub record SubShare (S : Type 0) : Type 0 where
  pub dealer_index : ℕ
  pub player_index : ℕ
  pub value : S

-- `coefficients.len() as u32`
unfoldable pub threshold : {P : Type 0} → DealerCommitment P → ℕ
threshold commitment = length commitment.coefficients % 2 ^ 32

-- `&self.coefficients[0]`, which panics on an empty commitment.
unfoldable pub share_commitment : {P : Type 0} → DealerCommitment P → Result P
share_commitment commitment = elim commitment.coefficients [ [] ↦ panic | c0 ∷ _ ↦ ok c0 ]

-- `SubShare::new`
unfoldable pub new_subshare : {S : Type 0} → ℕ → ℕ → S → Result (SubShare S)
new_subshare dealer player value =
    if dealer == 0 || player == 0
    then err invalid_index
    else ok (record { dealer_index = dealer; player_index = player; value = value })

module _ (s : ScalarField) where
  open s use {Scalar, to_bytes, from_canonical_bytes}

  unfoldable pub encode_plaintext : SubShare Scalar → List ℕ
  encode_plaintext share =
      to_le_bytes 4 share.dealer_index ++ (to_le_bytes 4 share.player_index ++ to_bytes share.value)

  -- The argument is the 40-byte array.
  unfoldable pub decode_plaintext : List ℕ → Result (SubShare Scalar)
  unfolding from_le_bytes
  decode_plaintext bytes = do
    let dealer_index = from_le_bytes (take 4 bytes)
    let player_index = from_le_bytes (take 4 (drop 4 bytes))
    refuse_if (dealer_index == 0 || player_index == 0) invalid_index
    value ← ok_or (from_canonical_bytes (drop 8 bytes)) invalid_response
    ok (record { dealer_index = dealer_index; player_index = player_index; value = value })

  -- `generate_subshare` of both dealers: `index` and `polynomial` are the dealer's fields.
  unfoldable pub generate_subshare : ℕ → List Scalar → ℕ → Result (SubShare Scalar)
  unfolding horner new_subshare
  generate_subshare index polynomial player_index =
      if player_index == 0
      then err invalid_index
      else new_subshare index player_index (horner s (s.from_u32 player_index) polynomial)

module _ (c : Curve) where
  infixr 70 ◌•◌
  open c use {
    Scalar, Point, generator, ◌•◌, from_u32, point_eq, compressed_size, compress, decompress,
  }

  unfoldable pub from_polynomial : ℕ → List Scalar → Result (DealerCommitment Point)
  from_polynomial dealer_index [] =
      if dealer_index == 0 then err invalid_index else err empty_contributions
  from_polynomial dealer_index (a ∷ rest) =
      if dealer_index == 0
      then err invalid_index
      else ok (record {
        dealer_index = dealer_index;
        coefficients = map (λ k. k • generator) (a ∷ rest);
      })

  unfoldable pub evaluate_at : DealerCommitment Point → ℕ → Result Point
  unfolding horner_points
  evaluate_at commitment player_index =
      if player_index == 0
      then err invalid_index
      else ok (horner_points c (from_u32 player_index) commitment.coefficients)

  unfoldable pub verify_subshare : DealerCommitment Point → ℕ → Scalar → Bool
  unfolding evaluate_at
  verify_subshare commitment player_index sub_share =
      if player_index == 0 then false else elim (evaluate_at commitment player_index) [
        | ok expected ↦ decide (point_eq (sub_share • generator) expected)
        | _ ↦ false
      ]

  unfoldable pub byte_size : DealerCommitment Point → ℕ
  byte_size commitment = 4 + length commitment.coefficients * compressed_size

  -- `for c in &self.coefficients { buf.extend_from_slice(c.compress().as_ref()) }`
  unfoldable pub compress_all : List Point → List ℕ
  compress_all [] = []
  compress_all (p ∷ ps) = compress p ++ compress_all ps

  unfoldable pub commitment_to_bytes : DealerCommitment Point → List ℕ
  unfolding compress_all
  commitment_to_bytes commitment =
      to_le_bytes 4 commitment.dealer_index ++ compress_all commitment.coefficients

  -- The decoding loop, for `count` points.
  unfoldable pub decompress_all : ℕ → List ℕ → Result (List Point)
  decompress_all zero bytes = ok []
  decompress_all (suc count) bytes = do
    point ← ok_or (decompress (take compressed_size bytes)) invalid_commitment
    rest ← decompress_all count (drop compressed_size bytes)
    ok (point ∷ rest)

  unfoldable pub commitment_from_bytes : List ℕ → ℕ → Result (DealerCommitment Point)
  unfolding decompress_all from_le_bytes
  commitment_from_bytes bytes threshold = do
    refuse_if (not (length bytes == 4 + threshold * compressed_size)) invalid_commitment
    let dealer_index = from_le_bytes (take 4 bytes)
    refuse_if (dealer_index == 0) invalid_index
    coefficients ← decompress_all threshold (drop 4 bytes)
    ok (record { dealer_index = dealer_index; coefficients = coefficients })
