-- ===== src/Commitment/Encoding.antt =====
-- src/reshare.rs, the byte formats of sub-shares and commitments, written and read.
use frostito.Prelude.{
  ℕ, ◌+◌, ◌*◌, ◌^◌, ◌<◌, ◌≡◌, refl, sym, ap, ap₂, ◌∙◌, false, List, [], ◌∷◌, ◌++◌, length,
  length-append, drop, take_append, drop_append, append_assoc, ◌==◌, ==_refl, arith,
}
use frostito.Error.{ok}
use frostito.Curve.{ScalarField, Curve}
use frostito.Bytes.{to_le_bytes}
use frostito.Bytes.Laws.{length-to_le_bytes, from_le_bytes-to_le_bytes}
use frostito.Commitment.{
  DealerCommitment, SubShare, encode_plaintext, decode_plaintext, compress_all, decompress_all,
  commitment_to_bytes, commitment_from_bytes, byte_size,
}

module _ (s : ScalarField) where
  open s use {Scalar, to_bytes}

  pub length-encode_plaintext : (share : SubShare Scalar) → length (encode_plaintext s share) ≡ 40
  unfolding encode_plaintext
  length-encode_plaintext share = omega (
    arith,
    length-append (to_le_bytes 4 share.dealer_index)
        (to_le_bytes 4 share.player_index ++ to_bytes share.value),
    length-append (to_le_bytes 4 share.player_index) (to_bytes share.value),
    length-to_le_bytes 4 share.dealer_index,
    length-to_le_bytes 4 share.player_index,
    s.length-to_bytes share.value,
  )

  -- A sub-share with positive `u32` indices is read back from its 40-byte plaintext.
  pub decode_plaintext-encode_plaintext :
      (share : SubShare Scalar)
      → share.dealer_index < 2 ^ 32
      → share.player_index < 2 ^ 32
      → (share.dealer_index == 0) ≡ false
      → (share.player_index == 0) ≡ false
      → decode_plaintext s (encode_plaintext s share) ≡ ok share
  unfolding encode_plaintext decode_plaintext
  decode_plaintext-encode_plaintext share d p dz pz =
      rw
        (
          take_append d_bytes (p_bytes ++ v_bytes) 4
              (sym (length-to_le_bytes 4 share.dealer_index)),
          drop_append d_bytes (p_bytes ++ v_bytes) 4
              (sym (length-to_le_bytes 4 share.dealer_index)),
          take_append p_bytes v_bytes 4 (sym (length-to_le_bytes 4 share.player_index)),
          from_le_bytes-to_le_bytes 4 share.dealer_index d,
          from_le_bytes-to_le_bytes 4 share.player_index p,
          dz,
          pz,
          tail,
          s.from_canonical_bytes-to_bytes share.value,
        )
        refl
    where
      d_bytes : List ℕ
      d_bytes = to_le_bytes 4 share.dealer_index

      p_bytes : List ℕ
      p_bytes = to_le_bytes 4 share.player_index

      v_bytes : List ℕ
      v_bytes = to_bytes share.value

      tail : drop 8 (d_bytes ++ (p_bytes ++ v_bytes)) ≡ v_bytes
      tail =
          ap (drop 8) (sym (append_assoc d_bytes p_bytes v_bytes))
          ∙ drop_append (d_bytes ++ p_bytes) v_bytes 8 (
              omega (
                arith,
                length-append d_bytes p_bytes,
                length-to_le_bytes 4 share.dealer_index,
                length-to_le_bytes 4 share.player_index,
              ))

module _ (c : Curve) where
  open c use {Point, compressed_size, compress, decompress}

  pub length-compress_all :
      (ps : List Point) → length (compress_all c ps) ≡ length ps * compressed_size
  unfolding compress_all
  length-compress_all [] = omega arith
  length-compress_all (p ∷ ps) =
      length-append (compress p) (compress_all c ps)
      ∙ ap₂ (λ a b. a + b) (c.length-compress p) (length-compress_all ps)
      ∙ omega arith

  decompress_all-compress_all :
      (ps : List Point) → decompress_all c (length ps) (compress_all c ps) ≡ ok ps
  unfolding decompress_all compress_all
  decompress_all-compress_all [] = refl
  decompress_all-compress_all (p ∷ ps) =
      rw
        (
          take_append (compress p) (compress_all c ps) compressed_size (sym (c.length-compress p)),
          drop_append (compress p) (compress_all c ps) compressed_size (sym (c.length-compress p)),
          c.decompress-compress p,
          decompress_all-compress_all ps,
        )
        refl

  pub length-commitment_to_bytes :
      (commitment : DealerCommitment Point)
      → length (commitment_to_bytes c commitment) ≡ byte_size c commitment
  unfolding commitment_to_bytes byte_size
  length-commitment_to_bytes commitment =
      length-append (to_le_bytes 4 commitment.dealer_index) (compress_all c commitment.coefficients)
      ∙ ap₂ (λ a b. a + b) (length-to_le_bytes 4 commitment.dealer_index)
          (length-compress_all commitment.coefficients)

  -- A commitment with a positive `u32` index is read back from its bytes, given its threshold.
  pub commitment_from_bytes-to_bytes :
      (commitment : DealerCommitment Point)
      → commitment.dealer_index < 2 ^ 32
      → (commitment.dealer_index == 0) ≡ false
      → commitment_from_bytes c (commitment_to_bytes c commitment) (length commitment.coefficients)
        ≡ ok commitment
  unfolding commitment_from_bytes byte_size commitment_to_bytes
  commitment_from_bytes-to_bytes commitment h z =
      rw
        (
          length-commitment_to_bytes commitment,
          ==_refl (4 + length commitment.coefficients * compressed_size),
          take_append (to_le_bytes 4 commitment.dealer_index)
              (compress_all c commitment.coefficients) 4
              (sym (length-to_le_bytes 4 commitment.dealer_index)),
          drop_append (to_le_bytes 4 commitment.dealer_index)
              (compress_all c commitment.coefficients) 4
              (sym (length-to_le_bytes 4 commitment.dealer_index)),
          from_le_bytes-to_le_bytes 4 commitment.dealer_index h,
          z,
          decompress_all-compress_all commitment.coefficients,
        )
        refl
