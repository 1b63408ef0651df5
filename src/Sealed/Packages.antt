-- ===== src/Sealed/Packages.antt =====
-- src/sealed.rs: sealing and opening a package.
use frostito.Prelude.{
  ℕ, suc, not, ◌||◌, List, [], ◌∷◌, ◌++◌, length, take, drop, ◌==◌, if◌then◌else◌,
}
use frostito.Error.{
  Result, ok, ◌>>=◌, ◌>>◌, refuse_if, ok_or, unwrap, invalid_index, sealed_open_failed,
  invalid_sub_share,
}
use frostito.Curve.{Curve}
use frostito.Bytes.{same_bytes}
use frostito.Commitment.{
  DealerCommitment, SubShare, encode_plaintext, decode_plaintext, verify_subshare,
}
use frostito.Reshare.{Dealer}
use frostito.Commitment.{generate_subshare}
use frostito.Echo.{AgreedRound1, agreed_commitment, commitment_digest}
use frostito.Sealed.{
  Snow, noise_seal, noise_open, SealedRoster, public_key, prologue, sealed_ciphertext_digest,
  SealedSubShare, Opening, opened, local_failure, bad_sub_share_failure, or_local, into_result,
}

module _ (c : Curve) (sha512 sha256 : List ℕ → List ℕ) (snow : Snow) where
  open c use {Scalar, Point, scalars, to_bytes}

  unfoldable pub seal_subshare :
      List ℕ
      → List ℕ
      → SealedRoster
      → ℕ
      → SubShare Scalar
      → DealerCommitment Point
      → Result SealedSubShare
  unfolding noise_seal public_key prologue
  seal_subshare entropy dealer_secret roster round subshare commitment = do
    refuse_if (not (subshare.dealer_index == commitment.dealer_index)) invalid_index
    recipient ← public_key roster subshare.player_index
    own ← public_key roster subshare.dealer_index
    let plaintext = encode_plaintext scalars subshare ++ commitment_digest c sha512 commitment
    ciphertext ←
        ok_or
          (noise_seal snow entropy dealer_secret recipient (prologue sha256 roster round) plaintext)
          (sealed_open_failed subshare.dealer_index)
    ok (record {
      dealer_index = subshare.dealer_index;
      recipient_index = subshare.player_index;
      ciphertext = ciphertext;
    })

  -- The steps that both ways of opening share, up to the plaintext's sub-share.
  unfoldable pub decrypt :
      List ℕ → ℕ → SealedRoster → ℕ → SealedSubShare → Result (SubShare Scalar × List ℕ)
  unfolding noise_open public_key prologue
  decrypt recipient_secret recipient_index roster round sealed = do
    dealer ← public_key roster sealed.dealer_index
    refuse_if (not (sealed.recipient_index == recipient_index))
        (sealed_open_failed sealed.dealer_index)
    plaintext ←
        ok_or
          (noise_open snow recipient_secret dealer (prologue sha256 roster round) sealed.ciphertext)
          (sealed_open_failed sealed.dealer_index)
    refuse_if (not (length plaintext == 72)) (sealed_open_failed sealed.dealer_index)
    subshare ← decode_plaintext scalars (take 40 plaintext)
    refuse_if
        (not (subshare.dealer_index == sealed.dealer_index)
          || not (subshare.player_index == sealed.recipient_index))
        (sealed_open_failed sealed.dealer_index)
    ok (subshare, drop 40 plaintext)

  -- The end of `open_subshare`.
  unfoldable pub check_opened :
      ℕ
      → SealedSubShare
      → DealerCommitment Point
      → SubShare Scalar × List ℕ
      → Result (SubShare Scalar)
  check_opened recipient_index sealed commitment inside = do
    refuse_if
        (not (inside.0.dealer_index == commitment.dealer_index)
          || not (same_bytes inside.1 (commitment_digest c sha512 commitment)))
        (invalid_sub_share sealed.dealer_index)
    refuse_if (not (verify_subshare c commitment recipient_index inside.0.value))
        (invalid_sub_share sealed.dealer_index)
    ok inside.0

  unfoldable pub open_subshare :
      List ℕ
      → ℕ
      → SealedRoster
      → ℕ
      → SealedSubShare
      → DealerCommitment Point
      → Result (SubShare Scalar)
  unfolding decrypt check_opened
  open_subshare recipient_secret recipient_index roster round sealed commitment =
      decrypt recipient_secret recipient_index roster round sealed >>= λ inside.
      check_opened recipient_index sealed commitment inside

  -- The end of `open_subshare_agreed_with_evidence`.
  unfoldable pub check_agreed :
      ℕ
      → SealedRoster
      → ℕ
      → SealedSubShare
      → DealerCommitment Point
      → SubShare Scalar × List ℕ
      → Opening Scalar
  unfolding sealed_ciphertext_digest
  check_agreed recipient_index roster round sealed commitment inside =
      if not (verify_subshare c commitment recipient_index inside.0.value)
      then bad_sub_share_failure (record {
        dealer_index = sealed.dealer_index;
        recipient_index = recipient_index;
        session_id = roster.session_id;
        round = round;
        subshare = to_bytes inside.0.value;
        agreed_digest = commitment_digest c sha512 commitment;
        sealed_digest = sealed_ciphertext_digest sha256 sealed.ciphertext;
      })
      else (if not (same_bytes inside.1 (commitment_digest c sha512 commitment))
          then local_failure (invalid_sub_share sealed.dealer_index)
          else opened inside.0)

  unfoldable pub open_subshare_agreed_with_evidence :
      List ℕ → ℕ → SealedRoster → ℕ → SealedSubShare → AgreedRound1 Point → Opening Scalar
  unfolding decrypt check_agreed
  open_subshare_agreed_with_evidence recipient_secret recipient_index roster round sealed agreed =
      or_local (agreed_commitment agreed sealed.dealer_index) λ commitment.
        or_local (decrypt recipient_secret recipient_index roster round sealed)
          (check_agreed recipient_index roster round sealed commitment)

  unfoldable pub open_subshare_agreed :
      List ℕ → ℕ → SealedRoster → ℕ → SealedSubShare → AgreedRound1 Point → Result (SubShare Scalar)
  unfolding open_subshare_agreed_with_evidence into_result
  open_subshare_agreed recipient_secret recipient_index roster round sealed agreed = into_result (
      open_subshare_agreed_with_evidence recipient_secret recipient_index roster round sealed
        agreed)

  -- The loop of `seal_round2`; `entropy` counts the packages.
  unfoldable pub seal_each :
      (ℕ → List ℕ)
      → List ℕ
      → SealedRoster
      → ℕ
      → Dealer Scalar Point
      → ℕ
      → List (ℕ × List ℕ)
      → Result (List SealedSubShare)
  unfolding seal_subshare
  seal_each entropy dealer_secret roster round dealer i [] = ok []
  seal_each entropy dealer_secret roster round dealer i (p ∷ rest) = do
    subshare ← unwrap (generate_subshare scalars dealer.index dealer.polynomial p.0)
    sealed ← seal_subshare (entropy i) dealer_secret roster round subshare dealer.commitment
    others ← seal_each entropy dealer_secret roster round dealer (suc i) rest
    ok (sealed ∷ others)

  unfoldable pub seal_round2 :
      (ℕ → List ℕ) → Dealer Scalar Point → List ℕ → SealedRoster → ℕ → Result (List SealedSubShare)
  unfolding seal_each
  seal_round2 entropy dealer dealer_secret roster round =
      seal_each entropy dealer_secret roster round dealer 0 roster.participants
