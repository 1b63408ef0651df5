-- ===== src/Sealed/Roundtrip.antt =====
-- src/sealed.rs: a package opened by the recipient that it was sealed to.
use frostito.Prelude.{
  ℕ, ◌^◌, ◌<◌, ◌≡◌, refl, sym, ap, subst, ◌∙◌, true, false, not, List, ◌++◌, length, take, drop,
  length-append, take_append, drop_append, some, ◌==◌, ==_refl, arith,
}
use frostito.Error.{ok, refuse_if-eq-ok, ok_or-eq-ok, >>=-eq-ok, ok_injective}
use frostito.Curve.{Curve}
use frostito.Bytes.Laws.{same_bytes_refl}
use frostito.Commitment.{DealerCommitment, SubShare, encode_plaintext, verify_subshare}
use frostito.Commitment.Encoding.{length-encode_plaintext, decode_plaintext-encode_plaintext}
use frostito.Indices.Counting.{length-take}
use frostito.Echo.{commitment_digest}
use frostito.Sealed.{
  Snow, noise_seal, noise_open, SealedRoster, public_key, prologue, SealedSubShare,
}
use frostito.Sealed.Packages.{seal_subshare, decrypt, check_opened, open_subshare}

module _ (c : Curve) (sha512 sha256 : List ℕ → List ℕ) (snow : Snow) where
  open c use {Scalar, Point, scalars}

  length-commitment_digest :
      ((m : List ℕ) → length (sha512 m) ≡ 64)
      → (commitment : DealerCommitment Point) → length (commitment_digest c sha512 commitment) ≡ 32
  unfolding commitment_digest
  length-commitment_digest size commitment = length-take 32 _ (omega (arith, size _))

  -- Opening, where the handshake gives back the plaintext.
  open_written :
      (dealer_secret recipient_secret ciphertext : List ℕ) (roster : SealedRoster) (round : ℕ)
      (share : SubShare Scalar) (commitment : DealerCommitment Point)
      → ((m : List ℕ) → length (sha512 m) ≡ 64)
      → public_key roster share.dealer_index ≡ ok (snow.x25519_public dealer_secret)
      → share.dealer_index < 2 ^ 32
      → share.player_index < 2 ^ 32
      → (share.dealer_index == 0) ≡ false
      → (share.player_index == 0) ≡ false
      → (share.dealer_index == commitment.dealer_index) ≡ true
      → verify_subshare c commitment share.player_index share.value ≡ true
      → noise_open snow recipient_secret
          (snow.x25519_public dealer_secret)
          (prologue sha256 roster round)
          ciphertext
        ≡ some (encode_plaintext scalars share ++ commitment_digest c sha512 commitment)
      → open_subshare c sha512 sha256 snow recipient_secret share.player_index roster round
          (record {
            dealer_index = share.dealer_index;
            recipient_index = share.player_index;
            ciphertext = ciphertext;
          })
          commitment
        ≡ ok share
  unfolding open_subshare decrypt check_opened
  open_written dealer_secret recipient_secret ciphertext roster round share commitment size
        dealer_key d p dz pz same valid read =
      let plaintext = encode_plaintext scalars share ++ commitment_digest c sha512 commitment in
      let forty = length-encode_plaintext scalars share in
      let long : length plaintext ≡ 72 = omega (
        arith,
        length-append (encode_plaintext scalars share) (commitment_digest c sha512 commitment),
        forty,
        length-commitment_digest size commitment,
      ) in
      let front : take 40 plaintext ≡ encode_plaintext scalars share =
        take_append (encode_plaintext scalars share) _ 40 (sym forty) in
      let back : drop 40 plaintext ≡ commitment_digest c sha512 commitment =
        drop_append (encode_plaintext scalars share) _ 40 (sym forty) in
      rw
        (
          open_subshare,
          decrypt,
          dealer_key,
          ==_refl share.player_index,
          read,
          long,
          front,
          back,
          decode_plaintext-encode_plaintext scalars share d p dz pz,
          ==_refl share.dealer_index,
          ==_refl share.player_index,
          check_opened,
          same,
          same_bytes_refl (commitment_digest c sha512 commitment),
          valid,
        )
        refl

  -- If the handshake opens what it sealed for a matching pair of keys and prologue, and the hash has 64
  -- bytes, then a package that a dealer seals with a sub-share of positive `u32` indices, which passes
  -- the check against its commitment, is opened by the recipient under the same roster and round to
  -- that sub-share, where the roster lists both public keys.
  pub open_subshare-seal_subshare :
      (entropy dealer_secret recipient_secret : List ℕ) (roster : SealedRoster) (round : ℕ)
      (share : SubShare Scalar) (commitment : DealerCommitment Point) {sealed : SealedSubShare}
      → ((a b p m x : List ℕ)
          → noise_seal snow entropy a (snow.x25519_public b) p m ≡ some x
          → noise_open snow b (snow.x25519_public a) p x ≡ some m)
      → ((m : List ℕ) → length (sha512 m) ≡ 64)
      → public_key roster share.dealer_index ≡ ok (snow.x25519_public dealer_secret)
      → public_key roster share.player_index ≡ ok (snow.x25519_public recipient_secret)
      → share.dealer_index < 2 ^ 32
      → share.player_index < 2 ^ 32
      → (share.dealer_index == 0) ≡ false
      → (share.player_index == 0) ≡ false
      → verify_subshare c commitment share.player_index share.value ≡ true
      → seal_subshare c sha512 sha256 snow entropy dealer_secret roster round share commitment
        ≡ ok sealed
      → open_subshare c sha512 sha256 snow recipient_secret share.player_index roster round sealed
          commitment
        ≡ ok share
  unfolding seal_subshare
  open_subshare-seal_subshare entropy dealer_secret recipient_secret roster round share commitment
        {sealed} opens size dealer_key player_key d p dz pz valid h =
      let plaintext = encode_plaintext scalars share ++ commitment_digest c sha512 commitment in
      let (dealers, h1) =
        refuse_if-eq-ok (not (share.dealer_index == commitment.dealer_index)) _ h in
      let (recipient, found, h2) = >>=-eq-ok (public_key roster share.player_index) _ h1 in
      let (own, listed, h3) = >>=-eq-ok (public_key roster share.dealer_index) _ h2 in
      let (ciphertext, written, h4) =
        ok_or-eq-ok
          (noise_seal snow entropy dealer_secret recipient (prologue sha256 roster round) plaintext)
          _ h3 in
      let key : recipient ≡ snow.x25519_public recipient_secret =
        ok_injective (sym found ∙ player_key) in
      let read : noise_open snow recipient_secret (snow.x25519_public dealer_secret)
            (prologue sha256 roster round) ciphertext
          ≡ some plaintext =
        opens dealer_secret recipient_secret _ plaintext ciphertext (
          ap (λ r. noise_seal snow entropy dealer_secret r (prologue sha256 roster round) plaintext)
            (sym key)
          ∙ written) in
      subst
        (λ z.
          open_subshare c sha512 sha256 snow recipient_secret share.player_index roster round z
            commitment
          ≡ ok share)
        (ok_injective h4)
        (open_written dealer_secret recipient_secret ciphertext roster round share commitment size
          dealer_key d p dz pz (ground arith) valid read)
