-- ===== src/ProofOfKnowledge.antt =====
-- src/dkg.rs, `ProofOfKnowledge` and `Round1Package`, and the proof of possession of src/reshare.rs:
-- a Schnorr proof of the constant term. SHA-512 is the argument `sha512`; the sampled nonce is the
-- argument `k`.
pub mod Extraction
use frostito.Prelude.{ℕ, Bool, true, false, List, [], ◌∷◌, ◌++◌, if◌then◌else◌, decide}
use frostito.Error.{
  Result, ok, err, panic, ◌>>=◌, ◌>>◌, refuse_if, expect, invalid_proof_of_knowledge,
}
use frostito.Curve.{Curve}
use frostito.Bytes.{to_le_bytes, bytes_of}
use frostito.Commitment.{DealerCommitment, share_commitment}
use frostito.Reshare.{Dealer}

abbrev pub dkg_pok_domain : List ℕ
dkg_pok_domain = bytes_of "frostito/dkg-pok/v1"

abbrev pub reshare_pok_domain : List ℕ
reshare_pok_domain = bytes_of "frostito/reshare-pok/v1"

pub record ProofOfKnowledge (S P : Type 0) : Type 0 where
  pub r : P
  pub z : S

pub record Round1Package (S P : Type 0) : Type 0 where
  pub commitment : DealerCommitment P
  pub proof_of_knowledge : ProofOfKnowledge S P

module _ (c : Curve) (sha512 : List ℕ → List ℕ) where
  infixl 65 ◌⊕◌ ◌⊞◌
  infixl 70 ◌⊗◌
  infixr 70 ◌•◌
  open c use {Scalar, Point, generator, ◌⊕◌, ◌⊗◌, ◌⊞◌, ◌•◌, point_eq, compress, from_bytes_wide}

  -- The bytes that `challenge` feeds to the hash.
  unfoldable pub challenge_input : List ℕ → ℕ → ℕ → Point → Point → List ℕ
  challenge_input domain dealer_index epoch constant_commitment r =
      domain
      ++ (to_le_bytes 4 dealer_index
          ++ (to_le_bytes 8 epoch ++ (compress constant_commitment ++ compress r)))

  unfoldable pub challenge : List ℕ → ℕ → ℕ → Point → Point → Scalar
  unfolding challenge_input
  challenge domain dealer_index epoch constant_commitment r =
      from_bytes_wide (sha512 (challenge_input domain dealer_index epoch constant_commitment r))

  unfoldable pub prove_in : List ℕ → ℕ → ℕ → Scalar → Scalar → ProofOfKnowledge Scalar Point
  prove_in domain dealer_index epoch a_0 k =
      let r = k • generator in
      let e = challenge domain dealer_index epoch (a_0 • generator) r in
      record { r = r; z = k ⊕ e ⊗ a_0 }

  unfoldable pub verify_in : ProofOfKnowledge Scalar Point → List ℕ → ℕ → ℕ → Point → Bool
  verify_in proof domain dealer_index epoch constant_commitment =
      let e = challenge domain dealer_index epoch constant_commitment proof.r in
      decide (point_eq (proof.z • generator) (proof.r ⊞ e • constant_commitment))

  unfoldable pub prove : ℕ → ℕ → Scalar → Scalar → ProofOfKnowledge Scalar Point
  prove = prove_in dkg_pok_domain

  unfoldable pub verify : ProofOfKnowledge Scalar Point → ℕ → ℕ → Point → Bool
  verify proof = verify_in proof dkg_pok_domain

  -- `Round1Package::verify`
  unfoldable pub verify_package : Round1Package Scalar Point → ℕ → Result (Unit {0})
  unfolding verify
  verify_package sent epoch = do
    let idx = sent.commitment.dealer_index
    c0 ← share_commitment sent.commitment
    if verify sent.proof_of_knowledge idx epoch c0
        then ok tt
        else err (invalid_proof_of_knowledge idx)

  -- `&self.polynomial[0]`
  abbrev pub constant_term : List Scalar → Result Scalar
  constant_term [] = panic
  constant_term (a ∷ rest) = ok a

  -- `dkg::Dealer::round1_package`
  unfoldable pub round1_package :
      Dealer Scalar Point → ℕ → Scalar → Result (Round1Package Scalar Point)
  unfolding prove
  round1_package dealer epoch k = do
    a_0 ← constant_term dealer.polynomial
    ok (record {
      commitment = dealer.commitment;
      proof_of_knowledge = prove dealer.index epoch a_0 k;
    })

  -- `reshare::Dealer::prove_possession`
  unfoldable pub prove_possession :
      Dealer Scalar Point → ℕ → Scalar → Result (ProofOfKnowledge Scalar Point)
  prove_possession dealer epoch k = do
    a_0 ← constant_term dealer.polynomial
    ok (prove_in reshare_pok_domain dealer.index epoch a_0 k)

  -- `DealerCommitment::verify_possession`
  unfoldable pub verify_possession :
      DealerCommitment Point → ℕ → ProofOfKnowledge Scalar Point → Bool
  verify_possession commitment epoch proof = elim commitment.coefficients [
    | [] ↦ false
    | c0 ∷ _ ↦ verify_in proof reshare_pok_domain commitment.dealer_index epoch c0
  ]
