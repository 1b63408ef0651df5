-- ===== src/Complaint.antt =====
-- src/dkg.rs: complaints against dealers, their evidence, signature and adjudication. Byte strings of
-- fixed size are lists; SHA-512 is the argument `sha512`, the sampled nonce the argument `k`.
pub mod Verdicts
pub mod Adjudication
use frostito.Prelude.{
  ℕ, Bool, true, false, not, ◌||◌, List, [], ◌∷◌, ◌++◌, length, Option, none, some, ◌==◌,
  if◌then◌else◌, decide,
}
use frostito.Error.{
  Result, ok, err, panic, ◌>>=◌, ◌>>◌, refuse_if, ok_or, invalid_index, invalid_complaint,
}
use frostito.Curve.{Curve}
use frostito.Bytes.{to_le_bytes, bytes_of, same_bytes}
use frostito.Commitment.{commitment_to_bytes, verify_subshare}
use frostito.ProofOfKnowledge.{Round1Package, verify_package}
use frostito.Tally.{ComplaintVerdict, upheld, unfounded}
use frostito.Echo.{AgreedRound1, agreed_commitment, commitment_digest}

abbrev pub complaint_sig_domain : List ℕ
complaint_sig_domain = bytes_of "frostito/dkg-complaint/v1"

pub record BadSubShareEvidence : Type 0 where
  pub dealer_index : ℕ
  pub recipient_index : ℕ
  pub session_id : List ℕ
  pub round : ℕ
  pub subshare : List ℕ
  pub agreed_digest : List ℕ
  pub sealed_digest : List ℕ

-- `BadSubShareEvidence::encode`
unfoldable pub encode_evidence : BadSubShareEvidence → List ℕ
encode_evidence evidence =
    to_le_bytes 4 evidence.dealer_index
    ++ (to_le_bytes 4 evidence.recipient_index
        ++ (evidence.session_id
            ++ (evidence.round
                ∷ (evidence.subshare ++ (evidence.agreed_digest ++ evidence.sealed_digest)))))

pub data ComplaintEvidence (S P : Type 0) : Type 0 where
  forged_proof_of_knowledge : (sent : Round1Package S P) → ComplaintEvidence S P
  bad_sub_share : (evidence : BadSubShareEvidence) → ComplaintEvidence S P

pub record Complaint (S P : Type 0) : Type 0 where
  pub epoch : ℕ
  pub session_id : List ℕ
  pub round : ℕ
  pub accuser_index : ℕ
  pub accused_index : ℕ
  pub evidence : ComplaintEvidence S P
  pub r : P
  pub s : S

-- `ComplaintEvidence::accused_index`
unfoldable pub evidence_accused : {S P : Type 0} → ComplaintEvidence S P → ℕ
evidence_accused (forged_proof_of_knowledge sent) = sent.commitment.dealer_index
evidence_accused (bad_sub_share evidence) = evidence.dealer_index

-- The local `field`: a length, then the bytes.
unfoldable pub field : List ℕ → List ℕ
field bytes = to_le_bytes 8 (length bytes) ++ bytes

module _ (c : Curve) where
  infixl 65 ◌⊕◌ ◌⊞◌
  infixl 70 ◌⊗◌
  infixr 70 ◌•◌
  open c use {
    Scalar, Point, generator, ◌⊕◌, ◌⊗◌, ◌⊞◌, ◌•◌, point_eq, compress, to_bytes, from_bytes_wide,
    from_canonical_bytes,
  }

  -- `ComplaintEvidence::encode_into`, what it appends.
  unfoldable pub evidence_bytes : ComplaintEvidence Scalar Point → List ℕ
  unfolding field encode_evidence
  evidence_bytes (forged_proof_of_knowledge sent) =
      1
      ∷ (field (commitment_to_bytes c sent.commitment)
          ++ (field (compress sent.proof_of_knowledge.r)
              ++ field (to_bytes sent.proof_of_knowledge.z)))
  evidence_bytes (bad_sub_share evidence) = 2 ∷ field (encode_evidence evidence)

  -- `Complaint::body`
  unfoldable pub body : ℕ → List ℕ → ℕ → ℕ → ℕ → ComplaintEvidence Scalar Point → List ℕ
  unfolding evidence_bytes
  body epoch session_id round accuser_index accused_index evidence =
      to_le_bytes 8 (length complaint_sig_domain)
      ++ (complaint_sig_domain
          ++ (to_le_bytes 8 epoch
              ++ (session_id
                  ++ (round
                      ∷ (to_le_bytes 4 accuser_index
                          ++ (to_le_bytes 4 accused_index ++ evidence_bytes evidence))))))

  module _ (sha512 : List ℕ → List ℕ) where
    -- `Complaint::challenge`
    unfoldable pub complaint_challenge : Point → Point → List ℕ → Scalar
    complaint_challenge r accuser_pubkey signed = from_bytes_wide (
        sha512 (
          complaint_sig_domain
          ++ (compress r
              ++ (compress accuser_pubkey ++ (to_le_bytes 8 (length signed) ++ signed)))))

    -- `Complaint::sign`
    unfoldable pub sign_complaint :
        ℕ
        → List ℕ
        → ℕ
        → ℕ
        → ComplaintEvidence Scalar Point
        → Scalar
        → Scalar
        → Result (Complaint Scalar Point)
    unfolding evidence_accused body complaint_challenge
    sign_complaint epoch session_id round accuser_index evidence secret k =
        if accuser_index == 0
        then err invalid_index
        else (let accused_index = evidence_accused evidence in
            let signed = body epoch session_id round accuser_index accused_index evidence in
            let accuser_pubkey = secret • generator in
            let r = k • generator in
            let e = complaint_challenge r accuser_pubkey signed in
            ok (record {
              epoch = epoch;
              session_id = session_id;
              round = round;
              accuser_index = accuser_index;
              accused_index = accused_index;
              evidence = evidence;
              r = r;
              s = k ⊕ e ⊗ secret;
            }))

    -- `match package.verify(..)`; a panic inside it is a panic of the caller.
    abbrev pub proof_verdict : Result (Unit {0}) → Result ComplaintVerdict
    proof_verdict (ok done) = ok unfounded
    proof_verdict (err e) = ok upheld
    proof_verdict panic = panic

    -- The evidence repeats the complaint's binding, or is refused.
    abbrev pub is_misbound : Complaint Scalar Point → BadSubShareEvidence → Bool
    is_misbound complaint evidence =
        not (evidence.dealer_index == complaint.accused_index)
        || (not (evidence.recipient_index == complaint.accuser_index)
            || (not (same_bytes evidence.session_id complaint.session_id)
                || not (evidence.round == complaint.round)))

    -- The second arm of `adjudicate`.
    unfoldable pub adjudicate_share :
        Complaint Scalar Point
        → BadSubShareEvidence
        → Option (AgreedRound1 Point)
        → Result ComplaintVerdict
    adjudicate_share complaint evidence agreed = do
      refuse_if (is_misbound complaint evidence) invalid_complaint
      own ← ok_or agreed invalid_complaint
      refuse_if (not (own.epoch == complaint.epoch)) invalid_complaint
      commitment ← agreed_commitment own evidence.dealer_index
      refuse_if (not (same_bytes (commitment_digest c sha512 commitment) evidence.agreed_digest))
          invalid_complaint
      scalar ← ok_or (from_canonical_bytes evidence.subshare) invalid_complaint
      ok (
          if verify_subshare c commitment evidence.recipient_index scalar
          then unfounded
          else upheld)

    -- `Complaint::adjudicate`
    unfoldable pub adjudicate :
        Complaint Scalar Point → Option (AgreedRound1 Point) → Result ComplaintVerdict
    unfolding verify_package adjudicate_share
    adjudicate complaint agreed = elim complaint.evidence [
      | forged_proof_of_knowledge sent ↦
          if not (sent.commitment.dealer_index == complaint.accused_index)
          then ok unfounded
          else proof_verdict (verify_package c sha512 sent complaint.epoch)
      | bad_sub_share evidence ↦ adjudicate_share complaint evidence agreed
    ]

    -- The signature equation fails.
    abbrev pub is_unsigned : Complaint Scalar Point → Point → Bool
    is_unsigned complaint accuser_pubkey =
        let signed =
          body complaint.epoch complaint.session_id complaint.round complaint.accuser_index
            complaint.accused_index complaint.evidence in
        let e = complaint_challenge complaint.r accuser_pubkey signed in
        not (decide (point_eq (complaint.s • generator) (complaint.r ⊞ e • accuser_pubkey)))

    -- `Complaint::verify`
    unfoldable pub verify_complaint :
        Complaint Scalar Point
        → ℕ
        → List ℕ
        → Point
        → Option (AgreedRound1 Point)
        → Result ComplaintVerdict
    unfolding evidence_accused body complaint_challenge adjudicate
    verify_complaint complaint epoch session_id accuser_pubkey agreed = do
      refuse_if (not (complaint.epoch == epoch) || not (same_bytes complaint.session_id session_id))
          invalid_complaint
      refuse_if
          (complaint.accuser_index == 0
            || (complaint.accused_index == 0
                || not (complaint.accused_index == evidence_accused complaint.evidence)))
          invalid_complaint
      refuse_if (is_unsigned complaint accuser_pubkey) invalid_complaint
      adjudicate complaint agreed
