-- ===== src/Sealed/Evidence.antt =====
-- src/sealed.rs and src/dkg.rs: the evidence of a failed opening, taken into a complaint.
use frostito.Prelude.{
  ℕ, ◌≡◌, refl, sym, ap, subst, ◌∙◌, false, List, some, ◌==◌, ==_refl, Bool-cases, inl, inr,
}
use frostito.Error.{Result, ok, err, panic, ok_injective}
use frostito.Curve.{Curve}
use frostito.Bytes.{same_bytes}
use frostito.Bytes.Laws.{same_bytes_refl}
use frostito.Commitment.{DealerCommitment, verify_subshare}
use frostito.Tally.{upheld}
use frostito.Echo.{AgreedRound1, agreed_commitment, commitment_digest}
use frostito.Complaint.{
  BadSubShareEvidence, bad_sub_share, Complaint, evidence_accused, adjudicate_share, adjudicate,
  sign_complaint, verify_complaint,
}
use frostito.Complaint.Verdicts.{made, made-Signed, sign-made}
use frostito.Sealed.Delivery.{decrypt-bound}
use frostito.Sealed.{
  Snow, SealedRoster, sealed_ciphertext_digest, SealedSubShare, Opening, bad_sub_share_failure,
  or_local,
}
use frostito.Sealed.Packages.{decrypt, check_agreed, open_subshare_agreed_with_evidence}

module _ (c : Curve) (sha512 sha256 : List ℕ → List ℕ) (snow : Snow) where
  infixr 70 ◌•◌
  open c use {Scalar, Point, scalars, to_bytes, from_canonical_bytes, generator, ◌•◌}

  or_local-inversion :
      {A : Type 0} (r : Result A) {next : A → Opening Scalar} {evidence : BadSubShareEvidence}
      → or_local r next ≡ bad_sub_share_failure evidence
      → (a : A) × (r ≡ ok a) × (next a ≡ bad_sub_share_failure evidence)
  or_local-inversion panic h = cc
  or_local-inversion (err e) h = cc
  or_local-inversion (ok a) h = (a, refl, h)

  -- What the evidence of a failed opening holds.
  bad_sub_share-inversion :
      (secret : List ℕ) (recipient : ℕ) (roster : SealedRoster) (round : ℕ)
      (sealed : SealedSubShare) (agreed : AgreedRound1 Point) {evidence : BadSubShareEvidence}
      → open_subshare_agreed_with_evidence c sha512 sha256 snow secret recipient roster round sealed
          agreed
        ≡ bad_sub_share_failure evidence
      → (commitment : DealerCommitment Point) × (v : Scalar) × (agreed_commitment agreed
            sealed.dealer_index
          ≡ ok commitment)
        × (verify_subshare c commitment recipient v ≡ false)
        × ((sealed.dealer_index == 0) ≡ false)
        × (evidence ≡ record {
          dealer_index = sealed.dealer_index;
          recipient_index = recipient;
          session_id = roster.session_id;
          round = round;
          subshare = to_bytes v;
          agreed_digest = commitment_digest c sha512 commitment;
          sealed_digest = sealed_ciphertext_digest sha256 sealed.ciphertext;
        })
  unfolding open_subshare_agreed_with_evidence check_agreed
  bad_sub_share-inversion secret recipient roster round sealed agreed {evidence} h =
      let (commitment, found, h1) =
        or_local-inversion (agreed_commitment agreed sealed.dealer_index) h in
      let (inside, plain, h2) =
        or_local-inversion (decrypt c sha512 sha256 snow secret recipient roster round sealed) h1 in
      let bound = decrypt-bound c sha512 sha256 snow secret recipient roster round sealed plain in
      elim (Bool-cases (verify_subshare c commitment recipient inside.0.value)) [
        | inr bad ↦ (
          commitment,
          inside.0.value,
          found,
          bad,
          ap (λ d. d == 0) (sym bound.0) ∙ bound.3,
          sym (ap (evidence_of evidence) (rw (check_agreed, bad) at h2)),
        )
        | inl good ↦
            elim (Bool-cases (same_bytes inside.1 (commitment_digest c sha512 commitment))) [
              | inl same ↦ cc (rw (check_agreed, good, same) at h2)
              | inr differ ↦ cc (rw (check_agreed, good, differ) at h2)
            ]
      ]
    where
      evidence_of : BadSubShareEvidence → Opening Scalar → BadSubShareEvidence
      evidence_of d (bad_sub_share_failure e) = e
      evidence_of d _ = d

  -- The evidence that a recipient gets from a package that fails the check against its agreed set,
  -- signed into a complaint of that epoch, session and round under its index, is upheld by every
  -- verifier with the same agreed set and the recipient's public key.
  pub evidence_upheld :
      (secret : List ℕ) (recipient : ℕ) (roster : SealedRoster) (round : ℕ)
      (sealed : SealedSubShare) (agreed : AgreedRound1 Point) (identity_secret k : Scalar)
      {evidence : BadSubShareEvidence} {complaint : Complaint Scalar Point}
      → open_subshare_agreed_with_evidence c sha512 sha256 snow secret recipient roster round sealed
          agreed
        ≡ bad_sub_share_failure evidence
      → sign_complaint c sha512 agreed.epoch roster.session_id round recipient
          (bad_sub_share evidence)
          identity_secret
          k
        ≡ ok complaint
      → verify_complaint c sha512 complaint agreed.epoch roster.session_id
          (identity_secret • generator)
          (some agreed)
        ≡ ok upheld
  unfolding adjudicate adjudicate_share evidence_accused sign_complaint
  evidence_upheld secret recipient roster round sealed agreed x k {evidence} {complaint} h s =
      let (commitment, v, found, bad, positive, shape) =
        bad_sub_share-inversion secret recipient roster round sealed agreed h in
      elim (Bool-cases (recipient == 0)) [
        | inl z ↦ cc (rw (sign_complaint, z) at s)
        | inr p ↦
            let accused : (evidence_accused {S = Scalar} {P = Point} (bad_sub_share evidence) == 0)
                ≡ false =
              ap (λ e. e.dealer_index == 0) shape ∙ positive in
            let signed =
              made-Signed c sha512 agreed.epoch roster.session_id round recipient
                (bad_sub_share evidence) x k (some agreed) p accused in
            subst
              (λ z.
                verify_complaint c sha512 z agreed.epoch roster.session_id (x • generator)
                  (some agreed)
                ≡ ok upheld)
              (ok_injective (
                sym (
                  sign-made c sha512 agreed.epoch roster.session_id round recipient
                    (bad_sub_share evidence) x k p)
                ∙ s))
              (signed.0
                ∙ subst
                    (λ e.
                      adjudicate c sha512
                        (made c sha512 agreed.epoch roster.session_id round recipient
                          (bad_sub_share e) x k)
                        (some agreed)
                      ≡ ok upheld)
                    (sym shape)
                    (rw
                      (
                        adjudicate,
                        adjudicate_share,
                        ==_refl sealed.dealer_index,
                        ==_refl recipient,
                        same_bytes_refl roster.session_id,
                        ==_refl round,
                        ==_refl agreed.epoch,
                        found,
                        same_bytes_refl (commitment_digest c sha512 commitment),
                        scalars.from_canonical_bytes-to_bytes v,
                        bad,
                      )
                      refl))
      ]
