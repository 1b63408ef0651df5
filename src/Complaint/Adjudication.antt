-- ===== src/Complaint/Adjudication.antt =====
-- src/dkg.rs: what a verdict on a bad sub-share says about the sub-share.
use frostito.Prelude.{
  ℕ, ◌≡◌, refl, sym, ap, ap₂, ◌∙◌, false, not, ◌||◌, List, some, ◌==◌, if◌then◌else◌, decide, arith,
}
use frostito.Error.{ok, ok_injective, refuse_if-eq-ok, ok_or-eq-ok, >>=-eq-ok}
use frostito.Curve.{Curve}
use frostito.Bytes.{same_bytes}
use frostito.Bytes.Laws.{eq_of_same_bytes}
use frostito.Polynomial.{horner}
use frostito.Commitment.{DealerCommitment, verify_subshare}
use frostito.Commitment.Feldman.{commit, verify_subshare-horner}
use frostito.Tally.{ComplaintVerdict, upheld, unfounded}
use frostito.Echo.{AgreedRound1, agreed_commitment, commitment_digest}
use frostito.Complaint.{
  BadSubShareEvidence, bad_sub_share, Complaint, evidence_accused, is_misbound, adjudicate_share,
  adjudicate, is_unsigned, verify_complaint,
}

module _ (c : Curve) (sha512 : List ℕ → List ℕ) where
  open c use {Scalar, Point, scalars, from_u32, generator, scalar_eq, from_canonical_bytes}

  -- `adjudicate` on evidence of a bad sub-share, with the complaint's fields as arguments.
  adjudicate-bad_sub_share :
      (complaint : Complaint Scalar Point) (evidence : BadSubShareEvidence)
      (own : AgreedRound1 Point) {verdict : ComplaintVerdict}
      → complaint.evidence ≡ bad_sub_share evidence
      → adjudicate c sha512 complaint (some own) ≡ ok verdict
      → (commitment : DealerCommitment Point) × (v : Scalar) × (evidence.dealer_index
          ≡ complaint.accused_index)
        × (evidence.recipient_index ≡ complaint.accuser_index)
        × (evidence.session_id ≡ complaint.session_id)
        × (own.epoch ≡ complaint.epoch)
        × (agreed_commitment own evidence.dealer_index ≡ ok commitment)
        × (commitment_digest c sha512 commitment ≡ evidence.agreed_digest)
        × (from_canonical_bytes evidence.subshare ≡ some v)
        × (verdict ≡ (
            if verify_subshare c commitment evidence.recipient_index v then unfounded else upheld))
  unfolding adjudicate adjudicate_share
  adjudicate-bad_sub_share complaint evidence own {verdict} e h =
      let k : adjudicate_share c sha512 complaint evidence (some own) ≡ ok verdict =
        rw (adjudicate, e) at h in
      let (bound, h1) = refuse_if-eq-ok (is_misbound c sha512 complaint evidence) _ k in
      let (epochs, h2) = refuse_if-eq-ok (not (own.epoch == complaint.epoch)) _ h1 in
      let (commitment, found, h3) = >>=-eq-ok (agreed_commitment own evidence.dealer_index) _ h2 in
      let (digests, h4) =
        refuse_if-eq-ok
          (not (same_bytes (commitment_digest c sha512 commitment) evidence.agreed_digest)) _ h3 in
      let (v, canonical, h5) = ok_or-eq-ok (from_canonical_bytes evidence.subshare) _ h4 in
      (
        commitment,
        v,
        ground arith,
        ground arith,
        eq_of_same_bytes _ _ (ground arith),
        ground arith,
        found,
        eq_of_same_bytes _ _ (ground arith),
        canonical,
        sym (ok_injective h5),
      )

  -- If verification returns a verdict on a complaint of a bad sub-share, and the verifier's agreed
  -- commitment of the accused is the commitment to a polynomial, then the complaint is of this epoch
  -- and session, its evidence names the accuser as the recipient, the revealed bytes are a canonical
  -- scalar, and the verdict is `Unfounded` exactly when that scalar is the polynomial's value at the
  -- accuser's index, and `Upheld` otherwise.
  pub verify_complaint-bad_sub_share :
      (complaint : Complaint Scalar Point) (evidence : BadSubShareEvidence) (epoch : ℕ)
      (session_id : List ℕ) (key : Point) (own : AgreedRound1 Point) (i : ℕ) (ps : List Scalar)
      {verdict : ComplaintVerdict}
      → complaint.evidence ≡ bad_sub_share evidence
      → agreed_commitment own complaint.accused_index
        ≡ ok (record { dealer_index = i; coefficients = commit c ps })
      → verify_complaint c sha512 complaint epoch session_id key (some own) ≡ ok verdict
      → (v : Scalar) × (complaint.epoch ≡ epoch)
        × (complaint.session_id ≡ session_id)
        × (evidence.recipient_index ≡ complaint.accuser_index)
        × (from_canonical_bytes evidence.subshare ≡ some v)
        × (verdict ≡ (
            if decide (scalar_eq v (horner scalars (from_u32 complaint.accuser_index) ps))
            then unfounded
            else upheld))
  unfolding verify_complaint
  verify_complaint-bad_sub_share complaint evidence epoch session_id key own i ps {verdict} e a h =
      let (bound, h1) =
        refuse_if-eq-ok
          (not (complaint.epoch == epoch) || not (same_bytes complaint.session_id session_id)) _
          h in
      let (positive, h2) =
        refuse_if-eq-ok
          (complaint.accuser_index == 0
            || (complaint.accused_index == 0
                || not (complaint.accused_index == evidence_accused complaint.evidence)))
          _ h1 in
      let (signed, h3) = refuse_if-eq-ok (is_unsigned c sha512 complaint key) _ h2 in
      let (commitment, v, dealer, recipient, session, epochs, found, digest, canonical, value) =
        adjudicate-bad_sub_share complaint evidence own e h3 in
      let same : commitment ≡ record { dealer_index = i; coefficients = commit c ps } =
        ok_injective (sym found ∙ ap (agreed_commitment own) dealer ∙ a) in
      let nonzero : (complaint.accuser_index == 0) ≡ false = ground arith in
      (
        v,
        ground arith,
        eq_of_same_bytes _ _ (ground arith),
        recipient,
        canonical,
        value
            ∙ ap₂ (λ k j. if verify_subshare c k j v then unfounded else upheld) same recipient
            ∙ ap (λ b. if b then unfounded else upheld)
                (verify_subshare-horner c i complaint.accuser_index ps v ∙ rw nonzero refl),
      )
