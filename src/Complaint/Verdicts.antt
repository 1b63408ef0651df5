-- ===== src/Complaint/Verdicts.antt =====
-- src/dkg.rs: what `Complaint::verify` returns.
use frostito.Prelude.{
  ℕ, ◌<◌, ◌≡◌, ◌≢◌, refl, sym, subst, ◌∙◌, false, List, [], ◌∷◌, Option, ◌==◌, decide, decide-true,
  decide-false, true_of_decide, Bool-cases, inl, inr, ==_refl,
}
use frostito.Error.{ok, ok_injective}
use frostito.Curve.{Curve}
use frostito.Curve.Ring.{group, one-ne-zero}
use frostito.Bytes.Laws.{same_bytes_refl}
use frostito.Lagrange.Nodes.{from_u32-ne-zero}
use frostito.Commitment.{share_commitment}
use frostito.ProofOfKnowledge.{challenge, dkg_pok_domain, verify, verify_in, verify_package}
use frostito.Tally.{upheld}
use frostito.Echo.{AgreedRound1}
use frostito.Complaint.{
  ComplaintEvidence, forged_proof_of_knowledge, Complaint, evidence_accused, body,
  complaint_challenge, sign_complaint, adjudicate, verify_complaint,
}

module _ (c : Curve) (sha512 : List ℕ → List ℕ) where
  infixl 65 ◌⊕◌ ◌⊞◌
  infixl 70 ◌⊗◌
  infixr 70 ◌•◌
  open c use {
    Scalar, Point, scalars, zero as zero_scalar, one, from_u32, generator, ◌⊕◌, ◌⊗◌, ◌⊞◌, ◌•◌,
    point_eq, scalar_eq, from_canonical_bytes, capacity, identity,
  }

  signature_equation :
      (k e x : Scalar) → (k ⊕ e ⊗ x) • generator ≡ k • generator ⊞ e • x • generator
  signature_equation k e x = simp group

  -- The complaint that signing makes.
  abbrev pub made :
      ℕ → List ℕ → ℕ → ℕ → ComplaintEvidence Scalar Point → Scalar → Scalar → Complaint Scalar Point
  made epoch session_id round accuser evidence secret k =
      let e =
        complaint_challenge c sha512 (k • generator) (secret • generator)
          (body c epoch session_id round accuser (evidence_accused evidence) evidence) in
      record {
        epoch = epoch;
        session_id = session_id;
        round = round;
        accuser_index = accuser;
        accused_index = evidence_accused evidence;
        evidence = evidence;
        r = k • generator;
        s = k ⊕ e ⊗ secret;
      }

  -- What signing establishes: the binding, and every check up to adjudication.
  abbrev pub Signed :
      ℕ
      → List ℕ
      → ℕ
      → ℕ
      → ComplaintEvidence Scalar Point
      → Scalar
      → Option (AgreedRound1 Point)
      → Complaint Scalar Point
      → Type 0
  Signed epoch session_id round accuser evidence secret agreed complaint =
      (verify_complaint c sha512 complaint epoch session_id (secret • generator) agreed
        ≡ adjudicate c sha512 complaint agreed)
      × (complaint.evidence ≡ evidence)
      × (complaint.accused_index ≡ evidence_accused evidence)
      × (complaint.epoch ≡ epoch)
      × (complaint.session_id ≡ session_id)
      × (complaint.round ≡ round)
      × (complaint.accuser_index ≡ accuser)

  pub made-Signed :
      (epoch : ℕ) (session_id : List ℕ) (round accuser : ℕ)
      (evidence : ComplaintEvidence Scalar Point) (secret k : Scalar)
      (agreed : Option (AgreedRound1 Point))
      → (accuser == 0) ≡ false
      → (evidence_accused evidence == 0) ≡ false
      → Signed epoch session_id round accuser evidence secret agreed
          (made epoch session_id round accuser evidence secret k)
  unfolding verify_complaint
  made-Signed epoch session_id round accuser evidence secret k agreed p n = (
    rw
        (
          verify_complaint,
          ==_refl epoch,
          same_bytes_refl session_id,
          p,
          n,
          ==_refl (evidence_accused evidence),
          decide-true
              (point_eq ((made epoch session_id round accuser evidence secret k).s • generator) _)
              (signature_equation k
                (complaint_challenge c sha512 (k • generator) (secret • generator)
                  (body c epoch session_id round accuser (evidence_accused evidence) evidence))
                secret),
        )
        refl,
    refl,
    refl,
    refl,
    refl,
    refl,
    refl,
  )

  pub sign-made :
      (epoch : ℕ) (session_id : List ℕ) (round accuser : ℕ)
      (evidence : ComplaintEvidence Scalar Point) (secret k : Scalar)
      → (accuser == 0) ≡ false
      → sign_complaint c sha512 epoch session_id round accuser evidence secret k
        ≡ ok (made epoch session_id round accuser evidence secret k)
  unfolding sign_complaint
  sign-made epoch session_id round accuser evidence secret k p = rw (sign_complaint, p) refl

  pub sign-Signed :
      (epoch : ℕ) (session_id : List ℕ) (round accuser : ℕ)
      (evidence : ComplaintEvidence Scalar Point) (secret k : Scalar)
      (agreed : Option (AgreedRound1 Point)) {complaint : Complaint Scalar Point}
      → (evidence_accused evidence == 0) ≡ false
      → sign_complaint c sha512 epoch session_id round accuser evidence secret k ≡ ok complaint
      → Signed epoch session_id round accuser evidence secret agreed complaint
  unfolding sign_complaint
  sign-Signed epoch session_id round accuser evidence secret k agreed {complaint} n h =
      elim (Bool-cases (accuser == 0)) [
        | inl z ↦ cc (rw (sign_complaint, z) at h)
        | inr p ↦
            subst (Signed epoch session_id round accuser evidence secret agreed)
              (ok_injective
                (sym (sign-made epoch session_id round accuser evidence secret k p) ∙ h))
              (made-Signed epoch session_id round accuser evidence secret k agreed p n)
      ]

  -- A proof that fails can be made for any commitment.
  failing_scalar :
      (target : Point)
      → one ≢ zero_scalar
      → (z : Scalar) × (decide (point_eq (z • generator) target) ≡ false)
  failing_scalar target n = elim (Bool-cases (decide (point_eq (zero_scalar • generator) target))) [
    | inr f ↦ (zero_scalar, f)
    | inl t ↦ (
      one,
      decide-false (point_eq _ _) (λ e. n (
          c.smul_generator_injective one zero_scalar
            (e ∙ sym (true_of_decide (point_eq (zero_scalar • generator) target) t)))),
    )
  ]

  -- For every positive dealer index, every agreed round-1 set and every identity key, over a field in
  -- which 1 is below the capacity, the key's owner can sign, under a positive index, a complaint of a
  -- forged proof of knowledge against the dealer that verification upholds: the package in the
  -- evidence is compared with nothing that the dealer sent.
  pub forged_evidence_upheld :
      (epoch : ℕ) (session_id : List ℕ) (round accuser dealer : ℕ) (secret k : Scalar)
      (agreed : Option (AgreedRound1 Point))
      → 1 < capacity
      → (accuser == 0) ≡ false
      → (dealer == 0) ≡ false
      → (evidence : ComplaintEvidence Scalar Point) × (complaint : Complaint Scalar Point)
        × (evidence_accused evidence ≡ dealer)
        × (sign_complaint c sha512 epoch session_id round accuser evidence secret k ≡ ok complaint)
        × (verify_complaint c sha512 complaint epoch session_id (secret • generator) agreed
            ≡ ok upheld)
  unfolding adjudicate verify_package verify verify_in share_commitment evidence_accused
  forged_evidence_upheld epoch session_id round accuser dealer secret k agreed fit p n =
      let some_one : one ≢ zero_scalar =
        one-ne-zero scalars (from_u32 1) (from_u32-ne-zero scalars 1 fit refl) in
      let e = challenge c sha512 dkg_pok_domain dealer epoch generator identity in
      let (z, fails) = failing_scalar (identity ⊞ e • generator) some_one in
      let evidence : ComplaintEvidence Scalar Point = forged_proof_of_knowledge (record {
        commitment = record { dealer_index = dealer; coefficients = generator ∷ [] };
        proof_of_knowledge = record { r = identity; z = z };
      }) in
      let signed = made-Signed epoch session_id round accuser evidence secret k agreed p n in
      (
        evidence,
        made epoch session_id round accuser evidence secret k,
        refl,
        sign-made epoch session_id round accuser evidence secret k p,
        signed.0
            ∙ rw
                (
                  adjudicate,
                  evidence_accused,
                  ==_refl dealer,
                  verify_package,
                  verify,
                  verify_in,
                  fails,
                )
                refl,
      )
