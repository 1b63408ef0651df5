-- ===== src/ProofOfKnowledge/Extraction.antt =====
-- src/dkg.rs: completeness and special soundness of the Schnorr proofs.
use frostito.Prelude.{
  ℕ, ◌≡◌, ◌≢◌, refl, sym, ap, ◌∙◌, subst, true, List, [], ◌∷◌, decide-true, true_of_decide, arith,
  Bool-cases, inl, inr, ◌==◌,
}
use frostito.Error.{ok, ok_injective}
use frostito.Curve.{Curve}
use frostito.Curve.Ring.{group}
use frostito.Curve.Differences.{difference, smul_undone}
use frostito.Commitment.{DealerCommitment, share_commitment, from_polynomial}
use frostito.Reshare.{Dealer}
use frostito.ProofOfKnowledge.{
  ProofOfKnowledge, Round1Package, challenge, prove_in, verify_in, prove, verify, verify_package,
  round1_package, prove_possession, verify_possession, dkg_pok_domain, reshare_pok_domain,
}

module _ (c : Curve) (sha512 : List ℕ → List ℕ) where
  infixl 65 ◌⊕◌ ◌⊞◌ ◌⊖◌
  infixl 70 ◌⊗◌
  infixr 70 ◌•◌
  open c use {
    Scalar, Point, generator, ◌⊕◌, ◌⊖◌, ◌⊗◌, ◌⊞◌, ◌•◌, invert, identity, neg, zero as zero_scalar,
    one,
  }

  -- The proof of a constant term verifies against its commitment, under the same domain, index and
  -- epoch.
  pub verify_in-prove_in :
      (domain : List ℕ) (i epoch : ℕ) (a_0 k : Scalar)
      → verify_in c sha512 (prove_in c sha512 domain i epoch a_0 k) domain i epoch (a_0 • generator)
        ≡ true
  unfolding verify_in prove_in
  verify_in-prove_in domain i epoch a_0 k =
      decide-true (c.point_eq _ _)
        (spread (challenge c sha512 domain i epoch (a_0 • generator) (k • generator)))
    where
      spread : (e : Scalar) → (k ⊕ e ⊗ a_0) • generator ≡ k • generator ⊞ e • a_0 • generator
      spread e = simp group

  accepted :
      (proof : ProofOfKnowledge Scalar Point) (domain : List ℕ) (i epoch : ℕ) (c0 : Point)
      → verify_in c sha512 proof domain i epoch c0 ≡ true
      → proof.z • generator ≡ proof.r ⊞ challenge c sha512 domain i epoch c0 proof.r • c0
  unfolding verify_in
  accepted proof domain i epoch c0 h = true_of_decide (c.point_eq _ _) h

  -- Two accepted proofs with one nonce commitment and different challenges (under any domains,
  -- indices and epochs) reveal the discrete logarithm of the constant-term commitment.
  pub verify_in-extracts :
      (p q : ProofOfKnowledge Scalar Point) (domain domain' : List ℕ) (i i' epoch epoch' : ℕ)
      (c0 : Point)
      → verify_in c sha512 p domain i epoch c0 ≡ true
      → verify_in c sha512 q domain' i' epoch' c0 ≡ true
      → p.r ≡ q.r
      → challenge c sha512 domain i epoch c0 p.r ≢ challenge c sha512 domain' i' epoch' c0 q.r
      → (invert (
              challenge c sha512 domain i epoch c0 p.r
              ⊖ challenge c sha512 domain' i' epoch' c0 q.r)
            ⊗ (p.z ⊖ q.z))
          • generator
        ≡ c0
  verify_in-extracts p q domain domain' i i' epoch epoch' c0 h k r n = go _ _ n (
      difference c _ _ p.z q.z p.r c0 (accepted p domain i epoch c0 h) (
        accepted q domain' i' epoch' c0 k
        ∙ ap (λ x. x ⊞ challenge c sha512 domain' i' epoch' c0 q.r • c0) (sym r)))
    where
      go :
          (e f : Scalar)
          → e ≢ f
          → (p.z ⊖ q.z) • generator ≡ (e ⊖ f) • c0
          → (invert (e ⊖ f) ⊗ (p.z ⊖ q.z)) • generator ≡ c0
      go e f d s =
          c.mul-smul (invert (e ⊖ f)) (p.z ⊖ q.z) generator
          ∙ ap (λ x. invert (e ⊖ f) • x) s
          ∙ smul_undone c e f c0 d

  -- What an honest dealer sends about its commitment is made, and accepted.
  abbrev pub Accepted : Dealer Scalar Point → ℕ → Scalar → Type 0
  Accepted dealer epoch k =
      (sent : Round1Package Scalar Point) × (proof : ProofOfKnowledge Scalar Point)
      × (round1_package c sha512 dealer epoch k ≡ ok sent)
      × (prove_possession c sha512 dealer epoch k ≡ ok proof)
      × (sent.commitment ≡ dealer.commitment)
      × (verify_package c sha512 sent epoch ≡ ok tt)
      × (verify_possession c sha512 dealer.commitment epoch proof ≡ true)

  Accepted-for :
      (i epoch : ℕ) (k : Scalar) (ps : List Scalar) (commitment : DealerCommitment Point)
      → from_polynomial c i ps ≡ ok commitment
      → Accepted (record { index = i; polynomial = ps; commitment = commitment }) epoch k
  unfolding from_polynomial round1_package prove_possession verify_package verify_possession prove
      verify share_commitment
  Accepted-for i epoch k [] commitment e = absurd (ground arith)
  Accepted-for i epoch k (a ∷ rest) commitment e = elim (Bool-cases (i == 0)) [
    | inl z ↦ cc (rw z at e)
    | inr z ↦
        subst
          (λ kc. Accepted (record { index = i; polynomial = a ∷ rest; commitment = kc }) epoch k)
          (ok_injective (rw z at e))
          (
            _,
            _,
            refl,
            refl,
            refl,
            rw (verify_in-prove_in dkg_pok_domain i epoch a k) refl,
            verify_in-prove_in reshare_pok_domain i epoch a k,
          )
  ]

  -- A dealer whose commitment was made from its own index and polynomial always makes a round-1
  -- package and a proof of possession; the package carries its commitment, and both verify in the
  -- epoch that they were made for.
  pub packages-verify :
      (dealer : Dealer Scalar Point) (epoch : ℕ) (k : Scalar)
      → from_polynomial c dealer.index dealer.polynomial ≡ ok dealer.commitment
      → Accepted dealer epoch k
  packages-verify dealer epoch k h =
      Accepted-for dealer.index epoch k dealer.polynomial dealer.commitment h
