-- ===== src/Nested/Signing/Reuse.antt =====
-- src/nested.rs: two answers under one nonce pair.
use frostito.Prelude.{ℕ, ◌≡◌, ◌≢◌, sym, ap, ap₂, ◌∙◌, List, position, get_elem?}
use frostito.Error.{Result, ok, ok_injective, ◌>>=◌, ok_or, expect, invalid_index}
use frostito.Lagrange.{compute_lagrange_coefficients}
use frostito.Curve.{Curve}
use frostito.Curve.Ring.{cancelling, products, mul_left_cancel, sub-ne-zero, zero-sum}
use frostito.Signer.{Nonces}
use frostito.Zf.{FrostCore, InnerSigningParams, inner_params_from_zf}
use frostito.Nested.Nonces.{NoncePair}
use frostito.Nested.Signing.{
  SecretShare, InnerSignatureShare, NestedSigningRequest, response_of, inner_sign,
}
use frostito.Nested.Signing.Holder.{inner_sign-Answered}

module _ (c : Curve) where
  infixl 65 ◌⊕◌ ◌⊖◌
  infixl 70 ◌⊗◌
  open c use {Scalar, Point, scalars, zero as zero_scalar, one, ◌⊕◌, ◌⊖◌, ◌⊗◌, neg, invert}

  -- The factor of the secret share in a response.
  abbrev pub weight : InnerSigningParams Scalar → Scalar → Scalar
  weight params mu = params.outer_lambda ⊗ params.outer_challenge ⊗ mu

  difference :
      (nonces : NoncePair Scalar) (p q : InnerSigningParams Scalar) (mu nu scalar : Scalar)
      → response_of c nonces p mu scalar ⊖ response_of c nonces q nu scalar
        ≡ (p.outer_binding ⊖ q.outer_binding) ⊗ nonces.binding
          ⊕ (weight p mu ⊖ weight q nu) ⊗ scalar
  unfolding response_of
  difference nonces p q mu nu scalar =
      spread nonces.hiding nonces.binding p.outer_binding q.outer_binding (weight p mu)
        (weight q nu)
    where
      spread :
          (d e r t u v : Scalar)
          → (d ⊕ r ⊗ e ⊕ u ⊗ scalar) ⊖ (d ⊕ t ⊗ e ⊕ v ⊗ scalar) ≡ (r ⊖ t) ⊗ e ⊕ (u ⊖ v) ⊗ scalar
      spread d e r t u v = simp cancelling

  solve : (z w e k : Scalar) → z ≡ e ⊕ w ⊗ k → e ≡ zero_scalar → w ≢ zero_scalar → k ≡ z ⊗ invert w
  solve z w e k h n m = mul_left_cancel scalars w k (z ⊗ invert w) m (
      sym (h ∙ ap (λ x. x ⊕ w ⊗ k) n ∙ zero-sum scalars (w ⊗ k))
      ∙ sym (scalars.mul-one z)
      ∙ ap (λ x. z ⊗ x) (sym (scalars.mul-invert w m))
      ∙ shift z w (invert w))
    where
      shift : (a b d : Scalar) → a ⊗ (b ⊗ d) ≡ b ⊗ (a ⊗ d)
      shift a b d = simp products

  -- The quorum's Lagrange coefficient at an index, as `inner_sign` looks it up.
  abbrev pub quorum_coefficient : List ℕ → ℕ → Result Scalar
  quorum_coefficient active index = do
    lagrange ← compute_lagrange_coefficients scalars active
    pos ← ok_or (position active index) invalid_index
    expect (get_elem? lagrange pos)

  module _ (sha512 : List ℕ → List ℕ) (frost : FrostCore c) where
    -- The response of an answer, with the values that the holder looks up.
    inner_sign-response :
        (nonces : Nonces (NoncePair Scalar)) (share : SecretShare Scalar) (key : frost.VerifyingKey)
        (approved : List ℕ) (r : NestedSigningRequest frost.SigningPackage Point)
        {x : InnerSignatureShare Scalar} {p : InnerSigningParams Scalar} {mu : Scalar}
        → inner_sign c sha512 frost nonces share key approved r ≡ ok x
        → inner_params_from_zf frost r.package_sent key r.nested_index ≡ ok p
        → quorum_coefficient r.active_indices share.index ≡ ok mu
        → x.response ≡ response_of c nonces.secrets p mu share.scalar
    inner_sign-response nonces share key approved r {x} {p} {mu} h e m =
        let a = inner_sign-Answered c sha512 frost nonces share key approved r h in
        a.response
        ∙ ap₂ (λ v u. response_of c nonces.secrets v u share.scalar)
            (ok_injective (sym a.derived ∙ e))
            (ok_injective (rw (a.computed, a.at, a.coefficient) at m))

    -- If a holder answers two requests with one nonce pair and one share, and the two derived binding
    -- factors are equal while the two weights (the product of the outer coefficient, the challenge and
    -- the inner coefficient) are not, the secret share is the difference of the responses over the
    -- difference of the weights.
    pub inner_sign-leaks :
        (nonces : Nonces (NoncePair Scalar)) (share : SecretShare Scalar) (key : frost.VerifyingKey)
        (first second : List ℕ) (r q : NestedSigningRequest frost.SigningPackage Point)
        {x y : InnerSignatureShare Scalar} {p o : InnerSigningParams Scalar} {mu nu : Scalar}
        → inner_sign c sha512 frost nonces share key first r ≡ ok x
        → inner_sign c sha512 frost nonces share key second q ≡ ok y
        → inner_params_from_zf frost r.package_sent key r.nested_index ≡ ok p
        → inner_params_from_zf frost q.package_sent key q.nested_index ≡ ok o
        → quorum_coefficient r.active_indices share.index ≡ ok mu
        → quorum_coefficient q.active_indices share.index ≡ ok nu
        → p.outer_binding ≡ o.outer_binding
        → weight p mu ≢ weight o nu
        → share.scalar ≡ (x.response ⊖ y.response) ⊗ invert (weight p mu ⊖ weight o nu)
    inner_sign-leaks nonces share key first second r q {x} {y} {p} {o} {mu} {nu} h k d e m n same
          differ =
        solve (x.response ⊖ y.response) (weight p mu ⊖ weight o nu) _ share.scalar
          (ap₂ (λ u v. u ⊖ v) (inner_sign-response nonces share key first r h d m)
              (inner_sign-response nonces share key second q k e n)
            ∙ difference nonces.secrets p o mu nu share.scalar)
          (cancel p.outer_binding o.outer_binding nonces.secrets.binding same)
          (sub-ne-zero scalars _ _ differ)
      where
        cancel : (s t b : Scalar) → s ≡ t → (s ⊖ t) ⊗ b ≡ zero_scalar
        cancel s t b same = ap (λ v. (v ⊖ t) ⊗ b) same ∙ simp cancelling
