-- ===== src/Nested/Signing/Holder.antt =====
-- src/nested.rs: the partial signature that `inner_sign` returns, against the public checks.
use frostito.Prelude.{
  ℕ, ◌≤◌, ◌≡◌, refl, sym, ap, ap₂, ◌∙◌, true, false, not, List, [], ◌∷◌, ◌++◌, length, find, any,
  position, get_elem?, contains, some, All, All-map, ltb, ◌==◌, decide-true, true_of_decide, arith,
}
use frostito.Error.{
  ok, ok_injective, refuse_if-eq-ok, >>-eq-ok, ok_or-eq-ok, expect-eq-ok, >>=-eq-ok,
}
use frostito.Curve.{Curve}
use frostito.Curve.Ring.{group}
use frostito.Bytes.{same_bytes}
use frostito.Bytes.Laws.{eq_of_same_bytes}
use frostito.Indices.{is_distinct, all_positive}
use frostito.Indices.Counting.{contains-append_one, contains_absent}
use frostito.Lagrange.{compute_lagrange_coefficients}
use frostito.Signer.{Nonces}
use frostito.Zf.{FrostCore, InnerSigningParams, inner_params_from_zf}
use frostito.Nested.Nonces.{NoncePair, InnerCommitments, verify_nested_commitment}
use frostito.Nested.Nonces.Reveal.{IsAggregate, verify_nested_commitment-IsAggregate}
use frostito.Nested.Signing.{
  SecretShare, InnerSignatureShare, NestedSigningRequest, check_quorum, is_foreign, response_of,
  inner_sign, verify_inner_share, public_share,
}

module _ {P : Type 0} where
  -- What the check of the quorum establishes, given the indices before.
  check_quorum_sound :
      (commitments : List (InnerCommitments P)) (earlier active : List ℕ)
      → check_quorum commitments earlier active ≡ ok tt
      → (all_positive active ≡ true)
        × (is_distinct active ≡ true)
        × All
            (λ k.
              (contains earlier k ≡ false) × (any (λ r. r.holder_index == k) commitments ≡ true))
            active
  unfolding check_quorum
  check_quorum_sound commitments earlier [] h = (refl, refl, tt)
  check_quorum_sound commitments earlier (k ∷ rest) h =
      let (positive, h1) = refuse_if-eq-ok (k == 0) _ h in
      let (new, h2) = refuse_if-eq-ok (contains earlier k) _ h1 in
      let (known, h3) = refuse_if-eq-ok (not (any (λ r. r.holder_index == k) commitments)) _ h2 in
      let (pos, dist, each) = check_quorum_sound commitments (earlier ++ (k ∷ [])) rest h3 in
      let later : All (λ j. (j == k) ≡ false) rest =
        All-map (λ j f. ground (arith, contains-append_one earlier k j)) rest each in
      (
        ground arith,
        ground (arith, contains_absent k rest later),
        (
          (new, ground arith),
          All-map (λ j f. (ground (arith, contains-append_one earlier k j), f.1)) rest each,
        ),
      )

module _ (c : Curve) (sha512 : List ℕ → List ℕ) (frost : FrostCore c) where
  infixr 70 ◌•◌
  open c use {Scalar, Point, scalars, generator, ◌•◌, point_eq}

  -- What a holder that answered with `sig` has checked and derived, in the order of the code.
  pub record Answered (nonces : Nonces (NoncePair Scalar)) (share : SecretShare Scalar)
      (key : frost.VerifyingKey) (approved : List ℕ)
      (request : NestedSigningRequest frost.SigningPackage Point) (sig : InnerSignatureShare Scalar)
      : Type 0 where
    pub said : frost.message request.package_sent ≡ approved
    pub enough : request.inner_threshold ≤ length request.active_indices
    pub positive : all_positive request.active_indices ≡ true
    pub distinct : is_distinct request.active_indices ≡ true
    pub known :
        All
          (λ k. any (λ r. r.holder_index == k) request.inner_commitments ≡ true)
          request.active_indices
    pub session : nonces.session_id ≡ request.session_id
    pub mine : InnerCommitments Point
    pub found :
        find (λ r. r.holder_index == nonces.holder_index) request.inner_commitments ≡ some mine
    pub own_hiding : mine.hiding ≡ nonces.secrets.hiding • generator
    pub own_binding : mine.binding ≡ nonces.secrets.binding • generator
    pub nested :
        verify_nested_commitment c sha512 frost request.package_sent request.nested_index
          request.session_id request.inner_precommits request.inner_commitments
        ≡ ok tt
    pub params : InnerSigningParams Scalar
    pub derived :
        inner_params_from_zf frost request.package_sent key request.nested_index ≡ ok params
    pub lagrange : List Scalar
    pub computed : compute_lagrange_coefficients scalars request.active_indices ≡ ok lagrange
    pub pos : ℕ
    pub at : position request.active_indices share.index ≡ some pos
    pub mu : Scalar
    pub coefficient : get_elem? lagrange pos ≡ some mu
    pub holder : sig.holder_index ≡ nonces.holder_index
    pub response : sig.response ≡ response_of c nonces.secrets params mu share.scalar

  pub inner_sign-Answered :
      (nonces : Nonces (NoncePair Scalar)) (share : SecretShare Scalar) (key : frost.VerifyingKey)
      (approved : List ℕ) (request : NestedSigningRequest frost.SigningPackage Point)
      {sig : InnerSignatureShare Scalar}
      → inner_sign c sha512 frost nonces share key approved request ≡ ok sig
      → Answered nonces share key approved request sig
  unfolding inner_sign is_foreign
  inner_sign-Answered nonces share key approved request {sig} h =
      let active = request.active_indices in
      let commitments = request.inner_commitments in
      let (s1, h1) =
        refuse_if-eq-ok (not (same_bytes (frost.message request.package_sent) approved)) _ h in
      let (s2, h2) = refuse_if-eq-ok (ltb (length active) request.inner_threshold) _ h1 in
      let (s3, h3) = >>-eq-ok (check_quorum commitments [] active) h2 in
      let (s4, h4) = refuse_if-eq-ok (not (same_bytes nonces.session_id request.session_id)) _ h3 in
      let (mine, s5, h5) =
        ok_or-eq-ok (find (λ r. r.holder_index == nonces.holder_index) commitments) _ h4 in
      let (s6, h6) = refuse_if-eq-ok (is_foreign c nonces request.session_id mine) _ h5 in
      let (s7, h7) =
        >>-eq-ok
          (verify_nested_commitment c sha512 frost request.package_sent request.nested_index
            request.session_id request.inner_precommits commitments)
          h6 in
      let (params, s8, h8) =
        >>=-eq-ok (inner_params_from_zf frost request.package_sent key request.nested_index) _ h7 in
      let (lagrange, s9, h9) = >>=-eq-ok (compute_lagrange_coefficients scalars active) _ h8 in
      let (pos, s10, h10) = ok_or-eq-ok (position active share.index) _ h9 in
      let (mu, s11, h11) = expect-eq-ok (get_elem? lagrange pos) h10 in
      let quorum = check_quorum_sound commitments [] active s3 in
      record {
        said = eq_of_same_bytes _ _ (ground arith);
        enough = ground arith;
        positive = quorum.0;
        distinct = quorum.1;
        known = All-map (λ k f. f.1) active quorum.2;
        session = eq_of_same_bytes _ _ (ground arith);
        mine = mine;
        found = s5;
        own_hiding = true_of_decide (point_eq _ _) (ground arith);
        own_binding = true_of_decide (point_eq _ _) (ground arith);
        nested = s7;
        params = params;
        derived = s8;
        lagrange = lagrange;
        computed = s9;
        pos = pos;
        at = s10;
        mu = mu;
        coefficient = s11;
        holder = ap (λ z. z.holder_index) (sym (ok_injective h11));
        response = ap (λ z. z.response) (sym (ok_injective h11));
      }

module _ (c : Curve) where
  infixr 70 ◌•◌
  infixl 65 ◌⊕◌ ◌⊞◌
  infixl 70 ◌⊗◌
  open c use {Scalar, Point, scalars, generator, ◌•◌, ◌⊕◌, ◌⊗◌, ◌⊞◌, point_eq}

  -- A response computed from nonces and a scalar passes the check against their public values.
  pub verify_inner_share-response :
      (nonces : NoncePair Scalar) (params : InnerSigningParams Scalar) (mu scalar : Scalar)
      (sig : InnerSignatureShare Scalar) (mine : InnerCommitments Point)
      → sig.response ≡ response_of c nonces params mu scalar
      → mine.hiding ≡ nonces.hiding • generator
      → mine.binding ≡ nonces.binding • generator
      → verify_inner_share c sig mine (scalar • generator) params mu ≡ true
  unfolding verify_inner_share response_of
  verify_inner_share-response nonces params mu scalar sig mine r h b = decide-true (point_eq _ _) (
      ap (λ z. z • generator) r
      ∙ spread nonces.hiding nonces.binding params.outer_binding
          (params.outer_lambda ⊗ params.outer_challenge ⊗ mu)
      ∙ sym (ap₂ (λ p q. p ⊞ params.outer_binding • q ⊞ weight • scalar • generator) h b))
    where
      weight : Scalar
      weight = params.outer_lambda ⊗ params.outer_challenge ⊗ mu

      spread :
          (d e rho w : Scalar)
          → (d ⊕ rho ⊗ e ⊕ w ⊗ scalar) • generator
            ≡ d • generator ⊞ rho • e • generator ⊞ w • scalar • generator
      spread d e rho w = simp group

  -- When `inner_sign` returns a share, the message is the approved one, the round is that of the
  -- nonces, the quorum has at least `inner_threshold` members, all positive, distinct and with
  -- published commitments, the package's entry for the nested position is the sum of those hiding and
  -- of those binding points, revealed for this round by distinct holders who had each precommitted to
  -- theirs, and the share passes `verify_inner_share` with the holder's published commitment, its
  -- public share, the parameters derived from the package and the quorum's Lagrange coefficient at
  -- its index.
  pub inner_sign-verifies :
      (sha512 : List ℕ → List ℕ) (frost : FrostCore c) (nonces : Nonces (NoncePair Scalar))
      (share : SecretShare Scalar) (key : frost.VerifyingKey) (approved : List ℕ)
      (request : NestedSigningRequest frost.SigningPackage Point) {sig : InnerSignatureShare Scalar}
      → inner_sign c sha512 frost nonces share key approved request ≡ ok sig
      → (frost.message request.package_sent ≡ approved)
        × (nonces.session_id ≡ request.session_id)
        × (request.inner_threshold ≤ length request.active_indices)
        × (all_positive request.active_indices ≡ true)
        × (is_distinct request.active_indices ≡ true)
        × All
            (λ k. any (λ r. r.holder_index == k) request.inner_commitments ≡ true)
            request.active_indices
        × (verify_nested_commitment c sha512 frost request.package_sent request.nested_index
              request.session_id request.inner_precommits request.inner_commitments
            ≡ ok tt)
        × IsAggregate c sha512 frost request.package_sent request.nested_index request.session_id
            request.inner_precommits request.inner_commitments
        × ((mine : InnerCommitments Point) × (params : InnerSigningParams Scalar) × (lagrange : List
              Scalar)
            × (pos : ℕ) × (mu : Scalar) × (find
                  (λ r. r.holder_index == sig.holder_index)
                  request.inner_commitments
                ≡ some mine)
            × (inner_params_from_zf frost request.package_sent key request.nested_index ≡ ok params)
            × (compute_lagrange_coefficients scalars request.active_indices ≡ ok lagrange)
            × (position request.active_indices share.index ≡ some pos)
            × (get_elem? lagrange pos ≡ some mu)
            × (verify_inner_share c sig mine (public_share c share) params mu ≡ true))
  unfolding public_share
  inner_sign-verifies sha512 frost nonces share key approved request {sig} h =
      let a = inner_sign-Answered c sha512 frost nonces share key approved request h in
      (
        a.said,
        a.session,
        a.enough,
        a.positive,
        a.distinct,
        a.known,
        a.nested,
        verify_nested_commitment-IsAggregate c sha512 frost request.package_sent
            request.nested_index request.session_id request.inner_precommits
            request.inner_commitments a.nested,
        (
          a.mine,
          a.params,
          a.lagrange,
          a.pos,
          a.mu,
          ap (λ k. find (λ r. r.holder_index == k) request.inner_commitments) a.holder ∙ a.found,
          a.derived,
          a.computed,
          a.at,
          a.coefficient,
          verify_inner_share-response nonces.secrets a.params a.mu share.scalar sig a.mine
              a.response a.own_hiding a.own_binding,
        ),
      )
