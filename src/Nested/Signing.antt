-- ===== src/Nested/Signing.antt =====
-- src/nested.rs, round 2 of an inner group: a holder's partial signature, and its verified
-- aggregation. `SecretShare` is src/lib.rs; `NestedSigningRequest` carries the frost-core package.
pub mod Holder
pub mod Flat
pub mod Coverage
pub mod Blame
pub mod Lookup
pub mod Quorum
pub mod Reuse
pub mod Base
use frostito.Prelude.{
  ℕ, zero, suc, Bool, true, false, not, ◌||◌, ◌&&◌, List, [], ◌∷◌, ◌++◌, length, find, any,
  position, get_elem?, contains, Option, none, some, ltb, ◌==◌, if◌then◌else◌, decide,
}
use frostito.Error.{
  Result, ok, err, panic, ◌>>=◌, ◌>>◌, refuse_if, ok_or, expect, invalid_index, duplicate_index,
  unknown_quorum_member, message_mismatch, insufficient_contributions, session_mismatch,
  unexpected_commitment,
}
use frostito.Curve.{ScalarField, Curve}
use frostito.Bytes.{same_bytes}
use frostito.Indices.{sort}
use frostito.Lagrange.{compute_lagrange_coefficients}
use frostito.Signer.{Nonces}
use frostito.Zf.{FrostCore, InnerSigningParams, inner_params_from_zf}
use frostito.Nested.Nonces.{NoncePair, InnerCommitments, verify_nested_commitment}

pub record SecretShare (S : Type 0) : Type 0 where
  pub index : ℕ
  pub scalar : S

-- `SecretShare::new`
unfoldable pub new_secret_share : {S : Type 0} → ℕ → S → Result (SecretShare S)
new_secret_share index scalar =
    if index == 0 then err invalid_index else ok (record { index = index; scalar = scalar })

pub record InnerSignatureShare (S : Type 0) : Type 0 where
  pub holder_index : ℕ
  pub response : S

-- `NestedSigningRequest`; `K` is the package.
pub record NestedSigningRequest (K P : Type 0) : Type 0 where
  pub package_sent : K
  pub nested_index : ℕ
  pub session_id : List ℕ
  pub inner_precommits : List (ℕ × List ℕ)
  pub inner_commitments : List (InnerCommitments P)
  pub active_indices : List ℕ
  pub inner_threshold : ℕ

-- What `aggregate_inner_shares_verified` returns: its error is the list of holders at fault.
pub data Aggregate (S : Type 0) : Type 0 where
  aggregated : S → Aggregate S
  rejected : List ℕ → Aggregate S

-- `if !bad.contains(&k) { bad.push(k); }`
unfoldable pub add_new : List ℕ → ℕ → List ℕ
add_new bad k = if contains bad k then bad else bad ++ (k ∷ [])

module _ {S : Type 0} where
  -- The loop over the shares: the final `seen` and `bad`.
  unfoldable pub cover_shares :
      List ℕ → List ℕ → List ℕ → List (InnerSignatureShare S) → List ℕ × List ℕ
  unfolding add_new
  cover_shares active seen bad [] = (seen, bad)
  cover_shares active seen bad (sig ∷ rest) =
      let k = sig.holder_index in
      cover_shares active (seen ++ (k ∷ []))
        (if not (contains active k) || contains seen k then add_new bad k else bad) rest

-- The loop over the active indices.
unfoldable pub cover_active : List ℕ → List ℕ → List ℕ → List ℕ
unfolding add_new
cover_active seen bad [] = bad
cover_active seen bad (k ∷ rest) =
    cover_active seen (if contains seen k then bad else add_new bad k) rest

module _ {P : Type 0} where
  -- The check of the quorum in `inner_sign`; `earlier` is the slice before the position.
  unfoldable pub check_quorum : List (InnerCommitments P) → List ℕ → List ℕ → Result (Unit {0})
  check_quorum commitments earlier [] = ok tt
  check_quorum commitments earlier (k ∷ rest) = do
    refuse_if (k == 0) invalid_index
    refuse_if (contains earlier k) (duplicate_index k)
    refuse_if (not (any (λ r. r.holder_index == k) commitments)) (unknown_quorum_member k)
    check_quorum commitments (earlier ++ (k ∷ [])) rest

module _ (c : Curve) where
  infixl 65 ◌⊕◌ ◌⊞◌
  infixl 70 ◌⊗◌
  infixr 70 ◌•◌
  open c use {Scalar, Point, scalars, zero as zero_scalar, ◌⊕◌, ◌⊗◌, generator, ◌⊞◌, ◌•◌, point_eq}

  -- `SecretShare::public_share`
  unfoldable pub public_share : SecretShare Scalar → Point
  public_share share = share.scalar • generator

  -- The last lines of `inner_sign`.
  unfoldable pub response_of :
      NoncePair Scalar → InnerSigningParams Scalar → Scalar → Scalar → Scalar
  response_of nonces params mu_k scalar =
      let rho_e = params.outer_binding ⊗ nonces.binding in
      let weight = params.outer_lambda ⊗ params.outer_challenge ⊗ mu_k in
      nonces.hiding ⊕ rho_e ⊕ weight ⊗ scalar

  -- The published commitment is not that of these nonces, or of another round.
  unfoldable pub is_foreign : Nonces (NoncePair Scalar) → List ℕ → InnerCommitments Point → Bool
  is_foreign nonces session_id mine =
      not (same_bytes mine.session_id session_id)
      || (not (decide (point_eq mine.hiding (nonces.secrets.hiding • generator)))
          || not (decide (point_eq mine.binding (nonces.secrets.binding • generator))))

  unfoldable pub inner_sign :
      (sha512 : List ℕ → List ℕ) (frost : FrostCore c)
      → Nonces (NoncePair Scalar)
      → SecretShare Scalar
      → frost.VerifyingKey
      → List ℕ
      → NestedSigningRequest frost.SigningPackage Point
      → Result (InnerSignatureShare Scalar)
  unfolding check_quorum is_foreign response_of verify_nested_commitment inner_params_from_zf
  inner_sign sha512 frost nonces share local_group_pubkey approved_message request = do
    let active = request.active_indices
    refuse_if (not (same_bytes (frost.message request.package_sent) approved_message))
        message_mismatch
    refuse_if (ltb (length active) request.inner_threshold)
        (insufficient_contributions (length active) request.inner_threshold)
    check_quorum request.inner_commitments [] active
    refuse_if (not (same_bytes nonces.session_id request.session_id)) session_mismatch
    mine ←
        ok_or (find (λ r. r.holder_index == nonces.holder_index) request.inner_commitments)
          unexpected_commitment
    refuse_if (is_foreign nonces request.session_id mine) unexpected_commitment
    verify_nested_commitment c sha512 frost request.package_sent request.nested_index
        request.session_id request.inner_precommits request.inner_commitments
    params ← inner_params_from_zf frost request.package_sent local_group_pubkey request.nested_index
    lagrange ← compute_lagrange_coefficients scalars active
    my_pos ← ok_or (position active share.index) invalid_index
    mu_k ← expect (get_elem? lagrange my_pos)
    ok (record {
      holder_index = nonces.holder_index;
      response = response_of nonces.secrets params mu_k share.scalar;
    })

  unfoldable pub verify_inner_share :
      InnerSignatureShare Scalar
      → InnerCommitments Point
      → Point
      → InnerSigningParams Scalar
      → Scalar
      → Bool
  verify_inner_share sig commitment public params mu_k =
      let lhs = sig.response • generator in
      let weight = params.outer_lambda ⊗ params.outer_challenge ⊗ mu_k in
      let rhs = commitment.hiding ⊞ params.outer_binding • commitment.binding ⊞ weight • public in
      decide (point_eq lhs rhs)

  -- The three lookups and the check of one share; `lagrange[pos]` panics out of range.
  unfoldable pub share_passes :
      List (InnerCommitments Point)
      → List (ℕ × Point)
      → InnerSigningParams Scalar
      → List ℕ
      → List Scalar
      → InnerSignatureShare Scalar
      → Result Bool
  unfolding verify_inner_share
  share_passes commitments public_shares params active lagrange sig =
      let k = sig.holder_index in
      elim (position active k) [
        | none ↦ ok false
        | some pos ↦ elim (find (λ r. r.holder_index == k) commitments) [
          | none ↦ ok false
          | some commitment ↦ elim (find (λ p. p.0 == k) public_shares) [
            | none ↦ ok false
            | some public ↦ expect (get_elem? lagrange pos) >>= λ mu.
                ok (verify_inner_share sig commitment public.1 params mu)
          ]
        ]
      ]

  -- The loop that checks and adds, with the final `z` and `bad`.
  unfoldable pub verify_loop :
      (InnerSignatureShare Scalar → Result Bool)
      → Scalar
      → List ℕ
      → List (InnerSignatureShare Scalar)
      → Result (Scalar × List ℕ)
  unfolding add_new
  verify_loop passes z bad [] = ok (z, bad)
  verify_loop passes z bad (sig ∷ rest) = do
    passed ← passes sig
    if passed
        then verify_loop passes (z ⊕ sig.response) bad rest
        else verify_loop passes z (add_new bad sig.holder_index) rest

  -- `if bad.is_empty() { Ok(z) } else { bad.sort_unstable(); Err(bad) }`
  abbrev pub conclude : Scalar × List ℕ → Aggregate Scalar
  conclude (z, []) = aggregated z
  conclude (z, k ∷ bad) = rejected (sort (k ∷ bad))

  unfoldable pub aggregate_inner_shares_verified :
      List (InnerSignatureShare Scalar)
      → List (InnerCommitments Point)
      → List (ℕ × Point)
      → InnerSigningParams Scalar
      → List ℕ
      → Result (Aggregate Scalar)
  unfolding cover_shares cover_active share_passes verify_loop sort
  aggregate_inner_shares_verified sigs commitments public_shares params active =
      elim (compute_lagrange_coefficients scalars active) [
        | panic ↦ panic
        | err _ ↦ ok (rejected active)
        | ok lagrange ↦
            let (seen, bad) = cover_shares active [] [] sigs in
            verify_loop (share_passes commitments public_shares params active lagrange) zero_scalar
              (cover_active seen bad active) sigs
            >>= λ done. ok (conclude done)
      ]
