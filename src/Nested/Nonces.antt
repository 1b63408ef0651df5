-- ===== src/Nested/Nonces.antt =====
-- src/nested.rs, round 0 and round 1 of an inner group: nonces, their commitments, the
-- precommitments, and the pair that the outer protocol sees. `InnerNonces` is `Nonces` of the signer.
-- Round ids and precommitments are byte lists; SHA-512 is the argument `sha512`.
pub mod Reveal
use frostito.Prelude.{
  ℕ, zero, suc, Bool, true, false, not, ◌||◌, List, [], ◌∷◌, ◌++◌, take, find, contains, ltb, ◌==◌,
  if◌then◌else◌, decide,
}
use frostito.Error.{
  Result, ok, err, ◌>>=◌, ◌>>◌, refuse_if, ok_or, empty_contributions, invalid_index,
  session_mismatch, duplicate_index, precommit_mismatch, unexpected_commitment,
}
use frostito.Curve.{Curve}
use frostito.Bytes.{to_le_bytes, bytes_of, same_bytes, differs}
use frostito.Signer.{Nonces}
use frostito.Zf.{FrostCore, nested_identifier}

abbrev pub inner_precommit_domain : List ℕ
inner_precommit_domain = bytes_of "frostito-inner-precommit-v2"

-- The secret part of `InnerNonces`.
pub record NoncePair (S : Type 0) : Type 0 where
  pub hiding : S
  pub binding : S

pub record InnerCommitments (P : Type 0) : Type 0 where
  pub holder_index : ℕ
  pub session_id : List ℕ
  pub hiding : P
  pub binding : P

module _ (c : Curve) where
  infixl 65 ◌⊞◌
  infixr 70 ◌•◌
  open c use {Scalar, Point, identity, generator, ◌⊞◌, ◌•◌, point_eq, compress}

  -- `inner_commit`, the two samples as arguments.
  unfoldable pub inner_commit :
      ℕ → List ℕ → Scalar → Scalar → Nonces (NoncePair Scalar) × InnerCommitments Point
  inner_commit holder_index session_id hiding binding = (
    record {
      session_id = session_id;
      holder_index = holder_index;
      secrets = record { hiding = hiding; binding = binding };
    },
    record {
      holder_index = holder_index;
      session_id = session_id;
      hiding = hiding • generator;
      binding = binding • generator;
    },
  )

  -- The bytes that `inner_precommit` hashes.
  unfoldable pub precommit_input : InnerCommitments Point → List ℕ
  precommit_input revealed =
      inner_precommit_domain
      ++ (to_le_bytes 4 revealed.holder_index
          ++ (revealed.session_id ++ (compress revealed.hiding ++ compress revealed.binding)))

  module _ (sha512 : List ℕ → List ℕ) where
    unfoldable pub inner_precommit : InnerCommitments Point → List ℕ
    unfolding precommit_input
    inner_precommit revealed = take 32 (sha512 (precommit_input revealed))

    unfoldable pub verify_inner_precommit : List ℕ → InnerCommitments Point → Bool
    unfolding inner_precommit differs
    verify_inner_precommit precommit revealed = not (differs (inner_precommit revealed) precommit)

    -- The loop of `aggregate_inner_commitment_pair`.
    unfoldable pub pair_loop :
        List ℕ
        → List (ℕ × List ℕ)
        → List ℕ
        → Point
        → Point
        → List (InnerCommitments Point)
        → Result (Point × Point)
    unfolding verify_inner_precommit
    pair_loop session_id precommits seen d e [] = ok (d, e)
    pair_loop session_id precommits seen d e (revealed ∷ rest) = do
      let k = revealed.holder_index
      refuse_if (k == 0) invalid_index
      refuse_if (not (same_bytes revealed.session_id session_id)) session_mismatch
      refuse_if (contains seen k) (duplicate_index k)
      pre ← ok_or (find (λ p. p.0 == k) precommits) (precommit_mismatch k)
      refuse_if (not (verify_inner_precommit pre.1 revealed)) (precommit_mismatch k)
      pair_loop session_id precommits (seen ++ (k ∷ [])) (d ⊞ revealed.hiding)
          (e ⊞ revealed.binding) rest

    unfoldable pub aggregate_inner_commitment_pair :
        List ℕ → List (ℕ × List ℕ) → List (InnerCommitments Point) → Result (Point × Point)
    unfolding pair_loop
    aggregate_inner_commitment_pair session_id precommits [] = err empty_contributions
    aggregate_inner_commitment_pair session_id precommits (first ∷ rest) =
        pair_loop session_id precommits [] identity identity (first ∷ rest)

    unfoldable pub verify_nested_commitment :
        (frost : FrostCore c)
        → frost.SigningPackage
        → ℕ
        → List ℕ
        → List (ℕ × List ℕ)
        → List (InnerCommitments Point)
        → Result (Unit {0})
    unfolding nested_identifier aggregate_inner_commitment_pair
    verify_nested_commitment frost sent nested_index session_id precommits commitments = do
      id ← nested_identifier frost nested_index
      entry ← ok_or (frost.signing_commitment sent id) invalid_index
      pair ← aggregate_inner_commitment_pair session_id precommits commitments
      refuse_if (not (decide (point_eq entry.0 pair.0)) || not (decide (point_eq entry.1 pair.1)))
          unexpected_commitment
