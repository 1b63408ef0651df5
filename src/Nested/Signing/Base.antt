-- ===== src/Nested/Signing/Base.antt =====
-- src/signer.rs, `Holder`: the base signer, which answers with `inner_sign` from its own key material,
-- and `Spend`, the layer that puts a store of spent sessions around a signer.
use frostito.Prelude.{ℕ, List}
use frostito.Error.{Result}
use frostito.Curve.{Curve}
use frostito.Signer.{SignRequest, MemorySpentSessions, Spending}
use frostito.Zf.{FrostCore}
use frostito.Nested.Nonces.{NoncePair}
use frostito.Nested.Signing.{SecretShare, InnerSignatureShare, NestedSigningRequest, inner_sign}

pub record Holder (S K : Type 0) : Type 0 where
  pub share : SecretShare S
  pub verifying_key : K

-- `Spend::layer`
unfoldable pub spend_layer : {S : Type 0} → MemorySpentSessions → S → Spending S
spend_layer store inner = record { store = store; inner = inner }

module _ (c : Curve) (sha512 : List ℕ → List ℕ) (frost : FrostCore c) where
  open c use {Scalar, Point}

  -- `Holder::sign`, which leaves the holder as it is.
  unfoldable pub holder_sign :
      Holder Scalar frost.VerifyingKey
      → SignRequest (NoncePair Scalar) (NestedSigningRequest frost.SigningPackage Point)
      → Holder Scalar frost.VerifyingKey × Result (InnerSignatureShare Scalar)
  unfolding inner_sign
  holder_sign holder request = (
    holder,
    inner_sign c sha512 frost request.nonces holder.share holder.verifying_key request.message
        request.nested,
  )
