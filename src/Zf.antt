-- ===== src/Zf.antt =====
-- src/zf.rs: the share index of a frost-core identifier, and the outer signing context that an inner
-- holder derives from a frost-core package. frost-core itself is the parameter `FrostCore`.
pub mod Identifier
pub mod Reading
use frostito.Prelude.{
  ℕ, ◌-◌, Bool, true, false, List, [], ◌∷◌, length, take, drop, all, position, get_elem?, Option,
  ltb, ◌==◌, if◌then◌else◌,
}
use frostito.Error.{
  Result, ok, err, ◌>>=◌, ◌>>◌, refuse_if, ok_or, expect, invalid_index, invalid_commitment,
  invalid_response,
}
use frostito.Curve.{Curve}
use frostito.Bytes.{from_le_bytes, from_be_bytes}
use frostito.Indices.{sort}
use frostito.Lagrange.{compute_lagrange_coefficients}

-- What the source takes from frost-core. An `Option` stands for a result whose error the source
-- replaces by its own.
pub record FrostCore (c : Curve) : Type 1 where
  pub Identifier : Type 0
  pub serialize : Identifier → List ℕ
  -- `u16::try_into`
  pub of_u16 : ℕ → Option Identifier
  pub SigningPackage : Type 0
  pub message : SigningPackage → List ℕ
  -- `signing_commitments().keys()`
  pub identifiers : SigningPackage → List Identifier
  -- The hiding and the binding point of an entry.
  pub signing_commitment : SigningPackage → Identifier → Option (c.Point × c.Point)
  pub VerifyingKey : Type 0
  pub BindingFactors : Type 0
  pub compute_binding_factor_list : SigningPackage → VerifyingKey → Option BindingFactors
  -- `get`, serialized.
  pub factor_bytes : BindingFactors → Identifier → Option (List ℕ)
  -- `Serialization::try_from`, then `Field::deserialize`.
  pub deserialize : List ℕ → Option c.Scalar
  pub compute_group_commitment : SigningPackage → BindingFactors → Option c.Point
  -- `C::challenge`
  pub challenge : c.Point → VerifyingKey → List ℕ → Option c.Scalar

-- `InnerSigningParams` of src/nested.rs; the record is `from_parts`, its fields the accessors.
pub record InnerSigningParams (S : Type 0) : Type 0 where
  pub outer_binding : S
  pub outer_challenge : S
  pub outer_lambda : S

-- `match (little, big)`
abbrev pub read_index : Bool → Bool → List ℕ → Result ℕ
read_index true big b = ok (from_le_bytes (take 4 b))
read_index false true b = ok (from_be_bytes (drop (length b - 4) b))
read_index false false b = err invalid_index

-- `identifier_to_index`, on the serialized identifier.
unfoldable pub index_of_bytes : List ℕ → Result ℕ
unfolding from_le_bytes from_be_bytes
index_of_bytes b = do
  refuse_if (ltb (length b) 4) invalid_index
  let little = all (λ x. x == 0) (drop 4 b)
  let big = all (λ x. x == 0) (take (length b - 4) b)
  v ← read_index little big b
  refuse_if (v == 0) invalid_index
  ok v

module _ {c : Curve} (frost : FrostCore c) where
  open c use {Scalar, scalars}

  unfoldable pub identifier_to_index : frost.Identifier → Result ℕ
  unfolding index_of_bytes
  identifier_to_index id = index_of_bytes (frost.serialize id)

  -- `for id in package.signing_commitments().keys() { .. }`
  unfoldable pub indices_of : List frost.Identifier → Result (List ℕ)
  unfolding identifier_to_index
  indices_of [] = ok []
  indices_of (id ∷ ids) = do
    index ← identifier_to_index id
    rest ← indices_of ids
    ok (index ∷ rest)

  -- `u16::try_from(nested_index)`, then `try_into`.
  unfoldable pub nested_identifier : ℕ → Result frost.Identifier
  nested_identifier nested_index =
      if ltb nested_index 65536
      then ok_or (frost.of_u16 nested_index) invalid_index
      else err invalid_index

  unfoldable pub inner_params_from_zf :
      frost.SigningPackage → frost.VerifyingKey → ℕ → Result (InnerSigningParams Scalar)
  unfolding indices_of nested_identifier sort
  inner_params_from_zf signing_package verifying_key nested_index = do
    unsorted ← indices_of (frost.identifiers signing_package)
    let indices = sort unsorted
    pos ← ok_or (position indices nested_index) invalid_index
    lagrange ← compute_lagrange_coefficients scalars indices
    nested_id ← nested_identifier nested_index
    factors ←
        ok_or (frost.compute_binding_factor_list signing_package verifying_key) invalid_commitment
    rho_bytes ← ok_or (frost.factor_bytes factors nested_id) invalid_index
    rho ← ok_or (frost.deserialize rho_bytes) invalid_response
    r ← ok_or (frost.compute_group_commitment signing_package factors) invalid_commitment
    challenge ←
        ok_or (frost.challenge r verifying_key (frost.message signing_package)) invalid_commitment
    lambda ← expect (get_elem? lagrange pos)
    ok (record { outer_binding = rho; outer_challenge = challenge; outer_lambda = lambda })
