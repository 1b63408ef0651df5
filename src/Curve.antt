-- ===== src/Curve.antt =====
-- src/curve.rs: the traits `CurveScalar` and `CurvePoint`. The four backends forward them to
-- external crates, so the operations are the fields of two records, with the laws of a prime-order
-- group and its scalar field and of the canonical encodings as further fields.
pub mod Ring
pub mod Differences
use frostito.Prelude.{ℕ, ◌<◌, ◌≡◌, ◌≢◌, Option, none, some, List, length}

-- `CurveScalar`. `random` is not a field: a function that samples takes the sampled scalars as
-- arguments.
pub record ScalarField : Type 1 where
  pub Scalar : Type 0
  pub zero : Scalar
  pub one : Scalar
  pub from_u32 : ℕ → Scalar
  infixl 65 ◌⊕◌ ◌⊖◌
  infixl 70 ◌⊗◌
  pub ◌⊕◌ : Scalar → Scalar → Scalar
  pub ◌⊖◌ : Scalar → Scalar → Scalar
  pub ◌⊗◌ : Scalar → Scalar → Scalar
  pub neg : Scalar → Scalar
  pub invert : Scalar → Scalar
  pub from_bytes_wide : List ℕ → Scalar
  pub to_bytes : Scalar → List ℕ
  pub from_canonical_bytes : List ℕ → Option Scalar
  -- `PartialEq`
  pub scalar_eq : Discrete Scalar
  -- Integers below `capacity` are distinct scalars. Every backend's group order is above 2 ^ 250,
  -- so there each `u32` is below it.
  pub capacity : ℕ
  pub capacity_pos : 0 < capacity
  pub from_u32_zero : from_u32 0 ≡ zero
  pub from_u32_injective : (i j : ℕ) → i < capacity → j < capacity → from_u32 i ≡ from_u32 j → i ≡ j
  -- The field.
  pub add_assoc : (a b c : Scalar) → a ⊕ b ⊕ c ≡ a ⊕ (b ⊕ c)
  pub add_comm : (a b : Scalar) → a ⊕ b ≡ b ⊕ a
  pub add-zero : (a : Scalar) → a ⊕ zero ≡ a
  pub add-neg : (a : Scalar) → a ⊕ neg a ≡ zero
  pub sub-def : (a b : Scalar) → a ⊖ b ≡ a ⊕ neg b
  pub mul_assoc : (a b c : Scalar) → a ⊗ b ⊗ c ≡ a ⊗ (b ⊗ c)
  pub mul_comm : (a b : Scalar) → a ⊗ b ≡ b ⊗ a
  pub mul-one : (a : Scalar) → a ⊗ one ≡ a
  pub mul-add : (a b c : Scalar) → a ⊗ (b ⊕ c) ≡ a ⊗ b ⊕ a ⊗ c
  pub mul-invert : (a : Scalar) → a ≢ zero → a ⊗ invert a ≡ one
  -- Canonical bytes are 32 bytes long, and read back exactly the scalar.
  pub length-to_bytes : (a : Scalar) → length (to_bytes a) ≡ 32
  pub from_canonical_bytes-to_bytes : (a : Scalar) → from_canonical_bytes (to_bytes a) ≡ some a
  pub to_bytes_of_canonical :
      (bs : List ℕ) (a : Scalar) → from_canonical_bytes bs ≡ some a → to_bytes a ≡ bs

-- `CurvePoint`: a group of prime order, written additively, with a generator.
pub record Curve : Type 1 where
  pub scalars : ScalarField
  pub open scalars use {
    Scalar, zero, one, from_u32, ◌⊕◌, ◌⊖◌, ◌⊗◌, neg, invert, from_bytes_wide, to_bytes,
    from_canonical_bytes, scalar_eq, capacity,
  }
  pub Point : Type 0
  pub identity : Point
  pub generator : Point
  infixl 65 ◌⊞◌
  infixr 70 ◌•◌
  -- `mul_scalar`, the scalar first.
  pub ◌•◌ : Scalar → Point → Point
  -- `CurvePoint::add`
  pub ◌⊞◌ : Point → Point → Point
  pub compressed_size : ℕ
  pub compress : Point → List ℕ
  pub decompress : List ℕ → Option Point
  pub point_eq : Discrete Point
  pub point_add_assoc : (p q r : Point) → p ⊞ q ⊞ r ≡ p ⊞ (q ⊞ r)
  pub point_add_comm : (p q : Point) → p ⊞ q ≡ q ⊞ p
  pub point_add-identity : (p : Point) → p ⊞ identity ≡ p
  pub add-smul : (a b : Scalar) (p : Point) → (a ⊕ b) • p ≡ a • p ⊞ b • p
  pub mul-smul : (a b : Scalar) (p : Point) → (a ⊗ b) • p ≡ a • b • p
  pub smul-add : (a : Scalar) (p q : Point) → a • (p ⊞ q) ≡ a • p ⊞ a • q
  pub zero-smul : (p : Point) → zero • p ≡ identity
  pub one-smul : (p : Point) → one • p ≡ p
  -- The generator has the field's order.
  pub smul_generator_injective : (a b : Scalar) → a • generator ≡ b • generator → a ≡ b
  -- The encoding is canonical and of fixed size.
  pub length-compress : (p : Point) → length (compress p) ≡ compressed_size
  pub decompress-compress : (p : Point) → decompress (compress p) ≡ some p
  pub compress_of_decompress : (bs : List ℕ) (p : Point) → decompress bs ≡ some p → compress p ≡ bs
