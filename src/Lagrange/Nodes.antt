-- ===== src/Lagrange/Nodes.antt =====
-- src/lagrange.rs: the scalars of an index set.
use frostito.Prelude.{
  ℕ, ◌<◌, ◌≡◌, ◌≢◌, sym, ◌∙◌, true, false, List, [], ◌∷◌, map, All, ◌==◌, contains, arith,
}
use frostito.Curve.{ScalarField}
use frostito.Indices.{is_distinct, all_positive}
use frostito.Lagrange.Reference.{AreDistinct}

module _ (s : ScalarField) where
  infixl 65 ◌⊖◌
  infixl 70 ◌⊗◌
  open s use {Scalar, zero as zero_scalar, one, from_u32, ◌⊖◌, ◌⊗◌, invert, scalar_eq, capacity}

  -- Every index is below the field's capacity.
  abbrev pub Fits : List ℕ → Type 0
  Fits = All (λ i. i < capacity)

  pub from_u32-ne-zero : (i : ℕ) → i < capacity → (i == 0) ≡ false → from_u32 i ≢ zero_scalar
  from_u32-ne-zero i h n e =
      let p : i ≡ 0 = s.from_u32_injective i 0 h s.capacity_pos (e ∙ sym s.from_u32_zero) in
      absurd (ground arith)

  from_u32_distinct :
      (i : ℕ) (rest : List ℕ)
      → i < capacity
      → Fits rest
      → contains rest i ≡ false
      → All (λ y. y ≢ from_u32 i) (map from_u32 rest)
  from_u32_distinct i [] h f c = tt
  from_u32_distinct i (j ∷ rest) h f c = (
    (λ e. let p : j ≡ i = s.from_u32_injective j i f.0 h e in absurd (ground arith)),
    from_u32_distinct i rest h f.1 (ground arith),
  )

  -- Distinct indices are distinct scalars.
  pub map-AreDistinct :
      (indices : List ℕ)
      → Fits indices
      → is_distinct indices ≡ true
      → AreDistinct s (map from_u32 indices)
  map-AreDistinct [] f d = tt
  map-AreDistinct (i ∷ rest) f d =
      (from_u32_distinct i rest f.0 f.1 (ground arith), map-AreDistinct rest f.1 (ground arith))

  pub map-ne-zero :
      (indices : List ℕ)
      → Fits indices
      → all_positive indices ≡ true
      → All (λ x. x ≢ zero_scalar) (map from_u32 indices)
  map-ne-zero [] f p = tt
  map-ne-zero (i ∷ rest) f p =
      (from_u32-ne-zero i f.0 (ground arith), map-ne-zero rest f.1 (ground arith))

  -- The nodes of an index set.
  abbrev pub nodes_of : List ℕ → List Scalar
  nodes_of indices = map from_u32 indices
