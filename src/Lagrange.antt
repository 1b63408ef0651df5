-- ===== src/Lagrange.antt =====
-- src/lagrange.rs: the Lagrange coefficients at 0 of a set of share indices, by the common
-- denominator technique with one inversion. Loops over positions are recursions on the lists that
-- the positions run over.
pub mod Reference
pub mod Passes
pub mod Nodes
pub mod Coefficients
pub mod Unity
pub mod Interpolation
pub mod Combination
use frostito.Prelude.{
  ℕ, zero, suc, ◌≡◌, Bool, true, false, List, [], ◌∷◌, map, ◌==◌, if◌then◌else◌, decide,
}
use frostito.Error.{Result, ok, err, panic, ◌>>=◌, ◌>>◌, invalid_index, empty_contributions}
use frostito.Curve.{ScalarField}
use frostito.Indices.{sort, scan_duplicates}

-- `for &idx in indices { if idx == 0 { .. } }`
unfoldable pub check_positive : List ℕ → Result (Unit {0})
check_positive [] = ok tt
check_positive (idx ∷ rest) = if idx == 0 then err invalid_index else check_positive rest

module _ (s : ScalarField) where
  infixl 65 ◌⊖◌
  infixl 70 ◌⊗◌
  open s use {Scalar, zero as zero_scalar, one, from_u32, ◌⊖◌, ◌⊗◌, invert, scalar_eq}

  -- ξ: `scalars.iter().fold(S::one(), |acc, x| acc.mul(x))`
  unfoldable pub fold_product : Scalar → List Scalar → Scalar
  fold_product acc [] = acc
  fold_product acc (x ∷ xs) = fold_product (acc ⊗ x) xs

  -- The inner loop for d_i: `i` and `x` are the outer position and scalar, `j` the inner position.
  unfoldable pub d_loop : ℕ → Scalar → ℕ → List Scalar → Scalar → Scalar
  d_loop i x j [] d = d
  d_loop i x j (y ∷ ys) d = d_loop i x (suc j) ys (if i == j then d else d ⊗ (y ⊖ x))

  -- The outer loop, from position `i` on.
  unfoldable pub d_values_from : List Scalar → ℕ → List Scalar → List Scalar
  unfolding d_loop
  d_values_from scalars i [] = []
  d_values_from scalars i (x ∷ xs) = d_loop i x 0 scalars x ∷ d_values_from scalars (suc i) xs

  -- The forward pass: `rho[i]` is the product of the earlier `d_values`.
  unfoldable pub forward : Scalar → List Scalar → List Scalar
  forward acc [] = []
  forward acc (d ∷ ds) = acc ∷ forward (acc ⊗ d) ds

  -- The backward pass, from the last position to the first, with the final `suffix`.
  unfoldable pub backward : List Scalar → List Scalar → List Scalar × Scalar
  backward (r ∷ rs) (d ∷ ds) = let (rho, suffix) = backward rs ds in (r ⊗ suffix ∷ rho, suffix ⊗ d)
  backward _ _ = ([], one)

  -- The part after the checks. The `debug_assert!` on `d_bar` is a panic of debug builds.
  unfoldable pub common_denominator : List Scalar → Result (List Scalar)
  unfolding fold_product d_values_from forward backward
  common_denominator scalars =
      let xi = fold_product one scalars in
      let d_values = d_values_from scalars 0 scalars in
      let (rho, d_bar) = backward (forward one d_values) d_values in
      let delta = xi ⊗ invert d_bar in
      if decide (scalar_eq d_bar zero_scalar) then panic else ok (map (λ r. delta ⊗ r) rho)

  -- The special case of one index, and the general one.
  unfoldable pub coefficients_of : List ℕ → Result (List Scalar)
  coefficients_of (i ∷ []) = ok (one ∷ [])
  coefficients_of indices = common_denominator (map from_u32 indices)

  unfoldable pub compute_lagrange_coefficients : List ℕ → Result (List Scalar)
  unfolding check_positive sort scan_duplicates coefficients_of
  compute_lagrange_coefficients [] = err empty_contributions
  compute_lagrange_coefficients (i ∷ rest) = do
    check_positive (i ∷ rest)
    scan_duplicates (sort (i ∷ rest))
    coefficients_of (i ∷ rest)
