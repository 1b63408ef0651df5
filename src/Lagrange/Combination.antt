-- ===== src/Lagrange/Combination.antt =====
-- src/lagrange.rs: combining values at the indices with the computed coefficients.
use frostito.Prelude.{
  ℕ, ◌≤◌, ◌≡◌, refl, sym, ap, ap₂, ◌∙◌, List, [], ◌∷◌, map, length, length-map, arith, inl, inr,
}
use frostito.Error.{ok, ok_injective}
use frostito.Curve.{ScalarField}
use frostito.Curve.Ring.{zero-sum}
use frostito.Polynomial.{horner}
use frostito.Lagrange.{compute_lagrange_coefficients}
use frostito.Lagrange.Reference.{weight}
use frostito.Lagrange.Nodes.{Fits, nodes_of, map-AreDistinct}
use frostito.Lagrange.Coefficients.{reference_coefficients, compute_lagrange-Outcome}
use frostito.Lagrange.Unity.{weighted_sum}
use frostito.Lagrange.Interpolation.{interpolation}

module _ (s : ScalarField) where
  infixl 65 ◌⊕◌
  infixl 70 ◌⊗◌
  open s use {Scalar, zero, from_u32, ◌⊕◌, ◌⊗◌}

  -- The accumulating sum of coefficient times value.
  unfoldable pub combine : Scalar → List Scalar → List Scalar → Scalar
  combine acc (l ∷ ls) (v ∷ vs) = combine (acc ⊕ l ⊗ v) ls vs
  combine acc _ _ = acc

  combine-weighted_sum :
      (nodes xs : List Scalar) (v : Scalar → Scalar) (acc : Scalar)
      → combine acc (map (λ x. weight s x nodes) xs) (map v xs) ≡ acc ⊕ weighted_sum s nodes v xs
  unfolding combine weighted_sum
  combine-weighted_sum nodes [] v acc = sym (s.add-zero acc)
  combine-weighted_sum nodes (x ∷ xs) v acc =
      combine-weighted_sum nodes xs v (acc ⊕ weight s x nodes ⊗ v x) ∙ s.add_assoc acc _ _

  map_nodes :
      (f : Scalar → Scalar) (indices : List ℕ)
      → map (λ i. f (from_u32 i)) indices ≡ map f (nodes_of s indices)
  map_nodes f [] = refl
  map_nodes f (i ∷ rest) = ap (λ t. f (from_u32 i) ∷ t) (map_nodes f rest)

  -- Whenever the code returns coefficients for indices below the capacity, combining them with a
  -- polynomial's values at the indices gives the polynomial's value at 0, for every polynomial with
  -- at most as many coefficients as there are indices.
  pub combine-compute_lagrange :
      (indices : List ℕ) (ps ls : List Scalar)
      → Fits s indices
      → length ps ≤ length indices
      → compute_lagrange_coefficients s indices ≡ ok ls
      → combine zero ls (map (λ i. horner s (from_u32 i) ps) indices) ≡ horner s zero ps
  unfolding reference_coefficients
  combine-compute_lagrange indices ps ls f h e = elim (compute_lagrange-Outcome s indices f) [
    | inl (_, r) ↦ cc
    | inr (inl (_, r)) ↦ cc
    | inr (inr (inl (d, _, _, _, r))) ↦ cc
    | inr (inr (inr (n, p, d, r))) ↦
        ap₂ (λ l v. combine zero l v) (ok_injective (sym e ∙ r))
          (map_nodes (λ x. horner s x ps) indices)
        ∙ combine-weighted_sum (nodes_of s indices) (nodes_of s indices) (λ x. horner s x ps) zero
        ∙ zero-sum s _
        ∙ interpolation s ps (nodes_of s indices) (omega (arith, length-map from_u32 indices))
            (map-AreDistinct s indices f d)
  ]
