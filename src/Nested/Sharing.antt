-- ===== src/Nested/Sharing.antt =====
-- src/nested.rs: inner shares, split pieces and their combination as values of polynomials.
use frostito.Prelude.{
  ℕ, zero, suc, ◌-◌, ◌<◌, ◌≡◌, refl, sym, ap, ◌∙◌, true, false, List, [], ◌∷◌, All, map, length,
  length-map, ◌==◌, if◌then◌else◌, decide, decide-true, arith,
}
use frostito.Error.{ok}
use frostito.Curve.{ScalarField, Curve}
use frostito.Curve.Ring.{ring, zero-sum, one-prod}
use frostito.Polynomial.{horner, power_loop}
use frostito.Polynomial.Laws.{add_coeffs, horner-add_coeffs, horner-scale, power_loop-horner}
use frostito.Commitment.{DealerCommitment, share_commitment, from_polynomial, verify_subshare}
use frostito.Commitment.Feldman.{verify_subshare-horner}
use frostito.Dkg.{range}
use frostito.Reshare.{draw}
use frostito.Reshare.Dealing.{length-draw}
use frostito.Nested.{
  eval_at, split_pieces, add_pieces, combine_shares, split_evaluation_for_inner, verify_split_piece,
}

module _ (s : ScalarField) where
  infixl 65 ◌⊕◌
  infixl 70 ◌⊗◌
  open s use {Scalar, zero as zero_scalar, one, from_u32, ◌⊕◌, ◌⊗◌}

  power_loop_value :
      (x : Scalar) (ps : List Scalar) → power_loop s x ps one zero_scalar ≡ horner s x ps
  power_loop_value x ps =
      power_loop-horner s x ps one zero_scalar ∙ zero-sum s _ ∙ one-prod s (horner s x ps)

  -- The polynomial in the holder's index that stands for the outer value at x: the sum of x to the
  -- j times the j-th coefficient's sharing polynomial.
  unfoldable pub shared_value : Scalar → List (List Scalar) → List Scalar
  shared_value x [] = []
  shared_value x (p ∷ ps) = add_coeffs s p (map (λ a. x ⊗ a) (shared_value x ps))

  unfoldable pub sum_coeffs : List Scalar → List (List Scalar) → List Scalar
  sum_coeffs total [] = total
  sum_coeffs total (p ∷ ps) = sum_coeffs (add_coeffs s total p) ps

  shares_horner :
      (x k : Scalar) (ps : List (List Scalar))
      → horner s x (map (λ p. horner s k p) ps) ≡ horner s k (shared_value x ps)
  unfolding shared_value horner
  shares_horner x k [] = refl
  shares_horner x k (p ∷ ps) =
      ap (λ v. v ⊗ x ⊕ horner s k p) (shares_horner x k ps)
      ∙ reorder (horner s k (shared_value x ps)) (horner s k p)
      ∙ ap (λ v. horner s k p ⊕ v) (sym (horner-scale s k x (shared_value x ps)))
      ∙ sym (horner-add_coeffs s k p (map (λ a. x ⊗ a) (shared_value x ps)))
    where
      reorder : (u v : Scalar) → u ⊗ x ⊕ v ≡ v ⊕ x ⊗ u
      reorder u v = simp ring

  pieces_horner :
      (k : Scalar) (total : List Scalar) (cs : List (List Scalar)) (i : ℕ)
      → add_pieces s (horner s k total) (map (λ p. (i, horner s k p)) cs)
        ≡ horner s k (sum_coeffs total cs)
  unfolding add_pieces sum_coeffs
  pieces_horner k total [] i = refl
  pieces_horner k total (p ∷ cs) i =
      ap (λ v. add_pieces s v (map (λ q. (i, horner s k q)) cs))
        (sym (horner-add_coeffs s k total p))
      ∙ pieces_horner k (add_coeffs s total p) cs i

  -- Where the holder's coefficient shares are the values of polynomials at the holder's index, and
  -- the outer pieces too, the combined share is the value there of one polynomial, which is the same
  -- for all holders, whose value at 0 is the outer polynomial's value at the position plus the values
  -- at 0 of the pieces' polynomials.
  pub combine_shares-horner :
      (holder position : ℕ) (ps cs : List (List Scalar))
      → (combine_shares s
            (record {
              holder_index = holder;
              coefficient_shares = map (λ p. horner s (from_u32 holder) p) ps;
            })
            position
            (map (λ p. (holder, horner s (from_u32 holder) p)) cs)
          ≡ horner s (from_u32 holder) (sum_coeffs (shared_value (from_u32 position) ps) cs))
        × (horner s zero_scalar (sum_coeffs (shared_value (from_u32 position) ps) cs)
            ≡ add_pieces s
                (horner s (from_u32 position) (map (λ p. horner s zero_scalar p) ps))
                (map (λ p. (holder, horner s zero_scalar p)) cs))
  unfolding combine_shares eval_at
  combine_shares-horner holder position ps cs =
      let x = from_u32 position in
      let k = from_u32 holder in
      (
        ap (λ v. add_pieces s v (map (λ p. (holder, horner s k p)) cs))
              (power_loop_value x (map (λ p. horner s k p) ps) ∙ shares_horner x k ps)
            ∙ pieces_horner k (shared_value x ps) cs holder,
        sym (
            ap (λ v. add_pieces s v (map (λ p. (holder, horner s zero_scalar p)) cs))
              (shares_horner x zero_scalar ps)
            ∙ pieces_horner zero_scalar (shared_value x ps) cs holder),
      )

module _ (c : Curve) where
  infixr 70 ◌•◌
  open c use {Scalar, Point, generator, ◌•◌, from_u32, scalars, scalar_eq}

  pieces_verify :
      (commitment : DealerCommitment Point) (coeffs : List Scalar) (from count : ℕ)
      → ((j : ℕ) (v : Scalar)
          → verify_subshare c commitment j v
            ≡ (if j == 0 then false else decide (scalar_eq v (horner scalars (from_u32 j) coeffs))))
      → 0 < from
      → (map (λ p. p.0) (split_pieces scalars coeffs from count) ≡ range from count)
        × All
            (λ p. verify_split_piece c commitment p.0 p.1 ≡ true)
            (split_pieces scalars coeffs from count)
  unfolding split_pieces verify_split_piece
  pieces_verify commitment coeffs from zero check lt = (refl, tt)
  pieces_verify commitment coeffs from (suc count) check lt =
      let (size, rest) = pieces_verify commitment coeffs (suc from) count check (omega arith) in
      let positive : (from == 0) ≡ false = ground arith in
      (
        ap (λ js. from ∷ js) size,
        (
          check from _
              ∙ rw positive
                  (decide-true (scalar_eq _ _) (power_loop_value scalars (from_u32 from) coeffs)),
          rest,
        ),
      )

  -- Splitting never panics: it gives the holders 1 to n one piece each, in this order, every piece
  -- passes its holder's check against the returned commitment, and that is to a polynomial with the
  -- evaluation as its constant term and t coefficients (one for t = 0).
  pub split_evaluation-verifies :
      (evaluation : Scalar) (n t : ℕ) (rng : ℕ → Scalar)
      → (pieces : List (ℕ × Scalar)) × (commitment : DealerCommitment Point)
        × (split_evaluation_for_inner c evaluation n t rng ≡ ok (pieces, commitment))
        × (map (λ p. p.0) pieces ≡ range 1 n)
        × (share_commitment commitment ≡ ok (evaluation • generator))
        × (length commitment.coefficients ≡ suc (t - 1))
        × All (λ p. verify_split_piece c commitment p.0 p.1 ≡ true) pieces
  unfolding split_evaluation_for_inner from_polynomial share_commitment
  split_evaluation-verifies evaluation n t rng =
      let coeffs = evaluation ∷ draw (t - 1) rng in
      let commitment : DealerCommitment Point = record {
        dealer_index = 1;
        coefficients = map (λ k. k • generator) coeffs;
      } in
      let opened_size : length commitment.coefficients ≡ suc (t - 1) =
        ap suc (length-map (λ k. k • generator) (draw (t - 1) rng) ∙ length-draw (t - 1) rng) in
      let (size, all) =
        pieces_verify commitment coeffs 1 n (λ j v. verify_subshare-horner c 1 j coeffs v)
          (omega arith) in
      (split_pieces scalars coeffs 1 n, commitment, refl, size, refl, opened_size, all)
