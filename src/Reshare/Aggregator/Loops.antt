-- ===== src/Reshare/Aggregator/Loops.antt =====
-- src/reshare.rs: the two accumulation loops of `Aggregator`.
use frostito.Prelude.{
  ℕ, zero, suc, ◌≡◌, refl, sym, ap, ap₂, ◌∙◌, List, [], ◌∷◌, All, map, length, replicate, arith,
}
use frostito.Error.{ok}
use frostito.Curve.{Curve}
use frostito.Curve.Ring.{group}
use frostito.Polynomial.{horner_points}
use frostito.Lagrange.Combination.{combine}
use frostito.Commitment.{DealerCommitment}
use frostito.Reshare.Aggregator.{
  VerifiedSubShare, Aggregator, subshare_of, commitment_of, aggregate_loop, add_scaled,
  polynomial_loop,
}

module _ (c : Curve) where
  infixl 65 ◌⊕◌ ◌⊞◌
  infixl 70 ◌⊗◌
  infixr 70 ◌•◌
  open c use {Scalar, Point, zero as zero_scalar, ◌⊕◌, ◌⊗◌, identity, generator, ◌⊞◌, ◌•◌, scalars}

  -- Dealer d's stored commitment has `t` points, and commits to `val d` at x.
  abbrev pub Commits : Aggregator Scalar Point → ℕ → Scalar → (ℕ → Scalar) → ℕ → Type 0
  Commits a t x val d =
      (k : DealerCommitment Point) × (commitment_of a d ≡ ok k)
      × (length k.coefficients ≡ t)
      × (horner_points c x k.coefficients ≡ val d • generator)

  -- Dealer d's stored sub-share is `val d`.
  abbrev pub Holds : Aggregator Scalar Point → (ℕ → Scalar) → ℕ → Type 0
  Holds a val d = (v : VerifiedSubShare Scalar) × (subshare_of a d ≡ ok v) × (v.value ≡ val d)

  pub aggregate_loop-combine :
      (a : Aggregator Scalar Point) (val : ℕ → Scalar) (ds : List ℕ) (ls : List Scalar)
      (acc : Scalar)
      → All (Holds a val) ds
      → aggregate_loop c a ds ls acc ≡ ok (combine scalars acc ls (map val ds))
  unfolding aggregate_loop combine
  aggregate_loop-combine a val [] [] acc h = refl
  aggregate_loop-combine a val [] (l ∷ ls) acc h = refl
  aggregate_loop-combine a val (d ∷ ds) [] acc h = refl
  aggregate_loop-combine a val (d ∷ ds) (l ∷ ls) acc ((v, found, e), rest) =
      rw (found, e) (aggregate_loop-combine a val ds ls (acc ⊕ l ⊗ val d) rest)

  add_scaled-horner_points :
      (l x : Scalar) (qs ps : List Point)
      → length ps ≡ length qs
      → (rs : List Point) × (add_scaled c l qs ps ≡ ok rs)
        × (length rs ≡ length qs)
        × (horner_points c x rs ≡ horner_points c x qs ⊞ l • horner_points c x ps)
  unfolding add_scaled horner_points
  add_scaled-horner_points l x [] [] h = ([], refl, refl, simp group)
  add_scaled-horner_points l x (q ∷ qs) [] h = absurd (omega arith)
  add_scaled-horner_points l x [] (p ∷ ps) h = absurd (omega arith)
  add_scaled-horner_points l x (q ∷ qs) (p ∷ ps) h =
      let (rs, e, size, value) = add_scaled-horner_points l x qs ps (omega arith) in
      ((q ⊞ l • p) ∷ rs, rw e, omega arith, ap (λ v. x • v ⊞ (q ⊞ l • p)) value ∙ simp group)

  pub polynomial_loop-combine :
      (a : Aggregator Scalar Point) (t : ℕ) (x : Scalar) (val : ℕ → Scalar) (ds : List ℕ)
      (ls : List Scalar) (acc : Scalar) (cs : List Point)
      → All (Commits a t x val) ds
      → length cs ≡ t
      → horner_points c x cs ≡ acc • generator
      → (rs : List Point) × (polynomial_loop c a ds ls cs ≡ ok rs)
        × (length rs ≡ t)
        × (horner_points c x rs ≡ combine scalars acc ls (map val ds) • generator)
  unfolding polynomial_loop combine
  polynomial_loop-combine a t x val [] [] acc cs h size e = (cs, refl, size, e)
  polynomial_loop-combine a t x val [] (l ∷ ls) acc cs h size e = (cs, refl, size, e)
  polynomial_loop-combine a t x val (d ∷ ds) [] acc cs h size e = (cs, refl, size, e)
  polynomial_loop-combine a t x val (d ∷ ds) (l ∷ ls) acc cs ((k, found, sized, commits), rest) size
        e =
      let (next, step, length_next, value) =
        add_scaled-horner_points l x cs k.coefficients (sized ∙ sym size) in
      let (rs, run, length_rs, result) =
        polynomial_loop-combine a t x val ds ls (acc ⊕ l ⊗ val d) next rest (length_next ∙ size)
          (value ∙ ap₂ (λ p q. p ⊞ l • q) e commits ∙ gather acc l (val d)) in
      (rs, rw (found, step) run, length_rs, result)
    where
      gather : (u m v : Scalar) → u • generator ⊞ m • v • generator ≡ (u ⊕ m ⊗ v) • generator
      gather u m v = simp group

  pub horner_points-replicate :
      (x : Scalar) (n : ℕ) → horner_points c x (replicate n identity) ≡ zero_scalar • generator
  unfolding horner_points
  horner_points-replicate x zero = sym (c.zero-smul generator)
  horner_points-replicate x (suc n) =
      ap (λ v. x • v ⊞ identity) (horner_points-replicate x n) ∙ simp group
