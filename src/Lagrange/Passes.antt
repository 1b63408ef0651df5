-- ===== src/Lagrange/Passes.antt =====
-- The loops of the coefficient computation: what the position tests select, and what the forward
-- and the backward pass leave in each cell.
use frostito.Prelude.{
  ℕ, zero, suc, ◌+◌, ◌<◌, ◌≡◌, ◌≢◌, refl, sym, ap, ap₂, subst, ◌∙◌, Bool, true, false, List, [],
  ◌∷◌, map, All, get_elem?, some, ◌==◌, decide, decide-true, decide-false, if◌then◌else◌, arith,
}
use frostito.Curve.{ScalarField}
use frostito.Curve.Ring.{products, one-prod}
use frostito.Lagrange.{fold_product, d_loop, d_values_from, forward, backward}
use frostito.Lagrange.Reference.{others, skip, product, denominator, AreDistinct}

module _ (s : ScalarField) where
  infixl 65 ◌⊖◌
  infixl 70 ◌⊗◌
  open s use {Scalar, one, ◌⊖◌, ◌⊗◌, scalar_eq}

  pub fold_product-product :
      (acc : Scalar) (xs : List Scalar) → fold_product s acc xs ≡ acc ⊗ product s xs
  unfolding fold_product product
  fold_product-product acc [] = sym (s.mul-one acc)
  fold_product-product acc (x ∷ xs) =
      fold_product-product (acc ⊗ x) xs ∙ s.mul_assoc acc x (product s xs)

  -- Each cell times its own `d` is `t`.
  abbrev pub Covers : Scalar → List Scalar → List Scalar → Type 0
  Covers t [] [] = Unit
  Covers t (r ∷ rs) (d ∷ ds) = (r ⊗ d ≡ t) × Covers t rs ds
  Covers t _ _ = ⊥

  -- After both passes the suffix is the product of all, and each cell is the product of the others.
  pub backward-forward :
      (acc : Scalar) (ds : List Scalar)
      → ((backward s (forward s acc ds) ds).1 ≡ product s ds)
        × Covers (acc ⊗ product s ds) (backward s (forward s acc ds) ds).0 ds
  unfolding backward forward product
  backward-forward acc [] = (refl, tt)
  backward-forward acc (d ∷ ds) =
      let (total, cells) = backward-forward (acc ⊗ d) ds in
      (
        ap (λ v. v ⊗ d) total ∙ s.mul_comm (product s ds) d,
        (
          ap (λ v. acc ⊗ v ⊗ d) total ∙ simp products,
          subst_covers (s.mul_assoc acc d (product s ds)) _ _ cells,
        ),
      )
    where
      subst_covers :
          {t u : Scalar} → t ≡ u → (rs es : List Scalar) → Covers t rs es → Covers u rs es
      subst_covers e [] [] h = tt
      subst_covers e (r ∷ rs) (f ∷ fs) h = (h.0 ∙ e, subst_covers e rs fs h.1)
      subst_covers e [] (f ∷ fs) h = h
      subst_covers e (r ∷ rs) [] h = h

  -- The position test `i == j` says whether the node is x.
  abbrev Marks : ℕ → Scalar → ℕ → List Scalar → Type 0
  Marks i x j [] = Unit
  Marks i x j (y ∷ ys) = ((i == j) ≡ decide (scalar_eq y x)) × Marks i x (suc j) ys

  Marks-after :
      (i j : ℕ) (x : Scalar) (ys : List Scalar) → i < j → All (λ y. y ≢ x) ys → Marks i x j ys
  Marks-after i j x [] h n = tt
  Marks-after i j x (y ∷ ys) h n = (
    differ ∙ sym (decide-false (scalar_eq y x) n.0),
    Marks-after i (suc j) x ys (omega arith) n.1,
  )
    where
      differ : (i == j) ≡ false
      differ = ground arith

  All_at :
      (x : Scalar) (k : ℕ) (ys : List Scalar) (P : Scalar → Type 0)
      → get_elem? ys k ≡ some x
      → All P ys
      → P x
  All_at x k [] P e h = cc
  All_at x zero (y ∷ ys) P e h = ground (arith, h.0)
  All_at x (suc k) (y ∷ ys) P e h = All_at x k ys P e h.1

  Marks-at :
      (k j : ℕ) (x : Scalar) (ys : List Scalar)
      → get_elem? ys k ≡ some x
      → AreDistinct s ys
      → Marks (j + k) x j ys
  Marks-at k j x [] e d = tt
  Marks-at zero j x (y ∷ ys) e d =
      let same : y ≡ x = ground arith in
      (
        here ∙ sym (decide-true (scalar_eq y x) same),
        Marks-after (j + zero) (suc j) x ys (omega arith)
            (subst (λ z. All (λ y'. y' ≢ z) ys) same d.0),
      )
    where
      here : (j + zero == j) ≡ true
      here = ground arith
  Marks-at (suc k) j x (y ∷ ys) e d = (
    there ∙ sym (decide-false (scalar_eq y x) (λ p. All_at x k ys (λ z. z ≢ y) e d.0 (sym p))),
    subst (λ i. Marks i x (suc j) ys) (omega arith) (Marks-at k (suc j) x ys e d.1),
  )
    where
      there : (j + suc k == j) ≡ false
      there = ground arith

  select :
      (b : Bool) (d v w : Scalar) → (if b then d else d ⊗ v) ⊗ w ≡ d ⊗ ((if b then one else v) ⊗ w)
  select true d v w = ap (λ z. d ⊗ z) (sym (one-prod s w))
  select false d v w = s.mul_assoc d v w

  d_loop-denominator :
      (i j : ℕ) (x d : Scalar) (ys : List Scalar)
      → Marks i x j ys
      → d_loop s i x j ys d ≡ d ⊗ denominator s x ys
  unfolding d_loop denominator others skip
  d_loop-denominator i j x d [] m = sym (s.mul-one d)
  d_loop-denominator i j x d (y ∷ ys) m =
      d_loop-denominator i (suc j) x (if i == j then d else d ⊗ (y ⊖ x)) ys m.1
      ∙ ap (λ b. (if b then d else d ⊗ (y ⊖ x)) ⊗ denominator s x ys) m.0
      ∙ select (decide (scalar_eq y x)) d (y ⊖ x) (denominator s x ys)

  -- The outer loop computes x times its denominator for each node x.
  pub d_values-denominator :
      (all xs : List Scalar) (i : ℕ)
      → AreDistinct s all
      → ((m : ℕ) → get_elem? all (i + m) ≡ get_elem? xs m)
      → d_values_from s all i xs ≡ map (λ x. x ⊗ denominator s x all) xs
  unfolding d_values_from
  d_values-denominator all [] i d h = refl
  d_values-denominator all (x ∷ xs) i d h =
      ap₂ (λ v vs. v ∷ vs)
        (d_loop-denominator i 0 x x all (
          subst (λ k. Marks k x 0 all) (omega arith)
            (Marks-at i 0 x all (subst (λ k. get_elem? all k ≡ some x) (omega arith) (h 0)) d)))
        (d_values-denominator all xs (suc i) d
          (λ m. subst (λ k. get_elem? all k ≡ get_elem? xs m) (omega arith) (h (suc m))))
