-- ===== src/Reshare/Aggregator/Stored.antt =====
-- src/reshare.rs: what a complete aggregator has stored, and its two combinations.
use frostito.Prelude.{
  ℕ, suc, ◌^◌, ◌<◌, ◌≡◌, ◌≢◌, refl, sym, ap, subst, ◌∙◌, true, List, [], ◌∷◌, All, map, length,
  find, contains, replicate, length-replicate, ◌==◌, arith, Bool-cases, inl, inr, some,
}
use frostito.Error.{ok}
use frostito.Curve.{Curve}
use frostito.Indices.Counting.{IsSubset, contains_of_length}
use frostito.Polynomial.{horner_points}
use frostito.Lagrange.{compute_lagrange_coefficients}
use frostito.Lagrange.Nodes.{Fits}
use frostito.Lagrange.Coefficients.{reference_coefficients, compute_lagrange-reference}
use frostito.Lagrange.Combination.{combine}
use frostito.Commitment.{DealerCommitment, threshold}
use frostito.Reshare.Aggregator.{
  VerifiedSubShare, Aggregator, is_complete, lagrange, polynomial, polynomial_from,
}
use frostito.Reshare.Aggregator.Invariant.{Inv, Aligned, IsVerified, agreed_length, senders}
use frostito.Reshare.Aggregator.Loops.{Commits, polynomial_loop-combine, horner_points-replicate}

module _ (c : Curve) where
  infixr 70 ◌•◌
  open c use {
    Scalar, Point, zero as zero_scalar, identity, generator, ◌•◌, from_u32, point_eq, scalars,
  }

  -- The stored pair of a sender, found by both searches.
  abbrev pub Stored :
      ℕ → List ℕ → ℕ → List (VerifiedSubShare Scalar) → List (DealerCommitment Point) → ℕ → Type 0
  Stored player set t vs ks d =
      (v : VerifiedSubShare Scalar) × (k : DealerCommitment Point) × (find
          (λ u. u.dealer_index == d) vs
        ≡ some v)
      × (find (λ u. u.dealer_index == d) ks ≡ some k)
      × IsVerified c player set t v k

  pub Stored-of_sender :
      (player : ℕ) (set : List ℕ) (t d : ℕ) (vs : List (VerifiedSubShare Scalar))
      (ks : List (DealerCommitment Point))
      → Aligned c player set t vs ks
      → contains (senders vs) d ≡ true
      → Stored player set t vs ks d
  Stored-of_sender player set t d [] ks h m = cc
  Stored-of_sender player set t d (v ∷ vs) [] h m = absurd h
  Stored-of_sender player set t d (v ∷ vs) (k ∷ ks) h m = elim (Bool-cases (v.dealer_index == d)) [
    | inl e ↦ (v, k, rw e, rw (ap (λ i. i == d) (sym h.0.paired) ∙ e), h.0)
    | inr n ↦
        let (u, l, fu, fl, x) = Stored-of_sender player set t d vs ks h.1 (rw n at m) in
        (u, l, rw n fu, rw (ap (λ i. i == d) (sym h.0.paired) ∙ n) fl, x)
  ]

  senders-IsSubset :
      (player : ℕ) (set : List ℕ) (t : ℕ) (vs : List (VerifiedSubShare Scalar))
      (ks : List (DealerCommitment Point))
      → Aligned c player set t vs ks
      → IsSubset (senders vs) set
  senders-IsSubset player set t [] ks h = tt
  senders-IsSubset player set t (v ∷ vs) [] h = absurd h
  senders-IsSubset player set t (v ∷ vs) (k ∷ ks) h =
      (h.0.agreed, senders-IsSubset player set t vs ks h.1)

  length-senders : (vs : List (VerifiedSubShare Scalar)) → length (senders vs) ≡ length vs
  length-senders [] = refl
  length-senders (v ∷ vs) = ap suc (length-senders vs)

  pub complete-length :
      (a : Aggregator Scalar Point)
      → is_complete a ≡ true
      → length a.subshares ≡ length a.dealer_set
  unfolding is_complete
  complete-length a h = ground arith

  -- Once complete, every dealer of the set is stored.
  pub all-Stored :
      (a : Aggregator Scalar Point)
      → Inv c a
      → is_complete a ≡ true
      → (d : ℕ) → contains a.dealer_set d ≡ true
      → Stored a.player_index a.dealer_set (agreed_length a.commitments) a.subshares a.commitments d
  all-Stored a inv done d m =
      Stored-of_sender a.player_index a.dealer_set (agreed_length a.commitments) d a.subshares
        a.commitments inv.aligned
        (contains_of_length (senders a.subshares) a.dealer_set d inv.senders_distinct
          (senders-IsSubset _ _ _ a.subshares a.commitments inv.aligned)
          (length-senders a.subshares ∙ complete-length a done) m)

  pub lagrange_total :
      (a : Aggregator Scalar Point)
      → Inv c a
      → Fits scalars a.dealer_set
      → is_complete a ≡ true
      → (ls : List Scalar) × (lagrange c a ≡ ok ls)
        × (compute_lagrange_coefficients scalars a.dealer_set ≡ ok ls)
  unfolding lagrange
  lagrange_total a inv f done =
      let e =
        compute_lagrange-reference scalars a.dealer_set inv.set.nonempty f inv.set.positive
          inv.set.distinct in
      (reference_coefficients scalars a.dealer_set, rw done e, e)

  pub first_of :
      (player : ℕ) (set : List ℕ) (t : ℕ) (vs : List (VerifiedSubShare Scalar))
      (ks : List (DealerCommitment Point))
      → Aligned c player set t vs ks
      → length vs ≡ length set
      → set ≢ []
      → agreed_length ks < 2 ^ 32
      → (first : DealerCommitment Point) × (rest : List (DealerCommitment Point)) × (ks
          ≡ first ∷ rest)
        × (threshold first ≡ agreed_length ks)
  unfolding threshold
  first_of player [] t vs ks h l n small = absurd (n refl)
  first_of player (d ∷ ds) t [] ks h l n small = absurd (omega arith)
  first_of player (d ∷ ds) t (v ∷ vs) [] h l n small = absurd h
  first_of player (d ∷ ds) t (v ∷ vs) (k ∷ ks) h l n small = (k, ks, refl, omega arith)

  -- The polynomial in the exponent, for any values that the stored commitments commit to at x.
  pub polynomial_total :
      (a : Aggregator Scalar Point) (x : Scalar) (val : ℕ → Scalar) (ls : List Scalar)
      → Inv c a
      → is_complete a ≡ true
      → lagrange c a ≡ ok ls
      → All (Commits c a (agreed_length a.commitments) x val) a.dealer_set
      → (cs : List Point) × (polynomial c a ≡ ok (record { coefficients = cs }))
        × (length cs ≡ agreed_length a.commitments)
        × (horner_points c x cs ≡ combine scalars zero_scalar ls (map val a.dealer_set) • generator)
  unfolding polynomial
  polynomial_total a x val ls inv done e h =
      let t = agreed_length a.commitments in
      let (first, rest, shape, sized) =
        first_of a.player_index a.dealer_set t a.subshares a.commitments inv.aligned
          (complete-length a done) inv.set.nonempty inv.small in
      let (cs, run, size, value) =
        polynomial_loop-combine c a t x val a.dealer_set ls zero_scalar (replicate t identity) h
          (length-replicate t identity) (horner_points-replicate c x t) in
      (
        cs,
        rw e (
            subst (λ ks. polynomial_from c a ls ks ≡ ok (record { coefficients = cs })) (sym shape)
              (rw (sized, run) refl)),
        size,
        value,
      )
