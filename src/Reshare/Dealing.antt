-- ===== src/Reshare/Dealing.antt =====
-- src/reshare.rs: the sub-shares that a dealer sends to every player.
use frostito.Prelude.{
  ℕ, zero, suc, ◌+◌, ◌<◌, ◌≡◌, refl, ap, ap₂, map, length-map, subst, ◌∙◌, true, false, List, [],
  ◌∷◌, All, length, ◌==◌, arith, Bool-cases, inl, inr,
}
use frostito.Error.{ok, >>=-eq-ok, ok_injective}
use frostito.Curve.{Curve}
use frostito.Polynomial.{horner}
use frostito.Commitment.{
  DealerCommitment, SubShare, share_commitment, new_subshare, from_polynomial, generate_subshare,
  verify_subshare,
}
use frostito.Commitment.Feldman.{generate_subshare-verifies}
use frostito.Dkg.{range}
use frostito.Reshare.{Dealer, draw, new_dealer, dealer_subshare, subshares_from, generate_subshares}

pub length-draw : {S : Type 0} (m : ℕ) (rng : ℕ → S) → length (draw m rng) ≡ m
unfolding draw
length-draw zero rng = refl
length-draw (suc m) rng = ap suc (length-draw m (λ i. rng (suc i)))

module _ (c : Curve) where
  infixr 70 ◌•◌
  open c use {Scalar, Point, from_u32, generator, ◌•◌}

  -- The sub-share is the dealer's, and the player's check against the dealer's commitment accepts it.
  abbrev pub IsDealt : Dealer Scalar Point → SubShare Scalar → Type 0
  IsDealt dealer s =
      (s.dealer_index ≡ dealer.commitment.dealer_index)
      × (verify_subshare c dealer.commitment s.player_index s.value ≡ true)

  commitment_of :
      (i : ℕ) (a : Scalar) (ps : List Scalar) {k : DealerCommitment Point}
      → from_polynomial c i (a ∷ ps) ≡ ok k
      → (share_commitment k ≡ ok (a • generator)) × (length k.coefficients ≡ suc (length ps))
  unfolding from_polynomial share_commitment
  commitment_of i a ps {k} h = elim (Bool-cases (i == 0)) [
    | inl z ↦ cc (rw (from_polynomial, z) at h)
    | inr p ↦
        subst
          (λ m.
            (share_commitment m ≡ ok (a • generator)) × (length m.coefficients ≡ suc (length ps)))
          (ok_injective (rw (from_polynomial, p) at h))
          (refl, ap suc (length-map (λ b. b • generator) ps))
  ]

  generate_total :
      (i j : ℕ) (ps : List Scalar)
      → (i == 0) ≡ false
      → (j == 0) ≡ false
      → (s : SubShare Scalar) × (generate_subshare c.scalars i ps j ≡ ok s)
  unfolding generate_subshare new_subshare
  generate_total i j ps h k = (
    record { dealer_index = i; player_index = j; value = horner c.scalars (from_u32 j) ps },
    rw (k, h) refl,
  )

  dealt :
      (dealer : Dealer Scalar Point) (from count : ℕ)
      → (dealer.index == 0) ≡ false
      → from_polynomial c dealer.index dealer.polynomial ≡ ok dealer.commitment
      → 0 < from
      → (ss : List (SubShare Scalar)) × (subshares_from c dealer from count ≡ ok ss)
        × (map (λ s. s.player_index) ss ≡ range from count)
        × All (IsDealt dealer) ss
  unfolding subshares_from dealer_subshare
  dealt dealer from zero h f p = ([], refl, refl, tt)
  dealt dealer from (suc count) h f p =
      let (s, made) = generate_total dealer.index from dealer.polynomial h (ground arith) in
      let (ss, rest, size, all) = dealt dealer (from + 1) count h f (omega arith) in
      let (named, mine, ok_check) =
        generate_subshare-verifies c dealer.index from dealer.polynomial made f in
      (
        s ∷ ss,
        rw (made, rest) refl,
        ap₂ (λ j js. j ∷ js) mine (size ∙ ap (λ m. range m count) (omega arith)),
        ((named, ap (λ j. verify_subshare c dealer.commitment j s.value) mine ∙ ok_check), all),
      )

  -- A dealer that `new` returns committed to the standing share with `threshold` coefficients, and
  -- deals the players 1 to n one sub-share each, in this order, all of which verify.
  pub generate_subshares-IsDealt :
      (index threshold n : ℕ) (share : Scalar) (rng : ℕ → Scalar) {dealer : Dealer Scalar Point}
      → new_dealer c index share threshold rng ≡ ok dealer
      → (share_commitment dealer.commitment ≡ ok (share • generator))
        × (length dealer.commitment.coefficients ≡ threshold)
        × (ss : List (SubShare Scalar)) × (generate_subshares c dealer n ≡ ok ss)
        × (map (λ s. s.player_index) ss ≡ range 1 n)
        × All (IsDealt dealer) ss
  unfolding new_dealer generate_subshares
  generate_subshares-IsDealt index zero n share rng h = absurd (ground arith)
  generate_subshares-IsDealt index (suc degree) n share rng {dealer} h =
      elim (Bool-cases (index == 0)) [
        | inl z ↦ cc (rw z at h)
        | inr z ↦
            let (k, made, same) =
              >>=-eq-ok (from_polynomial c index (share ∷ draw degree rng)) _ (rw z at h) in
            let opened = commitment_of index share (draw degree rng) made in
            let (ss, dealt_all, named, all) =
              dealt (record { index = index; polynomial = share ∷ draw degree rng; commitment = k })
                1 n z made (omega arith) in
            subst
              (λ d.
                (share_commitment d.commitment ≡ ok (share • generator))
                × (length d.commitment.coefficients ≡ suc degree)
                × (ss : List (SubShare Scalar)) × (subshares_from c d 1 n ≡ ok ss)
                × (map (λ s. s.player_index) ss ≡ range 1 n)
                × All (IsDealt d) ss)
              (ok_injective same)
              (opened.0, opened.1 ∙ ap suc (length-draw degree rng), ss, dealt_all, named, all)
      ]
