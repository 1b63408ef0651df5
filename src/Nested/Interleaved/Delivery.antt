-- ===== src/Nested/Interleaved/Delivery.antt =====
-- src/nested.rs, `interleaved_dkg`: one holder receives the sub-shares of one run.
use frostito.Prelude.{
  ℕ, zero, suc, ◌+◌, ◌-◌, ◌<◌, ◌≤◌, ◌≡◌, refl, sym, ap, ap₂, ◌∙◌, true, false, List, [], ◌∷◌, ◌++◌,
  map, length, length-map, append_assoc, append-nil, get_elem?, some, ◌==◌, ==_refl, arith,
  Bool-cases, inl, inr,
}
use frostito.Error.{Result, ok, ◌>>=◌}
use frostito.Curve.{Curve}
use frostito.Polynomial.{horner}
use frostito.Commitment.{DealerCommitment, generate_subshare, new_subshare}
use frostito.Reshare.Aggregator.{VerifiedSubShare, has_dealer}
use frostito.Dkg.{DkgAggregator, range, is_complete, require_complete, finalize}
use frostito.Dkg.Ranges.{get_elem?-range, contains-range}
use frostito.Nested.Interleaved.{deliver}
use frostito.Nested.Interleaved.Runs.{
  poly, dealer_of, sum_polys, entry, sum_values-sum_polys, add_subshare-entry,
}

pub map-map :
    {A B C : Type 0} (g : B → C) (f : A → B) (xs : List A)
    → map g (map f xs) ≡ map (λ x. g (f x)) xs
map-map g f [] = refl
map-map g f (x ∷ xs) = ap (◌∷◌ (g (f x))) (map-map g f xs)

module _ {S : Type 0} where
  has_dealer-append_one :
      (d from : ℕ) (seen : List (VerifiedSubShare S)) (v : S)
      → has_dealer d seen ≡ false
      → (from == d) ≡ false
      → has_dealer d (seen ++ (record { dealer_index = from; value = v } ∷ [])) ≡ false
  has_dealer-append_one d from [] v h n = rw n refl
  has_dealer-append_one d from (s ∷ seen) v h n = elim (Bool-cases (s.dealer_index == d)) [
    | inl e ↦ let clash : true ≡ false = rw e at h in cc
    | inr e ↦ rw e (has_dealer-append_one d from seen v (rw e at h) n)
  ]

module _ (c : Curve) (t : ℕ) (rng : ℕ → ℕ → c.Scalar) (player n : ℕ) where
  infixl 65 ◌⊕◌ ◌⊞◌
  infixr 70 ◌•◌
  open c use {
    Scalar, Point, scalars, zero as zero_scalar, from_u32, ◌⊕◌, identity, generator, ◌⊞◌, ◌•◌,
  }

  -- The holder's aggregator, with what it has received.
  abbrev holding : List (VerifiedSubShare Scalar) → List Point → DkgAggregator Scalar Point
  holding seen keys = record {
    player_index = player;
    dealer_set = range 1 n;
    subshares = seen;
    constant_commitments = keys;
  }

  abbrev commitments : List (DealerCommitment Point)
  commitments = map (λ dealer. dealer.commitment) (map (dealer_of c t rng) (range 1 n))

  commitment_at :
      (d : ℕ)
      → 0 < d
      → d ≤ n
      → get_elem? commitments (d - 1) ≡ some (dealer_of c t rng d).commitment
  commitment_at zero p h = absurd (omega arith)
  commitment_at (suc d) p h =
      let below : suc d - 1 ≡ d = omega arith in
      ap (λ i. get_elem? commitments i) below
      ∙ ap (λ l. get_elem? l d)
          (map-map (λ dealer. dealer.commitment) (dealer_of c t rng) (range 1 n))
      ∙ get_elem?-range (λ k. (dealer_of c t rng k).commitment) 1 n d (omega arith)
      ∙ ap (λ k. some (dealer_of c t rng k).commitment) (omega arith)

  generate_subshare-dealer_of :
      (k : ℕ)
      → (k == 0) ≡ false
      → (player == 0) ≡ false
      → generate_subshare scalars k (poly c t rng k) player
        ≡ ok (record {
          dealer_index = k;
          player_index = player;
          value = horner scalars (from_u32 player) (poly c t rng k);
        })
  unfolding generate_subshare new_subshare
  generate_subshare-dealer_of k a b = rw (a, b) refl

  deliver-range :
      (from count : ℕ) (seen : List (VerifiedSubShare Scalar)) (keys : List Point)
      → (player == 0) ≡ false
      → 0 < from
      → from + count ≡ suc n
      → ((d : ℕ) → from ≤ d → has_dealer d seen ≡ false)
      → deliver c player commitments
          (holding seen keys)
          (map (dealer_of c t rng) (range from count))
        ≡ ok (
            holding
              (seen ++ map (entry c t rng player) (range from count))
              (keys ++ map (λ k. rng k 0 • generator) (range from count)))
  unfolding deliver
  deliver-range from zero seen keys p h e fresh =
      ap₂ (λ s k. ok (holding s k)) (sym (append-nil seen)) (sym (append-nil keys))
  deliver-range from (suc count) seen keys p h e fresh =
      let positive : (from == 0) ≡ false = ground arith in
      let later : (d : ℕ) → suc from ≤ d → (from == d) ≡ false = (λ d l. ground arith) in
      rw
        (
          generate_subshare-dealer_of from positive p,
          commitment_at from h (omega arith),
          add_subshare-entry c t rng player from (holding seen keys) p positive refl
              (contains-range 1 n from (omega arith) (omega arith)) (fresh from (omega arith)),
          deliver-range (suc from) count (seen ++ (entry c t rng player from ∷ []))
              (keys ++ (rng from 0 • generator ∷ [])) p (omega arith) (omega arith)
              (λ d l. has_dealer-append_one d from seen _ (fresh d (omega arith)) (later d l)),
        )
        (ap₂ (λ s k. ok (holding s k)) (append_assoc seen _ _) (append_assoc keys _ _))

  -- What the holder gets out of the run, and what is done with it.
  pub finalize-deliver :
      {B : Type 0} (next : Scalar → Result B)
      → (player == 0) ≡ false
      → ((deliver c player commitments (holding [] []) (map (dealer_of c t rng) (range 1 n))
            >>= λ a. (finalize c a >>= next))
          ≡ next (horner scalars (from_u32 player) (sum_polys c t rng (range 1 n))))
  unfolding finalize require_complete is_complete
  finalize-deliver next p =
      rw
        (
          deliver-range 1 n [] [] p (omega arith) (omega arith) (λ d l. refl),
          length-map (entry c t rng player) (range 1 n),
          ==_refl (length (range 1 n)),
          sum_values-sum_polys c t rng player (range 1 n) zero_scalar,
          c.scalars.add_comm zero_scalar
              (horner scalars (from_u32 player) (sum_polys c t rng (range 1 n))),
          c.scalars.add-zero (horner scalars (from_u32 player) (sum_polys c t rng (range 1 n))),
        )
        refl
