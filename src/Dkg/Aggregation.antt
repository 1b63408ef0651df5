-- ===== src/Dkg/Aggregation.antt =====
-- src/dkg.rs, `Aggregator`: what it has collected, and what it derives from that.
use frostito.Prelude.{
  ℕ, ◌≡◌, refl, sym, ap, subst, ◌∙◌, Bool, true, false, List, [], ◌∷◌, ◌++◌, length, contains, ◌==◌,
  arith, Bool-cases, inl, inr, ◌⊎◌,
}
use frostito.Error.{ok, err, panic, >>=-eq-ok, ok_injective, insufficient_contributions}
use frostito.Curve.{Curve}
use frostito.Curve.Ring.{group}
use frostito.Polynomial.{horner_points}
use frostito.Commitment.{DealerCommitment, SubShare, share_commitment, verify_subshare}
use frostito.Commitment.Feldman.{verify_subshare-horner_points}
use frostito.Reshare.Aggregator.{VerifiedSubShare, has_dealer, checked_dealer_set}
use frostito.Reshare.Aggregator.DealerSet.{checked_dealer_set_sound}
use frostito.Dkg.{
  DkgAggregator, new_aggregator, is_complete, require_complete, add_subshare, sum_points,
  sum_values, derive_group_key, finalize,
}
use frostito.Dkg.Sums.{sum_at}

module _ (c : Curve) where
  infixl 65 ◌⊕◌ ◌⊞◌
  infixr 70 ◌•◌
  open c use {Scalar, Point, zero as zero_scalar, ◌⊕◌, identity, generator, ◌⊞◌, ◌•◌, from_u32}

  -- The stored sub-share is checked against the commitment `k`, whose constant term is stored.
  pub record IsCollected (player : ℕ) (set : List ℕ) (v : VerifiedSubShare Scalar) (c0 : Point)
      (k : DealerCommitment Point) : Type 0 where
    pub paired : v.dealer_index ≡ k.dealer_index
    pub agreed : contains set v.dealer_index ≡ true
    pub checked : verify_subshare c k player v.value ≡ true
    pub opens : share_commitment k ≡ ok c0

  -- The stored lists, entry by entry against the commitments that came with them.
  abbrev pub Collected :
      ℕ
      → List ℕ
      → List (VerifiedSubShare Scalar)
      → List Point
      → List (DealerCommitment Point)
      → Type 0
  Collected player set [] [] [] = Unit
  Collected player set (v ∷ vs) (c0 ∷ cs) (k ∷ ks) =
      IsCollected player set v c0 k × Collected player set vs cs ks
  Collected player set _ _ _ = ⊥

  abbrev pub Holds : DkgAggregator Scalar Point → List (DealerCommitment Point) → Type 0
  Holds a ks =
      ((a.player_index == 0) ≡ false)
      × Collected a.player_index a.dealer_set a.subshares a.constant_commitments ks

  -- A new aggregator holds nothing.
  pub new_aggregator-Holds :
      (player : ℕ) (dealers : List ℕ) {a : DkgAggregator Scalar Point}
      → new_aggregator player dealers ≡ ok a
      → Holds a []
  unfolding new_aggregator
  new_aggregator-Holds player dealers h =
      let (sorted, checked, made) = >>=-eq-ok (checked_dealer_set player dealers) _ h in
      let (positive, _, _) = checked_dealer_set_sound player dealers checked in
      subst (λ a. Holds a []) (ok_injective made) (positive, tt)

  Collected-append :
      (player : ℕ) (set : List ℕ) (vs : List (VerifiedSubShare Scalar)) (cs : List Point)
      (ks : List (DealerCommitment Point)) (v : VerifiedSubShare Scalar) (c0 : Point)
      (k : DealerCommitment Point)
      → Collected player set vs cs ks
      → IsCollected player set v c0 k
      → Collected player set (vs ++ (v ∷ [])) (cs ++ (c0 ∷ [])) (ks ++ (k ∷ []))
  Collected-append player set [] [] [] v c0 k h x = (x, tt)
  Collected-append player set (u ∷ vs) (d ∷ cs) (l ∷ ks) v c0 k h x =
      (h.0, Collected-append player set vs cs ks v c0 k h.1 x)
  Collected-append player set [] [] (l ∷ ks) v c0 k h x = absurd h
  Collected-append player set [] (d ∷ cs) ks v c0 k h x = absurd h
  Collected-append player set (u ∷ vs) [] ks v c0 k h x = absurd h
  Collected-append player set (u ∷ vs) (d ∷ cs) [] v c0 k h x = absurd h

  abbrev Added :
      DkgAggregator Scalar Point
      → SubShare Scalar
      → DealerCommitment Point
      → DkgAggregator Scalar Point × Bool
      → Type 0
  Added a s k r =
      ((s.player_index ≡ a.player_index)
        × (contains a.dealer_set s.dealer_index ≡ true)
        × (has_dealer s.dealer_index a.subshares ≡ true)
        × (r ≡ (a, false)))
      ⊎ ((c0 : Point) × (s.player_index ≡ a.player_index)
          × (has_dealer s.dealer_index a.subshares ≡ false)
          × (s.dealer_index ≡ k.dealer_index)
          × (contains a.dealer_set s.dealer_index ≡ true)
          × (verify_subshare c k a.player_index s.value ≡ true)
          × (share_commitment k ≡ ok c0)
          × (r ≡ (
            record a {
              subshares =
                  a.subshares ++ (record { dealer_index = s.dealer_index; value = s.value } ∷ []);
              constant_commitments = a.constant_commitments ++ (c0 ∷ []);
            },
            true,
          )))

  Added-of :
      (a : DkgAggregator Scalar Point) (s : SubShare Scalar) (k : DealerCommitment Point)
      {r : DkgAggregator Scalar Point × Bool}
      → add_subshare c a s k ≡ ok r
      → Added a s k r
  unfolding add_subshare
  Added-of a s k h = ground arith

  -- An accepted call is for this player, from an agreed dealer. Either the dealer's sub-share was
  -- already stored, and nothing changes, or it was not: then exactly that sub-share is appended, and
  -- the commitment to those that the aggregator holds.
  pub add_subshare-Holds :
      (a : DkgAggregator Scalar Point) (s : SubShare Scalar) (k : DealerCommitment Point)
      (ks : List (DealerCommitment Point)) {r : DkgAggregator Scalar Point × Bool}
      → add_subshare c a s k ≡ ok r
      → Holds a ks
      → (s.player_index ≡ a.player_index)
        × (contains a.dealer_set s.dealer_index ≡ true)
        × (((has_dealer s.dealer_index a.subshares ≡ true) × (r ≡ (a, false)))
            ⊎ ((has_dealer s.dealer_index a.subshares ≡ false)
                × Holds r.0 (ks ++ (k ∷ []))
                × (r.0.subshares
                    ≡ a.subshares
                      ++ (record { dealer_index = s.dealer_index; value = s.value } ∷ []))
                × (r.1 ≡ true)))
  add_subshare-Holds a s k ks h (positive, held) = elim (Added-of a s k h) [
    | inl (mine, agreed, old, same) ↦ (mine, agreed, inl (old, same))
    | inr (c0, mine, new, paired, agreed, checked, opens, e) ↦
        let kept =
          subst
            (λ q.
              Holds q.0 (ks ++ (k ∷ []))
              × (q.0.subshares
                  ≡ a.subshares ++ (record { dealer_index = s.dealer_index; value = s.value } ∷ []))
              × (q.1 ≡ true))
            (sym e)
            (
              (
                positive,
                Collected-append a.player_index a.dealer_set a.subshares a.constant_commitments ks
                    (record { dealer_index = s.dealer_index; value = s.value }) c0 k held
                    (record { paired = paired; agreed = agreed; checked = checked; opens = opens }),
              ),
              refl,
              refl,
            ) in
        (mine, agreed, inr (new, kept.0, kept.1, kept.2))
  ]

  sum_values-sum_at :
      (player : ℕ) (set : List ℕ) (vs : List (VerifiedSubShare Scalar)) (cs : List Point)
      (ks : List (DealerCommitment Point)) (acc : Scalar)
      → (player == 0) ≡ false
      → Collected player set vs cs ks
      → sum_values c acc vs • generator ≡ acc • generator ⊞ sum_at c (from_u32 player) ks
  unfolding sum_values sum_at
  sum_values-sum_at player set [] [] [] acc p h = sym (c.point_add-identity _)
  sum_values-sum_at player set (v ∷ vs) (c0 ∷ cs) (k ∷ ks) acc p (x, rest) =
      sum_values-sum_at player set vs cs ks (acc ⊕ v.value) p rest
      ∙ ap (λ q. q ⊞ sum_at c (from_u32 player) ks)
          (c.add-smul acc v.value generator
            ∙ ap (λ q. acc • generator ⊞ q)
                (sym (verify_subshare-horner_points c k player v.value p x.checked)))
      ∙ c.point_add_assoc _ _ _
  sum_values-sum_at player set [] [] (l ∷ ks) acc p h = absurd h
  sum_values-sum_at player set [] (d ∷ cs) ks acc p h = absurd h
  sum_values-sum_at player set (u ∷ vs) [] ks acc p h = absurd h
  sum_values-sum_at player set (u ∷ vs) (d ∷ cs) [] acc p h = absurd h

  pub constant_at_zero :
      (k : DealerCommitment Point) (c0 : Point)
      → share_commitment k ≡ ok c0
      → horner_points c zero_scalar k.coefficients ≡ c0
  unfolding share_commitment horner_points
  constant_at_zero k c0 h = go k.coefficients h
    where
      go :
          (ps : List Point)
          → elim ps [ [] ↦ panic | p ∷ _ ↦ ok p ] ≡ ok c0
          → horner_points c zero_scalar ps ≡ c0
      go [] e = cc
      go (p ∷ ps) e = first ∙ ok_injective e
        where
          first : zero_scalar • horner_points c zero_scalar ps ⊞ p ≡ p
          first = simp group

  sum_points-sum_at :
      (player : ℕ) (set : List ℕ) (vs : List (VerifiedSubShare Scalar)) (cs : List Point)
      (ks : List (DealerCommitment Point)) (acc : Point)
      → Collected player set vs cs ks
      → sum_points c acc cs ≡ acc ⊞ sum_at c zero_scalar ks
  unfolding sum_points sum_at
  sum_points-sum_at player set [] [] [] acc h = sym (c.point_add-identity _)
  sum_points-sum_at player set (v ∷ vs) (c0 ∷ cs) (k ∷ ks) acc (x, rest) =
      sum_points-sum_at player set vs cs ks (acc ⊞ c0) rest
      ∙ c.point_add_assoc _ _ _
      ∙ ap (λ q. acc ⊞ (q ⊞ sum_at c zero_scalar ks)) (sym (constant_at_zero k c0 x.opens))
  sum_points-sum_at player set [] [] (l ∷ ks) acc h = absurd h
  sum_points-sum_at player set [] (d ∷ cs) ks acc h = absurd h
  sum_points-sum_at player set (u ∷ vs) [] ks acc h = absurd h
  sum_points-sum_at player set (u ∷ vs) (d ∷ cs) [] acc h = absurd h

  -- A complete aggregator has a final share and a group key: the share's public point is the held
  -- commitments' sum at the player's index, and the key their sum at 0. An incomplete one refuses
  -- both with the counts.
  pub finalize-Holds :
      (a : DkgAggregator Scalar Point) (ks : List (DealerCommitment Point))
      → Holds a ks
      → ((is_complete a ≡ true)
          × (share : Scalar) × (finalize c a ≡ ok share)
          × (share • generator ≡ sum_at c (from_u32 a.player_index) ks)
          × (derive_group_key c a ≡ ok (sum_at c zero_scalar ks)))
        ⊎ ((is_complete a ≡ false)
            × (finalize c a
                ≡ err (insufficient_contributions (length a.subshares) (length a.dealer_set)))
            × (derive_group_key c a
                ≡ err (insufficient_contributions (length a.subshares) (length a.dealer_set))))
  unfolding finalize derive_group_key require_complete
  finalize-Holds a ks (positive, held) = elim (Bool-cases (is_complete a)) [
    | inl done ↦ inl (
      done,
      sum_values c zero_scalar a.subshares,
      rw done refl,
      sum_values-sum_at a.player_index a.dealer_set a.subshares a.constant_commitments ks
            zero_scalar positive held
          ∙ ap (λ q. q ⊞ sum_at c (from_u32 a.player_index) ks) (c.zero-smul generator)
          ∙ from_identity _,
      rw done (
          ap ok (
            sum_points-sum_at a.player_index a.dealer_set a.subshares a.constant_commitments ks
              identity held
            ∙ from_identity _)),
    )
    | inr missing ↦ inr (missing, rw missing refl, rw missing refl)
  ]
    where
      from_identity : (p : Point) → identity ⊞ p ≡ p
      from_identity p = simp group
