-- ===== src/Reshare/Aggregator/Invariant.antt =====
-- src/reshare.rs, `Aggregator`: the invariant of its state.
use frostito.Prelude.{
  ℕ, ◌<◌, ◌^◌, ◌≡◌, refl, sym, ap, subst, ◌∙◌, Bool, true, false, ◌||◌, List, [], ◌∷◌, ◌++◌, length,
  contains, ◌==◌, arith, inl, inr, ◌⊎◌,
}
use frostito.Error.{ok, >>=-eq-ok, ok_injective}
use frostito.Curve.{Curve}
use frostito.Indices.{is_distinct}
use frostito.Commitment.{DealerCommitment, SubShare, threshold, verify_subshare}
use frostito.Reshare.Aggregator.{
  VerifiedSubShare, Aggregator, new, checked_dealer_set, add_subshare, check_threshold, has_dealer,
}
use frostito.Reshare.Aggregator.DealerSet.{IsDealerSet, checked_dealer_set_sound}

-- The number of coefficients of the first stored commitment.
abbrev pub agreed_length : {P : Type 0} → List (DealerCommitment P) → ℕ
agreed_length [] = 0
agreed_length (first ∷ _) = length first.coefficients

abbrev pub senders : {S : Type 0} → List (VerifiedSubShare S) → List ℕ
senders [] = []
senders (v ∷ vs) = v.dealer_index ∷ senders vs

module _ (c : Curve) where
  open c use {Scalar, Point}

  pub record IsVerified (player : ℕ) (set : List ℕ) (t : ℕ) (v : VerifiedSubShare Scalar)
      (k : DealerCommitment Point) : Type 0 where
    pub paired : v.dealer_index ≡ k.dealer_index
    pub agreed : contains set v.dealer_index ≡ true
    pub sized : length k.coefficients ≡ t
    pub checked : verify_subshare c k player v.value ≡ true

  abbrev pub Aligned :
      ℕ → List ℕ → ℕ → List (VerifiedSubShare Scalar) → List (DealerCommitment Point) → Type 0
  Aligned player set t [] [] = Unit
  Aligned player set t (v ∷ vs) (k ∷ ks) = IsVerified player set t v k × Aligned player set t vs ks
  Aligned player set t _ _ = ⊥

  pub record Inv (a : Aggregator Scalar Point) : Type 0 where
    pub player_positive : (a.player_index == 0) ≡ false
    pub set : IsDealerSet a.dealer_set
    pub aligned :
        Aligned a.player_index a.dealer_set (agreed_length a.commitments) a.subshares a.commitments
    pub senders_distinct : is_distinct (senders a.subshares) ≡ true
    pub small : agreed_length a.commitments < 2 ^ 32

  -- A new aggregator satisfies the invariant.
  pub new-Inv :
      (player : ℕ) (dealers : List ℕ) {a : Aggregator Scalar Point}
      → new player dealers ≡ ok a
      → Inv a
  unfolding new
  new-Inv player dealers {a} h =
      let (sorted, checked, made) = >>=-eq-ok (checked_dealer_set player dealers) _ h in
      let (positive, _, set) = checked_dealer_set_sound player dealers checked in
      subst Inv (ok_injective made) (record {
        player_positive = positive;
        set = set;
        aligned = tt;
        senders_distinct = refl;
        small = omega arith;
      })

  Aligned-append :
      (player : ℕ) (set : List ℕ) (t : ℕ) (vs : List (VerifiedSubShare Scalar))
      (ks : List (DealerCommitment Point)) (v : VerifiedSubShare Scalar)
      (k : DealerCommitment Point)
      → Aligned player set t vs ks
      → IsVerified player set t v k
      → Aligned player set t (vs ++ (v ∷ [])) (ks ++ (k ∷ []))
  Aligned-append player set t [] [] v k h x = (x, tt)
  Aligned-append player set t [] (l ∷ ks) v k h x = absurd h
  Aligned-append player set t (u ∷ vs) [] v k h x = absurd h
  Aligned-append player set t (u ∷ vs) (l ∷ ks) v k h x =
      (h.0, Aligned-append player set t vs ks v k h.1 x)

  has_dealer-senders :
      (d : ℕ) (vs : List (VerifiedSubShare Scalar)) → has_dealer d vs ≡ contains (senders vs) d
  has_dealer-senders d [] = refl
  has_dealer-senders d (v ∷ vs) = ap (λ b. v.dealer_index == d || b) (has_dealer-senders d vs)

  contains-senders_append :
      (d : ℕ) (vs : List (VerifiedSubShare Scalar)) (v : VerifiedSubShare Scalar)
      → contains (senders (vs ++ (v ∷ []))) d ≡ (contains (senders vs) d || v.dealer_index == d)
  contains-senders_append d [] v = ground arith
  contains-senders_append d (u ∷ vs) v = ground (arith, contains-senders_append d vs v)

  senders_append-distinct :
      (vs : List (VerifiedSubShare Scalar)) (v : VerifiedSubShare Scalar)
      → is_distinct (senders vs) ≡ true
      → contains (senders vs) v.dealer_index ≡ false
      → is_distinct (senders (vs ++ (v ∷ []))) ≡ true
  senders_append-distinct [] v d n = refl
  senders_append-distinct (u ∷ vs) v d n =
      ground (arith, contains-senders_append u.dealer_index vs v, senders_append-distinct vs v)

  -- What a successful call found, and the state that it leaves.
  abbrev pub Added :
      Aggregator Scalar Point
      → SubShare Scalar
      → DealerCommitment Point
      → Aggregator Scalar Point × Bool
      → Type 0
  Added a s k r =
      ((has_dealer s.dealer_index a.subshares ≡ true) × (r ≡ (a, false)))
      ⊎ ((s.player_index ≡ a.player_index)
          × (s.dealer_index ≡ k.dealer_index)
          × (contains a.dealer_set s.dealer_index ≡ true)
          × (check_threshold a.commitments k ≡ ok tt)
          × (has_dealer s.dealer_index a.subshares ≡ false)
          × (verify_subshare c k a.player_index s.value ≡ true)
          × (r ≡ (
            record a {
              subshares =
                  a.subshares ++ (record { dealer_index = s.dealer_index; value = s.value } ∷ []);
              commitments = a.commitments ++ (k ∷ []);
            },
            true,
          )))

  pub add_subshare-Added :
      (a : Aggregator Scalar Point) (s : SubShare Scalar) (k : DealerCommitment Point)
      {r : Aggregator Scalar Point × Bool}
      → add_subshare c a s k ≡ ok r
      → Added a s k r
  unfolding add_subshare
  add_subshare-Added a s k h = ground arith

  agreed_length_append :
      (ks : List (DealerCommitment Point)) (k : DealerCommitment Point)
      → check_threshold ks k ≡ ok tt
      → agreed_length ks < 2 ^ 32
      → length k.coefficients < 2 ^ 32
      → (agreed_length (ks ++ (k ∷ [])) ≡ length k.coefficients)
        × (agreed_length (ks ++ (k ∷ [])) < 2 ^ 32)
  unfolding check_threshold threshold
  agreed_length_append [] k h small size = (refl, size)
  agreed_length_append (first ∷ ks) k h small size = (same, small)
    where
      same : length first.coefficients ≡ length k.coefficients
      same = ground arith

  Aligned-resize :
      (player : ℕ) (set : List ℕ) (vs : List (VerifiedSubShare Scalar))
      (ks : List (DealerCommitment Point)) (k : DealerCommitment Point)
      → agreed_length (ks ++ (k ∷ [])) ≡ length k.coefficients
      → Aligned player set (agreed_length ks) vs ks
      → Aligned player set (length k.coefficients) vs ks
  Aligned-resize player set [] [] k e h = tt
  Aligned-resize player set (v ∷ vs) [] k e h = absurd h
  Aligned-resize player set [] (first ∷ ks) k e h = absurd h
  Aligned-resize player set (v ∷ vs) (first ∷ ks) k e h =
      subst (λ t. Aligned player set t (v ∷ vs) (first ∷ ks)) e h

  -- Every accepted call keeps the invariant, given a commitment of fewer than 2 ^ 32 points.
  pub add_subshare-Inv :
      (a : Aggregator Scalar Point) (s : SubShare Scalar) (k : DealerCommitment Point)
      {r : Aggregator Scalar Point × Bool}
      → add_subshare c a s k ≡ ok r
      → length k.coefficients < 2 ^ 32
      → Inv a
      → Inv r.0
  add_subshare-Inv a s k h size inv = elim (add_subshare-Added a s k h) [
    | inl (_, e) ↦ subst (λ r. Inv r.0) (sym e) inv
    | inr (_, paired, agreed, thresholds, fresh, checked, e) ↦
        let (length_of, small) = agreed_length_append a.commitments k thresholds inv.small size in
        subst (λ r. Inv r.0) (sym e)
          (record {
            player_positive = inv.player_positive;
            set = inv.set;
            aligned =
                subst
                  (λ t.
                    Aligned a.player_index a.dealer_set t
                      (a.subshares
                        ++ (record { dealer_index = s.dealer_index; value = s.value } ∷ []))
                      (a.commitments ++ (k ∷ [])))
                  (sym length_of)
                  (Aligned-append a.player_index a.dealer_set (length k.coefficients) a.subshares
                    a.commitments (record { dealer_index = s.dealer_index; value = s.value }) k
                    (Aligned-resize a.player_index a.dealer_set a.subshares a.commitments k
                      length_of inv.aligned)
                    (record { paired = paired; agreed = agreed; sized = refl; checked = checked }));
            senders_distinct =
                senders_append-distinct a.subshares
                  (record { dealer_index = s.dealer_index; value = s.value }) inv.senders_distinct
                  (sym (has_dealer-senders s.dealer_index a.subshares) ∙ fresh);
            small = small;
          })
  ]
