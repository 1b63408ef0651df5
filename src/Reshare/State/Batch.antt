-- ===== src/Reshare/State/Batch.antt =====
-- src/reshare.rs: the batch check and the single checks.
use frostito.Prelude.{
  ℕ, ◌≡◌, refl, ap₂, ◌∙◌, true, false, List, [], ◌∷◌, All, length, find, ◌==◌, ==_iff, decide-true,
  some,
}
use frostito.Curve.{Curve}
use frostito.Commitment.{DealerCommitment, SubShare, verify_subshare}
use frostito.Commitment.Feldman.{verify_subshare_sound}
use frostito.Reshare.State.{batch_step, batch_loop, batch_verify_subshares}

module _ (c : Curve) where
  infixl 65 ◌⊞◌ ◌⊕◌
  infixl 70 ◌⊗◌
  infixr 70 ◌•◌
  open c use {Scalar, Point, identity, generator, ◌⊞◌, ◌•◌, ◌⊕◌, ◌⊗◌}

  -- The sub-share is the player's, and passes the single check against its dealer's commitment.
  abbrev pub Passes : ℕ → List (DealerCommitment Point) → SubShare Scalar → Type 0
  Passes player commitments s =
      (s.player_index ≡ player)
      × (k : DealerCommitment Point) × (find (λ k. k.dealer_index == s.dealer_index) commitments
          ≡ some k)
      × (verify_subshare c k player s.value ≡ true)

  step_of :
      (player : ℕ) (ks : List (DealerCommitment Point)) (s : SubShare Scalar) (w a : Scalar)
      (p : Point)
      → Passes player ks s
      → batch_step c player ks s w (a, p) ≡ some (a ⊕ w ⊗ s.value, p ⊞ w • s.value • generator)
  unfolding batch_step
  step_of player ks s w a p (mine, k, found, checked) =
      rw
        (
          (==_iff s.player_index player).1 mine,
          found,
          verify_subshare_sound c k player s.value checked,
        )
        refl

  loop_balanced :
      (player : ℕ) (commitments : List (DealerCommitment Point)) (ss : List (SubShare Scalar))
      (ws : List Scalar) (a : Scalar) (p : Point)
      → All (Passes player commitments) ss
      → a • generator ≡ p
      → (b : Scalar) × (q : Point) × (batch_loop c player commitments ss ws (a, p) ≡ some (b, q))
        × (b • generator ≡ q)
  unfolding batch_loop
  loop_balanced player ks [] [] a p h e = (a, p, refl, e)
  loop_balanced player ks [] (w ∷ ws) a p h e = (a, p, refl, e)
  loop_balanced player ks (s ∷ ss) [] a p h e = (a, p, refl, e)
  loop_balanced player ks (s ∷ ss) (w ∷ ws) a p (passes, rest) e =
      let (b, q, run, balanced) =
        loop_balanced player ks ss ws (a ⊕ w ⊗ s.value) (p ⊞ w • s.value • generator) rest (
          c.add-smul a (w ⊗ s.value) generator
          ∙ ap₂ (λ x y. x ⊞ y) e (c.mul-smul w s.value generator)) in
      (b, q, rw (step_of player ks s w a p passes, batch_loop) run, balanced)

  -- For every choice of weights, a batch in which each sub-share passes its own check is accepted,
  -- if there is one commitment per sub-share and at least one sub-share.
  pub batch_verify_complete :
      (player : ℕ) (ss : List (SubShare Scalar)) (ks : List (DealerCommitment Point))
      (ws : List Scalar)
      → length ss ≡ length ks
      → (length ss == 0) ≡ false
      → All (Passes player ks) ss
      → batch_verify_subshares c player ss ks ws ≡ true
  unfolding batch_verify_subshares
  batch_verify_complete player ss ks ws same some_share h =
      let (b, q, run, balanced) =
        loop_balanced player ks ss ws c.zero identity h (c.zero-smul generator) in
      rw ((==_iff (length ss) (length ks)).1 same, some_share, run)
        (decide-true (c.point_eq _ _) balanced)
