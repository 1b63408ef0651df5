-- ===== src/Reshare/State/BatchSoundness.antt =====
-- src/reshare.rs, `batch_verify_subshares`: what two accepted runs with different weights show.
use frostito.Prelude.{
  ℕ, ◌≡◌, ◌≢◌, refl, sym, ap, ap₂, subst, ◌∙◌, true, false, not, ◌||◌, List, [], ◌∷◌, ◌++◌, length,
  find, ◌==◌, ==_iff, decide-true, true_of_decide, some, arith, Bool-cases, Option-cases, inl, inr,
}
use mathlib.Core.Option.{some-injective}
use frostito.Curve.{Curve}
use frostito.Curve.Ring.{cancelling, group}
use frostito.Curve.Differences.{difference, smul_difference_cancel}
use frostito.Commitment.{DealerCommitment, SubShare, evaluate_at, verify_subshare}
use frostito.Polynomial.{horner_points}
use frostito.Reshare.State.{batch_step, batch_loop, batch_verify_subshares}
use frostito.Reshare.State.Batch.{Passes}

module _ (c : Curve) (player : ℕ) (ks : List (DealerCommitment c.Point)) where
  infixl 65 ◌⊞◌ ◌⊕◌ ◌⊖◌
  infixl 70 ◌⊗◌
  infixr 70 ◌•◌
  open c use {Scalar, Point, from_u32, identity, generator, ◌⊞◌, ◌•◌, ◌⊕◌, ◌⊖◌, ◌⊗◌}

  -- The point that a commitment has for the player.
  abbrev point_of : DealerCommitment Point → Point
  point_of k = horner_points c (from_u32 player) k.coefficients

  -- A step that goes on found the dealer's commitment.
  abbrev HasCommitment : SubShare Scalar → DealerCommitment Point → Type 0
  HasCommitment s k =
      (s.player_index ≡ player)
      × ((player == 0) ≡ false)
      × (find (λ k. k.dealer_index == s.dealer_index) ks ≡ some k)

  step-commitment :
      (s : SubShare Scalar) (w a : Scalar) (p : Point) {next : Scalar × Point}
      → batch_step c player ks s w (a, p) ≡ some next
      → (k : DealerCommitment Point) × HasCommitment s k
  unfolding batch_step evaluate_at
  step-commitment s w a p {next} h = elim (Bool-cases (s.player_index == player)) [
    | inr other ↦ cc (rw other at h)
    | inl mine ↦ elim (Option-cases (find (λ k. k.dealer_index == s.dealer_index) ks)) [
      | inl missing ↦ cc (rw (mine, missing) at h)
      | inr (k, found) ↦ elim (Bool-cases (player == 0)) [
        | inl zero ↦ cc (rw (mine, found, zero) at h)
        | inr positive ↦ (k, ((==_iff s.player_index player).0 mine, positive, found))
      ]
    ]
  ]

  -- It adds the weighted value and the weighted point, whatever the sums are.
  step_adds :
      (s : SubShare Scalar) (k : DealerCommitment Point) (w a : Scalar) (p : Point)
      → HasCommitment s k
      → batch_step c player ks s w (a, p) ≡ some (a ⊕ w ⊗ s.value, p ⊞ w • point_of k)
  unfolding batch_step evaluate_at
  step_adds s k w a p (mine, positive, found) =
      rw ((==_iff s.player_index player).1 mine, found, positive) refl

  verify_subshare_of_opening :
      (k : DealerCommitment Point) (v : Scalar)
      → (player == 0) ≡ false
      → v • generator ≡ point_of k
      → verify_subshare c k player v ≡ true
  unfolding verify_subshare evaluate_at
  verify_subshare_of_opening k v positive opens = rw positive (decide-true (c.point_eq _ _) opens)

  -- What the loop adds does not depend on the sums it starts from.
  loop_adds :
      (ss : List (SubShare Scalar)) (ws : List Scalar) (a : Scalar) (p : Point) {r : Scalar × Point}
      → batch_loop c player ks ss ws (a, p) ≡ some r
      → (x : Scalar) × (y : Point) × ((b : Scalar) (q : Point)
          → batch_loop c player ks ss ws (b, q) ≡ some (b ⊕ x, q ⊞ y))
  unfolding batch_loop
  loop_adds [] ws a p h = (
    c.zero,
    identity,
    λ b q. sym (ap₂ (λ u v. some (u, v)) (c.scalars.add-zero b) (c.point_add-identity q)),
  )
  loop_adds (s ∷ ss) [] a p h = (
    c.zero,
    identity,
    λ b q. sym (ap₂ (λ u v. some (u, v)) (c.scalars.add-zero b) (c.point_add-identity q)),
  )
  loop_adds (s ∷ ss) (w ∷ ws) a p h = elim (Option-cases (batch_step c player ks s w (a, p))) [
    | inl stopped ↦ cc (rw (batch_loop, stopped) at h)
    | inr (next, went) ↦
        let (k, has) = step-commitment s w a p went in
        let (x, y, adds) = loop_adds ss ws next.0 next.1 (rw (batch_loop, went) at h) in
        (
          w ⊗ s.value ⊕ x,
          w • point_of k ⊞ y,
          λ b q.
              rw (batch_loop, step_adds s k w b q has)
                (adds (b ⊕ w ⊗ s.value) (q ⊞ w • point_of k)
                  ∙ ap₂ (λ u v. some (u, v)) (c.scalars.add_assoc b _ x) (c.point_add_assoc q _ y)),
        )
  ]

  regroup : (p e y : Point) (w : Scalar) → p ⊞ w • e ⊞ y ≡ p ⊞ y ⊞ w • e
  regroup p e y w = simp group

  weighted_difference : (a v x w u : Scalar) → (a ⊕ w ⊗ v ⊕ x) ⊖ (a ⊕ u ⊗ v ⊕ x) ≡ (w ⊖ u) ⊗ v
  weighted_difference a v x w u = simp cancelling

  -- Two balanced sums that differ in one weight.
  balanced_twice :
      (a v x w u : Scalar) (p e y : Point)
      → w ≢ u
      → (a ⊕ w ⊗ v ⊕ x) • generator ≡ p ⊞ w • e ⊞ y
      → (a ⊕ u ⊗ v ⊕ x) • generator ≡ p ⊞ u • e ⊞ y
      → v • generator ≡ e
  balanced_twice a v x w u p e y d h k = smul_difference_cancel c w u (v • generator) e d (
      sym (c.mul-smul (w ⊖ u) v generator)
      ∙ ap (λ z. z • generator) (sym (weighted_difference a v x w u))
      ∙ difference c w u _ _ (p ⊞ y) e (h ∙ regroup p e y w) (k ∙ regroup p e y u))

  -- The sub-share at the front, with two weights.
  first-Passes :
      (s : SubShare Scalar) (after : List (SubShare Scalar)) (w u : Scalar) (ws : List Scalar)
      (a : Scalar) (p : Point) {r t : Scalar × Point}
      → w ≢ u
      → batch_loop c player ks (s ∷ after) (w ∷ ws) (a, p) ≡ some r
      → batch_loop c player ks (s ∷ after) (u ∷ ws) (a, p) ≡ some t
      → r.0 • generator ≡ r.1
      → t.0 • generator ≡ t.1
      → Passes c player ks s
  unfolding batch_loop
  first-Passes s after w u ws a p {r} {t} d h l balanced other =
      elim (Option-cases (batch_step c player ks s w (a, p))) [
        | inl stopped ↦ cc (rw (batch_loop, stopped) at h)
        | inr (next, went) ↦
            let (k, has) = step-commitment s w a p went in
            let first : batch_loop c player ks after ws (a ⊕ w ⊗ s.value, p ⊞ w • point_of k)
                ≡ some r =
              rw (batch_loop, step_adds s k w a p has) at h in
            let second : batch_loop c player ks after ws (a ⊕ u ⊗ s.value, p ⊞ u • point_of k)
                ≡ some t =
              rw (batch_loop, step_adds s k u a p has) at l in
            let (x, y, adds) = loop_adds after ws _ _ first in
            let r_sums = some-injective _ _ (sym first ∙ adds _ _) in
            let t_sums = some-injective _ _ (sym second ∙ adds _ _) in
            let opens =
              balanced_twice a s.value x w u p (point_of k) y d
                (subst (λ q. q.0 • generator ≡ q.1) r_sums balanced)
                (subst (λ q. q.0 • generator ≡ q.1) t_sums other) in
            (has.0, k, has.2, verify_subshare_of_opening k s.value has.1 opens)
      ]

  -- The sub-share at any place of the batch.
  changed-Passes :
      (before : List (SubShare Scalar)) (us : List Scalar) (s : SubShare Scalar)
      (after : List (SubShare Scalar)) (w u : Scalar) (ws : List Scalar) (a : Scalar) (p : Point)
      {r t : Scalar × Point}
      → length before ≡ length us
      → w ≢ u
      → batch_loop c player ks (before ++ (s ∷ after)) (us ++ (w ∷ ws)) (a, p) ≡ some r
      → batch_loop c player ks (before ++ (s ∷ after)) (us ++ (u ∷ ws)) (a, p) ≡ some t
      → r.0 • generator ≡ r.1
      → t.0 • generator ≡ t.1
      → Passes c player ks s
  unfolding batch_loop
  changed-Passes [] [] s after w u ws a p same d h l balanced other =
      first-Passes s after w u ws a p d h l balanced other
  changed-Passes [] (v ∷ us) s after w u ws a p same d h l balanced other = absurd (omega arith)
  changed-Passes (m ∷ before) [] s after w u ws a p same d h l balanced other = absurd (omega arith)
  changed-Passes (m ∷ before) (v ∷ us) s after w u ws a p same d h l balanced other =
      elim (Option-cases (batch_step c player ks m v (a, p))) [
        | inl stopped ↦ cc (rw (batch_loop, stopped) at h)
        | inr (next, went) ↦
            changed-Passes before us s after w u ws next.0 next.1 (omega arith) d
              (rw (batch_loop, went) at h) (rw (batch_loop, went) at l) balanced other
      ]

  -- An accepted batch has balanced sums.
  accepted_balanced :
      (ss : List (SubShare Scalar)) (ws : List Scalar)
      → batch_verify_subshares c player ss ks ws ≡ true
      → (r : Scalar × Point) × (batch_loop c player ks ss ws (c.zero, identity) ≡ some r)
        × (r.0 • generator ≡ r.1)
  unfolding batch_verify_subshares
  accepted_balanced ss ws h = elim (Bool-cases (not (length ss == length ks) || length ss == 0)) [
    | inl refused ↦ cc (rw (batch_verify_subshares, refused) at h)
    | inr sized ↦ elim (Option-cases (batch_loop c player ks ss ws (c.zero, identity))) [
      | inl stopped ↦ cc (rw (batch_verify_subshares, sized, stopped) at h)
      | inr (r, ran) ↦
          (r, ran, true_of_decide (c.point_eq _ _) (rw (batch_verify_subshares, sized, ran) at h))
    ]
  ]

  -- If a batch is accepted under two choices of weights that differ in the weight of one sub-share
  -- only, that sub-share is the player's and passes the single check against the commitment of its
  -- dealer: with the other weights fixed, at most one weight accepts a sub-share that does not.
  pub batch_verify_sound :
      (before after : List (SubShare Scalar)) (s : SubShare Scalar) (us ws : List Scalar)
      (w u : Scalar)
      → length before ≡ length us
      → w ≢ u
      → batch_verify_subshares c player (before ++ (s ∷ after)) ks (us ++ (w ∷ ws)) ≡ true
      → batch_verify_subshares c player (before ++ (s ∷ after)) ks (us ++ (u ∷ ws)) ≡ true
      → Passes c player ks s
  batch_verify_sound before after s us ws w u same d h l =
      let (r, ran, balanced) = accepted_balanced _ _ h in
      let (t, ran_too, other) = accepted_balanced _ _ l in
      changed-Passes before us s after w u ws c.zero identity same d ran ran_too balanced other
