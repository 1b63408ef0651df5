-- ===== src/Dkg/State/Steps.antt =====
-- src/dkg.rs, `DkgState`: submissions and disqualifications on a state in order.
use frostito.Prelude.{
  ℕ, zero, suc, ◌+◌, ◌-◌, ◌≤◌, ◌≡◌, ◌≢◌, refl, sym, ap, subst, ◌∙◌, Bool, true, false, ◌||◌, List,
  [], length, set, contains, ltb, ◌==◌, ==_refl, if◌then◌else◌, Option, none, some, arith,
  Bool-cases, inl, inr, ◌⊎◌,
}
use frostito.Error.{ok, err, >>=-eq-ok, ok_injective, dkg_aborted, invalid_index}
use frostito.Curve.{Curve}
use frostito.Commitment.{DealerCommitment, share_commitment}
use frostito.ProofOfKnowledge.{Round1Package, verify_package}
use frostito.Slots.{record_commitment, store}
use frostito.Slots.Dealers.{
  IsRecorded, record_commitment-slots, record_commitment-SlotsFrom, store-slots,
}
use frostito.Slots.Changes.{has_commitment, has_commitment-fill}
use frostito.Dkg.State.{
  DkgState, submit_commitment, add_disqualified, remaining, check_remaining, disqualify,
}
use frostito.Dkg.State.Invariant.{Inv, disqualify-Inv, disqualified-le, contains-add_disqualified}

module _ {P : Type 0} where
  check_remaining-of :
      (st : DkgState P)
      → length st.disqualified ≤ st.num_participants
      → check_remaining st ≡ (
          if ltb (st.num_participants - length st.disqualified) st.threshold
          then err (dkg_aborted (st.num_participants - length st.disqualified) st.threshold)
          else ok tt)
  unfolding check_remaining remaining
  check_remaining-of st h =
      let fits : ltb st.num_participants (length st.disqualified) ≡ false = ground arith in
      rw fits (elim (Bool-cases (ltb (st.num_participants - length st.disqualified) st.threshold)) [
        | inl few ↦ rw few refl
        | inr enough ↦ rw enough refl
      ])

  -- On a state in order, `disqualify` refuses an index outside 1 to n and changes nothing; for one
  -- inside, exactly that dealer joins the disqualified ones and its commitment is gone, and the call
  -- aborts exactly if fewer dealers remain than the threshold. It never panics.
  pub disqualify-excludes :
      (st : DkgState P) (d : ℕ)
      → Inv st
      → ((d == 0 || ltb st.num_participants d) ≡ true) × (disqualify st d ≡ (st, err invalid_index))
        ⊎ ((d == 0 || ltb st.num_participants d) ≡ false)
          × (next : DkgState P) × (left : ℕ) × (disqualify st d ≡ (
            next,
            if ltb left st.threshold then err (dkg_aborted left st.threshold) else ok tt,
          ))
          × (left + length next.disqualified ≡ st.num_participants)
          × ((e : ℕ) → contains next.disqualified e ≡ (contains st.disqualified e || d == e))
          × (has_commitment next.commitments d ≡ false)
  unfolding disqualify
  disqualify-excludes st zero inv = inl (refl, refl)
  disqualify-excludes st (suc idx) inv = elim (Bool-cases (ltb idx (length st.commitments))) [
    | inr out ↦ inl (ground (arith, inv.sized), rw out refl)
    | inl lt ↦
        let next : DkgState P = record st {
          commitments = set st.commitments idx none;
          disqualified = add_disqualified (suc idx) st.disqualified;
        } in
        let whole : Inv {P = P} (disqualify st (suc idx)).0 = disqualify-Inv st (suc idx) inv in
        let after : Inv {P = P} next = rw lt at whole in
        let room = disqualified-le next after in
        inr (
          ground (arith, inv.sized),
          next,
          st.num_participants - length next.disqualified,
          rw lt (ap (λ r. (next, r)) (check_remaining-of next room)),
          omega arith,
          (λ e. contains-add_disqualified (suc idx) e st.disqualified),
          after.excluded (suc idx) (
              contains-add_disqualified (suc idx) (suc idx) st.disqualified
              ∙ ground (arith, ==_refl (suc idx))),
        )
  ]

module _ (c : Curve) (sha512 : List ℕ → List ℕ) where
  open c use {Scalar, Point}

  accepted_nonempty :
      (sent : Round1Package Scalar Point) (epoch : ℕ)
      → verify_package c sha512 sent epoch ≡ ok tt
      → sent.commitment.coefficients ≢ []
  unfolding verify_package share_commitment
  accepted_nonempty sent epoch h e = cc (rw e at h)

  -- An accepted submission carried a valid proof for the ceremony's epoch, from a dealer that is not
  -- disqualified; from a state in order it leaves one in order, with the same disqualified dealers.
  pub submit_commitment-Inv :
      (st : DkgState Point) (sent : Round1Package Scalar Point) {r : DkgState Point × Bool}
      → submit_commitment c sha512 st sent ≡ ok r
      → Inv st
      → (verify_package c sha512 sent st.epoch ≡ ok tt)
        × (contains st.disqualified sent.commitment.dealer_index ≡ false)
        × Inv r.0
        × (r.0.disqualified ≡ st.disqualified)
  unfolding submit_commitment
  submit_commitment-Inv st sent {r} h inv =
      let k = sent.commitment in
      let (u, valid, rest) = >>=-eq-ok (verify_package c sha512 sent st.epoch) _ h in
      elim (Bool-cases (contains st.disqualified k.dealer_index)) [
        | inl barred ↦ cc (rw barred at rest)
        | inr free ↦
            let (stored, ran, made) =
              >>=-eq-ok (record_commitment st.threshold st.commitments k) _ (rw free at rest) in
            let (idx, named, size, slot, _, shape) =
              record_commitment-slots st.threshold st.commitments k ran in
            let kept =
              record_commitment-SlotsFrom (IsRecorded st.threshold) st.threshold st.commitments k
                ran (size, accepted_nonempty sent st.epoch valid) inv.slots in
            subst
              (λ q.
                (verify_package c sha512 sent st.epoch ≡ ok tt)
                × (contains st.disqualified k.dealer_index ≡ false)
                × Inv q.0
                × (q.0.disqualified ≡ st.disqualified))
              (ok_injective made)
              (
                valid,
                free,
                record {
                  slots = kept.0;
                  sized = kept.1 ∙ inv.sized;
                  distinct = inv.distinct;
                  bounded = inv.bounded;
                  excluded = λ d barred.
                      subst (λ s. has_commitment s d ≡ false) (sym (ap (λ p. p.0) shape))
                        (still_excluded st idx slot k d inv barred free);
                },
                refl,
              )
      ]
    where
      still_excluded :
          (st : DkgState Point) (idx : ℕ) (slot : Option (DealerCommitment Point))
          (k : DealerCommitment Point) (d : ℕ)
          → Inv st
          → contains st.disqualified d ≡ true
          → contains st.disqualified k.dealer_index ≡ false
          → has_commitment (store st.commitments idx k slot).0 d ≡ false
      still_excluded st idx slot k d inv barred free =
          elim (store-slots st.commitments idx k slot) [
            | inl (same, _) ↦ ap (λ s. has_commitment s d) same ∙ inv.excluded d barred
            | inr (stored, _) ↦
                ap (λ s. has_commitment s d) stored
                ∙ elim (Bool-cases (has_commitment (set st.commitments idx (some k)) d)) [
                  | inr missing ↦ missing
                  | inl found ↦ elim (has_commitment-fill st.commitments idx d k found) [
                    | inl same ↦ cc (ap (contains st.disqualified) same)
                    | inr old ↦ cc (inv.excluded d barred)
                  ]
                ]
          ]
