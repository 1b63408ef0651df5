-- ===== src/Dkg/State/Ceremonies.antt =====
-- src/dkg.rs, `DkgState`: whole ceremonies, any sequence of submissions and disqualifications.
use frostito.Prelude.{
  ℕ, zero, suc, ◌≡◌, refl, sym, ap, subst, ◌∙◌, Bool, true, false, List, length, contains, ltb,
  Option, arith, Bool-cases, inl, inr,
}
use frostito.Error.{ok, >>=-eq-ok, refuse_if-eq-ok, ok_injective, unexpected_dealer}
use frostito.Curve.{Curve}
use frostito.Commitment.{DealerCommitment}
use frostito.ProofOfKnowledge.{ProofOfKnowledge, Round1Package, verify_package}
use frostito.Slots.{record_commitment}
use frostito.Slots.Dealers.{
  SlotsFrom, SlotsFrom-empty, SlotsFrom-clear, record_commitment-SlotsFrom,
}
use frostito.Slots.Changes.{has_commitment}
use frostito.Dkg.State.{DkgState, new_state, submit_commitment, disqualify}
use frostito.Dkg.State.Invariant.{Inv, new_state-Inv, disqualify-Inv, contains-add_disqualified}
use frostito.Dkg.State.Steps.{submit_commitment-Inv}

module _ (c : Curve) (sha512 : List ℕ → List ℕ) where
  open c use {Scalar, Point}

  -- One call that may change the state: a submission that is accepted, or a disqualification, even
  -- one that refuses or aborts.
  pub data Step (st next : DkgState Point) : Type 0 where
    submits :
        (sent : Round1Package Scalar Point) (added : Bool)
        → submit_commitment c sha512 st sent ≡ ok (next, added)
        → Step st next
    disqualifies : (d : ℕ) → (disqualify st d).0 ≡ next → Step st next

  pub data Run (start : DkgState Point) : DkgState Point → Type 0 where
    done : Run start start
    andthen : {st next : DkgState Point} → Run start st → Step st next → Run start next

  -- Somebody proved knowledge of the secret behind the commitment in this epoch.
  abbrev pub IsProven : ℕ → DealerCommitment Point → Type 0
  IsProven epoch k =
      (proof : ProofOfKnowledge Scalar Point) × (verify_package c sha512
          (record { commitment = k; proof_of_knowledge = proof }) epoch
        ≡ ok tt)

  pub record IsReached (epoch t n : ℕ) (st : DkgState Point) : Type 0 where
    pub inv : Inv st
    pub same_epoch : st.epoch ≡ epoch
    pub same_threshold : st.threshold ≡ t
    pub same_participants : st.num_participants ≡ n
    pub proven : SlotsFrom (IsProven epoch) 1 st.commitments

  new_state-IsReached : (epoch t n : ℕ) → IsReached epoch t n (new_state epoch t n)
  unfolding new_state
  new_state-IsReached epoch t n = record {
    inv = new_state-Inv epoch t n;
    same_epoch = refl;
    same_threshold = refl;
    same_participants = refl;
    proven = SlotsFrom-empty (IsProven epoch) 1 n;
  }

  disqualify-IsReached :
      (epoch t n : ℕ) (st : DkgState Point) (d : ℕ)
      → IsReached epoch t n st
      → IsReached epoch t n (disqualify st d).0
  unfolding disqualify
  disqualify-IsReached epoch t n st zero h = h
  disqualify-IsReached epoch t n st (suc idx) h =
      let after : Inv (disqualify st (suc idx)).0 = disqualify-Inv st (suc idx) h.inv in
      elim (Bool-cases (ltb idx (length st.commitments))) [
        | inr out ↦ rw out h
        | inl lt ↦ rw lt (record {
          inv = rw lt at after;
          same_epoch = h.same_epoch;
          same_threshold = h.same_threshold;
          same_participants = h.same_participants;
          proven = SlotsFrom-clear (IsProven epoch) 1 idx st.commitments h.proven;
        })
      ]

  disqualify-keeps_disqualified :
      (st : DkgState Point) (d e : ℕ)
      → contains st.disqualified e ≡ true
      → contains (disqualify st d).0.disqualified e ≡ true
  unfolding disqualify
  disqualify-keeps_disqualified st zero e h = h
  disqualify-keeps_disqualified st (suc idx) e h =
      elim (Bool-cases (ltb idx (length st.commitments))) [
        | inr out ↦ rw out h
        | inl lt ↦ rw lt (contains-add_disqualified (suc idx) e st.disqualified ∙ ground arith)
      ]

  -- An accepted submission changes the table only, by `record_commitment`.
  submit_commitment-recorded :
      (st : DkgState Point) (sent : Round1Package Scalar Point) {r : DkgState Point × Bool}
      → submit_commitment c sha512 st sent ≡ ok r
      → (stored : List (Option (DealerCommitment Point)) × Bool) × (record_commitment st.threshold
            st.commitments sent.commitment
          ≡ ok stored)
        × ((record st { commitments = stored.0 }, stored.1) ≡ r)
  unfolding submit_commitment
  submit_commitment-recorded st sent h =
      let (u, valid, rest) = >>=-eq-ok (verify_package c sha512 sent st.epoch) _ h in
      let free =
        refuse_if-eq-ok (contains st.disqualified sent.commitment.dealer_index)
          (unexpected_dealer sent.commitment.dealer_index) rest in
      let (stored, ran, made) =
        >>=-eq-ok (record_commitment st.threshold st.commitments sent.commitment) _ free.1 in
      (stored, ran, ok_injective made)

  submit_commitment-IsReached :
      (epoch t n : ℕ) (st : DkgState Point) (sent : Round1Package Scalar Point)
      {r : DkgState Point × Bool}
      → submit_commitment c sha512 st sent ≡ ok r
      → IsReached epoch t n st
      → IsReached epoch t n r.0
  submit_commitment-IsReached epoch t n st sent {r} h before =
      let (valid, free, after, same) = submit_commitment-Inv c sha512 st sent h before.inv in
      let (stored, ran, made) = submit_commitment-recorded st sent h in
      let whole : Path (DkgState Point) (record st { commitments = stored.0 }) r.0 =
        ap (λ q. q.0) made in
      let proof : IsProven epoch sent.commitment = (
        sent.proof_of_knowledge,
        ap (verify_package c sha512 sent) (sym before.same_epoch) ∙ valid,
      ) in
      record {
        inv = after;
        same_epoch = ap (λ s. s.epoch) (sym whole) ∙ before.same_epoch;
        same_threshold = ap (λ s. s.threshold) (sym whole) ∙ before.same_threshold;
        same_participants = ap (λ s. s.num_participants) (sym whole) ∙ before.same_participants;
        proven =
            subst (λ s. SlotsFrom (IsProven epoch) 1 s.commitments) whole
              (record_commitment-SlotsFrom (IsProven epoch) st.threshold st.commitments
                sent.commitment ran proof before.proven).0;
      }

  Step-IsReached :
      (epoch t n : ℕ) {st next : DkgState Point}
      → Step st next
      → IsReached epoch t n st
      → IsReached epoch t n next
  Step-IsReached epoch t n (Step.submits sent added h) before =
      submit_commitment-IsReached epoch t n _ sent h before
  Step-IsReached epoch t n {st} (Step.disqualifies d same) before =
      subst (IsReached epoch t n) same (disqualify-IsReached epoch t n st d before)

  Run-IsReached :
      (epoch t n : ℕ) {start st : DkgState Point}
      → IsReached epoch t n start
      → Run start st
      → IsReached epoch t n st
  Run-IsReached epoch t n h Run.done = h
  Run-IsReached epoch t n h (Run.andthen run step) =
      Step-IsReached epoch t n step (Run-IsReached epoch t n h run)

  Step-keeps_disqualified :
      (epoch t n : ℕ) {st next : DkgState Point} (d : ℕ)
      → IsReached epoch t n st
      → Step st next
      → contains st.disqualified d ≡ true
      → contains next.disqualified d ≡ true
  Step-keeps_disqualified epoch t n {st} d reached (Step.submits sent added h) barred =
      ap (λ ds. contains ds d) (submit_commitment-Inv c sha512 st sent h reached.inv).3 ∙ barred
  Step-keeps_disqualified epoch t n {st} d reached (Step.disqualifies e same) barred =
      ap (λ s. contains s.disqualified d) (sym same) ∙ disqualify-keeps_disqualified st e d barred

  Run-keeps_disqualified :
      (epoch t n : ℕ) {start st : DkgState Point} (d : ℕ)
      → IsReached epoch t n start
      → Run start st
      → contains start.disqualified d ≡ true
      → contains st.disqualified d ≡ true
  Run-keeps_disqualified epoch t n d h Run.done barred = barred
  Run-keeps_disqualified epoch t n d h (Run.andthen run step) barred =
      Step-keeps_disqualified epoch t n d (Run-IsReached epoch t n h run) step
        (Run-keeps_disqualified epoch t n d h run barred)

  -- Every state that a ceremony reaches is in order, with the epoch, threshold and size it was made
  -- with, and each recorded commitment stands in its dealer's slot and had an accepted proof for that
  -- epoch. A dealer that is disqualified at some point stays disqualified, and has no commitment, in
  -- every later state.
  pub ceremony_sound :
      (epoch t n : ℕ) {middle last : DkgState Point}
      → Run (new_state epoch t n) middle
      → Run middle last
      → IsReached epoch t n last
        × ((d : ℕ)
            → contains middle.disqualified d ≡ true
            → (contains last.disqualified d ≡ true) × (has_commitment last.commitments d ≡ false))
  ceremony_sound epoch t n earlier later =
      let reached = Run-IsReached epoch t n (new_state-IsReached epoch t n) earlier in
      let final = Run-IsReached epoch t n reached later in
      (
        final,
        λ d barred.
            let still = Run-keeps_disqualified epoch t n d reached later barred in
            (still, final.inv.excluded d still),
      )
