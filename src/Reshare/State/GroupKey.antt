-- ===== src/Reshare/State/GroupKey.antt =====
-- src/reshare.rs, `ReshareState`: the order of its table, and its group-key check.
use frostito.Prelude.{
  ℕ, suc, ◌<◌, ◌≤◌, ◌≡◌, ◌≢◌, refl, sym, ap, subst, ◌∙◌, Bool, true, List, [], ◌∷◌, All,
  All-of_contains, length, map, contains, take, leb, decide, arith, Bool-cases, inl, inr, Option,
}
use frostito.Error.{ok, ◌>>=◌, >>=-eq-ok, ok_injective}
use frostito.Curve.{Curve}
use frostito.Curve.Ring.{group}
use frostito.Indices.Counting.{contains-take, is_distinct-take, all_positive-take, length-take}
use frostito.Polynomial.{horner}
use frostito.Lagrange.Nodes.{Fits}
use frostito.Lagrange.Coefficients.{reference_coefficients, compute_lagrange-reference}
use frostito.Lagrange.Combination.{combine, combine-compute_lagrange}
use frostito.Commitment.{DealerCommitment, share_commitment}
use frostito.ProofOfKnowledge.{ProofOfKnowledge, verify_possession}
use frostito.Slots.{filled, dealer_indices, record_commitment, slot_at}
use frostito.Slots.Dealers.{
  IsRecorded, SlotsFrom, SlotsFrom-empty, record_commitment-slots, record_commitment-SlotsFrom,
  dealers_distinct, slot_at_dealer,
}
use frostito.Reshare.State.{
  ReshareState, new_state, dealer_set, has_quorum, commitment_count, submit_commitment,
  group_key_loop, verify_group_key,
}

-- The commitment in position i - 1 is dealer i's.
abbrev pub IsOrdered : {P : Type 0} → ReshareState P → Type 0
IsOrdered st = SlotsFrom (IsRecorded st.new_threshold) 1 st.commitments

module _ (c : Curve) (sha512 : List ℕ → List ℕ) where
  open c use {Scalar, Point}

  -- A new round has an empty table, which is in order.
  pub new_state-IsOrdered :
      (epoch dealers old_t new_t players : ℕ) (key : Point)
      → IsOrdered (new_state epoch dealers old_t new_t players key)
  unfolding new_state
  new_state-IsOrdered epoch dealers old_t new_t players key =
      SlotsFrom-empty (IsRecorded new_t) 1 dealers

  possession_nonempty :
      (k : DealerCommitment Point) (epoch : ℕ) (proof : ProofOfKnowledge Scalar Point)
      → verify_possession c sha512 k epoch proof ≡ true
      → k.coefficients ≢ []
  unfolding verify_possession
  possession_nonempty k epoch proof h e = cc (rw e at h)

  -- An accepted submission had a valid proof of possession in the target epoch, and keeps a
  -- table that was in order in order, and at its size.
  pub submit_commitment-IsOrdered :
      (st : ReshareState Point) (k : DealerCommitment Point) (proof : ProofOfKnowledge Scalar Point)
      {r : ReshareState Point × Bool}
      → submit_commitment c sha512 st k proof ≡ ok r
      → IsOrdered st
      → (verify_possession c sha512 k st.target_epoch proof ≡ true)
        × IsOrdered r.0
        × (length r.0.commitments ≡ length st.commitments)
  unfolding submit_commitment
  submit_commitment-IsOrdered st k proof {r} h inv =
      elim (Bool-cases (verify_possession c sha512 k st.target_epoch proof)) [
        | inr bad ↦ cc (rw bad at h)
        | inl valid ↦
            let (stored, ran, made) =
              >>=-eq-ok (record_commitment st.new_threshold st.commitments k) _ (rw valid at h) in
            let (_, _, sized, _, _, _) =
              record_commitment-slots st.new_threshold st.commitments k ran in
            let kept =
              record_commitment-SlotsFrom (IsRecorded st.new_threshold) st.new_threshold
                st.commitments k ran (sized, possession_nonempty k st.target_epoch proof valid)
                inv in
            subst
              (λ q.
                (verify_possession c sha512 k st.target_epoch proof ≡ true)
                × IsOrdered q.0
                × (length q.0.commitments ≡ length st.commitments))
              (ok_injective made) (valid, kept.0, kept.1)
      ]

module _ (c : Curve) where
  infixr 70 ◌•◌
  infixl 65 ◌⊕◌ ◌⊞◌
  infixl 70 ◌⊗◌
  open c use {
    Scalar, Point, generator, identity, ◌•◌, ◌⊞◌, ◌⊕◌, ◌⊗◌, zero as zero_scalar, from_u32, capacity,
    point_eq, scalars,
  }

  -- The commitment opens with its dealer's old share's public point.
  abbrev pub OpensOn : List Scalar → DealerCommitment Point → Type 0
  OpensOn f k = share_commitment k ≡ ok (horner scalars (from_u32 k.dealer_index) f • generator)

  abbrev Opened : List (Option (DealerCommitment Point)) → (ℕ → Scalar) → ℕ → Type 0
  Opened slots val d =
      (k : DealerCommitment Point) × (slot_at slots d ≡ ok k)
      × (share_commitment k ≡ ok (val d • generator))

  group_key_loop-combine :
      (slots : List (Option (DealerCommitment Point))) (val : ℕ → Scalar) (ds : List ℕ)
      (ls : List Scalar) (acc : Scalar)
      → All (Opened slots val) ds
      → group_key_loop c slots ds ls (acc • generator)
        ≡ ok (combine scalars acc ls (map val ds) • generator)
  unfolding group_key_loop combine
  group_key_loop-combine slots val [] [] acc h = refl
  group_key_loop-combine slots val [] (l ∷ ls) acc h = refl
  group_key_loop-combine slots val (d ∷ ds) [] acc h = refl
  group_key_loop-combine slots val (d ∷ ds) (l ∷ ls) acc ((k, found, opens), rest) =
      rw (found, opens)
        (ap (group_key_loop c slots ds ls) (gather acc l (val d))
          ∙ group_key_loop-combine slots val ds ls (acc ⊕ l ⊗ val d) rest)
    where
      gather : (u m v : Scalar) → u • generator ⊞ m • v • generator ≡ (u ⊕ m ⊗ v) • generator
      gather u m v = simp group

  Opened-of :
      (f : List Scalar) (st : ReshareState Point) (ds : List ℕ)
      → IsOrdered st
      → All (OpensOn f) (filled st.commitments)
      → ((d : ℕ)
          → contains ds d ≡ true
          → contains (dealer_indices (filled st.commitments)) d ≡ true)
      → length st.commitments < capacity
      → All (Opened st.commitments (λ d. horner scalars (from_u32 d) f)) ds × Fits scalars ds
  Opened-of f st ds inv opens sub fits = (
    All-of_contains _ ds (λ d m.
        let (k, _, at, named, _, o) =
          slot_at_dealer (IsRecorded st.new_threshold) (OpensOn f) d st.commitments inv opens
            (sub d m) in
        (k, at, o ∙ ap (λ i. ok (horner scalars (from_u32 i) f • generator)) named)),
    All-of_contains _ ds (λ d m.
        let (k, lt, _, _, _, _) =
          slot_at_dealer (IsRecorded st.new_threshold) (OpensOn f) d st.commitments inv opens
            (sub d m) in
        omega arith),
  )

  leb→le : {m n : ℕ} → leb m n ≡ true → m ≤ n
  leb→le h = ground arith

  length-dealer_indices :
      (ks : List (DealerCommitment Point)) → length (dealer_indices ks) ≡ length ks
  unfolding dealer_indices
  length-dealer_indices [] = refl
  length-dealer_indices (k ∷ ks) = ap suc (length-dealer_indices ks)

  -- In a round in order with a quorum, a positive old threshold and fewer slots than the field's capacity,
  -- whose recorded commitments open with old shares on a polynomial f of at most old-threshold many
  -- coefficients, the check returns whether the public point of f(0) is the expected group key.
  pub verify_group_key-checks :
      (st : ReshareState Point) (f : List Scalar)
      → IsOrdered st
      → length st.commitments < capacity
      → has_quorum st ≡ true
      → 0 < st.old_threshold
      → length f ≤ st.old_threshold
      → All (OpensOn f) (filled st.commitments)
      → verify_group_key c st
        ≡ ok (decide (point_eq (horner scalars zero_scalar f • generator) st.group_key))
  unfolding verify_group_key dealer_set has_quorum commitment_count
  verify_group_key-checks st f inv fits quorum positive size opens =
      let known = dealer_indices (filled st.commitments) in
      let ds = take st.old_threshold known in
      let enough : leb st.old_threshold (length (filled st.commitments)) ≡ true = quorum in
      let count : length ds ≡ st.old_threshold =
        length-take st.old_threshold known
          (omega (arith, length-dealer_indices (filled st.commitments), leb→le enough)) in
      let (distinct, positive_all) =
        dealers_distinct (IsRecorded st.new_threshold) 1 st.commitments inv (omega arith) in
      let (opened, fit) = Opened-of f st ds inv opens (contains-take st.old_threshold known) fits in
      let reference =
        compute_lagrange-reference scalars ds (λ e. absurd (omega (arith, count, ap length e))) fit
          (all_positive-take st.old_threshold known positive_all)
          (is_distinct-take st.old_threshold known distinct) in
      rw (enough, reference)
        (ap (λ m. m >>= λ key. ok (decide (point_eq key st.group_key)))
          (ap (group_key_loop c st.commitments ds (reference_coefficients scalars ds))
              (sym (c.zero-smul generator))
            ∙ group_key_loop-combine st.commitments (λ d. horner scalars (from_u32 d) f) ds
                (reference_coefficients scalars ds) zero_scalar opened
            ∙ ap (λ v. ok (v • generator))
                (combine-compute_lagrange scalars ds f (reference_coefficients scalars ds) fit
                  (omega (arith, count)) reference)))
