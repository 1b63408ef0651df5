-- ===== src/Dkg/State/Invariant.antt =====
-- src/dkg.rs, `DkgState`: the invariant of the ceremony state.
use frostito.Prelude.{
  ℕ, zero, suc, ◌<◌, ◌≤◌, ◌≡◌, refl, sym, ap, ◌∙◌, true, false, ◌||◌, List, [], ◌∷◌, ◌++◌, length,
  length-set, length-replicate, set, contains, All-of_contains, ltb, ltb→lt, ◌==◌, ==_iff, none,
  arith, Bool-cases, inl, inr,
}
use frostito.Indices.{is_distinct}
use frostito.Indices.Sorting.{contains-sort, is_distinct-sort}
use frostito.Indices.Counting.{length-le_of_subset, contains-append_one}
use frostito.Slots.Dealers.{IsRecorded, SlotsFrom, SlotsFrom-empty, SlotsFrom-clear}
use frostito.Slots.Changes.{has_commitment, has_commitment-clear, has_commitment-cleared}
use frostito.Dkg.{range}
use frostito.Dkg.Ranges.{contains-range, length-range}
use frostito.Dkg.State.{DkgState, new_state, add_disqualified, disqualify}

pub record Inv {P : Type 0} (st : DkgState P) : Type 0 where
  pub slots : SlotsFrom (IsRecorded st.threshold) 1 st.commitments
  pub sized : length st.commitments ≡ st.num_participants
  pub distinct : is_distinct st.disqualified ≡ true
  pub bounded : (d : ℕ) → contains st.disqualified d ≡ true → (0 < d) × (d ≤ st.num_participants)
  pub excluded :
      (d : ℕ) → contains st.disqualified d ≡ true → has_commitment st.commitments d ≡ false

is_distinct-append_one :
    (xs : List ℕ) (x : ℕ)
    → is_distinct xs ≡ true
    → contains xs x ≡ false
    → is_distinct (xs ++ (x ∷ [])) ≡ true
is_distinct-append_one [] x h n = refl
is_distinct-append_one (y ∷ xs) x h n =
    ground (arith, contains-append_one xs x y, is_distinct-append_one xs x)

-- Exactly one dealer joins the disqualified ones.
pub contains-add_disqualified :
    (d e : ℕ) (xs : List ℕ) → contains (add_disqualified d xs) e ≡ (contains xs e || d == e)
unfolding add_disqualified
contains-add_disqualified d e xs = elim (Bool-cases (contains xs d)) [
  | inl old ↦ rw old (elim (Bool-cases (d == e)) [
    | inl same ↦
        let same' : d ≡ e = (==_iff d e).0 same in
        let there : contains xs e ≡ true = ap (contains xs) (sym same') ∙ old in ground arith
    | inr other ↦ ground arith
  ])
  | inr new ↦ rw new (contains-sort (xs ++ (d ∷ [])) e ∙ contains-append_one xs d e)
]

is_distinct-add_disqualified :
    (d : ℕ) (xs : List ℕ) → is_distinct xs ≡ true → is_distinct (add_disqualified d xs) ≡ true
unfolding add_disqualified
is_distinct-add_disqualified d xs h = elim (Bool-cases (contains xs d)) [
  | inl old ↦ rw old h
  | inr new ↦ rw new (is_distinct-sort (xs ++ (d ∷ [])) ∙ is_distinct-append_one xs d h new)
]

module _ {P : Type 0} where
  -- A new ceremony is in order.
  pub new_state-Inv : (epoch t n : ℕ) → Inv {P = P} (new_state epoch t n)
  unfolding new_state
  new_state-Inv epoch t n = record {
    slots = SlotsFrom-empty (IsRecorded t) 1 n;
    sized = length-replicate n none;
    distinct = refl;
    bounded = λ d h. cc;
    excluded = λ d h. cc;
  }

  excluded_after :
      (st : DkgState P) (idx d : ℕ)
      → Inv st
      → contains (add_disqualified (suc idx) st.disqualified) d ≡ true
      → has_commitment (set st.commitments idx none) d ≡ false
  excluded_after st idx d inv h = elim (Bool-cases (suc idx == d)) [
    | inl same ↦
        ap (has_commitment (set st.commitments idx none))
          (sym ((==_iff (suc idx) d).0 same) ∙ omega arith)
        ∙ has_commitment-cleared (IsRecorded st.threshold) 1 idx st.commitments inv.slots
    | inr other ↦
        let before : contains st.disqualified d ≡ true =
          ground (arith, contains-add_disqualified (suc idx) d st.disqualified) in
        elim (Bool-cases (has_commitment (set st.commitments idx none) d)) [
          | inr missing ↦ missing
          | inl found ↦ cc (has_commitment-clear st.commitments idx d found, inv.excluded d before)
        ]
  ]

  bounded_after :
      (st : DkgState P) (idx d : ℕ)
      → Inv st
      → idx < length st.commitments
      → contains (add_disqualified (suc idx) st.disqualified) d ≡ true
      → (0 < d) × (d ≤ st.num_participants)
  bounded_after st idx d inv lt h = elim (Bool-cases (contains st.disqualified d)) [
    | inl old ↦ inv.bounded d old
    | inr new ↦
        let same : suc idx ≡ d =
          ground (arith, contains-add_disqualified (suc idx) d st.disqualified) in
        (omega arith, omega (arith, inv.sized))
  ]

  -- The state that `disqualify` leaves is in order if the state before was, whether the call succeeds,
  -- aborts or refuses.
  pub disqualify-Inv : (st : DkgState P) (d : ℕ) → Inv st → Inv (disqualify st d).0
  unfolding disqualify
  disqualify-Inv st zero inv = inv
  disqualify-Inv st (suc idx) inv = elim (Bool-cases (ltb idx (length st.commitments))) [
    | inr out ↦ rw out inv
    | inl lt ↦ rw lt (record {
      slots = SlotsFrom-clear (IsRecorded st.threshold) 1 idx st.commitments inv.slots;
      sized = length-set st.commitments idx none ∙ inv.sized;
      distinct = is_distinct-add_disqualified (suc idx) st.disqualified inv.distinct;
      bounded = λ d. bounded_after st idx d inv (ltb→lt idx (length st.commitments) lt);
      excluded = λ d. excluded_after st idx d inv;
    })
  ]

  -- There are never more disqualified dealers than participants.
  pub disqualified-le : (st : DkgState P) → Inv st → length st.disqualified ≤ st.num_participants
  disqualified-le st inv = omega (
    arith,
    length-range 1 st.num_participants,
    length-le_of_subset st.disqualified (range 1 st.num_participants) inv.distinct (
        All-of_contains _ st.disqualified (λ d m.
          contains-range 1 st.num_participants d (omega (arith, (inv.bounded d m).0))
            (omega (arith, (inv.bounded d m).1)))),
  )
