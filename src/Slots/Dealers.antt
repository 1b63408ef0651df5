-- ===== src/Slots/Dealers.antt =====
-- The invariant of the commitment table, and its recorded dealers.
use frostito.Prelude.{
  ℕ, zero, suc, ◌+◌, ◌<◌, ◌≡◌, ◌≢◌, refl, sym, ap, subst, ◌∙◌, Bool, true, false, List, [], ◌∷◌,
  All, length, length-set, get_elem?, set, contains, ◌==◌, ==_iff, Option, none, some, arith,
  Bool-cases, Option-cases, inl, inr, ◌⊎◌,
}
use frostito.Error.{ok, >>=-eq-ok, ok_injective}
use frostito.Indices.{is_distinct, all_positive}
use frostito.Commitment.{DealerCommitment, threshold}
use frostito.Slots.{
  empty_slots, checked_pred, filled, dealer_indices, store, record_commitment, slot_at,
}

checked_pred-eq : (n : ℕ) {idx : ℕ} → checked_pred n ≡ ok idx → n ≡ suc idx
checked_pred-eq zero h = cc
checked_pred-eq (suc n) h = ap suc (ok_injective h)

-- A recorded commitment has the agreed threshold, and a constant term.
abbrev pub IsRecorded : {P : Type 0} → ℕ → DealerCommitment P → Type 0
IsRecorded t k = (threshold k ≡ t) × (k.coefficients ≢ [])

module _ {P : Type 0} where
  -- Positions are counted from dealer `i`; every commitment satisfies `Q`.
  abbrev pub SlotsFrom :
      (DealerCommitment P → Type 0) → ℕ → List (Option (DealerCommitment P)) → Type 0
  SlotsFrom Q i [] = Unit
  SlotsFrom Q i (none ∷ rest) = SlotsFrom Q (suc i) rest
  SlotsFrom Q i (some k ∷ rest) = (k.dealer_index ≡ i) × Q k × SlotsFrom Q (suc i) rest

  pub SlotsFrom-empty : (Q : DealerCommitment P → Type 0) (i n : ℕ) → SlotsFrom Q i (empty_slots n)
  SlotsFrom-empty Q i zero = tt
  SlotsFrom-empty Q i (suc n) = SlotsFrom-empty Q (suc i) n

  pub SlotsFrom-set :
      (Q : DealerCommitment P → Type 0) (i idx : ℕ) (slots : List (Option (DealerCommitment P)))
      (k : DealerCommitment P)
      → SlotsFrom Q i slots
      → k.dealer_index ≡ i + idx
      → Q k
      → SlotsFrom Q i (set slots idx (some k))
  SlotsFrom-set Q i idx [] k h e q = tt
  SlotsFrom-set Q i zero (none ∷ rest) k h e q = (omega arith, q, h)
  SlotsFrom-set Q i zero (some old ∷ rest) k h e q = (omega arith, q, h.2)
  SlotsFrom-set Q i (suc idx) (none ∷ rest) k h e q =
      SlotsFrom-set Q (suc i) idx rest k h (omega arith) q
  SlotsFrom-set Q i (suc idx) (some old ∷ rest) k h e q =
      (h.0, h.1, SlotsFrom-set Q (suc i) idx rest k h.2 (omega arith) q)

  -- A dropped commitment.
  pub SlotsFrom-clear :
      (Q : DealerCommitment P → Type 0) (i idx : ℕ) (slots : List (Option (DealerCommitment P)))
      → SlotsFrom Q i slots
      → SlotsFrom Q i (set slots idx none)
  SlotsFrom-clear Q i idx [] h = tt
  SlotsFrom-clear Q i zero (none ∷ rest) h = h
  SlotsFrom-clear Q i zero (some old ∷ rest) h = h.2
  SlotsFrom-clear Q i (suc idx) (none ∷ rest) h = SlotsFrom-clear Q (suc i) idx rest h
  SlotsFrom-clear Q i (suc idx) (some old ∷ rest) h =
      (h.0, h.1, SlotsFrom-clear Q (suc i) idx rest h.2)

  pub store-slots :
      (slots : List (Option (DealerCommitment P))) (idx : ℕ) (k : DealerCommitment P)
      (slot : Option (DealerCommitment P))
      → ((store slots idx k slot).0 ≡ slots) × (slot ≢ none)
        ⊎ ((store slots idx k slot).0 ≡ set slots idx (some k)) × (slot ≡ none)
  unfolding store
  store-slots slots idx k (some old) = inl (refl, λ e. cc)
  store-slots slots idx k none = inr (refl, refl)

  -- An accepted commitment leaves the table as it is, or fills its dealer's empty slot.
  pub record_commitment-slots :
      (expected : ℕ) (slots : List (Option (DealerCommitment P))) (k : DealerCommitment P)
      {r : List (Option (DealerCommitment P)) × Bool}
      → record_commitment expected slots k ≡ ok r
      → (idx : ℕ) × (k.dealer_index ≡ suc idx)
        × (threshold k ≡ expected)
        × (slot : Option (DealerCommitment P)) × (get_elem? slots idx ≡ some slot)
        × (r ≡ store slots idx k slot)
  unfolding record_commitment
  record_commitment-slots expected slots k {r} h =
      let (idx, at, after) = >>=-eq-ok (checked_pred k.dealer_index) _ h in
      elim (Option-cases (get_elem? slots idx)) [
        | inl e ↦ cc (rw e at after)
        | inr (slot, e) ↦ elim (Bool-cases (threshold k == expected)) [
          | inl t ↦ (
            idx,
            checked_pred-eq k.dealer_index at,
            (==_iff (threshold k) expected).0 t,
            slot,
            e,
            sym (ok_injective (rw (e, t) at after)),
          )
          | inr f ↦ cc (rw (e, f) at after)
        ]
      ]

  -- Recording keeps the table's invariant.
  pub record_commitment-SlotsFrom :
      (Q : DealerCommitment P → Type 0) (expected : ℕ) (slots : List (Option (DealerCommitment P)))
      (k : DealerCommitment P) {r : List (Option (DealerCommitment P)) × Bool}
      → record_commitment expected slots k ≡ ok r
      → Q k
      → SlotsFrom Q 1 slots
      → SlotsFrom Q 1 r.0 × (length r.0 ≡ length slots)
  record_commitment-SlotsFrom Q expected slots k {r} h q inv =
      let (idx, named, _, slot, _, e) = record_commitment-slots expected slots k h in
      elim (store-slots slots idx k slot) [
        | inl (same, _) ↦
            subst (λ s. SlotsFrom Q 1 s × (length s ≡ length slots)) (sym (ap (λ p. p.0) e ∙ same))
              (inv, refl)
        | inr (stored, _) ↦
            subst (λ s. SlotsFrom Q 1 s × (length s ≡ length slots))
              (sym (ap (λ p. p.0) e ∙ stored))
              (
                SlotsFrom-set Q 1 idx slots k inv (named ∙ omega arith) q,
                length-set slots idx (some k),
              )
      ]

  pub dealers_above :
      (Q : DealerCommitment P → Type 0) (i j : ℕ) (slots : List (Option (DealerCommitment P)))
      → SlotsFrom Q i slots
      → j < i
      → (contains (dealer_indices (filled slots)) j ≡ false)
  unfolding filled dealer_indices
  dealers_above Q i j [] h lt = refl
  dealers_above Q i j (none ∷ rest) h lt = dealers_above Q (suc i) j rest h (omega arith)
  dealers_above Q i j (some k ∷ rest) (named, q, h) lt =
      ground (arith, dealers_above Q (suc i) j rest h)

  -- The recorded dealers are positive and do not repeat.
  pub dealers_distinct :
      (Q : DealerCommitment P → Type 0) (i : ℕ) (slots : List (Option (DealerCommitment P)))
      → SlotsFrom Q i slots
      → 0 < i
      → (is_distinct (dealer_indices (filled slots)) ≡ true)
        × (all_positive (dealer_indices (filled slots)) ≡ true)
  unfolding filled dealer_indices
  dealers_distinct Q i [] h lt = (refl, refl)
  dealers_distinct Q i (none ∷ rest) h lt = dealers_distinct Q (suc i) rest h (omega arith)
  dealers_distinct Q i (some k ∷ rest) (named, q, h) lt =
      let (d, p) = dealers_distinct Q (suc i) rest h (omega arith) in
      let above = dealers_above Q (suc i) i rest h (omega arith) in (ground arith, ground arith)

  -- A recorded dealer's commitment stands in its slot, and is one of those that `filled` lists.
  pub slot_of_dealer {ℓ} :
      (Q : DealerCommitment P → Type 0) (R : DealerCommitment P → Type ℓ) (i d : ℕ)
      (slots : List (Option (DealerCommitment P)))
      → SlotsFrom Q i slots
      → All R (filled slots)
      → contains (dealer_indices (filled slots)) d ≡ true
      → (idx : ℕ) × (k : DealerCommitment P) × (d ≡ i + idx)
        × (idx < length slots)
        × (get_elem? slots idx ≡ some (some k))
        × (k.dealer_index ≡ d)
        × Q k
        × R k
  unfolding filled dealer_indices
  slot_of_dealer Q R i d [] h r m = cc
  slot_of_dealer Q R i d (none ∷ rest) h r m =
      let (idx, k, e, lt, at, named, q, x) = slot_of_dealer Q R (suc i) d rest h r m in
      (suc idx, k, omega arith, omega arith, at, named, q, x)
  slot_of_dealer Q R i d (some k ∷ rest) (own, q, h) (x, r) m =
      elim (Bool-cases (k.dealer_index == d)) [
        | inl here ↦
            let named : k.dealer_index ≡ d = (==_iff k.dealer_index d).0 here in
            (0, k, omega arith, omega arith, refl, named, q, x)
        | inr there ↦
            let (idx, found, e, lt, at, named, s, y) =
              slot_of_dealer Q R (suc i) d rest h r (rw there at m) in
            (suc idx, found, omega arith, omega arith, at, named, s, y)
      ]

  -- The same for the lookup by dealer index.
  pub slot_at_dealer {ℓ} :
      (Q : DealerCommitment P → Type 0) (R : DealerCommitment P → Type ℓ) (d : ℕ)
      (slots : List (Option (DealerCommitment P)))
      → SlotsFrom Q 1 slots
      → All R (filled slots)
      → contains (dealer_indices (filled slots)) d ≡ true
      → (k : DealerCommitment P) × (d < suc (length slots))
        × (slot_at slots d ≡ ok k)
        × (k.dealer_index ≡ d)
        × Q k
        × R k
  unfolding slot_at
  slot_at_dealer Q R d slots h r m =
      let (idx, k, e, lt, at, named, q, x) = slot_of_dealer Q R 1 d slots h r m in
      let e' : d ≡ suc idx = omega arith in
      (k, omega arith, ap (slot_at slots) e' ∙ rw at refl, named, q, x)
