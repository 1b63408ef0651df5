-- ===== src/Reshare/Aggregator/DealerSet.antt =====
-- src/reshare.rs and src/dkg.rs: the dealer sets that `Aggregator::new` accepts.
use frostito.Prelude.{
  ℕ, ◌≤◌, ◌≡◌, ◌≢◌, refl, sym, ap, ◌∙◌, true, false, List, [], ◌∷◌, All, length, ◌==◌, arith,
  Bool-cases, inl, inr,
}
use frostito.Error.{ok}
use frostito.Indices.{sort, is_distinct, all_positive}
use frostito.Indices.Sorting.{IsSorted, sort-IsSorted, is_distinct-sort, scan-sort}
use frostito.Reshare.Aggregator.{check_first, checked_dealer_set}

positive_of_sorted :
    (a : ℕ) (xs : List ℕ) → (a == 0) ≡ false → All (λ y. a ≤ y) xs → all_positive xs ≡ true
positive_of_sorted a [] h s = refl
positive_of_sorted a (x ∷ xs) h s = ground (arith, positive_of_sorted a xs h s.1)

pub record IsDealerSet (dealers : List ℕ) : Type 0 where
  pub distinct : is_distinct dealers ≡ true
  pub positive : all_positive dealers ≡ true
  pub nonempty : dealers ≢ []

check_first_sound :
    (xs : List ℕ) {ys : List ℕ}
    → IsSorted xs
    → check_first xs ≡ ok ys
    → (ys ≡ xs) × (all_positive xs ≡ true) × (xs ≢ [])
unfolding check_first
check_first_sound [] s h = cc
check_first_sound (x ∷ xs) s h = elim (Bool-cases (x == 0)) [
  | inl z ↦ cc (rw z at h)
  | inr p ↦ (ground arith, ground (arith, positive_of_sorted x xs p s.0), λ e. cc)
]

-- The checked set is a dealer set with the members of the input, for a player that is not 0.
pub checked_dealer_set_sound :
    (player : ℕ) (dealers : List ℕ) {set : List ℕ}
    → checked_dealer_set player dealers ≡ ok set
    → ((player == 0) ≡ false) × (set ≡ sort dealers) × IsDealerSet set
unfolding checked_dealer_set
checked_dealer_set_sound player [] h = absurd (ground arith)
checked_dealer_set_sound player (x ∷ xs) {set} h = elim (Bool-cases (player == 0)) [
  | inl z ↦ cc (rw z at h)
  | inr p ↦ elim (scan-sort (x ∷ xs)) [
    | inr (d, m, n, r) ↦ cc (rw (p, some_dealer, r) at h)
    | inl (d, r) ↦
        let first =
          check_first_sound (sort (x ∷ xs)) (sort-IsSorted (x ∷ xs))
            (rw (p, some_dealer, r) at h) in
        (
          p,
          first.0,
          record {
            distinct = ap is_distinct first.0 ∙ is_distinct-sort (x ∷ xs) ∙ d;
            positive = ap all_positive first.0 ∙ first.1;
            nonempty = λ e. first.2 (sym first.0 ∙ e);
          },
        )
  ]
]
  where
    some_dealer : (length (x ∷ xs) == 0) ≡ false
    some_dealer = ground arith
