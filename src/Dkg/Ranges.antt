-- ===== src/Dkg/Ranges.antt =====
-- src/dkg.rs: the dealer set 1 to n, which `all_dealers` and the ceremonies use.
use frostito.Prelude.{
  ℕ, zero, suc, ◌+◌, ◌<◌, ◌≤◌, ◌≡◌, refl, ap, ◌∙◌, true, false, map, length, get_elem?, contains,
  some, ◌==◌, arith, Bool-cases, inl, inr,
}
use frostito.Error.{ok}
use frostito.Indices.{sort, insert, scan_duplicates, scan_after}
use frostito.Reshare.Aggregator.{checked_dealer_set, check_first}
use frostito.Dkg.{range}

pub get_elem?-range :
    {A : Type 0} (f : ℕ → A) (from count i : ℕ)
    → i < count
    → get_elem? (map f (range from count)) i ≡ some (f (from + i))
get_elem?-range f from zero i h = absurd (omega arith)
get_elem?-range f from (suc count) zero h = ap (λ d. some (f d)) (omega arith)
get_elem?-range f from (suc count) (suc i) h =
    get_elem?-range f (suc from) count i (omega arith) ∙ ap (λ d. some (f d)) (omega arith)

pub contains-range :
    (from count d : ℕ) → from ≤ d → d < from + count → contains (range from count) d ≡ true
contains-range from zero d a b = absurd (omega arith)
contains-range from (suc count) d a b = elim (Bool-cases (from == d)) [
  | inl e ↦ rw e
  | inr n ↦ rw n (contains-range (suc from) count d (ground arith) (omega arith))
]

pub length-range : (from count : ℕ) → length (range from count) ≡ count
length-range from zero = refl
length-range from (suc count) = ap suc (length-range (suc from) count)

-- A range is sorted and has no repetition.
sort-range : (from count : ℕ) → sort (range from count) ≡ range from count
unfolding sort insert
sort-range from zero = refl
sort-range from (suc zero) = refl
sort-range from (suc (suc count)) = rw (sort-range (suc from) (suc count)) (ground arith)

scan_after-range : (from count : ℕ) → scan_after from (range (suc from) count) ≡ ok tt
unfolding scan_after
scan_after-range from zero = refl
scan_after-range from (suc count) = ground (arith, scan_after-range (suc from) count)

pub suc_nonzero : (n : ℕ) → (suc n == 0) ≡ false
suc_nonzero n = ground arith

-- The dealers 1 to n are accepted as they are.
pub checked_dealer_set-range :
    (player n : ℕ)
    → (player == 0) ≡ false
    → 0 < n
    → checked_dealer_set player (range 1 n) ≡ ok (range 1 n)
unfolding checked_dealer_set check_first scan_duplicates
checked_dealer_set-range player zero p h = absurd (omega arith)
checked_dealer_set-range player (suc n) p h =
    rw (p, suc_nonzero (length (range 2 n)), sort-range 1 (suc n), scan_after-range 1 n) refl
