-- ===== src/Indices/Counting.antt =====
-- The pigeonhole principle on index lists, and membership after an append.
use frostito.Prelude.{
  ℕ, zero, suc, ◌≤◌, ◌+◌, ◌<◌, ◌≡◌, refl, ap, ◌∙◌, true, false, ◌||◌, List, [], ◌∷◌, ◌++◌, All,
  length, contains, take, ◌==◌, if◌then◌else◌, arith, Bool-cases, inl, inr,
}
use frostito.Indices.{is_distinct, all_positive}

abbrev pub IsSubset : List ℕ → List ℕ → Type 0
IsSubset xs ys = All (λ x. contains ys x ≡ true) xs

erase : ℕ → List ℕ → List ℕ
erase x [] = []
erase x (y ∷ ys) = if y == x then ys else y ∷ erase x ys

length-erase : (x : ℕ) (ys : List ℕ) → contains ys x ≡ true → length ys ≡ length (erase x ys) + 1
unfolding erase
length-erase x [] h = cc
length-erase x (y ∷ ys) h = ground (arith, length-erase x ys)

contains-erase :
    (x z : ℕ) (ys : List ℕ) → (x == z) ≡ false → contains (erase x ys) z ≡ contains ys z
unfolding erase
contains-erase x z [] h = refl
contains-erase x z (y ∷ ys) h = ground (arith, contains-erase x z ys)

IsSubset-erase :
    (x : ℕ) (xs ys : List ℕ) → contains xs x ≡ false → IsSubset xs ys → IsSubset xs (erase x ys)
IsSubset-erase x [] ys n h = tt
IsSubset-erase x (z ∷ xs) ys n h =
    (contains-erase x z ys (ground arith) ∙ h.0, IsSubset-erase x xs ys (ground arith) h.1)

-- A list without repetition that misses a member of `ys` is shorter than `ys`.
pub length-lt_of_missing :
    (xs ys : List ℕ) (y : ℕ)
    → is_distinct xs ≡ true
    → IsSubset xs ys
    → contains ys y ≡ true
    → contains xs y ≡ false
    → length xs < length ys
length-lt_of_missing [] [] y d h m n = cc
length-lt_of_missing [] (z ∷ ys) y d h m n = omega arith
length-lt_of_missing (x ∷ xs) ys y d h m n = omega (
  arith,
  length-erase x ys h.0,
  length-lt_of_missing xs (erase x ys) y (ground arith) (IsSubset-erase x xs ys (ground arith) h.1)
      (contains-erase x y ys (ground arith) ∙ m) (ground arith),
)

-- So one of the same length misses none.
pub contains_of_length :
    (xs ys : List ℕ) (y : ℕ)
    → is_distinct xs ≡ true
    → IsSubset xs ys
    → length xs ≡ length ys
    → contains ys y ≡ true
    → contains xs y ≡ true
contains_of_length xs ys y d h l m = elim (Bool-cases (contains xs y)) [
  | inl e ↦ e
  | inr n ↦ absurd (omega (arith, length-lt_of_missing xs ys y d h m n))
]

pub contains-take :
    (n : ℕ) (xs : List ℕ) (d : ℕ) → contains (take n xs) d ≡ true → contains xs d ≡ true
contains-take zero xs d h = cc
contains-take (suc n) [] d h = cc
contains-take (suc n) (x ∷ xs) d h = ground (arith, contains-take n xs d)

pub is_distinct-take :
    (n : ℕ) (xs : List ℕ) → is_distinct xs ≡ true → is_distinct (take n xs) ≡ true
is_distinct-take zero xs h = refl
is_distinct-take (suc n) [] h = refl
is_distinct-take (suc n) (x ∷ xs) h = ground (arith, contains-take n xs x, is_distinct-take n xs)

pub all_positive-take :
    (n : ℕ) (xs : List ℕ) → all_positive xs ≡ true → all_positive (take n xs) ≡ true
all_positive-take zero xs h = refl
all_positive-take (suc n) [] h = refl
all_positive-take (suc n) (x ∷ xs) h = ground (arith, all_positive-take n xs)

pub length-take : (n : ℕ) (xs : List ℕ) → n ≤ length xs → length (take n xs) ≡ n
length-take zero xs h = refl
length-take (suc n) [] h = absurd (omega arith)
length-take (suc n) (x ∷ xs) h = ap suc (length-take n xs (omega arith))

-- A list without repetition is no longer than one that holds all its members.
pub length-le_of_subset :
    (xs ys : List ℕ) → is_distinct xs ≡ true → IsSubset xs ys → length xs ≤ length ys
length-le_of_subset [] ys d h = omega arith
length-le_of_subset (x ∷ xs) ys d h =
    let member : contains ys x ≡ true = h.0 in
    let shorter : length xs < length ys =
      length-lt_of_missing xs ys x (ground arith) h.1 member (ground arith) in
    omega arith

pub contains-append_one :
    (xs : List ℕ) (x d : ℕ) → contains (xs ++ (x ∷ [])) d ≡ (contains xs d || x == d)
contains-append_one [] x d = ground arith
contains-append_one (y ∷ xs) x d = ground (arith, contains-append_one xs x d)

pub contains_absent : (k : ℕ) (xs : List ℕ) → All (λ j. (j == k) ≡ false) xs → contains xs k ≡ false
contains_absent k [] h = refl
contains_absent k (x ∷ xs) h = ground (arith, h.0, contains_absent k xs h.1)
