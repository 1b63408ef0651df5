-- ===== src/Indices/Sorting.antt =====
-- The sort and the scan for duplicates on index lists.
use frostito.Prelude.{
  ℕ, ◌≤◌, ◌<◌, ◌≡◌, refl, ap, ◌∙◌, sym, true, false, not, ◌&&◌, ◌||◌, List, [], ◌∷◌, arith, ◌==◌,
  contains, All, length, Bool-cases, inl, inr, ◌⊎◌, ◌+◌,
}
use frostito.Error.{Result, ok, err, duplicate_index}
use frostito.Indices.{insert, sort, scan_after, scan_duplicates, is_distinct, occurrences}

-- Each element is at most the later ones.
abbrev pub IsSorted : List ℕ → Type 0
IsSorted [] = Unit
IsSorted (x ∷ xs) = All (λ y. x ≤ y) xs × IsSorted xs

pub contains-insert : (a y : ℕ) (xs : List ℕ) → contains (insert a xs) y ≡ (a == y || contains xs y)
unfolding insert
contains-insert a y [] = refl
contains-insert a y (x ∷ xs) = ground (arith, contains-insert a y xs)

-- The sort keeps the members.
pub contains-sort : (xs : List ℕ) (y : ℕ) → contains (sort xs) y ≡ contains xs y
unfolding sort
contains-sort [] y = refl
contains-sort (x ∷ xs) y =
    contains-insert x y (sort xs) ∙ ap (λ b. x == y || b) (contains-sort xs y)

pub length-insert : (a : ℕ) (xs : List ℕ) → length (insert a xs) ≡ length xs + 1
unfolding insert
length-insert a [] = omega arith
length-insert a (x ∷ xs) = ground (arith, length-insert a xs)

pub length-sort : (xs : List ℕ) → length (sort xs) ≡ length xs
unfolding sort
length-sort [] = refl
length-sort (x ∷ xs) = omega (arith, length-insert x (sort xs), length-sort xs)

occurrences-insert : (a d : ℕ) (xs : List ℕ) → occurrences d (insert a xs) ≡ occurrences d (a ∷ xs)
unfolding insert
occurrences-insert a d [] = refl
occurrences-insert a d (x ∷ xs) = ground (arith, occurrences-insert a d xs)

-- The sort keeps how often each element occurs.
pub occurrences-sort : (xs : List ℕ) (d : ℕ) → occurrences d (sort xs) ≡ occurrences d xs
unfolding sort
occurrences-sort [] d = refl
occurrences-sort (x ∷ xs) d = omega (arith, occurrences-insert x d (sort xs), occurrences-sort xs d)

All-le_trans : {a b : ℕ} (xs : List ℕ) → a ≤ b → All (λ y. b ≤ y) xs → All (λ y. a ≤ y) xs
All-le_trans [] h k = tt
All-le_trans (x ∷ xs) h k = (omega arith, All-le_trans xs h k.1)

All-insert : (b a : ℕ) (xs : List ℕ) → b ≤ a → All (λ y. b ≤ y) xs → All (λ y. b ≤ y) (insert a xs)
unfolding insert
All-insert b a [] h k = (h, tt)
All-insert b a (x ∷ xs) h k = ground (arith, All-insert b a xs)

insert-IsSorted : (a : ℕ) (xs : List ℕ) → IsSorted xs → IsSorted (insert a xs)
unfolding insert
insert-IsSorted a [] s = (tt, tt)
insert-IsSorted a (x ∷ xs) s =
    ground (arith, insert-IsSorted a xs, All-insert x a xs, All-le_trans {a = a} {b = x} xs)

-- The sort orders them.
pub sort-IsSorted : (xs : List ℕ) → IsSorted (sort xs)
unfolding sort
sort-IsSorted [] = tt
sort-IsSorted (x ∷ xs) = insert-IsSorted x (sort xs) (sort-IsSorted xs)

pub is_distinct-insert :
    (a : ℕ) (xs : List ℕ) → is_distinct (insert a xs) ≡ not (contains xs a) && is_distinct xs
unfolding insert
is_distinct-insert a [] = refl
is_distinct-insert a (x ∷ xs) = ground (arith, is_distinct-insert a xs, contains-insert a x xs)

-- The sort neither makes nor removes a repetition.
pub is_distinct-sort : (xs : List ℕ) → is_distinct (sort xs) ≡ is_distinct xs
unfolding sort
is_distinct-sort [] = refl
is_distinct-sort (x ∷ xs) =
    ground (arith, is_distinct-insert x (sort xs), contains-sort xs x, is_distinct-sort xs)

contains_below : {a b : ℕ} (xs : List ℕ) → a < b → All (λ y. b ≤ y) xs → contains xs a ≡ false
contains_below [] h k = refl
contains_below {a} {b} (x ∷ xs) h k = ground (arith, contains_below {a = a} {b = b} xs h k.1)

-- What the scan of a sorted list returns: success exactly without repetition, and otherwise a
-- index that occurs more than once.
abbrev pub Scans : List ℕ → Result (Unit {0}) → Type 0
Scans xs r =
    ((is_distinct xs ≡ true) × (r ≡ ok tt))
    ⊎ ((d : ℕ) × (1 < occurrences d xs) × (is_distinct xs ≡ false) × (r ≡ err (duplicate_index d)))

scan_after-Scans : (a : ℕ) (xs : List ℕ) → IsSorted (a ∷ xs) → Scans (a ∷ xs) (scan_after a xs)
unfolding scan_after
scan_after-Scans a [] s = inl (refl, refl)
scan_after-Scans a (b ∷ rest) s = elim (Bool-cases (b == a)) [
  | inl e ↦ inr (b, ground arith, ground arith, rw e)
  | inr n ↦ rw n (elim (scan_after-Scans b rest s.1) [
    | inl (d, r) ↦ inl (ground (arith, contains_below {a = a} {b = b} rest), r)
    | inr (d, m, f, r) ↦ inr (d, ground arith, ground arith, r)
  ])
]

-- So after a sort the scan accepts exactly the lists without repetition.
pub scan_duplicates-Scans : (xs : List ℕ) → IsSorted xs → Scans xs (scan_duplicates xs)
unfolding scan_duplicates
scan_duplicates-Scans [] s = inl (refl, refl)
scan_duplicates-Scans (a ∷ xs) s = scan_after-Scans a xs s

pub scan-sort : (xs : List ℕ) → Scans xs (scan_duplicates (sort xs))
scan-sort xs = elim (scan_duplicates-Scans (sort xs) (sort-IsSorted xs)) [
  | inl (d, r) ↦ inl (sym (is_distinct-sort xs) ∙ d, r)
  | inr (d, m, f, r) ↦
      inr (d, omega (arith, m, occurrences-sort xs d), sym (is_distinct-sort xs) ∙ f, r)
]

pub scan-sort_distinct : (xs : List ℕ) → is_distinct xs ≡ true → scan_duplicates (sort xs) ≡ ok tt
scan-sort_distinct xs h = elim (scan-sort xs) [ inl (d, r) ↦ r | inr (d, m, f, r) ↦ cc ]
