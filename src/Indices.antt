-- ===== src/Indices.antt =====
-- Index sets: the sort and the duplicate scan that src/lagrange.rs, src/reshare.rs and src/dkg.rs
-- run over a list of `u32` indices, and the predicate that a list has no repetition.
pub mod Sorting
pub mod Counting
use frostito.Prelude.{
  ℕ, ◌+◌, ◌≡◌, ◌≤◌, Bool, true, false, not, ◌&&◌, List, [], ◌∷◌, ltb, leb, ◌==◌, if◌then◌else◌,
  contains, All,
}
use frostito.Error.{Result, ok, err, duplicate_index}

-- `sort` and `sort_unstable`, which agree on plain integers.
unfoldable pub insert : ℕ → List ℕ → List ℕ
insert a [] = a ∷ []
insert a (x ∷ xs) = if leb a x then a ∷ x ∷ xs else x ∷ insert a xs

unfoldable pub sort : List ℕ → List ℕ
unfolding insert
sort [] = []
sort (x ∷ xs) = insert x (sort xs)

-- The scan over neighbours: `sorted[i] == sorted[i - 1]`, or `windows(2)`.
unfoldable pub scan_after : ℕ → List ℕ → Result (Unit {0})
scan_after a [] = ok tt
scan_after a (b ∷ rest) = if b == a then err (duplicate_index b) else scan_after b rest

unfoldable pub scan_duplicates : List ℕ → Result (Unit {0})
unfolding scan_after
scan_duplicates [] = ok tt
scan_duplicates (a ∷ rest) = scan_after a rest

-- No index occurs twice.
abbrev pub is_distinct : List ℕ → Bool
is_distinct [] = true
is_distinct (x ∷ xs) = not (contains xs x) && is_distinct xs

-- How often an index occurs.
abbrev pub occurrences : ℕ → List ℕ → ℕ
occurrences d [] = 0
occurrences d (x ∷ xs) = (if x == d then 1 else 0) + occurrences d xs

-- Every index is positive.
abbrev pub all_positive : List ℕ → Bool
all_positive [] = true
all_positive (i ∷ rest) = not (i == 0) && all_positive rest
