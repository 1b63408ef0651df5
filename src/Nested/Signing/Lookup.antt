-- ===== src/Nested/Signing/Lookup.antt =====
-- Lookups in lists that are built over the quorum of src/nested.rs.
use frostito.Prelude.{
  ℕ, suc, ◌≡◌, refl, ap, true, false, List, [], ◌∷◌, map, find, position, get_elem?, contains, some,
  ◌==◌, ==_iff, ==_refl, arith, Bool-cases, inl, inr,
}
use frostito.Indices.{is_distinct}
use frostito.Nested.Signing.Coverage.{repeats}

-- Lookups in lists built over the quorum.
pub find-map :
    {A : Type 0} (index_of : A → ℕ) (f : ℕ → A) (indices : List ℕ) (k : ℕ)
    → ((i : ℕ) → index_of (f i) ≡ i)
    → contains indices k ≡ true
    → find (λ a. index_of a == k) (map f indices) ≡ some (f k)
find-map index_of f [] k same h = cc
find-map index_of f (i ∷ rest) k same h = elim (Bool-cases (i == k)) [
  | inl e ↦ rw (same i, e) (ap (λ j. some (f j)) ((==_iff i k).0 e))
  | inr n ↦ rw (same i, n) (find-map index_of f rest k same (rw n at h))
]

pub repeats_distinct :
    (indices : List ℕ) (j : ℕ) → is_distinct indices ≡ true → repeats indices j ≡ false
repeats_distinct [] j d = refl
repeats_distinct (i ∷ rest) j d = elim (Bool-cases (i == j)) [
  | inl e ↦
      let same : contains rest i ≡ contains rest j = ap (contains rest) ((==_iff i j).0 e) in
      rw e (ground (arith, repeats_distinct rest j))
  | inr n ↦ rw n (repeats_distinct rest j (ground arith))
]

-- Every index finds the value at its position.
unfoldable pub Looks : {A : Type 0} → List ℕ → List A → List ℕ → List A → Type 0
Looks active all_values (k ∷ indices) (v ∷ values) =
    ((contains active k ≡ true)
      × ((pos : ℕ) × (position active k ≡ some pos) × (get_elem? all_values pos ≡ some v)))
    × Looks active all_values indices values
Looks active all_values _ _ = Unit

Looks-cons :
    {A : Type 0} (active : List ℕ) (all_values : List A) (x : ℕ) (u : A) (indices : List ℕ)
    (values : List A)
    → contains indices x ≡ false
    → Looks active all_values indices values
    → Looks (x ∷ active) (u ∷ all_values) indices values
unfolding Looks
Looks-cons active all_values x u [] values n h = tt
Looks-cons active all_values x u (k ∷ indices) [] n h = tt
Looks-cons active all_values x u (k ∷ indices) (v ∷ values) n h =
    let other : (x == k) ≡ false = ground arith in
    (
      (ground arith, (suc h.0.1.0, rw (other, h.0.1.1) refl, h.0.1.2)),
      Looks-cons active all_values x u indices values (ground arith) h.1,
    )

pub Looks-self :
    {A : Type 0} (indices : List ℕ) (values : List A)
    → is_distinct indices ≡ true
    → Looks indices values indices values
unfolding Looks
Looks-self [] values d = tt
Looks-self (k ∷ indices) [] d = tt
Looks-self (k ∷ indices) (v ∷ values) d = (
  (rw (==_refl k) refl, (0, rw (==_refl k) refl, refl)),
  Looks-cons indices values k v indices values (ground arith)
      (Looks-self indices values (ground arith)),
)
