-- ===== src/Sealed/Lookup.antt =====
-- src/sealed.rs, `SealedRoster::public_key`: the keys of a roster that was built.
use frostito.Prelude.{
  ℕ, ◌≡◌, refl, ap, ap₂, subst, ◌∙◌, true, false, List, [], ◌∷◌, find, contains, some, leb, ◌==◌,
  ==_refl, arith, Bool-cases, inl, inr, All, All-map, All-zip,
}
use frostito.Error.{ok, >>-eq-ok, ok_injective}
use frostito.Indices.{is_distinct}
use frostito.Indices.Sorting.{is_distinct-sort}
use frostito.Sealed.{
  SealedRoster, insert_participant, sort_participants, check_participants, new_roster, public_key,
}
use frostito.Sealed.Order.{indices, indices-sort_participants, check_participants-distinct}
use mathlib.Core.List.{Mem, mem-cons_self, mem-cons_of_mem}

module _ (P : ℕ × List ℕ → Type 0) where
  All-insert_participant :
      (p : ℕ × List ℕ) (ps : List (ℕ × List ℕ)) → P p → All P ps → All P (insert_participant p ps)
  unfolding insert_participant
  All-insert_participant p [] h k = (h, tt)
  All-insert_participant p (q ∷ ps) h k = elim (Bool-cases (leb p.0 q.0)) [
    | inl e ↦ rw e (h, k)
    | inr n ↦ rw n (k.0, All-insert_participant p ps h k.1)
  ]

  All-sort_participants : (ps : List (ℕ × List ℕ)) → All P ps → All P (sort_participants ps)
  unfolding sort_participants
  All-sort_participants [] h = tt
  All-sort_participants (p ∷ ps) h = All-insert_participant p _ h.0 (All-sort_participants ps h.1)

  All-of_insert_participant :
      (p : ℕ × List ℕ) (ps : List (ℕ × List ℕ)) → All P (insert_participant p ps) → P p × All P ps
  unfolding insert_participant
  All-of_insert_participant p [] h = h
  All-of_insert_participant p (q ∷ ps) h = elim (Bool-cases (leb p.0 q.0)) [
    | inl e ↦ rw e at h
    | inr n ↦
        let kept : All P (q ∷ insert_participant p ps) = rw n at h in
        let rest = All-of_insert_participant p ps kept.1 in (rest.0, (kept.0, rest.1))
  ]

  All-of_sort_participants : (ps : List (ℕ × List ℕ)) → All P (sort_participants ps) → All P ps
  unfolding sort_participants
  All-of_sort_participants [] h = tt
  All-of_sort_participants (p ∷ ps) h =
      let rest = All-of_insert_participant p (sort_participants ps) h in
      (rest.0, All-of_sort_participants ps rest.1)

All-Mem : (ps : List (ℕ × List ℕ)) → All (λ p. Mem p ps) ps
All-Mem [] = tt
All-Mem (p ∷ ps) = (mem-cons_self, All-map (λ q member. mem-cons_of_mem p member) ps (All-Mem ps))

All-differ :
    (i : ℕ) (ps : List (ℕ × List ℕ))
    → contains (indices ps) i ≡ false
    → All (λ p. (i == p.0) ≡ false) ps
All-differ i [] h = tt
All-differ i (p ∷ ps) h = (ground arith, All-differ i ps (ground arith))

-- Among distinct indices the search finds each participant.
All-found :
    (ps : List (ℕ × List ℕ))
    → is_distinct (indices ps) ≡ true
    → All (λ p. find (λ q. q.0 == p.0) ps ≡ some p) ps
All-found [] h = tt
All-found (p ∷ ps) h = (
  rw (==_refl p.0) refl,
  All-zip (λ q differ found. rw differ found) ps (All-differ p.0 ps (ground arith))
      (All-found ps (ground arith)),
)

public_key_of_found :
    (ps : List (ℕ × List ℕ)) (session : List ℕ) (p : ℕ × List ℕ)
    → find (λ q. q.0 == p.0) ps ≡ some p
    → public_key (record { participants = ps; session_id = session }) p.0 ≡ ok p.1
unfolding public_key
public_key_of_found ps session p found = rw (public_key, found) refl

-- A key that is found belongs to a participant.
public_key_satisfies :
    (P : ℕ × List ℕ → Type 0) (ps : List (ℕ × List ℕ)) (session : List ℕ) (i : ℕ) (key : List ℕ)
    → All P ps
    → public_key (record { participants = ps; session_id = session }) i ≡ ok key
    → P (i, key)
unfolding public_key
public_key_satisfies P [] session i key h e = cc
public_key_satisfies P (p ∷ ps) session i key h e = elim (Bool-cases (p.0 == i)) [
  | inl t ↦
      let found : ok p.1 ≡ ok key = rw (public_key, t) at e in
      let index : p.0 ≡ i = ground arith in
      subst P (ap₂ (λ a b. (a, b)) index (ok_injective found)) h.0
  | inr n ↦ public_key_satisfies P ps session i key h.1 (rw (public_key, n) at e)
]

-- A roster that was built is exactly what it was built from: each participant is found with its
-- key, and a key that is found belongs to a participant.
pub new_roster_sound :
    (ps : List (ℕ × List ℕ)) (session : List ℕ) (roster : SealedRoster)
    → new_roster ps session ≡ ok roster
    → All (λ p. public_key roster p.0 ≡ ok p.1) ps
      × ((i : ℕ) (key : List ℕ) → public_key roster i ≡ ok key → Mem (i, key) ps)
      × (roster.session_id ≡ session)
unfolding new_roster public_key
new_roster_sound [] session roster h = cc
new_roster_sound (p ∷ ps) session roster h =
    let sorted = sort_participants (p ∷ ps) in
    let checked = >>-eq-ok (check_participants sorted) h in
    let built : record { participants = sorted; session_id = session } ≡ roster =
      ok_injective checked.1 in
    let distinct : is_distinct (indices sorted) ≡ true =
      ap is_distinct (indices-sort_participants (p ∷ ps))
      ∙ is_distinct-sort (indices (p ∷ ps))
      ∙ check_participants-distinct (p ∷ ps) checked.0 in
    subst
      (λ r.
        All (λ q. public_key r q.0 ≡ ok q.1) (p ∷ ps)
        × ((i : ℕ) (key : List ℕ) → public_key r i ≡ ok key → Mem (i, key) (p ∷ ps))
        × (r.session_id ≡ session))
      built
      (
        All-of_sort_participants _ (p ∷ ps)
            (All-map (public_key_of_found sorted session) sorted (All-found sorted distinct)),
        (λ i key e.
            public_key_satisfies (λ q. Mem q (p ∷ ps)) sorted session i key
              (All-sort_participants _ (p ∷ ps) (All-Mem (p ∷ ps))) e),
        refl,
      )
