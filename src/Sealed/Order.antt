-- ===== src/Sealed/Order.antt =====
-- src/sealed.rs, `SealedRoster::new`: the sort and the checks, and the order of the participants.
use frostito.Prelude.{
  ℕ, ◌≡◌, ◌≢◌, refl, sym, ap, ap₂, ◌∙◌, true, false, List, [], ◌∷◌, map, length, leb, ◌==◌,
  if◌then◌else◌, arith, Bool-cases, inl, inr,
}
use frostito.Error.{Result, ok, err, panic, ◌>>◌, invalid_index}
use frostito.Indices.{insert, sort, scan_after, scan_duplicates, is_distinct}
use frostito.Indices.Sorting.{length-sort, is_distinct-sort, scan-sort}
use frostito.Sealed.{
  insert_participant, sort_participants, check_windows, check_participants, new_roster,
}
use mathlib.Core.List.{Perm, Permᴰ}
use mathlib.Core.Logic.{∥∥₁_elim}

abbrev pub indices : List (ℕ × List ℕ) → List ℕ
indices ps = map (λ p. p.0) ps

indices-insert_participant :
    (p : ℕ × List ℕ) (ps : List (ℕ × List ℕ))
    → indices (insert_participant p ps) ≡ insert p.0 (indices ps)
unfolding insert_participant insert
indices-insert_participant p [] = refl
indices-insert_participant p (q ∷ ps) = elim (Bool-cases (leb p.0 q.0)) [
  | inl e ↦ rw e refl
  | inr n ↦ rw n (ap (◌∷◌ q.0) (indices-insert_participant p ps))
]

-- The indices of the sorted participants are the sorted indices.
pub indices-sort_participants :
    (ps : List (ℕ × List ℕ)) → indices (sort_participants ps) ≡ sort (indices ps)
unfolding sort_participants sort
indices-sort_participants [] = refl
indices-sort_participants (p ∷ ps) =
    indices-insert_participant p (sort_participants ps)
    ∙ ap (insert p.0) (indices-sort_participants ps)

insert_comm : (a b : ℕ) (xs : List ℕ) → insert a (insert b xs) ≡ insert b (insert a xs)
unfolding insert
insert_comm a b [] = ground arith
insert_comm a b (x ∷ xs) = ground (arith, insert_comm a b xs)

insert_participant_comm :
    (p q : ℕ × List ℕ) (ps : List (ℕ × List ℕ))
    → (p.0 == q.0) ≡ false
    → insert_participant p (insert_participant q ps)
      ≡ insert_participant q (insert_participant p ps)
unfolding insert_participant
insert_participant_comm p q [] h = ground arith
insert_participant_comm p q (r ∷ ps) h = ground (arith, insert_participant_comm p q ps)

-- The checks see the indices only.
check_indices : List ℕ → Result (Unit {0})
check_indices [] = panic
check_indices (i ∷ rest) = if i == 0 then err invalid_index else scan_after i rest

check_windows-scan_after :
    (i : ℕ) (ps : List (ℕ × List ℕ)) → check_windows i ps ≡ scan_after i (indices ps)
unfolding check_windows scan_after
check_windows-scan_after i [] = refl
check_windows-scan_after i (q ∷ ps) = ground (arith, check_windows-scan_after q.0 ps)

check_participants-check_indices :
    (ps : List (ℕ × List ℕ)) → check_participants ps ≡ check_indices (indices ps)
unfolding check_participants check_indices
check_participants-check_indices [] = refl
check_participants-check_indices (p ∷ ps) = rw (check_windows-scan_after p.0 ps) refl

check_indices-distinct : (is : List ℕ) → check_indices is ≡ ok tt → scan_duplicates is ≡ ok tt
unfolding check_indices scan_duplicates
check_indices-distinct [] h = cc
check_indices-distinct (i ∷ rest) h = elim (Bool-cases (i == 0)) [
  | inl e ↦ let refused : err invalid_index ≡ ok tt = rw e at h in cc
  | inr n ↦ rw n at h
]

-- A check that does not pass hides what follows.
fails :
    {A : Type 0} (r : Result (Unit {0})) (a b : A) → (r ≡ ok tt → a ≡ b) → (r >> ok a) ≡ (r >> ok b)
fails panic a b h = refl
fails (err e) a b h = refl
fails (ok tt) a b h = ap ok (h refl)

-- Two lists that the constructor cannot tell apart: the same indices, and where they are distinct
-- the same participants.
abbrev SameRoster : List (ℕ × List ℕ) → List (ℕ × List ℕ) → Type 0
SameRoster ps qs =
    (sort (indices ps) ≡ sort (indices qs))
    × (is_distinct (indices ps) ≡ true → sort_participants ps ≡ sort_participants qs)

Permᴰ-SameRoster : {ps qs : List (ℕ × List ℕ)} → Permᴰ ps qs → SameRoster ps qs
unfolding sort sort_participants
Permᴰ-SameRoster Permᴰ.nil = (refl, λ d. refl)
Permᴰ-SameRoster (Permᴰ.cons {l₁ = xs} e h) =
    let same = Permᴰ-SameRoster h in
    (ap₂ (λ p is. insert p.0 is) e same.0, λ d. ap₂ insert_participant e (same.1 (ground arith)))
Permᴰ-SameRoster (Permᴰ.swap {a} {b} {l = l} e f) = (
  insert_comm a.0 b.0 (sort (indices l))
      ∙ ap₂ (λ p q. insert p.0 (insert q.0 (sort (indices l)))) f e,
  λ d.
      insert_participant_comm a b (sort_participants l) (ground arith)
      ∙ ap₂ (λ p q. insert_participant p (insert_participant q (sort_participants l))) f e,
)
Permᴰ-SameRoster (Permᴰ.trans {l₁ = xs} {l₂ = ys} h k) =
    let first = Permᴰ-SameRoster h in
    let second = Permᴰ-SameRoster k in
    (
      first.0 ∙ second.0,
      λ d.
          first.1 d
          ∙ second.1 (
              sym (is_distinct-sort (indices ys))
              ∙ ap is_distinct (sym first.0)
              ∙ is_distinct-sort (indices xs)
              ∙ d),
    )

lengths_differ : (i : ℕ) (is : List ℕ) → sort [] ≢ sort (i ∷ is)
lengths_differ i is e =
    let lengths : length (sort []) ≡ length (sort (i ∷ is)) = ap length e in
    omega (arith, lengths, length-sort [], length-sort (i ∷ is))

pub check_participants-distinct :
    (ps : List (ℕ × List ℕ))
    → check_participants (sort_participants ps) ≡ ok tt
    → is_distinct (indices ps) ≡ true
check_participants-distinct ps passed =
    let scanned : scan_duplicates (sort (indices ps)) ≡ ok tt =
      check_indices-distinct (sort (indices ps)) (
        ap check_indices (sym (indices-sort_participants ps))
        ∙ sym (check_participants-check_indices (sort_participants ps))
        ∙ passed) in
    elim (scan-sort (indices ps)) [ inl (d, r) ↦ d | inr (d, m, f, r) ↦ cc ]

check_participants-order :
    (ps qs : List (ℕ × List ℕ))
    → sort (indices ps) ≡ sort (indices qs)
    → check_participants (sort_participants ps) ≡ check_participants (sort_participants qs)
check_participants-order ps qs h =
    check_participants-check_indices (sort_participants ps)
    ∙ ap check_indices (indices-sort_participants ps ∙ h ∙ sym (indices-sort_participants qs))
    ∙ sym (check_participants-check_indices (sort_participants qs))

new_roster-SameRoster :
    (ps qs : List (ℕ × List ℕ)) (session : List ℕ)
    → SameRoster ps qs
    → new_roster ps session ≡ new_roster qs session
unfolding new_roster
new_roster-SameRoster [] [] session h = refl
new_roster-SameRoster [] (q ∷ qs) session h = absurd (lengths_differ q.0 (indices qs) h.0)
new_roster-SameRoster (p ∷ ps) [] session h = absurd (lengths_differ p.0 (indices ps) (sym h.0))
new_roster-SameRoster (p ∷ ps) (q ∷ qs) session h =
    fails (check_participants (sort_participants (p ∷ ps))) _ _ (λ passed.
      ap (λ sorted. record { participants = sorted; session_id = session })
        (h.1 (check_participants-distinct (p ∷ ps) passed)))
    ∙ ap (λ r. r >> ok (record { participants = sort_participants (q ∷ qs); session_id = session }))
        (check_participants-order (p ∷ ps) (q ∷ qs) h.0)

-- The order in which the participants are given does not matter, to the roster or to the error.
pub new_roster-Perm :
    (ps qs : List (ℕ × List ℕ)) (session : List ℕ)
    → Perm ps qs
    → new_roster ps session ≡ new_roster qs session
new_roster-Perm ps qs session h =
    new_roster-SameRoster ps qs session (∥∥₁_elim h (hlevel) Permᴰ-SameRoster)
