-- ===== src/Tally/Counts.antt =====
-- src/dkg.rs, `ComplaintTally`: the accusers that a tally counts.
use frostito.Prelude.{
  ℕ, ◌<◌, ◌≡◌, refl, sym, ap, ◌∙◌, Bool, true, false, not, ◌||◌, ◌&&◌, List, [], ◌∷◌, any, length,
  contains, leb, ◌==◌, ==_iff, if◌then◌else◌, arith, Bool-cases, inl, inr,
}
use frostito.Error.{ok, err, invalid_index}
use frostito.Indices.{is_distinct}
use frostito.Indices.Sorting.{contains-insert, is_distinct-insert}
use frostito.Tally.{
  ComplaintVerdict, upheld, unfounded, ComplaintTally, set_insert, accusers_in, has_entry,
  update_entry, new_entry, new_tally, note_verdict, record_verdict, accusers, count, reached,
  disqualifiable, disqualifiable_in,
}

contains-set_insert :
    (a b : ℕ) (xs : List ℕ) → contains (set_insert a xs) b ≡ (contains xs b || a == b)
unfolding set_insert
contains-set_insert a b xs = elim (Bool-cases (contains xs a)) [
  | inr new ↦ rw new (contains-insert a b xs ∙ ground arith)
  | inl old ↦ rw old (elim (Bool-cases (a == b)) [
    | inl same ↦
        let there : contains xs b ≡ true = ap (contains xs) (sym ((==_iff a b).0 same)) ∙ old in
        ground arith
    | inr other ↦ ground arith
  ])
]

is_distinct-set_insert :
    (a : ℕ) (xs : List ℕ) → is_distinct xs ≡ true → is_distinct (set_insert a xs) ≡ true
unfolding set_insert
is_distinct-set_insert a xs h = elim (Bool-cases (contains xs a)) [
  | inl old ↦ rw old h
  | inr new ↦ rw new (is_distinct-insert a xs ∙ ground arith)
]

accusers-update_entry :
    (d a e : ℕ) (m : List (ℕ × List ℕ))
    → has_entry d m ≡ true
    → accusers_in e (update_entry d a m)
      ≡ (if d == e then set_insert a (accusers_in d m) else accusers_in e m)
unfolding update_entry accusers_in
accusers-update_entry d a e [] h = cc
accusers-update_entry d a e ((k, xs) ∷ rest) h = ground (arith, accusers-update_entry d a e rest)

accusers-new_entry :
    (d a e : ℕ) (m : List (ℕ × List ℕ))
    → has_entry d m ≡ false
    → accusers_in e (new_entry d a m) ≡ (if d == e then a ∷ [] else accusers_in e m)
unfolding new_entry accusers_in
accusers-new_entry d a e [] h = refl
accusers-new_entry d a e ((k, xs) ∷ rest) h = ground (arith, accusers-new_entry d a e rest)

accusers_in_absent : (d : ℕ) (m : List (ℕ × List ℕ)) → has_entry d m ≡ false → accusers_in d m ≡ []
unfolding accusers_in
accusers_in_absent d [] h = refl
accusers_in_absent d ((k, xs) ∷ rest) h = ground (arith, accusers_in_absent d rest)

-- The verdict is `Upheld`.
abbrev pub is_upheld : ComplaintVerdict → Bool
is_upheld upheld = true
is_upheld unfounded = false

-- Noting an upheld verdict adds the accuser to the accused dealer's set.
accusers-note_verdict :
    (t : ComplaintTally) (a d e : ℕ)
    → accusers (note_verdict t a d upheld) e
      ≡ (if d == e then set_insert a (accusers t d) else accusers t e)
unfolding accusers note_verdict
accusers-note_verdict t a d e = elim (Bool-cases (has_entry d t.upheld_by)) [
  | inl old ↦ rw old (accusers-update_entry d a e t.upheld_by old)
  | inr new ↦ rw new (
      accusers-new_entry d a e t.upheld_by new
      ∙ ap (λ xs. if d == e then set_insert a xs else accusers_in e t.upheld_by)
          (sym (accusers_in_absent d t.upheld_by new)))
]

noted :
    (t : ComplaintTally) (a d e b : ℕ) (v : ComplaintVerdict)
    → contains (accusers (note_verdict t a d v) e) b
      ≡ (contains (accusers t e) b || (is_upheld v && (d == e && a == b)))
unfolding note_verdict accusers
noted t a d e b unfounded = ground arith
noted t a d e b upheld =
    ap (λ xs. contains xs b) (accusers-note_verdict t a d e) ∙ elim (Bool-cases (d == e)) [
      | inr other ↦ rw other ground arith
      | inl same ↦ rw same (
          contains-set_insert a b (accusers t d)
          ∙ ap (λ i. contains (accusers t i) b || a == b) ((==_iff d e).0 same))
    ]

noted_distinct :
    (t : ComplaintTally) (a d e : ℕ) (v : ComplaintVerdict)
    → ((i : ℕ) → is_distinct (accusers t i) ≡ true)
    → is_distinct (accusers (note_verdict t a d v) e) ≡ true
unfolding note_verdict accusers
noted_distinct t a d e unfounded h = h e
noted_distinct t a d e upheld h =
    ap is_distinct (accusers-note_verdict t a d e) ∙ elim (Bool-cases (d == e)) [
      | inr other ↦ rw other (h e)
      | inl same ↦ rw same (is_distinct-set_insert a (accusers t d) (h d))
    ]

-- One complaint as `record` receives it.
pub record Accusation : Type 0 where
  pub accuser : ℕ
  pub accused : ℕ
  pub verdict : ComplaintVerdict

-- The tally after a sequence of `record` calls, whatever they return.
unfoldable pub replay : ComplaintTally → List Accusation → ComplaintTally
replay t [] = t
replay t (x ∷ xs) = elim (record_verdict t x.accuser x.accused x.verdict) [
  | ok next ↦ replay next xs
  | _ ↦ replay t xs
]

abbrev pub is_refused : Accusation → Bool
is_refused x = x.accuser == 0 || (x.accused == 0 || x.accuser == x.accused)

-- The complaint is an upheld one by `b` against `e` between two different participants.
abbrev pub counts_for : ℕ → ℕ → Accusation → Bool
counts_for e b x = not (is_refused x) && (is_upheld x.verdict && (x.accused == e && x.accuser == b))

record_verdict-of :
    (t : ComplaintTally) (x : Accusation)
    → record_verdict t x.accuser x.accused x.verdict ≡ (
        if is_refused x
        then err invalid_index
        else ok (note_verdict t x.accuser x.accused x.verdict))
unfolding record_verdict
record_verdict-of t x = elim (Bool-cases (is_refused x)) [ inl r ↦ rw r refl | inr r ↦ rw r refl ]

replayed :
    (t : ComplaintTally) (xs : List Accusation) (e b : ℕ)
    → ((i : ℕ) → is_distinct (accusers t i) ≡ true)
    → (contains (accusers (replay t xs) e) b
        ≡ (contains (accusers t e) b || any (counts_for e b) xs))
      × (is_distinct (accusers (replay t xs) e) ≡ true)
unfolding replay
replayed t [] e b h = (ground arith, h e)
replayed t (x ∷ xs) e b h = elim (Bool-cases (is_refused x)) [
  | inl r ↦
      let refused : record_verdict t x.accuser x.accused x.verdict ≡ err invalid_index =
        record_verdict-of t x ∙ rw r refl in
      rw (refused, r, replay) (replayed t xs e b h)
  | inr r ↦
      let next = note_verdict t x.accuser x.accused x.verdict in
      let accepted : record_verdict t x.accuser x.accused x.verdict ≡ ok next =
        record_verdict-of t x ∙ rw r refl in
      let (member, distinct) =
        replayed next xs e b (λ i. noted_distinct t x.accuser x.accused i x.verdict h) in
      let step = noted t x.accuser x.accused e b x.verdict in
      rw (accepted, r, replay)
        (
          member
              ∙ ap (λ u. u || any (counts_for e b) xs) step
              ∙ or_assoc (contains (accusers t e) b)
                  (is_upheld x.verdict && (x.accused == e && x.accuser == b))
                  (any (counts_for e b) xs),
          distinct,
        )
]
  where
    or_assoc : (u v w : Bool) → ((u || v) || w) ≡ (u || (v || w))
    or_assoc u v w = ground arith

-- For every sequence of complaints, in any order and with any repetitions, the accusers that a new
-- tally ends with against a dealer are exactly those with an upheld complaint against it between
-- two different participants, each once; so `count` is the number of distinct accusers.
pub replay-accusers :
    (n : ℕ) (xs : List Accusation) (e b : ℕ)
    → (contains (accusers (replay (new_tally n) xs) e) b ≡ any (counts_for e b) xs)
      × (is_distinct (accusers (replay (new_tally n) xs) e) ≡ true)
      × (count (replay (new_tally n) xs) e ≡ length (accusers (replay (new_tally n) xs) e))
unfolding new_tally count accusers
replay-accusers n xs e b =
    let (member, distinct) = replayed (new_tally n) xs e b (λ i. refl) in (member, distinct, refl)

listed :
    (t : ComplaintTally) (d : ℕ) (m : List (ℕ × List ℕ))
    → contains (disqualifiable_in t m) d ≡ (has_entry d m && reached t d)
unfolding disqualifiable_in
listed t d [] = refl
listed t d ((k, xs) ∷ rest) = elim (Bool-cases (k == d)) [
  | inl same ↦
      let here : reached t k ≡ reached t d = ap (reached t) ((==_iff k d).0 same) in
      ground (arith, listed t d rest)
  | inr other ↦ ground (arith, listed t d rest)
]

-- With a positive threshold, a dealer is listed as disqualifiable exactly when the number of its
-- accusers has reached the threshold.
pub disqualifiable-reached :
    (t : ComplaintTally) (d : ℕ)
    → 0 < t.threshold
    → contains (disqualifiable t) d ≡ leb t.threshold (count t d)
unfolding disqualifiable reached count
disqualifiable-reached t d h =
    listed t d t.upheld_by ∙ elim (Bool-cases (has_entry d t.upheld_by)) [
      | inl old ↦ rw old refl
      | inr new ↦
          let none_counted : length (accusers_in d t.upheld_by) ≡ 0 =
            ap length (accusers_in_absent d t.upheld_by new) in
          rw new ground arith
    ]
