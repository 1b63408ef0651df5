-- ===== src/Tally.antt =====
-- src/dkg.rs, `ComplaintTally`: the distinct accusers of each dealer. A `BTreeSet` is an ascending
-- list, a `BTreeMap` a list of entries ascending by key.
pub mod Counts
use frostito.Prelude.{
  ℕ, Bool, true, false, not, ◌||◌, List, [], ◌∷◌, length, contains, ltb, leb, ◌==◌, if◌then◌else◌,
}
use frostito.Error.{Result, ok, err, ◌>>=◌, ◌>>◌, refuse_if, invalid_index}
use frostito.Indices.{insert}

pub data ComplaintVerdict : Type 0 where
  upheld unfounded : ComplaintVerdict

pub record ComplaintTally : Type 0 where
  pub threshold : ℕ
  pub upheld_by : List (ℕ × List ℕ)
  pub flagged : List ℕ

-- `BTreeSet::insert`
unfoldable pub set_insert : ℕ → List ℕ → List ℕ
unfolding insert
set_insert a xs = if contains xs a then xs else insert a xs

-- `BTreeMap::get`
unfoldable pub accusers_in : ℕ → List (ℕ × List ℕ) → List ℕ
accusers_in d [] = []
accusers_in d ((k, accusers) ∷ rest) = if k == d then accusers else accusers_in d rest

abbrev pub has_entry : ℕ → List (ℕ × List ℕ) → Bool
has_entry d [] = false
has_entry d ((k, accusers) ∷ rest) = k == d || has_entry d rest

-- `entry(accused)` where the key is present.
unfoldable pub update_entry : ℕ → ℕ → List (ℕ × List ℕ) → List (ℕ × List ℕ)
unfolding set_insert
update_entry d a [] = []
update_entry d a ((k, accusers) ∷ rest) =
    let others = update_entry d a rest in
    if k == d then (k, set_insert a accusers) ∷ rest else (k, accusers) ∷ others

-- `entry(accused).or_default()` where it is not: a new entry in the key's place.
unfoldable pub new_entry : ℕ → ℕ → List (ℕ × List ℕ) → List (ℕ × List ℕ)
new_entry d a [] = (d, a ∷ []) ∷ []
new_entry d a ((k, accusers) ∷ rest) =
    let others = new_entry d a rest in
    if ltb d k then (d, a ∷ []) ∷ (k, accusers) ∷ rest else (k, accusers) ∷ others

-- `ComplaintTally::new`
unfoldable pub new_tally : ℕ → ComplaintTally
new_tally threshold = record { threshold = threshold; upheld_by = []; flagged = [] }

-- The `match verdict` of `record`.
unfoldable pub note_verdict : ComplaintTally → ℕ → ℕ → ComplaintVerdict → ComplaintTally
unfolding update_entry new_entry set_insert
note_verdict tally accuser accused upheld = record tally {
  upheld_by =
      if has_entry accused tally.upheld_by
      then update_entry accused accuser tally.upheld_by
      else new_entry accused accuser tally.upheld_by;
}
note_verdict tally accuser accused unfounded = record tally {
  flagged = set_insert accuser tally.flagged;
}

-- `ComplaintTally::record`
unfoldable pub record_verdict : ComplaintTally → ℕ → ℕ → ComplaintVerdict → Result ComplaintTally
unfolding note_verdict
record_verdict tally accuser accused verdict = do
  refuse_if (accuser == 0 || (accused == 0 || accuser == accused)) invalid_index
  ok (note_verdict tally accuser accused verdict)

unfoldable pub accusers : ComplaintTally → ℕ → List ℕ
unfolding accusers_in
accusers tally accused = accusers_in accused tally.upheld_by

unfoldable pub count : ComplaintTally → ℕ → ℕ
unfolding accusers_in
count tally accused = length (accusers_in accused tally.upheld_by)

unfoldable pub reached : ComplaintTally → ℕ → Bool
unfolding count
reached tally accused = leb tally.threshold (count tally accused)

-- `upheld.keys().filter(..)`
unfoldable pub disqualifiable_in : ComplaintTally → List (ℕ × List ℕ) → List ℕ
unfolding reached
disqualifiable_in tally [] = []
disqualifiable_in tally ((k, accusers) ∷ rest) =
    let others = disqualifiable_in tally rest in if reached tally k then k ∷ others else others

unfoldable pub disqualifiable : ComplaintTally → List ℕ
unfolding disqualifiable_in
disqualifiable tally = disqualifiable_in tally tally.upheld_by

unfoldable pub below_threshold_in : ComplaintTally → List (ℕ × List ℕ) → List (ℕ × List ℕ)
below_threshold_in tally [] = []
below_threshold_in tally ((k, accusers) ∷ rest) =
    let others = below_threshold_in tally rest in
    if not (reached tally k) then (k, accusers) ∷ others else others

unfoldable pub below_threshold : ComplaintTally → List (ℕ × List ℕ)
unfolding below_threshold_in
below_threshold tally = below_threshold_in tally tally.upheld_by
