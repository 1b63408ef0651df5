-- ===== src/Nested/Signing/Coverage.antt =====
-- src/nested.rs, `aggregate_inner_shares_verified`: what its loops put into the list of holders at
-- fault.
use frostito.Prelude.{
  ℕ, ◌≡◌, refl, sym, ap, ◌∙◌, Bool, true, false, not, ◌&&◌, ◌||◌, List, [], ◌∷◌, ◌++◌, map, any,
  contains, ◌==◌, ==_iff, arith, Bool-cases, ◌⊎◌, inl, inr, if◌then◌else◌,
}
use frostito.Error.{Result, ok}
use frostito.Curve.{Curve}
use frostito.Indices.Counting.{contains-append_one}
use frostito.Nested.Signing.{InnerSignatureShare, add_new, cover_shares, cover_active, verify_loop}

contains-add_new :
    (bad : List ℕ) (k j : ℕ) → contains (add_new bad k) j ≡ (contains bad j || k == j)
unfolding add_new
contains-add_new bad k j = elim (Bool-cases (contains bad k)) [
  | inl old ↦ rw old (elim (Bool-cases (k == j)) [
    | inl e ↦ rw (e, sym ((==_iff k j).0 e), old) refl
    | inr n ↦ ground arith
  ])
  | inr new ↦ rw new (contains-append_one bad k j)
]

contains-add_if :
    (b : Bool) (bad : List ℕ) (k j : ℕ)
    → contains (if b then add_new bad k else bad) j ≡ (contains bad j || (b && k == j))
contains-add_if true bad k j = contains-add_new bad k j
contains-add_if false bad k j = ground arith

contains-add_unless :
    (b : Bool) (bad : List ℕ) (k j : ℕ)
    → contains (if b then bad else add_new bad k) j ≡ (contains bad j || (not b && k == j))
contains-add_unless true bad k j = ground arith
contains-add_unless false bad k j = contains-add_new bad k j

-- An index stands at two positions.
abbrev pub repeats : List ℕ → ℕ → Bool
repeats [] j = false
repeats (h ∷ hs) j = (h == j && contains hs j) || repeats hs j

pub contains-cover_active :
    (seen bad active : List ℕ) (j : ℕ)
    → contains (cover_active seen bad active) j
      ≡ (contains bad j || (contains active j && not (contains seen j)))
unfolding cover_active
contains-cover_active seen bad [] j = ground arith
contains-cover_active seen bad (k ∷ rest) j =
    contains-cover_active seen (if contains seen k then bad else add_new bad k) rest j
    ∙ ap (λ b. b || (contains rest j && not (contains seen j)))
        (contains-add_unless (contains seen k) bad k j)
    ∙ regroup (Bool-cases (k == j))
  where
    regroup :
        ((k == j) ≡ true) ⊎ ((k == j) ≡ false)
        → ((contains bad j || (not (contains seen k) && k == j))
            || (contains rest j && not (contains seen j)))
          ≡ (contains bad j || ((k == j || contains rest j) && not (contains seen j)))
    regroup (inl e) =
        let same : contains seen k ≡ contains seen j = ap (contains seen) ((==_iff k j).0 e) in
        rw (same, e) (shuffle (contains bad j) (contains seen j) (contains rest j))
      where
        shuffle : (b v r : Bool) → ((b || (not v && true)) || (r && not v)) ≡ (b || (true && not v))
        shuffle b v r = ground arith
    regroup (inr n) = rw n (ground arith)

module _ {S : Type 0} where
  -- The holders that the shares name.
  abbrev pub holders : List (InnerSignatureShare S) → List ℕ
  holders = map (λ sig. sig.holder_index)

  pub contains-cover_shares :
      (active seen bad : List ℕ) (sigs : List (InnerSignatureShare S)) (j : ℕ)
      → (contains (cover_shares active seen bad sigs).0 j
          ≡ (contains seen j || contains (holders sigs) j))
        × (contains (cover_shares active seen bad sigs).1 j ≡ (
            contains bad j
            || ((contains (holders sigs) j && (not (contains active j) || contains seen j))
                || repeats (holders sigs) j)))
  unfolding cover_shares
  contains-cover_shares active seen bad [] j = (ground arith, ground arith)
  contains-cover_shares active seen bad (sig ∷ rest) j =
      let k = sig.holder_index in
      let stray = not (contains active k) || contains seen k in
      let (names, faults) =
        contains-cover_shares active (seen ++ (k ∷ [])) (if stray then add_new bad k else bad) rest
          j in
      let pushed = contains-append_one seen k j in
      let added = contains-add_if stray bad k j in
      elim (Bool-cases (k == j)) [
        | inl e ↦
            let same : k ≡ j = (==_iff k j).0 e in
            let active_same : contains active k ≡ contains active j = ap (contains active) same in
            let seen_same : contains seen k ≡ contains seen j = ap (contains seen) same in
            (ground arith, faults ∙ rw (pushed, added, active_same, seen_same, e) (ground arith))
        | inr n ↦ (ground arith, faults ∙ rw (pushed, added, n) (ground arith))
      ]

  module _ (passed : InnerSignatureShare S → Bool) where
    -- Some share of the holder fails.
    abbrev pub fails : List (InnerSignatureShare S) → ℕ → Bool
    fails sigs j = any (λ sig. sig.holder_index == j && not (passed sig)) sigs

    -- Why a holder is at fault: no share, a share of a holder that is not active, two shares, or a
    -- share that fails.
    abbrev pub is_faulty : List ℕ → List (InnerSignatureShare S) → ℕ → Bool
    is_faulty active sigs j =
        (contains active j && not (contains (holders sigs) j))
        || ((contains (holders sigs) j && not (contains active j))
            || (repeats (holders sigs) j || fails sigs j))

module _ (c : Curve) where
  infixl 65 ◌⊕◌
  open c use {Scalar, ◌⊕◌}

  unfoldable pub sum_shares : Scalar → List (InnerSignatureShare Scalar) → Scalar
  sum_shares z [] = z
  sum_shares z (sig ∷ rest) = sum_shares (z ⊕ sig.response) rest

  module _ (passes : InnerSignatureShare Scalar → Result Bool)
      (passed : InnerSignatureShare Scalar → Bool)
      (total : (sig : InnerSignatureShare Scalar) → passes sig ≡ ok (passed sig)) where
    pub verify_loop-faults :
        (z : Scalar) (bad : List ℕ) (sigs : List (InnerSignatureShare Scalar))
        → (sum : Scalar) × (final : List ℕ) × (verify_loop c passes z bad sigs ≡ ok (sum, final))
          × ((j : ℕ) → contains final j ≡ (contains bad j || fails passed sigs j))
          × (((j : ℕ) → fails passed sigs j ≡ false) → sum ≡ sum_shares z sigs)
    unfolding verify_loop sum_shares
    verify_loop-faults z bad [] = (z, bad, refl, λ j. ground arith, λ h. refl)
    verify_loop-faults z bad (sig ∷ rest) = elim (Bool-cases (passed sig)) [
      | inl good ↦
          let (sum, final, run, names, adds) = verify_loop-faults (z ⊕ sig.response) bad rest in
          (
            sum,
            final,
            rw (total sig, good) run,
            (λ j. ground (arith, names j)),
            λ h. adds (λ j. ground (arith, h j)),
          )
      | inr failed ↦
          let (sum, final, run, names, adds) =
            verify_loop-faults z (add_new bad sig.holder_index) rest in
          (
            sum,
            final,
            rw (total sig, failed) run,
            (λ j. ground (arith, names j, contains-add_new bad sig.holder_index j)),
            λ h. absurd (ground (arith, h sig.holder_index)),
          )
    ]
