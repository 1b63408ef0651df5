-- ===== src/Nested/Signing/Blame.antt =====
-- src/nested.rs: how `aggregate_inner_shares_verified` ends.
use frostito.Prelude.{
  ℕ, suc, ◌≡◌, refl, sym, ap, subst, ◌∙◌, Bool, true, false, not, ◌&&◌, ◌||◌, List, [], ◌∷◌, length,
  length-map, find, position, get_elem?, contains, ◌==◌, arith, Bool-cases, Option-cases, some, inl,
  inr, ◌⊎◌,
}
use frostito.Error.{Error, Result, ok, ok_injective, err}
use frostito.Curve.{Curve}
use frostito.Indices.{sort}
use frostito.Indices.Sorting.{IsSorted, sort-IsSorted, contains-sort}
use frostito.Lagrange.{compute_lagrange_coefficients}
use frostito.Lagrange.Nodes.{Fits}
use frostito.Lagrange.Coefficients.{reference_coefficients, compute_lagrange-Outcome}
use frostito.Zf.{InnerSigningParams}
use frostito.Nested.Nonces.{InnerCommitments}
use frostito.Nested.Signing.{
  InnerSignatureShare, Aggregate, aggregated, rejected, cover_shares, cover_active, share_passes,
  verify_inner_share, conclude, aggregate_inner_shares_verified,
}
use frostito.Nested.Signing.Coverage.{
  holders, repeats, fails, is_faulty, sum_shares, contains-cover_shares, contains-cover_active,
  verify_loop-faults,
}

pub position-get_elem? :
    {A : Type 0} (xs : List ℕ) (vs : List A) (k i : ℕ)
    → length vs ≡ length xs
    → position xs k ≡ some i
    → (v : A) × (get_elem? vs i ≡ some v)
position-get_elem? [] vs k i l h = cc
position-get_elem? (x ∷ xs) [] k i l h = absurd (omega arith)
position-get_elem? (x ∷ xs) (v ∷ vs) k i l h = elim (Bool-cases (x == k)) [
  | inl e ↦
      let at : some 0 ≡ some i = rw e at h in
      let same : 0 ≡ i = cc in (v, ap (get_elem? (v ∷ vs)) (sym same))
  | inr n ↦ elim (Option-cases (position xs k)) [
    | inl missing ↦ cc (rw (n, missing) at h)
    | inr (m, found) ↦
        let at : some (suc m) ≡ some i = rw (n, found) at h in
        let same : suc m ≡ i = cc in
        let (w, got) = position-get_elem? xs vs k m (omega arith) found in
        (w, ap (get_elem? (v ∷ vs)) (sym same) ∙ got)
  ]
]

module _ (c : Curve) where
  open c use {Scalar, Point, scalars, zero as zero_scalar}

  module _ (commitments : List (InnerCommitments Point)) (public_shares : List (ℕ × Point))
      (params : InnerSigningParams Scalar) (active : List ℕ) where
    -- The verdict of the lookups and of the check.
    unfoldable pub passed : List Scalar → InnerSignatureShare Scalar → Bool
    passed lagrange sig =
        elim (share_passes c commitments public_shares params active lagrange sig) [
          | ok b ↦ b
          | _ ↦ false
        ]

    share_passes-returns :
        (lagrange : List Scalar)
        → length lagrange ≡ length active
        → (sig : InnerSignatureShare Scalar)
        → (b : Bool) × (share_passes c commitments public_shares params active lagrange sig ≡ ok b)
    unfolding share_passes
    share_passes-returns lagrange l sig =
        let k = sig.holder_index in
        elim (Option-cases (position active k)) [
          | inl e ↦ (false, rw (share_passes, e) refl)
          | inr (pos, at) ↦ elim (Option-cases (find (λ r. r.holder_index == k) commitments)) [
            | inl e ↦ (false, rw (share_passes, at, e) refl)
            | inr (mine, found) ↦ elim (Option-cases (find (λ p. p.0 == k) public_shares)) [
              | inl e ↦ (false, rw (share_passes, at, found, e) refl)
              | inr (public, own) ↦
                  let (mu, got) = position-get_elem? active lagrange k pos l at in
                  (
                    verify_inner_share c sig mine public.1 params mu,
                    rw (share_passes, at, found, own, got) refl,
                  )
            ]
          ]
        ]

    share_passes-passed :
        (lagrange : List Scalar)
        → length lagrange ≡ length active
        → (sig : InnerSignatureShare Scalar)
        → share_passes c commitments public_shares params active lagrange sig
          ≡ ok (passed lagrange sig)
    unfolding passed
    share_passes-passed lagrange l sig =
        let (b, run) = share_passes-returns lagrange l sig in rw (passed, run) refl

  -- How a run ends whose coefficients are `lagrange`.
  abbrev pub Verdict :
      List (InnerSignatureShare Scalar)
      → (InnerSignatureShare Scalar → Bool)
      → List ℕ
      → Result (Aggregate Scalar)
      → Type 0
  Verdict sigs good active r =
      ((r ≡ ok (aggregated (sum_shares c zero_scalar sigs)))
        × ((j : ℕ) → is_faulty good active sigs j ≡ false))
      ⊎ ((bad : List ℕ) × (r ≡ ok (rejected bad))
          × IsSorted bad
          × ((j : ℕ) → contains bad j ≡ is_faulty good active sigs j)
          × ((j : ℕ) × (is_faulty good active sigs j ≡ true)))

  conclude-Verdict :
      (sigs : List (InnerSignatureShare Scalar)) (good : InnerSignatureShare Scalar → Bool)
      (active : List ℕ) (sum : Scalar) (final : List ℕ)
      → ((j : ℕ) → contains final j ≡ is_faulty good active sigs j)
      → (((j : ℕ) → fails good sigs j ≡ false) → sum ≡ sum_shares c zero_scalar sigs)
      → Verdict sigs good active (ok (conclude c (sum, final)))
  conclude-Verdict sigs good active sum [] names adds =
      inl (ap (λ z. ok (aggregated z)) (adds (λ j. ground (arith, names j))), λ j. sym (names j))
  conclude-Verdict sigs good active sum (k ∷ bad) names adds = inr (
    sort (k ∷ bad),
    refl,
    sort-IsSorted (k ∷ bad),
    (λ j. contains-sort (k ∷ bad) j ∙ names j),
    (k, sym (names k) ∙ ground arith),
  )

  length-reference :
      (active : List ℕ) → length (reference_coefficients scalars active) ≡ length active
  unfolding reference_coefficients
  length-reference active = length-map _ _ ∙ length-map _ active

  pub length-computed :
      (active : List ℕ) {lagrange : List Scalar}
      → Fits scalars active
      → compute_lagrange_coefficients scalars active ≡ ok lagrange
      → length lagrange ≡ length active
  length-computed active {lagrange} f e = elim (compute_lagrange-Outcome scalars active f) [
    | inl (n, r) ↦ cc
    | inr (inl (n, r)) ↦ cc
    | inr (inr (inl (d, n, m, k, r))) ↦ cc
    | inr (inr (inr (n, p, d, r))) ↦ ap length (ok_injective (sym e ∙ r)) ∙ length-reference active
  ]

  computes :
      (active : List ℕ)
      → Fits scalars active
      → ((e : Error) × (compute_lagrange_coefficients scalars active ≡ err e))
        ⊎ ((lagrange : List Scalar) × (compute_lagrange_coefficients scalars active ≡ ok lagrange))
  computes active f = elim (compute_lagrange-Outcome scalars active f) [
    | inl (n, r) ↦ inl (_, r)
    | inr (inl (n, r)) ↦ inl (_, r)
    | inr (inr (inl (d, n, m, k, r))) ↦ inl (_, r)
    | inr (inr (inr (n, p, d, r))) ↦ inr (_, r)
  ]

  gather :
      (good : InnerSignatureShare Scalar → Bool) (sigs : List (InnerSignatureShare Scalar))
      (active : List ℕ) (j : ℕ)
      → (contains
            (cover_active
              (cover_shares active [] [] sigs).0
              (cover_shares active [] [] sigs).1
              active)
            j
          || fails good sigs j)
        ≡ is_faulty good active sigs j
  gather good sigs active j =
      let (seen, bad) = contains-cover_shares active [] [] sigs j in
      rw
        (
          contains-cover_active (cover_shares active [] [] sigs).0
              (cover_shares active [] [] sigs).1 active j,
          seen,
          bad,
        )
        (shuffle (contains active j) (contains (holders sigs) j) (repeats (holders sigs) j)
          (fails good sigs j))
    where
      shuffle :
          (a h r f : Bool)
          → (((false || ((h && (not a || false)) || r)) || (a && not (false || h))) || f)
            ≡ ((a && not h) || ((h && not a) || (r || f)))
      shuffle a h r f = ground arith

  -- For active indices below the capacity, aggregation never panics. Where the indices have no
  -- Lagrange coefficients it names all of them. Otherwise it either returns the sum of all responses,
  -- and then no holder is at fault, or returns the sorted list of exactly the holders at fault, and
  -- some holder is: one that is active and sent no share, one that sent a share and is not active, one
  -- that sent two, or one with a share that fails its check.
  pub aggregate-Outcome :
      (sigs : List (InnerSignatureShare Scalar)) (commitments : List (InnerCommitments Point))
      (public_shares : List (ℕ × Point)) (params : InnerSigningParams Scalar) (active : List ℕ)
      → Fits scalars active
      → ((e : Error) × (compute_lagrange_coefficients scalars active ≡ err e)
          × (aggregate_inner_shares_verified c sigs commitments public_shares params active
              ≡ ok (rejected active)))
        ⊎ ((lagrange : List Scalar) × (compute_lagrange_coefficients scalars active ≡ ok lagrange)
            × Verdict sigs
                (passed commitments public_shares params active lagrange)
                active
                (aggregate_inner_shares_verified c sigs commitments public_shares params active))
  unfolding aggregate_inner_shares_verified
  aggregate-Outcome sigs commitments public_shares params active f = elim (computes active f) [
    | inl (e, r) ↦ inl (e, r, rw (aggregate_inner_shares_verified, r) refl)
    | inr (lagrange, r) ↦
        let good = passed commitments public_shares params active lagrange in
        let total =
          share_passes-passed commitments public_shares params active lagrange
            (length-computed active f r) in
        let covered = cover_shares active [] [] sigs in
        let (sum, final, run, names, adds) =
          verify_loop-faults c (share_passes c commitments public_shares params active lagrange)
            good total zero_scalar (cover_active covered.0 covered.1 active) sigs in
        inr (
          lagrange,
          r,
          rw (aggregate_inner_shares_verified, r, run)
              (conclude-Verdict sigs good active sum final
                (λ j. names j ∙ gather good sigs active j) adds),
        )
  ]

  -- The same, for known coefficients.
  pub aggregate-Verdict :
      (sigs : List (InnerSignatureShare Scalar)) (commitments : List (InnerCommitments Point))
      (public_shares : List (ℕ × Point)) (params : InnerSigningParams Scalar) (active : List ℕ)
      (lagrange : List Scalar)
      → Fits scalars active
      → compute_lagrange_coefficients scalars active ≡ ok lagrange
      → Verdict sigs
          (passed commitments public_shares params active lagrange)
          active
          (aggregate_inner_shares_verified c sigs commitments public_shares params active)
  aggregate-Verdict sigs commitments public_shares params active lagrange f e =
      elim (aggregate-Outcome sigs commitments public_shares params active f) [
        | inl (k, r, _) ↦ cc
        | inr (others, r, verdict) ↦
            subst
              (λ l.
                Verdict sigs (passed commitments public_shares params active l) active
                  (aggregate_inner_shares_verified c sigs commitments public_shares params active))
              (ok_injective (sym r ∙ e)) verdict
      ]
