-- ===== src/Nested/Signing/Quorum.antt =====
-- src/nested.rs: a quorum whose members hold one sharing of the nested key and follow the protocol,
-- through `aggregate_inner_shares_verified`.
use frostito.Prelude.{
  ℕ, ◌≤◌, ◌≡◌, ◌≢◌, refl, sym, ap, ◌∙◌, Bool, true, false, not, ◌&&◌, ◌||◌, List, [], ◌∷◌, map,
  length, length-map, contains, All, arith, inl, inr,
}
use frostito.Error.{ok}
use frostito.Curve.{Curve}
use frostito.Curve.Ring.{ring}
use frostito.Indices.{is_distinct, all_positive}
use frostito.Polynomial.{horner}
use frostito.Lagrange.{compute_lagrange_coefficients}
use frostito.Lagrange.Nodes.{Fits}
use frostito.Lagrange.Coefficients.{reference_coefficients, compute_lagrange-reference}
use frostito.Lagrange.Combination.{combine, combine-compute_lagrange}
use frostito.Zf.{InnerSigningParams}
use frostito.Nested.Nonces.{NoncePair, InnerCommitments, inner_commit}
use frostito.Nested.Signing.{
  InnerSignatureShare, aggregated, response_of, share_passes, aggregate_inner_shares_verified,
}
use frostito.Nested.Signing.Holder.{verify_inner_share-response}
use frostito.Nested.Signing.Lookup.{find-map, repeats_distinct, Looks, Looks-self}
use frostito.Nested.Signing.Coverage.{holders, fails, is_faulty, sum_shares}
use frostito.Nested.Signing.Blame.{passed, aggregate-Verdict, length-computed}
use frostito.Nested.Signing.Flat.{Member, sum_responses, sum_nonces, sum_responses-flat}

module _ (c : Curve) where
  infixr 70 ◌•◌
  open c use {Scalar, Point, scalars, zero as zero_scalar, one, from_u32, generator, ◌•◌}

  abbrev pub zero_nonces : NoncePair Scalar
  zero_nonces = record { hiding = zero_scalar; binding = zero_scalar }

  -- A quorum whose members hold the values of one polynomial, all follow the protocol, and answer
  -- under the parameters `params`.
  module _ (params : InnerSigningParams Scalar) (session : List ℕ)
      (nonces_of : ℕ → NoncePair Scalar) (ps : List Scalar) where
    abbrev pub share_at : ℕ → Scalar
    share_at k = horner scalars (from_u32 k) ps

    abbrev pub member_at : ℕ → Member c
    member_at k = record { nonces = nonces_of k; scalar = share_at k }

    abbrev pub published : ℕ → InnerCommitments Point
    published k = (inner_commit c k session (nonces_of k).hiding (nonces_of k).binding).1

    unfoldable pub answers : List ℕ → List Scalar → List (InnerSignatureShare Scalar)
    answers (k ∷ indices) (mu ∷ lagrange) =
        record { holder_index = k; response = response_of c (nonces_of k) params mu (share_at k) }
        ∷ answers indices lagrange
    answers _ _ = []

    holders-answers :
        (indices : List ℕ) (lagrange : List Scalar)
        → length lagrange ≡ length indices
        → holders (answers indices lagrange) ≡ indices
    unfolding answers
    holders-answers [] lagrange l = refl
    holders-answers (k ∷ indices) [] l = absurd (omega arith)
    holders-answers (k ∷ indices) (mu ∷ lagrange) l =
        ap (λ ks. k ∷ ks) (holders-answers indices lagrange (omega arith))

    sum_shares-answers :
        (indices : List ℕ) (lagrange : List Scalar) (z : Scalar)
        → sum_shares c z (answers indices lagrange)
          ≡ sum_responses c params z (map member_at indices) lagrange
    unfolding answers sum_shares sum_responses
    sum_shares-answers [] lagrange z = refl
    sum_shares-answers (k ∷ indices) [] z = refl
    sum_shares-answers (k ∷ indices) (mu ∷ lagrange) z = sum_shares-answers indices lagrange _

    -- Each answer passes, when its holder's lookups give its own values.
    answers-pass :
        (active : List ℕ) (all_lagrange : List Scalar) (indices : List ℕ) (lagrange : List Scalar)
        → Looks active all_lagrange indices lagrange
        → All
            (λ sig.
              passed c
                (map published active)
                (map (λ k. (k, share_at k • generator)) active)
                params
                active
                all_lagrange
                sig
              ≡ true)
            (answers indices lagrange)
    unfolding Looks answers passed share_passes inner_commit
    answers-pass active all_lagrange [] lagrange h = tt
    answers-pass active all_lagrange (k ∷ indices) [] h = tt
    answers-pass active all_lagrange (k ∷ indices) (mu ∷ lagrange) h =
        let sig : InnerSignatureShare Scalar = record {
          holder_index = k;
          response = response_of c (nonces_of k) params mu (share_at k);
        } in
        let checked =
          verify_inner_share-response c (nonces_of k) params mu (share_at k) sig (published k) refl
            refl refl in
        let commitment =
          find-map {A = InnerCommitments Point} (λ r. r.holder_index) published active k (λ i. refl)
            h.0.0 in
        let public =
          find-map {A = ℕ × Point} (λ p. p.0) (λ i. (i, share_at i • generator)) active k
            (λ i. refl) h.0.0 in
        (
          rw (passed, share_passes, h.0.1.1, commitment, public, h.0.1.2) checked,
          answers-pass active all_lagrange indices lagrange h.1,
        )

    fails-none :
        (good : InnerSignatureShare Scalar → Bool) (sigs : List (InnerSignatureShare Scalar))
        (j : ℕ)
        → All (λ sig. good sig ≡ true) sigs
        → fails good sigs j ≡ false
    fails-none good [] j h = refl
    fails-none good (sig ∷ rest) j h = ground (arith, h.0, fails-none good rest j h.1)

    no_fault :
        (active : List ℕ) (lagrange : List Scalar) (j : ℕ)
        → length lagrange ≡ length active
        → is_distinct active ≡ true
        → is_faulty
            (passed c
              (map published active)
              (map (λ k. (k, share_at k • generator)) active)
              params
              active
              lagrange)
            active
            (answers active lagrange)
            j
          ≡ false
    no_fault active lagrange j l d =
        let good =
          passed c (map published active) (map (λ k. (k, share_at k • generator)) active) params
            active lagrange in
        let quiet =
          fails-none good (answers active lagrange) j
            (answers-pass active lagrange active lagrange (Looks-self active lagrange d)) in
        rw (holders-answers active lagrange l, repeats_distinct active j d, quiet)
          (clear (contains active j))
      where
        clear : (b : Bool) → ((b && not b) || ((b && not b) || false)) ≡ false
        clear b = ground arith

    scalars-members :
        (indices : List ℕ) → map (λ m. m.scalar) (map member_at indices) ≡ map share_at indices
    scalars-members [] = refl
    scalars-members (k ∷ indices) = ap (λ xs. share_at k ∷ xs) (scalars-members indices)

    -- An empty sum is the response of no nonces and no key.
    response-zero : response_of c zero_nonces params one zero_scalar ≡ zero_scalar
    unfolding response_of
    response-zero = simp ring

    -- Where the members of a nonempty quorum, of distinct positive indices below the capacity, hold the
    -- values at their indices of one polynomial with at most as many coefficients as there are members,
    -- and answer by the protocol under published commitments, aggregation of their shares succeeds and
    -- returns exactly the response that one FROST signer gives with the sums of the hiding and of the
    -- binding nonces, the polynomial's value at 0 as its share, and inner coefficient one.
    pub nested_equals_flat :
        (active : List ℕ)
        → active ≢ []
        → Fits scalars active
        → all_positive active ≡ true
        → is_distinct active ≡ true
        → length ps ≤ length active
        → (lagrange : List Scalar) × (compute_lagrange_coefficients scalars active ≡ ok lagrange)
          × (aggregate_inner_shares_verified c
                (answers active lagrange)
                (map published active)
                (map (λ k. (k, share_at k • generator)) active)
                params
                active
              ≡ ok (
                  aggregated (
                    response_of c
                      (sum_nonces c zero_nonces (map member_at active))
                      params
                      one
                      (horner scalars zero_scalar ps))))
    nested_equals_flat active n f p d fit =
        let lagrange = reference_coefficients scalars active in
        let computed = compute_lagrange-reference scalars active n f p d in
        let l = length-computed c active f computed in
        let flat =
          sum_shares-answers active lagrange zero_scalar
          ∙ ap (λ z. sum_responses c params z (map member_at active) lagrange) (sym response-zero)
          ∙ sum_responses-flat c params (map member_at active) lagrange zero_nonces zero_scalar
              (length-map member_at active ∙ sym l)
          ∙ ap
              (λ xs.
                response_of c (sum_nonces c zero_nonces (map member_at active)) params one
                  (combine scalars zero_scalar lagrange xs))
              (scalars-members active)
          ∙ ap (response_of c (sum_nonces c zero_nonces (map member_at active)) params one)
              (combine-compute_lagrange scalars active ps lagrange f fit computed) in
        elim (aggregate-Verdict c (answers active lagrange) (map published active)
          (map (λ k. (k, share_at k • generator)) active) params active lagrange f computed) [
            | inl (r, clean) ↦ (lagrange, computed, r ∙ ap (λ z. ok (aggregated z)) flat)
            | inr (bad, r, sorted, names, (j, faulty)) ↦
                let clean = no_fault active lagrange j l d in cc
          ]
