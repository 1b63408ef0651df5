-- ===== src/Nested/Nonces/Reveal.antt =====
-- src/nested.rs: what `aggregate_inner_commitment_pair` establishes of the revealed commitments.
use frostito.Prelude.{
  ℕ, ◌≡◌, refl, sym, ap, ◌∙◌, true, true_of_decide, decide, Bool, ◌||◌, false, not, List, [], ◌∷◌,
  ◌++◌, map, find, contains, length, take, All, All-map, some, ◌==◌, arith,
}
use frostito.Error.{
  Error, refuse_if, unexpected_commitment, ok, ok_injective, refuse_if-eq-ok, ok_or-eq-ok,
  >>=-eq-ok,
}
use frostito.Curve.{Curve}
use frostito.Zf.{FrostCore, nested_identifier}
use frostito.Bytes.{same_bytes}
use frostito.Bytes.Laws.{eq_of_same_bytes, prefix_of_differs}
use frostito.Indices.{is_distinct, all_positive}
use frostito.Indices.Counting.{contains-append_one, contains_absent}
use frostito.Nested.Nonces.{
  InnerCommitments, inner_precommit, verify_inner_precommit, pair_loop,
  aggregate_inner_commitment_pair, verify_nested_commitment,
}

not_refused : (b : Bool) (e : Error) → refuse_if b e ≡ ok tt → b ≡ false
not_refused true e h = cc
not_refused false e h = refl

module _ (c : Curve) where
  infixl 65 ◌⊞◌
  open c use {Point, identity, ◌⊞◌}

  abbrev pub sum_of : Point → List Point → Point
  sum_of p [] = p
  sum_of p (q ∷ rest) = sum_of (p ⊞ q) rest

  abbrev pub holders_of : List (InnerCommitments Point) → List ℕ
  holders_of = map (λ r. r.holder_index)

  module _ (sha512 : List ℕ → List ℕ) where
    -- The reveal belongs to the round, and the first precommitment under its holder matches it: the
    -- digest and the precommitment agree on all bytes that both have.
    abbrev pub IsCommitted : List ℕ → List (ℕ × List ℕ) → InnerCommitments Point → Type 0
    IsCommitted session_id precommits r =
        (r.session_id ≡ session_id)
        × ((pre : ℕ × List ℕ) × (find (λ p. p.0 == r.holder_index) precommits ≡ some pre)
            × (verify_inner_precommit c sha512 pre.1 r ≡ true)
            × (take (length pre.1) (inner_precommit c sha512 r)
                ≡ take (length (inner_precommit c sha512 r)) pre.1))

    agrees :
        (precommit : List ℕ) (r : InnerCommitments Point)
        → verify_inner_precommit c sha512 precommit r ≡ true
        → take (length precommit) (inner_precommit c sha512 r)
          ≡ take (length (inner_precommit c sha512 r)) precommit
    unfolding verify_inner_precommit
    agrees precommit r h = prefix_of_differs (inner_precommit c sha512 r) precommit (ground arith)

    pair_loop_sound :
        (session_id : List ℕ) (precommits : List (ℕ × List ℕ))
        (reveals : List (InnerCommitments Point)) (seen : List ℕ) (d e : Point) {x y : Point}
        → pair_loop c sha512 session_id precommits seen d e reveals ≡ ok (x, y)
        → (x ≡ sum_of d (map (λ r. r.hiding) reveals))
          × (y ≡ sum_of e (map (λ r. r.binding) reveals))
          × (all_positive (holders_of reveals) ≡ true)
          × (is_distinct (holders_of reveals) ≡ true)
          × (All (λ k. contains seen k ≡ false) (holders_of reveals)
              × All (IsCommitted session_id precommits) reveals)
    unfolding pair_loop
    pair_loop_sound session_id precommits [] seen d e h =
        let same = ok_injective h in
        (ap (λ p. p.0) (sym same), ap (λ p. p.1) (sym same), refl, refl, (tt, tt))
    pair_loop_sound session_id precommits (r ∷ rest) seen d e h =
        let k = r.holder_index in
        let (positive, h1) = refuse_if-eq-ok (k == 0) _ h in
        let (round, h2) = refuse_if-eq-ok (not (same_bytes r.session_id session_id)) _ h1 in
        let (new, h3) = refuse_if-eq-ok (contains seen k) _ h2 in
        let (pre, found, h4) = ok_or-eq-ok (find (λ p. p.0 == k) precommits) _ h3 in
        let (matches, h5) = refuse_if-eq-ok (not (verify_inner_precommit c sha512 pre.1 r)) _ h4 in
        let passed : verify_inner_precommit c sha512 pre.1 r ≡ true = ground arith in
        let (sum_d, sum_e, pos, dist, (fresh, each)) =
          pair_loop_sound session_id precommits rest (seen ++ (k ∷ [])) (d ⊞ r.hiding)
            (e ⊞ r.binding) h5 in
        let later : All (λ j. (j == k) ≡ false) (holders_of rest) =
          All-map (λ j f. ground (arith, contains-append_one seen k j)) (holders_of rest) fresh in
        (
          sum_d,
          sum_e,
          ground arith,
          ground (arith, contains_absent k (holders_of rest) later),
          (
            (
              new,
              All-map (λ j f. ground (arith, contains-append_one seen k j)) (holders_of rest) fresh,
            ),
            (
              (eq_of_same_bytes _ _ (ground arith), (pre, found, passed, agrees pre.1 r passed)),
              each,
            ),
          ),
        )

    -- If the aggregation of revealed commitments returns a pair, the pair is the sum of the hiding
    -- points and the sum of the binding points, the holders are positive and distinct, and every reveal
    -- belongs to the round and matches the first precommitment made under its holder's index: its
    -- digest agrees with it on all bytes that both have.
    pub aggregate_pair_sound :
        (session_id : List ℕ) (precommits : List (ℕ × List ℕ))
        (reveals : List (InnerCommitments Point)) {x y : Point}
        → aggregate_inner_commitment_pair c sha512 session_id precommits reveals ≡ ok (x, y)
        → (x ≡ sum_of identity (map (λ r. r.hiding) reveals))
          × (y ≡ sum_of identity (map (λ r. r.binding) reveals))
          × (all_positive (holders_of reveals) ≡ true)
          × (is_distinct (holders_of reveals) ≡ true)
          × All (IsCommitted session_id precommits) reveals
    unfolding aggregate_inner_commitment_pair
    aggregate_pair_sound session_id precommits [] h = cc
    aggregate_pair_sound session_id precommits (r ∷ rest) h =
        let (sum_d, sum_e, pos, dist, (fresh, each)) =
          pair_loop_sound session_id precommits (r ∷ rest) [] identity identity h in
        (sum_d, sum_e, pos, dist, each)

    -- The package's entry for the nested position is the sum of the revealed points, and the reveals
    -- are those of distinct holders who had committed to them.
    abbrev pub IsAggregate :
        (frost : FrostCore c)
        → frost.SigningPackage
        → ℕ
        → List ℕ
        → List (ℕ × List ℕ)
        → List (InnerCommitments Point)
        → Type 0
    IsAggregate frost sent nested_index session_id precommits reveals =
        (id : frost.Identifier) × (entry : Point × Point) × (nested_identifier frost nested_index
          ≡ ok id)
        × (frost.signing_commitment sent id ≡ some entry)
        × (entry.0 ≡ sum_of identity (map (λ r. r.hiding) reveals))
        × (entry.1 ≡ sum_of identity (map (λ r. r.binding) reveals))
        × (all_positive (holders_of reveals) ≡ true)
        × (is_distinct (holders_of reveals) ≡ true)
        × All (IsCommitted session_id precommits) reveals

    pub verify_nested_commitment-IsAggregate :
        (frost : FrostCore c) (sent : frost.SigningPackage) (nested_index : ℕ) (session_id : List ℕ)
        (precommits : List (ℕ × List ℕ)) (reveals : List (InnerCommitments Point))
        → verify_nested_commitment c sha512 frost sent nested_index session_id precommits reveals
          ≡ ok tt
        → IsAggregate frost sent nested_index session_id precommits reveals
    unfolding verify_nested_commitment
    verify_nested_commitment-IsAggregate frost sent nested_index session_id precommits reveals h =
        let (id, named, h1) = >>=-eq-ok (nested_identifier frost nested_index) _ h in
        let (entry, listed, h2) = ok_or-eq-ok (frost.signing_commitment sent id) _ h1 in
        let (pair, ran, h3) =
          >>=-eq-ok (aggregate_inner_commitment_pair c sha512 session_id precommits reveals) _ h2 in
        let (hiding, binding, pos, dist, each) =
          aggregate_pair_sound session_id precommits reveals {x = pair.0} {y = pair.1} ran in
        let same : (not (decide (c.point_eq entry.0 pair.0))
              || not (decide (c.point_eq entry.1 pair.1)))
            ≡ false =
          not_refused _ unexpected_commitment h3 in
        let hiding_same : entry.0 ≡ pair.0 =
          true_of_decide (c.point_eq _ _) (ground (arith, same)) in
        let binding_same : entry.1 ≡ pair.1 =
          true_of_decide (c.point_eq _ _) (ground (arith, same)) in
        (id, entry, named, listed, hiding_same ∙ hiding, binding_same ∙ binding, pos, dist, each)
