-- ===== src/Examples/InnerRound.antt =====
-- Three inner holders on the small curve, sharing 4 + 2 x, and a frost-core with fixed answers.
use frostito.Prelude.{
  ℕ, zero, suc, ◌≤◌, ◌≡◌, refl, true, List, [], ◌∷◌, map, some, All, any, find, position, get_elem?,
  ◌==◌, arith, ◌⊎◌,
}
use frostito.Error.{Error, ok, err}
use frostito.Bytes.{to_le_bytes, from_le_bytes, differs}
use frostito.Indices.{sort, insert, scan_duplicates, scan_after, is_distinct, all_positive}
use frostito.Polynomial.{horner}
use frostito.Lagrange.{
  compute_lagrange_coefficients, check_positive, fold_product, d_loop, d_values_from, forward,
  backward, common_denominator, coefficients_of,
}
use frostito.Signer.{Nonces}
use frostito.Zf.{
  FrostCore, InnerSigningParams, index_of_bytes, identifier_to_index, indices_of, nested_identifier,
  inner_params_from_zf,
}
use frostito.Nested.Nonces.{
  NoncePair, InnerCommitments, precommit_input, inner_precommit, verify_inner_precommit, pair_loop,
  aggregate_inner_commitment_pair, verify_nested_commitment,
}
use frostito.Nested.Nonces.Reveal.{
  sum_of, holders_of, IsCommitted, IsAggregate, aggregate_pair_sound,
}
use frostito.Nested.Signing.{
  SecretShare, InnerSignatureShare, NestedSigningRequest, aggregated, rejected, check_quorum,
  is_foreign, response_of, inner_sign, public_share, verify_inner_share,
  aggregate_inner_shares_verified,
}
use frostito.Nested.Signing.Holder.{inner_sign-verifies}
use frostito.Nested.Signing.Flat.{sum_nonces}
use frostito.Nested.Signing.Blame.{Verdict, passed, aggregate-Outcome}
use frostito.Nested.Signing.Quorum.{
  share_at, member_at, published, answers, zero_nonces, nested_equals_flat,
}
use frostito.Nested.Signing.Reuse.{weight, quorum_coefficient, inner_sign-leaks}
use frostito.Examples.SmallField.{
  F7, f0, f1, f2, f3, f4, f5, f6, of_ℕ, F7-discrete, mul, sub, invert,
}
use frostito.Examples.SmallCurve.{small_field, small_curve}

abbrev hash : List ℕ → List ℕ
hash bytes = bytes

-- The package is its message; the outer set is {1, 2}, and position 2 is the nested one.
abbrev frost : FrostCore small_curve
frost = record {
  Identifier = ℕ;
  serialize = to_le_bytes 4;
  of_u16 = λ n. some n;
  SigningPackage = List ℕ;
  message = λ sent. sent;
  identifiers = λ sent. 1 ∷ 2 ∷ [];
  signing_commitment = λ sent id. some (f1, f3);
  VerifyingKey = Unit;
  BindingFactors = Unit;
  compute_binding_factor_list = λ sent key. some tt;
  factor_bytes = λ factors id. some (3 ∷ []);
  deserialize = λ bytes. some (of_ℕ (from_le_bytes bytes));
  compute_group_commitment = λ sent factors. some f2;
  challenge = λ r key message. some f5;
}

abbrev nonces_of : ℕ → NoncePair F7
nonces_of zero = record { hiding = f0; binding = f0 }
nonces_of (suc zero) = record { hiding = f2; binding = f3 }
nonces_of (suc (suc zero)) = record { hiding = f5; binding = f1 }
nonces_of (suc (suc (suc k))) = record { hiding = f1; binding = f6 }

abbrev session : List ℕ
session = 9 ∷ []

abbrev reveal : ℕ → F7 → F7 → InnerCommitments F7
reveal k d e = record { holder_index = k; session_id = session; hiding = d; binding = e }

abbrev reveals : List (InnerCommitments F7)
reveals = reveal 1 f2 f3 ∷ reveal 2 f5 f1 ∷ reveal 3 f1 f6 ∷ []

abbrev precommits : List (ℕ × List ℕ)
precommits = map (λ r. (r.holder_index, inner_precommit small_curve hash r)) reveals

abbrev request : List ℕ → NestedSigningRequest (List ℕ) F7
request active = record {
  package_sent = 4 ∷ 2 ∷ [];
  nested_index = 2;
  session_id = session;
  inner_precommits = precommits;
  inner_commitments = reveals;
  active_indices = active;
  inner_threshold = 2;
}

abbrev nonces : Nonces (NoncePair F7)
nonces = record { session_id = session; holder_index = 1; secrets = nonces_of 1 }

abbrev share : SecretShare F7
share = record { index = 1; scalar = f6 }

abbrev answer : F7 → InnerSignatureShare F7
answer z = record { holder_index = 1; response = z }

abbrev params : InnerSigningParams F7
params = record { outer_binding = f3; outer_challenge = f5; outer_lambda = f6 }

pair : aggregate_inner_commitment_pair small_curve hash session precommits reveals ≡ ok (f1, f3)
unfolding aggregate_inner_commitment_pair pair_loop verify_inner_precommit inner_precommit
    precommit_input differs to_le_bytes
pair = refl

aggregate_pair_sound_example :
    (f1 ≡ sum_of small_curve f0 (map (λ r. r.hiding) reveals))
    × (f3 ≡ sum_of small_curve f0 (map (λ r. r.binding) reveals))
    × (all_positive (holders_of small_curve reveals) ≡ true)
    × (is_distinct (holders_of small_curve reveals) ≡ true)
    × All (IsCommitted small_curve hash session precommits) reveals
aggregate_pair_sound_example = aggregate_pair_sound small_curve hash session precommits reveals pair

derived : inner_params_from_zf frost (4 ∷ 2 ∷ []) tt 2 ≡ ok params
unfolding inner_params_from_zf indices_of identifier_to_index index_of_bytes nested_identifier
    to_le_bytes from_le_bytes sort insert scan_duplicates scan_after compute_lagrange_coefficients
    check_positive fold_product d_loop d_values_from forward backward common_denominator
    coefficients_of F7-discrete
derived = refl

first_quorum : quorum_coefficient small_curve (1 ∷ 2 ∷ []) 1 ≡ ok f2
unfolding sort insert scan_duplicates scan_after compute_lagrange_coefficients check_positive
    fold_product d_loop d_values_from forward backward common_denominator coefficients_of
    F7-discrete
first_quorum = refl

second_quorum : quorum_coefficient small_curve (1 ∷ 3 ∷ []) 1 ≡ ok f5
unfolding sort insert scan_duplicates scan_after compute_lagrange_coefficients check_positive
    fold_product d_loop d_values_from forward backward common_denominator coefficients_of
    F7-discrete
second_quorum = refl

first_answer :
    inner_sign small_curve hash frost nonces share tt (4 ∷ 2 ∷ []) (request (1 ∷ 2 ∷ []))
    ≡ ok (answer f0)
unfolding inner_sign check_quorum is_foreign response_of verify_nested_commitment
    inner_params_from_zf indices_of identifier_to_index index_of_bytes nested_identifier to_le_bytes
    from_le_bytes sort insert scan_duplicates scan_after compute_lagrange_coefficients
    check_positive fold_product d_loop d_values_from forward backward common_denominator
    coefficients_of F7-discrete aggregate_inner_commitment_pair pair_loop verify_inner_precommit
    inner_precommit precommit_input differs
first_answer = refl

second_answer :
    inner_sign small_curve hash frost nonces share tt (4 ∷ 2 ∷ []) (request (1 ∷ 3 ∷ []))
    ≡ ok (answer f1)
unfolding inner_sign check_quorum is_foreign response_of verify_nested_commitment
    inner_params_from_zf indices_of identifier_to_index index_of_bytes nested_identifier to_le_bytes
    from_le_bytes sort insert scan_duplicates scan_after compute_lagrange_coefficients
    check_positive fold_product d_loop d_values_from forward backward common_denominator
    coefficients_of F7-discrete aggregate_inner_commitment_pair pair_loop verify_inner_precommit
    inner_precommit precommit_input differs
second_answer = refl

inner_sign-leaks_example :
    share.scalar
    ≡ mul (sub f0 f1) (invert (sub (weight small_curve params f2) (weight small_curve params f5)))
inner_sign-leaks_example =
    inner_sign-leaks small_curve hash frost nonces share tt (4 ∷ 2 ∷ []) (4 ∷ 2 ∷ [])
      (request (1 ∷ 2 ∷ [])) (request (1 ∷ 3 ∷ [])) first_answer second_answer derived derived
      first_quorum second_quorum refl (λ e. cc)

inner_sign-verifies_example :
    (frost.message (4 ∷ 2 ∷ []) ≡ 4 ∷ 2 ∷ [])
    × (session ≡ session)
    × (2 ≤ 2)
    × (all_positive (1 ∷ 2 ∷ []) ≡ true)
    × (is_distinct (1 ∷ 2 ∷ []) ≡ true)
    × All (λ k. any (λ r. r.holder_index == k) reveals ≡ true) (1 ∷ 2 ∷ [])
    × (verify_nested_commitment small_curve hash frost (4 ∷ 2 ∷ []) 2 session precommits reveals
        ≡ ok tt)
    × IsAggregate small_curve hash frost (4 ∷ 2 ∷ []) 2 session precommits reveals
    × ((mine : InnerCommitments F7) × (p : InnerSigningParams F7) × (lagrange : List F7) × (pos : ℕ)
        × (mu : F7) × (find (λ r. r.holder_index == 1) reveals ≡ some mine)
        × (inner_params_from_zf frost (4 ∷ 2 ∷ []) tt 2 ≡ ok p)
        × (compute_lagrange_coefficients small_field (1 ∷ 2 ∷ []) ≡ ok lagrange)
        × (position (1 ∷ 2 ∷ []) 1 ≡ some pos)
        × (get_elem? lagrange pos ≡ some mu)
        × (verify_inner_share small_curve (answer f0) mine (public_share small_curve share) p mu
            ≡ true))
inner_sign-verifies_example =
    inner_sign-verifies small_curve hash frost nonces share tt (4 ∷ 2 ∷ []) (request (1 ∷ 2 ∷ []))
      first_answer

-- Holder 2's response does not pass, and holder 3 sent none.
abbrev sent : List (InnerSignatureShare F7)
sent = answer f0 ∷ record { holder_index = 2; response = f1 } ∷ []

abbrev public_shares : List (ℕ × F7)
public_shares = (1, f6) ∷ (2, f1) ∷ []

aggregate-Outcome_example :
    ((e : Error) × (compute_lagrange_coefficients small_field (1 ∷ 2 ∷ 3 ∷ []) ≡ err e)
      × (aggregate_inner_shares_verified small_curve sent reveals public_shares params
            (1 ∷ 2 ∷ 3 ∷ [])
          ≡ ok (rejected (1 ∷ 2 ∷ 3 ∷ []))))
    ⊎ ((lagrange : List F7) × (compute_lagrange_coefficients small_field (1 ∷ 2 ∷ 3 ∷ [])
          ≡ ok lagrange)
        × Verdict small_curve sent
            (passed small_curve reveals public_shares params (1 ∷ 2 ∷ 3 ∷ []) lagrange)
            (1 ∷ 2 ∷ 3 ∷ [])
            (aggregate_inner_shares_verified small_curve sent reveals public_shares params
              (1 ∷ 2 ∷ 3 ∷ [])))
aggregate-Outcome_example =
    aggregate-Outcome small_curve sent reveals public_shares params (1 ∷ 2 ∷ 3 ∷ [])
      (omega arith, (omega arith, (omega arith, tt)))

abbrev key_polynomial : List F7
key_polynomial = f4 ∷ f2 ∷ []

nested_equals_flat_example :
    (lagrange : List F7) × (compute_lagrange_coefficients small_field (3 ∷ 1 ∷ []) ≡ ok lagrange)
    × (aggregate_inner_shares_verified small_curve
          (answers small_curve params session nonces_of key_polynomial (3 ∷ 1 ∷ []) lagrange)
          (map (published small_curve params session nonces_of key_polynomial) (3 ∷ 1 ∷ []))
          (map
            (λ k. (k, mul (share_at small_curve params session nonces_of key_polynomial k) f1))
            (3 ∷ 1 ∷ []))
          params
          (3 ∷ 1 ∷ [])
        ≡ ok (
            aggregated (
              response_of small_curve
                (sum_nonces small_curve (zero_nonces small_curve) (
                  map (member_at small_curve params session nonces_of key_polynomial) (3 ∷ 1 ∷ [])))
                params
                f1
                (horner small_field f0 key_polynomial))))
nested_equals_flat_example =
    nested_equals_flat small_curve params session nonces_of key_polynomial (3 ∷ 1 ∷ []) (λ e. cc)
      (omega arith, (omega arith, tt)) refl refl (omega arith)
