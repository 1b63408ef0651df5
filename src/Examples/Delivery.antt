-- ===== src/Examples/Delivery.antt =====
-- Sealed packages and complaints on the small curve, with a handshake that sends its plaintext.
use frostito.Prelude.{
  ℕ, ◌≡◌, refl, sym, All, List, [], ◌∷◌, ◌++◌, replicate, some, if◌then◌else◌, decide, arith,
  ℕ_discrete,
}
use frostito.Error.{ok, ◌>>=◌}
use frostito.Polynomial.{horner, horner_points}
use frostito.Bytes.{to_le_bytes, from_le_bytes}
use frostito.Commitment.{
  DealerCommitment, SubShare, encode_plaintext, decode_plaintext, evaluate_at, verify_subshare,
}
use frostito.Tally.{upheld, unfounded}
use frostito.Echo.{AgreedRound1, agreed_commitment, commitment_digest}
use frostito.Complaint.{
  BadSubShareEvidence, ComplaintEvidence, bad_sub_share, Complaint, evidence_accused,
  adjudicate_share, adjudicate, sign_complaint, verify_complaint,
}
use frostito.Complaint.Verdicts.{made, made-Signed, sign-made, forged_evidence_upheld}
use frostito.Complaint.Adjudication.{verify_complaint-bad_sub_share}
use frostito.Sealed.{
  Snow, noise_seal, noise_open, SealedRoster, sort_participants, check_participants, new_roster,
  public_key, sealed_ciphertext_digest, SealedSubShare, bad_sub_share_failure,
}
use frostito.Sealed.Packages.{
  seal_subshare, decrypt, check_agreed, open_subshare, open_subshare_agreed,
  open_subshare_agreed_with_evidence,
}
use frostito.Sealed.Order.{new_roster-Perm}
use frostito.Sealed.Lookup.{new_roster_sound}
use frostito.Sealed.Delivery.{open_subshare_agreed-open_subshare}
use frostito.Sealed.Evidence.{evidence_upheld}
use frostito.Sealed.Roundtrip.{open_subshare-seal_subshare}
use frostito.Zf.{index_of_bytes}
use frostito.Zf.Reading.{Reads, index_of_bytes-Reads}
use mathlib.Core.List.{Permᴰ, Mem}
use frostito.Examples.SmallField.{F7, f0, f1, f2, f3, f5, of_ℕ, F7-discrete, mul}
use frostito.Examples.SmallCurve.{bytes-discrete, small_field, small_curve}

index_of_bytes-Reads_example :
    Reads (2 ∷ 1 ∷ 0 ∷ 0 ∷ 0 ∷ []) (index_of_bytes (2 ∷ 1 ∷ 0 ∷ 0 ∷ 0 ∷ []))
index_of_bytes-Reads_example =
    index_of_bytes-Reads (2 ∷ 1 ∷ 0 ∷ 0 ∷ 0 ∷ [])
      (omega arith, (omega arith, (omega arith, (omega arith, (omega arith, tt)))))

index_of_bytes_test : index_of_bytes (2 ∷ 1 ∷ 0 ∷ 0 ∷ 0 ∷ []) ≡ ok 258
unfolding index_of_bytes from_le_bytes
index_of_bytes_test = refl

abbrev hash : List ℕ → List ℕ
hash bytes = replicate 64 1

abbrev snow : Snow
snow = record {
  hkdf_expand = λ seed info. seed;
  x25519_public = λ key. key;
  Initiator = Unit;
  Responder = Unit;
  build_initiator = λ entropy prologue local remote. some tt;
  write_message = λ noise message size. some message;
  build_responder = λ prologue local remote. some tt;
  read_message = λ noise message size. some message;
}

abbrev commitment : DealerCommitment F7
commitment = record { dealer_index = 2; coefficients = f2 ∷ f5 ∷ [] }

abbrev agreed : AgreedRound1 F7
agreed = record { epoch = 4; threshold = 2; digest = []; commitments = commitment ∷ [] }

abbrev roster : SealedRoster
roster = record { participants = (1, 10 ∷ []) ∷ (2, 20 ∷ []) ∷ []; session_id = 9 ∷ [] }

abbrev value_of : F7 → SubShare F7
value_of v = record { dealer_index = 2; player_index = 1; value = v }

-- The polynomial's value at 1 is 2 + 5 = 0.
abbrev package_of : F7 → SealedSubShare
package_of v = record {
  dealer_index = 2;
  recipient_index = 1;
  ciphertext = encode_plaintext small_field (value_of v) ++ replicate 32 1;
}

abbrev evidence : BadSubShareEvidence
evidence = record {
  dealer_index = 2;
  recipient_index = 1;
  session_id = 9 ∷ [];
  round = 2;
  subshare = 3 ∷ replicate 31 0;
  agreed_digest = replicate 32 1;
  sealed_digest = replicate 64 1;
}

abbrev complaint : Complaint F7 F7
complaint = made small_curve hash 4 (9 ∷ []) 2 1 (bad_sub_share evidence) f3 f5

refused :
    open_subshare_agreed_with_evidence small_curve hash hash snow
      (10 ∷ [])
      1
      roster
      2
      (package_of f3)
      agreed
    ≡ bad_sub_share_failure evidence
unfolding open_subshare_agreed_with_evidence decrypt check_agreed noise_open public_key
    sealed_ciphertext_digest agreed_commitment commitment_digest encode_plaintext decode_plaintext
    verify_subshare evaluate_at horner_points to_le_bytes from_le_bytes F7-discrete bytes-discrete
    ℕ_discrete
refused = refl

evidence_upheld_example :
    verify_complaint small_curve hash complaint 4 (9 ∷ []) (mul f3 f1) (some agreed) ≡ ok upheld
evidence_upheld_example =
    evidence_upheld small_curve hash hash snow (10 ∷ []) 1 roster 2 (package_of f3) agreed f3 f5
      refused (sign-made small_curve hash 4 (9 ∷ []) 2 1 (bad_sub_share evidence) f3 f5 refl)

verified :
    verify_complaint small_curve hash complaint 4 (9 ∷ []) (mul f3 f1) (some agreed) ≡ ok upheld
unfolding adjudicate adjudicate_share evidence_accused agreed_commitment commitment_digest
    verify_subshare evaluate_at horner_points F7-discrete bytes-discrete ℕ_discrete
verified =
    (made-Signed small_curve hash 4 (9 ∷ []) 2 1 (bad_sub_share evidence) f3 f5 (some agreed) refl
      refl).0

verify_complaint-bad_sub_share_example :
    (v : F7) × (complaint.epoch ≡ 4)
    × (complaint.session_id ≡ 9 ∷ [])
    × (evidence.recipient_index ≡ complaint.accuser_index)
    × (small_field.from_canonical_bytes evidence.subshare ≡ some v)
    × (upheld ≡ (
        if decide (F7-discrete v (horner small_field (of_ℕ complaint.accuser_index) (f2 ∷ f5 ∷ [])))
        then unfounded
        else upheld))
unfolding agreed_commitment evidence_accused
verify_complaint-bad_sub_share_example =
    verify_complaint-bad_sub_share small_curve hash complaint evidence 4 (9 ∷ []) (mul f3 f1) agreed
      2 (f2 ∷ f5 ∷ []) refl refl verified

forged_evidence_upheld_example :
    (forged : ComplaintEvidence F7 F7) × (framing : Complaint F7 F7) × (evidence_accused forged ≡ 2)
    × (sign_complaint small_curve hash 4 (9 ∷ []) 1 1 forged f3 f5 ≡ ok framing)
    × (verify_complaint small_curve hash framing 4 (9 ∷ []) (mul f3 f1) (some agreed) ≡ ok upheld)
forged_evidence_upheld_example =
    forged_evidence_upheld small_curve hash 4 (9 ∷ []) 1 1 2 f3 f5 (some agreed) (omega arith) refl
      refl

open_subshare_agreed-open_subshare_example :
    open_subshare_agreed small_curve hash hash snow (10 ∷ []) 1 roster 2 (package_of f0) agreed ≡ (
      agreed_commitment agreed 2 >>= λ found.
      open_subshare small_curve hash hash snow (10 ∷ []) 1 roster 2 (package_of f0) found)
open_subshare_agreed-open_subshare_example =
    open_subshare_agreed-open_subshare small_curve hash hash snow (10 ∷ []) 1 roster 2
      (package_of f0) agreed

sealed :
    seal_subshare small_curve hash hash snow (5 ∷ []) (20 ∷ []) roster 2 (value_of f0) commitment
    ≡ ok (package_of f0)
unfolding seal_subshare noise_seal public_key commitment_digest
sealed = refl

open_subshare-seal_subshare_example :
    open_subshare small_curve hash hash snow (10 ∷ []) 1 roster 2 (package_of f0) commitment
    ≡ ok (value_of f0)
unfolding noise_seal noise_open public_key verify_subshare evaluate_at horner_points F7-discrete
open_subshare-seal_subshare_example =
    open_subshare-seal_subshare small_curve hash hash snow (5 ∷ []) (20 ∷ []) (10 ∷ []) roster 2
      (value_of f0) commitment (λ a b p m x e. sym e) (λ m. refl) refl refl (omega arith)
      (omega arith) refl refl refl sealed

new_roster-Perm_example :
    (new_roster ((2, 20 ∷ []) ∷ (1, 10 ∷ []) ∷ []) (9 ∷ [])
      ≡ new_roster ((1, 10 ∷ []) ∷ (2, 20 ∷ []) ∷ []) (9 ∷ []))
new_roster-Perm_example =
    new_roster-Perm ((2, 20 ∷ []) ∷ (1, 10 ∷ []) ∷ []) ((1, 10 ∷ []) ∷ (2, 20 ∷ []) ∷ []) (9 ∷ [])
      ∣ Permᴰ.swap refl refl ∣₁

new_roster_sound_example :
    All (λ (p : ℕ × List ℕ). public_key roster p.0 ≡ ok p.1) ((2, 20 ∷ []) ∷ (1, 10 ∷ []) ∷ [])
    × ((i : ℕ) (key : List ℕ)
        → public_key roster i ≡ ok key
        → Mem {A = ℕ × List ℕ} (i, key) ((2, 20 ∷ []) ∷ (1, 10 ∷ []) ∷ []))
    × (roster.session_id ≡ 9 ∷ [])
unfolding new_roster sort_participants check_participants
new_roster_sound_example = new_roster_sound ((2, 20 ∷ []) ∷ (1, 10 ∷ []) ∷ []) (9 ∷ []) roster refl
