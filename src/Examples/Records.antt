-- ===== src/Examples/Records.antt =====
-- A signing context, a complaint tally and an echo round.
use frostito.Prelude.{
  ℕ, ◌≤◌, ◌≡◌, refl, true, List, [], ◌∷◌, All, any, length, contains, replicate, arith,
}
use frostito.Indices.{is_distinct}
use frostito.Commitment.{DealerCommitment, commitment_to_bytes, compress_all}
use frostito.Context.{SigningContext}
use frostito.Context.Encoding.{IsSized as IsContextSized, encode_prefix_free}
use frostito.Tally.{upheld, unfounded, new_tally, accusers, count}
use frostito.Tally.Counts.{Accusation, counts_for, replay, replay-accusers}
use frostito.Echo.{AgreedRound1, confirm, confirm_each, confirm_all}
use frostito.Echo.Agreement.{IsSized, confirm_all_sound, echo_input_injective}
use frostito.Bytes.{differs, to_le_bytes}
use frostito.Examples.SmallField.{F7, f2, f3}
use frostito.Examples.SmallCurve.{small_curve}

abbrev release : SigningContext
release = record { epoch = 7; manifest_hash = replicate 32 9; message = 1 ∷ 2 ∷ [] }

abbrev trailing : List ℕ
trailing = 5 ∷ []

release-IsContextSized : IsContextSized release
release-IsContextSized = record {
  epoch_fits = omega arith;
  manifest_size = refl;
  message_fits = omega arith;
}

encode_prefix_free_example : (release ≡ release) × (trailing ≡ trailing)
encode_prefix_free_example =
    encode_prefix_free release release trailing trailing release-IsContextSized
      release-IsContextSized refl

abbrev complaints : List Accusation
complaints =
    record { accuser = 1; accused = 3; verdict = upheld }
    ∷ record { accuser = 1; accused = 3; verdict = upheld }
    ∷ record { accuser = 2; accused = 3; verdict = upheld }
    ∷ record { accuser = 3; accused = 3; verdict = upheld }
    ∷ record { accuser = 4; accused = 3; verdict = unfounded }
    ∷ []

replay-accusers_example :
    (contains (accusers (replay (new_tally 2) complaints) 3) 2 ≡ any (counts_for 3 2) complaints)
    × (is_distinct (accusers (replay (new_tally 2) complaints) 3) ≡ true)
    × (count (replay (new_tally 2) complaints) 3
        ≡ length (accusers (replay (new_tally 2) complaints) 3))
replay-accusers_example = replay-accusers 2 complaints 3 2

abbrev k1 : DealerCommitment F7
k1 = record { dealer_index = 1; coefficients = f3 ∷ f2 ∷ [] }

k1-IsSized : IsSized small_curve k1
unfolding commitment_to_bytes compress_all to_le_bytes
k1-IsSized = record { index_fits = omega arith; index_positive = refl; size_fits = omega arith }

abbrev agreed : AgreedRound1 F7
agreed = record { epoch = 7; threshold = 2; digest = 8 ∷ 9 ∷ []; commitments = k1 ∷ [] }

confirm_all_sound_example :
    (2 ≤ 2) × All (λ p. p ≡ agreed.digest) ((8 ∷ 9 ∷ []) ∷ (8 ∷ 9 ∷ []) ∷ [])
unfolding confirm_all confirm_each confirm differs
confirm_all_sound_example =
    confirm_all_sound agreed ((8 ∷ 9 ∷ []) ∷ (8 ∷ 9 ∷ []) ∷ []) 2 (refl, (refl, tt)) refl

abbrev participants : ℕ
participants = 3

echo_input_injective_example :
    (agreed.epoch ≡ agreed.epoch)
    × (agreed.threshold ≡ agreed.threshold)
    × (participants ≡ participants)
    × (agreed.commitments ≡ agreed.commitments)
echo_input_injective_example =
    echo_input_injective small_curve 7 7 2 2 3 3 (k1 ∷ []) (k1 ∷ []) (omega arith) (omega arith)
      (omega arith) (omega arith) (omega arith) (omega arith) (omega arith) (omega arith)
      (omega arith) (k1-IsSized, tt) (k1-IsSized, tt) refl
