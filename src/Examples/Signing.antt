-- ===== src/Examples/Signing.antt =====
-- A signer that counts its calls, behind a store of spent sessions.
use frostito.Prelude.{ℕ, ◌+◌, ◌≡◌, refl, List, [], ◌∷◌, length}
use frostito.Error.{Result, ok, err, session_spent}
use frostito.Signer.{SignRequest, Spending, sign}
use frostito.Signer.Once.{sign_all, sign_once}

abbrev counting : ℕ → SignRequest ℕ ℕ → ℕ × Result ℕ
counting n request = (n + 1, ok (length request.message))

abbrev request_of : ℕ → List ℕ → SignRequest ℕ ℕ
request_of session message = record {
  nonces = record { session_id = session ∷ []; holder_index = 2; secrets = 5 };
  nested = 0;
  message = message;
}

abbrev fresh : Spending ℕ
fresh = record { store = record { spent = [] }; inner = 0 }

abbrev after_two : Spending ℕ
after_two = sign_all counting (sign counting fresh (request_of 7 (1 ∷ []))).0 (request_of 8 [] ∷ [])

sign_once_example :
    sign counting after_two (request_of 7 (3 ∷ 4 ∷ [])) ≡ (after_two, err session_spent)
sign_once_example =
    sign_once counting fresh (request_of 7 (1 ∷ [])) (request_of 7 (3 ∷ 4 ∷ []))
      (request_of 8 [] ∷ []) refl refl
