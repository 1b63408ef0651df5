-- ===== src/Sealed.antt =====
-- src/sealed.rs: sub-shares sealed to one recipient. The Noise handshake of `snow`, HKDF and X25519
-- are the fields of `Snow`; SHA-256 and SHA-512 are arguments. Keys and digests are byte lists.
pub mod Order
pub mod Lookup
pub mod Packages
pub mod Delivery
pub mod Evidence
pub mod Roundtrip
use frostito.Prelude.{
  ℕ, ◌+◌, Bool, true, false, not, ◌||◌, List, [], ◌∷◌, ◌++◌, length, take, drop, find, Option, none,
  some, leb, ◌==◌, if◌then◌else◌,
}
use frostito.Error.{
  Error, Result, ok, err, panic, ◌>>=◌, ◌>>◌, refuse_if, ok_or, unwrap, empty_contributions,
  invalid_index, duplicate_index, unknown_participant, sealed_open_failed, invalid_sub_share,
}
use frostito.Curve.{Curve}
use frostito.Bytes.{to_le_bytes, bytes_of, same_bytes}
use frostito.Commitment.{
  DealerCommitment, SubShare, encode_plaintext, decode_plaintext, verify_subshare,
}
use frostito.Reshare.{Dealer, dealer_subshare}
use frostito.Echo.{AgreedRound1, agreed_commitment, commitment_digest}
use frostito.Complaint.{BadSubShareEvidence}

abbrev pub x25519_derive_info : List ℕ
x25519_derive_info = bytes_of "frostito/sealed/x25519/v1"

abbrev pub transcript_domain : List ℕ
transcript_domain = bytes_of "frostito/sealed/transcript/v1"

abbrev pub prologue_domain : List ℕ
prologue_domain = bytes_of "frostito/sealed/prologue/v1"

abbrev pub sealed_digest_domain : List ℕ
sealed_digest_domain = bytes_of "frostito/sealed/ciphertext/v1"

-- The external crates: `hkdf`, `x25519_dalek`, and `snow` with the pattern's builder. A builder takes
-- the prologue, the local private and the remote public key, an initiator its ephemeral entropy too;
-- a message is written or read into a buffer of the given length and cut to what was written.
pub record Snow : Type 1 where
  pub hkdf_expand : List ℕ → List ℕ → List ℕ
  pub x25519_public : List ℕ → List ℕ
  pub Initiator : Type 0
  pub Responder : Type 0
  pub build_initiator : List ℕ → List ℕ → List ℕ → List ℕ → Option Initiator
  pub write_message : Initiator → List ℕ → ℕ → Option (List ℕ)
  pub build_responder : List ℕ → List ℕ → List ℕ → Option Responder
  pub read_message : Responder → List ℕ → ℕ → Option (List ℕ)

module _ (snow : Snow) where
  -- `x25519_secret_from_seed`; HKDF gives the 32 bytes it is asked for.
  unfoldable pub x25519_secret_from_seed : List ℕ → List ℕ
  x25519_secret_from_seed seed = snow.hkdf_expand seed x25519_derive_info

  unfoldable pub x25519_public_from_seed : List ℕ → List ℕ
  unfolding x25519_secret_from_seed
  x25519_public_from_seed seed = snow.x25519_public (x25519_secret_from_seed seed)

  unfoldable pub noise_seal : List ℕ → List ℕ → List ℕ → List ℕ → List ℕ → Option (List ℕ)
  noise_seal entropy local_private remote_public prologue plaintext =
      elim (snow.build_initiator entropy prologue local_private remote_public) [
        | none ↦ none
        | some noise ↦ snow.write_message noise plaintext (length plaintext + 128)
      ]

  unfoldable pub noise_open : List ℕ → List ℕ → List ℕ → List ℕ → Option (List ℕ)
  noise_open local_private remote_public prologue message =
      elim (snow.build_responder prologue local_private remote_public) [
        | none ↦ none
        | some noise ↦ snow.read_message noise message (length message + 128)
      ]

pub record SealedRoster : Type 0 where
  pub participants : List (ℕ × List ℕ)
  pub session_id : List ℕ

-- `sort_by_key(|(i, _)| *i)`, which is stable.
unfoldable pub insert_participant : ℕ × List ℕ → List (ℕ × List ℕ) → List (ℕ × List ℕ)
insert_participant p [] = p ∷ []
insert_participant p (q ∷ rest) =
    let others = insert_participant p rest in if leb p.0 q.0 then p ∷ q ∷ rest else q ∷ others

unfoldable pub sort_participants : List (ℕ × List ℕ) → List (ℕ × List ℕ)
unfolding insert_participant
sort_participants [] = []
sort_participants (p ∷ ps) = insert_participant p (sort_participants ps)

-- `for w in sorted.windows(2)`, from a participant on.
unfoldable pub check_windows : ℕ → List (ℕ × List ℕ) → Result (Unit {0})
check_windows i [] = ok tt
check_windows i (q ∷ rest) = if i == q.0 then err (duplicate_index i) else check_windows q.0 rest

-- The checks on the sorted list; `sorted[0]` panics on an empty one.
unfoldable pub check_participants : List (ℕ × List ℕ) → Result (Unit {0})
unfolding check_windows
check_participants [] = panic
check_participants (p ∷ rest) = if p.0 == 0 then err invalid_index else check_windows p.0 rest

-- `SealedRoster::new`
unfoldable pub new_roster : List (ℕ × List ℕ) → List ℕ → Result SealedRoster
unfolding sort_participants check_participants
new_roster [] session_id = err empty_contributions
new_roster (p ∷ ps) session_id = do
  let sorted = sort_participants (p ∷ ps)
  check_participants sorted
  ok (record { participants = sorted; session_id = session_id })

unfoldable pub public_key : SealedRoster → ℕ → Result (List ℕ)
public_key roster index = elim (find (λ p. p.0 == index) roster.participants) [
  | none ↦ err (unknown_participant index)
  | some p ↦ ok p.1
]

-- `for (index, key) in &self.participants { h.update(..); h.update(..); }`
unfoldable pub participant_bytes : List (ℕ × List ℕ) → List ℕ
participant_bytes [] = []
participant_bytes (p ∷ rest) = to_le_bytes 4 p.0 ++ (p.1 ++ participant_bytes rest)

module _ (sha256 : List ℕ → List ℕ) where
  unfoldable pub transcript : SealedRoster → List ℕ
  unfolding participant_bytes
  transcript roster = sha256 (
      transcript_domain
      ++ (to_le_bytes 8 (length roster.participants)
          ++ (participant_bytes roster.participants ++ roster.session_id)))

  unfoldable pub prologue : SealedRoster → ℕ → List ℕ
  unfolding transcript
  prologue roster round =
      prologue_domain ++ (transcript roster ++ (roster.session_id ++ (round ∷ [])))

  unfoldable pub sealed_ciphertext_digest : List ℕ → List ℕ
  sealed_ciphertext_digest ciphertext =
      sha256 (sealed_digest_domain ++ (to_le_bytes 8 (length ciphertext) ++ ciphertext))

pub record SealedSubShare : Type 0 where
  pub dealer_index : ℕ
  pub recipient_index : ℕ
  pub ciphertext : List ℕ

-- How `open_subshare_agreed_with_evidence` ends, and `OpenFailure` as its two failures.
pub data Opening (S : Type 0) : Type 0 where
  aborted : Opening S
  opened : SubShare S → Opening S
  local_failure : Error → Opening S
  bad_sub_share_failure : BadSubShareEvidence → Opening S

-- `?` with `From<Error> for OpenFailure`.
abbrev pub or_local : {A S : Type 0} → Result A → (A → Opening S) → Opening S
or_local panic next = aborted
or_local (err e) next = local_failure e
or_local (ok a) next = next a

-- `.map_err(OpenFailure::into_error)`
unfoldable pub into_result : {S : Type 0} → Opening S → Result (SubShare S)
into_result aborted = panic
into_result (opened share) = ok share
into_result (local_failure e) = err e
into_result (bad_sub_share_failure evidence) = err (invalid_sub_share evidence.dealer_index)
