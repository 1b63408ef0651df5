-- ===== src/Echo.antt =====
-- src/dkg.rs, the echo round: `round1_echo_digest`, `DkgState::agreed_round1` and `AgreedRound1`. A
-- digest is a list of bytes, SHA-512 the argument `sha512`.
pub mod Agreement
use frostito.Prelude.{
  ℕ, zero, suc, ◌%◌, ◌^◌, Bool, true, false, not, ◌||◌, List, [], ◌∷◌, ◌++◌, map, length, take,
  find, leb, ltb, ◌==◌, if◌then◌else◌,
}
use frostito.Error.{
  Result, ok, err, ◌>>=◌, ◌>>◌, refuse_if, ok_or, unexpected_dealer, echo_mismatch,
  insufficient_contributions,
}
use frostito.Curve.{Curve}
use frostito.Bytes.{differs, to_le_bytes, bytes_of}
use frostito.Commitment.{DealerCommitment, commitment_to_bytes}
use frostito.Slots.{filled, dealer_indices}
use frostito.Dkg.{DkgAggregator, new_aggregator}
use frostito.Dkg.State.{DkgState, require_complete}

abbrev pub echo_digest_domain : List ℕ
echo_digest_domain = bytes_of "frostito/dkg-round1-echo/v1"

abbrev pub commitment_digest_domain : List ℕ
commitment_digest_domain = bytes_of "frostito/sealed/commitment/v1"

pub record AgreedRound1 (P : Type 0) : Type 0 where
  pub epoch : ℕ
  pub threshold : ℕ
  pub digest : List ℕ
  pub commitments : List (DealerCommitment P)

-- `sort_by_key(|c| c.dealer_index)`, which is stable.
unfoldable pub insert_by_dealer :
    {P : Type 0} → DealerCommitment P → List (DealerCommitment P) → List (DealerCommitment P)
insert_by_dealer k [] = k ∷ []
insert_by_dealer k (l ∷ rest) =
    let others = insert_by_dealer k rest in
    if leb k.dealer_index l.dealer_index then k ∷ l ∷ rest else l ∷ others

unfoldable pub sort_by_dealer : {P : Type 0} → List (DealerCommitment P) → List (DealerCommitment P)
unfolding insert_by_dealer
sort_by_dealer [] = []
sort_by_dealer (k ∷ ks) = insert_by_dealer k (sort_by_dealer ks)

module _ {P : Type 0} where
  -- `AgreedRound1::dealer_set`
  unfoldable pub agreed_dealer_set : AgreedRound1 P → List ℕ
  unfolding dealer_indices
  agreed_dealer_set agreed = dealer_indices agreed.commitments

  -- `AgreedRound1::commitment`
  unfoldable pub agreed_commitment : AgreedRound1 P → ℕ → Result (DealerCommitment P)
  agreed_commitment agreed dealer_index =
      ok_or (find (λ k. k.dealer_index == dealer_index) agreed.commitments)
        (unexpected_dealer dealer_index)

  unfoldable pub confirm : AgreedRound1 P → List ℕ → Result (Unit {0})
  unfolding differs
  confirm agreed peer = if differs agreed.digest peer then err echo_mismatch else ok tt

  -- `for p in peers { self.confirm(p)?; }`
  unfoldable pub confirm_each : AgreedRound1 P → List (List ℕ) → Result (Unit {0})
  unfolding confirm
  confirm_each agreed [] = ok tt
  confirm_each agreed (p ∷ peers) = confirm agreed p >> confirm_each agreed peers

  unfoldable pub confirm_all : AgreedRound1 P → List (List ℕ) → ℕ → Result (Unit {0})
  unfolding confirm_each
  confirm_all agreed peers expected = do
    refuse_if (ltb (length peers) expected) (insufficient_contributions (length peers) expected)
    confirm_each agreed peers

  -- `dkg::Aggregator::from_agreed`
  unfoldable pub from_agreed : {S : Type 0} → ℕ → AgreedRound1 P → Result (DkgAggregator S P)
  unfolding agreed_dealer_set
  from_agreed player_index agreed = new_aggregator player_index (agreed_dealer_set agreed)

module _ (c : Curve) where
  open c use {Point}

  -- The loop of `round1_echo_digest`.
  unfoldable pub echo_entries : List (DealerCommitment Point) → List ℕ
  echo_entries [] = []
  echo_entries (k ∷ ks) =
      to_le_bytes 4 k.dealer_index
      ++ (to_le_bytes 8 (length (commitment_to_bytes c k))
          ++ (commitment_to_bytes c k ++ echo_entries ks))

  -- The bytes that `round1_echo_digest` hashes.
  unfoldable pub echo_input : ℕ → ℕ → ℕ → List (DealerCommitment Point) → List ℕ
  unfolding echo_entries
  echo_input epoch threshold num_participants sorted =
      echo_digest_domain
      ++ (to_le_bytes 8 epoch
          ++ (to_le_bytes 4 threshold
              ++ (to_le_bytes 4 num_participants
                  ++ (to_le_bytes 4 (length sorted % 2 ^ 32) ++ echo_entries sorted))))

  unfoldable pub round1_echo_digest :
      (List ℕ → List ℕ) → ℕ → ℕ → ℕ → List (DealerCommitment Point) → List ℕ
  unfolding echo_input sort_by_dealer
  round1_echo_digest sha512 epoch threshold num_participants commitments =
      take 32 (sha512 (echo_input epoch threshold num_participants (sort_by_dealer commitments)))

  unfoldable pub commitment_digest : (List ℕ → List ℕ) → DealerCommitment Point → List ℕ
  commitment_digest sha512 commitment =
      take 32 (sha512 (commitment_digest_domain ++ commitment_to_bytes c commitment))

  -- `DkgState::agreed_round1`
  unfoldable pub agreed_round1 : (List ℕ → List ℕ) → DkgState Point → Result (AgreedRound1 Point)
  unfolding sort_by_dealer round1_echo_digest filled
  agreed_round1 sha512 st = do
    require_complete st
    let commitments = sort_by_dealer (filled st.commitments)
    ok (record {
      epoch = st.epoch;
      threshold = st.threshold;
      digest = round1_echo_digest sha512 st.epoch st.threshold st.num_participants commitments;
      commitments = commitments;
    })
