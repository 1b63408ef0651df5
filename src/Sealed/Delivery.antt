-- ===== src/Sealed/Delivery.antt =====
-- src/sealed.rs: what a delivered package gives its recipient, and everyone else.
use frostito.Prelude.{
  ℕ, ◌≡◌, refl, sym, ap, subst, ◌∙◌, Bool, true, false, not, ◌||◌, List, [], ◌∷◌, length, take,
  drop, some, ◌==◌, ==_iff, ==_refl, arith, Bool-cases, Option-cases, inl, inr, find,
}
use frostito.Error.{
  Result, ok, err, panic, ◌>>=◌, ok_injective, refuse_if-eq-ok, ok_or-eq-ok, >>=-eq-ok,
}
use frostito.Curve.{Curve}
use frostito.Bytes.{same_bytes, from_le_bytes}
use frostito.Commitment.{DealerCommitment, SubShare, decode_plaintext, verify_subshare}
use frostito.Echo.{AgreedRound1, agreed_commitment, commitment_digest}
use frostito.Sealed.{
  Snow, noise_open, SealedRoster, public_key, prologue, SealedSubShare, or_local, into_result,
}
use frostito.Sealed.Packages.{
  decrypt, check_opened, check_agreed, open_subshare, open_subshare_agreed_with_evidence,
  open_subshare_agreed,
}

find-holds : {A : Type 0} (p : A → Bool) (xs : List A) {x : A} → find p xs ≡ some x → p x ≡ true
find-holds p [] e = cc
find-holds p (y ∷ xs) {x} e = elim (Bool-cases (p y)) [
  | inl t ↦ let found : some y ≡ some x = rw t at e in let same : y ≡ x = cc in ap p (sym same) ∙ t
  | inr f ↦ find-holds p xs (rw f at e)
]

-- The lookup gives a commitment of the dealer that was asked for.
agreed_commitment-dealer :
    {P : Type 0} (agreed : AgreedRound1 P) (d : ℕ) {commitment : DealerCommitment P}
    → agreed_commitment agreed d ≡ ok commitment
    → (commitment.dealer_index == d) ≡ true
unfolding agreed_commitment
agreed_commitment-dealer agreed d {commitment} h =
    elim (Option-cases (find (λ k. k.dealer_index == d) agreed.commitments)) [
      | inl e ↦ cc (rw (agreed_commitment, e) at h)
      | inr (k, e) ↦
          let same : k ≡ commitment = ok_injective (rw (agreed_commitment, e) at h) in
          subst (λ l. (l.dealer_index == d) ≡ true) same
            (find-holds (λ k. k.dealer_index == d) agreed.commitments e)
    ]

both_false : (a b : Bool) → (a || b) ≡ false → (a ≡ false) × (b ≡ false)
both_false true b h = cc
both_false false b h = (refl, h)

same_of_test : (a b : ℕ) → not (a == b) ≡ false → a ≡ b
same_of_test a b h = ground arith

same_of_tests : (a b d e : ℕ) → (not (a == b) || not (d == e)) ≡ false → (a ≡ b) × (d ≡ e)
same_of_tests a b d e h =
    let (p, q) = both_false (not (a == b)) (not (d == e)) h in
    (same_of_test a b p, same_of_test d e q)

module _ (c : Curve) (sha512 sha256 : List ℕ → List ℕ) (snow : Snow) where
  open c use {Scalar, Point, scalars, to_bytes, from_canonical_bytes}

  decode_plaintext-positive :
      (bytes : List ℕ) {share : SubShare Scalar}
      → decode_plaintext scalars bytes ≡ ok share
      → ((share.dealer_index == 0) ≡ false) × ((share.player_index == 0) ≡ false)
  unfolding decode_plaintext
  decode_plaintext-positive bytes {share} h =
      let d = from_le_bytes (take 4 bytes) in
      let p = from_le_bytes (take 4 (drop 4 bytes)) in
      let (positive, h1) = refuse_if-eq-ok (d == 0 || p == 0) _ h in
      let (v, canonical, h2) = ok_or-eq-ok (from_canonical_bytes (drop 8 bytes)) _ h1 in
      let (some_dealer, some_player) = both_false (d == 0) (p == 0) positive in
      (
        ap (λ z. z.dealer_index == 0) (sym (ok_injective h2)) ∙ some_dealer,
        ap (λ z. z.player_index == 0) (sym (ok_injective h2)) ∙ some_player,
      )

  -- What decryption has checked of the indices.
  pub decrypt-bound :
      (secret : List ℕ) (recipient : ℕ) (roster : SealedRoster) (round : ℕ)
      (sealed : SealedSubShare) {inside : SubShare Scalar × List ℕ}
      → decrypt c sha512 sha256 snow secret recipient roster round sealed ≡ ok inside
      → (inside.0.dealer_index ≡ sealed.dealer_index)
        × (inside.0.player_index ≡ recipient)
        × (sealed.recipient_index ≡ recipient)
        × ((inside.0.dealer_index == 0) ≡ false)
        × ((inside.0.player_index == 0) ≡ false)
  unfolding decrypt decode_plaintext
  decrypt-bound secret recipient roster round sealed {inside} h =
      let (dealer, k, h1) = >>=-eq-ok (public_key roster sealed.dealer_index) _ h in
      let (addressed, h2) = refuse_if-eq-ok (not (sealed.recipient_index == recipient)) _ h1 in
      let (plaintext, o, h3) =
        ok_or-eq-ok (noise_open snow secret dealer (prologue sha256 roster round) sealed.ciphertext)
          _ h2 in
      let (sized, h4) = refuse_if-eq-ok (not (length plaintext == 72)) _ h3 in
      let (subshare, decoded, h5) = >>=-eq-ok (decode_plaintext scalars (take 40 plaintext)) _ h4 in
      let (bound, h6) =
        refuse_if-eq-ok
          (not (subshare.dealer_index == sealed.dealer_index)
            || not (subshare.player_index == sealed.recipient_index))
          _ h5 in
      let same : inside.0 ≡ subshare = ap (λ p. p.0) (sym (ok_injective h6)) in
      let (dealers, players) =
        same_of_tests subshare.dealer_index sealed.dealer_index subshare.player_index
          sealed.recipient_index bound in
      let addressee = same_of_test sealed.recipient_index recipient addressed in
      let (some_dealer, some_player) = decode_plaintext-positive (take 40 plaintext) decoded in
      (
        ap (λ z. z.dealer_index) same ∙ dealers,
        ap (λ z. z.player_index) same ∙ players ∙ addressee,
        addressee,
        ap (λ z. z.dealer_index == 0) same ∙ some_dealer,
        ap (λ z. z.player_index == 0) same ∙ some_player,
      )

  -- The two ends agree on a sub-share of the commitment's dealer.
  check_agreed-check_opened :
      (recipient : ℕ) (roster : SealedRoster) (round : ℕ) (sealed : SealedSubShare)
      (commitment : DealerCommitment Point) (inside : SubShare Scalar × List ℕ)
      → (inside.0.dealer_index == commitment.dealer_index) ≡ true
      → into_result
          (check_agreed c sha512 sha256 snow recipient roster round sealed commitment inside)
        ≡ check_opened c sha512 sha256 snow recipient sealed commitment inside
  unfolding check_agreed check_opened into_result
  check_agreed-check_opened recipient roster round sealed commitment inside d =
      elim (Bool-cases (verify_subshare c commitment recipient inside.0.value)) [
        | inl good ↦
            elim (Bool-cases (same_bytes inside.1 (commitment_digest c sha512 commitment))) [
              | inl same ↦ rw (check_agreed, check_opened, d, good, same) refl
              | inr differ ↦ rw (check_agreed, check_opened, d, good, differ) refl
            ]
        | inr bad ↦
            elim (Bool-cases (same_bytes inside.1 (commitment_digest c sha512 commitment))) [
              | inl same ↦ rw (check_agreed, check_opened, d, bad, same) refl
              | inr differ ↦ rw (check_agreed, check_opened, d, bad, differ) refl
            ]
      ]

  -- Opening against the agreed set is opening with the commitment that the set has for the package's
  -- dealer: the same sub-share, or the same error.
  pub open_subshare_agreed-open_subshare :
      (secret : List ℕ) (recipient : ℕ) (roster : SealedRoster) (round : ℕ)
      (sealed : SealedSubShare) (agreed : AgreedRound1 Point)
      → open_subshare_agreed c sha512 sha256 snow secret recipient roster round sealed agreed ≡ (
          agreed_commitment agreed sealed.dealer_index >>= λ commitment.
          open_subshare c sha512 sha256 snow secret recipient roster round sealed commitment)
  unfolding open_subshare_agreed open_subshare_agreed_with_evidence open_subshare into_result
  open_subshare_agreed-open_subshare secret recipient roster round sealed agreed =
      go (agreed_commitment agreed sealed.dealer_index) refl
        (decrypt c sha512 sha256 snow secret recipient roster round sealed) refl
    where
      go :
          (r : Result (DealerCommitment Point))
          → agreed_commitment agreed sealed.dealer_index ≡ r
          → (p : Result (SubShare Scalar × List ℕ))
          → decrypt c sha512 sha256 snow secret recipient roster round sealed ≡ p
          → into_result (
              or_local r (λ commitment.
                or_local p
                  (check_agreed c sha512 sha256 snow recipient roster round sealed commitment)))
            ≡ (r >>= λ commitment. p >>= λ inside.
                check_opened c sha512 sha256 snow recipient sealed commitment inside)
      go panic e p f = refl
      go (err x) e p f = refl
      go (ok commitment) e panic f = refl
      go (ok commitment) e (err x) f = refl
      go (ok commitment) e (ok inside) f =
          let bound = decrypt-bound secret recipient roster round sealed f in
          let same = agreed_commitment-dealer agreed sealed.dealer_index e in
          check_agreed-check_opened recipient roster round sealed commitment inside (
            ap (λ d. d == commitment.dealer_index) (bound.0 ∙ sym ((==_iff _ _).0 same))
            ∙ ==_refl commitment.dealer_index)
