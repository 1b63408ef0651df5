-- ===== src/Echo/Agreement.antt =====
-- src/dkg.rs, the echo round: confirmed echoes, and the bytes that the digest hashes.
use frostito.Prelude.{
  ℕ, zero, suc, ◌*◌, ◌<◌, ◌≤◌, ◌^◌, ◌%◌, ◌≡◌, refl, sym, ap, ap₂, ◌∙◌, false, List, [], ◌∷◌, All,
  length, append_split, ltb, ◌==◌, arith, Bool-cases, inl, inr,
}
use frostito.Error.{ok, ok_injective}
use frostito.Curve.{Curve}
use frostito.Bytes.{differs}
use frostito.Bytes.Laws.{le_bytes_split, eq_of_differs}
use frostito.Commitment.{DealerCommitment, commitment_to_bytes, commitment_from_bytes, byte_size}
use frostito.Commitment.Encoding.{commitment_from_bytes-to_bytes, length-commitment_to_bytes}
use frostito.Echo.{
  AgreedRound1, confirm, confirm_each, confirm_all, echo_digest_domain, echo_entries, echo_input,
}

confirm_each-ok :
    {P : Type 0} (agreed : AgreedRound1 P) (peers : List (List ℕ))
    → All (λ p. length agreed.digest ≡ length p) peers
    → confirm_each agreed peers ≡ ok tt
    → All (λ p. p ≡ agreed.digest) peers
unfolding confirm_each confirm
confirm_each-ok agreed [] l h = tt
confirm_each-ok agreed (p ∷ peers) (l, ls) h = elim (Bool-cases (differs agreed.digest p)) [
  | inl d ↦ cc (rw d at h)
  | inr s ↦ (sym (eq_of_differs agreed.digest p l s), confirm_each-ok agreed peers ls (rw s at h))
]

-- If `confirm_all` accepts echoes of the digest's size, at least the expected number of peers echoed,
-- and all of them echoed this participant's digest.
pub confirm_all_sound :
    {P : Type 0} (agreed : AgreedRound1 P) (peers : List (List ℕ)) (expected : ℕ)
    → All (λ p. length agreed.digest ≡ length p) peers
    → confirm_all agreed peers expected ≡ ok tt
    → (expected ≤ length peers) × All (λ p. p ≡ agreed.digest) peers
unfolding confirm_all
confirm_all_sound agreed peers expected l h = elim (Bool-cases (ltb (length peers) expected)) [
  | inl few ↦ cc (rw few at h)
  | inr enough ↦ (ground arith, confirm_each-ok agreed peers l (rw enough at h))
]

module _ (c : Curve) where
  open c use {Point, compressed_size}

  -- A commitment whose index and encoding fit the widths of their fields.
  pub record IsSized (k : DealerCommitment Point) : Type 0 where
    pub index_fits : k.dealer_index < 2 ^ 32
    pub index_positive : (k.dealer_index == 0) ≡ false
    pub size_fits : length (commitment_to_bytes c k) < 2 ^ 64

  points_agree :
      (k l : DealerCommitment Point)
      → 0 < compressed_size
      → length (commitment_to_bytes c k) ≡ length (commitment_to_bytes c l)
      → length k.coefficients ≡ length l.coefficients
  unfolding byte_size
  points_agree k l p e =
      cancel (length k.coefficients) (length l.coefficients) compressed_size p
        (omega (arith, sym (length-commitment_to_bytes c k) ∙ e ∙ length-commitment_to_bytes c l))
    where
      cancel : (m n w : ℕ) → 0 < w → m * w ≡ n * w → m ≡ n
      cancel zero zero w h q = refl
      cancel zero (suc n) w h q = absurd (omega arith)
      cancel (suc m) zero w h q = absurd (omega arith)
      cancel (suc m) (suc n) w h q = ap suc (cancel m n w h (omega arith))

  same_bytes-eq :
      (k l : DealerCommitment Point)
      → 0 < compressed_size
      → IsSized k
      → IsSized l
      → commitment_to_bytes c k ≡ commitment_to_bytes c l
      → k ≡ l
  same_bytes-eq k l p sk sl e = ok_injective (
      sym (commitment_from_bytes-to_bytes c k sk.index_fits sk.index_positive)
      ∙ ap₂ (commitment_from_bytes c) e (points_agree k l p (ap length e))
      ∙ commitment_from_bytes-to_bytes c l sl.index_fits sl.index_positive)

  echo_entries_injective :
      (ks ls : List (DealerCommitment Point))
      → 0 < compressed_size
      → All IsSized ks
      → All IsSized ls
      → length ks ≡ length ls
      → echo_entries c ks ≡ echo_entries c ls
      → ks ≡ ls
  unfolding echo_entries
  echo_entries_injective [] [] p sk sl n e = refl
  echo_entries_injective [] (l ∷ ls) p sk sl n e = absurd (omega arith)
  echo_entries_injective (k ∷ ks) [] p sk sl n e = absurd (omega arith)
  echo_entries_injective (k ∷ ks) (l ∷ ls) p (sk, sks) (sl, sls) n e =
      let (_, past_index) =
        le_bytes_split 4 k.dealer_index l.dealer_index _ _ sk.index_fits sl.index_fits e in
      let (sizes, past_size) =
        le_bytes_split 8 (length (commitment_to_bytes c k)) (length (commitment_to_bytes c l)) _ _
          sk.size_fits sl.size_fits past_index in
      let (same, rest) =
        append_split (commitment_to_bytes c k) (commitment_to_bytes c l) _ _ sizes past_size in
      ap₂ (λ x xs. x ∷ xs) (same_bytes-eq k l p sk sl same)
        (echo_entries_injective ks ls p sks sls (omega arith) rest)

  -- The bytes that the echo digest hashes determine the epoch, the threshold, the number of
  -- participants and the list of commitments, where each fits the width of its field, commitments
  -- have positive dealer indices, there are fewer than 2 ^ 32 of them, and points are not encoded by
  -- nothing.
  pub echo_input_injective :
      (epoch epoch' t t' n n' : ℕ) (ks ls : List (DealerCommitment Point))
      → 0 < compressed_size
      → epoch < 2 ^ 64
      → epoch' < 2 ^ 64
      → t < 2 ^ 32
      → t' < 2 ^ 32
      → n < 2 ^ 32
      → n' < 2 ^ 32
      → length ks < 2 ^ 32
      → length ls < 2 ^ 32
      → All IsSized ks
      → All IsSized ls
      → echo_input c epoch t n ks ≡ echo_input c epoch' t' n' ls
      → (epoch ≡ epoch') × (t ≡ t') × (n ≡ n') × (ks ≡ ls)
  unfolding echo_input
  echo_input_injective epoch epoch' t t' n n' ks ls p he he' ht ht' hn hn' hk hl sk sl e =
      let (_, past_domain) = append_split echo_digest_domain echo_digest_domain _ _ refl e in
      let (epochs, past_epoch) = le_bytes_split 8 epoch epoch' _ _ he he' past_domain in
      let (thresholds, past_threshold) = le_bytes_split 4 t t' _ _ ht ht' past_epoch in
      let (participants, past_participants) = le_bytes_split 4 n n' _ _ hn hn' past_threshold in
      let (counts, entries) =
        le_bytes_split 4 (length ks % 2 ^ 32) (length ls % 2 ^ 32) _ _ (omega arith) (omega arith)
          past_participants in
      (epochs, thresholds, participants, echo_entries_injective ks ls p sk sl (omega arith) entries)
