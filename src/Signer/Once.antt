-- ===== src/Signer/Once.antt =====
-- src/signer.rs: repeated requests for one session and holder.
use frostito.Prelude.{
  ◌≡◌, refl, ap, ◌∙◌, Bool, true, List, [], ◌∷◌, ==_refl, arith, Bool-cases, inl, inr,
}
use frostito.Error.{Result, err, session_spent}
use frostito.Bytes.Laws.{same_bytes_refl}
use frostito.Signer.{SignRequest, MemorySpentSessions, is_spent, spend, Spending, sign_after, sign}

module _ {S N R Z : Type 0} (inner_sign : S → SignRequest N R → S × Result Z) where
  -- The pair of a request is spent in a signer's store.
  abbrev pub spent_in : Spending S → SignRequest N R → Bool
  spent_in signer request =
      is_spent signer.store request.nonces.session_id request.nonces.holder_index

  -- The signer after a sequence of requests, whatever each returns.
  unfoldable pub sign_all : Spending S → List (SignRequest N R) → Spending S
  sign_all signer [] = signer
  sign_all signer (request ∷ rest) = sign_all (sign inner_sign signer request).0 rest

  sign-refuses :
      (signer : Spending S) (request : SignRequest N R)
      → spent_in signer request ≡ true
      → sign inner_sign signer request ≡ (signer, err session_spent)
  unfolding sign sign_after spend is_spent
  sign-refuses signer request h = rw h refl

  sign-spends :
      (signer : Spending S) (request : SignRequest N R)
      → spent_in (sign inner_sign signer request).0 request ≡ true
  unfolding sign sign_after spend is_spent
  sign-spends signer request = elim (Bool-cases (spent_in signer request)) [
    | inl old ↦ rw old old
    | inr new ↦ rw new (
        ground
          (arith, same_bytes_refl request.nonces.session_id, ==_refl request.nonces.holder_index))
  ]

  sign-keeps :
      (signer : Spending S) (request other : SignRequest N R)
      → spent_in signer other ≡ true
      → spent_in (sign inner_sign signer request).0 other ≡ true
  unfolding sign sign_after spend is_spent
  sign-keeps signer request other h = elim (Bool-cases (spent_in signer request)) [
    | inl old ↦ rw old h
    | inr new ↦ rw new (ground arith)
  ]

  sign_all-keeps :
      (signer : Spending S) (requests : List (SignRequest N R)) (other : SignRequest N R)
      → spent_in signer other ≡ true
      → spent_in (sign_all signer requests) other ≡ true
  unfolding sign_all
  sign_all-keeps signer [] other h = h
  sign_all-keeps signer (request ∷ rest) other h =
      sign_all-keeps (sign inner_sign signer request).0 rest other
        (sign-keeps signer request other h)

  -- After a request, whatever it returned, and any further requests, a request with the same session
  -- and holder is refused with `SessionSpent`, and changes neither the store nor the wrapped signer.
  pub sign_once :
      (signer : Spending S) (first again : SignRequest N R) (between : List (SignRequest N R))
      → again.nonces.session_id ≡ first.nonces.session_id
      → again.nonces.holder_index ≡ first.nonces.holder_index
      → sign inner_sign (sign_all (sign inner_sign signer first).0 between) again
        ≡ (sign_all (sign inner_sign signer first).0 between, err session_spent)
  sign_once signer first again between s h = sign-refuses _ again (
      ap (λ i. is_spent store i again.nonces.holder_index) s
      ∙ ap (is_spent store first.nonces.session_id) h
      ∙ sign_all-keeps (sign inner_sign signer first).0 between first (sign-spends signer first))
    where
      store : MemorySpentSessions
      store = (sign_all (sign inner_sign signer first).0 between).store
