-- ===== src/Signer.antt =====
-- src/signer.rs, and `SpentSessions` with `MemorySpentSessions` of src/nested.rs: a layer that spends
-- a request's session before the signer that it wraps runs. A signer is a state with a `sign`
-- function; the base signer's `inner_sign` and the nested request stay arguments.
pub mod Once
use frostito.Prelude.{ℕ, Bool, true, false, ◌||◌, ◌&&◌, List, [], ◌∷◌, length, ◌==◌, if◌then◌else◌}
use frostito.Error.{Result, ok, err, panic, session_spent}
use frostito.Bytes.{same_bytes}
use frostito.Context.{SigningContext, encode}

-- `InnerNonces`, as far as signing layers read it: the rest is `N`.
pub record Nonces (N : Type 0) : Type 0 where
  pub session_id : List ℕ
  pub holder_index : ℕ
  pub secrets : N

-- `SignRequest`; `R` is the nested request.
pub record SignRequest (N R : Type 0) : Type 0 where
  pub nonces : Nonces N
  pub nested : R
  pub message : List ℕ

module _ {N R : Type 0} where
  -- `SignRequest::raw`
  unfoldable pub raw : Nonces N → List ℕ → R → SignRequest N R
  raw nonces approved_message nested = record {
    nonces = nonces;
    nested = nested;
    message = approved_message;
  }

  -- `SignRequest::bound`
  unfoldable pub bound : Nonces N → SigningContext → R → SignRequest N R
  bound nonces context nested = record {
    nonces = nonces;
    nested = nested;
    message = encode context;
  }

-- `MemorySpentSessions`: the set's pairs; nothing observes their order.
pub record MemorySpentSessions : Type 0 where
  pub spent : List (List ℕ × ℕ)

abbrev pub has_pair : List (List ℕ × ℕ) → List ℕ → ℕ → Bool
has_pair [] session_id holder_index = false
has_pair ((s, h) ∷ rest) session_id holder_index =
    (same_bytes s session_id && h == holder_index) || has_pair rest session_id holder_index

unfoldable pub is_spent : MemorySpentSessions → List ℕ → ℕ → Bool
is_spent store session_id holder_index = has_pair store.spent session_id holder_index

-- The store after the call, and the call's result.
unfoldable pub spend : MemorySpentSessions → List ℕ → ℕ → MemorySpentSessions × Result (Unit {0})
spend store session_id holder_index =
    if has_pair store.spent session_id holder_index
    then (store, err session_spent)
    else (record { spent = (session_id, holder_index) ∷ store.spent }, ok tt)

-- `Spending`, a store around a signer's state.
pub record Spending (S : Type 0) : Type 0 where
  pub store : MemorySpentSessions
  pub inner : S

module _ {S N R Z : Type 0} (inner_sign : S → SignRequest N R → S × Result Z) where
  -- What `Spending::sign` does after `spend` has returned.
  unfoldable pub sign_after :
      MemorySpentSessions × Result (Unit {0}) → S → SignRequest N R → Spending S × Result Z
  sign_after (store, ok done) inner request =
      let (next, result) = inner_sign inner request in
      (record { store = store; inner = next }, result)
  sign_after (store, err e) inner request = (record { store = store; inner = inner }, err e)
  sign_after (store, panic) inner request = (record { store = store; inner = inner }, panic)

  -- `Spending::sign`
  unfoldable pub sign : Spending S → SignRequest N R → Spending S × Result Z
  unfolding spend sign_after
  sign signer request =
      sign_after (spend signer.store request.nonces.session_id request.nonces.holder_index)
        signer.inner request
