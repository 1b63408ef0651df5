-- ===== src/Error.antt =====
-- src/error.rs: the crate's error values, and the result of a fallible function. A Rust panic
-- (an index out of range, an `expect` on `None`) is a third outcome, so that its absence can be
-- stated.
use frostito.Prelude.{ℕ, ◌≡◌, refl, ap, Bool, true, false, Option, none, some}

pub data Error : Type 0 where
  empty_contributions : Error
  insufficient_contributions : (got need : ℕ) → Error
  duplicate_index : ℕ → Error
  duplicate_commitment : ℕ → ℕ → Error
  zero_challenge invalid_commitment invalid_response lagrange_error invalid_index : Error
  unexpected_dealer : ℕ → Error
  threshold_mismatch : (expected got : ℕ) → Error
  message_mismatch unexpected_commitment challenge_mismatch session_mismatch : Error
  invalid_proof_of_knowledge invalid_sub_share : ℕ → Error
  dkg_aborted : (qualified need : ℕ) → Error
  sealed_open_failed unknown_participant unknown_quorum_member : ℕ → Error
  echo_mismatch : Error
  precommit_mismatch : ℕ → Error
  session_spent invalid_complaint : Error

-- How a call ends.
pub data Result {ℓ} (A : Type ℓ) : Type ℓ where
  panic : Result A
  err : (error : Error) → Result A
  ok : (value : A) → Result A

module _ {ℓ κ} {A : Type ℓ} {B : Type κ} where
  -- The `?` operator: what `next` does with a value.
  infixl 5 ◌>>=◌
  abbrev pub ◌>>=◌ : (call : Result A) (next : A → Result B) → Result B
  panic >>= next = panic
  err error >>= next = err error
  ok value >>= next = next value

  -- Inversion of a chain that returned a value.
  pub >>=-eq-ok :
      (call : Result A) (next : A → Result B) {b : B}
      → (call >>= next) ≡ ok b
      → (a : A) × (call ≡ ok a) × (next a ≡ ok b)
  >>=-eq-ok panic next returned = cc
  >>=-eq-ok (err error) next returned = cc
  >>=-eq-ok (ok value) next returned = (value, refl, returned)

-- `check()?;` before the rest.
infixl 5 ◌>>◌
abbrev pub ◌>>◌ {ℓ} : {A : Type ℓ} → Result (Unit {0}) → Result A → Result A
check >> rest = check >>= λ done. rest

-- `if b { return Err(e) }`
abbrev pub refuse_if : Bool → Error → Result (Unit {0})
refuse_if true e = err e
refuse_if false e = ok tt

-- `ok_or(e)`
abbrev pub ok_or {ℓ} : {A : Type ℓ} → Option A → Error → Result A
ok_or none e = err e
ok_or (some a) e = ok a

-- `expect(..)` and an index expression.
abbrev pub expect {ℓ} : {A : Type ℓ} → Option A → Result A
expect none = panic
expect (some a) = ok a

-- `expect(..)` on a result.
abbrev pub unwrap {ℓ} : {A : Type ℓ} → Result A → Result A
unwrap (ok a) = ok a
unwrap (err e) = panic
unwrap panic = panic

pub ok_injective {ℓ} : {A : Type ℓ} {a b : A} → ok a ≡ ok b → a ≡ b
ok_injective {A} {a} {b} e = ap (returned a) e
  where
    returned : A → Result A → A
    returned d (ok x) = x
    returned d _ = d

-- Inversions of the steps of a chain that returned a value.
module _ {ℓ} {A : Type ℓ} where
  pub refuse_if-eq-ok :
      (b : Bool) (e : Error) {rest : Result A} {a : A}
      → (refuse_if b e >> rest) ≡ ok a
      → (b ≡ false) × (rest ≡ ok a)
  refuse_if-eq-ok true e h = cc
  refuse_if-eq-ok false e h = (refl, h)

  pub >>-eq-ok :
      (check : Result (Unit {0})) {rest : Result A} {a : A}
      → (check >> rest) ≡ ok a
      → (check ≡ ok tt) × (rest ≡ ok a)
  >>-eq-ok panic h = cc
  >>-eq-ok (err e) h = cc
  >>-eq-ok (ok tt) h = (refl, h)

module _ {ℓ κ} {A : Type ℓ} {B : Type κ} where
  pub ok_or-eq-ok :
      (o : Option A) (e : Error) {next : A → Result B} {b : B}
      → (ok_or o e >>= next) ≡ ok b
      → (a : A) × (o ≡ some a) × (next a ≡ ok b)
  ok_or-eq-ok none e h = cc
  ok_or-eq-ok (some a) e h = (a, refl, h)

  pub expect-eq-ok :
      (o : Option A) {next : A → Result B} {b : B}
      → (expect o >>= next) ≡ ok b
      → (a : A) × (o ≡ some a) × (next a ≡ ok b)
  expect-eq-ok none h = cc
  expect-eq-ok (some a) h = (a, refl, h)
