-- ===== src/Lib.antt =====
-- frostito: distributed key generation, resharing and nested FROST signing over a prime-order group.
--
-- The program has a layer of group operations (src/curve.rs), Lagrange coefficients
-- (src/lagrange.rs), Feldman commitments, resharing and its aggregator (src/reshare.rs), key
-- generation with proofs of knowledge, complaints and an echo round (src/dkg.rs), a signing context
-- and signer (src/context.rs, src/signer.rs), nested signing (src/nested.rs), sealed transport
-- (src/sealed.rs) and a bridge to frost-core (src/zf.rs). A dealer commits to a polynomial and sends
-- its values; a player checks each value against the commitment and combines the values of an agreed
-- dealer set, by a sum in key generation and by Lagrange coefficients in resharing; a round state
-- keeps the commitments and derives the public values.
--
-- Files:
--   Prelude, Error, Indices, Bytes   shared helpers; src/error.rs; index sets; integer encodings
--   Curve             the traits of src/curve.rs as records of operations and laws
--   Polynomial        the Horner loops of src/reshare.rs and src/dkg.rs
--   Lagrange          compute_lagrange_coefficients of src/lagrange.rs
--   Commitment        DealerCommitment and SubShare of src/reshare.rs, with their byte formats
--   Reshare           Dealer, SharePolynomial, Aggregator, ReshareState and the batch check of
--                     src/reshare.rs
--   ProofOfKnowledge  the Schnorr proofs of src/dkg.rs and src/reshare.rs
--   Slots             the commitment table that both round states keep
--   Dkg               Dealer, Aggregator and DkgState of src/dkg.rs
--   Tally             ComplaintTally of src/dkg.rs
--   Echo              the echo round of src/dkg.rs
--   Context           SigningContext of src/context.rs
--   Complaint         complaints of src/dkg.rs: evidence, signature, adjudication
--   Sealed            rosters and sealed packages of src/sealed.rs
--   Zf                identifier_to_index and inner_params_from_zf of src/zf.rs
--   Nested            src/nested.rs: InnerShare, split_evaluation_for_inner, combine_shares and
--                     interleaved_dkg; Nested.Nonces the rounds before signing, Nested.Signing
--                     inner_sign and the verified aggregation, with SecretShare of src/lib.rs and
--                     Holder of src/signer.rs
--   Signer            SignRequest and Spending of src/signer.rs, MemorySpentSessions of
--                     src/nested.rs
--   Examples          a curve of seven points, and concrete inputs
--
-- State. A method on `&mut self` is a function that returns the new state, inside the result where
-- the code leaves the state alone on an error, beside it where an error comes after the change
-- (`disqualify`). Errors are values of `Result`; a panic (an index out of range, `expect`) is its
-- third case. Sampled scalars and the hashes SHA-512 and SHA-256 are arguments; frost-core is the
-- record FrostCore of Zf, and snow with HKDF and X25519 the record Snow of Sealed. The laws of
-- the group, the field and the canonical encodings are fields of the interface records;
-- `capacity` bounds the indices that are distinct scalars, which for every backend are all of
-- `u32`.
--
-- Bounds. A `u32` is a natural number, and a theorem that needs its bound says so; `len() as u32`
-- keeps its remainder modulo 2 ^ 32. All loops are structural recursions, so there is no fuel.
--
-- Not modelled: the backends of src/curve.rs, which forward to external crates, with the 33-byte
-- encodings of secp256k1; zeroizing, `Debug` and `Display`; constant time; the test generator of
-- src/test_rng.rs. `Stack` and `Layer` of src/signer.rs only wrap values.
pub mod Prelude
pub mod Error
pub mod Indices
pub mod Curve
pub mod Bytes
pub mod Commitment
pub mod Polynomial
pub mod Lagrange
pub mod Reshare
pub mod ProofOfKnowledge
pub mod Slots
pub mod Dkg
pub mod Context
pub mod Tally
pub mod Zf
pub mod Echo
pub mod Complaint
pub mod Sealed
pub mod Nested
pub mod Signer
pub mod Examples
