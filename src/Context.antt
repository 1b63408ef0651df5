-- ===== src/Context.antt =====
-- src/context.rs: the canonical encoding of what the group signs. `manifest_hash` is a list of 32
-- bytes; SHA-256 is the argument `sha256`.
pub mod Encoding
use frostito.Prelude.{ℕ, List, [], ◌++◌, length}
use frostito.Bytes.{to_le_bytes, bytes_of}

abbrev pub signing_context_domain : List ℕ
signing_context_domain = bytes_of "frostito/signing-context/v1"

pub record SigningContext : Type 0 where
  pub epoch : ℕ
  pub manifest_hash : List ℕ
  pub message : List ℕ

-- `SigningContext::encode_into`, appending to `out`.
unfoldable pub encode_into : SigningContext → List ℕ → List ℕ
encode_into context out =
    out
    ++ (to_le_bytes 8 (length signing_context_domain)
        ++ (signing_context_domain
            ++ (to_le_bytes 8 context.epoch
                ++ (context.manifest_hash
                    ++ (to_le_bytes 8 (length context.message) ++ context.message)))))

-- `SigningContext::encode`
unfoldable pub encode : SigningContext → List ℕ
unfolding encode_into
encode context = encode_into context []

-- `SigningContext::digest`
unfoldable pub digest : (List ℕ → List ℕ) → SigningContext → List ℕ
digest sha256 context = sha256 (encode context)
