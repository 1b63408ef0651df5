-- ===== src/Context/Encoding.antt =====
-- src/context.rs: two context encodings compared.
use frostito.Prelude.{
  ℕ, ◌<◌, ◌^◌, ◌≡◌, refl, sym, ◌∙◌, List, ◌++◌, length, append_split, append_assoc,
}
use frostito.Bytes.{to_le_bytes}
use frostito.Bytes.Laws.{le_bytes_split}
use frostito.Context.{SigningContext, signing_context_domain, encode, encode_into}

-- The fields have the sizes of the source's types.
pub record IsSized (context : SigningContext) : Type 0 where
  pub epoch_fits : context.epoch < 2 ^ 64
  pub manifest_size : length context.manifest_hash ≡ 32
  pub message_fits : length context.message < 2 ^ 64

same_context :
    (a b : SigningContext)
    → a.epoch ≡ b.epoch
    → a.manifest_hash ≡ b.manifest_hash
    → a.message ≡ b.message
    → a ≡ b
same_context a b e m s = λ i. record { epoch = e i; manifest_hash = m i; message = s i }

unfolded :
    (context : SigningContext) (xs : List ℕ)
    → encode context ++ xs
      ≡ to_le_bytes 8 (length signing_context_domain)
        ++ (signing_context_domain
            ++ (to_le_bytes 8 context.epoch
                ++ (context.manifest_hash
                    ++ (to_le_bytes 8 (length context.message) ++ (context.message ++ xs)))))
unfolding encode encode_into
unfolded context xs = simp append_assoc

-- If two buffers begin with encodings of contexts whose fields have the sizes of their types, the
-- contexts are equal, and so is what follows them: no encoding is a proper prefix of another.
pub encode_prefix_free :
    (a b : SigningContext) (xs ys : List ℕ)
    → IsSized a
    → IsSized b
    → encode a ++ xs ≡ encode b ++ ys
    → (a ≡ b) × (xs ≡ ys)
encode_prefix_free a b xs ys sa sb e =
    let (_, past_length) =
      append_split (to_le_bytes 8 (length signing_context_domain)) _ _ _ refl
        (sym (unfolded a xs) ∙ e ∙ unfolded b ys) in
    let (_, past_domain) =
      append_split signing_context_domain signing_context_domain _ _ refl past_length in
    let (epochs, past_epoch) =
      le_bytes_split 8 a.epoch b.epoch _ _ sa.epoch_fits sb.epoch_fits past_domain in
    let (manifests, past_manifest) =
      append_split a.manifest_hash b.manifest_hash _ _ (sa.manifest_size ∙ sym sb.manifest_size)
        past_epoch in
    let (sizes, past_size) =
      le_bytes_split 8 (length a.message) (length b.message) _ _ sa.message_fits sb.message_fits
        past_manifest in
    let (messages, rest) = append_split a.message b.message xs ys sizes past_size in
    (same_context a b epochs manifests messages, rest)
