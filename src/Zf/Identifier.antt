-- ===== src/Zf/Identifier.antt =====
-- src/zf.rs: the share index read from an identifier's bytes.
use frostito.Prelude.{
  ℕ, zero, suc, ◌+◌, ◌-◌, ◌^◌, ◌<◌, ◌≡◌, refl, sym, ap, ◌∙◌, true, false, List, [], ◌∷◌, ◌++◌, all,
  length, take, drop, replicate, arith, Bool-cases, inl, inr, ltb, ◌==◌, length-append,
  length-replicate, take_append, drop_append,
}
use frostito.Error.{ok}
use frostito.Bytes.{to_le_bytes, to_be_bytes, be_loop}
use frostito.Bytes.Laws.{
  length-to_le_bytes, from_le_bytes-to_le_bytes, from_be_bytes-to_be_bytes, length-to_be_bytes,
}
use frostito.Zf.{index_of_bytes}

all_zero-replicate : (n : ℕ) → all (λ x. x == 0) (replicate n 0) ≡ true
all_zero-replicate zero = refl
all_zero-replicate (suc n) = all_zero-replicate n

be_loop-all_zero : (bs : List ℕ) → all (λ x. x == 0) bs ≡ true → be_loop 0 bs ≡ 0
unfolding be_loop
be_loop-all_zero [] h = refl
be_loop-all_zero (b ∷ bs) h =
    let z : b ≡ 0 = ground arith in
    ap (λ k. be_loop k bs) (omega arith) ∙ be_loop-all_zero bs (ground arith)

all_zero-prefix :
    (n : ℕ) (bs : List ℕ) → all (λ x. x == 0) (replicate n 0 ++ bs) ≡ all (λ x. x == 0) bs
all_zero-prefix zero bs = refl
all_zero-prefix (suc n) bs = all_zero-prefix n bs

-- A positive `u32` is read back from its four bytes followed by zeros, least first, and from its four
-- bytes after at least four zeros, most significant first.
pub index_of_bytes-encodings :
    (n v : ℕ)
    → 0 < v
    → v < 2 ^ 32
    → (index_of_bytes (to_le_bytes 4 v ++ replicate n 0) ≡ ok v)
      × (index_of_bytes (replicate (4 + n) 0 ++ to_be_bytes 4 v) ≡ ok v)
unfolding index_of_bytes
index_of_bytes-encodings n v p h =
    let positive : (v == 0) ≡ false = ground arith in
    let le_size = length-append (to_le_bytes 4 v) (replicate n 0) in
    let be_size = length-append (replicate (4 + n) 0) (to_be_bytes 4 v) in
    let zeros : length {A = ℕ} (replicate (4 + n) 0) ≡ 4 + n = length-replicate (4 + n) 0 in
    let le_long : ltb (length (to_le_bytes 4 v ++ replicate n 0)) 4 ≡ false =
      ground (arith, le_size, length-to_le_bytes 4 v) in
    let be_long : ltb (length (replicate (4 + n) 0 ++ to_be_bytes 4 v)) 4 ≡ false =
      ground (arith, be_size, length-to_be_bytes 4 v) in
    let cut : length (replicate (4 + n) 0 ++ to_be_bytes 4 v) - 4 ≡ length (replicate (4 + n) 0) =
      omega (arith, be_size, length-to_be_bytes 4 v) in
    let all_bytes = replicate (4 + n) 0 ++ to_be_bytes 4 v in
    let front : take (length all_bytes - 4) all_bytes ≡ replicate (4 + n) 0 =
      take_append (replicate (4 + n) 0) (to_be_bytes 4 v) _ cut in
    let back : drop (length all_bytes - 4) all_bytes ≡ to_be_bytes 4 v =
      drop_append (replicate (4 + n) 0) (to_be_bytes 4 v) _ cut in
    (
      rw
          (
            le_long,
            drop_append (to_le_bytes 4 v) (replicate n 0) 4 (sym (length-to_le_bytes 4 v)),
            all_zero-replicate n,
            take_append (to_le_bytes 4 v) (replicate n 0) 4 (sym (length-to_le_bytes 4 v)),
            from_le_bytes-to_le_bytes 4 v h,
            positive,
          )
          refl,
      rw
          (
            be_long,
            drop_zeros,
            all_zero-prefix n (to_be_bytes 4 v),
            nonzero,
            front,
            all_zero-replicate (4 + n),
            back,
            from_be_bytes-to_be_bytes 4 v h,
            positive,
          )
          refl,
    )
  where
    drop_zeros : drop 4 (replicate (4 + n) 0 ++ to_be_bytes 4 v) ≡ replicate n 0 ++ to_be_bytes 4 v
    drop_zeros =
        let four : 4 + n ≡ suc (suc (suc (suc n))) = omega arith in
        ap (λ m. drop 4 (replicate m 0 ++ to_be_bytes 4 v)) four

    nonzero : all (λ x. x == 0) (to_be_bytes 4 v) ≡ false
    nonzero = elim (Bool-cases (all (λ x. x == 0) (to_be_bytes 4 v))) [
      | inl z ↦
          absurd
            (omega (arith, from_be_bytes-to_be_bytes 4 v h, be_loop-all_zero (to_be_bytes 4 v) z))
      | inr f ↦ f
    ]
