-- ===== src/Zf/Reading.antt =====
-- src/zf.rs: what `identifier_to_index` reads from the bytes of any identifier.
use frostito.Prelude.{
  ℕ, zero, suc, ◌+◌, ◌-◌, ◌*◌, ◌^◌, ◌<◌, ◌≤◌, ◌≡◌, refl, sym, ap, ap₂, subst, ◌∙◌, true, false,
  List, [], ◌∷◌, ◌++◌, All, all, length, take, drop, replicate, arith, Bool-cases, inl, inr, ◌⊎◌,
  ltb, ◌==◌,
}
use frostito.Error.{Result, ok, err, ◌>>◌, refuse_if, invalid_index}
use frostito.Bytes.{to_le_bytes, from_le_bytes, to_be_bytes, from_be_bytes, be_loop}
use frostito.Bytes.Laws.{to_le_bytes-from_le_bytes}
use frostito.Indices.Counting.{length-take}
use frostito.Zf.{index_of_bytes}

-- Every byte is below 256.
abbrev pub AreBytes : List ℕ → Type 0
AreBytes = All (λ b. b < 256)

AreBytes-take : (n : ℕ) (bs : List ℕ) → AreBytes bs → AreBytes (take n bs)
AreBytes-take zero bs h = tt
AreBytes-take (suc n) [] h = tt
AreBytes-take (suc n) (b ∷ bs) h = (h.0, AreBytes-take n bs h.1)

AreBytes-drop : (n : ℕ) (bs : List ℕ) → AreBytes bs → AreBytes (drop n bs)
AreBytes-drop zero bs h = h
AreBytes-drop (suc n) [] h = tt
AreBytes-drop (suc n) (b ∷ bs) h = AreBytes-drop n bs h.1

-- What four bytes can spell, in either order.
four_bytes :
    (bs : List ℕ)
    → length bs ≡ 4
    → AreBytes bs
    → (from_le_bytes bs < 2 ^ 32) × (from_be_bytes bs < 2 ^ 32)
unfolding from_le_bytes from_be_bytes be_loop
four_bytes [] l h = absurd (omega arith)
four_bytes (a ∷ []) l h = absurd (omega arith)
four_bytes (a ∷ b ∷ []) l h = absurd (omega arith)
four_bytes (a ∷ b ∷ d ∷ []) l h = absurd (omega arith)
four_bytes (a ∷ b ∷ d ∷ e ∷ []) l h =
    (omega (arith, h.0, h.1.0, h.1.1.0, h.1.1.1.0), omega (arith, h.0, h.1.0, h.1.1.0, h.1.1.1.0))
four_bytes (a ∷ b ∷ d ∷ e ∷ f ∷ rest) l h = absurd (omega arith)

length-drop_bytes : (n : ℕ) (bs : List ℕ) → n ≤ length bs → length (drop n bs) + n ≡ length bs
length-drop_bytes zero bs h = omega arith
length-drop_bytes (suc n) [] h = absurd (omega arith)
length-drop_bytes (suc n) (b ∷ bs) h = omega (arith, length-drop_bytes n bs (omega arith))

replicate_of_all_zero : (bs : List ℕ) → all (λ x. x == 0) bs ≡ true → bs ≡ replicate (length bs) 0
replicate_of_all_zero [] h = refl
replicate_of_all_zero (b ∷ bs) h =
    let zero_byte : b ≡ 0 = ground arith in
    ap₂ (λ x xs. x ∷ xs) zero_byte (replicate_of_all_zero bs (ground arith))

take-append-drop : (n : ℕ) (bs : List ℕ) → take n bs ++ drop n bs ≡ bs
take-append-drop zero bs = refl
take-append-drop (suc n) [] = refl
take-append-drop (suc n) (b ∷ bs) = ap (λ xs. b ∷ xs) (take-append-drop n bs)

be_step : (w m b : ℕ) → b < 256 → to_be_bytes (suc w) (m * 256 + b) ≡ to_be_bytes w m ++ (b ∷ [])
unfolding to_be_bytes
be_step w m b h = ap₂ (λ k x. to_be_bytes w k ++ (x ∷ [])) (omega arith) (omega arith)

-- The value of four bytes is written as these bytes again, in either order.
rewritten :
    (bs : List ℕ)
    → length bs ≡ 4
    → AreBytes bs
    → (to_le_bytes 4 (from_le_bytes bs) ≡ bs) × (to_be_bytes 4 (from_be_bytes bs) ≡ bs)
unfolding from_be_bytes be_loop to_be_bytes
rewritten [] l h = absurd (omega arith)
rewritten (a ∷ []) l h = absurd (omega arith)
rewritten (a ∷ b ∷ []) l h = absurd (omega arith)
rewritten (a ∷ b ∷ d ∷ []) l h = absurd (omega arith)
rewritten (a ∷ b ∷ d ∷ e ∷ f ∷ rest) l h = absurd (omega arith)
rewritten (a ∷ b ∷ d ∷ e ∷ []) h k = (
  to_le_bytes-from_le_bytes (a ∷ b ∷ d ∷ e ∷ []) k,
  be_step 3 (((0 * 256 + a) * 256 + b) * 256 + d) e k.1.1.1.0
      ∙ ap (λ xs. xs ++ (e ∷ []))
          (be_step 2 ((0 * 256 + a) * 256 + b) d k.1.1.0
            ∙ ap (λ xs. xs ++ (d ∷ []))
                (be_step 1 (0 * 256 + a) b k.1.0 ∙ ap (λ xs. xs ++ (b ∷ [])) (be_step 0 0 a k.0))),
)

-- The bytes are the four of `v` and zeros: least significant first with the zeros behind, or most
-- significant first with the zeros in front and some nonzero byte behind the fourth.
abbrev pub Spells : ℕ → List ℕ → Type 0
Spells v bs =
    (bs ≡ to_le_bytes 4 v ++ replicate (length bs - 4) 0)
    ⊎ ((bs ≡ replicate (length bs - 4) 0 ++ to_be_bytes 4 v)
        × (all (λ x. x == 0) (drop 4 bs) ≡ false))

-- How the reading ends.
abbrev pub Reads : List ℕ → Result ℕ → Type 0
Reads bs r =
    ((v : ℕ) × (0 < v) × (v < 2 ^ 32) × Spells v bs × (r ≡ ok v))
    ⊎ ((r ≡ err invalid_index)
        × ((length bs < 4)
            ⊎ (Spells 0 bs
                ⊎ ((all (λ x. x == 0) (drop 4 bs) ≡ false)
                    × (all (λ x. x == 0) (take (length bs - 4) bs) ≡ false)))))

little_spelled :
    (bs : List ℕ)
    → 4 ≤ length bs
    → AreBytes bs
    → all (λ x. x == 0) (drop 4 bs) ≡ true
    → (from_le_bytes (take 4 bs) < 2 ^ 32) × Spells (from_le_bytes (take 4 bs)) bs
little_spelled bs l h z =
    let size = length-take 4 bs l in
    let bytes = AreBytes-take 4 bs h in
    let rest : length (drop 4 bs) ≡ length bs - 4 = omega (arith, length-drop_bytes 4 bs l) in
    (
      (four_bytes (take 4 bs) size bytes).0,
      inl (
          sym (take-append-drop 4 bs)
          ∙ ap₂ (λ xs ys. xs ++ ys) (sym (rewritten (take 4 bs) size bytes).0)
              (replicate_of_all_zero (drop 4 bs) z ∙ ap (λ n. replicate n 0) rest)),
    )

big_spelled :
    (bs : List ℕ)
    → 4 ≤ length bs
    → AreBytes bs
    → all (λ x. x == 0) (drop 4 bs) ≡ false
    → all (λ x. x == 0) (take (length bs - 4) bs) ≡ true
    → (from_be_bytes (drop (length bs - 4) bs) < 2 ^ 32)
      × Spells (from_be_bytes (drop (length bs - 4) bs)) bs
big_spelled bs l h n z =
    let m = length bs - 4 in
    let size : length (drop (length bs - 4) bs) ≡ 4 =
      omega (arith, length-drop_bytes (length bs - 4) bs (omega arith)) in
    let bytes = AreBytes-drop m bs h in
    (
      (four_bytes (drop m bs) size bytes).1,
      inr (
        sym (take-append-drop m bs)
            ∙ ap₂ (λ xs ys. xs ++ ys)
                (replicate_of_all_zero (take m bs) z
                  ∙ ap (λ k. replicate k 0) (length-take m bs (omega arith)))
                (sym (rewritten (drop m bs) size bytes).1),
        n,
      ),
    )

accepted :
    (bs : List ℕ) (v : ℕ)
    → v < 2 ^ 32
    → Spells v bs
    → Reads bs (refuse_if (v == 0) invalid_index >> ok v)
accepted bs v b h = elim (Bool-cases (v == 0)) [
  | inl e ↦
      let none_read : v ≡ 0 = ground arith in
      inr (rw e refl, inr (inl (subst (λ k. Spells k bs) none_read h)))
  | inr n ↦ inl (v, ground arith, b, h, rw n refl)
]

-- On any bytes the reading never panics. Either it returns a positive `u32` that the bytes spell:
-- its four bytes, least significant first, and zeros, or else zeros and its four bytes, most
-- significant first. Or it refuses with `InvalidIndex`, and then there are fewer than four bytes, or
-- they spell 0, or neither the bytes behind the fourth nor those before the last four are all zero.
pub index_of_bytes-Reads : (bs : List ℕ) → AreBytes bs → Reads bs (index_of_bytes bs)
unfolding index_of_bytes
index_of_bytes-Reads bs h = elim (Bool-cases (ltb (length bs) 4)) [
  | inl short ↦ inr (rw short refl, inl (ground arith))
  | inr long ↦
      let l : 4 ≤ length bs = ground arith in
      elim (Bool-cases (all (λ x. x == 0) (drop 4 bs))) [
        | inl little ↦
            let (bound, spelled) = little_spelled bs l h little in
            let v = from_le_bytes (take 4 bs) in
            let read : index_of_bytes bs ≡ (refuse_if (v == 0) invalid_index >> ok v) =
              rw (index_of_bytes, long, little) refl in
            subst (Reads bs) (sym read) (accepted bs v bound spelled)
        | inr other ↦ elim (Bool-cases (all (λ x. x == 0) (take (length bs - 4) bs))) [
          | inl big ↦
              let (bound, spelled) = big_spelled bs l h other big in
              let v = from_be_bytes (drop (length bs - 4) bs) in
              let read : index_of_bytes bs ≡ (refuse_if (v == 0) invalid_index >> ok v) =
                rw (index_of_bytes, long, other, big) refl in
              subst (Reads bs) (sym read) (accepted bs v bound spelled)
          | inr neither ↦ inr (rw (long, other, neither) refl, inr (inr (other, neither)))
        ]
      ]
]
