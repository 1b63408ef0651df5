-- ===== src/Bytes/Laws.antt =====
-- Fixed-width integers, written and read.
use frostito.Prelude.{
  ℕ, zero, suc, ◌/◌, ◌+◌, ◌*◌, ◌%◌, ◌^◌, ◌<◌, ◌≡◌, refl, sym, ap, ap₂, ◌∙◌, List, take, All, ◌++◌,
  length, append_split, arith, [], ◌∷◌, true, false, ==_refl, length-append,
}
use native.Mathlib.Nat.{pow-suc}
use frostito.Bytes.{
  to_le_bytes, from_le_bytes, to_be_bytes, from_be_bytes, be_loop, same_bytes, differs,
}

pub length-to_le_bytes : (w n : ℕ) → length (to_le_bytes w n) ≡ w
unfolding to_le_bytes
length-to_le_bytes zero n = refl
length-to_le_bytes (suc w) n = ap suc (length-to_le_bytes w (n / 256))

shrink : (w n : ℕ) → n < 256 ^ suc w → n / 256 < 256 ^ w
shrink w n h = omega (arith, pow-suc 256 w)

-- A number below 256 ^ w is read back from its w bytes.
pub from_le_bytes-to_le_bytes : (w n : ℕ) → n < 256 ^ w → from_le_bytes (to_le_bytes w n) ≡ n
unfolding to_le_bytes from_le_bytes
from_le_bytes-to_le_bytes zero n h = omega (arith)
from_le_bytes-to_le_bytes (suc w) n h =
    omega (arith, from_le_bytes-to_le_bytes w (n / 256) (shrink w n h))

pub to_le_bytes_injective :
    (w m n : ℕ) → m < 256 ^ w → n < 256 ^ w → to_le_bytes w m ≡ to_le_bytes w n → m ≡ n
to_le_bytes_injective w m n h k e =
    sym (from_le_bytes-to_le_bytes w m h) ∙ ap from_le_bytes e ∙ from_le_bytes-to_le_bytes w n k

-- Two strings that begin with encoded integers of one width.
pub le_bytes_split :
    (w m n : ℕ) (xs ys : List ℕ)
    → m < 256 ^ w
    → n < 256 ^ w
    → to_le_bytes w m ++ xs ≡ to_le_bytes w n ++ ys
    → (m ≡ n) × (xs ≡ ys)
le_bytes_split w m n xs ys h k e =
    let parts =
      append_split (to_le_bytes w m) (to_le_bytes w n) xs ys
        (length-to_le_bytes w m ∙ sym (length-to_le_bytes w n)) e in
    (to_le_bytes_injective w m n h k parts.0, parts.1)

pub same_bytes_refl : (xs : List ℕ) → same_bytes xs xs ≡ true
same_bytes_refl [] = refl
same_bytes_refl (x ∷ xs) = ground (arith, ==_refl x, same_bytes_refl xs)

pub eq_of_same_bytes : (xs ys : List ℕ) → same_bytes xs ys ≡ true → xs ≡ ys
eq_of_same_bytes [] [] h = refl
eq_of_same_bytes [] (y ∷ ys) h = cc
eq_of_same_bytes (x ∷ xs) [] h = cc
eq_of_same_bytes (x ∷ xs) (y ∷ ys) h = ground (arith, eq_of_same_bytes xs ys)

-- Strings of one length that differ nowhere are equal.
pub eq_of_differs : (xs ys : List ℕ) → length xs ≡ length ys → differs xs ys ≡ false → xs ≡ ys
unfolding differs
eq_of_differs [] [] l h = refl
eq_of_differs [] (y ∷ ys) l h = absurd (omega arith)
eq_of_differs (x ∷ xs) [] l h = absurd (omega arith)
eq_of_differs (x ∷ xs) (y ∷ ys) l h = ground (arith, eq_of_differs xs ys)

-- And bytes are written again from the number they spell.
pub to_le_bytes-from_le_bytes :
    (bs : List ℕ) → All (λ b. b < 256) bs → to_le_bytes (length bs) (from_le_bytes bs) ≡ bs
unfolding to_le_bytes from_le_bytes
to_le_bytes-from_le_bytes [] h = refl
to_le_bytes-from_le_bytes (b ∷ bs) h =
    let low : (b + 256 * from_le_bytes bs) % 256 ≡ b = omega (arith, h.0) in
    let high : (b + 256 * from_le_bytes bs) / 256 ≡ from_le_bytes bs = omega (arith, h.0) in
    ap₂ (λ x xs. x ∷ xs) low (ap (to_le_bytes (length bs)) high ∙ to_le_bytes-from_le_bytes bs h.1)

-- Bytes that do not differ agree as far as both lists go.
pub prefix_of_differs :
    (xs ys : List ℕ) → differs xs ys ≡ false → take (length ys) xs ≡ take (length xs) ys
unfolding differs
prefix_of_differs [] [] h = refl
prefix_of_differs [] (y ∷ ys) h = refl
prefix_of_differs (x ∷ xs) [] h = refl
prefix_of_differs (x ∷ xs) (y ∷ ys) h =
    let same : x ≡ y = ground arith in
    ap₂ (λ b bs. b ∷ bs) same (prefix_of_differs xs ys (ground arith))

pub differs_refl : (xs : List ℕ) → differs xs xs ≡ false
unfolding differs
differs_refl [] = refl
differs_refl (x ∷ xs) = ground (arith, ==_refl x, differs_refl xs)

be_loop-append :
    (acc : ℕ) (xs : List ℕ) (b : ℕ) → be_loop acc (xs ++ (b ∷ [])) ≡ be_loop acc xs * 256 + b
unfolding be_loop
be_loop-append acc [] b = refl
be_loop-append acc (x ∷ xs) b = be_loop-append (acc * 256 + x) xs b

-- A number below 256 ^ w is read back from its w bytes in the other order too.
pub from_be_bytes-to_be_bytes : (w n : ℕ) → n < 256 ^ w → from_be_bytes (to_be_bytes w n) ≡ n
unfolding to_be_bytes from_be_bytes be_loop
from_be_bytes-to_be_bytes zero n h = omega arith
from_be_bytes-to_be_bytes (suc w) n h = omega (
  arith,
  be_loop-append 0 (to_be_bytes w (n / 256)) (n % 256),
  from_be_bytes-to_be_bytes w (n / 256) (shrink w n h),
)

pub length-to_be_bytes : (w n : ℕ) → length (to_be_bytes w n) ≡ w
unfolding to_be_bytes
length-to_be_bytes zero n = refl
length-to_be_bytes (suc w) n =
    omega (
      arith,
      length-append (to_be_bytes w (n / 256)) (n % 256 ∷ []),
      length-to_be_bytes w (n / 256),
    )
