-- ===== src/Examples/SmallCurve.antt =====
-- The scalar field of seven elements, and its additive group as the curve.
use frostito.Prelude.{
  ℕ, ◌%◌, ◌<◌, ◌≡◌, refl, sym, ap, ap₂, ◌∙◌, List, [], ◌∷◌, replicate, Option, none, some, ltb,
  if◌then◌else◌, decide, decide-true, true_of_decide, ℕ_discrete, arith, Bool-cases, inl, inr,
  lt→ltb, ltb→lt,
}
use frostito.Curve.{ScalarField, Curve}
use frostito.Bytes.{from_le_bytes}
use frostito.Examples.SmallField.{
  F7, f0, f1, f2, f3, f4, f5, f6, to_ℕ, of_ℕ, pick, F7-discrete, add, mul, neg, sub, invert,
  pick-to_ℕ, to_ℕ-pick, to_ℕ-lt, add_assoc, add_comm, add-zero, add-neg, mul_assoc, mul_comm,
  mul-one, mul-add, mul-invert,
}

unfoldable pub bytes-discrete : Discrete (List ℕ)
bytes-discrete = hlevel ℕ_discrete

-- A value followed by `tail`.
abbrev pub encode : List ℕ → F7 → List ℕ
encode tail a = to_ℕ a ∷ tail

abbrev pub decode : List ℕ → List ℕ → Option F7
decode tail [] = none
decode tail (b ∷ rest) =
    if ltb b 7 then (if decide (bytes-discrete rest tail) then some (pick b) else none) else none

pub decode-encode : (tail : List ℕ) (a : F7) → decode tail (encode tail a) ≡ some a
decode-encode tail a =
    rw (lt→ltb (to_ℕ a) 7 (to_ℕ-lt a), decide-true (bytes-discrete tail tail) refl)
      (ap some (pick-to_ℕ a))

pub encode_of_decode : (tail bs : List ℕ) (a : F7) → decode tail bs ≡ some a → encode tail a ≡ bs
encode_of_decode tail [] a h = cc
encode_of_decode tail (b ∷ rest) a h = elim (Bool-cases (ltb b 7)) [
  | inr n ↦ cc (rw n at h)
  | inl y ↦ elim (Bool-cases (decide (bytes-discrete rest tail))) [
    | inr n ↦ cc (rw (y, n) at h)
    | inl e ↦
        let found : some (pick b) ≡ some a = rw (y, e) at h in
        let same : pick b ≡ a = cc in
        ap₂ (λ x xs. x ∷ xs) (ap to_ℕ (sym same) ∙ to_ℕ-pick b (ltb→lt b 7 y))
          (sym (true_of_decide (bytes-discrete rest tail) e))
  ]
]

pub of_ℕ_injective : (i j : ℕ) → i < 7 → j < 7 → of_ℕ i ≡ of_ℕ j → i ≡ j
of_ℕ_injective i j h k e =
    omega (arith, to_ℕ-pick (i % 7) (omega arith), to_ℕ-pick (j % 7) (omega arith), ap to_ℕ e)

abbrev pub small_field : ScalarField
small_field = record {
  Scalar = F7;
  zero = f0;
  one = f1;
  from_u32 = of_ℕ;
  ◌⊕◌ = add;
  ◌⊖◌ = sub;
  ◌⊗◌ = mul;
  neg = neg;
  invert = invert;
  from_bytes_wide = λ bs. of_ℕ (from_le_bytes bs);
  to_bytes = encode (replicate 31 0);
  from_canonical_bytes = decode (replicate 31 0);
  scalar_eq = F7-discrete;
  capacity = 7;
  capacity_pos = omega arith;
  from_u32_zero = refl;
  from_u32_injective = of_ℕ_injective;
  add_assoc = add_assoc;
  add_comm = add_comm;
  add-zero = add-zero;
  add-neg = add-neg;
  sub-def = λ a b. refl;
  mul_assoc = mul_assoc;
  mul_comm = mul_comm;
  mul-one = mul-one;
  mul-add = mul-add;
  mul-invert = mul-invert;
  length-to_bytes = λ a. refl;
  from_canonical_bytes-to_bytes = decode-encode (replicate 31 0);
  to_bytes_of_canonical = encode_of_decode (replicate 31 0);
}

pub smul_add : (a b p : F7) → mul (add a b) p ≡ add (mul a p) (mul b p)
smul_add a b p = mul_comm (add a b) p ∙ mul-add p a b ∙ ap₂ add (mul_comm p a) (mul_comm p b)

pub injective : (a b : F7) → mul a f1 ≡ mul b f1 → a ≡ b
injective a b e = sym (mul-one a) ∙ e ∙ mul-one b

pub zero_mul : (p : F7) → mul f0 p ≡ f0
zero_mul f0 = refl
zero_mul f1 = refl
zero_mul f2 = refl
zero_mul f3 = refl
zero_mul f4 = refl
zero_mul f5 = refl
zero_mul f6 = refl

abbrev pub small_curve : Curve
small_curve = record {
  scalars = small_field;
  Point = F7;
  identity = f0;
  generator = f1;
  ◌•◌ = mul;
  ◌⊞◌ = add;
  compressed_size = 1;
  compress = encode [];
  decompress = decode [];
  point_eq = F7-discrete;
  point_add_assoc = add_assoc;
  point_add_comm = add_comm;
  point_add-identity = add-zero;
  add-smul = smul_add;
  mul-smul = mul_assoc;
  smul-add = mul-add;
  zero-smul = zero_mul;
  one-smul = λ p. mul_comm f1 p ∙ mul-one p;
  smul_generator_injective = injective;
  length-compress = λ p. refl;
  decompress-compress = decode-encode [];
  compress_of_decompress = encode_of_decode [];
}
