-- ===== src/Examples/SmallField.antt =====
-- The integers modulo 7, as a type of seven values.
use frostito.Prelude.{
  ℕ, zero, suc, ◌+◌, ◌*◌, ◌-◌, ◌%◌, ◌<◌, ◌≡◌, ◌≢◌, refl, sym, ap, ◌∙◌, Bool, true, ◌&&◌, ◌==◌,
  ==_iff, arith,
}

pub data F7 : Type 0 where
  f0 f1 f2 f3 f4 f5 f6 : F7

abbrev pub to_ℕ : F7 → ℕ
to_ℕ f0 = 0
to_ℕ f1 = 1
to_ℕ f2 = 2
to_ℕ f3 = 3
to_ℕ f4 = 4
to_ℕ f5 = 5
to_ℕ f6 = 6

abbrev pub pick : ℕ → F7
pick zero = f0
pick (suc zero) = f1
pick (suc (suc zero)) = f2
pick (suc (suc (suc zero))) = f3
pick (suc (suc (suc (suc zero)))) = f4
pick (suc (suc (suc (suc (suc zero))))) = f5
pick (suc (suc (suc (suc (suc (suc n)))))) = f6

abbrev pub of_ℕ : ℕ → F7
of_ℕ n = pick (n % 7)

unfoldable pub F7-discrete : Discrete F7
F7-discrete = hlevel

abbrev pub add : F7 → F7 → F7
add a b = of_ℕ (to_ℕ a + to_ℕ b)

abbrev pub mul : F7 → F7 → F7
mul a b = of_ℕ (to_ℕ a * to_ℕ b)

abbrev pub neg : F7 → F7
neg a = of_ℕ (7 - to_ℕ a)

abbrev pub sub : F7 → F7 → F7
sub a b = add a (neg b)

abbrev pub invert : F7 → F7
invert f0 = f0
invert f1 = f1
invert f2 = f4
invert f3 = f5
invert f4 = f2
invert f5 = f3
invert f6 = f6

abbrev eqb : F7 → F7 → Bool
eqb a b = to_ℕ a == to_ℕ b

pub pick-to_ℕ : (a : F7) → pick (to_ℕ a) ≡ a
pick-to_ℕ f0 = refl
pick-to_ℕ f1 = refl
pick-to_ℕ f2 = refl
pick-to_ℕ f3 = refl
pick-to_ℕ f4 = refl
pick-to_ℕ f5 = refl
pick-to_ℕ f6 = refl

pub to_ℕ-pick : (n : ℕ) → n < 7 → to_ℕ (pick n) ≡ n
to_ℕ-pick zero h = refl
to_ℕ-pick (suc zero) h = refl
to_ℕ-pick (suc (suc zero)) h = refl
to_ℕ-pick (suc (suc (suc zero))) h = refl
to_ℕ-pick (suc (suc (suc (suc zero)))) h = refl
to_ℕ-pick (suc (suc (suc (suc (suc zero))))) h = refl
to_ℕ-pick (suc (suc (suc (suc (suc (suc n)))))) h = omega arith

pub to_ℕ-lt : (a : F7) → to_ℕ a < 7
to_ℕ-lt f0 = omega arith
to_ℕ-lt f1 = omega arith
to_ℕ-lt f2 = omega arith
to_ℕ-lt f3 = omega arith
to_ℕ-lt f4 = omega arith
to_ℕ-lt f5 = omega arith
to_ℕ-lt f6 = omega arith

eq_of_eqb : (a b : F7) → eqb a b ≡ true → a ≡ b
eq_of_eqb a b h = sym (pick-to_ℕ a) ∙ ap pick ((==_iff (to_ℕ a) (to_ℕ b)).0 h) ∙ pick-to_ℕ b

every : (F7 → Bool) → Bool
every p = p f0 && (p f1 && (p f2 && (p f3 && (p f4 && (p f5 && p f6)))))

every_sound : (p : F7 → Bool) (a : F7) → every p ≡ true → p a ≡ true
unfolding every
every_sound p f0 h = ground arith
every_sound p f1 h = ground arith
every_sound p f2 h = ground arith
every_sound p f3 h = ground arith
every_sound p f4 h = ground arith
every_sound p f5 h = ground arith
every_sound p f6 h = ground arith

-- An identity in three variables, checked at all of their values.
by_table :
    (l r : F7 → F7 → F7 → F7)
    → every (λ a. every (λ b. every (λ c. eqb (l a b c) (r a b c)))) ≡ true
    → (a b c : F7) → l a b c ≡ r a b c
by_table l r h a b c = eq_of_eqb _ _ (
    every_sound (λ z. eqb (l a b z) (r a b z)) c
      (every_sound (λ y. every (λ z. eqb (l a y z) (r a y z))) b
        (every_sound (λ x. every (λ y. every (λ z. eqb (l x y z) (r x y z)))) a h)))

pub add_assoc : (a b c : F7) → add (add a b) c ≡ add a (add b c)
unfolding every
add_assoc = by_table (λ a b c. add (add a b) c) (λ a b c. add a (add b c)) refl

pub add_comm : (a b : F7) → add a b ≡ add b a
unfolding every
add_comm a b = by_table (λ a b c. add a b) (λ a b c. add b a) refl a b f0

pub add-zero : (a : F7) → add a f0 ≡ a
unfolding every
add-zero a = by_table (λ a b c. add a f0) (λ a b c. a) refl a f0 f0

pub add-neg : (a : F7) → add a (neg a) ≡ f0
unfolding every
add-neg a = by_table (λ a b c. add a (neg a)) (λ a b c. f0) refl a f0 f0

pub mul_assoc : (a b c : F7) → mul (mul a b) c ≡ mul a (mul b c)
unfolding every
mul_assoc = by_table (λ a b c. mul (mul a b) c) (λ a b c. mul a (mul b c)) refl

pub mul_comm : (a b : F7) → mul a b ≡ mul b a
unfolding every
mul_comm a b = by_table (λ a b c. mul a b) (λ a b c. mul b a) refl a b f0

pub mul-one : (a : F7) → mul a f1 ≡ a
unfolding every
mul-one a = by_table (λ a b c. mul a f1) (λ a b c. a) refl a f0 f0

pub mul-add : (a b c : F7) → mul a (add b c) ≡ add (mul a b) (mul a c)
unfolding every
mul-add = by_table (λ a b c. mul a (add b c)) (λ a b c. add (mul a b) (mul a c)) refl

pub mul-invert : (a : F7) → a ≢ f0 → mul a (invert a) ≡ f1
mul-invert f0 n = absurd (n refl)
mul-invert f1 n = refl
mul-invert f2 n = refl
mul-invert f3 n = refl
mul-invert f4 n = refl
mul-invert f5 n = refl
mul-invert f6 n = refl
