-- ===== src/Float64/Hundredths.antt =====
-- Numbers with two decimals that are cut off after each operation: a carrier that has the laws.
use amankan.Prelude.{
  ℕ, zero, suc, ◌+◌, ◌-◌, ◌*◌, ◌/◌, ◌^◌, ◌≤◌, ◌≡◌, false, arith, ltb, leb, if◌then◌else◌,
}
use native.Mathlib.Nat.{mul-le-mul_left, mul-le-mul_right}
use amankan.Float64.{Float64, FloatLaws}

abbrev pub hundredths : Float64
hundredths = record {
  Carrier = ℕ;
  dec = λ n k. n * 10 ^ (2 - k);
  times = λ a b. a * b / 100;
  plus = λ a b. a + b;
  minus = λ a b. a - b;
  over = λ a b. if ltb 0 b then a * 100 / b else 0;
  less = λ a b. ltb a b;
  less_eq = λ a b. leb a b;
  truncated = λ a. a / 100;
  of_int = λ n. n * 100;
}

at_most : (a b : ℕ) → a ≤ b → ltb b a ≡ false
at_most a b h = ground arith

le_of : (a b : ℕ) → ltb b a ≡ false → a ≤ b
le_of a b h = ground arith

cut_mono : (a b : ℕ) → a ≤ b → a / 100 ≤ b / 100
cut_mono a b h = omega arith

literals_mono :
    (n k m j : ℕ) → k ≤ 2 → j ≤ 2 → n * 10 ^ j ≤ m * 10 ^ k → n * 10 ^ (2 - k) ≤ m * 10 ^ (2 - j)
literals_mono n zero m zero hk hj h = omega arith
literals_mono n zero m (suc zero) hk hj h = omega arith
literals_mono n zero m (suc (suc zero)) hk hj h = omega arith
literals_mono n (suc zero) m zero hk hj h = omega arith
literals_mono n (suc zero) m (suc zero) hk hj h = omega arith
literals_mono n (suc zero) m (suc (suc zero)) hk hj h = omega arith
literals_mono n (suc (suc zero)) m zero hk hj h = omega arith
literals_mono n (suc (suc zero)) m (suc zero) hk hj h = omega arith
literals_mono n (suc (suc zero)) m (suc (suc zero)) hk hj h = omega arith
literals_mono n (suc (suc (suc k))) m j hk hj h = absurd (omega arith)
literals_mono n k m (suc (suc (suc j))) hk hj h = absurd (omega arith)

pub hundredths_laws : FloatLaws hundredths
hundredths_laws = record {
  order = λ a b c h k. ground arith;
  strict = λ a b h. ground arith;
  literals = λ n k m j hk hj h. at_most _ _ (literals_mono n k m j hk hj h);
  times_left = λ a b c pos h. at_most _ _ (cut_mono _ _ (mul-le-mul_right c (le_of a b h)));
  times_right = λ a b c pos h. at_most _ _ (cut_mono _ _ (mul-le-mul_left c (le_of a b h)));
  times_positive = λ a b h k. ground arith;
  plus_left = λ a b c h. ground arith;
  over_left = λ a b h. at_most _ _ (omega (arith, le_of a b h));
  truncated_mono = λ a b h. omega (arith, le_of a b h);
  of_int_mono = λ m n h. at_most _ _ (omega arith);
  truncated_exact = λ n h. omega arith;
  over_exact = λ n h. omega arith;
}
