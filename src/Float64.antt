-- ===== src/Float64.antt =====
-- Go's float64: a carrier with the operations of the code, a parameter of the model, and the laws of
-- IEEE 754 arithmetic with rounding to nearest that some theorems take as a hypothesis, which hold
-- of a carrier without NaN.
pub mod Hundredths
use amankan.Prelude.{ℕ, ◌*◌, ◌^◌, ◌≤◌, ◌≡◌, Bool, true, false}

pub record Float64 : Type 1 where
  pub Carrier : Type 0
  -- the literal n / 10^k, of at most two decimals
  pub dec : ℕ → ℕ → Carrier
  pub times : Carrier → Carrier → Carrier
  pub plus : Carrier → Carrier → Carrier
  pub minus : Carrier → Carrier → Carrier
  pub over : Carrier → Carrier → Carrier
  -- Go's < and <=, which are both false where one side is NaN
  pub less : Carrier → Carrier → Bool
  pub less_eq : Carrier → Carrier → Bool
  -- the conversions between int and float64, of values that are not negative
  pub truncated : Carrier → ℕ
  pub of_int : ℕ → Carrier

-- a is at most b
abbrev pub AtMost : (fl : Float64) → fl.Carrier → fl.Carrier → Type 0
AtMost fl a b = fl.less b a ≡ false

-- Rounding to nearest is monotone, and whole numbers up to 100 are exact.
pub record FloatLaws (fl : Float64) : Type 0 where
  pub order : (a b c : fl.Carrier) → AtMost fl a b → AtMost fl b c → AtMost fl a c
  pub strict : (a b : fl.Carrier) → fl.less a b ≡ true → AtMost fl a b
  pub literals :
      (n k m j : ℕ) → k ≤ 2 → j ≤ 2 → n * 10 ^ j ≤ m * 10 ^ k → AtMost fl (fl.dec n k) (fl.dec m j)
  pub times_left :
      (a b c : fl.Carrier)
      → AtMost fl (fl.dec 0 0) c
      → AtMost fl a b
      → AtMost fl (fl.times a c) (fl.times b c)
  pub times_right :
      (a b c : fl.Carrier)
      → AtMost fl (fl.dec 0 0) c
      → AtMost fl a b
      → AtMost fl (fl.times c a) (fl.times c b)
  pub times_positive :
      (a b : fl.Carrier)
      → AtMost fl (fl.dec 0 0) a
      → AtMost fl (fl.dec 0 0) b
      → AtMost fl (fl.dec 0 0) (fl.times a b)
  pub plus_left : (a b c : fl.Carrier) → AtMost fl a b → AtMost fl (fl.plus a c) (fl.plus b c)
  pub over_left :
      (a b : fl.Carrier)
      → AtMost fl a b
      → AtMost fl (fl.over a (fl.dec 10 0)) (fl.over b (fl.dec 10 0))
  pub truncated_mono : (a b : fl.Carrier) → AtMost fl a b → fl.truncated a ≤ fl.truncated b
  pub of_int_mono : (m n : ℕ) → m ≤ n → AtMost fl (fl.of_int m) (fl.of_int n)
  pub truncated_exact :
      (n : ℕ)
      → n ≤ 10
      → fl.truncated (fl.plus (fl.times (fl.dec n 0) (fl.dec 10 0)) (fl.dec 5 1)) ≡ 10 * n
  pub over_exact : (n : ℕ) → n ≤ 10 → fl.over (fl.of_int (10 * n)) (fl.dec 10 0) ≡ fl.dec n 0
