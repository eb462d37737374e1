-- ===== src/Strconv/Laws.antt =====
-- Atoi reads back what Itoa prints.
use Prim.Native.String.{◌++◌, char_at}
use mathlib.Core.Option.{some-injective}
use text.Mathlib.TextLemmas.{nil-append, cons-append, append-ne-nil_of_right_ne-nil}
use amankan.Prelude.{
  ℕ, zero, suc, ◌+◌, ◌-◌, ◌*◌, ◌/◌, ◌%◌, ◌^◌, ◌<◌, code, String, ◌≡◌, ◌≢◌, refl, sym, ap, ◌∙◌,
  Option, none, some, arith, ltb, ◌≤◌, false, Bool-cases, inl, inr, lt→ltb, eq-false_of_ne,
}
use amankan.Prelude.Int.{pos}
use amankan.Strings.{has}
use amankan.Strings.Laws.{has-append}
use amankan.Strconv.{digit, decimal, itoa, digits_value, atoi}

-- The code of a digit's character.
digit_code : (d : ℕ) → d < 10 → code (char_at "0123456789" d) ≡ 48 + d
digit_code zero h = refl
digit_code (suc zero) h = refl
digit_code (suc (suc zero)) h = refl
digit_code (suc (suc (suc zero))) h = refl
digit_code (suc (suc (suc (suc zero)))) h = refl
digit_code (suc (suc (suc (suc (suc zero))))) h = refl
digit_code (suc (suc (suc (suc (suc (suc zero)))))) h = refl
digit_code (suc (suc (suc (suc (suc (suc (suc zero))))))) h = refl
digit_code (suc (suc (suc (suc (suc (suc (suc (suc zero)))))))) h = refl
digit_code (suc (suc (suc (suc (suc (suc (suc (suc (suc zero))))))))) h = refl
digit_code (suc (suc (suc (suc (suc (suc (suc (suc (suc (suc d)))))))))) h = absurd (omega arith)

digits_value-digit : (acc d : ℕ) → d < 10 → digits_value acc (digit d) ≡ some (acc * 10 + d)
unfolding digits_value digit
digits_value-digit acc d h = ground (arith, digit_code d h)

andthen : Option ℕ → String → Option ℕ
andthen none t = none
andthen (some n) t = digits_value n t

digits_value-append :
    (acc : ℕ) (s t : String) → digits_value acc (s ++ t) ≡ andthen (digits_value acc s) t
unfolding digits_value andthen
digits_value-append acc String.[] t = rw nil-append
digits_value-append acc (String.◌∷◌ c s) t =
    rw cons-append (ground (arith, digits_value-append (acc * 10 + (code c - 48)) s t))

digits_value-decimal : (fuel n : ℕ) → n < fuel → digits_value 0 (decimal fuel n) ≡ some n
unfolding decimal andthen digits_value
digits_value-decimal zero n h = absurd (omega arith)
digits_value-decimal (suc fuel) n h = elim (Bool-cases (ltb n 10)) [
  | inl e ↦ rw e (digits_value-digit 0 n (ground arith) ∙ ap some (omega arith))
  | inr e ↦ rw e (
      digits_value-append 0 (decimal fuel (n / 10)) (digit (n % 10))
      ∙ ap (λ o. andthen o (digit (n % 10))) (digits_value-decimal fuel (n / 10) (ground arith))
      ∙ digits_value-digit (n / 10) (n % 10) (omega arith)
      ∙ ap some (omega arith))
]

decimal-ne-nil : (fuel n : ℕ) → decimal (suc fuel) n ≢ ""
unfolding decimal digit
decimal-ne-nil fuel n e = elim (Bool-cases (ltb n 10)) [
  | inl small ↦ cc (small, e)
  | inr large ↦
      append-ne-nil_of_right_ne-nil (decimal fuel (n / 10))
        {t = String.◌∷◌ (char_at "0123456789" (n % 10)) String.[]} (λ p. cc p) (rw large at e)
]

-- A run of digits, with no sign, is read as its value.
atoi_of_digits :
    (s : String) (n : ℕ) → s ≢ "" → digits_value 0 s ≡ some n → n < 2 ^ 63 → atoi s ≡ some (pos n)
unfolding atoi
atoi_of_digits String.[] n ne e h = absurd (ne refl)
atoi_of_digits (String.◌∷◌ c s) n ne e h =
    ground (arith, eq-false_of_ne (String.◌∷◌ c s) "" ne, lt→ltb n (2 ^ 63) h)

-- Atoi reads back the decimal form of every number that `int` can hold.
pub atoi-itoa : (n : ℕ) → n < 2 ^ 63 → atoi (itoa n) ≡ some (pos n)
unfolding itoa
atoi-itoa n h =
    atoi_of_digits (decimal (suc n) n) n (decimal-ne-nil n n)
      (digits_value-decimal (suc n) n (omega arith)) h

-- Distinct numbers are printed differently.
pub itoa_inj : (m n : ℕ) → itoa m ≡ itoa n → m ≡ n
unfolding itoa
itoa_inj m n e = some-injective m n (
    sym (digits_value-decimal (suc m) m (omega arith))
    ∙ ap (digits_value 0) e
    ∙ digits_value-decimal (suc n) n (omega arith))

-- A decimal number has no character outside the digits.
has-digit : (c d : ℕ) → 58 ≤ c → d < 10 → has c (digit d) ≡ false
unfolding has digit
has-digit c d h k = ground (arith, digit_code d k)

has-decimal : (c fuel n : ℕ) → 58 ≤ c → has c (decimal fuel n) ≡ false
unfolding decimal
has-decimal c zero n h = unfold has in refl
has-decimal c (suc fuel) n h = elim (Bool-cases (ltb n 10)) [
  | inl e ↦ rw e (has-digit c n h (ground arith))
  | inr e ↦
      rw e
        (rw has-append (rw (has-decimal c fuel (n / 10) h) (has-digit c (n % 10) h (omega arith))))
]

pub has-itoa : (c n : ℕ) → 58 ≤ c → has c (itoa n) ≡ false
unfolding itoa
has-itoa c n h = has-decimal c (suc n) n h
