-- ===== src/Strconv.antt =====
-- The parts of Go's `strconv` package that the program calls: Itoa on the non-negative numbers
-- that it prints, and Atoi with its sign and its range of 64 bits.
pub mod Laws
use Prim.Native.String.{◌++◌, char_at}
use amankan.Prelude.{
  ℕ, zero, suc, ◌+◌, ◌-◌, ◌*◌, ◌/◌, ◌%◌, ◌^◌, code, String, ◌&&◌, Option, none, some, ltb, leb, eqb,
  ◌==◌, if◌then◌else◌,
}
use amankan.Prelude.Int.{ℤ, pos, neg}

unfoldable pub digit : ℕ → String
digit d = String.◌∷◌ (char_at "0123456789" d) String.[]

-- The decimal digits of a number; fuel above the number is enough.
unfoldable pub decimal : ℕ → ℕ → String
decimal zero n = ""
decimal (suc fuel) n =
    let front = decimal fuel (n / 10) in if ltb n 10 then digit n else front ++ digit (n % 10)

-- strconv.Itoa(n), n >= 0
unfoldable pub itoa : ℕ → String
unfolding decimal digit
itoa n = decimal (suc n) n

-- The number that a run of digits denotes, after the digits read so far.
unfoldable pub digits_value : ℕ → String → Option ℕ
digits_value acc String.[] = some acc
digits_value acc (String.◌∷◌ c s) =
    let rest = digits_value (acc * 10 + (code c - 48)) s in
    if leb 48 (code c) && leb (code c) 57 then rest else none

unfoldable pub unsigned : String → Option ℕ
unfolding digits_value
unsigned s = if s == "" then none else digits_value 0 s

-- The value with its sign, if it fits in `int` (64 bits).
unfoldable pub in_range : Option ℕ → Option ℤ
in_range none = none
in_range (some n) = if ltb n (2 ^ 63) then some (pos n) else none

unfoldable pub in_range_neg : Option ℕ → Option ℤ
in_range_neg none = none
in_range_neg (some n) = if leb n (2 ^ 63) then some (neg n) else none

-- strconv.Atoi(s); `none` where it returns an error
unfoldable pub atoi : String → Option ℤ
unfolding unsigned in_range in_range_neg
atoi String.[] = none
atoi (String.◌∷◌ c s) =
    if eqb (code c) b'-'
    then in_range_neg (unsigned s)
    else if eqb (code c) b'+'
    then in_range (unsigned s)
    else in_range (unsigned (String.◌∷◌ c s))
