-- ===== src/RateLimit/Tests.antt =====
-- A limiter of one request a second, in hundredths of a token: of four requests of a client at once
-- two are admitted, and one more after a second.
use amankan.Prelude.{ℕ, ◌*◌, ◌/◌, ◌^◌, String, ◌≡◌, refl, true, false, List, [], ◌∷◌, map, arith}
use amankan.Prelude.Int.{ℤ, pos, negsuc}
use amankan.Float64.Hundredths.{hundredths}
use amankan.RateLimit.{new_limiter, run}
use amankan.RateLimit.Isolation.{of_client, run-alone}

abbrev seconds : ℤ → ℕ
seconds (pos n) = n / 10 ^ 7
seconds (negsuc n) = 0

abbrev trace : List (String × ℕ)
trace =
    ("a", 0)
    ∷ ("a", 0)
    ∷ ("b", 0)
    ∷ ("a", 0)
    ∷ ("a", 10 ^ 9)
    ∷ ("a", 10 ^ 9)
    ∷ ("b", 500 * 10 ^ 9)
    ∷ []

decisions :
    map (λ d. d.1) (run hundredths seconds 100 trace new_limiter)
    ≡ true ∷ true ∷ true ∷ false ∷ true ∷ false ∷ true ∷ []
unfolding run
decisions = refl

run-alone_example :
    of_client "a" (run hundredths seconds 100 trace new_limiter)
    ≡ map
        (λ d. d.1)
        (run hundredths seconds 100 (map (λ t. ("a", t)) (of_client "a" trace)) new_limiter)
run-alone_example = run-alone hundredths seconds 100 "a" 0 trace (
  (omega arith, omega arith),
  (
    (omega arith, omega arith),
    (
      (omega arith, omega arith),
      (
        (omega arith, omega arith),
        (
          (omega arith, omega arith),
          ((omega arith, omega arith), ((omega arith, omega arith), tt)),
        ),
      ),
    ),
  ),
)
