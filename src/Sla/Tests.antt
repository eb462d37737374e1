-- ===== src/Sla/Tests.antt =====
-- The deadlines at concrete times, with days counted by division.
use amankan.Prelude.{◌+◌, ◌*◌, ◌/◌, ◌^◌, ◌≤◌, ◌≡◌, true, false, arith}
use amankan.Models.{high, open_finding}
use amankan.Sla.{
  Hours, day, is_resolved, breached, days_remaining, due_date, IsNegative, IsPositive,
  breached-days_remaining,
}

abbrev exact_days : Hours
exact_days = record {
  whole_days = λ n. n / (24 * 3600 * 10 ^ 9);
  mono = λ m n h. omega arith;
  exact = λ d h. omega arith;
}

breached-days_remaining_sample :
    (is_resolved open_finding ≡ true → breached open_finding high 0 (32 * day) ≡ false)
    × (is_resolved open_finding ≡ false
        → (IsNegative (days_remaining exact_days high 0 (32 * day))
            → breached open_finding high 0 (32 * day) ≡ true)
          × (IsPositive (days_remaining exact_days high 0 (32 * day))
              → breached open_finding high 0 (32 * day) ≡ false)
          × (due_date high 0 + day ≤ 32 * day
              → IsNegative (days_remaining exact_days high 0 (32 * day))))
breached-days_remaining_sample = breached-days_remaining exact_days open_finding high 0 (32 * day)
