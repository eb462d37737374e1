-- ===== src/Sla.antt =====
-- internal/sla/sla.go: remediation deadlines. Times and durations are in nanoseconds. The whole
-- days of a duration are counted in float64, so that count is a parameter with its laws.
mod Tests
use amankan.Prelude.{
  ℕ, zero, suc, ◌+◌, ◌-◌, ◌*◌, ◌^◌, ◌≤◌, ◌≡◌, refl, inl, inr, Bool, true, false, arith, ltb,
  if◌then◌else◌, Bool-cases,
}
use amankan.Prelude.Int.{ℤ, pos, negsuc, neg}
use amankan.Models.{
  Severity, info, low, medium, high, critical, other_severity, FindingStatus, open_finding,
  validated, false_positive, remediated, other_status,
}

abbrev pub day : ℕ
day = 24 * 3600 * 10 ^ 9

-- Window, with the fallback of a severity that has no entry.
abbrev pub window : Severity → ℕ
window critical = 7 * day
window high = 30 * day
window medium = 90 * day
window low = 180 * day
window info = 365 * day
window (other_severity _) = 90 * day

-- DueDate
unfoldable pub due_date : Severity → ℕ → ℕ
due_date sev created_at = created_at + window sev

abbrev pub is_resolved : FindingStatus → Bool
is_resolved false_positive = true
is_resolved remediated = true
is_resolved _ = false

-- Breached
unfoldable pub breached : FindingStatus → Severity → ℕ → ℕ → Bool
unfolding due_date
breached status sev created_at now =
    if is_resolved status then false else ltb (due_date sev created_at) now

-- int(d.Hours() / 24) of a duration: monotone, and exact on whole days.
pub record Hours : Type 0 where
  pub whole_days : ℕ → ℕ
  pub mono : (m n : ℕ) → m ≤ n → whole_days m ≤ whole_days n
  pub exact : (d : ℕ) → d ≤ 365 → whole_days (d * day) ≡ d

-- DaysRemaining: the conversion to int drops the fraction on either side of 0.
unfoldable pub days_remaining : Hours → Severity → ℕ → ℕ → ℤ
unfolding due_date
days_remaining h sev created_at now =
    let due = due_date sev created_at in
    if ltb due now then neg (h.whole_days (now - due)) else pos (h.whole_days (due - now))

-- The sign that a number of days shows.
abbrev pub IsNegative : ℤ → Type 0
IsNegative (pos n) = ⊥
IsNegative (negsuc n) = Unit

abbrev pub IsPositive : ℤ → Type 0
IsPositive (pos zero) = ⊥
IsPositive (pos (suc n)) = Unit
IsPositive (negsuc n) = ⊥

neg-not_positive : (n : ℕ) → IsPositive (neg n) → ⊥
neg-not_positive zero k = k
neg-not_positive (suc n) k = k

neg-IsNegative : (n : ℕ) → 1 ≤ n → IsNegative (neg n)
neg-IsNegative zero k = absurd (omega arith)
neg-IsNegative (suc n) k = tt

-- A resolved finding is never breached. For an unresolved one, with a count of days that is monotone
-- and exact on whole days, a negative number of days left is only shown once the deadline has
-- passed, a positive one only before that, and from a whole day past the deadline on the number is
-- negative.
pub breached-days_remaining :
    (h : Hours) (status : FindingStatus) (sev : Severity) (created_at now : ℕ)
    → (is_resolved status ≡ true → breached status sev created_at now ≡ false)
      × (is_resolved status ≡ false
          → (IsNegative (days_remaining h sev created_at now)
              → breached status sev created_at now ≡ true)
            × (IsPositive (days_remaining h sev created_at now)
                → breached status sev created_at now ≡ false)
            × (due_date sev created_at + day ≤ now
                → IsNegative (days_remaining h sev created_at now)))
unfolding breached days_remaining due_date
breached-days_remaining h status sev created_at now = (
  λ e. rw e refl,
  λ e. elim (Bool-cases (ltb (due_date sev created_at) now)) [
    | inl past ↦
        rw (e, past)
          (
            λ _. refl,
            λ k. absurd (neg-not_positive _ k),
            λ k. neg-IsNegative _ (
                omega (
                  arith,
                  h.exact 1 (omega arith),
                  h.mono (1 * day) (now - due_date sev created_at) (unfold due_date in omega arith),
                )),
          )
    | inr not_yet ↦ rw (e, not_yet) (λ k. absurd k, λ _. refl, λ k. absurd (ground arith))
  ],
)
