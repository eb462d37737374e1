-- ===== src/Risk/Laws.antt =====
-- The range of the risk score, and that it grows with the base score, the asset's criticality and
-- known exploitation.
use amankan.Prelude.{
  ℕ, ◌+◌, ◌*◌, ◌≤◌, String, ◌≡◌, refl, ap, ◌∙◌, subst, inl, inr, Bool, true, false, arith,
  Bool-cases,
}
use amankan.Float64.{Float64, FloatLaws, AtMost}
use amankan.Models.{Criticality, crit_low, crit_medium, crit_high, crit_critical, other_criticality}
use amankan.ThreatIntel.{Feed, is_kev}
use amankan.Risk.{criticality_weight, threat, capped, floored, clamped, round1, score_with, score}

-- How much the asset's business depends on it.
abbrev pub impact : Criticality → ℕ
impact crit_low = 0
impact crit_medium = 1
impact (other_criticality _) = 1
impact crit_high = 2
impact crit_critical = 3

module _ (fl : Float64) (laws : FloatLaws fl) where
  AtMost-refl : (a : fl.Carrier) → AtMost fl a a
  AtMost-refl a = elim (Bool-cases (fl.less a a)) [ inl e ↦ laws.strict a a e | inr e ↦ e ]

  refl_le : (n k : ℕ) → AtMost fl (fl.dec n k) (fl.dec n k)
  refl_le n k = AtMost-refl (fl.dec n k)

  capped-upper : (x : fl.Carrier) → AtMost fl (capped fl x) (fl.dec 10 0)
  capped-upper x = elim (Bool-cases (fl.less (fl.dec 10 0) x)) [
    | inl e ↦ rw e (refl_le 10 0)
    | inr e ↦ rw e e
  ]

  capped-mono : (x y : fl.Carrier) → AtMost fl x y → AtMost fl (capped fl x) (capped fl y)
  capped-mono x y h = elim (Bool-cases (fl.less (fl.dec 10 0) y)) [
    | inl e ↦ rw e (capped-upper x)
    | inr e ↦ elim (Bool-cases (fl.less (fl.dec 10 0) x)) [
      | inl k ↦ rw (e, k) (laws.order (fl.dec 10 0) x y (laws.strict (fl.dec 10 0) x k) h)
      | inr k ↦ rw (e, k) h
    ]
  ]

  floored-lower : (x : fl.Carrier) → AtMost fl (fl.dec 0 0) (floored fl x)
  floored-lower x = elim (Bool-cases (fl.less x (fl.dec 0 0))) [
    | inl e ↦ rw e (refl_le 0 0)
    | inr e ↦ rw e e
  ]

  floored-upper :
      (x : fl.Carrier) → AtMost fl x (fl.dec 10 0) → AtMost fl (floored fl x) (fl.dec 10 0)
  floored-upper x h = elim (Bool-cases (fl.less x (fl.dec 0 0))) [
    | inl e ↦ rw e (laws.literals 0 0 10 0 (omega arith) (omega arith) (omega arith))
    | inr e ↦ rw e h
  ]

  floored-mono : (x y : fl.Carrier) → AtMost fl x y → AtMost fl (floored fl x) (floored fl y)
  floored-mono x y h = elim (Bool-cases (fl.less x (fl.dec 0 0))) [
    | inl e ↦ rw e (floored-lower y)
    | inr e ↦ elim (Bool-cases (fl.less y (fl.dec 0 0))) [
      | inl k ↦ rw (e, k) (laws.order x y (fl.dec 0 0) h (laws.strict y (fl.dec 0 0) k))
      | inr k ↦ rw (e, k) h
    ]
  ]

  clamped-bounds :
      (x : fl.Carrier)
      → AtMost fl (fl.dec 0 0) (clamped fl x) × AtMost fl (clamped fl x) (fl.dec 10 0)
  unfolding clamped
  clamped-bounds x = (floored-lower _, floored-upper _ (capped-upper x))

  clamped-mono : (x y : fl.Carrier) → AtMost fl x y → AtMost fl (clamped fl x) (clamped fl y)
  unfolding clamped
  clamped-mono x y h = floored-mono _ _ (capped-mono x y h)

  round1-mono : (x y : fl.Carrier) → AtMost fl x y → AtMost fl (round1 fl x) (round1 fl y)
  unfolding round1
  round1-mono x y h = laws.over_left _ _ (
      laws.of_int_mono _ _ (
        laws.truncated_mono _ _ (
          laws.plus_left _ _ _ (
            laws.times_left _ _ _ (laws.literals 0 0 10 0 (omega arith) (omega arith) (omega arith))
              h))))

  round1-exact : (n : ℕ) → n ≤ 10 → round1 fl (fl.dec n 0) ≡ fl.dec n 0
  unfolding round1
  round1-exact n h =
      ap (λ k. fl.over (fl.of_int k) (fl.dec 10 0)) (laws.truncated_exact n h) ∙ laws.over_exact n h

  -- In arithmetic with the laws of float64, a risk score is between 0 and 10, whatever the base score, the CVEs and the criticality.
  pub score_bounds :
      (feed : Feed fl.Carrier) (cvss : fl.Carrier) (cve : String) (crit : Criticality)
      → AtMost fl (fl.dec 0 0) (score fl feed cvss cve crit).0
        × AtMost fl (score fl feed cvss cve crit).0 (fl.dec 10 0)
  unfolding score score_with
  score_bounds feed cvss cve crit =
      let x = fl.times (fl.times cvss (criticality_weight fl crit)) (threat fl (is_kev feed cve)) in
      let (above, below) = clamped-bounds x in
      (
        subst (λ z. AtMost fl z (round1 fl (clamped fl x))) (round1-exact 0 (omega arith))
            (round1-mono _ _ above),
        subst (λ z. AtMost fl (round1 fl (clamped fl x)) z) (round1-exact 10 (omega arith))
            (round1-mono _ _ below),
      )

  weight-hundredths :
      (c : Criticality)
      → AtMost fl (criticality_weight fl c) (fl.dec (75 + 25 * impact c) 2)
        × AtMost fl (fl.dec (75 + 25 * impact c) 2) (criticality_weight fl c)
  unfolding criticality_weight
  weight-hundredths crit_low = (refl_le 75 2, refl_le 75 2)
  weight-hundredths crit_medium = (
    laws.literals 10 1 100 2 (omega arith) (omega arith) (omega arith),
    laws.literals 100 2 10 1 (omega arith) (omega arith) (omega arith),
  )
  weight-hundredths (other_criticality _) = (
    laws.literals 10 1 100 2 (omega arith) (omega arith) (omega arith),
    laws.literals 100 2 10 1 (omega arith) (omega arith) (omega arith),
  )
  weight-hundredths crit_high = (refl_le 125 2, refl_le 125 2)
  weight-hundredths crit_critical = (
    laws.literals 15 1 150 2 (omega arith) (omega arith) (omega arith),
    laws.literals 150 2 15 1 (omega arith) (omega arith) (omega arith),
  )

  weight-mono :
      (c d : Criticality)
      → impact c ≤ impact d
      → AtMost fl (criticality_weight fl c) (criticality_weight fl d)
  weight-mono c d h = laws.order _ _ _ (weight-hundredths c).0 (
      laws.order _ _ _
        (laws.literals (75 + 25 * impact c) 2 (75 + 25 * impact d) 2 (omega arith) (omega arith)
          (omega arith))
        (weight-hundredths d).1)

  threat-mono : (k k' : Bool) → (k ≡ true → k' ≡ true) → AtMost fl (threat fl k) (threat fl k')
  threat-mono false false h = refl_le 10 1
  threat-mono false true h = laws.literals 10 1 13 1 (omega arith) (omega arith) (omega arith)
  threat-mono true true h = refl_le 13 1
  threat-mono true false h = absurd (cc (h refl))

  weight-positive : (c : Criticality) → AtMost fl (fl.dec 0 0) (criticality_weight fl c)
  weight-positive c =
      laws.order _ _ _
        (laws.literals 0 0 (75 + 25 * impact c) 2 (omega arith) (omega arith) (omega arith))
        (weight-hundredths c).1

  threat-positive : (k : Bool) → AtMost fl (fl.dec 0 0) (threat fl k)
  threat-positive false = laws.literals 0 0 10 1 (omega arith) (omega arith) (omega arith)
  threat-positive true = laws.literals 0 0 13 1 (omega arith) (omega arith) (omega arith)

  -- In arithmetic with the laws of float64, a base score that is at least as high and not negative,
  -- an asset of at least the same criticality and a CVE that is known to be exploited wherever the
  -- other one is never give a lower risk score.
  pub score_monotone :
      (cvss cvss' : fl.Carrier) (known known' : Bool) (crit crit' : Criticality)
      → AtMost fl (fl.dec 0 0) cvss
      → AtMost fl cvss cvss'
      → (known ≡ true → known' ≡ true)
      → impact crit ≤ impact crit'
      → AtMost fl (score_with fl cvss known crit) (score_with fl cvss' known' crit')
  unfolding score_with
  score_monotone cvss cvss' known known' crit crit' base more exploited heavier = round1-mono _ _ (
      clamped-mono _ _ (
        laws.order _ _ _
          (laws.times_left _ _ _ (threat-positive known) (
            laws.order _ _ _ (laws.times_left _ _ _ (weight-positive crit) more) (
              laws.times_right _ _ _ (laws.order _ _ _ base more)
                (weight-mono crit crit' heavier))))
          (laws.times_right _ _ _
            (laws.times_positive _ _ (laws.order _ _ _ base more) (weight-positive crit'))
            (threat-mono known known' exploited))))
