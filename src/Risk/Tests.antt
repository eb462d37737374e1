-- ===== src/Risk/Tests.antt =====
-- Scores of known CVEs, in a float64 of two decimals.
use amankan.Prelude.{ℕ, ◌≡◌, refl, true, false, [], arith}
use amankan.Float64.{AtMost}
use amankan.Float64.Hundredths.{hundredths, hundredths_laws}
use amankan.Models.{crit_high, crit_critical}
use amankan.ThreatIntel.{Feed, default_kev, is_kev}
use amankan.Risk.{score, score_with}
use amankan.Risk.Laws.{score_bounds, score_monotone}

abbrev feed : Feed ℕ
feed = record { kev = default_kev; epss = [] }

-- 7.5 * 1.25 * 1.3 is over the limit; 4.0 * 1.25 is 5.0.
scores :
    (score hundredths feed 750 "CVE-2021-44228" crit_high ≡ (1000, true))
    × (score hundredths feed 400 "CVE-2000-0001" crit_high ≡ (500, false))
unfolding score is_kev
scores = (refl, refl)

score_bounds_example :
    AtMost hundredths 0 (score hundredths feed 950 "CVE-2021-44228" crit_critical).0
    × AtMost hundredths (score hundredths feed 950 "CVE-2021-44228" crit_critical).0 1000
score_bounds_example =
    score_bounds hundredths hundredths_laws feed 950 "CVE-2021-44228" crit_critical

score_monotone_example :
    AtMost hundredths
      (score_with hundredths 400 false crit_high)
      (score_with hundredths 650 true crit_critical)
score_monotone_example =
    score_monotone hundredths hundredths_laws 400 650 false true crit_high crit_critical refl refl
      (λ _. refl) (omega arith)
