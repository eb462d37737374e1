-- ===== src/Risk.antt =====
-- internal/risk/risk.go: the risk score of a finding. Scores are float64.
pub mod Laws
mod Tests
use amankan.Prelude.{◌-◌, ◌/◌, String, Bool, true, false, List, [], ◌∷◌, ◌==◌, if◌then◌else◌}
use amankan.Float64.{Float64}
use amankan.Models.{
  Criticality, crit_low, crit_medium, crit_high, crit_critical, other_criticality, Severity, info,
  low, medium, high, critical, other_severity,
}
use amankan.ThreatIntel.{Feed, is_kev}

module _ (fl : Float64) where
  -- criticalityWeight
  unfoldable pub criticality_weight : Criticality → fl.Carrier
  criticality_weight crit_critical = fl.dec 15 1
  criticality_weight crit_high = fl.dec 125 2
  criticality_weight crit_medium = fl.dec 10 1
  criticality_weight crit_low = fl.dec 75 2
  criticality_weight (other_criticality _) = fl.dec 10 1

  abbrev pub threat : Bool → fl.Carrier
  threat true = fl.dec 13 1
  threat false = fl.dec 10 1

  -- The two limits of the score.
  abbrev pub capped : fl.Carrier → fl.Carrier
  capped score = if fl.less (fl.dec 10 0) score then fl.dec 10 0 else score

  abbrev pub floored : fl.Carrier → fl.Carrier
  floored score = if fl.less score (fl.dec 0 0) then fl.dec 0 0 else score

  unfoldable pub clamped : fl.Carrier → fl.Carrier
  clamped score = floored (capped score)

  -- round1
  unfoldable pub round1 : fl.Carrier → fl.Carrier
  round1 f =
      fl.over (fl.of_int (fl.truncated (fl.plus (fl.times f (fl.dec 10 0)) (fl.dec 5 1))))
        (fl.dec 10 0)

  -- The score of a CVSS base score, given whether the CVE is known to be exploited.
  unfoldable pub score_with : fl.Carrier → Bool → Criticality → fl.Carrier
  unfolding clamped round1 criticality_weight
  score_with cvss known crit =
      round1 (clamped (fl.times (fl.times cvss (criticality_weight crit)) (threat known)))

  -- Score
  unfoldable pub score : Feed fl.Carrier → fl.Carrier → String → Criticality → fl.Carrier × Bool
  unfolding score_with
  score feed cvss cve crit = let known = is_kev feed cve in (score_with cvss known crit, known)

  -- SeverityToCVSS
  unfoldable pub severity_to_cvss : Severity → fl.Carrier
  severity_to_cvss critical = fl.dec 95 1
  severity_to_cvss high = fl.dec 75 1
  severity_to_cvss medium = fl.dec 50 1
  severity_to_cvss low = fl.dec 30 1
  severity_to_cvss _ = fl.dec 10 1

-- cweVectors
abbrev cwe_vectors : List (String × String)
cwe_vectors =
    ("CWE-327", "CVSS:3.1/AV:N/AC:H/PR:N/UI:N/S:U/C:H/I:N/A:N")
    ∷ ("CWE-502", "CVSS:3.1/AV:N/AC:L/PR:N/UI:N/S:U/C:H/I:H/A:H")
    ∷ ("CWE-798", "CVSS:3.1/AV:N/AC:L/PR:N/UI:N/S:U/C:H/I:H/A:N")
    ∷ ("CWE-269", "CVSS:3.1/AV:L/AC:L/PR:L/UI:N/S:U/C:H/I:H/A:H")
    ∷ ("CWE-250", "CVSS:3.1/AV:L/AC:L/PR:L/UI:N/S:U/C:H/I:H/A:H")
    ∷ ("CWE-538", "CVSS:3.1/AV:N/AC:L/PR:N/UI:N/S:U/C:H/I:N/A:N")
    ∷ ("CWE-693", "CVSS:3.1/AV:N/AC:L/PR:N/UI:R/S:U/C:L/I:L/A:N")
    ∷ ("CWE-1327", "CVSS:3.1/AV:N/AC:L/PR:N/UI:N/S:U/C:L/I:N/A:N")
    ∷ []

unfoldable pub vector_from : List (String × String) → String → String
vector_from [] cwe = ""
vector_from ((k, v) ∷ rest) cwe = if k == cwe then v else vector_from rest cwe

-- RepresentativeVector
unfoldable pub representative_vector : String → String
unfolding vector_from
representative_vector cwe = vector_from cwe_vectors cwe
