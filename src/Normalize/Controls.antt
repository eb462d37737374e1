-- ===== src/Normalize/Controls.antt =====
-- internal/normalize/normalize.go: the controls and the remediation of normalized findings.
use amankan.Prelude.{
  String, ◌≡◌, refl, subst, ◌⊎◌, inl, inr, true, false, Option, none, some, List, [], ◌∷◌, map,
  ◌==◌, ltb, String-cases, length, All,
}
use mathlib.Core.Option.{some-injective}
use amankan.Float64.{Float64}
use amankan.Models.{Asset, ScannerType, Finding, RemediationGuide}
use amankan.Compliance.{refs_complete}
use amankan.ThreatIntel.{Feed}
use amankan.Scanner.{RawResult}
use amankan.Normalize.{Decoders}
use amankan.Normalize.Enrich.{enrich, enrich_all, parse, normalize}

-- A finding without a weakness class, or with one control of each of the five frameworks, none of
-- them empty, and with a remediation that has a summary and a step.
abbrev pub IsMapped : {F : Type 0} → Finding F → Type 0
IsMapped f =
    (f.cwe ≡ "")
    ⊎ ((map (λ r. r.framework) f.compliance
          ≡ "OWASP-Top10" ∷ "OWASP-ASVS" ∷ "ISO27001" ∷ "BSSN" ∷ "COBIT2019" ∷ [])
        × All (λ r. (r.control == "") ≡ false) f.compliance
        × ((guide : RemediationGuide) × (f.remediation ≡ some guide)
            × ((guide.summary == "") ≡ false)
            × (ltb 0 (length guide.steps) ≡ true)))

module _ (fl : Float64) (feed : Feed fl.Carrier) (asset : Asset) (scan_job_id : String)
    (sc : ScannerType) where
  enrich-IsMapped : (f : Finding fl.Carrier) → IsMapped (enrich fl feed asset scan_job_id sc f)
  unfolding enrich
  enrich-IsMapped f = elim (String-cases f.cwe "") [
    | inl e ↦ rw e (inl refl)
    | inr e ↦
        let (frameworks, controls, summary, steps) = refs_complete f.cwe in
        rw e (inr (frameworks, controls, (_, refl, summary, steps)))
  ]

  map-IsMapped :
      (fs : List (Finding fl.Carrier)) → All IsMapped (map (enrich fl feed asset scan_job_id sc) fs)
  map-IsMapped [] = tt
  map-IsMapped (f ∷ fs) = (enrich-IsMapped f, map-IsMapped fs)

  enrich_all-IsMapped :
      (found : Option (List (Finding fl.Carrier))) (fs : List (Finding fl.Carrier))
      → enrich_all fl feed asset scan_job_id sc found ≡ some fs
      → All IsMapped fs
  enrich_all-IsMapped none fs e = absurd (cc e)
  enrich_all-IsMapped (some gs) fs e = subst (All IsMapped) (some-injective _ _ e) (map-IsMapped gs)

-- Every finding that Normalize returns, in any format, has no weakness class, or carries one control
-- of each of the five frameworks, in their order and none of them empty, and a remediation with a
-- summary and at least one step, whether or not the catalog has its class.
pub normalize-IsMapped :
    (fl : Float64) (d : Decoders) (feed : Feed fl.Carrier) (raw : RawResult) (asset : Asset)
    (scan_job_id : String) (fs : List (Finding fl.Carrier))
    → normalize fl d feed raw asset scan_job_id ≡ some fs
    → All IsMapped fs
unfolding normalize
normalize-IsMapped fl d feed raw asset scan_job_id fs e =
    enrich_all-IsMapped fl feed asset scan_job_id raw.scanner (parse fl d raw) fs e
