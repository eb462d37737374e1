-- ===== src/Compliance/Tests.antt =====
-- The mapping of a weakness class that is in the catalog and of one that is not.
use amankan.Prelude.{◌≡◌, refl, true, false, [], ◌∷◌, map, ◌==◌, ltb, length, take, All}
use amankan.Compliance.{refs, remediation, is_priv_esc, is_credential_leak, refs_complete}

compliance : Unit {0}
unfolding refs remediation is_priv_esc is_credential_leak
compliance = tt

unlisted_control :
    map (λ r. r.control) (take 1 (refs "CWE-79"))
    ≡ "A06:2021 Vulnerable and Outdated Components" ∷ []
unfolding compliance
unlisted_control = refl

privilege_classes : (is_priv_esc "CWE-269" ≡ true) × (is_credential_leak "CWE-269" ≡ false)
unfolding compliance
privilege_classes = (refl, refl)

refs_complete_sample :
    (map (λ r. r.framework) (refs "CWE-327")
      ≡ "OWASP-Top10" ∷ "OWASP-ASVS" ∷ "ISO27001" ∷ "BSSN" ∷ "COBIT2019" ∷ [])
    × All (λ r. (r.control == "") ≡ false) (refs "CWE-327")
    × (((remediation "CWE-327").summary == "") ≡ false)
    × (ltb 0 (length (remediation "CWE-327").steps) ≡ true)
refs_complete_sample = refs_complete "CWE-327"
