-- ===== src/Compliance.antt =====
-- internal/compliance/compliance.go: the controls and the remediation of each weakness class.
mod Tests
use amankan.Prelude.{
  ◌-◌, ◌/◌, ◌<◌, code, String, ◌≡◌, refl, inl, inr, Bool, true, false, not, ◌||◌, List, [], ◌∷◌,
  map, ◌==◌, ltb, if◌then◌else◌, Bool-cases, length, All,
}
use amankan.Models.{ComplianceRef, RemediationGuide}

pub record Entry : Type 0 where
  pub owasp_top10 : String
  pub owasp_asvs : String
  pub iso27001 : String
  pub bssn : String
  pub cobit : String
  pub remedy : RemediationGuide

abbrev cwe_327 : Entry
cwe_327 = record {
  owasp_top10 = "A02:2021 Cryptographic Failures";
  owasp_asvs = "ASVS V6.2.1 Algorithms";
  iso27001 = "A.8.24 Use of cryptography";
  bssn = "Indeks KAMI - Pengamanan; Std. Kriptografi Nasional";
  cobit = "DSS05 Manage Security Services";
  remedy = record {
    summary = "Replace weak/legacy cryptographic algorithms with approved ones.";
    steps =
        "Disable TLS < 1.2; prefer TLS 1.3."
        ∷ "Use RSA >= 2048-bit or ECDSA P-256; rotate weak keys."
        ∷ "Remove deprecated ciphers (RC4, 3DES, MD5, SHA-1)." ∷ [];
    refs = "NIST SP 800-52r2" ∷ "BSSN Standar Kriptografi Nasional" ∷ [];
  };
}

abbrev cwe_502 : Entry
cwe_502 = record {
  owasp_top10 = "A08:2021 Software and Data Integrity Failures";
  owasp_asvs = "ASVS V5.5 Deserialization Prevention";
  iso27001 = "A.8.28 Secure coding";
  bssn = "Indeks KAMI - Pengelolaan Insiden";
  cobit = "BAI03 Manage Solutions Identification and Build";
  remedy = record {
    summary = "Patch the vulnerable component and block untrusted deserialization.";
    steps =
        "Upgrade affected library to a fixed version immediately."
        ∷ "Apply vendor mitigations / disable dangerous lookups."
        ∷ "Add WAF rules as a temporary compensating control." ∷ [];
    refs = "CVE-2021-44228" ∷ "OWASP Deserialization Cheat Sheet" ∷ [];
  };
}

abbrev cwe_538 : Entry
cwe_538 = record {
  owasp_top10 = "A01:2021 Broken Access Control";
  owasp_asvs = "ASVS V8.1 General Data Protection";
  iso27001 = "A.5.34 Privacy and protection of PII; A.8.3 Information access restriction";
  bssn = "Indeks KAMI - Pengamanan Aset Informasi";
  cobit = "DSS06 Manage Business Process Controls";
  remedy = record {
    summary = "Remove externally-exposed sensitive files and restrict access.";
    steps =
        "Block access to VCS/metadata paths (e.g. /.git, /.env)."
        ∷ "Rotate any secrets that were exposed."
        ∷ "Add deny rules at the web server / reverse proxy." ∷ [];
    refs = [];
  };
}

abbrev cwe_693 : Entry
cwe_693 = record {
  owasp_top10 = "A05:2021 Security Misconfiguration";
  owasp_asvs = "ASVS V14.4 HTTP Security Headers";
  iso27001 = "A.8.9 Configuration management";
  bssn = "Indeks KAMI - Pengelolaan Konfigurasi";
  cobit = "BAI10 Manage Configuration";
  remedy = record {
    summary = "Add the missing security response headers.";
    steps =
        "Set Content-Security-Policy, X-Content-Type-Options, X-Frame-Options."
        ∷ "Add Strict-Transport-Security on HTTPS endpoints." ∷ [];
    refs = [];
  };
}

abbrev cwe_269 : Entry
cwe_269 = record {
  owasp_top10 = "A01:2021 Broken Access Control";
  owasp_asvs = "ASVS V1.2 Authentication Architecture";
  iso27001 = "A.8.2 Privileged access rights; A.8.18 Use of privileged utility programs";
  bssn = "Indeks KAMI - Pengelolaan Hak Akses";
  cobit = "DSS05 Manage Security Services";
  remedy = record {
    summary = "Patch the privilege-escalation vector and tighten privilege boundaries.";
    steps =
        "Apply the vendor patch for the affected component (e.g. pkexec/polkit)."
        ∷ "Enforce least privilege; remove unnecessary SUID/SGID binaries."
        ∷ "Audit local accounts and sudo rules." ∷ [];
    refs = "CVE-2021-4034 (PwnKit)" ∷ "OWASP Access Control Cheat Sheet" ∷ [];
  };
}

abbrev cwe_250 : Entry
cwe_250 = record {
  owasp_top10 = "A04:2021 Insecure Design";
  owasp_asvs = "ASVS V1.2 Authentication Architecture";
  iso27001 = "A.8.2 Privileged access rights";
  bssn = "Indeks KAMI - Pengelolaan Hak Akses";
  cobit = "DSS05 Manage Security Services";
  remedy = record {
    summary = "Drop unnecessary privileges and run services as least-privileged users.";
    steps =
        "Run services under dedicated low-privilege accounts."
        ∷ "Remove overly-permissive sudo/Administrator grants." ∷ [];
    refs = [];
  };
}

abbrev cwe_798 : Entry
cwe_798 = record {
  owasp_top10 = "A07:2021 Identification and Authentication Failures";
  owasp_asvs = "ASVS V2.10 Service Authentication; V6.4 Secret Management";
  iso27001 = "A.8.24 Use of cryptography; A.5.17 Authentication information";
  bssn = "Indeks KAMI - Pengelolaan Kredensial";
  cobit = "DSS05 Manage Security Services";
  remedy = record {
    summary = "Remove hard-coded credentials and rotate the exposed secret.";
    steps =
        "Move secrets to a vault / secret manager; remove from code and config."
        ∷ "Rotate the exposed credential immediately on every system it grants access to."
        ∷ "Scope service accounts per-host to prevent credential reuse / lateral movement." ∷ [];
    refs = "OWASP Secrets Management Cheat Sheet" ∷ [];
  };
}

abbrev cwe_1327 : Entry
cwe_1327 = record {
  owasp_top10 = "A05:2021 Security Misconfiguration";
  owasp_asvs = "ASVS V1.14 Configuration Architecture";
  iso27001 = "A.8.20 Networks security; A.8.22 Segregation of networks";
  bssn = "Indeks KAMI - Pengamanan Jaringan";
  cobit = "DSS05 Manage Security Services";
  remedy = record {
    summary = "Restrict exposed network services to required networks only.";
    steps =
        "Close or firewall ports that need not be public."
        ∷ "Bind administrative services (SSH, DB) to private interfaces."
        ∷ "Enforce network segmentation / security groups." ∷ [];
    refs = [];
  };
}

abbrev pub catalog : List (String × Entry)
catalog =
    ("CWE-327", cwe_327)
    ∷ ("CWE-502", cwe_502)
    ∷ ("CWE-538", cwe_538)
    ∷ ("CWE-693", cwe_693)
    ∷ ("CWE-269", cwe_269)
    ∷ ("CWE-250", cwe_250)
    ∷ ("CWE-798", cwe_798)
    ∷ ("CWE-1327", cwe_1327)
    ∷ []

abbrev pub default_entry : Entry
default_entry = record {
  owasp_top10 = "A06:2021 Vulnerable and Outdated Components";
  owasp_asvs = "ASVS V1.1 Secure Software Development Lifecycle";
  iso27001 = "A.8.8 Management of technical vulnerabilities";
  bssn = "Indeks KAMI - Manajemen Kerentanan";
  cobit = "APO12 Manage Risk";
  remedy = record {
    summary = "Triage, validate, and remediate the identified weakness.";
    steps =
        "Validate the finding to rule out false positives."
        ∷ "Apply vendor patch or configuration hardening." ∷ [];
    refs = [];
  };
}

-- catalog[cwe], or the default entry
unfoldable pub entry_from : List (String × Entry) → String → Entry
entry_from [] cwe = default_entry
entry_from ((k, e) ∷ rest) cwe = if k == cwe then e else entry_from rest cwe

abbrev pub control : String → String → String → ComplianceRef
control framework text title = record { framework = framework; control = text; title = title }

abbrev pub refs_of : Entry → List ComplianceRef
refs_of e =
    control "OWASP-Top10" e.owasp_top10 "OWASP Top 10 2021"
    ∷ control "OWASP-ASVS" e.owasp_asvs "OWASP ASVS"
    ∷ control "ISO27001" e.iso27001 "ISO/IEC 27001:2022 Annex A"
    ∷ control "BSSN" e.bssn "BSSN / Indeks KAMI"
    ∷ control "COBIT2019" e.cobit "COBIT 2019"
    ∷ []

-- Refs and Remediation
unfoldable pub refs : String → List ComplianceRef
unfolding entry_from
refs cwe = refs_of (entry_from catalog cwe)

unfoldable pub remediation : String → RemediationGuide
unfolding entry_from
remediation cwe = (entry_from catalog cwe).remedy

unfoldable pub listed : List String → String → Bool
listed [] cwe = false
listed (k ∷ ks) cwe = k == cwe || listed ks cwe

abbrev pub priv_esc_cwes : List String
priv_esc_cwes =
    "CWE-269" ∷ "CWE-250" ∷ "CWE-264" ∷ "CWE-276" ∷ "CWE-732" ∷ "CWE-862" ∷ "CWE-863" ∷ []

abbrev pub credential_leak_cwes : List String
credential_leak_cwes = "CWE-798" ∷ "CWE-522" ∷ "CWE-259" ∷ []

-- IsPrivEsc and IsCredentialLeak
unfoldable pub is_priv_esc : String → Bool
unfolding listed
is_priv_esc cwe = listed priv_esc_cwes cwe

unfoldable pub is_credential_leak : String → Bool
unfolding listed
is_credential_leak cwe = listed credential_leak_cwes cwe

-- CatalogCWEs, in the order of the table; Go's order over a map is arbitrary.
abbrev pub catalog_cwes : List String
catalog_cwes = map (λ kv. kv.0) catalog

-- An entry that says something for each framework and tells what to do.
abbrev pub IsComplete : Entry → Type 0
IsComplete e =
    All (λ r. (r.control == "") ≡ false) (refs_of e)
    × ((e.remedy.summary == "") ≡ false)
    × (ltb 0 (length e.remedy.steps) ≡ true)

entry_from-All :
    (P : Entry → Type 0) (entries : List (String × Entry)) (cwe : String)
    → P default_entry
    → All (λ kv. P kv.1) entries
    → P (entry_from entries cwe)
unfolding entry_from
entry_from-All P [] cwe base h = base
entry_from-All P ((k, e) ∷ rest) cwe base h = elim (Bool-cases (k == cwe)) [
  | inl same ↦ rw same h.0
  | inr other ↦ rw other (entry_from-All P rest cwe base h.1)
]

complete : IsComplete default_entry × All (λ kv. IsComplete kv.1) catalog
complete = (
  ((refl, (refl, (refl, (refl, (refl, tt))))), refl, refl),
  (
    ((refl, (refl, (refl, (refl, (refl, tt))))), refl, refl),
    (
      ((refl, (refl, (refl, (refl, (refl, tt))))), refl, refl),
      (
        ((refl, (refl, (refl, (refl, (refl, tt))))), refl, refl),
        (
          ((refl, (refl, (refl, (refl, (refl, tt))))), refl, refl),
          (
            ((refl, (refl, (refl, (refl, (refl, tt))))), refl, refl),
            (
              ((refl, (refl, (refl, (refl, (refl, tt))))), refl, refl),
              (
                ((refl, (refl, (refl, (refl, (refl, tt))))), refl, refl),
                (((refl, (refl, (refl, (refl, (refl, tt))))), refl, refl), tt),
              ),
            ),
          ),
        ),
      ),
    ),
  ),
)

-- For any text of a weakness class, Refs gives one control of each of the five frameworks, in their
-- order, none of them empty, and Remediation a summary and a step.
pub refs_complete :
    (cwe : String)
    → (map (λ r. r.framework) (refs cwe)
        ≡ "OWASP-Top10" ∷ "OWASP-ASVS" ∷ "ISO27001" ∷ "BSSN" ∷ "COBIT2019" ∷ [])
      × All (λ r. (r.control == "") ≡ false) (refs cwe)
      × (((remediation cwe).summary == "") ≡ false)
      × (ltb 0 (length (remediation cwe).steps) ≡ true)
unfolding refs remediation
refs_complete cwe =
    let (controls, summary, steps) = entry_from-All IsComplete catalog cwe complete.0 complete.1 in
    (refl, controls, summary, steps)
