-- ===== src/Normalize.antt =====
-- internal/normalize/normalize.go: the documents of the scanners and the severities. XML and JSON are Go's: a
-- decoder gives the document of a text or fails. `quoted` is the verb %q.
pub mod Parsers
pub mod Enrich
pub mod Laws
pub mod Controls
mod Tests
use Prim.Native.String.{◌++◌ as append}
use amankan.Prelude.{
  ◌+◌, ◌-◌, String, false, not, Option, none, some, List, [], ◌∷◌, ◌++◌, ◌==◌, if◌then◌else◌,
}
use amankan.Prelude.Int.{ℤ, pos, negsuc}
use amankan.Strings.{to_lower, trim_space, split, join}
use amankan.Strconv.{itoa}
use amankan.Float64.{Float64}
use amankan.Models.{
  Asset, ScannerType, nmap, Severity, info, low, medium, high, critical, other_severity, Finding,
  open_finding, other_status,
}
use amankan.Scanner.{RawResult, CryptoReport, Credential}

-- The documents that the decoders give.
pub record NmapPort : Type 0 where
  pub protocol : String
  pub port_id : ℤ
  pub state : String
  pub service : String
  pub product : String
  pub version : String

pub record NucleiLine : Type 0 where
  pub template_id : String
  pub matched_at : String
  pub name : String
  pub severity : String
  pub cves : List String
  pub cwes : List String

-- The hosts of a run of nmap are their lists of ports.
pub record Decoders : Type 0 where
  pub nmap_run : String → Option (List (List NmapPort))
  pub nuclei_line : String → Option NucleiLine
  pub crypto_report : String → Option CryptoReport
  pub secrets_report : String → Option (List Credential)
  pub quoted : String → String

-- %d
unfoldable pub decimal : ℤ → String
unfolding itoa
decimal (pos n) = itoa n
decimal (negsuc n) = append "-" (itoa (n + 1))

unfoldable pub concat : List String → String
concat [] = ""
concat (s ∷ ss) = append s (concat ss)

-- parseSeverity
unfoldable pub parse_severity : String → Severity
unfolding to_lower
parse_severity s =
    let name = to_lower s in
    if name == "critical"
    then critical
    else if name == "high"
    then high
    else if name == "medium"
    then medium
    else if name == "low"
    then low
    else info

module _ (fl : Float64) where
  -- severityFromCVSS
  unfoldable pub severity_from_cvss : fl.Carrier → Severity
  severity_from_cvss cvss =
      if not (fl.less cvss (fl.dec 90 1))
      then critical
      else if not (fl.less cvss (fl.dec 70 1))
      then high
      else if not (fl.less cvss (fl.dec 40 1))
      then medium
      else if fl.less (fl.dec 0 0) cvss
      then low
      else info

  -- sensitiveServices
  abbrev pub sensitive_services : List (String × fl.Carrier)
  sensitive_services =
      ("ssh", fl.dec 40 1)
      ∷ ("mysql", fl.dec 65 1)
      ∷ ("mssql", fl.dec 65 1)
      ∷ ("postgresql", fl.dec 60 1)
      ∷ ("redis", fl.dec 70 1)
      ∷ ("mongodb", fl.dec 70 1)
      ∷ ("telnet", fl.dec 80 1)
      ∷ ("ftp", fl.dec 55 1)
      ∷ ("rdp", fl.dec 75 1)
      ∷ []

  unfoldable pub service_cvss : List (String × fl.Carrier) → String → Option fl.Carrier
  service_cvss [] svc = none
  service_cvss ((k, v) ∷ rest) svc = if k == svc then some v else service_cvss rest svc

  -- A finding with no field set, whose scanner `enrich` fills in.
  abbrev pub blank : Finding fl.Carrier
  blank = record {
    id = "";
    scan_job_id = "";
    asset_id = "";
    scanner = nmap;
    title = "";
    desc = "";
    severity = other_severity "";
    cvss = fl.dec 0 0;
    cvss_vector = "";
    cve = "";
    cwe = "";
    port = pos 0;
    service = "";
    evidence = "";
    status = other_status "";
    risk_score = fl.dec 0 0;
    known_exploit = false;
    compliance = [];
    remediation = none;
    epss = fl.dec 0 0;
    due_date = none;
    sla_breached = false;
    sla_days_left = pos 0;
    principal = "";
    cred_fp = "";
    created_at = 0;
  }
