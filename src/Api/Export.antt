-- ===== src/Api/Export.antt =====
-- internal/api/api.go: the export of findings as CSV.
use amankan.Prelude.{ℕ, String, Bool, true, false, Option, none, some, List, [], ◌∷◌, map}
use amankan.Prelude.Int.{pos}
use amankan.Float64.{Float64}
use amankan.Models.{
  Finding, Severity, info, low, medium, high, critical, other_severity, FindingStatus, open_finding,
  validated, false_positive, remediated, other_status,
}
use amankan.Sla.{Hours}
use amankan.ThreatIntel.{Feed}
use amankan.Normalize.{decimal}
use amankan.Engine.{type_text}
use amankan.Http.{Writer, Handler, set_header, write_body}
use amankan.Store.{Tables, Result, done, err, list_findings}
use amankan.Api.Service.{Backend, Codec, Backing, write_json, store_error}
use amankan.Api.Findings.{framework_control, remediation_summary, enrich_runtime}

abbrev pub severity_text : Severity → String
severity_text info = "info"
severity_text low = "low"
severity_text medium = "medium"
severity_text high = "high"
severity_text critical = "critical"
severity_text (other_severity s) = s

abbrev pub status_text : FindingStatus → String
status_text open_finding = "open"
status_text validated = "validated"
status_text false_positive = "false_positive"
status_text remediated = "remediated"
status_text (other_status s) = s

abbrev bool_text : Bool → String
bool_text true = "true"
bool_text false = "false"

-- What exportFindings uses of strconv, time and encoding/csv.
pub record Printer (F : Type 0) : Type 0 where
  pub float_text : F → String
  pub date_text : ℕ → String
  pub csv_text : List (List String) → String

abbrev due_text : {F : Type 0} → Printer F → Option ℕ → String
due_text pr none = ""
due_text pr (some due) = pr.date_text due

abbrev columns : List String
columns =
    "risk_score" ∷ "severity" ∷ "known_exploit" ∷ "epss" ∷ "status" ∷ "scanner" ∷ "title" ∷ "cwe"
    ∷ "cve" ∷ "cvss" ∷ "cvss_vector" ∷ "port" ∷ "service" ∷ "due_date" ∷ "sla_breached" ∷ "iso27001"
    ∷ "bssn" ∷ "remediation" ∷ []

-- The row of a finding.
unfoldable pub csv_row : {F : Type 0} → Printer F → Finding F → List String
unfolding framework_control remediation_summary decimal
csv_row pr f =
    pr.float_text f.risk_score
    ∷ severity_text f.severity
    ∷ bool_text f.known_exploit
    ∷ pr.float_text f.epss
    ∷ status_text f.status
    ∷ type_text f.scanner
    ∷ f.title
    ∷ f.cwe
    ∷ f.cve
    ∷ pr.float_text f.cvss
    ∷ f.cvss_vector
    ∷ decimal f.port
    ∷ f.service
    ∷ due_text pr f.due_date
    ∷ bool_text f.sla_breached
    ∷ framework_control f.compliance "ISO27001"
    ∷ framework_control f.compliance "BSSN"
    ∷ remediation_summary f.remediation
    ∷ []

module _ (fl : Float64) {G : Type 0} (c : Codec fl.Carrier) (b : Backing fl.Carrier) (h : Hours)
    (feed : Feed fl.Carrier) (now : ℕ) (pr : Printer fl.Carrier) where
  abbrev exported :
      Writer
      → Result (List (Finding fl.Carrier)) × Tables fl.Carrier
      → Backend fl.Carrier G
      → Writer × Backend fl.Carrier G
  exported w (err e, db) s = (store_error c w e, record s { tables = db })
  exported w (done fs, db) s =
      let typed = set_header w "Content-Type" "text/csv; charset=utf-8" in
      let named =
        set_header typed "Content-Disposition" "attachment; filename=\"amankan-findings.csv\"" in
      let rows = map (csv_row pr) (enrich_runtime fl h feed now fs) in
      (write_body named (pr.csv_text (columns ∷ rows)), record s { tables = db })

  -- exportFindings
  unfoldable pub export_findings : Handler (Backend fl.Carrier G)
  unfolding list_findings enrich_runtime csv_row write_json set_header write_body
  export_findings w r s =
      exported w
        (list_findings b.server (r.query "asset_id") (r.query "scan_id") (pos 0) (pos 0) s.tables) s
