-- ===== src/Api/Findings.antt =====
-- internal/api/api.go: the handlers of findings, of the compliance mapping, and, from
-- internal/api/audit.go, of the audit log.
use amankan.Prelude.{
  ℕ, String, Bool, true, false, not, Option, none, some, List, [], ◌∷◌, map, ◌==◌, if◌then◌else◌,
  length,
}
use amankan.Prelude.Int.{ℤ, pos}
use amankan.Strconv.{atoi}
use amankan.Float64.{Float64}
use amankan.Models.{Finding, FindingStatus, other_status, ComplianceRef, RemediationGuide}
use amankan.Sla.{Hours, due_date, breached, days_remaining}
use amankan.Risk.{representative_vector}
use amankan.ThreatIntel.{Feed, epss}
use amankan.Compliance.{refs, remediation}
use amankan.Audit.{Platform, verify_chain}
use amankan.Audit.Log.{AuditLog, list_audit, all_audit_for_verify}
use amankan.Http.{Writer, Handler}
use amankan.Store.{Tables, Error, Result, done, err, list_findings, update_finding_status}
use amankan.Api.{page_params}
use amankan.Api.Service.{
  Backend, Codec, Backing, Decoded, bad, input, findings_reply, status_reply, controls_reply,
  entries_reply, intact_reply, write_json, bad_request, store_error, server_error,
  not_found_or_error,
}

-- frameworkControl
unfoldable pub framework_control : List ComplianceRef → String → String
framework_control [] framework = ""
framework_control (r ∷ rs) framework =
    let rest = framework_control rs framework in
    if r.framework == framework then r.control else rest

-- remediationSummary
unfoldable pub remediation_summary : Option RemediationGuide → String
remediation_summary none = ""
remediation_summary (some rem) = rem.summary

-- The statuses that updateFindingStatus accepts.
abbrev pub is_valid_status : FindingStatus → Bool
is_valid_status (other_status s) = false
is_valid_status s = true

module _ (fl : Float64) (h : Hours) (feed : Feed fl.Carrier) (now : ℕ) where
  -- The body of the loop of enrichRuntime.
  abbrev pub decorated : Finding fl.Carrier → Finding fl.Carrier
  decorated f = record f {
    epss = epss fl feed f.cve;
    cvss_vector = if f.cvss_vector == "" then representative_vector f.cwe else f.cvss_vector;
    due_date = some (due_date f.severity f.created_at);
    sla_breached = breached f.status f.severity f.created_at now;
    sla_days_left = days_remaining h f.severity f.created_at now;
  }

  -- enrichRuntime
  unfoldable pub enrich_runtime : List (Finding fl.Carrier) → List (Finding fl.Carrier)
  unfolding due_date breached days_remaining representative_vector epss
  enrich_runtime fs = map decorated fs

module _ (fl : Float64) {G : Type 0} (c : Codec fl.Carrier) (b : Backing fl.Carrier) (h : Hours)
    (feed : Feed fl.Carrier) (now : ℕ) where
  abbrev pub found :
      Writer
      → Result (List (Finding fl.Carrier)) × Tables fl.Carrier
      → Backend fl.Carrier G
      → Writer × Backend fl.Carrier G
  found w (err e, db) s = (store_error c w e, record s { tables = db })
  found w (done fs, db) s = (
    write_json c w 200 (findings_reply (enrich_runtime fl h feed now fs)),
    record s { tables = db },
  )

  -- listFindings
  unfoldable pub handle_list_findings : Handler (Backend fl.Carrier G)
  unfolding list_findings page_params enrich_runtime write_json
  handle_list_findings w r s =
      let (limit, offset) = page_params r in
      found w
        (list_findings b.server (r.query "asset_id") (r.query "scan_id") (pos limit) (pos offset)
          s.tables)
        s

  abbrev updated :
      Writer
      → FindingStatus
      → Option Error × Tables fl.Carrier
      → Backend fl.Carrier G
      → Writer × Backend fl.Carrier G
  updated w status (some e, db) s = (not_found_or_error c w e, record s { tables = db })
  updated w status (none, db) s =
      (write_json c w 200 (status_reply status), record s { tables = db })

  abbrev pub update_from :
      Writer → String → Decoded FindingStatus → Backend fl.Carrier G → Writer × Backend fl.Carrier G
  update_from w id (bad e) s = (bad_request c w e, s)
  update_from w id (input status) s =
      if not (is_valid_status status)
      then (bad_request c w "invalid status", s)
      else updated w status (update_finding_status b.server id status s.tables) s

  -- updateFindingStatus
  unfoldable pub handle_update_finding_status : Handler (Backend fl.Carrier G)
  unfolding update_finding_status write_json not_found_or_error
  handle_update_finding_status w r s = update_from w (r.url_param "id") (c.status r) s

-- complianceForCWE
unfoldable pub compliance_for_cwe : {F S : Type 0} → Codec F → Handler S
unfolding refs remediation write_json
compliance_for_cwe c w r s =
    let cwe = r.url_param "cwe" in
    (write_json c w 200 (controls_reply cwe (refs cwe) (remediation cwe)), s)

-- The number of a query parameter, or the default.
abbrev number_or : ℤ → Option ℤ → ℤ
number_or def none = def
number_or def (some n) = n

-- listAudit, with the error of the query if it fails
unfoldable pub handle_list_audit : {F : Type 0} → Codec F → Option String → Handler AuditLog
unfolding list_audit atoi write_json
handle_list_audit c (some e) w r log = (server_error c w e, log)
handle_list_audit c none w r log =
    let v = r.query "limit" in
    let limit = if not (v == "") then number_or (pos 200) (atoi v) else pos 200 in
    (write_json c w 200 (entries_reply (list_audit limit log)), log)

-- verifyAudit, with the error of the query if it fails
unfoldable pub verify_audit : {F : Type 0} → Codec F → Platform → Option String → Handler AuditLog
unfolding verify_chain all_audit_for_verify write_json
verify_audit c p (some e) w r log = (server_error c w e, log)
verify_audit c p none w r log =
    let entries = all_audit_for_verify log in
    let (ok, broken_at) = verify_chain p entries in
    (
      write_json c w 200 (intact_reply ok (length entries) (if ok then none else some broken_at)),
      log,
    )
