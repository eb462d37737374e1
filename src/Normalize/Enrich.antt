-- ===== src/Normalize/Enrich.antt =====
-- internal/normalize/normalize.go: Normalize, which parses a raw result by its format and enriches
-- every finding.
use amankan.Prelude.{String, Bool, not, ◌&&◌, Option, none, some, List, map, ◌==◌, if◌then◌else◌}
use amankan.Float64.{Float64}
use amankan.Models.{Asset, ScannerType, Finding, open_finding}
use amankan.Compliance.{refs, remediation}
use amankan.ThreatIntel.{Feed}
use amankan.Risk.{score, severity_to_cvss}
use amankan.Scanner.{RawResult}
use amankan.Normalize.{Decoders}
use amankan.Normalize.Parsers.{parse_nmap, parse_nuclei, parse_crypto, parse_secrets}

module _ (fl : Float64) where
  -- The test for equality that the code makes with 0.
  abbrev pub is_zero : fl.Carrier → Bool
  is_zero x = not (fl.less x (fl.dec 0 0)) && not (fl.less (fl.dec 0 0) x)

  -- enrich
  unfoldable pub enrich :
      Feed fl.Carrier → Asset → String → ScannerType → Finding fl.Carrier → Finding fl.Carrier
  unfolding severity_to_cvss score refs remediation
  enrich feed asset scan_job_id sc f =
      let cvss = if is_zero f.cvss then severity_to_cvss fl f.severity else f.cvss in
      let (risk, known) = score fl feed cvss f.cve asset.criticality in
      let scored = record f {
        scan_job_id = scan_job_id;
        asset_id = asset.id;
        scanner = sc;
        status = open_finding;
        cvss = cvss;
        risk_score = risk;
        known_exploit = known;
      } in
      if not (f.cwe == "")
      then record scored { compliance = refs f.cwe; remediation = some (remediation f.cwe) }
      else scored

  -- The findings of a raw result by its format, before they are enriched.
  unfoldable pub parse : Decoders → RawResult → Option (List (Finding fl.Carrier))
  unfolding parse_nmap parse_nuclei parse_crypto parse_secrets
  parse d raw =
      if raw.format == "nmap-xml"
      then parse_nmap fl (d.nmap_run raw.content)
      else if raw.format == "nuclei-jsonl"
      then some (parse_nuclei fl d.nuclei_line raw.content)
      else if raw.format == "crypto-json"
      then parse_crypto fl (d.crypto_report raw.content)
      else if raw.format == "secrets-json"
      then parse_secrets fl d.quoted (d.secrets_report raw.content)
      else none

  abbrev pub enrich_all :
      Feed fl.Carrier
      → Asset
      → String
      → ScannerType
      → Option (List (Finding fl.Carrier))
      → Option (List (Finding fl.Carrier))
  enrich_all feed asset scan_job_id sc none = none
  enrich_all feed asset scan_job_id sc (some fs) = some (map (enrich feed asset scan_job_id sc) fs)

  -- Normalize
  unfoldable pub normalize :
      Decoders → Feed fl.Carrier → RawResult → Asset → String → Option (List (Finding fl.Carrier))
  unfolding parse enrich
  normalize d feed raw asset scan_job_id =
      enrich_all feed asset scan_job_id raw.scanner (parse d raw)
