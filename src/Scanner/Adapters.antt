-- ===== src/Scanner/Adapters.antt =====
-- internal/scanner/: the gate before real scanning and the four adapters in a world. A scan gives the
-- list of what it did there next to its result.
use Prim.Native.String.{◌++◌ as append}
use amankan.Prelude.{
  ℕ, String, Bool, true, false, not, ◌&&◌, ◌||◌, Option, none, some, List, [], ◌∷◌, map, ◌==◌, ltb,
  eqb, if◌then◌else◌,
}
use amankan.Strings.{trim_prefix}
use amankan.Models.{Asset, ScannerType, nmap, nuclei, crypto, secrets}
use amankan.Scanner.{
  RawResult, Options, CryptoReport, Exit, World, Action, ScanResult, before_any, strip_scheme,
  tls_version_string, mock_nmap_xml, mock_nuclei_jsonl, mock_secrets_json, fallback, credential_of,
  is_repo, clean, exit_code, not_run, ran, dialed, scanned, failed_scan,
}

module _ (world : World) where
  abbrev any_safe : List world.Ip → Bool
  any_safe [] = false
  any_safe (ip ∷ ips) = world.is_loopback ip || world.is_private ip || any_safe ips

  abbrev resolved : String → Option (List world.Ip) → Bool
  resolved host (some ips) = any_safe ips
  resolved host none = elim (world.parse_ip host) as (λ _. Bool) [
    | none ↦ false
    | some ip ↦ any_safe (ip ∷ [])
  ]

  -- isSafeTarget
  unfoldable pub is_safe_target : String → Bool
  unfolding trim_prefix before_any
  is_safe_target target =
      let host = before_any (trim_prefix (trim_prefix target "http://") "https://") in
      if host == "localhost" then true else resolved host (world.resolve host)

  -- liveAllowed
  unfoldable pub live_allowed : Options → Asset → Bool
  unfolding is_safe_target
  live_allowed o asset =
      if not o.allow_live_scan
      then false
      else if o.scan_authorized || asset.scan_authorized
      then true
      else is_safe_target asset.target

  abbrev pub blank : ScannerType → String → RawResult
  blank sc format = record { scanner = sc; format = format; content = ""; mock = false }

  abbrev did_run : Exit → Bool
  did_run clean = true
  did_run _ = false

  -- The result of a run of nmap: an error or no output is a failure in production and mock output
  -- otherwise.
  unfoldable pub nmap_result : Options → String → String × Exit → ScanResult
  unfolding mock_nmap_xml
  nmap_result o target (out, end) =
      let res = blank nmap "nmap-xml" in
      if not (did_run end) || out == ""
      then (if o.production
          then failed_scan
          else scanned (record res { content = mock_nmap_xml target; mock = true }))
      else scanned (record res { content = out })

  -- The run of a tool: where its binary is missing or the run is not permitted, `otherwise`.
  abbrev pub tool_scan :
      Option String
      → Bool
      → ScanResult
      → List String
      → (String × Exit → ScanResult)
      → List Action × ScanResult
  tool_scan none permitted otherwise args result = ([], otherwise)
  tool_scan (some bin) permitted otherwise args result =
      if not permitted then ([], otherwise) else (ran bin args ∷ [], result (world.run bin args))

  abbrev pub nmap_args : String → List String
  nmap_args target = "-sV" ∷ "-T4" ∷ "--top-ports" ∷ "100" ∷ "-oX" ∷ "-" ∷ target ∷ []

  unfoldable pub scan_nmap : Options → Asset → List Action × ScanResult
  unfolding live_allowed fallback nmap_result mock_nmap_xml
  scan_nmap o asset =
      tool_scan (world.look_path o.nmap_bin) (live_allowed o asset)
        (fallback o (blank nmap "nmap-xml") (mock_nmap_xml asset.target)) (nmap_args asset.target)
        (nmap_result o asset.target)

  -- A run of nuclei without output is a clean result in production.
  unfoldable pub nuclei_result : Options → String → String × Exit → ScanResult
  unfolding mock_nuclei_jsonl
  nuclei_result o target (out, end) =
      let res = blank nuclei "nuclei-jsonl" in
      if not (did_run end) || out == ""
      then (if not (did_run end) && o.production
          then failed_scan
          else if o.production
          then scanned (record res { content = "" })
          else scanned (record res { content = mock_nuclei_jsonl target; mock = true }))
      else scanned (record res { content = out })

  abbrev pub nuclei_args : String → List String
  nuclei_args target = "-jsonl" ∷ "-silent" ∷ "-u" ∷ target ∷ []

  unfoldable pub scan_nuclei : Options → Asset → List Action × ScanResult
  unfolding live_allowed fallback nuclei_result mock_nuclei_jsonl
  scan_nuclei o asset =
      tool_scan (world.look_path o.nuclei_bin) (live_allowed o asset)
        (fallback o (blank nuclei "nuclei-jsonl") (mock_nuclei_jsonl asset.target))
        (nuclei_args asset.target) (nuclei_result o asset.target)

  -- probeTLS
  unfoldable pub report_of : String → ℕ × ℕ → CryptoReport
  unfolding tls_version_string
  report_of target (version, cipher) =
      let ver = tls_version_string version in
      record {
        target = target;
        tls_version = ver;
        weak_tls = ltb version 0x303;
        weak_rsa = false;
        note =
            append "live handshake negotiated TLS "
              (append ver (append ", cipher 0x" (world.hex4 cipher)));
      }

  unfoldable pub probe_tls : String → Option CryptoReport
  unfolding report_of strip_scheme
  probe_tls target = elim (world.handshake (append (strip_scheme target) ":443")) [
    | none ↦ none
    | some state ↦ some (report_of target state)
  ]

  abbrev pub mock_crypto : String → RawResult
  mock_crypto target = record (blank crypto "crypto-json") {
    content = world.encode_report (record {
      target = target;
      tls_version = "1.0";
      weak_tls = true;
      weak_rsa = true;
      note = "mock crypto audit: TLS 1.0 and RSA-1024 detected";
    });
    mock = true;
  }

  unfoldable pub scan_crypto : Options → Asset → List Action × ScanResult
  unfolding live_allowed probe_tls strip_scheme
  scan_crypto o asset =
      let mock = if o.production then failed_scan else scanned (mock_crypto asset.target) in
      if live_allowed o asset
      then (
        dialed (append (strip_scheme asset.target) ":443") ∷ [],
        elim (probe_tls asset.target) [
          | some rep ↦
              scanned (record (blank crypto "crypto-json") { content = world.encode_report rep })
          | none ↦ mock
        ],
      )
      else ([], mock)

  -- convertGitleaks; a report that is empty or cannot be decoded has no findings.
  unfoldable pub convert_gitleaks : String → String
  unfolding credential_of
  convert_gitleaks raw =
      world.encode_credentials
        (map credential_of (if raw == "" then [] else world.decode_gitleaks raw))

  abbrev leaks_reported : Exit → Bool
  leaks_reported clean = true
  leaks_reported (exit_code n) = eqb n 1
  leaks_reported not_run = false

  unfoldable pub secrets_result : Options → String × Exit → ScanResult
  unfolding fallback convert_gitleaks
  secrets_result o (out, end) =
      let res = blank secrets "secrets-json" in
      if not (leaks_reported end)
      then (if o.production then failed_scan else fallback o res mock_secrets_json)
      else scanned (record res { content = convert_gitleaks out })

  abbrev pub secrets_args : String → List String
  secrets_args target =
      "detect" ∷ "--source" ∷ target ∷ "--no-banner" ∷ "--exit-code" ∷ "1" ∷ "--report-format"
      ∷ "json" ∷ "--report-path" ∷ "/dev/stdout" ∷ []

  unfoldable pub scan_secrets : Options → Asset → List Action × ScanResult
  unfolding fallback secrets_result
  scan_secrets o asset =
      let res = blank secrets "secrets-json" in
      if not (is_repo asset.asset_type)
      then ([], scanned (record res { content = "{\"credentials\":[]}" }))
      else tool_scan (world.look_path (if o.gitleaks_bin == "" then "gitleaks" else o.gitleaks_bin))
          true (fallback o res mock_secrets_json) (secrets_args asset.target) (secrets_result o)

  -- Scan of the adapter of each type
  unfoldable pub scan : ScannerType → Options → Asset → List Action × ScanResult
  unfolding scan_nmap scan_nuclei scan_crypto scan_secrets
  scan nmap o asset = scan_nmap o asset
  scan nuclei o asset = scan_nuclei o asset
  scan crypto o asset = scan_crypto o asset
  scan secrets o asset = scan_secrets o asset
