-- ===== src/Normalize/Parsers.antt =====
-- internal/normalize/normalize.go: the parsers of the four formats, from decoded documents.
use Prim.Native.String.{◌++◌ as append}
use amankan.Prelude.{String, Option, none, some, List, [], ◌∷◌, ◌++◌, map, ◌==◌, if◌then◌else◌}
use amankan.Prelude.Int.{pos}
use amankan.Strings.{to_lower, trim_space, split, join}
use amankan.Float64.{Float64}
use amankan.Models.{Severity, info, medium, high, Finding}
use amankan.Scanner.{CryptoReport, Credential}
use amankan.Normalize.{
  NmapPort, NucleiLine, decimal, concat, parse_severity, severity_from_cvss, sensitive_services,
  service_cvss, blank,
}

module _ (fl : Float64) where
  -- The base score of a service, 0 for one that is not sensitive, and its severity.
  abbrev pub port_score : Option fl.Carrier → fl.Carrier × Severity
  port_score none = (fl.dec 0 0, info)
  port_score (some cvss) = (cvss, severity_from_cvss fl cvss)

  unfoldable pub nmap_finding : NmapPort → Finding fl.Carrier
  unfolding to_lower service_cvss decimal concat severity_from_cvss
  nmap_finding p =
      let svc = to_lower p.service in
      let (cvss, sev) = port_score (service_cvss fl (sensitive_services fl) svc) in
      let number = decimal p.port_id in
      record (blank fl) {
        title = concat ("Open port " ∷ number ∷ "/" ∷ p.protocol ∷ " (" ∷ svc ∷ ")" ∷ []);
        desc =
            concat ("Service " ∷ p.product ∷ " " ∷ p.version ∷ " exposed on port " ∷ number ∷ []);
        severity = sev;
        cvss = cvss;
        cwe = "CWE-1327";
        port = p.port_id;
        service = svc;
        evidence = concat (p.product ∷ " " ∷ p.version ∷ " on " ∷ number ∷ "/" ∷ p.protocol ∷ []);
      }

  unfoldable pub nmap_ports : List NmapPort → List (Finding fl.Carrier)
  unfolding nmap_finding
  nmap_ports [] = []
  nmap_ports (p ∷ ps) =
      let rest = nmap_ports ps in if p.state == "open" then nmap_finding p ∷ rest else rest

  unfoldable pub nmap_hosts : List (List NmapPort) → List (Finding fl.Carrier)
  unfolding nmap_ports
  nmap_hosts [] = []
  nmap_hosts (h ∷ hs) = nmap_ports h ++ nmap_hosts hs

  -- parseNmap, of a decoded document
  unfoldable pub parse_nmap : Option (List (List NmapPort)) → Option (List (Finding fl.Carrier))
  unfolding nmap_hosts
  parse_nmap none = none
  parse_nmap (some hosts) = some (nmap_hosts hosts)

  abbrev first_or_blank : List String → String
  first_or_blank [] = ""
  first_or_blank (s ∷ ss) = s

  unfoldable pub nuclei_finding : NucleiLine → Finding fl.Carrier
  unfolding parse_severity join concat
  nuclei_finding n = record (blank fl) {
    title = n.name;
    desc = concat ("Template " ∷ n.template_id ∷ " matched at " ∷ n.matched_at ∷ []);
    severity = parse_severity n.severity;
    cve = join "," n.cves;
    cwe = first_or_blank n.cwes;
    evidence = n.matched_at;
  }

  abbrev add_nuclei : Option NucleiLine → List (Finding fl.Carrier) → List (Finding fl.Carrier)
  add_nuclei none rest = rest
  add_nuclei (some n) rest = nuclei_finding n ∷ rest

  -- The loop of parseNuclei: blank lines and lines that cannot be decoded are skipped.
  unfoldable pub nuclei_lines :
      (String → Option NucleiLine) → List String → List (Finding fl.Carrier)
  unfolding nuclei_finding trim_space
  nuclei_lines decode [] = []
  nuclei_lines decode (l ∷ ls) =
      let rest = nuclei_lines decode ls in
      let line = trim_space l in if line == "" then rest else add_nuclei (decode line) rest

  unfoldable pub parse_nuclei : (String → Option NucleiLine) → String → List (Finding fl.Carrier)
  unfolding nuclei_lines split trim_space
  parse_nuclei decode text = nuclei_lines decode (split 10 (trim_space text))

  abbrev pub weak_tls_finding : CryptoReport → Finding fl.Carrier
  weak_tls_finding rep = record (blank fl) {
    title = append "Weak TLS protocol version (TLS " (append rep.tls_version ")");
    desc = append "Endpoint negotiates TLS < 1.2, below BSSN/NIST minimums. " rep.note;
    severity = high;
    cvss = fl.dec 74 1;
    cwe = "CWE-327";
    service = "https";
    port = pos 443;
    evidence = rep.note;
  }

  abbrev pub weak_rsa_finding : CryptoReport → Finding fl.Carrier
  weak_rsa_finding rep = record (blank fl) {
    title = "Weak RSA key length (< 2048-bit)";
    desc = "Certificate uses an RSA key below the 2048-bit national crypto standard.";
    severity = medium;
    cvss = fl.dec 59 1;
    cwe = "CWE-327";
    service = "https";
    port = pos 443;
    evidence = rep.note;
  }

  -- parseCrypto
  unfoldable pub parse_crypto : Option CryptoReport → Option (List (Finding fl.Carrier))
  parse_crypto none = none
  parse_crypto (some rep) = some (
      (if rep.weak_tls then weak_tls_finding rep ∷ [] else [])
      ++ (if rep.weak_rsa then weak_rsa_finding rep ∷ [] else []))

  unfoldable pub secret_finding : (String → String) → Credential → Finding fl.Carrier
  unfolding concat
  secret_finding quoted c = record (blank fl) {
    title = append "Hard-coded credential for " (quoted c.principal);
    desc = concat (
        c.kind ∷ " credential found at " ∷ c.location ∷ " (fingerprint " ∷ c.fingerprint ∷ ")"
        ∷ []);
    severity = high;
    cvss = fl.dec 82 1;
    cwe = "CWE-798";
    evidence = c.location;
    principal = c.principal;
    cred_fp = c.fingerprint;
  }

  -- parseSecrets
  unfoldable pub parse_secrets :
      (String → String) → Option (List Credential) → Option (List (Finding fl.Carrier))
  unfolding secret_finding
  parse_secrets quoted none = none
  parse_secrets quoted (some cs) = some (map (secret_finding quoted) cs)
