-- ===== src/Scanner.antt =====
-- internal/scanner/: the options and results of the adapters, the profiles, the mock output and the
-- functions on texts. The tools, the resolver and the TLS dialer are a world outside of the code.
pub mod Adapters
pub mod Laws
mod Tests
use Prim.Native.String.{◌++◌ as append}
use amankan.Prelude.{
  ℕ, ◌+◌, ◌-◌, ◌/◌, ◌<◌, code, String, Bool, true, false, not, ◌&&◌, ◌||◌, Option, List, [], ◌∷◌,
  ◌++◌, ◌==◌, eqb, if◌then◌else◌,
}
use amankan.Strings.{trim_prefix, has_prefix}
use amankan.Strconv.{itoa}
use amankan.Models.{
  Asset, AssetType, repo, ScannerType, nmap, nuclei, crypto, secrets, ScanProfile, quick, web,
  critical_profile, other_profile,
}

pub record RawResult : Type 0 where
  pub scanner : ScannerType
  pub format : String
  pub content : String
  pub mock : Bool

pub record Options : Type 0 where
  pub nmap_bin : String
  pub nuclei_bin : String
  pub gitleaks_bin : String
  pub allow_live_scan : Bool
  pub production : Bool
  pub scan_authorized : Bool

pub record CryptoReport : Type 0 where
  pub target : String
  pub tls_version : String
  pub weak_tls : Bool
  pub weak_rsa : Bool
  pub note : String

pub record GitleaksFinding : Type 0 where
  pub rule_id : String
  pub description : String
  pub file : String
  pub start_line : ℕ
  pub fingerprint : String

pub record Credential : Type 0 where
  pub principal : String
  pub fingerprint : String
  pub kind : String
  pub location : String

-- How a run of a tool ended.
pub data Exit : Type 0 where
  clean : Exit
  exit_code : ℕ → Exit
  not_run : Exit

-- What the adapters ask of the world: `resolve` is net.LookupIP and `parse_ip` net.ParseIP;
-- `handshake` gives the TLS version and the cipher suite that were negotiated; `hex4` is %04x.
pub record World : Type 1 where
  pub Ip : Type 0
  pub resolve : String → Option (List Ip)
  pub parse_ip : String → Option Ip
  pub is_loopback : Ip → Bool
  pub is_private : Ip → Bool
  pub look_path : String → Option String
  pub run : String → List String → String × Exit
  pub handshake : String → Option (ℕ × ℕ)
  pub hex4 : ℕ → String
  pub encode_report : CryptoReport → String
  pub decode_gitleaks : String → List GitleaksFinding
  pub encode_credentials : List Credential → String

-- What a scan did in the world: it ran a tool, or it dialed a host.
pub data Action : Type 0 where
  ran : String → List String → Action
  dialed : String → Action

pub data ScanResult : Type 0 where
  scanned : RawResult → ScanResult
  failed_scan : ScanResult

-- The text before the first "/" or ":".
unfoldable pub before_any : String → String
before_any String.[] = String.[]
before_any (String.◌∷◌ c s) =
    if eqb (code c) b'/' || eqb (code c) b':' then String.[] else String.◌∷◌ c (before_any s)

-- stripScheme
unfoldable pub strip_prefix : String → String → String
unfolding trim_prefix has_prefix
strip_prefix s p = if has_prefix s p && not (s == p) then trim_prefix s p else s

unfoldable pub strip_scheme : String → String
unfolding before_any strip_prefix
strip_scheme s = before_any (strip_prefix (strip_prefix s "https://") "http://")

-- tlsVersionString
unfoldable pub tls_version_string : ℕ → String
tls_version_string v =
    if eqb v 0x301
    then "1.0"
    else if eqb v 0x302
    then "1.1"
    else if eqb v 0x303
    then "1.2"
    else if eqb v 0x304
    then "1.3"
    else "unknown"

-- escapeAttr drops the characters of markup.
unfoldable pub escape_attr : String → String
escape_attr String.[] = String.[]
escape_attr (String.◌∷◌ c s) =
    let rest = escape_attr s in
    if eqb (code c) b'"' || eqb (code c) b'<' || eqb (code c) b'>' || eqb (code c) b'&'
    then rest
    else String.◌∷◌ c rest

unfoldable pub mock_nmap_xml : String → String
unfolding escape_attr
mock_nmap_xml target =
    append
      "<?xml version=\"1.0\"?>\n<nmaprun scanner=\"nmap\" args=\"mock\">\n  <host>\n    <address addr=\""
      (append (escape_attr target) (
        "\" addrtype=\"ipv4\"/>\n    <ports>\n      <port protocol=\"tcp\" portid=\"22\">\n        <state state=\"open\"/>\n        <service name=\"ssh\" product=\"OpenSSH\" version=\"7.4\"/>\n      </port>\n      <port protocol=\"tcp\" portid=\"80\">\n        <state state=\"open\"/>\n        <service name=\"http\" product=\"Apache httpd\" version=\"2.4.29\"/>\n      </port>\n      <port protocol=\"tcp\" portid=\"443\">\n        <state state=\"open\"/>\n        <service name=\"https\" product=\"nginx\" version=\"1.14.0\" tunnel=\"ssl\"/>\n      </port>\n      <port protocol=\"tcp\" portid=\"3306\">\n        <state state=\"open\"/>\n        <service name=\"mysql\" product=\"MySQL\" version=\"5.7.31\"/>\n      </port>\n    </ports>\n  </host>\n</nmaprun>"))

unfoldable pub mock_nuclei_jsonl : String → String
unfolding escape_attr
mock_nuclei_jsonl target =
    append
      "{\"template-id\":\"git-config\",\"info\":{\"name\":\"Git Configuration Exposure\",\"severity\":\"medium\",\"classification\":{\"cve-id\":[],\"cwe-id\":[\"CWE-538\"]}},\"matched-at\":\"http://"
      (append (escape_attr target) (
        append
          "/.git/config\"}\n{\"template-id\":\"missing-csp\",\"info\":{\"name\":\"Missing Content-Security-Policy Header\",\"severity\":\"low\",\"classification\":{\"cve-id\":[],\"cwe-id\":[\"CWE-693\"]}},\"matched-at\":\"http://"
          (append (escape_attr target) (
            append
              "/\"}\n{\"template-id\":\"CVE-2021-44228\",\"info\":{\"name\":\"Apache Log4j RCE (Log4Shell)\",\"severity\":\"critical\",\"classification\":{\"cve-id\":[\"CVE-2021-44228\"],\"cwe-id\":[\"CWE-502\"]}},\"matched-at\":\"http://"
              (append (escape_attr target) (
                append
                  "/api\"}\n{\"template-id\":\"CVE-2021-4034\",\"info\":{\"name\":\"Polkit pkexec Local Privilege Escalation (PwnKit)\",\"severity\":\"high\",\"classification\":{\"cve-id\":[\"CVE-2021-4034\"],\"cwe-id\":[\"CWE-269\"]}},\"matched-at\":\""
                  (append (escape_attr target) ("\"}"))))))))

abbrev pub mock_secrets_json : String
mock_secrets_json =
    "{\"credentials\":[\n\t  {\"principal\":\"svc-deploy\",\"fingerprint\":\"sha256:9f86d0818884\",\"type\":\"service_account\",\"location\":\"/etc/app/deploy.yaml\"}\n\t]}"

-- ForProfile
unfoldable pub for_profile : ScanProfile → List ScannerType
for_profile quick = nmap ∷ []
for_profile web = nuclei ∷ []
for_profile critical_profile = nmap ∷ nuclei ∷ crypto ∷ secrets ∷ []
for_profile (other_profile _) = nmap ∷ []

-- fallback
unfoldable pub fallback : Options → RawResult → String → ScanResult
fallback o res mock_data =
    if o.production then failed_scan else scanned (record res { content = mock_data; mock = true })

-- The credential of one finding of gitleaks; the secret itself is not read.
unfoldable pub credential_of : GitleaksFinding → Credential
unfolding itoa
credential_of f =
    let line = itoa f.start_line in
    record {
      principal = f.rule_id;
      fingerprint =
          if f.fingerprint == ""
          then append f.rule_id (append ":" (append f.file (append ":" line)))
          else f.fingerprint;
      kind = f.description;
      location = append f.file (append ":" line);
    }

abbrev pub is_repo : AssetType → Bool
is_repo repo = true
is_repo _ = false
