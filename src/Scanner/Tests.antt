-- ===== src/Scanner/Tests.antt =====
-- Scans in a world where the tools are installed and one host is local.
use amankan.Prelude.{ℕ, ◌≡◌, refl, ◌≢◌, true, false, none, some, [], ◌∷◌, ◌==◌, eqb, if◌then◌else◌}
use amankan.Models.{Asset, domain, crit_medium, nmap, nuclei}
use amankan.Scanner.{Options, World, clean, strip_scheme, escape_attr}
use amankan.Scanner.Adapters.{scan, live_allowed}
use amankan.Scanner.Laws.{
  IsReal, IsScanned, production_never_mocks, network_scan_allowed, development_never_fails,
}

scanner : Unit {0}
unfolding scan live_allowed strip_scheme escape_attr
scanner = tt

abbrev world : World
world = record {
  Ip = ℕ;
  resolve = λ host. if host == "intranet" then some (8 ∷ 10 ∷ []) else none;
  parse_ip = λ _. none;
  is_loopback = λ ip. eqb ip 127;
  is_private = λ ip. eqb ip 10;
  look_path = λ bin. if bin == "" then none else some bin;
  run = λ bin args. ("", clean);
  handshake = λ host. some (0x302, 5);
  hex4 = λ n. "0005";
  encode_report = λ r. r.note;
  decode_gitleaks = λ text. [];
  encode_credentials = λ cs. "";
}

abbrev options : Options
options = record {
  nmap_bin = "nmap";
  nuclei_bin = "nuclei";
  gitleaks_bin = "";
  allow_live_scan = true;
  production = true;
  scan_authorized = false;
}

abbrev asset : Asset
asset = record {
  id = "a1";
  name = "intranet";
  asset_type = domain;
  target = "https://intranet:8443/login";
  criticality = crit_medium;
  tags = [];
  scan_authorized = false;
  created_at = 0;
}

host_of_target : strip_scheme asset.target ≡ "intranet"
unfolding scanner
host_of_target = refl

-- One private address is enough for a host with a public one.
mixed_host_allowed : live_allowed world options asset ≡ true
unfolding scanner
mixed_host_allowed = refl

production_never_mocks_example :
    IsReal world nuclei asset
      (scan world nuclei options asset).0
      (scan world nuclei options asset).1
production_never_mocks_example = production_never_mocks world options nuclei asset refl

acts : (scan world nmap options asset).0 ≢ []
unfolding scanner
acts e = cc e

network_scan_allowed_example : live_allowed world options asset ≡ true
network_scan_allowed_example = network_scan_allowed world options nmap asset (λ e. cc e) acts

development_never_fails_sample :
    IsScanned (scan world nmap (record options { production = false }) asset).1
development_never_fails_sample =
    development_never_fails world (record options { production = false }) nmap asset refl
