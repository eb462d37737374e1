-- ===== src/Normalize/Tests.antt =====
-- The findings of a run of nmap with one open and one closed port.
use amankan.Prelude.{
  ℕ, String, ◌≡◌, refl, false, Option, none, some, List, [], ◌∷◌, map, ◌==◌, if◌then◌else◌, All,
}
use amankan.Prelude.Int.{pos}
use amankan.Float64.Hundredths.{hundredths, hundredths_laws}
use amankan.Models.{Asset, ip, crit_high, nmap, Finding}
use amankan.ThreatIntel.{Feed, default_kev}
use amankan.Scanner.{RawResult}
use amankan.Normalize.{Decoders, NmapPort}
use amankan.Normalize.Parsers.{parse_nmap}
use amankan.Normalize.Enrich.{normalize}
use amankan.Normalize.Controls.{IsMapped, normalize-IsMapped}
use amankan.Normalize.Laws.{IsEnriched, normalize-IsEnriched, all_open, parse_nmap_open}

normal : Unit {0}
unfolding normalize
normal = tt

abbrev ssh : NmapPort
ssh = record {
  protocol = "tcp";
  port_id = pos 22;
  state = "open";
  service = "SSH";
  product = "OpenSSH";
  version = "7.4";
}

abbrev hosts : List (List NmapPort)
hosts = (ssh ∷ record ssh { port_id = pos 80; state = "closed" } ∷ []) ∷ []

abbrev decoders : Decoders
decoders = record {
  nmap_run = λ text. if text == "xml" then some hosts else none;
  nuclei_line = λ _. none;
  crypto_report = λ _. none;
  secrets_report = λ _. none;
  quoted = λ t. t;
}

abbrev feed : Feed ℕ
feed = record { kev = default_kev; epss = [] }

abbrev raw : RawResult
raw = record { scanner = nmap; format = "nmap-xml"; content = "xml"; mock = false }

abbrev asset : Asset
asset = record {
  id = "a1";
  name = "host";
  asset_type = ip;
  target = "10.0.0.5";
  criticality = crit_high;
  tags = [];
  scan_authorized = false;
  created_at = 0;
}

titles : Option (List (Finding ℕ)) → List String
titles none = []
titles (some fs) = map (λ f. f.title) fs

one_finding :
    titles (normalize hundredths decoders feed raw asset "j1") ≡ "Open port 22/tcp (ssh)" ∷ []
unfolding normal titles
one_finding = refl

abbrev found : List (Finding ℕ)
found = elim (normalize hundredths decoders feed raw asset "j1") [ none ↦ [] | some fs ↦ fs ]

found_all : normalize hundredths decoders feed raw asset "j1" ≡ some found
unfolding normal
found_all = refl

normalize-IsEnriched_example : All (IsEnriched hundredths feed asset "j1" nmap) found
normalize-IsEnriched_example =
    normalize-IsEnriched hundredths hundredths_laws decoders feed raw asset "j1" found found_all

parse_nmap_open_example :
    (fs : List (Finding ℕ)) × (parse_nmap hundredths (some hosts) ≡ some fs)
    × (map (λ f. f.port) fs ≡ all_open hosts)
parse_nmap_open_example = parse_nmap_open hundredths hosts

normalize-IsMapped_example : All IsMapped found
normalize-IsMapped_example =
    normalize-IsMapped hundredths decoders feed raw asset "j1" found found_all
