-- ===== src/Engine/Tests.antt =====
-- Jobs on a host in a world where nmap reports one open port and nuclei fails.
use Prim.Native.String.{◌++◌ as append}
use amankan.Prelude.{
  ℕ, ◌+◌, ◌*◌, String, ◌≡◌, refl, Bool, true, false, none, some, List, [], ◌∷◌, ◌==◌, eqb,
  if◌then◌else◌, All,
}
use amankan.Prelude.Int.{pos}
use amankan.Strconv.{itoa}
use amankan.Float64.Hundredths.{hundredths, hundredths_laws}
use amankan.Models.{
  ScanStatus, Asset, ip, crit_high, ScanJob, quick, web, queued, completed, failed,
}
use amankan.Config.{Config, is_production}
use amankan.ThreatIntel.{default_kev}
use amankan.Scanner.{World, clean, exit_code}
use amankan.Normalize.{Decoders, NmapPort}
use amankan.Store.{find_row, get_scan_job, get_asset, mark_running, mark_failed, list_assets}
use amankan.Scanner.Adapters.{scan}
use amankan.Scanner.{for_profile}
use amankan.Store.Jobs.{IsDone}
use amankan.Engine.{GraphOps, Processor, System, processor_options}
use amankan.Engine.Process.{process, handle}
use amankan.Engine.Worker.{turns, handle_all}
use amankan.Engine.Drain.{turns-IsDone}
use amankan.Engine.Production.{production-process}

abbrev world : World
world = record {
  Ip = ℕ;
  resolve = λ host. none;
  parse_ip = λ text. if text == "10.0.0.5" then some 10 else none;
  is_loopback = λ addr. eqb addr 127;
  is_private = λ addr. eqb addr 10;
  look_path = λ bin. if bin == "" then none else some bin;
  run = λ bin args. if bin == "nmap" then ("xml", clean) else ("", exit_code 1);
  handshake = λ host. none;
  hex4 = λ n. "0005";
  encode_report = λ r. r.note;
  decode_gitleaks = λ text. [];
  encode_credentials = λ cs. "";
}

abbrev ssh : NmapPort
ssh = record {
  protocol = "tcp";
  port_id = pos 22;
  state = "open";
  service = "ssh";
  product = "OpenSSH";
  version = "7.4";
}

abbrev decoders : Decoders
decoders = record {
  nmap_run = λ text. if text == "xml" then some ((ssh ∷ []) ∷ []) else none;
  nuclei_line = λ _. none;
  crypto_report = λ _. none;
  secrets_report = λ _. none;
  quoted = λ t. t;
}

abbrev config : Config ℕ
config = record {
  env = "Production";
  http_addr = ":8080";
  database_url = "";
  redis_addr = "";
  redis_password = "";
  queue_key = "scans";
  nmap_bin = "nmap";
  nuclei_bin = "nuclei";
  gitleaks_bin = "";
  scan_timeout = pos 0;
  allow_live_scan = true;
  scan_authorized = false;
  neo4j_uri = "";
  neo4j_user = "";
  neo4j_pass = "";
  api_keys = "";
  cors_origins = [];
  rate_limit = 0;
  tls_cert = "";
  tls_key = "";
  oidc_issuer = "";
  oidc_audience = "";
  kev_feed_path = "";
  epss_feed_path = "";
  threat_intel_fetch = false;
  kev_feed_url = "";
  epss_feed_url = "";
}

-- A graph that counts the calls.
abbrev counting : GraphOps ℕ ℕ
counting = record {
  sync_asset = λ a n. n + 1;
  sync_finding = λ f n. n + 1;
  auto_derive_escalation = λ a cwe technique risk n. n + 1;
  auto_derive_credential_reuse = λ a principal fp technique risk n. n + 1;
  upsert_reachability = λ src dst port proto n. n + 1;
}

abbrev processor : Processor hundredths world ℕ
processor = record {
  server = record {
    down = λ n. none;
    now = λ n. 1000 * n;
    uuid = λ n. append "u" (itoa n);
    stored_ts = λ t. t;
    duplicate_key = "duplicate key";
    negative_offset = "negative";
    newest_assets = λ rows. rows;
    newest_jobs = λ rows. rows;
    worst_findings = λ rows. rows;
  };
  graph = counting;
  opts = processor_options config;
  decoders = decoders;
  feed = record { kev = default_kev; epss = [] };
  to4 = λ addr. some (10, 0, 0, 5);
  scan_error = λ sc asset. "exit status 1";
}

abbrev asset : Asset
asset = record {
  id = "a1";
  name = "host";
  asset_type = ip;
  target = "10.0.0.5";
  criticality = crit_high;
  tags = [];
  scan_authorized = true;
  created_at = 0;
}

abbrev job : ScanJob
job = record {
  id = "j1";
  asset_id = "a1";
  profile = quick;
  scanners = [];
  status = queued;
  error = "";
  used_mock = false;
  created_at = 0;
  started_at = none;
  finished_at = none;
}

abbrev system : System ℕ ℕ
system = record {
  tables = record {
    assets = asset ∷ [];
    jobs = job ∷ record job { id = "j2"; profile = web } ∷ [];
    findings = [];
    calls = 0;
  };
  graph = some 0;
}

in_production : is_production config ≡ true
unfolding is_production
in_production = refl

production-process_example :
    (row : ScanJob) × (find_row ScanJob.id "j1"
        (process hundredths world processor "j1" system).1.tables.jobs
      ≡ some row)
    × (row.status ≡ completed → row.used_mock ≡ false)
production-process_example =
    production-process hundredths world processor (λ n. refl) hundredths_laws config job asset
      system refl in_production refl refl

-- "j2" was pushed last.
abbrev list : List String
list = "j2" ∷ "j1" ∷ []

turns-IsDone_example :
    (turns hundredths world processor 2 (list, system)
      ≡ ([], handle_all hundredths world processor ("j1" ∷ "j2" ∷ []) system))
    × All (IsDone (turns hundredths world processor 2 (list, system)).1.tables) ("j1" ∷ "j2" ∷ [])
turns-IsDone_example =
    turns-IsDone hundredths world processor (λ n. refl) hundredths_laws list system
      (
        ((λ e. cc e), (job, asset, refl, refl)),
        (((λ e. cc e), (record job { id = "j2"; profile = web }, asset, refl, refl)), tt),
      )

abbrev ends : List ScanJob → List (ScanStatus × String × Bool)
ends [] = []
ends (j ∷ js) = (j.status, j.error, j.used_mock) ∷ ends js

-- The scanner of the second job fails, so the job does.
failed_job :
    ends (handle hundredths world processor "j2" system).tables.jobs
    ≡ (queued, "", false) ∷ (failed, "all scanners failed: nuclei: exit status 1", false) ∷ []
unfolding handle scan is_production processor_options for_profile itoa get_scan_job get_asset
    mark_running mark_failed list_assets
failed_job = refl
