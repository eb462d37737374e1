-- ===== src/Api/ServiceTests.antt =====
-- A scan that is started, and requests that are counted.
use amankan.Prelude.{
  ℕ, ◌+◌, ◌*◌, ◌≤◌, ◌≡◌, refl, ◌≢◌, ◌↔◌, true, false, none, some, [], ◌∷◌, ◌==◌, eqb, if◌then◌else◌,
}
use amankan.Models.{Asset, ip, crit_high, web, open_finding, nmap}
use amankan.Http.{Request, fresh_writer}
use amankan.Scanner.{World, Options, clean, strip_scheme}
use amankan.Scanner.Adapters.{scan, live_allowed, is_safe_target}
use amankan.Store.{find_row, set_asset_authorization}
use amankan.Api.Authorization.{authorize_asset-revokes}
use amankan.Api.Service.{Backend, Codec, Backing, input, bad}
use amankan.Api.Assets.{start_scan, authorize_asset}
use amankan.Api.Scans.{AllReady, start_scan-AllReady}
use amankan.Api.Metrics.{
  Traffic, Reach, start, later, arrives, enters, leaves, classified, quiet, status_class, classes,
  no_requests, metrics_balanced,
}

abbrev codec : Codec ℕ
codec = record {
  json = λ reply. "{}";
  asset_input = λ r. bad "EOF";
  authorized = λ r. input true;
  profile = λ r. web;
  status = λ r. input open_finding;
}

abbrev backing : Backing ℕ
backing = record {
  server = record {
    down = λ n. none;
    now = λ n. 1000 * n;
    uuid = λ n. "u1";
    stored_ts = λ t. t;
    duplicate_key = "duplicate key";
    negative_offset = "negative";
    newest_assets = λ rows. rows;
    newest_jobs = λ rows. rows;
    worst_findings = λ rows. rows;
  };
  redis_down = λ n. none;
}

abbrev request : Request
request = record {
  method = "POST";
  path = "/api/v1/assets/a1/scans";
  header = λ _. "";
  query = λ _. "";
  url_param = λ k. if k == "id" then "a1" else "";
  remote_addr = "10.0.0.1:4242";
  principal = none;
}

abbrev asset : Asset
asset = record {
  id = "a1";
  name = "host";
  asset_type = ip;
  target = "10.0.0.5";
  criticality = crit_high;
  tags = [];
  scan_authorized = true;
  created_at = 0;
}

abbrev backend : Backend ℕ Unit
backend = record {
  tables = record { assets = asset ∷ []; jobs = []; findings = []; calls = 0 };
  list = [];
  graph = none;
}

queued_once : (start_scan codec backing fresh_writer request backend).1.list ≡ "u1" ∷ []
unfolding start_scan
queued_once = refl

named : (n : ℕ) → backing.server.uuid n ≢ ""
named n e = cc e

start_scan-AllReady_example :
    AllReady codec backing named (start_scan codec backing fresh_writer request backend).1
start_scan-AllReady_example =
    start_scan-AllReady codec backing named fresh_writer request backend tt

-- One request has ended with 404, and one is in its handler.
abbrev busy : Traffic
busy = record {
  metrics = record no_requests { total = 2; s4xx = 1; in_flight = 1 };
  arriving = 0;
  inside = 1;
  leaving = 0;
}

reached : Reach quiet busy
unfolding status_class
reached =
    later
      (later (later (later (later (later start arrives) (enters 0 refl)) arrives) (leaves 0 refl))
        (enters 0 refl))
      (classified 0 404 refl)

metrics_balanced_example :
    (busy.metrics.in_flight ≡ busy.inside)
    × (classes busy.metrics ≤ busy.metrics.total)
    × (busy.arriving + busy.inside + busy.leaving ≡ 0 ↔ classes busy.metrics ≡ busy.metrics.total)
metrics_balanced_example = metrics_balanced busy reached

abbrev world : World
world = record {
  Ip = ℕ;
  resolve = λ host. if host == "10.0.0.5" then some (10 ∷ []) else none;
  parse_ip = λ text. none;
  is_loopback = λ addr. eqb addr 127;
  is_private = λ addr. eqb addr 10;
  look_path = λ bin. if bin == "" then none else some bin;
  run = λ bin args. ("", clean);
  handshake = λ host. none;
  hex4 = λ n. "0005";
  encode_report = λ r. r.note;
  decode_gitleaks = λ text. [];
  encode_credentials = λ cs. "";
}

abbrev options : Options
options = record {
  nmap_bin = "nmap";
  nuclei_bin = "nuclei";
  gitleaks_bin = "";
  allow_live_scan = true;
  production = true;
  scan_authorized = false;
}

abbrev revoking : Codec ℕ
revoking = record codec { authorized = λ r. input false }

abbrev revoked : Asset
revoked = record asset { scan_authorized = false }

stored :
    find_row Asset.id "a1"
      (authorize_asset revoking backing fresh_writer request backend).1.tables.assets
    ≡ some revoked
unfolding authorize_asset set_asset_authorization
stored = refl

acts : (scan world nmap options revoked).0 ≢ []
unfolding scan live_allowed strip_scheme
acts e = cc e

authorize_asset-revokes_example : is_safe_target world "10.0.0.5" ≡ true
authorize_asset-revokes_example =
    authorize_asset-revokes revoking backing world options nmap fresh_writer request backend revoked
      refl refl refl (λ e. cc e) stored acts
