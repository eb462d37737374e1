-- ===== src/Api/RouterTests.antt =====
-- A viewer that posts a scan.
use amankan.Prelude.{
  ℕ, suc, ◌*◌, ◌/◌, ◌^◌, ◌≡◌, refl, inl, inr, true, false, none, some, [], ◌∷◌, arith, ◌==◌,
  if◌then◌else◌, length,
}
use amankan.Strconv.{itoa}
use amankan.Sla.{Hours}
use amankan.Float64.Hundredths.{hundredths}
use amankan.Models.{Asset, ip, crit_high, web, open_finding}
use amankan.Http.{Request, fresh_writer}
use amankan.Auth.Roles.{viewer, analyst, Principal}
use amankan.Auth.{Authenticator, lookup, bearer}
use amankan.Audit.{Platform}
use amankan.Audit.Log.{empty_log, commits}
use amankan.Api.{route, serve}
use amankan.Api.Service.{Backend, Codec, Backing, bad, input}
use amankan.Api.Assets.{start_scan}
use amankan.Api.Router.{Surface}
use amankan.Api.Roles.{SameState, viewer_read_only}

abbrev platform : Platform
platform = record { format_ts = λ t. itoa t; sha256_hex = λ t. t; stored_ts = λ t. t }

abbrev codec : Codec ℕ
codec = record {
  json = λ reply. "{}";
  asset_input = λ r. bad "EOF";
  authorized = λ r. input true;
  profile = λ r. web;
  status = λ r. input open_finding;
}

abbrev backing : Backing ℕ
backing = record {
  server = record {
    down = λ n. none;
    now = λ n. 1000 * n;
    uuid = λ n. "u1";
    stored_ts = λ t. t;
    duplicate_key = "duplicate key";
    negative_offset = "negative";
    newest_assets = λ rows. rows;
    newest_jobs = λ rows. rows;
    worst_findings = λ rows. rows;
  };
  redis_down = λ n. none;
}

abbrev exact_days : Hours
exact_days = record {
  whole_days = λ n. n / (24 * 3600 * 10 ^ 9);
  mono = λ m n h. omega arith;
  exact = λ d h. omega arith;
}

-- The graph counts its changes.
abbrev surface : Surface hundredths ℕ
surface = record {
  codec = codec;
  backing = backing;
  hours = exact_days;
  feed = record { kev = []; epss = [] };
  now = 0;
  printer = record { float_text = itoa; date_text = itoa; csv_text = λ rows. "" };
  queries = record {
    accounts = λ g id. none;
    attack_paths = λ g id min_risk max_hops. none;
    priv_esc = λ g from to. none;
    nodes = λ g. none;
    edges = λ g. none;
    failure = "unavailable";
  };
  parse_float = λ s. none;
  calls = record {
    sync_asset = λ a g. (none, suc g);
    sync_finding = λ f g. (none, suc g);
    upsert_reachability = λ from to port proto g. (none, suc g);
    sync_account = λ a g. (none, suc g);
    upsert_escalation = λ from to technique cwe weight g. ((none, true), suc g);
    upsert_credential_reuse = λ from to weight g. ((none, true), suc g);
  };
  graph_codec = record {
    edges = λ r. bad "EOF";
    edge = λ r. bad "EOF";
    account = λ r. bad "EOF";
    escalation = λ r. bad "EOF";
    reuse = λ r. bad "EOF";
    quoted = λ s. s;
  };
  platform = platform;
  log = empty_log;
  log_error = none;
}

abbrev request : Request
request = record {
  method = "POST";
  path = "/api/v1/assets/a1/scans";
  header = λ k. if k == "Authorization" then "Bearer k1" else "";
  query = λ _. "";
  url_param = λ k. if k == "id" then "a1" else "";
  remote_addr = "10.0.0.1:4242";
  principal = none;
}

abbrev asset : Asset
asset = record {
  id = "a1";
  name = "host";
  asset_type = ip;
  target = "10.0.0.5";
  criticality = crit_high;
  tags = [];
  scan_authorized = false;
  created_at = 0;
}

abbrev site : Backend ℕ ℕ
site = record {
  tables = record { assets = asset ∷ []; jobs = []; findings = []; calls = 0 };
  list = [];
  graph = some 0;
}

abbrev ci : Principal
ci = record { id = "ci"; role = viewer }

abbrev keys : Authenticator
keys = record { keys = ("k1", ci) ∷ []; enabled = true }

known : lookup keys (bearer request) ≡ some ci
unfolding lookup bearer
known = refl

-- The same request of an analyst starts a scan.
scan_starts : length (start_scan codec backing fresh_writer request site).1.list ≡ 1
unfolding start_scan
scan_starts = refl

viewer_read_only_example :
    SameState site
      (serve platform commits 5 keys analyst
        (start_scan codec backing)
        fresh_writer
        request
        (empty_log, site)).1.1
viewer_read_only_example =
    viewer_read_only hundredths surface platform commits 5 keys
      (route analyst "POST" "/assets/{id}/scans") (start_scan codec backing) fresh_writer request
      empty_log site ci (inr (inr (inr (inr (inr (inr (inr (inr (inr (inr (inr (inl refl))))))))))))
      refl refl known (omega arith)
