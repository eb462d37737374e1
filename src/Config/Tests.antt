-- ===== src/Config/Tests.antt =====
-- A configuration for production, from an environment and written out.
use amankan.Prelude.{
  ℕ, String, ◌≡◌, refl, ◌↔◌, ◌⊎◌, true, false, none, [], ◌∷◌, ◌==◌, if◌then◌else◌,
}
use amankan.Prelude.Int.{pos}
use amankan.Strings.{has}
use amankan.Float64.Hundredths.{hundredths}
use amankan.Config.{
  Config, load, validate, is_production, no_api_keys, plain_database, default_graph_password,
  no_tls, no_rate_limit,
}
use amankan.Config.Laws.{IsHardened, validate_iff}

config : Unit {0}
unfolding validate load has
config = tt

-- The environment of production mode alone: every check but that of the origins fails.
abbrev environment : String → String
environment key = if key == "AMANKAN_ENV" then "Production" else ""

defaults_refused :
    validate hundredths (load environment hundredths (λ _. none) (λ _. none))
    ≡ no_api_keys ∷ plain_database ∷ default_graph_password ∷ no_tls ∷ no_rate_limit ∷ []
unfolding config
defaults_refused = refl

abbrev hardened : Config ℕ
hardened = record {
  env = "production";
  http_addr = ":8080";
  database_url = "postgres://db/amankan?sslmode=require";
  redis_addr = "redis:6379";
  redis_password = "";
  queue_key = "jobs";
  nmap_bin = "nmap";
  nuclei_bin = "nuclei";
  gitleaks_bin = "gitleaks";
  scan_timeout = pos 120;
  allow_live_scan = true;
  scan_authorized = false;
  neo4j_uri = "";
  neo4j_user = "";
  neo4j_pass = "";
  api_keys = "ci:k:analyst";
  cors_origins = "https://ui" ∷ [];
  rate_limit = 500;
  tls_cert = "/tls/cert";
  tls_key = "/tls/key";
  oidc_issuer = "";
  oidc_audience = "";
  kev_feed_path = "";
  epss_feed_path = "";
  threat_intel_fetch = false;
  kev_feed_url = "";
  epss_feed_url = "";
}

hardened_passes : validate hundredths hardened ≡ []
unfolding config
hardened_passes = refl

validate_iff_example :
    (validate hundredths hardened ≡ [])
    ↔ ((is_production hardened ≡ false) ⊎ IsHardened hundredths hardened)
validate_iff_example = validate_iff hundredths hardened
