-- ===== src/Start/Tests.antt =====
-- Starts without a database, and of migrations of which the second one fails.
use amankan.Prelude.{
  ℕ, ◌+◌, String, ◌≡◌, refl, true, false, Option, none, some, [], ◌∷◌, ◌==◌, eqb, if◌then◌else◌,
}
use amankan.Strings.{has}
use amankan.Float64.Hundredths.{hundredths}
use amankan.Config.{Config, load, validate, is_production}
use amankan.ThreatIntel.{skipped}
use amankan.Start.{
  OidcConfig, new_oidc_verifier, migrate, Surroundings, Running, serving, start_api,
}
use amankan.Start.Open.{IsOpen, validated-IsOpen}

abbrev keycloak : OidcConfig
keycloak = record {
  issuer = "https://sso/realms/amankan/";
  audience = "amankan";
  jwks_url = "";
  role_map = [];
}

-- The address of the keys is derived from the issuer, without its last slash.
derived_address :
    (new_oidc_verifier keycloak).1 ≡ "https://sso/realms/amankan/protocol/openid-connect/certs"
unfolding new_oidc_verifier
derived_address = refl

-- A database that counts the statements and fails the second one.
abbrev second_fails : String → ℕ → Option String × ℕ
second_fails sql n = if eqb n 1 then (some "syntax error", n) else (none, n + 1)

stops_at_error :
    migrate second_fails
      (("0001_init.sql", "a") ∷ ("0002_audit.sql", "b") ∷ ("0003.sql", "c") ∷ [])
      0
    ≡ (some "apply 0002_audit.sql: syntax error", 1)
unfolding migrate
stops_at_error = refl

-- The environment of a server for production, of which every check passes.
abbrev environment : String → String
environment key =
    if key == "AMANKAN_ENV"
    then "production"
    else if key == "AMANKAN_API_KEYS"
    then "ci:k:analyst"
    else if key == "AMANKAN_DATABASE_URL"
    then "postgres://db/amankan"
    else if key == "AMANKAN_NEO4J_PASS"
    then "s3cret"
    else if key == "AMANKAN_TLS_CERT"
    then "/tls/cert"
    else if key == "AMANKAN_TLS_KEY"
    then "/tls/key"
    else if key == "AMANKAN_RATE_LIMIT"
    then "5"
    else ""

unfoldable config : Config ℕ
unfolding load
config = load environment hundredths (λ _. some 500) (λ _. none)

abbrev around : Surroundings hundredths (λ _. none) (λ s. s) ℕ
around = record {
  database = none;
  migration = none;
  redis = none;
  graph = none;
  kev_at = λ place. skipped;
  epss_at = λ place. skipped;
  initial = record { kev = []; epss = [] };
}

config-is_production : is_production config ≡ true
unfolding config is_production
config-is_production = refl

config_passes : validate hundredths config ≡ []
unfolding config validate
config_passes = refl

no_issuer : config.oidc_issuer ≡ ""
unfolding config
no_issuer = refl

no_colon : has b':' "s3cret" ≡ false
unfolding has
no_colon = refl

validated-IsOpen_example :
    (running : Running ℕ ℕ) × (start_api hundredths
        (λ _. none)
        (λ s. s)
        false
        (record config { api_keys = "s3cret" })
        around
      ≡ serving running)
    × IsOpen running.provider
validated-IsOpen_example =
    validated-IsOpen hundredths (λ _. none) (λ s. s) config "s3cret" around config-is_production
      no_issuer config_passes (λ e. cc e) no_colon refl refl refl
