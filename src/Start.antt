-- ===== src/Start.antt =====
-- cmd/api/main.go: how the API starts, with NewOIDCVerifier of internal/auth/oidc.go and Migrate of
-- internal/db/db.go. Connections that can fail are given with their errors.
pub mod Open
mod Tests
use Prim.Native.String.{◌++◌ as append}
use Prim.Native.Char.{code}
use amankan.Prelude.{
  ◌+◌, ◌-◌, ◌/◌, Char, String, Bool, false, not, ◌&&◌, ◌||◌, Option, none, some, List, [], ◌∷◌,
  ◌++◌, ◌==◌, eqb, if◌then◌else◌,
}
use amankan.Strings.{trim_right}
use amankan.Float64.{Float64}
use amankan.Config.{Config, Problem, validate, graph_enabled}
use amankan.Auth.Roles.{Role}
use amankan.Auth.{Authenticator, parse_keys}
use amankan.Auth.Oidc.{Verifier, default_role_map}
use amankan.ThreatIntel.{Feed, Source, skipped, load}

pub record OidcConfig : Type 0 where
  pub issuer : String
  pub audience : String
  pub jwks_url : String
  pub role_map : List (String × Role)

abbrev roles_or_default : List (String × Role) → List (String × Role)
roles_or_default [] = default_role_map
roles_or_default (r ∷ rs) = r ∷ rs

-- NewOIDCVerifier: the verifier and the address of its keys.
unfoldable pub new_oidc_verifier : OidcConfig → Verifier × String
unfolding trim_right
new_oidc_verifier cfg =
    let derived =
      append (trim_right (λ c. eqb (code c) 47) cfg.issuer) "/protocol/openid-connect/certs" in
    (
      record {
        issuer = cfg.issuer;
        audience = cfg.audience;
        role_map = roles_or_default cfg.role_map;
        keys = [];
        fetched = false;
      },
      if cfg.jwks_url == "" && not (cfg.issuer == "") then derived else cfg.jwks_url,
    )

pub data Provider : Type 0 where
  oidc : Verifier → String → Provider
  api_keys : Authenticator → Provider

-- The end of one migration: its error, or the rest.
abbrev go_on :
    {D : Type 0} → String → Option String × D → (D → Option String × D) → Option String × D
go_on name (some e, db) rest = (some (append "apply " (append name (append ": " e))), db)
go_on name (none, db) rest = rest db

-- Migrate, over the migrations in lexical order: the error of the first one that fails.
unfoldable pub migrate :
    {D : Type 0} → (String → D → Option String × D) → List (String × String) → D → Option String × D
migrate run [] db = (none, db)
migrate run ((name, sql) ∷ rest) db = go_on name (run sql db) (λ db'. migrate run rest db')

pub record Running (F G : Type 0) : Type 0 where
  pub provider : Provider
  pub graph : Option G
  pub feed : Feed F
  pub tls : Bool

-- How main ends or goes on.
pub data Start (F G : Type 0) : Type 0 where
  refused : List Problem → Start F G
  fatal : String → Start F G
  migrated : Start F G
  serving : Running F G → Start F G

-- The provider of main: OIDC where an issuer is configured, and API keys otherwise.
unfoldable pub provider_of : {F : Type 0} → Config F → Provider
unfolding new_oidc_verifier parse_keys
provider_of cfg =
    let (verifier, keys_url) = new_oidc_verifier (record {
      issuer = cfg.oidc_issuer;
      audience = cfg.oidc_audience;
      jwks_url = "";
      role_map = [];
    }) in
    if not (cfg.oidc_issuer == "")
    then oidc verifier keys_url
    else api_keys (parse_keys cfg.api_keys).0

-- strconv.ParseFloat and strings.ToUpper are Go's.
module _ (fl : Float64) (parse_float : String → Option fl.Carrier)
    (to_upper : String → String) where
  -- What main finds: the errors of the database, of its migrations and of Redis, the graph if it
  -- connects, and the feeds over HTTP and in files.
  pub record Surroundings (G : Type 0) : Type 0 where
    pub database : Option String
    pub migration : Option String
    pub redis : Option String
    pub graph : Option G
    pub kev_at : String → Source fl parse_float to_upper (List String)
    pub epss_at : String → Source fl parse_float to_upper (List String)
    pub initial : Feed fl.Carrier

  abbrev source_at :
      (String → Source fl parse_float to_upper (List String))
      → String
      → Source fl parse_float to_upper (List String)
  source_at find place = if place == "" then skipped else find place

  -- The feed of the process: live, from files, or the embedded one.
  unfoldable pub feed_of : {G : Type 0} → Config fl.Carrier → Surroundings G → Feed fl.Carrier
  unfolding load
  feed_of cfg around =
      if cfg.threat_intel_fetch
      then (load fl parse_float to_upper (source_at around.kev_at cfg.kev_feed_url)
          (source_at around.epss_at cfg.epss_feed_url) around.initial).0
      else if not (cfg.kev_feed_path == "") || not (cfg.epss_feed_path == "")
      then (load fl parse_float to_upper (source_at around.kev_at cfg.kev_feed_path)
          (source_at around.epss_at cfg.epss_feed_path) around.initial).0
      else around.initial

  abbrev served : {G : Type 0} → Config fl.Carrier → Surroundings G → Start fl.Carrier G
  served cfg around = serving (record {
    provider = provider_of cfg;
    graph = if graph_enabled cfg then around.graph else none;
    feed = feed_of cfg around;
    tls = not (cfg.tls_cert == "") && not (cfg.tls_key == "");
  })

  abbrev with_redis :
      {G : Type 0} → Config fl.Carrier → Surroundings G → Option String → Start fl.Carrier G
  with_redis cfg around (some e) = fatal (append "redis: " e)
  with_redis cfg around none = served cfg around

  abbrev with_tables :
      {G : Type 0} → Bool → Config fl.Carrier → Surroundings G → Option String → Start fl.Carrier G
  with_tables migrate_only cfg around (some e) = fatal (append "migrate: " e)
  with_tables migrate_only cfg around none =
      if migrate_only then migrated else with_redis cfg around around.redis

  abbrev with_database :
      {G : Type 0} → Bool → Config fl.Carrier → Surroundings G → Option String → Start fl.Carrier G
  with_database migrate_only cfg around (some e) = fatal (append "database: " e)
  with_database migrate_only cfg around none = with_tables migrate_only cfg around around.migration

  abbrev checked :
      {G : Type 0} → List Problem → Bool → Config fl.Carrier → Surroundings G → Start fl.Carrier G
  checked [] migrate_only cfg around = with_database migrate_only cfg around around.database
  checked (x ∷ xs) migrate_only cfg around = refused (x ∷ xs)

  -- main, up to the server's listening.
  unfoldable pub start_api :
      {G : Type 0} → Bool → Config fl.Carrier → Surroundings G → Start fl.Carrier G
  unfolding validate provider_of feed_of graph_enabled
  start_api migrate_only cfg around = checked (validate fl cfg) migrate_only cfg around
