-- ===== src/Start/Open.antt =====
-- cmd/api/main.go: a server in production mode whose text of API keys has no usable key.
use amankan.Prelude.{String, ◌≡◌, refl, ◌≢◌, true, false, Option, none, []}
use amankan.Strings.{has}
use amankan.Float64.{Float64}
use amankan.Http.{Request, Writer, Handler}
use amankan.Auth.Roles.{Role}
use amankan.Auth.{Authenticator, parse_keys, authenticate, require}
use amankan.Auth.Access.{colonless_keys_open}
use amankan.Config.{Config, is_production, validate}
use amankan.Config.Laws.{validate-api_keys}
use amankan.Start.{Provider, api_keys, Running, serving, provider_of, Surroundings, start_api}

-- The server authenticates by API keys, in such a way that every handler runs on every request.
abbrev pub IsOpen : Provider → Type 1
IsOpen provider =
    (a : Authenticator) × (provider ≡ api_keys a)
    × ((S : Type 0) (min : Role) (next : Handler S) (w : Writer) (r : Request) (s : S)
        → authenticate a (require a min next) w r s ≡ next w r s)

module _ (fl : Float64) (parse_float : String → Option fl.Carrier)
    (to_upper : String → String) where
  -- A configuration for production without an OIDC issuer that passes the checks still passes when
  -- its API keys are replaced by any text that is not empty and has no colon. If the database, its
  -- migrations and Redis give no error, the API then serves, and every handler, whatever role its
  -- route asks for, runs on every request as if there were no authentication.
  pub validated-IsOpen :
      {G : Type 0} (c : Config fl.Carrier) (spec : String)
      (around : Surroundings fl parse_float to_upper G)
      → is_production c ≡ true
      → c.oidc_issuer ≡ ""
      → validate fl c ≡ []
      → spec ≢ ""
      → has b':' spec ≡ false
      → around.database ≡ none
      → around.migration ≡ none
      → around.redis ≡ none
      → (running : Running fl.Carrier G) × (start_api fl parse_float to_upper false
            (record c { api_keys = spec })
            around
          ≡ serving running)
        × IsOpen running.provider
  unfolding start_api provider_of
  validated-IsOpen c spec around live no_issuer passes full bare db migrated redis =
      rw (validate-api_keys fl c spec passes full, db, migrated, redis)
        (
          _,
          refl,
          (
            (parse_keys spec).0,
            rw no_issuer refl,
            λ S min next w r s. colonless_keys_open spec min next w r s bare,
          ),
        )
