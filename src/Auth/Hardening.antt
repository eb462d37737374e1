-- ===== src/Auth/Hardening.antt =====
-- internal/auth/hardening.go: the middlewares around every route but the rate limiter, and the
-- middlewares of the OIDC verifier, which are built like those of the API-key authenticator.
pub mod Cors
use amankan.Prelude.{
  ℕ, ◌-◌, ◌*◌, code, String, Bool, true, false, not, ◌&&◌, ◌||◌, Option, none, some, List, [], ◌∷◌,
  ◌==◌, eqb, if◌then◌else◌,
}
use amankan.Strings.{has, trim_space}
use amankan.Http.{Request, Writer, Handler, set_header, add_header, write_header, fresh_writer}
use amankan.Auth.Roles.{Role, Principal}
use amankan.Auth.{bearer, write_error, check_role}
use amankan.Auth.Oidc.{Verdict, ok, err, VerifyError}

-- The allow-list of CORS: the listed origins, and whether "*" is one of them.
pub record Origins : Type 0 where
  pub set : List String
  pub wildcard : Bool

unfoldable pub add_origin : String → Origins → Origins
unfolding trim_space
add_origin text o =
    let origin = trim_space text in
    if origin == "*"
    then record o { wildcard = true }
    else if not (origin == "")
    then record o { set = origin ∷ o.set }
    else o

unfoldable pub origins_from : Origins → List String → Origins
unfolding add_origin
origins_from o [] = o
origins_from o (text ∷ texts) = origins_from (add_origin text o) texts

unfoldable pub origins : List String → Origins
unfolding origins_from
origins allowed = origins_from (record { set = []; wildcard = false }) allowed

unfoldable pub member : String → List String → Bool
member s [] = false
member s (t ∷ ts) = s == t || member s ts

abbrev cors_methods : String
cors_methods = "GET, POST, PATCH, PUT, DELETE, OPTIONS"

abbrev cors_headers : String
cors_headers = "Content-Type, Authorization, X-API-Key"

-- The headers that CORS sets for an allowed origin.
unfoldable pub cors_writer : Origins → String → Writer → Writer
unfolding set_header add_header member
cors_writer o origin w =
    let named =
      if o.wildcard
      then set_header w "Access-Control-Allow-Origin" "*"
      else add_header (set_header w "Access-Control-Allow-Origin" origin) "Vary" "Origin" in
    if not (origin == "") && (o.wildcard || member origin o.set)
    then set_header (set_header named "Access-Control-Allow-Methods" cors_methods)
        "Access-Control-Allow-Headers" cors_headers
    else w

-- clientIP: the first hop of X-Forwarded-For, or the host of the remote address. `split_host_port`
-- is Go's `net.SplitHostPort`, which gives the host or fails.
unfoldable pub before : ℕ → String → String
before c String.[] = String.[]
before c (String.◌∷◌ d s) = if eqb (code d) c then String.[] else String.◌∷◌ d (before c s)

unfoldable pub client_ip : (String → Option String) → Request → String
unfolding has before trim_space
client_ip split_host_port r =
    let xff = r.header "X-Forwarded-For" in
    let host = elim (split_host_port r.remote_addr) as (λ _. String) [
      | none ↦ r.remote_addr
      | some h ↦ h
    ] in
    if not (xff == "")
    then (if has b',' xff then trim_space (before b',' xff) else trim_space xff)
    else host

module _ {S : Type 0} where
  unfoldable pub cors : List String → Handler S → Handler S
  unfolding origins cors_writer write_header
  cors allowed next w r s =
      let w' = cors_writer (origins allowed) (r.header "Origin") w in
      if r.method == "OPTIONS" then (write_header w' 204, s) else next w' r s

  unfoldable pub security_headers : Handler S → Handler S
  unfolding set_header
  security_headers next w r s =
      let w1 = set_header w "X-Content-Type-Options" "nosniff" in
      let w2 = set_header w1 "X-Frame-Options" "DENY" in
      let w3 = set_header w2 "Referrer-Policy" "no-referrer" in
      let w4 =
        set_header w3 "Content-Security-Policy" "default-src 'none'; frame-ancestors 'none'" in
      let w5 = set_header w4 "Strict-Transport-Security" "max-age=63072000; includeSubDomains" in
      next w5 r s

  -- Authenticate of the OIDC verifier; `verdict` is the answer of `verify` for a token and
  -- `error_text` its error's text.
  unfoldable pub oidc_authenticate :
      (String → Verdict Principal) → (VerifyError → String) → Handler S → Handler S
  oidc_authenticate verdict error_text next w r s =
      if r.method == "OPTIONS"
      then next w r s
      else if bearer r == ""
      then (write_error w 401 "missing bearer token", s)
      else elim (verdict (bearer r)) [
        | ok p ↦ next w (record r { principal = some p }) s
        | err e ↦ (write_error w 401 (error_text e), s)
      ]

  -- Require of the OIDC verifier
  unfoldable pub oidc_require : Role → Handler S → Handler S
  oidc_require min next w r s =
      if r.method == "OPTIONS" then next w r s else check_role min next w r s
