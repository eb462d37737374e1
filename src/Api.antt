-- ===== src/Api.antt =====
-- internal/api/: the routes with their roles, the pages of a list, and the audit middleware around
-- every route under /api/v1.
pub mod Paging
pub mod Trail
pub mod Router
pub mod Roles
pub mod Service
pub mod Assets
pub mod Topology
pub mod Accounts
pub mod GraphViews
pub mod Findings
pub mod Export
pub mod Metrics
pub mod Scans
pub mod Authorization
mod Tests
mod ServiceTests
mod RouterTests
use amankan.Prelude.{
  ℕ, suc, ◌+◌, ◌-◌, ◌/◌, String, Bool, not, ◌||◌, Option, some, List, [], ◌∷◌, ◌==◌, ltb, leb,
  if◌then◌else◌, length, take, drop,
}
use amankan.Prelude.Int.{ℤ, pos, negsuc}
use amankan.Strconv.{itoa, atoi}
use amankan.Http.{Request, Writer, Handler, set_header}
use amankan.Auth.Roles.{Role, viewer, analyst, admin, role_string}
use amankan.Auth.{Authenticator, principal_from_request, authenticate, require}
use amankan.Audit.{Platform, Entry}
use amankan.Audit.Log.{AuditLog, Outcome, append_audit}

pub record Route : Type 0 where
  pub method : String
  pub pattern : String
  pub min : Role

abbrev pub route : Role → String → String → Route
route min method pattern = record { method = method; pattern = pattern; min = min }

-- The routes of Router under /api/v1.
abbrev pub routes : List Route
routes =
    route viewer "GET" "/assets"
    ∷ route viewer "GET" "/assets/{id}"
    ∷ route viewer "GET" "/scans"
    ∷ route viewer "GET" "/scans/{id}"
    ∷ route viewer "GET" "/findings"
    ∷ route viewer "GET" "/compliance/cwe/{cwe}"
    ∷ route viewer "GET" "/graph/export"
    ∷ route viewer "GET" "/assets/{id}/attack-paths"
    ∷ route viewer "GET" "/assets/{id}/accounts"
    ∷ route viewer "GET" "/privesc-path"
    ∷ route analyst "POST" "/assets"
    ∷ route analyst "POST" "/assets/{id}/scans"
    ∷ route analyst "PATCH" "/findings/{id}/status"
    ∷ route analyst "GET" "/findings/export"
    ∷ route admin "POST" "/graph/sync"
    ∷ route admin "POST" "/graph/topology"
    ∷ route admin "POST" "/assets/{id}/authorize"
    ∷ route admin "POST" "/assets/{id}/reachability"
    ∷ route admin "POST" "/accounts"
    ∷ route admin "POST" "/accounts/{id}/escalation"
    ∷ route admin "POST" "/accounts/{id}/credential-reuse"
    ∷ route admin "GET" "/audit"
    ∷ route admin "GET" "/audit/verify"
    ∷ []

-- The positive number of a query parameter, or the default.
abbrev pub positive_or : ℕ → Option ℤ → ℕ
positive_or def (some (pos (suc n))) = suc n
positive_or def _ = def

unfoldable pub query_number : String → ℕ → ℕ
unfolding atoi
query_number v def = if not (v == "") then positive_or def (atoi v) else def

-- pageParams
unfoldable pub page_params : Request → ℕ × ℕ
unfolding query_number
page_params r =
    let limit = query_number (r.query "limit") 200 in
    (if ltb 1000 limit then 1000 else limit, query_number (r.query "offset") 0)

-- paginate
unfoldable pub paginate : {T : Type 0} → Writer → Request → List T → Writer × List T
unfolding page_params set_header itoa
paginate w r items =
    let limit = (page_params r).0 in
    let offset = (page_params r).1 in
    let total = length items in
    let w' = set_header w "X-Total-Count" (itoa total) in
    let end = if ltb total (offset + limit) then total else offset + limit in
    if leb total offset then (w', []) else (w', take (end - offset) (drop offset items))

unfoldable pub is_mutating : String → Bool
is_mutating method = method == "POST" || method == "PATCH" || method == "PUT" || method == "DELETE"

-- The record that auditMiddleware appends.
unfoldable pub entry_of : Request → ℕ → Entry
unfolding principal_from_request role_string
entry_of r status =
    let p = principal_from_request r in
    record {
      seq = 0;
      ts = 0;
      actor = p.id;
      role = role_string p.role;
      method = r.method;
      path = r.path;
      status = status;
      remote_ip = r.remote_addr;
      prev_hash = "";
      hash = "";
    }

module _ {S : Type 0} (p : Platform) (o : Outcome) (now : ℕ) where
  -- auditMiddleware, where the append has this outcome at this time: an error of it is only logged.
  unfoldable pub audited : Handler S → Handler (AuditLog × S)
  audited next w r (log, s) =
      if not (is_mutating r.method)
      then (let (w', s') = next w r s in (w', (log, s')))
      else (let (w', s') = next (record w { recorded = 200 }) r s in
          (w', ((append_audit p o now (entry_of r w'.recorded) log).2, s')))

  -- A route of the router: authentication, the audit, the role, and the handler.
  unfoldable pub serve : Authenticator → Role → Handler S → Handler (AuditLog × S)
  serve a min next = authenticate a (audited (require a min next))
