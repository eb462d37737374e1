-- ===== src/Api/Router.antt =====
-- internal/api/api.go: Router under /api/v1, each route with its role and its handler.
use amankan.Prelude.{ℕ, String, ◌≡◌, refl, Option, List, [], ◌∷◌, map}
use amankan.Float64.{Float64}
use amankan.Sla.{Hours}
use amankan.ThreatIntel.{Feed}
use amankan.Auth.Roles.{viewer, analyst, admin}
use amankan.Http.{Handler}
use amankan.Audit.{Platform}
use amankan.Audit.Log.{AuditLog}
use amankan.Api.{Route, route, routes}
use amankan.Api.Service.{Backend, Codec, Backing}
use amankan.Api.Assets.{
  handle_create_asset, handle_list_assets, handle_get_asset, authorize_asset, start_scan,
  list_scans, get_scan,
}
use amankan.Api.Findings.{
  handle_list_findings, handle_update_finding_status, compliance_for_cwe, handle_list_audit,
  verify_audit,
}
use amankan.Api.Export.{Printer, export_findings}
use amankan.Api.GraphViews.{
  Queries, handle_list_accounts, attack_paths, handle_export_graph, priv_esc_path,
}
use amankan.Api.Topology.{GraphCalls, GraphCodec, graph_sync, import_topology}
use amankan.Api.Accounts.{add_reachability, create_account, add_escalation, add_credential_reuse}

-- What the handlers use: Go's codecs, the databases and their queries, the feed, the time, and the
-- audit log with the error of its query if it fails.
pub record Surface (fl : Float64) (G : Type 0) : Type 0 where
  pub codec : Codec fl.Carrier
  pub backing : Backing fl.Carrier
  pub hours : Hours
  pub feed : Feed fl.Carrier
  pub now : ℕ
  pub printer : Printer fl.Carrier
  pub queries : Queries fl.Carrier G
  pub parse_float : String → Option fl.Carrier
  pub calls : GraphCalls fl.Carrier G
  pub graph_codec : GraphCodec fl.Carrier
  pub platform : Platform
  pub log : AuditLog
  pub log_error : Option String

module _ (fl : Float64) {G : Type 0} (x : Surface fl G) where
  -- A handler that only reads the audit log.
  abbrev of_log : Handler AuditLog → Handler (Backend fl.Carrier G)
  of_log next w r s = ((next w r x.log).0, s)

  -- Router: the routes under /api/v1 with their handlers.
  abbrev pub bindings : List (Route × Handler (Backend fl.Carrier G))
  bindings =
      (route viewer "GET" "/assets", handle_list_assets x.codec x.backing)
      ∷ (route viewer "GET" "/assets/{id}", handle_get_asset x.codec x.backing)
      ∷ (route viewer "GET" "/scans", list_scans x.codec x.backing)
      ∷ (route viewer "GET" "/scans/{id}", get_scan x.codec x.backing)
      ∷ (
        route viewer "GET" "/findings",
        handle_list_findings fl x.codec x.backing x.hours x.feed x.now,
      )
      ∷ (route viewer "GET" "/compliance/cwe/{cwe}", compliance_for_cwe x.codec)
      ∷ (
        route viewer "GET" "/graph/export",
        handle_export_graph fl fl.minus x.codec x.backing x.queries x.parse_float,
      )
      ∷ (
        route viewer "GET" "/assets/{id}/attack-paths",
        attack_paths fl fl.minus x.codec x.backing x.queries x.parse_float,
      )
      ∷ (
        route viewer "GET" "/assets/{id}/accounts",
        handle_list_accounts fl fl.minus x.codec x.backing x.queries x.parse_float,
      )
      ∷ (
        route viewer "GET" "/privesc-path",
        priv_esc_path fl fl.minus x.codec x.backing x.queries x.parse_float,
      )
      ∷ (route analyst "POST" "/assets", handle_create_asset x.codec x.backing)
      ∷ (route analyst "POST" "/assets/{id}/scans", start_scan x.codec x.backing)
      ∷ (
        route analyst "PATCH" "/findings/{id}/status",
        handle_update_finding_status fl x.codec x.backing x.hours x.feed x.now,
      )
      ∷ (
        route analyst "GET" "/findings/export",
        export_findings fl x.codec x.backing x.hours x.feed x.now x.printer,
      )
      ∷ (route admin "POST" "/graph/sync", graph_sync x.codec x.backing x.calls x.graph_codec)
      ∷ (
        route admin "POST" "/graph/topology",
        import_topology x.codec x.backing x.calls x.graph_codec,
      )
      ∷ (route admin "POST" "/assets/{id}/authorize", authorize_asset x.codec x.backing)
      ∷ (
        route admin "POST" "/assets/{id}/reachability",
        add_reachability fl x.codec x.backing x.calls x.graph_codec,
      )
      ∷ (route admin "POST" "/accounts", create_account fl x.codec x.backing x.calls x.graph_codec)
      ∷ (
        route admin "POST" "/accounts/{id}/escalation",
        add_escalation fl x.codec x.backing x.calls x.graph_codec,
      )
      ∷ (
        route admin "POST" "/accounts/{id}/credential-reuse",
        add_credential_reuse fl x.codec x.backing x.calls x.graph_codec,
      )
      ∷ (route admin "GET" "/audit", of_log (handle_list_audit x.codec x.log_error))
      ∷ (route admin "GET" "/audit/verify", of_log (verify_audit x.codec x.platform x.log_error))
      ∷ []

  -- The table of routes is that of the bindings.
  bindings-routes : map (λ u. u.0) bindings ≡ routes
  bindings-routes = refl
