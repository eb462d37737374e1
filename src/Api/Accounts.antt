-- ===== src/Api/Accounts.antt =====
-- internal/api/api.go: the handlers that add one edge or one account to the graph.
use amankan.Prelude.{
  String, Bool, true, false, not, ◌||◌, Option, none, some, List, [], ◌∷◌, ◌==◌, if◌then◌else◌,
}
use amankan.Float64.{Float64}
use amankan.Models.{Asset}
use amankan.Http.{Request, Writer, Handler}
use amankan.Graph.Accounts.{Account}
use amankan.Store.{Tables, Result, done, err, get_asset}
use amankan.Api.Service.{
  Backend, Codec, Backing, Decoded, bad, input, error_reply, reachable_reply, account_reply,
  escalation_reply, reuse_reply, write_json, bad_request, server_error, not_found_or_error,
  graph_disabled,
}
use amankan.Api.Topology.{GraphCalls, GraphCodec, Edge, EscalationInput, or_tcp}

-- validPrivileges
abbrev valid_privileges : List String
valid_privileges = "user" ∷ "service" ∷ "admin" ∷ "root" ∷ "domain_admin" ∷ []

abbrev is_in : String → List String → Bool
is_in s [] = false
is_in s (t ∷ ts) = let rest = is_in s ts in if t == s then true else rest

abbrev or_user : String → String
or_user privilege = if privilege == "" then "user" else privilege

module _ (fl : Float64) {G : Type 0} (c : Codec fl.Carrier) (b : Backing fl.Carrier)
    (gc : GraphCalls fl.Carrier G) (k : GraphCodec fl.Carrier) where
  abbrev Site : Type 0
  Site = Backend fl.Carrier G

  abbrev put : Tables fl.Carrier → G → Site → Site
  put db g s = record s { tables = db; graph = some g }

  -- The end of a call of the graph without a result.
  abbrev drawn : Writer → Writer → Tables fl.Carrier → Option String × G → Site → Writer × Site
  drawn w ok db (some e, g) s = (server_error c w e, put db g s)
  drawn w ok db (none, g) s = (ok, put db g s)

  abbrev reach_to : Writer → Edge → Result Asset × Tables fl.Carrier → G → Site → Writer × Site
  reach_to w e (err x, db) g s = (not_found_or_error c w x, put db g s)
  reach_to w e (done dst, db) g s =
      drawn w (write_json c w 201 (reachable_reply e.from e.to e.port e.proto)) db
        (gc.upsert_reachability e.from e.to e.port e.proto g) s

  abbrev reach_from : Writer → Edge → Result Asset × Tables fl.Carrier → G → Site → Writer × Site
  reach_from w e (err x, db) g s = (not_found_or_error c w x, put db g s)
  reach_from w e (done src, db) g s = reach_to w e (get_asset b.server e.to db) g s

  abbrev reach_on : Writer → Request → Option G → Decoded Edge → Site → Writer × Site
  reach_on w r none body s = (graph_disabled c w, s)
  reach_on w r (some g) (bad e) s = (bad_request c w e, s)
  reach_on w r (some g) (input e) s =
      let edge : Edge = record e { from = r.url_param "id"; proto = or_tcp e.proto } in
      if e.to == ""
      then (bad_request c w "target_id is required", s)
      else reach_from w edge (get_asset b.server edge.from s.tables) g s

  -- addReachability
  unfoldable pub add_reachability : Handler Site
  unfolding get_asset write_json not_found_or_error
  add_reachability w r s = reach_on w r s.graph (k.edge r) s

  -- The account with the identifier that uuid gives at this call.
  abbrev account_for :
      Writer → Account → Result Asset × Tables fl.Carrier → G → Site → Writer × Site
  account_for w a (err x, db) g s = (not_found_or_error c w x, put db g s)
  account_for w a (done asset, db) g s =
      let acc = record a { id = b.server.uuid db.calls } in
      let (e, g') = gc.sync_asset asset g in
      elim e as (λ _. Writer × Site) [
        | some x ↦ (server_error c w x, put db g' s)
        | none ↦ drawn w (write_json c w 201 (account_reply acc)) db (gc.sync_account acc g') s
      ]

  abbrev create_on : Writer → Option G → Decoded Account → Site → Writer × Site
  create_on w none body s = (graph_disabled c w, s)
  create_on w (some g) (bad e) s = (bad_request c w e, s)
  create_on w (some g) (input i) s =
      let a = record i { privilege = or_user i.privilege } in
      if a.asset_id == "" || a.username == ""
      then (bad_request c w "asset_id and username are required", s)
      else if not (is_in a.privilege valid_privileges)
      then (bad_request c w "invalid privilege (user|service|admin|root|domain_admin)", s)
      else account_for w a (get_asset b.server a.asset_id s.tables) g s

  -- createAccount
  unfoldable pub create_account : Handler Site
  unfolding get_asset write_json not_found_or_error
  create_account w r s = create_on w s.graph (k.account r) s

  -- A weight that is not positive becomes the default.
  abbrev or_weight : fl.Carrier → fl.Carrier → fl.Carrier
  or_weight default weight = if fl.less (fl.dec 0 0) weight then weight else default

  abbrev linked : Writer → Writer → (Option String × Bool) × G → Site → Writer × Site
  linked w ok ((some e, there), g) s = (server_error c w e, put s.tables g s)
  linked w ok ((none, false), g) s =
      (write_json c w 404 (error_reply "one or both accounts not found"), put s.tables g s)
  linked w ok ((none, true), g) s = (ok, put s.tables g s)

  abbrev escalate_on :
      Writer → String → Option G → Decoded (EscalationInput fl.Carrier) → Site → Writer × Site
  escalate_on w id none body s = (graph_disabled c w, s)
  escalate_on w id (some g) (bad e) s = (bad_request c w e, s)
  escalate_on w id (some g) (input i) s =
      let weight = or_weight (fl.dec 1 0) i.weight in
      if i.target_account_id == ""
      then (bad_request c w "target_account_id is required", s)
      else linked w
          (write_json c w 201 (escalation_reply id i.target_account_id i.technique weight))
          (gc.upsert_escalation id i.target_account_id i.technique i.cwe weight g) s

  -- addEscalation
  unfoldable pub add_escalation : Handler Site
  unfolding write_json
  add_escalation w r s = escalate_on w (r.url_param "id") s.graph (k.escalation r) s

  abbrev reuse_on :
      Writer → String → Option G → Decoded (String × fl.Carrier) → Site → Writer × Site
  reuse_on w id none body s = (graph_disabled c w, s)
  reuse_on w id (some g) (bad e) s = (bad_request c w e, s)
  reuse_on w id (some g) (input (target, given)) s =
      let weight = or_weight (fl.dec 3 0) given in
      if target == ""
      then (bad_request c w "target_account_id is required", s)
      else linked w (write_json c w 201 (reuse_reply id target weight))
          (gc.upsert_credential_reuse id target weight g) s

  -- addCredentialReuse
  unfoldable pub add_credential_reuse : Handler Site
  unfolding write_json
  add_credential_reuse w r s = reuse_on w (r.url_param "id") s.graph (k.reuse r) s
