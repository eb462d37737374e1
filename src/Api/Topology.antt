-- ===== src/Api/Topology.antt =====
-- internal/api/api.go: the handlers that write to the graph.
use Prim.Native.String.{◌++◌ as append}
use amankan.Prelude.{
  ℕ, ◌+◌, String, Bool, Option, none, some, List, [], ◌∷◌, ◌++◌, ◌==◌, if◌then◌else◌,
}
use amankan.Prelude.Int.{ℤ, pos}
use amankan.Strconv.{itoa}
use amankan.Models.{Asset, Finding}
use amankan.Http.{Request, Writer, Handler}
use amankan.Graph.Accounts.{Account}
use amankan.Store.{
  Server, Tables, Error, not_found, failure, Result, done, err, get_asset, get_asset_by_target,
  list_assets, list_findings,
}
use amankan.Api.Service.{
  Backend, Codec, Backing, Decoded, bad, input, synced_reply, imported_reply, write_json,
  bad_request, store_error, server_error, graph_disabled,
}

-- The graph's operations with their errors; two of them tell if both ends are there.
pub record GraphCalls (F G : Type 0) : Type 0 where
  pub sync_asset : Asset → G → Option String × G
  pub sync_finding : Finding F → G → Option String × G
  pub upsert_reachability : String → String → ℤ → String → G → Option String × G
  pub sync_account : Account → G → Option String × G
  pub upsert_escalation : String → String → String → String → F → G → (Option String × Bool) × G
  pub upsert_credential_reuse : String → String → F → G → (Option String × Bool) × G

pub record Edge : Type 0 where
  pub from : String
  pub to : String
  pub port : ℤ
  pub proto : String

pub record EscalationInput (F : Type 0) : Type 0 where
  pub target_account_id : String
  pub technique : String
  pub cwe : String
  pub weight : F

pub record GraphCodec (F : Type 0) : Type 0 where
  pub edges : Request → Decoded (List Edge)
  pub edge : Request → Decoded Edge
  -- asset_id, username and privilege
  pub account : Request → Decoded Account
  pub escalation : Request → Decoded (EscalationInput F)
  -- target_account_id and weight
  pub reuse : Request → Decoded (String × F)
  pub quoted : String → String

-- The end of a call of the graph: its error, or what follows.
abbrev after : {G R : Type 0} → Option String × G → (String → G → R) → (G → R) → R
after (some e, g) failing going = failing e g
after (none, g) failing going = going g

abbrev pub or_tcp : String → String
or_tcp proto = if proto == "" then "tcp" else proto

module _ {F G : Type 0} (sv : Server F) (gc : GraphCalls F G) where
  -- The inner loop of graphSync: the error that ends it, the number of findings, and the graph.
  abbrev sync_findings : List (Finding F) → ℕ → G → Option String × ℕ × G
  sync_findings [] n g = (none, n, g)
  sync_findings (f ∷ fs) n g =
      after (gc.sync_finding f g) (λ e g'. (some e, n, g')) (λ g'. sync_findings fs (n + 1) g')

  abbrev error_of : Error → String
  error_of not_found = "not found"
  error_of (failure e) = e

  -- The findings of one asset.
  abbrev sync_vulns :
      Result (List (Finding F)) × Tables F → ℕ → G → (Option String × ℕ × G) × Tables F
  sync_vulns (err e, db) n g = ((some (error_of e), n, g), db)
  sync_vulns (done fs, db) n g = (sync_findings fs n g, db)

  -- The outer loop: the error, the numbers of assets and of findings, and the state.
  abbrev pub sync_all : List Asset → ℕ → ℕ → Tables F → G → (Option String × ℕ × ℕ) × Tables F × G
  sync_all [] n m db g = ((none, n, m), db, g)
  sync_all (a ∷ as') n m db g =
      after (gc.sync_asset a g) (λ e g'. ((some e, n, m), db, g'))
        (λ g'.
          let (end, db') = sync_vulns (list_findings sv a.id "" (pos 0) (pos 0) db) m g' in
          after (end.0, end.2) (λ e g''. ((some e, n + 1, end.1), db', g''))
            (λ g''. sync_all as' (n + 1) end.1 db' g''))

  -- resolveAsset
  abbrev or_by_target : String → Result Asset × Tables F → Result Asset × Tables F
  or_by_target ref (done a, db) = (done a, db)
  or_by_target ref (err e, db) = get_asset_by_target sv ref db

  unfoldable pub resolve_asset : String → Tables F → Result Asset × Tables F
  unfolding get_asset get_asset_by_target
  resolve_asset ref db = or_by_target ref (get_asset sv ref db)

  -- The end of one edge of importTopology: imported, a problem, or an error that ends the handler.
  abbrev draw : Asset → Asset → Edge → G → Option String × G
  draw src dst e g =
      let g' = (gc.sync_asset dst (gc.sync_asset src g).1).1 in
      gc.upsert_reachability src.id dst.id e.port (or_tcp e.proto) g'

  module _ (quoted : String → String) where
    abbrev problem : ℕ → String → String → String
    problem i which ref =
        append "edge "
          (append (itoa i) (append ": " (append which (append (quoted ref) " not found"))))

    -- The loop of importTopology from the i-th edge on.
    abbrev pub import_edges :
        List Edge
        → ℕ
        → ℕ
        → List String
        → Tables F
        → G
        → (Option String × ℕ × List String) × Tables F × G
    import_edges [] i n problems db g = ((none, n, problems), db, g)
    import_edges (e ∷ es) i n problems db g =
        let (from, db') = resolve_asset e.from db in
        let (to, db'') = resolve_asset e.to db' in
        let rest : ℕ
            → List String
            → Tables F
            → G
            → (Option String × ℕ × List String) × Tables F × G =
          λ m ps t g'. import_edges es (i + 1) m ps t g' in
        elim from [
          | err _ ↦ rest n (problems ++ problem i "from " e.from ∷ []) db' g
          | done src ↦ elim to [
            | err _ ↦ rest n (problems ++ problem i "to " e.to ∷ []) db'' g
            | done dst ↦
                after (draw src dst e g) (λ x g'. ((some x, n, problems), db'', g'))
                  (λ g'. rest (n + 1) problems db'' g')
          ]
        ]

module _ {F G : Type 0} (c : Codec F) (b : Backing F) (gc : GraphCalls F G) (k : GraphCodec F) where
  abbrev put : Tables F → G → Backend F G → Backend F G
  put db g s = record s { tables = db; graph = some g }

  abbrev synced :
      Writer → (Option String × ℕ × ℕ) × Tables F × G → Backend F G → Writer × Backend F G
  synced w ((some e, n, m), db, g) s = (server_error c w e, put db g s)
  synced w ((none, n, m), db, g) s = (write_json c w 200 (synced_reply n m), put db g s)

  abbrev sync_listed :
      Writer → G → Result (List Asset) × Tables F → Backend F G → Writer × Backend F G
  sync_listed w g (err e, db) s = (store_error c w e, put db g s)
  sync_listed w g (done assets, db) s = synced w (sync_all b.server gc assets 0 0 db g) s

  abbrev sync_on : Writer → Option G → Backend F G → Writer × Backend F G
  sync_on w none s = (graph_disabled c w, s)
  sync_on w (some g) s = sync_listed w g (list_assets b.server s.tables) s

  -- graphSync
  unfoldable pub graph_sync : Handler (Backend F G)
  unfolding list_assets list_findings write_json
  graph_sync w r s = sync_on w s.graph s

  abbrev imported :
      Writer → (Option String × ℕ × List String) × Tables F × G → Backend F G → Writer × Backend F G
  imported w ((some e, n, ps), db, g) s = (server_error c w e, put db g s)
  imported w ((none, n, ps), db, g) s = (write_json c w 200 (imported_reply n ps), put db g s)

  abbrev import_on : Writer → Option G → Decoded (List Edge) → Backend F G → Writer × Backend F G
  import_on w none body s = (graph_disabled c w, s)
  import_on w (some g) (bad e) s = (bad_request c w e, s)
  import_on w (some g) (input es) s =
      imported w (import_edges b.server gc k.quoted es 0 0 [] s.tables g) s

  -- importTopology
  unfoldable pub import_topology : Handler (Backend F G)
  unfolding resolve_asset write_json itoa
  import_topology w r s = import_on w s.graph (k.edges r) s
