-- ===== src/Api/GraphViews.antt =====
-- internal/api/api.go: the handlers that read the graph.
use amankan.Prelude.{ℕ, String, not, ◌||◌, Option, none, some, List, ◌==◌, if◌then◌else◌, length}
use amankan.Prelude.Int.{ℤ, pos}
use amankan.Strconv.{atoi}
use amankan.Float64.{Float64}
use amankan.Models.{Asset}
use amankan.Http.{Request, Writer, Handler}
use amankan.Graph.Accounts.{Account}
use amankan.Graph.Paths.{RawPath, AttackPath, find_attack_paths}
use amankan.Graph.Views.{
  Row, PathRow, PrivEscPath, GraphExport, list_accounts, export_graph, find_priv_esc_path,
}
use amankan.Store.{Tables, Result, done, err, get_asset}
use amankan.Api.Service.{
  Backend, Codec, Backing, write_json, bad_request, server_error, not_found_or_error,
  graph_disabled, accounts_reply, paths_reply, export_reply, priv_esc_reply,
}

-- The queries of the graph; `failure` is the text of the error of one that fails.
pub record Queries (F G : Type 0) : Type 0 where
  pub accounts : G → String → Option (List (Row F))
  pub attack_paths : G → String → F → ℕ → Option (List (RawPath F))
  pub priv_esc : G → String → String → Option (List (PathRow F))
  pub nodes : G → Option (List (Row F))
  pub edges : G → Option (List (Row F))
  pub failure : String

-- The number of a query parameter, or the default.
abbrev value_or : {A : Type 0} → A → Option A → A
value_or def none = def
value_or def (some a) = a

-- strconv.ParseFloat is Go's.
module _ (fl : Float64) (minus : fl.Carrier → fl.Carrier → fl.Carrier) {G : Type 0}
    (c : Codec fl.Carrier) (b : Backing fl.Carrier) (q : Queries fl.Carrier G)
    (parse_float : String → Option fl.Carrier) where
  abbrev Site : Type 0
  Site = Backend fl.Carrier G

  -- Where the asset of the route is in the table, the handler goes on with the graph.
  abbrev pub on_asset :
      Writer → (G → Writer) → Option G → Result Asset × Tables fl.Carrier → Site → Writer × Site
  on_asset w answer g (err e, db) s = (not_found_or_error c w e, record s { tables = db })
  on_asset w answer none (done a, db) s = (graph_disabled c w, record s { tables = db })
  on_asset w answer (some g) (done a, db) s = (answer g, record s { tables = db })

  abbrev pub of_asset : Writer → Request → (G → Writer) → Option G → Site → Writer × Site
  of_asset w r answer none s = (graph_disabled c w, s)
  of_asset w r answer (some g) s =
      on_asset w answer (some g) (get_asset b.server (r.url_param "id") s.tables) s

  abbrev accounts_answer : Writer → Option (List Account) → Writer
  accounts_answer w none = server_error c w q.failure
  accounts_answer w (some accounts) = write_json c w 200 (accounts_reply accounts)

  -- listAccounts
  unfoldable pub handle_list_accounts : Handler Site
  unfolding get_asset list_accounts write_json not_found_or_error
  handle_list_accounts w r s =
      of_asset w r (λ g. accounts_answer w (list_accounts (q.accounts g (r.url_param "id"))))
        s.graph s

  abbrev paths_answer :
      Writer → String → fl.Carrier → ℤ → Option (List (AttackPath fl.Carrier)) → Writer
  paths_answer w target min_risk max_hops none = server_error c w q.failure
  paths_answer w target min_risk max_hops (some paths) =
      write_json c w 200 (paths_reply target min_risk max_hops (length paths) paths)

  -- attackPaths
  unfoldable pub attack_paths : Handler Site
  unfolding get_asset find_attack_paths write_json not_found_or_error atoi
  attack_paths w r s =
      let target = r.url_param "id" in
      let v = r.query "min_risk" in
      let n = r.query "max_hops" in
      let min_risk = if not (v == "") then value_or (fl.dec 7 0) (parse_float v) else fl.dec 7 0 in
      let max_hops = if not (n == "") then value_or (pos 4) (atoi n) else pos 4 in
      of_asset w r
        (λ g.
          paths_answer w target min_risk max_hops
            (find_attack_paths fl minus (q.attack_paths g target min_risk) max_hops))
        s.graph s

  abbrev export_answer : Writer → Option (GraphExport fl.Carrier) → Writer
  export_answer w none = server_error c w q.failure
  export_answer w (some g) = write_json c w 200 (export_reply g)

  abbrev export_on : Writer → Option G → Writer
  export_on w none = graph_disabled c w
  export_on w (some g) = export_answer w (export_graph fl (q.nodes g) (q.edges g))

  -- exportGraph
  unfoldable pub handle_export_graph : Handler Site
  unfolding export_graph write_json
  handle_export_graph w r s = (export_on w s.graph, s)

  abbrev priv_esc_answer : Writer → Option (PrivEscPath fl.Carrier) → Writer
  priv_esc_answer w none = server_error c w q.failure
  priv_esc_answer w (some path) = write_json c w 200 (priv_esc_reply path)

  abbrev priv_esc_on : Writer → String → String → Option G → Writer
  priv_esc_on w from to none = graph_disabled c w
  priv_esc_on w from to (some g) =
      if from == "" || to == ""
      then bad_request c w "from and to query params are required"
      else priv_esc_answer w (find_priv_esc_path fl minus (q.priv_esc g from to))

  -- privEscPath
  unfoldable pub priv_esc_path : Handler Site
  unfolding find_priv_esc_path write_json
  priv_esc_path w r s = (priv_esc_on w (r.query "from") (r.query "to") s.graph, s)
