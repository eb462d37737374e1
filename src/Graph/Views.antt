-- ===== src/Graph/Views.antt =====
-- internal/graph/graph.go: what the reading calls make of the records that the database gives.
use amankan.Prelude.{ℕ, String, Bool, true, false, Option, none, some, List, [], ◌∷◌, map}
use amankan.Float64.{Float64}
use amankan.Graph.Accounts.{Account}
use amankan.Graph.Derive.{round2}

-- A value of a record, whose numbers are not negative; a key that is missing and a value of another type are `other`.
pub data Value (F : Type 0) : Type 0 where
  text : String → Value F
  real : F → Value F
  whole : ℕ → Value F
  other : Value F

-- A record, or a map in one, by its keys.
abbrev pub Row : Type 0 → Type 0
Row F = String → Value F

-- toStr
unfoldable pub to_str : {F : Type 0} → Value F → String
to_str (text s) = s
to_str _ = ""

pub record PrivEscStep (F : Type 0) : Type 0 where
  pub step_type : String
  pub technique : String
  pub cwe : String
  pub weight : F

pub record PrivEscNode : Type 0 where
  pub account_id : String
  pub username : String
  pub privilege : String
  pub asset : String

pub record PrivEscPath (F : Type 0) : Type 0 where
  pub accounts : List PrivEscNode
  pub steps : List (PrivEscStep F)
  pub total_cost : F
  pub found : Bool

-- A record of the query for the cheapest path; asSlice of what is no list is empty.
pub record PathRow (F : Type 0) : Type 0 where
  pub total_cost : Value F
  pub accounts : List (Row F)
  pub steps : List (Row F)

pub record ExportNode (F : Type 0) : Type 0 where
  pub id : String
  pub node_type : String
  pub label : String
  pub criticality : String
  pub exposure : String
  pub privilege : String
  pub severity : String
  pub risk : F

pub record ExportEdge (F : Type 0) : Type 0 where
  pub edge_type : String
  pub source : String
  pub target : String
  pub weight : F
  pub technique : String
  pub cwe : String
  pub via : String
  pub port : ℕ

pub record GraphExport (F : Type 0) : Type 0 where
  pub nodes : List (ExportNode F)
  pub edges : List (ExportEdge F)

unfoldable pub account_of : {F : Type 0} → Row F → Account
unfolding to_str
account_of r = record {
  id = to_str (r "id");
  username = to_str (r "username");
  privilege = to_str (r "privilege");
  asset_id = to_str (r "asset_id");
}

abbrev each : {A B : Type 0} → (A → B) → Option (List A) → Option (List B)
each f none = none
each f (some rows) = some (map f rows)

-- ListAccounts, where the query gives these records or fails.
unfoldable pub list_accounts : {F : Type 0} → Option (List (Row F)) → Option (List Account)
unfolding account_of
list_accounts rows = each account_of rows

module _ (fl : Float64) where
  -- toFloat
  unfoldable pub to_float : Value fl.Carrier → fl.Carrier
  to_float (real x) = x
  to_float (whole n) = fl.of_int n
  to_float _ = fl.dec 0 0

  -- toInt
  unfoldable pub to_int : Value fl.Carrier → ℕ
  to_int (whole n) = n
  to_int (real x) = fl.truncated x
  to_int _ = 0

  unfoldable pub export_node : Row fl.Carrier → ExportNode fl.Carrier
  unfolding to_str to_float
  export_node r = record {
    id = to_str (r "id");
    node_type = to_str (r "type");
    label = to_str (r "label");
    criticality = to_str (r "criticality");
    exposure = to_str (r "exposure");
    privilege = to_str (r "privilege");
    severity = to_str (r "severity");
    risk = to_float (r "risk");
  }

  unfoldable pub export_edge : Row fl.Carrier → ExportEdge fl.Carrier
  unfolding to_str to_float to_int
  export_edge r = record {
    edge_type = to_str (r "type");
    source = to_str (r "source");
    target = to_str (r "target");
    weight = to_float (r "weight");
    technique = to_str (r "technique");
    cwe = to_str (r "cwe");
    via = to_str (r "via");
    port = to_int (r "port");
  }

  -- ExportGraph, where the two queries give these records or fail.
  unfoldable pub export_graph :
      Option (List (Row fl.Carrier))
      → Option (List (Row fl.Carrier))
      → Option (GraphExport fl.Carrier)
  unfolding export_node export_edge
  export_graph none edges = none
  export_graph (some nodes) none = none
  export_graph (some nodes) (some edges) =
      some (record { nodes = map export_node nodes; edges = map export_edge edges })

module _ (fl : Float64) (minus : fl.Carrier → fl.Carrier → fl.Carrier) where
  unfoldable pub priv_esc_node : Row fl.Carrier → PrivEscNode
  unfolding to_str
  priv_esc_node r = record {
    account_id = to_str (r "id");
    username = to_str (r "username");
    privilege = to_str (r "privilege");
    asset = to_str (r "asset");
  }

  unfoldable pub priv_esc_step : Row fl.Carrier → PrivEscStep fl.Carrier
  unfolding to_str to_float round2
  priv_esc_step r = record {
    step_type = to_str (r "type");
    technique = to_str (r "technique");
    cwe = to_str (r "cwe");
    weight = round2 fl minus (to_float fl (r "weight"));
  }

  -- FindPrivEscPath, where the query gives these records or fails.
  unfoldable pub find_priv_esc_path :
      Option (List (PathRow fl.Carrier)) → Option (PrivEscPath fl.Carrier)
  unfolding priv_esc_node priv_esc_step round2 to_float
  find_priv_esc_path none = none
  find_priv_esc_path (some []) =
      some (record { accounts = []; steps = []; total_cost = fl.dec 0 0; found = false })
  find_priv_esc_path (some (r ∷ rs)) = some (record {
    accounts = map priv_esc_node r.accounts;
    steps = map priv_esc_step r.steps;
    total_cost = round2 fl minus (to_float fl r.total_cost);
    found = true;
  })
