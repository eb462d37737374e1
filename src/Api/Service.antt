-- ===== src/Api/Service.antt =====
-- internal/api/api.go: what the handlers share: the state behind them, their replies, and the
-- helpers at the end of the file. The decoder and the encoder of JSON are Go's.
use amankan.Prelude.{ℕ, String, Bool, Option, List}
use amankan.Prelude.Int.{ℤ}
use amankan.Models.{
  Asset, AssetType, Criticality, ScanJob, ScanProfile, Finding, FindingStatus, ComplianceRef,
  RemediationGuide,
}
use amankan.Http.{Request, Writer, Handler, set_header, write_header, write_body}
use amankan.Store.{Server, Tables, Error, not_found, failure}
use amankan.Audit.{Entry}
use amankan.Graph.Accounts.{Account}
use amankan.Graph.Paths.{AttackPath}
use amankan.Graph.Views.{GraphExport, PrivEscPath}

-- The tables, the Redis list and the graph, if there is one.
pub record Backend (F G : Type 0) : Type 0 where
  pub tables : Tables F
  pub list : List String
  pub graph : Option G

-- The values that the handlers send.
pub data Reply (F : Type 0) : Type 0 where
  error_reply : String → Reply F
  asset_reply : Asset → Reply F
  assets_reply : List Asset → Reply F
  authorized_reply : String → Bool → Reply F
  job_reply : ScanJob → Reply F
  jobs_reply : List ScanJob → Reply F
  findings_reply : List (Finding F) → Reply F
  status_reply : FindingStatus → Reply F
  controls_reply : String → List ComplianceRef → RemediationGuide → Reply F
  synced_reply : ℕ → ℕ → Reply F
  imported_reply : ℕ → List String → Reply F
  reachable_reply : String → String → ℤ → String → Reply F
  account_reply : Account → Reply F
  escalation_reply : String → String → String → F → Reply F
  reuse_reply : String → String → F → Reply F
  entries_reply : List Entry → Reply F
  intact_reply : Bool → ℕ → Option ℕ → Reply F
  ready_reply : Bool → String → String → Reply F
  health_reply : Reply F
  accounts_reply : List Account → Reply F
  paths_reply : String → F → ℤ → ℕ → List (AttackPath F) → Reply F
  export_reply : GraphExport F → Reply F
  priv_esc_reply : PrivEscPath F → Reply F

-- The body of a request: an error of the decoder, or the input.
pub data Decoded (A : Type 0) : Type 0 where
  bad : String → Decoded A
  input : A → Decoded A

pub record AssetInput : Type 0 where
  pub name : String
  pub asset_type : AssetType
  pub target : String
  pub criticality : Criticality
  pub tags : List String
  pub scan_authorized : Bool

pub record Codec (F : Type 0) : Type 0 where
  pub json : Reply F → String
  pub asset_input : Request → Decoded AssetInput
  pub authorized : Request → Decoded Bool
  -- what decoding leaves in the profile, whether it gives an error or not
  pub profile : Request → ScanProfile
  pub status : Request → Decoded FindingStatus

-- The server of the tables, and the error of Redis if it fails at the n-th call of the server.
pub record Backing (F : Type 0) : Type 0 where
  pub server : Server F
  pub redis_down : ℕ → Option String

module _ {F : Type 0} (c : Codec F) where
  -- writeJSON
  unfoldable pub write_json : Writer → ℕ → Reply F → Writer
  unfolding set_header write_header write_body
  write_json w status v =
      write_body (write_header (set_header w "Content-Type" "application/json") status) (c.json v)

  -- badRequest
  abbrev pub bad_request : Writer → String → Writer
  bad_request w msg = write_json w 400 (error_reply msg)

  -- serverError
  abbrev pub server_error : Writer → String → Writer
  server_error w msg = write_json w 500 (error_reply msg)

  abbrev pub store_error : Writer → Error → Writer
  store_error w not_found = server_error w "not found"
  store_error w (failure e) = server_error w e

  -- notFoundOrError
  unfoldable pub not_found_or_error : Writer → Error → Writer
  unfolding write_json
  not_found_or_error w not_found = write_json w 404 (error_reply "not found")
  not_found_or_error w (failure e) = server_error w e

  -- graphDisabled
  abbrev pub graph_disabled : Writer → Writer
  graph_disabled w =
      write_json w 503 (error_reply "graph component disabled (set AMANKAN_NEO4J_URI)")

  -- health
  unfoldable pub health : {S : Type 0} → Handler S
  unfolding write_json
  health w r s = (write_json w 200 health_reply, s)

-- securityTxt
unfoldable pub security_txt : {S : Type 0} → Handler S
unfolding set_header write_body
security_txt w r s = (
  write_body (set_header w "Content-Type" "text/plain; charset=utf-8")
      "Contact: mailto:security@amankan.example\nExpires: 2027-12-31T23:59:59Z\nPreferred-Languages: en, id\nPolicy: https://github.com/amankan/amankan/blob/main/SECURITY.md\n",
  s,
)
